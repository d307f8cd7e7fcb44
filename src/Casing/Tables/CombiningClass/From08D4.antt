-- ===== src/Casing/Tables/CombiningClass/From08D4.antt =====
-- `internal::dchar_ccc` (sys.Text/data/UnicodeCCC.h): the canonical combining class, as its number in the
-- enumeration. An entry has the first and last code point of a range, and its class.
use libcxxext.Prelude.{ℕ, List, [], ◌∷◌}

abbrev pub ccc_from_08d4 : List (ℕ × ℕ × ℕ)
ccc_from_08d4 =
    (0x08D4, 0x08E1, 230)
    ∷ (0x08E3, 0x08E3, 220)
    ∷ (0x08E4, 0x08E5, 230)
    ∷ (0x08E6, 0x08E6, 220)
    ∷ (0x08E7, 0x08E8, 230)
    ∷ (0x08E9, 0x08E9, 220)
    ∷ (0x08EA, 0x08EC, 230)
    ∷ (0x08ED, 0x08EF, 220)
    ∷ (0x08F0, 0x08F0, 27)
    ∷ (0x08F1, 0x08F1, 28)
    ∷ (0x08F2, 0x08F2, 29)
    ∷ (0x08F3, 0x08F5, 230)
    ∷ (0x08F6, 0x08F6, 220)
    ∷ (0x08F7, 0x08F8, 230)
    ∷ (0x08F9, 0x08FA, 220)
    ∷ (0x08FB, 0x08FF, 230)
    ∷ (0x093C, 0x093C, 7)
    ∷ (0x094D, 0x094D, 9)
    ∷ (0x0951, 0x0951, 230)
    ∷ (0x0952, 0x0952, 220)
    ∷ (0x0953, 0x0954, 230)
    ∷ (0x09BC, 0x09BC, 7)
    ∷ (0x09CD, 0x09CD, 9)
    ∷ (0x09FE, 0x09FE, 230)
    ∷ (0x0A3C, 0x0A3C, 7)
    ∷ (0x0A4D, 0x0A4D, 9)
    ∷ (0x0ABC, 0x0ABC, 7)
    ∷ (0x0ACD, 0x0ACD, 9)
    ∷ (0x0B3C, 0x0B3C, 7)
    ∷ (0x0B4D, 0x0B4D, 9)
    ∷ (0x0BCD, 0x0BCD, 9)
    ∷ (0x0C3C, 0x0C3C, 7)
    ∷ (0x0C4D, 0x0C4D, 9)
    ∷ (0x0C55, 0x0C55, 84)
    ∷ (0x0C56, 0x0C56, 91)
    ∷ (0x0CBC, 0x0CBC, 7)
    ∷ (0x0CCD, 0x0CCD, 9)
    ∷ (0x0D3B, 0x0D3C, 9)
    ∷ (0x0D4D, 0x0D4D, 9)
    ∷ (0x0DCA, 0x0DCA, 9)
    ∷ (0x0E38, 0x0E39, 103)
    ∷ (0x0E3A, 0x0E3A, 9)
    ∷ (0x0E48, 0x0E4B, 107)
    ∷ (0x0EB8, 0x0EB9, 118)
    ∷ (0x0EBA, 0x0EBA, 9)
    ∷ (0x0EC8, 0x0ECB, 122)
    ∷ (0x0F18, 0x0F19, 220)
    ∷ (0x0F35, 0x0F35, 220)
    ∷ (0x0F37, 0x0F37, 220)
    ∷ (0x0F39, 0x0F39, 216)
    ∷ (0x0F71, 0x0F71, 129)
    ∷ (0x0F72, 0x0F72, 130)
    ∷ (0x0F74, 0x0F74, 132)
    ∷ (0x0F7A, 0x0F7D, 130)
    ∷ (0x0F80, 0x0F80, 130)
    ∷ (0x0F82, 0x0F83, 230)
    ∷ (0x0F84, 0x0F84, 9)
    ∷ (0x0F86, 0x0F87, 230)
    ∷ (0x0FC6, 0x0FC6, 220)
    ∷ (0x1037, 0x1037, 7)
    ∷ (0x1039, 0x103A, 9)
    ∷ (0x108D, 0x108D, 220)
    ∷ (0x135D, 0x135F, 230)
    ∷ (0x1714, 0x1715, 9)
    ∷ (0x1734, 0x1734, 9)
    ∷ (0x17D2, 0x17D2, 9)
    ∷ (0x17DD, 0x17DD, 230)
    ∷ (0x18A9, 0x18A9, 228)
    ∷ (0x1939, 0x1939, 222)
    ∷ (0x193A, 0x193A, 230)
    ∷ (0x193B, 0x193B, 220)
    ∷ (0x1A17, 0x1A17, 230)
    ∷ (0x1A18, 0x1A18, 220)
    ∷ (0x1A60, 0x1A60, 9)
    ∷ (0x1A75, 0x1A7C, 230)
    ∷ (0x1A7F, 0x1A7F, 220)
    ∷ (0x1AB0, 0x1AB4, 230)
    ∷ (0x1AB5, 0x1ABA, 220)
    ∷ (0x1ABB, 0x1ABC, 230)
    ∷ (0x1ABD, 0x1ABD, 220)
    ∷ (0x1ABF, 0x1AC0, 220)
    ∷ (0x1AC1, 0x1AC2, 230)
    ∷ (0x1AC3, 0x1AC4, 220)
    ∷ []

abbrev pub ccc_from_1ac5 : List (ℕ × ℕ × ℕ)
ccc_from_1ac5 =
    (0x1AC5, 0x1AC9, 230)
    ∷ (0x1ACA, 0x1ACA, 220)
    ∷ (0x1ACB, 0x1ADC, 230)
    ∷ (0x1ADD, 0x1ADD, 220)
    ∷ (0x1AE0, 0x1AE5, 230)
    ∷ (0x1AE6, 0x1AE6, 220)
    ∷ (0x1AE7, 0x1AEA, 230)
    ∷ (0x1AEB, 0x1AEB, 234)
    ∷ (0x1B34, 0x1B34, 7)
    ∷ (0x1B44, 0x1B44, 9)
    ∷ (0x1B6B, 0x1B6B, 230)
    ∷ (0x1B6C, 0x1B6C, 220)
    ∷ (0x1B6D, 0x1B73, 230)
    ∷ (0x1BAA, 0x1BAB, 9)
    ∷ (0x1BE6, 0x1BE6, 7)
    ∷ (0x1BF2, 0x1BF3, 9)
    ∷ (0x1C37, 0x1C37, 7)
    ∷ (0x1CD0, 0x1CD2, 230)
    ∷ (0x1CD4, 0x1CD4, 1)
    ∷ (0x1CD5, 0x1CD9, 220)
    ∷ (0x1CDA, 0x1CDB, 230)
    ∷ (0x1CDC, 0x1CDF, 220)
    ∷ (0x1CE0, 0x1CE0, 230)
    ∷ (0x1CE2, 0x1CE8, 1)
    ∷ (0x1CED, 0x1CED, 220)
    ∷ (0x1CF4, 0x1CF4, 230)
    ∷ (0x1CF8, 0x1CF9, 230)
    ∷ (0x1DC0, 0x1DC1, 230)
    ∷ (0x1DC2, 0x1DC2, 220)
    ∷ (0x1DC3, 0x1DC9, 230)
    ∷ (0x1DCA, 0x1DCA, 220)
    ∷ (0x1DCB, 0x1DCC, 230)
    ∷ (0x1DCD, 0x1DCD, 234)
    ∷ (0x1DCE, 0x1DCE, 214)
    ∷ (0x1DCF, 0x1DCF, 220)
    ∷ (0x1DD0, 0x1DD0, 202)
    ∷ (0x1DD1, 0x1DF5, 230)
    ∷ (0x1DF6, 0x1DF6, 232)
    ∷ (0x1DF7, 0x1DF8, 228)
    ∷ (0x1DF9, 0x1DF9, 220)
    ∷ (0x1DFA, 0x1DFA, 218)
    ∷ (0x1DFB, 0x1DFB, 230)
    ∷ (0x1DFC, 0x1DFC, 233)
    ∷ (0x1DFD, 0x1DFD, 220)
    ∷ (0x1DFE, 0x1DFE, 230)
    ∷ (0x1DFF, 0x1DFF, 220)
    ∷ (0x20D0, 0x20D1, 230)
    ∷ (0x20D2, 0x20D3, 1)
    ∷ (0x20D4, 0x20D4, 230)
    ∷ []
