-- ===== src/Casing/Tables/ToUpper/From0061.antt =====
-- `internal::dchar_to_upper_simple` (sys.Text/data/UnicodeCasing.h): one-to-one uppercase.
-- An entry has the first and last code point of a run, its stride, and what the first maps to.
use libcxxext.Prelude.{ℕ, List, [], ◌∷◌}

abbrev pub to_upper_simple_from_0061 : List (ℕ × ℕ × ℕ × ℕ)
to_upper_simple_from_0061 =
    (0x0061, 0x007A, 1, 0x0041)
    ∷ (0x00B5, 0x00B5, 1, 0x039C)
    ∷ (0x00E0, 0x00F6, 1, 0x00C0)
    ∷ (0x00F8, 0x00FE, 1, 0x00D8)
    ∷ (0x00FF, 0x00FF, 1, 0x0178)
    ∷ (0x0101, 0x012F, 2, 0x0100)
    ∷ (0x0131, 0x0131, 1, 0x0049)
    ∷ (0x0133, 0x0137, 2, 0x0132)
    ∷ (0x013A, 0x0148, 2, 0x0139)
    ∷ (0x014B, 0x0177, 2, 0x014A)
    ∷ (0x017A, 0x017E, 2, 0x0179)
    ∷ (0x017F, 0x017F, 1, 0x0053)
    ∷ (0x0180, 0x0180, 1, 0x0243)
    ∷ (0x0183, 0x0185, 2, 0x0182)
    ∷ (0x0188, 0x0188, 1, 0x0187)
    ∷ (0x018C, 0x018C, 1, 0x018B)
    ∷ (0x0192, 0x0192, 1, 0x0191)
    ∷ (0x0195, 0x0195, 1, 0x01F6)
    ∷ (0x0199, 0x0199, 1, 0x0198)
    ∷ (0x019A, 0x019A, 1, 0x023D)
    ∷ (0x019B, 0x019B, 1, 0xA7DC)
    ∷ (0x019E, 0x019E, 1, 0x0220)
    ∷ (0x01A1, 0x01A5, 2, 0x01A0)
    ∷ (0x01A8, 0x01A8, 1, 0x01A7)
    ∷ (0x01AD, 0x01AD, 1, 0x01AC)
    ∷ (0x01B0, 0x01B0, 1, 0x01AF)
    ∷ (0x01B4, 0x01B6, 2, 0x01B3)
    ∷ (0x01B9, 0x01B9, 1, 0x01B8)
    ∷ (0x01BD, 0x01BD, 1, 0x01BC)
    ∷ (0x01BF, 0x01BF, 1, 0x01F7)
    ∷ (0x01C5, 0x01C5, 1, 0x01C4)
    ∷ (0x01C6, 0x01C6, 1, 0x01C4)
    ∷ (0x01C8, 0x01C8, 1, 0x01C7)
    ∷ (0x01C9, 0x01C9, 1, 0x01C7)
    ∷ (0x01CB, 0x01CB, 1, 0x01CA)
    ∷ (0x01CC, 0x01CC, 1, 0x01CA)
    ∷ (0x01CE, 0x01CE, 1, 0x01CD)
    ∷ []

abbrev pub to_upper_simple_from_01d0 : List (ℕ × ℕ × ℕ × ℕ)
to_upper_simple_from_01d0 =
    (0x01D0, 0x01DC, 2, 0x01CF)
    ∷ (0x01DD, 0x01DD, 1, 0x018E)
    ∷ (0x01DF, 0x01EF, 2, 0x01DE)
    ∷ (0x01F2, 0x01F2, 1, 0x01F1)
    ∷ (0x01F3, 0x01F3, 1, 0x01F1)
    ∷ (0x01F5, 0x01F5, 1, 0x01F4)
    ∷ (0x01F9, 0x021F, 2, 0x01F8)
    ∷ (0x0223, 0x0233, 2, 0x0222)
    ∷ (0x023C, 0x023C, 1, 0x023B)
    ∷ (0x023F, 0x0240, 1, 0x2C7E)
    ∷ (0x0242, 0x0242, 1, 0x0241)
    ∷ (0x0247, 0x024F, 2, 0x0246)
    ∷ (0x0250, 0x0250, 1, 0x2C6F)
    ∷ (0x0251, 0x0251, 1, 0x2C6D)
    ∷ (0x0252, 0x0252, 1, 0x2C70)
    ∷ (0x0253, 0x0253, 1, 0x0181)
    ∷ (0x0254, 0x0254, 1, 0x0186)
    ∷ (0x0256, 0x0257, 1, 0x0189)
    ∷ (0x0259, 0x0259, 1, 0x018F)
    ∷ (0x025B, 0x025B, 1, 0x0190)
    ∷ (0x025C, 0x025C, 1, 0xA7AB)
    ∷ (0x0260, 0x0260, 1, 0x0193)
    ∷ (0x0261, 0x0261, 1, 0xA7AC)
    ∷ (0x0263, 0x0263, 1, 0x0194)
    ∷ (0x0264, 0x0264, 1, 0xA7CB)
    ∷ (0x0265, 0x0265, 1, 0xA78D)
    ∷ (0x0266, 0x0266, 1, 0xA7AA)
    ∷ (0x0268, 0x0268, 1, 0x0197)
    ∷ (0x0269, 0x0269, 1, 0x0196)
    ∷ (0x026A, 0x026A, 1, 0xA7AE)
    ∷ (0x026B, 0x026B, 1, 0x2C62)
    ∷ (0x026C, 0x026C, 1, 0xA7AD)
    ∷ (0x026F, 0x026F, 1, 0x019C)
    ∷ (0x0271, 0x0271, 1, 0x2C6E)
    ∷ (0x0272, 0x0272, 1, 0x019D)
    ∷ (0x0275, 0x0275, 1, 0x019F)
    ∷ (0x027D, 0x027D, 1, 0x2C64)
    ∷ (0x0280, 0x0280, 1, 0x01A6)
    ∷ (0x0282, 0x0282, 1, 0xA7C5)
    ∷ (0x0283, 0x0283, 1, 0x01A9)
    ∷ (0x0287, 0x0287, 1, 0xA7B1)
    ∷ (0x0288, 0x0288, 1, 0x01AE)
    ∷ (0x0289, 0x0289, 1, 0x0244)
    ∷ (0x028A, 0x028B, 1, 0x01B1)
    ∷ (0x028C, 0x028C, 1, 0x0245)
    ∷ (0x0292, 0x0292, 1, 0x01B7)
    ∷ (0x029D, 0x029D, 1, 0xA7B2)
    ∷ (0x029E, 0x029E, 1, 0xA7B0)
    ∷ (0x0345, 0x0345, 1, 0x0399)
    ∷ (0x0371, 0x0373, 2, 0x0370)
    ∷ (0x0377, 0x0377, 1, 0x0376)
    ∷ (0x037B, 0x037D, 1, 0x03FD)
    ∷ (0x03AC, 0x03AC, 1, 0x0386)
    ∷ (0x03AD, 0x03AF, 1, 0x0388)
    ∷ (0x03B1, 0x03C1, 1, 0x0391)
    ∷ (0x03C2, 0x03C2, 1, 0x03A3)
    ∷ (0x03C3, 0x03CB, 1, 0x03A3)
    ∷ (0x03CC, 0x03CC, 1, 0x038C)
    ∷ (0x03CD, 0x03CE, 1, 0x038E)
    ∷ (0x03D0, 0x03D0, 1, 0x0392)
    ∷ (0x03D1, 0x03D1, 1, 0x0398)
    ∷ (0x03D5, 0x03D5, 1, 0x03A6)
    ∷ (0x03D6, 0x03D6, 1, 0x03A0)
    ∷ (0x03D7, 0x03D7, 1, 0x03CF)
    ∷ (0x03D9, 0x03E7, 2, 0x03D8)
    ∷ []

abbrev pub to_upper_simple_from_03e9 : List (ℕ × ℕ × ℕ × ℕ)
to_upper_simple_from_03e9 =
    (0x03E9, 0x03EF, 2, 0x03E8)
    ∷ (0x03F0, 0x03F0, 1, 0x039A)
    ∷ (0x03F1, 0x03F1, 1, 0x03A1)
    ∷ (0x03F2, 0x03F2, 1, 0x03F9)
    ∷ (0x03F3, 0x03F3, 1, 0x037F)
    ∷ (0x03F5, 0x03F5, 1, 0x0395)
    ∷ (0x03F8, 0x03F8, 1, 0x03F7)
    ∷ (0x03FB, 0x03FB, 1, 0x03FA)
    ∷ (0x0430, 0x044F, 1, 0x0410)
    ∷ (0x0450, 0x045F, 1, 0x0400)
    ∷ (0x0461, 0x0481, 2, 0x0460)
    ∷ (0x048B, 0x04BF, 2, 0x048A)
    ∷ (0x04C2, 0x04CE, 2, 0x04C1)
    ∷ (0x04CF, 0x04CF, 1, 0x04C0)
    ∷ (0x04D1, 0x051D, 2, 0x04D0)
    ∷ []

abbrev pub to_upper_simple_from_051f : List (ℕ × ℕ × ℕ × ℕ)
to_upper_simple_from_051f =
    (0x051F, 0x052F, 2, 0x051E)
    ∷ (0x0561, 0x0586, 1, 0x0531)
    ∷ (0x10D0, 0x10FA, 1, 0x1C90)
    ∷ (0x10FD, 0x10FF, 1, 0x1CBD)
    ∷ (0x13F8, 0x13FD, 1, 0x13F0)
    ∷ (0x1C80, 0x1C80, 1, 0x0412)
    ∷ (0x1C81, 0x1C81, 1, 0x0414)
    ∷ (0x1C82, 0x1C82, 1, 0x041E)
    ∷ (0x1C83, 0x1C84, 1, 0x0421)
    ∷ (0x1C85, 0x1C85, 1, 0x0422)
    ∷ (0x1C86, 0x1C86, 1, 0x042A)
    ∷ (0x1C87, 0x1C87, 1, 0x0462)
    ∷ (0x1C88, 0x1C88, 1, 0xA64A)
    ∷ (0x1C8A, 0x1C8A, 1, 0x1C89)
    ∷ (0x1D79, 0x1D79, 1, 0xA77D)
    ∷ (0x1D7D, 0x1D7D, 1, 0x2C63)
    ∷ (0x1D8E, 0x1D8E, 1, 0xA7C6)
    ∷ (0x1E01, 0x1E4B, 2, 0x1E00)
    ∷ []
