-- ===== src/Casing/Tables/CombiningClass/From20D5.antt =====
-- `internal::dchar_ccc` (sys.Text/data/UnicodeCCC.h): the canonical combining class, as its number in the
-- enumeration. An entry has the first and last code point of a range, and its class.
use libcxxext.Prelude.{ℕ, List, [], ◌∷◌}

abbrev pub ccc_from_20d5 : List (ℕ × ℕ × ℕ)
ccc_from_20d5 =
    (0x20D5, 0x20D7, 230)
    ∷ (0x20D8, 0x20DA, 1)
    ∷ (0x20DB, 0x20DC, 230)
    ∷ (0x20E1, 0x20E1, 230)
    ∷ (0x20E5, 0x20E6, 1)
    ∷ (0x20E7, 0x20E7, 230)
    ∷ (0x20E8, 0x20E8, 220)
    ∷ (0x20E9, 0x20E9, 230)
    ∷ (0x20EA, 0x20EB, 1)
    ∷ (0x20EC, 0x20EF, 220)
    ∷ (0x20F0, 0x20F0, 230)
    ∷ (0x2CEF, 0x2CF1, 230)
    ∷ (0x2D7F, 0x2D7F, 9)
    ∷ (0x2DE0, 0x2DFF, 230)
    ∷ (0x302A, 0x302A, 218)
    ∷ (0x302B, 0x302B, 228)
    ∷ (0x302C, 0x302C, 232)
    ∷ (0x302D, 0x302D, 222)
    ∷ (0x302E, 0x302F, 224)
    ∷ (0x3099, 0x309A, 8)
    ∷ (0xA66F, 0xA66F, 230)
    ∷ (0xA674, 0xA67D, 230)
    ∷ (0xA69E, 0xA69F, 230)
    ∷ (0xA6F0, 0xA6F1, 230)
    ∷ (0xA806, 0xA806, 9)
    ∷ (0xA82C, 0xA82C, 9)
    ∷ (0xA8C4, 0xA8C4, 9)
    ∷ (0xA8E0, 0xA8F1, 230)
    ∷ (0xA92B, 0xA92D, 220)
    ∷ (0xA953, 0xA953, 9)
    ∷ (0xA9B3, 0xA9B3, 7)
    ∷ (0xA9C0, 0xA9C0, 9)
    ∷ (0xAAB0, 0xAAB0, 230)
    ∷ (0xAAB2, 0xAAB3, 230)
    ∷ (0xAAB4, 0xAAB4, 220)
    ∷ (0xAAB7, 0xAAB8, 230)
    ∷ (0xAABE, 0xAABF, 230)
    ∷ (0xAAC1, 0xAAC1, 230)
    ∷ (0xAAF6, 0xAAF6, 9)
    ∷ (0xABED, 0xABED, 9)
    ∷ (0xFB1E, 0xFB1E, 26)
    ∷ (0xFE20, 0xFE26, 230)
    ∷ (0xFE27, 0xFE2D, 220)
    ∷ (0xFE2E, 0xFE2F, 230)
    ∷ (0x101FD, 0x101FD, 220)
    ∷ (0x102E0, 0x102E0, 220)
    ∷ (0x10376, 0x1037A, 230)
    ∷ (0x10A0D, 0x10A0D, 220)
    ∷ (0x10A0F, 0x10A0F, 230)
    ∷ (0x10A38, 0x10A38, 230)
    ∷ (0x10A39, 0x10A39, 1)
    ∷ (0x10A3A, 0x10A3A, 220)
    ∷ (0x10A3F, 0x10A3F, 9)
    ∷ (0x10AE5, 0x10AE5, 230)
    ∷ (0x10AE6, 0x10AE6, 220)
    ∷ []

abbrev pub ccc_from_10d24 : List (ℕ × ℕ × ℕ)
ccc_from_10d24 =
    (0x10D24, 0x10D27, 230)
    ∷ (0x10D69, 0x10D6D, 230)
    ∷ (0x10EAB, 0x10EAC, 230)
    ∷ (0x10EFA, 0x10EFB, 220)
    ∷ (0x10EFD, 0x10EFF, 220)
    ∷ (0x10F46, 0x10F47, 220)
    ∷ (0x10F48, 0x10F4A, 230)
    ∷ (0x10F4B, 0x10F4B, 220)
    ∷ (0x10F4C, 0x10F4C, 230)
    ∷ (0x10F4D, 0x10F50, 220)
    ∷ (0x10F82, 0x10F82, 230)
    ∷ (0x10F83, 0x10F83, 220)
    ∷ (0x10F84, 0x10F84, 230)
    ∷ (0x10F85, 0x10F85, 220)
    ∷ (0x11046, 0x11046, 9)
    ∷ (0x11070, 0x11070, 9)
    ∷ (0x1107F, 0x1107F, 9)
    ∷ (0x110B9, 0x110B9, 9)
    ∷ (0x110BA, 0x110BA, 7)
    ∷ (0x11100, 0x11102, 230)
    ∷ (0x11133, 0x11134, 9)
    ∷ (0x11173, 0x11173, 7)
    ∷ (0x111C0, 0x111C0, 9)
    ∷ (0x111CA, 0x111CA, 7)
    ∷ (0x11235, 0x11235, 9)
    ∷ (0x11236, 0x11236, 7)
    ∷ (0x112E9, 0x112E9, 7)
    ∷ (0x112EA, 0x112EA, 9)
    ∷ (0x1133B, 0x1133C, 7)
    ∷ (0x1134D, 0x1134D, 9)
    ∷ (0x11366, 0x1136C, 230)
    ∷ (0x11370, 0x11374, 230)
    ∷ (0x113CE, 0x113D0, 9)
    ∷ (0x11442, 0x11442, 9)
    ∷ (0x11446, 0x11446, 7)
    ∷ (0x1145E, 0x1145E, 230)
    ∷ (0x114C2, 0x114C2, 9)
    ∷ (0x114C3, 0x114C3, 7)
    ∷ (0x115BF, 0x115BF, 9)
    ∷ (0x115C0, 0x115C0, 7)
    ∷ (0x1163F, 0x1163F, 9)
    ∷ (0x116B6, 0x116B6, 9)
    ∷ (0x116B7, 0x116B7, 7)
    ∷ (0x1172B, 0x1172B, 9)
    ∷ (0x11839, 0x11839, 9)
    ∷ (0x1183A, 0x1183A, 7)
    ∷ (0x1193D, 0x1193E, 9)
    ∷ (0x11943, 0x11943, 7)
    ∷ (0x119E0, 0x119E0, 9)
    ∷ (0x11A34, 0x11A34, 9)
    ∷ (0x11A47, 0x11A47, 9)
    ∷ (0x11A99, 0x11A99, 9)
    ∷ (0x11C3F, 0x11C3F, 9)
    ∷ (0x11D42, 0x11D42, 7)
    ∷ (0x11D44, 0x11D45, 9)
    ∷ (0x11D97, 0x11D97, 9)
    ∷ (0x11F41, 0x11F42, 9)
    ∷ (0x1612F, 0x1612F, 9)
    ∷ (0x16AF0, 0x16AF4, 1)
    ∷ (0x16B30, 0x16B36, 230)
    ∷ (0x16FF0, 0x16FF1, 6)
    ∷ (0x1BC9E, 0x1BC9E, 1)
    ∷ (0x1D165, 0x1D166, 216)
    ∷ (0x1D167, 0x1D169, 1)
    ∷ (0x1D16D, 0x1D16D, 226)
    ∷ (0x1D16E, 0x1D172, 216)
    ∷ (0x1D17B, 0x1D182, 220)
    ∷ (0x1D185, 0x1D189, 230)
    ∷ (0x1D18A, 0x1D18B, 220)
    ∷ (0x1D1AA, 0x1D1AD, 230)
    ∷ (0x1D242, 0x1D244, 230)
    ∷ (0x1E000, 0x1E006, 230)
    ∷ (0x1E008, 0x1E008, 230)
    ∷ []

abbrev pub ccc_from_1e009 : List (ℕ × ℕ × ℕ)
ccc_from_1e009 =
    (0x1E009, 0x1E018, 230)
    ∷ (0x1E01B, 0x1E021, 230)
    ∷ (0x1E023, 0x1E024, 230)
    ∷ (0x1E026, 0x1E02A, 230)
    ∷ (0x1E08F, 0x1E08F, 230)
    ∷ (0x1E130, 0x1E136, 230)
    ∷ (0x1E2AE, 0x1E2AE, 230)
    ∷ (0x1E2EC, 0x1E2EF, 230)
    ∷ (0x1E4EC, 0x1E4ED, 232)
    ∷ (0x1E4EE, 0x1E4EE, 220)
    ∷ (0x1E4EF, 0x1E4EF, 230)
    ∷ (0x1E5EE, 0x1E5EE, 230)
    ∷ (0x1E5EF, 0x1E5EF, 220)
    ∷ (0x1E6E3, 0x1E6E3, 230)
    ∷ (0x1E6E6, 0x1E6E6, 230)
    ∷ (0x1E6EE, 0x1E6EF, 230)
    ∷ (0x1E6F5, 0x1E6F5, 230)
    ∷ (0x1E8D0, 0x1E8D6, 220)
    ∷ (0x1E944, 0x1E949, 230)
    ∷ (0x1E94A, 0x1E94A, 7)
    ∷ []
