-- ===== src/Casing/Tables/Cased/FromA77E.antt =====
-- `internal::dchar_is_cased` (sys.Text/data/UnicodeCasing.h): the cased code points, as ranges of code points.
use libcxxext.Prelude.{ℕ, List, [], ◌∷◌}

abbrev pub is_cased_from_a77e : List (ℕ × ℕ)
is_cased_from_a77e =
    (0xA77E, 0xA787)
    ∷ (0xA78B, 0xA78E)
    ∷ (0xA790, 0xA7DC)
    ∷ (0xA7F1, 0xA7F6)
    ∷ (0xA7F8, 0xA7FA)
    ∷ (0xAB30, 0xAB5A)
    ∷ (0xAB5C, 0xAB62)
    ∷ []

abbrev pub is_cased_from_ab63 : List (ℕ × ℕ)
is_cased_from_ab63 =
    (0xAB63, 0xAB69)
    ∷ (0xAB70, 0xABBF)
    ∷ (0xFB00, 0xFB06)
    ∷ (0xFB13, 0xFB17)
    ∷ (0xFF21, 0xFF3A)
    ∷ (0xFF41, 0xFF59)
    ∷ []

abbrev pub is_cased_from_ff5a : List (ℕ × ℕ)
is_cased_from_ff5a =
    (0xFF5A, 0xFF5A) ∷ (0x10400, 0x1044F) ∷ (0x104B0, 0x104D3) ∷ (0x104D8, 0x104F8) ∷ []

abbrev pub is_cased_from_104f9 : List (ℕ × ℕ)
is_cased_from_104f9 =
    (0x104F9, 0x104FB)
    ∷ (0x10570, 0x1057A)
    ∷ (0x1057C, 0x1058A)
    ∷ (0x1058C, 0x10592)
    ∷ (0x10594, 0x10595)
    ∷ (0x10597, 0x105A1)
    ∷ (0x105A3, 0x105B1)
    ∷ (0x105B3, 0x105B9)
    ∷ (0x105BB, 0x105BC)
    ∷ (0x10780, 0x10780)
    ∷ (0x10783, 0x10785)
    ∷ (0x10787, 0x107B0)
    ∷ (0x107B2, 0x107BA)
    ∷ (0x10C80, 0x10C95)
    ∷ []

abbrev pub is_cased_from_10c96 : List (ℕ × ℕ)
is_cased_from_10c96 =
    (0x10C96, 0x10CB2)
    ∷ (0x10CC0, 0x10CF2)
    ∷ (0x10D50, 0x10D65)
    ∷ (0x10D70, 0x10D85)
    ∷ (0x118A0, 0x118B9)
    ∷ []

abbrev pub is_cased_from_118ba : List (ℕ × ℕ)
is_cased_from_118ba =
    (0x118BA, 0x118DF) ∷ (0x16E40, 0x16E7F) ∷ (0x16EA0, 0x16EB8) ∷ (0x16EBB, 0x16ED1) ∷ []

abbrev pub is_cased_from_16ed2 : List (ℕ × ℕ)
is_cased_from_16ed2 = (0x16ED2, 0x16ED3) ∷ (0x1D400, 0x1D454) ∷ (0x1D456, 0x1D494) ∷ []

abbrev pub is_cased_from_1d495 : List (ℕ × ℕ)
is_cased_from_1d495 =
    (0x1D495, 0x1D49C)
    ∷ (0x1D49E, 0x1D49F)
    ∷ (0x1D4A2, 0x1D4A2)
    ∷ (0x1D4A5, 0x1D4A6)
    ∷ (0x1D4A9, 0x1D4AC)
    ∷ (0x1D4AE, 0x1D4B9)
    ∷ (0x1D4BB, 0x1D4BB)
    ∷ (0x1D4BD, 0x1D4C3)
    ∷ (0x1D4C5, 0x1D505)
    ∷ (0x1D507, 0x1D50A)
    ∷ (0x1D50D, 0x1D514)
    ∷ (0x1D516, 0x1D51C)
    ∷ (0x1D51E, 0x1D539)
    ∷ (0x1D53B, 0x1D53B)
    ∷ []

abbrev pub is_cased_from_1d53c : List (ℕ × ℕ)
is_cased_from_1d53c =
    (0x1D53C, 0x1D53E)
    ∷ (0x1D540, 0x1D544)
    ∷ (0x1D546, 0x1D546)
    ∷ (0x1D54A, 0x1D550)
    ∷ (0x1D552, 0x1D5D7)
    ∷ []

abbrev pub is_cased_from_1d5d8 : List (ℕ × ℕ)
is_cased_from_1d5d8 = (0x1D5D8, 0x1D66D) ∷ []

abbrev pub is_cased_from_1d66e : List (ℕ × ℕ)
is_cased_from_1d66e =
    (0x1D66E, 0x1D6A5)
    ∷ (0x1D6A8, 0x1D6C0)
    ∷ (0x1D6C2, 0x1D6DA)
    ∷ (0x1D6DC, 0x1D6FA)
    ∷ (0x1D6FC, 0x1D708)
    ∷ []

abbrev pub is_cased_from_1d709 : List (ℕ × ℕ)
is_cased_from_1d709 =
    (0x1D709, 0x1D714)
    ∷ (0x1D716, 0x1D734)
    ∷ (0x1D736, 0x1D74E)
    ∷ (0x1D750, 0x1D76E)
    ∷ (0x1D770, 0x1D788)
    ∷ (0x1D78A, 0x1D7A3)
    ∷ []

abbrev pub is_cased_from_1d7a4 : List (ℕ × ℕ)
is_cased_from_1d7a4 =
    (0x1D7A4, 0x1D7A8)
    ∷ (0x1D7AA, 0x1D7C2)
    ∷ (0x1D7C4, 0x1D7CB)
    ∷ (0x1DF00, 0x1DF09)
    ∷ (0x1DF0B, 0x1DF1E)
    ∷ (0x1DF25, 0x1DF2A)
    ∷ (0x1E030, 0x1E06D)
    ∷ (0x1E900, 0x1E90D)
    ∷ []

abbrev pub is_cased_from_1e90e : List (ℕ × ℕ)
is_cased_from_1e90e =
    (0x1E90E, 0x1E943) ∷ (0x1F130, 0x1F149) ∷ (0x1F150, 0x1F169) ∷ (0x1F170, 0x1F189) ∷ []
