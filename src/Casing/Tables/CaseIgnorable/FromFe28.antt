-- ===== src/Casing/Tables/CaseIgnorable/FromFe28.antt =====
-- `internal::dchar_is_case_ignorable` (sys.Text/data/UnicodeCasing.h): the code points that casing contexts skip, as ranges of code points.
use libcxxext.Prelude.{ℕ, List, [], ◌∷◌}

abbrev pub is_case_ignorable_from_fe28 : List (ℕ × ℕ)
is_case_ignorable_from_fe28 =
    (0xFE28, 0xFE2F)
    ∷ (0xFE52, 0xFE52)
    ∷ (0xFE55, 0xFE55)
    ∷ (0xFEFF, 0xFEFF)
    ∷ (0xFF07, 0xFF07)
    ∷ (0xFF0E, 0xFF0E)
    ∷ (0xFF1A, 0xFF1A)
    ∷ (0xFF3E, 0xFF3E)
    ∷ (0xFF40, 0xFF40)
    ∷ (0xFF70, 0xFF70)
    ∷ (0xFF9E, 0xFF9F)
    ∷ (0xFFE3, 0xFFE3)
    ∷ (0xFFF9, 0xFFFB)
    ∷ (0x101FD, 0x101FD)
    ∷ (0x102E0, 0x102E0)
    ∷ (0x10376, 0x1037A)
    ∷ (0x10780, 0x10785)
    ∷ (0x10787, 0x107B0)
    ∷ (0x107B2, 0x107BA)
    ∷ (0x10A01, 0x10A03)
    ∷ (0x10A05, 0x10A06)
    ∷ (0x10A0C, 0x10A0F)
    ∷ (0x10A38, 0x10A3A)
    ∷ (0x10A3F, 0x10A3F)
    ∷ (0x10AE5, 0x10AE6)
    ∷ (0x10D24, 0x10D27)
    ∷ (0x10D4E, 0x10D4E)
    ∷ (0x10D69, 0x10D6D)
    ∷ (0x10D6F, 0x10D6F)
    ∷ (0x10EAB, 0x10EAC)
    ∷ (0x10EC5, 0x10EC5)
    ∷ (0x10EFA, 0x10EFF)
    ∷ (0x10F46, 0x10F50)
    ∷ (0x10F82, 0x10F85)
    ∷ (0x11001, 0x11001)
    ∷ (0x11038, 0x11043)
    ∷ []

abbrev pub is_case_ignorable_from_11044 : List (ℕ × ℕ)
is_case_ignorable_from_11044 =
    (0x11044, 0x11046)
    ∷ (0x11070, 0x11070)
    ∷ (0x11073, 0x11074)
    ∷ (0x1107F, 0x11081)
    ∷ (0x110B3, 0x110B6)
    ∷ (0x110B9, 0x110BA)
    ∷ (0x110BD, 0x110BD)
    ∷ (0x110C2, 0x110C2)
    ∷ (0x110CD, 0x110CD)
    ∷ (0x11100, 0x11102)
    ∷ (0x11127, 0x1112B)
    ∷ (0x1112D, 0x11134)
    ∷ (0x11173, 0x11173)
    ∷ (0x11180, 0x11181)
    ∷ (0x111B6, 0x111BE)
    ∷ (0x111C9, 0x111CC)
    ∷ (0x111CF, 0x111CF)
    ∷ (0x1122F, 0x11231)
    ∷ (0x11234, 0x11234)
    ∷ (0x11236, 0x11237)
    ∷ (0x1123E, 0x1123E)
    ∷ (0x11241, 0x11241)
    ∷ (0x112DF, 0x112DF)
    ∷ (0x112E3, 0x112EA)
    ∷ (0x11300, 0x11301)
    ∷ (0x1133B, 0x1133C)
    ∷ (0x11340, 0x11340)
    ∷ (0x11366, 0x1136C)
    ∷ (0x11370, 0x11374)
    ∷ (0x113BB, 0x113C0)
    ∷ (0x113CE, 0x113CE)
    ∷ (0x113D0, 0x113D0)
    ∷ (0x113D2, 0x113D2)
    ∷ (0x113E1, 0x113E2)
    ∷ (0x11438, 0x1143F)
    ∷ (0x11442, 0x11444)
    ∷ (0x11446, 0x11446)
    ∷ (0x1145E, 0x1145E)
    ∷ (0x114B3, 0x114B8)
    ∷ (0x114BA, 0x114BA)
    ∷ (0x114BF, 0x114C0)
    ∷ (0x114C2, 0x114C3)
    ∷ (0x115B2, 0x115B5)
    ∷ (0x115BC, 0x115BD)
    ∷ (0x115BF, 0x115C0)
    ∷ (0x115DC, 0x115DD)
    ∷ (0x11633, 0x1163A)
    ∷ (0x1163D, 0x1163D)
    ∷ (0x1163F, 0x11640)
    ∷ (0x116AB, 0x116AB)
    ∷ (0x116AD, 0x116AD)
    ∷ (0x116B0, 0x116B5)
    ∷ (0x116B7, 0x116B7)
    ∷ []

abbrev pub is_case_ignorable_from_1171d : List (ℕ × ℕ)
is_case_ignorable_from_1171d =
    (0x1171D, 0x1171D)
    ∷ (0x1171F, 0x1171F)
    ∷ (0x11722, 0x11725)
    ∷ (0x11727, 0x1172B)
    ∷ (0x1182F, 0x11837)
    ∷ (0x11839, 0x1183A)
    ∷ (0x1193B, 0x1193C)
    ∷ (0x1193E, 0x1193E)
    ∷ (0x11943, 0x11943)
    ∷ (0x119D4, 0x119D7)
    ∷ (0x119DA, 0x119DB)
    ∷ (0x119E0, 0x119E0)
    ∷ (0x11A01, 0x11A0A)
    ∷ (0x11A33, 0x11A38)
    ∷ (0x11A3B, 0x11A3E)
    ∷ (0x11A47, 0x11A47)
    ∷ (0x11A51, 0x11A56)
    ∷ (0x11A59, 0x11A5B)
    ∷ (0x11A8A, 0x11A96)
    ∷ (0x11A98, 0x11A99)
    ∷ (0x11B60, 0x11B60)
    ∷ (0x11B62, 0x11B64)
    ∷ (0x11B66, 0x11B66)
    ∷ (0x11C30, 0x11C36)
    ∷ (0x11C38, 0x11C3D)
    ∷ (0x11C3F, 0x11C3F)
    ∷ (0x11C92, 0x11CA7)
    ∷ (0x11CAA, 0x11CB0)
    ∷ (0x11CB2, 0x11CB3)
    ∷ (0x11CB5, 0x11CB6)
    ∷ (0x11D31, 0x11D36)
    ∷ (0x11D3A, 0x11D3A)
    ∷ (0x11D3C, 0x11D3D)
    ∷ (0x11D3F, 0x11D45)
    ∷ (0x11D47, 0x11D47)
    ∷ (0x11D90, 0x11D91)
    ∷ (0x11D95, 0x11D95)
    ∷ []

abbrev pub is_case_ignorable_from_11d97 : List (ℕ × ℕ)
is_case_ignorable_from_11d97 =
    (0x11D97, 0x11D97)
    ∷ (0x11DD9, 0x11DD9)
    ∷ (0x11EF3, 0x11EF4)
    ∷ (0x11F00, 0x11F01)
    ∷ (0x11F36, 0x11F3A)
    ∷ (0x11F40, 0x11F40)
    ∷ (0x11F42, 0x11F42)
    ∷ (0x11F5A, 0x11F5A)
    ∷ (0x13430, 0x13440)
    ∷ (0x13447, 0x13455)
    ∷ (0x1611E, 0x16129)
    ∷ (0x1612D, 0x1612F)
    ∷ (0x16AF0, 0x16AF4)
    ∷ (0x16B30, 0x16B36)
    ∷ (0x16B40, 0x16B43)
    ∷ (0x16D40, 0x16D42)
    ∷ (0x16D6B, 0x16D6C)
    ∷ (0x16F4F, 0x16F4F)
    ∷ (0x16F8F, 0x16F9F)
    ∷ (0x16FE0, 0x16FE1)
    ∷ (0x16FE3, 0x16FE4)
    ∷ (0x16FF2, 0x16FF3)
    ∷ (0x1AFF0, 0x1AFF3)
    ∷ (0x1AFF5, 0x1AFFB)
    ∷ (0x1AFFD, 0x1AFFE)
    ∷ (0x1BC9D, 0x1BC9E)
    ∷ (0x1BCA0, 0x1BCA3)
    ∷ (0x1CF00, 0x1CF18)
    ∷ []
