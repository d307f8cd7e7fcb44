-- ===== src/Casing/Tables/CaseIgnorable/From1752.antt =====
-- `internal::dchar_is_case_ignorable` (sys.Text/data/UnicodeCasing.h): the code points that casing contexts skip, as ranges of code points.
use libcxxext.Prelude.{ℕ, List, [], ◌∷◌}

abbrev pub is_case_ignorable_from_1752 : List (ℕ × ℕ)
is_case_ignorable_from_1752 =
    (0x1752, 0x1753)
    ∷ (0x1772, 0x1773)
    ∷ (0x17B4, 0x17B5)
    ∷ (0x17B7, 0x17BD)
    ∷ (0x17C6, 0x17C6)
    ∷ (0x17C9, 0x17D3)
    ∷ (0x17D7, 0x17D7)
    ∷ (0x17DD, 0x17DD)
    ∷ (0x180B, 0x180F)
    ∷ (0x1843, 0x1843)
    ∷ (0x1885, 0x1886)
    ∷ (0x18A9, 0x18A9)
    ∷ (0x1920, 0x1922)
    ∷ (0x1927, 0x1928)
    ∷ (0x1932, 0x1932)
    ∷ (0x1939, 0x193B)
    ∷ (0x1A17, 0x1A18)
    ∷ (0x1A1B, 0x1A1B)
    ∷ (0x1A56, 0x1A56)
    ∷ (0x1A58, 0x1A5E)
    ∷ (0x1A60, 0x1A60)
    ∷ (0x1A62, 0x1A62)
    ∷ (0x1A65, 0x1A6C)
    ∷ (0x1A73, 0x1A7C)
    ∷ (0x1A7F, 0x1A7F)
    ∷ (0x1AA7, 0x1AA7)
    ∷ (0x1AB0, 0x1ADD)
    ∷ (0x1AE0, 0x1AEB)
    ∷ (0x1B00, 0x1B03)
    ∷ (0x1B34, 0x1B34)
    ∷ (0x1B36, 0x1B3A)
    ∷ (0x1B3C, 0x1B3C)
    ∷ (0x1B42, 0x1B42)
    ∷ (0x1B6B, 0x1B6C)
    ∷ []

abbrev pub is_case_ignorable_from_1b6d : List (ℕ × ℕ)
is_case_ignorable_from_1b6d =
    (0x1B6D, 0x1B73)
    ∷ (0x1B80, 0x1B81)
    ∷ (0x1BA2, 0x1BA5)
    ∷ (0x1BA8, 0x1BA9)
    ∷ (0x1BAB, 0x1BAD)
    ∷ (0x1BE6, 0x1BE6)
    ∷ (0x1BE8, 0x1BE9)
    ∷ (0x1BED, 0x1BED)
    ∷ (0x1BEF, 0x1BF1)
    ∷ (0x1C2C, 0x1C33)
    ∷ (0x1C36, 0x1C37)
    ∷ (0x1C78, 0x1C7D)
    ∷ (0x1CD0, 0x1CD2)
    ∷ (0x1CD4, 0x1CE0)
    ∷ (0x1CE2, 0x1CE8)
    ∷ (0x1CED, 0x1CED)
    ∷ (0x1CF4, 0x1CF4)
    ∷ (0x1CF8, 0x1CF9)
    ∷ (0x1D2C, 0x1D6A)
    ∷ (0x1D78, 0x1D78)
    ∷ (0x1D9B, 0x1DAC)
    ∷ []

abbrev pub is_case_ignorable_from_1dad : List (ℕ × ℕ)
is_case_ignorable_from_1dad =
    (0x1DAD, 0x1DFF)
    ∷ (0x1FBD, 0x1FBD)
    ∷ (0x1FBF, 0x1FC1)
    ∷ (0x1FCD, 0x1FCF)
    ∷ (0x1FDD, 0x1FDF)
    ∷ (0x1FED, 0x1FEF)
    ∷ (0x1FFD, 0x1FFE)
    ∷ (0x200B, 0x200F)
    ∷ (0x2018, 0x2019)
    ∷ (0x2024, 0x2024)
    ∷ (0x2027, 0x2027)
    ∷ (0x202A, 0x202E)
    ∷ (0x2060, 0x2064)
    ∷ (0x2066, 0x206F)
    ∷ (0x2071, 0x2071)
    ∷ (0x207F, 0x207F)
    ∷ (0x2090, 0x209C)
    ∷ (0x20D0, 0x20D7)
    ∷ []

abbrev pub is_case_ignorable_from_20d8 : List (ℕ × ℕ)
is_case_ignorable_from_20d8 =
    (0x20D8, 0x20F0)
    ∷ (0x2C7C, 0x2C7D)
    ∷ (0x2CEF, 0x2CF1)
    ∷ (0x2D6F, 0x2D6F)
    ∷ (0x2D7F, 0x2D7F)
    ∷ (0x2DE0, 0x2DFF)
    ∷ (0x2E2F, 0x2E2F)
    ∷ (0x3005, 0x3005)
    ∷ (0x302A, 0x302D)
    ∷ (0x3031, 0x3035)
    ∷ (0x303B, 0x303B)
    ∷ (0x3099, 0x309E)
    ∷ (0x30FC, 0x30FE)
    ∷ (0xA015, 0xA015)
    ∷ (0xA4F8, 0xA4FD)
    ∷ (0xA60C, 0xA60C)
    ∷ (0xA66F, 0xA672)
    ∷ (0xA674, 0xA67D)
    ∷ (0xA67F, 0xA67F)
    ∷ (0xA69C, 0xA69F)
    ∷ (0xA6F0, 0xA6F1)
    ∷ (0xA700, 0xA721)
    ∷ (0xA770, 0xA770)
    ∷ (0xA788, 0xA788)
    ∷ []

abbrev pub is_case_ignorable_from_a789 : List (ℕ × ℕ)
is_case_ignorable_from_a789 =
    (0xA789, 0xA78A)
    ∷ (0xA7F1, 0xA7F4)
    ∷ (0xA7F8, 0xA7F9)
    ∷ (0xA802, 0xA802)
    ∷ (0xA806, 0xA806)
    ∷ (0xA80B, 0xA80B)
    ∷ (0xA825, 0xA826)
    ∷ (0xA82C, 0xA82C)
    ∷ (0xA8C4, 0xA8C5)
    ∷ (0xA8E0, 0xA8F1)
    ∷ (0xA8FF, 0xA8FF)
    ∷ (0xA926, 0xA92D)
    ∷ (0xA947, 0xA951)
    ∷ (0xA980, 0xA982)
    ∷ (0xA9B3, 0xA9B3)
    ∷ (0xA9B6, 0xA9B9)
    ∷ (0xA9BC, 0xA9BD)
    ∷ (0xA9CF, 0xA9CF)
    ∷ (0xA9E5, 0xA9E6)
    ∷ (0xAA29, 0xAA2E)
    ∷ (0xAA31, 0xAA32)
    ∷ (0xAA35, 0xAA36)
    ∷ (0xAA43, 0xAA43)
    ∷ (0xAA4C, 0xAA4C)
    ∷ (0xAA70, 0xAA70)
    ∷ (0xAA7C, 0xAA7C)
    ∷ (0xAAB0, 0xAAB0)
    ∷ (0xAAB2, 0xAAB4)
    ∷ (0xAAB7, 0xAAB8)
    ∷ (0xAABE, 0xAABF)
    ∷ (0xAAC1, 0xAAC1)
    ∷ (0xAADD, 0xAADD)
    ∷ (0xAAEC, 0xAAED)
    ∷ (0xAAF3, 0xAAF4)
    ∷ (0xAAF6, 0xAAF6)
    ∷ (0xAB5B, 0xAB5F)
    ∷ (0xAB69, 0xAB6B)
    ∷ (0xABE5, 0xABE5)
    ∷ (0xABE8, 0xABE8)
    ∷ (0xABED, 0xABED)
    ∷ (0xFB1E, 0xFB1E)
    ∷ (0xFBB2, 0xFBC2)
    ∷ (0xFE00, 0xFE0F)
    ∷ (0xFE13, 0xFE13)
    ∷ (0xFE20, 0xFE27)
    ∷ []
