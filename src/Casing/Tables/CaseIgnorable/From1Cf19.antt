-- ===== src/Casing/Tables/CaseIgnorable/From1Cf19.antt =====
-- `internal::dchar_is_case_ignorable` (sys.Text/data/UnicodeCasing.h): the code points that casing contexts skip, as ranges of code points.
use libcxxext.Prelude.{ℕ, List, [], ◌∷◌}

abbrev pub is_case_ignorable_from_1cf19 : List (ℕ × ℕ)
is_case_ignorable_from_1cf19 =
    (0x1CF19, 0x1CF2D)
    ∷ (0x1CF30, 0x1CF46)
    ∷ (0x1D167, 0x1D169)
    ∷ (0x1D173, 0x1D182)
    ∷ (0x1D185, 0x1D18B)
    ∷ (0x1D1AA, 0x1D1AD)
    ∷ (0x1D242, 0x1D244)
    ∷ (0x1DA00, 0x1DA36)
    ∷ (0x1DA3B, 0x1DA4C)
    ∷ []

abbrev pub is_case_ignorable_from_1da4d : List (ℕ × ℕ)
is_case_ignorable_from_1da4d =
    (0x1DA4D, 0x1DA6C)
    ∷ (0x1DA75, 0x1DA75)
    ∷ (0x1DA84, 0x1DA84)
    ∷ (0x1DA9B, 0x1DA9F)
    ∷ (0x1DAA1, 0x1DAAF)
    ∷ (0x1E000, 0x1E006)
    ∷ (0x1E008, 0x1E018)
    ∷ (0x1E01B, 0x1E021)
    ∷ (0x1E023, 0x1E024)
    ∷ (0x1E026, 0x1E02A)
    ∷ (0x1E030, 0x1E069)
    ∷ []

abbrev pub is_case_ignorable_from_1e06a : List (ℕ × ℕ)
is_case_ignorable_from_1e06a =
    (0x1E06A, 0x1E06D)
    ∷ (0x1E08F, 0x1E08F)
    ∷ (0x1E130, 0x1E13D)
    ∷ (0x1E2AE, 0x1E2AE)
    ∷ (0x1E2EC, 0x1E2EF)
    ∷ (0x1E4EB, 0x1E4EF)
    ∷ (0x1E5EE, 0x1E5EF)
    ∷ (0x1E6E3, 0x1E6E3)
    ∷ (0x1E6E6, 0x1E6E6)
    ∷ (0x1E6EE, 0x1E6EF)
    ∷ (0x1E6F5, 0x1E6F5)
    ∷ (0x1E6FF, 0x1E6FF)
    ∷ (0x1E8D0, 0x1E8D6)
    ∷ (0x1E944, 0x1E94B)
    ∷ (0x1F3FB, 0x1F3FF)
    ∷ (0xE0001, 0xE0001)
    ∷ (0xE0020, 0xE007B)
    ∷ []

abbrev pub is_case_ignorable_from_e007c : List (ℕ × ℕ)
is_case_ignorable_from_e007c = (0xE007C, 0xE007F) ∷ (0xE0100, 0xE0191) ∷ []

abbrev pub is_case_ignorable_from_e0192 : List (ℕ × ℕ)
is_case_ignorable_from_e0192 = (0xE0192, 0xE01EF) ∷ []
