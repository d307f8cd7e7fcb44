-- ===== src/Casing/Tables/ToLower/From24C7.antt =====
-- `internal::dchar_to_lower_simple` (sys.Text/data/UnicodeCasing.h): one-to-one lowercase.
-- An entry has the first and last code point of a run, its stride, and what the first maps to.
use libcxxext.Prelude.{ℕ, List, [], ◌∷◌}

abbrev pub to_lower_simple_from_24c7 : List (ℕ × ℕ × ℕ × ℕ)
to_lower_simple_from_24c7 =
    (0x24C7, 0x24CF, 1, 0x24E1)
    ∷ (0x2C00, 0x2C2F, 1, 0x2C30)
    ∷ (0x2C60, 0x2C60, 1, 0x2C61)
    ∷ (0x2C62, 0x2C62, 1, 0x026B)
    ∷ (0x2C63, 0x2C63, 1, 0x1D7D)
    ∷ (0x2C64, 0x2C64, 1, 0x027D)
    ∷ (0x2C67, 0x2C6B, 2, 0x2C68)
    ∷ (0x2C6D, 0x2C6D, 1, 0x0251)
    ∷ (0x2C6E, 0x2C6E, 1, 0x0271)
    ∷ (0x2C6F, 0x2C6F, 1, 0x0250)
    ∷ (0x2C70, 0x2C70, 1, 0x0252)
    ∷ (0x2C72, 0x2C72, 1, 0x2C73)
    ∷ (0x2C75, 0x2C75, 1, 0x2C76)
    ∷ (0x2C7E, 0x2C7F, 1, 0x023F)
    ∷ (0x2C80, 0x2CE2, 2, 0x2C81)
    ∷ (0x2CEB, 0x2CED, 2, 0x2CEC)
    ∷ (0x2CF2, 0x2CF2, 1, 0x2CF3)
    ∷ (0xA640, 0xA66C, 2, 0xA641)
    ∷ (0xA680, 0xA682, 2, 0xA681)
    ∷ []

abbrev pub to_lower_simple_from_a684 : List (ℕ × ℕ × ℕ × ℕ)
to_lower_simple_from_a684 =
    (0xA684, 0xA69A, 2, 0xA685)
    ∷ (0xA722, 0xA72E, 2, 0xA723)
    ∷ (0xA732, 0xA76E, 2, 0xA733)
    ∷ (0xA779, 0xA77B, 2, 0xA77A)
    ∷ (0xA77D, 0xA77D, 1, 0x1D79)
    ∷ (0xA77E, 0xA786, 2, 0xA77F)
    ∷ (0xA78B, 0xA78B, 1, 0xA78C)
    ∷ (0xA78D, 0xA78D, 1, 0x0265)
    ∷ (0xA790, 0xA792, 2, 0xA791)
    ∷ (0xA796, 0xA7A8, 2, 0xA797)
    ∷ (0xA7AA, 0xA7AA, 1, 0x0266)
    ∷ (0xA7AB, 0xA7AB, 1, 0x025C)
    ∷ (0xA7AC, 0xA7AC, 1, 0x0261)
    ∷ (0xA7AD, 0xA7AD, 1, 0x026C)
    ∷ (0xA7AE, 0xA7AE, 1, 0x026A)
    ∷ (0xA7B0, 0xA7B0, 1, 0x029E)
    ∷ (0xA7B1, 0xA7B1, 1, 0x0287)
    ∷ (0xA7B2, 0xA7B2, 1, 0x029D)
    ∷ (0xA7B3, 0xA7B3, 1, 0xAB53)
    ∷ (0xA7B4, 0xA7C2, 2, 0xA7B5)
    ∷ (0xA7C4, 0xA7C4, 1, 0xA794)
    ∷ (0xA7C5, 0xA7C5, 1, 0x0282)
    ∷ (0xA7C6, 0xA7C6, 1, 0x1D8E)
    ∷ (0xA7C7, 0xA7C9, 2, 0xA7C8)
    ∷ (0xA7CB, 0xA7CB, 1, 0x0264)
    ∷ (0xA7CC, 0xA7DA, 2, 0xA7CD)
    ∷ (0xA7DC, 0xA7DC, 1, 0x019B)
    ∷ (0xA7F5, 0xA7F5, 1, 0xA7F6)
    ∷ (0xFF21, 0xFF3A, 1, 0xFF41)
    ∷ (0x10400, 0x10412, 1, 0x10428)
    ∷ []

abbrev pub to_lower_simple_from_10413 : List (ℕ × ℕ × ℕ × ℕ)
to_lower_simple_from_10413 =
    (0x10413, 0x10427, 1, 0x1043B)
    ∷ (0x104B0, 0x104D3, 1, 0x104D8)
    ∷ (0x10570, 0x1057A, 1, 0x10597)
    ∷ (0x1057C, 0x1058A, 1, 0x105A3)
    ∷ (0x1058C, 0x10592, 1, 0x105B3)
    ∷ (0x10594, 0x10595, 1, 0x105BB)
    ∷ (0x10C80, 0x10CB2, 1, 0x10CC0)
    ∷ (0x10D50, 0x10D56, 1, 0x10D70)
    ∷ []

abbrev pub to_lower_simple_from_10d57 : List (ℕ × ℕ × ℕ × ℕ)
to_lower_simple_from_10d57 =
    (0x10D57, 0x10D65, 1, 0x10D77)
    ∷ (0x118A0, 0x118BF, 1, 0x118C0)
    ∷ (0x16E40, 0x16E5F, 1, 0x16E60)
    ∷ (0x16EA0, 0x16EB8, 1, 0x16EBB)
    ∷ (0x1E900, 0x1E921, 1, 0x1E922)
    ∷ []
