-- ===== src/Casing/Tables/Fold/From1F6C.antt =====
-- `internal::dchar_fold_simple` (sys.Text/data/UnicodeCasing.h): one-to-one case folding.
-- An entry has the first and last code point of a run, its stride, and what the first maps to.
use libcxxext.Prelude.{ℕ, List, [], ◌∷◌}

abbrev pub fold_simple_from_1f6c : List (ℕ × ℕ × ℕ × ℕ)
fold_simple_from_1f6c =
    (0x1F6C, 0x1F6F, 1, 0x1F64)
    ∷ (0x1F88, 0x1F8F, 1, 0x1F80)
    ∷ (0x1F98, 0x1F9F, 1, 0x1F90)
    ∷ (0x1FA8, 0x1FAF, 1, 0x1FA0)
    ∷ (0x1FB8, 0x1FB9, 1, 0x1FB0)
    ∷ (0x1FBA, 0x1FBB, 1, 0x1F70)
    ∷ (0x1FBC, 0x1FBC, 1, 0x1FB3)
    ∷ (0x1FBE, 0x1FBE, 1, 0x03B9)
    ∷ (0x1FC8, 0x1FCB, 1, 0x1F72)
    ∷ (0x1FCC, 0x1FCC, 1, 0x1FC3)
    ∷ (0x1FD3, 0x1FD3, 1, 0x0390)
    ∷ (0x1FD8, 0x1FD9, 1, 0x1FD0)
    ∷ (0x1FDA, 0x1FDB, 1, 0x1F76)
    ∷ (0x1FE3, 0x1FE3, 1, 0x03B0)
    ∷ (0x1FE8, 0x1FE9, 1, 0x1FE0)
    ∷ (0x1FEA, 0x1FEB, 1, 0x1F7A)
    ∷ (0x1FEC, 0x1FEC, 1, 0x1FE5)
    ∷ (0x1FF8, 0x1FF9, 1, 0x1F78)
    ∷ (0x1FFA, 0x1FFB, 1, 0x1F7C)
    ∷ (0x1FFC, 0x1FFC, 1, 0x1FF3)
    ∷ (0x2126, 0x2126, 1, 0x03C9)
    ∷ (0x212A, 0x212A, 1, 0x006B)
    ∷ (0x212B, 0x212B, 1, 0x00E5)
    ∷ (0x2132, 0x2132, 1, 0x214E)
    ∷ (0x2160, 0x216F, 1, 0x2170)
    ∷ (0x2183, 0x2183, 1, 0x2184)
    ∷ (0x24B6, 0x24CF, 1, 0x24D0)
    ∷ (0x2C00, 0x2C2F, 1, 0x2C30)
    ∷ []

abbrev pub fold_simple_from_2c60 : List (ℕ × ℕ × ℕ × ℕ)
fold_simple_from_2c60 =
    (0x2C60, 0x2C60, 1, 0x2C61)
    ∷ (0x2C62, 0x2C62, 1, 0x026B)
    ∷ (0x2C63, 0x2C63, 1, 0x1D7D)
    ∷ (0x2C64, 0x2C64, 1, 0x027D)
    ∷ (0x2C67, 0x2C6B, 2, 0x2C68)
    ∷ (0x2C6D, 0x2C6D, 1, 0x0251)
    ∷ (0x2C6E, 0x2C6E, 1, 0x0271)
    ∷ (0x2C6F, 0x2C6F, 1, 0x0250)
    ∷ (0x2C70, 0x2C70, 1, 0x0252)
    ∷ (0x2C72, 0x2C72, 1, 0x2C73)
    ∷ (0x2C75, 0x2C75, 1, 0x2C76)
    ∷ (0x2C7E, 0x2C7F, 1, 0x023F)
    ∷ (0x2C80, 0x2CE2, 2, 0x2C81)
    ∷ (0x2CEB, 0x2CED, 2, 0x2CEC)
    ∷ (0x2CF2, 0x2CF2, 1, 0x2CF3)
    ∷ (0xA640, 0xA66C, 2, 0xA641)
    ∷ (0xA680, 0xA69A, 2, 0xA681)
    ∷ (0xA722, 0xA72E, 2, 0xA723)
    ∷ (0xA732, 0xA76E, 2, 0xA733)
    ∷ (0xA779, 0xA77B, 2, 0xA77A)
    ∷ (0xA77D, 0xA77D, 1, 0x1D79)
    ∷ (0xA77E, 0xA784, 2, 0xA77F)
    ∷ []

abbrev pub fold_simple_from_a786 : List (ℕ × ℕ × ℕ × ℕ)
fold_simple_from_a786 =
    (0xA786, 0xA786, 1, 0xA787)
    ∷ (0xA78B, 0xA78B, 1, 0xA78C)
    ∷ (0xA78D, 0xA78D, 1, 0x0265)
    ∷ (0xA790, 0xA792, 2, 0xA791)
    ∷ (0xA796, 0xA7A8, 2, 0xA797)
    ∷ (0xA7AA, 0xA7AA, 1, 0x0266)
    ∷ (0xA7AB, 0xA7AB, 1, 0x025C)
    ∷ (0xA7AC, 0xA7AC, 1, 0x0261)
    ∷ (0xA7AD, 0xA7AD, 1, 0x026C)
    ∷ (0xA7AE, 0xA7AE, 1, 0x026A)
    ∷ (0xA7B0, 0xA7B0, 1, 0x029E)
    ∷ (0xA7B1, 0xA7B1, 1, 0x0287)
    ∷ (0xA7B2, 0xA7B2, 1, 0x029D)
    ∷ (0xA7B3, 0xA7B3, 1, 0xAB53)
    ∷ (0xA7B4, 0xA7C2, 2, 0xA7B5)
    ∷ (0xA7C4, 0xA7C4, 1, 0xA794)
    ∷ (0xA7C5, 0xA7C5, 1, 0x0282)
    ∷ (0xA7C6, 0xA7C6, 1, 0x1D8E)
    ∷ (0xA7C7, 0xA7C9, 2, 0xA7C8)
    ∷ (0xA7CB, 0xA7CB, 1, 0x0264)
    ∷ (0xA7CC, 0xA7DA, 2, 0xA7CD)
    ∷ (0xA7DC, 0xA7DC, 1, 0x019B)
    ∷ (0xA7F5, 0xA7F5, 1, 0xA7F6)
    ∷ (0xAB70, 0xABBF, 1, 0x13A0)
    ∷ (0xFB05, 0xFB05, 1, 0xFB06)
    ∷ (0xFF21, 0xFF35, 1, 0xFF41)
    ∷ []

abbrev pub fold_simple_from_ff36 : List (ℕ × ℕ × ℕ × ℕ)
fold_simple_from_ff36 =
    (0xFF36, 0xFF3A, 1, 0xFF56)
    ∷ (0x10400, 0x10427, 1, 0x10428)
    ∷ (0x104B0, 0x104D3, 1, 0x104D8)
    ∷ (0x10570, 0x1057A, 1, 0x10597)
    ∷ (0x1057C, 0x1058A, 1, 0x105A3)
    ∷ (0x1058C, 0x10592, 1, 0x105B3)
    ∷ (0x10594, 0x10595, 1, 0x105BB)
    ∷ (0x10C80, 0x10CA1, 1, 0x10CC0)
    ∷ []

abbrev pub fold_simple_from_10ca2 : List (ℕ × ℕ × ℕ × ℕ)
fold_simple_from_10ca2 =
    (0x10CA2, 0x10CB2, 1, 0x10CE2)
    ∷ (0x10D50, 0x10D65, 1, 0x10D70)
    ∷ (0x118A0, 0x118BF, 1, 0x118C0)
    ∷ (0x16E40, 0x16E5F, 1, 0x16E60)
    ∷ (0x16EA0, 0x16EB8, 1, 0x16EBB)
    ∷ (0x1E900, 0x1E915, 1, 0x1E922)
    ∷ []

abbrev pub fold_simple_from_1e916 : List (ℕ × ℕ × ℕ × ℕ)
fold_simple_from_1e916 = (0x1E916, 0x1E921, 1, 0x1E938) ∷ []
