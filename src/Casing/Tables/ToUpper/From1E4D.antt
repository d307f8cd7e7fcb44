-- ===== src/Casing/Tables/ToUpper/From1E4D.antt =====
-- `internal::dchar_to_upper_simple` (sys.Text/data/UnicodeCasing.h): one-to-one uppercase.
-- An entry has the first and last code point of a run, its stride, and what the first maps to.
use libcxxext.Prelude.{ℕ, List, [], ◌∷◌}

abbrev pub to_upper_simple_from_1e4d : List (ℕ × ℕ × ℕ × ℕ)
to_upper_simple_from_1e4d =
    (0x1E4D, 0x1E95, 2, 0x1E4C)
    ∷ (0x1E9B, 0x1E9B, 1, 0x1E60)
    ∷ (0x1EA1, 0x1EFF, 2, 0x1EA0)
    ∷ (0x1F00, 0x1F07, 1, 0x1F08)
    ∷ (0x1F10, 0x1F15, 1, 0x1F18)
    ∷ (0x1F20, 0x1F27, 1, 0x1F28)
    ∷ (0x1F30, 0x1F37, 1, 0x1F38)
    ∷ (0x1F40, 0x1F45, 1, 0x1F48)
    ∷ (0x1F51, 0x1F57, 2, 0x1F59)
    ∷ (0x1F60, 0x1F67, 1, 0x1F68)
    ∷ (0x1F70, 0x1F71, 1, 0x1FBA)
    ∷ (0x1F72, 0x1F75, 1, 0x1FC8)
    ∷ (0x1F76, 0x1F77, 1, 0x1FDA)
    ∷ (0x1F78, 0x1F79, 1, 0x1FF8)
    ∷ (0x1F7A, 0x1F7B, 1, 0x1FEA)
    ∷ (0x1F7C, 0x1F7D, 1, 0x1FFA)
    ∷ (0x1F80, 0x1F81, 1, 0x1F88)
    ∷ []

abbrev pub to_upper_simple_from_1f82 : List (ℕ × ℕ × ℕ × ℕ)
to_upper_simple_from_1f82 =
    (0x1F82, 0x1F87, 1, 0x1F8A)
    ∷ (0x1F90, 0x1F97, 1, 0x1F98)
    ∷ (0x1FA0, 0x1FA7, 1, 0x1FA8)
    ∷ (0x1FB0, 0x1FB1, 1, 0x1FB8)
    ∷ (0x1FB3, 0x1FB3, 1, 0x1FBC)
    ∷ (0x1FBE, 0x1FBE, 1, 0x0399)
    ∷ (0x1FC3, 0x1FC3, 1, 0x1FCC)
    ∷ (0x1FD0, 0x1FD1, 1, 0x1FD8)
    ∷ (0x1FE0, 0x1FE1, 1, 0x1FE8)
    ∷ (0x1FE5, 0x1FE5, 1, 0x1FEC)
    ∷ (0x1FF3, 0x1FF3, 1, 0x1FFC)
    ∷ (0x214E, 0x214E, 1, 0x2132)
    ∷ (0x2170, 0x217F, 1, 0x2160)
    ∷ (0x2184, 0x2184, 1, 0x2183)
    ∷ (0x24D0, 0x24E9, 1, 0x24B6)
    ∷ (0x2C30, 0x2C5F, 1, 0x2C00)
    ∷ (0x2C61, 0x2C61, 1, 0x2C60)
    ∷ (0x2C65, 0x2C65, 1, 0x023A)
    ∷ (0x2C66, 0x2C66, 1, 0x023E)
    ∷ (0x2C68, 0x2C6C, 2, 0x2C67)
    ∷ (0x2C73, 0x2C73, 1, 0x2C72)
    ∷ (0x2C76, 0x2C76, 1, 0x2C75)
    ∷ (0x2C81, 0x2CA1, 2, 0x2C80)
    ∷ []

abbrev pub to_upper_simple_from_2ca3 : List (ℕ × ℕ × ℕ × ℕ)
to_upper_simple_from_2ca3 =
    (0x2CA3, 0x2CE3, 2, 0x2CA2)
    ∷ (0x2CEC, 0x2CEE, 2, 0x2CEB)
    ∷ (0x2CF3, 0x2CF3, 1, 0x2CF2)
    ∷ (0x2D00, 0x2D25, 1, 0x10A0)
    ∷ (0x2D27, 0x2D27, 1, 0x10C7)
    ∷ (0x2D2D, 0x2D2D, 1, 0x10CD)
    ∷ (0xA641, 0xA66D, 2, 0xA640)
    ∷ (0xA681, 0xA69B, 2, 0xA680)
    ∷ (0xA723, 0xA72F, 2, 0xA722)
    ∷ (0xA733, 0xA76D, 2, 0xA732)
    ∷ []

abbrev pub to_upper_simple_from_a76f : List (ℕ × ℕ × ℕ × ℕ)
to_upper_simple_from_a76f =
    (0xA76F, 0xA76F, 1, 0xA76E)
    ∷ (0xA77A, 0xA77C, 2, 0xA779)
    ∷ (0xA77F, 0xA787, 2, 0xA77E)
    ∷ (0xA78C, 0xA78C, 1, 0xA78B)
    ∷ (0xA791, 0xA793, 2, 0xA790)
    ∷ (0xA794, 0xA794, 1, 0xA7C4)
    ∷ (0xA797, 0xA7A9, 2, 0xA796)
    ∷ (0xA7B5, 0xA7C3, 2, 0xA7B4)
    ∷ (0xA7C8, 0xA7CA, 2, 0xA7C7)
    ∷ (0xA7CD, 0xA7DB, 2, 0xA7CC)
    ∷ (0xA7F6, 0xA7F6, 1, 0xA7F5)
    ∷ (0xAB53, 0xAB53, 1, 0xA7B3)
    ∷ (0xAB70, 0xABBF, 1, 0x13A0)
    ∷ (0xFF41, 0xFF5A, 1, 0xFF21)
    ∷ (0x10428, 0x10429, 1, 0x10400)
    ∷ []

abbrev pub to_upper_simple_from_1042a : List (ℕ × ℕ × ℕ × ℕ)
to_upper_simple_from_1042a =
    (0x1042A, 0x1044F, 1, 0x10402)
    ∷ (0x104D8, 0x104FB, 1, 0x104B0)
    ∷ (0x10597, 0x105A1, 1, 0x10570)
    ∷ (0x105A3, 0x105B1, 1, 0x1057C)
    ∷ (0x105B3, 0x105B9, 1, 0x1058C)
    ∷ (0x105BB, 0x105BC, 1, 0x10594)
    ∷ (0x10CC0, 0x10CE8, 1, 0x10C80)
    ∷ []

abbrev pub to_upper_simple_from_10ce9 : List (ℕ × ℕ × ℕ × ℕ)
to_upper_simple_from_10ce9 =
    (0x10CE9, 0x10CF2, 1, 0x10CA9)
    ∷ (0x10D70, 0x10D85, 1, 0x10D50)
    ∷ (0x118C0, 0x118DF, 1, 0x118A0)
    ∷ (0x16E60, 0x16E7F, 1, 0x16E40)
    ∷ (0x16EBB, 0x16ED3, 1, 0x16EA0)
    ∷ (0x1E922, 0x1E93E, 1, 0x1E900)
    ∷ []

abbrev pub to_upper_simple_from_1e93f : List (ℕ × ℕ × ℕ × ℕ)
to_upper_simple_from_1e93f = (0x1E93F, 0x1E943, 1, 0x1E91D) ∷ []
