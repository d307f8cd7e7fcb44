-- ===== src/Casing/Tables/Cased/From0041.antt =====
-- `internal::dchar_is_cased` (sys.Text/data/UnicodeCasing.h): the cased code points, as ranges of code points.
use libcxxext.Prelude.{ℕ, List, [], ◌∷◌}

abbrev pub is_cased_from_0041 : List (ℕ × ℕ)
is_cased_from_0041 =
    (0x0041, 0x005A)
    ∷ (0x0061, 0x007A)
    ∷ (0x00AA, 0x00AA)
    ∷ (0x00B5, 0x00B5)
    ∷ (0x00BA, 0x00BA)
    ∷ (0x00C0, 0x00D6)
    ∷ (0x00D8, 0x00F6)
    ∷ (0x00F8, 0x0120)
    ∷ []

abbrev pub is_cased_from_0121 : List (ℕ × ℕ)
is_cased_from_0121 = (0x0121, 0x01B6) ∷ []

abbrev pub is_cased_from_01b7 : List (ℕ × ℕ)
is_cased_from_01b7 = (0x01B7, 0x01BA) ∷ (0x01BC, 0x01BF) ∷ (0x01C4, 0x0251) ∷ []

abbrev pub is_cased_from_0252 : List (ℕ × ℕ)
is_cased_from_0252 =
    (0x0252, 0x0293)
    ∷ (0x0296, 0x02B8)
    ∷ (0x02C0, 0x02C1)
    ∷ (0x02E0, 0x02E4)
    ∷ (0x0345, 0x0345)
    ∷ (0x0370, 0x0373)
    ∷ (0x0376, 0x0377)
    ∷ (0x037A, 0x037D)
    ∷ (0x037F, 0x037F)
    ∷ (0x0386, 0x0386)
    ∷ (0x0388, 0x038A)
    ∷ (0x038C, 0x038C)
    ∷ (0x038E, 0x03A1)
    ∷ (0x03A3, 0x03A7)
    ∷ []

abbrev pub is_cased_from_03a8 : List (ℕ × ℕ)
is_cased_from_03a8 = (0x03A8, 0x03F5) ∷ (0x03F7, 0x043E) ∷ []

abbrev pub is_cased_from_043f : List (ℕ × ℕ)
is_cased_from_043f = (0x043F, 0x0481) ∷ (0x048A, 0x04DC) ∷ []

abbrev pub is_cased_from_04dd : List (ℕ × ℕ)
is_cased_from_04dd = (0x04DD, 0x052F) ∷ (0x0531, 0x0556) ∷ (0x0560, 0x057C) ∷ []

abbrev pub is_cased_from_057d : List (ℕ × ℕ)
is_cased_from_057d =
    (0x057D, 0x0588)
    ∷ (0x10A0, 0x10C5)
    ∷ (0x10C7, 0x10C7)
    ∷ (0x10CD, 0x10CD)
    ∷ (0x10D0, 0x10FA)
    ∷ (0x10FC, 0x10FF)
    ∷ (0x13A0, 0x13D2)
    ∷ []

abbrev pub is_cased_from_13d3 : List (ℕ × ℕ)
is_cased_from_13d3 =
    (0x13D3, 0x13F5)
    ∷ (0x13F8, 0x13FD)
    ∷ (0x1C80, 0x1C8A)
    ∷ (0x1C90, 0x1CBA)
    ∷ (0x1CBD, 0x1CBF)
    ∷ (0x1D00, 0x1D33)
    ∷ []

abbrev pub is_cased_from_1d34 : List (ℕ × ℕ)
is_cased_from_1d34 = (0x1D34, 0x1DBF) ∷ (0x1E00, 0x1E09) ∷ []

abbrev pub is_cased_from_1e0a : List (ℕ × ℕ)
is_cased_from_1e0a = (0x1E0A, 0x1E9F) ∷ []

abbrev pub is_cased_from_1ea0 : List (ℕ × ℕ)
is_cased_from_1ea0 = (0x1EA0, 0x1F15) ∷ (0x1F18, 0x1F1D) ∷ (0x1F20, 0x1F39) ∷ []

abbrev pub is_cased_from_1f3a : List (ℕ × ℕ)
is_cased_from_1f3a =
    (0x1F3A, 0x1F45)
    ∷ (0x1F48, 0x1F4D)
    ∷ (0x1F50, 0x1F57)
    ∷ (0x1F59, 0x1F59)
    ∷ (0x1F5B, 0x1F5B)
    ∷ (0x1F5D, 0x1F5D)
    ∷ (0x1F5F, 0x1F7D)
    ∷ (0x1F80, 0x1FB4)
    ∷ (0x1FB6, 0x1FBC)
    ∷ (0x1FBE, 0x1FBE)
    ∷ (0x1FC2, 0x1FC4)
    ∷ (0x1FC6, 0x1FCC)
    ∷ (0x1FD0, 0x1FD3)
    ∷ (0x1FD6, 0x1FDB)
    ∷ (0x1FE0, 0x1FE8)
    ∷ []

abbrev pub is_cased_from_1fe9 : List (ℕ × ℕ)
is_cased_from_1fe9 =
    (0x1FE9, 0x1FEC)
    ∷ (0x1FF2, 0x1FF4)
    ∷ (0x1FF6, 0x1FFC)
    ∷ (0x2071, 0x2071)
    ∷ (0x207F, 0x207F)
    ∷ (0x2090, 0x209C)
    ∷ (0x2102, 0x2102)
    ∷ (0x2107, 0x2107)
    ∷ (0x210A, 0x2113)
    ∷ (0x2115, 0x2115)
    ∷ (0x2119, 0x211D)
    ∷ (0x2124, 0x2124)
    ∷ (0x2126, 0x2126)
    ∷ (0x2128, 0x2128)
    ∷ (0x212A, 0x212D)
    ∷ (0x212F, 0x2134)
    ∷ (0x2139, 0x2139)
    ∷ (0x213C, 0x213F)
    ∷ (0x2145, 0x2149)
    ∷ (0x214E, 0x214E)
    ∷ (0x2160, 0x217F)
    ∷ (0x2183, 0x2184)
    ∷ (0x24B6, 0x24E2)
    ∷ []

abbrev pub is_cased_from_24e3 : List (ℕ × ℕ)
is_cased_from_24e3 = (0x24E3, 0x24E9) ∷ (0x2C00, 0x2C8E) ∷ []

abbrev pub is_cased_from_2c8f : List (ℕ × ℕ)
is_cased_from_2c8f =
    (0x2C8F, 0x2CE4)
    ∷ (0x2CEB, 0x2CEE)
    ∷ (0x2CF2, 0x2CF3)
    ∷ (0x2D00, 0x2D25)
    ∷ (0x2D27, 0x2D27)
    ∷ (0x2D2D, 0x2D2D)
    ∷ (0xA640, 0xA651)
    ∷ []

abbrev pub is_cased_from_a652 : List (ℕ × ℕ)
is_cased_from_a652 = (0xA652, 0xA66D) ∷ (0xA680, 0xA69D) ∷ (0xA722, 0xA77D) ∷ []
