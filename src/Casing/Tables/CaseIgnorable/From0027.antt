-- ===== src/Casing/Tables/CaseIgnorable/From0027.antt =====
-- `internal::dchar_is_case_ignorable` (sys.Text/data/UnicodeCasing.h): the code points that casing contexts skip, as ranges of code points.
use libcxxext.Prelude.{ℕ, List, [], ◌∷◌}

abbrev pub is_case_ignorable_from_0027 : List (ℕ × ℕ)
is_case_ignorable_from_0027 =
    (0x0027, 0x0027)
    ∷ (0x002E, 0x002E)
    ∷ (0x003A, 0x003A)
    ∷ (0x005E, 0x005E)
    ∷ (0x0060, 0x0060)
    ∷ (0x00A8, 0x00A8)
    ∷ (0x00AD, 0x00AD)
    ∷ (0x00AF, 0x00AF)
    ∷ (0x00B4, 0x00B4)
    ∷ (0x00B7, 0x00B8)
    ∷ (0x02B0, 0x033A)
    ∷ []

abbrev pub is_case_ignorable_from_033b : List (ℕ × ℕ)
is_case_ignorable_from_033b =
    (0x033B, 0x036F)
    ∷ (0x0374, 0x0375)
    ∷ (0x037A, 0x037A)
    ∷ (0x0384, 0x0385)
    ∷ (0x0387, 0x0387)
    ∷ (0x0483, 0x0489)
    ∷ (0x0559, 0x0559)
    ∷ (0x055F, 0x055F)
    ∷ (0x0591, 0x05BD)
    ∷ (0x05BF, 0x05BF)
    ∷ (0x05C1, 0x05C2)
    ∷ (0x05C4, 0x05C5)
    ∷ (0x05C7, 0x05C7)
    ∷ (0x05F4, 0x05F4)
    ∷ (0x0600, 0x0605)
    ∷ (0x0610, 0x061A)
    ∷ (0x061C, 0x061C)
    ∷ (0x0640, 0x0640)
    ∷ (0x064B, 0x0655)
    ∷ []

abbrev pub is_case_ignorable_from_0656 : List (ℕ × ℕ)
is_case_ignorable_from_0656 =
    (0x0656, 0x065F)
    ∷ (0x0670, 0x0670)
    ∷ (0x06D6, 0x06DD)
    ∷ (0x06DF, 0x06E8)
    ∷ (0x06EA, 0x06ED)
    ∷ (0x070F, 0x070F)
    ∷ (0x0711, 0x0711)
    ∷ (0x0730, 0x074A)
    ∷ (0x07A6, 0x07B0)
    ∷ (0x07EB, 0x07F5)
    ∷ (0x07FA, 0x07FA)
    ∷ (0x07FD, 0x07FD)
    ∷ (0x0816, 0x082D)
    ∷ (0x0859, 0x085B)
    ∷ (0x0888, 0x0888)
    ∷ (0x0890, 0x0891)
    ∷ (0x0897, 0x089F)
    ∷ (0x08C9, 0x08E1)
    ∷ []

abbrev pub is_case_ignorable_from_08e2 : List (ℕ × ℕ)
is_case_ignorable_from_08e2 =
    (0x08E2, 0x0902)
    ∷ (0x093A, 0x093A)
    ∷ (0x093C, 0x093C)
    ∷ (0x0941, 0x0948)
    ∷ (0x094D, 0x094D)
    ∷ (0x0951, 0x0957)
    ∷ (0x0962, 0x0963)
    ∷ (0x0971, 0x0971)
    ∷ (0x0981, 0x0981)
    ∷ (0x09BC, 0x09BC)
    ∷ (0x09C1, 0x09C4)
    ∷ (0x09CD, 0x09CD)
    ∷ (0x09E2, 0x09E3)
    ∷ (0x09FE, 0x09FE)
    ∷ (0x0A01, 0x0A02)
    ∷ (0x0A3C, 0x0A3C)
    ∷ (0x0A41, 0x0A42)
    ∷ (0x0A47, 0x0A48)
    ∷ (0x0A4B, 0x0A4D)
    ∷ (0x0A51, 0x0A51)
    ∷ (0x0A70, 0x0A71)
    ∷ (0x0A75, 0x0A75)
    ∷ (0x0A81, 0x0A82)
    ∷ (0x0ABC, 0x0ABC)
    ∷ (0x0AC1, 0x0AC5)
    ∷ (0x0AC7, 0x0AC8)
    ∷ (0x0ACD, 0x0ACD)
    ∷ (0x0AE2, 0x0AE3)
    ∷ (0x0AFA, 0x0AFF)
    ∷ (0x0B01, 0x0B01)
    ∷ (0x0B3C, 0x0B3C)
    ∷ (0x0B3F, 0x0B3F)
    ∷ (0x0B41, 0x0B44)
    ∷ (0x0B4D, 0x0B4D)
    ∷ (0x0B55, 0x0B56)
    ∷ (0x0B62, 0x0B63)
    ∷ (0x0B82, 0x0B82)
    ∷ (0x0BC0, 0x0BC0)
    ∷ (0x0BCD, 0x0BCD)
    ∷ (0x0C00, 0x0C00)
    ∷ (0x0C04, 0x0C04)
    ∷ (0x0C3C, 0x0C3C)
    ∷ (0x0C3E, 0x0C40)
    ∷ (0x0C46, 0x0C48)
    ∷ (0x0C4A, 0x0C4D)
    ∷ (0x0C55, 0x0C56)
    ∷ (0x0C62, 0x0C63)
    ∷ (0x0C81, 0x0C81)
    ∷ (0x0CBC, 0x0CBC)
    ∷ (0x0CBF, 0x0CBF)
    ∷ (0x0CC6, 0x0CC6)
    ∷ (0x0CCC, 0x0CCD)
    ∷ (0x0CE2, 0x0CE3)
    ∷ (0x0D00, 0x0D01)
    ∷ (0x0D3B, 0x0D3C)
    ∷ (0x0D41, 0x0D44)
    ∷ (0x0D4D, 0x0D4D)
    ∷ (0x0D62, 0x0D63)
    ∷ (0x0D81, 0x0D81)
    ∷ (0x0DCA, 0x0DCA)
    ∷ []

abbrev pub is_case_ignorable_from_0dd2 : List (ℕ × ℕ)
is_case_ignorable_from_0dd2 =
    (0x0DD2, 0x0DD4)
    ∷ (0x0DD6, 0x0DD6)
    ∷ (0x0E31, 0x0E31)
    ∷ (0x0E34, 0x0E3A)
    ∷ (0x0E46, 0x0E4E)
    ∷ (0x0EB1, 0x0EB1)
    ∷ (0x0EB4, 0x0EBC)
    ∷ (0x0EC6, 0x0EC6)
    ∷ (0x0EC8, 0x0ECE)
    ∷ (0x0F18, 0x0F19)
    ∷ (0x0F35, 0x0F35)
    ∷ (0x0F37, 0x0F37)
    ∷ (0x0F39, 0x0F39)
    ∷ (0x0F71, 0x0F7E)
    ∷ (0x0F80, 0x0F84)
    ∷ (0x0F86, 0x0F87)
    ∷ (0x0F8D, 0x0F97)
    ∷ (0x0F99, 0x0FBC)
    ∷ (0x0FC6, 0x0FC6)
    ∷ (0x102D, 0x1030)
    ∷ (0x1032, 0x1037)
    ∷ (0x1039, 0x103A)
    ∷ (0x103D, 0x103E)
    ∷ (0x1058, 0x1059)
    ∷ (0x105E, 0x1060)
    ∷ (0x1071, 0x1074)
    ∷ (0x1082, 0x1082)
    ∷ (0x1085, 0x1086)
    ∷ (0x108D, 0x108D)
    ∷ (0x109D, 0x109D)
    ∷ (0x10FC, 0x10FC)
    ∷ (0x135D, 0x135F)
    ∷ (0x1712, 0x1714)
    ∷ (0x1732, 0x1733)
    ∷ []
