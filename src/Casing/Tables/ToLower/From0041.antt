-- ===== src/Casing/Tables/ToLower/From0041.antt =====
-- `internal::dchar_to_lower_simple` (sys.Text/data/UnicodeCasing.h): one-to-one lowercase.
-- An entry has the first and last code point of a run, its stride, and what the first maps to.
use libcxxext.Prelude.{ℕ, List, [], ◌∷◌}

abbrev pub to_lower_simple_from_0041 : List (ℕ × ℕ × ℕ × ℕ)
to_lower_simple_from_0041 =
    (0x0041, 0x005A, 1, 0x0061)
    ∷ (0x00C0, 0x00D6, 1, 0x00E0)
    ∷ (0x00D8, 0x00DE, 1, 0x00F8)
    ∷ (0x0100, 0x012E, 2, 0x0101)
    ∷ (0x0130, 0x0130, 1, 0x0069)
    ∷ (0x0132, 0x0136, 2, 0x0133)
    ∷ (0x0139, 0x0147, 2, 0x013A)
    ∷ (0x014A, 0x0176, 2, 0x014B)
    ∷ (0x0178, 0x0178, 1, 0x00FF)
    ∷ (0x0179, 0x017D, 2, 0x017A)
    ∷ (0x0181, 0x0181, 1, 0x0253)
    ∷ (0x0182, 0x0184, 2, 0x0183)
    ∷ (0x0186, 0x0186, 1, 0x0254)
    ∷ (0x0187, 0x0187, 1, 0x0188)
    ∷ (0x0189, 0x018A, 1, 0x0256)
    ∷ (0x018B, 0x018B, 1, 0x018C)
    ∷ (0x018E, 0x018E, 1, 0x01DD)
    ∷ (0x018F, 0x018F, 1, 0x0259)
    ∷ (0x0190, 0x0190, 1, 0x025B)
    ∷ (0x0191, 0x0191, 1, 0x0192)
    ∷ (0x0193, 0x0193, 1, 0x0260)
    ∷ (0x0194, 0x0194, 1, 0x0263)
    ∷ (0x0196, 0x0196, 1, 0x0269)
    ∷ (0x0197, 0x0197, 1, 0x0268)
    ∷ (0x0198, 0x0198, 1, 0x0199)
    ∷ (0x019C, 0x019C, 1, 0x026F)
    ∷ (0x019D, 0x019D, 1, 0x0272)
    ∷ (0x019F, 0x019F, 1, 0x0275)
    ∷ (0x01A0, 0x01A4, 2, 0x01A1)
    ∷ (0x01A6, 0x01A6, 1, 0x0280)
    ∷ (0x01A7, 0x01A7, 1, 0x01A8)
    ∷ (0x01A9, 0x01A9, 1, 0x0283)
    ∷ (0x01AC, 0x01AC, 1, 0x01AD)
    ∷ (0x01AE, 0x01AE, 1, 0x0288)
    ∷ (0x01AF, 0x01AF, 1, 0x01B0)
    ∷ (0x01B1, 0x01B2, 1, 0x028A)
    ∷ []

abbrev pub to_lower_simple_from_01b3 : List (ℕ × ℕ × ℕ × ℕ)
to_lower_simple_from_01b3 =
    (0x01B3, 0x01B5, 2, 0x01B4)
    ∷ (0x01B7, 0x01B7, 1, 0x0292)
    ∷ (0x01B8, 0x01B8, 1, 0x01B9)
    ∷ (0x01BC, 0x01BC, 1, 0x01BD)
    ∷ (0x01C4, 0x01C4, 1, 0x01C6)
    ∷ (0x01C5, 0x01C5, 1, 0x01C6)
    ∷ (0x01C7, 0x01C7, 1, 0x01C9)
    ∷ (0x01C8, 0x01C8, 1, 0x01C9)
    ∷ (0x01CA, 0x01CA, 1, 0x01CC)
    ∷ (0x01CB, 0x01DB, 2, 0x01CC)
    ∷ (0x01DE, 0x01EE, 2, 0x01DF)
    ∷ (0x01F1, 0x01F1, 1, 0x01F3)
    ∷ (0x01F2, 0x01F4, 2, 0x01F3)
    ∷ (0x01F6, 0x01F6, 1, 0x0195)
    ∷ (0x01F7, 0x01F7, 1, 0x01BF)
    ∷ (0x01F8, 0x021E, 2, 0x01F9)
    ∷ (0x0220, 0x0220, 1, 0x019E)
    ∷ (0x0222, 0x0232, 2, 0x0223)
    ∷ (0x023A, 0x023A, 1, 0x2C65)
    ∷ (0x023B, 0x023B, 1, 0x023C)
    ∷ (0x023D, 0x023D, 1, 0x019A)
    ∷ (0x023E, 0x023E, 1, 0x2C66)
    ∷ (0x0241, 0x0241, 1, 0x0242)
    ∷ (0x0243, 0x0243, 1, 0x0180)
    ∷ (0x0244, 0x0244, 1, 0x0289)
    ∷ (0x0245, 0x0245, 1, 0x028C)
    ∷ (0x0246, 0x024E, 2, 0x0247)
    ∷ (0x0370, 0x0372, 2, 0x0371)
    ∷ (0x0376, 0x0376, 1, 0x0377)
    ∷ (0x037F, 0x037F, 1, 0x03F3)
    ∷ (0x0386, 0x0386, 1, 0x03AC)
    ∷ (0x0388, 0x038A, 1, 0x03AD)
    ∷ (0x038C, 0x038C, 1, 0x03CC)
    ∷ (0x038E, 0x038F, 1, 0x03CD)
    ∷ (0x0391, 0x03A1, 1, 0x03B1)
    ∷ (0x03A3, 0x03AB, 1, 0x03C3)
    ∷ (0x03CF, 0x03CF, 1, 0x03D7)
    ∷ (0x03D8, 0x03EE, 2, 0x03D9)
    ∷ (0x03F4, 0x03F4, 1, 0x03B8)
    ∷ (0x03F7, 0x03F7, 1, 0x03F8)
    ∷ (0x03F9, 0x03F9, 1, 0x03F2)
    ∷ (0x03FA, 0x03FA, 1, 0x03FB)
    ∷ (0x03FD, 0x03FF, 1, 0x037B)
    ∷ (0x0400, 0x040F, 1, 0x0450)
    ∷ (0x0410, 0x0410, 1, 0x0430)
    ∷ []

abbrev pub to_lower_simple_from_0411 : List (ℕ × ℕ × ℕ × ℕ)
to_lower_simple_from_0411 =
    (0x0411, 0x042F, 1, 0x0431)
    ∷ (0x0460, 0x0480, 2, 0x0461)
    ∷ (0x048A, 0x04BE, 2, 0x048B)
    ∷ (0x04C0, 0x04C0, 1, 0x04CF)
    ∷ (0x04C1, 0x04CD, 2, 0x04C2)
    ∷ (0x04D0, 0x052E, 2, 0x04D1)
    ∷ (0x0531, 0x0543, 1, 0x0561)
    ∷ []

abbrev pub to_lower_simple_from_0544 : List (ℕ × ℕ × ℕ × ℕ)
to_lower_simple_from_0544 =
    (0x0544, 0x0556, 1, 0x0574)
    ∷ (0x10A0, 0x10C5, 1, 0x2D00)
    ∷ (0x10C7, 0x10C7, 1, 0x2D27)
    ∷ (0x10CD, 0x10CD, 1, 0x2D2D)
    ∷ (0x13A0, 0x13EF, 1, 0xAB70)
    ∷ (0x13F0, 0x13F5, 1, 0x13F8)
    ∷ (0x1C89, 0x1C89, 1, 0x1C8A)
    ∷ (0x1C90, 0x1C93, 1, 0x10D0)
    ∷ []

abbrev pub to_lower_simple_from_1c94 : List (ℕ × ℕ × ℕ × ℕ)
to_lower_simple_from_1c94 =
    (0x1C94, 0x1CBA, 1, 0x10D4)
    ∷ (0x1CBD, 0x1CBF, 1, 0x10FD)
    ∷ (0x1E00, 0x1E94, 2, 0x1E01)
    ∷ (0x1E9E, 0x1E9E, 1, 0x00DF)
    ∷ (0x1EA0, 0x1EDE, 2, 0x1EA1)
    ∷ []

abbrev pub to_lower_simple_from_1ee0 : List (ℕ × ℕ × ℕ × ℕ)
to_lower_simple_from_1ee0 =
    (0x1EE0, 0x1EFE, 2, 0x1EE1)
    ∷ (0x1F08, 0x1F0F, 1, 0x1F00)
    ∷ (0x1F18, 0x1F1D, 1, 0x1F10)
    ∷ (0x1F28, 0x1F2F, 1, 0x1F20)
    ∷ (0x1F38, 0x1F3F, 1, 0x1F30)
    ∷ (0x1F48, 0x1F4D, 1, 0x1F40)
    ∷ (0x1F59, 0x1F5F, 2, 0x1F51)
    ∷ (0x1F68, 0x1F6F, 1, 0x1F60)
    ∷ (0x1F88, 0x1F8F, 1, 0x1F80)
    ∷ (0x1F98, 0x1F9F, 1, 0x1F90)
    ∷ (0x1FA8, 0x1FAF, 1, 0x1FA0)
    ∷ (0x1FB8, 0x1FB9, 1, 0x1FB0)
    ∷ (0x1FBA, 0x1FBB, 1, 0x1F70)
    ∷ (0x1FBC, 0x1FBC, 1, 0x1FB3)
    ∷ (0x1FC8, 0x1FCB, 1, 0x1F72)
    ∷ (0x1FCC, 0x1FCC, 1, 0x1FC3)
    ∷ (0x1FD8, 0x1FD9, 1, 0x1FD0)
    ∷ (0x1FDA, 0x1FDB, 1, 0x1F76)
    ∷ (0x1FE8, 0x1FE9, 1, 0x1FE0)
    ∷ (0x1FEA, 0x1FEB, 1, 0x1F7A)
    ∷ (0x1FEC, 0x1FEC, 1, 0x1FE5)
    ∷ (0x1FF8, 0x1FF9, 1, 0x1F78)
    ∷ (0x1FFA, 0x1FFB, 1, 0x1F7C)
    ∷ (0x1FFC, 0x1FFC, 1, 0x1FF3)
    ∷ (0x2126, 0x2126, 1, 0x03C9)
    ∷ (0x212A, 0x212A, 1, 0x006B)
    ∷ (0x212B, 0x212B, 1, 0x00E5)
    ∷ (0x2132, 0x2132, 1, 0x214E)
    ∷ (0x2160, 0x216F, 1, 0x2170)
    ∷ (0x2183, 0x2183, 1, 0x2184)
    ∷ (0x24B6, 0x24C6, 1, 0x24D0)
    ∷ []
