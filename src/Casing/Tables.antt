-- ===== src/Casing/Tables.antt =====
-- The tables of sys.Text/data, which a script of the repository generates.
pub mod Cased
pub mod CaseIgnorable
pub mod SoftDotted
pub mod CombiningClass
pub mod ToLower
pub mod ToUpper
pub mod Fold
pub mod UpperSpecial
pub mod FoldSpecial
