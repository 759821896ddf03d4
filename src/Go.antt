-- ===== src/Go.antt =====
-- What the program uses of Go's standard library on texts: `strings`, `strconv`, `path`,
-- `path/filepath` (on a system whose separator is '/'), and the texts that JSON keeps.
pub mod Strings
pub mod Decimal
pub mod Path
pub mod Utf8
