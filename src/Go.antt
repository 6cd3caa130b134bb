-- ===== src/Go.antt =====
-- What the program uses of Go's standard library, on lists of bytes.
pub mod Text
pub mod Net
pub mod Strconv
pub mod Duration
