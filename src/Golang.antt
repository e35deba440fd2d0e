-- ===== src/Golang.antt =====
-- What the program uses of Go's standard library beyond package strings: decimal numbers (strconv),
-- path.Clean, utf8.ValidString and the sorting of package slices.
pub mod Decimal
pub mod Paths
pub mod Utf8
pub mod Sorting
