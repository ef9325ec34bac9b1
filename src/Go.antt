-- ===== src/Go.antt =====
-- What the program uses of the Go language and of its standard library: text as bytes, errors and
-- panics as values, finite maps, sorting, `net.IP`, and SHA-1.
pub mod Text
pub mod Result
pub mod Exec
pub mod Map
pub mod Sort
pub mod Sha1
pub mod Int
pub mod Net
pub mod Tests
