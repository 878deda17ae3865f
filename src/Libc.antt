-- ===== src/Libc.antt =====
-- The C library's functions on texts, as far as the programs call them.
pub mod Str
pub mod Tok
pub mod Number
pub mod Scan
pub mod Find
pub mod File
