-- ===== src/Libc.antt =====
-- The C library's functions on strings that the program calls. A string is the list of its bytes
-- before the terminating 0.
pub mod Decimal
pub mod Strings
pub mod Files
