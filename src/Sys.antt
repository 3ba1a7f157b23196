-- ===== src/Sys.antt =====
-- The data structures under sys/: the byte ring and the intrusive lists.
pub mod Ringbuf
pub mod Links
pub mod List2
pub mod List1
