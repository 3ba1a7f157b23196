-- ===== src/Net.antt =====
-- net/netdev.c: devices, sockets, and the calls `bos_*` of a program that uses them.
pub mod Frame
pub mod Sound
pub mod Itoa
pub mod Device
pub mod Calls
pub mod Transfer
pub mod Open
pub mod Recv
pub mod Deliver
pub mod Refuse
pub mod Assign
mod Tests
pub use Device.*
pub use Calls.*
pub use Transfer.*
