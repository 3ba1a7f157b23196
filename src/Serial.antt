-- ===== src/Serial.antt =====
-- esp01/serial.c: commands to the device and the thread that reads its answers.
--
-- The thread runs while a command waits, which is when `serial_cmd_wait` gives the lock up, and in
-- `serial_idle`, when no command is under way. The lock keeps an answer that comes between
-- `serial_cmd_start` and `serial_cmd_wait` back until the latter.
pub mod Line
pub mod Reader
pub mod Command
pub mod Reply
pub mod Bound
pub mod Frame
pub mod Message
pub mod Fuel
pub mod Port
pub use Line.*
pub use Reader.*
pub use Command.*
