-- ===== src/Esp.antt =====
-- esp01/esp01.c: the driver of the ESP8266, a client of the serial line and of the socket layer.
pub mod Frame
pub mod Links
pub mod Notice
pub mod Format
pub mod Driver
pub mod Connect
pub mod Init
pub mod Wire
pub mod Incoming
pub mod Fuel
mod Tests
pub use Links.*
pub use Notice.*
pub use Format.*
pub use Driver.*
