-- ===== src/Cannelloni.antt =====
-- src/cannelloni.c and src/cannelloni.h: CAN frames over UDP.
pub mod Frame
pub mod Queue
pub mod Bytes
pub mod Lwip
pub mod Handle
pub mod Wire
pub mod Receive
pub mod Transmit
pub mod Run
pub mod Short
