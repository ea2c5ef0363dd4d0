-- ===== src/Tests.antt =====
-- Concrete runs.
pub mod Sim
pub mod Devices
pub mod Ethernet
mod Drivers
mod Hdkif
mod Receive
mod Bridge
mod Queues
mod Channel
mod Cycle
pub mod Controller
pub mod Dcan
mod Gateway
