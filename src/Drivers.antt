-- ===== src/Drivers.antt =====
-- The drivers of the chip's peripherals.
pub mod Spi
pub mod Sja1105
pub mod Mdio
pub mod Dp8386
pub mod Pinmux
pub mod Gio
pub mod Vim
pub mod Timer
pub mod System
