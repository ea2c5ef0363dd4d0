-- ===== src/Port.antt =====
-- src/lwip/ports/hdk: what lwIP asks of the board.
pub mod SysArch
pub mod Hdkif
