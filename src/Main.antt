-- ===== src/Main.antt =====
-- src/main.c: the configuration of the four channels, the callbacks between a channel and its CAN
-- controller, and the endless loop.
pub mod Channels
pub mod Receive
pub mod Transmit
pub mod Loop
pub mod Start
use cannelloni_tms.Prelude.{ℕ, ◌+◌, ◌*◌, ◌%◌, ◌^◌, if◌then◌else◌, ◌==◌}
use cannelloni_tms.Cannelloni.Handle.{Config}

abbrev pub can_ifaces : ℕ
can_ifaces = 4

abbrev pub cnl_buf_size : ℕ
cnl_buf_size = 128

-- The addresses of the arrays `tx_buf` and `rx_buf` of interface number `i`: all are distinct.
abbrev pub tx_buf : ℕ → ℕ
tx_buf i = 2 * i

abbrev pub rx_buf : ℕ → ℕ
rx_buf i = 2 * i + 1

-- The argument is the register DIEIDL_REG0, the low word of the die's identification.
pub node_id : ℕ → ℕ
node_id die = if die == 0x1600_600D then 1 else if die == 0x1601_3009 then 2 else 0

-- The members that the loop of `main` gives interface number `i`. `can_interfaces->rx_buf` is the
-- array of the first interface, whatever `i` is. The first word of the address has been
-- overwritten by the caller; ports are `uint16_t`.
pub interface_config : ℕ → ℕ → ℕ → Config
unfolding node_id
interface_config die addr i = record {
  port = (20000 + node_id die * 10 + i) % 2 ^ 16;
  addr = addr;
  remote_port = (20000 + node_id die * 10 + i) % 2 ^ 16;
  can_buf_size = cnl_buf_size;
  can_tx_buf = tx_buf 0;
  can_rx_buf = rx_buf 0;
}
