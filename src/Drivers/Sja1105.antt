-- ===== src/Drivers/Sja1105.antt =====
-- src/SJA1105.c: the set-up of the Ethernet switch over SPI.
pub mod Config
pub mod Format
pub mod Checked
pub mod Init
use cannelloni_tms.Prelude.{ℕ, suc, ◌+◌, ◌*◌, ◌/◌, ◌%◌, ◌^◌, bit_and, bit_or, List, [], ◌∷◌, ◌++◌}
use cannelloni_tms.Mmio.{Device, Cmd, ◌>>=◌, ◌>>◌}
use cannelloni_tms.Drivers.Spi.{Reg, spi_init, spi_transfer}
use cannelloni_tms.Drivers.Sja1105.Config.{
  device_id, l2_policing, l2_forwarding, mac_config, l2_forwarding_params, general_params,
  xmii_mode, total_crc,
}

abbrev pub static_config_addr : ℕ
static_config_addr = 0x20000

-- The four bytes of the macro `WRITE`, stored in a `uint8_t` array
abbrev pub write_command : ℕ → List ℕ
write_command addr =
    bit_or 0x80 (bit_and (addr / 2 ^ 20) 1) % 256
    ∷ addr / 2 ^ 12 % 256
    ∷ bit_and (addr / 2 ^ 4) 0xFF % 256
    ∷ bit_and (addr * 2 ^ 4 % 2 ^ 32) 0xFF % 256
    ∷ []

pub config : List ℕ
config =
    write_command static_config_addr
    ++ (device_id
        ++ (l2_policing
            ++ (l2_forwarding
                ++ (mac_config
                    ++ (l2_forwarding_params ++ (general_params ++ (xmii_mode ++ total_crc)))))))

module _ {W : Type 0} (dev : Device Reg W) (fuel : ℕ) where
  pub sja1105_write : ℕ → ℕ → Cmd Reg W (Unit {0})
  sja1105_write addr value = spi_transfer dev fuel (
      write_command addr
      ++ (value / 2 ^ 24 % 256 ∷ value / 2 ^ 16 % 256 ∷ value / 2 ^ 8 % 256 ∷ value % 256 ∷ []))

  pub sja1105_init : Cmd Reg W (Unit {0})
  sja1105_init = do spi_init dev; sja1105_write 0x100032 0xB000800; spi_transfer dev fuel config
