-- ===== src/Drivers/Sja1105/Init.antt =====
-- What `SJA1105_init` puts on the bus.
use cannelloni_tms.Prelude.{
  ℕ, ◌+◌, ◌*◌, ◌/◌, ◌%◌, ◌^◌, ◌<◌, ◌≡◌, refl, ap, ap₂, subst, ◌∙◌, arith, bit_and, bit_or, [], ◌∷◌,
  ◌++◌,
}
use cannelloni_tms.Prelude.Bits.{bit_and_mask, bit_or_disjoint}
use cannelloni_tms.Cannelloni.Wire.{be32}
use cannelloni_tms.Mmio.{Device}
use cannelloni_tms.Mmio.Runs.{Runs, Runs-bind, Settles}
use cannelloni_tms.Drivers.Spi.{Reg, buf, tx_full, spi_transfer}
use cannelloni_tms.Drivers.Spi.Transfer.{setup, spi_init-Runs, transaction, spi_transfer-Runs}
use cannelloni_tms.Drivers.Sja1105.{
  config, write_command, static_config_addr, sja1105_write, sja1105_init,
}
use cannelloni_tms.Drivers.Sja1105.Format.{static_config}
use cannelloni_tms.Drivers.Sja1105.Checked.{tables, config-static_config, config-All}

-- The word of a write command: the write bit, and the address from bit 4 on.
abbrev pub command : ℕ → ℕ
command addr = 2 ^ 31 + addr * 2 ^ 4

write_command-be32 : (addr : ℕ) → addr < 2 ^ 21 → write_command addr ≡ be32 (command addr)
write_command-be32 addr h =
    let top : bit_and (addr / 2 ^ 20) 1 ≡ addr / 2 ^ 20 % 2 =
      bit_and_mask 1 (addr / 2 ^ 20) 1 refl in
    let first : bit_or 0x80 (addr / 2 ^ 20 % 2) ≡ 0x80 + addr / 2 ^ 20 % 2 =
      bit_or_disjoint 7 1 (addr / 2 ^ 20 % 2) (omega arith) in
    let third = bit_and_mask 8 (addr / 2 ^ 4) 0xFF refl in
    let fourth = bit_and_mask 8 (addr * 2 ^ 4 % 2 ^ 32) 0xFF refl in
    rw (top, first, third, fourth)
      (ap₂ (λ a b. a ∷ b) {x = (0x80 + addr / 2 ^ 20 % 2) % 256} (omega arith)
        (ap₂ (λ a b. a ∷ b) {x = addr / 2 ^ 12 % 256} (omega arith)
          (ap₂ (λ a b. a ∷ b) {x = addr / 2 ^ 4 % 2 ^ 8 % 256} (omega arith)
            (ap (λ a. a ∷ []) {x = addr * 2 ^ 4 % 2 ^ 32 % 2 ^ 8 % 256} (omega arith)))))

module _ {W : Type 0} (dev : Device Reg W) (fuel : ℕ) (ready : Settles dev fuel buf tx_full) where
  -- If every wait for room in the transmit buffer ends, `SJA1105_write` of an address of 21 bits
  -- sends one transaction: the write command with the address, and the value, highest byte first.
  pub sja1105_write-Runs :
      (addr value : ℕ)
      → addr < 2 ^ 21
      → Runs
          (sja1105_write dev fuel addr value)
          tt
          (transaction (be32 (command addr) ++ be32 value))
  unfolding sja1105_write
  sja1105_write-Runs addr value h =
      subst (λ l. Runs (sja1105_write dev fuel addr value) tt (transaction (l ++ be32 value)))
        (write_command-be32 addr h)
        (spi_transfer-Runs dev fuel ready (write_command addr ++ be32 value) (omega arith))

  -- If every wait for room in the transmit buffer ends, `SJA1105_init` sets the SPI module up,
  -- writes the register at 0x100032, and sends one transaction to the address of the static
  -- configuration: the device's identifier and the tables, each with its length in words and the
  -- right CRC-32 of its header and its entries, and at the end the CRC-32 of all.
  pub sja1105_init-Runs : Runs (sja1105_init dev fuel) tt (
      setup
      ++ (transaction (be32 (command 0x100032) ++ be32 0xB00_0800)
          ++ transaction (be32 (command static_config_addr) ++ static_config 0x9e00_030e tables)))
  unfolding sja1105_init
  sja1105_init-Runs = Runs-bind _ (spi_init-Runs dev) (
      Runs-bind _ (sja1105_write-Runs 0x100032 0xB00_0800 (omega arith)) (
        subst (λ l. Runs (spi_transfer dev fuel config) tt (transaction l))
          (config-static_config
            ∙ ap (λ l. l ++ static_config 0x9e00_030e tables)
                (write_command-be32 static_config_addr (omega arith)))
          (spi_transfer-Runs dev fuel ready config config-All)))
