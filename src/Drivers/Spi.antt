-- ===== src/Drivers/Spi.antt =====
-- src/drivers/spi.c.
pub mod Transfer
use cannelloni_tms.Prelude.{
  ℕ, suc, ◌+◌, ◌*◌, ◌-◌, ◌^◌, bit_and, bit_or, List, [], ◌∷◌, length, Bool, not, if◌then◌else◌,
  ◌==◌,
}
use cannelloni_tms.Mmio.{Device, Cmd, ◌>>=◌, ◌>>◌, pure, put, wait}

-- The registers of `mibspiREG2` that the driver uses.
pub data Reg : Type 0 where
  gcr0 : Reg
  pc0 : Reg
  gcr1 : Reg
  delay : Reg
  fmt0 : Reg
  buf : Reg
  dat1 : Reg

abbrev pub cs_delay : ℕ
cs_delay = 45

abbrev pub transaction_delay : ℕ
transaction_delay = 0xFF

-- The flags beside every character: chip select 0 low, and the delay between transactions.
abbrev pub base_flags : ℕ
base_flags = bit_or (bit_and 0xFF (2 ^ 32 - 1 - 2 ^ 0) * 2 ^ 16) (1 * 2 ^ 26)

-- The flags of character number `i` of `len`: all but the last hold the chip select.
abbrev pub flags_of : ℕ → ℕ → ℕ
flags_of len i =
    let flags = bit_or base_flags (0 * 2 ^ 24) in
    if i + 1 == len then flags else bit_or flags (1 * 2 ^ 28)

-- `SPIBUF_TXFULL_SHIFT`
abbrev pub tx_full : ℕ → Bool
tx_full v = not (bit_and v (2 ^ 29) == 0)

module _ {W : Type 0} (dev : Device Reg W) where
  -- The delay loop of the source does nothing.
  pub spi_init : Cmd Reg W (Unit {0})
  spi_init = do
    put dev gcr0 1
    put dev pc0 (bit_or (bit_or (bit_or (bit_or (2 ^ 0) (2 ^ 1)) (2 ^ 9)) (2 ^ 10)) (2 ^ 11))
    put dev gcr1 (bit_or (bit_or (2 ^ 0) (2 ^ 1)) (2 ^ 24))
    put dev delay (bit_or (cs_delay * 2 ^ 24) (cs_delay * 2 ^ 16))
    put dev fmt0 (bit_or (bit_or (transaction_delay * 2 ^ 24) (74 * 2 ^ 8)) (8 * 2 ^ 0))

  -- The loop from character number `i` of `len` on.
  pub transfer_from : ℕ → ℕ → ℕ → List ℕ → Cmd Reg W (Unit {0})
  transfer_from fuel len i [] = pure tt
  transfer_from fuel len i (b ∷ bs) = do
    wait dev fuel buf tx_full
    put dev dat1 (bit_or b (flags_of len i))
    transfer_from fuel len (i + 1) bs

  pub spi_transfer : ℕ → List ℕ → Cmd Reg W (Unit {0})
  spi_transfer fuel tx = transfer_from fuel (length tx) 0 tx
