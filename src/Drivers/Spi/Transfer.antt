-- ===== src/Drivers/Spi/Transfer.antt =====
-- What `spi_transfer` puts on the bus.
use cannelloni_tms.Prelude.{
  ℕ, ◌+◌, ◌*◌, ◌^◌, ◌<◌, ◌≡◌, ◌≢◌, refl, ap, ◌∙◌, arith, bit_or, List, [], ◌∷◌, length, All, ◌==◌,
  true, false,
}
use cannelloni_tms.Prelude.Bits.{bit_or_above}
use cannelloni_tms.Cannelloni.Frame.{IsByte}
use cannelloni_tms.Mmio.{Device, Write}
use cannelloni_tms.Mmio.Runs.{Runs, Settles, after_wait, after_put}
use cannelloni_tms.Drivers.Spi.{
  Reg, gcr0, pc0, gcr1, delay, fmt0, spi_init, buf, dat1, flags_of, tx_full, transfer_from,
  spi_transfer,
}

-- One character on the bus: chip select 0, the delay, and whether the select is held.
abbrev pub character : ℕ → ℕ → Write Reg
character hold b = record { reg = dat1; value = hold * 2 ^ 28 + 0x04FE_0000 + b }

-- One transaction: the chip select is held up to the last byte.
abbrev pub transaction : List ℕ → List (Write Reg)
transaction [] = []
transaction (b ∷ []) = character 0 b ∷ []
transaction (b ∷ c ∷ bs) = character 1 b ∷ transaction (c ∷ bs)

last_flags : (i : ℕ) (b : ℕ) → b < 256 → bit_or b (flags_of (i + 1) i) ≡ 0x04FE_0000 + b
last_flags i b h =
    let e : (i + 1 == i + 1) ≡ true = ground arith in rw e (bit_or_above 16 0x4FE b (omega arith))

held_flags :
    (len i : ℕ) (b : ℕ) → b < 256 → i + 1 ≢ len → bit_or b (flags_of len i) ≡ 0x14FE_0000 + b
held_flags len i b h ne =
    let e : (i + 1 == len) ≡ false = ground arith in rw e (bit_or_above 16 0x14FE b (omega arith))

module _ {W : Type 0} (dev : Device Reg W) (fuel : ℕ) (ready : Settles dev fuel buf tx_full) where
  transfer_from-Runs :
      (len i : ℕ) (bs : List ℕ)
      → len ≡ i + length bs
      → All IsByte bs
      → Runs (transfer_from dev fuel len i bs) tt (transaction bs)
  unfolding transfer_from
  transfer_from-Runs len i [] e h = record { run = λ w. (w, refl) }
  transfer_from-Runs len i (b ∷ []) e h = after_wait dev fuel buf tx_full _ ready (
      after_put dev dat1 _ _ _
        (ap (λ n. bit_or b (flags_of n i)) {x = len} {y = i + 1} (omega arith) ∙ last_flags i b h.0)
        (transfer_from-Runs len (i + 1) [] (omega arith) tt))
  transfer_from-Runs len i (b ∷ c ∷ bs) e h = after_wait dev fuel buf tx_full _ ready (
      after_put dev dat1 _ _ _ (held_flags len i b h.0 (omega arith))
        (transfer_from-Runs len (i + 1) (c ∷ bs) (omega arith) h.1))

  -- If every wait for room in the transmit buffer ends, `spi_transfer` sends the bytes in order,
  -- each with chip select 0 and the delay, and holds the select between them and not after the last.
  pub spi_transfer-Runs :
      (tx : List ℕ) → All IsByte tx → Runs (spi_transfer dev fuel tx) tt (transaction tx)
  unfolding spi_transfer
  spi_transfer-Runs tx h = transfer_from-Runs (length tx) 0 tx (omega arith) h

-- How the module is set up: master with its own clock, chip selects 0 and 1 and the three data pins
-- in use, characters of eight bits.
abbrev pub setup : List (Write Reg)
setup =
    record { reg = gcr0; value = 1 }
    ∷ record { reg = pc0; value = 0xE03 }
    ∷ record { reg = gcr1; value = 0x0100_0003 }
    ∷ record { reg = delay; value = 0x2D2D_0000 }
    ∷ record { reg = fmt0; value = 0xFF00_4A08 }
    ∷ []

pub spi_init-Runs : {W : Type 0} (dev : Device Reg W) → Runs (spi_init dev) tt setup
unfolding spi_init
spi_init-Runs dev = record { run = λ w. (_, refl) }
