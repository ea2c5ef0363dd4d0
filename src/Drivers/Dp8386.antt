-- ===== src/Drivers/Dp8386.antt =====
-- src/DP8386.c: the set-up of the Ethernet PHY. The delays of the source do nothing.
pub mod Init
use cannelloni_tms.Prelude.{ℕ, zero, suc, ◌*◌, ◌^◌, bit_or, true, false, ◌==◌}
use cannelloni_tms.Prelude.{stuck}
use cannelloni_tms.Mmio.{Device, Cmd, ◌>>=◌, ◌>>◌, pure}
use cannelloni_tms.Drivers.Mdio.{Reg, mdio_init, mdio_write, mdio_read, mdio_disable}

abbrev pub dp8386_phyid : ℕ
dp8386_phyid = 3

abbrev pub dp8386_rgmiictl : ℕ
dp8386_rgmiictl = 0x32

-- The local variable `RGMIICTL`
abbrev pub rgmiictl : ℕ
rgmiictl =
    bit_or (bit_or (bit_or (bit_or (1 * 2 ^ 7) (0b10 * 2 ^ 5)) (0b10 * 2 ^ 3)) (1 * 2 ^ 1))
      (1 * 2 ^ 0)

module _ {W : Type 0} (dev : Device Reg W) (fuel : ℕ) where
  -- The loop, which the source runs until the register reads back.
  pub configure : ℕ → Cmd Reg W (Unit {0})
  configure zero = λ w. stuck
  configure (suc attempts) = do
    mdio_write dev fuel dp8386_phyid dp8386_rgmiictl rgmiictl
    value ← mdio_read dev fuel dp8386_phyid dp8386_rgmiictl
    elim (value == rgmiictl) [ true ↦ pure tt | false ↦ configure attempts ]

  pub dp8386_init : ℕ → Cmd Reg W (Unit {0})
  dp8386_init attempts = do mdio_init dev fuel 100000; configure attempts; mdio_disable dev fuel
