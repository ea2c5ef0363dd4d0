-- ===== src/Drivers/Gio.antt =====
-- src/drivers/gio.c: general-purpose outputs.
pub mod Output
use cannelloni_tms.Prelude.{ℕ, ◌*◌, ◌^◌, bit_or, true, false, ◌==◌}
use cannelloni_tms.Mmio.{Device, Cmd, ◌>>=◌, ◌>>◌, put, modify}

-- The register of the module, and those of one port.
pub data Reg : Type 0 where
  gcr0 : Reg
  dir : Reg
  dset : Reg
  dclr : Reg

module _ {W : Type 0} (dev : Device Reg W) where
  pub gio_init : Cmd Reg W (Unit {0})
  gio_init = put dev gcr0 (1 * 2 ^ 0)

  pub gio_mode_output : ℕ → ℕ → Cmd Reg W (Unit {0})
  gio_mode_output pin level = do
    modify dev dir (λ v. bit_or v (1 * 2 ^ pin))
    elim (level == 0) [
      | false ↦ modify dev dset (λ v. bit_or v (1 * 2 ^ pin))
      | true ↦ modify dev dclr (λ v. bit_or v (1 * 2 ^ pin))
    ]
