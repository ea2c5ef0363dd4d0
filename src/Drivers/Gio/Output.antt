-- ===== src/Drivers/Gio/Output.antt =====
-- The writes that make a pin an output.
use cannelloni_tms.Prelude.{
  ℕ, ◌*◌, ◌^◌, ◌≡◌, refl, arith, bit_or, ℕ_discrete, if◌then◌else◌, List, [], ◌∷◌, false, ◌==◌,
}
use cannelloni_tms.Prelude.{ok}
use cannelloni_tms.Mmio.{Device, Write}
use cannelloni_tms.Mmio.Runs.{Runs}
use cannelloni_tms.Drivers.Gio.{Reg, gcr0, dir, dset, dclr, gio_init, gio_mode_output}

pub gio_init-Runs :
    {W : Type 0} (dev : Device Reg W)
    → Runs (gio_init dev) tt (record { reg = gcr0; value = 1 } ∷ [])
unfolding gio_init
gio_init-Runs dev = record { run = λ w. (_, refl) }

-- The writes of `gio_mode_output` from the state `w`, of which the last is made to `target`.
abbrev pub output_writes : {W : Type 0} → Device Reg W → W → ℕ → Reg → List (Write Reg)
output_writes dev w pin target =
    let v = bit_or (dev.read dir w).0 (1 * 2 ^ pin) in
    let w1 = dev.write dir v (dev.read dir w).1 in
    record { reg = dir; value = v }
    ∷ record { reg = target; value = bit_or (dev.read target w1).0 (1 * 2 ^ pin) }
    ∷ []

-- A pin that is made an output: its bit is set in the direction, and then in the register that
-- sets outputs, or for the level 0 in the one that clears them, each beside the bits read there.
pub gio_mode_output-writes :
    {W : Type 0} (dev : Device Reg W) (w : W) (pin level : ℕ)
    → (w' : W) × (gio_mode_output dev pin level w
        ≡ ok (tt, w', output_writes dev w pin (if level == 0 then dclr else dset)))
unfolding gio_mode_output
gio_mode_output-writes dev w pin level = elim (ℕ_discrete level 0) [
  | yes e ↦ rw e (_, refl)
  | no ne ↦
      let e : (level == 0) ≡ false = ground arith in
      let w1 = dev.write dir (bit_or (dev.read dir w).0 (1 * 2 ^ pin)) (dev.read dir w).1 in
      let w2 = dev.write dset (bit_or (dev.read dset w1).0 (1 * 2 ^ pin)) (dev.read dset w1).1 in
      (w2, rw (e, gio_mode_output) refl)
]
