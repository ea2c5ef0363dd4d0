-- ===== src/Drivers/Timer/Ticks.antt =====
-- The clock counts interrupts.
use cannelloni_tms.Prelude.{ℕ, zero, suc, ◌+◌, ◌%◌, ◌^◌, ◌≡◌, refl, ap, subst, arith, List, [], ◌∷◌}
use cannelloni_tms.Prelude.{ok}
use cannelloni_tms.Mmio.{Device, Cmd, Write, ◌>>=◌, pure}
use cannelloni_tms.Mmio.Runs.{Runs, Runs-bind}
use cannelloni_tms.Drivers.Timer.{Reg, intflag, rti_compare0_interrupt}

module _ {R W : Type 0} (dev : Device R W) (at : Reg → R) where
  -- `n` interrupts, from the counter's value `t` on.
  pub interrupts : ℕ → ℕ → Cmd R W ℕ
  interrupts zero t = pure t
  interrupts (suc n) t = rti_compare0_interrupt dev at t >>= interrupts n

  -- The interrupt flag is cleared `n` times.
  pub cleared : ℕ → List (Write R)
  cleared zero = []
  cleared (suc n) = record { reg = at intflag; value = 1 } ∷ cleared n

  -- After n interrupts a counter of 32 bits that started at t is at t + n, modulo 2^32, and each
  -- interrupt has cleared its flag once, with no other write.
  pub interrupts-Runs :
      (n t : ℕ) → t % 2 ^ 32 ≡ t → Runs (interrupts n t) ((t + n) % 2 ^ 32) (cleared n)
  unfolding interrupts cleared rti_compare0_interrupt
  interrupts-Runs zero t h = record { run = λ w. (w, ap (λ x. ok (x, w, [])) (omega arith)) }
  interrupts-Runs (suc n) t h =
      let t' = (t + 1) % 2 ^ 32 in
      let same : (t' + n) % 2 ^ 32 ≡ (t + suc n) % 2 ^ 32 = omega arith in
      let rest =
        subst (λ x. Runs (interrupts n t') x (cleared n)) same
          (interrupts-Runs n t' (omega arith)) in
      Runs-bind (interrupts n) {l = record { reg = at intflag; value = 1 } ∷ []} {l' = cleared n}
        (record { run = λ w. (dev.write (at intflag) 1 w, refl) }) rest
