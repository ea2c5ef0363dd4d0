-- ===== src/Can/Wait.antt =====
-- The driver's busy wait for the interface registers, and the test for a message.
use cannelloni_tms.Prelude.{ℕ, zero, suc, ◌<◌, ◌≡◌, arith, bit_and}
use cannelloni_tms.Prelude.{ok}
use cannelloni_tms.Can.{Dcan, Hardware, can_if_wait_ready}

module _ {M : Type 0} (hw : Hardware M) where
  -- The registers after `n` reads of IF1STAT.
  abbrev pub polled : ℕ → Dcan M → Dcan M
  polled zero s = s
  polled (suc n) s = polled n (hw.poll s).1

  -- The busy flag in what the next read of IF1STAT gives.
  abbrev pub busy : Dcan M → ℕ
  busy s = bit_and (hw.poll s).0 0x80

  -- If the first `n` reads of IF1STAT show the busy flag and the one after them does not, the wait
  -- ends after that read.
  pub can_if_wait_ready_lem :
      (n fuel : ℕ) (s : Dcan M)
      → n < fuel
      → ((k : ℕ) → k < n → busy (polled k s) ≡ 0x80)
      → busy (polled n s) ≡ 0
      → can_if_wait_ready hw fuel s ≡ ok (polled (suc n) s)
  unfolding can_if_wait_ready
  can_if_wait_ready_lem n zero s few before now = elim few [ ]
  can_if_wait_ready_lem zero (suc fuel) s few before now = rw now
  can_if_wait_ready_lem (suc n) (suc fuel) s few before now = rw (before 0 (omega arith)) (
      can_if_wait_ready_lem n fuel (hw.poll s).1 (omega arith) (λ k h. before (suc k) (omega arith))
        now)
