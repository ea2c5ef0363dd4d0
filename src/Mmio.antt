-- ===== src/Mmio.antt =====
-- Memory-mapped registers, as the drivers in src/drivers and src/HL_system.c use them: commands that
-- read and write registers of a device, with the trace of the writes.
pub mod Runs
pub mod Orders
use cannelloni_tms.Prelude.{ℕ, zero, suc, List, [], ◌∷◌, ◌++◌, Bool, true, false}
use cannelloni_tms.Prelude.{Exec, ok, fault, stuck}

-- The hardware behind the registers `R`. A read may change its state, as a write does.
pub record Device (R W : Type 0) : Type 0 where
  pub read : R → W → ℕ × W
  pub write : R → ℕ → W → W

pub record Write (R : Type 0) : Type 0 where
  pub reg : R
  pub value : ℕ

-- A command on a device with state `W`: its result, the new state, and the writes that it made, in
-- order.
abbrev pub Cmd : Type 0 → Type 0 → Type 0 → Type 0
Cmd R W A = W → Exec (A × W × List (Write R))

module _ {R W A : Type 0} where
  -- The outcome of a command that comes behind some writes.
  abbrev pub behind : List (Write R) → Exec (A × W × List (Write R)) → Exec (A × W × List (Write R))
  behind l (ok (a, w, l')) = ok (a, w, l ++ l')
  behind l (fault e) = fault e
  behind l stuck = stuck

  abbrev pub and_then :
      {B : Type 0} → Exec (B × W × List (Write R)) → (B → Cmd R W A) → Exec (A × W × List (Write R))
  and_then (ok (b, w, l)) k = behind l (k b w)
  and_then (fault e) k = fault e
  and_then stuck k = stuck

  infixl 5 ◌>>=◌ ◌>>◌
  abbrev pub ◌>>=◌ : {B : Type 0} → Cmd R W B → (B → Cmd R W A) → Cmd R W A
  m >>= k = λ w. and_then (m w) k

  abbrev pub ◌>>◌ : Cmd R W (Unit {0}) → Cmd R W A → Cmd R W A
  m >> k = m >>= λ _. k

  abbrev pub pure : A → Cmd R W A
  pure a = λ w. ok (a, w, [])

module _ {R W : Type 0} where
  abbrev pub waited : Exec W → Exec (Unit {0} × W × List (Write R))
  waited (ok w) = ok (tt, w, [])
  waited (fault e) = fault e
  waited stuck = stuck

module _ {R W : Type 0} (dev : Device R W) where
  abbrev pub get : R → Cmd R W ℕ
  get r = λ w. ok ((dev.read r w).0, (dev.read r w).1, [])

  abbrev pub put : R → ℕ → Cmd R W (Unit {0})
  put r v = λ w. ok (tt, dev.write r v w, record { reg = r; value = v } ∷ [])

  -- `r = f(r)`: a read and a write.
  abbrev pub modify : R → (ℕ → ℕ) → Cmd R W (Unit {0})
  modify r f = get r >>= λ v. put r (f v)

  -- The state after reading `r` until a value fails the test.
  pub poll : ℕ → R → (ℕ → Bool) → W → Exec W
  poll zero r busy w = stuck
  poll (suc fuel) r busy w = elim (busy (dev.read r w).0) [
    | true ↦ poll fuel r busy (dev.read r w).1
    | false ↦ ok (dev.read r w).1
  ]

  -- `while (busy(r)) ;`, with fuel for the number of reads.
  abbrev pub wait : ℕ → R → (ℕ → Bool) → Cmd R W (Unit {0})
  wait fuel r busy = λ w. waited (poll fuel r busy w)
