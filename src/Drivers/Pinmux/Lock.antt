-- ===== src/Drivers/Pinmux/Lock.antt =====
-- The lock of the pin multiplexer: two key words open it, and anything else closes it.
use cannelloni_tms.Prelude.{
  ℕ, ◌≡◌, refl, Bool, false, ◌&&◌, List, [], ◌∷◌, ◌++◌, map, Option, none, some, if◌then◌else◌,
  ◌==◌,
}
use cannelloni_tms.Prelude.{ok}
use cannelloni_tms.Mmio.{Device, Write}
use cannelloni_tms.Mmio.Orders.{Orders, registers}
use cannelloni_tms.Drivers.Pinmux.{Reg, kicker0, kicker1, pinmux, pinmux_init}

pub record Kickers : Type 0 where
  pub kick0 : ℕ
  pub kick1 : ℕ

abbrev pub is_open : Kickers → Bool
is_open k = k.kick0 == 0x83E7_0B13 && k.kick1 == 0x95A4_F1E0

-- What the lock makes of one write: none, if it goes to a pin while the lock is closed.
abbrev lock_step : Kickers → Reg → ℕ → Option Kickers
lock_step k kicker0 v = some (record k { kick0 = v })
lock_step k kicker1 v = some (record k { kick1 = v })
lock_step k (pinmux i) v = if is_open k then some k else none

abbrev pub lock_run : Kickers → List (Write Reg) → Option Kickers
lock_run k [] = some k
lock_run k (w ∷ ws) = elim (lock_step k w.reg w.value) [ none ↦ none | some k' ↦ lock_run k' ws ]

-- Whatever the device does and whatever state its lock is in, `pinmux_init` returns, writes to no
-- pin while the lock is closed, and leaves both key words cleared, so that the lock is closed.
pub pinmux_init-lock_run :
    {W : Type 0} (dev : Device Reg W) (w : W) (k : Kickers)
    → (w' : W) × (l : List (Write Reg)) × (pinmux_init dev (λ r. r) w ≡ ok (tt, w', l))
      × (lock_run k l ≡ some (record { kick0 = 0; kick1 = 0 }))
      × (is_open (record { kick0 = 0; kick1 = 0 }) ≡ false)
unfolding pinmux_init
pinmux_init-lock_run dev w k = (_, _, refl, refl, refl)

-- The registers that `pinmux_init` writes, in order.
abbrev pub pinmux_order : List Reg
pinmux_order =
    kicker0
    ∷ kicker1
    ∷ (map pinmux (
          0 ∷ 19 ∷ 20 ∷ 21 ∷ 22 ∷ 23 ∷ 24 ∷ 25 ∷ 26 ∷ 27 ∷ 28 ∷ 30 ∷ 31 ∷ 33 ∷ 34 ∷ 35 ∷ 36 ∷ 37
          ∷ 83 ∷ 84 ∷ 87 ∷ 89 ∷ 90 ∷ 91 ∷ 160 ∷ [])
        ++ (kicker0 ∷ kicker1 ∷ []))

pub pinmux_init-Orders :
    {R W : Type 0} (dev : Device R W) (at : Reg → R)
    → Orders (pinmux_init dev at) (map at pinmux_order)
unfolding pinmux_init registers
pinmux_init-Orders dev at = record { run = λ w. (_, _, _, refl, refl) }
