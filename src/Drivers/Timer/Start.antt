-- ===== src/Drivers/Timer/Start.antt =====
-- The start of the clock.
use cannelloni_tms.Prelude.{ℕ, refl, [], ◌∷◌}
use cannelloni_tms.Mmio.{Device}
use cannelloni_tms.Mmio.Orders.{Orders, Orders-bind, registers}
use cannelloni_tms.Drivers.Vim as Vim
use cannelloni_tms.Drivers.Vim.{vim_ram, reqmaskset}
use cannelloni_tms.Drivers.Vim.Table.{vim_register_irq-Orders}
use cannelloni_tms.Drivers.Timer.{Reg, gctrl, cpuc, comp, udcp, setintena, intflag, timer_init}

-- The handler is in the table and its channel enabled before the comparator may interrupt, and the
-- counter is started last.
pub timer_init-Orders :
    {R W : Type 0} (dev : Device R W) (at : Reg → R) (vim_at : Vim.Reg → R) (handler : ℕ)
    → Orders (timer_init dev at vim_at handler) (
        vim_at (vim_ram 3)
        ∷ vim_at (reqmaskset 0)
        ∷ at gctrl
        ∷ at cpuc
        ∷ at comp
        ∷ at udcp
        ∷ at intflag
        ∷ at setintena
        ∷ at gctrl
        ∷ [])
unfolding timer_init registers
timer_init-Orders dev at vim_at handler =
    Orders-bind (vim_register_irq-Orders dev vim_at 2 handler)
      (λ _. record { run = λ w. (_, _, _, refl, refl) })
