-- ===== src/Drivers/Timer.antt =====
-- src/drivers/timer.c: the millisecond clock on the real-time interrupt module.
pub mod Ticks
pub mod Start
use cannelloni_tms.Prelude.{ℕ, ◌+◌, ◌*◌, ◌%◌, ◌^◌, bit_or}
use cannelloni_tms.Mmio.{Device, Cmd, ◌>>=◌, ◌>>◌, pure, put, modify}
use cannelloni_tms.Drivers.Vim.{vim_register_irq}
use cannelloni_tms.Drivers.Vim as Vim

-- The registers of `rtiREG1` that the driver uses, those of counter and comparator 0.
pub data Reg : Type 0 where
  gctrl : Reg
  cpuc : Reg
  comp : Reg
  udcp : Reg
  setintena : Reg
  intflag : Reg

abbrev pub rti_int_cmp0 : ℕ
rti_int_cmp0 = 1

-- `at` and `vim_at` are where the registers are among those of the device.
module _ {R W : Type 0} (dev : Device R W) (at : Reg → R) where
  -- The argument is `tick_ms`, which is a `uint32_t`, and the result its new value.
  pub rti_compare0_interrupt : ℕ → Cmd R W ℕ
  rti_compare0_interrupt tick_ms = do
    put dev (at intflag) rti_int_cmp0
    pure ((tick_ms + 1) % 2 ^ 32)

  -- `handler` is the address of `rtiCompare0Interrupt`.
  pub timer_init : (Vim.Reg → R) → ℕ → Cmd R W (Unit {0})
  timer_init vim_at handler = do
    vim_register_irq dev vim_at 2 handler
    put dev (at gctrl) (0x5 * 2 ^ 16)
    put dev (at cpuc) 7
    put dev (at comp) 9375
    put dev (at udcp) 9375
    put dev (at intflag) rti_int_cmp0
    put dev (at setintena) rti_int_cmp0
    modify dev (at gctrl) (λ v. bit_or v (1 * 2 ^ 0))
