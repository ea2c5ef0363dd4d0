-- ===== src/Drivers/Vim.antt =====
-- src/drivers/vim.c: the table of interrupt handlers.
pub mod Table
use cannelloni_tms.Prelude.{ℕ, zero, suc, ◌+◌, ◌*◌, ◌/◌, ◌%◌, ◌^◌, bit_or}
use cannelloni_tms.Mmio.{Device, Cmd, ◌>>=◌, ◌>>◌, pure, put, modify}

-- The entries of `vimRAM`, and the words from `vimREG->REQMASKSET0` on.
pub data Reg : Type 0 where
  vim_ram : ℕ → Reg
  reqmaskset : ℕ → Reg

-- The status registers of `esmREG` that its handler clears, by their index in the array.
pub data EsmReg : Type 0 where
  sr1 : ℕ → EsmReg
  sr4 : ℕ → EsmReg
  sr7 : ℕ → EsmReg

abbrev pub vim_channels : ℕ
vim_channels = 128

-- `at` is where the registers are among those of the device. Handlers are addresses.
module _ {R W : Type 0} (dev : Device R W) (at : Reg → R) where
  unfoldable pub vim_register_irq : ℕ → ℕ → Cmd R W (Unit {0})
  vim_register_irq channel handler = do
    put dev (at (vim_ram (channel + 1))) handler
    modify dev (at (reqmaskset (channel / 32))) (λ v. bit_or v (1 * 2 ^ (channel % 32)))

  -- The loop of `vim_init` with `n` rounds left, from entry `i` on.
  pub fill_table : ℕ → ℕ → ℕ → Cmd R W (Unit {0})
  fill_table zero i phantom_interrupt = pure tt
  fill_table (suc n) i phantom_interrupt = do
    put dev (at (vim_ram i)) phantom_interrupt
    fill_table n (i + 1) phantom_interrupt

  pub vim_init : ℕ → ℕ → Cmd R W (Unit {0})
  vim_init phantom_interrupt esm_high_interrupt = do
    fill_table vim_channels 0 phantom_interrupt
    vim_register_irq 0 esm_high_interrupt

module _ {R W : Type 0} (dev : Device R W) (at : EsmReg → R) where
  pub esm_high_interrupt : Cmd R W (Unit {0})
  esm_high_interrupt = do
    put dev (at (sr7 0)) 0xFFFF_FFFF
    put dev (at (sr4 0)) 0xFFFF_FFFF
    put dev (at (sr1 1)) 0xFFFF_FFFF
    put dev (at (sr1 0)) 0xFFFF_FFFF
