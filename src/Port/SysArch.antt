-- ===== src/Port/SysArch.antt =====
-- src/lwip/ports/hdk/sys_arch.c, and the functions at the end of src/main.c that it calls: critical
-- sections and the clock.
pub mod Sections
use cannelloni_tms.Prelude.{ℕ, ◌%◌, ◌^◌, bit_and, false, true, ◌==◌}

-- The compiler's intrinsics, on a processor with state `C`.
pub record Intrinsics (C : Type 0) : Type 0 where
  pub enable_irq : C → C
  pub disable_irq : C → C
  pub get_cpsr : C → ℕ

module _ {C : Type 0} (cpu : Intrinsics C) where
  pub int_master_irq_enable : C → C
  int_master_irq_enable c = cpu.enable_irq c

  pub int_master_irq_disable : C → C
  int_master_irq_disable c = cpu.disable_irq c

  pub int_master_status_get : C → ℕ
  int_master_status_get c = bit_and 0xC0 (cpu.get_cpsr c)

  -- The level on entry, and the new state.
  pub sys_arch_protect : C → ℕ × C
  sys_arch_protect c = (bit_and (int_master_status_get c) 0xFF, int_master_irq_disable c)

  pub sys_arch_unprotect : C → ℕ → C
  sys_arch_unprotect c lev = elim (bit_and lev 0x80 == 0) [
    | true ↦ int_master_irq_enable c
    | false ↦ c
  ]

-- The argument is `tick_ms`.
abbrev pub sys_now : ℕ → ℕ
sys_now tick_ms = tick_ms
