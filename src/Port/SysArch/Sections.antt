-- ===== src/Port/SysArch/Sections.antt =====
-- Critical sections nest.
use cannelloni_tms.Prelude.{
  ℕ, ◌*◌, ◌/◌, ◌%◌, ◌^◌, ◌≡◌, refl, ◌∙◌, arith, bit_and, false, ◌==◌, ℕ_discrete,
}
use cannelloni_tms.Prelude.Bits.{bit_and_mask, bit_and_bit, bit_and_at}
use cannelloni_tms.Port.SysArch.{
  Intrinsics, sys_arch_protect, sys_arch_unprotect, int_master_irq_enable, int_master_irq_disable,
  int_master_status_get,
}

-- The I bit of the status register, which masks interrupts.
abbrev pub masked : {C : Type 0} → Intrinsics C → C → ℕ
masked cpu c = cpu.get_cpsr c / 2 ^ 7 % 2

-- What the intrinsics do to that bit.
pub record Masking {C : Type 0} (cpu : Intrinsics C) : Type 0 where
  pub enables : (c : C) → masked cpu (cpu.enable_irq c) ≡ 0
  pub disables : (c : C) → masked cpu (cpu.disable_irq c) ≡ 1

-- Code in which critical sections nest: steps that do not touch the mask, and pieces of code
-- between `sys_arch_protect` and the matching `sys_arch_unprotect`.
pub data Code (C : Type 0) : Type 0 where
  step : (C → C) → Code C
  next : Code C → Code C → Code C
  protected : Code C → Code C

module _ {C : Type 0} (cpu : Intrinsics C) where
  pub run : Code C → C → C
  run (step f) c = f c
  run (next a b) c = run b (run a c)
  run (protected a) c =
      sys_arch_unprotect cpu (run a (sys_arch_protect cpu c).1) (sys_arch_protect cpu c).0

  -- The steps of a piece of code that are run inside a critical section start with interrupts
  -- masked.
  pub Shielded : Code C → C → Type 0
  Shielded (step f) c = masked cpu c ≡ 1
  Shielded (next a b) c = Shielded a c × Shielded b (run a c)
  Shielded (protected a) c = Shielded a (sys_arch_protect cpu c).1

  unfoldable pub Steady : Code C → Type 0
  Steady (step f) = (c : C) → masked cpu (f c) ≡ masked cpu c
  Steady (next a b) = Steady a × Steady b
  Steady (protected a) = Steady a

  -- The level that is handed on is the I bit.
  level_masked : (c : C) → bit_and (sys_arch_protect cpu c).0 0x80 ≡ masked cpu c * 128
  unfolding sys_arch_protect int_master_status_get
  level_masked c =
      let y = bit_and 0xC0 (cpu.get_cpsr c) in
      omega (
        arith,
        bit_and_bit 7 (bit_and y 0xFF),
        bit_and_mask 8 y 0xFF refl,
        bit_and_at 7 0xC0 (cpu.get_cpsr c),
      )

  module _ (masking : Masking cpu) where
    protect_masks : (c : C) → masked cpu (sys_arch_protect cpu c).1 ≡ 1
    unfolding sys_arch_protect int_master_irq_disable
    protect_masks c = masking.disables c

    -- Leaving a section brings the mask of the entry back, if it is still set.
    unprotect_restores :
        (c c' : C)
        → masked cpu c' ≡ 1
        → masked cpu (sys_arch_unprotect cpu c' (sys_arch_protect cpu c).0) ≡ masked cpu c
    unfolding sys_arch_unprotect int_master_irq_enable
    unprotect_restores c c' h = elim (ℕ_discrete (bit_and (sys_arch_protect cpu c).0 0x80) 0) [
      | yes e ↦ rw (sys_arch_unprotect, e) (masking.enables c' ∙ omega (arith, level_masked c))
      | no ne ↦
          let set : (bit_and (sys_arch_protect cpu c).0 0x80 == 0) ≡ false = ground arith in
          rw (sys_arch_unprotect, set) (omega (arith, level_masked c))
    ]

    run_masked : (a : Code C) (c : C) → Steady a → masked cpu (run a c) ≡ masked cpu c
    unfolding run Steady
    run_masked (step f) c h = h c
    run_masked (next a b) c (h, k) = run_masked b (run a c) k ∙ run_masked a c h
    run_masked (protected a) c h =
        unprotect_restores c (run a (sys_arch_protect cpu c).1)
          (run_masked a (sys_arch_protect cpu c).1 h ∙ protect_masks c)

    shielded : (a : Code C) (c : C) → Steady a → masked cpu c ≡ 1 → Shielded a c
    unfolding run Steady Shielded
    shielded (step f) c h m = m
    shielded (next a b) c (h, k) m =
        (shielded a c h m, shielded b (run a c) k (run_masked a c h ∙ m))
    shielded (protected a) c h m = shielded a (sys_arch_protect cpu c).1 h (protect_masks c)

    -- A critical section, in which others may be nested, of steps that do not touch the mask, on a
    -- processor whose intrinsics set and clear it: every step inside starts with interrupts masked,
    -- and at the end the mask is what it was before.
    pub sys_arch_protect-Shielded :
        (a : Code C) (c : C)
        → Steady a
        → Shielded a (sys_arch_protect cpu c).1 × (masked cpu (run (protected a) c) ≡ masked cpu c)
    unfolding Steady
    sys_arch_protect-Shielded a c h =
        (shielded a (sys_arch_protect cpu c).1 h (protect_masks c), run_masked (protected a) c h)
