-- ===== src/Can/Mailboxes.antt =====
-- What the start of the controller leaves in its mailboxes.
use cannelloni_tms.Prelude.{
  ℕ, zero, suc, ◌+◌, ◌-◌, ◌*◌, ◌^◌, ◌<◌, ◌≤◌, ◌≡◌, refl, ap, ◌∙◌, arith, ◌⊎◌, inl, inr, bit_and,
  bit_or, if◌then◌else◌, ◌==◌, ℕ_discrete, Bool-cases,
}
use cannelloni_tms.Prelude.{ok, ◌>>=◌}
use cannelloni_tms.Can.{Dcan, Hardware, can_if_wait_ready, init_mbox, init_mboxes, can_init}

-- A message object in the controller's memory.
pub record Object : Type 0 where
  pub mask : ℕ
  pub arbitration : ℕ
  pub control : ℕ

-- The object compares no bit of an identifier.
abbrev pub TakesAll : Object → Type 0
TakesAll o = bit_and o.mask 0x1FFF_FFFF ≡ 0

-- A valid object that takes every message, and ends the chain of buffers if it is the last one.
abbrev pub receiver : ℕ → Object
receiver mbox = record {
  mask = 2 ^ 30;
  arbitration = 2 ^ 31 + 2 ^ 30;
  control = if mbox == 64 then 0x1480 else 0x1400;
}

control_lem :
    (mbox : ℕ)
    → bit_or (bit_or (1 * 2 ^ 12) ((if mbox == 64 then 1 else 0) * 2 ^ 7)) (1 * 2 ^ 10)
      ≡ (if mbox == 64 then 0x1480 else 0x1400)
control_lem mbox = elim (Bool-cases (mbox == 64)) [ inl e ↦ rw e refl | inr e ↦ rw e refl ]

module _ {M : Type 0} (hw : Hardware M) (fuel : ℕ) where
  -- The controller's memory: a transfer that writes mask, arbitration and control stores them in the
  -- object of the number in IF1NO, and no wait, each of which ends, changes an object.
  pub record MessageRam : Type 0 where
    pub object : M → ℕ → Object
    pub wait :
        (s : Dcan M)
        → (s' : Dcan M) × (can_if_wait_ready hw fuel s ≡ ok s')
          × ((j : ℕ) → object s'.ram j ≡ object s.ram j)
          × (s'.ctl ≡ s.ctl)
    pub transfer :
        (s : Dcan M) (j : ℕ)
        → s.if1cmd ≡ 0xF8
        → object (hw.start s).ram j ≡ (
            if j == s.if1no
            then record { mask = s.if1msk; arbitration = s.if1arb; control = s.if1mctl }
            else object s.ram j)
    pub transfer_ctl : (s : Dcan M) → (hw.start s).ctl ≡ s.ctl

  module _ (mem : MessageRam) where
    open mem use {object}

    set_up :
        (s : Dcan M) (mbox j : ℕ)
        → object (hw.start (init_mbox hw s mbox)).ram j
          ≡ (if j == mbox then receiver mbox else object s.ram j)
    unfolding init_mbox
    set_up s mbox j =
        mem.transfer (init_mbox hw s mbox) j refl
        ∙ ap
            (λ c.
              if j == mbox
              then record { mask = 2 ^ 30; arbitration = 2 ^ 31 + 2 ^ 30; control = c }
              else object s.ram j)
            (control_lem mbox)

    -- The mailboxes from `mbox` on, of which there are `n`, are set up, and the others kept.
    pub record Between (n mbox : ℕ) (s s' : Dcan M) : Type 0 where
      pub inside : (j : ℕ) → mbox ≤ j → j < mbox + n → object s'.ram j ≡ receiver j
      pub before : (j : ℕ) → j < mbox → object s'.ram j ≡ object s.ram j
      pub behind : (j : ℕ) → mbox + n ≤ j → object s'.ram j ≡ object s.ram j
      pub mode : s'.ctl ≡ s.ctl

    init_mboxes-Between :
        (n mbox : ℕ) (s : Dcan M)
        → (s' : Dcan M) × (init_mboxes hw fuel n mbox s ≡ ok s') × Between n mbox s s'
    unfolding init_mboxes init_mbox
    init_mboxes-Between zero mbox s = (
      s,
      refl,
      record {
        inside = λ j h k. absurd (omega arith);
        before = λ j h. refl;
        behind = λ j h. refl;
        mode = refl;
      },
    )
    init_mboxes-Between (suc n) mbox s =
        let (s1, run, kept, mode1) = mem.wait s in
        let s2 = hw.start (init_mbox hw s1 mbox) in
        let (s3, run3, rest) = init_mboxes-Between n (mbox + 1) s2 in
        (
          s3,
          ap (λ o. o >>= λ x. init_mboxes hw fuel n (mbox + 1) (hw.start (init_mbox hw x mbox))) run
              ∙ run3,
          record {
            inside = λ j h k. elim (ℕ_discrete j mbox) [
              | yes e ↦ rw e (rest.before mbox (omega arith) ∙ set_up s1 mbox mbox ∙ ground arith)
              | no ne ↦ rest.inside j (omega arith) (omega arith)
            ];
            before = λ j h. rest.before j (omega arith) ∙ set_up s1 mbox j ∙ ground arith ∙ kept j;
            behind = λ j h. rest.behind j (omega arith) ∙ set_up s1 mbox j ∙ ground arith ∙ kept j;
            mode = rest.mode ∙ mem.transfer_ctl (init_mbox hw s1 mbox) ∙ mode1;
          },
        )

    -- On a controller on which every wait ends and a transfer stores the object, the start returns,
    -- and then each of the mailboxes 2 to 64 is a valid object that takes every message, of which
    -- only the last ends the chain of buffers; no other object has changed, and the controller is
    -- neither in initialisation mode nor open to configuration.
    pub can_init-receivers :
        (s : Dcan M)
        → (s' : Dcan M) × (can_init hw fuel s ≡ ok s')
          × ((j : ℕ) → 2 ≤ j → j ≤ 64 → object s'.ram j ≡ receiver j)
          × ((j : ℕ) → (j < 2) ⊎ (64 < j) → object s'.ram j ≡ object s.ram j)
          × ((j : ℕ) → TakesAll (receiver j))
          × (s'.ctl ≡ 0x1400)
    unfolding can_init
    can_init-receivers s =
        let (s1, run, b) = init_mboxes-Between 63 2 (record s { ctl = 0x1441 }) in
        (
          record s1 {
            btr = 0x39C9;
            tioc = 0x4_0008;
            rioc = 0x4_0008;
            ctl = bit_and s1.ctl (2 ^ 32 - 1 - 0x41);
          },
          rw (can_init, run) refl,
          (λ j h k. b.inside j h (omega arith)),
          (λ j h. elim h [ inl l ↦ b.before j l | inr g ↦ b.behind j (omega arith) ]),
          (λ j. refl),
          ap (λ c. bit_and c (2 ^ 32 - 1 - 0x41)) b.mode,
        )
