-- ===== src/Can/Controller.antt =====
-- What the driver relies on of a CAN controller, and what the driver's functions do with it.
use cannelloni_tms.Prelude.{
  ℕ, zero, suc, ◌+◌, ◌-◌, ◌*◌, ◌%◌, ◌^◌, ◌≤◌, ◌<◌, ◌≡◌, ◌⊎◌, inl, inr, refl, arith, bit_and, bit_or,
  List, length, All, Bool, true, false, not, Bool-cases, ltb, lt→ltb, ◌==◌, dec_lt, if◌then◌else◌,
}
use cannelloni_tms.Prelude.{ok}
use cannelloni_tms.Cannelloni.Frame.{IsByte}
use cannelloni_tms.Can.{
  Dcan, Hardware, sent_arb, can_if_wait_ready, can_mbox_has_data, can_send, init_mbox, init_mboxes,
  can_init,
}
use cannelloni_tms.Can.Bytes.{sent-Bytes}

-- The data registers are eight bytes.
pub record HasBytes {M : Type 0} (h : Dcan M) : Type 0 where
  pub size : length h.if1dat ≡ 8
  pub bytes : All IsByte h.if1dat

-- The request of `can_mbox_has_data` for the message of a mailbox.
abbrev pub request : {M : Type 0} → Hardware M → Dcan M → ℕ → Dcan M
request hw h mbox = hw.start (record h { if1cmd = 0x3F; if1no = mbox })

-- The registers with which `can_send` starts a transfer to mailbox 1.
abbrev pub transfer : {M : Type 0} → Dcan M → ℕ → ℕ → List ℕ → Dcan M
transfer h id dlc dat = record h {
  if1arb = sent_arb id;
  if1mctl = bit_or (bit_or (2 ^ 15) (2 ^ 8)) dlc;
  if1dat = dat;
  if1cmd = 0xFF;
  if1no = 1;
}

-- The registers with which `can_init` sets up a mailbox.
abbrev pub setup : {M : Type 0} → Dcan M → ℕ → Dcan M
setup h mbox = record h {
  if1msk = 0x4000_0000;
  if1arb = 0xC000_0000;
  if1mctl = bit_or (bit_or 0x1000 ((if mbox == 64 then 1 else 0) * 0x80)) 0x400;
  if1cmd = 0xF8;
  if1no = mbox;
}

-- A controller that is busy with a transfer for fewer reads of its status than the fuel. `Works` are
-- the states it is in between the driver's functions, and `Asked` those after a request for a
-- message. The messages that come in have at most eight bytes: the bus allows length codes above.
pub record Controller {M : Type 0} (hw : Hardware M) (fuel : ℕ) : Type 1 where
  pub Works : Dcan M → Type 0
  pub Asked : Dcan M → Type 0
  pub wait :
      (h : Dcan M)
      → Works h
      → (h' : Dcan M) × (can_if_wait_ready hw fuel h ≡ ok h') × Works h' × HasBytes h'
  pub ask : (h : Dcan M) (mbox : ℕ) → Works h → mbox ≤ 64 → Asked (request hw h mbox)
  pub answer :
      (h : Dcan M)
      → Asked h
      → (h' : Dcan M) × (can_if_wait_ready hw fuel h ≡ ok h')
        × Works h'
        × HasBytes h'
        × (h'.if1mctl % 16 ≤ 8)
  pub send :
      (h : Dcan M) (id dlc : ℕ) (dat : List ℕ)
      → Works h
      → dlc ≤ 8
      → length dat ≡ 8
      → All IsByte dat
      → Works (hw.start (transfer h id dlc dat))
  pub set_up : (h : Dcan M) (mbox : ℕ) → Works h → Works (hw.start (setup h mbox))
  pub configure :
      (h : Dcan M) (ctl btr tioc rioc : ℕ)
      → Works h
      → Works (record h { ctl = ctl; btr = btr; tioc = tioc; rioc = rioc })

-- Behind the last mailbox there is no message.
pub has_data-past :
    {M : Type 0} (hw : Hardware M) (fuel mbox : ℕ) (h : Dcan M)
    → 64 < mbox
    → can_mbox_has_data hw fuel h mbox ≡ ok (false, h)
unfolding can_mbox_has_data
has_data-past hw fuel mbox h past = rw (can_mbox_has_data, lt→ltb 64 mbox past)

module _ {M : Type 0} (hw : Hardware M) (fuel : ℕ) (c : Controller hw fuel) where
  open c use {Works}

  -- The test for a message returns: past the last mailbox with a no, and otherwise with a message of
  -- at most eight bytes in the registers if it is a yes.
  pub has_data-ok :
      (mbox : ℕ) (h : Dcan M)
      → Works h
      → (h' : Dcan M) × Works h'
        × ((can_mbox_has_data hw fuel h mbox ≡ ok (false, h'))
            ⊎ ((can_mbox_has_data hw fuel h mbox ≡ ok (true, h'))
                × (mbox ≤ 64)
                × HasBytes h'
                × (h'.if1mctl % 16 ≤ 8)))
  unfolding can_mbox_has_data
  has_data-ok mbox h works = elim (dec_lt 64 mbox) [
    | yes past ↦ (h, works, inl (has_data-past hw fuel mbox h past))
    | no within ↦
        let inside : ltb 64 mbox ≡ false = ground arith in
        let (h1, run1, works1, b1) = c.wait h works in
        let (h2, run2, works2, b2, len2) =
          c.answer (request hw h1 mbox) (c.ask h1 mbox works1 (omega arith)) in
        elim (Bool-cases (not (bit_and h2.if1mctl (2 ^ 15) == 0))) [
          | inl new ↦ (
            h2,
            works2,
            inr (rw (can_mbox_has_data, inside, run1, run2, new), omega arith, b2, len2),
          )
          | inr old ↦ (h2, works2, inl (rw (can_mbox_has_data, inside, run1, run2, old)))
        ]
  ]

  -- `can_send` of at most eight bytes returns.
  pub can_send-returns :
      (h : Dcan M) (id dlc : ℕ) (bytes : List ℕ)
      → Works h
      → dlc ≤ 8
      → length bytes ≡ 8
      → All IsByte bytes
      → (b : Bool) × (h' : Dcan M) × (can_send hw fuel h id dlc bytes ≡ ok (b, h')) × Works h'
  unfolding can_send
  can_send-returns h id dlc bytes works short array all =
      let (h1, run, works1, b1) = c.wait h works in
      let (dat, sent, size, dat_all) =
        sent-Bytes dlc bytes h1.if1dat short array all b1.size b1.bytes in
      elim (Bool-cases (bit_and h.txrq 1 == 0)) [
        | inl idle ↦ (
          true,
          hw.start (transfer h1 id dlc dat),
          rw (can_send, idle, run, sent) refl,
          c.send h1 id dlc dat works1 short size dat_all,
        )
        | inr pending ↦ (false, h, rw (can_send, pending) refl, works)
      ]

  init_mboxes-returns :
      (n mbox : ℕ) (s : Dcan M)
      → Works s
      → (s' : Dcan M) × (init_mboxes hw fuel n mbox s ≡ ok s') × Works s'
  unfolding init_mboxes init_mbox
  init_mboxes-returns zero mbox s works = (s, refl, works)
  init_mboxes-returns (suc n) mbox s works =
      let (s1, run, works1, b) = c.wait s works in
      let (s', rest, works') =
        init_mboxes-returns n (mbox + 1) (hw.start (setup s1 mbox)) (c.set_up s1 mbox works1) in
      (s', rw (init_mboxes, run) rest, works')

  -- `can_init` returns.
  pub can_init-returns :
      (s : Dcan M) → Works s → (s' : Dcan M) × (can_init hw fuel s ≡ ok s') × Works s'
  unfolding can_init
  can_init-returns s works =
      let (s1, run, works1) =
        init_mboxes-returns 63 2
          (record s { ctl = bit_or (bit_or (0x5 * 2 ^ 10) (1 * 2 ^ 0)) (1 * 2 ^ 6) })
          (c.configure s (bit_or (bit_or (0x5 * 2 ^ 10) (1 * 2 ^ 0)) (1 * 2 ^ 6)) s.btr s.tioc
            s.rioc works) in
      (
        record s1 {
          btr =
              bit_or
                (bit_or (bit_or (bit_or (0 * 2 ^ 16) ((4 - 1) * 2 ^ 12)) ((6 + 4 - 1) * 2 ^ 8))
                  ((4 - 1) * 2 ^ 6))
                (9 * 2 ^ 0);
          tioc = bit_or (1 * 2 ^ 18) (1 * 2 ^ 3);
          rioc = bit_or (1 * 2 ^ 18) (1 * 2 ^ 3);
          ctl = bit_and s1.ctl (2 ^ 32 - 1 - bit_or (1 * 2 ^ 0) (1 * 2 ^ 6));
        },
        rw (can_init, run) refl,
        c.configure s1 _ _ _ _ works1,
      )
