-- ===== src/Can.antt =====
-- The CAN controller driver in src/drivers/can.c: one message out, one message in.
pub mod Frames
pub mod Wait
pub mod Mailboxes
pub mod Overrun
pub mod Bytes
pub mod Controller
pub mod Messages
use cannelloni_tms.Prelude.{
  ℕ, zero, suc, ◌+◌, ◌-◌, ◌*◌, ◌/◌, ◌^◌, bit_and, bit_or, Bool, true, false, not, List, [], ◌∷◌,
  ltb, ◌==◌, if◌then◌else◌,
}
use cannelloni_tms.Prelude.{Exec, ok, stuck, ◌>>=◌}
use cannelloni_tms.Cannelloni.Bytes.{load_byte, store_bytes}

-- `CAN_MBOX_LAST`
abbrev pub can_mbox_last : ℕ
can_mbox_last = 64

-- `CAN_RX_QUEUE_FIRST_MBOX`
abbrev pub can_rx_queue_first_mbox : ℕ
can_rx_queue_first_mbox = 2

-- The static table `data_byte_order`
abbrev pub data_byte_order : List ℕ
data_byte_order = 3 ∷ 2 ∷ 1 ∷ 0 ∷ 7 ∷ 6 ∷ 5 ∷ 4 ∷ []

-- The registers that the driver uses of `canBASE_t`; `txrq` is TXRQx[0], and `ram` all that only
-- the controller sees.
pub record Dcan (M : Type 0) : Type 0 where
  pub ctl : ℕ
  pub btr : ℕ
  pub tioc : ℕ
  pub rioc : ℕ
  pub if1msk : ℕ
  pub if1arb : ℕ
  pub if1mctl : ℕ
  pub if1dat : List ℕ
  pub if1cmd : ℕ
  pub if1no : ℕ
  pub txrq : ℕ
  pub ram : M

-- The controller: what a read of IF1STAT gives, and what a write of IF1NO, which is in the register
-- by then, sets off. It may change its registers in both.
pub record Hardware (M : Type 0) : Type 0 where
  pub poll : Dcan M → ℕ × Dcan M
  pub start : Dcan M → Dcan M

-- The loop of `can_fill_rx_mbox`: `n` rounds from `i` on.
pub fill_data : ℕ → ℕ → List ℕ → List ℕ → Exec (List ℕ)
fill_data zero i dat bytes = ok bytes
fill_data (suc n) i dat bytes = load_byte data_byte_order i >>= λ k.
    load_byte dat k >>= λ b. store_bytes bytes i (b ∷ []) >>= fill_data n (i + 1) dat

-- The loop of `can_send`: `n` rounds from `i` on.
pub send_data : ℕ → ℕ → List ℕ → List ℕ → Exec (List ℕ)
send_data zero i bytes dat = ok dat
send_data (suc n) i bytes dat = load_byte data_byte_order i >>= λ k.
    load_byte bytes i >>= λ b. store_bytes dat k (b ∷ []) >>= send_data n (i + 1) bytes

-- The identifier that `can_fill_rx_mbox` finds in IF1ARB.
abbrev pub received_id : ℕ → ℕ
received_id arb =
    if bit_and arb (2 ^ 30) == 0
    then bit_and arb 0x1FFF_FFFF / 2 ^ 18
    else bit_or (bit_and arb 0x1FFF_FFFF) (2 ^ 31)

-- The value that `can_send` gives IF1ARB.
abbrev pub sent_arb : ℕ → ℕ
sent_arb id =
    if bit_and id (2 ^ 31) == 0
    then bit_or 0xA000_0000 (bit_and id 0x7FF * 2 ^ 18)
    else bit_or 0xA000_0000 (bit_or (2 ^ 30) (bit_and id 0x1FFF_FFFF))

-- The new `*id` and `*len`, and the array `data`.
pub can_fill_rx_mbox : {M : Type 0} → Dcan M → List ℕ → Exec (ℕ × ℕ × List ℕ)
can_fill_rx_mbox s bytes =
    let len = bit_and s.if1mctl 0b1111 in
    fill_data len 0 s.if1dat bytes >>= λ d. ok (received_id s.if1arb, len, d)

module _ {M : Type 0} (hw : Hardware M) where
  -- The code waits without a bound.
  pub can_if_wait_ready : ℕ → Dcan M → Exec (Dcan M)
  can_if_wait_ready zero s = stuck
  can_if_wait_ready (suc fuel) s =
      let rest = can_if_wait_ready fuel (hw.poll s).1 in
      if bit_and (hw.poll s).0 0x80 == 0x80 then rest else ok (hw.poll s).1

  pub can_mbox_has_data : ℕ → Dcan M → ℕ → Exec (Bool × Dcan M)
  can_mbox_has_data fuel s mbox = elim (ltb can_mbox_last mbox) [
    | true ↦ ok (false, s)
    | false ↦ do
      s1 ← can_if_wait_ready fuel s
      s2 ← can_if_wait_ready fuel (hw.start (record s1 { if1cmd = 0x3F; if1no = mbox }))
      ok (not (bit_and s2.if1mctl (2 ^ 15) == 0), s2)
  ]

  pub can_send : ℕ → Dcan M → ℕ → ℕ → List ℕ → Exec (Bool × Dcan M)
  can_send fuel s id dlc bytes = elim (bit_and s.txrq 1 == 0) [
    | false ↦ ok (false, s)
    | true ↦ do
      s1 ← can_if_wait_ready fuel s
      dat ← send_data dlc 0 bytes s1.if1dat
      ok (
        true,
        hw.start (record s1 {
          if1arb = sent_arb id;
          if1mctl = bit_or (bit_or (2 ^ 15) (2 ^ 8)) dlc;
          if1dat = dat;
          if1cmd = 0xFF;
          if1no = 1;
        }),
      )
  ]

  -- The registers from which a mailbox for reception is set up.
  pub init_mbox : Dcan M → ℕ → Dcan M
  init_mbox s mbox = record s {
    if1msk = 1 * 2 ^ 30;
    if1arb = bit_or (1 * 2 ^ 31) (1 * 2 ^ 30);
    if1mctl = bit_or (bit_or (1 * 2 ^ 12) ((if mbox == 64 then 1 else 0) * 2 ^ 7)) (1 * 2 ^ 10);
    if1cmd =
        bit_or (bit_or (bit_or (bit_or (1 * 2 ^ 7) (1 * 2 ^ 6)) (1 * 2 ^ 5)) (1 * 2 ^ 4))
          (1 * 2 ^ 3);
    if1no = mbox;
  }

  -- The loop of `can_init` with `n` rounds left, from `mbox` on.
  pub init_mboxes : ℕ → ℕ → ℕ → Dcan M → Exec (Dcan M)
  init_mboxes fuel zero mbox s = ok s
  init_mboxes fuel (suc n) mbox s = can_if_wait_ready fuel s >>= λ s1.
      init_mboxes fuel n (mbox + 1) (hw.start (init_mbox s1 mbox))

  pub can_init : ℕ → Dcan M → Exec (Dcan M)
  can_init fuel s = do
    s1 ←
        init_mboxes fuel (can_mbox_last + 1 - can_rx_queue_first_mbox) can_rx_queue_first_mbox
          (record s { ctl = bit_or (bit_or (0x5 * 2 ^ 10) (1 * 2 ^ 0)) (1 * 2 ^ 6) })
    ok (record s1 {
      btr =
          bit_or
            (bit_or (bit_or (bit_or (0 * 2 ^ 16) ((4 - 1) * 2 ^ 12)) ((6 + 4 - 1) * 2 ^ 8))
              ((4 - 1) * 2 ^ 6))
            (9 * 2 ^ 0);
      tioc = bit_or (1 * 2 ^ 18) (1 * 2 ^ 3);
      rioc = bit_or (1 * 2 ^ 18) (1 * 2 ^ 3);
      ctl = bit_and s1.ctl (2 ^ 32 - 1 - bit_or (1 * 2 ^ 0) (1 * 2 ^ 6));
    })
