-- ===== src/Can/Messages.antt =====
-- The messages in a controller's mailboxes, as the interface registers show them.
use cannelloni_tms.Prelude.{
  ℕ, zero, suc, ◌+◌, ◌/◌, ◌%◌, ◌^◌, ◌≤◌, ◌<◌, ◌≡◌, ◌⊎◌, inl, inr, refl, ap, sym, ◌∙◌, subst, arith,
  bit_and, List, [], ◌∷◌, length, take, Bool, true, false, Bool-cases, ltb, if◌then◌else◌, Option,
  Option-cases, none, some,
}
use cannelloni_tms.Prelude.{ok}
use cannelloni_tms.Prelude.Bits.{bit_and_mask, bit_and_bit, bit_or_above}
use cannelloni_tms.Can.{Dcan, Hardware, received_id, can_if_wait_ready, can_mbox_has_data}
use cannelloni_tms.Can.Frames.{bus_order}
use cannelloni_tms.Can.Controller.{Controller, HasBytes, request}

-- A message on the bus, with an identifier of 11 or 29 bits.
pub record Message : Type 0 where
  pub extended : Bool
  pub ident : ℕ
  pub body : List ℕ

-- Its identifier in a frame, where an extended one has bit 31 set.
abbrev pub message_id : Message → ℕ
message_id m = if m.extended then 2 ^ 31 + m.ident else m.ident

-- The interface registers hold the message, and mark it as new.
pub record HoldsMessage {M : Type 0} (m : Message) (h : Dcan M) : Type 0 where
  pub new : h.if1mctl / 2 ^ 15 % 2 ≡ 1
  pub kind : h.if1arb / 2 ^ 30 % 2 ≡ (if m.extended then 1 else 0)
  pub ident : (if m.extended then h.if1arb % 2 ^ 29 else h.if1arb % 2 ^ 29 / 2 ^ 18) ≡ m.ident
  pub len : length m.body ≡ h.if1mctl % 16
  pub body : take (h.if1mctl % 16) (bus_order h.if1dat) ≡ m.body

abbrev pub Shows : {M : Type 0} → Option Message → Dcan M → Type 0
Shows none h = h.if1mctl / 2 ^ 15 % 2 ≡ 0
Shows (some m) h = HoldsMessage m h

-- `message h j` is the new message in mailbox `j`, if there is one. While nothing comes in from the
-- bus, a wait changes none, and a request for the message of a mailbox shows it and changes none of
-- the mailboxes behind.
pub record Mailboxes {M : Type 0} {hw : Hardware M} {fuel : ℕ} (c : Controller hw fuel)
    : Type 0 where
  pub message : Dcan M → ℕ → Option Message
  pub quiet :
      (h h' : Dcan M) (j : ℕ)
      → c.Works h
      → can_if_wait_ready hw fuel h ≡ ok h'
      → message h' j ≡ message h j
  pub given :
      (h h' : Dcan M) (mbox : ℕ)
      → c.Works h
      → mbox ≤ 64
      → can_if_wait_ready hw fuel (request hw h mbox) ≡ ok h'
      → Shows (message h mbox) h' × ((j : ℕ) → mbox < j → message h' j ≡ message h j)

received_id-HoldsMessage :
    {M : Type 0} (m : Message) (h : Dcan M) → HoldsMessage m h → received_id h.if1arb ≡ message_id m
received_id-HoldsMessage m h k =
    let low = bit_and_mask 29 h.if1arb 0x1FFF_FFFF refl in
    let bit = bit_and_bit 30 h.if1arb in
    elim (Bool-cases m.extended) [
      | inl ext ↦
          let one : h.if1arb / 2 ^ 30 % 2 ≡ 1 = k.kind ∙ rw ext refl in
          let set : bit_and h.if1arb (2 ^ 30) ≡ 2 ^ 30 = omega (arith, bit, one) in
          let id : h.if1arb % 2 ^ 29 ≡ m.ident = rw (sym k.ident, ext) refl in
          rw (set, ext)
            (bit_or_above 31 1 (bit_and h.if1arb 0x1FFF_FFFF) (omega (arith, low))
              ∙ omega (arith, low, id))
      | inr std ↦
          let nought : h.if1arb / 2 ^ 30 % 2 ≡ 0 = k.kind ∙ rw std refl in
          let clear : bit_and h.if1arb (2 ^ 30) ≡ 0 = omega (arith, bit, nought) in
          let id : h.if1arb % 2 ^ 29 / 2 ^ 18 ≡ m.ident = rw (sym k.ident, std) refl in
          rw (clear, std, low) id
    ]

-- The frame has the message's identifier, length and data.
pub record CarriesMessage (m : Message) (id len : ℕ) (payload : List ℕ) : Type 0 where
  pub same_id : id ≡ message_id m
  pub same_len : len ≡ length m.body
  pub same_body : take (length m.body) payload ≡ m.body

module _ {M : Type 0} {hw : Hardware M} {fuel : ℕ} (c : Controller hw fuel)
    (mail : Mailboxes c) where
  open c use {Works}
  open mail use {message}

  pub carried :
      (m : Message) (h : Dcan M) (payload : List ℕ)
      → HoldsMessage m h
      → take (h.if1mctl % 16) payload ≡ take (h.if1mctl % 16) (bus_order h.if1dat)
      → CarriesMessage m (received_id h.if1arb) (h.if1mctl % 16) payload
  carried m h payload k e = record {
    same_id = received_id-HoldsMessage m h k;
    same_len = sym k.len;
    same_body = rw k.len (e ∙ k.body);
  }

  -- The mailboxes from `mbox` on are as they were.
  abbrev pub Behind : ℕ → Dcan M → Dcan M → Type 0
  Behind mbox h h' = (j : ℕ) → mbox ≤ j → message h' j ≡ message h j

  -- What a test for a message in one of the mailboxes gives.
  pub has_data-given :
      (mbox : ℕ) (h : Dcan M)
      → Works h
      → mbox ≤ 64
      → (h' : Dcan M) × Works h'
        × Behind (mbox + 1) h h'
        × (((message h mbox ≡ none) × (can_mbox_has_data hw fuel h mbox ≡ ok (false, h')))
            ⊎ ((m : Message) × (message h mbox ≡ some m)
                × (can_mbox_has_data hw fuel h mbox ≡ ok (true, h'))
                × HasBytes h'
                × (h'.if1mctl % 16 ≤ 8)
                × HoldsMessage m h'))
  unfolding can_mbox_has_data
  has_data-given mbox h works within =
      let inside : ltb 64 mbox ≡ false = ground arith in
      let (h1, run1, works1, b1) = c.wait h works in
      let (h2, run2, works2, b2, len2) =
        c.answer (request hw h1 mbox) (c.ask h1 mbox works1 within) in
      let (shows, kept) = mail.given h1 h2 mbox works1 within run2 in
      let same = mail.quiet h h1 mbox works run1 in
      let behind : Behind (mbox + 1) h h2 =
        λ j le. kept j (omega arith) ∙ mail.quiet h h1 j works run1 in
      let bit = bit_and_bit 15 h2.if1mctl in
      elim (Option-cases (message h mbox)) [
        | inl nothing ↦
            let zero_bit : h2.if1mctl / 2 ^ 15 % 2 ≡ 0 =
              subst (λ o. Shows o h2) (same ∙ nothing) shows in
            let clear : bit_and h2.if1mctl (2 ^ 15) ≡ 0 = omega (arith, bit, zero_bit) in
            (
              h2,
              works2,
              behind,
              inl (nothing, rw (can_mbox_has_data, inside, run1, run2, clear) refl),
            )
        | inr (m, there) ↦
            let k : HoldsMessage m h2 = subst (λ o. Shows o h2) (same ∙ there) shows in
            let new = k.new in
            let set : bit_and h2.if1mctl (2 ^ 15) ≡ 2 ^ 15 = omega (arith, bit, new) in
            (
              h2,
              works2,
              behind,
              inr (m, there, rw (can_mbox_has_data, inside, run1, run2, set) refl, b2, len2, k),
            )
      ]

  -- The messages in `k` mailboxes from `mbox` on, up to the first mailbox without one.
  abbrev pub pending : ℕ → ℕ → Dcan M → List Message
  pending zero mbox h = []
  pending (suc k) mbox h = elim (message h mbox) [ none ↦ [] | some m ↦ m ∷ pending k (mbox + 1) h ]

  pub pending-Behind :
      (k mbox : ℕ) (h h' : Dcan M) → Behind mbox h h' → pending k mbox h' ≡ pending k mbox h
  pending-Behind zero mbox h h' b = refl
  pending-Behind (suc k) mbox h h' b = elim (Option-cases (message h mbox)) [
    | inl nothing ↦ let e = b mbox (omega arith) ∙ nothing in rw (pending, e, nothing) refl
    | inr (m, there) ↦
        let e = b mbox (omega arith) ∙ there in
        rw (pending, e, there)
          (ap (λ l. m ∷ l) (pending-Behind k (mbox + 1) h h' (λ j le. b j (omega arith))))
  ]
