-- ===== src/Can/Frames.antt =====
-- What the driver sends is what it would receive: identifier, length and data.
use cannelloni_tms.Prelude.{
  ℕ, zero, suc, ◌+◌, ◌-◌, ◌*◌, ◌%◌, ◌^◌, ◌≤◌, ◌<◌, ◌≡◌, refl, ap, sym, ◌∙◌, arith, bit_and, bit_or,
  true, List, [], ◌∷◌, ◌++◌, length, take, drop, ◌⊎◌, inl, inr,
}
use cannelloni_tms.Prelude.{ok, fault, read_oob}
use cannelloni_tms.Prelude.Bits.{
  bit_and_mask, bit_and_bit, bit_or_disjoint, bit_or_above, bit_or_fields,
}
use cannelloni_tms.Cannelloni.Bytes.{load_byte, store_bytes}
use cannelloni_tms.Can.{
  Dcan, Hardware, fill_data, send_data, received_id, sent_arb, can_fill_rx_mbox, can_if_wait_ready,
  can_send,
}

-- A standard identifier, or an extended one, which has bit 31 set; there are no other flags.
abbrev pub IsCanId : ℕ → Type 0
IsCanId id = (id < 2 ^ 11) ⊎ ((2 ^ 31 ≤ id) × (id < 2 ^ 31 + 2 ^ 29))

standard_arb : (id : ℕ) → id < 2 ^ 11 → sent_arb id ≡ 0xA000_0000 + id * 2 ^ 18
standard_arb id h =
    let no_flag : bit_and id (2 ^ 31) ≡ 0 = omega (arith, bit_and_bit 31 id) in
    let low : bit_and id 0x7FF ≡ id = omega (arith, bit_and_mask 11 id 0x7FF refl) in
    rw (no_flag, low) (bit_or_disjoint 29 5 (id * 2 ^ 18) (omega arith))

extended_arb : (x : ℕ) → x < 2 ^ 29 → sent_arb (2 ^ 31 + x) ≡ 0xE000_0000 + x
extended_arb x h =
    let id = 2 ^ 31 + x in
    let flag : bit_and id (2 ^ 31) ≡ 2 ^ 31 = omega (arith, bit_and_bit 31 id) in
    let low : bit_and id 0x1FFF_FFFF ≡ x = omega (arith, bit_and_mask 29 id 0x1FFF_FFFF refl) in
    rw (flag, low, bit_or_disjoint 29 2 x h) (bit_or_fields 29 5 2 x h)

-- The identifier survives the arbitration register.
pub received-sent : (id : ℕ) → IsCanId id → received_id (sent_arb id) ≡ id
received-sent id (inl h) =
    let arb = 0xA000_0000 + id * 2 ^ 18 in
    let standard : bit_and arb (2 ^ 30) ≡ 0 = omega (arith, bit_and_bit 30 arb) in
    let low : bit_and arb 0x1FFF_FFFF ≡ id * 2 ^ 18 =
      omega (arith, bit_and_mask 29 arb 0x1FFF_FFFF refl) in
    rw (standard_arb id h, standard, low) (omega arith)
received-sent id (inr (h, k)) =
    let x = id - 2 ^ 31 in
    let e : id ≡ 2 ^ 31 + x = omega arith in
    let arb = 0xE000_0000 + x in
    let extended : bit_and arb (2 ^ 30) ≡ 2 ^ 30 = omega (arith, bit_and_bit 30 arb) in
    let low : bit_and arb 0x1FFF_FFFF ≡ x = omega (arith, bit_and_mask 29 arb 0x1FFF_FFFF refl) in
    ap (λ t. received_id (sent_arb t)) e
    ∙ rw (extended_arb x (omega arith), extended, low) (bit_or_above 31 1 x (omega arith) ∙ sym e)

pub eight :
    (xs : List ℕ)
    → length xs ≡ 8
    → (a : ℕ) × (b : ℕ) × (c : ℕ) × (d : ℕ) × (e : ℕ) × (f : ℕ) × (g : ℕ) × (h : ℕ) × (xs
        ≡ a ∷ b ∷ c ∷ d ∷ e ∷ f ∷ g ∷ h ∷ [])
eight (a ∷ b ∷ c ∷ d ∷ e ∷ f ∷ g ∷ h ∷ []) k = (a, b, c, d, e, f, g, h, refl)
eight _ k = absurd (omega arith)

-- The two loops undo each other's byte order.
abbrev Copied : ℕ → List ℕ → List ℕ → List ℕ → Type 0
Copied n bytes dat old =
    (dat' : List ℕ) × (send_data n 0 bytes dat ≡ ok dat')
    × (fill_data n 0 dat' old ≡ ok (take n bytes ++ drop n old))

Copied-eight :
    (n a b c d e f g h i j k l m o p q r s t u v w x y : ℕ)
    → n ≤ 8
    → Copied n
        (a ∷ b ∷ c ∷ d ∷ e ∷ f ∷ g ∷ h ∷ [])
        (i ∷ j ∷ k ∷ l ∷ m ∷ o ∷ p ∷ q ∷ [])
        (r ∷ s ∷ t ∷ u ∷ v ∷ w ∷ x ∷ y ∷ [])
unfolding fill_data send_data load_byte store_bytes
Copied-eight zero a b c d e f g h i j k l m o p q r s t u v w x y z = (_, refl, refl)
Copied-eight (suc zero) a b c d e f g h i j k l m o p q r s t u v w x y z = (_, refl, refl)
Copied-eight (suc (suc zero)) a b c d e f g h i j k l m o p q r s t u v w x y z = (_, refl, refl)
Copied-eight (suc (suc (suc zero))) a b c d e f g h i j k l m o p q r s t u v w x y z =
    (_, refl, refl)
Copied-eight (suc (suc (suc (suc zero)))) a b c d e f g h i j k l m o p q r s t u v w x y z =
    (_, refl, refl)
Copied-eight (suc (suc (suc (suc (suc zero))))) a b c d e f g h i j k l m o p q r s t u v w x y z =
    (_, refl, refl)
Copied-eight (suc (suc (suc (suc (suc (suc zero)))))) a b c d e f g h i j k l m o p q r s t u v w x
      y z =
    (_, refl, refl)
Copied-eight (suc (suc (suc (suc (suc (suc (suc zero))))))) a b c d e f g h i j k l m o p q r s t u
      v w x y z =
    (_, refl, refl)
Copied-eight (suc (suc (suc (suc (suc (suc (suc (suc zero)))))))) a b c d e f g h i j k l m o p q r
      s t u v w x y z =
    (_, refl, refl)
Copied-eight (suc (suc (suc (suc (suc (suc (suc (suc (suc n))))))))) a b c d e f g h i j k l m o p q
      r s t u v w x y z =
    absurd (omega arith)

-- The bytes of the data registers in the order of the bus: each word is stored the other way round.
abbrev pub bus_order : List ℕ → List ℕ
bus_order (a ∷ b ∷ c ∷ d ∷ e ∷ f ∷ g ∷ h ∷ []) = d ∷ c ∷ b ∷ a ∷ h ∷ g ∷ f ∷ e ∷ []
bus_order _ = []

filled_eight :
    (n i j k l m o p q r s t u v w x y : ℕ)
    → n ≤ 8
    → let old = r ∷ s ∷ t ∷ u ∷ v ∷ w ∷ x ∷ y ∷ [] in
      let d = take n (l ∷ k ∷ j ∷ i ∷ q ∷ p ∷ o ∷ m ∷ []) ++ drop n old in
      (fill_data n 0 (i ∷ j ∷ k ∷ l ∷ m ∷ o ∷ p ∷ q ∷ []) old ≡ ok d) × (length d ≡ 8)
unfolding fill_data load_byte store_bytes
filled_eight zero i j k l m o p q r s t u v w x y z = (refl, refl)
filled_eight (suc zero) i j k l m o p q r s t u v w x y z = (refl, refl)
filled_eight (suc (suc zero)) i j k l m o p q r s t u v w x y z = (refl, refl)
filled_eight (suc (suc (suc zero))) i j k l m o p q r s t u v w x y z = (refl, refl)
filled_eight (suc (suc (suc (suc zero)))) i j k l m o p q r s t u v w x y z = (refl, refl)
filled_eight (suc (suc (suc (suc (suc zero))))) i j k l m o p q r s t u v w x y z = (refl, refl)
filled_eight (suc (suc (suc (suc (suc (suc zero)))))) i j k l m o p q r s t u v w x y z =
    (refl, refl)
filled_eight (suc (suc (suc (suc (suc (suc (suc zero))))))) i j k l m o p q r s t u v w x y z =
    (refl, refl)
filled_eight (suc (suc (suc (suc (suc (suc (suc (suc zero)))))))) i j k l m o p q r s t u v w x y
      z =
    (refl, refl)
filled_eight (suc (suc (suc (suc (suc (suc (suc (suc (suc n))))))))) i j k l m o p q r s t u v w x y
      z =
    absurd (omega arith)

pub copied :
    (n : ℕ) (bytes dat old : List ℕ)
    → n ≤ 8
    → length bytes ≡ 8
    → length dat ≡ 8
    → length old ≡ 8
    → Copied n bytes dat old
copied n bytes dat old z k l m =
    let (a, b, c, d, e, f, g, h, bytes_eq) = eight bytes k in
    let (a', b', c', d', e', f', g', h', dat_eq) = eight dat l in
    let (a'', b'', c'', d'', e'', f'', g'', h'', old_eq) = eight old m in
    rw (bytes_eq, dat_eq, old_eq)
      (Copied-eight n a b c d e f g h a' b' c' d' e' f' g' h' a'' b'' c'' d'' e'' f'' g'' h'' z)

too_long :
    (n a b c d e f g h r s t u v w x y : ℕ)
    → fill_data
        (suc (suc (suc (suc (suc (suc (suc (suc (suc n)))))))))
        0
        (a ∷ b ∷ c ∷ d ∷ e ∷ f ∷ g ∷ h ∷ [])
        (r ∷ s ∷ t ∷ u ∷ v ∷ w ∷ x ∷ y ∷ [])
      ≡ fault read_oob
unfolding fill_data load_byte store_bytes
too_long n a b c d e f g h r s t u v w x y = refl

module _ {M : Type 0} where
  -- A message of at most eight bytes goes into the array in the order of the bus.
  pub can_fill_rx_mbox-ok :
      (s : Dcan M) (old : List ℕ)
      → s.if1mctl % 16 ≤ 8
      → length s.if1dat ≡ 8
      → length old ≡ 8
      → let d = take (s.if1mctl % 16) (bus_order s.if1dat) ++ drop (s.if1mctl % 16) old in
        (can_fill_rx_mbox s old ≡ ok (received_id s.if1arb, s.if1mctl % 16, d)) × (length d ≡ 8)
  unfolding can_fill_rx_mbox
  can_fill_rx_mbox-ok s old h k l =
      let (a, b, c, d, e, f, g, i, dat_eq) = eight s.if1dat k in
      let (a', b', c', d', e', f', g', i', old_eq) = eight old l in
      let n : bit_and s.if1mctl 15 ≡ s.if1mctl % 16 = bit_and_mask 4 s.if1mctl 15 refl in
      let (run, size) = filled_eight (s.if1mctl % 16) a b c d e f g i a' b' c' d' e' f' g' i' h in
      (rw (can_fill_rx_mbox, n, dat_eq, old_eq, run) refl, rw (dat_eq, old_eq) size)

  -- A message whose length code is above eight, as the bus allows, makes the loop read past the end
  -- of `data_byte_order`, for registers and a frame of eight data bytes.
  pub can_fill_rx_mbox-overrun :
      (s : Dcan M) (old : List ℕ)
      → 8 < s.if1mctl % 16
      → length s.if1dat ≡ 8
      → length old ≡ 8
      → can_fill_rx_mbox s old ≡ fault read_oob
  unfolding can_fill_rx_mbox
  can_fill_rx_mbox-overrun s old h k l =
      let (a, b, c, d, e, f, g, i, dat_eq) = eight s.if1dat k in
      let (a', b', c', d', e', f', g', i', old_eq) = eight old l in
      let n : bit_and s.if1mctl 15
          ≡ suc (suc (suc (suc (suc (suc (suc (suc (suc (s.if1mctl % 16 - 9))))))))) =
        omega (arith, bit_and_mask 4 s.if1mctl 15 refl) in
      rw (
        can_fill_rx_mbox,
        n,
        dat_eq,
        old_eq,
        too_long (s.if1mctl % 16 - 9) a b c d e f g i a' b' c' d' e' f' g' i',
      )

  -- When no transmission is pending and the interface gets ready, `can_send` starts the transfer of
  -- a message of at most eight bytes into mailbox 1; read back as a received message, the registers
  -- that it leaves give the same identifier, length and data, and the other bytes of the array as
  -- they were.
  pub can_send-can_fill_rx_mbox :
      (hw : Hardware M) (fuel : ℕ) (s s1 : Dcan M) (id dlc : ℕ) (bytes old : List ℕ)
      → s.txrq % 2 ≡ 0
      → can_if_wait_ready hw fuel s ≡ ok s1
      → IsCanId id
      → dlc ≤ 8
      → length bytes ≡ 8
      → length s1.if1dat ≡ 8
      → length old ≡ 8
      → (s2 : Dcan M) × (can_send hw fuel s id dlc bytes ≡ ok (true, hw.start s2))
        × (s2.if1no ≡ 1)
        × (can_fill_rx_mbox s2 old ≡ ok (id, dlc, take dlc bytes ++ drop dlc old))
  unfolding can_fill_rx_mbox can_send
  can_send-can_fill_rx_mbox hw fuel s s1 id dlc bytes old idle ready valid few k l m =
      let (dat, sent, filled) = copied dlc bytes s1.if1dat old few k l m in
      let pending : bit_and s.txrq 1 ≡ 0 = omega (arith, bit_and_mask 1 s.txrq 1 refl) in
      let mctl : bit_or 0x8100 dlc ≡ 0x8100 + dlc = bit_or_disjoint 8 129 dlc (omega arith) in
      let len : bit_and (0x8100 + dlc) 15 ≡ dlc =
        omega (arith, bit_and_mask 4 (0x8100 + dlc) 15 refl) in
      let s2 : Dcan M = record s1 {
        if1arb = sent_arb id;
        if1mctl = bit_or 0x8100 dlc;
        if1dat = dat;
        if1cmd = 0xFF;
        if1no = 1;
      } in
      (
        s2,
        rw (can_send, pending, ready, sent),
        refl,
        rw (can_fill_rx_mbox, mctl, len, filled, received-sent id valid),
      )
