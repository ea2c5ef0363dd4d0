-- ===== src/Cannelloni/Receive/Prefix.antt =====
-- What the loop reads before the data section, at a position of an unchained buffer.
use cannelloni_tms.Prelude.{
  ℕ, ◌+◌, ◌*◌, ◌%◌, ◌^◌, ◌≤◌, ◌<◌, ◌≡◌, refl, ap, sym, ◌∙◌, arith, bit_and, bit_or, List, [], ◌∷◌,
  drop, drop-drop, get_elem?, get_elem?-drop, All, false, not, ltb, ◌==◌, none, lt→ltb,
}
use cannelloni_tms.Prelude.{ok, fault, read_oob}
use cannelloni_tms.Prelude.Bits.{bit_or_disjoint, bit_and_bit, bit_and_not_top}
use cannelloni_tms.Cannelloni.Frame.{IsByte, canfd_flag}
use cannelloni_tms.Cannelloni.Bytes.{load_byte, load_byte-ok, load_byte-fault}
use cannelloni_tms.Cannelloni.Receive.{Head, word32, read_flags, read_head, has_data, add16}
use cannelloni_tms.Cannelloni.Receive.Grammar.{is_rtr}

-- The four bytes of an identifier, most significant first.
pub word32-bytes :
    (a b c d : ℕ)
    → a < 256
    → b < 256
    → c < 256
    → d < 256
    → word32 a b c d ≡ a * 2 ^ 24 + b * 2 ^ 16 + c * 2 ^ 8 + d
word32-bytes a b c d ha hb hc hd =
    let e1 : bit_or (a * 2 ^ 24 % 2 ^ 32) (b * 2 ^ 16) ≡ (a * 2 ^ 8 + b) * 2 ^ 16 =
      ap (λ t. bit_or t (b * 2 ^ 16)) {y = a * 2 ^ 24} (omega arith)
      ∙ bit_or_disjoint 24 a (b * 2 ^ 16) (omega arith)
      ∙ omega arith in
    let e2 : bit_or ((a * 2 ^ 8 + b) * 2 ^ 16) (c * 2 ^ 8) ≡ (a * 2 ^ 16 + b * 2 ^ 8 + c) * 2 ^ 8 =
      bit_or_disjoint 16 (a * 2 ^ 8 + b) (c * 2 ^ 8) (omega arith) ∙ omega arith in
    rw (e1, e2) (bit_or_disjoint 8 (a * 2 ^ 16 + b * 2 ^ 8 + c) d hd ∙ omega arith)

pub has_data-is_rtr : (id : ℕ) → has_data id ≡ not (is_rtr id)
has_data-is_rtr id = rw (bit_and_bit 30 id) (ground arith)

-- Reading a list byte after byte.
pub byte_at : (raw : List ℕ) (i b : ℕ) (bs : List ℕ) → drop i raw ≡ b ∷ bs → load_byte raw i ≡ ok b
byte_at raw i b bs e =
    load_byte-ok raw i b
      (ap (get_elem? raw) (omega arith) ∙ sym (get_elem?-drop i 0 raw) ∙ ap (λ l. get_elem? l 0) e)

pub drop-next :
    (raw : List ℕ) (i j b : ℕ) (bs : List ℕ) → i + 1 ≡ j → drop i raw ≡ b ∷ bs → drop j raw ≡ bs
drop-next raw i j b bs h e = rw (← h) (sym (drop-drop i 1 raw) ∙ ap (drop 1) e)

canfd-test : (len : ℕ) → len < 256 → (bit_and len canfd_flag == 0) ≡ ltb len 128
canfd-test len h = rw (bit_and_bit 7 len) (ground arith)

module _ (raw : List ℕ) (pos a b c d len : ℕ) (bytes : List ℕ)
    (at : drop pos raw ≡ a ∷ b ∷ c ∷ d ∷ len ∷ bytes) (small : pos + 6 < 2 ^ 16)
    (bounds : All IsByte (a ∷ b ∷ c ∷ d ∷ len ∷ bytes)) where
  at1 : drop (pos + 1) raw ≡ b ∷ c ∷ d ∷ len ∷ bytes
  at1 = drop-next raw pos (pos + 1) a _ refl at

  at2 : drop (pos + 2) raw ≡ c ∷ d ∷ len ∷ bytes
  at2 = drop-next raw (pos + 1) (pos + 2) b _ (omega arith) at1

  at3 : drop (pos + 3) raw ≡ d ∷ len ∷ bytes
  at3 = drop-next raw (pos + 2) (pos + 3) c _ (omega arith) at2

  at4 : drop (pos + 4) raw ≡ len ∷ bytes
  at4 = drop-next raw (pos + 3) (pos + 4) d _ (omega arith) at3

  pub at5 : drop (pos + 5) raw ≡ bytes
  at5 = drop-next raw (pos + 4) (pos + 5) len _ (omega arith) at4

  abbrev pub classic_head : Head
  classic_head = record {
    can_id = a * 2 ^ 24 + b * 2 ^ 16 + c * 2 ^ 8 + d;
    len = len;
    dlc = len % 128;
    flags = 0;
    pos = pos + 5;
  }

  read_head-flags :
      {fl pos' : ℕ}
      → read_flags raw len (pos + 5) ≡ ok (fl, pos')
      → read_head raw pos ≡ ok (record classic_head { flags = fl; pos = pos' })
  unfolding read_head
  read_head-flags e =
      let p4 : add16 pos 4 ≡ pos + 4 = omega arith in
      let p5 : add16 (pos + 4) 1 ≡ pos + 5 = omega arith in
      rw (
        byte_at raw pos a _ at,
        byte_at raw (pos + 1) b _ at1,
        byte_at raw (pos + 2) c _ at2,
        byte_at raw (pos + 3) d _ at3,
        p4,
        byte_at raw (pos + 4) len _ at4,
        p5,
        e,
        word32-bytes a b c d (omega arith) (omega arith) (omega arith) (omega arith),
        bit_and_not_top len (omega arith),
      )

  -- A classic CAN frame, a CAN FD frame with its flags, and one whose flags are past the end.
  pub read_head-classic : len < 128 → read_head raw pos ≡ ok classic_head
  unfolding read_flags
  read_head-classic h =
      read_head-flags (rw (read_flags, canfd-test len (omega arith), lt→ltb len 128 h))

  pub read_head-fd :
      {fl : ℕ} {rest : List ℕ}
      → 128 ≤ len
      → bytes ≡ fl ∷ rest
      → read_head raw pos ≡ ok (record classic_head { flags = fl; pos = pos + 6 })
  unfolding read_flags
  read_head-fd {fl} {rest} h e =
      let no_fd : ltb len 128 ≡ false = ground arith in
      let p6 : add16 (pos + 5) 1 ≡ pos + 6 = omega arith in
      read_head-flags (
        rw (
          read_flags,
          canfd-test len (omega arith),
          no_fd,
          byte_at raw (pos + 5) fl rest (at5 ∙ e),
          p6,
        ))

  read_flags-overrun : 128 ≤ len → bytes ≡ [] → read_flags raw len (pos + 5) ≡ fault read_oob
  unfolding read_flags
  read_flags-overrun h e =
      let no_fd : ltb len 128 ≡ false = ground arith in
      let past : get_elem? raw (pos + 5) ≡ none =
        ap (get_elem? raw) (omega arith)
        ∙ sym (get_elem?-drop (pos + 5) 0 raw)
        ∙ ap (λ l. get_elem? l 0) (at5 ∙ e) in
      rw (read_flags, canfd-test len (omega arith), no_fd, load_byte-fault raw (pos + 5) past)

  pub read_head-overrun : 128 ≤ len → bytes ≡ [] → read_head raw pos ≡ fault read_oob
  unfolding read_head
  read_head-overrun h e =
      let p4 : add16 pos 4 ≡ pos + 4 = omega arith in
      let p5 : add16 (pos + 4) 1 ≡ pos + 5 = omega arith in
      rw (
        byte_at raw pos a _ at,
        byte_at raw (pos + 1) b _ at1,
        byte_at raw (pos + 2) c _ at2,
        byte_at raw (pos + 3) d _ at3,
        p4,
        byte_at raw (pos + 4) len _ at4,
        p5,
        read_flags-overrun h e,
      )
