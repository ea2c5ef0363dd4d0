-- ===== src/Can/Bytes.antt =====
-- The data registers hold bytes, and so do the frames that are filled from them.
use cannelloni_tms.Prelude.{
  ℕ, zero, suc, ◌+◌, ◌%◌, ◌^◌, ◌≤◌, ◌<◌, ◌≡◌, inl, inr, refl, subst, ◌∙◌, arith, bit_and, List, [],
  ◌∷◌, ◌++◌, length, take, drop, All, All-append, All-take, All-drop, Bool-cases, ◌==◌, some, none,
  get_elem?, Option, dec_lt,
}
use cannelloni_tms.Prelude.{ok, fault, read_oob, Holds, Holds-bind}
use cannelloni_tms.Prelude.Bits.{bit_and_mask, bit_or_above}
use cannelloni_tms.Cannelloni.Frame.{IsByte}
use cannelloni_tms.Cannelloni.Bytes.{
  load_byte, store_bytes, store_bytes-ok, store_bytes-fault, length-splice,
}
use cannelloni_tms.Can.{Dcan, data_byte_order, fill_data, send_data, received_id, can_fill_rx_mbox}
use cannelloni_tms.Can.Frames.{copied}

get_elem?-IsByte : (xs : List ℕ) (i b : ℕ) → All IsByte xs → get_elem? xs i ≡ some b → b < 256
get_elem?-IsByte [] i b h e = absurd (cc)
get_elem?-IsByte (x ∷ xs) zero b (h, hs) e = let same : x ≡ b = cc in omega arith
get_elem?-IsByte (x ∷ xs) (suc i) b (h, hs) e = get_elem?-IsByte xs i b hs e

load_byte-Holds : (xs : List ℕ) (i : ℕ) → All IsByte xs → Holds IsByte (load_byte xs i)
unfolding load_byte
load_byte-Holds xs i h = found (get_elem? xs i) (λ b e. get_elem?-IsByte xs i b h e)
  where
    found :
        (o : Option ℕ)
        → ((b : ℕ) → o ≡ some b → b < 256)
        → Holds IsByte (elim o [ none ↦ fault read_oob | some b ↦ ok b ])
    found none h = tt
    found (some b) h = h b refl

-- An array of bytes, of a length.
abbrev Bytes : ℕ → List ℕ → Type 0
Bytes n xs = All IsByte xs × (length xs ≡ n)

store_bytes-Holds :
    (n : ℕ) (xs : List ℕ) (i b : ℕ)
    → Bytes n xs
    → b < 256
    → Holds (Bytes n) (store_bytes xs i (b ∷ []))
store_bytes-Holds n xs i b (h, size) byte = elim (dec_lt (length xs) (i + 1)) [
  | yes out ↦ rw (store_bytes-fault xs i (b ∷ []) out) tt
  | no fits ↦ rw (store_bytes-ok xs i (b ∷ []) (omega arith)) (
    All-append IsByte (take i xs) ((b ∷ []) ++ drop (i + 1) xs) (All-take IsByte i xs h)
        (byte, All-drop IsByte (i + 1) xs h),
    length-splice xs i (b ∷ []) (omega arith) ∙ size,
  )
]

fill_data-Holds :
    (m n i : ℕ) (dat bytes : List ℕ)
    → All IsByte dat
    → Bytes n bytes
    → Holds (Bytes n) (fill_data m i dat bytes)
unfolding fill_data
fill_data-Holds zero n i dat bytes d h = h
fill_data-Holds (suc m) n i dat bytes d h =
    Holds-bind IsByte (Bytes n) (load_byte data_byte_order i) _
      (load_byte-Holds data_byte_order i (omega arith))
      (λ k _. Holds-bind IsByte (Bytes n) (load_byte dat k) _ (load_byte-Holds dat k d) (λ b byte.
        Holds-bind (Bytes n) (Bytes n) (store_bytes bytes i (b ∷ [])) _
          (store_bytes-Holds n bytes i b h byte)
          (λ bytes' h'. fill_data-Holds m n (i + 1) dat bytes' d h')))

received_id_u32 : (arb : ℕ) → received_id arb < 2 ^ 32
received_id_u32 arb =
    let low = bit_and_mask 29 arb 0x1FFF_FFFF refl in
    elim (Bool-cases (bit_and arb (2 ^ 30) == 0)) [
      | inl standard ↦ rw standard (omega (arith, low))
      | inr extended ↦
          rw extended
            (omega (arith, low, bit_or_above 31 1 (bit_and arb 0x1FFF_FFFF) (omega (arith, low))))
    ]

-- What `can_fill_rx_mbox` gives: an identifier of 32 bits, a length of at most 8, and 8 bytes.
pub record IsMessage (r : ℕ × ℕ × List ℕ) : Type 0 where
  pub id_u32 : r.0 < 2 ^ 32
  pub short : r.1 ≤ 8
  pub bytes : All IsByte r.2
  pub array : length r.2 ≡ 8

module _ {M : Type 0} where
  pub can_fill_rx_mbox-Holds :
      (h : Dcan M) (old : List ℕ)
      → All IsByte h.if1dat
      → h.if1mctl % 16 ≤ 8
      → All IsByte old
      → length old ≡ 8
      → Holds IsMessage (can_fill_rx_mbox h old)
  unfolding can_fill_rx_mbox
  can_fill_rx_mbox-Holds h old dat short bytes array =
      Holds-bind (Bytes 8) IsMessage (fill_data (bit_and h.if1mctl 0b1111) 0 h.if1dat old) _
        (fill_data-Holds (bit_and h.if1mctl 0b1111) 8 0 h.if1dat old dat (bytes, array))
        (λ d k. record {
          id_u32 = received_id_u32 h.if1arb;
          short = omega (arith, bit_and_mask 4 h.if1mctl 15 refl);
          bytes = k.0;
          array = k.1;
        })

send_data-Holds :
    (m n i : ℕ) (bytes dat : List ℕ)
    → All IsByte bytes
    → Bytes n dat
    → Holds (Bytes n) (send_data m i bytes dat)
unfolding send_data
send_data-Holds zero n i bytes dat b h = h
send_data-Holds (suc m) n i bytes dat b h =
    Holds-bind IsByte (Bytes n) (load_byte data_byte_order i) _
      (load_byte-Holds data_byte_order i (omega arith))
      (λ k _.
        Holds-bind IsByte (Bytes n) (load_byte bytes i) _ (load_byte-Holds bytes i b) (λ x byte.
          Holds-bind (Bytes n) (Bytes n) (store_bytes dat k (x ∷ [])) _
            (store_bytes-Holds n dat k x h byte)
            (λ dat' h'. send_data-Holds m n (i + 1) bytes dat' b h')))

-- At most eight bytes are copied into the data registers, which are eight bytes again.
pub sent-Bytes :
    (n : ℕ) (bytes dat : List ℕ)
    → n ≤ 8
    → length bytes ≡ 8
    → All IsByte bytes
    → length dat ≡ 8
    → All IsByte dat
    → (dat' : List ℕ) × (send_data n 0 bytes dat ≡ ok dat') × (length dat' ≡ 8) × All IsByte dat'
sent-Bytes n bytes dat short array all size dat_all =
    let (dat', run, filled) = copied n bytes dat bytes short array size array in
    let h = subst (Holds (Bytes 8)) run (send_data-Holds n 8 0 bytes dat all (dat_all, size)) in
    (dat', run, h.1, h.0)
