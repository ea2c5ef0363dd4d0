-- ===== src/Bridge/Reading.antt =====
-- The loop over a datagram ends, whatever the datagram is, and where a frame is too long.
use cannelloni_tms.Prelude.{
  ℕ, zero, suc, ◌+◌, ◌-◌, ◌%◌, ◌^◌, ◌≤◌, ◌<◌, ◌≡◌, inl, inr, refl, ap, ◌∙◌, arith, List, [], ◌∷◌,
  ◌++◌, length, some, true, Bool-cases, ltb, Option-cases, get_elem?, dec_lt, drop, append_assoc,
}
use cannelloni_tms.Prelude.{Exec, Fault, ok, fault, read_oob, write_oob, ◌>>=◌}
use cannelloni_tms.Cannelloni.Bytes.{
  load_byte, load_byte-ok, load_byte-fault, store_bytes, store_bytes-ok, store_bytes-fault, splice,
  length-splice,
}
use cannelloni_tms.Bridge.{CanFrame, Locals, copy_data, read_one, read_frames, received}
use cannelloni_tms.Bridge.Received.{load_at, next_drop}

-- A result of which `P` holds, or an access out of bounds.
pub data Finishes {A : Type 0} (P : A → Type 0) (e : Exec A) : Type 0 where
  returns : (a : A) → e ≡ ok a → P a → Finishes P e
  faults : (f : Fault) → e ≡ fault f → Finishes P e

module _ {A B : Type 0} {Q : A → Type 0} {P : B → Type 0} where
  Finishes-bind :
      {e : Exec A} (k : A → Exec B)
      → Finishes Q e
      → ((a : A) → Q a → Finishes P (k a))
      → Finishes P (e >>= k)
  Finishes-bind k (returns a h q) next = elim (next a q) [
    | returns b h' p ↦ returns b (ap (λ x. x >>= k) h ∙ h') p
    | faults f h' ↦ faults f (ap (λ x. x >>= k) h ∙ h')
  ]
  Finishes-bind k (faults f h) next = faults f (ap (λ x. x >>= k) h)

abbrev Any : {A : Type 0} → A → Type 0
Any a = Unit {0}

load_byte-Finishes : (xs : List ℕ) (i : ℕ) → Finishes Any (load_byte xs i)
load_byte-Finishes xs i = elim (Option-cases (get_elem? xs i)) [
  | inl e ↦ faults read_oob (load_byte-fault xs i e)
  | inr (b, e) ↦ returns b (load_byte-ok xs i b e) tt
]

store_bytes-Finishes : (xs : List ℕ) (i : ℕ) (bs : List ℕ) → Finishes Any (store_bytes xs i bs)
store_bytes-Finishes xs i bs = elim (dec_lt (length xs) (i + length bs)) [
  | yes h ↦ faults write_oob (store_bytes-fault xs i bs h)
  | no h ↦ returns (splice xs i bs) (store_bytes-ok xs i bs (omega arith)) tt
]

copy_data-Finishes :
    (n i pos : ℕ) (buffer payload : List ℕ)
    → Finishes (λ r. r.1 ≡ pos + n) (copy_data n i pos buffer payload)
unfolding copy_data
copy_data-Finishes zero i pos buffer payload = returns (payload, pos) refl (omega arith)
copy_data-Finishes (suc n) i pos buffer payload =
    Finishes-bind _ (load_byte-Finishes buffer pos) (λ b _.
      Finishes-bind _ (store_bytes-Finishes payload i (b ∷ [])) (λ payload' _.
        elim (copy_data-Finishes n (i + 1) (pos + 1) buffer payload') [
          | returns r e h ↦ returns r e (omega arith)
          | faults f e ↦ faults f e
        ]))

read_one-Finishes :
    (frame : CanFrame) (buffer : List ℕ) (pos : ℕ)
    → Finishes (λ r. pos + 5 ≤ r.1) (read_one frame buffer pos)
unfolding read_one
read_one-Finishes frame buffer pos = Finishes-bind _ (load_byte-Finishes buffer pos) (λ b0 _.
    Finishes-bind _ (load_byte-Finishes buffer (pos + 1)) (λ b1 _.
      Finishes-bind _ (load_byte-Finishes buffer (pos + 2)) (λ b2 _.
        Finishes-bind _ (load_byte-Finishes buffer (pos + 3)) (λ b3 _.
          Finishes-bind _ (load_byte-Finishes buffer (pos + 4)) (λ len _.
            Finishes-bind _ (copy_data-Finishes len 0 (pos + 5) buffer frame.payload)
              (λ r h. returns _ refl (omega arith)))))))

read_frames-Finishes :
    (fuel n pos count : ℕ) (frame : CanFrame) (buffer : List ℕ) (frames : List CanFrame)
    → n < pos + fuel
    → 0 < fuel
    → Finishes Any (read_frames fuel frame n buffer pos count frames)
unfolding read_frames
read_frames-Finishes zero n pos count frame buffer frames h some_fuel = absurd (omega arith)
read_frames-Finishes (suc fuel) n pos count frame buffer frames h some_fuel =
    elim (Bool-cases (ltb pos n)) [
      | inr stop ↦ returns (frames, count) (rw (read_frames, stop) refl) tt
      | inl more ↦
          rw (read_frames, more)
            (Finishes-bind _ (read_one-Finishes frame buffer pos) (λ r above.
              read_frames-Finishes fuel n r.1 ((count + 2 ^ 16 - 1) % 2 ^ 16) frame buffer
                (frames ++ (r.0 ∷ [])) (omega arith) (ground arith)))
    ]

-- Whatever bytes a datagram has, one or more, the bridge's loop over them ends, with frames or at an
-- access out of bounds.
pub received-Finishes :
    (l : Locals) (bytes : List ℕ) (frames : List CanFrame)
    → 0 < length bytes
    → Finishes (λ r. Unit {0}) (received l bytes frames)
unfolding received
received-Finishes l bytes frames some_bytes =
    Finishes-bind _ (store_bytes-Finishes l.buffer 0 bytes) (λ buffer _.
      Finishes-bind _ (load_byte-Finishes buffer 3) (λ high _.
        Finishes-bind _ (load_byte-Finishes buffer 4) (λ low _.
          read_frames-Finishes (length bytes) (length bytes) 5 _ l.frame buffer frames (omega arith)
            some_bytes)))

-- Bytes that do not fit into the array are written past its end.
copy_data-overrun :
    (bs rest buffer payload : List ℕ) (i pos : ℕ)
    → drop pos buffer ≡ bs ++ rest
    → i ≤ length payload
    → length payload < i + length bs
    → copy_data (length bs) i pos buffer payload ≡ fault write_oob
unfolding copy_data
copy_data-overrun [] rest buffer payload i pos h k over = absurd (omega arith)
copy_data-overrun (b ∷ bs) rest buffer payload i pos h k over =
    let load : load_byte buffer pos ≡ ok b =
      ap (load_byte buffer) {y = pos + 0} (omega arith) ∙ load_at buffer _ pos 0 b h refl in
    elim (dec_lt i (length payload)) [
      | no full ↦ rw (copy_data, load, store_bytes-fault payload i (b ∷ []) (omega arith)) refl
      | yes room ↦
          let size : length (splice payload i (b ∷ [])) ≡ length payload =
            length-splice payload i (b ∷ []) (omega arith) in
          rw (copy_data, load, store_bytes-ok payload i (b ∷ []) (omega arith))
            (copy_data-overrun bs rest buffer (splice payload i (b ∷ [])) (i + 1) (pos + 1)
              (next_drop buffer (b ∷ []) (bs ++ rest) pos 1 h refl) (omega arith) (omega arith))
    ]

-- A datagram of at most 1024 bytes whose first frame announces more than 8 bytes and brings them
-- makes the bridge write past the array of the frame; `header` is any five bytes.
pub received-overrun :
    (l : Locals) (h0 h1 h2 h3 h4 i0 i1 i2 i3 : ℕ) (body rest : List ℕ) (frames : List CanFrame)
    → length l.buffer ≡ 1024
    → length l.frame.payload ≡ 8
    → 8 < length body
    → length (body ++ rest) ≤ 1014
    → let bytes = h0 ∷ h1 ∷ h2 ∷ h3 ∷ h4 ∷ i0 ∷ i1 ∷ i2 ∷ i3 ∷ length body ∷ (body ++ rest) in
      received l bytes frames ≡ fault write_oob
unfolding received read_frames read_one
received-overrun l h0 h1 h2 h3 h4 i0 i1 i2 i3 body rest frames size array over fits =
    let tail = body ++ rest in
    let bytes = h0 ∷ h1 ∷ h2 ∷ h3 ∷ h4 ∷ i0 ∷ i1 ∷ i2 ∷ i3 ∷ length body ∷ tail in
    let buffer = splice l.buffer 0 bytes in
    let stored = store_bytes-ok l.buffer 0 bytes (omega arith) in
    let load : (k b : ℕ) → get_elem? buffer k ≡ some b → load_byte buffer k ≡ ok b =
      load_byte-ok buffer in
    let more : ltb 5 (length bytes) ≡ true = ground arith in
    let at : drop 10 buffer ≡ body ++ (rest ++ drop (0 + length bytes) l.buffer) =
      append_assoc body rest (drop (0 + length bytes) l.buffer) in
    rw
      (
        received,
        stored,
        load 3 h3 refl,
        load 4 h4 refl,
        read_frames,
        more,
        read_one,
        load 5 i0 refl,
        load 6 i1 refl,
        load 7 i2 refl,
        load 8 i3 refl,
        load 9 (length body) refl,
        copy_data-overrun body _ buffer l.frame.payload 0 10 at (omega arith) (omega arith),
      )
      refl
