-- ===== src/Cannelloni/Receive/Refine.antt =====
-- `receive_loop` refines the grammar: positions, masks and guards against lists and arithmetic.
use cannelloni_tms.Prelude.{
  ℕ, zero, suc, ◌+◌, ◌*◌, ◌^◌, ◌≤◌, ◌<◌, ◌≡◌, refl, ap, ◌∙◌, arith, List, [], ◌∷◌, length, drop,
  length-drop, All, false, ltb, lt→ltb, dec_lt,
}
use cannelloni_tms.Prelude.{◌>>=◌}
use cannelloni_tms.Cannelloni.Frame.{IsByte, Store}
use cannelloni_tms.Cannelloni.Queue.{FramesQueue}
use cannelloni_tms.Cannelloni.Lwip.{Pbuf}
use cannelloni_tms.Cannelloni.Receive.{read_head, queue_frame, receive_loop}
use cannelloni_tms.Cannelloni.Receive.Grammar.{
  Parsed, parse, parse_body, parse_flags, absorb, short,
}
use cannelloni_tms.Cannelloni.Receive.Prefix.{
  classic_head, at5, drop-next, read_head-classic, read_head-fd, read_head-overrun,
}
use cannelloni_tms.Cannelloni.Receive.Loop.{Slots, Follows, queue_frame-parse}

pub All-drop {ℓ} :
    {A : Type ℓ} (P : A → Type 0) (n : ℕ) (xs : List A) → All P xs → All P (drop n xs)
All-drop P zero xs h = h
All-drop P (suc n) [] h = h
All-drop P (suc n) (x ∷ xs) h = All-drop P n xs h.1

-- Fewer than five bytes are no frame.
parse-short : (n : ℕ) (bytes : List ℕ) → length bytes < 5 → parse (suc n) bytes ≡ ([], short)
unfolding parse
parse-short n [] h = refl
parse-short n (a ∷ []) h = refl
parse-short n (a ∷ b ∷ []) h = refl
parse-short n (a ∷ b ∷ c ∷ []) h = refl
parse-short n (a ∷ b ∷ c ∷ d ∷ []) h = refl
parse-short n (a ∷ b ∷ c ∷ d ∷ e ∷ bytes) h = absurd (omega arith)

pub parse_flags-classic :
    (can_id len : ℕ) (bytes : List ℕ) (next : List ℕ → Parsed)
    → len < 128
    → parse_flags can_id len bytes next ≡ parse_body can_id len 0 bytes next
parse_flags-classic can_id len [] next h = rw (lt→ltb len 128 h)
parse_flags-classic can_id len (b ∷ bytes) next h = rw (lt→ltb len 128 h)

module _ (p : Pbuf) (unchained : p.tot_len ≡ length p.payload)
    (small : length p.payload + 1 < 2 ^ 16) (bytes_ok : All IsByte p.payload) where
  abbrev Refined : ℕ → Type 0
  Refined n = Follows p.payload (receive_loop n p) (parse n)

  -- One round at a position where a whole prefix stands.
  module _ (n : ℕ) (ih : Refined n) (pos a b c d len : ℕ) (bytes : List ℕ)
      (at : drop pos p.payload ≡ a ∷ b ∷ c ∷ d ∷ len ∷ bytes)
      (bounds : All IsByte (a ∷ b ∷ c ∷ d ∷ len ∷ bytes)) (room : pos + 5 ≤ length p.payload)
      (q : FramesQueue) (st : Store) (slots : Slots st) where
    abbrev can_id : ℕ
    can_id = a * 2 ^ 24 + b * 2 ^ 16 + c * 2 ^ 8 + d

    abbrev Goal : List ℕ → Type 0
    Goal bs =
        (read_head p.payload pos >>= λ h. queue_frame p h q st (receive_loop n p))
        ≡ absorb (parse_flags can_id len bs (parse n)).0 (parse_flags can_id len bs (parse n)).1 q
            st

    round-classic : len < 128 → Goal bytes
    round-classic h =
        let small_pos : pos + 6 < 2 ^ 16 = omega arith in
        rw
          (
            parse_flags-classic can_id len bytes (parse n) h,
            read_head-classic p.payload pos a b c d len bytes at small_pos bounds h,
            ← at5 p.payload pos a b c d len bytes at small_pos bounds,
          )
          (queue_frame-parse p unchained small (receive_loop n p) (parse n) ih
            (classic_head p.payload pos a b c d len bytes at small_pos bounds) refl room q st slots)

    round-overrun : 128 ≤ len → bytes ≡ [] → Goal []
    unfolding absorb
    round-overrun h e =
        let small_pos : pos + 6 < 2 ^ 16 = omega arith in
        let no_fd : ltb len 128 ≡ false = ground arith in
        rw (read_head-overrun p.payload pos a b c d len bytes at small_pos bounds h e, no_fd)

    round-fd : (fl : ℕ) (rest : List ℕ) → 128 ≤ len → bytes ≡ fl ∷ rest → Goal (fl ∷ rest)
    round-fd fl rest h e =
        let small_pos : pos + 6 < 2 ^ 16 = omega arith in
        let no_fd : ltb len 128 ≡ false = ground arith in
        let at6 : drop (pos + 6) p.payload ≡ rest =
          drop-next p.payload (pos + 5) (pos + 6) fl rest (omega arith)
            (at5 p.payload pos a b c d len bytes at small_pos bounds ∙ e) in
        let room6 : pos + 6 ≤ length p.payload =
          omega (arith, ap length at, ap length e, length-drop pos p.payload) in
        rw (read_head-fd p.payload pos a b c d len bytes at small_pos bounds h e, no_fd, ← at6)
          (queue_frame-parse p unchained small (receive_loop n p) (parse n) ih
            (record (classic_head p.payload pos a b c d len bytes at small_pos bounds) {
              flags = fl;
              pos = pos + 6;
            })
            refl room6 q st slots)

  module _ (n : ℕ) (ih : Refined n) (pos : ℕ) (room : pos + 5 ≤ length p.payload) (q : FramesQueue)
      (st : Store) (slots : Slots st) where
    round :
        (bs : List ℕ)
        → drop pos p.payload ≡ bs
        → 5 ≤ length bs
        → All IsByte bs
        → (read_head p.payload pos >>= λ h. queue_frame p h q st (receive_loop n p))
          ≡ absorb (parse (suc n) bs).0 (parse (suc n) bs).1 q st
    unfolding parse
    round [] at five ok_bs = absurd (omega arith)
    round (a ∷ []) at five ok_bs = absurd (omega arith)
    round (a ∷ b ∷ []) at five ok_bs = absurd (omega arith)
    round (a ∷ b ∷ c ∷ []) at five ok_bs = absurd (omega arith)
    round (a ∷ b ∷ c ∷ d ∷ []) at five ok_bs = absurd (omega arith)
    round (a ∷ b ∷ c ∷ d ∷ len ∷ []) at five ok_bs = elim (dec_lt len 128) [
      | yes h ↦ round-classic n ih pos a b c d len [] at ok_bs room q st slots h
      | no h ↦ round-overrun n ih pos a b c d len [] at ok_bs room q st slots (omega arith) refl
    ]
    round (a ∷ b ∷ c ∷ d ∷ len ∷ fl ∷ rest) at five ok_bs = elim (dec_lt len 128) [
      | yes h ↦ round-classic n ih pos a b c d len (fl ∷ rest) at ok_bs room q st slots h
      | no h ↦
          round-fd n ih pos a b c d len (fl ∷ rest) at ok_bs room q st slots fl rest (omega arith)
            refl
    ]

  -- On an unchained buffer of fewer than 2^16 - 1 bytes, from any position in it, over slots of
  -- eight data bytes, the loop does what the grammar says of the bytes from there on: it queues
  -- the same frames in the same queue and store, faults alike and reports alike.
  pub receive_loop-absorb :
      (n pos : ℕ) (q : FramesQueue) (st : Store)
      → pos ≤ length p.payload
      → Slots st
      → let r = parse n (drop pos p.payload) in receive_loop n p pos q st ≡ absorb r.0 r.1 q st
  unfolding receive_loop parse absorb
  receive_loop-absorb zero pos q st h s = refl
  receive_loop-absorb (suc n) pos q st h s = elim (dec_lt p.tot_len (pos + 5)) [
    | yes few ↦ rw (
      receive_loop,
      lt→ltb _ _ few,
      parse-short n (drop pos p.payload) (omega (arith, length-drop pos p.payload)),
    )
    | no enough ↦
        let go_on : ltb p.tot_len (pos + 5) ≡ false = ground arith in
        rw (receive_loop, go_on)
          (round n (receive_loop-absorb n) pos (omega arith) q st s (drop pos p.payload) refl
            (omega (arith, length-drop pos p.payload)) (All-drop IsByte pos p.payload bytes_ok))
  ]
