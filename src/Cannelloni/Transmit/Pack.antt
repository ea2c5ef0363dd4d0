-- ===== src/Cannelloni/Transmit/Pack.antt =====
-- The packing loop: which frames it takes, and what it writes.
use cannelloni_tms.Prelude.{
  ℕ, zero, suc, ◌+◌, ◌/◌, ◌%◌, ◌^◌, ◌≤◌, ◌<◌, ◌≡◌, refl, ap, sym, ◌∙◌, arith, List, [], ◌∷◌, ◌++◌,
  length, take, length-append, length-take, append_assoc, append-nil, All, none, some, inl, inr,
  true, false, ltb, Bool-cases, subst, ltb→lt,
}
use cannelloni_tms.Prelude.{ok}
use cannelloni_tms.Prelude.Bits.{bit_and_mask}
use cannelloni_tms.Cannelloni.Frame.{Frame, FramePtr, Store, read_frame, canfd_len}
use cannelloni_tms.Cannelloni.Queue.{FramesQueue, queue_take, queue_peek}
use cannelloni_tms.Cannelloni.Queue.Inv.{IsValid}
use cannelloni_tms.Cannelloni.Queue.Fifo.{contents, queue_take_fifo, taken-IsValid}
use cannelloni_tms.Cannelloni.Bytes.{
  load_bytes-ok, store_bytes-ok, splice, length-splice, take-splice,
}
use cannelloni_tms.Cannelloni.Wire.{
  be32, encode, encode_all, packed, unpacked, IsSendable, length-encode,
}
use cannelloni_tms.Cannelloni.Transmit.{Packing, pack_frame, pack_loop, id_bytes, add16}

id_bytes-be32 : (id : ℕ) → id_bytes id ≡ be32 id
id_bytes-be32 id = rw (
  bit_and_mask 8 (id / 2 ^ 24) 0xff refl,
  bit_and_mask 8 (id / 2 ^ 16) 0xff refl,
  bit_and_mask 8 (id / 2 ^ 8) 0xff refl,
  bit_and_mask 8 id 0xff refl,
)

-- One frame is written behind what is there.
record Wrote (st : Store) (s : Packing) (p : FramePtr) (q : FramesQueue) (r : Packing)
    : Type 0 where
  run : pack_frame st s ≡ ok r
  queue : r.rx_queue ≡ q
  peek : r.frame ≡ queue_peek q
  pos : r.pos ≡ s.pos + 5 + canfd_len (read_frame st p)
  size : length r.buf ≡ length s.buf
  count : r.frame_count ≡ add16 s.frame_count 1
  bytes : take r.pos r.buf ≡ take s.pos s.buf ++ encode (read_frame st p)

module _ (st : Store) (s : Packing) (p : FramePtr) (q : FramesQueue)
    (taken : queue_take s.rx_queue ≡ (some p, q)) (sendable : IsSendable (read_frame st p))
    (room : s.pos + 5 + canfd_len (read_frame st p) ≤ length s.buf)
    (small : length s.buf < 2 ^ 16) where
  abbrev frame : Frame
  frame = read_frame st p

  abbrev b1 : List ℕ
  b1 = splice s.buf s.pos (id_bytes frame.can_id)

  abbrev b2 : List ℕ
  b2 = splice b1 (s.pos + 4) (frame.len ∷ [])

  abbrev bytes : List ℕ
  bytes = take (canfd_len frame) frame.payload

  abbrev b3 : List ℕ
  b3 = splice b2 (s.pos + 5) bytes

  abbrev after : Packing
  after = record {
    rx_queue = q;
    buf = b3;
    pos = s.pos + 5 + canfd_len frame;
    frame_count = add16 s.frame_count 1;
    frame = queue_peek q;
  }

  length-bytes : length bytes ≡ canfd_len frame
  length-bytes = omega (arith, length-take (canfd_len frame) frame.payload)

  length-b1 : length b1 ≡ length s.buf
  length-b1 = length-splice s.buf s.pos (id_bytes frame.can_id) (omega arith)

  length-b2 : length b2 ≡ length s.buf
  length-b2 = length-splice b1 (s.pos + 4) (frame.len ∷ []) (omega (arith, length-b1)) ∙ length-b1

  length-b3 : length b3 ≡ length s.buf
  length-b3 =
      length-splice b2 (s.pos + 5) bytes (omega (arith, length-b2, length-bytes)) ∙ length-b2

  pack_frame-ok : pack_frame st s ≡ ok after
  unfolding pack_frame
  pack_frame-ok =
      let e1 : add16 s.pos 4 ≡ s.pos + 4 = omega arith in
      let e2 : add16 (s.pos + 4) 1 ≡ s.pos + 5 = omega arith in
      let e3 : add16 (s.pos + 5) (canfd_len frame) ≡ s.pos + 5 + canfd_len frame = omega arith in
      rw
        (
          taken,
          pack_frame,
          store_bytes-ok s.buf s.pos (id_bytes frame.can_id) (omega arith),
          e1,
          store_bytes-ok b1 (s.pos + 4) (frame.len ∷ []) (omega (arith, length-b1)),
          e2,
          load_bytes-ok frame.payload 0 (canfd_len frame) (omega arith),
          store_bytes-ok b2 (s.pos + 5) bytes (omega (arith, length-b2, length-bytes)),
          e3,
        )
        (rw taken)

  written : take (s.pos + 5 + canfd_len frame) b3 ≡ take s.pos s.buf ++ encode frame
  written =
      take-splice b2 (s.pos + 5) (s.pos + 5 + canfd_len frame) bytes (omega (arith, length-bytes))
        (omega (arith, length-b2))
      ∙ ap (λ l. l ++ bytes)
          (take-splice b1 (s.pos + 4) (s.pos + 5) (frame.len ∷ []) (omega arith)
            (omega (arith, length-b1)))
      ∙ ap (λ l. (l ++ (frame.len ∷ [])) ++ bytes)
          (take-splice s.buf s.pos (s.pos + 4) (id_bytes frame.can_id) (omega arith) (omega arith))
      ∙ rw id_bytes-be32 (simp append_assoc)

  pack_frame-Wrote : Wrote st s p q after
  pack_frame-Wrote = record {
    run = pack_frame-ok;
    queue = refl;
    peek = refl;
    pos = refl;
    size = length-b3;
    count = refl;
    bytes = written;
  }

-- What the loop does from `s` on, with `fs` in the queue.
pub record Packed (room : ℕ) (st : Store) (s : Packing) (fs : List Frame) (fuel : ℕ) (r : Packing)
    : Type 0 where
  pub run : pack_loop fuel room st s ≡ ok r
  pub left : contents st r.rx_queue ≡ unpacked room s.pos fs
  pub valid : IsValid r.rx_queue
  pub array : (r.rx_queue.frames ≡ s.rx_queue.frames) × (r.rx_queue.count ≡ s.rx_queue.count)
  pub peek : r.frame ≡ queue_peek r.rx_queue
  pub size : length r.buf ≡ length s.buf
  pub pos : r.pos ≡ s.pos + length (encode_all (packed room s.pos fs))
  pub within : r.pos ≤ length s.buf
  pub count : r.frame_count ≡ (s.frame_count + length (packed room s.pos fs)) % 2 ^ 16
  pub bytes : take r.pos r.buf ≡ take s.pos s.buf ++ encode_all (packed room s.pos fs)

-- Where the loop stands, with `fs` still in the queue.
pub record Ready (room : ℕ) (st : Store) (s : Packing) (fs : List Frame) : Type 0 where
  pub valid : IsValid s.rx_queue
  pub queued : contents st s.rx_queue ≡ fs
  pub peek : s.frame ≡ queue_peek s.rx_queue
  pub sendable : All IsSendable fs
  pub within : s.pos ≤ length s.buf
  pub size : length s.buf ≡ room
  pub small : room < 2 ^ 16
  pub counted : s.frame_count < 2 ^ 16

Packed-nil :
    (room : ℕ) (st : Store) (s : Packing) (fuel : ℕ)
    → Ready room st s []
    → queue_peek s.rx_queue ≡ none
    → Packed room st s [] (suc fuel) s
unfolding pack_loop
Packed-nil room st s fuel h e = record {
  run = let none_left : s.frame ≡ none = h.peek ∙ e in ground arith;
  left = h.queued;
  valid = h.valid;
  array = (refl, refl);
  peek = h.peek;
  size = refl;
  pos = omega arith;
  within = h.within;
  count = omega arith;
  bytes = sym (append-nil _);
}

module _ (room : ℕ) (st : Store) (s : Packing) (fs : List Frame) (fuel : ℕ) (p : FramePtr)
    (h : Ready room st s (read_frame st p ∷ fs)) (peeked : queue_peek s.rx_queue ≡ some p) where
  Packed-full :
      ltb (s.pos + 5 + canfd_len (read_frame st p)) room ≡ false
      → Packed room st s (read_frame st p ∷ fs) (suc fuel) s
  unfolding pack_loop
  Packed-full no_room = record {
    run = let next : s.frame ≡ some p = h.peek ∙ peeked in ground arith;
    left = rw no_room h.queued;
    valid = h.valid;
    array = (refl, refl);
    peek = h.peek;
    size = refl;
    pos = rw no_room (omega arith);
    within = h.within;
    count = rw no_room (omega arith);
    bytes = rw no_room (sym (append-nil _));
  }

  Packed-cons :
      ltb (s.pos + 5 + canfd_len (read_frame st p)) room ≡ true
      → {q : FramesQueue} {s' r : Packing} → Wrote st s p q s'
      → (q.frames ≡ s.rx_queue.frames) × (q.count ≡ s.rx_queue.count)
      → Packed room st s' fs fuel r
      → Packed room st s (read_frame st p ∷ fs) (suc fuel) r
  unfolding pack_loop
  Packed-cons has_room {q} {s'} {r} w same k = record {
    run = let next : s.frame ≡ some p = h.peek ∙ peeked in ground (arith, w.run, k.run);
    left = rw has_room (rw w.pos at k.left);
    valid = k.valid;
    array = (
      k.array.0 ∙ ap (λ x. x.frames) w.queue ∙ same.0,
      k.array.1 ∙ ap (λ x. x.count) w.queue ∙ same.1,
    );
    peek = k.peek;
    size = k.size ∙ w.size;
    pos = rw has_room (
        omega (
          arith,
          w.pos,
          rw w.pos at k.pos,
          length-encode (read_frame st p) h.sendable.0,
          length-append (encode (read_frame st p))
              (encode_all (packed room (s.pos + 5 + canfd_len (read_frame st p)) fs)),
        ));
    within = rw (← w.size) k.within;
    count = rw has_room (omega (arith, rw w.pos at k.count, w.count));
    bytes = rw has_room (
        rw w.pos at k.bytes
        ∙ ap (λ l. l ++ encode_all (packed room (s.pos + 5 + canfd_len (read_frame st p)) fs))
            (rw w.pos at w.bytes)
        ∙ append_assoc (take s.pos s.buf) (encode (read_frame st p)) _);
  }

Wrote-Ready :
    (room : ℕ) (st : Store) (s s' : Packing) (fs : List Frame) (p : FramePtr) (q : FramesQueue)
    → Ready room st s (read_frame st p ∷ fs)
    → Wrote st s p q s'
    → IsValid q
    → contents st q ≡ fs
    → s.pos + 5 + canfd_len (read_frame st p) ≤ room
    → Ready room st s' fs
Wrote-Ready room st s s' fs p q h w v e fits = record {
  valid = subst IsValid (sym w.queue) v;
  queued = ap (contents st) w.queue ∙ e;
  peek = w.peek ∙ ap queue_peek (sym w.queue);
  sendable = h.sendable.1;
  within = omega (arith, w.pos, w.size, h.size);
  size = w.size ∙ h.size;
  small = h.small;
  counted = omega (arith, w.count);
}

-- With fuel for each frame the loop ends, having packed the frames that fit.
pub pack_loop-Packed :
    (room : ℕ) (st : Store) (fs : List Frame) (fuel : ℕ) (s : Packing)
    → Ready room st s fs
    → length fs < fuel
    → (r : Packing) × Packed room st s fs fuel r
pack_loop-Packed room st fs zero s h few = elim few [ ]
pack_loop-Packed room st [] (suc fuel) s h few = elim (queue_take_fifo st h.valid) [
  | inl (e, t, pk) ↦ (s, Packed-nil room st s fuel h pk)
  | inr (p, q, e, t, pk) ↦ absurd (cc (h.queued, e))
]
pack_loop-Packed room st (f ∷ fs) (suc fuel) s h few = elim (queue_take_fifo st h.valid) [
  | inl (e, t, pk) ↦ absurd (cc (h.queued, e))
  | inr (p, q, e, t, pk) ↦
      let first : f ≡ read_frame st p = cc (h.queued, e) in
      let rest : contents st q ≡ fs = cc (h.queued, e) in
      let h' : Ready room st s (read_frame st p ∷ fs) =
        subst (λ x. Ready room st s (x ∷ fs)) first h in
      let (v, same0, same1) = taken-IsValid h.valid t in
      rw first (elim (Bool-cases (ltb (s.pos + 5 + canfd_len (read_frame st p)) room)) [
        | inr no_room ↦ (s, Packed-full room st s fs fuel p h' pk no_room)
        | inl has_room ↦
            let fits : s.pos + 5 + canfd_len (read_frame st p) < room = ltb→lt _ _ has_room in
            let size : length s.buf ≡ room = h.size in
            let w =
              pack_frame-Wrote st s p q t h'.sendable.0 (omega arith) (omega (arith, h.small)) in
            let ready = Wrote-Ready room st s _ fs p q h' w v rest (omega arith) in
            let (r, k) = pack_loop-Packed room st fs fuel _ ready (omega arith) in
            (r, Packed-cons room st s fs fuel p h' pk has_room w (same0, same1) k)
      ])
]
