-- ===== src/Cannelloni/Receive/Loop.antt =====
-- The loop over positions agrees with the reading of the body as a list.
use cannelloni_tms.Prelude.{
  ℕ, ◌+◌, ◌%◌, ◌^◌, ◌≤◌, ◌<◌, ◌≡◌, ap, ◌∙◌, arith, List, [], ◌∷◌, length, take, drop, drop-drop,
  length-drop, length-take, length-append, Bool, true, false, not, ltb, lt→ltb, Bool-cases,
  Option-cases, inl, inr, ◌&&◌, dec_lt,
}
use cannelloni_tms.Prelude.{Exec, ok, fault, write_oob}
use native.Mathlib.Nat.{zero-add}
use cannelloni_tms.Cannelloni.Frame.{Frame, FramePtr, Store, read_frame, write_frame}
use cannelloni_tms.Cannelloni.Queue.{FramesQueue, queue_put}
use cannelloni_tms.Cannelloni.Bytes.{load_bytes-ok, store_bytes-ok, store_bytes-fault}
use cannelloni_tms.Cannelloni.Lwip.{Pbuf}
use cannelloni_tms.Cannelloni.Receive.{Head, has_data, fill_frame, queue_frame, add16}
use cannelloni_tms.Cannelloni.Receive.Grammar.{WireFrame, Parsed, is_rtr, parse_body, land, absorb}
use cannelloni_tms.Cannelloni.Receive.Prefix.{has_data-is_rtr}

-- Every slot's array `data` has its eight bytes.
abbrev pub Slots : Store → Type 0
Slots st = (b i : ℕ) → length (st b i).payload ≡ 8

pub write_frame-Slots :
    (st : Store) (p : FramePtr) (f : Frame)
    → Slots st
    → length f.payload ≡ 8
    → Slots (write_frame st p f)
write_frame-Slots st p f s h b i = ground (arith, s b i)

pub length-land :
    (w : WireFrame) (f : Frame)
    → length f.payload ≡ 8
    → length w.body ≤ 8
    → length (land w f).payload ≡ 8
length-land w f h k = omega (
  arith,
  length-append w.body (drop (length w.body) f.payload),
  length-drop (length w.body) f.payload,
)

module _ (raw : List ℕ) (h : Head) (f : Frame) (slot : length f.payload ≡ 8) where
  abbrev wire : WireFrame
  wire = record {
    can_id = h.can_id;
    len = h.len;
    flags = h.flags;
    body = take h.dlc (drop h.pos raw);
  }

  fill-rtr :
      has_data h.can_id ≡ false
      → fill_frame raw h f ≡ ok (land (record wire { body = [] }) f, h.pos)
  unfolding fill_frame
  fill-rtr e = rw (fill_frame, e)

  module _ (e : has_data h.can_id ≡ true) (within : h.pos + h.dlc ≤ length raw)
      (small : length raw < 2 ^ 16) where
    length-body : length wire.body ≡ h.dlc
    length-body = omega (arith, length-take h.dlc (drop h.pos raw), length-drop h.pos raw)

    fill-data : h.dlc ≤ 8 → fill_frame raw h f ≡ ok (land wire f, h.pos + h.dlc)
    unfolding fill_frame
    fill-data fits =
        let wrap : add16 h.pos h.dlc ≡ h.pos + h.dlc = omega arith in
        rw (
          fill_frame,
          e,
          load_bytes-ok raw h.pos h.dlc within,
          store_bytes-ok f.payload 0 wire.body (omega (arith, length-body)),
          wrap,
          zero-add,
        )

    fill-overflow : 8 < h.dlc → fill_frame raw h f ≡ fault write_oob
    unfolding fill_frame
    fill-overflow big = rw (
      fill_frame,
      e,
      load_bytes-ok raw h.pos h.dlc within,
      store_bytes-fault f.payload 0 wire.body (omega (arith, length-body)),
    )

-- What the rest of the loop is to do, against the rest of the list.
abbrev pub Follows :
    List ℕ
    → (ℕ → FramesQueue → Store → Exec (Bool × FramesQueue × Store))
    → (List ℕ → Parsed)
    → Type 0
Follows raw next rest =
    (pos : ℕ) (q : FramesQueue) (st : Store)
    → pos ≤ length raw
    → Slots st
    → next pos q st ≡ absorb (rest (drop pos raw)).0 (rest (drop pos raw)).1 q st

module _ (p : Pbuf) (unchained : p.tot_len ≡ length p.payload)
    (small : length p.payload + 1 < 2 ^ 16)
    (next : ℕ → FramesQueue → Store → Exec (Bool × FramesQueue × Store)) (rest : List ℕ → Parsed)
    (follows : Follows p.payload next rest) (h : Head) (dlc : h.dlc ≡ h.len % 128)
    (here : h.pos ≤ length p.payload) (q : FramesQueue) (st : Store) (slots : Slots st) where
  abbrev pub data_bytes : List ℕ
  data_bytes = drop h.pos p.payload

  abbrev wire_frame : WireFrame
  wire_frame = record {
    can_id = h.can_id;
    len = h.len;
    flags = h.flags;
    body = take h.dlc data_bytes;
  }

  -- The frame goes through `queue_put`, in both readings.
  module _ (w : WireFrame) (pos' : ℕ) (here' : pos' ≤ length p.payload)
      (goes_on : (has_data h.can_id && ltb p.tot_len (h.pos + h.dlc)) ≡ false)
      (fill : (f : Frame)
        → length f.payload ≡ 8
        → length w.body ≤ 8
        → fill_frame p.payload h f ≡ ok (land w f, pos'))
      (overflow : (f : Frame)
        → length f.payload ≡ 8
        → 8 < length w.body
        → fill_frame p.payload h f ≡ fault write_oob) where
    queue_frame-absorb :
        queue_frame p h q st next
        ≡ absorb (w ∷ (rest (drop pos' p.payload)).0) (rest (drop pos' p.payload)).1 q st
    unfolding queue_frame absorb
    queue_frame-absorb = elim (Option-cases (queue_put q).0) [
      | inl full ↦ rw (queue_frame, goes_on, absorb, full)
      | inr (ptr, got) ↦ elim (dec_lt 8 (length w.body)) [
        | yes big ↦ rw (
          queue_frame,
          goes_on,
          absorb,
          got,
          lt→ltb 8 (length w.body) big,
          overflow (read_frame st ptr) (slots ptr.base ptr.index) big,
        )
        | no fits ↦
            let body_fits : ltb 8 (length w.body) ≡ false = ground arith in
            rw
              (
                queue_frame,
                goes_on,
                absorb,
                got,
                body_fits,
                fill (read_frame st ptr) (slots ptr.base ptr.index) (omega arith),
              )
              (follows pos' (queue_put q).1 (write_frame st ptr (land w (read_frame st ptr))) here'
                (write_frame-Slots st ptr _ slots
                  (length-land w (read_frame st ptr) (slots ptr.base ptr.index) (omega arith))))
      ]
    ]

  pub queue_frame-parse :
      queue_frame p h q st next
      ≡ absorb
          (parse_body h.can_id h.len h.flags data_bytes rest).0
          (parse_body h.can_id h.len h.flags data_bytes rest).1
          q
          st
  unfolding queue_frame absorb
  queue_frame-parse = elim (Bool-cases (is_rtr h.can_id)) [
    | inl rtr ↦
        let no_data : has_data h.can_id ≡ false = has_data-is_rtr h.can_id ∙ ap not rtr in
        rw rtr (
          queue_frame-absorb (record wire_frame { body = [] }) h.pos here (rw no_data)
            (λ f s k. fill-rtr p.payload h f s no_data) (λ f s k. absurd (omega arith)))
    | inr not_rtr ↦
        let some_data : has_data h.can_id ≡ true = has_data-is_rtr h.can_id ∙ ap not not_rtr in
        elim (dec_lt (length data_bytes) (h.len % 128)) [
          | yes short_body ↦
              let cut : ltb p.tot_len (h.pos + h.dlc) ≡ true =
                lt→ltb _ _ (omega (arith, length-drop h.pos p.payload)) in
              rw (not_rtr, lt→ltb _ _ short_body, queue_frame, some_data, cut)
          | no enough ↦
              let within : h.pos + h.dlc ≤ length p.payload =
                omega (arith, length-drop h.pos p.payload) in
              let fits : ltb p.tot_len (h.pos + h.dlc) ≡ false = ground arith in
              let no_cut : ltb (length data_bytes) h.dlc ≡ false = ground arith in
              rw (not_rtr, ← dlc, no_cut, drop-drop h.pos h.dlc p.payload)
                (queue_frame-absorb wire_frame (h.pos + h.dlc) within (rw (some_data, fits))
                  (λ f s k.
                    fill-data p.payload h f s some_data within (omega arith)
                      (omega (arith, length-body p.payload h f s some_data within (omega arith))))
                  (λ f s k.
                    fill-overflow p.payload h f s some_data within (omega arith)
                      (omega (arith, length-body p.payload h f s some_data within (omega arith)))))
        ]
  ]
