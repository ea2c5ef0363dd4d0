-- ===== src/Bridge/Written.antt =====
-- What the bridge sends to the gateway.
use cannelloni_tms.Prelude.{
  ℕ, ◌+◌, ◌^◌, ◌≤◌, ◌<◌, ◌≡◌, refl, ap, sym, ◌∙◌, arith, List, [], ◌∷◌, ◌++◌, map, length, take,
  length-take, append_assoc, append-nil, All, dec_lt,
}
use cannelloni_tms.Prelude.{ok, fault, write_oob}
use cannelloni_tms.Cannelloni.Frame.{Frame, canfd_len-mod, IsByte}
use cannelloni_tms.Cannelloni.Bytes.{
  load_bytes-ok, store_bytes-ok, store_bytes-fault, splice, length-splice, take-splice,
}
use cannelloni_tms.Cannelloni.Wire.{be32, encode, encode_all, datagram}
use cannelloni_tms.Bridge.{CanFrame, Locals, write_frames, written}

-- A frame of the kernel: each member holds a value of its type, and the length is at most 8.
pub record IsCan (f : CanFrame) : Type 0 where
  pub can_id_u32 : f.can_id < 2 ^ 32
  pub short : f.can_dlc ≤ 8
  pub array : length f.payload ≡ 8
  pub bytes : All IsByte f.payload

-- The same frame in the firmware.
abbrev pub gateway_frame : CanFrame → Frame
gateway_frame f = record { can_id = f.can_id; len = f.can_dlc; flags = 0; payload = f.payload }

-- The bytes that frames take.
abbrev pub size : List CanFrame → ℕ
size [] = 0
size (f ∷ fs) = 5 + f.can_dlc + size fs

encode-can :
    (f : CanFrame)
    → IsCan f
    → encode (gateway_frame f) ≡ be32 f.can_id ++ (f.can_dlc ∷ take f.can_dlc f.payload)
encode-can f c =
    ap (λ n. be32 f.can_id ++ (f.can_dlc ∷ take n f.payload))
      (canfd_len-mod (gateway_frame f) (omega (arith, c.short)) ∙ omega (arith, c.short))

-- One frame, in an array with room for it.
module _ (f : CanFrame) (c : IsCan f) (tx : List ℕ) (pos : ℕ) where
  abbrev tx1 : List ℕ
  tx1 = splice tx pos (be32 f.can_id)

  abbrev tx2 : List ℕ
  tx2 = splice tx1 (pos + 4) (f.can_dlc ∷ [])

  abbrev tx3 : List ℕ
  tx3 = splice tx2 (pos + 5) (take f.can_dlc f.payload)

  length-data : length (take f.can_dlc f.payload) ≡ f.can_dlc
  length-data = omega (arith, length-take f.can_dlc f.payload, c.short, c.array)

  length-tx1 : pos + 4 ≤ length tx → length tx1 ≡ length tx
  length-tx1 h = length-splice tx pos (be32 f.can_id) h

  length-tx2 : pos + 5 ≤ length tx → length tx2 ≡ length tx
  length-tx2 h =
      let e = length-tx1 (omega arith) in
      length-splice tx1 (pos + 4) (f.can_dlc ∷ []) (omega arith) ∙ e

  length-tx3 : pos + 5 + f.can_dlc ≤ length tx → length tx3 ≡ length tx
  length-tx3 h =
      let e = length-tx2 (omega arith) in
      length-splice tx2 (pos + 5) (take f.can_dlc f.payload) (omega (arith, length-data)) ∙ e

  take-tx3 :
      pos + 5 + f.can_dlc ≤ length tx
      → take (pos + 5 + f.can_dlc) tx3 ≡ take pos tx ++ encode (gateway_frame f)
  take-tx3 h =
      let e1 = length-tx1 (omega arith) in
      let e2 = length-tx2 (omega arith) in
      take-splice tx2 (pos + 5) (pos + 5 + f.can_dlc) (take f.can_dlc f.payload)
        (omega (arith, length-data)) (omega arith)
      ∙ ap (λ x. x ++ take f.can_dlc f.payload)
          (take-splice tx1 (pos + 4) (pos + 5) (f.can_dlc ∷ []) (omega arith) (omega arith)
            ∙ ap (λ x. x ++ (f.can_dlc ∷ []))
                (take-splice tx pos (pos + 4) (be32 f.can_id) refl (omega arith)))
      ∙ append_assoc (take pos tx ++ be32 f.can_id) (f.can_dlc ∷ []) (take f.can_dlc f.payload)
      ∙ append_assoc (take pos tx) (be32 f.can_id) (f.can_dlc ∷ take f.can_dlc f.payload)
      ∙ ap (λ x. take pos tx ++ x) (sym (encode-can f c))

  one_written :
      (fs : List CanFrame)
      → pos + 5 + f.can_dlc ≤ length tx
      → write_frames (f ∷ fs) tx pos ≡ write_frames fs tx3 (pos + 5 + f.can_dlc)
  unfolding write_frames
  one_written fs h =
      let e1 = length-tx1 (omega arith) in
      let e2 = length-tx2 (omega arith) in
      rw
        (
          write_frames,
          store_bytes-ok tx pos (be32 f.can_id) (omega arith),
          store_bytes-ok tx1 (pos + 4) (f.can_dlc ∷ []) (omega arith),
          load_bytes-ok f.payload 0 f.can_dlc (omega (arith, c.short, c.array)),
          store_bytes-ok tx2 (pos + 5) (take f.can_dlc f.payload) (omega (arith, length-data)),
        )
        refl

  too_long :
      (fs : List CanFrame)
      → length tx < pos + 5 + f.can_dlc
      → write_frames (f ∷ fs) tx pos ≡ fault write_oob
  unfolding write_frames
  too_long fs h = elim (dec_lt (length tx) (pos + 4)) [
    | yes a ↦ rw (write_frames, store_bytes-fault tx pos (be32 f.can_id) a) refl
    | no a ↦
        let e1 = length-tx1 (omega arith) in
        let s1 = store_bytes-ok tx pos (be32 f.can_id) (omega arith) in
        elim (dec_lt (length tx) (pos + 5)) [
          | yes b ↦
              rw (write_frames, s1, store_bytes-fault tx1 (pos + 4) (f.can_dlc ∷ []) (omega arith))
                refl
          | no b ↦
              let e2 = length-tx2 (omega arith) in
              rw
                (
                  write_frames,
                  s1,
                  store_bytes-ok tx1 (pos + 4) (f.can_dlc ∷ []) (omega arith),
                  load_bytes-ok f.payload 0 f.can_dlc (omega (arith, c.short, c.array)),
                  store_bytes-fault tx2 (pos + 5) (take f.can_dlc f.payload)
                      (omega (arith, length-data)),
                )
                refl
        ]
  ]

-- The array after all frames, with room for them.
record AllWritten (fs : List CanFrame) (tx : List ℕ) (pos : ℕ) (tx' : List ℕ) : Type 0 where
  run : write_frames fs tx pos ≡ ok (tx', pos + size fs)
  kept : length tx' ≡ length tx
  bytes : take (pos + size fs) tx' ≡ take pos tx ++ encode_all (map gateway_frame fs)

write_frames-ok :
    (fs : List CanFrame) (tx : List ℕ) (pos : ℕ)
    → All IsCan fs
    → pos + size fs ≤ length tx
    → (tx' : List ℕ) × AllWritten fs tx pos tx'
unfolding write_frames
write_frames-ok [] tx pos c h =
    let e : pos + 0 ≡ pos = omega arith in
    (
      tx,
      record {
        run = rw (write_frames, e) refl;
        kept = refl;
        bytes = ap (λ n. take n tx) e ∙ sym (append-nil (take pos tx));
      },
    )
write_frames-ok (f ∷ fs) tx pos (c, cs) h =
    let fits : pos + 5 + f.can_dlc ≤ length tx = omega arith in
    let e = length-tx3 f c tx pos fits in
    let next = pos + 5 + f.can_dlc in
    let (tx', a) = write_frames-ok fs (tx3 f c tx pos) next cs (omega arith) in
    let same : next + size fs ≡ pos + (5 + f.can_dlc + size fs) = omega arith in
    (
      tx',
      record {
        run = one_written f c tx pos fs fits ∙ a.run ∙ ap (λ n. ok (tx', n)) same;
        kept = a.kept ∙ e;
        bytes =
            ap (λ n. take n tx') (sym same)
            ∙ a.bytes
            ∙ ap (λ x. x ++ encode_all (map gateway_frame fs)) (take-tx3 f c tx pos fits)
            ∙ append_assoc (take pos tx) (encode (gateway_frame f))
                (encode_all (map gateway_frame fs));
      },
    )

write_frames-fault :
    (fs : List CanFrame) (tx : List ℕ) (pos : ℕ)
    → All IsCan fs
    → pos ≤ length tx
    → length tx < pos + size fs
    → write_frames fs tx pos ≡ fault write_oob
write_frames-fault [] tx pos c h k = absurd (omega arith)
write_frames-fault (f ∷ fs) tx pos (c, cs) h k = elim (dec_lt (length tx) (pos + 5 + f.can_dlc)) [
  | yes a ↦ too_long f c tx pos fs a
  | no a ↦
      let e = length-tx3 f c tx pos (omega arith) in
      one_written f c tx pos fs (omega arith)
      ∙ write_frames-fault fs (tx3 f c tx pos) (pos + 5 + f.can_dlc) cs (omega arith) (omega arith)
]

-- For frames of at most 8 bytes and an array of 128 bytes: if the frames fit, the bridge sends a
-- header for one frame and then the frames as the gateway encodes them; if they do not, it writes
-- past the array.
pub written-bounded :
    (l : Locals) (fs : List CanFrame)
    → All IsCan fs
    → length l.tx ≡ 128
    → (size fs ≤ 123 → written l fs ≡ ok (2 ∷ 0 ∷ 0 ∷ 0 ∷ 1 ∷ encode_all (map gateway_frame fs)))
      × (123 < size fs → written l fs ≡ fault write_oob)
unfolding written
written-bounded l fs c room =
    let head = 2 ∷ 0 ∷ 0 ∷ 0 ∷ 1 ∷ [] in
    let tx = splice l.tx 0 head in
    let s = store_bytes-ok l.tx 0 head (omega arith) in
    let e = length-splice l.tx 0 head (omega arith) in
    let front : take 5 tx ≡ head = take-splice l.tx 0 5 head refl (omega arith) in
    (
      (λ fits.
          let (tx', a) = write_frames-ok fs tx 5 c (omega arith) in
          let k = a.kept in
          rw (written, s, a.run, load_bytes-ok tx' 0 (5 + size fs) (omega arith))
            (ap ok (a.bytes ∙ ap (λ x. x ++ encode_all (map gateway_frame fs)) front))),
      (λ over. rw (written, s, write_frames-fault fs tx 5 c (omega arith) (omega arith)) refl),
    )

-- A single frame of at most 8 bytes, which is what the bridge reads from a CAN interface, is sent as
-- exactly the datagram with sequence number 0 that the gateway's format prescribes.
pub written-datagram :
    (l : Locals) (f : CanFrame)
    → IsCan f
    → length l.tx ≡ 128
    → written l (f ∷ []) ≡ ok (datagram 0 (gateway_frame f ∷ []))
written-datagram l f c room = (written-bounded l (f ∷ []) (c, tt) room).0 (omega (arith, c.short))
