-- ===== src/Cannelloni/Receive/Grammar.antt =====
-- The datagram's body read as a list, without positions, and what becomes of the frames in it.
use cannelloni_tms.Prelude.{
  ℕ, zero, suc, ◌+◌, ◌*◌, ◌/◌, ◌%◌, ◌^◌, Bool, true, false, List, [], ◌∷◌, ◌++◌, length, take, drop,
  ltb, ◌==◌, if◌then◌else◌, none, some,
}
use cannelloni_tms.Prelude.{Exec, ok, fault, read_oob, write_oob}
use cannelloni_tms.Cannelloni.Frame.{Frame, Store, read_frame, write_frame}
use cannelloni_tms.Cannelloni.Queue.{FramesQueue, queue_put}

-- A frame on the wire: its body is as long as its length byte says, or absent for an RTR frame.
pub record WireFrame : Type 0 where
  pub can_id : ℕ
  pub len : ℕ
  pub flags : ℕ
  pub body : List ℕ

-- How the list of frames ends: as announced, with too few bytes, or inside a CAN FD frame whose
-- flags lie past the end.
pub data Ending : Type 0 where
  complete : Ending
  short : Ending
  overrun : Ending

abbrev pub Parsed : Type 0
Parsed = List WireFrame × Ending

abbrev pub is_rtr : ℕ → Bool
is_rtr can_id = can_id / 2 ^ 30 % 2 == 1

abbrev pub cons_frame : WireFrame → Parsed → Parsed
cons_frame w r = (w ∷ r.0, r.1)

-- The data section of a frame with this identifier, length byte and flags; `next` reads on.
abbrev pub parse_body : ℕ → ℕ → ℕ → List ℕ → (List ℕ → Parsed) → Parsed
parse_body can_id len flags bytes next =
    if is_rtr can_id
    then cons_frame (record { can_id = can_id; len = len; flags = flags; body = [] }) (next bytes)
    else if ltb (length bytes) (len % 128)
    then ([], short)
    else cons_frame
        (record { can_id = can_id; len = len; flags = flags; body = take (len % 128) bytes })
        (next (drop (len % 128) bytes))

abbrev pub parse_flags : ℕ → ℕ → List ℕ → (List ℕ → Parsed) → Parsed
parse_flags can_id len [] next =
    if ltb len 128 then parse_body can_id len 0 [] next else ([], overrun)
parse_flags can_id len (b ∷ bytes) next =
    if ltb len 128
    then parse_body can_id len 0 (b ∷ bytes) next
    else parse_body can_id len b bytes next

-- `n` frames at most.
unfoldable pub parse : ℕ → List ℕ → Parsed
parse zero bytes = ([], complete)
parse (suc n) (a ∷ b ∷ c ∷ d ∷ len ∷ bytes) =
    parse_flags (a * 2 ^ 24 + b * 2 ^ 16 + c * 2 ^ 8 + d) len bytes (parse n)
parse (suc n) bytes = ([], short)

-- A frame as it lands in a slot: the slot's data bytes past the body stay.
abbrev pub land : WireFrame → Frame → Frame
land w f = record {
  can_id = w.can_id;
  len = w.len;
  flags = w.flags;
  payload = w.body ++ drop (length w.body) f.payload;
}

abbrev pub finish : Ending → FramesQueue → Store → Exec (Bool × FramesQueue × Store)
finish complete q st = ok (false, q, st)
finish short q st = ok (true, q, st)
finish overrun q st = fault read_oob

-- The frames are queued in order until the queue is full. A body longer than the array is
-- written out of bounds.
unfoldable pub absorb :
    List WireFrame → Ending → FramesQueue → Store → Exec (Bool × FramesQueue × Store)
absorb [] end q st = finish end q st
absorb (w ∷ ws) end q st = elim (queue_put q).0 [
  | none ↦ ok (true, (queue_put q).1, st)
  | some p ↦ elim (ltb 8 (length w.body)) [
    | true ↦ fault write_oob
    | false ↦ absorb ws end (queue_put q).1 (write_frame st p (land w (read_frame st p)))
  ]
]
