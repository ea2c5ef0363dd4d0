-- ===== src/Cannelloni/Receive.antt =====
-- `handle_cannelloni_frame` of src/cannelloni.c: a datagram's frames go into the transmit queue.
pub mod Grammar
pub mod Prefix
pub mod Loop
pub mod Refine
pub mod Accept
pub mod RoundTrip
pub mod Deliver
use cannelloni_tms.Prelude.{
  ℕ, zero, suc, ◌+◌, ◌*◌, ◌%◌, ◌^◌, bit_and, bit_or, Option, none, some, Bool, true, false, not,
  ◌&&◌, List, ltb, ◌==◌, if◌then◌else◌,
}
use cannelloni_tms.Prelude.{Exec, ok, ◌>>=◌}
use cannelloni_tms.Cannelloni.Frame.{
  Frame, Store, read_frame, write_frame, not32, canfd_flag, can_rtr_flag,
  cannelloni_frame_base_size, cannelloni_data_packet_base_size, cannelloni_frame_version, cnl_data,
}
use cannelloni_tms.Cannelloni.Queue.{FramesQueue, queue_put}
use cannelloni_tms.Cannelloni.Bytes.{load_byte, load_bytes, store_bytes}
use cannelloni_tms.Cannelloni.Lwip.{Lwip, Pbuf}
use cannelloni_tms.Cannelloni.Handle.{Node}

-- `uint16_t` addition
abbrev pub add16 : ℕ → ℕ → ℕ
add16 a b = (a + b) % 2 ^ 16

-- `(b0 << 24) | (b1 << 16) | (b2 << 8) | b3` as a 32-bit word
abbrev pub word32 : ℕ → ℕ → ℕ → ℕ → ℕ
word32 b0 b1 b2 b3 = bit_or (bit_or (bit_or (b0 * 2 ^ 24 % 2 ^ 32) (b1 * 2 ^ 16)) (b2 * 2 ^ 8)) b3

-- The local variables `can_id`, `len`, `dlc`, `flags` and `pos` of the loop, once all are set.
pub record Head : Type 0 where
  pub can_id : ℕ
  pub len : ℕ
  pub dlc : ℕ
  pub flags : ℕ
  pub pos : ℕ

-- `flags` of a CAN FD frame, with the new `pos`
pub read_flags : List ℕ → ℕ → ℕ → Exec (ℕ × ℕ)
read_flags raw len pos = elim (bit_and len canfd_flag == 0) [
  | true ↦ ok (0, pos)
  | false ↦ do flags ← load_byte raw pos; ok (flags, add16 pos 1)
]

pub read_head : List ℕ → ℕ → Exec Head
read_head raw pos = do
  b0 ← load_byte raw pos
  b1 ← load_byte raw (pos + 1)
  b2 ← load_byte raw (pos + 2)
  b3 ← load_byte raw (pos + 3)
  let pos1 = add16 pos 4
  len ← load_byte raw pos1
  r ← read_flags raw len (add16 pos1 1)
  ok (record {
    can_id = word32 b0 b1 b2 b3;
    len = len;
    dlc = bit_and len (not32 canfd_flag);
    flags = r.0;
    pos = r.1;
  })

-- RTR frames have no data section.
abbrev pub has_data : ℕ → Bool
has_data can_id = bit_and can_id can_rtr_flag == 0

-- What the loop writes through the pointer that `queue_put` gave it, with the new `pos`. The
-- members that are not assigned keep their old values, also the bytes of `data` past `dlc`.
pub fill_frame : List ℕ → Head → Frame → Exec (Frame × ℕ)
fill_frame raw h f =
    let f' : Frame = record f { can_id = h.can_id; len = h.len; flags = h.flags } in
    elim (has_data h.can_id) [
      | true ↦ do
        bytes ← load_bytes raw h.pos h.dlc
        payload ← store_bytes f.payload 0 bytes
        ok (record f' { payload = payload }, add16 h.pos h.dlc)
      | false ↦ ok (f', h.pos)
    ]

-- The second half of the loop's body, with the rest of the loop in `next`. The Boolean of an
-- outcome is the variable `error`.
pub queue_frame :
    Pbuf
    → Head
    → FramesQueue
    → Store
    → (ℕ → FramesQueue → Store → Exec (Bool × FramesQueue × Store))
    → Exec (Bool × FramesQueue × Store)
queue_frame p h q st next = elim (has_data h.can_id && ltb p.tot_len (h.pos + h.dlc)) [
  | true ↦ ok (true, q, st)
  | false ↦ elim (queue_put q).0 [
    | none ↦ ok (true, (queue_put q).1, st)
    | some ptr ↦ fill_frame p.payload h (read_frame st ptr) >>= λ r.
        next r.1 (queue_put q).1 (write_frame st ptr r.0)
  ]
]

-- The loop, by the rounds left of `ntohs(data->count)`.
pub receive_loop : ℕ → Pbuf → ℕ → FramesQueue → Store → Exec (Bool × FramesQueue × Store)
receive_loop zero p pos q st = ok (false, q, st)
receive_loop (suc n) p pos q st = elim (ltb p.tot_len (pos + cannelloni_frame_base_size)) [
  | true ↦ ok (true, q, st)
  | false ↦ read_head p.payload pos >>= λ h. queue_frame p h q st (receive_loop n p)
]

-- The version and the op code, and then the frames. `count` is in network byte order.
pub receive_packet : {N : Type 0} → Pbuf → Node N → Exec (Node N)
receive_packet p s = do
  version ← load_byte p.payload 0
  op_code ← load_byte p.payload 1
  elim (version == cannelloni_frame_version && op_code == cnl_data) [
    | false ↦ ok s
    | true ↦ do
      high ← load_byte p.payload 3
      low ← load_byte p.payload 4
      r ←
          receive_loop (high * 2 ^ 8 + low) p cannelloni_data_packet_base_size s.handle.tx_queue
            s.store
      ok (record s {
        handle = record s.handle {
          udp_rx_count = (s.handle.udp_rx_count + 1) % 2 ^ 32;
          tx_queue = r.1;
        };
        store = r.2;
      })
  ]

module _ (L : Lwip) where
  open L use {Net, pbuf_free}

  -- The sender and the control block are not looked at. A `NULL` buffer is `none`.
  pub handle_cannelloni_frame : Option Pbuf → Node Net → Exec (Node Net)
  handle_cannelloni_frame none s = ok s
  handle_cannelloni_frame (some p) s =
      let packet = receive_packet p s in
      (if ltb cannelloni_data_packet_base_size p.tot_len then packet else ok s) >>= λ s'.
      ok (record s' { net = pbuf_free p s'.net })
