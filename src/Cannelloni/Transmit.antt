-- ===== src/Cannelloni/Transmit.antt =====
-- `transmit_udp_frame` of src/cannelloni.c: the frames of the receive queue go into one datagram.
pub mod Pack
pub mod Datagram
use cannelloni_tms.Prelude.{
  ℕ, zero, suc, ◌+◌, ◌/◌, ◌%◌, ◌^◌, bit_and, Option, none, some, Bool, true, false, List, [], ◌∷◌,
  take, ltb,
}
use cannelloni_tms.Prelude.{Exec, ok, fault, stuck, read_oob, ◌>>=◌}
use cannelloni_tms.Cannelloni.Frame.{
  Frame, FramePtr, Store, read_frame, canfd_len, cannelloni_frame_base_size,
  cannelloni_data_packet_base_size, cannelloni_frame_version, cnl_data,
}
use cannelloni_tms.Cannelloni.Queue.{FramesQueue, queue_take, queue_peek}
use cannelloni_tms.Cannelloni.Bytes.{load_bytes, store_bytes}
use cannelloni_tms.Cannelloni.Lwip.{Lwip, Pbuf}
use cannelloni_tms.Cannelloni.Handle.{Handle, Node}

-- `uint16_t` addition
abbrev pub add16 : ℕ → ℕ → ℕ
add16 a b = (a + b) % 2 ^ 16

-- The variables of the loop: the queue, the bytes of the buffer, `pos`, `frameCount` and `frame`.
pub record Packing : Type 0 where
  pub rx_queue : FramesQueue
  pub buf : List ℕ
  pub pos : ℕ
  pub frame_count : ℕ
  pub frame : Option FramePtr

-- The four bytes of `can_id` as the code writes them.
abbrev pub id_bytes : ℕ → List ℕ
id_bytes id =
    bit_and (id / 2 ^ 24) 0xff
    ∷ bit_and (id / 2 ^ 16) 0xff
    ∷ bit_and (id / 2 ^ 8) 0xff
    ∷ bit_and id 0xff
    ∷ []

-- The body of the loop. `queue_take` gives the frame that was peeked at.
pub pack_frame : Store → Packing → Exec Packing
pack_frame st s =
    let (taken, q) = queue_take s.rx_queue in
    elim taken [
      | none ↦ fault read_oob
      | some p ↦
          let f = read_frame st p in
          do
            b1 ← store_bytes s.buf s.pos (id_bytes f.can_id)
            let pos1 = add16 s.pos 4
            b2 ← store_bytes b1 pos1 (f.len ∷ [])
            let pos2 = add16 pos1 1
            bytes ← load_bytes f.payload 0 (canfd_len f)
            b3 ← store_bytes b2 pos2 bytes
            ok (record {
              rx_queue = q;
              buf = b3;
              pos = add16 pos2 (canfd_len f);
              frame_count = add16 s.frame_count 1;
              frame = queue_peek q;
            })
    ]

-- Each round takes a frame out of the queue, so `count` rounds are enough.
pub pack_loop : ℕ → ℕ → Store → Packing → Exec Packing
pack_loop zero tot_len st s = stuck
pack_loop (suc fuel) tot_len st s = elim s.frame [
  | none ↦ ok s
  | some p ↦ elim (ltb (s.pos + cannelloni_frame_base_size + canfd_len (read_frame st p)) tot_len) [
    | true ↦ pack_frame st s >>= pack_loop fuel tot_len st
    | false ↦ ok s
  ]
]

abbrev pub is_some {ℓ} : {A : Type ℓ} → Option A → Bool
is_some none = false
is_some (some a) = true

-- `struct cannelloni_data_packet`, the count in network byte order
abbrev pub header : ℕ → ℕ → List ℕ
header seq count =
    cannelloni_frame_version ∷ cnl_data ∷ seq % 2 ^ 8 ∷ count / 2 ^ 8 ∷ count % 2 ^ 8 ∷ []

module _ (L : Lwip) where
  open L use {Net, pbuf_alloc, pbuf_free, udp_sendto}

  -- The result tells whether the queue holds more frames.
  pub transmit_udp_frame : Node Net → Exec (Bool × Node Net)
  transmit_udp_frame s = elim (queue_peek s.handle.rx_queue) [
    | none ↦ ok (false, s)
    | some first ↦
        let (alloc, net) = pbuf_alloc 1200 s.net in
        elim alloc [
          | none ↦ ok (false, record s { net = net })
          | some p ↦ do
            r ← pack_loop s.handle.rx_queue.count p.tot_len s.store (record {
              rx_queue = s.handle.rx_queue;
              buf = p.payload;
              pos = cannelloni_data_packet_base_size;
              frame_count = 0;
              frame = some first;
            })
            bytes ← store_bytes r.buf 0 (header s.handle.sequence_number r.frame_count)
            let out : Pbuf = record { tot_len = r.pos; payload = take r.pos bytes }
            let handle : Handle = record s.handle {
              rx_queue = r.rx_queue;
              sequence_number = (s.handle.sequence_number + 1) % 2 ^ 32;
            }
            let config = s.handle.config
            ok (
              is_some r.frame,
              record s {
                handle = handle;
                net =
                    pbuf_free out
                      (udp_sendto s.handle.udp_pcb out config.addr config.remote_port net);
              },
            )
        ]
  ]
