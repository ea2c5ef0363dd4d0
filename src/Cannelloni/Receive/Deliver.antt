-- ===== src/Cannelloni/Receive/Deliver.antt =====
-- `handle_cannelloni_frame` on whole datagrams: those that `transmit_udp_frame` builds, and those
-- that make the code read or write out of bounds.
use cannelloni_tms.Prelude.{
  ℕ, suc, ◌+◌, ◌*◌, ◌/◌, ◌%◌, ◌^◌, ◌≤◌, ◌<◌, ◌≡◌, refl, ap, ◌∙◌, arith, List, [], ◌∷◌, ◌++◌, map,
  length, length-append, All, Bool, false, lt→ltb, some,
}
use cannelloni_tms.Prelude.{Fault, ok, fault, write_oob}
use cannelloni_tms.Cannelloni.Frame.{Frame, IsByte, Store}
use cannelloni_tms.Cannelloni.Bytes.{load_byte-ok}
use cannelloni_tms.Cannelloni.Queue.{FramesQueue}
use cannelloni_tms.Cannelloni.Queue.Inv.{IsValid, occupancy}
use cannelloni_tms.Cannelloni.Lwip.{Lwip, Pbuf}
use cannelloni_tms.Cannelloni.Handle.{Node}
use cannelloni_tms.Cannelloni.Wire.{be16, be32, datagram, encode, encode_all, length-encode}
use cannelloni_tms.Cannelloni.Receive.{receive_loop, receive_packet, handle_cannelloni_frame}
use cannelloni_tms.Cannelloni.Receive.Grammar.{is_rtr, WireFrame, absorb, complete}
use cannelloni_tms.Cannelloni.Receive.Loop.{Slots}
use cannelloni_tms.Cannelloni.Receive.Refine.{receive_loop-absorb}
use cannelloni_tms.Cannelloni.Receive.Accept.{Accepted, absorb-Accepted, absorb-overlong}
use cannelloni_tms.Cannelloni.Receive.RoundTrip.{
  IsClassic, parse-data, wire_of, wires-IsWhole, parse-encode_all, encode_all-IsByte,
}

length-encode_all : (fs : List Frame) → All IsClassic fs → length fs * 5 ≤ length (encode_all fs)
length-encode_all [] c = omega arith
length-encode_all (f ∷ fs) c = omega (
  arith,
  length-append (encode f) (encode_all fs),
  length-encode f c.0.sendable,
  length-encode_all fs c.1,
)

-- An unchained buffer with these bytes.
abbrev pub pbuf_of : List ℕ → Pbuf
pbuf_of bytes = record { tot_len = length bytes; payload = bytes }

-- The transmit queue took the frames that had room, the datagram is counted, and nothing else
-- of the node changed.
pub record Delivered {N : Type 0} (s : Node N) (ws : List WireFrame) (s' : Node N) : Type 0 where
  pub accepted : Accepted s.handle.tx_queue s.store ws s'.handle.tx_queue s'.store
  pub counted : s'.handle.udp_rx_count ≡ (s.handle.udp_rx_count + 1) % 2 ^ 32
  pub rx_kept : s'.handle.rx_queue ≡ s.handle.rx_queue
  pub config_kept : s'.handle.config ≡ s.handle.config
  pub sequence_kept : s'.handle.sequence_number ≡ s.handle.sequence_number

-- The state after the frames of a datagram went through the loop.
abbrev pub queued : {N : Type 0} → Node N → FramesQueue → Store → Node N
queued s q st = record s {
  handle = record s.handle { udp_rx_count = (s.handle.udp_rx_count + 1) % 2 ^ 32; tx_queue = q };
  store = st;
}

-- A packet with the right version and op code goes through the loop, with the count it states.
receive_packet-loop :
    {N : Type 0} (seq high low : ℕ) (bytes : List ℕ) (s : Node N) {e : Bool} {q : FramesQueue}
    {st : Store}
    → let p = pbuf_of (2 ∷ 0 ∷ seq ∷ high ∷ low ∷ bytes) in
      receive_loop (high * 256 + low) p 5 s.handle.tx_queue s.store ≡ ok (e, q, st)
      → receive_packet p s ≡ ok (queued s q st)
unfolding receive_packet
receive_packet-loop seq high low bytes s run =
    let raw = 2 ∷ 0 ∷ seq ∷ high ∷ low ∷ bytes in
    rw (
      receive_packet,
      load_byte-ok raw 0 2 refl,
      load_byte-ok raw 1 0 refl,
      load_byte-ok raw 3 high refl,
      load_byte-ok raw 4 low refl,
      run,
    )

receive_packet-fault :
    {N : Type 0} (seq high low : ℕ) (bytes : List ℕ) (s : Node N) {e : Fault}
    → let p = pbuf_of (2 ∷ 0 ∷ seq ∷ high ∷ low ∷ bytes) in
      receive_loop (high * 256 + low) p 5 s.handle.tx_queue s.store ≡ fault e
      → receive_packet p s ≡ fault e
unfolding receive_packet
receive_packet-fault seq high low bytes s run =
    let raw = 2 ∷ 0 ∷ seq ∷ high ∷ low ∷ bytes in
    rw (
      receive_packet,
      load_byte-ok raw 0 2 refl,
      load_byte-ok raw 1 0 refl,
      load_byte-ok raw 3 high refl,
      load_byte-ok raw 4 low refl,
      run,
    )

module _ (L : Lwip) where
  open L use {Net, pbuf_free}

  handle-packet :
      (p : Pbuf) (s s' : Node Net)
      → 5 < p.tot_len
      → receive_packet p s ≡ ok s'
      → handle_cannelloni_frame L (some p) s ≡ ok (record s' { net = pbuf_free p s'.net })
  unfolding handle_cannelloni_frame
  handle-packet p s s' h run = rw (handle_cannelloni_frame, lt→ltb 5 p.tot_len h, run)

  handle-fault :
      (p : Pbuf) (s : Node Net) (e : Fault)
      → 5 < p.tot_len
      → receive_packet p s ≡ fault e
      → handle_cannelloni_frame L (some p) s ≡ fault e
  unfolding handle_cannelloni_frame
  handle-fault p s e h run = rw (handle_cannelloni_frame, lt→ltb 5 p.tot_len h, run)

  -- The frames of such a datagram are queued one by one, and the buffer is freed.
  pub handle_cannelloni_frame-absorb :
      (seq : ℕ) (f : Frame) (fs : List Frame) (s : Node Net)
      → All IsClassic (f ∷ fs)
      → length (encode_all (f ∷ fs)) + 6 < 2 ^ 16
      → IsValid s.handle.tx_queue
      → Slots s.store
      → (lost : Bool) × (q : FramesQueue) × (st : Store) × (absorb
            (map wire_of (f ∷ fs))
            complete
            s.handle.tx_queue
            s.store
          ≡ ok (lost, q, st))
        × Accepted s.handle.tx_queue s.store (map wire_of (f ∷ fs)) q st
        × (handle_cannelloni_frame L (some (pbuf_of (datagram seq (f ∷ fs)))) s
            ≡ ok (record (queued s q st) {
              net = pbuf_free (pbuf_of (datagram seq (f ∷ fs))) s.net;
            }))
  handle_cannelloni_frame-absorb seq f fs s c small v slots =
      let all = f ∷ fs in
      let p = pbuf_of (datagram seq all) in
      let few = length-encode_all all c in
      let (q, st, run, acc) =
        absorb-Accepted (map wire_of all) s.store v slots (wires-IsWhole all c) in
      let count : length all / 256 % 256 * 256 + length all % 256 ≡ length all = omega arith in
      let bytes_ok : All IsByte p.payload = (
        omega arith,
        (omega arith, (omega arith, (omega arith, (omega arith, encode_all-IsByte all c)))),
      ) in
      let loop =
        receive_loop-absorb p refl (omega arith) bytes_ok (length all) 5 s.handle.tx_queue s.store
          (omega arith) slots
        ∙ ap (λ r. absorb r.0 r.1 s.handle.tx_queue s.store) (parse-encode_all all c)
        ∙ run in
      let packet =
        receive_packet-loop (seq % 256) _ _ (encode_all all) s
          (ap (λ n. receive_loop n p 5 s.handle.tx_queue s.store) count ∙ loop) in
      (_, q, st, run, acc, handle-packet p s (queued s q st) (omega arith) packet)

  -- A datagram of at least one classic data frame of at most eight bytes, shorter than 2^16 bytes,
  -- is read without a fault on a node with a valid transmit queue and slots of eight data bytes:
  -- its frames come last in the transmit queue, in order, as far as the queue has room, the
  -- datagram is counted, the receive queue, the configuration and the sequence number are kept,
  -- and the buffer is freed.
  pub handle_cannelloni_frame-Delivered :
      (seq : ℕ) (f : Frame) (fs : List Frame) (s : Node Net)
      → All IsClassic (f ∷ fs)
      → length (encode_all (f ∷ fs)) + 6 < 2 ^ 16
      → IsValid s.handle.tx_queue
      → Slots s.store
      → (s' : Node Net) × (handle_cannelloni_frame L (some (pbuf_of (datagram seq (f ∷ fs)))) s
          ≡ ok s')
        × Delivered s (map wire_of (f ∷ fs)) s'
        × (s'.net ≡ pbuf_free (pbuf_of (datagram seq (f ∷ fs))) s.net)
  handle_cannelloni_frame-Delivered seq f fs s c small v slots =
      let (lost, q, st, run, acc, handled) =
        handle_cannelloni_frame-absorb seq f fs s c small v slots in
      (
        record (queued s q st) { net = pbuf_free (pbuf_of (datagram seq (f ∷ fs))) s.net },
        handled,
        record {
          accepted = acc;
          counted = refl;
          rx_kept = refl;
          config_kept = refl;
          sequence_kept = refl;
        },
        refl,
      )

  -- A datagram whose first frame is a classic data frame that announces 9 to 127 bytes, and brings
  -- them, makes `memcpy` write past the eight bytes of the slot's array, if the transmit queue is
  -- valid and has room and the datagram is shorter than 2^16 - 1 bytes.
  pub handle_cannelloni_frame_overlong :
      (seq n can_id len : ℕ) (body bytes : List ℕ) (s : Node Net)
      → suc n < 2 ^ 16
      → can_id < 2 ^ 32
      → is_rtr can_id ≡ false
      → 8 < len
      → len < 128
      → length body ≡ len
      → All IsByte (body ++ bytes)
      → length (body ++ bytes) + 11 < 2 ^ 16
      → IsValid s.handle.tx_queue
      → Slots s.store
      → occupancy s.handle.tx_queue + 1 < s.handle.tx_queue.count
      → handle_cannelloni_frame L
          (some (
            pbuf_of (2 ∷ 0 ∷ seq % 256 ∷ be16 (suc n) ++ (be32 can_id ++ (len ∷ (body ++ bytes))))))
          s
        ≡ fault write_oob
  handle_cannelloni_frame_overlong seq n can_id len body bytes s hn u32 no_rtr big no_fd size
        ok_bytes small v slots room =
      let rest = be32 can_id ++ (len ∷ (body ++ bytes)) in
      let p = pbuf_of (2 ∷ 0 ∷ seq % 256 ∷ be16 (suc n) ++ rest) in
      let count : suc n / 256 % 256 * 256 + suc n % 256 ≡ suc n = omega arith in
      let bytes_ok : All IsByte p.payload = (
        omega arith,
        (
          omega arith,
          (
            omega arith,
            (
              omega arith,
              (
                omega arith,
                (omega arith, (omega arith, (omega arith, (omega arith, (omega arith, ok_bytes))))),
              ),
            ),
          ),
        ),
      ) in
      let loop : receive_loop (suc n) p 5 s.handle.tx_queue s.store ≡ fault write_oob =
        receive_loop-absorb p refl (omega arith) bytes_ok (suc n) 5 s.handle.tx_queue s.store
          (omega arith) slots
        ∙ ap (λ r. absorb r.0 r.1 s.handle.tx_queue s.store)
            (parse-data n can_id len body bytes u32 no_rtr no_fd size)
        ∙ absorb-overlong _ _ _ s.store v room (omega arith) in
      handle-fault p s write_oob (omega arith) (
        receive_packet-fault (seq % 256) _ _ rest s
          (ap (λ k. receive_loop k p 5 s.handle.tx_queue s.store) count ∙ loop))
