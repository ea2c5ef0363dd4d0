-- ===== src/Cannelloni/Transmit/Datagram.antt =====
-- `transmit_udp_frame`: what goes out, and what is left.
use cannelloni_tms.Prelude.{
  ℕ, ◌+◌, ◌*◌, ◌/◌, ◌%◌, ◌^◌, ◌≤◌, ◌<◌, ◌≡◌, refl, ap, ap₂, sym, ◌∙◌, arith, List, [], ◌∷◌, ◌++◌,
  length, take, length-take, length-append, All, none, some, Option, Option-cases, Bool, true,
  false, ◌⊎◌, inl, inr, ltb→lt, ltb, Bool-cases,
}
use cannelloni_tms.Prelude.{ok}
use cannelloni_tms.Cannelloni.Frame.{Frame, FramePtr, Store, canfd_len}
use cannelloni_tms.Cannelloni.Queue.{FramesQueue, queue_peek}
use cannelloni_tms.Cannelloni.Queue.Inv.{IsValid}
use cannelloni_tms.Cannelloni.Queue.Fifo.{
  contents, length-contents, occupancy-lt-count, queue_take_fifo,
}
use cannelloni_tms.Cannelloni.Bytes.{store_bytes-ok, splice, take-splice_front}
use cannelloni_tms.Cannelloni.Lwip.{Lwip, Pbuf}
use cannelloni_tms.Cannelloni.Handle.{Config, Node}
use cannelloni_tms.Cannelloni.Wire.{
  be16, datagram, encode, encode_all, packed, unpacked, IsSendable, length-encode,
}
use cannelloni_tms.Cannelloni.Transmit.{Packing, header, is_some, transmit_udp_frame, pack_loop}
use cannelloni_tms.Cannelloni.Transmit.Pack.{Packed, Ready, pack_loop-Packed}

-- Packed frames take five bytes each at least, and end at the room given at most.
pub packed-room :
    (room pos : ℕ) (fs : List Frame)
    → All IsSendable fs
    → pos ≤ room
    → (length (packed room pos fs) * 5 + pos ≤ room)
      × (pos + length (encode_all (packed room pos fs)) ≤ room)
packed-room room pos [] s h = omega arith
packed-room room pos (f ∷ fs) s h = elim (Bool-cases (ltb (pos + 5 + canfd_len f) room)) [
  | inr no_room ↦ rw no_room (omega arith)
  | inl has_room ↦
      let fits : pos + 5 + canfd_len f < room = ltb→lt _ _ has_room in
      rw has_room (
        omega (
          arith,
          packed-room room (pos + 5 + canfd_len f) fs s.1 (omega arith),
          length-encode f s.0,
          length-append (encode f) (encode_all (packed room (pos + 5 + canfd_len f) fs)),
        ))
]

-- Whether frames are left.
abbrev pub has_more : List Frame → Bool
has_more [] = false
has_more (f ∷ fs) = true

header-eq : (seq n : ℕ) → n < 2 ^ 16 → header seq n ≡ 2 ∷ 0 ∷ seq % 256 ∷ be16 n
header-eq seq n h =
    let high : n / 256 ≡ n / 256 % 256 = omega arith in
    ap (λ a. 2 ∷ 0 ∷ seq % 256 ∷ a ∷ n % 256 ∷ []) high

peek-has_more :
    {q : FramesQueue} (st : Store) → IsValid q → is_some (queue_peek q) ≡ has_more (contents st q)
peek-has_more st v = elim (queue_take_fifo st v) [
  | inl (e, t, pk) ↦ rw (e, pk)
  | inr (p, q', e, t, pk) ↦ rw (e, pk)
]

module _ (L : Lwip) where
  open L use {
    Net, pbuf_alloc, pbuf_free, udp_sendto, handed, live, alloc_size, handed-alloc, live-alloc,
    handed-free, live-free, handed-sendto, live-sendto,
  }

  -- The stack after a datagram with these frames: a buffer was allocated, sent and freed.
  abbrev pub sent_net : Option ℕ → Config → ℕ → List Frame → Net → Net
  sent_net pcb c seq group n =
      let out : Pbuf = record {
        tot_len = length (datagram seq group);
        payload = datagram seq group;
      } in
      pbuf_free out (udp_sendto pcb out c.addr c.remote_port (pbuf_alloc 1200 n).1)

  -- One datagram went out, with the frames that fit, in order; the others stay queued.
  pub record Sent (s : Node Net) (fs : List Frame) (more : Bool) (s' : Node Net) : Type 0 where
    pub out :
        handed s'.net
        ≡ handed s.net
          ++ (record {
            addr = s.handle.config.addr;
            port = s.handle.config.remote_port;
            payload = datagram s.handle.sequence_number (packed 1200 5 fs);
          }
              ∷ [])
    pub left : contents s'.store s'.handle.rx_queue ≡ unpacked 1200 5 fs
    pub more_left : more ≡ has_more (unpacked 1200 5 fs)
    pub valid : IsValid s'.handle.rx_queue
    pub sequence : s'.handle.sequence_number ≡ (s.handle.sequence_number + 1) % 2 ^ 32
    pub no_leak : live s'.net ≡ live s.net
    pub tx_kept : s'.handle.tx_queue ≡ s.handle.tx_queue
    pub config_kept : s'.handle.config ≡ s.handle.config
    pub store_kept : s'.store ≡ s.store
    pub pcb_kept : s'.handle.udp_pcb ≡ s.handle.udp_pcb
    pub net :
        s'.net
        ≡ sent_net s.handle.udp_pcb s.handle.config s.handle.sequence_number
            (packed 1200 5 fs)
            s.net

  module _ (s : Node Net) (valid : IsValid s.handle.rx_queue)
      (sendable : All IsSendable (contents s.store s.handle.rx_queue)) where
    fs : List Frame
    fs = contents s.store s.handle.rx_queue

    -- The loop of a call that got the buffer `p`.
    start : Pbuf → Packing
    start p = record {
      rx_queue = s.handle.rx_queue;
      buf = p.payload;
      pos = 5;
      frame_count = 0;
      frame = queue_peek s.handle.rx_queue;
    }

    -- The state that such a call leaves.
    final : Packing → Net → Node Net
    final r net =
        let out : Pbuf = record {
          tot_len = r.pos;
          payload = take r.pos (splice r.buf 0 (header s.handle.sequence_number r.frame_count));
        } in
        record s {
          handle = record s.handle {
            rx_queue = r.rx_queue;
            sequence_number = (s.handle.sequence_number + 1) % 2 ^ 32;
          };
          net = pbuf_free out (
              udp_sendto s.handle.udp_pcb out s.handle.config.addr s.handle.config.remote_port net);
        }

    payload-eq :
        (p : Pbuf) (r : Packing)
        → length p.payload ≡ 1200
        → Packed 1200 s.store (start p) fs s.handle.rx_queue.count r
        → take r.pos (splice r.buf 0 (header s.handle.sequence_number r.frame_count))
          ≡ datagram s.handle.sequence_number (packed 1200 5 fs)
    unfolding fs start
    payload-eq p r size k =
        let (few, within) = packed-room 1200 5 fs sendable (omega arith) in
        take-splice_front r.buf (header s.handle.sequence_number r.frame_count) (take 5 p.payload)
          (encode_all (packed 1200 5 fs)) r.pos (omega (arith, length-take 5 p.payload)) k.bytes
        ∙ ap (λ h. h ++ encode_all (packed 1200 5 fs))
            (ap (header s.handle.sequence_number) (omega (arith, k.count))
              ∙ header-eq s.handle.sequence_number (length (packed 1200 5 fs)) (omega arith))

    -- The buffer that goes out is the datagram.
    out-eq :
        (p : Pbuf) (r : Packing)
        → length p.payload ≡ 1200
        → Packed 1200 s.store (start p) fs s.handle.rx_queue.count r
        → ◌≡◌ {A = Pbuf}
            (record {
              tot_len = r.pos;
              payload = take r.pos (splice r.buf 0 (header s.handle.sequence_number r.frame_count));
            })
            (record {
              tot_len = length (datagram s.handle.sequence_number (packed 1200 5 fs));
              payload = datagram s.handle.sequence_number (packed 1200 5 fs);
            })
    unfolding fs start
    out-eq p r size k =
        ap₂ (λ a b. record { tot_len = a; payload = b }) (omega (arith, k.pos))
          (payload-eq p r size k)

    final_net : Pbuf → Net
    final_net out = pbuf_free out (
        udp_sendto s.handle.udp_pcb out s.handle.config.addr s.handle.config.remote_port
          (pbuf_alloc 1200 s.net).1)

    final-Sent :
        (p : Pbuf) (r : Packing)
        → (pbuf_alloc 1200 s.net).0 ≡ some p
        → Packed 1200 s.store (start p) fs s.handle.rx_queue.count r
        → Sent s fs (is_some r.frame) (final r (pbuf_alloc 1200 s.net).1)
    unfolding fs start final final_net
    final-Sent p r alloc k = record {
      out =
          handed-free _ _
          ∙ handed-sendto _ _ _ _ _
          ∙ ap₂
              (λ a b.
                a
                ++ (record {
                  addr = s.handle.config.addr;
                  port = s.handle.config.remote_port;
                  payload = b;
                }
                    ∷ []))
              (handed-alloc 1200 s.net) (payload-eq p r (alloc_size 1200 s.net p alloc).1 k);
      left = k.left;
      more_left = ap is_some k.peek ∙ peek-has_more s.store k.valid ∙ ap has_more k.left;
      valid = k.valid;
      sequence = refl;
      no_leak = live-free _ _ _ (live-sendto _ _ _ _ _ ∙ live-alloc 1200 s.net p alloc);
      tx_kept = refl;
      config_kept = refl;
      store_kept = refl;
      pcb_kept = refl;
      net = ap final_net (out-eq p r (alloc_size 1200 s.net p alloc).1 k);
    }

    start-Ready : (p : Pbuf) → length p.payload ≡ 1200 → Ready 1200 s.store (start p) fs
    unfolding fs start
    start-Ready p e = record {
      valid = valid;
      queued = refl;
      peek = refl;
      sendable = sendable;
      within = omega arith;
      size = e;
      small = omega arith;
      counted = omega arith;
    }

    run-final :
        (first : FramePtr) (p : Pbuf) (r : Packing)
        → queue_peek s.handle.rx_queue ≡ some first
        → (pbuf_alloc 1200 s.net).0 ≡ some p
        → p.tot_len ≡ 1200
        → pack_loop s.handle.rx_queue.count 1200 s.store (start p) ≡ ok r
        → length r.buf ≡ 1200
        → transmit_udp_frame L s ≡ ok (is_some r.frame, final r (pbuf_alloc 1200 s.net).1)
    unfolding transmit_udp_frame start final
    run-final first p r pk alloc tot run size =
        let loop : pack_loop s.handle.rx_queue.count 1200 s.store
              (record (start p) { frame = some first })
            ≡ ok r =
          ap (λ o. pack_loop s.handle.rx_queue.count 1200 s.store (record (start p) { frame = o }))
            (sym pk)
          ∙ run in
        let stored =
          store_bytes-ok r.buf 0 (header s.handle.sequence_number r.frame_count) (omega arith) in
        rw (pk, transmit_udp_frame, alloc, tot, loop, stored)

    -- With a valid receive queue of frames that fit their arrays: a call on an empty queue does
    -- nothing, not even to the stack; one on a queue with frames that gets no buffer changes the
    -- stack alone; one on a queue with frames that gets a buffer sends one datagram with the frames
    -- that fit, in order, keeps the others queued and tells whether there are any, counts the
    -- sequence number up and frees its buffer.
    pub transmit_udp_frame_cases :
        ((contents s.store s.handle.rx_queue ≡ []) × (transmit_udp_frame L s ≡ ok (false, s)))
        ⊎ ((has_more (contents s.store s.handle.rx_queue) ≡ true)
            × ((((pbuf_alloc 1200 s.net).0 ≡ none)
                  × (transmit_udp_frame L s
                      ≡ ok (false, record s { net = (pbuf_alloc 1200 s.net).1 })))
                ⊎ ((p : Pbuf) × (more : Bool) × (s' : Node Net) × ((pbuf_alloc 1200 s.net).0
                      ≡ some p)
                    × (transmit_udp_frame L s ≡ ok (more, s'))
                    × Sent s (contents s.store s.handle.rx_queue) more s')))
    unfolding transmit_udp_frame fs start final
    transmit_udp_frame_cases = elim (queue_take_fifo s.store valid) [
      | inl (e, t, pk) ↦ inl (e, rw (pk, transmit_udp_frame))
      | inr (first, q, e, t, pk) ↦
          let waiting : has_more (contents s.store s.handle.rx_queue) ≡ true = rw e refl in
          elim (Option-cases (pbuf_alloc 1200 s.net).0) [
            | inl no_buf ↦ inr (waiting, inl (no_buf, rw (pk, transmit_udp_frame, no_buf)))
            | inr (p, alloc) ↦
                let (tot, size) = alloc_size 1200 s.net p alloc in
                let (r, k) =
                  pack_loop-Packed 1200 s.store fs s.handle.rx_queue.count (start p)
                    (start-Ready p size)
                    (omega (
                      arith,
                      length-contents s.store s.handle.rx_queue,
                      occupancy-lt-count valid,
                    )) in
                inr (
                  waiting,
                  inr (
                    p,
                    is_some r.frame,
                    final r (pbuf_alloc 1200 s.net).1,
                    alloc,
                    run-final first p r pk alloc tot k.run (k.size ∙ size),
                    final-Sent p r alloc k,
                  ),
                )
          ]
    ]
