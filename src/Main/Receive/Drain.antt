-- ===== src/Main/Receive/Drain.antt =====
-- What `on_can_receive` leaves in the receive queue.
use cannelloni_tms.Prelude.{
  ℕ, zero, suc, ◌+◌, ◌%◌, ◌≤◌, ◌<◌, ◌≡◌, refl, ap, sym, subst, ◌∙◌, arith, List, [], ◌∷◌, ◌++◌,
  length, length-take, take, drop, take-append, append-nil, append_assoc, true, some, dec_lt, inl,
  inr,
}
use cannelloni_tms.Prelude.{ok}
use cannelloni_tms.Cannelloni.Frame.{Frame, FramePtr, Store, read_frame, write_frame}
use cannelloni_tms.Cannelloni.Queue.{FramesQueue}
use cannelloni_tms.Cannelloni.Queue.Inv.{IsValid, occupancy, queue_put-IsValid}
use cannelloni_tms.Cannelloni.Queue.Fifo.{
  contents, slot, advanced, put-room, contents-advanced, occupancy-lt-count,
}
use cannelloni_tms.Cannelloni.Handle.{Node}
use cannelloni_tms.Cannelloni.Run.{get_can_rx_frame}
use cannelloni_tms.Cannelloni.Run.Can.{get_can_rx_frame-full, get_can_rx_frame-room}
use cannelloni_tms.Cannelloni.Receive.Loop.{Slots, write_frame-Slots}
use cannelloni_tms.Can.{Dcan, Hardware, can_mbox_has_data, received_id}
use cannelloni_tms.Can.Frames.{can_fill_rx_mbox-ok, bus_order, eight}
use cannelloni_tms.Can.Controller.{Controller, has_data-ok}
use cannelloni_tms.Main.Receive.{fill_slot, into_slot, drain, on_can_receive}

-- The frames `new` came behind those in the receive queue, and the rest of the handle is kept.
pub record Received {N : Type 0} (s : Node N) (new : List Frame) (s' : Node N) : Type 0 where
  pub queue : contents s'.store s'.handle.rx_queue ≡ contents s.store s.handle.rx_queue ++ new
  pub valid : IsValid s'.handle.rx_queue
  pub slots : Slots s'.store
  pub tx_kept : s'.handle.tx_queue ≡ s.handle.tx_queue
  pub net_kept : s'.net ≡ s.net

pub Received-nil :
    {N : Type 0} (s : Node N) → IsValid s.handle.rx_queue → Slots s.store → Received s [] s
Received-nil s v slots = record {
  queue = sym (append-nil _);
  valid = v;
  slots = slots;
  tx_kept = refl;
  net_kept = refl;
}

pub Received-cons :
    {N : Type 0} (s : Node N) (f : Frame) (q : FramesQueue) (st : Store) (s' : Node N)
    (new : List Frame)
    → contents st q ≡ contents s.store s.handle.rx_queue ++ (f ∷ [])
    → Received (record s { handle = record s.handle { rx_queue = q }; store = st }) new s'
    → Received s (f ∷ new) s'
Received-cons s f q st s' new e k = record {
  queue =
      k.queue
      ∙ ap (λ l. l ++ new) e
      ∙ append_assoc (contents s.store s.handle.rx_queue) (f ∷ []) new;
  valid = k.valid;
  slots = k.slots;
  tx_kept = k.tx_kept;
  net_kept = k.net_kept;
}

-- The frame has the identifier, the length and the data of the interface registers.
pub record Carries {M : Type 0} (h : Dcan M) (f : Frame) : Type 0 where
  pub id : f.can_id ≡ received_id h.if1arb
  pub len : f.len ≡ h.if1mctl % 16
  pub body : take (h.if1mctl % 16) f.payload ≡ take (h.if1mctl % 16) (bus_order h.if1dat)

length-body : (dat : List ℕ) (n : ℕ) → length dat ≡ 8 → n ≤ 8 → length (take n (bus_order dat)) ≡ n
length-body dat n size short =
    let (a, b, c, d, e, f, g, h, dat_eq) = eight dat size in
    rw dat_eq (omega (arith, length-take n (d ∷ c ∷ b ∷ a ∷ h ∷ g ∷ f ∷ e ∷ [])))

module _ {M N : Type 0} (hw : Hardware M) (fuel : ℕ) where
  -- What the body of the loop makes of a slot in a queue with room.
  pub fill_slot-room :
      (s : Node N) (h : Dcan M)
      → IsValid s.handle.rx_queue
      → Slots s.store
      → length h.if1dat ≡ 8
      → h.if1mctl % 16 ≤ 8
      → let p = slot s.handle.rx_queue in
        let q = advanced s.handle.rx_queue in
        (f : Frame) × (length f.payload ≡ 8)
        × Carries h f
        × (fill_slot hw fuel (record s { handle = record s.handle { rx_queue = q } }) p h
            ≡ ok (record s {
              handle = record s.handle { rx_queue = q };
              store = write_frame s.store p f;
            }))
  unfolding fill_slot
  fill_slot-room s h v slots size len =
      let f = read_frame s.store (slot s.handle.rx_queue) in
      let body = take (h.if1mctl % 16) (bus_order h.if1dat) in
      let d = body ++ drop (h.if1mctl % 16) f.payload in
      let (run, full) = can_fill_rx_mbox-ok h f.payload len size (slots _ _) in
      (
        record f { can_id = received_id h.if1arb; len = h.if1mctl % 16; payload = d },
        full,
        record {
          id = refl;
          len = refl;
          body =
              take-append body (drop (h.if1mctl % 16) f.payload) (h.if1mctl % 16)
                (length-body h.if1dat (h.if1mctl % 16) size len);
        },
        rw (fill_slot, run),
      )

  pub drain-taken :
      (n mbox : ℕ) (s s1 s2 : Node N) (h h' : Dcan M) (p : FramePtr)
      → can_mbox_has_data hw fuel h mbox ≡ ok (true, h')
      → get_can_rx_frame s ≡ (some p, s1)
      → fill_slot hw fuel s1 p h' ≡ ok s2
      → drain hw fuel (suc n) mbox s h ≡ drain hw fuel n (mbox + 1) s2 h'
  unfolding drain into_slot
  drain-taken n mbox s s1 s2 h h' p run got fill = rw (run, got, fill)

  module _ (c : Controller hw fuel) where
    drain-Received :
        (n mbox : ℕ) (s : Node N) (h : Dcan M)
        → 65 < n + mbox
        → mbox ≤ 65
        → IsValid s.handle.rx_queue
        → Slots s.store
        → c.Works h
        → (new : List Frame) × (s' : Node N) × (h' : Dcan M) × (drain hw fuel n mbox s h
            ≡ ok (s', h'))
          × Received s new s'
          × c.Works h'
    unfolding drain into_slot
    drain-Received zero mbox s h few start v slots works = absurd (omega arith)
    drain-Received (suc n) mbox s h few start v slots works =
        let (h', works', answer) = has_data-ok hw fuel c mbox h works in
        elim answer [
          | inl run ↦ ([], s, h', rw (drain, run), Received-nil s v slots, works')
          | inr (run, inside, b, len) ↦
              elim (dec_lt (occupancy s.handle.rx_queue + 1) s.handle.rx_queue.count) [
                | no full ↦
                    let e : occupancy s.handle.rx_queue + 1 ≡ s.handle.rx_queue.count =
                      omega (arith, occupancy-lt-count v) in
                    (
                      [],
                      s,
                      h',
                      rw (drain, run, get_can_rx_frame-full s v e),
                      Received-nil s v slots,
                      works',
                    )
                | yes room ↦
                    let (f, full_slot, carries, fill) = fill_slot-room s h' v slots b.size len in
                    let q = advanced s.handle.rx_queue in
                    let st = write_frame s.store (slot s.handle.rx_queue) f in
                    let v' : IsValid q =
                      subst (λ r. IsValid r.1) (put-room v room) (queue_put-IsValid v) in
                    let (new, s', h'', rest, k, works'') =
                      drain-Received n (mbox + 1)
                        (record s { handle = record s.handle { rx_queue = q }; store = st }) h'
                        (omega arith) (omega arith) v'
                        (write_frame-Slots s.store (slot s.handle.rx_queue) f slots full_slot)
                        works' in
                    (
                      f ∷ new,
                      s',
                      h'',
                      drain-taken n mbox s _ _ h h' _ run (get_can_rx_frame-room s v room) fill
                          ∙ rest,
                      Received-cons s f q st s' new (contents-advanced s.store f v room) k,
                      works'',
                    )
              ]
        ]

    -- On a valid receive queue over slots of eight data bytes `on_can_receive` returns, whatever
    -- messages come in meanwhile: new frames came last in the receive queue, which is valid, the
    -- slots keep their size, and the transmit queue and the stack are as they were.
    pub on_can_receive-Received :
        (s : Node N) (h : Dcan M)
        → IsValid s.handle.rx_queue
        → Slots s.store
        → c.Works h
        → (new : List Frame) × (s' : Node N) × (h' : Dcan M) × (on_can_receive hw fuel s h
            ≡ ok (s', h'))
          × Received s new s'
          × c.Works h'
    unfolding on_can_receive
    on_can_receive-Received s h v slots works =
        drain-Received 64 2 s h (omega arith) (omega arith) v slots works
