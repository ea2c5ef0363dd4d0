-- ===== src/Cannelloni/Run/Can.antt =====
-- `transmit_can_frames` offers the CAN driver the queued frames in order, and `get_can_rx_frame`
-- gives it a slot for a received one.
use cannelloni_tms.Prelude.{
  ℕ, zero, suc, ◌+◌, ◌<◌, ◌≡◌, refl, ap, sym, ◌∙◌, arith, List, [], ◌∷◌, length, none, some, Bool,
  true, false, ◌++◌, ◌⊎◌, inl, inr, subst,
}
use cannelloni_tms.Prelude.{Exec, ok, fault, stuck, ◌>>=◌}
use cannelloni_tms.Cannelloni.Frame.{Frame, FramePtr, read_frame, write_frame}
use cannelloni_tms.Cannelloni.Queue.{FramesQueue}
use cannelloni_tms.Cannelloni.Queue.Inv.{IsValid, occupancy}
use cannelloni_tms.Cannelloni.Queue.Fifo.{
  contents, slot, advanced, put-full, put-room, queue_put_fifo, queue_take_fifo, taken-IsValid,
  length-contents, occupancy-lt-count,
}
use cannelloni_tms.Cannelloni.Handle.{Node}
use cannelloni_tms.Cannelloni.Run.{TxFn, drop_tx, tx_loop, transmit_can_frames, get_can_rx_frame}

-- Frames are offered to a driver until it refuses one: the frames left, and its state.
abbrev pub offer : {H : Type 0} → TxFn H → List Frame → H → Exec (List Frame × H)
offer tx [] h = ok ([], h)
offer tx (f ∷ fs) h = tx f h >>= λ r. elim r.0 [ true ↦ offer tx fs r.1 | false ↦ ok (f ∷ fs, r.1) ]

-- The queue lost its first frames, and nothing else changed.
pub record Offered {N : Type 0} (s : Node N) (left : List Frame) (s' : Node N) : Type 0 where
  pub queue : contents s'.store s'.handle.tx_queue ≡ left
  pub valid : IsValid s'.handle.tx_queue
  pub same : s' ≡ record s { handle = record s.handle { tx_queue = s'.handle.tx_queue } }

-- `e` is the outcome of offering frames and `r` that of the loop over the queue: both return, and
-- the frames left are those in the queue, or both have the same fault, or both run out of fuel.
abbrev pub OfferedAs : {H N : Type 0} → Node N → Exec (List Frame × H) → Exec (Node N × H) → Type 0
OfferedAs {N = N} s (ok (left, h)) r = (s' : Node N) × (r ≡ ok (s', h)) × Offered s left s'
OfferedAs s (fault e) r = r ≡ fault e
OfferedAs s stuck r = r ≡ stuck

module _ {H N : Type 0} (tx : TxFn H) where
  -- A frame less in the queue, and then the rest.
  after_drop :
      (s : Node N) (e : Exec (List Frame × H)) (r : Exec (Node N × H))
      → OfferedAs (drop_tx s) e r
      → OfferedAs s e r
  after_drop s (ok (left, h)) r (s', run, o) =
      (s', run, record { queue = o.queue; valid = o.valid; same = o.same })
  after_drop s (fault e) r o = o
  after_drop s stuck r o = o

  -- What the driver says to the first frame, and what comes of it.
  after_first :
      (s : Node N) (f : Frame) (fs : List Frame) (o : Exec (Bool × H))
      (next : H → Exec (Node N × H))
      → contents s.store s.handle.tx_queue ≡ f ∷ fs
      → IsValid s.handle.tx_queue
      → ((h : H) → OfferedAs (drop_tx s) (offer tx fs h) (next h))
      → OfferedAs s
          (o >>= λ r. elim r.0 [ true ↦ offer tx fs r.1 | false ↦ ok (f ∷ fs, r.1) ])
          (o >>= λ r. elim r.0 [ true ↦ next r.1 | false ↦ ok (s, r.1) ])
  after_first s f fs (ok (true, h)) next e v rest = after_drop s (offer tx fs h) (next h) (rest h)
  after_first s f fs (ok (false, h)) next e v rest =
      (s, refl, record { queue = e; valid = v; same = refl })
  after_first s f fs (fault x) next e v rest = refl
  after_first s f fs stuck next e v rest = refl

  tx_loop-OfferedAs :
      (fs : List Frame) (fuel : ℕ) (s : Node N) (h : H)
      → IsValid s.handle.tx_queue
      → contents s.store s.handle.tx_queue ≡ fs
      → length fs < fuel
      → OfferedAs s (offer tx fs h) (tx_loop fuel tx s h)
  unfolding tx_loop
  tx_loop-OfferedAs fs zero s h v e few = elim few [ ]
  tx_loop-OfferedAs [] (suc fuel) s h v e few = elim (queue_take_fifo s.store v) [
    | inl (e', t, pk) ↦ (s, rw (pk, tx_loop), record { queue = e; valid = v; same = refl })
    | inr (p, q, e', t, pk) ↦ absurd (cc (e, e'))
  ]
  tx_loop-OfferedAs (f ∷ fs) (suc fuel) s h v e few = elim (queue_take_fifo s.store v) [
    | inl (e', t, pk) ↦ absurd (cc (e, e'))
    | inr (p, q, e', t, pk) ↦
        let first : f ≡ read_frame s.store p = cc (e, e') in
        let q-eq : (drop_tx s).handle.tx_queue ≡ q = ap (λ x. x.1) t in
        let rest : contents s.store (drop_tx s).handle.tx_queue ≡ fs =
          ap (contents s.store) q-eq ∙ cc (e, e') in
        let v' : IsValid (drop_tx s).handle.tx_queue =
          subst IsValid (sym q-eq) (taken-IsValid v t).0 in
        rw (pk, tx_loop, ← first)
          (after_first s f fs (tx f h) (tx_loop fuel tx (drop_tx s)) e v
            (λ h'. tx_loop-OfferedAs fs fuel (drop_tx s) h' v' rest (omega arith)))
  ]

  -- On a valid transmit queue the loop has the outcome of offering the driver the queue's frames in
  -- order up to the first that it refuses: it returns if the driver always does, those that it took
  -- have left the queue, and nothing else changed; a fault of the driver is one of the loop.
  pub transmit_can_frames-OfferedAs :
      (s : Node N) (h : H)
      → IsValid s.handle.tx_queue
      → OfferedAs s
          (offer tx (contents s.store s.handle.tx_queue) h)
          (transmit_can_frames (some tx) s h)
  unfolding transmit_can_frames
  transmit_can_frames-OfferedAs s h v =
      tx_loop-OfferedAs _ s.handle.tx_queue.count s h v refl
        (omega (arith, length-contents s.store s.handle.tx_queue, occupancy-lt-count v))

  -- The loop returns when the driver does.
  pub transmit_can_frames-returns :
      (s : Node N) (h h1 : H) (left : List Frame)
      → IsValid s.handle.tx_queue
      → offer tx (contents s.store s.handle.tx_queue) h ≡ ok (left, h1)
      → (s' : Node N) × (transmit_can_frames (some tx) s h ≡ ok (s', h1)) × Offered s left s'
  transmit_can_frames-returns s h h1 left v e =
      subst (λ o. OfferedAs s o (transmit_can_frames (some tx) s h)) e
        (transmit_can_frames-OfferedAs s h v)

-- `get_can_rx_frame` gives `NULL` exactly when the receive queue of a valid node is full, and then
-- changes nothing. Otherwise the frame that the driver writes there is the last in that queue, and
-- the other members of the handle, the store and the stack are as they were.
pub get_can_rx_frame_lem :
    {N : Type 0} (s : Node N) (f : Frame)
    → IsValid s.handle.rx_queue
    → let q = s.handle.rx_queue in
      ((occupancy q + 1 ≡ q.count) × (get_can_rx_frame s ≡ (none, s)))
      ⊎ ((p : FramePtr) × (q' : FramesQueue) × (get_can_rx_frame s
            ≡ (some p, record s { handle = record s.handle { rx_queue = q' } }))
          × (contents (write_frame s.store p f) q' ≡ contents s.store q ++ (f ∷ [])))
unfolding get_can_rx_frame
get_can_rx_frame_lem s f v = elim (queue_put_fifo s.store f v) [
  | inl (e, put) ↦
      inl (e, ap (λ r. (r.0, record s { handle = record s.handle { rx_queue = r.1 } })) put)
  | inr (p, q', room, put, c) ↦
      inr (p, q', ap (λ r. (r.0, record s { handle = record s.handle { rx_queue = r.1 } })) put, c)
]

-- A full receive queue gives no slot.
pub get_can_rx_frame-full :
    {N : Type 0} (s : Node N)
    → IsValid s.handle.rx_queue
    → occupancy s.handle.rx_queue + 1 ≡ s.handle.rx_queue.count
    → get_can_rx_frame s ≡ (none, s)
unfolding get_can_rx_frame
get_can_rx_frame-full s v e =
    ap (λ r. (r.0, record s { handle = record s.handle { rx_queue = r.1 } })) (put-full v e)

-- One with room gives the slot behind its frames.
pub get_can_rx_frame-room :
    {N : Type 0} (s : Node N)
    → IsValid s.handle.rx_queue
    → occupancy s.handle.rx_queue + 1 < s.handle.rx_queue.count
    → let q = s.handle.rx_queue in
      get_can_rx_frame s
      ≡ (some (slot q), record s { handle = record s.handle { rx_queue = advanced q } })
unfolding get_can_rx_frame
get_can_rx_frame-room s v h =
    ap (λ r. (r.0, record s { handle = record s.handle { rx_queue = r.1 } })) (put-room v h)

pub get_can_rx_frame-store : {N : Type 0} (s : Node N) → (get_can_rx_frame s).1.store ≡ s.store
unfolding get_can_rx_frame
get_can_rx_frame-store s = refl
