-- ===== src/Cannelloni/Run/Flush.antt =====
-- The flushing loop: every queued frame leaves in some datagram, in order, unless a buffer is
-- refused.
use cannelloni_tms.Prelude.{
  ℕ, zero, suc, ◌+◌, ◌%◌, ◌^◌, ◌<◌, ◌≡◌, refl, ap, ap₂, sym, ◌∙◌, arith, List, [], ◌∷◌, ◌++◌,
  length, length-append, All, none, Option, Bool, true, false, ◌⊎◌, inl, inr, ltb, Bool-cases,
  lt→ltb, append-nil, append_assoc, subst,
}
use cannelloni_tms.Prelude.{ok}
use cannelloni_tms.Cannelloni.Frame.{Frame, canfd_len}
use cannelloni_tms.Cannelloni.Queue.Inv.{IsValid}
use cannelloni_tms.Cannelloni.Queue.Fifo.{contents}
use cannelloni_tms.Cannelloni.Lwip.{Lwip, Datagram}
use cannelloni_tms.Cannelloni.Handle.{Config, Node}
use cannelloni_tms.Cannelloni.Wire.{datagram, packed, unpacked, IsSendable}
use cannelloni_tms.Cannelloni.Transmit.Datagram.{Sent, sent_net, has_more, transmit_udp_frame_cases}
use cannelloni_tms.Cannelloni.Run.{flush}

-- The datagrams that carry groups of frames, with consecutive sequence numbers.
abbrev pub datagrams : Config → ℕ → List (List Frame) → List Datagram
datagrams c seq [] = []
datagrams c seq (g ∷ gs) =
    record { addr = c.addr; port = c.remote_port; payload = datagram seq g }
    ∷ datagrams c ((seq + 1) % 2 ^ 32) gs

abbrev pub concat : List (List Frame) → List Frame
concat [] = []
concat (g ∷ gs) = g ++ concat gs

-- The split of a queue keeps every frame, in order.
packed-append-unpacked :
    (room pos : ℕ) (fs : List Frame) → packed room pos fs ++ unpacked room pos fs ≡ fs
packed-append-unpacked room pos [] = refl
packed-append-unpacked room pos (f ∷ fs) = elim (Bool-cases (ltb (pos + 5 + canfd_len f) room)) [
  | inl e ↦ rw e (ap (λ l. f ∷ l) (packed-append-unpacked room (pos + 5 + canfd_len f) fs))
  | inr e ↦ rw e
]

unpacked-IsSendable :
    (room pos : ℕ) (fs : List Frame) → All IsSendable fs → All IsSendable (unpacked room pos fs)
unpacked-IsSendable room pos [] s = s
unpacked-IsSendable room pos (f ∷ fs) s = elim (Bool-cases (ltb (pos + 5 + canfd_len f) room)) [
  | inl e ↦ rw e (unpacked-IsSendable room (pos + 5 + canfd_len f) fs s.1)
  | inr e ↦ rw e s
]

-- A datagram takes the first frame at least.
unpacked-shorter :
    (f : Frame) (fs : List Frame)
    → IsSendable f
    → length (unpacked 1200 5 (f ∷ fs)) < length (f ∷ fs)
unpacked-shorter f fs s = rw (lt→ltb (10 + canfd_len f) 1200 (omega arith)) (
    omega (
      arith,
      ap length (packed-append-unpacked 1200 (10 + canfd_len f) fs),
      length-append (packed 1200 (10 + canfd_len f) fs) (unpacked 1200 (10 + canfd_len f) fs),
    ))

packed-has_more :
    (fs : List Frame) → All IsSendable fs → has_more fs ≡ true → has_more (packed 1200 5 fs) ≡ true
packed-has_more [] s h = h
packed-has_more (f ∷ fs) s h = rw (lt→ltb (10 + canfd_len f) 1200 (omega (arith, s.0.fits))) refl

left-shorter :
    (fs : List Frame)
    → All IsSendable fs
    → has_more (unpacked 1200 5 fs) ≡ true
    → length (unpacked 1200 5 fs) < length fs
left-shorter [] s h = absurd (cc)
left-shorter (f ∷ fs) s h = unpacked-shorter f fs s.0

nothing-left : (fs : List Frame) → has_more fs ≡ false → fs ≡ []
nothing-left [] h = refl
nothing-left (f ∷ fs) h = absurd (cc)

module _ (L : Lwip) where
  open L use {Net, pbuf_alloc, handed, live, handed-alloc, live-alloc_none}

  -- The stack after a datagram for each of the groups, with consecutive sequence numbers.
  abbrev pub net_behind : Option ℕ → Config → ℕ → List (List Frame) → Net → Net
  net_behind pcb c seq [] n = n
  net_behind pcb c seq (g ∷ gs) n =
      net_behind pcb c ((seq + 1) % 2 ^ 32) gs (sent_net L pcb c seq g n)

  -- The loop ended in the stack `n` with the datagrams sent: with an empty queue, or with frames in
  -- it because the stack refused the buffer that it asked `n` for.
  abbrev pub Ended : Node Net → Net → Type 0
  Ended s' n =
      ((contents s'.store s'.handle.rx_queue ≡ []) × (s'.net ≡ n))
      ⊎ ((has_more (contents s'.store s'.handle.rx_queue) ≡ true)
          × ((pbuf_alloc 1200 n).0 ≡ none)
          × (s'.net ≡ (pbuf_alloc 1200 n).1))

  -- What the loop did: `groups` went out, one datagram each, and the others are still queued.
  pub record Flushed (s : Node Net) (fs : List Frame) (groups : List (List Frame)) (s' : Node Net)
      : Type 0 where
    pub split : concat groups ++ contents s'.store s'.handle.rx_queue ≡ fs
    pub out :
        handed s'.net ≡ handed s.net ++ datagrams s.handle.config s.handle.sequence_number groups
    pub ended :
        Ended s' (net_behind s.handle.udp_pcb s.handle.config s.handle.sequence_number groups s.net)
    pub none_empty : All (λ g. has_more g ≡ true) groups
    pub valid : IsValid s'.handle.rx_queue
    pub no_leak : live s'.net ≡ live s.net
    pub tx_kept : s'.handle.tx_queue ≡ s.handle.tx_queue
    pub store_kept : s'.store ≡ s.store

  Flushed-nil :
      (s : Node Net)
      → IsValid s.handle.rx_queue
      → contents s.store s.handle.rx_queue ≡ []
      → Flushed s (contents s.store s.handle.rx_queue) [] s
  Flushed-nil s v e = record {
    split = refl;
    out = sym (append-nil _);
    ended = inl (e, refl);
    none_empty = tt;
    valid = v;
    no_leak = refl;
    tx_kept = refl;
    store_kept = refl;
  }

  Flushed-no_buffer :
      (s : Node Net)
      → IsValid s.handle.rx_queue
      → has_more (contents s.store s.handle.rx_queue) ≡ true
      → (pbuf_alloc 1200 s.net).0 ≡ none
      → Flushed s
          (contents s.store s.handle.rx_queue)
          []
          (record s { net = (pbuf_alloc 1200 s.net).1 })
  Flushed-no_buffer s v some_left e = record {
    split = refl;
    out = handed-alloc 1200 s.net ∙ sym (append-nil _);
    ended = inr (some_left, e, refl);
    none_empty = tt;
    valid = v;
    no_leak = live-alloc_none 1200 s.net e;
    tx_kept = refl;
    store_kept = refl;
  }

  -- One datagram, and then what the loop does from there.
  Flushed-cons :
      (s s' s'' : Node Net) (fs : List Frame) (more : Bool) (gs : List (List Frame))
      → All IsSendable fs
      → has_more fs ≡ true
      → Sent L s fs more s'
      → Flushed s' (contents s'.store s'.handle.rx_queue) gs s''
      → Flushed s fs (packed 1200 5 fs ∷ gs) s''
  Flushed-cons s s' s'' fs more gs ok_all some_first d k = record {
    split =
        append_assoc (packed 1200 5 fs) (concat gs) _
        ∙ ap (λ l. packed 1200 5 fs ++ l) (k.split ∙ d.left)
        ∙ packed-append-unpacked 1200 5 fs;
    out =
        k.out
        ∙ ap₂ (λ a b. a ++ b) d.out (ap₂ (λ c n. datagrams c n gs) d.config_kept d.sequence)
        ∙ append_assoc (handed s.net) _ _;
    ended =
        subst (Ended s'')
          (ap₂ (λ pcb n. net_behind pcb s'.handle.config s'.handle.sequence_number gs n) d.pcb_kept
              d.net
            ∙ ap₂
                (λ c seq. net_behind s.handle.udp_pcb c seq gs (
                  sent_net L s.handle.udp_pcb s.handle.config s.handle.sequence_number
                    (packed 1200 5 fs) s.net))
                d.config_kept d.sequence)
          k.ended;
    none_empty = (packed-has_more fs ok_all some_first, k.none_empty);
    valid = k.valid;
    no_leak = k.no_leak ∙ d.no_leak;
    tx_kept = k.tx_kept ∙ d.tx_kept;
    store_kept = k.store_kept ∙ d.store_kept;
  }

  -- On a valid receive queue of frames that fit their arrays, with fuel for each frame, the loop
  -- ends. What it sent, in datagrams with consecutive sequence numbers and at least one frame each,
  -- and what is left make up the queue, in order; frames are left only if the stack, as it was after
  -- these datagrams, refused a buffer; no buffer leaks.
  pub flush-Flushed :
      (fuel : ℕ) (s : Node Net)
      → IsValid s.handle.rx_queue
      → All IsSendable (contents s.store s.handle.rx_queue)
      → length (contents s.store s.handle.rx_queue) < fuel
      → (groups : List (List Frame)) × (s' : Node Net) × (flush L fuel s ≡ ok s')
        × Flushed s (contents s.store s.handle.rx_queue) groups s'
  unfolding flush
  flush-Flushed zero s v ok_all few = elim few [ ]
  flush-Flushed (suc fuel) s v ok_all few = elim (transmit_udp_frame_cases L s v ok_all) [
    | inl (e, run) ↦ ([], s, rw run, Flushed-nil s v e)
    | inr (some_left, inl (e, run)) ↦ ([], _, rw run, Flushed-no_buffer s v some_left e)
    | inr (some_left, inr (p, false, s', alloc, run, d)) ↦
        let none_left : contents s'.store s'.handle.rx_queue ≡ [] =
          d.left ∙ nothing-left _ (sym d.more_left) in
        (
          _,
          s',
          rw run,
          Flushed-cons s s' s' _ false [] ok_all some_left d (Flushed-nil s' d.valid none_left),
        )
    | inr (some_left, inr (p, true, s', alloc, run, d)) ↦
        let left = d.left in
        let all' : All IsSendable (contents s'.store s'.handle.rx_queue) =
          subst (All IsSendable) (sym left)
            (unpacked-IsSendable 1200 5 (contents s.store s.handle.rx_queue) ok_all) in
        let shorter = left-shorter (contents s.store s.handle.rx_queue) ok_all (sym d.more_left) in
        let (gs, s'', run', k) =
          flush-Flushed fuel s' d.valid all' (omega (arith, ap length left, shorter)) in
        (_, s'', rw run run', Flushed-cons s s' s'' _ true gs ok_all some_left d k)
  ]
