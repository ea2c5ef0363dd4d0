-- ===== src/Main/Loop/Reachable.antt =====
-- The gateway as a system of steps: rounds of the loop, and datagrams that arrive between them.
use cannelloni_tms.Prelude.{
  ℕ, ◌+◌, ◌^◌, ◌<◌, ◌≡◌, sym, ◌∙◌, subst, List, [], ◌∷◌, ◌++◌, length, All, some,
}
use cannelloni_tms.Prelude.{ok, Holds}
use cannelloni_tms.Cannelloni.Frame.{Frame}
use cannelloni_tms.Cannelloni.Lwip.{Lwip}
use cannelloni_tms.Cannelloni.Handle.{Node}
use cannelloni_tms.Cannelloni.Queue.Inv.{IsValid}
use cannelloni_tms.Cannelloni.Wire.{datagram, encode_all}
use cannelloni_tms.Cannelloni.Short.{AllShort}
use cannelloni_tms.Cannelloni.Receive.{handle_cannelloni_frame}
use cannelloni_tms.Cannelloni.Receive.Deliver.{pbuf_of}
use cannelloni_tms.Can.{Hardware}
use cannelloni_tms.Can.Controller.{Controller}
use cannelloni_tms.Main.Loop.{CanInterface, Gateway, node_of, main_round}
use cannelloni_tms.Main.Loop.Pass.{HasQueues, IsSound, main_round-IsSound}
use cannelloni_tms.Main.Loop.Arrival.{IsShortData, arrival-AllShort}

module _ (L : Lwip) {M : Type 0} (hw : Hardware M) (fuel : ℕ) (timeouts : L.Net → L.Net) where
  open L use {Net}

  -- The interface `i` has a new handle.
  abbrev pub with_node :
      List (CanInterface M) → CanInterface M → List (CanInterface M) → Node Net → Gateway M Net
  with_node before i after s = record {
    can_interfaces = before ++ (record i { cannelloni = s.handle } ∷ after);
    store = s.store;
    net = s.net;
  }

  -- A round of the loop that returns, or a datagram of data frames of at most eight bytes for one of
  -- the channels, which the interrupt handler passes on between two rounds.
  pub data Step (g g' : Gateway M Net) : Type 0 where
    round : main_round L hw fuel timeouts g ≡ ok g' → Step g g'
    arrive :
        (before : List (CanInterface M)) (i : CanInterface M) (after : List (CanInterface M))
        (seq : ℕ) (f : Frame) (fs : List Frame) (s : Node Net)
        → All IsShortData (f ∷ fs)
        → length (encode_all (f ∷ fs)) + 6 < 2 ^ 16
        → g.can_interfaces ≡ before ++ (i ∷ after)
        → handle_cannelloni_frame L
            (some (pbuf_of (datagram seq (f ∷ fs))))
            (node_of i g.store g.net)
          ≡ ok s
        → g' ≡ with_node before i after s
        → Step g g'

  pub data Steps (g : Gateway M Net) : Gateway M Net → Type 0 where
    start : Steps g g
    then : (g1 g2 : Gateway M Net) → Steps g g1 → Step g1 g2 → Steps g g2

  module _ (c : Controller hw fuel) where
    replaced :
        (before : List (CanInterface M)) (i j : CanInterface M) (after : List (CanInterface M))
        → All (HasQueues c) (before ++ (i ∷ after))
        → (HasQueues c i → HasQueues c j)
        → All (HasQueues c) (before ++ (j ∷ after))
    replaced [] i j after (q, qs) new = (new q, qs)
    replaced (b ∷ before) i j after (q, qs) new = (q, replaced before i j after qs new)

    middle :
        (before : List (CanInterface M)) (i : CanInterface M) (after : List (CanInterface M))
        → All (HasQueues c) (before ++ (i ∷ after))
        → HasQueues c i
    middle [] i after (q, qs) = q
    middle (b ∷ before) i after (q, qs) = middle before i after qs

    -- What is known of a node after a datagram.
    record After (i : CanInterface M) (s : Node Net) : Type 0 where
      tx : IsValid s.handle.tx_queue
      rx : s.handle.rx_queue ≡ i.cannelloni.rx_queue
      frames : AllShort s.store

    arrival-After :
        (i : CanInterface M) (g : Gateway M Net) (seq : ℕ) (f : Frame) (fs : List Frame)
        (s : Node Net)
        → IsSound c g
        → HasQueues c i
        → All IsShortData (f ∷ fs)
        → length (encode_all (f ∷ fs)) + 6 < 2 ^ 16
        → handle_cannelloni_frame L
            (some (pbuf_of (datagram seq (f ∷ fs))))
            (node_of i g.store g.net)
          ≡ ok s
        → After i s
    arrival-After i g seq f fs s sound q d small run =
        let (s', run', tx, rx, frames) =
          arrival-AllShort L seq f fs (node_of i g.store g.net) d small q.tx sound.frames in
        subst (Holds (After i)) (sym run' ∙ run) (record { tx = tx; rx = rx; frames = frames })

    step-IsSound : (g g' : Gateway M Net) → Step g g' → IsSound c g → IsSound c g'
    step-IsSound g g' (round run) sound =
        let (g1, run', sound') = main_round-IsSound L hw fuel c timeouts g sound in
        subst (Holds (IsSound c)) (sym run' ∙ run) sound'
    step-IsSound g g' (arrive before i after seq f fs s d small at run e) sound =
        let queues : All (HasQueues c) (before ++ (i ∷ after)) =
          subst (All (HasQueues c)) at sound.queues in
        let q = middle before i after queues in
        let k = arrival-After i g seq f fs s sound q d small run in
        subst (IsSound c) (sym e) (record {
          queues =
              replaced before i (record i { cannelloni = s.handle }) after queues
                (λ old. record {
                  tx = k.tx;
                  rx = subst IsValid (sym k.rx) old.rx;
                  works = old.works;
                });
          frames = k.frames;
        })

    steps-IsSound : (g g' : Gateway M Net) → Steps g g' → IsSound c g → IsSound c g'
    steps-IsSound g g' start sound = sound
    steps-IsSound g g' (then g1 g2 before last) sound =
        step-IsSound g1 g2 last (steps-IsSound g g1 before sound)

    -- From a gateway with valid queues and a store of classic frames of at most eight bytes, with
    -- controllers that finish each transfer within the fuel and to which the bus brings messages of
    -- at most eight bytes: after any sequence of rounds and of datagrams of data frames of at most
    -- eight bytes, all queues are valid and all frames classic ones of at most eight bytes, and the
    -- next round returns without a fault.
    pub main_round-reachable :
        (g g' : Gateway M Net)
        → IsSound c g
        → Steps g g'
        → IsSound c g' × ((g'' : Gateway M Net) × (main_round L hw fuel timeouts g' ≡ ok g''))
    main_round-reachable g g' sound steps =
        let sound' = steps-IsSound g g' steps sound in
        let (g'', run, after) = main_round-IsSound L hw fuel c timeouts g' sound' in
        (sound', (g'', run))
