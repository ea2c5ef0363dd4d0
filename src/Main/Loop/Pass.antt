-- ===== src/Main/Loop/Pass.antt =====
-- A round of the loop returns, and keeps the state of the gateway sound.
use cannelloni_tms.Prelude.{
  ℕ, ◌≡◌, inl, inr, refl, ap, sym, ◌∙◌, subst, List, [], ◌∷◌, All, some, Bool-cases,
}
use cannelloni_tms.Prelude.{ok, Holds}
use cannelloni_tms.Cannelloni.Frame.{Frame, Store}
use cannelloni_tms.Cannelloni.Lwip.{Lwip}
use cannelloni_tms.Cannelloni.Handle.{Node}
use cannelloni_tms.Cannelloni.Queue.Inv.{IsValid}
use cannelloni_tms.Cannelloni.Queue.Fifo.{contents}
use cannelloni_tms.Cannelloni.Run.{run_cannelloni}
use cannelloni_tms.Cannelloni.Run.Can.{offer, Offered}
use cannelloni_tms.Cannelloni.Run.Cycle.{Filled, run_cannelloni-Cycle}
use cannelloni_tms.Cannelloni.Short.{
  IsShort, AllShort, AllShort-Slots, contents-AllShort, all-IsSendable,
}
use cannelloni_tms.Can.{Dcan, Hardware}
use cannelloni_tms.Can.Controller.{Controller}
use cannelloni_tms.Main.Receive.{on_can_receive}
use cannelloni_tms.Main.Receive.Drain.{on_can_receive-Received}
use cannelloni_tms.Main.Receive.Short.{on_can_receive-AllShort}
use cannelloni_tms.Main.Transmit.{on_can_transmit, on_can_transmit-returns}
use cannelloni_tms.Main.Loop.{CanInterface, Gateway, node_of, run_interfaces, main_round}

-- Both queues of an interface are valid, and its controller works.
pub record HasQueues {M : Type 0} {hw : Hardware M} {fuel : ℕ} (c : Controller hw fuel)
    (i : CanInterface M) : Type 0 where
  pub tx : IsValid i.cannelloni.tx_queue
  pub rx : IsValid i.cannelloni.rx_queue
  pub works : c.Works i.canreg

-- All queues are valid, all controllers work, and all frames are classic ones of at most eight bytes.
pub record IsSound {M N : Type 0} {hw : Hardware M} {fuel : ℕ} (c : Controller hw fuel)
    (g : Gateway M N) : Type 0 where
  pub queues : All (HasQueues c) g.can_interfaces
  pub frames : AllShort g.store

module _ (L : Lwip) {M : Type 0} (hw : Hardware M) (fuel : ℕ) (c : Controller hw fuel) where
  open L use {Net}

  offer-returns :
      (fs : List Frame) (h : Dcan M)
      → All IsShort fs
      → c.Works h
      → (left : List Frame) × (h' : Dcan M) × (offer (on_can_transmit hw fuel) fs h ≡ ok (left, h'))
        × c.Works h'
  offer-returns [] h s works = ([], h, refl, works)
  offer-returns (f ∷ fs) h (s, ss) works =
      let (taken, h1, sent, works1) = on_can_transmit-returns hw fuel c f h works s in
      elim (Bool-cases taken) [
        | inl accepted ↦
            let (left, h2, run, works2) = offer-returns fs h1 ss works1 in
            (left, h2, rw (sent, accepted) run, works2)
        | inr refused ↦ (f ∷ fs, h1, rw (sent, refused) refl, works1)
      ]

  -- The receive callback on a sound node.
  came :
      (s1 : Node Net) (h1 : Dcan M)
      → IsValid s1.handle.rx_queue
      → AllShort s1.store
      → c.Works h1
      → (s2 : Node Net) × (h2 : Dcan M) × Filled L
          (on_can_transmit hw fuel)
          (on_can_receive hw fuel)
          s1
          h1
          s2
          h2
  came s1 h1 rx all works =
      let (new, s2, h2, run, r, works2) =
        on_can_receive-Received hw fuel c s1 h1 rx (AllShort-Slots s1.store all) works in
      let all2 = on_can_receive-AllShort hw fuel c s1 s2 h1 h2 all works run in
      (
        s2,
        h2,
        record {
          run = run;
          valid = r.valid;
          sendable =
              all-IsSendable (contents s2.store s2.handle.rx_queue)
                (contents-AllShort s2.store s2.handle.rx_queue all2);
        },
      )

  -- It does not touch the transmit queue, and the controller works after it.
  came-tx :
      (s1 s2 : Node Net) (h1 h2 : Dcan M)
      → IsValid s1.handle.rx_queue
      → AllShort s1.store
      → c.Works h1
      → on_can_receive hw fuel s1 h1 ≡ ok (s2, h2)
      → (s2.handle.tx_queue ≡ s1.handle.tx_queue) × c.Works h2
  came-tx s1 s2 h1 h2 rx all works run =
      let (new, s2', h2', run', r, works2) =
        on_can_receive-Received hw fuel c s1 h1 rx (AllShort-Slots s1.store all) works in
      subst (Holds (λ x. (x.0.handle.tx_queue ≡ s1.handle.tx_queue) × c.Works x.1)) (sym run' ∙ run)
        (r.tx_kept, works2)

  -- What a pass leaves of one channel.
  pub record Passed (i : CanInterface M) (st : Store) (n : Net) (s' : Node Net) (h' : Dcan M)
      : Type 0 where
    pub run :
        run_cannelloni L
          (some (on_can_transmit hw fuel))
          (some (on_can_receive hw fuel))
          (node_of i st n)
          i.canreg
        ≡ ok (s', h')
    pub tx : IsValid s'.handle.tx_queue
    pub rx : IsValid s'.handle.rx_queue
    pub frames : AllShort s'.store
    pub works : c.Works h'

  one_pass :
      (i : CanInterface M) (st : Store) (n : Net)
      → HasQueues c i
      → AllShort st
      → (s' : Node Net) × (h' : Dcan M) × Passed i st n s' h'
  one_pass i st n q all =
      let s = node_of i st n in
      let (left, h1, offers, works1) =
        offer-returns (contents st i.cannelloni.tx_queue) i.canreg
          (contents-AllShort st i.cannelloni.tx_queue all) q.works in
      let all_after : (s1 : Node Net) → Offered s left s1 → AllShort s1.store =
        λ s1 o. subst AllShort (sym (ap (λ x. x.store) o.same)) all in
      let rx_after : (s1 : Node Net) → Offered s left s1 → IsValid s1.handle.rx_queue =
        λ s1 o. subst IsValid (sym (ap (λ x. x.handle.rx_queue) o.same)) q.rx in
      let (s1, s2, h2, groups, s3, run, o, filled, flushed) =
        run_cannelloni-Cycle L (on_can_transmit hw fuel) (on_can_receive hw fuel) s i.canreg h1 left
          q.tx offers (λ s1 o. came s1 h1 (rx_after s1 o) (all_after s1 o) works1) in
      let all1 = all_after s1 o in
      let (tx2, works2) = came-tx s1 s2 h1 h2 (rx_after s1 o) all1 works1 filled.run in
      let all2 = on_can_receive-AllShort hw fuel c s1 s2 h1 h2 all1 works1 filled.run in
      (
        s3,
        h2,
        record {
          run = run;
          tx = subst IsValid (sym (flushed.tx_kept ∙ tx2)) o.valid;
          rx = flushed.valid;
          frames = subst AllShort (sym flushed.store_kept) all2;
          works = works2;
        },
      )

  run_interfaces-IsSound :
      (is : List (CanInterface M)) (st : Store) (n : Net)
      → All (HasQueues c) is
      → AllShort st
      → (g : Gateway M Net) × (run_interfaces L hw fuel is st n ≡ ok g) × IsSound c g
  unfolding run_interfaces
  run_interfaces-IsSound [] st n q all = (
    record { can_interfaces = []; store = st; net = n },
    refl,
    record { queues = q; frames = all },
  )
  run_interfaces-IsSound (i ∷ is) st n (q, qs) all =
      let (s', h', p) = one_pass i st n q all in
      let (g, run, sound) = run_interfaces-IsSound is s'.store s'.net qs p.frames in
      (
        record g {
          can_interfaces = record { cannelloni = s'.handle; canreg = h' } ∷ g.can_interfaces;
        },
        rw (run_interfaces, p.run, run) refl,
        record {
          queues = (record { tx = p.tx; rx = p.rx; works = p.works }, sound.queues);
          frames = sound.frames;
        },
      )

  -- A round of the loop over any number of channels with valid queues and controllers that work, on
  -- a store of classic frames of at most eight bytes, returns without a fault, whatever lwIP's
  -- timeouts do, and leaves valid queues, controllers that work and such a store.
  pub main_round-IsSound :
      (timeouts : Net → Net) (g : Gateway M Net)
      → IsSound c g
      → (g' : Gateway M Net) × (main_round L hw fuel timeouts g ≡ ok g') × IsSound c g'
  unfolding main_round
  main_round-IsSound timeouts g s =
      run_interfaces-IsSound g.can_interfaces g.store (timeouts g.net) s.queues s.frames
