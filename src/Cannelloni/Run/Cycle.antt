-- ===== src/Cannelloni/Run/Cycle.antt =====
-- `run_cannelloni`: one pass of a channel, from its two callbacks to the last datagram.
use cannelloni_tms.Prelude.{◌+◌, ◌<◌, ◌≡◌, arith, List, All, some, length}
use cannelloni_tms.Prelude.{ok}
use cannelloni_tms.Cannelloni.Frame.{Frame}
use cannelloni_tms.Cannelloni.Queue.Inv.{IsValid}
use cannelloni_tms.Cannelloni.Queue.Fifo.{contents, length-contents, occupancy-lt-count}
use cannelloni_tms.Cannelloni.Lwip.{Lwip}
use cannelloni_tms.Cannelloni.Handle.{Node}
use cannelloni_tms.Cannelloni.Wire.{IsSendable}
use cannelloni_tms.Cannelloni.Run.{TxFn, RxFn, receive_can_frames, run_cannelloni}
use cannelloni_tms.Cannelloni.Run.Can.{offer, Offered, transmit_can_frames-returns}
use cannelloni_tms.Cannelloni.Run.Flush.{Flushed, flush-Flushed}

module _ (L : Lwip) {H : Type 0} (tx : TxFn H) (rx : RxFn L.Net H) where
  open L use {Net}

  -- After the callback the receive queue is valid and holds frames that can be sent.
  pub record Filled (s : Node Net) (h : H) (s' : Node Net) (h' : H) : Type 0 where
    pub run : rx s h ≡ ok (s', h')
    pub valid : IsValid s'.handle.rx_queue
    pub sendable : All IsSendable (contents s'.store s'.handle.rx_queue)

  -- One pass on a valid transmit queue, of which the CAN driver leaves the frames `left` when it is
  -- offered them in order, with a receive callback that returns and leaves a valid receive queue of
  -- sendable frames on every state that only lost frames of the transmit queue: the pass ends, the
  -- driver was offered the transmit queue, then the callback ran, and then the receive queue went
  -- out in datagrams, as far as the stack had buffers.
  pub run_cannelloni-Cycle :
      (s : Node Net) (h h1 : H) (left : List Frame)
      → IsValid s.handle.tx_queue
      → offer tx (contents s.store s.handle.tx_queue) h ≡ ok (left, h1)
      → ((s1 : Node Net) → Offered s left s1 → (s2 : Node Net) × (h2 : H) × Filled s1 h1 s2 h2)
      → (s1 : Node Net) × (s2 : Node Net) × (h2 : H) × (groups : List (List Frame)) × (s3 : Node
          Net)
        × (run_cannelloni L (some tx) (some rx) s h ≡ ok (s3, h2))
        × Offered s left s1
        × Filled s1 h1 s2 h2
        × Flushed L s2 (contents s2.store s2.handle.rx_queue) groups s3
  unfolding run_cannelloni receive_can_frames
  run_cannelloni-Cycle s h h1 left v offers fill =
      let (s1, sent, offered) = transmit_can_frames-returns tx s h h1 left v offers in
      let (s2, h2, filled) = fill s1 offered in
      let few : length (contents s2.store s2.handle.rx_queue) < s2.handle.rx_queue.count + 1 =
        omega
          (arith, length-contents s2.store s2.handle.rx_queue, occupancy-lt-count filled.valid) in
      let (groups, s3, run, flushed) =
        flush-Flushed L (s2.handle.rx_queue.count + 1) s2 filled.valid filled.sendable few in
      (
        s1,
        s2,
        h2,
        groups,
        s3,
        rw (run_cannelloni, sent, receive_can_frames, filled.run, run),
        offered,
        filled,
        flushed,
      )
