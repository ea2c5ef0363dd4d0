-- ===== src/Cannelloni/Run.antt =====
-- The main loop of one gateway channel in src/cannelloni.c: `transmit_can_frames`,
-- `receive_can_frames` and `run_cannelloni`.
pub mod Can
pub mod Flush
pub mod Cycle
use cannelloni_tms.Prelude.{ℕ, zero, suc, ◌+◌, Option, none, some, Bool, true, false}
use cannelloni_tms.Prelude.{Exec, ok, stuck, ◌>>=◌}
use cannelloni_tms.Cannelloni.Frame.{Frame, FramePtr, read_frame}
use cannelloni_tms.Cannelloni.Queue.{queue_take, queue_peek, queue_put}
use cannelloni_tms.Cannelloni.Lwip.{Lwip}
use cannelloni_tms.Cannelloni.Handle.{Handle, Node}
use cannelloni_tms.Cannelloni.Transmit.{transmit_udp_frame}

-- `Init.can_tx_fn` and `Init.can_rx_fn`; `H` is the state that they work on, the CAN controller.
-- The transmit callback reads the frame and tells whether it took it.
abbrev pub TxFn : Type 0 → Type 0
TxFn H = Frame → H → Exec (Bool × H)

abbrev pub RxFn : Type 0 → Type 0 → Type 0
RxFn N H = Node N → H → Exec (Node N × H)

-- `queue_take` of the transmit queue
abbrev pub drop_tx : {N : Type 0} → Node N → Node N
drop_tx s = record s { handle = record s.handle { tx_queue = (queue_take s.handle.tx_queue).1 } }

module _ {H N : Type 0} where
  -- Each round takes a frame out of the queue, so `count` rounds are enough.
  pub tx_loop : ℕ → TxFn H → Node N → H → Exec (Node N × H)
  tx_loop zero tx s h = stuck
  tx_loop (suc fuel) tx s h = elim (queue_peek s.handle.tx_queue) [
    | none ↦ ok (s, h)
    | some p ↦ tx (read_frame s.store p) h >>= λ r. elim r.0 [
      | true ↦ tx_loop fuel tx (drop_tx s) r.1
      | false ↦ ok (s, r.1)
    ]
  ]

  pub transmit_can_frames : Option (TxFn H) → Node N → H → Exec (Node N × H)
  transmit_can_frames none s h = ok (s, h)
  transmit_can_frames (some tx) s h = tx_loop s.handle.tx_queue.count tx s h

  pub receive_can_frames : Option (RxFn N H) → Node N → H → Exec (Node N × H)
  receive_can_frames none s h = ok (s, h)
  receive_can_frames (some rx) s h = rx s h

-- `get_can_rx_frame`
pub get_can_rx_frame : {N : Type 0} → Node N → Option FramePtr × Node N
get_can_rx_frame s =
    let (p, q) = queue_put s.handle.rx_queue in
    (p, record s { handle = record s.handle { rx_queue = q } })

module _ (L : Lwip) where
  open L use {Net}

  -- `while (transmit_udp_frame(handle));`
  pub flush : ℕ → Node Net → Exec (Node Net)
  flush zero s = stuck
  flush (suc fuel) s =
      transmit_udp_frame L s >>= λ r. elim r.0 [ true ↦ flush fuel r.1 | false ↦ ok r.1 ]

  -- Each datagram but the last leaves fewer frames, so `count` rounds are enough.
  pub run_cannelloni :
      {H : Type 0} → Option (TxFn H) → Option (RxFn Net H) → Node Net → H → Exec (Node Net × H)
  run_cannelloni tx rx s h = do
    r1 ← transmit_can_frames tx s h
    r2 ← receive_can_frames rx r1.0 r1.1
    s3 ← flush (r2.0.handle.rx_queue.count + 1) r2.0
    ok (s3, r2.1)
