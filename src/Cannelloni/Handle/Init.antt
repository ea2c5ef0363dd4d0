-- ===== src/Cannelloni/Handle/Init.antt =====
-- `init_cannelloni`: the state that it leaves on every branch.
use cannelloni_tms.Prelude.{
  ℕ, ◌<◌, ◌≡◌, refl, ap, arith, Option, Option-cases, Bool-cases, inl, inr,
}
use cannelloni_tms.Cannelloni.Queue.{queue_init}
use cannelloni_tms.Cannelloni.Queue.Inv.{
  IsValid, occupancy, queue_init-IsValid, queue_init-frames, queue_init-count,
}
use cannelloni_tms.Cannelloni.Lwip.{Lwip}
use cannelloni_tms.Cannelloni.Handle.{Handle, init_cannelloni}

-- Two valid, empty queues over the whole of the configured buffers, and counters at zero.
pub record IsReady (h : Handle) : Type 0 where
  pub tx_valid : IsValid h.tx_queue
  pub rx_valid : IsValid h.rx_queue
  pub tx_empty : occupancy h.tx_queue ≡ 0
  pub rx_empty : occupancy h.rx_queue ≡ 0
  pub tx_over : h.tx_queue.frames ≡ h.config.can_tx_buf
  pub rx_over : h.rx_queue.frames ≡ h.config.can_rx_buf
  pub tx_size : h.tx_queue.count ≡ h.config.can_buf_size
  pub rx_size : h.rx_queue.count ≡ h.config.can_buf_size
  pub sequence : h.sequence_number ≡ 0
  pub received : h.udp_rx_count ≡ 0

-- The handle with its queues set up.
abbrev configured : Handle → Option ℕ → Handle
configured h pcb = record h {
  sequence_number = 0;
  udp_rx_count = 0;
  tx_queue = queue_init h.config.can_tx_buf h.config.can_buf_size;
  rx_queue = queue_init h.config.can_rx_buf h.config.can_buf_size;
  udp_pcb = pcb;
}

configured-IsReady :
    (h : Handle) (pcb : Option ℕ)
    → 0 < h.config.can_buf_size
    → h.config.can_buf_size < 256
    → IsReady (configured h pcb)
configured-IsReady h pcb some_room byte =
    let size = h.config.can_buf_size in
    let (tx, tx0) = queue_init-IsValid h.config.can_tx_buf size some_room (omega arith) in
    let (rx, rx0) = queue_init-IsValid h.config.can_rx_buf size some_room (omega arith) in
    record {
      tx_valid = tx;
      rx_valid = rx;
      tx_empty = tx0;
      rx_empty = rx0;
      tx_over = queue_init-frames h.config.can_tx_buf size;
      rx_over = queue_init-frames h.config.can_rx_buf size;
      tx_size = queue_init-count h.config.can_tx_buf size;
      rx_size = queue_init-count h.config.can_rx_buf size;
      sequence = refl;
      received = refl;
    }

init-configured :
    (L : Lwip) (h : Handle) (n : L.Net) → (init_cannelloni L h n).0 ≡ configured h (L.udp_new n).0
unfolding init_cannelloni
init-configured L h n = elim (Option-cases (L.udp_new n).0) [
  | inl e ↦ rw (init_cannelloni, e) (ap (configured h) e)
  | inr (pcb, e) ↦ elim (Bool-cases (L.udp_bind pcb h.config.port (L.udp_new n).1).0) [
    | inl b ↦ rw (init_cannelloni, e, b) (ap (configured h) e)
    | inr b ↦ rw (init_cannelloni, e, b) (ap (configured h) e)
  ]
]

-- For a buffer of 1 to 255 frames, whether or not the stack gives out a control block and binds it,
-- `init_cannelloni` leaves valid, empty queues with all the slots of the configured buffers, zero counters and the
-- configuration as it was.
pub init_cannelloni-IsReady :
    (L : Lwip) (h : Handle) (n : L.Net)
    → 0 < h.config.can_buf_size
    → h.config.can_buf_size < 256
    → IsReady (init_cannelloni L h n).0 × ((init_cannelloni L h n).0.config ≡ h.config)
init_cannelloni-IsReady L h n some_room byte =
    rw (init-configured L h n) (configured-IsReady h (L.udp_new n).0 some_room byte, refl)
