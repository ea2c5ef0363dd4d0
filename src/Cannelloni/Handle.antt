-- ===== src/Cannelloni/Handle.antt =====
-- `cannelloni_handle_t` of src/cannelloni.h, and its initialisation in src/cannelloni.c.
pub mod Init
use cannelloni_tms.Prelude.{ℕ, Option, none, some, if◌then◌else◌}
use cannelloni_tms.Cannelloni.Frame.{Store}
use cannelloni_tms.Cannelloni.Queue.{FramesQueue, queue_init}
use cannelloni_tms.Cannelloni.Lwip.{Lwip}

-- The member `Init`, but for the callbacks, which `Run` takes as arguments, and for `user_data`,
-- which nothing reads. A buffer is the address of an array of frames.
pub record Config : Type 0 where
  pub port : ℕ
  pub addr : ℕ
  pub remote_port : ℕ
  pub can_buf_size : ℕ
  pub can_tx_buf : ℕ
  pub can_rx_buf : ℕ

pub record Handle : Type 0 where
  pub config : Config
  pub tx_queue : FramesQueue
  pub rx_queue : FramesQueue
  pub sequence_number : ℕ
  pub udp_pcb : Option ℕ
  pub udp_rx_count : ℕ

-- What the functions work on: the handle, the frame arrays and the network stack.
pub record Node (N : Type 0) : Type 0 where
  pub handle : Handle
  pub store : Store
  pub net : N

module _ (L : Lwip) where
  open L use {Net, udp_new, udp_bind, udp_recv}

  -- The registration of `handle_cannelloni_frame` for the control block is the state of the stack.
  pub init_cannelloni : Handle → Net → Handle × Net
  init_cannelloni h n =
      let h' : Handle = record h {
        sequence_number = 0;
        udp_rx_count = 0;
        tx_queue = queue_init h.config.can_tx_buf h.config.can_buf_size;
        rx_queue = queue_init h.config.can_rx_buf h.config.can_buf_size;
        udp_pcb = (udp_new n).0;
      } in
      elim (udp_new n).0 [
        | none ↦ (h', (udp_new n).1)
        | some pcb ↦
            let bound = udp_bind pcb h.config.port (udp_new n).1 in
            if bound.0 then (h', bound.1) else (h', udp_recv pcb bound.1)
      ]
