-- ===== src/Main/Channels.antt =====
-- How the four channels of a node are told apart, and what they share.
use cannelloni_tms.Prelude.{ℕ, ◌<◌, ◌≤◌, ◌≡◌, refl, arith, [], ◌∷◌, some}
use cannelloni_tms.Cannelloni.Frame.{Frame, FramePtr, Store, write_frame}
use cannelloni_tms.Cannelloni.Queue.{FramesQueue, queue_init, queue_put}
use cannelloni_tms.Cannelloni.Queue.Fifo.{contents, queue_put-fresh}
use cannelloni_tms.Main.{node_id, interface_config, can_ifaces, cnl_buf_size, rx_buf}

-- The number of a node is at most 2, a channel sends to the port that it listens on, and channels
-- with one port are the same channel of nodes with the same number.
pub interface_config-port :
    (die die' addr addr' i j : ℕ)
    → i < can_ifaces
    → j < can_ifaces
    → (node_id die ≤ 2)
      × ((interface_config die addr i).remote_port ≡ (interface_config die addr i).port)
      × ((interface_config die addr i).port ≡ (interface_config die' addr' j).port
          → (node_id die ≡ node_id die') × (i ≡ j))
unfolding interface_config node_id
interface_config-port die die' addr addr' i j hi hj = (ground arith, refl, λ e. ground arith)

-- The receive queues of any two channels of a node, as `init_cannelloni` sets them up, lie over
-- one array: the first `queue_put` of each gives out the same slot, so a frame that the second
-- channel receives there replaces the one frame in the queue of the first.
pub rx_buf_shared :
    (die addr addr' i j : ℕ) (st : Store) (f g : Frame)
    → let ci = interface_config die addr i in
      let cj = interface_config die addr' j in
      (p : FramePtr) × (qi : FramesQueue) × (qj : FramesQueue) × (queue_put
          (queue_init ci.can_rx_buf ci.can_buf_size)
        ≡ (some p, qi))
      × (queue_put (queue_init cj.can_rx_buf cj.can_buf_size) ≡ (some p, qj))
      × (contents (write_frame st p f) qi ≡ f ∷ [])
      × (contents (write_frame (write_frame st p f) p g) qi ≡ g ∷ [])
unfolding interface_config
rx_buf_shared die addr addr' i j st f g =
    let (p, q, e, c) = queue_put-fresh (rx_buf 0) cnl_buf_size (omega arith) (omega arith) in
    (p, q, q, e, e, c st f, c (write_frame st p f) g)
