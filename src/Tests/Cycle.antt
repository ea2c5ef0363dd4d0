-- ===== src/Tests/Cycle.antt =====
-- The theorems on the main loop at concrete nodes.
use cannelloni_tms.Prelude.{
  ℕ, ◌-◌, ◌≡◌, ◌≤◌, refl, ap, sym, subst, arith, none, some, List, [], ◌∷◌, ◌⊎◌, All, Bool, true,
  false, ltb,
}
use cannelloni_tms.Prelude.{ok}
use cannelloni_tms.Cannelloni.Frame.{Frame, FramePtr, write_frame}
use cannelloni_tms.Cannelloni.Queue.{FramesQueue, queue_init, queue_put}
use cannelloni_tms.Cannelloni.Queue.Inv.{IsValid}
use cannelloni_tms.Cannelloni.Queue.Fifo.{contents}
use cannelloni_tms.Cannelloni.Lwip.{Pbuf}
use cannelloni_tms.Cannelloni.Handle.{Node}
use cannelloni_tms.Cannelloni.Wire.{IsSendable}
use cannelloni_tms.Cannelloni.Transmit.{transmit_udp_frame}
use cannelloni_tms.Cannelloni.Transmit.Datagram.{Sent, has_more, transmit_udp_frame_cases}
use cannelloni_tms.Cannelloni.Run.{TxFn, RxFn, flush, transmit_can_frames, run_cannelloni}
use cannelloni_tms.Cannelloni.Run.Can.{offer, Offered, OfferedAs, transmit_can_frames-OfferedAs}
use cannelloni_tms.Cannelloni.Run.Flush.{Flushed, flush-Flushed}
use cannelloni_tms.Cannelloni.Run.Cycle.{Filled, run_cannelloni-Cycle}
use cannelloni_tms.Main.{node_id, interface_config}
use cannelloni_tms.Main.Channels.{interface_config-port, rx_buf_shared}
use cannelloni_tms.Tests.Sim.{
  Sim, sim, two_bytes, extended, wrapped, wrapped-IsValid, vacant-IsValid, frames_of, node,
  node-IsSendable, loaded,
}

transmit_udp_frame_cases_example :
    ((contents frames_of wrapped ≡ []) × (transmit_udp_frame sim node ≡ ok (false, node)))
    ⊎ ((has_more (contents frames_of wrapped) ≡ true)
        × ((((sim.pbuf_alloc 1200 node.net).0 ≡ none)
              × (transmit_udp_frame sim node
                  ≡ ok (false, record node { net = (sim.pbuf_alloc 1200 node.net).1 })))
            ⊎ ((p : Pbuf) × (more : Bool) × (s' : Node Sim) × ((sim.pbuf_alloc 1200 node.net).0
                  ≡ some p)
                × (transmit_udp_frame sim node ≡ ok (more, s'))
                × Sent sim node (contents frames_of wrapped) more s')))
transmit_udp_frame_cases_example = transmit_udp_frame_cases sim node wrapped-IsValid node-IsSendable

flush-Flushed_example :
    (groups : List (List Frame)) × (s' : Node Sim) × (flush sim 5 node ≡ ok s')
    × Flushed sim node (contents frames_of wrapped) groups s'
flush-Flushed_example = flush-Flushed sim 5 node wrapped-IsValid node-IsSendable (omega arith)

-- A controller with a number of free mailboxes.
abbrev mailboxes : TxFn ℕ
mailboxes f h = ok (ltb 0 h, h - 1)

-- No frame has come in.
abbrev silent : RxFn Sim ℕ
silent s h = ok (s, h)

transmit_can_frames-OfferedAs_example :
    OfferedAs loaded
      (offer mailboxes (contents frames_of wrapped) 2)
      (transmit_can_frames (some mailboxes) loaded 2)
transmit_can_frames-OfferedAs_example =
    transmit_can_frames-OfferedAs mailboxes loaded 2 wrapped-IsValid

silent-Filled :
    (s1 : Node Sim)
    → Offered node [] s1
    → (s2 : Node Sim) × (h2 : ℕ) × Filled sim mailboxes silent s1 2 s2 h2
silent-Filled s1 o = (
  s1,
  2,
  record {
    run = refl;
    valid = subst IsValid (sym (ap (λ s. s.handle.rx_queue) o.same)) wrapped-IsValid;
    sendable =
        subst (λ s. All IsSendable (contents s.store s.handle.rx_queue)) (sym o.same)
          node-IsSendable;
  },
)

run_cannelloni-Cycle_example :
    (s1 : Node Sim) × (s2 : Node Sim) × (h2 : ℕ) × (groups : List (List Frame)) × (s3 : Node Sim)
    × (run_cannelloni sim (some mailboxes) (some silent) node 2 ≡ ok (s3, h2))
    × Offered node [] s1
    × Filled sim mailboxes silent s1 2 s2 h2
    × Flushed sim s2 (contents s2.store s2.handle.rx_queue) groups s3
run_cannelloni-Cycle_example =
    run_cannelloni-Cycle sim mailboxes silent node 2 2 [] vacant-IsValid refl silent-Filled

interface_config-port_example :
    (node_id 0 ≤ 2)
    × ((interface_config 0 1 3).remote_port ≡ (interface_config 0 1 3).port)
    × ((interface_config 0 1 3).port ≡ (interface_config 0 1 2).port
        → (node_id 0 ≡ node_id 0) × (◌≡◌ {A = ℕ} 3 2))
interface_config-port_example = interface_config-port 0 0 1 1 3 2 (omega arith) (omega arith)

rx_buf_shared_example :
    (p : FramePtr) × (qi : FramesQueue) × (qj : FramesQueue) × (queue_put
        (queue_init (interface_config 0 7 0).can_rx_buf (interface_config 0 7 0).can_buf_size)
      ≡ (some p, qi))
    × (queue_put
          (queue_init (interface_config 0 8 3).can_rx_buf (interface_config 0 8 3).can_buf_size)
        ≡ (some p, qj))
    × (contents (write_frame frames_of p two_bytes) qi ≡ two_bytes ∷ [])
    × (contents (write_frame (write_frame frames_of p two_bytes) p extended) qi ≡ extended ∷ [])
rx_buf_shared_example = rx_buf_shared 0 7 8 0 3 frames_of two_bytes extended
