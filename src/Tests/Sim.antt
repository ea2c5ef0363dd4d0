-- ===== src/Tests/Sim.antt =====
-- Test data: a network stack that keeps what it is given, CAN frames, queues and nodes.
use cannelloni_tms.Prelude.{
  ℕ, zero, suc, ◌+◌, ◌-◌, ◌≡◌, refl, ap, sym, ◌∙◌, arith, Option, none, some, List, [], ◌∷◌, ◌++◌,
  length, All, false, if◌then◌else◌, ◌==◌,
}
use cannelloni_tms.Cannelloni.Frame.{Frame, Store, canfd_len-mod}
use cannelloni_tms.Cannelloni.Queue.{FramesQueue}
use cannelloni_tms.Cannelloni.Queue.Inv.{IsValid}
use cannelloni_tms.Cannelloni.Queue.Fifo.{contents}
use cannelloni_tms.Cannelloni.Lwip.{Lwip, Pbuf, Datagram}
use cannelloni_tms.Cannelloni.Handle.{Node}
use cannelloni_tms.Cannelloni.Wire.{IsSendable}
use cannelloni_tms.Cannelloni.Receive.RoundTrip.{IsClassic}
use cannelloni_tms.Cannelloni.Receive.Loop.{Slots}

pub record Sim : Type 0 where
  pub sent : List Datagram
  pub buffers : ℕ

abbrev pub zeros : ℕ → List ℕ
zeros zero = []
zeros (suc n) = 0 ∷ zeros n

pub length-zeros : (n : ℕ) → length (zeros n) ≡ n
length-zeros zero = refl
length-zeros (suc n) = ap suc (length-zeros n)

abbrev pub sim_alloc : ℕ → Sim → Option Pbuf × Sim
sim_alloc size n =
    (some (record { tot_len = size; payload = zeros size }), record n { buffers = n.buffers + 1 })

pub sim-alloc_size :
    (size : ℕ) (n : Sim) (p : Pbuf)
    → (sim_alloc size n).0 ≡ some p
    → (p.tot_len ≡ size) × (length p.payload ≡ size)
sim-alloc_size size n p e =
    let same : record { tot_len = size; payload = zeros size } ≡ p = cc e in
    (ap (λ x. x.tot_len) (sym same), ap (λ x. length x.payload) (sym same) ∙ length-zeros size)

pub sim-live_none :
    (size : ℕ) (n : Sim) → (sim_alloc size n).0 ≡ none → (sim_alloc size n).1.buffers ≡ n.buffers
sim-live_none size n e = absurd (cc e)

abbrev pub sim : Lwip
sim = record {
  Net = Sim;
  udp_new = λ n. (some 1, n);
  udp_bind = λ pcb port n. (false, n);
  udp_recv = λ pcb n. n;
  pbuf_alloc = sim_alloc;
  pbuf_free = λ p n. record n { buffers = n.buffers - 1 };
  udp_sendto = λ pcb p addr port n. record n {
    sent = n.sent ++ (record { addr = addr; port = port; payload = p.payload } ∷ []);
  };
  handed = λ n. n.sent;
  live = λ n. n.buffers;
  alloc_size = sim-alloc_size;
  handed-alloc = λ size n. refl;
  live-alloc = λ size n p e. refl;
  live-alloc_none = sim-live_none;
  handed-free = λ p n. refl;
  live-free = λ p n k e. omega arith;
  handed-sendto = λ pcb p addr port n. refl;
  live-sendto = λ pcb p addr port n. refl;
}

abbrev pub idle : Sim
idle = record { sent = []; buffers = 0 }

abbrev pub blank : Frame
blank = record { can_id = 0; len = 0; flags = 0; payload = 0 ∷ 0 ∷ 0 ∷ 0 ∷ 0 ∷ 0 ∷ 0 ∷ 0 ∷ [] }

abbrev pub two_bytes : Frame
two_bytes = record {
  can_id = 0x123;
  len = 2;
  flags = 0;
  payload = 0xAA ∷ 0xBB ∷ 0 ∷ 0 ∷ 0 ∷ 0 ∷ 0 ∷ 0 ∷ [];
}

abbrev pub extended : Frame
extended = record {
  can_id = 0x9876_5432;
  len = 8;
  flags = 0;
  payload = 1 ∷ 2 ∷ 3 ∷ 4 ∷ 5 ∷ 6 ∷ 7 ∷ 8 ∷ [];
}

two_bytes-IsSendable : IsSendable two_bytes
two_bytes-IsSendable = record {
  frame = record {
    can_id_u32 = omega arith;
    len_u8 = omega arith;
    flags_u8 = omega arith;
    array = refl;
    bytes = omega arith;
  };
  fits = omega (arith, canfd_len-mod two_bytes);
}

extended-IsSendable : IsSendable extended
extended-IsSendable = record {
  frame = record {
    can_id_u32 = omega arith;
    len_u8 = omega arith;
    flags_u8 = omega arith;
    array = refl;
    bytes = omega arith;
  };
  fits = omega (arith, canfd_len-mod extended);
}

pub two_bytes-IsClassic : IsClassic two_bytes
two_bytes-IsClassic = record { sendable = two_bytes-IsSendable; no_fd = omega arith; no_rtr = refl }

pub extended-IsClassic : IsClassic extended
extended-IsClassic = record { sendable = extended-IsSendable; no_fd = omega arith; no_rtr = refl }

-- Three frames, round the end of an array of four.
abbrev pub wrapped : FramesQueue
wrapped = record { head = 3; tail = 2; count = 4; frames = 1 }

-- No frame, in the middle of an array of four.
abbrev pub vacant : FramesQueue
vacant = record { head = 2; tail = 2; count = 4; frames = 0 }

pub wrapped-IsValid : IsValid wrapped
wrapped-IsValid = record {
  nonempty = omega arith;
  small = omega arith;
  head_in = omega arith;
  tail_in = omega arith;
}

pub vacant-IsValid : IsValid vacant
vacant-IsValid = record {
  nonempty = omega arith;
  small = omega arith;
  head_in = omega arith;
  tail_in = omega arith;
}

abbrev pub frames_of : Store
frames_of b i =
    if b == 1 then (if i == 3 then two_bytes else if i == 0 then extended else two_bytes) else blank

pub frames_of-Slots : Slots frames_of
frames_of-Slots b i = ground arith

abbrev pub node : Node Sim
node = record {
  handle = record {
    config = record {
      port = 20011;
      addr = 7;
      remote_port = 20011;
      can_buf_size = 4;
      can_tx_buf = 0;
      can_rx_buf = 1;
    };
    tx_queue = vacant;
    rx_queue = wrapped;
    sequence_number = 41;
    udp_pcb = some 1;
    udp_rx_count = 0;
  };
  store = frames_of;
  net = idle;
}

pub node-IsSendable : All IsSendable (contents frames_of wrapped)
node-IsSendable = (two_bytes-IsSendable, (extended-IsSendable, (two_bytes-IsSendable, tt)))

-- The transmit queue of this node holds the three frames.
abbrev pub loaded : Node Sim
loaded = record node { handle = record node.handle { tx_queue = wrapped; rx_queue = vacant } }
