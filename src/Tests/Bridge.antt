-- ===== src/Tests/Bridge.antt =====
-- The theorems on the bridge at concrete frames, and a host that keeps what it is given.
use cannelloni_tms.Prelude.{
  ℕ, ◌≤◌, ◌<◌, ◌≡◌, refl, arith, List, [], ◌∷◌, ◌++◌, map, length-append, none, some, true, All,
}
use cannelloni_tms.Prelude.{ok, fault, write_oob}
use cannelloni_tms.Cannelloni.Handle.{Node}
use cannelloni_tms.Cannelloni.Wire.{datagram, encode, encode_all, length-encode}
use cannelloni_tms.Cannelloni.Receive.{handle_cannelloni_frame}
use cannelloni_tms.Cannelloni.Receive.RoundTrip.{wire_of}
use cannelloni_tms.Cannelloni.Receive.Deliver.{Delivered, pbuf_of}
use cannelloni_tms.Bridge.{CanFrame, Locals, Host, Fds, add, written, received, run_events}
use cannelloni_tms.Bridge.Written.{IsCan, gateway_frame, size, written-bounded}
use cannelloni_tms.Bridge.Received.{host_frame, received-datagram}
use cannelloni_tms.Cannelloni.Short.{IsShort}
use cannelloni_tms.Bridge.Reading.{received-overrun}
use cannelloni_tms.Bridge.Serve.{run_events-Delivered}
use cannelloni_tms.Tests.Sim.{
  Sim, zeros, length-zeros, sim, node, two_bytes, extended, two_bytes-IsClassic, extended-IsClassic,
  vacant-IsValid, frames_of-Slots,
}

abbrev brake : CanFrame
brake = record { can_id = 0x123; can_dlc = 2; payload = 0xAA ∷ 0xBB ∷ 0 ∷ 0 ∷ 0 ∷ 0 ∷ 0 ∷ 0 ∷ [] }

brake-IsCan : IsCan brake
brake-IsCan = record {
  can_id_u32 = omega arith;
  short = omega arith;
  array = refl;
  bytes = omega arith;
}

abbrev cleared : Locals
cleared = record {
  buffer = zeros 1024;
  tx = zeros 128;
  frame = record { can_id = 0; can_dlc = 0; payload = zeros 8 };
}

written-bounded_example :
    (size (brake ∷ brake ∷ []) ≤ 123
      → written cleared (brake ∷ brake ∷ [])
        ≡ ok (2 ∷ 0 ∷ 0 ∷ 0 ∷ 1 ∷ encode_all (map gateway_frame (brake ∷ brake ∷ []))))
    × (123 < size (brake ∷ brake ∷ []) → written cleared (brake ∷ brake ∷ []) ≡ fault write_oob)
written-bounded_example =
    written-bounded cleared (brake ∷ brake ∷ []) (brake-IsCan, (brake-IsCan, tt)) (length-zeros 128)

frames-IsShort : All IsShort (two_bytes ∷ extended ∷ [])
frames-IsShort = (
  record { frame = two_bytes-IsClassic.sendable.frame; short = omega arith },
  (record { frame = extended-IsClassic.sendable.frame; short = omega arith }, tt),
)

received-datagram_example :
    received cleared (datagram 7 (two_bytes ∷ extended ∷ [])) (brake ∷ [])
    ≡ ok ((brake ∷ []) ++ map (host_frame cleared.frame) (two_bytes ∷ extended ∷ []), 0)
received-datagram_example =
    received-datagram cleared 7 (two_bytes ∷ extended ∷ []) (brake ∷ []) frames-IsShort
      (length-zeros 1024) refl
      (omega (
        arith,
        length-append (encode two_bytes) (encode extended ++ []),
        length-append (encode extended) [],
        length-encode two_bytes two_bytes-IsClassic.sendable,
        length-encode extended extended-IsClassic.sendable,
        two_bytes-IsClassic.sendable.fits,
        extended-IsClassic.sendable.fits,
      ))

received-overrun_example :
    received cleared
      (2 ∷ 0 ∷ 0 ∷ 0 ∷ 1 ∷ 0 ∷ 0 ∷ 1 ∷ 0x23 ∷ 9 ∷ 1 ∷ 2 ∷ 3 ∷ 4 ∷ 5 ∷ 6 ∷ 7 ∷ 8 ∷ 9 ∷ [])
      []
    ≡ fault write_oob
received-overrun_example =
    received-overrun cleared 2 0 0 0 1 0 0 1 0x23 (1 ∷ 2 ∷ 3 ∷ 4 ∷ 5 ∷ 6 ∷ 7 ∷ 8 ∷ 9 ∷ []) [] []
      (length-zeros 1024) refl (omega arith) (omega arith)

-- The frame waits, and all sends succeed.
abbrev host : Host
host = record {
  Sys = List (List ℕ);
  recv = λ fd s. ([], s);
  sendto = λ fd bytes s. (true, bytes ∷ s);
  read_can = λ fd s. (some brake, s);
  write_can = λ fd f s. (true, s);
}

abbrev no_fds : Fds
no_fds fd = none

run_events-Delivered_example :
    (run_events host cleared (add 4 5 no_fds) (4 ∷ []) []
      ≡ run_events host cleared (add 4 5 no_fds) [] (datagram 0 (gateway_frame brake ∷ []) ∷ []))
    × (node' : Node Sim) × (handle_cannelloni_frame sim
          (some (pbuf_of (datagram 0 (gateway_frame brake ∷ []))))
          node
        ≡ ok node')
    × Delivered node (wire_of (gateway_frame brake) ∷ []) node'
    × (node'.net ≡ sim.pbuf_free (pbuf_of (datagram 0 (gateway_frame brake ∷ []))) node.net)
run_events-Delivered_example =
    run_events-Delivered host cleared sim no_fds 4 5 [] brake [] []
      (datagram 0 (gateway_frame brake ∷ []) ∷ []) node (λ e. omega (arith, e)) refl refl
      brake-IsCan two_bytes-IsClassic.no_rtr (length-zeros 128) vacant-IsValid frames_of-Slots
