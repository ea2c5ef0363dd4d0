-- ===== src/Bridge/Serve.antt =====
-- Frames on their way through the bridge, into the gateway.
use cannelloni_tms.Prelude.{
  ℕ, ◌<◌, ◌≡◌, refl, ap, arith, List, [], ◌∷◌, length, length-append, some, true, false, ◌==◌,
}
use cannelloni_tms.Prelude.{ok}
use cannelloni_tms.Cannelloni.Frame.{canfd_len-mod}
use cannelloni_tms.Cannelloni.Queue.Inv.{IsValid}
use cannelloni_tms.Cannelloni.Lwip.{Lwip}
use cannelloni_tms.Cannelloni.Handle.{Node}
use cannelloni_tms.Cannelloni.Wire.{datagram, encode, length-encode}
use cannelloni_tms.Cannelloni.Receive.{handle_cannelloni_frame}
use cannelloni_tms.Cannelloni.Receive.Grammar.{is_rtr}
use cannelloni_tms.Cannelloni.Receive.Loop.{Slots}
use cannelloni_tms.Cannelloni.Receive.RoundTrip.{IsClassic, wire_of}
use cannelloni_tms.Cannelloni.Receive.Deliver.{
  Delivered, pbuf_of, handle_cannelloni_frame-Delivered,
}
use cannelloni_tms.Bridge.{
  CanFrame, Locals, Host, can, udp, Fds, get_fd, bind_fd, add, endpoint_read, endpoint_write,
  forward, run_events,
}
use cannelloni_tms.Bridge.Written.{IsCan, gateway_frame, written-datagram}

gateway_frame-IsClassic :
    (f : CanFrame) → IsCan f → is_rtr f.can_id ≡ false → IsClassic (gateway_frame f)
gateway_frame-IsClassic f c no_rtr =
    let len : f.can_dlc < 256 = omega (arith, c.short) in
    record {
      sendable = record {
        frame = record {
          can_id_u32 = c.can_id_u32;
          len_u8 = len;
          flags_u8 = omega arith;
          array = c.array;
          bytes = c.bytes;
        };
        fits = omega (arith, canfd_len-mod (gateway_frame f) len, c.short);
      };
      no_fd = omega (arith, c.short);
      no_rtr = no_rtr;
    }

-- The sockets of one bridge are in the map.
add-both :
    (can_fd udp_fd : ℕ) (fds : Fds)
    → (can_fd ≡ udp_fd → ⊥)
    → (add can_fd udp_fd fds can_fd ≡ some (record { rx = can can_fd; tx = udp udp_fd }))
      × (add can_fd udp_fd fds udp_fd ≡ some (record { rx = udp udp_fd; tx = can can_fd }))
unfolding add bind_fd get_fd
add-both can_fd udp_fd fds ne =
    let a : (can_fd == udp_fd) ≡ false = ground arith in
    let b : (can_fd == can_fd) ≡ true = ground arith in
    let c : (udp_fd == udp_fd) ≡ true = ground arith in (rw (a, b) refl, rw c refl)

-- The result of an event loop goes on behind one event that is served.
served :
    (H : Host) (l : Locals) (fds : Fds) (fd : ℕ) (evts : List ℕ) (s s' : H.Sys)
    → forward H l (fds fd) s ≡ ok (some s')
    → run_events H l fds (fd ∷ evts) s ≡ run_events H l fds evts s'
unfolding run_events
served H l fds fd evts s s' e = rw (run_events, e) refl

module _ (H : Host) (l : Locals) (L : Lwip) where
  open H use {Sys, sendto, read_can}
  open L use {Net, pbuf_free}

  -- A data frame of at most 8 bytes waits at a CAN interface that the bridge was given together with
  -- another socket, its event comes first, and the send of the frame's datagram succeeds. Then the
  -- event loop sends that datagram and goes on with the other events; and a gateway that gets the
  -- datagram, with a valid transmit queue and slots of eight data bytes, puts the frame into this
  -- queue if there is room, and frees the buffer.
  pub run_events-Delivered :
      (fds : Fds) (can_fd udp_fd : ℕ) (evts : List ℕ) (f : CanFrame) (s s1 s2 : Sys)
      (node : Node Net)
      → (can_fd ≡ udp_fd → ⊥)
      → read_can can_fd s ≡ (some f, s1)
      → sendto udp_fd (datagram 0 (gateway_frame f ∷ [])) s1 ≡ (true, s2)
      → IsCan f
      → is_rtr f.can_id ≡ false
      → length l.tx ≡ 128
      → IsValid node.handle.tx_queue
      → Slots node.store
      → let bytes = datagram 0 (gateway_frame f ∷ []) in
        (run_events H l (add can_fd udp_fd fds) (can_fd ∷ evts) s
          ≡ run_events H l (add can_fd udp_fd fds) evts s2)
        × (node' : Node Net) × (handle_cannelloni_frame L (some (pbuf_of bytes)) node ≡ ok node')
        × Delivered node (wire_of (gateway_frame f) ∷ []) node'
        × (node'.net ≡ pbuf_free (pbuf_of bytes) node.net)
  unfolding forward endpoint_read endpoint_write
  run_events-Delivered fds can_fd udp_fd evts f s s1 s2 node ne got sent c no_rtr room v slots =
      let classic = gateway_frame-IsClassic f c no_rtr in
      let tunnel = (add-both can_fd udp_fd fds ne).0 in
      let next : (read_can can_fd s).1 ≡ s1 = ap (λ r. r.1) got in
      let one : forward H l (add can_fd udp_fd fds can_fd) s ≡ ok (some s2) =
        rw (tunnel, forward, endpoint_read, got, endpoint_write, written-datagram l f c room, next)
          (rw sent refl) in
      let (node', run, d, net) =
        handle_cannelloni_frame-Delivered L 0 (gateway_frame f) [] node (classic, tt)
          (omega (
            arith,
            length-append (encode (gateway_frame f)) [],
            length-encode (gateway_frame f) classic.sendable,
            classic.sendable.fits,
          ))
          v slots in
      (served H l (add can_fd udp_fd fds) can_fd evts s s2 one, node', run, d, net)
