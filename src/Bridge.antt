-- ===== src/Bridge.antt =====
-- bridge/cannelloni_bridge.cpp: the program for Linux that forwards frames between a CAN interface
-- and a channel of the gateway. Modelled are the endpoints and the event loop; sockets, and the
-- discovery of services by Avahi, are not. `exit(1)` is `none`.
pub mod Written
pub mod Received
pub mod Reading
pub mod Serve
use cannelloni_tms.Prelude.{
  ℕ, zero, suc, ◌+◌, ◌*◌, ◌-◌, ◌%◌, ◌^◌, bit_or, Option, none, some, Bool, true, false, List, [],
  ◌∷◌, ◌++◌, length, take, ltb, ◌==◌, if◌then◌else◌,
}
use cannelloni_tms.Prelude.{Exec, ok, fault, stuck, read_oob, ◌>>=◌}
use cannelloni_tms.Cannelloni.Bytes.{load_byte, load_bytes, store_bytes}
use cannelloni_tms.Cannelloni.Receive.{word32}
use cannelloni_tms.Cannelloni.Wire.{be32}

-- `struct can_frame` of the Linux kernel, as far as the program uses it; `payload` is its array
-- `data` of 8 bytes.
pub record CanFrame : Type 0 where
  pub can_id : ℕ
  pub can_dlc : ℕ
  pub payload : List ℕ

-- The local arrays that are not initialised: what they happen to hold.
pub record Locals : Type 0 where
  pub buffer : List ℕ
  pub tx : List ℕ
  pub frame : CanFrame

-- Sockets. A datagram without bytes stands for a result of `::read` that is not positive. The other
-- results tell whether as much was read or written as was asked for.
pub record Host : Type 1 where
  pub Sys : Type 0
  pub recv : ℕ → Sys → List ℕ × Sys
  pub sendto : ℕ → List ℕ → Sys → Bool × Sys
  pub read_can : ℕ → Sys → Option CanFrame × Sys
  pub write_can : ℕ → CanFrame → Sys → Bool × Sys

-- The loop over the bytes of a frame, with `n` of them left: the array, and `pos`.
pub copy_data : ℕ → ℕ → ℕ → List ℕ → List ℕ → Exec (List ℕ × ℕ)
copy_data zero i pos buffer payload = ok (payload, pos)
copy_data (suc n) i pos buffer payload = do
  b ← load_byte buffer pos
  payload' ← store_bytes payload i (b ∷ [])
  copy_data n (i + 1) (pos + 1) buffer payload'

-- One round of the loop over a datagram: the frame, and `pos`.
pub read_one : CanFrame → List ℕ → ℕ → Exec (CanFrame × ℕ)
read_one frame buffer pos = do
  b0 ← load_byte buffer pos
  b1 ← load_byte buffer (pos + 1)
  b2 ← load_byte buffer (pos + 2)
  b3 ← load_byte buffer (pos + 3)
  len ← load_byte buffer (pos + 4)
  r ← copy_data len 0 (pos + 5) buffer frame.payload
  ok (record { can_id = word32 b0 b1 b2 b3; can_dlc = len; payload = r.0 }, r.1)

-- The loop over the `n` bytes of a datagram: the frames behind `frames`, and `count`.
pub read_frames : ℕ → CanFrame → ℕ → List ℕ → ℕ → ℕ → List CanFrame → Exec (List CanFrame × ℕ)
read_frames zero frame n buffer pos count frames = stuck
read_frames (suc fuel) frame n buffer pos count frames = elim (ltb pos n) [
  | false ↦ ok (frames, count)
  | true ↦ read_one frame buffer pos >>= λ r.
      read_frames fuel frame n buffer r.1 ((count + 2 ^ 16 - 1) % 2 ^ 16) (frames ++ (r.0 ∷ []))
]

-- `UDPEndpoint::read` from the bytes of a datagram on. Each round goes on by 5 bytes or more, so as
-- many rounds as bytes are enough. The number of frames that are missing is printed by the source.
pub received : Locals → List ℕ → List CanFrame → Exec (List CanFrame × ℕ)
received l bytes frames = do
  buffer ← store_bytes l.buffer 0 bytes
  high ← load_byte buffer 3
  low ← load_byte buffer 4
  read_frames (length bytes) l.frame (length bytes) buffer 5 (bit_or (high * 2 ^ 8) low) frames

-- The loop of `UDPEndpoint::write`: the array, and `pos`.
pub write_frames : List CanFrame → List ℕ → ℕ → Exec (List ℕ × ℕ)
write_frames [] tx pos = ok (tx, pos)
write_frames (frame ∷ frames) tx pos = do
  tx1 ← store_bytes tx pos (be32 frame.can_id)
  tx2 ← store_bytes tx1 (pos + 4) (frame.can_dlc ∷ [])
  bytes ← load_bytes frame.payload 0 frame.can_dlc
  tx3 ← store_bytes tx2 (pos + 5) bytes
  write_frames frames tx3 (pos + 5 + frame.can_dlc)

-- The bytes that `UDPEndpoint::write` sends.
pub written : Locals → List CanFrame → Exec (List ℕ)
written l frames = do
  tx ← store_bytes l.tx 0 (2 ∷ 0 ∷ 0 ∷ 0 ∷ 1 ∷ [])
  r ← write_frames frames tx 5
  load_bytes r.0 0 r.1

-- An endpoint has the number of its socket.
pub data Endpoint : Type 0 where
  can : ℕ → Endpoint
  udp : ℕ → Endpoint

pub get_fd : Endpoint → ℕ
get_fd (can fd) = fd
get_fd (udp fd) = fd

pub record Bridge : Type 0 where
  pub rx : Endpoint
  pub tx : Endpoint

-- The map `fds`.
abbrev pub Fds : Type 0
Fds = ℕ → Option Bridge

pub bind_fd : ℕ → Bridge → Fds → Fds
bind_fd fd b fds j = if j == fd then some b else fds j

-- `Runner::add`, for the sockets that the constructors of the two endpoints got.
pub add : ℕ → ℕ → Fds → Fds
add can_fd udp_fd fds =
    bind_fd (get_fd (udp udp_fd)) (record { rx = udp udp_fd; tx = can can_fd })
      (bind_fd (get_fd (can can_fd)) (record { rx = can can_fd; tx = udp udp_fd }) fds)

module _ (H : Host) (l : Locals) where
  open H use {Sys, recv, sendto, read_can, write_can}

  -- `CANEndpoint::write`
  pub write_all : ℕ → List CanFrame → Sys → Option Sys
  write_all fd [] s = some s
  write_all fd (frame ∷ frames) s =
      let rest = write_all fd frames (write_can fd frame s).1 in
      if (write_can fd frame s).0 then rest else none

  pub endpoint_read : Endpoint → List CanFrame → Sys → Exec (Option (List CanFrame × Sys))
  endpoint_read (can fd) frames s = elim (read_can fd s).0 [
    | none ↦ ok none
    | some frame ↦ ok (some (frames ++ (frame ∷ []), (read_can fd s).1))
  ]
  endpoint_read (udp fd) frames s = elim (recv fd s).0 [
    | [] ↦ ok none
    | b ∷ bs ↦ received l (b ∷ bs) frames >>= λ r. ok (some (r.0, (recv fd s).1))
  ]

  pub endpoint_write : Endpoint → List CanFrame → Sys → Exec (Option Sys)
  endpoint_write (can fd) frames s = ok (write_all fd frames s)
  endpoint_write (udp fd) frames s = written l frames >>= λ bytes.
      ok (if (sendto fd bytes s).0 then some (sendto fd bytes s).1 else none)

  -- The body of the loop over the events. The vector is cleared first. A number that is not in the
  -- map gives a bridge of null pointers.
  pub forward : Option Bridge → Sys → Exec (Option Sys)
  forward none s = fault read_oob
  forward (some tunnel) s = endpoint_read tunnel.rx [] s >>= λ r. elim r [
    | none ↦ ok none
    | some got ↦ endpoint_write tunnel.tx got.0 got.1
  ]

  -- The loop over the events of one `epoll_wait`, which are numbers of sockets.
  pub run_events : Fds → List ℕ → Sys → Exec (Option Sys)
  run_events fds [] s = ok (some s)
  run_events fds (fd ∷ evts) s =
      forward (fds fd) s >>= λ r. elim r [ none ↦ ok none | some s' ↦ run_events fds evts s' ]
