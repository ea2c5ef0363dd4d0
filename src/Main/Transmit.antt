-- ===== src/Main/Transmit.antt =====
-- `on_can_transmit` of src/main.c: a frame of the transmit queue goes to the CAN controller.
use cannelloni_tms.Prelude.{ℕ, ◌%◌, ◌≤◌, ◌≡◌, arith, Bool, length}
use cannelloni_tms.Prelude.{Exec, ok, fault, read_oob}
use cannelloni_tms.Cannelloni.Frame.{Frame}
use cannelloni_tms.Can.{Dcan, Hardware, can_if_wait_ready, can_send}
use cannelloni_tms.Can.Overrun.{can_send-overrun}
use cannelloni_tms.Can.Controller.{Controller, can_send-returns}
use cannelloni_tms.Cannelloni.Short.{IsShort}

module _ {M : Type 0} (hw : Hardware M) (fuel : ℕ) where
  pub on_can_transmit : Frame → Dcan M → Exec (Bool × Dcan M)
  on_can_transmit frame h = can_send hw fuel h frame.can_id frame.len frame.payload

  -- A frame of at most eight bytes is taken or refused.
  pub on_can_transmit-returns :
      (c : Controller hw fuel) (frame : Frame) (h : Dcan M)
      → c.Works h
      → IsShort frame
      → (b : Bool) × (h' : Dcan M) × (on_can_transmit frame h ≡ ok (b, h')) × c.Works h'
  unfolding on_can_transmit
  on_can_transmit-returns c frame h works s =
      can_send-returns hw fuel c h frame.can_id frame.len frame.payload works s.short s.frame.array
        s.frame.bytes

  -- A CAN FD frame, whose length byte has its top bit set, makes the driver read past the end of its
  -- table when no transmission is pending and the interface gets ready.
  pub on_can_transmit-fd :
      (frame : Frame) (h h1 : Dcan M)
      → h.txrq % 2 ≡ 0
      → can_if_wait_ready hw fuel h ≡ ok h1
      → 128 ≤ frame.len
      → length frame.payload ≡ 8
      → length h1.if1dat ≡ 8
      → on_can_transmit frame h ≡ fault read_oob
  unfolding on_can_transmit
  on_can_transmit-fd frame h h1 idle ready fd k l =
      can_send-overrun hw fuel h h1 frame.can_id frame.len frame.payload idle ready (omega arith) k
        l
