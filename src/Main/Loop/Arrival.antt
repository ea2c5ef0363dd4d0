-- ===== src/Main/Loop/Arrival.antt =====
-- A datagram that arrives at one of the channels.
use cannelloni_tms.Prelude.{
  ℕ, ◌+◌, ◌^◌, ◌≤◌, ◌<◌, ◌≡◌, inl, inr, refl, subst, arith, List, [], ◌∷◌, map, length, length-take,
  All, All-append, All-take, All-drop, some, Option-cases, take, drop, false, Bool-cases, ltb,
}
use cannelloni_tms.Prelude.{ok, Holds}
use cannelloni_tms.Cannelloni.Frame.{Frame, Store, IsByte, canfd_len, read_frame, write_frame}
use cannelloni_tms.Cannelloni.Lwip.{Lwip}
use cannelloni_tms.Cannelloni.Handle.{Node}
use cannelloni_tms.Cannelloni.Queue.{FramesQueue, queue_put}
use cannelloni_tms.Cannelloni.Queue.Inv.{IsValid}
use cannelloni_tms.Cannelloni.Wire.{datagram, encode_all}
use cannelloni_tms.Cannelloni.Short.{
  IsShort, AllShort, AllShort-Slots, short-IsSendable, write_frame-AllShort,
}
use cannelloni_tms.Cannelloni.Receive.{handle_cannelloni_frame}
use cannelloni_tms.Cannelloni.Receive.Grammar.{is_rtr, absorb, complete, land}
use cannelloni_tms.Cannelloni.Receive.Loop.{length-land}
use cannelloni_tms.Cannelloni.Receive.RoundTrip.{IsClassic, wire_of}
use cannelloni_tms.Cannelloni.Receive.Deliver.{pbuf_of, handle_cannelloni_frame-absorb}

-- A data frame of at most eight bytes.
pub record IsShortData (f : Frame) : Type 0 where
  pub short : IsShort f
  pub no_rtr : is_rtr f.can_id ≡ false

IsShortData-IsClassic : (f : Frame) → IsShortData f → IsClassic f
IsShortData-IsClassic f s = record {
  sendable = short-IsSendable f s.short;
  no_fd = omega (arith, s.short.short);
  no_rtr = s.no_rtr;
}

all-IsClassic : (fs : List Frame) → All IsShortData fs → All IsClassic fs
all-IsClassic [] s = tt
all-IsClassic (f ∷ fs) (s, ss) = (IsShortData-IsClassic f s, all-IsClassic fs ss)

-- What lands in a slot from such a frame.
land-IsShort : (f g : Frame) → IsShort f → IsShort g → IsShort (land (wire_of f) g)
land-IsShort f g s t =
    let body = take (canfd_len f) f.payload in
    let size : length body ≤ 8 =
      omega (arith, length-take (canfd_len f) f.payload, s.frame.array) in
    record {
      frame = record {
        can_id_u32 = s.frame.can_id_u32;
        len_u8 = s.frame.len_u8;
        flags_u8 = omega arith;
        array = length-land (wire_of f) g t.frame.array size;
        bytes =
            All-append IsByte body (drop (length body) g.payload)
              (All-take IsByte (canfd_len f) f.payload s.frame.bytes)
              (All-drop IsByte (length body) g.payload t.frame.bytes);
      };
      short = s.short;
    }

absorb-Holds :
    (fs : List Frame) (q : FramesQueue) (st : Store)
    → All IsShortData fs
    → AllShort st
    → Holds (λ r. AllShort r.2) (absorb (map wire_of fs) complete q st)
unfolding absorb
absorb-Holds [] q st s all = all
absorb-Holds (f ∷ fs) q st (s, ss) all = elim (Option-cases (queue_put q).0) [
  | inl full ↦ rw (absorb, full) all
  | inr (p, room) ↦ elim (Bool-cases (ltb 8 (length (wire_of f).body))) [
    | inl long ↦ rw (absorb, room, long) tt
    | inr fits ↦
        rw (absorb, room, fits)
          (absorb-Holds fs (queue_put q).1 (write_frame st p (land (wire_of f) (read_frame st p)))
            ss
            (write_frame-AllShort st p (land (wire_of f) (read_frame st p)) all
              (land-IsShort f (read_frame st p) s.short (all p.base p.index))))
  ]
]

module _ (L : Lwip) where
  open L use {Net}

  -- A datagram of short data frames on a node with a valid transmit queue and a store of short
  -- frames: it is handled, and the queue is valid and the store one of short frames again.
  pub arrival-AllShort :
      (seq : ℕ) (f : Frame) (fs : List Frame) (s : Node Net)
      → All IsShortData (f ∷ fs)
      → length (encode_all (f ∷ fs)) + 6 < 2 ^ 16
      → IsValid s.handle.tx_queue
      → AllShort s.store
      → (s' : Node Net) × (handle_cannelloni_frame L (some (pbuf_of (datagram seq (f ∷ fs)))) s
          ≡ ok s')
        × IsValid s'.handle.tx_queue
        × (s'.handle.rx_queue ≡ s.handle.rx_queue)
        × AllShort s'.store
  arrival-AllShort seq f fs s d small v all =
      let (lost, q, st, run, acc, handled) =
        handle_cannelloni_frame-absorb L seq f fs s (all-IsClassic (f ∷ fs) d) small v
          (AllShort-Slots s.store all) in
      let frames : AllShort st =
        subst (Holds (λ r. AllShort r.2)) run
          (absorb-Holds (f ∷ fs) s.handle.tx_queue s.store d all) in
      (_, handled, acc.valid, refl, frames)
