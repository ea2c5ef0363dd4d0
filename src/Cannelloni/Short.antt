-- ===== src/Cannelloni/Short.antt =====
-- Stores in which every frame is a classic one of at most eight bytes.
use cannelloni_tms.Prelude.{
  ℕ, zero, suc, ◌+◌, ◌%◌, ◌≤◌, inl, inr, arith, List, [], ◌∷◌, All, Bool-cases, ◌&&◌, ◌==◌,
}
use cannelloni_tms.Cannelloni.Frame.{Frame, FramePtr, Store, IsFrame, write_frame, canfd_len-mod}
use cannelloni_tms.Cannelloni.Queue.{FramesQueue}
use cannelloni_tms.Cannelloni.Queue.Fifo.{contents, window}
use cannelloni_tms.Cannelloni.Wire.{IsSendable}
use cannelloni_tms.Cannelloni.Receive.Loop.{Slots}

-- A frame that is not a CAN FD frame, of at most 8 bytes.
pub record IsShort (f : Frame) : Type 0 where
  pub frame : IsFrame f
  pub short : f.len ≤ 8

abbrev pub AllShort : Store → Type 0
AllShort st = (b i : ℕ) → IsShort (st b i)

pub short-IsSendable : (f : Frame) → IsShort f → IsSendable f
short-IsSendable f s = record {
  frame = s.frame;
  fits = omega (arith, canfd_len-mod f s.frame.len_u8, s.short);
}

pub AllShort-Slots : (st : Store) → AllShort st → Slots st
AllShort-Slots st s b i = (s b i).frame.array

pub write_frame-AllShort :
    (st : Store) (p : FramePtr) (f : Frame)
    → AllShort st
    → IsShort f
    → AllShort (write_frame st p f)
write_frame-AllShort st p f s h b i = elim (Bool-cases (b == p.base && i == p.index)) [
  | inl here ↦ rw here h
  | inr other ↦ rw other (s b i)
]

window-AllShort :
    (count : ℕ) (row : ℕ → Frame)
    → ((i : ℕ) → IsShort (row i))
    → (h n : ℕ) → All IsShort (window count row h n)
window-AllShort count row s h zero = tt
window-AllShort count row s h (suc n) = (s h, window-AllShort count row s ((h + 1) % count) n)

pub contents-AllShort : (st : Store) (q : FramesQueue) → AllShort st → All IsShort (contents st q)
contents-AllShort st q s = window-AllShort q.count (st q.frames) (s q.frames) q.head _

pub all-IsSendable : (fs : List Frame) → All IsShort fs → All IsSendable fs
all-IsSendable [] s = tt
all-IsSendable (f ∷ fs) (s, ss) = (short-IsSendable f s, all-IsSendable fs ss)
