-- ===== src/Cannelloni/Queue/Inv.antt =====
-- The representation invariant of `frames_queue_t`, and what every operation leaves alone.
use cannelloni_tms.Prelude.{
  ℕ, ◌+◌, ◌-◌, ◌^◌, ◌<◌, ◌≡◌, refl, some, ◌⊎◌, inl, inr, if◌then◌else◌, leb, arith,
}
use cannelloni_tms.Cannelloni.Frame.{FramePtr}
use cannelloni_tms.Cannelloni.Queue.{FramesQueue, queue_init, queue_put, queue_take, queue_peek}

pub record IsValid (q : FramesQueue) : Type 0 where
  pub nonempty : 0 < q.count
  pub small : q.count < 2 ^ 32
  pub head_in : q.head < q.count
  pub tail_in : q.tail < q.count

-- The number of frames that the queue holds.
abbrev pub occupancy : FramesQueue → ℕ
occupancy q = if leb q.head q.tail then q.tail - q.head else q.tail + q.count - q.head

-- A fresh queue over an array of `count` frames is valid and empty.
pub queue_init-IsValid :
    (frames count : ℕ)
    → 0 < count
    → count < 2 ^ 32
    → IsValid (queue_init frames count) × (occupancy (queue_init frames count) ≡ 0)
unfolding queue_init
queue_init-IsValid frames count h k = ground arith

-- `queue_put` keeps a valid queue valid, whether or not it has room.
pub queue_put-IsValid : {q : FramesQueue} → IsValid q → IsValid (queue_put q).1
unfolding queue_put
queue_put-IsValid v = ground arith

-- `queue_take` keeps a valid queue valid, whether or not it is empty.
pub queue_take-IsValid : {q : FramesQueue} → IsValid q → IsValid (queue_take q).1
unfolding queue_take
queue_take-IsValid v = ground arith

-- The array and its size never change.
pub queue_put-frames :
    (q : FramesQueue) → ((queue_put q).1.frames ≡ q.frames) × ((queue_put q).1.count ≡ q.count)
unfolding queue_put
queue_put-frames q = ground arith

pub queue_take-frames :
    (q : FramesQueue) → ((queue_take q).1.frames ≡ q.frames) × ((queue_take q).1.count ≡ q.count)
unfolding queue_take
queue_take-frames q = ground arith

-- A pointer that `queue_put`, `queue_take` or `queue_peek` gives out on a valid queue points to
-- one of the `count` frames of the queue's array.
pub queue_ptr_in_bounds :
    {q : FramesQueue} (p : FramePtr)
    → IsValid q
    → (((queue_put q).0 ≡ some p) ⊎ (((queue_take q).0 ≡ some p) ⊎ (queue_peek q ≡ some p)))
    → (p.base ≡ q.frames) × (p.index < q.count)
unfolding queue_put queue_take queue_peek
queue_ptr_in_bounds p v (inl h) = ground arith
queue_ptr_in_bounds p v (inr (inl h)) = ground arith
queue_ptr_in_bounds p v (inr (inr h)) = ground arith

pub queue_init-frames : (frames count : ℕ) → (queue_init frames count).frames ≡ frames
unfolding queue_init
queue_init-frames frames count = refl

pub queue_init-count : (frames count : ℕ) → (queue_init frames count).count ≡ count
unfolding queue_init
queue_init-count frames count = refl
