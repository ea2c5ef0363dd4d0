-- ===== src/Cannelloni/Queue.antt =====
-- `frames_queue_t` of src/cannelloni.c: a ring of `count` frames that holds at most `count - 1`.
-- The functions are sealed: the modules below prove what a client may know of them.
pub mod Inv
pub mod Fifo
use cannelloni_tms.Prelude.{ℕ, ◌+◌, ◌%◌, ◌^◌, Option, none, some, if◌then◌else◌, ◌==◌}
use cannelloni_tms.Cannelloni.Frame.{FramePtr}

-- `frames` is the address of the array. A `count` of 0 makes `%` undefined in C: `Inv.IsValid`
-- rules it out.
pub record FramesQueue : Type 0 where
  pub head : ℕ
  pub tail : ℕ
  pub count : ℕ
  pub frames : ℕ

-- `size_t` has 32 bits.
abbrev pub add_size : ℕ → ℕ → ℕ
add_size a b = (a + b) % 2 ^ 32

pub queue_init : ℕ → ℕ → FramesQueue
queue_init frames count = record { head = 0; tail = 0; count = count; frames = frames }

-- `NULL` is `none`. The caller fills the frame through the pointer afterwards.
pub queue_put : FramesQueue → Option FramePtr × FramesQueue
queue_put q = if add_size q.tail 1 % q.count == q.head then (none, q) else (
  some (record { base = q.frames; index = q.tail }),
  record q { tail = add_size q.tail 1 % q.count },
)

pub queue_take : FramesQueue → Option FramePtr × FramesQueue
queue_take q = if q.head == q.tail then (none, q) else (
  some (record { base = q.frames; index = q.head }),
  record q { head = add_size q.head 1 % q.count },
)

pub queue_peek : FramesQueue → Option FramePtr
queue_peek q = if q.head == q.tail then none else some (record { base = q.frames; index = q.head })
