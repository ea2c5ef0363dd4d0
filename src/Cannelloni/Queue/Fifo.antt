-- ===== src/Cannelloni/Queue/Fifo.antt =====
-- A valid queue over a store behaves as the list of the frames that it holds, oldest first.
use cannelloni_tms.Prelude.{
  ℕ, zero, suc, ◌+◌, ◌-◌, ◌%◌, ◌^◌, ◌<◌, ◌≡◌, ◌≢◌, refl, ap, ap₂, sym, subst, ◌∙◌, arith, none,
  some, List, [], ◌∷◌, ◌++◌, length, dec_lt, fun_ext, ℕ_discrete, ◌⊎◌, inl, inr,
}
use cannelloni_tms.Cannelloni.Frame.{Frame, FramePtr, Store, read_frame, write_frame}
use cannelloni_tms.Cannelloni.Queue.{
  FramesQueue, add_size, queue_init, queue_put, queue_take, queue_peek,
}
use cannelloni_tms.Cannelloni.Queue.Inv.{
  IsValid, occupancy, queue_init-IsValid, queue_init-count, queue_take-IsValid, queue_take-frames,
}
use native.Mathlib.Nat.{mod-add-mod, mod-eq_of_lt, mod-eq-sub-mod, add-zero}

module _ (count : ℕ) where
  -- The `n` frames from index `h` on, going round at `count`.
  abbrev pub window : (ℕ → Frame) → ℕ → ℕ → List Frame
  window row h zero = []
  window row h (suc n) = row h ∷ window row ((h + 1) % count) n

  length-window : (row : ℕ → Frame) (h n : ℕ) → length (window row h n) ≡ n
  length-window row h zero = refl
  length-window row h (suc n) = ap suc (length-window row ((h + 1) % count) n)

  shift : (h n : ℕ) → ((h + 1) % count + n) % count ≡ (h + suc n) % count
  shift h n = rw mod-add-mod (ap (λ k. k % count) (omega arith))

  -- A window does not see what is written outside it.
  window-agree :
      (row row' : ℕ → Frame) (h n : ℕ)
      → h < count
      → ((k : ℕ) → k < n → row ((h + k) % count) ≡ row' ((h + k) % count))
      → window row h n ≡ window row' h n
  window-agree row row' h zero hh same = refl
  window-agree row row' h (suc n) hh same =
      ap₂ ◌∷◌ (rw (add-zero, mod-eq_of_lt hh) at (same 0 (omega arith))) (
        window-agree row row' ((h + 1) % count) n (omega arith)
          (λ k hk. rw (shift h k) (same (suc k) (omega arith))))

  window-snoc :
      (row : ℕ → Frame) (h n : ℕ)
      → h < count
      → window row h (suc n) ≡ window row h n ++ (row ((h + n) % count) ∷ [])
  window-snoc row h zero hh = rw (add-zero, mod-eq_of_lt hh)
  window-snoc row h (suc n) hh =
      ap (λ l. row h ∷ l) (window-snoc row ((h + 1) % count) n (omega arith) ∙ rw (shift h n))

  -- Fewer than `count` steps round the ring do not come back.
  apart : (h k n : ℕ) → h < count → k < n → n < count → (h + k) % count ≢ (h + n) % count
  apart h k n hh hk hn = elim (dec_lt (h + n) count) [
    | yes p ↦ omega (
      arith,
      mod-eq_of_lt {n = h + n} {m = count} p,
      mod-eq_of_lt {n = h + k} {m = count} (omega arith),
    )
    | no p ↦ elim (dec_lt (h + k) count) [
      | yes q ↦ omega (
        arith,
        mod-eq_of_lt q,
        mod-eq-sub-mod {n = h + n} {m = count} (omega arith),
        mod-eq_of_lt {n = h + n - count} {m = count} (omega arith),
      )
      | no q ↦ omega (
        arith,
        mod-eq-sub-mod {n = h + n} {m = count} (omega arith),
        mod-eq_of_lt {n = h + n - count} {m = count} (omega arith),
        mod-eq-sub-mod {n = h + k} {m = count} (omega arith),
        mod-eq_of_lt {n = h + k - count} {m = count} (omega arith),
      )
    ]
  ]

abbrev pub contents : Store → FramesQueue → List Frame
contents st q = window q.count (st q.frames) q.head (occupancy q)

pub length-contents : (st : Store) (q : FramesQueue) → length (contents st q) ≡ occupancy q
length-contents st q = length-window q.count (st q.frames) q.head (occupancy q)

-- One step round the ring: to the next index, or from the last back to 0.
next-cases :
    (k count : ℕ)
    → k < count
    → count < 2 ^ 32
    → ((k + 1 < count) × (add_size k 1 % count ≡ k + 1))
      ⊎ ((k + 1 ≡ count) × (add_size k 1 % count ≡ 0))
next-cases k count h w =
    let e : add_size k 1 ≡ k + 1 = omega arith in
    elim (dec_lt (k + 1) count) [
      | yes p ↦ inl (p, rw e (mod-eq_of_lt p))
      | no p ↦ inr (
        omega arith,
        rw e (
            omega (
              arith,
              mod-eq-sub-mod {n = k + 1} {m = count} (omega arith),
              mod-eq_of_lt {n = k + 1 - count} {m = count} (omega arith),
            )),
      )
    ]

tail-eq : {q : FramesQueue} → IsValid q → (q.head + occupancy q) % q.count ≡ q.tail
tail-eq {q} v = elim (dec_lt q.tail q.head) [
  | yes p ↦ ground (
    arith,
    mod-eq-sub-mod {n = q.tail + q.count} {m = q.count},
    mod-eq_of_lt {n = q.tail} {m = q.count},
  )
  | no p ↦ ground (arith, mod-eq_of_lt {n = q.tail} {m = q.count})
]

-- A write to an array changes no queue over another one.
pub contents-write_other :
    (st : Store) (q : FramesQueue) (p : FramePtr) (f : Frame)
    → q.frames ≢ p.base
    → contents (write_frame st p f) q ≡ contents st q
contents-write_other st q p f ne =
    ap (λ row. window q.count row q.head (occupancy q)) (fun_ext λ i. ground arith)

-- The queue after a `queue_put` that succeeds, and the slot that it gives out.
abbrev pub slot : FramesQueue → FramePtr
slot q = record { base = q.frames; index = q.tail }

abbrev pub advanced : FramesQueue → FramesQueue
advanced q = record q { tail = add_size q.tail 1 % q.count }

pub occupancy-advanced :
    {q : FramesQueue}
    → IsValid q
    → occupancy q + 1 < q.count
    → occupancy (advanced q) ≡ suc (occupancy q)
occupancy-advanced {q} v h = ground (arith, next-cases q.tail q.count)

-- The slot is behind the window, so writing it extends the queue by that frame.
pub contents-advanced :
    (st : Store) (f : Frame) {q : FramesQueue}
    → IsValid q
    → occupancy q + 1 < q.count
    → contents (write_frame st (slot q) f) (advanced q) ≡ contents st q ++ (f ∷ [])
contents-advanced st f {q} v h = rw (occupancy-advanced v h) (
    window-snoc q.count row q.head (occupancy q) (omega arith)
    ∙ ap₂ (λ l g. l ++ (g ∷ []))
        (window-agree q.count row (st q.frames) q.head (occupancy q) (omega arith) same)
        (rw (tail-eq v) (ground arith)))
  where
    row : ℕ → Frame
    row = write_frame st (slot q) f q.frames

    same :
        (k : ℕ)
        → k < occupancy q
        → row ((q.head + k) % q.count) ≡ st q.frames ((q.head + k) % q.count)
    same k hk =
        ground
          (arith, tail-eq v, apart q.count q.head k (occupancy q) (omega arith) hk (omega arith))

pub put-full : {q : FramesQueue} → IsValid q → occupancy q + 1 ≡ q.count → queue_put q ≡ (none, q)
unfolding queue_put
put-full {q} v h = ground (arith, next-cases q.tail q.count)

pub put-room :
    {q : FramesQueue}
    → IsValid q
    → occupancy q + 1 < q.count
    → queue_put q ≡ (some (slot q), advanced q)
unfolding queue_put
put-room {q} v h = ground (arith, next-cases q.tail q.count)

pub occupancy-lt-count : {q : FramesQueue} → IsValid q → occupancy q < q.count
occupancy-lt-count v = ground arith

-- On a valid queue, `queue_put` fails if the queue holds `count - 1` frames, and leaves it alone.
-- Otherwise it holds fewer, and what the caller writes through the pointer becomes the last frame
-- of the queue.
pub queue_put_fifo :
    {q : FramesQueue} (st : Store) (f : Frame)
    → IsValid q
    → ((occupancy q + 1 ≡ q.count) × (queue_put q ≡ (none, q)))
      ⊎ ((p : FramePtr) × (q' : FramesQueue) × (occupancy q + 1 < q.count)
          × (queue_put q ≡ (some p, q'))
          × (contents (write_frame st p f) q' ≡ contents st q ++ (f ∷ [])))
queue_put_fifo {q} st f v = elim (dec_lt (occupancy q + 1) q.count) [
  | yes h ↦ inr (slot q, advanced q, h, put-room v h, contents-advanced st f v h)
  | no h ↦
      let e : occupancy q + 1 ≡ q.count = omega (arith, occupancy-lt-count v) in
      inl (e, put-full v e)
]

-- The first `queue_put` on a fresh queue: the frame that is written there is the only one.
pub queue_put-fresh :
    (frames count : ℕ)
    → 1 < count
    → count < 2 ^ 32
    → (p : FramePtr) × (q : FramesQueue) × (queue_put (queue_init frames count) ≡ (some p, q))
      × ((st : Store) (f : Frame) → contents (write_frame st p f) q ≡ f ∷ [])
queue_put-fresh frames count h w =
    let q = queue_init frames count in
    let (v, e) = queue_init-IsValid frames count (omega arith) w in
    let size : q.count ≡ count = queue_init-count frames count in
    let room : occupancy q + 1 < q.count = omega (arith, e, size) in
    (
      slot q,
      advanced q,
      put-room v room,
      λ st f.
          contents-advanced st f v room
          ∙ ap (λ n. window q.count (st q.frames) q.head n ++ (f ∷ [])) e,
    )

abbrev first : FramesQueue → FramePtr
first q = record { base = q.frames; index = q.head }

abbrev dropped : FramesQueue → FramesQueue
dropped q = record q { head = add_size q.head 1 % q.count }

occupancy-dropped :
    {q : FramesQueue} → IsValid q → q.head ≢ q.tail → occupancy q ≡ suc (occupancy (dropped q))
occupancy-dropped {q} v h = ground (arith, next-cases q.head q.count)

contents-dropped :
    (st : Store) {q : FramesQueue}
    → IsValid q
    → q.head ≢ q.tail
    → contents st q ≡ read_frame st (first q) ∷ contents st (dropped q)
contents-dropped st {q} v h =
    ap (window q.count (st q.frames) q.head) (occupancy-dropped v h)
    ∙ ap
        (λ k.
          st q.frames q.head ∷ window q.count (st q.frames) (k % q.count) (occupancy (dropped q)))
        (omega arith)

-- On a valid queue that is empty `queue_take` and `queue_peek` give `NULL`. Otherwise both point to
-- the oldest frame, and `queue_take` leaves the frames behind it.
pub queue_take_fifo :
    {q : FramesQueue} (st : Store)
    → IsValid q
    → ((contents st q ≡ []) × (queue_take q ≡ (none, q)) × (queue_peek q ≡ none))
      ⊎ ((p : FramePtr) × (q' : FramesQueue) × (contents st q ≡ read_frame st p ∷ contents st q')
          × (queue_take q ≡ (some p, q'))
          × (queue_peek q ≡ some p))
unfolding queue_take queue_peek
queue_take_fifo {q} st v = elim (ℕ_discrete q.head q.tail) [
  | yes e ↦
      let z : occupancy q ≡ 0 = ground arith in
      inl (ap (window q.count (st q.frames) q.head) z, ground arith, ground arith)
  | no h ↦ inr (first q, dropped q, contents-dropped st v h, ground arith, ground arith)
]

-- What is known of the queue when `queue_take` succeeds.
pub taken-IsValid :
    {q q' : FramesQueue} {p : FramePtr}
    → IsValid q
    → queue_take q ≡ (some p, q')
    → IsValid q' × (q'.frames ≡ q.frames) × (q'.count ≡ q.count)
taken-IsValid {q} v e =
    let (a, b) = queue_take-frames q in
    (
      subst IsValid (ap (λ x. x.1) e) (queue_take-IsValid v),
      ap (λ x. x.1.frames) (sym e) ∙ a,
      ap (λ x. x.1.count) (sym e) ∙ b,
    )
