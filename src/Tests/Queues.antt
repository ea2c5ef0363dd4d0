-- ===== src/Tests/Queues.antt =====
-- The theorems on queues at concrete queues.
use cannelloni_tms.Prelude.{◌+◌, ◌<◌, ◌≡◌, ap, arith, none, some, [], ◌∷◌, ◌++◌, ◌⊎◌, inl}
use cannelloni_tms.Cannelloni.Frame.{FramePtr, read_frame, write_frame}
use cannelloni_tms.Cannelloni.Queue.{FramesQueue, queue_put, queue_take, queue_peek}
use cannelloni_tms.Cannelloni.Queue.Inv.{IsValid, occupancy, queue_put-IsValid, queue_ptr_in_bounds}
use cannelloni_tms.Cannelloni.Queue.Fifo.{contents, slot, put-room, queue_put_fifo, queue_take_fifo}
use cannelloni_tms.Tests.Sim.{extended, wrapped, vacant, wrapped-IsValid, vacant-IsValid, frames_of}

queue_put_fifo_example :
    ((occupancy vacant + 1 ≡ vacant.count) × (queue_put vacant ≡ (none, vacant)))
    ⊎ ((p : FramePtr) × (q' : FramesQueue) × (occupancy vacant + 1 < vacant.count)
        × (queue_put vacant ≡ (some p, q'))
        × (contents (write_frame frames_of p extended) q'
            ≡ contents frames_of vacant ++ (extended ∷ [])))
queue_put_fifo_example = queue_put_fifo {q = vacant} frames_of extended vacant-IsValid

queue_take_fifo_example :
    ((contents frames_of wrapped ≡ [])
      × (queue_take wrapped ≡ (none, wrapped))
      × (queue_peek wrapped ≡ none))
    ⊎ ((p : FramePtr) × (q' : FramesQueue) × (contents frames_of wrapped
          ≡ read_frame frames_of p ∷ contents frames_of q')
        × (queue_take wrapped ≡ (some p, q'))
        × (queue_peek wrapped ≡ some p))
queue_take_fifo_example = queue_take_fifo {q = wrapped} frames_of wrapped-IsValid

queue_put-IsValid_example : IsValid (queue_put wrapped).1
queue_put-IsValid_example = queue_put-IsValid {q = wrapped} wrapped-IsValid

vacant-slot : (queue_put vacant).0 ≡ some (slot vacant)
vacant-slot = ap (λ r. r.0) (put-room {q = vacant} vacant-IsValid (omega arith))

queue_ptr_in_bounds_example :
    ((slot vacant).base ≡ vacant.frames) × ((slot vacant).index < vacant.count)
queue_ptr_in_bounds_example =
    queue_ptr_in_bounds {q = vacant} (slot vacant) vacant-IsValid (inl vacant-slot)
