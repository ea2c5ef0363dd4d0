-- ===== src/Main/Receive.antt =====
-- `on_can_receive` of src/main.c: the frames in the controller's mailboxes go into the receive
-- queue.
pub mod Drain
pub mod Messages
pub mod Short
use cannelloni_tms.Prelude.{ℕ, zero, suc, ◌+◌, Option, none, some, Bool, true, false}
use cannelloni_tms.Prelude.{Exec, ok, stuck, ◌>>=◌}
use cannelloni_tms.Cannelloni.Frame.{Frame, FramePtr, read_frame, write_frame}
use cannelloni_tms.Cannelloni.Handle.{Node}
use cannelloni_tms.Cannelloni.Run.{get_can_rx_frame}
use cannelloni_tms.Can.{
  can_rx_queue_first_mbox, Dcan, Hardware, can_mbox_has_data, can_fill_rx_mbox,
}

module _ {M N : Type 0} (hw : Hardware M) (fuel : ℕ) where
  -- The driver writes the identifier, the length and the data of the slot, and not its flags.
  pub fill_slot : Node N → FramePtr → Dcan M → Exec (Node N)
  fill_slot s p h =
      let f = read_frame s.store p in
      can_fill_rx_mbox h f.payload >>= λ r. ok (record s {
        store = write_frame s.store p (record f { can_id = r.0; len = r.1; payload = r.2 });
      })

  -- The body of the loop, from the slot that `get_can_rx_frame` gave; `next` is the rest.
  pub into_slot :
      Option FramePtr × Node N → Dcan M → (Node N → Exec (Node N × Dcan M)) → Exec (Node N × Dcan M)
  into_slot (none, s) h next = ok (s, h)
  into_slot (some p, s) h next = fill_slot s p h >>= next

  -- The loop from a mailbox on. There are 64 mailboxes and the loop starts at the second, so 64
  -- rounds are enough.
  pub drain : ℕ → ℕ → Node N → Dcan M → Exec (Node N × Dcan M)
  drain zero mbox s h = stuck
  drain (suc n) mbox s h = can_mbox_has_data hw fuel h mbox >>= λ r. elim r.0 [
    | false ↦ ok (s, r.1)
    | true ↦ into_slot (get_can_rx_frame s) r.1 (λ s'. drain n (mbox + 1) s' r.1)
  ]

  pub on_can_receive : Node N → Dcan M → Exec (Node N × Dcan M)
  on_can_receive s h = drain 64 can_rx_queue_first_mbox s h
