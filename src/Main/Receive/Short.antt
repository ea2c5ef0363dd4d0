-- ===== src/Main/Receive/Short.antt =====
-- The frames that `on_can_receive` writes are classic frames of at most eight bytes.
use cannelloni_tms.Prelude.{
  ℕ, zero, suc, ◌+◌, ◌≤◌, ◌%◌, ◌≡◌, inl, inr, sym, subst, All, some, none, Option, arith,
}
use cannelloni_tms.Prelude.{ok, Holds, Holds-bind}
use cannelloni_tms.Cannelloni.Frame.{FramePtr, IsByte, read_frame}
use cannelloni_tms.Cannelloni.Handle.{Node}
use cannelloni_tms.Cannelloni.Run.{get_can_rx_frame}
use cannelloni_tms.Cannelloni.Run.Can.{get_can_rx_frame-store}
use cannelloni_tms.Cannelloni.Short.{AllShort, write_frame-AllShort}
use cannelloni_tms.Can.{Dcan, Hardware, can_fill_rx_mbox}
use cannelloni_tms.Can.Bytes.{IsMessage, can_fill_rx_mbox-Holds}
use cannelloni_tms.Can.Controller.{Controller, has_data-ok}
use cannelloni_tms.Main.Receive.{fill_slot, into_slot, drain, on_can_receive}

module _ {M N : Type 0} (hw : Hardware M) (fuel : ℕ) where
  fill_slot-Holds :
      (s : Node N) (p : FramePtr) (h : Dcan M)
      → All IsByte h.if1dat
      → h.if1mctl % 16 ≤ 8
      → AllShort s.store
      → Holds (λ s'. AllShort s'.store) (fill_slot hw fuel s p h)
  unfolding fill_slot
  fill_slot-Holds s p h dat short all =
      let f = read_frame s.store p in
      let old = all p.base p.index in
      Holds-bind IsMessage (λ s'. AllShort s'.store) (can_fill_rx_mbox h f.payload) _
        (can_fill_rx_mbox-Holds h f.payload dat short old.frame.bytes old.frame.array)
        (λ r m.
          write_frame-AllShort s.store p (record f { can_id = r.0; len = r.1; payload = r.2 }) all
            (record {
              frame = record {
                can_id_u32 = m.id_u32;
                len_u8 = omega (arith, m.short);
                flags_u8 = old.frame.flags_u8;
                array = m.array;
                bytes = m.bytes;
              };
              short = m.short;
            }))

  module _ (c : Controller hw fuel) where
    into_slot-Holds :
        (n mbox : ℕ) (o : Option FramePtr) (s : Node N) (h : Dcan M)
        → All IsByte h.if1dat
        → h.if1mctl % 16 ≤ 8
        → AllShort s.store
        → ((s' : Node N)
            → AllShort s'.store
            → Holds (λ r. AllShort r.0.store) (drain hw fuel n (mbox + 1) s' h))
        → Holds
            (λ r. AllShort r.0.store)
            (into_slot hw fuel (o, s) h (λ s'. drain hw fuel n (mbox + 1) s' h))
    unfolding into_slot
    into_slot-Holds n mbox none s h dat short all next = all
    into_slot-Holds n mbox (some p) s h dat short all next =
        Holds-bind (λ s'. AllShort s'.store) (λ r. AllShort r.0.store) (fill_slot hw fuel s p h) _
          (fill_slot-Holds s p h dat short all) next

    slot-AllShort : (s : Node N) → AllShort s.store → AllShort (get_can_rx_frame s).1.store
    slot-AllShort s all = subst AllShort (sym (get_can_rx_frame-store s)) all

    drain-Holds :
        (n mbox : ℕ) (s : Node N) (h : Dcan M)
        → AllShort s.store
        → c.Works h
        → Holds (λ r. AllShort r.0.store) (drain hw fuel n mbox s h)
    unfolding drain
    drain-Holds zero mbox s h all works = tt
    drain-Holds (suc n) mbox s h all works =
        let (h', works', answer) = has_data-ok hw fuel c mbox h works in
        elim answer [
          | inl run ↦ rw (drain, run) all
          | inr (run, inside, b, len) ↦
              let got = get_can_rx_frame s in
              rw (drain, run)
                (into_slot-Holds n mbox got.0 got.1 h' b.bytes len (slot-AllShort s all)
                  (λ s' all'. drain-Holds n (mbox + 1) s' h' all' works'))
        ]

    -- On a store of classic frames of at most eight bytes `on_can_receive` leaves such a store.
    pub on_can_receive-AllShort :
        (s s' : Node N) (h h' : Dcan M)
        → AllShort s.store
        → c.Works h
        → on_can_receive hw fuel s h ≡ ok (s', h')
        → AllShort s'.store
    unfolding on_can_receive
    on_can_receive-AllShort s s' h h' all works run =
        subst (Holds (λ r. AllShort r.0.store)) run (drain-Holds 64 2 s h all works)
