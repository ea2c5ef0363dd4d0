-- ===== src/Cannelloni/Receive/Accept.antt =====
-- What queueing parsed frames does to the queue.
use cannelloni_tms.Prelude.{
  ℕ, suc, ◌+◌, ◌-◌, ◌%◌, ◌≤◌, ◌<◌, ◌≡◌, ◌≢◌, refl, ap, sym, ◌∙◌, arith, List, [], ◌∷◌, ◌++◌, map,
  length, take, drop, take-append, length-append, All, true, false, ltb, append_assoc, append-nil,
  some, subst, dec_lt, lt→ltb, take-nil,
}
use mathlib.Core.List.{map-append}
use cannelloni_tms.Prelude.{ok, fault, write_oob}
use cannelloni_tms.Cannelloni.Frame.{
  Frame, FramePtr, Store, canfd_len, canfd_len-mod, read_frame, write_frame,
}
use cannelloni_tms.Cannelloni.Queue.{FramesQueue, queue_put}
use cannelloni_tms.Cannelloni.Queue.Inv.{IsValid, occupancy, queue_put-IsValid, queue_put-frames}
use cannelloni_tms.Cannelloni.Queue.Fifo.{
  contents, length-contents, occupancy-lt-count, slot, advanced, put-full, put-room,
  contents-advanced, occupancy-advanced,
}
use cannelloni_tms.Cannelloni.Receive.Grammar.{WireFrame, land, absorb, complete, Ending}
use cannelloni_tms.Cannelloni.Receive.Loop.{Slots, write_frame-Slots, length-land}

-- The frame as the wire shows it: the data bytes that its length byte announces.
abbrev pub view : Frame → WireFrame
view f = record {
  can_id = f.can_id;
  len = f.len;
  flags = f.flags;
  body = take (canfd_len f) f.payload;
}

-- A frame with data, whose body has the announced length and fits the array.
pub record IsWhole (w : WireFrame) : Type 0 where
  pub byte : w.len < 256
  pub announced : length w.body ≡ w.len % 128
  pub fits : length w.body ≤ 8

-- A frame that lands in a slot is seen as it was sent, whatever the slot held.
view-land : (w : WireFrame) (f : Frame) → IsWhole w → view (land w f) ≡ w
view-land w f h =
    ap (λ b. record { can_id = w.can_id; len = w.len; flags = w.flags; body = b })
      (ap (λ k. take k (w.body ++ drop (length w.body) f.payload))
          (canfd_len-mod (land w f) h.byte ∙ sym h.announced)
        ∙ take-append w.body _ (length w.body) refl)

abbrev pub free : FramesQueue → ℕ
free q = q.count - 1 - occupancy q

-- What queueing `ws` leaves: the frames that had room are last in the queue, in order.
pub record Accepted (q : FramesQueue) (st : Store) (ws : List WireFrame) (q' : FramesQueue)
    (st' : Store) : Type 0 where
  pub queue : map view (contents st' q') ≡ map view (contents st q) ++ take (free q) ws
  pub valid : IsValid q'
  pub slots : Slots st'
  pub array : (q'.frames ≡ q.frames) × (q'.count ≡ q.count)
  pub others : (b : ℕ) → b ≢ q.frames → (i : ℕ) → st' b i ≡ st b i

take-zero {ℓ} : {A : Type ℓ} (n : ℕ) (xs : List A) → n ≡ 0 → take n xs ≡ []
take-zero n xs h = rw h

take-suc {ℓ} :
    {A : Type ℓ} (n m : ℕ) (x : A) (xs : List A) → n ≡ suc m → take n (x ∷ xs) ≡ x ∷ take m xs
take-suc n m x xs h = rw h

-- What is known of the queue when `queue_put` succeeds.
put-IsValid :
    {q q' : FramesQueue} {p : FramePtr}
    → IsValid q
    → queue_put q ≡ (some p, q')
    → IsValid q' × (q'.frames ≡ q.frames) × (q'.count ≡ q.count)
put-IsValid {q} v e =
    let (a, b) = queue_put-frames q in
    (
      subst IsValid (ap (λ x. x.1) e) (queue_put-IsValid v),
      ap (λ x. x.1.frames) (sym e) ∙ a,
      ap (λ x. x.1.count) (sym e) ∙ b,
    )

write_frame-other :
    (st : Store) (p : FramePtr) (f : Frame) (b i : ℕ) → b ≢ p.base → write_frame st p f b i ≡ st b i
write_frame-other st p f b i h = ground arith

module _ {q : FramesQueue} (st : Store) (v : IsValid q) (slots : Slots st) where
  Accepted-nil : Accepted q st [] q st
  Accepted-nil = record {
    queue = sym (append-nil _) ∙ ap (λ l. map view (contents st q) ++ l) (sym (take-nil (free q)));
    valid = v;
    slots = slots;
    array = (refl, refl);
    others = λ b h i. refl;
  }

  Accepted-full :
      (w : WireFrame) (ws : List WireFrame)
      → occupancy q + 1 ≡ q.count
      → Accepted q st (w ∷ ws) q st
  Accepted-full w ws e = record {
    queue =
        sym (append-nil _)
        ∙ ap (λ l. map view (contents st q) ++ l) (sym (take-zero (free q) (w ∷ ws) (omega arith)));
    valid = v;
    slots = slots;
    array = (refl, refl);
    others = λ b h i. refl;
  }

  Accepted-cons :
      (w : WireFrame) (ws : List WireFrame) (p : FramePtr) (q' q'' : FramesQueue) (st'' : Store)
      → IsWhole w
      → occupancy q + 1 < q.count
      → queue_put q ≡ (some p, q')
      → p.base ≡ q.frames
      → let f = land w (read_frame st p) in
        contents (write_frame st p f) q' ≡ contents st q ++ (f ∷ [])
        → Accepted q' (write_frame st p f) ws q'' st''
        → Accepted q st (w ∷ ws) q'' st''
  Accepted-cons w ws p q' q'' st'' whole room got base filled k =
      let f = land w (read_frame st p) in
      let (v', same0, same1) = put-IsValid v got in
      let more : free q ≡ suc (free q') = omega (
        arith,
        same1,
        ap length filled,
        length-contents (write_frame st p f) q',
        length-contents st q,
        length-append (contents st q) (f ∷ []),
      ) in
      record {
        queue =
            k.queue
            ∙ ap (λ l. l ++ take (free q') ws)
                (ap (map view) filled
                  ∙ map-append view (contents st q) (f ∷ [])
                  ∙ ap (λ x. map view (contents st q) ++ (x ∷ []))
                      (view-land w (read_frame st p) whole))
            ∙ append_assoc (map view (contents st q)) (w ∷ []) (take (free q') ws)
            ∙ ap (λ l. map view (contents st q) ++ l) (sym (take-suc (free q) (free q') w ws more));
        valid = k.valid;
        slots = k.slots;
        array = (k.array.0 ∙ same0, k.array.1 ∙ same1);
        others = λ b h i.
            k.others b (λ e. h (e ∙ same0)) i ∙ write_frame-other st p f b i (λ e. h (e ∙ base));
      }

pub absorb-room :
    (w : WireFrame) (ws : List WireFrame) (end : Ending) {q : FramesQueue} (st : Store)
    → IsValid q
    → occupancy q + 1 < q.count
    → length w.body ≤ 8
    → absorb (w ∷ ws) end q st
      ≡ absorb ws end (advanced q) (write_frame st (slot q) (land w (read_frame st (slot q))))
unfolding absorb
absorb-room w ws end {q} st v room fits =
    let short_body : ltb 8 (length w.body) ≡ false = ground arith in
    rw (absorb, put-room v room, short_body) (rw (put-room v room))

pub absorb-overlong :
    (w : WireFrame) (ws : List WireFrame) (end : Ending) {q : FramesQueue} (st : Store)
    → IsValid q
    → occupancy q + 1 < q.count
    → 8 < length w.body
    → absorb (w ∷ ws) end q st ≡ fault write_oob
unfolding absorb
absorb-overlong w ws end {q} st v room big =
    rw (absorb, put-room v room, lt→ltb 8 (length w.body) big)

-- With one slot used, one frame fewer may come.
lost-advanced :
    {q : FramesQueue}
    → IsValid q
    → occupancy q + 1 < q.count
    → (n : ℕ) → ltb (free q) (suc n) ≡ ltb (free (advanced q)) n
lost-advanced {q} v room n =
    let e : free q ≡ suc (free (advanced q)) = omega (arith, occupancy-advanced v room) in
    rw e (ltb_suc (free (advanced q)) n)
  where
    ltb_suc : (a b : ℕ) → ltb (suc a) (suc b) ≡ ltb a b
    ltb_suc a b = ground arith

-- On a valid queue over slots of eight data bytes, whole frames are queued in order, behind those
-- that are there, until the queue holds `count - 1`; `error` is set exactly if some had no room.
-- The queue stays valid and no other array changes.
pub absorb-Accepted :
    (ws : List WireFrame) {q : FramesQueue} (st : Store)
    → IsValid q
    → Slots st
    → All IsWhole ws
    → (q' : FramesQueue) × (st' : Store) × (absorb ws complete q st
        ≡ ok (ltb (free q) (length ws), q', st'))
      × Accepted q st ws q' st'
unfolding absorb
absorb-Accepted [] {q} st v s h = (q, st, ground arith, Accepted-nil st v s)
absorb-Accepted (w ∷ ws) {q} st v s h = elim (dec_lt (occupancy q + 1) q.count) [
  | no full ↦
      let e : occupancy q + 1 ≡ q.count = omega (arith, occupancy-lt-count v) in
      let some_lost : ltb (free q) (suc (length ws)) ≡ true = lt→ltb _ _ (omega arith) in
      (q, st, rw (some_lost, put-full v e, absorb, put-full v e), Accepted-full st v s w ws e)
  | yes room ↦
      let p = slot q in
      let f = land w (read_frame st p) in
      let got = put-room v room in
      let (v', same0, same1) = put-IsValid v got in
      let s' : Slots (write_frame st p f) =
        write_frame-Slots st p f s (length-land w (read_frame st p) (s p.base p.index) h.0.fits) in
      let short_body : ltb 8 (length w.body) ≡ false = let k = h.0.fits in ground arith in
      let (q'', st'', run, k) = absorb-Accepted ws (write_frame st p f) v' s' h.1 in
      (
        q'',
        st'',
        absorb-room w ws complete st v room h.0.fits
            ∙ run
            ∙ ap (λ b. ok (b, q'', st'')) (sym (lost-advanced v room (length ws))),
        Accepted-cons st v s w ws p (advanced q) q'' st'' h.0 room got refl
            (contents-advanced st f v room) k,
      )
]
