-- ===== src/Port/Hdkif/Receive/Fill.antt =====
-- One round of the loop that gives free descriptors new buffers.
use cannelloni_tms.Prelude.{
  ℕ, ◌+◌, ◌-◌, ◌%◌, ◌^◌, ◌<◌, ◌≡◌, ◌≢◌, bit_and, refl, ◌∙◌, subst, arith, [], ◌∷◌,
}
use cannelloni_tms.Prelude.Bits.{bit_and_mask}
use cannelloni_tms.Mmio.{Device}
use cannelloni_tms.Mmio.Runs.{Ends}
use cannelloni_tms.Port.Hdkif.{
  Reg, bd_next, bd_bufptr, bd_bufoff_len, bd_flags_pktlen, bd_pbuf, pbuf_next, pbuf_payload,
  pbuf_len, hdkif_swizzle_data,
}
use cannelloni_tms.Port.Hdkif.Swizzle.{hdkif_swizzle_data-inverse}
use cannelloni_tms.Port.Hdkif.Receive.{Refilled, refill_bd}
use cannelloni_tms.Port.Hdkif.Receive.Memory.{View, RxMemory, next_bd}
use cannelloni_tms.Port.Hdkif.Receive.Slots.{OutsideBd, OnlyBds, IsReady, OwnedPair, unread}

swizzled : (x : ℕ) → x < 2 ^ 32 → hdkif_swizzle_data x < 2 ^ 32
swizzled x h = (hdkif_swizzle_data-inverse x h).0

length_u32 : (x : ℕ) → hdkif_swizzle_data (bit_and x 0xFFFF) < 2 ^ 32
length_u32 x = swizzled (bit_and x 0xFFFF) (omega (arith, bit_and_mask 16 x 0xFFFF refl))

module _ {R W : Type 0} (dev : Device R W) (at : Reg → R) (mem : RxMemory dev at) where
  open mem use {Own, view}

  -- After one round, `f` being the variables before it.
  pub record AfterRefill (v : View) (q d : ℕ) (f f' : Refilled) (u u' : View) : Type 0 where
    pub only : OnlyBds (λ x. x ≡ d) u u'
    pub segment : f'.q ≡ v (pbuf_next q)
    pub curr : f'.curr_bd ≡ next_bd v d
    pub last : f'.last_bd ≡ d
    pub freed : f'.freed_pbuf_len ≡ (f.freed_pbuf_len + 2 ^ 32 - v (pbuf_len q)) % 2 ^ 32
    pub ready : IsReady v u' q d

  bd_write :
      {v : View} {w : W} {d : ℕ} (r : Reg) (x : ℕ)
      → Own r
      → ((r' : Reg) → OutsideBd r' d → r' ≢ r)
      → OnlyBds (λ y. y ≡ d) v (view w)
      → OnlyBds (λ y. y ≡ d) v (view (dev.write (at r) x w))
  bd_write {w = w} {d} r x own out s r' o = mem.miss w r x r' own (out r' (o d refl)) ∙ s r' o

  bd_read :
      {P : ℕ → Type 0} {v : View} {w : W} (r : Reg)
      → OnlyBds P v (view w)
      → OnlyBds P v (view (dev.read (at r) w).1)
  bd_read {w = w} r s r' o = mem.kept w r r' ∙ s r' o

  -- The states of a round on the segment `q` and the descriptor `d`, whose members get the address
  -- `ptr`, the length `len` and the flags `owner`.
  module _ (q d ptr len owner : ℕ) (own : OwnedPair Own q d) (w : W) where
    abbrev with_ptr : W
    with_ptr = dev.write (at (bd_bufptr d)) ptr (dev.read (at (pbuf_payload q)) w).1

    abbrev with_length : W
    with_length = dev.write (at (bd_bufoff_len d)) len (dev.read (at (pbuf_len q)) with_ptr).1

    abbrev with_owner : W
    with_owner = dev.write (at (bd_flags_pktlen d)) owner with_length

    abbrev with_pbuf : W
    with_pbuf = dev.write (at (bd_pbuf d)) q (dev.read (at (pbuf_len q)) with_owner).1

    abbrev done : W
    done = (dev.read (at (pbuf_next q)) (dev.read (at (bd_next d)) with_pbuf).1).1

    only_ptr : OnlyBds (λ x. x ≡ d) (view w) (view with_ptr)
    only_ptr =
        bd_write (bd_bufptr d) ptr own.bufptr (λ r o. o.bufptr)
          (bd_read (pbuf_payload q) (λ r o. refl))

    only_owner : OnlyBds (λ x. x ≡ d) (view w) (view with_owner)
    only_owner =
        bd_write (bd_flags_pktlen d) owner own.flags (λ r o. o.flags)
          (bd_write (bd_bufoff_len d) len own.length (λ r o. o.length)
            (bd_read (pbuf_len q) only_ptr))

    only_pbuf : OnlyBds (λ x. x ≡ d) (view w) (view with_pbuf)
    only_pbuf = bd_write (bd_pbuf d) q own.pbuf (λ r o. o.pbuf) (bd_read (pbuf_len q) only_owner)

    only_done : OnlyBds (λ x. x ≡ d) (view w) (view done)
    only_done = bd_read (pbuf_next q) (bd_read (bd_next d) only_pbuf)

    done_same : (r : Reg) → view done r ≡ view with_pbuf r
    done_same r = mem.kept _ (pbuf_next q) r ∙ mem.kept with_pbuf (bd_next d) r

    done_ptr : ptr < 2 ^ 32 → view done (bd_bufptr d) ≡ ptr
    done_ptr h =
        done_same (bd_bufptr d)
        ∙ mem.miss _ (bd_pbuf d) q (bd_bufptr d) own.pbuf (λ e. cc)
        ∙ mem.kept with_owner (pbuf_len q) (bd_bufptr d)
        ∙ mem.miss with_length (bd_flags_pktlen d) owner (bd_bufptr d) own.flags (λ e. cc)
        ∙ mem.miss _ (bd_bufoff_len d) len (bd_bufptr d) own.length (λ e. cc)
        ∙ mem.kept with_ptr (pbuf_len q) (bd_bufptr d)
        ∙ mem.set _ (bd_bufptr d) ptr own.bufptr h

    done_length : len < 2 ^ 32 → view done (bd_bufoff_len d) ≡ len
    done_length h =
        done_same (bd_bufoff_len d)
        ∙ mem.miss _ (bd_pbuf d) q (bd_bufoff_len d) own.pbuf (λ e. cc)
        ∙ mem.kept with_owner (pbuf_len q) (bd_bufoff_len d)
        ∙ mem.miss with_length (bd_flags_pktlen d) owner (bd_bufoff_len d) own.flags (λ e. cc)
        ∙ mem.set _ (bd_bufoff_len d) len own.length h

    done_flags : owner < 2 ^ 32 → view done (bd_flags_pktlen d) ≡ owner
    done_flags h =
        done_same (bd_flags_pktlen d)
        ∙ mem.miss _ (bd_pbuf d) q (bd_flags_pktlen d) own.pbuf (λ e. cc)
        ∙ mem.kept with_owner (pbuf_len q) (bd_flags_pktlen d)
        ∙ mem.set with_length (bd_flags_pktlen d) owner own.flags h

    done_pbuf : q < 2 ^ 32 → view done (bd_pbuf d) ≡ q
    done_pbuf h = done_same (bd_pbuf d) ∙ mem.set _ (bd_pbuf d) q own.pbuf h

  pub refill_bd-Ends :
      (v : View) (q d : ℕ) (f : Refilled) (w : W)
      → OwnedPair Own q d
      → f.q ≡ q
      → f.curr_bd ≡ d
      → q < 2 ^ 32
      → (view w (pbuf_payload q) ≡ v (pbuf_payload q))
        × (view w (pbuf_len q) ≡ v (pbuf_len q))
        × (view w (pbuf_next q) ≡ v (pbuf_next q))
        × (view w (bd_next d) ≡ v (bd_next d))
      → Ends (refill_bd dev at f) w (λ f' w'. AfterRefill v q d f f' (view w) (view w'))
  unfolding refill_bd
  refill_bd-Ends v q d f w own here there u32 (same_payload, same_len, same_next, same_link) =
      let ptr = hdkif_swizzle_data (v (pbuf_payload q)) in
      let len = hdkif_swizzle_data (bit_and (v (pbuf_len q)) 0xFFFF) in
      let owner = hdkif_swizzle_data 0x2000_0000 in
      let ptr_u32 : ptr < 2 ^ 32 =
        subst (λ x. hdkif_swizzle_data x < 2 ^ 32) same_payload
          (swizzled (view w (pbuf_payload q)) (mem.word w (pbuf_payload q))) in
      let e0 = mem.read w (pbuf_payload q) own.payload ∙ same_payload in
      let e2 =
        mem.read (with_ptr q d ptr len owner own w) (pbuf_len q) own.len
        ∙ (unread q d (only_ptr q d ptr len owner own w)).1
        ∙ same_len in
      let e5 =
        mem.read (with_owner q d ptr len owner own w) (pbuf_len q) own.len
        ∙ (unread q d (only_owner q d ptr len owner own w)).1
        ∙ same_len in
      let e7 =
        mem.read (with_pbuf q d ptr len owner own w) (bd_next d) own.link
        ∙ (unread q d (only_pbuf q d ptr len owner own w)).3
        ∙ same_link in
      let e8 =
        mem.read (dev.read (at (bd_next d)) (with_pbuf q d ptr len owner own w)).1 (pbuf_next q)
          own.next
        ∙ (unread q d (bd_read (bd_next d) (only_pbuf q d ptr len owner own w))).2
        ∙ same_next in
      record {
        result = record {
          q = v (pbuf_next q);
          curr_bd = next_bd v d;
          last_bd = d;
          freed_pbuf_len = (f.freed_pbuf_len + 2 ^ 32 - v (pbuf_len q)) % 2 ^ 32;
        };
        state = done q d ptr len owner own w;
        trace =
            record { reg = at (bd_bufptr d); value = ptr }
            ∷ record { reg = at (bd_bufoff_len d); value = len }
            ∷ record { reg = at (bd_flags_pktlen d); value = owner }
            ∷ record { reg = at (bd_pbuf d); value = q }
            ∷ [];
        run = rw (refill_bd, here, there, e0, e2, e5, e7, e8) refl;
        post = record {
          only = only_done q d ptr len owner own w;
          segment = refl;
          curr = refl;
          last = refl;
          freed = refl;
          ready = record {
            bufptr = done_ptr q d ptr len owner own w ptr_u32;
            length = done_length q d ptr len owner own w (length_u32 (v (pbuf_len q)));
            flags = done_flags q d ptr len owner own w (swizzled 0x2000_0000 (omega arith));
            pbuf = done_pbuf q d ptr len owner own w u32;
          };
        };
      }
