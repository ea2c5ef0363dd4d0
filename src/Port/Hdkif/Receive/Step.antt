-- ===== src/Port/Hdkif/Receive/Step.antt =====
-- One round of the loop over the descriptors of a received packet.
use cannelloni_tms.Prelude.{
  ℕ, ◌+◌, ◌-◌, ◌%◌, ◌^◌, ◌<◌, ◌≡◌, ◌≢◌, ◌⊎◌, inl, inr, refl, ◌∙◌, arith, [], ◌∷◌, ◌++◌,
}
use cannelloni_tms.Prelude.Bits.{bit_and_mask}
use cannelloni_tms.Mmio.{Device}
use cannelloni_tms.Mmio.Runs.{Ends}
use cannelloni_tms.Port.Hdkif.{
  Reg, bd_next, bd_bufoff_len, bd_pbuf, pbuf_next, pbuf_tot_len, pbuf_len, hdkif_swizzle_data,
}
use cannelloni_tms.Port.Hdkif.Receive.{Gathered, gather_bd}
use cannelloni_tms.Port.Hdkif.Receive.Memory.{
  View, RxMemory, buffer, next_bd, bytes, Owned, Outside, Only, Only-refl, bd_next-Outside,
  bd_pbuf-Outside, bd_length-Outside, pbuf_len-Outside,
}
use cannelloni_tms.Port.Hdkif.Receive.Link.{
  after_read, after_len, after_tot_len, read_in, link_segment-Ends,
}

bytes_u16 : (v : View) (d : ℕ) → bytes v d < 2 ^ 16
bytes_u16 v d =
    omega (arith, bit_and_mask 16 (hdkif_swizzle_data (v (bd_bufoff_len d))) 0xFFFF refl)

module _ {R W : Type 0} (dev : Device R W) (at : Reg → R) (mem : RxMemory dev at) where
  open mem use {Own, view}

  -- After one round, `g` being the variables before it.
  pub record AfterBd (v : View) (d tot_len : ℕ) (g g' : Gathered) (u u' : View) : Type 0 where
    pub only : Only (λ q. q ≡ buffer v d) u u'
    pub pbuf : g'.pbuf ≡ buffer v d
    pub processed : g'.processed_bd ≡ d
    pub curr : g'.curr_bd ≡ next_bd v d
    pub ex_len : g'.ex_len ≡ (g.ex_len + bytes v d) % 2 ^ 32
    pub to_alloc : g'.len_to_alloc ≡ (g.len_to_alloc + v (pbuf_len (buffer v d))) % 2 ^ 32
    pub len : u' (pbuf_len (buffer v d)) ≡ bytes v d
    pub tot : u' (pbuf_tot_len (buffer v d)) ≡ (tot_len + 2 ^ 32 - g.ex_len) % 2 ^ 16
    pub next :
        Own (bd_pbuf (next_bd v d))
        → (v (pbuf_next (buffer v d)) ≡ 0) ⊎ (v (pbuf_next (buffer v d)) ≡ buffer v (next_bd v d))
        → u' (pbuf_next (buffer v d)) ≡ buffer v (next_bd v d)

  -- `Only` for the states that follow one another.
  pub Only-trans :
      {P Q : ℕ → Type 0} {v u u' : View} → Only P v u → Only Q u u' → Only (λ q. P q ⊎ Q q) v u'
  Only-trans s t r o = t r (λ p h. o p (inr h)) ∙ s r (λ p h. o p (inl h))

  -- The states of a round behind the link, which leaves `w`: the buffer `p` of the descriptor `d`
  -- gets the length `b` and the total `t`.
  module _ (p d b t : ℕ) (w : W) where
    abbrev with_len : W
    with_len =
        dev.write (at (pbuf_len p)) b
          (dev.read (at (bd_bufoff_len d)) (dev.read (at (pbuf_len p)) w).1).1

    abbrev with_tot : W
    with_tot = dev.write (at (pbuf_tot_len p)) t with_len

    abbrev done : W
    done = (dev.read (at (bd_next d)) (dev.read (at (pbuf_len p)) with_tot).1).1

    module _ (len : Own (pbuf_len p)) (tot_len : Own (pbuf_tot_len p)) where
      only_tot :
          {v : View}
          → Only (λ q. q ≡ p) v (view w)
          → Only (λ q. q ≡ p) v (view (dev.read (at (pbuf_len p)) with_tot).1)
      only_tot o = after_read dev at mem (pbuf_len p) (
          after_tot_len dev at mem t refl tot_len (
            after_len dev at mem b refl len
              (after_read dev at mem (bd_bufoff_len d) (after_read dev at mem (pbuf_len p) o))))

      done_same : (r : Reg) → view done r ≡ view with_tot r
      done_same r = mem.kept _ (bd_next d) r ∙ mem.kept with_tot (pbuf_len p) r

      tot_len_kept : b < 2 ^ 16 → view with_tot (pbuf_len p) ≡ b
      tot_len_kept h =
          mem.miss with_len (pbuf_tot_len p) t (pbuf_len p) tot_len (λ e. cc)
          ∙ mem.set _ (pbuf_len p) b len h

      done_tot : t < 2 ^ 16 → view done (pbuf_tot_len p) ≡ t
      done_tot h = done_same (pbuf_tot_len p) ∙ mem.set with_len (pbuf_tot_len p) t tot_len h

      done_next : view done (pbuf_next p) ≡ view w (pbuf_next p)
      done_next =
          done_same (pbuf_next p)
          ∙ mem.miss with_len (pbuf_tot_len p) t (pbuf_next p) tot_len (λ e. cc)
          ∙ mem.miss _ (pbuf_len p) b (pbuf_next p) len (λ e. cc)
          ∙ mem.kept _ (bd_bufoff_len d) (pbuf_next p)
          ∙ mem.kept w (pbuf_len p) (pbuf_next p)

  module _ (v : View) (d : ℕ) (P : ℕ → Type 0) (own : Owned Own v d)
      (away : (p : ℕ) → P p → buffer v d ≢ p) where
    -- A member of the descriptor, read when only its buffer has been written to since.
    read_bd :
        {w w' : W} (r : Reg)
        → Own r
        → ((p : ℕ) → Outside r p)
        → Only P v (view w)
        → Only (λ q. q ≡ buffer v d) (view w) (view w')
        → (dev.read (at r) w').0 ≡ v r
    read_bd r own_r out s o = read_in dev at mem r own_r o (λ q h. out q) ∙ s r (λ q h. out q)

    pub gather_bd-Ends :
        (g : Gathered) (tot_len : ℕ) (w : W)
        → g.curr_bd ≡ d
        → Only P v (view w)
        → Ends (gather_bd dev at tot_len g) w (λ g' w'. AfterBd v d tot_len g g' (view w) (view w'))
    unfolding gather_bd
    gather_bd-Ends g tot_len w here s =
        let p = buffer v d in
        let b = bytes v d in
        let t = (tot_len + 2 ^ 32 - g.ex_len) % 2 ^ 16 in
        let e0 = read_in dev at mem (bd_pbuf d) own.pbuf s (λ q h. bd_pbuf-Outside d q) in
        let link =
          link_segment-Ends dev at mem v d P own away (dev.read (at (bd_pbuf d)) w).1
            (after_read dev at mem (bd_pbuf d) s) in
        let w2 = link.state in
        let linked = link.post in
        let o2 : Only (λ q. q ≡ p) (view w) (view w2) =
          λ r o. linked.only r o ∙ after_read dev at mem (bd_pbuf d) (Only-refl (view w)) r o in
        let e2 : (dev.read (at (pbuf_len p)) w2).0 ≡ v (pbuf_len p) =
          mem.read w2 (pbuf_len p) own.len
          ∙ linked.len
          ∙ after_read dev at mem (bd_pbuf d) s (pbuf_len p)
              (λ q h. pbuf_len-Outside p q (away q h)) in
        let e3 =
          read_bd (bd_bufoff_len d) own.length (bd_length-Outside d) s
            (after_read dev at mem (pbuf_len p) o2) in
        let len_kept = tot_len_kept p d b t w2 own.len own.tot_len (bytes_u16 v d) in
        let e6 = mem.read (with_tot p d b t w2) (pbuf_len p) own.len ∙ len_kept in
        let o7 = only_tot p d b t w2 own.len own.tot_len o2 in
        let e7 = read_bd (bd_next d) own.link (bd_next-Outside d) s o7 in
        record {
          result = record {
            pbuf = p;
            processed_bd = d;
            curr_bd = next_bd v d;
            ex_len = (g.ex_len + b) % 2 ^ 32;
            len_to_alloc = (g.len_to_alloc + v (pbuf_len p)) % 2 ^ 32;
          };
          state = done p d b t w2;
          trace =
              link.trace
              ++ (record { reg = at (pbuf_len p); value = b }
                  ∷ record { reg = at (pbuf_tot_len p); value = t }
                  ∷ []);
          run = rw (gather_bd, here, e0, link.run, e2, e3, e6, e7) refl;
          post = record {
            only = after_read dev at mem (bd_next d) o7;
            pbuf = refl;
            processed = refl;
            curr = refl;
            ex_len = refl;
            to_alloc = refl;
            len = done_same p d b t w2 own.len own.tot_len (pbuf_len p) ∙ len_kept;
            tot = done_tot p d b t w2 own.len own.tot_len (omega arith);
            next = λ mine h. done_next p d b t w2 own.len own.tot_len ∙ linked.next mine h;
          };
        }
