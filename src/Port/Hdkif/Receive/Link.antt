-- ===== src/Port/Hdkif/Receive/Link.antt =====
-- The link from a buffer of a received packet to that of the next descriptor, and how reads and
-- writes of buffers change the memory.
use cannelloni_tms.Prelude.{
  ℕ, ◌^◌, ◌<◌, ◌≡◌, ◌≢◌, ◌⊎◌, inl, inr, refl, ap, ◌∙◌, subst, arith, [], ◌∷◌, ◌==◌, Bool-cases,
}
use cannelloni_tms.Mmio.{Device}
use cannelloni_tms.Mmio.Runs.{Ends}
use cannelloni_tms.Port.Hdkif.{Reg, bd_next, bd_pbuf, pbuf_next, pbuf_tot_len, pbuf_len}
use cannelloni_tms.Port.Hdkif.Receive.{link_segment}
use cannelloni_tms.Port.Hdkif.Receive.Memory.{
  View, RxMemory, buffer, next_bd, Owned, Outside, Only, Only-refl, bd_next-Outside,
  bd_pbuf-Outside, pbuf_next-Outside,
}

module _ {R W : Type 0} (dev : Device R W) (at : Reg → R) (mem : RxMemory dev at) where
  open mem use {Own, view}

  -- Reads, and writes to buffers in `P`, change no other buffer.
  module _ {P : ℕ → Type 0} {v : View} {w : W} where
    pub after_read : (r : Reg) → Only P v (view w) → Only P v (view (dev.read (at r) w).1)
    after_read r s r' o = mem.kept w r r' ∙ s r' o

    pub after_next :
        {p : ℕ} (x : ℕ)
        → P p
        → Own (pbuf_next p)
        → Only P v (view w)
        → Only P v (view (dev.write (at (pbuf_next p)) x w))
    after_next {p} x h own s r' o = mem.miss w (pbuf_next p) x r' own (o p h).next ∙ s r' o

    pub after_len :
        {p : ℕ} (x : ℕ)
        → P p
        → Own (pbuf_len p)
        → Only P v (view w)
        → Only P v (view (dev.write (at (pbuf_len p)) x w))
    after_len {p} x h own s r' o = mem.miss w (pbuf_len p) x r' own (o p h).len ∙ s r' o

    pub after_tot_len :
        {p : ℕ} (x : ℕ)
        → P p
        → Own (pbuf_tot_len p)
        → Only P v (view w)
        → Only P v (view (dev.write (at (pbuf_tot_len p)) x w))
    after_tot_len {p} x h own s r' o = mem.miss w (pbuf_tot_len p) x r' own (o p h).tot_len ∙ s r' o

  pub read_in :
      {P : ℕ → Type 0} {v : View} {w : W} (r : Reg)
      → Own r
      → Only P v (view w)
      → ((p : ℕ) → P p → Outside r p)
      → (dev.read (at r) w).0 ≡ v r
  read_in {w = w} r own s o = mem.read w r own ∙ s r o

  -- The buffer `p` is the only one that is written to, and keeps its length; it links to the buffer
  -- of the next descriptor, if that descriptor is the driver's.
  pub record AfterLink (v : View) (d p : ℕ) (u u' : View) : Type 0 where
    pub only : Only (λ q. q ≡ p) u u'
    pub len : u' (pbuf_len p) ≡ u (pbuf_len p)
    pub next :
        Own (bd_pbuf (next_bd v d))
        → (v (pbuf_next p) ≡ 0) ⊎ (v (pbuf_next p) ≡ buffer v (next_bd v d))
        → u' (pbuf_next p) ≡ buffer v (next_bd v d)

  module _ (v : View) (d : ℕ) (P : ℕ → Type 0) (own : Owned Own v d)
      (away : (p : ℕ) → P p → buffer v d ≢ p) where
    pub link_segment-Ends :
        (w : W)
        → Only P v (view w)
        → Ends
            (link_segment dev at (buffer v d) d)
            w
            (λ _ w'. AfterLink v d (buffer v d) (view w) (view w'))
    unfolding link_segment
    link_segment-Ends w s =
        let p = buffer v d in
        let e = read_in (pbuf_next p) own.next s (λ q h. pbuf_next-Outside p q (away q h)) in
        let w1 = (dev.read (at (pbuf_next p)) w).1 in
        let s1 = after_read (pbuf_next p) s in
        let o1 : Only (λ q. q ≡ p) (view w) (view w1) =
          after_read (pbuf_next p) (Only-refl (view w)) in
        elim (Bool-cases (v (pbuf_next p) == 0)) [
          | inl null ↦
              let e2 = read_in (bd_next d) own.link s1 (λ q h. bd_next-Outside d q) in
              let w2 = (dev.read (at (bd_next d)) w1).1 in
              let s2 = after_read (bd_next d) s1 in
              let r = bd_pbuf (next_bd v d) in
              let x = (dev.read (at r) w2).0 in
              let w3 = (dev.read (at r) w2).1 in
              let s3 = after_read r s2 in
              let o3 = after_read r (after_read (bd_next d) o1) in
              record {
                result = tt;
                state = dev.write (at (pbuf_next p)) x w3;
                trace = record { reg = at (pbuf_next p); value = x } ∷ [];
                run = rw (link_segment, e, null, e2) refl;
                post = record {
                  only = after_next x refl own.next o3;
                  len =
                      mem.miss w3 (pbuf_next p) x (pbuf_len p) own.next (λ e. cc)
                      ∙ mem.kept w2 r (pbuf_len p)
                      ∙ mem.kept w1 (bd_next d) (pbuf_len p)
                      ∙ mem.kept w (pbuf_next p) (pbuf_len p);
                  next = λ mine linked.
                      let y = read_in r mine s2 (λ q h. bd_pbuf-Outside (next_bd v d) q) in
                      ap (λ z. view (dev.write (at (pbuf_next p)) z w3) (pbuf_next p)) y
                      ∙ mem.set w3 (pbuf_next p) (v r) own.next (
                          subst (λ z. z < 2 ^ 32) (s3 r (λ q h. bd_pbuf-Outside (next_bd v d) q))
                            (mem.word w3 r));
                };
              }
          | inr there ↦ record {
            result = tt;
            state = w1;
            trace = [];
            run = rw (link_segment, e, there) refl;
            post = record {
              only = o1;
              len = mem.kept w (pbuf_next p) (pbuf_len p);
              next = λ mine linked.
                  mem.kept w (pbuf_next p) (pbuf_next p)
                  ∙ s (pbuf_next p) (λ q h. pbuf_next-Outside p q (away q h))
                  ∙ elim linked [ inl z ↦ absurd (ground arith) | inr z ↦ z ];
            };
          }
        ]
