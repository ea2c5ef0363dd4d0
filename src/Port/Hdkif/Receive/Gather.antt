-- ===== src/Port/Hdkif/Receive/Gather.antt =====
-- The loop over the descriptors of a received packet.
use cannelloni_tms.Prelude.{
  ℕ, zero, suc, ◌+◌, ◌-◌, ◌%◌, ◌^◌, ◌<◌, ◌≡◌, ◌≢◌, ◌⊎◌, inl, inr, bit_and, true, false, refl, sym,
  ap, ◌∙◌, arith, [], ◌∷◌, ◌++◌,
}
use cannelloni_tms.Prelude.Bits.{bit_and_mask}
use cannelloni_tms.Mmio.{Device, pure}
use cannelloni_tms.Mmio.Runs.{Ends, Ends-bind, Ends-get, Ends-pure, Ends-weaken}
use cannelloni_tms.Port.Hdkif.{
  Reg, bd_flags_pktlen, bd_pbuf, pbuf_next, pbuf_tot_len, pbuf_len, hdkif_swizzle_data,
}
use cannelloni_tms.Port.Hdkif.Interrupts.{flagged}
use cannelloni_tms.Port.Hdkif.Receive.{Gathered, gather_bds, gather_packet}
use cannelloni_tms.Port.Hdkif.Receive.Link.{after_read, after_next}
use cannelloni_tms.Port.Hdkif.Receive.Step.{Only-trans, gather_bd-Ends}
use cannelloni_tms.Port.Hdkif.Receive.Memory.{
  View, RxMemory, buffer, next_bd, bytes, total, final_bd, InPacket, Owned, IsPacket, IsChain,
  Outside, Only, bd_flags-Outside, pbuf_next-Outside, pbuf_len-Outside, pbuf_tot_len-Outside,
}

-- The bytes that the buffers of a packet had room for.
abbrev pub room : ℕ → View → ℕ → ℕ
room zero v d = v (pbuf_len (buffer v d))
room (suc c) v d = v (pbuf_len (buffer v d)) + room c v (next_bd v d)

-- A chain whose last buffer may have a successor yet.
abbrev IsOpenChain : ℕ → View → View → ℕ → Type 0
IsOpenChain zero v u d =
    (u (pbuf_len (buffer v d)) ≡ bytes v d) × (u (pbuf_tot_len (buffer v d)) ≡ bytes v d)
IsOpenChain (suc c) v u d =
    (u (pbuf_next (buffer v d)) ≡ buffer v (next_bd v d))
    × (u (pbuf_len (buffer v d)) ≡ bytes v d)
    × (u (pbuf_tot_len (buffer v d)) ≡ total (suc c) v d)
    × IsOpenChain c v u (next_bd v d)

own_of : (Own : Reg → Type 0) (c : ℕ) (v : View) (d : ℕ) → IsPacket Own c v d → Owned Own v d
own_of Own zero v d h = h.0
own_of Own (suc c) v d h = h.0

final_bd-InPacket : (c : ℕ) (v : View) (d : ℕ) → InPacket c v d (buffer v (final_bd c v d))
final_bd-InPacket zero v d = refl
final_bd-InPacket (suc c) v d = inr (final_bd-InPacket c v (next_bd v d))

-- After the loop, `g` being the variables before it.
record AfterBds (c : ℕ) (v : View) (d : ℕ) (g g' : Gathered) (u u' : View) : Type 0 where
  only : Only (InPacket c v d) u u'
  pbuf : g'.pbuf ≡ buffer v (final_bd c v d)
  processed : g'.processed_bd ≡ final_bd c v d
  curr : g'.curr_bd ≡ next_bd v (final_bd c v d)
  to_alloc : g'.len_to_alloc ≡ (g.len_to_alloc + room c v d) % 2 ^ 32
  chain : IsOpenChain c v u' d

module _ {R W : Type 0} (dev : Device R W) (at : Reg → R) (mem : RxMemory dev at) (v : View) where
  open mem use {Own, view}

  -- What is left of the total length.
  remaining : (tot ex t : ℕ) → ex + t ≡ tot → tot < 2 ^ 16 → (tot + 2 ^ 32 - ex) % 2 ^ 16 ≡ t
  remaining tot ex t e h = omega arith

  flags_kept :
      (d : ℕ) (P : ℕ → Type 0) (w w1 : W)
      → Owned Own v d
      → Only P v (view w)
      → Only (λ q. q ≡ buffer v d) (view w) (view w1)
      → (dev.read (at (bd_flags_pktlen d)) w1).0 ≡ v (bd_flags_pktlen d)
  flags_kept d P w w1 own s o =
      mem.read w1 (bd_flags_pktlen d) own.flags
      ∙ o (bd_flags_pktlen d) (λ q h. bd_flags-Outside d q)
      ∙ s (bd_flags_pktlen d) (λ q h. bd_flags-Outside d q)

  gather_bds-Ends :
      (n c d : ℕ) (P : ℕ → Type 0) (g : Gathered) (tot_len : ℕ) (w : W)
      → c < n
      → IsPacket Own c v d
      → ((p : ℕ) → P p → (q : ℕ) → InPacket c v d q → q ≢ p)
      → g.curr_bd ≡ d
      → g.ex_len + total c v d ≡ tot_len
      → tot_len < 2 ^ 16
      → Only P v (view w)
      → Ends (gather_bds dev at n tot_len g) w (λ g' w'. AfterBds c v d g g' (view w) (view w'))
  unfolding gather_bds
  gather_bds-Ends zero c d P g tot_len w few h away here sum u16 s = absurd (omega arith)
  gather_bds-Ends (suc n) zero d P g tot_len w few (own, last) away here sum u16 s =
      let step =
        gather_bd-Ends dev at mem v d P own (λ p hp. away p hp (buffer v d) refl) g tot_len w here
          s in
      Ends-bind _ step (λ g1 w1 a.
        let e = flags_kept d P w w1 own s a.only in
        Ends-get dev (at (bd_flags_pktlen g1.processed_bd))
          (λ flags. elim (flagged 0x4000_0000 flags) [
            | true ↦ pure g1
            | false ↦ gather_bds dev at n tot_len g1
          ])
          (rw (a.processed, e, last)
            (Ends-pure dev g1 (record {
              only = λ r o. mem.kept w1 (bd_flags_pktlen d) r ∙ a.only r o;
              pbuf = a.pbuf;
              processed = a.processed;
              curr = a.curr;
              to_alloc = a.to_alloc;
              chain = (
                mem.kept w1 (bd_flags_pktlen d) (pbuf_len (buffer v d)) ∙ a.len,
                mem.kept w1 (bd_flags_pktlen d) (pbuf_tot_len (buffer v d))
                    ∙ a.tot
                    ∙ remaining tot_len g.ex_len (bytes v d) sum u16,
              );
            }))))
  gather_bds-Ends (suc n) (suc c) d P g tot_len w few (own, more, link, other, h) away here sum u16
        s =
      let p = buffer v d in
      let step =
        gather_bd-Ends dev at mem v d P own (λ q hq. away q hq p (inl refl)) g tot_len w here s in
      Ends-bind _ step (λ g1 w1 a.
        let e = flags_kept d P w w1 own s a.only in
        let w2 = (dev.read (at (bd_flags_pktlen d)) w1).1 in
        let o2 = after_read dev at mem (bd_flags_pktlen d) a.only in
        let next = next_bd v d in
        Ends-get dev (at (bd_flags_pktlen g1.processed_bd))
          (λ flags. elim (flagged 0x4000_0000 flags) [
            | true ↦ pure g1
            | false ↦ gather_bds dev at n tot_len g1
          ])
          (rw (a.processed, e, more)
            (Ends-weaken
              (gather_bds-Ends n c next (λ q. P q ⊎ (q ≡ p)) g1 tot_len w2 (omega arith) h
                (λ q hq r hr. elim hq [
                  | inl old ↦ away q old r (inr hr)
                  | inr this ↦ λ e. other r hr (sym (e ∙ this))
                ])
                a.curr (omega (arith, a.ex_len)) u16 (Only-trans dev at mem s o2))
              (λ g2 w3 b.
                let outside : (q : ℕ) → InPacket c v next q → p ≢ q = other in
                let same : (r : Reg) → ((q : ℕ) → p ≢ q → Outside r q) → view w3 r ≡ view w1 r =
                  λ r o. b.only r (λ q hq. o q (other q hq)) ∙ mem.kept w1 (bd_flags_pktlen d) r in
                record {
                  only = Only-trans dev at mem o2 b.only;
                  pbuf = b.pbuf;
                  processed = b.processed;
                  curr = b.curr;
                  to_alloc = omega (arith, b.to_alloc, a.to_alloc);
                  chain = (
                    same (pbuf_next p) (λ q ne. pbuf_next-Outside p q ne)
                        ∙ a.next (own_of Own c v next h).pbuf link,
                    same (pbuf_len p) (λ q ne. pbuf_len-Outside p q ne) ∙ a.len,
                    same (pbuf_tot_len p) (λ q ne. pbuf_tot_len-Outside p q ne)
                        ∙ a.tot
                        ∙ remaining tot_len g.ex_len (total (suc c) v d) sum u16,
                    b.chain,
                  );
                }))))

-- Once its last buffer links to NULL the chain is closed.
closed :
    (Own : Reg → Type 0) (c : ℕ) (v u u' : View) (d : ℕ)
    → IsPacket Own c v d
    → IsOpenChain c v u d
    → ((r : Reg) → r ≢ pbuf_next (buffer v (final_bd c v d)) → u' r ≡ u r)
    → u' (pbuf_next (buffer v (final_bd c v d))) ≡ 0
    → IsChain c v u' d
closed Own zero v u u' d h (len, tot) same null = (
  null,
  same (pbuf_len (buffer v d)) (λ e. cc) ∙ len,
  same (pbuf_tot_len (buffer v d)) (λ e. cc) ∙ tot,
)
closed Own (suc c) v u u' d (own, more, link, other, h) (next, len, tot, chain) same null =
    let p = buffer v d in
    let apart : p ≢ buffer v (final_bd c v (next_bd v d)) =
      other (buffer v (final_bd c v (next_bd v d))) (final_bd-InPacket c v (next_bd v d)) in
    (
      same (pbuf_next p) (λ e. apart cc) ∙ next,
      same (pbuf_len p) (λ e. cc) ∙ len,
      same (pbuf_tot_len p) (λ e. cc) ∙ tot,
      closed Own c v u u' (next_bd v d) h chain same null,
    )

-- What is known after a packet that ends `c` descriptors behind `d` has been gathered: `v` was the
-- memory before, and `u` is the memory now.
pub record IsGathered (c : ℕ) (v : View) (d : ℕ) (r : ℕ × Gathered) (u : View) : Type 0 where
  pub first : r.0 ≡ buffer v d
  pub processed : r.1.processed_bd ≡ final_bd c v d
  pub curr : r.1.curr_bd ≡ next_bd v (final_bd c v d)
  pub to_alloc : r.1.len_to_alloc ≡ room c v d % 2 ^ 32
  pub chain : IsChain c v u d
  pub only : Only (InPacket c v d) v u

module _ {R W : Type 0} (dev : Device R W) (at : Reg → R) (mem : RxMemory dev at) (fuel : ℕ) where
  open mem use {Own, view}

  owns_final :
      (c : ℕ) (v : View) (d : ℕ) → IsPacket Own c v d → Own (pbuf_next (buffer v (final_bd c v d)))
  owns_final zero v d h = h.0.next
  owns_final (suc c) v d (own, more, link, other, h) = owns_final c v (next_bd v d) h

  -- In the memory that the driver owns, a finished packet that ends `c` descriptors behind `d`,
  -- fewer than the fuel, and whose first descriptor tells the number of bytes in all of them: the
  -- loop returns, and the packet is one well-formed chain of lwIP's buffers, from the first
  -- descriptor's on, in the order of the descriptors. No other memory has changed. The room in the
  -- buffers is counted, modulo 2^32.
  pub gather_packet-IsGathered :
      (c d : ℕ) (w : W)
      → c < fuel
      → IsPacket Own c (view w) d
      → total c (view w) d ≡ bit_and (hdkif_swizzle_data (view w (bd_flags_pktlen d))) 0xFFFF
      → Ends (gather_packet dev at fuel d) w (λ r w'. IsGathered c (view w) d r (view w'))
  unfolding gather_packet
  gather_packet-IsGathered c d w few h sum =
      let v = view w in
      let own = own_of Own c v d h in
      let tot = bit_and (hdkif_swizzle_data (v (bd_flags_pktlen d))) 0xFFFF in
      let u16 : tot < 2 ^ 16 =
        omega (arith, bit_and_mask 16 (hdkif_swizzle_data (v (bd_flags_pktlen d))) 0xFFFF refl) in
      let g0 : Gathered = record {
        pbuf = 0;
        processed_bd = 0;
        curr_bd = d;
        ex_len = 0;
        len_to_alloc = 0;
      } in
      let e0 = mem.read w (bd_flags_pktlen d) own.flags in
      let w1 = (dev.read (at (bd_flags_pktlen d)) w).1 in
      let e1 = mem.read w1 (bd_pbuf d) own.pbuf ∙ mem.kept w (bd_flags_pktlen d) (bd_pbuf d) in
      let w2 = (dev.read (at (bd_pbuf d)) w1).1 in
      let s2 : Only (λ p. ⊥) v (view w2) =
        λ r o. mem.kept w1 (bd_pbuf d) r ∙ mem.kept w (bd_flags_pktlen d) r in
      let loop =
        gather_bds-Ends dev at mem v fuel c d (λ p. ⊥) g0 tot w2 few h (λ p no. absurd no) refl
          (omega (arith, sum)) u16 s2 in
      let g = loop.result in
      let b = loop.post in
      let last = buffer v (final_bd c v d) in
      let w3 = loop.state in
      let w4 = dev.write (at (pbuf_next last)) 0 w3 in
      let mine = owns_final c v d h in
      record {
        result = (buffer v d, g);
        state = w4;
        trace = loop.trace ++ (record { reg = at (pbuf_next last); value = 0 } ∷ []);
        run = rw (gather_packet, e0, e1, loop.run, b.pbuf) refl;
        post = record {
          first = refl;
          processed = b.processed;
          curr = b.curr;
          to_alloc = b.to_alloc ∙ ap (λ x. x % 2 ^ 32) {x = 0 + room c v d} (omega arith);
          chain =
              closed Own c v (view w3) (view w4) d h b.chain
                (λ r ne. mem.miss w3 (pbuf_next last) 0 r mine ne)
                (mem.set w3 (pbuf_next last) 0 mine (omega arith));
          only =
              let o = after_next dev at mem 0 (final_bd-InPacket c v d) mine b.only in
              λ r outside. o r outside ∙ s2 r (λ p no. absurd no);
        };
      }
