-- ===== src/Port/Hdkif/Transmit/Packet.antt =====
-- A packet in the descriptors.
use cannelloni_tms.Prelude.{
  ℕ, zero, suc, ◌<◌, ◌≡◌, ◌≢◌, refl, ap, ap₂, ◌∙◌, arith, bit_and, bit_or, Bool, true, false, List,
  [], ◌∷◌, ◌++◌, append-nil, append_assoc, not, ◌==◌, ◌^◌, if◌then◌else◌,
}
use cannelloni_tms.Prelude.{Exec, ok}
use cannelloni_tms.Prelude.Bits.{bit_or_above}
use cannelloni_tms.Mmio.{Device, Write}
use cannelloni_tms.Mmio.Runs.{Settles}
use cannelloni_tms.Port.Hdkif.{
  Reg, txhdp, bd_next, bd_bufptr, bd_bufoff_len, bd_flags_pktlen, bd_pbuf, pbuf_next, pbuf_payload,
  pbuf_tot_len, pbuf_len, hdkif_swizzle_data,
}
use cannelloni_tms.Port.Hdkif.Swizzle.{hdkif_swizzle_data-inverse}
use cannelloni_tms.Port.Hdkif.Start.Ring.{LinkMemory, is_link}
use cannelloni_tms.Port.Hdkif.Start.{Txch}
use cannelloni_tms.Port.Hdkif.Transmit.{fill_tx_bd, fill_tx_bds, start_dma, hdkif_transmit, at_eoq}

-- A segment of a packet.
pub record Segment : Type 0 where
  pub next : ℕ
  pub payload : ℕ
  pub len : ℕ

abbrev pub is_packet : Reg → Bool
is_packet (pbuf_next q) = true
is_packet (pbuf_payload q) = true
is_packet (pbuf_len q) = true
is_packet r = false

abbrev pub is_word : Reg → Bool
is_word (bd_flags_pktlen d) = true
is_word r = false

-- Memory that keeps the segments, and the words with the flags of the descriptors: only a write to a
-- member of a packet buffer, or to such a word, changes one.
pub record PacketMemory {R W : Type 0} (dev : Device R W) (at : Reg → R) : Type 0 where
  pub seg : W → ℕ → Segment
  pub read_next : (w : W) (q : ℕ) → (dev.read (at (pbuf_next q)) w).0 ≡ (seg w q).next
  pub read_payload : (w : W) (q : ℕ) → (dev.read (at (pbuf_payload q)) w).0 ≡ (seg w q).payload
  pub read_len : (w : W) (q : ℕ) → (dev.read (at (pbuf_len q)) w).0 ≡ (seg w q).len
  pub read_kept : (w : W) (r : Reg) (q : ℕ) → seg (dev.read (at r) w).1 q ≡ seg w q
  pub write_kept :
      (w : W) (r : Reg) (v q : ℕ) → is_packet r ≡ false → seg (dev.write (at r) v w) q ≡ seg w q
  pub word_of : W → ℕ → ℕ
  pub read_word : (w : W) (d : ℕ) → (dev.read (at (bd_flags_pktlen d)) w).0 ≡ word_of w d
  pub word_kept : (w : W) (r : Reg) (d : ℕ) → word_of (dev.read (at r) w).1 d ≡ word_of w d
  pub word_others :
      (w : W) (r : Reg) (v d : ℕ)
      → is_word r ≡ false
      → word_of (dev.write (at r) v w) d ≡ word_of w d
  pub set_word :
      (w : W) (a v d : ℕ)
      → v < 2 ^ 32
      → word_of (dev.write (at (bd_flags_pktlen a)) v w) d ≡ (if d == a then v else word_of w d)

first_word_u32 : (tot : ℕ) → tot < 2 ^ 16 → hdkif_swizzle_data (bit_or tot 0xA000_0000) < 2 ^ 32
first_word_u32 tot h =
    let joined = bit_or_above 16 0xA000 tot h in
    (hdkif_swizzle_data-inverse (bit_or tot 0xA000_0000) (omega arith)).0

module _ {R W : Type 0} (dev : Device R W) (at : Reg → R) (mem : LinkMemory dev at)
    (packets : PacketMemory dev at) (fuel : ℕ) where
  open mem use {next_of}
  open packets use {seg, word_of}

  -- The packet from `q` on has `c` segments.
  abbrev pub Packet : W → ℕ → ℕ → Type 0
  Packet w q zero = q ≡ 0
  Packet w q (suc c) = (q ≢ 0) × Packet w (seg w q).next c

  abbrev pub follow : W → ℕ → ℕ
  follow w d = hdkif_swizzle_data (next_of w d)

  -- One segment in one descriptor.
  abbrev laid_one : W → ℕ → ℕ → ℕ → List (Write R)
  laid_one w pbuf q d =
      record { reg = at (bd_bufptr d); value = hdkif_swizzle_data (seg w q).payload }
      ∷ record {
        reg = at (bd_bufoff_len d);
        value = hdkif_swizzle_data (bit_and (seg w q).len 0xFFFF);
      }
      ∷ record { reg = at (bd_pbuf d); value = pbuf }
      ∷ []

  -- The segments from `q` on in the descriptors from `d` on, each in one.
  abbrev pub laid : ℕ → W → ℕ → ℕ → ℕ → List (Write R)
  laid zero w pbuf q d = []
  laid (suc c) w pbuf q d = laid_one w pbuf q d ++ laid c w pbuf (seg w q).next (follow w d)

  -- The last of `c` descriptors from `d` on, and the one behind it.
  abbrev pub last_bd : ℕ → W → ℕ → ℕ → ℕ
  last_bd zero w d e = e
  last_bd (suc c) w d e = last_bd c w (follow w d) d

  abbrev pub behind_bds : ℕ → W → ℕ → ℕ
  behind_bds zero w d = d
  behind_bds (suc c) w d = behind_bds c w (follow w d)

  -- The two memories have the same segments and links, and `f` has the words of the second.
  record Same (f : ℕ → ℕ) (w w' : W) : Type 0 where
    words : (d : ℕ) → word_of w' d ≡ f d
    segs : (q : ℕ) → seg w' q ≡ seg w q
    links : (d : ℕ) → next_of w' d ≡ next_of w d

  after_read : {f : ℕ → ℕ} (w w' : W) (r : Reg) → Same f w w' → Same f w (dev.read (at r) w').1
  after_read w w' r s = record {
    words = λ d. packets.word_kept w' r d ∙ s.words d;
    segs = λ q. packets.read_kept w' r q ∙ s.segs q;
    links = λ d. mem.read_kept w' r d ∙ s.links d;
  }

  after_write :
      {f : ℕ → ℕ} (w w' : W) (r : Reg) (v : ℕ)
      → is_packet r ≡ false
      → is_link r ≡ false
      → is_word r ≡ false
      → Same f w w'
      → Same f w (dev.write (at r) v w')
  after_write w w' r v h k l s = record {
    words = λ d. packets.word_others w' r v d l ∙ s.words d;
    segs = λ q. packets.write_kept w' r v q h ∙ s.segs q;
    links = λ d. mem.others w' r v d k ∙ s.links d;
  }

  fill_tx_bd-laid :
      {f : ℕ → ℕ} (pbuf q d : ℕ) (w0 w : W)
      → Same f w0 w
      → (w' : W) × (fill_tx_bd dev at fuel pbuf q d w
          ≡ ok (((seg w0 q).next, follow w0 d), w', laid_one w0 pbuf q d))
        × Same f w0 w'
  unfolding fill_tx_bd
  fill_tx_bd-laid pbuf q d w0 w s =
      let v1 = (dev.read (at (pbuf_payload q)) w).0 in
      let w1 = (dev.read (at (pbuf_payload q)) w).1 in
      let s1 = after_read w0 w (pbuf_payload q) s in
      let b1 = hdkif_swizzle_data v1 in
      let w2 = dev.write (at (bd_bufptr d)) b1 w1 in
      let s2 = after_write w0 w1 (bd_bufptr d) b1 refl refl refl s1 in
      let v2 = (dev.read (at (pbuf_len q)) w2).0 in
      let w3 = (dev.read (at (pbuf_len q)) w2).1 in
      let s3 = after_read w0 w2 (pbuf_len q) s2 in
      let b2 = hdkif_swizzle_data (bit_and v2 0xFFFF) in
      let w4 = dev.write (at (bd_bufoff_len d)) b2 w3 in
      let s4 = after_write w0 w3 (bd_bufoff_len d) b2 refl refl refl s3 in
      let w5 = dev.write (at (bd_pbuf d)) pbuf w4 in
      let s5 = after_write w0 w4 (bd_pbuf d) pbuf refl refl refl s4 in
      let v3 = (dev.read (at (bd_next d)) w5).0 in
      let w6 = (dev.read (at (bd_next d)) w5).1 in
      let s6 = after_read w0 w5 (bd_next d) s5 in
      let v4 = (dev.read (at (pbuf_next q)) w6).0 in
      let w7 = (dev.read (at (pbuf_next q)) w6).1 in
      let s7 = after_read w0 w6 (pbuf_next q) s6 in
      let e1 : v1 ≡ (seg w0 q).payload =
        packets.read_payload w q ∙ ap (λ x. x.payload) (s.segs q) in
      let e2 : v2 ≡ (seg w0 q).len = packets.read_len w2 q ∙ ap (λ x. x.len) (s2.segs q) in
      let e3 : v3 ≡ next_of w0 d = mem.read_next w5 d ∙ s5.links d in
      let e4 : v4 ≡ (seg w0 q).next = packets.read_next w6 q ∙ ap (λ x. x.next) (s6.segs q) in
      let outcome : ℕ → ℕ → ℕ → ℕ → Exec ((ℕ × ℕ) × W × List (Write R)) = λ a b x y. ok (
        (a, hdkif_swizzle_data b),
        w7,
        record { reg = at (bd_bufptr d); value = hdkif_swizzle_data x }
            ∷ record { reg = at (bd_bufoff_len d); value = hdkif_swizzle_data (bit_and y 0xFFFF) }
            ∷ record { reg = at (bd_pbuf d); value = pbuf }
            ∷ [],
      ) in
      (
        w7,
        ap₂ (λ a b. outcome a b v1 v2) e4 e3
            ∙ ap₂ (λ x y. outcome (seg w0 q).next (next_of w0 d) x y) e1 e2,
        s7,
      )

  fill_tx_bds-laid :
      {f : ℕ → ℕ} (n c pbuf q d e : ℕ) (w0 w : W)
      → c < n
      → Packet w0 q c
      → Same f w0 w
      → (w' : W) × (fill_tx_bds dev at fuel n pbuf q d e w
          ≡ ok ((last_bd c w0 d e, behind_bds c w0 d), w', laid c w0 pbuf q d))
        × Same f w0 w'
  unfolding fill_tx_bds
  fill_tx_bds-laid zero c pbuf q d e w0 w few p s = absurd (omega arith)
  fill_tx_bds-laid (suc n) zero pbuf q d e w0 w few p s = (w, rw p refl, s)
  fill_tx_bds-laid (suc n) (suc c) pbuf q d e w0 w few (ne, p) s =
      let ne' : (q == 0) ≡ false = ground arith in
      let (w1, run1, s1) = fill_tx_bd-laid pbuf q d w0 w s in
      let (w2, run2, s2) =
        fill_tx_bds-laid n c pbuf (seg w0 q).next (follow w0 d) d w0 w1 (omega arith) p s1 in
      (w2, rw (fill_tx_bds, ne', run1, run2) refl, s2)

  -- What is written for a packet of `c` segments in the descriptors from `d` on, of which `e` is the
  -- last, up to the start of the transmission; `tot_len` is the length of the packet. The end flag
  -- comes to what the word of the last descriptor has, which is the first word if there is only one.
  abbrev pub first_word : ℕ → ℕ
  first_word tot_len = hdkif_swizzle_data (bit_or tot_len 0xA000_0000)

  abbrev pub enqueued : W → ℕ → ℕ → ℕ → ℕ → ℕ → List (Write R)
  enqueued w c pbuf d e tot_len =
      record { reg = at (bd_flags_pktlen d); value = first_word tot_len }
      ∷ (laid c w pbuf pbuf d
          ++ (record { reg = at (bd_next e); value = 0 }
              ∷ record {
                reg = at (bd_flags_pktlen e);
                value =
                    bit_or (if e == d then first_word tot_len else word_of w e)
                      (hdkif_swizzle_data 0x4000_0000);
              }
              ∷ []))

  -- The word of the first descriptor is written.
  marked :
      (head tot : ℕ) (w : W)
      → tot < 2 ^ 16
      → {r : Reg}
      → Same
          (λ d. if d == head then first_word tot else word_of w d)
          w
          (dev.write (at (bd_flags_pktlen head)) (first_word tot) (dev.read (at r) w).1)
  marked head tot w u16 {r} = record {
    words = λ d.
        packets.set_word (dev.read (at r) w).1 head (first_word tot) d (first_word_u32 tot u16)
        ∙ ap (λ x. if d == head then first_word tot else x) (packets.word_kept w r d);
    segs = λ q.
        packets.write_kept (dev.read (at r) w).1 (bd_flags_pktlen head) (first_word tot) q refl
        ∙ packets.read_kept w r q;
    links = λ d.
        mem.others (dev.read (at r) w).1 (bd_flags_pktlen head) (first_word tot) d refl
        ∙ mem.read_kept w r d;
  }

  -- In memory that keeps the links, the segments and the words of flags, and if the start of the transmission returns
  -- with the same writes `dma` from every state: a packet of `c` segments, fewer than the fuel, is
  -- put into the descriptors from the free one on, one segment in each, with the length, the
  -- start flag and the owner's flag in the first, and no link and the end flag, beside what its word
  -- has, in the last. Only then is the transmission
  -- started. The channel goes on with the descriptor behind the last one.
  pub hdkif_transmit-enqueued :
      (txch : Txch) (pbuf c : ℕ) (dma : List (Write R)) (w : W)
      → c < fuel
      → Packet w pbuf c
      → (dev.read (at (pbuf_tot_len pbuf)) w).0 < 2 ^ 16
      → ((w1 : W)
          → (w2 : W) × (start_dma dev at fuel txch.active_tail txch.free_head w1
              ≡ ok (tt, w2, dma)))
      → (w' : W) × (hdkif_transmit dev at fuel txch pbuf w
          ≡ ok (
            record txch {
              free_head = behind_bds c w txch.free_head;
              active_tail = last_bd c w txch.free_head 0;
            },
            w',
            enqueued w c pbuf txch.free_head
                  (last_bd c w txch.free_head 0)
                  (dev.read (at (pbuf_tot_len pbuf)) w).0
                ++ dma,
          ))
  unfolding hdkif_transmit
  hdkif_transmit-enqueued txch pbuf c dma w few p u16 starts =
      let head = txch.free_head in
      let tot = (dev.read (at (pbuf_tot_len pbuf)) w).0 in
      let w1 = (dev.read (at (pbuf_tot_len pbuf)) w).1 in
      let first = first_word tot in
      let w2 = dev.write (at (bd_flags_pktlen head)) first w1 in
      let words : ℕ → ℕ = λ d. if d == head then first else word_of w d in
      let s2 : Same words w w2 = marked head tot w u16 in
      let (w3, run3, s3) = fill_tx_bds-laid fuel c pbuf pbuf head 0 w w2 few p s2 in
      let e = last_bd c w head 0 in
      let w4 = dev.write (at (bd_next e)) 0 w3 in
      let flags : (dev.read (at (bd_flags_pktlen e)) w4).0 ≡ words e =
        packets.read_word w4 e ∙ packets.word_others w3 (bd_next e) 0 e refl ∙ s3.words e in
      let w5 = (dev.read (at (bd_flags_pktlen e)) w4).1 in
      let end_mark = bit_or (words e) (hdkif_swizzle_data 0x4000_0000) in
      let w6 = dev.write (at (bd_flags_pktlen e)) end_mark w5 in
      let (w7, run7) = starts w6 in
      let ending : List (Write R) =
        record { reg = at (bd_next e); value = 0 }
        ∷ record { reg = at (bd_flags_pktlen e); value = end_mark }
        ∷ [] in
      (
        w7,
        rw
            (
              hdkif_transmit,
              run3,
              flags,
              run7,
              append-nil dma,
              append_assoc (laid c w pbuf pbuf head) ending dma,
            )
            refl,
      )

  -- On an idle channel the writes `dma` are one: the descriptor pointer is the packet's first
  -- descriptor.
  pub start_dma-idle :
      (head : ℕ) (w : W)
      → start_dma dev at fuel 0 head w
        ≡ ok (tt, dev.write (at (txhdp 0)) head w, record { reg = at (txhdp 0); value = head } ∷ [])
  unfolding start_dma
  start_dma-idle head w = refl

  -- Behind another packet, if each wait for the end of the queue, and for the descriptor pointer to
  -- be 0, ends, and the flag of the end stays: the link of the last packet, and then the pointer.
  pub start_dma-behind :
      (tail head : ℕ)
      → tail ≢ 0
      → Settles dev fuel (at (bd_flags_pktlen tail)) (λ v. not (at_eoq v))
      → Settles dev fuel (at (txhdp 0)) (λ v. not (v == 0))
      → ((w : W) → at_eoq (dev.read (at (bd_flags_pktlen tail)) w).0 ≡ true)
      → (w : W)
      → (w' : W) × (start_dma dev at fuel tail head w
          ≡ ok (
            tt,
            w',
            record { reg = at (bd_next tail); value = hdkif_swizzle_data head }
                ∷ record { reg = at (txhdp 0); value = head }
                ∷ [],
          ))
  unfolding start_dma
  start_dma-behind tail head ne queue pointer stays w =
      let busy : (tail == 0) ≡ false = ground arith in
      let (w1, e1) = queue w in
      let (w2, e2) = pointer w1 in
      let w3 = dev.write (at (bd_next tail)) (hdkif_swizzle_data head) w2 in
      let w4 = (dev.read (at (bd_flags_pktlen tail)) w3).1 in
      (dev.write (at (txhdp 0)) head w4, rw (start_dma, busy, e1, e2, stays w3) refl)
