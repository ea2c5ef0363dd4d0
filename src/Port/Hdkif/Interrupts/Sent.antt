-- ===== src/Port/Hdkif/Interrupts/Sent.antt =====
-- What becomes of a packet that has been sent.
use cannelloni_tms.Prelude.{
  ℕ, zero, suc, ◌-◌, ◌<◌, ◌≡◌, refl, ap, ap₂, ◌∙◌, arith, List, [], ◌∷◌, append-nil, Bool-cases,
  inl, inr, true, false, if◌then◌else◌, ◌==◌,
}
use cannelloni_tms.Prelude.{ok}
use cannelloni_tms.Prelude.Masks.{without, without-bit_6, without-bit_7}
use cannelloni_tms.Mmio.{Device, Write, poll}
use cannelloni_tms.Mmio.Runs.{poll-ready}
use cannelloni_tms.Port.Hdkif.{
  Reg, txcp, maceoivector, bd_next, bd_flags_pktlen, bd_pbuf, hdkif_swizzle_data,
}
use cannelloni_tms.Port.Hdkif.Start.{Txch, Pbufs}
use cannelloni_tms.Port.Hdkif.Interrupts.{
  flagged, unflagged, find_eop, next_packet, packet_sent, packets_sent, hdkif_tx_inthandler,
}

-- Memory in which the EMAC has finished: flags, links and buffers of descriptors are kept, but for
-- the flags that the driver writes. `freed p` is what lwIP writes to free the buffer `p`.
pub record DoneMemory {R W : Type 0} (dev : Device R W) (at : Reg → R) (lwip : Pbufs R W)
    : Type 0 where
  pub word_of : W → ℕ → ℕ
  pub next_of : W → ℕ → ℕ
  pub buffer_of : W → ℕ → ℕ
  pub freed : ℕ → List (Write R)
  pub read_flags : (w : W) (d : ℕ) → (dev.read (at (bd_flags_pktlen d)) w).0 ≡ word_of w d
  pub read_next : (w : W) (d : ℕ) → (dev.read (at (bd_next d)) w).0 ≡ next_of w d
  pub read_buffer : (w : W) (d : ℕ) → (dev.read (at (bd_pbuf d)) w).0 ≡ buffer_of w d
  pub same_flags : (w : W) (r : Reg) (d : ℕ) → word_of (dev.read (at r) w).1 d ≡ word_of w d
  pub same_next : (w : W) (r : Reg) (d : ℕ) → next_of (dev.read (at r) w).1 d ≡ next_of w d
  pub same_buffer : (w : W) (r : Reg) (d : ℕ) → buffer_of (dev.read (at r) w).1 d ≡ buffer_of w d
  pub set_flags :
      (w : W) (a v d : ℕ)
      → word_of (dev.write (at (bd_flags_pktlen a)) v w) d ≡ (if d == a then v else word_of w d)
  pub kept_next :
      (w : W) (a v d : ℕ) → next_of (dev.write (at (bd_flags_pktlen a)) v w) d ≡ next_of w d
  pub kept_buffer :
      (w : W) (a v d : ℕ) → buffer_of (dev.write (at (bd_flags_pktlen a)) v w) d ≡ buffer_of w d
  pub acknowledged : (w : W) (v d : ℕ) → buffer_of (dev.write (at (txcp 0)) v w) d ≡ buffer_of w d
  pub free : (w : W) (p : ℕ) → (w' : W) × (lwip.pbuf_free p w ≡ ok (tt, w', freed p))

-- In the byte order of the CPU the start flag is bit 7 of a word, and the end flag bit 6.
unflagged-sop : (v : ℕ) → unflagged 0x8000_0000 v ≡ without 7 v
unfolding hdkif_swizzle_data
unflagged-sop v = without-bit_7 v

unflagged-eop : (v : ℕ) → unflagged 0x4000_0000 v ≡ without 6 v
unfolding hdkif_swizzle_data
unflagged-eop v = without-bit_6 v

module _ {R W : Type 0} (dev : Device R W) (at : Reg → R) (lwip : Pbufs R W) (fuel : ℕ)
    (mem : DoneMemory dev at lwip) where
  open mem use {word_of, next_of, buffer_of}

  -- The packet whose descriptors begin at `d` has its end flag `c` descriptors on.
  abbrev pub EndsAt : ℕ → W → ℕ → Type 0
  EndsAt zero w d = flagged 0x4000_0000 (word_of w d) ≡ true
  EndsAt (suc c) w d =
      (flagged 0x4000_0000 (word_of w d) ≡ false) × EndsAt c w (hdkif_swizzle_data (next_of w d))

  abbrev pub end_of : ℕ → W → ℕ → ℕ
  end_of zero w d = d
  end_of (suc c) w d = end_of c w (hdkif_swizzle_data (next_of w d))

  record Same (w w' : W) : Type 0 where
    flags : (d : ℕ) → word_of w' d ≡ word_of w d
    links : (d : ℕ) → next_of w' d ≡ next_of w d
    buffers : (d : ℕ) → buffer_of w' d ≡ buffer_of w d

  after_read : (w w' : W) (r : Reg) → Same w w' → Same w (dev.read (at r) w').1
  after_read w w' r s = record {
    flags = λ d. mem.same_flags w' r d ∙ s.flags d;
    links = λ d. mem.same_next w' r d ∙ s.links d;
    buffers = λ d. mem.same_buffer w' r d ∙ s.buffers d;
  }

  find_eop-Same :
      (n c d : ℕ) (w0 w : W)
      → c < n
      → EndsAt c w0 d
      → Same w0 w
      → (w' : W) × (find_eop dev at lwip fuel n d w ≡ ok (end_of c w0 d, w', [])) × Same w0 w'
  unfolding find_eop
  find_eop-Same zero c d w0 w few h s = absurd (omega arith)
  find_eop-Same (suc n) zero d w0 w few h s =
      let e = mem.read_flags w d ∙ s.flags d in
      (
        (dev.read (at (bd_flags_pktlen d)) w).1,
        rw (find_eop, e, h) refl,
        after_read w0 w (bd_flags_pktlen d) s,
      )
  find_eop-Same (suc n) (suc c) d w0 w few (h, k) s =
      let e = mem.read_flags w d ∙ s.flags d in
      let w1 = (dev.read (at (bd_flags_pktlen d)) w).1 in
      let s1 = after_read w0 w (bd_flags_pktlen d) s in
      let e1 = mem.read_next w1 d ∙ s1.links d in
      let w2 = (dev.read (at (bd_next d)) w1).1 in
      let (w3, run, s3) =
        find_eop-Same n c (hdkif_swizzle_data (next_of w0 d)) w0 w2 (omega arith) k
          (after_read w0 w1 (bd_next d) s1) in
      (w3, rw (find_eop, e, h, e1, run) refl, s3)

  -- Where the packet begins that comes after the descriptor `e`.
  abbrev pub after : ℕ → W → ℕ → ℕ
  after free_head w e = if next_of w e == 0 then free_head else hdkif_swizzle_data (next_of w e)

  next_packet-after :
      (free_head e : ℕ) (w : W)
      → (w' : W) × (next_packet dev at lwip fuel free_head e w ≡ ok (after free_head w e, w', []))
        × ((d : ℕ) → buffer_of w' d ≡ buffer_of w d)
  unfolding next_packet
  next_packet-after free_head e w =
      let v = mem.read_next w e in
      let w1 = (dev.read (at (bd_next e)) w).1 in
      let v1 = mem.read_next w1 e ∙ mem.same_next w (bd_next e) e in
      let kept : (d : ℕ) → buffer_of w1 d ≡ buffer_of w d = mem.same_buffer w (bd_next e) in
      elim (Bool-cases (next_of w e == 0)) [
        | inl null ↦ (w1, rw (next_packet, v, null) refl, kept)
        | inr link ↦ (
          (dev.read (at (bd_next e)) w1).1,
          rw (next_packet, v, link, v1) refl,
          (λ d. mem.same_buffer w1 (bd_next e) d ∙ kept d),
        )
      ]

  -- The flags of the last descriptor, once the start flag of the first one is gone.
  abbrev pub last_flags : W → ℕ → ℕ → ℕ
  last_flags w d e = if e == d then without 7 (word_of w d) else word_of w e

  packet_sent-words :
      (free_head c d : ℕ) (w : W)
      → c < fuel
      → flagged 0x2000_0000 (word_of w d) ≡ false
      → EndsAt c w d
      → let e = end_of c w d in
        (w' : W) × (packet_sent dev at lwip fuel free_head d w
          ≡ ok (
            after free_head w e,
            w',
            record { reg = at (bd_flags_pktlen d); value = unflagged 0x8000_0000 (word_of w d) }
                ∷ record {
                  reg = at (bd_flags_pktlen e);
                  value =
                      unflagged 0x4000_0000
                        (if e == d then unflagged 0x8000_0000 (word_of w d) else word_of w e);
                }
                ∷ record { reg = at (txcp 0); value = e }
                ∷ mem.freed (buffer_of w e),
          ))
  unfolding packet_sent
  packet_sent-words free_head c d w few mine ends =
      let e = end_of c w d in
      let w1 = (dev.read (at (bd_flags_pktlen d)) w).1 in
      let some_fuel : fuel ≡ suc (fuel - 1) = omega arith in
      let idle : poll dev fuel (at (bd_flags_pktlen d)) (flagged 0x2000_0000) w ≡ ok w1 =
        ap (λ n. poll dev n (at (bd_flags_pktlen d)) (flagged 0x2000_0000) w) some_fuel
        ∙ poll-ready dev (fuel - 1) (at (bd_flags_pktlen d)) (flagged 0x2000_0000) w
            (ap (flagged 0x2000_0000) (mem.read_flags w d) ∙ mine) in
      let s0 : Same w w = record { flags = λ x. refl; links = λ x. refl; buffers = λ x. refl } in
      let (w2, found, s2) =
        find_eop-Same fuel c d w w1 few ends (after_read w w (bd_flags_pktlen d) s0) in
      let e1 : (dev.read (at (bd_flags_pktlen d)) w2).0 ≡ word_of w d =
        mem.read_flags w2 d ∙ s2.flags d in
      let w3 = (dev.read (at (bd_flags_pktlen d)) w2).1 in
      let s3 = after_read w w2 (bd_flags_pktlen d) s2 in
      let f1 = unflagged 0x8000_0000 (word_of w d) in
      let w4 = dev.write (at (bd_flags_pktlen d)) f1 w3 in
      let e2 : (dev.read (at (bd_flags_pktlen e)) w4).0 ≡ (if e == d then f1 else word_of w e) =
        mem.read_flags w4 e
        ∙ mem.set_flags w3 d f1 e
        ∙ ap (λ x. if e == d then f1 else x) (s3.flags e) in
      let w5 = (dev.read (at (bd_flags_pktlen e)) w4).1 in
      let f2 = unflagged 0x4000_0000 (if e == d then f1 else word_of w e) in
      let w6 = dev.write (at (bd_flags_pktlen e)) f2 w5 in
      let link : next_of w6 e ≡ next_of w e =
        mem.kept_next w5 e f2 e
        ∙ mem.same_next w4 (bd_flags_pktlen e) e
        ∙ mem.kept_next w3 d f1 e
        ∙ s3.links e in
      let buffer : buffer_of w6 e ≡ buffer_of w e =
        mem.kept_buffer w5 e f2 e
        ∙ mem.same_buffer w4 (bd_flags_pktlen e) e
        ∙ mem.kept_buffer w3 d f1 e
        ∙ s3.buffers e in
      let (w7, went, kept) = next_packet-after free_head e w6 in
      let next : after free_head w6 e ≡ after free_head w e =
        ap (λ x. if x == 0 then free_head else hdkif_swizzle_data x) link in
      let w8 = dev.write (at (txcp 0)) e w7 in
      let e3 : (dev.read (at (bd_pbuf e)) w8).0 ≡ buffer_of w e =
        mem.read_buffer w8 e ∙ mem.acknowledged w7 e e ∙ kept e ∙ buffer in
      let w9 = (dev.read (at (bd_pbuf e)) w8).1 in
      let (w10, done) = mem.free w9 (buffer_of w e) in
      (
        w10,
        rw
            (
              packet_sent,
              idle,
              found,
              e1,
              e2,
              went,
              next,
              e3,
              done,
              append-nil (mem.freed (buffer_of w e)),
            )
            refl,
      )

  -- In memory in which the EMAC has finished, a packet of `c + 1` descriptors from `d` on, fewer
  -- than or as many as the fuel, which the EMAC no longer owns: the round returns; it has cleared
  -- the start flag of the first descriptor, which is bit 7 of the word as the CPU reads it, and the
  -- end flag of the last, which is bit 6, and no other bit, acknowledged the last one and then freed the buffer of the packet, and goes on with the descriptor that the last one
  -- links to, or with the first free one if there is no link.
  pub packet_sent-freed :
      (free_head c d : ℕ) (w : W)
      → c < fuel
      → flagged 0x2000_0000 (word_of w d) ≡ false
      → EndsAt c w d
      → let e = end_of c w d in
        (w' : W) × (packet_sent dev at lwip fuel free_head d w
          ≡ ok (
            after free_head w e,
            w',
            record { reg = at (bd_flags_pktlen d); value = without 7 (word_of w d) }
                ∷ record { reg = at (bd_flags_pktlen e); value = without 6 (last_flags w d e) }
                ∷ record { reg = at (txcp 0); value = e }
                ∷ mem.freed (buffer_of w e),
          ))
  packet_sent-freed free_head c d w few mine ends =
      let e = end_of c w d in
      let (w', run) = packet_sent-words free_head c d w few mine ends in
      let first = unflagged-sop (word_of w d) in
      let last = ap (λ x. if e == d then x else word_of w e) first in
      (
        w',
        run
            ∙ ap₂
                (λ a b. ok (
                  after free_head w e,
                  w',
                  record { reg = at (bd_flags_pktlen d); value = a }
                      ∷ record { reg = at (bd_flags_pktlen e); value = b }
                      ∷ record { reg = at (txcp 0); value = e }
                      ∷ mem.freed (buffer_of w e),
                ))
                first (unflagged-eop _ ∙ ap (without 6) last),
      )

  packets_sent-none :
      (n free_head d : ℕ) (w : W)
      → 0 < n
      → flagged 0x8000_0000 (word_of w d) ≡ false
      → (w' : W) × (packets_sent dev at lwip fuel n free_head d w ≡ ok (d, w', []))
  unfolding packets_sent
  packets_sent-none zero free_head d w h none = absurd (omega arith)
  packets_sent-none (suc n) free_head d w h none =
      let e = mem.read_flags w d in
      ((dev.read (at (bd_flags_pktlen d)) w).1, rw (packets_sent, e, none) refl)

  -- When the next packet is not marked as one, the handler acknowledges both interrupts and changes
  -- nothing else.
  pub hdkif_tx_inthandler-none :
      (txch : Txch) (w : W)
      → 0 < fuel
      → flagged 0x8000_0000 (word_of w txch.next_bd_to_process) ≡ false
      → (w' : W) × (hdkif_tx_inthandler dev at lwip fuel txch w
          ≡ ok (
            txch,
            w',
            record { reg = at maceoivector; value = 1 }
                ∷ record { reg = at maceoivector; value = 2 }
                ∷ [],
          ))
  unfolding hdkif_tx_inthandler
  hdkif_tx_inthandler-none txch w some_fuel none =
      let (w1, run) =
        packets_sent-none fuel txch.free_head txch.next_bd_to_process w some_fuel none in
      (
        dev.write (at maceoivector) 2 (dev.write (at maceoivector) 1 w1),
        rw (hdkif_tx_inthandler, run) refl,
      )
