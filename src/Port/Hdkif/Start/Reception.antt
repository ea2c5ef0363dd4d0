-- ===== src/Port/Hdkif/Start/Reception.antt =====
-- The descriptors for reception stay within the memory of the EMAC.
use cannelloni_tms.Prelude.{
  ℕ, zero, suc, ◌+◌, ◌-◌, ◌*◌, ◌%◌, ◌^◌, ◌<◌, ◌≤◌, ◌≡◌, ◌≢◌, refl, ap, subst, ◌∙◌, Bool, arith,
  ℕ_discrete, dec_lt, if◌then◌else◌, ◌==◌, leb, true, false,
}
use cannelloni_tms.Mmio.{Device}
use cannelloni_tms.Mmio.Runs.{Ends, Ends-bind, Ends-put, Ends-pure, Ends-weaken}
use cannelloni_tms.Port.Hdkif.{
  Reg, bd_next, bd_bufptr, bd_bufoff_len, bd_flags_pktlen, bd_pbuf, pbuf_next, pbuf_payload,
  pbuf_tot_len, pbuf_len, hdkif_swizzle_data,
}
use cannelloni_tms.Port.Hdkif.Swizzle.{hdkif_swizzle_data-inverse}
use cannelloni_tms.Port.Hdkif.Start.{Pbufs, fill_rx_bd, fill_rx_bds, alloc_rx, init_rx_ring}
use cannelloni_tms.Port.Hdkif.Start.Ring.{LinkMemory}

-- A member of a packet buffer.
abbrev pub is_pbuf : Reg → Bool
is_pbuf (pbuf_next q) = true
is_pbuf (pbuf_payload q) = true
is_pbuf (pbuf_tot_len q) = true
is_pbuf (pbuf_len q) = true
is_pbuf r = false

-- The chains of packet buffers that lwIP gives out: `Chain w q c` says that in the state `w` there is
-- a chain of `c` segments from `q` on. Reads, writes to anything but a packet buffer, and `pbuf_clen`
-- do not change a chain, and `pbuf_alloc` gives NULL or the start of a chain.
pub record Chains {R W : Type 0} (dev : Device R W) (at : Reg → R) (lwip : Pbufs R W) (fuel : ℕ)
    : Type 1 where
  pub Chain : W → ℕ → ℕ → Type 0
  pub null : (w : W) (c : ℕ) → Chain w 0 c → c ≡ 0
  pub next :
      (w : W) (q c : ℕ)
      → q ≢ 0
      → Chain w q c
      → (c' : ℕ) × (c ≡ suc c') × Chain w (dev.read (at (pbuf_next q)) w).0 c'
  pub write :
      (w : W) (r : Reg) (v q c : ℕ)
      → is_pbuf r ≡ false
      → Chain w q c
      → Chain (dev.write (at r) v w) q c
  pub read : (w : W) (r : Reg) (q c : ℕ) → Chain w q c → Chain (dev.read (at r) w).1 q c
  pub alloc :
      (w : W) (n : ℕ) → Ends (lwip.pbuf_alloc n) w (λ p w'. (c : ℕ) × (c < fuel) × Chain w' p c)
  pub clen :
      (w : W) (p c : ℕ) → Chain w p c → Ends (lwip.pbuf_clen p) w (λ n w'. (n ≡ c) × Chain w' p c)
  pub free : (w : W) (p : ℕ) → Ends (lwip.pbuf_free p) w (λ _ w'. Unit {0})

one_more :
    (c curr last : ℕ)
    → (if c == 0 then curr else curr + 20 + 20 * c - 20)
      ≡ (if c + 1 == 0 then last else curr + 20 * (c + 1) - 20)
one_more c curr last = ground arith

-- The last of the descriptors that have been taken from `curr` on lies between the bounds.
bounded :
    (c num curr last l head top : ℕ)
    → l ≡ (if c == 0 then last else curr + 20 * c - 20)
    → c ≤ num
    → curr + 20 * num ≡ top
    → head ≤ curr
    → (head ≤ last) × (last + 20 ≤ top)
    → (head ≤ l) × (l + 20 ≤ top)
bounded c num curr last l head top e room at_top above (low, high) = elim (ℕ_discrete c 0) [
  | yes z ↦ ground arith
  | no nz ↦ ground arith
]

module _ {R W : Type 0} (dev : Device R W) (at : Reg → R) (lwip : Pbufs R W) (fuel : ℕ)
    (mem : LinkMemory dev at) (chains : Chains dev at lwip fuel) where
  open mem use {next_of}
  open chains use {Chain}

  -- `c` descriptors have been taken from `curr` on.
  pub record Taken (c num curr last : ℕ) (r : ℕ × ℕ × ℕ) : Type 0 where
    pub left : r.0 + c ≡ num
    pub behind : r.1 ≡ curr + 20 * c
    pub final : r.2 ≡ (if c == 0 then last else curr + 20 * c - 20)

  -- One round leaves a chain that is shorter by one, and comes to the next descriptor in memory.
  fill_rx_bd-Ends :
      (q curr c : ℕ) (w : W)
      → q ≢ 0
      → Chain w q c
      → curr + 20 < 2 ^ 32
      → Ends
          (fill_rx_bd dev at lwip q curr)
          w
          (λ r w'. (c' : ℕ) × (c ≡ suc c') × Chain w' r.0 c' × (r.1 ≡ curr + 20))
  unfolding fill_rx_bd
  fill_rx_bd-Ends q curr c w ne here u32 =
      let link = hdkif_swizzle_data (curr + 20) in
      let w1 = (dev.read (at (pbuf_payload q)) w).1 in
      let payload = hdkif_swizzle_data (dev.read (at (pbuf_payload q)) w).0 in
      let w2 = dev.write (at (bd_bufptr curr)) payload w1 in
      let w3 = (dev.read (at (pbuf_len q)) w2).1 in
      let len = hdkif_swizzle_data (dev.read (at (pbuf_len q)) w2).0 in
      let w4 = dev.write (at (bd_bufoff_len curr)) len w3 in
      let w5 = dev.write (at (bd_next curr)) link w4 in
      let owner = hdkif_swizzle_data 0x2000_0000 in
      let w6 = dev.write (at (bd_flags_pktlen curr)) owner w5 in
      let w7 = dev.write (at (bd_pbuf curr)) q w6 in
      let w8 = (dev.read (at (bd_next curr)) w7).1 in
      let w9 = (dev.read (at (pbuf_next q)) w8).1 in
      let q' = (dev.read (at (pbuf_next q)) w8).0 in
      let kept : Chain w8 q c = chains.read w7 (bd_next curr) q c (
        chains.write w6 (bd_pbuf curr) q q c refl (
          chains.write w5 (bd_flags_pktlen curr) owner q c refl (
            chains.write w4 (bd_next curr) link q c refl (
              chains.write w3 (bd_bufoff_len curr) len q c refl (
                chains.read w2 (pbuf_len q) q c (
                  chains.write w1 (bd_bufptr curr) payload q c refl
                    (chains.read w (pbuf_payload q) q c here))))))) in
      let (c', shorter, rest) = chains.next w8 q c ne kept in
      let stored : (dev.read (at (bd_next curr)) w7).0 ≡ link =
        mem.read_next w7 curr
        ∙ mem.others w6 (bd_pbuf curr) q curr refl
        ∙ mem.others w5 (bd_flags_pktlen curr) owner curr refl
        ∙ mem.write_next w4 curr link curr
        ∙ ground arith in
      let there : hdkif_swizzle_data (dev.read (at (bd_next curr)) w7).0 ≡ curr + 20 =
        ap hdkif_swizzle_data stored ∙ (hdkif_swizzle_data-inverse (curr + 20) (omega arith)).3 in
      record {
        result = (q', hdkif_swizzle_data (dev.read (at (bd_next curr)) w7).0);
        state = w9;
        trace = _;
        run = refl;
        post = (c', shorter, chains.read w8 (pbuf_next q) q' c' rest, there);
      }

  fill_rx_bds-Taken :
      (n q num curr last c : ℕ) (w : W)
      → Chain w q c
      → c < n
      → c ≤ num
      → num < 2 ^ 32
      → curr + 20 * num < 2 ^ 32
      → Ends (fill_rx_bds dev at lwip n q num curr last) w (λ r w'. Taken c num curr last r)
  unfolding fill_rx_bds
  fill_rx_bds-Taken zero q num curr last c w here few room u32 top = absurd (omega arith)
  fill_rx_bds-Taken (suc n) q num curr last c w here few room u32 top = elim (ℕ_discrete q 0) [
    | yes e ↦
        let none : c ≡ 0 = chains.null w c (subst (λ x. Chain w x c) e here) in
        rw e (
          Ends-pure dev (num, curr, last)
            (record { left = omega arith; behind = omega arith; final = rw none refl }))
    | no ne ↦
        let ne' : (q == 0) ≡ false = ground arith in
        let some_left : 0 < c = let (c', e, h) = chains.next w q c ne here in omega arith in
        let fewer : (num + 2 ^ 32 - 1) % 2 ^ 32 ≡ num - 1 = omega arith in
        rw (fill_rx_bds, ne')
          (Ends-bind _ (fill_rx_bd-Ends q curr c w ne here (omega arith)) λ r w1 p.
            let (c', shorter, rest, there) = p in
            rw (fewer, there)
              (Ends-weaken
                (fill_rx_bds-Taken n r.0 (num - 1) (curr + 20) curr c' w1 rest (omega arith)
                  (omega arith) (omega arith) (omega arith))
                λ r' w' t. record {
                  left = omega (arith, t.left);
                  behind = omega (arith, t.behind);
                  final =
                      t.final
                      ∙ one_more c' curr last
                      ∙ ap (λ x. if x == 0 then last else curr + 20 * x - 20) (omega arith);
                }))
  ]

  alloc_rx-bounded :
      (n num curr last head top : ℕ) (w : W)
      → curr + 20 * num ≡ top
      → top < 2 ^ 32
      → head ≤ curr
      → (head ≤ last) × (last + 20 ≤ top)
      → Ends (alloc_rx dev at lwip fuel n num curr last) w (λ l w'. (head ≤ l) × (l + 20 ≤ top))
  unfolding alloc_rx
  alloc_rx-bounded zero num curr last head top w at_top u32 above within = Ends-pure dev last within
  alloc_rx-bounded (suc n) num curr last head top w at_top u32 above within =
      Ends-bind _ (chains.alloc w 1514) λ p w1 (l, short, given). elim (ℕ_discrete p 0) [
        | yes e ↦ let e' : (p == 0) ≡ true = ground arith in rw e' (Ends-pure dev last within)
        | no ne ↦
            let ne' : (p == 0) ≡ false = ground arith in
            rw ne' (
              Ends-bind _ (chains.clen w1 p l given) λ c w2 same. elim (dec_lt num c) [
                | yes more ↦
                    let e : leb c num ≡ false = ground arith in
                    rw e (Ends-bind _ (chains.free w2 p) λ _ w3 _. Ends-pure dev last within)
                | no room ↦
                    let e : leb c num ≡ true = ground arith in
                    rw e (
                      Ends-bind _
                        (fill_rx_bds-Taken fuel p num curr last l w2 same.1 (omega arith)
                          (omega (arith, same.0)) (omega arith) (omega arith))
                        λ r w3 t.
                          alloc_rx-bounded n r.0 r.1 r.2 head top w3
                            (omega (arith, t.left, t.behind)) u32 (omega (arith, t.behind))
                            (bounded l num curr last r.2 head top t.final (omega (arith, same.0))
                              at_top above within))
              ])
      ]

  -- Whatever lwIP's allocation gives, the set-up of the reception returns; the last descriptor,
  -- which ends the chain, lies within the 203 descriptors of 20 bytes from the first one on.
  pub init_rx_ring-bounded :
      (head : ℕ) (w : W)
      → head + 20 * 203 < 2 ^ 32
      → Ends (init_rx_ring dev at lwip fuel head) w (λ c w'.
        (c.active_head ≡ head)
        × (head ≤ c.active_tail)
        × (c.active_tail + 20 ≤ head + 20 * 203)
        × (next_of w' c.active_tail ≡ 0))
  unfolding init_rx_ring
  init_rx_ring-bounded head w u32 =
      Ends-bind _
        (alloc_rx-bounded 10 203 head head head (head + 20 * 203) w refl u32 (omega arith)
          (omega arith, omega arith))
        λ l w1 p.
          Ends-put dev _ _ _
            (Ends-pure dev _ (refl, p.0, p.1, mem.write_next w1 l 0 l ∙ ground arith))
