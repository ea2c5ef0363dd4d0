-- ===== src/Port/Hdkif/Start/Ring.antt =====
-- The ring of descriptors for transmission.
use cannelloni_tms.Prelude.{
  ℕ, zero, suc, ◌+◌, ◌-◌, ◌*◌, ◌^◌, ◌<◌, ◌≡◌, refl, ap, sym, subst, ◌∙◌, arith, ℕ_discrete, Bool,
  true, false, if◌then◌else◌, ◌==◌,
}
use cannelloni_tms.Mmio.{Device}
use cannelloni_tms.Mmio.Runs.{Ends, Ends-bind, Ends-put, Ends-get, Ends-pure, Ends-weaken}
use cannelloni_tms.Port.Hdkif.{Reg, bd_next, bd_flags_pktlen, hdkif_swizzle_data}
use cannelloni_tms.Port.Hdkif.Swizzle.{hdkif_swizzle_data-inverse}
use cannelloni_tms.Port.Hdkif.Start.{init_tx_bds, init_tx_ring}

abbrev pub is_link : Reg → Bool
is_link (bd_next a) = true
is_link r = false

-- Memory that keeps the links that are written to it: other writes, and reads, leave them alone.
pub record LinkMemory {R W : Type 0} (dev : Device R W) (at : Reg → R) : Type 0 where
  pub next_of : W → ℕ → ℕ
  pub write_next :
      (w : W) (a v j : ℕ)
      → next_of (dev.write (at (bd_next a)) v w) j ≡ (if j == a then v else next_of w j)
  pub others :
      (w : W) (r : Reg) (v j : ℕ)
      → is_link r ≡ false
      → next_of (dev.write (at r) v w) j ≡ next_of w j
  pub read_next : (w : W) (a : ℕ) → (dev.read (at (bd_next a)) w).0 ≡ next_of w a
  pub read_kept : (w : W) (r : Reg) (j : ℕ) → next_of (dev.read (at r) w).1 j ≡ next_of w j

module _ {R W : Type 0} (dev : Device R W) (at : Reg → R) (mem : LinkMemory dev at) where
  open mem use {next_of}

  -- The descriptors from `curr` on are linked one to the next, and those before it are kept.
  pub record Linked (n curr last : ℕ) (w : W) (r : ℕ × ℕ) (w' : W) : Type 0 where
    pub behind : r.0 ≡ curr + 20 * n
    pub final : r.1 ≡ (if n == 0 then last else curr + 20 * n - 20)
    pub links :
        (i : ℕ) → i < n → next_of w' (curr + 20 * i) ≡ hdkif_swizzle_data (curr + 20 * i + 20)
    pub before : (j : ℕ) → j < curr → next_of w' j ≡ next_of w j

  init_tx_bds-Linked :
      (n curr last : ℕ) (w : W)
      → curr + 20 * n < 2 ^ 32
      → Ends (init_tx_bds dev at n curr last) w (Linked n curr last w)
  unfolding init_tx_bds
  init_tx_bds-Linked zero curr last w u32 =
      Ends-pure dev (curr, last)
        (record {
          behind = omega arith;
          final = refl;
          links = λ i h. absurd (omega arith);
          before = λ j h. refl;
        })
  init_tx_bds-Linked (suc n) curr last w u32 =
      let link = hdkif_swizzle_data (curr + 20) in
      let w1 = dev.write (at (bd_next curr)) link w in
      let w2 = dev.write (at (bd_flags_pktlen curr)) 0 w1 in
      let w3 = (dev.read (at (bd_next curr)) w2).1 in
      let kept : (j : ℕ) → next_of w3 j ≡ (if j == curr then link else next_of w j) = λ j.
        mem.read_kept w2 (bd_next curr) j
        ∙ mem.others w1 (bd_flags_pktlen curr) 0 j refl
        ∙ mem.write_next w curr link j in
      let here : next_of w3 curr ≡ link = kept curr ∙ ground arith in
      let read : hdkif_swizzle_data (dev.read (at (bd_next curr)) w2).0 ≡ curr + 20 =
        ap hdkif_swizzle_data
          (mem.read_next w2 curr ∙ sym (mem.read_kept w2 (bd_next curr) curr) ∙ here)
        ∙ (hdkif_swizzle_data-inverse (curr + 20) (omega arith)).3 in
      Ends-put dev _ _ _ (
        Ends-put dev _ _ _ (
          Ends-get dev _ (λ next. init_tx_bds dev at n (hdkif_swizzle_data next) curr)
            (subst (λ c. Ends (init_tx_bds dev at n c curr) w3 (Linked (suc n) curr last w))
              (sym read)
              (Ends-weaken (init_tx_bds-Linked n (curr + 20) curr w3 (omega arith)) λ r w' p.
                record {
                  behind = p.behind ∙ omega arith;
                  final = p.final ∙ ground arith;
                  links = λ i h. elim (ℕ_discrete i 0) [
                    | yes e ↦
                        let a : curr + 20 * i ≡ curr = omega arith in
                        ap (next_of w') a
                        ∙ p.before curr (omega arith)
                        ∙ here
                        ∙ ap (λ t. hdkif_swizzle_data (t + 20)) (sym a)
                    | no ne ↦
                        let b : curr + 20 + 20 * (i - 1) ≡ curr + 20 * i = omega arith in
                        ap (next_of w') (sym b)
                        ∙ p.links (i - 1) (omega arith)
                        ∙ ap (λ t. hdkif_swizzle_data (t + 20)) b
                  ];
                  before = λ j h. p.before j (omega arith) ∙ kept j ∙ ground arith;
                }))))

  -- The descriptor that the link of the descriptor at an address points to.
  abbrev pub follow : W → ℕ → ℕ
  follow w a = hdkif_swizzle_data (next_of w a)

  -- In memory that keeps the links, the driver links 204 descriptors of 20 bytes from `base` on,
  -- all of whose addresses are words, into a ring: each link leads to the next descriptor, and that
  -- of the last one to the first. The result is the pointer behind the last one.
  pub init_tx_ring-follow :
      (base : ℕ) (w : W)
      → base + 4080 < 2 ^ 32
      → Ends (init_tx_ring dev at base) w (λ r w'.
        (r ≡ base + 20 * 204)
        × ((i : ℕ) → i < 203 → follow w' (base + 20 * i) ≡ base + 20 * (i + 1))
        × (follow w' (base + 20 * 203) ≡ base))
  unfolding init_tx_ring
  init_tx_ring-follow base w u32 =
      Ends-bind _ (init_tx_bds-Linked 204 base 0 w (omega arith)) λ r w1 p.
        let at_last : r.1 ≡ base + 20 * 203 = p.final ∙ omega arith in
        let link = hdkif_swizzle_data base in
        let kept : (j : ℕ)
            → next_of (dev.write (at (bd_next r.1)) link w1) j
              ≡ (if j == r.1 then link else next_of w1 j) =
          mem.write_next w1 r.1 link in
        Ends-put dev _ _ _ (
          Ends-pure dev r.0 (
            p.behind,
            (λ i h.
                ap hdkif_swizzle_data
                  (kept (base + 20 * i) ∙ ground arith ∙ p.links i (omega arith))
                ∙ (hdkif_swizzle_data-inverse (base + 20 * i + 20) (omega arith)).3
                ∙ omega arith),
            ap hdkif_swizzle_data (kept (base + 20 * 203) ∙ ground arith)
                ∙ (hdkif_swizzle_data-inverse base (omega arith)).3,
          ))
