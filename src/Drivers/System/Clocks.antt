-- ===== src/Drivers/System/Clocks.antt =====
-- The start of the clocks: the sources are valid before the clock domains are switched to them.
use cannelloni_tms.Prelude.{
  ℕ, zero, suc, ◌<◌, ◌≡◌, refl, ap, ◌∙◌, arith, List, [], ◌∷◌, map, Bool, true, false,
}
use cannelloni_tms.Prelude.{ok}
use cannelloni_tms.Prelude.Masks.{covers, bit_and-covers}
use cannelloni_tms.Mmio.{Device, Write, behind}
use cannelloni_tms.Drivers.System.{
  Reg, pllctl1, pllctl3, csdis, csvstat, clkcntl, hclkcntl, ghvsrc, rclksrc, vclkasrc, clk2cntrl,
  vclkacon1, all_valid, wait_clocks, switch_clocks, map_clocks,
}

-- The registers that are written when the clocks are switched, in order.
abbrev pub switched : List Reg
switched =
    ghvsrc ∷ rclksrc ∷ vclkasrc ∷ clkcntl ∷ clkcntl ∷ clk2cntrl ∷ vclkacon1 ∷ pllctl1 ∷ pllctl3 ∷ []

module _ {R W : Type 0} (dev : Device R W) (at : Reg → R) where
  -- The state after `n` rounds of reads of CSVSTAT and CSDIS.
  abbrev pub sampled : ℕ → W → W
  sampled zero w = w
  sampled (suc n) w = sampled n (dev.read (at csdis) (dev.read (at csvstat) w).1).1

  -- Whether the next round of reads shows that each of the eight sources is off or valid: the digit
  -- of a source is 1 in CSDIS if it is off, and 1 in CSVSTAT if it is valid.
  abbrev pub shows_valid : W → Bool
  shows_valid w =
      covers 8 (dev.read (at csvstat) w).0 (dev.read (at csdis) (dev.read (at csvstat) w).1).0

  -- The test of the code.
  all_valid-shows_valid :
      (w : W)
      → all_valid (dev.read (at csvstat) w).0 (dev.read (at csdis) (dev.read (at csvstat) w).1).0
        ≡ shows_valid w
  all_valid-shows_valid w = bit_and-covers 8 _ _

  pub wait_clocks_lem :
      (n fuel : ℕ) (w : W)
      → n < fuel
      → ((k : ℕ) → k < n → shows_valid (sampled k w) ≡ false)
      → shows_valid (sampled n w) ≡ true
      → wait_clocks dev at fuel w ≡ ok (tt, sampled (suc n) w, [])
  unfolding wait_clocks
  wait_clocks_lem n zero w few before now = elim few [ ]
  wait_clocks_lem zero (suc fuel) w few before now =
      let e = all_valid-shows_valid w ∙ now in rw (wait_clocks, e) refl
  wait_clocks_lem (suc n) (suc fuel) w few before now =
      let e = all_valid-shows_valid w ∙ before 0 (omega arith) in
      rw (wait_clocks, e)
        (ap (λ o. behind [] (behind [] o))
          (wait_clocks_lem n fuel (sampled 1 w) (omega arith) (λ k h. before (suc k) (omega arith))
            now))

  -- If n rounds of reads show a source that is on but not valid, and the next round shows none,
  -- then `map_clocks` returns when there is fuel for these rounds. It has written HCLKCNTL before
  -- them, and every other register after them: first GHVSRC, then the sources and dividers of the
  -- other domains, and last the R-dividers of the two PLLs.
  pub map_clocks-switched :
      (n fuel : ℕ) (w : W)
      → let w0 = dev.write (at hclkcntl) 1 w in
        n < fuel
        → ((k : ℕ) → k < n → shows_valid (sampled k w0) ≡ false)
        → shows_valid (sampled n w0) ≡ true
        → (w' : W) × (l : List (Write R)) × (switch_clocks dev at (sampled (suc n) w0)
            ≡ ok (tt, w', l))
          × (map_clocks dev at fuel w ≡ ok (tt, w', record { reg = at hclkcntl; value = 1 } ∷ l))
          × (map (λ x. x.reg) l ≡ map at switched)
  unfolding map_clocks switch_clocks
  map_clocks-switched n fuel w few before now =
      let e = wait_clocks_lem n fuel (dev.write (at hclkcntl) 1 w) few before now in
      (_, _, refl, rw (map_clocks, e) refl, refl)
