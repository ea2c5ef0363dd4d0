-- ===== src/Port/Hdkif/Swizzle.antt =====
-- The byte order of the descriptors.
use cannelloni_tms.Prelude.{
  ℕ, ◌+◌, ◌*◌, ◌/◌, ◌%◌, ◌^◌, ◌<◌, ◌≡◌, refl, ap, ◌∙◌, arith, bit_and, bit_or,
}
use cannelloni_tms.Prelude.Bits.{bit_and_mask, bit_and_shifted, bit_or_disjoint}
use cannelloni_tms.Port.Hdkif.{hdkif_swizzle_data}

-- The bytes of a word from the lowest to the highest.
abbrev reversed : ℕ → ℕ
reversed w = w % 256 * 2 ^ 24 + w / 2 ^ 8 % 256 * 2 ^ 16 + w / 2 ^ 16 % 256 * 2 ^ 8 + w / 2 ^ 24

-- One byte that has been moved to bit k.
moved : (k x : ℕ) → bit_and x (0xFF * 2 ^ k) ≡ x / 2 ^ k % 2 ^ 8 * 2 ^ k
moved k x = bit_and_shifted k x 0xFF ∙ ap (λ t. t * 2 ^ k) (bit_and_mask 8 (x / 2 ^ k) 0xFF refl)

joined :
    (a b c d : ℕ)
    → b < 256
    → c < 256
    → d < 256
    → bit_or (bit_or (bit_or (a * 2 ^ 24) (b * 2 ^ 16)) (c * 2 ^ 8)) d
      ≡ a * 2 ^ 24 + b * 2 ^ 16 + c * 2 ^ 8 + d
joined a b c d hb hc hd =
    ap (λ t. bit_or (bit_or t (c * 2 ^ 8)) d)
      (bit_or_disjoint 24 a (b * 2 ^ 16) (omega arith) ∙ omega arith)
    ∙ ap (λ t. bit_or t d)
        (bit_or_disjoint 16 (a * 2 ^ 8 + b) (c * 2 ^ 8) (omega arith) ∙ omega arith)
    ∙ bit_or_disjoint 8 (a * 2 ^ 16 + b * 2 ^ 8 + c) d (omega arith)
    ∙ omega arith

hdkif_swizzle_data-reversed : (w : ℕ) → w < 2 ^ 32 → hdkif_swizzle_data w ≡ reversed w
unfolding hdkif_swizzle_data
hdkif_swizzle_data-reversed w h =
    let a = w % 256 in
    let b = w / 2 ^ 8 % 256 in
    let c = w / 2 ^ 16 % 256 in
    let d = w / 2 ^ 24 in
    let e1 : bit_and (w * 2 ^ 24 % 2 ^ 32) 0xFF00_0000 ≡ a * 2 ^ 24 =
      moved 24 (w * 2 ^ 24 % 2 ^ 32) ∙ omega arith in
    let e2 : bit_and (w * 2 ^ 8 % 2 ^ 32) 0x00FF_0000 ≡ b * 2 ^ 16 =
      moved 16 (w * 2 ^ 8 % 2 ^ 32) ∙ omega arith in
    let e3 : bit_and (w / 2 ^ 8) 0x0000_FF00 ≡ c * 2 ^ 8 = moved 8 (w / 2 ^ 8) ∙ omega arith in
    let e4 : bit_and (w / 2 ^ 24) 0x0000_00FF ≡ d =
      bit_and_mask 8 (w / 2 ^ 24) 0xFF refl ∙ omega arith in
    rw (e1, e2, e3, e4) (joined a b c d (omega arith) (omega arith) (omega arith))

-- The function turns the four bytes of a word round; the result is a word, and the function is its
-- own inverse, so that what is written to a descriptor is read back.
pub hdkif_swizzle_data-inverse :
    (w : ℕ)
    → w < 2 ^ 32
    → (hdkif_swizzle_data w < 2 ^ 32)
      × (hdkif_swizzle_data w % 256 ≡ w / 2 ^ 24)
      × (hdkif_swizzle_data w / 2 ^ 24 ≡ w % 256)
      × (hdkif_swizzle_data (hdkif_swizzle_data w) ≡ w)
hdkif_swizzle_data-inverse w h =
    let e = hdkif_swizzle_data-reversed w h in
    let u32 : reversed w < 2 ^ 32 = omega arith in
    rw e (u32, omega arith, omega arith, hdkif_swizzle_data-reversed (reversed w) u32 ∙ omega arith)
