-- ===== src/Prelude/Masks.antt =====
-- Masks: words without one of their bits, and words that have all bits of another.
use Prim.Native.Nat.{
  ℕ, zero, suc, ◌+◌, ◌*◌, ◌-◌, ◌/◌, ◌%◌, ◌^◌, min, bit_and, bit_xor, differ, bit_xor-bitwise,
}
use mathlib.Core.Path.{◌≡◌, refl, ap, sym, ◌∙◌}
use mathlib.Core.Logic.{◌⊎◌, inl, inr}
use mathlib.Core.Bool.{Bool, true, ◌&&◌, ◌||◌}
use native.Mathlib.Omega.{arith}
use native.Mathlib.Decide.{ℕ_discrete}
use cannelloni_tms.Prelude.Tests.{◌==◌}
use cannelloni_tms.Prelude.Bits.{bit_and_step, bit_and_mask, bit_and-zero, lowest_digit}

-- A one as the lowest digit of a mask keeps the digit.
mask_one : (v m : ℕ) → bit_and v (m * 2 + 1) ≡ bit_and (v / 2) m * 2 + v % 2
mask_one v m = omega (arith, bit_and_step v (m * 2 + 1), half)
  where
    half : bit_and (v / 2) ((m * 2 + 1) / 2) ≡ bit_and (v / 2) m
    half = let e : (m * 2 + 1) / 2 ≡ m = omega arith in rw e refl

mask_zero : (v m : ℕ) → bit_and v (m * 2) ≡ bit_and (v / 2) m * 2
mask_zero v m = omega (arith, bit_and_step v (m * 2), half)
  where
    half : bit_and (v / 2) (m * 2 / 2) ≡ bit_and (v / 2) m
    half = let e : m * 2 / 2 ≡ m = omega arith in rw e refl

-- The word without bit `k`.
abbrev pub without : ℕ → ℕ → ℕ
without k v = v % 2 ^ 32 - v / 2 ^ k % 2 * 2 ^ k

pub without-bit_6 : (v : ℕ) → bit_and v 0xFFFF_FFBF ≡ without 6 v
without-bit_6 v = omega (
  arith,
  mask_one v 0x7FFF_FFDF,
  mask_one (v / 2) 0x3FFF_FFEF,
  mask_one (v / 2 / 2) 0x1FFF_FFF7,
  mask_one (v / 2 / 2 / 2) 0x0FFF_FFFB,
  mask_one (v / 2 / 2 / 2 / 2) 0x07FF_FFFD,
  mask_one (v / 2 / 2 / 2 / 2 / 2) 0x03FF_FFFE,
  mask_zero (v / 2 / 2 / 2 / 2 / 2 / 2) 0x01FF_FFFF,
  bit_and_mask 25 (v / 2 / 2 / 2 / 2 / 2 / 2 / 2) 0x01FF_FFFF refl,
)

pub without-bit_7 : (v : ℕ) → bit_and v 0xFFFF_FF7F ≡ without 7 v
without-bit_7 v = omega (
  arith,
  mask_one v 0x7FFF_FFBF,
  mask_one (v / 2) 0x3FFF_FFDF,
  mask_one (v / 2 / 2) 0x1FFF_FFEF,
  mask_one (v / 2 / 2 / 2) 0x0FFF_FFF7,
  mask_one (v / 2 / 2 / 2 / 2) 0x07FF_FFFB,
  mask_one (v / 2 / 2 / 2 / 2 / 2) 0x03FF_FFFD,
  mask_one (v / 2 / 2 / 2 / 2 / 2 / 2) 0x01FF_FFFE,
  mask_zero (v / 2 / 2 / 2 / 2 / 2 / 2 / 2) 0x00FF_FFFF,
  bit_and_mask 24 (v / 2 / 2 / 2 / 2 / 2 / 2 / 2 / 2) 0x00FF_FFFF refl,
)

differ-bits : (a b : ℕ) → differ (a % 2) (b % 2) ≡ (a % 2 + b % 2) % 2
differ-bits a b = elim (bit_cases a) [
  | inl e ↦ elim (bit_cases b) [ inl f ↦ rw (e, f) refl | inr f ↦ rw (e, f) refl ]
  | inr e ↦ elim (bit_cases b) [ inl f ↦ rw (e, f) refl | inr f ↦ rw (e, f) refl ]
]
  where
    bit_cases : (x : ℕ) → (x % 2 ≡ 0) ⊎ (x % 2 ≡ 1)
    bit_cases x = elim (ℕ_discrete (x % 2) 0) [ yes e ↦ inl e | no e ↦ inr (omega arith) ]

pub bit_xor_step : (a b : ℕ) → bit_xor a b ≡ bit_xor (a / 2) (b / 2) * 2 + (a % 2 + b % 2) % 2
bit_xor_step a b =
    bit_xor-bitwise a b
    ∙ lowest_digit (λ b. b) differ (λ b. omega (arith, differ-bits 0 b)) a b
    ∙ ap (λ t. t * 2 + differ (a % 2) (b % 2)) (sym (bit_xor-bitwise (a / 2) (b / 2)))
    ∙ ap (λ t. bit_xor (a / 2) (b / 2) * 2 + t) (differ-bits a b)

-- The number whose `n` lowest digits are ones.
abbrev pub ones : ℕ → ℕ
ones zero = 0
ones (suc n) = ones n * 2 + 1

-- Each digit of `s` is 1 where that of `d` is 0, for the `n` lowest digits.
abbrev pub covers : ℕ → ℕ → ℕ → Bool
covers zero s d = true
covers (suc n) s d = (d % 2 == 1 || s % 2 == 1) && covers n (s / 2) (d / 2)

abbrev complement : ℕ → ℕ → ℕ
complement n d = bit_and (bit_xor d (ones n)) (ones n)

complement_step : (n d : ℕ) → complement (suc n) d ≡ complement n (d / 2) * 2 + (1 - d % 2)
complement_step n d =
    let half : bit_xor (d / 2) (ones (suc n) / 2) ≡ bit_xor (d / 2) (ones n) =
      ap (bit_xor (d / 2)) {x = ones (suc n) / 2} {y = ones n} (omega arith) in
    let x : bit_xor d (ones (suc n)) ≡ bit_xor (d / 2) (ones n) * 2 + (1 - d % 2) =
      omega (arith, bit_xor_step d (ones (suc n)), half) in
    let low : bit_xor d (ones (suc n)) / 2 ≡ bit_xor (d / 2) (ones n) = omega (arith, x) in
    omega (
      arith,
      mask_one (bit_xor d (ones (suc n))) (ones n),
      x,
      ap (λ (t : ℕ). bit_and t (ones n)) low,
    )

pub bit_and-covers : (n s d : ℕ) → (bit_and s (complement n d) == complement n d) ≡ covers n s d
bit_and-covers zero s d = rw (bit_and-zero (bit_xor d 0), bit_and-zero s) refl
bit_and-covers (suc n) s d =
    let m = complement n (d / 2) in
    let e = complement_step n d in
    let half : bit_and (s / 2) (complement (suc n) d / 2) ≡ bit_and (s / 2) m =
      ap (bit_and (s / 2)) {x = complement (suc n) d / 2} {y = m} (omega (arith, e)) in
    let step = bit_and_step s (complement (suc n) d) in
    let rest = bit_and-covers n (s / 2) (d / 2) in
    joined s d (bit_and (s / 2) m) m (bit_and s (complement (suc n) d)) (complement (suc n) d)
      (covers n (s / 2) (d / 2)) (omega (arith, step, half, e)) e rest
  where
    joined :
        (s d a m x y : ℕ) (b : Bool)
        → x ≡ a * 2 + min (s % 2) (1 - d % 2)
        → y ≡ m * 2 + (1 - d % 2)
        → (a == m) ≡ b
        → (x == y) ≡ ((d % 2 == 1 || s % 2 == 1) && b)
    joined s d a m x y b e f h = rw (sym h) (ground arith)
