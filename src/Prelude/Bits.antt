-- ===== src/Prelude/Bits.antt =====
-- Facts about the bit operations at variables: masks and fields as arithmetic, for every width.
use Prim.Native.Nat.{
  ℕ, zero, suc, ◌+◌, ◌*◌, ◌/◌, ◌%◌, ◌^◌, ◌≤◌, ◌<◌, min, max, bit_and, bit_or, digits, bitwise,
  bit_and-bitwise, bit_or-bitwise,
}
use mathlib.Core.Path.{◌≡◌, refl, ap, ap₂, sym, ◌∙◌}
use mathlib.Core.Bool.{Bool, true, ◌&&◌}
use native.Mathlib.Omega.{arith}
use native.Mathlib.Decide.{ℕ_discrete}
use cannelloni_tms.Prelude.Tests.{◌==◌}
use native.Mathlib.Nat.{
  pow-suc, add-mul-mod_self_left, mod-eq_of_lt, mod-lt, div-add-mod, mul-div_cancel_left,
}

-- The recursion of the native operations, with `z b` for what a number that has run out leaves.
module _ (z : ℕ → ℕ) (f : ℕ → ℕ → ℕ) where
  run_out : (n b : ℕ) → digits z f n 0 b ≡ z b
  run_out zero b = refl
  run_out (suc n) b = refl

  -- More digits to go than the first number has change nothing.
  surplus : (n m a b : ℕ) → a ≤ n → n ≤ m → digits z f m a b ≡ digits z f n a b
  surplus n m zero b h k = run_out m b ∙ sym (run_out n b)
  surplus zero m (suc a) b h k = absurd (omega arith)
  surplus (suc n) zero (suc a) b h k = absurd (omega arith)
  surplus (suc n) (suc m) (suc a) b h k =
      ap (λ t. t * 2 + f (suc a % 2) (b % 2))
        (surplus n m (suc a / 2) (b / 2) (omega arith) (omega arith))

  -- Both numbers lose their lowest digit.
  pub lowest_digit :
      ((b : ℕ) → z b ≡ z (b / 2) * 2 + f 0 (b % 2))
      → (a b : ℕ) → bitwise z f a b ≡ bitwise z f (a / 2) (b / 2) * 2 + f (a % 2) (b % 2)
  lowest_digit base zero b = base b
  lowest_digit base (suc a) b =
      ap (λ t. t * 2 + f (suc a % 2) (b % 2))
        (surplus (suc a / 2) a (suc a / 2) (b / 2) (omega arith) (omega arith))

pub bit_and_step : (a b : ℕ) → bit_and a b ≡ bit_and (a / 2) (b / 2) * 2 + min (a % 2) (b % 2)
bit_and_step a b =
    bit_and-bitwise a b
    ∙ lowest_digit (λ b. zero) min (λ b. omega arith) a b
    ∙ ap (λ t. t * 2 + min (a % 2) (b % 2)) (sym (bit_and-bitwise (a / 2) (b / 2)))

pub bit_or_step : (a b : ℕ) → bit_or a b ≡ bit_or (a / 2) (b / 2) * 2 + max (a % 2) (b % 2)
bit_or_step a b =
    bit_or-bitwise a b
    ∙ lowest_digit (λ b. b) max (λ b. omega arith) a b
    ∙ ap (λ t. t * 2 + max (a % 2) (b % 2)) (sym (bit_or-bitwise (a / 2) (b / 2)))

digits_and-zero : (n a : ℕ) → digits (λ b. zero) min n a 0 ≡ 0
digits_and-zero n zero = run_out (λ b. zero) min n 0
digits_and-zero zero (suc a) = refl
digits_and-zero (suc n) (suc a) = omega (arith, digits_and-zero n (suc a / 2))

pub bit_and-zero : (a : ℕ) → bit_and a 0 ≡ 0
bit_and-zero a = bit_and-bitwise a 0 ∙ digits_and-zero a a

digits_or-zero : (n a : ℕ) → a ≤ n → digits (λ b. b) max n a 0 ≡ a
digits_or-zero n zero h = run_out (λ b. b) max n 0
digits_or-zero zero (suc a) h = absurd (omega arith)
digits_or-zero (suc n) (suc a) h = omega (arith, digits_or-zero n (suc a / 2) (omega arith))

pub bit_or-zero : (a : ℕ) → bit_or a 0 ≡ a
bit_or-zero a = bit_or-bitwise a 0 ∙ digits_or-zero a a (omega arith)

two_pow-suc : (k : ℕ) → 2 ^ suc k ≡ 2 * 2 ^ k
two_pow-suc k = omega (arith, pow-suc 2 k)

-- Quotient and remainder by 2q, through those by 2 and by q.
div_mod_unique : (x d t r : ℕ) → x ≡ r + d * t → r < d → (x / d ≡ t) × (x % d ≡ r)
div_mod_unique x d t r e h =
    let m : x % d ≡ r = rw e (add-mul-mod_self_left r d t ∙ mod-eq_of_lt h) in
    let c : d * (x / d) ≡ d * t = omega (arith, div-add-mod x d) in
    (
      sym (mul-div_cancel_left (x / d) (omega arith))
          ∙ ap (λ k. k / d) c
          ∙ mul-div_cancel_left t (omega arith),
      m,
    )

div_mod_double :
    (x q : ℕ) → 0 < q → (x / (2 * q) ≡ x / 2 / q) × (x % (2 * q) ≡ x / 2 % q * 2 + x % 2)
div_mod_double x q h =
    div_mod_unique x (2 * q) (x / 2 / q) (x / 2 % q * 2 + x % 2)
      (omega (arith, div-add-mod (x / 2) q)) (omega (arith, mod-lt (x / 2) h))

two_pow_pos : (k : ℕ) → 0 < 2 ^ k
two_pow_pos zero = omega arith
two_pow_pos (suc k) = omega (arith, two_pow-suc k, two_pow_pos k)

-- x & (2^k - 1) is the remainder by 2^k.
pub bit_and_mask : (k x m : ℕ) → m + 1 ≡ 2 ^ k → bit_and x m ≡ x % 2 ^ k
bit_and_mask zero x m h = let e : m ≡ 0 = omega arith in rw (e, bit_and-zero x) (omega arith)
bit_and_mask (suc k) x m h =
    let (d, r) = div_mod_double x (2 ^ k) (two_pow_pos k) in
    rw (two_pow-suc k) (
      omega (
        arith,
        bit_and_step x m,
        two_pow-suc k,
        bit_and_mask k (x / 2) (m / 2) (omega (arith, two_pow-suc k)),
        r,
      ))

-- x & 2^k is the bit number k, in its place.
pub bit_and_bit : (k x : ℕ) → bit_and x (2 ^ k) ≡ x / 2 ^ k % 2 * 2 ^ k
bit_and_bit zero x = omega (arith, bit_and_mask 1 x 1 refl)
bit_and_bit (suc k) x =
    let (d, r) = div_mod_double x (2 ^ k) (two_pow_pos k) in
    rw (two_pow-suc k) (
      omega (
        arith,
        bit_and_step x (2 * 2 ^ k),
        ap (λ (t : ℕ). bit_and (x / 2) t) {x = 2 * 2 ^ k / 2} {y = 2 ^ k} (omega arith),
        bit_and_bit k (x / 2),
        ap (λ (t : ℕ). t % 2 * 2 ^ k) d,
      ))

-- A field below 2^k beside one that begins at bit k.
pub bit_or_disjoint : (k a b : ℕ) → b < 2 ^ k → bit_or (a * 2 ^ k) b ≡ a * 2 ^ k + b
bit_or_disjoint zero a b h =
    let e : b ≡ 0 = omega arith in rw (e, bit_or-zero (a * 1)) (omega arith)
bit_or_disjoint (suc k) a b h =
    let e : a * 2 ^ suc k ≡ 2 * (a * 2 ^ k) =
      omega (arith, ap (λ (t : ℕ). a * t) (two_pow-suc k)) in
    rw e (
      omega (
        arith,
        two_pow-suc k,
        bit_or_step (2 * (a * 2 ^ k)) b,
        ap (λ (t : ℕ). bit_or t (b / 2)) {x = 2 * (a * 2 ^ k) / 2} {y = a * 2 ^ k} (omega arith),
        bit_or_disjoint k a (b / 2) (omega (arith, two_pow-suc k)),
      ))

-- Two functions that agree below `n`, by evaluation at each value.
pub agree : ℕ → (ℕ → ℕ) → (ℕ → ℕ) → Bool
agree zero f g = true
agree (suc n) f g = f n == g n && agree n f g

agree_sound : (n : ℕ) (f g : ℕ → ℕ) → agree n f g ≡ true → (x : ℕ) → x < n → f x ≡ g x
unfolding agree
agree_sound zero f g h x k = absurd (omega arith)
agree_sound (suc n) f g h x k = elim (ℕ_discrete x n) [
  | yes e ↦ rw e (ground arith)
  | no ne ↦ agree_sound n f g (ground arith) x (omega arith)
]

-- len & ~0x80 of a byte, with the mask extended to 32 bits.
pub bit_and_not_top : (b : ℕ) → b < 256 → bit_and b 0xffff_ff7f ≡ b % 128
unfolding agree
bit_and_not_top b h = agree_sound 256 (λ x. bit_and x 0xffff_ff7f) (λ x. x % 128) refl b h

zero-bit_or : (b : ℕ) → bit_or 0 b ≡ b
zero-bit_or b = bit_or-bitwise 0 b

-- A field below 2^k on the left of one that begins at bit k.
pub bit_or_above : (k a b : ℕ) → b < 2 ^ k → bit_or b (a * 2 ^ k) ≡ a * 2 ^ k + b
bit_or_above zero a b h = let e : b ≡ 0 = omega arith in rw (e, zero-bit_or (a * 1)) (omega arith)
bit_or_above (suc k) a b h =
    let e : a * 2 ^ suc k ≡ 2 * (a * 2 ^ k) =
      omega (arith, ap (λ (t : ℕ). a * t) (two_pow-suc k)) in
    rw e (
      omega (
        arith,
        two_pow-suc k,
        bit_or_step b (2 * (a * 2 ^ k)),
        ap (λ (t : ℕ). bit_or (b / 2) t) {x = 2 * (a * 2 ^ k) / 2} {y = a * 2 ^ k} (omega arith),
        bit_or_above k a (b / 2) (omega (arith, two_pow-suc k)),
      ))

-- Above bit k the fields are joined, below it one of them stands alone.
pub bit_or_fields :
    (k a c b : ℕ) → b < 2 ^ k → bit_or (a * 2 ^ k) (c * 2 ^ k + b) ≡ bit_or a c * 2 ^ k + b
bit_or_fields zero a c b h =
    let e : b ≡ 0 = omega arith in
    let f : (x : ℕ) → x * 1 ≡ x = λ x. omega arith in
    rw (e, f a, f c, f (bit_or a c))
      (omega (arith, ap (bit_or a) {x = c + 0} {y = c} (omega arith)))
bit_or_fields (suc k) a c b h =
    let e : (x : ℕ) → x * 2 ^ suc k ≡ 2 * (x * 2 ^ k) =
      λ x. omega (arith, ap (λ (t : ℕ). x * t) (two_pow-suc k)) in
    rw (e a, e c, e (bit_or a c))
      (omega (
        arith,
        two_pow-suc k,
        bit_or_step (2 * (a * 2 ^ k)) (2 * (c * 2 ^ k) + b),
        ap₂ (λ (t u : ℕ). bit_or t u) {x = 2 * (a * 2 ^ k) / 2} {y = a * 2 ^ k}
            {u = (2 * (c * 2 ^ k) + b) / 2} {v = c * 2 ^ k + b / 2} (omega arith) (omega arith),
        bit_or_fields k a c (b / 2) (omega (arith, two_pow-suc k)),
      ))

-- x | 2^k has the bit number k.
pub bit_or_bit : (k x : ℕ) → bit_or x (2 ^ k) / 2 ^ k % 2 ≡ 1
bit_or_bit zero x = omega (arith, bit_or_step x 1)
bit_or_bit (suc k) x =
    let (d, r) = div_mod_double (bit_or x (2 ^ suc k)) (2 ^ k) (two_pow_pos k) in
    let half : bit_or x (2 ^ suc k) / 2 ≡ bit_or (x / 2) (2 ^ k) = omega (
      arith,
      two_pow-suc k,
      bit_or_step x (2 ^ suc k),
      ap (λ (t : ℕ). bit_or (x / 2) t) {x = 2 ^ suc k / 2} {y = 2 ^ k}
          (omega (arith, two_pow-suc k)),
    ) in
    ap (λ t. bit_or x (2 ^ suc k) / t % 2) (two_pow-suc k)
    ∙ ap (λ t. t % 2) d
    ∙ ap (λ t. t / 2 ^ k % 2) half
    ∙ bit_or_bit k (x / 2)

-- x | y has every bit that y has.
pub bit_or_has : (k x y : ℕ) → y / 2 ^ k % 2 ≡ 1 → bit_or x y / 2 ^ k % 2 ≡ 1
bit_or_has zero x y h = omega (arith, bit_or_step x y)
bit_or_has (suc k) x y h =
    let (d, r) = div_mod_double (bit_or x y) (2 ^ k) (two_pow_pos k) in
    let (e, s) = div_mod_double y (2 ^ k) (two_pow_pos k) in
    let half : bit_or x y / 2 ≡ bit_or (x / 2) (y / 2) = omega (arith, bit_or_step x y) in
    let top : y / 2 / 2 ^ k % 2 ≡ 1 =
      ap (λ (t : ℕ). t % 2) (sym e) ∙ ap (λ t. y / t % 2) (sym (two_pow-suc k)) ∙ h in
    ap (λ t. bit_or x y / t % 2) (two_pow-suc k)
    ∙ ap (λ t. t % 2) d
    ∙ ap (λ t. t / 2 ^ k % 2) half
    ∙ bit_or_has k (x / 2) (y / 2) top

-- The bits of x & y.
pub bit_and_at : (k x y : ℕ) → bit_and x y / 2 ^ k % 2 ≡ min (x / 2 ^ k % 2) (y / 2 ^ k % 2)
bit_and_at zero x y = omega (arith, bit_and_step x y)
bit_and_at (suc k) x y =
    let half : bit_and x y / 2 ≡ bit_and (x / 2) (y / 2) = omega (arith, bit_and_step x y) in
    let down : (z : ℕ) → z / 2 ^ suc k % 2 ≡ z / 2 / 2 ^ k % 2 = λ z.
      let (d, r) = div_mod_double z (2 ^ k) (two_pow_pos k) in
      ap (λ t. z / t % 2) (two_pow-suc k) ∙ ap (λ t. t % 2) d in
    down (bit_and x y)
    ∙ ap (λ t. t / 2 ^ k % 2) half
    ∙ bit_and_at k (x / 2) (y / 2)
    ∙ sym (ap₂ min (down x) (down y))

-- x & (a shifted to bit k).
pub bit_and_shifted : (k x a : ℕ) → bit_and x (a * 2 ^ k) ≡ bit_and (x / 2 ^ k) a * 2 ^ k
bit_and_shifted zero x a =
    ap₂ (λ t u. bit_and t u) {x = x} {y = x / 1} {u = a * 1} {v = a} (omega arith) (omega arith)
    ∙ omega arith
bit_and_shifted (suc k) x a =
    let e : a * 2 ^ suc k ≡ 2 * (a * 2 ^ k) =
      omega (arith, ap (λ (t : ℕ). a * t) (two_pow-suc k)) in
    let (d, r) = div_mod_double x (2 ^ k) (two_pow_pos k) in
    let down : bit_and (x / 2 ^ suc k) a ≡ bit_and (x / 2 / 2 ^ k) a =
      ap (λ t. bit_and (x / t) a) (two_pow-suc k) ∙ ap (λ t. bit_and t a) d in
    let half : bit_and (x / 2) (2 * (a * 2 ^ k) / 2) ≡ bit_and (x / 2) (a * 2 ^ k) =
      ap (λ (t : ℕ). bit_and (x / 2) t) (omega arith) in
    ap (bit_and x) e
    ∙ bit_and_step x (2 * (a * 2 ^ k))
    ∙ omega (arith, half, bit_and_shifted k (x / 2) a)
    ∙ ap (λ t. 2 * (t * 2 ^ k)) (sym down)
    ∙ omega (arith, ap (λ (t : ℕ). bit_and (x / 2 ^ suc k) a * t) (two_pow-suc k))
