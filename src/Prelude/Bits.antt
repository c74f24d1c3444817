-- ===== src/Prelude/Bits.antt =====
-- Facts about masks: a number below `2 ^ k` beside a multiple of `2 ^ k`.
use Prim.Native.Nat.{
  ℕ, zero, suc, ◌+◌, ◌-◌, ◌*◌, ◌^◌, ◌<◌, ◌/◌, ◌%◌, ◌≤◌, min, max, bit_and, bit_or, digits, bitwise,
  bit_and-bitwise, bit_or-bitwise,
}
use mathlib.Core.Path.{◌≡◌, refl, ap, ap₂, ◌∙◌}
use native.Mathlib.Nat.{two-pow-succ}
use native.Mathlib.Omega.{arith}

-- An operation on binary digits, lowest first, whose count of digits is more than there are: `f`
-- acts on two digits, and `z b` is the result once the first number has run out.
module _ (z : ℕ → ℕ) (f : ℕ → ℕ → ℕ) where
  spare : (n a b : ℕ) → a ≤ n → digits z f (suc n) a b ≡ digits z f n a b
  spare zero zero b h = refl
  spare zero (suc a) b h = absurd (omega arith)
  spare (suc n) zero b h = refl
  spare (suc n) (suc a) b h =
      ap (λ d. d * 2 + f (suc a % 2) (b % 2)) (spare n (suc a / 2) (b / 2) (omega arith))

  surplus : (k a b : ℕ) → digits z f (k + a) a b ≡ bitwise z f a b
  surplus zero a b = ap (λ n. digits z f n a b) (omega arith)
  surplus (suc k) a b =
      let next : suc k + a ≡ suc (k + a) = omega arith in
      rw next (spare (k + a) a b (omega arith) ∙ surplus k a b)

  module _ (zs : (b : ℕ) → z b ≡ z (b / 2) * 2 + f 0 (b % 2)) where
    lowest : (a b : ℕ) → bitwise z f a b ≡ bitwise z f (a / 2) (b / 2) * 2 + f (a % 2) (b % 2)
    lowest zero b = zs b
    lowest (suc a) b =
        let count : a ≡ a - suc a / 2 + suc a / 2 = omega arith in
        ap (λ d. d * 2 + f (suc a % 2) (b % 2))
          (ap (λ n. digits z f n (suc a / 2) (b / 2)) count
            ∙ surplus (a - suc a / 2) (suc a / 2) (b / 2))

    -- Against no digits at all, by halving: `g` is what is left.
    module _ (g : ℕ → ℕ) (g0 : z 0 ≡ g 0) (gs : (a : ℕ) → g (a / 2) * 2 + f (a % 2) 0 ≡ g a) where
      halved : (n a : ℕ) → a ≤ n → bitwise z f a 0 ≡ g a
      halved n zero h = g0
      halved zero (suc a) h = absurd (omega arith)
      halved (suc n) (suc a) h =
          lowest (suc a) 0
          ∙ ap (λ d. d * 2 + f (suc a % 2) 0) (halved n (suc a / 2) (omega arith))
          ∙ gs (suc a)

pub bit_and_step : (a b : ℕ) → bit_and a b ≡ bit_and (a / 2) (b / 2) * 2 + min (a % 2) (b % 2)
bit_and_step a b =
    let low = lowest (λ _. 0) min (λ c. omega arith) a b in
    omega (arith, low, bit_and-bitwise a b, bit_and-bitwise (a / 2) (b / 2))

pub bit_or_step : (a b : ℕ) → bit_or a b ≡ bit_or (a / 2) (b / 2) * 2 + max (a % 2) (b % 2)
bit_or_step a b =
    let low = lowest (λ c. c) max (λ c. omega arith) a b in
    omega (arith, low, bit_or-bitwise a b, bit_or-bitwise (a / 2) (b / 2))

pub bit_and-zero : (a : ℕ) → bit_and a 0 ≡ 0
bit_and-zero a =
    bit_and-bitwise a 0
    ∙ halved (λ _. 0) min (λ c. omega arith) (λ _. 0) refl (λ c. omega arith) a a (omega arith)

pub bit_or-zero : (a : ℕ) → bit_or a 0 ≡ a
bit_or-zero a =
    bit_or-bitwise a 0
    ∙ halved (λ c. c) max (λ c. omega arith) (λ c. c) refl (λ c. omega arith) a a (omega arith)

pub pow-pos : (k : ℕ) → 0 < 2 ^ k
pow-pos zero = omega arith
pow-pos (suc k) = omega (arith, two-pow-succ k, pow-pos k)

-- One digit of each operand.
bit_or_double : (m x : ℕ) → bit_or (m * 2) x ≡ bit_or m (x / 2) * 2 + x % 2
bit_or_double m x =
    let half : m * 2 / 2 ≡ m = omega arith in rw half at (bit_or_step (m * 2) x) ∙ omega arith

bit_and_digit :
    (m n x y : ℕ) → x < 2 → y < 2 → bit_and (m * 2 + x) (n * 2 + y) ≡ bit_and m n * 2 + min x y
bit_and_digit m n x y a b =
    let left : (m * 2 + x) / 2 ≡ m = omega arith in
    let right : (n * 2 + y) / 2 ≡ n = omega arith in
    rw (left, right) at (bit_and_step (m * 2 + x) (n * 2 + y)) ∙ omega arith

power_step : (k h : ℕ) → h * 2 ^ suc k ≡ h * 2 ^ k * 2
power_step k h = omega (arith, ap (λ (t : ℕ). h * t) (two-pow-succ k))

-- A multiple of `2 ^ k` beside a number below it: `|` adds them.
pub bit_or-disjoint : (k h x : ℕ) → x < 2 ^ k → bit_or (h * 2 ^ k) x ≡ h * 2 ^ k + x
bit_or-disjoint zero h x b =
    let none : x ≡ 0 = omega arith in rw none (bit_or-zero (h * 1) ∙ omega arith)
bit_or-disjoint (suc k) h x b =
    let rest = bit_or-disjoint k h (x / 2) (omega (arith, two-pow-succ k)) in
    rw (power_step k h) (bit_or_double (h * 2 ^ k) x ∙ omega (arith, rest))

-- A mask of `k` ones takes the low part.
pub bit_and-low : (k h x : ℕ) → x < 2 ^ k → bit_and (h * 2 ^ k + x) (2 ^ k - 1) ≡ x
bit_and-low zero h x b = bit_and-zero (h * 1 + x) ∙ omega arith
bit_and-low (suc k) h x b =
    let rest = bit_and-low k h (x / 2) (omega (arith, two-pow-succ k)) in
    let left : h * 2 ^ suc k + x ≡ (h * 2 ^ k + x / 2) * 2 + x % 2 =
      omega (arith, power_step k h) in
    let right : 2 ^ suc k - 1 ≡ (2 ^ k - 1) * 2 + 1 = omega (arith, two-pow-succ k, pow-pos k) in
    ap₂ bit_and left right
    ∙ bit_and_digit (h * 2 ^ k + x / 2) (2 ^ k - 1) (x % 2) 1 (omega arith) (omega arith)
    ∙ omega (arith, rest)

-- A mask above the low part drops it.
pub bit_and-high :
    (k h g x : ℕ) → x < 2 ^ k → bit_and (h * 2 ^ k + x) (g * 2 ^ k) ≡ bit_and h g * 2 ^ k
bit_and-high zero h g x b =
    let left : h * 1 + x ≡ h = omega arith in
    let right : g * 1 ≡ g = omega arith in ap₂ bit_and left right ∙ omega arith
bit_and-high (suc k) h g x b =
    let rest = bit_and-high k h g (x / 2) (omega (arith, two-pow-succ k)) in
    let left : h * 2 ^ suc k + x ≡ (h * 2 ^ k + x / 2) * 2 + x % 2 =
      omega (arith, power_step k h) in
    let right : g * 2 ^ suc k ≡ g * 2 ^ k * 2 + 0 = omega (arith, power_step k g) in
    ap₂ bit_and left right
    ∙ bit_and_digit (h * 2 ^ k + x / 2) (g * 2 ^ k) (x % 2) 0 (omega arith) (omega arith)
    ∙ omega (arith, rest, power_step k (bit_and h g))
