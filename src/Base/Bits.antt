-- ===== src/Base/Bits.antt =====
-- `|`, `&`, `~` and shifts on machine words, by the binary digits of the result.
mod Step
pub mod Mask
use Step.{bit_or_step, bit_and_step}
use Prim.Native.Nat.{
  ℕ, zero, suc, ◌+◌, ◌-◌, ◌*◌, ◌/◌, ◌%◌, ◌^◌, ◌≤◌, ◌<◌, min, max, bit_and, bit_or, bit_and-bitwise,
}
use mathlib.Core.Path.{◌≡◌, refl, ap, ap₂}
use mathlib.Core.Logic.{◌≢◌}
use native.Mathlib.Nat.{pow-suc, pow-le-pow_right}
use native.Mathlib.Omega.{arith}

-- The binary digit of `a` at place `i`.
abbrev pub digit : ℕ → ℕ → ℕ
digit a zero = a % 2
digit a (suc i) = digit (a / 2) i

pub digit-lt : (a i : ℕ) → digit a i < 2
digit-lt a zero = omega arith
digit-lt a (suc i) = digit-lt (a / 2) i

pub digit-zero : (i : ℕ) → digit 0 i ≡ 0
digit-zero zero = refl
digit-zero (suc i) = digit-zero i

pub bit_or-half : (a b : ℕ) → bit_or a b / 2 ≡ bit_or (a / 2) (b / 2)
bit_or-half a b = omega (arith, bit_or_step a b)

pub bit_and-half : (a b : ℕ) → bit_and a b / 2 ≡ bit_and (a / 2) (b / 2)
bit_and-half a b = omega (arith, bit_and_step a b)

pub digit-bit_or : (a b i : ℕ) → digit (bit_or a b) i ≡ max (digit a i) (digit b i)
digit-bit_or a b zero = omega (arith, bit_or_step a b)
digit-bit_or a b (suc i) = rw bit_or-half (digit-bit_or (a / 2) (b / 2) i)

pub digit-bit_and : (a b i : ℕ) → digit (bit_and a b) i ≡ min (digit a i) (digit b i)
digit-bit_and a b zero = omega (arith, bit_and_step a b)
digit-bit_and a b (suc i) = rw bit_and-half (digit-bit_and (a / 2) (b / 2) i)

half-pow : (j : ℕ) → 2 ^ suc j / 2 ≡ 2 ^ j
half-pow j = omega (arith, pow-suc 2 j)

pub digit-pow_self : (i : ℕ) → digit (2 ^ i) i ≡ 1
digit-pow_self zero = refl
digit-pow_self (suc i) = rw half-pow (digit-pow_self i)

pub digit-pow_ne : (i j : ℕ) → i ≢ j → digit (2 ^ i) j ≡ 0
digit-pow_ne zero zero h = absurd (h refl)
digit-pow_ne zero (suc j) h = digit-zero j
digit-pow_ne (suc i) zero h = omega (arith, pow-suc 2 i)
digit-pow_ne (suc i) (suc j) h = rw half-pow (digit-pow_ne i j (λ e. h (ap suc e)))

-- A number below 2 ^ n is determined by its first n digits.
pub digit_ext :
    (n a b : ℕ) → a < 2 ^ n → b < 2 ^ n → ((i : ℕ) → i < n → digit a i ≡ digit b i) → a ≡ b
digit_ext zero a b p q h = omega arith
digit_ext (suc n) a b p q h = omega (
  arith,
  h 0 (omega arith),
  digit_ext n (a / 2) (b / 2) (omega (arith, pow-suc 2 n)) (omega (arith, pow-suc 2 n))
      (λ i lt. h (suc i) (omega arith)),
)

pub bit_or-lt : (n a b : ℕ) → a < 2 ^ n → b < 2 ^ n → bit_or a b < 2 ^ n
bit_or-lt zero a b p q = let (e, f) = zeros in rw (e, f) (omega arith)
  where
    zeros : (a ≡ 0) × (b ≡ 0)
    zeros = omega arith
bit_or-lt (suc n) a b p q = omega (
  arith,
  pow-suc 2 n,
  bit_or_step a b,
  bit_or-lt n (a / 2) (b / 2) (omega (arith, pow-suc 2 n)) (omega (arith, pow-suc 2 n)),
)

pub bit_and-le : (n a b : ℕ) → a < 2 ^ n → bit_and a b ≤ a
bit_and-le zero a b p = let e : a ≡ 0 = omega arith in rw e (omega (arith, bit_and-bitwise 0 b))
bit_and-le (suc n) a b p =
    omega (arith, bit_and_step a b, bit_and-le n (a / 2) (b / 2) (omega (arith, pow-suc 2 n)))

-- `~x` of an n-bit word.
abbrev pub complement : ℕ → ℕ → ℕ
complement n x = 2 ^ n - 1 - x

pub digit-complement : (n x i : ℕ) → x < 2 ^ n → i < n → digit (complement n x) i ≡ 1 - digit x i
digit-complement zero x i p q = absurd (omega arith)
digit-complement (suc n) x zero p q = omega (arith, pow-suc 2 n)
digit-complement (suc n) x (suc i) p q =
    rw halves (digit-complement n (x / 2) i (omega (arith, pow-suc 2 n)) (omega arith))
  where
    halves : complement (suc n) x / 2 ≡ complement n (x / 2)
    halves = omega (arith, pow-suc 2 n)

bit_and-zero_below : (n a : ℕ) → a ≤ n → bit_and a 0 ≡ 0
bit_and-zero_below zero a h = let e : a ≡ 0 = omega arith in rw e
bit_and-zero_below (suc n) zero h = refl
bit_and-zero_below (suc n) (suc a) h =
    omega (arith, bit_and_step (suc a) 0, bit_and-zero_below n (suc a / 2) (omega arith))

pub bit_and-zero : (a : ℕ) → bit_and a 0 ≡ 0
bit_and-zero a = bit_and-zero_below a a (omega arith)

-- Testing one bit.
pub bit_and-pow : (w i : ℕ) → bit_and w (2 ^ i) ≡ digit w i * 2 ^ i
bit_and-pow w zero = omega (arith, bit_and_step w 1, bit_and-zero (w / 2))
bit_and-pow w (suc i) = omega (
  arith,
  bit_and_step w (2 ^ suc i),
  pow-suc 2 i,
  ap (bit_and (w / 2)) (half-pow i),
  bit_and-pow (w / 2) i,
  ap (λ (t : ℕ). digit (w / 2) i * t) (pow-suc 2 i),
)

pub pow-lt-word : (i : ℕ) → i < 64 → 2 ^ i < 2 ^ 64
pow-lt-word i h =
    omega (arith, pow-le-pow_right {n = 2} (omega arith) {i = i} {j = 63} (omega arith))
