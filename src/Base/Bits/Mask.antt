-- ===== src/Base/Bits/Mask.antt =====
-- Masks: a run of ones at the bottom of a word or above it, and what `|` leaves under a mask.
use Prim.Native.Nat.{ℕ, zero, suc, ◌+◌, ◌-◌, ◌*◌, ◌/◌, ◌%◌, ◌^◌, ◌<◌, ◌≤◌, bit_and, bit_or}
use mathlib.Core.Path.{◌≡◌, ap, ◌∙◌}
use native.Mathlib.Nat.{
  pow-suc, pow-le-pow_right, div-add-mod, mul-add-mod_self_left, mod-eq_of_lt, mod-lt,
  div-div-eq-div-mul, mul_assoc,
}
use native.Mathlib.Omega.{arith}
use drastic.Base.Tests.{ltb, if◌then◌else◌}
use drastic.Base.Bits.Step.{bit_and_step}
use drastic.Base.Bits.{
  digit, digit-zero, digit_ext, digit-bit_or, digit-bit_and, bit_or-lt, bit_and-le, bit_and-zero,
}

pow_pos : (n : ℕ) → 0 < 2 ^ n
pow_pos zero = omega arith
pow_pos (suc n) = omega (arith, pow-suc 2 n, pow_pos n)

mod-double : (m a : ℕ) → 0 < m → a % (2 * m) ≡ a / 2 % m * 2 + a % 2
mod-double m a pos =
    ap (λ (t : ℕ). t % (2 * m)) split
    ∙ mul-add-mod_self_left (2 * m) (a / 2 / m) (a / 2 % m * 2 + a % 2)
    ∙ mod-eq_of_lt (omega (arith, mod-lt (a / 2) pos))
  where
    split : a ≡ 2 * m * (a / 2 / m) + (a / 2 % m * 2 + a % 2)
    split = rw (mul_assoc 2 m (a / 2 / m)) (omega (arith, div-add-mod (a / 2) m))

-- The lowest `n` bits.
pub bit_and-mask : (n a : ℕ) → bit_and a (2 ^ n - 1) ≡ a % 2 ^ n
bit_and-mask zero a = rw (bit_and-zero a) (omega arith)
bit_and-mask (suc n) a =
    bit_and_step a (2 ^ suc n - 1)
    ∙ omega (arith, half, bit_and-mask n (a / 2), pow-suc 2 n, pow_pos n, double)
  where
    half : bit_and (a / 2) ((2 ^ suc n - 1) / 2) ≡ bit_and (a / 2) (2 ^ n - 1)
    half = ap (bit_and (a / 2)) (omega (arith, pow-suc 2 n))

    double : a % 2 ^ suc n ≡ a / 2 % 2 ^ n * 2 + a % 2
    double = ap (λ (t : ℕ). a % t) (omega (arith, pow-suc 2 n)) ∙ mod-double (2 ^ n) a (pow_pos n)

-- A mask with `k` zeros at the bottom.
pub bit_and-shifted : (k a m : ℕ) → bit_and a (2 ^ k * m) ≡ 2 ^ k * bit_and (a / 2 ^ k) m
bit_and-shifted zero a m = rw (unit, whole) (omega arith)
  where
    unit : 2 ^ 0 * m ≡ m
    unit = omega arith

    whole : a / 2 ^ 0 ≡ a
    whole = omega arith
bit_and-shifted (suc k) a m =
    ap (bit_and a) doubled
    ∙ bit_and_step a (2 * (2 ^ k * m))
    ∙ omega (arith, half, bit_and-shifted k (a / 2) m, quotient, back)
  where
    doubled : 2 ^ suc k * m ≡ 2 * (2 ^ k * m)
    doubled = ap (λ (t : ℕ). t * m) (omega (arith, pow-suc 2 k)) ∙ mul_assoc 2 (2 ^ k) m

    half : bit_and (a / 2) (2 * (2 ^ k * m) / 2) ≡ bit_and (a / 2) (2 ^ k * m)
    half = ap (bit_and (a / 2)) (omega arith)

    quotient : 2 ^ k * bit_and (a / 2 / 2 ^ k) m ≡ 2 ^ k * bit_and (a / 2 ^ suc k) m
    quotient =
        ap (λ (t : ℕ). 2 ^ k * bit_and t m)
          (div-div-eq-div-mul a 2 (2 ^ k) ∙ ap (λ (t : ℕ). a / t) (omega (arith, pow-suc 2 k)))

    back : 2 ^ suc k * bit_and (a / 2 ^ suc k) m ≡ 2 * (2 ^ k * bit_and (a / 2 ^ suc k) m)
    back =
        ap (λ (t : ℕ). t * bit_and (a / 2 ^ suc k) m) (omega (arith, pow-suc 2 k))
        ∙ mul_assoc 2 (2 ^ k) (bit_and (a / 2 ^ suc k) m)

-- What is outside the mask does not matter.
pub bit_and-bit_or_right :
    (a b m : ℕ) → a < 2 ^ 64 → b < 2 ^ 64 → bit_and b m ≡ 0 → bit_and (bit_or a b) m ≡ bit_and a m
bit_and-bit_or_right a b m p q h =
    digit_ext 64 _ _
      (omega (arith, bit_and-le 64 (bit_or a b) m (bit_or-lt 64 a b p q), bit_or-lt 64 a b p q))
      (omega (arith, bit_and-le 64 a m p))
      λ i lt.
        rw (digit-bit_and (bit_or a b) m i, digit-bit_or a b i, digit-bit_and a m i)
          (omega (arith, digit-bit_and b m i, ap (λ (t : ℕ). digit t i) h, digit-zero i))

-- A place above the whole number.
pub digit-low : (i a : ℕ) → a < 2 ^ i → digit a i ≡ 0
digit-low zero a h = omega arith
digit-low (suc i) a h = digit-low i (a / 2) (omega (arith, pow-suc 2 i))

pub digit-above : (w i a : ℕ) → a < 2 ^ w → w ≤ i → digit a i ≡ 0
digit-above w i a h le =
    digit-low i a (omega (arith, h, pow-le-pow_right {n = 2} (omega arith) {i = w} {j = i} le))

-- The digits of a run of `n` ones.
pub digit-ones : (n i : ℕ) → digit (2 ^ n - 1) i ≡ (if ltb i n then 1 else 0)
digit-ones zero i = rw digit-zero (ground arith)
digit-ones (suc n) zero = ground (arith, pow-suc 2 n, pow_pos n)
digit-ones (suc n) (suc i) = ap (λ (t : ℕ). digit t i) half ∙ digit-ones n i ∙ ground arith
  where
    half : (2 ^ suc n - 1) / 2 ≡ 2 ^ n - 1
    half = omega (arith, pow-suc 2 n, pow_pos n)

-- The digits of a number that is shifted up by `k` places.
pub digit-shifted : (k a i : ℕ) → digit (2 ^ k * a) i ≡ (if ltb i k then 0 else digit a (i - k))
digit-shifted zero a i = ap (λ (t : ℕ). digit t i) unit ∙ ground arith
  where
    unit : 2 ^ 0 * a ≡ a
    unit = omega arith
digit-shifted (suc k) a zero = ground (arith, doubled)
  where
    doubled : 2 ^ suc k * a ≡ 2 * (2 ^ k * a)
    doubled = ap (λ (t : ℕ). t * a) (omega (arith, pow-suc 2 k)) ∙ mul_assoc 2 (2 ^ k) a
digit-shifted (suc k) a (suc i) =
    ap (λ (t : ℕ). digit t i) half ∙ digit-shifted k a i ∙ ground arith
  where
    doubled : 2 ^ suc k * a ≡ 2 * (2 ^ k * a)
    doubled = ap (λ (t : ℕ). t * a) (omega (arith, pow-suc 2 k)) ∙ mul_assoc 2 (2 ^ k) a

    half : 2 ^ suc k * a / 2 ≡ 2 ^ k * a
    half = omega (arith, doubled)
