-- ===== src/Format/Digits.antt =====
-- The digits that `format_number` leaves in its buffer, the lowest first.
use native.Mathlib.Nat.{pow-zero, pow-suc, div-lt_iff_lt-mul, mod-lt, mul_comm}
use drastic.Base.{
  ℕ, zero, suc, ◌+◌, ◌-◌, ◌/◌, ◌%◌, ◌^◌, ◌≤◌, ◌<◌, ◌≡◌, refl, ap, sym, ◌∙◌, inl, inr, List, [], ◌∷◌,
  ◌++◌, ltb, length, set, replicate, length-append, length-replicate, ok, arith, if◌then◌else◌,
  true, false, Bool-cases, write-eq-ok,
}
use mathlib.Core.List.{append_assoc}
use drastic.Bytes.{bytes_set}
use drastic.Format.{format_digit, buffer, put_digits}

-- The buffer with `xs` at its start and nothing written after it.
abbrev pub holding : List ℕ → List ℕ
holding xs = xs ++ replicate (96 - length xs) 0

set-at_end :
    (xs : List ℕ) (k d : ℕ)
    → set (xs ++ replicate (suc k) 0) (length xs) d ≡ (xs ++ (d ∷ [])) ++ replicate k 0
set-at_end [] k d = refl
set-at_end (x ∷ xs) k d = ap (◌∷◌ x) (set-at_end xs k d)

length-snoc : (xs : List ℕ) (d : ℕ) → length (xs ++ (d ∷ [])) ≡ suc (length xs)
length-snoc xs d = omega (arith, length-append xs (d ∷ []))

length-holding : (xs : List ℕ) → length xs ≤ 96 → length (holding xs) ≡ 96
length-holding xs h = omega (
  arith,
  length-append xs (replicate (96 - length xs) 0),
  length-replicate {A = ℕ} (96 - length xs) 0,
)

-- Writing the next byte.
pub bytes_set-push :
    (xs : List ℕ) (d : ℕ)
    → length xs < 96
    → bytes_set buffer (length xs) d (holding xs) ≡ ok (holding (xs ++ (d ∷ [])))
unfolding bytes_set
bytes_set-push xs d h =
    let inside : ltb (length xs) 96 ≡ true = ground arith in
    let start : 0 + length xs ≡ length xs = omega arith in
    let room : 96 - length xs ≡ suc (95 - length xs) = omega arith in
    let left : 96 - length (xs ++ (d ∷ [])) ≡ 95 - length xs = omega (arith, length-snoc xs d) in
    rw inside (
      write-eq-ok (holding xs) (0 + length xs) d (omega (arith, length-holding xs))
      ∙ ap ok (
          ap (λ (i : ℕ). set (holding xs) i d) start
          ∙ ap (λ (n : ℕ). set (xs ++ replicate n 0) (length xs) d) room
          ∙ set-at_end xs (95 - length xs) d
          ∙ ap (λ (n : ℕ). (xs ++ (d ∷ [])) ++ replicate n 0) (sym left)))

abbrev pub digit_char : ℕ → ℕ
digit_char d = if ltb d 10 then 48 + d else 65 + (d - 10)

format_digit-char : (d : ℕ) → d < 16 → format_digit d ≡ ok (digit_char d)
unfolding format_digit
format_digit-char d h = let inside : ltb d 16 ≡ true = ground arith in rw inside refl

-- The characters of the digits, the lowest first, at most `fuel` of them.
unfoldable pub places : ℕ → ℕ → ℕ → List ℕ
places zero base value = []
places (suc fuel) base value =
    let higher = places fuel base (value / base) in
    digit_char (value % base) ∷ (if ltb 0 (value / base) then higher else [])

abbrev pub pushed : List ℕ → ℕ × List ℕ
pushed xs = (length xs, holding xs)

module _ (base : ℕ) (two : 2 ≤ base) (sixteen : base ≤ 16) where
  digit-lt : (value : ℕ) → value % base < 16
  digit-lt value = omega (arith, mod-lt value {m = base} (omega arith))

  pub quotient-lt : (n value : ℕ) → value < base ^ suc n → value / base < base ^ n
  quotient-lt n value h =
      (div-lt_iff_lt-mul {k = base} (omega arith)).1
        (omega (arith, h, pow-suc base n, mul_comm base (base ^ n)))

  pub length-places :
      (fuel n value : ℕ) → value < base ^ n → 0 < n → length (places fuel base value) ≤ n
  unfolding places
  length-places zero n value h pos = omega arith
  length-places (suc fuel) zero value h pos = absurd (omega arith)
  length-places (suc fuel) (suc zero) value h pos =
      let last : ltb 0 (value / base) ≡ false =
        ground (arith, quotient-lt 0 value h, pow-zero base) in
      rw last (omega arith)
  length-places (suc fuel) (suc (suc n)) value h pos = elim (Bool-cases (ltb 0 (value / base))) [
    | inl more ↦ rw more (
        omega (
          arith,
          length-places fuel (suc n) (value / base) (quotient-lt (suc n) value h) (omega arith),
        ))
    | inr last ↦ rw last (omega arith)
  ]

  pub put_digits-places :
      (fuel n value : ℕ) (xs : List ℕ)
      → value < base ^ n
      → 0 < n
      → n ≤ fuel
      → length xs + n ≤ 96
      → put_digits fuel value base (length xs) (holding xs)
        ≡ ok (pushed (xs ++ places fuel base value))
  unfolding put_digits places
  put_digits-places fuel zero value xs h pos enough room = absurd (omega arith)
  put_digits-places zero (suc n) value xs h pos enough room = absurd (omega arith)
  put_digits-places (suc fuel) (suc n) value xs h pos enough room =
      rw
        (
          format_digit-char (value % base) (digit-lt value),
          bytes_set-push xs (digit_char (value % base)) (omega arith),
        )
        (elim (Bool-cases (ltb 0 (value / base))) [
          | inl more ↦ rw more (
              ap (λ (i : ℕ). put_digits fuel (value / base) base i (holding (xs ++ (lowest ∷ []))))
                (omega (arith, length-snoc xs lowest))
              ∙ put_digits-places fuel n (value / base) (xs ++ (lowest ∷ []))
                  (quotient-lt n value h)
                  (ground (arith, more, quotient-lt n value h, pow-zero base)) (omega arith)
                  (omega (arith, length-snoc xs lowest))
              ∙ ap (λ ys. ok (pushed ys))
                  (append_assoc xs (lowest ∷ []) (places fuel base (value / base))))
          | inr last ↦ rw last (
              ap (λ (i : ℕ). ok (i, holding (xs ++ (lowest ∷ []))))
                (omega (arith, length-snoc xs lowest)))
        ])
    where
      lowest : ℕ
      lowest = digit_char (value % base)
