-- ===== src/Format/Text.antt =====
-- What the text of a number says: its digits read back, the highest first.
use native.Mathlib.Nat.{pow-zero, div-add-mod', mod-lt}
use mathlib.Core.List.{reverse-cons}
use drastic.Base.{
  ℕ, zero, suc, ◌+◌, ◌-◌, ◌*◌, ◌/◌, ◌%◌, ◌^◌, ◌≤◌, ◌<◌, ◌≡◌, ◌≢◌, refl, ap, ap₂, sym, ◌∙◌, inl, inr,
  List, [], ◌∷◌, ◌++◌, ltb, length, replicate, reverse, arith, if◌then◌else◌, false, Bool-cases,
  ltb→lt, length-reverse,
}
use drastic.Format.Digits.{digit_char, places, quotient-lt}

abbrev pub digit_value : ℕ → ℕ
digit_value ch = if ltb ch 58 then ch - 48 else ch - 55

-- The number that a text stands for, after the digits that `acc` stands for.
abbrev pub parse_from : ℕ → ℕ → List ℕ → ℕ
parse_from base acc [] = acc
parse_from base acc (ch ∷ text) = parse_from base (acc * base + digit_value ch) text

abbrev pub parse : ℕ → List ℕ → ℕ
parse base text = parse_from base 0 text

-- Every character is a digit of the base.
abbrev pub AllDigits : ℕ → List ℕ → Type 0
AllDigits base [] = Unit
AllDigits base (ch ∷ text) = ((d : ℕ) × (d < base) × (ch ≡ digit_char d)) × AllDigits base text

-- The first character, and 0 if there is none.
abbrev pub leading : List ℕ → ℕ
leading [] = 0
leading (ch ∷ text) = ch

-- The same, from the lowest digit.
abbrev pub lowest_first : ℕ → List ℕ → ℕ
lowest_first base [] = 0
lowest_first base (ch ∷ text) = lowest_first base text * base + digit_value ch

parse_from-snoc :
    (base acc : ℕ) (text : List ℕ) (ch : ℕ)
    → parse_from base acc (text ++ (ch ∷ [])) ≡ parse_from base acc text * base + digit_value ch
parse_from-snoc base acc [] ch = refl
parse_from-snoc base acc (c ∷ text) ch = parse_from-snoc base (acc * base + digit_value c) text ch

pub parse-reverse : (base : ℕ) (text : List ℕ) → parse base (reverse text) ≡ lowest_first base text
parse-reverse base [] = refl
parse-reverse base (ch ∷ text) =
    ap (parse base) (reverse-cons ch text)
    ∙ parse_from-snoc base 0 (reverse text) ch
    ∙ ap (λ (n : ℕ). n * base + digit_value ch) (parse-reverse base text)

digit_value-char : (d : ℕ) → d < 16 → digit_value (digit_char d) ≡ d
digit_value-char d h = ground arith

pub lowest_first-zeros :
    (base k : ℕ) (text : List ℕ)
    → lowest_first base (text ++ replicate k 48) ≡ lowest_first base text
lowest_first-zeros base zero [] = refl
lowest_first-zeros base (suc k) [] =
    ap (λ (n : ℕ). n * base + 0) (lowest_first-zeros base k []) ∙ omega arith
lowest_first-zeros base k (ch ∷ text) =
    ap (λ (n : ℕ). n * base + digit_value ch) (lowest_first-zeros base k text)

pub AllDigits-append :
    (base : ℕ) (xs ys : List ℕ) → AllDigits base xs → AllDigits base ys → AllDigits base (xs ++ ys)
AllDigits-append base [] ys a b = b
AllDigits-append base (x ∷ xs) ys (h, a) b = (h, AllDigits-append base xs ys a b)

pub AllDigits-reverse : (base : ℕ) (xs : List ℕ) → AllDigits base xs → AllDigits base (reverse xs)
AllDigits-reverse base [] a = tt
AllDigits-reverse base (x ∷ xs) (h, a) =
    rw (reverse-cons x xs)
      (AllDigits-append base (reverse xs) (x ∷ []) (AllDigits-reverse base xs a) (h, tt))

pub AllDigits-zeros : (base k : ℕ) → 0 < base → AllDigits base (replicate k 48)
AllDigits-zeros base zero h = tt
AllDigits-zeros base (suc k) h = ((0, h, refl), AllDigits-zeros base k h)

leading-append : (xs ys : List ℕ) → 0 < length xs → leading (xs ++ ys) ≡ leading xs
leading-append [] ys h = absurd (omega arith)
leading-append (x ∷ xs) ys h = refl

module _ (base : ℕ) (two : 2 ≤ base) (sixteen : base ≤ 16) where
  none_left : (value : ℕ) → ltb 0 (value / base) ≡ false → value / base * base ≡ 0
  none_left value last =
      let zero_left : value / base ≡ 0 = ground (arith, last) in
      ap (λ (q : ℕ). q * base) zero_left ∙ omega arith

  pub lowest_first-places :
      (fuel n value : ℕ)
      → value < base ^ n
      → 0 < n
      → n ≤ fuel
      → lowest_first base (places fuel base value) ≡ value
  unfolding places
  lowest_first-places fuel zero value h pos enough = absurd (omega arith)
  lowest_first-places zero (suc n) value h pos enough = absurd (omega arith)
  lowest_first-places (suc fuel) (suc n) value h pos enough =
      elim (Bool-cases (ltb 0 (value / base))) [
        | inl more ↦ rw more (
            ap₂ (λ (a b : ℕ). a * base + b)
              (lowest_first-places fuel n (value / base) (quotient-lt base two sixteen n value h)
                (ground (arith, more, quotient-lt base two sixteen n value h, pow-zero base))
                (omega arith))
              (digit_value-char (value % base)
                (omega (arith, mod-lt value {m = base} (omega arith))))
            ∙ div-add-mod' value base)
        | inr last ↦ rw last (
            ap (λ (a : ℕ). 0 * base + a)
              (digit_value-char (value % base)
                (omega (arith, mod-lt value {m = base} (omega arith))))
            ∙ omega (arith, div-add-mod' value base, none_left value last))
      ]

  pub AllDigits-places : (fuel value : ℕ) → AllDigits base (places fuel base value)
  unfolding places
  AllDigits-places zero value = tt
  AllDigits-places (suc fuel) value = (
    (value % base, mod-lt value {m = base} (omega arith), refl),
    elim (Bool-cases (ltb 0 (value / base))) [
      | inl more ↦ rw more (AllDigits-places fuel (value / base))
      | inr last ↦ rw last tt
    ],
  )

  length-places_pos : (fuel value : ℕ) → 0 < fuel → 0 < length (places fuel base value)
  unfolding places
  length-places_pos zero value h = absurd (omega arith)
  length-places_pos (suc fuel) value h = omega arith

  digit_char-ne : (d : ℕ) → 0 < d → d < 16 → digit_char d ≢ 48
  digit_char-ne d h h' = ground arith

  -- The highest digit of a positive number is not 0.
  pub leading-places :
      (fuel n value : ℕ)
      → value < base ^ n
      → 0 < value
      → n ≤ fuel
      → leading (reverse (places fuel base value)) ≢ 48
  unfolding places
  leading-places fuel zero value h pos enough = absurd (omega (arith, pow-zero base))
  leading-places zero (suc n) value h pos enough = absurd (omega arith)
  leading-places (suc fuel) (suc n) value h pos enough = elim (Bool-cases (ltb 0 (value / base))) [
    | inl more ↦ rw more (λ e.
        leading-places fuel n (value / base) (quotient-lt base two sixteen n value h)
          (ltb→lt 0 (value / base) more) (omega arith)
          (sym (
              ap leading
                (reverse-cons (digit_char (value % base)) (places fuel base (value / base)))
              ∙ leading-append (reverse (places fuel base (value / base))) _ (
                  omega (
                    arith,
                    length-reverse (places fuel base (value / base)),
                    length-places_pos fuel (value / base) (
                        ground
                          (arith, more, quotient-lt base two sixteen n value h, pow-zero base)),
                  )))
            ∙ e))
    | inr last ↦ rw last (
        digit_char-ne (value % base) (omega (arith, div-add-mod' value base, none_left value last))
          (omega (arith, mod-lt value {m = base} (omega arith))))
  ]
