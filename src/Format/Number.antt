-- ===== src/Format/Number.antt =====
-- `format_number`: the text that is written, for every base from 2 to 16.
use native.Mathlib.Nat.{pow-le-pow_left, zero-mod, zero-div}
use mathlib.Core.Path.{subst}
use mathlib.Core.List.{append-nil, append_assoc, reverse-append}
use drastic.Base.{
  ℕ, zero, suc, ◌+◌, ◌-◌, ◌^◌, ◌≤◌, ◌<◌, ◌≡◌, ◌≢◌, refl, ap, sym, ◌∙◌, ◌⊎◌, inl, inr, List, [], ◌∷◌,
  ◌++◌, ltb, ◌==◌, length, replicate, reverse, take, length-append, length-replicate,
  length-reverse, Result, ok, arith, if◌then◌else◌, Bool, true, false, Bool-cases, ltb→lt,
}
use drastic.Bytes.{bytes_slice, view}
use drastic.Bytes.Prefix.{front, bytes_reverse-front}
use drastic.Format.{
  Written, stream_write, buffer, put_zeros, put_sign, left_zeros, write_prefix, format_number,
}
use drastic.Format.Prefix.{radix, IsPrefix, Begins, write_prefix-Begins, radix-eq}
use drastic.Format.Digits.{
  holding, pushed, bytes_set-push, places, length-places, put_digits-places,
}
use drastic.Format.Text.{
  parse, AllDigits, leading, parse-reverse, lowest_first-zeros, lowest_first-places,
  AllDigits-append, AllDigits-reverse, AllDigits-zeros, AllDigits-places, leading-places,
}

put_zeros-push :
    (left : ℕ) (xs : List ℕ)
    → length xs + left ≤ 96
    → put_zeros left (length xs) (holding xs) ≡ ok (pushed (xs ++ replicate left 48))
unfolding put_zeros
put_zeros-push zero xs h = ap (λ ys. ok (pushed ys)) (sym (append-nil xs))
put_zeros-push (suc left) xs h = rw (bytes_set-push xs 48 (omega arith)) (
    ap (λ (i : ℕ). put_zeros left i (holding (xs ++ (48 ∷ []))))
      (omega (arith, length-append xs (48 ∷ [])))
    ∙ put_zeros-push left (xs ++ (48 ∷ [])) (omega (arith, length-append xs (48 ∷ [])))
    ∙ ap (λ ys. ok (pushed ys)) (append_assoc xs (48 ∷ []) (replicate left 48)))

-- The sign, after the digits.
abbrev sign_last : Bool → List ℕ
sign_last true = 45 ∷ []
sign_last false = []

-- The sign, before the digits.
abbrev pub with_sign : Bool → List ℕ → List ℕ
with_sign true text = 45 ∷ text
with_sign false text = text

put_sign-push :
    (s : Bool) (xs : List ℕ)
    → length xs < 96
    → put_sign s (length xs) (holding xs) ≡ ok (pushed (xs ++ sign_last s))
put_sign-push true xs h =
    rw (bytes_set-push xs 45 h) (
      ap (λ (i : ℕ). ok (i, holding (xs ++ (45 ∷ [])))) (omega (arith, length-append xs (45 ∷ []))))
put_sign-push false xs h = ap (λ ys. ok (pushed ys)) (sym (append-nil xs))

reverse-sign : (s : Bool) (xs : List ℕ) → reverse (xs ++ sign_last s) ≡ with_sign s (reverse xs)
reverse-sign true xs = reverse-append xs (45 ∷ [])
reverse-sign false xs = ap reverse (append-nil xs)

take-front : (xs ys : List ℕ) → take (length xs) (xs ++ ys) ≡ xs
take-front [] ys = refl
take-front (x ∷ xs) ys = ap (◌∷◌ x) (take-front xs ys)

length-sign : (s : Bool) → length (sign_last s) ≤ 1
length-sign true = omega arith
length-sign false = omega arith

-- What is sliced off and reversed.
view-reversed : (xs ys : List ℕ) → view (front xs ys) (reverse xs ++ ys) ≡ reverse xs
view-reversed xs ys =
    ap (λ (n : ℕ). take n (reverse xs ++ ys)) (sym (length-reverse xs)) ∙ take-front (reverse xs) ys

slice-front :
    (xs : List ℕ)
    → length xs ≤ 96
    → bytes_slice buffer 0 (length xs) ≡ ok (front xs (replicate (96 - length xs) 0))
unfolding bytes_slice
slice-front xs h = ground arith

-- How many digits a base shows: all 16 or 64 of them, or no zero in front.
abbrev pub Width : ℕ → List ℕ → Type 0
Width base digits =
    if base == 16
    then length digits ≡ 16
    else (if base == 2 then length digits ≡ 64 else ((leading digits ≢ 48) ⊎ (digits ≡ 48 ∷ [])))

-- The call wrote the prefix of the base and then, in one piece, the sign and these digits.
pub record Prints (output : Written) (value : ℕ) (is_signed : Bool) (base : ℕ)
    (out : Result Written) : Type 0 where
  pub digits : List ℕ
  pub prefix : Written
  pub returns : out ≡ ok (output ++ prefix ++ with_sign is_signed digits ∷ [])
  pub right_prefix : IsPrefix base prefix
  pub all_digits : AllDigits base digits
  pub parses : parse base digits ≡ value
  pub width : Width base digits

places-zero : (fuel base : ℕ) → places (suc fuel) base 0 ≡ 48 ∷ []
unfolding places
places-zero fuel base = rw (zero-mod base, zero-div base) refl

module _ (base value : ℕ) (two : 2 ≤ base) (sixteen : base ≤ 16) (fits : value < 2 ^ 64) where
  below_64 : value < base ^ 64
  below_64 = omega (arith, pow-le-pow_left {n = 2} {m = base} two 64)

  abbrev lowest : List ℕ
  lowest = places 97 base value

  abbrev zeros : ℕ
  zeros = left_zeros base (length lowest)

  abbrev text : List ℕ
  text = lowest ++ replicate zeros 48

  length-lowest : length lowest ≤ 64
  length-lowest = length-places base two sixteen 97 64 value below_64 (omega arith)

  lowest-zeros : length lowest + zeros ≤ 64
  lowest-zeros = ground (arith, length-lowest)

  length-text : length text ≤ 64
  length-text = omega (
    arith,
    length-append lowest (replicate zeros 48),
    length-replicate {A = ℕ} zeros 48,
    lowest-zeros,
  )

  value_text : parse base (reverse text) ≡ value
  value_text =
      parse-reverse base text
      ∙ lowest_first-zeros base zeros lowest
      ∙ lowest_first-places base two sixteen 97 64 value below_64 (omega arith) (omega arith)

  digits_text : AllDigits base (reverse text)
  digits_text = AllDigits-reverse base text (
      AllDigits-append base lowest (replicate zeros 48) (AllDigits-places base two sixteen 97 value)
        (AllDigits-zeros base zeros (omega arith)))

  hex-lt : (base == 16) ≡ true → length lowest ≤ 16
  hex-lt hex =
      let same : 16 ≡ base = ground (arith, hex) in
      length-places base two sixteen 97 16 value (subst (λ (b : ℕ). value < b ^ 16) same fits)
        (omega arith)

  no_zero_in_front : (leading (reverse lowest) ≢ 48) ⊎ (reverse lowest ≡ 48 ∷ [])
  no_zero_in_front = elim (Bool-cases (ltb 0 value)) [
    | inl positive ↦ inl (
        leading-places base two sixteen 97 64 value below_64 (ltb→lt 0 value positive)
          (omega arith))
    | inr none ↦
        let is_zero : value ≡ 0 = ground (arith, none) in
        inr (ap (λ (v : ℕ). reverse (places 97 base v)) is_zero ∙ ap reverse (places-zero 96 base))
  ]

  Width-text : Width base (reverse text)
  Width-text = elim (Bool-cases (base == 16)) [
    | inl hex ↦ rw hex (
        length-reverse (lowest ++ replicate (16 - length lowest) 48)
        ∙ omega (
          arith,
          length-append lowest (replicate (16 - length lowest) 48),
          length-replicate {A = ℕ} (16 - length lowest) 48,
          hex-lt hex,
        ))
    | inr not_hex ↦ elim (Bool-cases (base == 2)) [
      | inl binary ↦
          rw (not_hex, binary)
            (length-reverse (lowest ++ replicate (64 - length lowest) 48)
              ∙ omega (
                arith,
                length-append lowest (replicate (64 - length lowest) 48),
                length-replicate {A = ℕ} (64 - length lowest) 48,
                length-lowest,
              ))
      | inr other ↦
          rw (not_hex, other)
            (subst (λ t. (leading t ≢ 48) ⊎ (t ≡ 48 ∷ [])) (ap reverse (sym (append-nil lowest)))
              no_zero_in_front)
    ]
  ]

module _ (output : Written) (value : ℕ) (is_signed : Bool) (base : ℕ) (two : 2 ≤ radix base)
    (sixteen : radix base ≤ 16) (fits : value < 2 ^ 64) where
  abbrev b : ℕ
  b = radix base

  abbrev shown : List ℕ
  shown = text b value two sixteen fits ++ sign_last is_signed

  shown-short : length shown ≤ 96
  shown-short = omega (
    arith,
    length-append (text b value two sixteen fits) (sign_last is_signed),
    length-text b value two sixteen fits,
    length-sign is_signed,
  )

  writes :
      format_number output value is_signed base
      ≡ ok (
          stream_write
            (write_prefix b output)
            (with_sign is_signed (reverse (text b value two sixteen fits))))
  unfolding format_number
  writes =
      rw
        (
          sym (radix-eq base),
          put_digits-places b two sixteen 97 64 value [] (below_64 b value two sixteen fits)
              (omega arith) (omega arith) (omega arith),
          put_zeros-push (zeros b value two sixteen fits) (lowest b value two sixteen fits)
              (omega (arith, lowest-zeros b value two sixteen fits)),
          put_sign-push is_signed (text b value two sixteen fits)
              (omega (arith, length-text b value two sixteen fits)),
          slice-front shown shown-short,
          bytes_reverse-front shown (replicate (96 - length shown) 0),
        )
        (ap (λ t. ok (stream_write (write_prefix b output) t))
          (view-reversed shown (replicate (96 - length shown) 0)
            ∙ reverse-sign is_signed (text b value two sixteen fits)))

  begins : Begins b output
  begins = write_prefix-Begins b output

  -- For a value below 2^64 and a base from 2 to 16, or 0 for ten, the call returns; it writes
  -- "0b", "0o" or "0x" in one piece if the base is 2, 8 or 16 and nothing for another base, and
  -- then, in one piece, a minus sign if asked for and digits of the base that read back as the
  -- value: 16 of them for base 16, 64 for base 2, and otherwise without a zero in front, or the
  -- one digit 0.
  pub format_number-Prints :
      Prints output value is_signed b (format_number output value is_signed base)
  format_number-Prints = record {
    digits = reverse (text b value two sixteen fits);
    prefix = begins.prefix;
    returns =
        writes
        ∙ ap
            (λ o.
              ok (stream_write o (with_sign is_signed (reverse (text b value two sixteen fits)))))
            begins.writes_prefix;
    right_prefix = begins.right_prefix;
    all_digits = digits_text b value two sixteen fits;
    parses = value_text b value two sixteen fits;
    width = Width-text b value two sixteen fits;
  }
