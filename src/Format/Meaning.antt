-- ===== src/Format/Meaning.antt =====
-- `vformat` against the meaning of its format that Format/Pieces gives.
use drastic.Base.{
  ℕ, zero, suc, ◌+◌, ◌-◌, ◌<◌, ◌^◌, ◌≡◌, refl, sym, ap, ◌∙◌, inl, inr, true, false, Option, none,
  some, List, [], ◌∷◌, ltb, ◌==◌, length, get_or, if◌then◌else◌, Result, ok, stop, ◌>>=◌, arith,
  Bool-cases,
}
use drastic.Base.Int.{ℤ, pos, negsuc}
use drastic.Format.{
  Written, Argument, pointer, int, uint, i64, u64, string, c_string, specifier, convert, base_of,
  string_get, format_number_i64, format_number_u64, vformat_from, vformat,
}
use drastic.Format.Pieces.{
  plain, after_percent, after_base, pieces, show_integer, show_directive, show,
}

format_number_i64-eq :
    (output : Written) (n : ℤ) (base : ℕ)
    → format_number_i64 output n base ≡ show_integer output n base
unfolding format_number_i64
format_number_i64-eq output (pos n) base = refl
format_number_i64-eq output (negsuc n) base = elim (Bool-cases (n == 2 ^ 63 - 1)) [
  | inl least ↦ let same : (suc n == 2 ^ 63) ≡ true = ground (arith, least) in rw (same, least) refl
  | inr other ↦
      let same : (suc n == 2 ^ 63) ≡ false = ground (arith, other) in rw (same, other) refl
]

convert-eq :
    (ch base : ℕ) (args : List Argument) (output : Written)
    → convert (specifier ch) base args output ≡ show_directive base ch args output
unfolding convert format_number_u64
convert-eq ch base [] output = ground arith
convert-eq ch base (pointer n ∷ args) output = ground arith
convert-eq ch base (int n ∷ args) output = ground (arith, format_number_i64-eq output n base)
convert-eq ch base (uint n ∷ args) output = ground arith
convert-eq ch base (i64 n ∷ args) output = ground (arith, format_number_i64-eq output n base)
convert-eq ch base (u64 n ∷ args) output = ground arith
convert-eq ch base (string s ∷ args) output = ground arith
convert-eq ch base (c_string s ∷ args) output = ground arith

-- The characters from a place on.
abbrev from_place : ℕ → List ℕ → List ℕ
from_place zero chs = chs
from_place (suc i) [] = []
from_place (suc i) (ch ∷ chs) = from_place i chs

from_place-inside :
    (i : ℕ) (chs : List ℕ)
    → ltb i (length chs) ≡ true
    → from_place i chs ≡ get_or chs i 0 ∷ from_place (suc i) chs
from_place-inside i [] h = absurd (ground (arith, h))
from_place-inside zero (ch ∷ chs) h = refl
from_place-inside (suc i) (ch ∷ chs) h = from_place-inside i chs (ground (arith, h))

from_place-over : (i : ℕ) (chs : List ℕ) → ltb i (length chs) ≡ false → from_place i chs ≡ []
from_place-over zero [] h = refl
from_place-over (suc i) [] h = refl
from_place-over zero (ch ∷ chs) h = absurd (ground (arith, h))
from_place-over (suc i) (ch ∷ chs) h = from_place-over i chs (ground (arith, h))

string_get-inside :
    (s : List ℕ) (i : ℕ) → ltb i (length s) ≡ true → string_get s i ≡ ok (get_or s i 0)
unfolding string_get
string_get-inside s i h = rw h refl

from_place-next :
    (i j : ℕ) (chs : List ℕ)
    → j ≡ suc i
    → ltb i (length chs) ≡ true
    → from_place i chs ≡ get_or chs i 0 ∷ from_place j chs
from_place-next i j chs e h =
    from_place-inside i chs h ∙ ap (λ (k : ℕ). get_or chs i 0 ∷ from_place k chs) (sym e)

module _ (format : List ℕ) where
  -- Where the specifier stands after a '%' at `i`.
  abbrev spec_at : ℕ → ℕ
  spec_at i = if base_of (get_or format (i + 1) 0) == 0 then i + 1 else i + 2

  pieces-spec_at :
      (i : ℕ)
      → ltb (i + 1) (length format) ≡ true
      → pieces after_percent (from_place (i + 1) format)
        ≡ pieces (after_base (base_of (get_or format (i + 1) 0))) (from_place (spec_at i) format)
  pieces-spec_at i h =
      let next = from_place-next (i + 1) (i + 2) format (omega arith) h in
      elim (Bool-cases (get_or format (i + 1) 0 == 120)) [
        | inl e ↦ rw (next, e) refl
        | inr e ↦ elim (Bool-cases (get_or format (i + 1) 0 == 98)) [
          | inl e' ↦ rw (next, e, e') refl
          | inr e' ↦ rw (next, e, e') (ap (pieces (after_base 0)) (sym next))
        ]
      ]

  pieces-directive :
      (i : ℕ)
      → ltb i (length format) ≡ true
      → (get_or format i 0 == 37) ≡ true
      → ltb (i + 1) (length format) ≡ true
      → pieces plain (from_place i format)
        ≡ pieces (after_base (base_of (get_or format (i + 1) 0))) (from_place (spec_at i) format)
  pieces-directive i inside percent more =
      rw (from_place-next i (i + 1) format (omega arith) inside, percent) (pieces-spec_at i more)

  -- What the code does with what a case of the switch returns, and what the meaning does.
  abbrev go_on :
      (List Argument → Written → Result Written) → Written × Option (List Argument) → Result Written
  go_on next (output, left) = elim left [ none ↦ ok output | some args ↦ next args output ]

  go_on-same :
      (next next' : List Argument → Written → Result Written)
      (r : Result (Written × Option (List Argument)))
      → ((args : List Argument) (output : Written) → next args output ≡ next' args output)
      → (r >>= go_on next) ≡ (r >>= go_on next')
  go_on-same next next' (ok (output, none)) h = refl
  go_on-same next next' (ok (output, some args)) h = h args output
  go_on-same next next' (stop s) h = refl

  abbrev Means : ℕ → ℕ → Type 0
  Means fuel i =
      (args : List Argument) (output : Written)
      → vformat_from fuel i format args output
        ≡ show (pieces plain (from_place i format)) args output

  -- Past the end, with a round left.
  Means-over : (fuel i : ℕ) → 0 < fuel → ltb i (length format) ≡ false → Means fuel i
  unfolding vformat_from
  Means-over zero i some_left over args output = absurd (omega arith)
  Means-over (suc fuel) i some_left over args output =
      rw (over, vformat_from, from_place-over i format over) refl

  Means-directive :
      (fuel i : ℕ)
      → ltb i (length format) ≡ true
      → ltb (i + 1) (length format) ≡ true
      → (get_or format i 0 == 37) ≡ true
      → Means fuel (spec_at i + 1)
      → Means (suc fuel) i
  unfolding vformat_from
  Means-directive fuel i inside more percent rest args output =
      rw
        (
          inside,
          vformat_from,
          string_get-inside format i inside,
          ◌>>=◌,
          percent,
          more,
          string_get-inside format (i + 1) more,
          pieces-directive i inside percent more,
        )
        (elim (Bool-cases (ltb (spec_at i) (length format))) [
          | inr over ↦
              rw (over, from_place-over (spec_at i) format over)
                (rest args _
                  ∙ rw (from_place-over (spec_at i + 1) format (ground (arith, over))) refl)
          | inl there ↦
              rw
                (
                  there,
                  string_get-inside format (spec_at i) there,
                  from_place-next (spec_at i) (spec_at i + 1) format (omega arith) there,
                  convert-eq,
                )
                (go_on-same (λ left o. vformat_from fuel (spec_at i + 1) format left o)
                  (show (pieces plain (from_place (spec_at i + 1) format))) _ rest)
        ])

  vformat_from-Means : (fuel i : ℕ) → 0 < fuel → length format < i + fuel → Means fuel i
  unfolding vformat_from
  vformat_from-Means zero i some_left enough args output = absurd (omega arith)
  vformat_from-Means (suc fuel) i some_left enough args output =
      elim (Bool-cases (ltb i (length format))) [
        | inr over ↦ Means-over (suc fuel) i some_left over args output
        | inl inside ↦ elim (Bool-cases (get_or format i 0 == 37)) [
          | inr plain_ch ↦
              rw
                (
                  inside,
                  vformat_from,
                  string_get-inside format i inside,
                  ◌>>=◌,
                  from_place-next i (i + 1) format (omega arith) inside,
                  plain_ch,
                )
                (vformat_from-Means fuel (i + 1) (ground (arith, inside)) (omega arith) args _)
          | inl percent ↦ elim (Bool-cases (ltb (i + 1) (length format))) [
            | inl more ↦
                Means-directive fuel i inside more percent
                  (vformat_from-Means fuel (spec_at i + 1) (ground (arith, inside)) (ground arith))
                  args output
            | inr over ↦
                rw
                  (
                    inside,
                    vformat_from,
                    string_get-inside format i inside,
                    ◌>>=◌,
                    from_place-next i (i + 1) format (omega arith) inside,
                    percent,
                    over,
                    from_place-over (i + 1) format over,
                  )
                  (vformat_from-Means fuel (i + 2) (ground (arith, inside)) (omega arith) args _
                    ∙ rw (from_place-over (i + 2) format (ground (arith, over))) refl)
          ]
        ]
      ]

-- For every output, format and arguments, vformat does what the format means: cut into characters
-- and directives from left to right, it writes every character by itself, for every directive the
-- next argument in the form and base that the directive names, and for an unfinished or unknown
-- one the note for it, an unknown one ending the output. A letter whose argument has another type
-- or is missing is undefined.
pub vformat-show :
    (output : Written) (format : List ℕ) (args : List Argument)
    → vformat output format args ≡ show (pieces plain format) args output
unfolding vformat
vformat-show output format args =
    vformat_from-Means format (suc (length format)) 0 (omega arith) (omega arith) args output
