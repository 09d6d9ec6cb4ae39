-- ===== src/Format/Pieces.antt =====
-- What a format means, without indices: it is cut into pieces, one character at a time, and every
-- directive takes the next argument.
use drastic.Base.{
  ℕ, suc, ◌-◌, ◌^◌, Bool, true, false, ◌||◌, Option, none, some, List, [], ◌∷◌, ◌++◌, ◌==◌,
  if◌then◌else◌, Result, ok, stop, bad_argument, signed_overflow, ◌>>=◌,
}
use drastic.Base.Int.{ℤ, pos, negsuc}
use drastic.Bytes.{string_from_char}
use drastic.Format.{
  Written, Argument, pointer, int, uint, i64, u64, string, c_string, format_number,
}

pub data Piece : Type 0 where
  literal : ℕ → Piece
  directive : ℕ → ℕ → Piece
  cut_short : List ℕ → Piece

-- What has been read: nothing of a directive, its '%', or also the character of its base.
pub data Reading : Type 0 where
  plain : Reading
  after_percent : Reading
  after_base : ℕ → Reading

-- "(<out of bounds>)"
abbrev pub out_of_bounds_note : List ℕ
out_of_bounds_note =
    40 ∷ 60 ∷ 111 ∷ 117 ∷ 116 ∷ 32 ∷ 111 ∷ 102 ∷ 32 ∷ 98 ∷ 111 ∷ 117 ∷ 110 ∷ 100 ∷ 115 ∷ 62 ∷ 41
    ∷ []

-- "(<unsupported format specifier>)"
abbrev pub unsupported_note : List ℕ
unsupported_note =
    40 ∷ 60 ∷ 117 ∷ 110 ∷ 115 ∷ 117 ∷ 112 ∷ 112 ∷ 111 ∷ 114 ∷ 116 ∷ 101 ∷ 100 ∷ 32 ∷ 102 ∷ 111 ∷ 114
    ∷ 109 ∷ 97 ∷ 116 ∷ 32 ∷ 115 ∷ 112 ∷ 101 ∷ 99 ∷ 105 ∷ 102 ∷ 105 ∷ 101 ∷ 114 ∷ 62 ∷ 41 ∷ []

abbrev pub pieces : Reading → List ℕ → List Piece
pieces plain [] = []
pieces after_percent [] = cut_short (37 ∷ out_of_bounds_note) ∷ []
pieces (after_base base) [] = cut_short (37 ∷ 120 ∷ out_of_bounds_note) ∷ []
pieces plain (ch ∷ chs) =
    if ch == 37 then pieces after_percent chs else literal ch ∷ pieces plain chs
pieces after_percent (ch ∷ chs) =
    if ch == 120
    then pieces (after_base 16) chs
    else (if ch == 98 then pieces (after_base 2) chs else directive 0 ch ∷ pieces plain chs)
pieces (after_base base) (ch ∷ chs) = directive base ch ∷ pieces plain chs

-- The letter of each kind of argument, among "piuIUsS".
abbrev pub letter_of : Argument → ℕ
letter_of (pointer n) = 112
letter_of (int n) = 105
letter_of (uint n) = 117
letter_of (i64 n) = 73
letter_of (u64 n) = 85
letter_of (string s) = 115
letter_of (c_string s) = 83

abbrev pub is_letter : ℕ → Bool
is_letter ch = ch == 112 || ch == 105 || ch == 117 || ch == 73 || ch == 85 || ch == 115 || ch == 83

-- A negative number is written as its opposite with a sign; the least one has none.
abbrev pub show_integer : Written → ℤ → ℕ → Result Written
show_integer output (pos n) base = format_number output n false base
show_integer output (negsuc n) base =
    if n == 2 ^ 63 - 1 then stop signed_overflow else format_number output (suc n) true base

abbrev pub show_argument : Written → Argument → ℕ → Result Written
show_argument output (pointer n) base =
    format_number output n false (if base == 0 then 16 else base)
show_argument output (int n) base = show_integer output n base
show_argument output (uint n) base = format_number output n false base
show_argument output (i64 n) base = show_integer output n base
show_argument output (u64 n) base = format_number output n false base
show_argument output (string s) base = ok (output ++ s ∷ [])
show_argument output (c_string cstr) base = string_from_char cstr >>= λ s. ok (output ++ s ∷ [])

-- An unknown letter ends the format with a note. A letter without an argument of its kind is an error.
abbrev pub show_directive :
    ℕ → ℕ → List Argument → Written → Result (Written × Option (List Argument))
show_directive base letter [] output =
    if is_letter letter
    then stop bad_argument
    else ok (output ++ (37 ∷ unsupported_note) ∷ [], none)
show_directive base letter (argument ∷ args) output =
    let shown = show_argument output argument base in
    if letter == letter_of argument
    then (shown >>= λ o. ok (o, some args))
    else (if is_letter letter
        then stop bad_argument
        else ok (output ++ (37 ∷ unsupported_note) ∷ [], none))

abbrev pub show : List Piece → List Argument → Written → Result Written
show [] args output = ok output
show (literal ch ∷ rest) args output = show rest args (output ++ (ch ∷ []) ∷ [])
show (cut_short text ∷ rest) args output = show rest args (output ++ text ∷ [])
show (directive base letter ∷ rest) args output =
    show_directive base letter args output >>= λ (output', left). elim left [
      | none ↦ ok output'
      | some args' ↦ show rest args' output'
    ]
