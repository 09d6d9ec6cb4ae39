-- ===== src/Format.antt =====
-- kernel/src/base/base_format.c and base_stream.c: printing through a stream.
--
-- A stream is known by what is written to it: the list of the buffers that its function is given, the
-- first one first. Characters are their codes.
pub mod Digits
pub mod Text
pub mod Prefix
pub mod Number
pub mod Pieces
pub mod Meaning
mod Tests
use drastic.Base.{
  ℕ, zero, suc, ◌+◌, ◌-◌, ◌*◌, ◌/◌, ◌%◌, ◌^◌, ◌≤◌, ◌<◌, not, ◌||◌, Bool, true, false, Option, none,
  some, List, [], ◌∷◌, ◌++◌, ltb, leb, ◌==◌, if◌then◌else◌, Result, ok, stop, out_of_fuel,
  bad_argument, signed_overflow, kassert, ◌>>=◌, ◌>>◌, length, get_or, replicate,
}
use drastic.Base.Int.{ℤ, pos, negsuc}
use drastic.Bytes.{Bytes, bytes_set, bytes_slice, bytes_reverse, view, string_from_char}

abbrev pub Written : Type 0
Written = List (List ℕ)

-- `stream_write` and `stream_write_string`
abbrev pub stream_write : Written → List ℕ → Written
stream_write output bytes = output ++ (bytes ∷ [])

-- `stream_write_byte`
abbrev pub stream_write_byte : Written → ℕ → Written
stream_write_byte output byte = output ++ ((byte ∷ []) ∷ [])

unfoldable pub format_digit : ℕ → Result ℕ
format_digit value = do
  kassert (ltb value 16)
  ok (if ltb value 10 then 48 + value else 65 + (value - 10))

-- `U8 buffer_data[96] = {0}`
abbrev pub buffer : Bytes
buffer = record { ptr = 0; len = 96 }

-- The digits, the lowest first. The buffer has room for 96.
unfoldable pub put_digits : ℕ → ℕ → ℕ → ℕ → List ℕ → Result (ℕ × List ℕ)
put_digits zero value base i buffer_data = stop out_of_fuel
put_digits (suc fuel) value base i buffer_data = format_digit (value % base) >>= λ digit.
    bytes_set buffer i digit buffer_data >>= λ buffer_data'.
    let rest = put_digits fuel (value / base) base (i + 1) buffer_data' in
    if ltb 0 (value / base) then rest else ok (i + 1, buffer_data')

-- The loop over the zeros that are left.
unfoldable pub put_zeros : ℕ → ℕ → List ℕ → Result (ℕ × List ℕ)
put_zeros zero i buffer_data = ok (i, buffer_data)
put_zeros (suc left) i buffer_data = bytes_set buffer i 48 buffer_data >>= put_zeros left (i + 1)

-- How many digits there are at least.
abbrev pub left_zeros : ℕ → ℕ → ℕ
left_zeros base i = if base == 16 then 16 - i else (if base == 2 then 64 - i else 0)

abbrev pub put_sign : Bool → ℕ → List ℕ → Result (ℕ × List ℕ)
put_sign true i buffer_data =
    bytes_set buffer i 45 buffer_data >>= λ buffer_data'. ok (i + 1, buffer_data')
put_sign false i buffer_data = ok (i, buffer_data)

-- "0b", "0o" or "0x"
abbrev pub write_prefix : ℕ → Written → Written
write_prefix base output =
    if base == 2
    then stream_write output (48 ∷ 98 ∷ [])
    else (if base == 8
        then stream_write output (48 ∷ 111 ∷ [])
        else (if base == 16 then stream_write output (48 ∷ 120 ∷ []) else output))

-- `!base ? 10 : base`
abbrev pub base_or_ten : ℕ → ℕ
base_or_ten base = if base == 0 then 10 else base

unfoldable pub format_number : Written → ℕ → Bool → ℕ → Result Written
format_number output value is_signed base = do
  (i1, buffer_data1) ← put_digits 97 value (base_or_ten base) 0 (replicate 96 0)
  (i2, buffer_data2) ← put_zeros (left_zeros (base_or_ten base) i1) i1 buffer_data1
  (i3, buffer_data3) ← put_sign is_signed i2 buffer_data2
  output_buffer ← bytes_slice buffer 0 i3
  buffer_data4 ← bytes_reverse output_buffer buffer_data3
  ok (stream_write (write_prefix (base_or_ten base) output) (view output_buffer buffer_data4))

-- A signed number is negated in its own type, where the least one has no opposite.
unfoldable pub format_number_i64 : Written → ℤ → ℕ → Result Written
format_number_i64 output (pos n) base = format_number output n false base
format_number_i64 output (negsuc n) base =
    let negated = format_number output (suc n) true base in
    if suc n == 2 ^ 63 then stop signed_overflow else negated

unfoldable pub format_number_u64 : Written → ℕ → ℕ → Result Written
format_number_u64 output value base = format_number output value false base

-- What a caller passes for `...`.
pub data Argument : Type 0 where
  pointer : ℕ → Argument
  int : ℤ → Argument
  uint : ℕ → Argument
  i64 : ℤ → Argument
  u64 : ℕ → Argument
  string : List ℕ → Argument
  c_string : Option (List ℕ) → Argument

unfoldable pub string_get : List ℕ → ℕ → Result ℕ
string_get s i = do kassert (ltb i (length s)); ok (get_or s i 0)

-- "%(<out of bounds>)", "%x(<out of bounds>)" and "%(<unsupported format specifier>)"
abbrev pub out_of_bounds_text : List ℕ
out_of_bounds_text =
    60 ∷ 111 ∷ 117 ∷ 116 ∷ 32 ∷ 111 ∷ 102 ∷ 32 ∷ 98 ∷ 111 ∷ 117 ∷ 110 ∷ 100 ∷ 115 ∷ 62 ∷ 41 ∷ []

abbrev pub percent_out_of_bounds : List ℕ
percent_out_of_bounds = 37 ∷ 40 ∷ out_of_bounds_text

abbrev pub percent_x_out_of_bounds : List ℕ
percent_x_out_of_bounds = 37 ∷ 120 ∷ 40 ∷ out_of_bounds_text

abbrev pub unsupported_text : List ℕ
unsupported_text =
    37 ∷ 40 ∷ 60 ∷ 117 ∷ 110 ∷ 115 ∷ 117 ∷ 112 ∷ 112 ∷ 111 ∷ 114 ∷ 116 ∷ 101 ∷ 100 ∷ 32 ∷ 102 ∷ 111
    ∷ 114 ∷ 109 ∷ 97 ∷ 116 ∷ 32 ∷ 115 ∷ 112 ∷ 101 ∷ 99 ∷ 105 ∷ 102 ∷ 105 ∷ 101 ∷ 114 ∷ 62 ∷ 41 ∷ []

-- The cases of the switch.
pub data Specifier : Type 0 where
  spec_p : Specifier
  spec_i : Specifier
  spec_u : Specifier
  spec_i64 : Specifier
  spec_u64 : Specifier
  spec_s : Specifier
  spec_c : Specifier
  unsupported : Specifier

abbrev pub specifier : ℕ → Specifier
specifier ch =
    if ch == 112
    then spec_p
    else (if ch == 105
        then spec_i
        else (if ch == 117
            then spec_u
            else (if ch == 73
                then spec_i64
                else (if ch == 85
                    then spec_u64
                    else (if ch == 115
                        then spec_s
                        else (if ch == 83 then spec_c else unsupported))))))

-- One case of the switch takes one argument, of its own type; any other is undefined. `none` in place
-- of the arguments that are left is the early return.
unfoldable pub convert :
    Specifier → ℕ → List Argument → Written → Result (Written × Option (List Argument))
convert spec_p base (pointer ptr ∷ args) output =
    format_number output ptr false (if base == 0 then 16 else base) >>= λ o. ok (o, some args)
convert spec_i base (int n ∷ args) output =
    format_number_i64 output n base >>= λ o. ok (o, some args)
convert spec_u base (uint n ∷ args) output =
    format_number_u64 output n base >>= λ o. ok (o, some args)
convert spec_i64 base (i64 n ∷ args) output =
    format_number_i64 output n base >>= λ o. ok (o, some args)
convert spec_u64 base (u64 n ∷ args) output =
    format_number_u64 output n base >>= λ o. ok (o, some args)
convert spec_s base (string s ∷ args) output = ok (stream_write output s, some args)
convert spec_c base (c_string cstr ∷ args) output =
    string_from_char cstr >>= λ s. ok (stream_write output s, some args)
convert unsupported base args output = ok (stream_write output unsupported_text, none)
convert _ base args output = stop bad_argument

-- The base that 'x' and 'b' ask for; 0 if it is another character.
abbrev pub base_of : ℕ → ℕ
base_of ch = if ch == 120 then 16 else (if ch == 98 then 2 else 0)

-- The loop of `vformat` from `i` on. After a '%' the next character may give the base, and then the
-- one after it is the specifier.
unfoldable pub vformat_from : ℕ → ℕ → List ℕ → List Argument → Written → Result Written
vformat_from zero i format args output = stop out_of_fuel
vformat_from (suc fuel) i format args output = elim (ltb i (length format)) [
  | false ↦ ok output
  | true ↦ string_get format i >>= λ ch. elim (ch == 37) [
    | false ↦ vformat_from fuel (i + 1) format args (stream_write_byte output ch)
    | true ↦ elim (ltb (i + 1) (length format)) [
      | false ↦ vformat_from fuel (i + 2) format args (stream_write output percent_out_of_bounds)
      | true ↦ string_get format (i + 1) >>= λ ch1.
          let base = base_of ch1 in
          let at = if base == 0 then i + 1 else i + 2 in
          elim (ltb at (length format)) [
            | false ↦
                vformat_from fuel (at + 1) format args (stream_write output percent_x_out_of_bounds)
            | true ↦ string_get format at >>= λ ch2.
                convert (specifier ch2) base args output >>= λ (output', left). elim left [
                  | none ↦ ok output'
                  | some args' ↦ vformat_from fuel (at + 1) format args' output'
                ]
          ]
    ]
  ]
]

-- Every round moves on by a character at least.
unfoldable pub vformat : Written → List ℕ → List Argument → Result Written
vformat output format args = vformat_from (suc (length format)) 0 format args output
