-- ===== src/Format/Tests.antt =====
-- Numbers and formats on concrete inputs.
use drastic.Base.{◌^◌, ◌-◌, ◌≡◌, refl, [], ◌∷◌, true, false, ok, stop, signed_overflow, arith}
use drastic.Base.Int.{negsuc}
use drastic.Bytes.{bytes_set, bytes_slice, swap_inward, bytes_reverse}
use drastic.Format.{
  uint, string, format_digit, put_digits, put_zeros, format_number, format_number_i64, int,
  string_get, convert, vformat_from, vformat,
}
use drastic.Format.Pieces.{plain, pieces, show}
use drastic.Format.Meaning.{vformat-show}
use drastic.Format.Number.{Prints, format_number-Prints}

-- "1230"
decimal : format_number [] 1230 false 10 ≡ ok ((49 ∷ 50 ∷ 51 ∷ 48 ∷ []) ∷ [])
unfolding format_number put_digits put_zeros format_digit bytes_set bytes_slice bytes_reverse
    swap_inward
decimal = refl

-- "0x" and "000000000000BEEF"
hexadecimal :
    format_number [] 0xbeef false 16
    ≡ ok (
        (48 ∷ 120 ∷ [])
        ∷ (48 ∷ 48 ∷ 48 ∷ 48 ∷ 48 ∷ 48 ∷ 48 ∷ 48 ∷ 48 ∷ 48 ∷ 48 ∷ 48 ∷ 66 ∷ 69 ∷ 69 ∷ 70 ∷ [])
        ∷ [])
unfolding format_number put_digits put_zeros format_digit bytes_set bytes_slice bytes_reverse
    swap_inward
hexadecimal = refl

-- "-7" by "%i", then "%" at the end
with_arguments :
    vformat [] (37 ∷ 105 ∷ 33 ∷ []) (int (negsuc 6) ∷ []) ≡ ok ((45 ∷ 55 ∷ []) ∷ (33 ∷ []) ∷ [])
unfolding vformat vformat_from string_get convert format_number_i64 format_number put_digits
    put_zeros format_digit bytes_set bytes_slice bytes_reverse swap_inward
with_arguments = refl

least : format_number_i64 [] (negsuc (2 ^ 63 - 1)) 10 ≡ stop signed_overflow
unfolding format_number_i64
least = refl

format_number-Prints_example : Prints [] 48879 true 16 (format_number [] 48879 true 16)
format_number-Prints_example =
    format_number-Prints [] 48879 true 16 (omega arith) (omega arith) (omega arith)

-- "%xu%s" with a number and "hi".
vformat-show_example :
    vformat [] (37 ∷ 120 ∷ 117 ∷ 37 ∷ 115 ∷ []) (uint 48879 ∷ string (104 ∷ 105 ∷ []) ∷ [])
    ≡ show
        (pieces plain (37 ∷ 120 ∷ 117 ∷ 37 ∷ 115 ∷ []))
        (uint 48879 ∷ string (104 ∷ 105 ∷ []) ∷ [])
        []
vformat-show_example =
    vformat-show [] (37 ∷ 120 ∷ 117 ∷ 37 ∷ 115 ∷ []) (uint 48879 ∷ string (104 ∷ 105 ∷ []) ∷ [])

-- "a%" ends in the middle of a directive.
cut_short_format :
    show (pieces plain (97 ∷ 37 ∷ [])) [] []
    ≡ ok (
        (97 ∷ [])
        ∷ (37 ∷ 40 ∷ 60 ∷ 111 ∷ 117 ∷ 116 ∷ 32 ∷ 111 ∷ 102 ∷ 32 ∷ 98 ∷ 111 ∷ 117 ∷ 110 ∷ 100 ∷ 115
            ∷ 62 ∷ 41 ∷ [])
        ∷ [])
cut_short_format = refl
