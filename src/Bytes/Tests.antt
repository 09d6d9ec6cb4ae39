-- ===== src/Bytes/Tests.antt =====
-- Runs on a few bytes.
use drastic.Base.{ℕ, ◌≡◌, refl, List, [], ◌∷◌, some, none, ok, stop, assertion_failed, arith}
use drastic.Memory.Image.{Leaves}
use drastic.Bytes.{Bytes, bytes_get, swap_inward, bytes_reverse, count_to_zero, string_from_char}
use drastic.Bytes.Reverse.{reversed, bytes_reverse-Leaves}

abbrev memory : List ℕ
memory = 1 ∷ 2 ∷ 3 ∷ 4 ∷ 5 ∷ 0 ∷ []

abbrev middle : Bytes
middle = record { ptr = 1; len = 4 }

turned : bytes_reverse middle memory ≡ ok (1 ∷ 5 ∷ 4 ∷ 3 ∷ 2 ∷ 0 ∷ [])
unfolding bytes_reverse swap_inward
turned = refl

outside : bytes_get middle 4 memory ≡ stop assertion_failed
unfolding bytes_get
outside = refl

measured : string_from_char (some memory) ≡ ok (1 ∷ 2 ∷ 3 ∷ 4 ∷ 5 ∷ [])
unfolding string_from_char count_to_zero
measured = refl

nothing : string_from_char none ≡ ok []
unfolding string_from_char
nothing = refl

bytes_reverse-Leaves_example : Leaves memory (reversed memory middle) (bytes_reverse middle memory)
bytes_reverse-Leaves_example = bytes_reverse-Leaves memory middle (omega arith)
