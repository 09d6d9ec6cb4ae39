-- ===== src/Bytes.antt =====
-- kernel/src/base/base_bytes.c and base_string.c: views of memory with a checked length.
--
-- Memory is a list of bytes and a pointer an index into it. The indices and lengths are `Int` in the
-- code and never negative in it.
pub mod Reverse
pub mod Prefix
mod Tests
use drastic.Base.{
  ℕ, zero, suc, ◌+◌, ◌-◌, ◌≤◌, ◌<◌, ◌&&◌, Bool, Option, none, some, List, [], ◌∷◌, ltb, leb, ◌==◌,
  if◌then◌else◌, Result, ok, stop, out_of_bounds, out_of_fuel, kassert, ◌>>=◌, ◌>>◌, read, write,
  take, drop,
}

-- `Bytes` and `String`
pub record Bytes : Type 0 where
  pub ptr : ℕ
  pub len : ℕ

unfoldable pub bytes_get : Bytes → ℕ → List ℕ → Result ℕ
bytes_get b i memory = do kassert (ltb i b.len); read memory (b.ptr + i)

unfoldable pub bytes_set : Bytes → ℕ → ℕ → List ℕ → Result (List ℕ)
bytes_set b i byte memory = do kassert (ltb i b.len); write memory (b.ptr + i) byte

unfoldable pub bytes_slice : Bytes → ℕ → ℕ → Result Bytes
bytes_slice b from to = do
  kassert (leb from to && leb to b.len)
  ok (record { ptr = b.ptr + from; len = to - from })

-- The loop of `bytes_reverse` on the pointers `start` and `end`.
unfoldable pub swap_inward : ℕ → ℕ → ℕ → List ℕ → Result (List ℕ)
swap_inward zero start end memory = stop out_of_fuel
swap_inward (suc fuel) start end memory =
    let swapped = (do
      temp ← read memory start
      byte ← read memory end
      memory1 ← write memory start byte
      memory2 ← write memory1 end temp
      swap_inward fuel (start + 1) (end - 1) memory2) in
    if ltb start end then swapped else ok memory

-- Each round brings the pointers closer by two.
unfoldable pub bytes_reverse : Bytes → List ℕ → Result (List ℕ)
bytes_reverse b memory =
    if leb b.len 1 then ok memory else swap_inward b.len b.ptr (b.ptr + b.len - 1) memory

-- The bytes that a view shows.
abbrev pub view : Bytes → List ℕ → List ℕ
view b memory = take b.len (drop b.ptr memory)

-- The loop of `string_from_char`: how far the terminating zero is. The list is memory from the
-- pointer on.
unfoldable pub count_to_zero : List ℕ → Result ℕ
count_to_zero [] = stop out_of_bounds
count_to_zero (ch ∷ memory) =
    let rest = count_to_zero memory in if ch == 0 then ok 0 else (rest >>= λ len. ok (suc len))

-- `none` is the null pointer; the result is the bytes of the string.
unfoldable pub string_from_char : Option (List ℕ) → Result (List ℕ)
string_from_char none = ok []
string_from_char (some memory) = count_to_zero memory >>= λ len. ok (take len memory)
