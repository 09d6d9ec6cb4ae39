-- ===== src/Memory.antt =====
-- kernel/src/memory.c: the four memory routines that a C compiler relies on.
--
-- Memory is a list of bytes and a pointer an index into it.
pub mod Image
pub mod Moves
pub mod Compares
mod Tests
use drastic.Base.{
  ℕ, zero, suc, ◌+◌, ◌-◌, ◌%◌, ◌≤◌, ◌<◌, Bool, true, false, not, List, ltb, ◌==◌, if◌then◌else◌,
  Result, ok, ◌>>=◌, read, write,
}
use drastic.Base.Int.{ℤ, pos, negsuc}

-- The loop of `memcpy`, from `i` on, with the rounds left.
unfoldable pub copy_up : ℕ → ℕ → ℕ → ℕ → List ℕ → Result (List ℕ)
copy_up zero i dest src memory = ok memory
copy_up (suc left) i dest src memory =
    read memory (src + i) >>= λ byte. write memory (dest + i) byte >>= copy_up left (i + 1) dest src

-- The loop of `memmove` that goes down from `i`.
unfoldable pub copy_down : ℕ → ℕ → ℕ → List ℕ → Result (List ℕ)
copy_down zero dest src memory = ok memory
copy_down (suc i) dest src memory =
    read memory (src + i) >>= λ byte. write memory (dest + i) byte >>= copy_down i dest src

unfoldable pub memcpy : ℕ → ℕ → ℕ → List ℕ → Result (List ℕ)
memcpy dest src n memory = copy_up n 0 dest src memory

-- `(uint8_t)c`
abbrev pub to_byte : ℤ → ℕ
to_byte (pos n) = n % 256
to_byte (negsuc n) = 255 - n % 256

-- The loop of `memset`, from `i` on, with the rounds left.
unfoldable pub fill : ℕ → ℕ → ℕ → ℕ → List ℕ → Result (List ℕ)
fill zero i s byte memory = ok memory
fill (suc left) i s byte memory = write memory (s + i) byte >>= fill left (i + 1) s byte

unfoldable pub memset : ℕ → ℤ → ℕ → List ℕ → Result (List ℕ)
memset s c n memory = fill n 0 s (to_byte c) memory

unfoldable pub memmove : ℕ → ℕ → ℕ → List ℕ → Result (List ℕ)
memmove dest src n memory =
    if ltb dest src
    then copy_up n 0 dest src memory
    else (if ltb src dest then copy_down n dest src memory else ok memory)

-- The loop of `memcmp`, from `i` on, with the rounds left.
unfoldable pub compare_from : ℕ → ℕ → ℕ → ℕ → List ℕ → Result ℤ
compare_from zero i s1 s2 memory = ok (pos 0)
compare_from (suc left) i s1 s2 memory = do
  byte1 ← read memory (s1 + i)
  byte2 ← read memory (s2 + i)
  let rest = compare_from left (i + 1) s1 s2 memory
  if not (byte1 == byte2) then ok (if ltb byte1 byte2 then negsuc 0 else pos 1) else rest

unfoldable pub memcmp : ℕ → ℕ → ℕ → List ℕ → Result ℤ
memcmp s1 s2 n memory = compare_from n 0 s1 s2 memory
