-- ===== src/Memory/Tests.antt =====
-- Runs of the memory routines on a few bytes.
use drastic.Base.{ℕ, ◌≡◌, refl, List, [], ◌∷◌, ok, inl, arith}
use drastic.Base.Int.{negsuc}
use drastic.Memory.{copy_up, copy_down, fill, compare_from, memcpy, memmove, memset, memcmp}
use drastic.Memory.Image.{Leaves}
use drastic.Memory.Moves.{moved, Sets, memcpy-Leaves, memmove-Leaves, memset-Leaves}
use drastic.Memory.Compares.{Compared, memcmp-Compared}

abbrev bytes : List ℕ
bytes = 1 ∷ 2 ∷ 3 ∷ 4 ∷ 5 ∷ 6 ∷ []

-- Overlapping blocks, in both directions.
move_up : memmove 2 0 4 bytes ≡ ok (1 ∷ 2 ∷ 1 ∷ 2 ∷ 3 ∷ 4 ∷ [])
unfolding memmove copy_up copy_down
move_up = refl

move_down : memmove 0 2 4 bytes ≡ ok (3 ∷ 4 ∷ 5 ∷ 6 ∷ 5 ∷ 6 ∷ [])
unfolding memmove copy_up copy_down
move_down = refl

minus_one : memset 1 (negsuc 0) 2 bytes ≡ ok (1 ∷ 255 ∷ 255 ∷ 4 ∷ 5 ∷ 6 ∷ [])
unfolding memset fill
minus_one = refl

smaller : memcmp 0 1 3 bytes ≡ ok (negsuc 0)
unfolding memcmp compare_from
smaller = refl

memcpy-Leaves_example : Leaves bytes (moved bytes 0 3 0 3) (memcpy 0 3 3 bytes)
memcpy-Leaves_example = memcpy-Leaves bytes 0 3 3 (omega arith) (omega arith) (inl (omega arith))

memmove-Leaves_example : Leaves bytes (moved bytes 2 0 0 4) (memmove 2 0 4 bytes)
memmove-Leaves_example = memmove-Leaves bytes 2 0 4 (omega arith) (omega arith)

memset-Leaves_example : Sets bytes 1 2 (negsuc 0) (memset 1 (negsuc 0) 2 bytes)
memset-Leaves_example = memset-Leaves bytes 1 2 (negsuc 0) (omega arith)

memcmp-Compared_example : Compared bytes 0 1 0 3 (memcmp 0 1 3 bytes)
memcmp-Compared_example = memcmp-Compared bytes 0 1 3 (omega arith) (omega arith)
