-- ===== src/Memory/Moves.antt =====
-- `memcpy`, `memmove` and `memset` against the bytes that they are to leave.
use drastic.Base.{
  ℕ, zero, suc, ◌+◌, ◌-◌, ◌*◌, ◌/◌, Result, ◌≤◌, ◌<◌, ◌≡◌, refl, ap, sym, ◌∙◌, ◌⊎◌, inl, inr, ◌&&◌,
  List, ltb, leb, length, get_or, read-eq-ok, write-eq-ok, arith, if◌then◌else◌, Bool-cases, ltb→lt,
  true, false,
}
use drastic.Base.Int.{ℤ, pos, negsuc}
use drastic.Memory.Image.{Leaves, Holds, Holds-set}
use drastic.Memory.{copy_up, copy_down, fill, memcpy, memmove, memset, to_byte}

-- Byte `j` when the bytes `from` to `to - 1` of the block at `src` have been copied to `dest`.
abbrev pub moved : List ℕ → ℕ → ℕ → ℕ → ℕ → ℕ → ℕ
moved memory dest src from to j =
    if leb (dest + from) j && ltb j (dest + to)
    then get_or memory (src + (j - dest)) 0
    else get_or memory j 0

module _ (memory : List ℕ) (dest src from to : ℕ) where
  moved-in :
      (k : ℕ)
      → from ≤ k
      → k < to
      → moved memory dest src from to (dest + k) ≡ get_or memory (src + k) 0
  moved-in k h h' =
      let inside : (leb (dest + from) (dest + k) && ltb (dest + k) (dest + to)) ≡ true =
        ground arith in
      let offset : dest + k - dest ≡ k = omega arith in rw (inside, offset) refl

  moved-out :
      (j : ℕ)
      → (j < dest + from) ⊎ (dest + to ≤ j)
      → moved memory dest src from to j ≡ get_or memory j 0
  moved-out j h =
      let outside : (leb (dest + from) j && ltb j (dest + to)) ≡ false = ground arith in
      rw outside refl

-- A block that is moved to where it is.
moved_onto_itself :
    (memory : List ℕ) (dest src n : ℕ)
    → src ≡ dest
    → (j : ℕ) → get_or memory j 0 ≡ moved memory dest src 0 n j
moved_onto_itself memory dest src n same j =
    elim (Bool-cases (leb (dest + 0) j && ltb j (dest + n))) [
      | inr outside ↦ rw outside refl
      | inl inside ↦
          let back : src + (j - dest) ≡ j = ground (arith, inside, same) in rw (inside, back) refl
    ]

-- Blocks that contain `j` alike move it alike.
moved-same :
    (memory : List ℕ) (dest src from to from' to' j : ℕ)
    → (leb (dest + from) j && ltb j (dest + to)) ≡ (leb (dest + from') j && ltb j (dest + to'))
    → moved memory dest src from to j ≡ moved memory dest src from' to' j
moved-same memory dest src from to from' to' j e =
    ap (λ b. if b then get_or memory (src + (j - dest)) 0 else get_or memory j 0) e

module _ (before : List ℕ) (dest src n : ℕ) (dest_fits : dest + n ≤ length before)
    (src_fits : src + n ≤ length before) where
  unmoved :
      (i : ℕ)
      → (dest ≤ src) ⊎ (src + n ≤ dest)
      → i < n
      → moved before dest src 0 i (src + i) ≡ get_or before (src + i) 0
  unmoved i safe h = moved-out before dest src 0 i (src + i) (by_order safe)
    where
      by_order : (dest ≤ src) ⊎ (src + n ≤ dest) → (src + i < dest + 0) ⊎ (dest + i ≤ src + i)
      by_order (inl a) = inr (omega arith)
      by_order (inr b) = inl (omega arith)

  -- Going up, the byte that is read next is still as it was.
  copy_up-Leaves :
      (left i : ℕ) (now : List ℕ)
      → (dest ≤ src) ⊎ (src + n ≤ dest)
      → i + left ≡ n
      → Holds before (moved before dest src 0 i) now
      → Leaves before (moved before dest src 0 n) (copy_up left i dest src now)
  unfolding copy_up
  copy_up-Leaves zero i now safe e h = record {
    after = now;
    returns = refl;
    same_length = h.same_length;
    all_bytes = λ j. h.all_bytes j ∙ ap (λ k. moved before dest src 0 k j) (omega (arith, e));
  }
  copy_up-Leaves (suc left) i now safe e h =
      rw
        (
          read-eq-ok now (src + i) 0 (omega (arith, h.same_length)),
          write-eq-ok now (dest + i) (get_or now (src + i) 0) (omega (arith, h.same_length)),
        )
        (copy_up-Leaves left (i + 1) _ safe (omega (arith, e)) (
          Holds-set before now _ _ (dest + i) _ (omega (arith, e)) h
            (moved-in before dest src 0 (i + 1) i (omega arith) (omega arith)
              ∙ sym (h.all_bytes (src + i) ∙ unmoved i safe (omega (arith, e))))
            λ j ne. moved-same before dest src 0 (i + 1) 0 i j (ground arith)))

  -- Going down too, if the destination lies above.
  copy_down-Leaves :
      (i : ℕ) (now : List ℕ)
      → src ≤ dest
      → i ≤ n
      → Holds before (moved before dest src i n) now
      → Leaves before (moved before dest src 0 n) (copy_down i dest src now)
  unfolding copy_down
  copy_down-Leaves zero now above e h = record {
    after = now;
    returns = refl;
    same_length = h.same_length;
    all_bytes = h.all_bytes;
  }
  copy_down-Leaves (suc i) now above e h =
      rw
        (
          read-eq-ok now (src + i) 0 (omega (arith, h.same_length)),
          write-eq-ok now (dest + i) (get_or now (src + i) 0) (omega (arith, h.same_length)),
        )
        (copy_down-Leaves i _ above (omega arith) (
          Holds-set before now _ _ (dest + i) _ (omega arith) h
            (moved-in before dest src i n i (omega arith) (omega arith)
              ∙ sym (
                  h.all_bytes (src + i)
                  ∙ moved-out before dest src (suc i) n (src + i) (inl (omega arith))))
            λ j ne. moved-same before dest src i n (suc i) n j (ground arith)))

  Holds-nothing : (k : ℕ) → Holds before (moved before dest src k k) before
  Holds-nothing k = record {
    same_length = refl;
    all_bytes = λ j. sym (moved-out before dest src k k j (below_or_above j));
  }
    where
      below_or_above : (j : ℕ) → (j < dest + k) ⊎ (dest + k ≤ j)
      below_or_above j = elim (Bool-cases (ltb j (dest + k))) [
        | inl e ↦ inl (ltb→lt j (dest + k) e)
        | inr e ↦ inr (ground arith)
      ]

  -- If both blocks lie in memory and do not overlap, memcpy returns and leaves the bytes of the
  -- source block at the destination, and every other byte as it was.
  pub memcpy-Leaves :
      (dest + n ≤ src) ⊎ (src + n ≤ dest)
      → Leaves before (moved before dest src 0 n) (memcpy dest src n before)
  unfolding memcpy
  memcpy-Leaves (inl a) =
      copy_up-Leaves n 0 before (inl (omega arith)) (omega arith) (Holds-nothing 0)
  memcpy-Leaves (inr b) = copy_up-Leaves n 0 before (inr b) (omega arith) (Holds-nothing 0)

  -- If both blocks lie in memory, overlapping or not, memmove returns and leaves the bytes of the
  -- source block, as they were, at the destination, and every other byte as it was.
  pub memmove-Leaves : Leaves before (moved before dest src 0 n) (memmove dest src n before)
  unfolding memmove
  memmove-Leaves = elim (Bool-cases (ltb dest src)) [
    | inl up ↦
        rw up (copy_up-Leaves n 0 before (inl (ground arith)) (omega arith) (Holds-nothing 0))
    | inr not_up ↦ elim (Bool-cases (ltb src dest)) [
      | inl down ↦
          rw (not_up, down)
            (copy_down-Leaves n before (ground arith) (omega arith) (Holds-nothing n))
      | inr not_down ↦
          let same : dest ≡ src = ground (arith, not_up, not_down) in
          rw (not_up, not_down)
            (record {
              after = before;
              returns = refl;
              same_length = refl;
              all_bytes = moved_onto_itself before dest src n (sym same);
            })
    ]
  ]

-- Byte `j` when `n` bytes from `s` on are `byte`.
abbrev pub filled : List ℕ → ℕ → ℕ → ℕ → ℕ → ℕ
filled memory s n byte j = if leb s j && ltb j (s + n) then byte else get_or memory j 0

module _ (before : List ℕ) (s n byte : ℕ) (fits : s + n ≤ length before) where
  filled-same :
      (k k' j : ℕ)
      → (leb s j && ltb j (s + k)) ≡ (leb s j && ltb j (s + k'))
      → filled before s k byte j ≡ filled before s k' byte j
  filled-same k k' j e = ap (λ b. if b then byte else get_or before j 0) e

  filled-in : (i : ℕ) → filled before s (i + 1) byte (s + i) ≡ byte
  filled-in i = ground arith

  filled_nothing : (j : ℕ) → get_or before j 0 ≡ filled before s 0 byte j
  filled_nothing j = ground arith

  fill-Leaves :
      (left i : ℕ) (now : List ℕ)
      → i + left ≡ n
      → Holds before (filled before s i byte) now
      → Leaves before (filled before s n byte) (fill left i s byte now)
  unfolding fill
  fill-Leaves zero i now e h = record {
    after = now;
    returns = refl;
    same_length = h.same_length;
    all_bytes = λ j. h.all_bytes j ∙ ap (λ k. filled before s k byte j) (omega (arith, e));
  }
  fill-Leaves (suc left) i now e h =
      rw (write-eq-ok now (s + i) byte (omega (arith, h.same_length, e))) (
        fill-Leaves left (i + 1) _ (omega (arith, e)) (
          Holds-set before now _ _ (s + i) byte (omega (arith, e)) h (filled-in i)
            λ j ne. filled-same (i + 1) i j (ground arith)))

-- An integer and a number that differ by a multiple of 256.
abbrev pub IsCongruent : ℤ → ℕ → Type 0
IsCongruent (pos n) byte = (k : ℕ) × (n ≡ byte + k * 256)
IsCongruent (negsuc n) byte = (k : ℕ) × (suc n + byte ≡ k * 256)

-- The call left one byte in the whole block, the one that is congruent to `c`.
pub record Sets (before : List ℕ) (s n : ℕ) (c : ℤ) (out : Result (List ℕ)) : Type 0 where
  pub byte : ℕ
  pub is_byte : byte < 256
  pub same : IsCongruent c byte
  pub leaves : Leaves before (filled before s n byte) out

to_byte-lt : (c : ℤ) → to_byte c < 256
to_byte-lt (pos n) = omega arith
to_byte-lt (negsuc n) = omega arith

to_byte-IsCongruent : (c : ℤ) → IsCongruent c (to_byte c)
to_byte-IsCongruent (pos n) = (n / 256, omega arith)
to_byte-IsCongruent (negsuc n) = (n / 256 + 1, omega arith)

-- If the block lies in memory, memset returns and leaves in every byte of the block the byte,
-- below 256, that differs from its argument, which may be negative, by a multiple of 256, and
-- every other byte as it was.
pub memset-Leaves :
    (before : List ℕ) (s n : ℕ) (c : ℤ)
    → s + n ≤ length before
    → Sets before s n c (memset s c n before)
unfolding memset
memset-Leaves before s n c fits = record {
  byte = to_byte c;
  is_byte = to_byte-lt c;
  same = to_byte-IsCongruent c;
  leaves =
      fill-Leaves before s n (to_byte c) fits n 0 before (omega arith)
        (record { same_length = refl; all_bytes = filled_nothing before s n (to_byte c) fits });
}
