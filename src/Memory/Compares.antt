-- ===== src/Memory/Compares.antt =====
-- `memcmp` against the first difference of two blocks.
use drastic.Base.{
  ℕ, zero, suc, ◌+◌, ◌≤◌, ◌<◌, ◌≡◌, refl, ap₂, ◌⊎◌, inl, inr, not, List, [], ◌∷◌, ltb, ◌==◌, length,
  get_or, read-eq-ok, Result, ok, arith, if◌then◌else◌, Bool-cases,
}
use drastic.Base.Int.{ℤ, pos, negsuc}
use drastic.Memory.{compare_from, memcmp}

-- `n` bytes from `s + i` on.
abbrev pub block : List ℕ → ℕ → ℕ → ℕ → List ℕ
block memory s i zero = []
block memory s i (suc n) = get_or memory (s + i) 0 ∷ block memory s (i + 1) n

-- The blocks agree on their first `k` bytes and differ in the next; the sign says which is smaller.
pub record DiffersAt (memory : List ℕ) (s1 s2 i n : ℕ) (out : Result ℤ) : Type 0 where
  pub k : ℕ
  pub k_lt : k < n
  pub same_before : block memory s1 i k ≡ block memory s2 i k
  pub by_sign :
      ((get_or memory (s1 + (i + k)) 0 < get_or memory (s2 + (i + k)) 0) × (out ≡ ok (negsuc 0)))
      ⊎ ((get_or memory (s2 + (i + k)) 0 < get_or memory (s1 + (i + k)) 0) × (out ≡ ok (pos 1)))

-- The blocks are equal and the result is 0, or it is the sign of their first difference.
abbrev pub Compared : List ℕ → ℕ → ℕ → ℕ → ℕ → Result ℤ → Type 0
Compared memory s1 s2 i n out =
    ((block memory s1 i n ≡ block memory s2 i n) × (out ≡ ok (pos 0)))
    ⊎ DiffersAt memory s1 s2 i n out

module _ (memory : List ℕ) (s1 s2 : ℕ) where
  -- One equal byte in front.
  Compared-suc :
      (i n : ℕ) (out : Result ℤ)
      → get_or memory (s1 + i) 0 ≡ get_or memory (s2 + i) 0
      → Compared memory s1 s2 (i + 1) n out
      → Compared memory s1 s2 i (suc n) out
  Compared-suc i n out same (inl (e, r)) = inl (ap₂ ◌∷◌ same e, r)
  Compared-suc i n out same (inr d) =
      let further : i + suc d.k ≡ i + 1 + d.k = omega arith in
      inr (record {
        k = suc d.k;
        k_lt = omega (arith, d.k_lt);
        same_before = ap₂ ◌∷◌ same d.same_before;
        by_sign = rw further d.by_sign;
      })

  differs_here :
      (i n : ℕ) (out : Result ℤ)
      → ((get_or memory (s1 + i) 0 < get_or memory (s2 + i) 0) × (out ≡ ok (negsuc 0)))
        ⊎ ((get_or memory (s2 + i) 0 < get_or memory (s1 + i) 0) × (out ≡ ok (pos 1)))
      → Compared memory s1 s2 i (suc n) out
  differs_here i n out sign =
      let here : i + 0 ≡ i = omega arith in
      inr (record { k = 0; k_lt = omega arith; same_before = refl; by_sign = rw here sign })

  -- A round of the loop on two bytes.
  abbrev round : ℕ → ℕ → Result ℤ → Result ℤ
  round byte1 byte2 rest =
      if not (byte1 == byte2) then ok (if ltb byte1 byte2 then negsuc 0 else pos 1) else rest

  round-equal : (b1 b2 : ℕ) (rest : Result ℤ) → b1 ≡ b2 → round b1 b2 rest ≡ rest
  round-equal b1 b2 rest e = ground arith

  round-below : (b1 b2 : ℕ) (rest : Result ℤ) → b1 < b2 → round b1 b2 rest ≡ ok (negsuc 0)
  round-below b1 b2 rest h = ground arith

  round-above : (b1 b2 : ℕ) (rest : Result ℤ) → b2 < b1 → round b1 b2 rest ≡ ok (pos 1)
  round-above b1 b2 rest h = ground arith

  order : (b1 b2 : ℕ) → (b1 ≡ b2) ⊎ (b1 < b2) ⊎ (b2 < b1)
  order b1 b2 = elim (Bool-cases (ltb b1 b2)) [
    | inl e ↦ inr (inl (ground arith))
    | inr e ↦ elim (Bool-cases (ltb b2 b1)) [
      | inl e' ↦ inr (inr (ground arith))
      | inr e' ↦ inl (ground (arith, e, e'))
    ]
  ]

  round-Compared :
      (left i : ℕ) (rest : Result ℤ)
      → (get_or memory (s1 + i) 0 ≡ get_or memory (s2 + i) 0)
        ⊎ (get_or memory (s1 + i) 0 < get_or memory (s2 + i) 0)
        ⊎ (get_or memory (s2 + i) 0 < get_or memory (s1 + i) 0)
      → Compared memory s1 s2 (i + 1) left rest
      → Compared memory s1 s2 i
          (suc left)
          (round (get_or memory (s1 + i) 0) (get_or memory (s2 + i) 0) rest)
  round-Compared left i rest (inl same) c =
      rw (round-equal _ _ rest same) (Compared-suc i left rest same c)
  round-Compared left i rest (inr (inl below)) c =
      differs_here i left _ (inl (below, round-below _ _ rest below))
  round-Compared left i rest (inr (inr above)) c =
      differs_here i left _ (inr (above, round-above _ _ rest above))

  module _ (n : ℕ) (fits1 : s1 + n ≤ length memory) (fits2 : s2 + n ≤ length memory) where
    compare_from-Compared :
        (left i : ℕ)
        → i + left ≡ n
        → Compared memory s1 s2 i left (compare_from left i s1 s2 memory)
    unfolding compare_from
    compare_from-Compared zero i e = inl (refl, refl)
    compare_from-Compared (suc left) i e =
        rw
          (
            read-eq-ok memory (s1 + i) 0 (omega (arith, e)),
            read-eq-ok memory (s2 + i) 0 (omega (arith, e)),
          )
          (round-Compared left i _ (order (get_or memory (s1 + i) 0) (get_or memory (s2 + i) 0))
            (compare_from-Compared left (i + 1) (omega (arith, e))))

    -- If both blocks lie in memory, memcmp returns 0 and the blocks are equal, or it returns -1 or
    -- 1 after the first byte in which they differ, by which of the two bytes is smaller.
    pub memcmp-Compared : Compared memory s1 s2 0 n (memcmp s1 s2 n memory)
    unfolding memcmp
    memcmp-Compared = compare_from-Compared n 0 (omega arith)
