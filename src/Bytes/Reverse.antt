-- ===== src/Bytes/Reverse.antt =====
-- `bytes_reverse` reverses what the view shows and touches nothing else.
use native.Mathlib.Decide.{ℕ_discrete}
use drastic.Base.{
  ℕ, zero, suc, ◌+◌, ◌-◌, ◌*◌, ◌≤◌, ◌<◌, ◌≡◌, ◌≢◌, refl, ap, sym, ◌∙◌, ◌⊎◌, inl, inr, ◌&&◌, ◌||◌,
  List, ltb, leb, ◌==◌, length, get_or, set, length-set, read-eq-ok, write-eq-ok, arith,
  if◌then◌else◌, Bool-cases, true, false, ltb→lt, leb→le,
}
use drastic.Memory.Image.{Leaves, Holds, Holds-set}
use drastic.Bytes.{Bytes, swap_inward, bytes_reverse}

-- Byte `j` when the block from `from` to `to - 1` is mirrored outside `start` to `end`; the mirror image
-- of a byte is at `sum - j`.
abbrev mirrored : List ℕ → ℕ → ℕ → ℕ → ℕ → ℕ → ℕ → ℕ
mirrored memory from to sum start end j =
    if (leb from j && ltb j start) || (ltb end j && ltb j to)
    then get_or memory (sum - j) 0
    else get_or memory j 0

module _ (memory : List ℕ) (from to sum start end : ℕ) where
  mirrored-in :
      (j k : ℕ)
      → ((from ≤ j) × (j < start)) ⊎ ((end < j) × (j < to))
      → j + k ≡ sum
      → mirrored memory from to sum start end j ≡ get_or memory k 0
  mirrored-in j k h e =
      let inside : ((leb from j && ltb j start) || (ltb end j && ltb j to)) ≡ true = by_side h in
      let image : sum - j ≡ k = omega arith in rw (inside, image) refl
    where
      by_side :
          ((from ≤ j) × (j < start)) ⊎ ((end < j) × (j < to))
          → ((leb from j && ltb j start) || (ltb end j && ltb j to)) ≡ true
      by_side (inl (a, b)) = ground (arith, a, b)
      by_side (inr (a, b)) = ground (arith, a, b)

  mirrored-out :
      (j : ℕ) → start ≤ j → j ≤ end → mirrored memory from to sum start end j ≡ get_or memory j 0
  mirrored-out j h h' =
      let outside : ((leb from j && ltb j start) || (ltb end j && ltb j to)) ≡ false =
        ground arith in
      rw outside refl

mirrored-same :
    (memory : List ℕ) (from to sum start end start' end' j : ℕ)
    → ((leb from j && ltb j start) || (ltb end j && ltb j to))
      ≡ ((leb from j && ltb j start') || (ltb end' j && ltb j to))
    → mirrored memory from to sum start end j ≡ mirrored memory from to sum start' end' j
mirrored-same memory from to sum start end start' end' j e =
    ap (λ b. if b then get_or memory (sum - j) 0 else get_or memory j 0) e

module _ (before : List ℕ) (from to sum : ℕ) (fits : to ≤ length before)
    (same_sum : from + to ≡ suc sum) where
  module _ (start end : ℕ) (now : List ℕ) (e : start + end ≡ sum) (hs : from ≤ start)
      (he : end < to) (apart : start < end)
      (h : Holds before (mirrored before from to sum start end) now) where
    swapped : List ℕ
    swapped = set (set now start (get_or now end 0)) end (get_or now start 0)

    abbrev half_swapped : ℕ → ℕ
    half_swapped j =
        if j == start then get_or now end 0 else mirrored before from to sum start end j

    now_start : get_or now start 0 ≡ get_or before start 0
    now_start =
        h.all_bytes start
        ∙ mirrored-out before from to sum start end start (omega arith) (omega arith)

    now_end : get_or now end 0 ≡ get_or before end 0
    now_end =
        h.all_bytes end ∙ mirrored-out before from to sum start end end (omega arith) (omega arith)

    half_swapped_same :
        (j : ℕ) → end ≢ j → mirrored before from to sum (start + 1) (end - 1) j ≡ half_swapped j
    half_swapped_same j ne = elim (ℕ_discrete j start) [
      | yes same ↦
          let b : (j == start) ≡ true = ground arith in
          rw b (
            mirrored-in before from to sum (start + 1) (end - 1) j end
              (inl (omega arith, omega arith)) (omega arith)
            ∙ sym now_end)
      | no other ↦
          let b : (j == start) ≡ false = ground arith in
          rw b (mirrored-same before from to sum (start + 1) (end - 1) start end j (ground arith))
    ]

    swapped-Holds : Holds before (mirrored before from to sum (start + 1) (end - 1)) swapped
    unfolding swapped
    swapped-Holds =
        Holds-set before _ half_swapped _ end _ (omega arith)
          (Holds-set before now _ half_swapped start _ (omega arith) h (ground arith)
            λ j ne. ground arith)
          (mirrored-in before from to sum (start + 1) (end - 1) end start
              (inr (omega arith, omega arith)) (omega arith)
            ∙ sym now_start)
          half_swapped_same

  -- When the pointers have met, at most the middle byte is left, its own image.
  closed_same :
      (start end j : ℕ)
      → start + end ≡ sum
      → from ≤ start
      → end < to
      → start ≤ suc end
      → end ≤ start
      → mirrored before from to sum start end j ≡ mirrored before from to sum to to j
  closed_same start end j e hs he hc met = elim (Bool-cases (leb start j && leb j end)) [
    | inl middle ↦
        let (a, b) : (start ≤ j) × (j ≤ end) = ground (arith, middle) in
        mirrored-out before from to sum start end j a b
        ∙ sym (
            mirrored-in before from to sum to to j j (inl (omega arith, omega arith)) (omega arith))
    | inr side ↦ mirrored-same before from to sum start end to to j (ground arith)
  ]

  swap_inward-Leaves :
      (fuel start end : ℕ) (now : List ℕ)
      → start + end ≡ sum
      → from ≤ start
      → end < to
      → start ≤ suc end
      → suc end < start + 2 * fuel
      → Holds before (mirrored before from to sum start end) now
      → Leaves before (mirrored before from to sum to to) (swap_inward fuel start end now)
  unfolding swap_inward swapped
  swap_inward-Leaves zero start end now e hs he hc hf h = absurd (omega arith)
  swap_inward-Leaves (suc fuel) start end now e hs he hc hf h = elim (Bool-cases (ltb start end)) [
    | inr closed ↦ rw closed (record {
      after = now;
      returns = refl;
      same_length = h.same_length;
      all_bytes = λ j. h.all_bytes j ∙ closed_same start end j e hs he hc (ground (arith, closed));
    })
    | inl apart ↦ rw apart (
        let lt = ltb→lt start end apart in
        rw
          (
            read-eq-ok now start 0 (omega (arith, h.same_length)),
            read-eq-ok now end 0 (omega (arith, h.same_length)),
            write-eq-ok now start (get_or now end 0) (omega (arith, h.same_length)),
            write-eq-ok (set now start (get_or now end 0)) end (get_or now start 0)
                (omega (arith, h.same_length, length-set now start (get_or now end 0))),
          )
          (swap_inward-Leaves fuel (start + 1) (end - 1) (swapped start end now e hs he lt h)
            (omega arith) (omega arith) (omega arith) (omega arith) (omega arith)
            (swapped-Holds start end now e hs he lt h)))
  ]

-- Byte `j` after the view was reversed.
abbrev pub reversed : List ℕ → Bytes → ℕ → ℕ
reversed memory b j =
    if leb b.ptr j && ltb j (b.ptr + b.len)
    then get_or memory (b.ptr + (b.len - 1) + b.ptr - j) 0
    else get_or memory j 0

mirrored-reversed :
    (memory : List ℕ) (b : Bytes) (j : ℕ)
    → mirrored memory b.ptr
        (b.ptr + b.len)
        (b.ptr + (b.len - 1) + b.ptr)
        (b.ptr + b.len)
        (b.ptr + b.len)
        j
      ≡ reversed memory b j
mirrored-reversed memory b j =
    ap (λ c. if c then get_or memory (b.ptr + (b.len - 1) + b.ptr - j) 0 else get_or memory j 0)
      same
  where
    same :
        ((leb b.ptr j && ltb j (b.ptr + b.len)) || (ltb (b.ptr + b.len) j && ltb j (b.ptr + b.len)))
        ≡ (leb b.ptr j && ltb j (b.ptr + b.len))
    same = ground arith

reversed_short :
    (memory : List ℕ) (b : Bytes) (j : ℕ) → b.len ≤ 1 → get_or memory j 0 ≡ reversed memory b j
reversed_short memory b j short = elim (Bool-cases (leb b.ptr j && ltb j (b.ptr + b.len))) [
  | inr outside ↦ rw outside refl
  | inl inside ↦
      let image : b.ptr + (b.len - 1) + b.ptr - j ≡ j = ground (arith, inside, short) in
      rw (inside, image) refl
]

start_Holds :
    (memory : List ℕ) (b : Bytes)
    → Holds memory
        (mirrored memory b.ptr
          (b.ptr + b.len)
          (b.ptr + (b.len - 1) + b.ptr)
          b.ptr
          (b.ptr + b.len - 1))
        memory
start_Holds memory b = record {
  same_length = refl;
  all_bytes = λ j. sym (
      ap (λ c. if c then get_or memory (b.ptr + (b.len - 1) + b.ptr - j) 0 else get_or memory j 0)
        (nothing j));
}
  where
    nothing :
        (j : ℕ)
        → ((leb b.ptr j && ltb j b.ptr) || (ltb (b.ptr + b.len - 1) j && ltb j (b.ptr + b.len)))
          ≡ false
    nothing j = ground arith

-- For a view that lies in memory, bytes_reverse returns and leaves the bytes of the view in the
-- reverse order, and every other byte as it was.
pub bytes_reverse-Leaves :
    (memory : List ℕ) (b : Bytes)
    → b.ptr + b.len ≤ length memory
    → Leaves memory (reversed memory b) (bytes_reverse b memory)
unfolding bytes_reverse
bytes_reverse-Leaves memory b fits = elim (Bool-cases (leb b.len 1)) [
  | inl short ↦ rw short (record {
    after = memory;
    returns = refl;
    same_length = refl;
    all_bytes = λ j. reversed_short memory b j (leb→le b.len 1 short);
  })
  | inr long ↦ rw long (
      let l =
        swap_inward-Leaves memory b.ptr (b.ptr + b.len) (b.ptr + (b.len - 1) + b.ptr) fits
          (ground (arith, long)) b.len b.ptr (b.ptr + b.len - 1) memory (ground (arith, long))
          (omega arith) (ground (arith, long)) (ground (arith, long)) (ground (arith, long))
          (start_Holds memory b) in
      record {
        after = l.after;
        returns = l.returns;
        same_length = l.same_length;
        all_bytes = λ j. l.all_bytes j ∙ mirrored-reversed memory b j;
      })
]
