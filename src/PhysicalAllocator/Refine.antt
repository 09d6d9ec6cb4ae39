-- ===== src/PhysicalAllocator/Refine.antt =====
-- Any sequence of calls on a range of at most 4 GiB behaves as the same calls on the pool of pages.
use mathlib.Core.Path.{subst}
use drastic.Base.{
  ℕ, ◌+◌, ◌-◌, ◌*◌, ◌/◌, ◌^◌, ◌≤◌, ◌≡◌, refl, true, false, List, [], ◌∷◌, ltb, leb, Option, none,
  some, Bool, ◌&&◌, not, Result, ok, ◌>>=◌, ◌>>◌, kassert, arith, inl, inr, Bool-cases,
}
use drastic.PhysicalAllocator.{PhysicalAllocator, page_size, alloc, free}
use drastic.PhysicalAllocator.Pool.{has, Below}
use drastic.PhysicalAllocator.Valid.{IsValid, pool}
use drastic.PhysicalAllocator.Alloc.{Allocates, alloc-Allocates, handed_address, SameRange}
use drastic.PhysicalAllocator.Free.{Frees, free-Frees, free_outside}

-- What a client asks for, and what it sees of each call: the address of `alloc`, if there was one.
pub data Call : Type 0 where
  alloc_page : Call
  free_page : ℕ → Call

pub data Reply : Type 0 where
  allocated : Option ℕ → Reply
  freed : Reply

pub run : PhysicalAllocator → List Call → Result (List Reply)
run pa [] = ok []
run pa (alloc_page ∷ calls) = do
  (address, after) ← alloc pa
  replies ← run after calls
  ok (allocated address ∷ replies)
run pa (free_page address ∷ calls) = do
  after ← free pa address
  replies ← run after calls
  ok (freed ∷ replies)

-- The specification: the free pages of a range, the next one first.
abbrev pub page_address : ℕ → ℕ → ℕ
page_address base p = base + p * page_size

module _ (base size : ℕ) where
  abbrev pub in_range : ℕ → Bool
  in_range address = leb base address && ltb address (base + size * page_size)

  unfoldable pub run_pool : List ℕ → List Call → Result (List Reply)
  run_pool pages [] = ok []
  run_pool [] (alloc_page ∷ calls) = do replies ← run_pool [] calls; ok (allocated none ∷ replies)
  run_pool (p ∷ pages) (alloc_page ∷ calls) = do
    replies ← run_pool pages calls
    ok (allocated (some (page_address base p)) ∷ replies)
  run_pool pages (free_page address ∷ calls) = do
    kassert (in_range address)
    let p = (address - base) / page_size
    kassert (not (has p pages))
    replies ← run_pool (p ∷ pages) calls
    ok (freed ∷ replies)

module _ (pa : PhysicalAllocator) (v : IsValid pa) (small : pa.size ≤ 2 ^ 20) (calls : List Call)
    (later : (after : PhysicalAllocator)
      → IsValid after
      → after.size ≤ 2 ^ 20
      → run after calls ≡ run_pool after.address_base after.size (pool after) calls) where
  -- The later calls, from the state that a call leaves.
  later_same :
      (after : PhysicalAllocator) (pages : List ℕ)
      → IsValid after
      → pool after ≡ pages
      → SameRange pa after
      → run after calls ≡ run_pool pa.address_base pa.size pages calls
  later_same after pages w e same =
      ground (arith, same.same_size, same.same_base, later after w (rw same.same_size small), e)

  alloc_step :
      (pages : List ℕ)
      → pool pa ≡ pages
      → Allocates pa pages
      → run pa (alloc_page ∷ calls) ≡ run_pool pa.address_base pa.size pages (alloc_page ∷ calls)
  unfolding run run_pool
  alloc_step [] e a = rw (a, later_same pa [] v e (record { same_size = refl; same_base = refl }))
  alloc_step (p ∷ pages) e (after, a, w, same_pool, same) =
      let p_lt : Below pa.size (p ∷ pages) = subst (Below pa.size) e v.below in
      let address : handed_address pa p ≡ page_address pa.address_base p = ground (arith, p_lt.0) in
      rw (a, later_same after pages w same_pool same, address)

  abbrev page_at : ℕ → ℕ
  page_at address = (address - pa.address_base) / page_size

  in_range_step :
      (address : ℕ)
      → in_range pa.address_base pa.size address ≡ true
      → (b : Bool) → has (page_at address) (pool pa) ≡ b
      → Frees pa (page_at address) address b
      → run pa (free_page address ∷ calls)
        ≡ run_pool pa.address_base pa.size (pool pa) (free_page address ∷ calls)
  unfolding run run_pool
  in_range_step address inside true unused refused = rw (refused, inside, unused)
  in_range_step address inside false used (after, e, w, same_pool, same) =
      rw (e, inside, used, later_same after (page_at address ∷ pool pa) w same_pool same)

  free_step :
      (address : ℕ)
      → run pa (free_page address ∷ calls)
        ≡ run_pool pa.address_base pa.size (pool pa) (free_page address ∷ calls)
  unfolding run run_pool
  free_step address = elim (Bool-cases (in_range pa.address_base pa.size address)) [
    | inl inside ↦
        in_range_step address inside (has (page_at address) (pool pa)) refl
          (free-Frees pa (page_at address) address v (ground arith) (ground arith))
    | inr outside ↦ rw (outside, free_outside pa address v (ground arith))
  ]

run_pool-nil : (base size : ℕ) (pages : List ℕ) → ok [] ≡ run_pool base size pages []
unfolding run_pool
run_pool-nil base size [] = refl
run_pool-nil base size (p ∷ pages) = refl

-- A valid allocator of at most 2^20 pages answers any sequence of calls as the stack of its free
-- pages does: pages come out in last-in-first-out order at their own addresses, a failing call
-- changes nothing, and a wrong free halts.
pub run_refines :
    (calls : List Call) (pa : PhysicalAllocator)
    → IsValid pa
    → pa.size ≤ 2 ^ 20
    → run pa calls ≡ run_pool pa.address_base pa.size (pool pa) calls
run_refines [] pa v small = unfold run in run_pool-nil pa.address_base pa.size (pool pa)
run_refines (alloc_page ∷ calls) pa v small =
    alloc_step pa v small calls (run_refines calls) (pool pa) refl (alloc-Allocates pa v)
run_refines (free_page address ∷ calls) pa v small =
    free_step pa v small calls (run_refines calls) address
