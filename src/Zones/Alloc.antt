-- ===== src/Zones/Alloc.antt =====
-- `system_paging_physical_alloc`: the first allocator of a list that has a free page gives it.
use drastic.Base.{
  ℕ, zero, suc, ◌<◌, ◌≡◌, List, [], ◌∷◌, ◌++◌, ◌>>=◌, length, set, ok, Option, none, some, arith,
  set-get_or, write-eq-ok, Result, ap,
}
use drastic.PhysicalAllocator.{PhysicalAllocator, alloc}
use drastic.PhysicalAllocator.Valid.{IsValid, pool}
use drastic.PhysicalAllocator.Alloc.{Allocates, alloc-Allocates, handed_address, SameRange}
use drastic.Zones.{sentinel, Pointer, node, Links, Node, store, alloc_at, alloc_along}
use drastic.Zones.Chain.{
  node_at, Chain, NoLoop, AllValid, load-node, node-not_sentinel, sentinel-is_sentinel,
}

-- The lists after allocator `i` was replaced.
abbrev pub with_pa : List Node → ℕ → PhysicalAllocator → List Node
with_pa nodes i after = set nodes i (record { pa = after; links = (node_at nodes i).links })

-- Where the lists are kept: in the state `S` of the caller.
module _ {S : Type 0} (keep : List Node → S) (nodes : List Node) where
  -- Allocator `i`, whose free pages are given, gives its next page, or the result is another one's.
  abbrev pub GivesOr : ℕ → List ℕ → Result (Option ℕ × S) → Type 0 → Type 0
  GivesOr i [] out later = later
  GivesOr i (q ∷ pages) out later =
      (after : PhysicalAllocator) × (out
        ≡ ok (some (handed_address (node_at nodes i).pa q), keep (with_pa nodes i after)))
      × IsValid after
      × (pool after ≡ pages)
      × SameRange (node_at nodes i).pa after

  -- The first of the allocators `is` that has a free page gives it; if there is none, nothing changes.
  abbrev pub FirstGives : List ℕ → Result (Option ℕ × S) → Type 0
  FirstGives [] out = out ≡ ok (none, keep nodes)
  FirstGives (i ∷ is) out = GivesOr i (pool (node_at nodes i).pa) out (FirstGives is out)

abbrev pub itself : List Node → List Node
itself nodes = nodes

pub store-node :
    (nodes : List Node) (i : ℕ) (n : Node)
    → i < length nodes
    → store nodes (node i) n ≡ ok (set nodes i n)
unfolding store
store-node nodes i n h = write-eq-ok nodes i n h

module _ (nodes : List Node) (i : ℕ) (h : i < length nodes) where
  alloc_at-none :
      alloc (node_at nodes i).pa ≡ ok (none, (node_at nodes i).pa)
      → alloc_at nodes (node i) ≡ ok (none, nodes)
  unfolding alloc_at
  alloc_at-none e =
      rw (load-node nodes i h, e, store-node nodes i (node_at nodes i) h)
        (ap (λ t. ok (none, t)) (set-get_or nodes i _))

  alloc_at-some :
      (a : ℕ) (after : PhysicalAllocator)
      → alloc (node_at nodes i).pa ≡ ok (some a, after)
      → alloc_at nodes (node i) ≡ ok (some a, with_pa nodes i after)
  unfolding alloc_at
  alloc_at-some a after e = rw (load-node nodes i h, e, store-node nodes i _ h)

module _ (follow : Links → Pointer) (nodes : List Node) (free : NoLoop nodes)
    (valid : AllValid nodes) where
  by_pool :
      (fuel i : ℕ) (is pages : List ℕ)
      → i < length nodes
      → Allocates (node_at nodes i).pa pages
      → FirstGives itself nodes is (alloc_along fuel follow nodes (follow (node_at nodes i).links))
      → GivesOr itself nodes i pages
          (alloc_along (suc fuel) follow nodes (node i))
          (FirstGives itself nodes is (alloc_along (suc fuel) follow nodes (node i)))
  unfolding alloc_along
  by_pool fuel i is [] h e = λ later.
      rw (node-not_sentinel nodes i free h, alloc_at-none nodes i h e, load-node nodes i h) later
  by_pool fuel i is (q ∷ pages) h (after, e, w, same_pool, same) = λ later. (
    after,
    rw (node-not_sentinel nodes i free h, alloc_at-some nodes i h _ after e),
    w,
    same_pool,
    same,
  )

  at_sentinel : (fuel : ℕ) → alloc_along (suc fuel) follow nodes sentinel ≡ ok (none, nodes)
  unfolding alloc_along
  at_sentinel fuel = rw (sentinel-is_sentinel nodes)

  pub alloc_along-FirstGives :
      (is : List ℕ) (fuel : ℕ) (p : Pointer)
      → Chain follow nodes p is
      → length is < fuel
      → FirstGives itself nodes is (alloc_along fuel follow nodes p)
  alloc_along-FirstGives is zero p c h = absurd (omega arith)
  alloc_along-FirstGives [] (suc fuel) p c h = rw c (at_sentinel fuel)
  alloc_along-FirstGives (i ∷ is) (suc fuel) p (e, lt, c) h = rw e (
      by_pool fuel i is (pool (node_at nodes i).pa) lt
        (alloc-Allocates (node_at nodes i).pa (valid i lt))
        (alloc_along-FirstGives is fuel (follow (node_at nodes i).links) c (omega arith)))

-- Trying the allocators `xs` first and then, from the same lists, those of `ys`.
abbrev pub or_else :
    {S : Type 0}
    → (List Node → S)
    → (List Node → Result (Option ℕ × S))
    → Option ℕ × List Node
    → Result (Option ℕ × S)
or_else keep next (some a, nodes) = ok (some a, keep nodes)
or_else keep next (none, nodes) = next nodes

module _ {S : Type 0} (keep : List Node → S) (next : List Node → Result (Option ℕ × S))
    (nodes : List Node) (r : Result (Option ℕ × List Node)) where
  by_pages :
      (xs ys : List ℕ) (i : ℕ) (pages : List ℕ)
      → GivesOr itself nodes i pages r (FirstGives itself nodes xs r)
      → (FirstGives itself nodes xs r → FirstGives keep nodes (xs ++ ys) (r >>= or_else keep next))
      → GivesOr keep nodes i pages
          (r >>= or_else keep next)
          (FirstGives keep nodes (xs ++ ys) (r >>= or_else keep next))
  by_pages xs ys i [] g rest = rest g
  by_pages xs ys i (q ∷ pages) (after, e, w, same_pool, same) rest =
      (after, rw e, w, same_pool, same)

  pub FirstGives-append :
      (xs ys : List ℕ)
      → FirstGives itself nodes xs r
      → FirstGives keep nodes ys (next nodes)
      → FirstGives keep nodes (xs ++ ys) (r >>= or_else keep next)
  FirstGives-append [] ys g later = rw g later
  FirstGives-append (i ∷ xs) ys g later =
      by_pages xs ys i (pool (node_at nodes i).pa) g λ h. FirstGives-append xs ys h later

-- A result of a loop, handed on with the lists kept in another state.
module _ {S : Type 0} (keep : List Node → S) (nodes : List Node)
    (r : Result (Option ℕ × List Node)) where
  abbrev kept : Result (Option ℕ × S)
  kept = r >>= λ (address, after). ok (address, keep after)

  kept_by_pages :
      (xs : List ℕ) (i : ℕ) (pages : List ℕ)
      → GivesOr itself nodes i pages r (FirstGives itself nodes xs r)
      → (FirstGives itself nodes xs r → FirstGives keep nodes xs kept)
      → GivesOr keep nodes i pages kept (FirstGives keep nodes xs kept)
  kept_by_pages xs i [] g rest = rest g
  kept_by_pages xs i (q ∷ pages) (after, e, w, same_pool, same) rest =
      (after, rw e, w, same_pool, same)

  pub FirstGives-kept : (xs : List ℕ) → FirstGives itself nodes xs r → FirstGives keep nodes xs kept
  FirstGives-kept [] g = rw g
  FirstGives-kept (i ∷ xs) g =
      kept_by_pages xs i (pool (node_at nodes i).pa) g λ h. FirstGives-kept xs h
