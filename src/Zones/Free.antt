-- ===== src/Zones/Free.antt =====
-- `system_paging_physical_free`: the allocator that manages the address takes the page back.
use mathlib.Core.Path.{fun_ext}
use drastic.Base.{
  ℕ, zero, suc, ◌<◌, ◌≡◌, refl, Bool, true, false, List, [], ◌∷◌, length, Option, none, some,
  Result, ok, stop, assertion_failed, kpanic, invalid_physical_page_free, ◌>>=◌, arith, ◌∙◌, ap,
  Bool-cases, inl, inr, if◌then◌else◌,
}
use drastic.PhysicalAllocator.{PhysicalAllocator, free}
use drastic.PhysicalAllocator.Pool.{has}
use drastic.PhysicalAllocator.Valid.{IsValid, pool}
use drastic.PhysicalAllocator.Free.{Frees, free-Frees, InPage}
use drastic.Zones.{
  Pointer, sentinel, node, Node, Paging, holds, free_at, free_along, physical_free, rounds,
}
use drastic.Zones.Chain.{node_at, Chain, NoLoop, load-node, node-not_sentinel, sentinel-is_sentinel}
use drastic.Zones.Alloc.{with_pa, store-node}
use drastic.Zones.Valid.{Layout, IsWellFormed, with_pa-IsWellFormed}
use drastic.Zones.Outcome.{Chain-has}
use drastic.Zones.Kinds.{keep_in}

-- The first of the allocators `is` that manages the address.
pub owner : List Node → ℕ → List ℕ → Option ℕ
owner nodes address [] = none
owner nodes address (i ∷ is) =
    if holds (node_at nodes i).pa address then some i else owner nodes address is

-- What the owner does with the page.
abbrev pub give_back : List Node → ℕ → Option ℕ → Result (List Node)
give_back nodes address none = stop (kpanic invalid_physical_page_free)
give_back nodes address (some i) =
    free (node_at nodes i).pa address >>= λ after. ok (with_pa nodes i after)

module _ (nodes : List Node) (address : ℕ) (no_loop : NoLoop nodes) where
  free_at-node :
      (i : ℕ) → i < length nodes → free_at nodes (node i) address ≡ give_back nodes address (some i)
  unfolding free_at
  free_at-node i h =
      rw (load-node nodes i h)
        (ap (◌>>=◌ (free (node_at nodes i).pa address)) (fun_ext λ after. store-node nodes i _ h))

  free_along-sentinel :
      (fuel : ℕ) → free_along (suc fuel) address nodes sentinel ≡ give_back nodes address none
  unfolding free_along
  free_along-sentinel fuel = rw (sentinel-is_sentinel nodes)

  free_along-node :
      (fuel i : ℕ)
      → i < length nodes
      → free_along (suc fuel) address nodes (node i) ≡ (
          if holds (node_at nodes i).pa address
          then give_back nodes address (some i)
          else free_along fuel address nodes (node_at nodes i).links.next)
  unfolding free_along
  free_along-node fuel i h =
      ground (arith, node-not_sentinel nodes i no_loop h, load-node nodes i h, free_at-node i h)

  free_along-owner :
      (is : List ℕ) (fuel : ℕ) (p : Pointer)
      → Chain (λ links. links.next) nodes p is
      → length is < fuel
      → free_along fuel address nodes p ≡ give_back nodes address (owner nodes address is)
  unfolding owner
  free_along-owner is zero p c h = absurd (omega arith)
  free_along-owner [] (suc fuel) p c h = rw c (free_along-sentinel fuel)
  free_along-owner (i ∷ is) (suc fuel) p (e, lt, c) h =
      elim (Bool-cases (holds (node_at nodes i).pa address)) [
        | inl e' ↦ rw e (free_along-node fuel i lt ∙ rw e')
        | inr e' ↦ rw e (
            free_along-node fuel i lt
            ∙ rw e' (free_along-owner is fuel (node_at nodes i).links.next c (omega arith)))
      ]

  owner-eq-some :
      (i : ℕ) (is : List ℕ)
      → ((j : ℕ) → has j is ≡ true → holds (node_at nodes j).pa address ≡ true → j ≡ i)
      → has i is ≡ true
      → holds (node_at nodes i).pa address ≡ true
      → owner nodes address is ≡ some i
  unfolding owner
  owner-eq-some i [] apart m h = absurd (ground arith)
  owner-eq-some i (j ∷ is) apart m h = elim (Bool-cases (holds (node_at nodes j).pa address)) [
    | inl e ↦ rw (e, apart j (ground arith) e)
    | inr e ↦
        rw e (owner-eq-some i is (λ k mk hk. apart k (ground (arith, mk)) hk) (ground (arith, m)) h)
  ]

holds-InPage :
    (pa : PhysicalAllocator) (p address : ℕ)
    → IsValid pa
    → p < pa.size
    → InPage pa p address
    → holds pa address ≡ true
holds-InPage pa p address v lt inside = ground (arith, v.fits, v.size_max)

-- `system_paging_physical_free` of an address in page `p` of allocator `i`, by whether the page is free
-- already: the machine halts, or the page becomes the next one of that allocator.
abbrev pub FreesIn : Paging → Layout → ℕ → ℕ → ℕ → Bool → Type 0
FreesIn paging l i p address true = physical_free address paging ≡ stop assertion_failed
FreesIn paging l i p address false =
    (after : PhysicalAllocator) × (physical_free address paging
      ≡ ok (keep_in paging (with_pa paging.nodes i after)))
    × IsWellFormed (keep_in paging (with_pa paging.nodes i after)) l
    × (pool after ≡ p ∷ pool (node_at paging.nodes i).pa)

module _ (paging : Paging) (l : Layout) (f : IsWellFormed paging l) where
  physical_free-owner :
      (address : ℕ)
      → physical_free address paging ≡ (
          give_back paging.nodes address (owner paging.nodes address l.all) >>= λ nodes.
          ok (keep_in paging nodes))
  unfolding physical_free
  physical_free-owner address =
      ap (λ r. r >>= λ nodes. ok (keep_in paging nodes))
        (free_along-owner paging.nodes address f.no_loop l.all (rounds paging.nodes) paging.first
          f.chain (omega (arith, f.short)))

  module _ (i p address : ℕ) (lt : i < length paging.nodes)
      (p_lt : p < (node_at paging.nodes i).pa.size)
      (inside : InPage (node_at paging.nodes i).pa p address) where
    abbrev pa : PhysicalAllocator
    pa = (node_at paging.nodes i).pa

    held : holds pa address ≡ true
    held = holds-InPage pa p address (f.valid i lt) p_lt inside

    owned : owner paging.nodes address l.all ≡ some i
    owned =
        owner-eq-some paging.nodes address f.no_loop i l.all
          (λ j m h.
            f.apart j i address
              (Chain-has (λ links. links.next) paging.nodes l.all j paging.first f.chain m) lt h
              held)
          (f.complete i lt) held

    frees_by_use : (b : Bool) → Frees pa p address b → FreesIn paging l i p address b
    frees_by_use true e = physical_free-owner address ∙ rw (owned, e)
    frees_by_use false (after, e, w, same_pool, same) = (
      after,
      physical_free-owner address ∙ rw (owned, e),
      with_pa-IsWellFormed paging l i after f lt w same,
      same_pool,
    )

    -- On well-formed lists, a free at an address inside page p of allocator i halts by an
    -- assertion if the page is free already, and otherwise makes it the next free page of that
    -- allocator, leaving the others as they are and the lists well formed.
    pub physical_free-FreesIn : FreesIn paging l i p address (has p (pool pa))
    physical_free-FreesIn =
        frees_by_use (has p (pool pa)) (free-Frees pa p address (f.valid i lt) p_lt inside)

  no_owner :
      (address : ℕ) (is : List ℕ)
      → ((j : ℕ) → holds (node_at paging.nodes j).pa address ≡ false)
      → owner paging.nodes address is ≡ none
  unfolding owner
  no_owner address [] h = refl
  no_owner address (i ∷ is) h = rw (h i) (no_owner address is h)

  -- On well-formed lists a free of an address that no allocator manages ends in the panic.
  pub physical_free_unmanaged :
      (address : ℕ)
      → ((j : ℕ) → holds (node_at paging.nodes j).pa address ≡ false)
      → physical_free address paging ≡ stop (kpanic invalid_physical_page_free)
  physical_free_unmanaged address h = physical_free-owner address ∙ rw (no_owner address l.all h)
