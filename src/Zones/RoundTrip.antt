-- ===== src/Zones/RoundTrip.antt =====
-- A page that is given back straight away leaves every allocator with the free pages that it had.
use mathlib.Core.Path.{subst, subst₂}
use native.Mathlib.Decide.{ℕ_discrete}
use drastic.Base.{
  ℕ, get_or-set_self, get_or-set_ne, ◌^◌, ◌≤◌, ◌<◌, ◌≡◌, false, ◌∷◌, length, none, some, ok, arith,
  ◌∙◌, sym, ap, inl, inr, ◌⊎◌,
}
use drastic.PhysicalAllocator.Pool.{has, Distinct, Below}
use drastic.PhysicalAllocator.Valid.{pool}
use drastic.PhysicalAllocator.Free.{InPage}
use drastic.PhysicalAllocator.Alloc.{handed_address}
use drastic.Zones.{sentinel_node, Paging, PageKind, physical_alloc, physical_free}
use drastic.Zones.Chain.{node_at}
use drastic.Zones.Alloc.{with_pa}
use drastic.Zones.Valid.{
  Layout, IsWellFormed, candidates, with_pa-IsWellFormed, replaced_self, same_length,
}
use drastic.Zones.Kinds.{keep_in, physical_alloc-FirstGives}
use drastic.Zones.Outcome.{Gave, Gave-cases, candidate-lt}
use drastic.Zones.Free.{FreesIn, physical_free-FreesIn}

-- Every region is at most 4 GiB long.
abbrev pub NoHugeRegion : Paging → Type 0
NoHugeRegion paging = (i : ℕ) → i < length paging.nodes → (node_at paging.nodes i).pa.size ≤ 2 ^ 20

-- What the two calls leave.
pub record Restored (before : Paging) (l : Layout) (address : ℕ) (taken : Paging) : Type 0 where
  pub restored : Paging
  pub returns : physical_free address taken ≡ ok restored
  pub well_formed : IsWellFormed restored l
  pub same_pools : (j : ℕ) → pool (node_at restored.nodes j).pa ≡ pool (node_at before.nodes j).pa

module _ (paging : Paging) (l : Layout) (kind : PageKind) (f : IsWellFormed paging l)
    (small : NoHugeRegion paging)
    (g : Gave (keep_in paging) paging.nodes (candidates kind l) (physical_alloc kind paging)) where
  lt : g.i < length paging.nodes
  lt = candidate-lt paging l f kind g.i g.member

  abbrev taken : Paging
  taken = keep_in paging (with_pa paging.nodes g.i g.after)

  abbrev address : ℕ
  address = handed_address (node_at paging.nodes g.i).pa g.page

  Distinct-top : Distinct (g.page ∷ g.pages)
  Distinct-top = subst Distinct g.from_pool (f.valid g.i lt).distinct

  Below-top : Below (node_at paging.nodes g.i).pa.size (g.page ∷ g.pages)
  Below-top = subst (Below (node_at paging.nodes g.i).pa.size) g.from_pool (f.valid g.i lt).below

  taken_self : (node_at taken.nodes g.i).pa ≡ g.after
  taken_self = ap (λ n. n.pa) (replaced_self paging.nodes g.i g.after lt g.valid g.same)

  taken_lt : g.i < length taken.nodes
  taken_lt = rw (same_length paging.nodes g.i g.after lt g.valid g.same) lt

  still_used : has g.page (pool (node_at taken.nodes g.i).pa) ≡ false
  still_used = ap (λ pa. has g.page (pool pa)) taken_self ∙ rw g.to_pool Distinct-top.0

  taken-InPage : InPage g.after g.page address
  taken-InPage = omega (arith, small g.i lt, Below-top.0, g.same.same_base)

  freed : FreesIn taken l g.i g.page address false
  freed = subst (FreesIn taken l g.i g.page address) still_used (
      physical_free-FreesIn taken l (with_pa-IsWellFormed paging l g.i g.after f lt g.valid g.same)
        g.i g.page address taken_lt
        (subst (λ pa. g.page < pa.size) (sym taken_self) (rw g.same.same_size Below-top.0))
        (subst (λ pa. InPage pa g.page address) (sym taken_self) taken-InPage))

  back_self : pool freed.0 ≡ pool (node_at paging.nodes g.i).pa
  back_self =
      freed.3
      ∙ ap (λ pa. g.page ∷ pool pa) taken_self
      ∙ ap (λ pages. g.page ∷ pages) g.to_pool
      ∙ sym g.from_pool

  back_pools :
      (j : ℕ)
      → pool (node_at (with_pa taken.nodes g.i freed.0) j).pa ≡ pool (node_at paging.nodes j).pa
  back_pools j = elim (ℕ_discrete g.i j) [
    | yes e ↦
        subst
          (λ k.
            pool (node_at (with_pa taken.nodes g.i freed.0) k).pa
            ≡ pool (node_at paging.nodes k).pa)
          e
          (ap (λ n. pool n.pa) (get_or-set_self taken.nodes g.i _ sentinel_node taken_lt)
            ∙ back_self)
    | no ne ↦
        ap (λ n. pool n.pa) (get_or-set_ne taken.nodes g.i j _ sentinel_node ne)
        ∙ ap (λ n. pool n.pa) (get_or-set_ne paging.nodes g.i j _ sentinel_node ne)
  ]

  pub back : Restored paging l address taken
  back = record {
    restored = keep_in taken (with_pa taken.nodes g.i freed.0);
    returns = freed.1;
    well_formed = freed.2;
    same_pools = back_pools;
  }

-- On well-formed lists whose regions are at most 2^20 pages each, giving back the address that a
-- successful allocation returned succeeds, keeps the lists well formed, and leaves every allocator
-- with the free pages that it had.
pub physical_free-physical_alloc :
    (paging after : Paging) (l : Layout) (kind : PageKind) (a : ℕ)
    → IsWellFormed paging l
    → NoHugeRegion paging
    → physical_alloc kind paging ≡ ok (some a, after)
    → Restored paging l a after
physical_free-physical_alloc paging after l kind a f small e = from_cases (
    Gave-cases (keep_in paging) paging.nodes (physical_alloc kind paging) (candidates kind l)
      (physical_alloc-FirstGives paging l f kind))
  where
    from_cases :
        (physical_alloc kind paging ≡ ok (none, paging))
          ⊎ Gave (keep_in paging) paging.nodes (candidates kind l) (physical_alloc kind paging)
        → Restored paging l a after
    from_cases (inl failed) = absurd (cc (sym failed ∙ e))
    from_cases (inr g) =
        let same_result = sym g.returns ∙ e in
        subst₂ (Restored paging l) (cc same_result) (cc same_result) (back paging l kind f small g)
