-- ===== src/PageTables/Pages.antt =====
-- The pages that the allocators give to the page tables.
use mathlib.Core.Path.{subst}
use native.Mathlib.Decide.{ℕ_discrete}
use drastic.Base.{
  ℕ, ◌+◌, ◌*◌, ◌%◌, ◌^◌, ◌≤◌, ◌<◌, ◌≡◌, ◌≢◌, ap, sym, ◌∙◌, ◌⊎◌, inl, inr, true, ◌∷◌, length, none,
  some, ok, arith,
}
use drastic.PhysicalAllocator.{page_size}
use drastic.PhysicalAllocator.Pool.{has, Distinct, Below, Below-has}
use drastic.PhysicalAllocator.Valid.{pool}
use drastic.PhysicalAllocator.Alloc.{handed_address}
use drastic.Zones.{Paging, normal, physical_alloc, holds}
use drastic.Zones.Chain.{node_at}
use drastic.Zones.Alloc.{with_pa}
use drastic.Zones.Valid.{
  Layout, IsWellFormed, candidates, with_pa-IsWellFormed, replaced_self, replaced_ne, same_length,
  same_range,
}
use drastic.Zones.Kinds.{keep_in, physical_alloc-FirstGives}
use drastic.Zones.Outcome.{Gave, Gave-cases, candidate-lt}

-- A page table entry can hold every address: the regions start at pages, end below 2^48 and are at
-- most 4 GiB long.
pub record IsMappable (paging : Paging) (i : ℕ) : Type 0 where
  pub aligned : (node_at paging.nodes i).pa.address_base % 4096 ≡ 0
  pub small : (node_at paging.nodes i).pa.size ≤ 2 ^ 20
  pub low :
      (node_at paging.nodes i).pa.address_base + (node_at paging.nodes i).pa.size * page_size
      ≤ 2 ^ 48

-- The allocators, well formed and with regions that can be mapped.
pub record IsReady (paging : Paging) (l : Layout) : Type 0 where
  pub well_formed : IsWellFormed paging l
  pub mappable : (i : ℕ) → i < length paging.nodes → IsMappable paging i

-- The page at this address is free.
pub record IsFreePage (paging : Paging) (address : ℕ) : Type 0 where
  pub i : ℕ
  pub page : ℕ
  pub i_lt : i < length paging.nodes
  pub in_pool : has page (pool (node_at paging.nodes i).pa) ≡ true
  pub at_page : address ≡ (node_at paging.nodes i).pa.address_base + page * page_size

-- A page was taken: it was free, it is not any more, and no other page became free.
pub record Taken (paging : Paging) (l : Layout) : Type 0 where
  pub address : ℕ
  pub after : Paging
  pub returns : physical_alloc normal paging ≡ ok (some address, after)
  pub ready : IsReady after l
  pub was_free : IsFreePage paging address
  pub still_free : (b : ℕ) → IsFreePage after b → IsFreePage paging b
  pub not_free : (b : ℕ) → IsFreePage after b → b ≢ address
  pub aligned : address % 4096 ≡ 0
  pub low : address + 4096 ≤ 2 ^ 48

module _ (paging : Paging) (l : Layout) (r : IsReady paging l)
    (g : Gave
      (keep_in paging)
      paging.nodes
      (candidates normal l)
      (physical_alloc normal paging)) where
  lt : g.i < length paging.nodes
  lt = candidate-lt paging l r.well_formed normal g.i g.member

  abbrev after : Paging
  after = keep_in paging (with_pa paging.nodes g.i g.after)

  abbrev address : ℕ
  address = handed_address (node_at paging.nodes g.i).pa g.page

  page_lt : g.page < (node_at paging.nodes g.i).pa.size
  page_lt =
      (subst (Below (node_at paging.nodes g.i).pa.size) g.from_pool
        (r.well_formed.valid g.i lt).below).0

  page-Distinct : Distinct (g.page ∷ g.pages)
  page-Distinct = subst Distinct g.from_pool (r.well_formed.valid g.i lt).distinct

  address-eq : address ≡ (node_at paging.nodes g.i).pa.address_base + g.page * page_size
  address-eq = omega (arith, page_lt, (r.mappable g.i lt).small)

  page_in_pool : has g.page (pool (node_at paging.nodes g.i).pa) ≡ true
  page_in_pool = rw g.from_pool (ground arith)

  IsMappable-after : (j : ℕ) → j < length after.nodes → IsMappable after j
  IsMappable-after j h =
      let same = same_range paging.nodes g.i g.after lt g.valid g.same j in
      let before =
        r.mappable j (rw (same_length paging.nodes g.i g.after lt g.valid g.same) at h) in
      record {
        aligned = omega (arith, same.same_base, before.aligned);
        small = omega (arith, same.same_size, before.small);
        low = omega (arith, same.same_base, same.same_size, before.low);
      }

  -- What is free after the call was free before, and is another page.
  left_over :
      (j page : ℕ)
      → has page (pool (node_at after.nodes j).pa) ≡ true
      → (has page (pool (node_at paging.nodes j).pa) ≡ true) × ((g.i ≡ j) → page ≢ g.page)
  left_over j page h = elim (ℕ_discrete g.i j) [
    | no ne ↦ (
      ap (λ n. has page (pool n.pa))
            (sym (replaced_ne paging.nodes g.i g.after lt g.valid g.same j ne))
          ∙ h,
      λ e. absurd (ne e),
    )
    | yes e ↦
        let kept : has page g.pages ≡ true =
          sym (
            ap (λ k. has page (pool (node_at after.nodes k).pa)) (sym e)
            ∙ ap (λ n. has page (pool n.pa))
                (replaced_self paging.nodes g.i g.after lt g.valid g.same)
            ∙ ap (has page) g.to_pool)
          ∙ h in
        (
          ap (λ k. has page (pool (node_at paging.nodes k).pa)) (sym e)
              ∙ rw g.from_pool (ground (arith, kept)),
          λ e' same. absurd (cc (sym page-Distinct.0 ∙ ap (λ q. has q g.pages) (sym same) ∙ kept)),
        )
  ]

  holds_page :
      (j page : ℕ)
      → j < length paging.nodes
      → has page (pool (node_at paging.nodes j).pa) ≡ true
      → holds
          (node_at paging.nodes j).pa
          ((node_at paging.nodes j).pa.address_base + page * page_size)
        ≡ true
  holds_page j page h in_pool =
      let v = r.well_formed.valid j h in
      ground (arith, v.fits, v.size_max, Below-has _ page _ v.below in_pool)

  before_lt : (j : ℕ) → j < length after.nodes → j < length paging.nodes
  before_lt j h = rw (same_length paging.nodes g.i g.after lt g.valid g.same) at h

  still_free : (b : ℕ) → IsFreePage after b → IsFreePage paging b
  still_free b f = record {
    i = f.i;
    page = f.page;
    i_lt = before_lt f.i f.i_lt;
    in_pool = (left_over f.i f.page f.in_pool).0;
    at_page =
        omega
          (arith, f.at_page, (same_range paging.nodes g.i g.after lt g.valid g.same f.i).same_base);
  }

  -- A free page at the address that was handed out would be the same page of the same allocator.
  not_free : (b : ℕ) → IsFreePage after b → b ≢ address
  unfolding still_free
  not_free b f e =
      let before = still_free b f in
      let same_address = sym before.at_page ∙ e ∙ address-eq in
      let held =
        subst (λ a. holds (node_at paging.nodes before.i).pa a ≡ true) same_address
          (holds_page before.i before.page before.i_lt before.in_pool) in
      let same_node =
        r.well_formed.apart g.i before.i _ lt before.i_lt (holds_page g.i g.page lt page_in_pool)
          held in
      (left_over f.i f.page f.in_pool).1 same_node
        (omega (arith, same_address, ap (λ k. (node_at paging.nodes k).pa.address_base) same_node))

  gave : Taken paging l
  gave = record {
    address = address;
    after = after;
    returns = g.returns;
    ready = record {
      well_formed = with_pa-IsWellFormed paging l g.i g.after r.well_formed lt g.valid g.same;
      mappable = IsMappable-after;
    };
    was_free = record {
      i = g.i;
      page = g.page;
      i_lt = lt;
      in_pool = page_in_pool;
      at_page = address-eq;
    };
    still_free = still_free;
    not_free = not_free;
    aligned = omega (arith, address-eq, (r.mappable g.i lt).aligned);
    low = omega (arith, address-eq, page_lt, (r.mappable g.i lt).low);
  }

-- A call for a page fails and changes nothing, or takes a free page.
pub physical_alloc-Taken :
    (paging : Paging) (l : Layout)
    → IsReady paging l
    → (physical_alloc normal paging ≡ ok (none, paging)) ⊎ Taken paging l
physical_alloc-Taken paging l r = from_cases (
    Gave-cases (keep_in paging) paging.nodes (physical_alloc normal paging) (candidates normal l)
      (physical_alloc-FirstGives paging l r.well_formed normal))
  where
    from_cases :
        (physical_alloc normal paging ≡ ok (none, paging))
          ⊎ Gave (keep_in paging) paging.nodes (candidates normal l) (physical_alloc normal paging)
        → (physical_alloc normal paging ≡ ok (none, paging)) ⊎ Taken paging l
    from_cases (inl e) = inl e
    from_cases (inr g) = inr (gave paging l r g)
