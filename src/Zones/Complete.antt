-- ===== src/Zones/Complete.antt =====
-- What `system_paging_setup` leaves behind, and what it leaves unset.
use native.Mathlib.Decide.{dec_lt}
use drastic.Base.{
  ℕ, zero, suc, ◌≤◌, ◌<◌, ◌≡◌, refl, true, List, [], ◌∷◌, length, ok, stop, bad_pointer, arith, ap,
  inl, inr,
}
use drastic.PhysicalAllocator.Init.{page_range, has-page_range}
use drastic.PhysicalAllocator.Pool.{has}
use drastic.Zones.{
  Pointer, null, Paging, holds, alloc_along, pa_is_sentinel, load, physical_alloc, page_16mb,
}
use drastic.Zones.Chain.{node_at, Chain}
use drastic.Zones.Valid.{Layout, IsWellFormed, Apart}
use drastic.Zones.Setup.{Building, MemmapEntry, setup_zones, nothing_built, mb_16, gb_4}
use drastic.Zones.Append.{IsBuilt, FirstNon}
use drastic.Zones.Enlist.{Lists, Built}
use drastic.Zones.Map.{
  MapFits, no_lists, enlist_all, add_entries-Built, rev_onto, ListState-Chain, length-rev_onto,
  length-le_of_Descending, has-rev_onto, EndsBelow-rev_onto, from_member, Chain-from_member,
  length-from_member,
}

abbrev paging_of : Building → Paging
paging_of b = record {
  nodes = b.nodes;
  first = b.base_links.next;
  first_16mb = b.base_links.next_16mb;
  first_4gb = b.base_links.next_4gb;
  last = b.last;
  last_16mb = b.last_16mb;
  last_4gb = b.last_4gb;
  first_non_16mb = b.first_non_16mb;
}

abbrev all_of : ℕ → List ℕ
all_of count = rev_onto (page_range 0 count) []

abbrev non_16mb_of : (count n : ℕ) (p : Pointer) → FirstNon n p → List ℕ
non_16mb_of count n p (inl e) = []
non_16mb_of count n p (inr (m, lt, e)) = from_member m (all_of count)

nothing-Built : Built nothing_built no_lists 0
nothing-Built = record {
  built = record {
    list = (refl, refl);
    list_16mb = (refl, refl);
    list_4gb = (refl, refl);
    below_all = tt;
    below_16mb = tt;
    below_4gb = tt;
    descending_all = tt;
    descending_16mb = tt;
    descending_4gb = tt;
    ends_16mb = tt;
    ends_4gb = tt;
    first_non = inl refl;
    no_loop = λ i h. absurd (omega arith);
    ranges = record {
      valid = λ i h. absurd (omega arith);
      below = λ i h. absurd (omega arith);
      apart = λ i j lt h. absurd (omega arith);
    };
  };
  counted = refl;
}

module _ (b : Building) (lists : Lists) (to : ℕ) (s : Built b lists to)
    (some_16mb : 0 < length lists.zone_16mb) (some_4gb : 0 < length lists.zone_4gb) where
  some_node : 0 < lists.count
  some_node = omega (
    arith,
    s.counted,
    length-le_of_Descending (length b.nodes) lists.zone_16mb s.built.descending_16mb
        s.built.below_16mb,
  )

  has-all : (i : ℕ) → i < length b.nodes → has i (all_of lists.count) ≡ true
  has-all i h = ground (
    arith,
    has-rev_onto i (page_range 0 lists.count) [],
    has-page_range 0 lists.count i,
    s.counted,
  )

  length-page_range : (k : ℕ) → length (page_range 0 k) ≡ k
  length-page_range zero = refl
  length-page_range (suc k) = ap suc (length-page_range k)

  Chain-all : Chain (λ links. links.next) b.nodes b.base_links.next (all_of lists.count)
  Chain-all =
      ListState-Chain (λ links. links.next) b.base_links.next b.last b.nodes
        (page_range 0 lists.count) (omega (arith, length-page_range lists.count, some_node))
        s.built.list

  Chain-non :
      (f : FirstNon (length b.nodes) b.first_non_16mb)
      → Chain
          (λ links. links.next)
          b.nodes
          b.first_non_16mb
          (non_16mb_of lists.count (length b.nodes) b.first_non_16mb f)
  Chain-non (inl e) = e
  Chain-non (inr (m, lt, e)) = rw e (
      Chain-from_member (λ links. links.next) b.nodes m (all_of lists.count) b.base_links.next
        Chain-all (has-all m lt))

  short_non :
      (f : FirstNon (length b.nodes) b.first_non_16mb)
      → length (non_16mb_of lists.count (length b.nodes) b.first_non_16mb f) ≤ length b.nodes
  short_non (inl e) = omega arith
  short_non (inr (m, lt, e)) = omega (
    arith,
    length-from_member m (all_of lists.count),
    length-rev_onto (page_range 0 lists.count) [],
    length-page_range lists.count,
    s.counted,
  )

  apart : Apart b.nodes
  apart i j address hi hj p q = elim (dec_lt i j) [
    | yes lt ↦ absurd (no_overlap i j lt hj hi p q)
    | no ge ↦ elim (dec_lt j i) [
      | yes lt ↦ absurd (no_overlap j i lt hi hj q p)
      | no ge' ↦ omega arith
    ]
  ]
    where
      no_overlap :
          (i j : ℕ)
          → i < j
          → j < length b.nodes
          → i < length b.nodes
          → holds (node_at b.nodes i).pa address ≡ true
          → holds (node_at b.nodes j).pa address ≡ true
          → ⊥
      no_overlap i j lt hj hi p q = ground (
        arith,
        s.built.ranges.apart i j lt hj,
        (s.built.ranges.valid i hi).fits,
        (s.built.ranges.valid i hi).size_max,
      )

  abbrev layout : Layout
  layout = record {
    all = all_of lists.count;
    zone_16mb = rev_onto lists.zone_16mb [];
    zone_4gb = rev_onto lists.zone_4gb [];
    non_16mb = non_16mb_of lists.count (length b.nodes) b.first_non_16mb s.built.first_non;
  }

  well_formed : IsWellFormed (paging_of b) layout
  well_formed = record {
    chain = Chain-all;
    chain_16mb =
        ListState-Chain (λ links. links.next_16mb) b.base_links.next_16mb b.last_16mb b.nodes
          lists.zone_16mb some_16mb s.built.list_16mb;
    chain_4gb =
        ListState-Chain (λ links. links.next_4gb) b.base_links.next_4gb b.last_4gb b.nodes
          lists.zone_4gb some_4gb s.built.list_4gb;
    chain_non_16mb = Chain-non s.built.first_non;
    short = omega (
      arith,
      length-rev_onto (page_range 0 lists.count) [],
      length-page_range lists.count,
      s.counted,
    );
    short_16mb = omega (
      arith,
      length-rev_onto lists.zone_16mb [],
      length-le_of_Descending (length b.nodes) lists.zone_16mb s.built.descending_16mb
          s.built.below_16mb,
    );
    short_4gb = omega (
      arith,
      length-rev_onto lists.zone_4gb [],
      length-le_of_Descending (length b.nodes) lists.zone_4gb s.built.descending_4gb
          s.built.below_4gb,
    );
    short_non_16mb = short_non s.built.first_non;
    complete = has-all;
    below_16mb = EndsBelow-rev_onto mb_16 b.nodes lists.zone_16mb [] s.built.ends_16mb tt;
    below_4gb = EndsBelow-rev_onto gb_4 b.nodes lists.zone_4gb [] s.built.ends_4gb tt;
    no_loop = s.built.no_loop;
    valid = s.built.ranges.valid;
    apart = apart;
  }

-- What the set-up promises for a memory map.
pub record SetsUp (entries : List MemmapEntry) : Type 0 where
  pub paging : Paging
  pub layout : Layout
  pub returns : setup_zones entries ≡ ok paging
  pub well_formed : IsWellFormed paging layout
  pub zone_16mb : layout.zone_16mb ≡ rev_onto (enlist_all entries no_lists).zone_16mb []
  pub zone_4gb : layout.zone_4gb ≡ rev_onto (enlist_all entries no_lists).zone_4gb []
  pub counted : length paging.nodes ≡ (enlist_all entries no_lists).count

no_zone :
    (b : Building) (rs all z4 : List ℕ) (to : ℕ)
    → IsBuilt b all rs z4 to
    → length rs ≡ 0
    → b.base_links.next_16mb ≡ null
no_zone b [] all z4 to s h = s.list_16mb.0
no_zone b (k ∷ rs) all z4 to s h = absurd (omega arith)

-- If the usable regions of a memory map ascend without overlap, end below 2^64 and have at most
-- 2^32 - 1 pages each, and none of them lies in the zone of 16 MB, the set-up returns, and a
-- request for a page of that zone follows a null pointer.
pub alloc_16mb_without_zone :
    (entries : List MemmapEntry)
    → MapFits 0 entries
    → length (enlist_all entries no_lists).zone_16mb ≡ 0
    → (paging : Paging) × (setup_zones entries ≡ ok paging)
      × (physical_alloc page_16mb paging ≡ stop bad_pointer)
alloc_16mb_without_zone entries fits h =
    let (b, to, e, s) = add_entries-Built entries nothing_built no_lists 0 fits nothing-Built in
    (
      paging_of b,
      unfold setup_zones in rw e,
      unfold physical_alloc alloc_along pa_is_sentinel load in rw (no_zone b _ _ _ to s.built h),
    )
