-- ===== src/Zones/Enlist.antt =====
-- The allocators that the entries of the memory map make, and the lists that they go into.
use drastic.Base.{
  ℕ, suc, ◌+◌, ◌-◌, ◌*◌, ◌/◌, ◌^◌, ◌≤◌, ◌<◌, ◌≡◌, refl, List, ◌∷◌, length, ok, arith, inr,
  if◌then◌else◌, leb,
}
use drastic.PhysicalAllocator.{PhysicalAllocator, page_size, u32_max, calculate_required_size}
use drastic.PhysicalAllocator.Init.{page_range, Initialises, init-Initialises}
use drastic.PhysicalAllocator.Valid.{IsValid, pool}
use drastic.Zones.{node}
use drastic.Zones.Setup.{
  Building, MemmapEntry, MemmapKind, usable, ends_below, mb_16, gb_4, make_allocator,
}
use drastic.Zones.Append.{IsBuilt}

-- A region that gets an allocator of its own.
pub record IsLarge (entry : MemmapEntry) : Type 0 where
  pub large : page_size < entry.entry_length
  pub ends : entry.entry_base + entry.entry_length < 2 ^ 64
  pub countable : entry.entry_length / page_size ≤ u32_max

-- The pages of the metadata fit into the region, so the allocator is made.
pub record Makes (entry : MemmapEntry) : Type 0 where
  pub metadata_pages : ℕ
  pub pa : PhysicalAllocator
  pub returns : make_allocator entry ≡ ok pa
  pub valid : IsValid pa
  pub free_pages :
      pool pa ≡ page_range metadata_pages (entry.entry_length / page_size - metadata_pages)
  pub same_size : pa.size ≡ entry.entry_length / page_size
  pub same_base : pa.address_base ≡ entry.entry_base

module _ (entry : MemmapEntry) (h : IsLarge entry) where
  abbrev pages : ℕ
  pages = entry.entry_length / page_size

  abbrev required : ℕ
  required = 64 + pages * 4 + (pages + (8 * 8 - 1)) / (8 * 8) * 8

  fresh : Initialises entry.entry_base (required / page_size + 1) pages
  fresh =
      init-Initialises entry.entry_base (required / page_size + 1) pages (omega arith)
        (omega (arith, h.large)) h.countable (omega (arith, h.ends)) (omega arith)

  required-eq : calculate_required_size pages ≡ ok required
  unfolding calculate_required_size
  required-eq = ground (arith, h.countable)

  pub make_allocator-Makes : Makes entry
  make_allocator-Makes = record {
    metadata_pages = required / page_size + 1;
    pa = fresh.start;
    returns = unfold make_allocator in ground (arith, required-eq, fresh.returns, h.large);
    valid = fresh.valid;
    free_pages = fresh.free_pages;
    same_size = fresh.same_size;
    same_base = fresh.same_base;
  }

-- Which allocators stand in which zone, in reverse, by the memory map alone.
pub record Lists : Type 0 where
  pub count : ℕ
  pub zone_16mb : List ℕ
  pub zone_4gb : List ℕ

abbrev pub enlist_large : MemmapEntry → Lists → Lists
enlist_large entry lists = record {
  count = suc lists.count;
  zone_16mb = if ends_below entry mb_16 then lists.count ∷ lists.zone_16mb else lists.zone_16mb;
  zone_4gb = if ends_below entry gb_4 then lists.count ∷ lists.zone_4gb else lists.zone_4gb;
}

abbrev pub enlist : MemmapKind → MemmapEntry → Lists → Lists
enlist usable entry lists =
    if leb entry.entry_length page_size then lists else enlist_large entry lists
enlist _ entry lists = lists

pub record Built (b : Building) (lists : Lists) (from : ℕ) : Type 0 where
  pub built : IsBuilt b (page_range 0 lists.count) lists.zone_16mb lists.zone_4gb from
  pub counted : length b.nodes ≡ lists.count

pub weaken :
    (b : Building) (lists : Lists) (from to : ℕ) → from ≤ to → Built b lists from → Built b lists to
weaken b lists from to h s = record {
  built = record {
    list = s.built.list;
    list_16mb = s.built.list_16mb;
    list_4gb = s.built.list_4gb;
    below_all = s.built.below_all;
    below_16mb = s.built.below_16mb;
    below_4gb = s.built.below_4gb;
    descending_all = s.built.descending_all;
    descending_16mb = s.built.descending_16mb;
    descending_4gb = s.built.descending_4gb;
    ends_16mb = s.built.ends_16mb;
    ends_4gb = s.built.ends_4gb;
    first_non = s.built.first_non;
    no_loop = s.built.no_loop;
    ranges = record {
      valid = s.built.ranges.valid;
      below = λ i lt. omega (arith, s.built.ranges.below i lt);
      apart = s.built.ranges.apart;
    };
  };
  counted = s.counted;
}

-- A new first allocator outside the zone of 16 MB.
pub first_non-IsBuilt :
    (b : Building) (all z16 z4 : List ℕ) (from n : ℕ)
    → IsBuilt b all z16 z4 from
    → n < length b.nodes
    → IsBuilt (record b { first_non_16mb = node n }) all z16 z4 from
first_non-IsBuilt b all z16 z4 from n s lt = record {
  list = s.list;
  list_16mb = s.list_16mb;
  list_4gb = s.list_4gb;
  below_all = s.below_all;
  below_16mb = s.below_16mb;
  below_4gb = s.below_4gb;
  descending_all = s.descending_all;
  descending_16mb = s.descending_16mb;
  descending_4gb = s.descending_4gb;
  ends_16mb = s.ends_16mb;
  ends_4gb = s.ends_4gb;
  first_non = inr (n, lt, refl);
  no_loop = s.no_loop;
  ranges = s.ranges;
}
