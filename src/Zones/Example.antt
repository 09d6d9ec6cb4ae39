-- ===== src/Zones/Example.antt =====
-- The allocators that the set-up makes of a small memory map, in well-formed lists.
use drastic.Base.{ℕ, zero, suc, ◌<◌, ◌≡◌, refl, true, [], ◌∷◌, arith, if◌then◌else◌}
use drastic.Base.Int.{pos}
use drastic.PhysicalAllocator.Bitmap.{mark}
use drastic.PhysicalAllocator.{PhysicalAllocator}
use drastic.PhysicalAllocator.Valid.{IsValid, pool}
use drastic.PhysicalAllocator.Pool.{has}
use drastic.Zones.{sentinel, node, Paging}
use drastic.Zones.Chain.{AllValid, NoLoop}
use drastic.Zones.Valid.{Apart, Layout, IsWellFormed}
use drastic.Zones.RoundTrip.{NoHugeRegion}

-- What the set-up makes of it.
abbrev pub low : PhysicalAllocator
low = record {
  size = 3;
  stack_top = pos 1;
  pages_bitmap = 1 ∷ [];
  pages_stack = 1 ∷ 2 ∷ 0 ∷ [];
  address_base = 0x10000;
}

abbrev pub mid : PhysicalAllocator
mid = record {
  size = 2;
  stack_top = pos 0;
  pages_bitmap = 1 ∷ [];
  pages_stack = 1 ∷ 0 ∷ [];
  address_base = 0x100000;
}

abbrev pub high : PhysicalAllocator
high = record low { address_base = 0x2000000 }

abbrev pub small : Paging
small = record {
  nodes =
      record { pa = low; links = record { next = node 1; next_16mb = node 1; next_4gb = node 1 } }
      ∷ record {
        pa = mid;
        links = record { next = node 2; next_16mb = sentinel; next_4gb = node 2 };
      }
      ∷ record {
        pa = high;
        links = record { next = sentinel; next_16mb = sentinel; next_4gb = sentinel };
      }
      ∷ [];
  first = node 0;
  first_16mb = node 0;
  first_4gb = node 0;
  last = node 2;
  last_16mb = node 1;
  last_4gb = node 2;
  first_non_16mb = node 2;
}

abbrev pub small_layout : Layout
small_layout = record {
  all = 0 ∷ 1 ∷ 2 ∷ [];
  zone_16mb = 0 ∷ 1 ∷ [];
  zone_4gb = 0 ∷ 1 ∷ 2 ∷ [];
  non_16mb = 2 ∷ [];
}

low-marks : (p : ℕ) → p < 3 → mark (1 ∷ []) p ≡ (if has p (pool low) then 0 else 1)
low-marks zero h = refl
low-marks (suc zero) h = refl
low-marks (suc (suc zero)) h = refl
low-marks (suc (suc (suc p))) h = absurd (omega arith)

mid-marks : (p : ℕ) → p < 2 → mark (1 ∷ []) p ≡ (if has p (pool mid) then 0 else 1)
mid-marks zero h = refl
mid-marks (suc zero) h = refl
mid-marks (suc (suc p)) h = absurd (omega arith)

low-IsValid : IsValid low
low-IsValid = record {
  size_pos = omega arith;
  size_max = omega arith;
  fits = omega arith;
  bitmap_length = refl;
  stack_length = refl;
  top_valid = refl;
  distinct = (refl, (refl, tt));
  below = omega arith;
  marks = low-marks;
}

mid-IsValid : IsValid mid
mid-IsValid = record {
  size_pos = omega arith;
  size_max = omega arith;
  fits = omega arith;
  bitmap_length = refl;
  stack_length = refl;
  top_valid = refl;
  distinct = (refl, tt);
  below = omega arith;
  marks = mid-marks;
}

high-IsValid : IsValid high
high-IsValid = record {
  size_pos = omega arith;
  size_max = omega arith;
  fits = omega arith;
  bitmap_length = refl;
  stack_length = refl;
  top_valid = refl;
  distinct = (refl, (refl, tt));
  below = omega arith;
  marks = low-marks;
}

small-AllValid : AllValid small.nodes
small-AllValid zero h = low-IsValid
small-AllValid (suc zero) h = mid-IsValid
small-AllValid (suc (suc zero)) h = high-IsValid
small-AllValid (suc (suc (suc i))) h = absurd (omega arith)

small-NoLoop : NoLoop small.nodes
small-NoLoop zero h = λ e. cc
small-NoLoop (suc zero) h = λ e. cc
small-NoLoop (suc (suc zero)) h = λ e. cc
small-NoLoop (suc (suc (suc i))) h = absurd (omega arith)

small_complete : (i : ℕ) → i < 3 → has i (0 ∷ 1 ∷ 2 ∷ []) ≡ true
small_complete i h = ground arith

small-Apart : Apart small.nodes
small-Apart zero zero a h k p q = refl
small-Apart zero (suc zero) a h k p q = ground arith
small-Apart zero (suc (suc zero)) a h k p q = ground arith
small-Apart zero (suc (suc (suc j))) a h k p q = absurd (omega arith)
small-Apart (suc zero) zero a h k p q = ground arith
small-Apart (suc zero) (suc zero) a h k p q = refl
small-Apart (suc zero) (suc (suc zero)) a h k p q = ground arith
small-Apart (suc zero) (suc (suc (suc j))) a h k p q = absurd (omega arith)
small-Apart (suc (suc zero)) zero a h k p q = ground arith
small-Apart (suc (suc zero)) (suc zero) a h k p q = ground arith
small-Apart (suc (suc zero)) (suc (suc zero)) a h k p q = refl
small-Apart (suc (suc zero)) (suc (suc (suc j))) a h k p q = absurd (omega arith)
small-Apart (suc (suc (suc i))) j a h k p q = absurd (omega arith)

pub small-IsWellFormed : IsWellFormed small small_layout
small-IsWellFormed = record {
  chain = (refl, omega arith, (refl, omega arith, (refl, omega arith, refl)));
  chain_16mb = (refl, omega arith, (refl, omega arith, refl));
  chain_4gb = (refl, omega arith, (refl, omega arith, (refl, omega arith, refl)));
  chain_non_16mb = (refl, omega arith, refl);
  short = omega arith;
  short_16mb = omega arith;
  short_4gb = omega arith;
  short_non_16mb = omega arith;
  complete = small_complete;
  below_16mb = omega arith;
  below_4gb = omega arith;
  no_loop = small-NoLoop;
  valid = small-AllValid;
  apart = small-Apart;
}

pub small-NoHugeRegion : NoHugeRegion small
small-NoHugeRegion zero h = omega arith
small-NoHugeRegion (suc zero) h = omega arith
small-NoHugeRegion (suc (suc zero)) h = omega arith
small-NoHugeRegion (suc (suc (suc i))) h = absurd (omega arith)
