-- ===== src/Zones/Valid.antt =====
-- When the three lists of allocators are well formed.
use mathlib.Core.Path.{subst}
use native.Mathlib.Decide.{ℕ_discrete}
use drastic.Base.{
  ℕ, ◌+◌, ◌*◌, ◌≤◌, ◌<◌, ◌≡◌, ◌≢◌, refl, true, List, [], ◌∷◌, ◌++◌, length, arith, length-set,
  get_or-set_ne, get_or-set_self, ap, sym, ◌∙◌,
}
use drastic.PhysicalAllocator.{PhysicalAllocator, page_size}
use drastic.PhysicalAllocator.Pool.{has}
use drastic.PhysicalAllocator.Valid.{IsValid}
use drastic.PhysicalAllocator.Alloc.{SameRange}
use drastic.Zones.{
  Pointer, Links, Node, sentinel_node, Paging, PageKind, normal, page_16mb, page_4gb, holds,
}
use drastic.Zones.Setup.{mb_16, gb_4}
use drastic.Zones.Chain.{node_at, Chain, NoLoop, AllValid}
use drastic.Zones.Alloc.{with_pa}

-- The allocators of each list, in its order.
pub record Layout : Type 0 where
  pub all : List ℕ
  pub zone_16mb : List ℕ
  pub zone_4gb : List ℕ
  pub non_16mb : List ℕ

-- The allocators `is` manage memory below `limit`.
abbrev pub EndsBelow : ℕ → List Node → List ℕ → Type 0
EndsBelow limit nodes [] = Unit
EndsBelow limit nodes (i ∷ is) =
    ((node_at nodes i).pa.address_base + (node_at nodes i).pa.size * page_size ≤ limit)
    × EndsBelow limit nodes is

-- No address is managed by two allocators.
abbrev pub Apart : List Node → Type 0
Apart nodes =
    (i j address : ℕ)
    → i < length nodes
    → j < length nodes
    → holds (node_at nodes i).pa address ≡ true
    → holds (node_at nodes j).pa address ≡ true
    → i ≡ j

pub record IsWellFormed (paging : Paging) (l : Layout) : Type 0 where
  pub chain : Chain (λ links. links.next) paging.nodes paging.first l.all
  pub chain_16mb : Chain (λ links. links.next_16mb) paging.nodes paging.first_16mb l.zone_16mb
  pub chain_4gb : Chain (λ links. links.next_4gb) paging.nodes paging.first_4gb l.zone_4gb
  pub chain_non_16mb : Chain (λ links. links.next) paging.nodes paging.first_non_16mb l.non_16mb
  pub short : length l.all ≤ length paging.nodes
  pub short_16mb : length l.zone_16mb ≤ length paging.nodes
  pub short_4gb : length l.zone_4gb ≤ length paging.nodes
  pub short_non_16mb : length l.non_16mb ≤ length paging.nodes
  pub complete : (i : ℕ) → i < length paging.nodes → has i l.all ≡ true
  pub below_16mb : EndsBelow mb_16 paging.nodes l.zone_16mb
  pub below_4gb : EndsBelow gb_4 paging.nodes l.zone_4gb
  pub no_loop : NoLoop paging.nodes
  pub valid : AllValid paging.nodes
  pub apart : Apart paging.nodes

-- The allocators that a call may use, in the order in which it tries them.
abbrev pub candidates : PageKind → Layout → List ℕ
candidates normal l = l.non_16mb ++ l.zone_16mb
candidates page_16mb l = l.zone_16mb
candidates page_4gb l = l.zone_4gb

module _ (nodes : List Node) (i : ℕ) (after : PhysicalAllocator) (lt : i < length nodes)
    (w : IsValid after) (same : SameRange (node_at nodes i).pa after) where
  pub replaced_self :
      node_at (with_pa nodes i after) i ≡ record { pa = after; links = (node_at nodes i).links }
  replaced_self = get_or-set_self nodes i _ sentinel_node lt

  pub replaced_ne : (j : ℕ) → i ≢ j → node_at (with_pa nodes i after) j ≡ node_at nodes j
  replaced_ne j ne = get_or-set_ne nodes i j _ sentinel_node ne

  pub same_length : length (with_pa nodes i after) ≡ length nodes
  same_length = length-set nodes i _

  same_links : (j : ℕ) → (node_at (with_pa nodes i after) j).links ≡ (node_at nodes j).links
  same_links j = elim (ℕ_discrete i j) [
    | yes e ↦
        subst (λ k. (node_at (with_pa nodes i after) k).links ≡ (node_at nodes k).links) e
          (ap (λ n. n.links) replaced_self)
    | no ne ↦ ap (λ n. n.links) (replaced_ne j ne)
  ]

  pub same_range : (j : ℕ) → SameRange (node_at nodes j).pa (node_at (with_pa nodes i after) j).pa
  same_range j = elim (ℕ_discrete i j) [
    | yes e ↦
        subst (λ k. SameRange (node_at nodes k).pa (node_at (with_pa nodes i after) k).pa) e
          (rw replaced_self same)
    | no ne ↦ rw (replaced_ne j ne) (record { same_size = refl; same_base = refl })
  ]

  Chain-with_pa :
      (follow : Links → Pointer) (is : List ℕ) (p : Pointer)
      → Chain follow nodes p is
      → Chain follow (with_pa nodes i after) p is
  Chain-with_pa follow [] p c = c
  Chain-with_pa follow (j ∷ is) p (e, h, c) = (
    e,
    rw same_length h,
    rw (same_links j) (Chain-with_pa follow is (follow (node_at nodes j).links) c),
  )

  EndsBelow-with_pa :
      (limit : ℕ) (is : List ℕ)
      → EndsBelow limit nodes is
      → EndsBelow limit (with_pa nodes i after) is
  EndsBelow-with_pa limit [] b = tt
  EndsBelow-with_pa limit (j ∷ is) b = (
    omega (arith, b.0, (same_range j).same_size, (same_range j).same_base),
    EndsBelow-with_pa limit is b.1,
  )

  AllValid-with_pa : AllValid nodes → AllValid (with_pa nodes i after)
  AllValid-with_pa valid j h = elim (ℕ_discrete i j) [
    | yes e ↦ subst (λ k. IsValid (node_at (with_pa nodes i after) k).pa) e (rw replaced_self w)
    | no ne ↦ rw (replaced_ne j ne) (valid j (rw same_length at h))
  ]

  holds-with_pa :
      (j address : ℕ)
      → holds (node_at (with_pa nodes i after) j).pa address ≡ holds (node_at nodes j).pa address
  holds-with_pa j address = rw ((same_range j).same_size, (same_range j).same_base)

  Apart-with_pa : Apart nodes → Apart (with_pa nodes i after)
  Apart-with_pa apart j k address hj hk p q =
      apart j k address (rw same_length at hj) (rw same_length at hk)
        (sym (holds-with_pa j address) ∙ p) (sym (holds-with_pa k address) ∙ q)

-- Replacing an allocator by a valid one of the same range keeps the lists well formed.
pub with_pa-IsWellFormed :
    (paging : Paging) (l : Layout) (i : ℕ) (after : PhysicalAllocator)
    → IsWellFormed paging l
    → i < length paging.nodes
    → IsValid after
    → SameRange (node_at paging.nodes i).pa after
    → IsWellFormed (record paging { nodes = with_pa paging.nodes i after }) l
with_pa-IsWellFormed paging l i after f lt w same =
    let n = paging.nodes in
    record {
      chain = Chain-with_pa n i after lt w same (λ links. links.next) l.all paging.first f.chain;
      chain_16mb =
          Chain-with_pa n i after lt w same (λ links. links.next_16mb) l.zone_16mb paging.first_16mb
            f.chain_16mb;
      chain_4gb =
          Chain-with_pa n i after lt w same (λ links. links.next_4gb) l.zone_4gb paging.first_4gb
            f.chain_4gb;
      chain_non_16mb =
          Chain-with_pa n i after lt w same (λ links. links.next) l.non_16mb paging.first_non_16mb
            f.chain_non_16mb;
      short = rw (same_length n i after lt w same) f.short;
      short_16mb = rw (same_length n i after lt w same) f.short_16mb;
      short_4gb = rw (same_length n i after lt w same) f.short_4gb;
      short_non_16mb = rw (same_length n i after lt w same) f.short_non_16mb;
      complete = λ j h. f.complete j (rw (same_length n i after lt w same) at h);
      below_16mb = EndsBelow-with_pa n i after lt w same mb_16 l.zone_16mb f.below_16mb;
      below_4gb = EndsBelow-with_pa n i after lt w same gb_4 l.zone_4gb f.below_4gb;
      no_loop = λ j h.
          rw (same_links n i after lt w same j)
            (f.no_loop j (rw (same_length n i after lt w same) at h));
      valid = AllValid-with_pa n i after lt w same f.valid;
      apart = Apart-with_pa n i after lt w same f.apart;
    }
