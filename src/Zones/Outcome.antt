-- ===== src/Zones/Outcome.antt =====
-- What every call of `system_paging_physical_alloc` on well-formed lists returns.
use drastic.Base.{
  ℕ, ◌+◌, ◌*◌, ◌≤◌, ◌<◌, ◌≡◌, refl, true, ◌||◌, ◌==◌, List, [], ◌∷◌, ◌++◌, length, Option, none,
  some, Result, ok, arith, ◌⊎◌, inl, inr, Bool-cases, ==_iff,
}
use mathlib.Core.Path.{subst}
use drastic.PhysicalAllocator.{PhysicalAllocator, page_size}
use drastic.PhysicalAllocator.Pool.{has, Below}
use drastic.PhysicalAllocator.Valid.{IsValid, pool}
use drastic.PhysicalAllocator.Alloc.{handed_address, SameRange}
use drastic.Zones.{
  Links, Pointer, Node, Paging, PageKind, normal, page_16mb, page_4gb, physical_alloc,
}
use drastic.Zones.Setup.{mb_16, gb_4}
use drastic.Zones.Chain.{node_at, Chain}
use drastic.Zones.Alloc.{FirstGives, GivesOr, with_pa}
use drastic.Zones.Valid.{Layout, IsWellFormed, candidates, EndsBelow, with_pa-IsWellFormed}
use drastic.Zones.Kinds.{keep_in, physical_alloc-FirstGives}

-- Allocator `i`, one of `is`, gave its page `page` to the call that returned `out`.
pub record Gave {S : Type 0} (keep : List Node → S) (nodes : List Node) (is : List ℕ)
    (out : Result (Option ℕ × S)) : Type 0 where
  pub i : ℕ
  pub page : ℕ
  pub pages : List ℕ
  pub after : PhysicalAllocator
  pub member : has i is ≡ true
  pub from_pool : pool (node_at nodes i).pa ≡ page ∷ pages
  pub returns :
      out ≡ ok (some (handed_address (node_at nodes i).pa page), keep (with_pa nodes i after))
  pub valid : IsValid after
  pub to_pool : pool after ≡ pages
  pub same : SameRange (node_at nodes i).pa after

module _ {S : Type 0} (keep : List Node → S) (nodes : List Node) (out : Result (Option ℕ × S)) where
  later-Gave :
      (i : ℕ) (is : List ℕ)
      → (out ≡ ok (none, keep nodes)) ⊎ Gave keep nodes is out
      → (out ≡ ok (none, keep nodes)) ⊎ Gave keep nodes (i ∷ is) out
  later-Gave i is (inl e) = inl e
  later-Gave i is (inr g) = inr (record {
    i = g.i;
    page = g.page;
    pages = g.pages;
    after = g.after;
    member = ground (arith, g.member);
    from_pool = g.from_pool;
    returns = g.returns;
    valid = g.valid;
    to_pool = g.to_pool;
    same = g.same;
  })

  Gave-by_pages :
      (i : ℕ) (is pages : List ℕ)
      → pool (node_at nodes i).pa ≡ pages
      → GivesOr keep nodes i pages out (FirstGives keep nodes is out)
      → (FirstGives keep nodes is out → (out ≡ ok (none, keep nodes)) ⊎ Gave keep nodes is out)
      → (out ≡ ok (none, keep nodes)) ⊎ Gave keep nodes (i ∷ is) out
  Gave-by_pages i is [] p g rest = later-Gave i is (rest g)
  Gave-by_pages i is (q ∷ pages) p (after, e, w, same_pool, same) rest = inr (record {
    i = i;
    page = q;
    pages = pages;
    after = after;
    member = ground arith;
    from_pool = p;
    returns = e;
    valid = w;
    to_pool = same_pool;
    same = same;
  })

  pub Gave-cases :
      (is : List ℕ)
      → FirstGives keep nodes is out
      → (out ≡ ok (none, keep nodes)) ⊎ Gave keep nodes is out
  Gave-cases [] g = inl g
  Gave-cases (i ∷ is) g = Gave-by_pages i is (pool (node_at nodes i).pa) refl g (Gave-cases is)

has-append : (i : ℕ) (xs ys : List ℕ) → has i (xs ++ ys) ≡ (has i xs || has i ys)
has-append i [] ys = refl
has-append i (x ∷ xs) ys = ground (arith, has-append i xs ys)

pub Chain-has :
    (follow : Links → Pointer) (nodes : List Node) (is : List ℕ) (i : ℕ) (p : Pointer)
    → Chain follow nodes p is
    → has i is ≡ true
    → i < length nodes
Chain-has follow nodes [] i p c h = absurd (ground arith)
Chain-has follow nodes (j ∷ is) i p (e, lt, c) h =
    ground (arith, lt, Chain-has follow nodes is i (follow (node_at nodes j).links) c)

EndsBelow-has :
    (limit : ℕ) (nodes : List Node) (is : List ℕ) (i : ℕ)
    → EndsBelow limit nodes is
    → has i is ≡ true
    → (node_at nodes i).pa.address_base + (node_at nodes i).pa.size * page_size ≤ limit
EndsBelow-has limit nodes [] i b h = absurd (ground arith)
EndsBelow-has limit nodes (j ∷ is) i b h = elim (Bool-cases (j == i)) [
  | inl e ↦ rw (← (==_iff j i).0 e) b.0
  | inr ne ↦ EndsBelow-has limit nodes is i b.1 (ground arith)
]

-- An address that the zone of the call allows.
abbrev pub InZone : PageKind → ℕ → Type 0
InZone normal address = Unit
InZone page_16mb address = address < mb_16
InZone page_4gb address = address < gb_4

-- An address inside the range of an allocator.
abbrev pub InRangeOf : PhysicalAllocator → ℕ → Type 0
InRangeOf pa address =
    (pa.address_base ≤ address) × (address < pa.address_base + pa.size * page_size)

module _ (paging : Paging) (l : Layout) (f : IsWellFormed paging l) where
  pub candidate-lt :
      (kind : PageKind) (i : ℕ) → has i (candidates kind l) ≡ true → i < length paging.nodes
  candidate-lt normal i h = elim (Bool-cases (has i l.non_16mb)) [
    | inl e ↦
        Chain-has (λ links. links.next) paging.nodes l.non_16mb i paging.first_non_16mb
          f.chain_non_16mb e
    | inr ne ↦
        Chain-has (λ links. links.next_16mb) paging.nodes l.zone_16mb i paging.first_16mb
          f.chain_16mb (ground (arith, has-append i l.non_16mb l.zone_16mb))
  ]
  candidate-lt page_16mb i h =
      Chain-has (λ links. links.next_16mb) paging.nodes l.zone_16mb i paging.first_16mb f.chain_16mb
        h
  candidate-lt page_4gb i h =
      Chain-has (λ links. links.next_4gb) paging.nodes l.zone_4gb i paging.first_4gb f.chain_4gb h

  handed_in_range :
      (i q : ℕ) (pages : List ℕ)
      → i < length paging.nodes
      → pool (node_at paging.nodes i).pa ≡ q ∷ pages
      → InRangeOf (node_at paging.nodes i).pa (handed_address (node_at paging.nodes i).pa q)
  handed_in_range i q pages lt e =
      let b : Below (node_at paging.nodes i).pa.size (q ∷ pages) =
        subst (Below (node_at paging.nodes i).pa.size) e (f.valid i lt).below in
      omega (arith, b.0)

  in_zone :
      (kind : PageKind) (i address : ℕ)
      → has i (candidates kind l) ≡ true
      → InRangeOf (node_at paging.nodes i).pa address
      → InZone kind address
  in_zone normal i address h r = tt
  in_zone page_16mb i address h r =
      omega (arith, r.1, EndsBelow-has mb_16 paging.nodes l.zone_16mb i f.below_16mb h)
  in_zone page_4gb i address h r =
      omega (arith, r.1, EndsBelow-has gb_4 paging.nodes l.zone_4gb i f.below_4gb h)

-- A call that was served: the page lies in the range of the allocator `i` and in the zone that was
-- asked for, and the lists stay well formed.
pub record Served (paging : Paging) (l : Layout) (kind : PageKind) : Type 0 where
  pub i : ℕ
  pub address : ℕ
  pub after : Paging
  pub returns : physical_alloc kind paging ≡ ok (some address, after)
  pub candidate : has i (candidates kind l) ≡ true
  pub in_range : InRangeOf (node_at paging.nodes i).pa address
  pub in_zone : InZone kind address
  pub well_formed : IsWellFormed after l

-- On well-formed lists every call either fails and changes nothing, or returns an address in the
-- range of a candidate allocator and inside the zone that was asked for, and keeps the lists well
-- formed.
pub physical_alloc_cases :
    (paging : Paging) (l : Layout) (kind : PageKind)
    → IsWellFormed paging l
    → (physical_alloc kind paging ≡ ok (none, paging)) ⊎ Served paging l kind
physical_alloc_cases paging l kind f = from_cases (
    Gave-cases (keep_in paging) paging.nodes (physical_alloc kind paging) (candidates kind l)
      (physical_alloc-FirstGives paging l f kind))
  where
    from_cases :
        (physical_alloc kind paging ≡ ok (none, paging))
          ⊎ Gave (keep_in paging) paging.nodes (candidates kind l) (physical_alloc kind paging)
        → (physical_alloc kind paging ≡ ok (none, paging)) ⊎ Served paging l kind
    from_cases (inl e) = inl e
    from_cases (inr g) =
        let lt = candidate-lt paging l f kind g.i g.member in
        let r = handed_in_range paging l f g.i g.page g.pages lt g.from_pool in
        inr (record {
          i = g.i;
          address = handed_address (node_at paging.nodes g.i).pa g.page;
          after = keep_in paging (with_pa paging.nodes g.i g.after);
          returns = g.returns;
          candidate = g.member;
          in_range = r;
          in_zone = in_zone paging l f kind g.i _ g.member r;
          well_formed = with_pa-IsWellFormed paging l g.i g.after f lt g.valid g.same;
        })
