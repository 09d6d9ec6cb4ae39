-- ===== src/Zones/Append.antt =====
-- What holds of the lists while they are built, and a new allocator in no list yet.
use mathlib.Core.Path.{subst}
use native.Mathlib.Decide.{ℕ_discrete}
use drastic.Base.{
  ℕ, ◌+◌, ◌*◌, ◌≤◌, ◌<◌, ◌≡◌, refl, true, List, [], ◌∷◌, ◌++◌, length, length-append, arith, sym,
  ap, ◌⊎◌, inl, inr,
}
use drastic.PhysicalAllocator.{PhysicalAllocator, page_size}
use drastic.PhysicalAllocator.Pool.{has, Below}
use drastic.PhysicalAllocator.Valid.{IsValid}
use drastic.Zones.{Pointer, sentinel, node, Node}
use drastic.Zones.Chain.{node_at, NoLoop, AllValid}
use drastic.Zones.Valid.{EndsBelow}
use drastic.Zones.Setup.{Building, mb_16, gb_4, sentinel_links}
use drastic.Zones.Ends.{
  Field, ListState, Descending, ListState-frame, node_at-append_lt, node_at-append_last, has-Below,
}

abbrev pub next_field : Field
next_field = record {
  follow = λ links. links.next;
  put = λ p links. record links { next = p };
  follow-put = λ p links. refl;
}

abbrev pub field_16mb : Field
field_16mb = record {
  follow = λ links. links.next_16mb;
  put = λ p links. record links { next_16mb = p };
  follow-put = λ p links. refl;
}

abbrev pub field_4gb : Field
field_4gb = record {
  follow = λ links. links.next_4gb;
  put = λ p links. record links { next_4gb = p };
  follow-put = λ p links. refl;
}

-- The first address after the range of an allocator.
abbrev pub end_of : PhysicalAllocator → ℕ
end_of pa = pa.address_base + pa.size * page_size

-- The allocators, apart from how they are linked: valid, in ascending order, and below `from`.
pub record Ranges (nodes : List Node) (from : ℕ) : Type 0 where
  pub valid : AllValid nodes
  pub below : (i : ℕ) → i < length nodes → end_of (node_at nodes i).pa ≤ from
  pub apart :
      (i j : ℕ)
      → i < j
      → j < length nodes
      → end_of (node_at nodes i).pa ≤ (node_at nodes j).pa.address_base

-- The first allocator outside the zone of 16 MB, if there is one yet.
abbrev pub FirstNon : ℕ → Pointer → Type 0
FirstNon n p = (p ≡ sentinel) ⊎ ((m : ℕ) × (m < n) × (p ≡ node m))

pub record IsBuilt (b : Building) (all z16 z4 : List ℕ) (from : ℕ) : Type 0 where
  pub list : ListState next_field.follow b.base_links.next b.nodes b.last all
  pub list_16mb : ListState field_16mb.follow b.base_links.next_16mb b.nodes b.last_16mb z16
  pub list_4gb : ListState field_4gb.follow b.base_links.next_4gb b.nodes b.last_4gb z4
  pub below_all : Below (length b.nodes) all
  pub below_16mb : Below (length b.nodes) z16
  pub below_4gb : Below (length b.nodes) z4
  pub descending_all : Descending all
  pub descending_16mb : Descending z16
  pub descending_4gb : Descending z4
  pub ends_16mb : EndsBelow mb_16 b.nodes z16
  pub ends_4gb : EndsBelow gb_4 b.nodes z4
  pub first_non : FirstNon (length b.nodes) b.first_non_16mb
  pub no_loop : NoLoop b.nodes
  pub ranges : Ranges b.nodes from

pub Below-mono : (n m : ℕ) (rs : List ℕ) → n ≤ m → Below n rs → Below m rs
Below-mono n m [] h b = tt
Below-mono n m (r ∷ rs) h b = (omega (arith, b.0), Below-mono n m rs h b.1)

pub EndsBelow-frame :
    (limit : ℕ) (nodes nodes' : List Node) (rs : List ℕ)
    → ((i : ℕ) → has i rs ≡ true → (node_at nodes' i).pa ≡ (node_at nodes i).pa)
    → EndsBelow limit nodes rs
    → EndsBelow limit nodes' rs
EndsBelow-frame limit nodes nodes' [] same e = tt
EndsBelow-frame limit nodes nodes' (r ∷ rs) same e = (
  subst (λ pa. end_of pa ≤ limit) (sym (same r (ground arith))) e.0,
  EndsBelow-frame limit nodes nodes' rs (λ i h. same i (ground (arith, h))) e.1,
)

pub Ranges-frame :
    (nodes nodes' : List Node) (from : ℕ)
    → length nodes' ≡ length nodes
    → ((i : ℕ) → (node_at nodes' i).pa ≡ (node_at nodes i).pa)
    → Ranges nodes from
    → Ranges nodes' from
Ranges-frame nodes nodes' from l same r = record {
  valid = λ i h. rw (same i) (r.valid i (rw l at h));
  below = λ i h. rw (same i) (r.below i (rw l at h));
  apart = λ i j lt h. rw (same i, same j) (r.apart i j lt (rw l at h));
}

-- A new allocator, in no list yet.
module _ (b : Building) (all z16 z4 : List ℕ) (from : ℕ) (s : IsBuilt b all z16 z4 from)
    (pa : PhysicalAllocator) (w : IsValid pa) (above : from ≤ pa.address_base) where
  abbrev pub with_new : Building
  with_new = record b { nodes = b.nodes ++ record { pa = pa; links = sentinel_links } ∷ [] }

  new_length : length with_new.nodes ≡ length b.nodes + 1
  new_length = length-append b.nodes _

  old : (i : ℕ) → i < length b.nodes → node_at with_new.nodes i ≡ node_at b.nodes i
  old i h = node_at-append_lt b.nodes _ i h

  old_or_new :
      (P : Node → Type 0)
      → ((i : ℕ) → i < length b.nodes → P (node_at b.nodes i))
      → P (record { pa = pa; links = sentinel_links })
      → (i : ℕ) → i < length with_new.nodes
      → P (node_at with_new.nodes i)
  old_or_new P before new i h = elim (ℕ_discrete i (length b.nodes)) [
    | yes e ↦ rw e (rw (node_at-append_last b.nodes) new)
    | no ne ↦ let lt : i < length b.nodes = omega (arith, new_length) in rw (old i lt) (before i lt)
  ]

  new_state :
      (f : Field) (last : Pointer) (rs : List ℕ)
      → Below (length b.nodes) rs
      → ListState f.follow (f.follow b.base_links) b.nodes last rs
      → ListState f.follow (f.follow b.base_links) with_new.nodes last rs
  new_state f last rs below =
      ListState-frame f.follow (f.follow b.base_links) b.nodes with_new.nodes
        (omega (arith, new_length)) last rs
        (λ i h. ap (λ n. f.follow n.links) (old i (has-Below (length b.nodes) i rs below h)))

  new_ends :
      (limit : ℕ) (rs : List ℕ)
      → Below (length b.nodes) rs
      → EndsBelow limit b.nodes rs
      → EndsBelow limit with_new.nodes rs
  new_ends limit rs below =
      EndsBelow-frame limit b.nodes with_new.nodes rs
        (λ i h. ap (λ n. n.pa) (old i (has-Below (length b.nodes) i rs below h)))

  new_first :
      FirstNon (length b.nodes) b.first_non_16mb → FirstNon (length with_new.nodes) b.first_non_16mb
  new_first (inl e) = inl e
  new_first (inr (m, lt, e)) = inr (m, omega (arith, new_length), e)

  new-Ranges : Ranges with_new.nodes (end_of pa)
  new-Ranges = record {
    valid = old_or_new (λ n. IsValid n.pa) s.ranges.valid w;
    below =
        old_or_new (λ n. end_of n.pa ≤ end_of pa) (λ i h. omega (arith, s.ranges.below i h))
          (omega arith);
    apart = λ i j lt h.
        let i_lt : i < length b.nodes = omega (arith, new_length) in
        rw (old i i_lt) (elim (ℕ_discrete j (length b.nodes)) [
          | yes e ↦ rw e (rw (node_at-append_last b.nodes) (omega (arith, s.ranges.below i i_lt)))
          | no ne ↦
              let j_lt : j < length b.nodes = omega (arith, new_length) in
              rw (old j j_lt) (s.ranges.apart i j lt j_lt)
        ]);
  }

  pub new-IsBuilt : IsBuilt with_new all z16 z4 (end_of pa)
  new-IsBuilt = record {
    list = new_state next_field b.last all s.below_all s.list;
    list_16mb = new_state field_16mb b.last_16mb z16 s.below_16mb s.list_16mb;
    list_4gb = new_state field_4gb b.last_4gb z4 s.below_4gb s.list_4gb;
    below_all = Below-mono _ _ all (omega (arith, new_length)) s.below_all;
    below_16mb = Below-mono _ _ z16 (omega (arith, new_length)) s.below_16mb;
    below_4gb = Below-mono _ _ z4 (omega (arith, new_length)) s.below_4gb;
    descending_all = s.descending_all;
    descending_16mb = s.descending_16mb;
    descending_4gb = s.descending_4gb;
    ends_16mb = new_ends mb_16 z16 s.below_16mb s.ends_16mb;
    ends_4gb = new_ends gb_4 z4 s.below_4gb s.ends_4gb;
    first_non = new_first s.first_non;
    no_loop = λ i h. elim (ℕ_discrete i (length b.nodes)) [
      | yes e ↦ rw e (rw (node_at-append_last b.nodes) λ loop. cc)
      | no ne ↦
          let lt : i < length b.nodes = omega (arith, new_length) in rw (old i lt) (s.no_loop i lt)
    ];
    ranges = new-Ranges;
  }

pub node-injective : (i j : ℕ) → node i ≡ node j → i ≡ j
node-injective i j e = cc
