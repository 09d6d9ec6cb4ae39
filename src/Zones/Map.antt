-- ===== src/Zones/Map.antt =====
-- The set-up as a whole: from the memory map to well-formed lists.
use drastic.Base.{
  ℕ, ◌+◌, ◌/◌, ◌^◌, ◌≤◌, ◌<◌, ◌≡◌, refl, true, ◌||◌, ◌==◌, List, [], ◌∷◌, length, ok, arith, sym,
  ap, inl, inr, if◌then◌else◌, Bool-cases, leb, ==_iff,
}
use drastic.PhysicalAllocator.{page_size, u32_max}
use drastic.PhysicalAllocator.Pool.{has, Below}
use drastic.Zones.{Pointer, sentinel, node, Links, Node}
use drastic.Zones.Chain.{node_at, Chain}
use drastic.Zones.Valid.{EndsBelow}
use drastic.Zones.Setup.{
  Building, MemmapEntry, MemmapKind, usable, add_usable, add_entry, add_entries,
}
use drastic.Zones.Ends.{Ends, ListState, Descending}
use drastic.Zones.Establish.{add_large}
use drastic.Zones.Enlist.{Lists, enlist, Built, weaken}

-- What the boot protocol says of the usable regions: they ascend and do not overlap. A region of more
-- than 2^32 - 1 pages would be refused.
abbrev pub FitsAt : MemmapKind → ℕ → MemmapEntry → Type 0
FitsAt usable from entry =
    (from ≤ entry.entry_base)
    × (entry.entry_base + entry.entry_length < 2 ^ 64)
    × (entry.entry_length / page_size ≤ u32_max)
FitsAt _ from entry = Unit

abbrev pub end_after : MemmapKind → ℕ → MemmapEntry → ℕ
end_after usable from entry = entry.entry_base + entry.entry_length
end_after _ from entry = from

abbrev pub MapFits : ℕ → List MemmapEntry → Type 0
MapFits from [] = Unit
MapFits from (entry ∷ entries) =
    FitsAt entry.kind from entry × MapFits (end_after entry.kind from entry) entries

abbrev pub no_lists : Lists
no_lists = record { count = 0; zone_16mb = []; zone_4gb = [] }

abbrev pub enlist_all : List MemmapEntry → Lists → Lists
enlist_all [] lists = lists
enlist_all (entry ∷ entries) lists = enlist_all entries (enlist entry.kind entry lists)

add_usable-Built :
    (entry : MemmapEntry) (b : Building) (lists : Lists) (from : ℕ)
    → FitsAt usable from entry
    → Built b lists from
    → (after : Building) × (add_usable entry b ≡ ok after)
      × Built after (enlist usable entry lists) (entry.entry_base + entry.entry_length)
add_usable-Built entry b lists from fits s = elim (Bool-cases (leb entry.entry_length page_size)) [
  | inl small ↦ (
    b,
    unfold add_usable in rw small,
    rw small (weaken b lists from (entry.entry_base + entry.entry_length) (omega arith) s),
  )
  | inr large ↦ rw large (
      add_large entry (record { large = ground arith; ends = fits.1; countable = fits.2 }) b lists
        from s fits.0)
]

add_entry-Built :
    (kind : MemmapKind) (entry : MemmapEntry) (b : Building) (lists : Lists) (from : ℕ)
    → FitsAt kind from entry
    → Built b lists from
    → (after : Building) × (add_entry kind entry b ≡ ok after)
      × Built after (enlist kind entry lists) (end_after kind from entry)
unfolding add_entry
add_entry-Built usable entry b lists from fits s = add_usable-Built entry b lists from fits s
add_entry-Built _ entry b lists from fits s = (b, refl, s)

pub add_entries-Built :
    (entries : List MemmapEntry) (b : Building) (lists : Lists) (from : ℕ)
    → MapFits from entries
    → Built b lists from
    → (after : Building) × (to : ℕ) × (add_entries entries b ≡ ok after)
      × Built after (enlist_all entries lists) to
unfolding add_entries
add_entries-Built [] b lists from fits s = (b, from, refl, s)
add_entries-Built (entry ∷ entries) b lists from fits s =
    let (b', e, s') = add_entry-Built entry.kind entry b lists from fits.0 s in
    let (after, to, e', s'') =
      add_entries-Built entries b' (enlist entry.kind entry lists) (end_after entry.kind from entry)
        fits.1 s' in
    (after, to, rw e e', s'')

-- The list `rs`, reversed, in front of `is`.
abbrev pub rev_onto : List ℕ → List ℕ → List ℕ
rev_onto [] is = is
rev_onto (k ∷ rs) is = rev_onto rs (k ∷ is)

Ends-Chain :
    (follow : Links → Pointer) (start : Pointer) (nodes : List Node) (rs is : List ℕ)
    (target : Pointer)
    → Ends follow start nodes rs target
    → Chain follow nodes target is
    → Chain follow nodes start (rev_onto rs is)
Ends-Chain follow start nodes [] is target e c = rw e c
Ends-Chain follow start nodes (k ∷ rs) is target (e, lt, to) c =
    Ends-Chain follow start nodes rs (k ∷ is) (node k) e (refl, lt, rw to c)

pub ListState-Chain :
    (follow : Links → Pointer) (start last : Pointer) (nodes : List Node) (rs : List ℕ)
    → 0 < length rs
    → ListState follow start nodes last rs
    → Chain follow nodes start (rev_onto rs [])
ListState-Chain follow start last nodes [] h s = absurd (omega arith)
ListState-Chain follow start last nodes (k ∷ rs) h s =
    Ends-Chain follow start nodes (k ∷ rs) [] sentinel s.1 refl

pub length-rev_onto : (rs is : List ℕ) → length (rev_onto rs is) ≡ length rs + length is
length-rev_onto [] is = omega arith
length-rev_onto (k ∷ rs) is = omega (arith, length-rev_onto rs (k ∷ is))

pub length-le_of_Descending : (n : ℕ) (rs : List ℕ) → Descending rs → Below n rs → length rs ≤ n
length-le_of_Descending n [] d b = omega arith
length-le_of_Descending n (k ∷ rs) d b = omega (arith, b.0, length-le_of_Descending k rs d.1 d.0)

pub has-rev_onto : (i : ℕ) (rs is : List ℕ) → has i (rev_onto rs is) ≡ (has i rs || has i is)
has-rev_onto i [] is = refl
has-rev_onto i (k ∷ rs) is = ground (arith, has-rev_onto i rs (k ∷ is))

pub EndsBelow-rev_onto :
    (limit : ℕ) (nodes : List Node) (rs is : List ℕ)
    → EndsBelow limit nodes rs
    → EndsBelow limit nodes is
    → EndsBelow limit nodes (rev_onto rs is)
EndsBelow-rev_onto limit nodes [] is e e' = e'
EndsBelow-rev_onto limit nodes (k ∷ rs) is e e' =
    EndsBelow-rev_onto limit nodes rs (k ∷ is) e.1 (e.0, e')

-- The part of a list that begins with `m`.
abbrev pub from_member : ℕ → List ℕ → List ℕ
from_member m [] = []
from_member m (i ∷ is) = if i == m then i ∷ is else from_member m is

pub Chain-from_member :
    (follow : Links → Pointer) (nodes : List Node) (m : ℕ) (is : List ℕ) (p : Pointer)
    → Chain follow nodes p is
    → has m is ≡ true
    → Chain follow nodes (node m) (from_member m is)
Chain-from_member follow nodes m [] p c h = absurd (ground arith)
Chain-from_member follow nodes m (i ∷ is) p (e, lt, c) h = elim (Bool-cases (i == m)) [
  | inl same ↦ rw same (ap node (sym ((==_iff i m).0 same)), lt, c)
  | inr other ↦
      rw other
        (Chain-from_member follow nodes m is (follow (node_at nodes i).links) c (ground arith))
]

pub length-from_member : (m : ℕ) (is : List ℕ) → length (from_member m is) ≤ length is
length-from_member m [] = omega arith
length-from_member m (i ∷ is) = ground (arith, length-from_member m is)
