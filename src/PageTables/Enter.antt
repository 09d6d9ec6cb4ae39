-- ===== src/PageTables/Enter.antt =====
-- One level of `system_paging_entry`: the next table is found, or a new one is put in place.
use drastic.Base.{
  ℕ, suc, ◌^◌, ◌<◌, ◌≡◌, refl, ◌⊎◌, inl, inr, true, false, List, ◌∷◌, none, some, Result, ok, stop,
  kpanic, page_mapping, arith, Bool-cases,
}
use drastic.PhysicalAllocator.Pool.{Below-has}
use drastic.Zones.{Paging, normal, physical_alloc}
use drastic.Zones.Valid.{Layout}
use drastic.PageTables.{
  Machine, flag_p, flag_ps, test, slot, put, encoded, parent_flags, new_physical, enter,
}
use drastic.PageTables.Entries.{field-lt, pointed-eq}
use drastic.PageTables.Walk.{at_table, walk, path, translate, field, table_of, IsPath, IsTree}
use drastic.PageTables.Pages.{IsReady, IsFreePage, Taken, physical_alloc-Taken}
use drastic.PageTables.Grow.{
  new_table, grown, after-entry, pointed-new, walk-new, IsTree-after, finish-after,
}

-- One of the next `n` requests for a page fails.
pub data Fails : ℕ → Paging → Type 0 where
  at_once : {n : ℕ} {p : Paging} → physical_alloc normal p ≡ ok (none, p) → Fails (suc n) p
  then_later :
      {n : ℕ} {p q : Paging} {a : ℕ}
      → physical_alloc normal p ≡ ok (some a, q)
      → Fails n q
      → Fails (suc n) p

-- The allocators are ready, and the tables form a tree outside the free pages.
pub record IsState (hhdm_offset table : ℕ) (l : Layout) (m : Machine) : Type 0 where
  pub ready : IsReady m.paging l
  pub tree : IsTree hhdm_offset m.words table (IsFreePage m.paging)

-- Both memories translate every address alike.
abbrev pub SameTranslations : ℕ → ℕ → Machine → Machine → Type 0
SameTranslations hhdm_offset table m after =
    (virtual : ℕ)
    → translate hhdm_offset after.words table virtual ≡ translate hhdm_offset m.words table virtual

-- The page table at the path `r` is there now.
pub record Entered (hhdm_offset table : ℕ) (l : Layout) (m : Machine) (r : List ℕ)
    (out : Result (ℕ × Machine)) : Type 0 where
  pub next : ℕ
  pub after : Machine
  pub returns : out ≡ ok (next, after)
  pub state : IsState hhdm_offset table l after
  pub found : walk hhdm_offset after.words table r ≡ at_table next
  pub same : SameTranslations hhdm_offset table m after
  pub same_flushed : after.flushed ≡ m.flushed
  pub requests :
      (after.paging ≡ m.paging)
      ⊎ ((a : ℕ) × (physical_alloc normal m.paging ≡ ok (some a, after.paging)))

pub path-IsPath : (virtual : ℕ) → IsPath (path virtual)
path-IsPath virtual =
    (omega arith, (field-lt 21 virtual, (field-lt 30 virtual, (field-lt 39 virtual, tt))))

IsFreePage-low :
    (paging : Paging) (l : Layout) (b : ℕ) → IsReady paging l → IsFreePage paging b → b < 2 ^ 48
IsFreePage-low paging l b r f = omega (
  arith,
  f.at_page,
  (r.mappable f.i f.i_lt).low,
  Below-has _ f.page _ (r.well_formed.valid f.i f.i_lt).below f.in_pool,
)

module _ (hhdm_offset table : ℕ) (l : Layout) (m : Machine) (s : IsState hhdm_offset table l m)
    (encoder : ℕ → ℕ → ℕ → Machine → Result Machine)
    (encodes : (target address : ℕ) (m : Machine)
      → encoder target address parent_flags m
        ≡ ok (record m { words = put target (encoded address parent_flags) m.words }))
    (p0 : List ℕ) (i0 a0 : ℕ) (here : IsPath (i0 ∷ p0))
    (at_p0 : walk hhdm_offset m.words table p0 ≡ at_table a0) where
  abbrev out : Result (ℕ × Machine)
  out = enter hhdm_offset encoder (slot a0 i0) m

  enter-found :
      test (m.words (slot a0 i0)) flag_p ≡ true
      → out ≡ ok (table_of hhdm_offset (m.words (slot a0 i0)), m)
  unfolding enter
  enter-found present = rw (present, pointed-eq)

  enter-present :
      test (m.words (slot a0 i0)) flag_p ≡ true
      → test (m.words (slot a0 i0)) flag_ps ≡ false
      → Entered hhdm_offset table l m (i0 ∷ p0) out
  enter-present present small = record {
    next = table_of hhdm_offset (m.words (slot a0 i0));
    after = m;
    returns = enter-found present;
    state = s;
    found = rw (at_p0, present, small);
    same = λ virtual. refl;
    same_flushed = refl;
    requests = inl refl;
  }

  module _ (absent : test (m.words (slot a0 i0)) flag_p ≡ false) where
    enter-fails :
        physical_alloc normal m.paging ≡ ok (none, m.paging) → out ≡ stop (kpanic page_mapping)
    unfolding enter new_physical
    enter-fails e = rw (absent, e)

    module _ (t : Taken m.paging l) where
      abbrev taken : Machine
      taken = record {
        words = grown hhdm_offset m.words (slot a0 i0) t.address;
        paging = t.after;
        flushed = m.flushed;
      }

      enter-new : out ≡ ok (new_table hhdm_offset t.address, taken)
      unfolding enter new_physical
      enter-new = rw (
        absent,
        t.returns,
        encodes,
        after-entry hhdm_offset table m.words (IsFreePage m.paging) s.tree p0 i0 a0 here at_p0
            absent t.address t.was_free t.aligned t.low,
        pointed-new hhdm_offset table m.words (IsFreePage m.paging) s.tree p0 i0 a0 here at_p0
            absent t.address t.was_free t.aligned t.low,
      )

      taken-IsTree : IsTree hhdm_offset taken.words table (IsFreePage t.after)
      taken-IsTree =
          IsTree-after hhdm_offset table m.words (IsFreePage m.paging) s.tree p0 i0 a0 here at_p0
            absent t.address t.was_free t.aligned t.low (IsFreePage t.after) t.still_free t.not_free
            (λ b f. IsFreePage-low m.paging l b s.ready f)

      taken-same : SameTranslations hhdm_offset table m taken
      taken-same virtual =
          finish-after hhdm_offset table m.words (IsFreePage m.paging) s.tree p0 i0 a0 here at_p0
            absent t.address t.was_free t.aligned t.low (path virtual) (field 12 virtual)
            (path-IsPath virtual) (field-lt 12 virtual) (omega (arith, here.0))

      enter-takes : Entered hhdm_offset table l m (i0 ∷ p0) out
      enter-takes = record {
        next = new_table hhdm_offset t.address;
        after = taken;
        returns = enter-new;
        state = record { ready = t.ready; tree = taken-IsTree };
        found =
            walk-new hhdm_offset table m.words (IsFreePage m.paging) s.tree p0 i0 a0 here at_p0
              absent t.address t.was_free t.aligned t.low;
        same = taken-same;
        same_flushed = refl;
        requests = inr (t.address, t.returns);
      }

  -- The level is entered unless it needs a page and there is none.
  pub enter-cases :
      (test (m.words (slot a0 i0)) flag_p ≡ true → test (m.words (slot a0 i0)) flag_ps ≡ false)
      → ((out ≡ stop (kpanic page_mapping))
          × (physical_alloc normal m.paging ≡ ok (none, m.paging)))
        ⊎ Entered hhdm_offset table l m (i0 ∷ p0) out
  enter-cases small = elim (Bool-cases (test (m.words (slot a0 i0)) flag_p)) [
    | inl present ↦ inr (enter-present present (small present))
    | inr absent ↦ elim (physical_alloc-Taken m.paging l s.ready) [
      | inl e ↦ inl (enter-fails absent e, e)
      | inr t ↦ inr (enter-takes absent t)
    ]
  ]
