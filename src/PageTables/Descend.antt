-- ===== src/PageTables/Descend.antt =====
-- `system_paging_entry`, all three levels one after the other.
use mathlib.Core.Path.{subst}
use drastic.Base.{
  ℕ, suc, ◌%◌, ◌≡◌, ◌≢◌, refl, ap, sym, ◌∙◌, ◌⊎◌, inl, inr, [], ◌∷◌, some, Result, ok, stop, kpanic,
  page_mapping, arith, not, ◌==◌, kassert,
}
use drastic.Zones.{Paging, normal, physical_alloc}
use drastic.Zones.Valid.{Layout}
use drastic.PageTables.{
  Machine, slot, entry, enter, pml4_entry, pdpt_entry, pd_entry, assert_address_aligned, put,
  encoded, parent_flags,
}
use drastic.PageTables.Entries.{aligned_iff, index-eq}
use drastic.PageTables.Walk.{at_table, walk, path, translate, field}
use drastic.PageTables.Frame.{IsPath-tail}
use drastic.PageTables.Enter.{
  Fails, at_once, then_later, IsState, SameTranslations, Entered, enter-cases, path-IsPath,
}
use drastic.PageTables.Find.{IsSmall, no_large_1, no_large_2, no_large_3}

Fails-suc : (n : ℕ) (p : Paging) → Fails n p → Fails (suc n) p
Fails-suc _ _ (at_once e) = at_once e
Fails-suc _ _ (then_later {n = n} {q = q} e f) = then_later e (Fails-suc n q f)

-- A failure after a level that took at most one page.
Fails-before :
    (n : ℕ) (p q : Paging)
    → (q ≡ p) ⊎ ((a : ℕ) × (physical_alloc normal p ≡ ok (some a, q)))
    → Fails n q
    → Fails (suc n) p
Fails-before n p q (inl e) f = subst (Fails (suc n)) e (Fails-suc n q f)
Fails-before n p q (inr (a, e)) f = then_later e f

pub aligned-assert : (a : ℕ) → a % 4096 ≡ 0 → assert_address_aligned a ≡ ok tt
aligned-assert a h =
    ap (λ (t : ℕ). kassert (t == 0)) (aligned_iff a) ∙ ap (λ (t : ℕ). kassert (t == 0)) h

abbrev Encodes : (ℕ → ℕ → ℕ → Machine → Result Machine) → Type 0
Encodes encoder =
    (target address : ℕ) (m : Machine)
    → encoder target address parent_flags m
      ≡ ok (record m { words = put target (encoded address parent_flags) m.words })

pml4_entry-Encodes : Encodes pml4_entry
unfolding pml4_entry
pml4_entry-Encodes target address m = refl

pdpt_entry-Encodes : Encodes pdpt_entry
unfolding pdpt_entry
pdpt_entry-Encodes target address m = refl

pd_entry-Encodes : Encodes pd_entry
unfolding pd_entry
pd_entry-Encodes target address m = refl

-- The entry for an address was found, in the table `pt` of the last level.
pub record Found (hhdm_offset table : ℕ) (l : Layout) (m : Machine) (virtual : ℕ)
    (out : Result (ℕ × Machine)) : Type 0 where
  pub pt : ℕ
  pub after : Machine
  pub returns : out ≡ ok (slot pt (field 12 virtual), after)
  pub state : IsState hhdm_offset table l after
  pub found : walk hhdm_offset after.words table (path virtual) ≡ at_table pt
  pub same : SameTranslations hhdm_offset table m after
  pub same_flushed : after.flushed ≡ m.flushed

module _ (hhdm_offset table : ℕ) (l : Layout) (m : Machine) (virtual : ℕ)
    (s : IsState hhdm_offset table l m) (nonnull : table ≢ 0) (aligned : virtual % 4096 ≡ 0)
    (small : IsSmall (translate hhdm_offset m.words table virtual)) where
  abbrev i39 : ℕ
  i39 = field 39 virtual

  abbrev i30 : ℕ
  i30 = field 30 virtual

  abbrev i21 : ℕ
  i21 = field 21 virtual

  abbrev FoundOr : ℕ → Paging → Type 0
  FoundOr n p =
      ((entry hhdm_offset table virtual m ≡ stop (kpanic page_mapping)) × Fails n p)
      ⊎ Found hhdm_offset table l m virtual (entry hhdm_offset table virtual m)

  starts : kassert (not (table == 0)) ≡ ok tt
  starts = ground arith

  module _
      (e1 : Entered hhdm_offset table l m
        (i39 ∷ [])
        (enter hhdm_offset pml4_entry (slot table i39) m)) where
    module _
        (e2 : Entered hhdm_offset table l e1.after
          (i30 ∷ i39 ∷ [])
          (enter hhdm_offset pdpt_entry (slot e1.next i30) e1.after)) where
      level_3 : FoundOr 1 e2.after.paging
      unfolding entry
      level_3 =
          elim (enter-cases hhdm_offset table l e2.after e2.state pd_entry pd_entry-Encodes
            (i30 ∷ i39 ∷ []) i21 e2.next (path-IsPath virtual) e2.found
            (no_large_3 hhdm_offset table e2.after.words virtual
              (subst IsSmall (sym (e2.same virtual ∙ e1.same virtual)) small) e2.next e2.found)) [
                | inl (e, failed) ↦ inl (
                  rw
                      (
                        aligned-assert virtual aligned,
                        starts,
                        index-eq 39 virtual,
                        e1.returns,
                        index-eq 30 virtual,
                        e2.returns,
                        index-eq 21 virtual,
                        e,
                      )
                      refl,
                  at_once failed,
                )
                | inr e3 ↦ inr (record {
                  pt = e3.next;
                  after = e3.after;
                  returns =
                      rw
                        (
                          aligned-assert virtual aligned,
                          starts,
                          index-eq 39 virtual,
                          e1.returns,
                          index-eq 30 virtual,
                          e2.returns,
                          index-eq 21 virtual,
                          e3.returns,
                          index-eq 12 virtual,
                        )
                        refl;
                  state = e3.state;
                  found = e3.found;
                  same = λ v. e3.same v ∙ e2.same v ∙ e1.same v;
                  same_flushed = e3.same_flushed ∙ e2.same_flushed ∙ e1.same_flushed;
                })
              ]

    level_2 : FoundOr 2 e1.after.paging
    unfolding entry
    level_2 =
        elim (enter-cases hhdm_offset table l e1.after e1.state pdpt_entry pdpt_entry-Encodes
          (i39 ∷ []) i30 e1.next (IsPath-tail i21 (i30 ∷ i39 ∷ []) (path-IsPath virtual)) e1.found
          (no_large_2 hhdm_offset table e1.after.words virtual
            (subst IsSmall (sym (e1.same virtual)) small) e1.next e1.found)) [
              | inl (e, failed) ↦ inl (
                rw
                    (
                      aligned-assert virtual aligned,
                      starts,
                      index-eq 39 virtual,
                      e1.returns,
                      index-eq 30 virtual,
                      e,
                    )
                    refl,
                at_once failed,
              )
              | inr e2 ↦ elim (level_3 e2) [
                | inl (e, failed) ↦ inl (e, Fails-before 1 _ _ e2.requests failed)
                | inr f ↦ inr f
              ]
            ]

  -- An address that no large page maps: the entry is found, or a page for a table is missing.
  pub entry-cases : FoundOr 3 m.paging
  unfolding entry
  entry-cases =
      elim (enter-cases hhdm_offset table l m s pml4_entry pml4_entry-Encodes [] i39 table
        (IsPath-tail i30 (i39 ∷ []) (IsPath-tail i21 (i30 ∷ i39 ∷ []) (path-IsPath virtual))) refl
        (no_large_1 hhdm_offset table m.words virtual small)) [
          | inl (e, failed) ↦ inl (
            rw (aligned-assert virtual aligned, starts, index-eq 39 virtual, e) refl,
            at_once failed,
          )
          | inr e1 ↦ elim (level_2 e1) [
            | inl (e, failed) ↦ inl (e, Fails-before 2 _ _ e1.requests failed)
            | inr f ↦ inr f
          ]
        ]
