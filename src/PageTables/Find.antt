-- ===== src/PageTables/Find.antt =====
-- `system_paging_entry`: the entry of the last level for a virtual address, with the tables above it.
use mathlib.Core.Path.{subst}
use drastic.Base.{
  ℕ, suc, ◌≤◌, ◌≡◌, refl, ap, inl, inr, true, false, List, [], ◌∷◌, length, arith, Bool-cases,
}
use drastic.PageTables.{flag_p, flag_ps, test, slot}
use drastic.PageTables.Walk.{
  Walk, at_table, at_page, missing, step, walk, finish, path, translate, field,
}

-- The address is not mapped by a large page.
abbrev pub IsSmall : Walk → Type 0
IsSmall (at_table a) = Unit
IsSmall (at_page level e) = level ≡ 4
IsSmall missing = Unit

step-page :
    (hhdm_offset level i l e : ℕ) (words : ℕ → ℕ) (w : Walk)
    → w ≡ at_page l e
    → step hhdm_offset words level i w ≡ at_page l e
step-page hhdm_offset level i l e words w h = rw h refl

-- A large page in the way would be the translation.
module _ (hhdm_offset table : ℕ) (words : ℕ → ℕ) (virtual : ℕ)
    (small : IsSmall (translate hhdm_offset words table virtual)) where
  no_page_at : (l e : ℕ) → l ≤ 3 → walk hhdm_offset words table (path virtual) ≡ at_page l e → ⊥
  no_page_at l e h found =
      let four : l ≡ 4 = subst IsSmall (ap (finish words (field 12 virtual)) found) small in
      omega arith

  no_large :
      (p : List ℕ) (i a : ℕ)
      → length p ≤ 2
      → walk hhdm_offset words table p ≡ at_table a
      → ((l e : ℕ) → l ≤ 3 → walk hhdm_offset words table (i ∷ p) ≡ at_page l e → ⊥)
      → test (words (slot a i)) flag_p ≡ true
      → test (words (slot a i)) flag_ps ≡ false
  no_large p i a short at_p none_at present = elim (Bool-cases (test (words (slot a i)) flag_ps)) [
    | inr e ↦ e
    | inl e ↦
        absurd
          (none_at (suc (length p)) (words (slot a i)) (omega arith) (rw (at_p, present, e) refl))
  ]

  pub no_large_1 :
      test (words (slot table (field 39 virtual))) flag_p ≡ true
      → test (words (slot table (field 39 virtual))) flag_ps ≡ false
  no_large_1 = no_large [] (field 39 virtual) table (omega arith) refl λ l e h found.
      no_page_at l e h (
        step-page hhdm_offset 3 (field 21 virtual) l e words _
          (step-page hhdm_offset 2 (field 30 virtual) l e words _ found))

  pub no_large_2 :
      (a : ℕ)
      → walk hhdm_offset words table (field 39 virtual ∷ []) ≡ at_table a
      → test (words (slot a (field 30 virtual))) flag_p ≡ true
      → test (words (slot a (field 30 virtual))) flag_ps ≡ false
  no_large_2 a at =
      no_large (field 39 virtual ∷ []) (field 30 virtual) a (omega arith) at λ l e h found.
        no_page_at l e h (step-page hhdm_offset 3 (field 21 virtual) l e words _ found)

  pub no_large_3 :
      (a : ℕ)
      → walk hhdm_offset words table (field 30 virtual ∷ field 39 virtual ∷ []) ≡ at_table a
      → test (words (slot a (field 21 virtual))) flag_p ≡ true
      → test (words (slot a (field 21 virtual))) flag_ps ≡ false
  no_large_3 a at =
      no_large (field 30 virtual ∷ field 39 virtual ∷ []) (field 21 virtual) a (omega arith) at
        no_page_at
