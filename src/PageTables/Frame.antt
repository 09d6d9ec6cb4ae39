-- ===== src/PageTables/Frame.antt =====
-- A write to one entry of one table leaves every walk that does not pass that entry as it is.
use mathlib.Core.Path.{subst}
use mathlib.Core.List.{List-discrete}
use native.Mathlib.Decide.{ℕ_discrete}
use drastic.Base.{
  ℕ, suc, ◌%◌, ◌≤◌, ◌<◌, ◌≡◌, refl, ap, ap₂, sym, ◌∙◌, ◌⊎◌, inl, inr, List, [], ◌∷◌, length, arith,
  Bool-cases,
}
use drastic.PageTables.{flag_p, flag_ps, test, slot}
use drastic.PageTables.Entries.{table_of-aligned}
use drastic.PageTables.Walk.{Walk, at_table, at_page, missing, classify, step, walk, finish, IsPath}

-- The path `q` passes through the place `r`.
abbrev pub Passes : List ℕ → List ℕ → Type 0
Passes r [] = r ≡ []
Passes r (i ∷ p) = (r ≡ i ∷ p) ⊎ Passes r p

pub Passes-cases : (r q : List ℕ) → Passes r q ⊎ (Passes r q → ⊥)
Passes-cases r [] = elim (List-discrete ℕ_discrete r []) [ yes e ↦ inl e | no ne ↦ inr ne ]
Passes-cases r (i ∷ p) = elim (List-discrete ℕ_discrete r (i ∷ p)) [
  | yes e ↦ inl (inl e)
  | no ne ↦ elim (Passes-cases r p) [
    | inl w ↦ inl (inr w)
    | inr nw ↦ inr (λ w. elim w [ inl e ↦ ne e | inr v ↦ nw v ])
  ]
]

pub Passes-length : (r q : List ℕ) → Passes r q → length r ≤ length q
Passes-length r [] e = omega (arith, ap length e)
Passes-length r (i ∷ p) (inl e) = omega (arith, ap length e)
Passes-length r (i ∷ p) (inr w) = omega (arith, Passes-length r p w)

pub IsPath-tail : (i : ℕ) (p : List ℕ) → IsPath (i ∷ p) → IsPath p
IsPath-tail i p (short, b) = (omega arith, b.1)

-- Entries of page-aligned tables do not overlap.
pub slot-injective :
    (a b i j : ℕ)
    → a % 4096 ≡ 0
    → b % 4096 ≡ 0
    → i < 512
    → j < 512
    → slot a i ≡ slot b j
    → (a ≡ b) × (i ≡ j)
slot-injective a b i j p q hi hj e = omega arith

-- A table starts at the start of a page.
abbrev Aligned : Walk → Type 0
Aligned (at_table a) = a % 4096 ≡ 0
Aligned (at_page l v) = Unit
Aligned missing = Unit

module _ (hhdm_offset table : ℕ) (words : ℕ → ℕ) (root_aligned : table % 4096 ≡ 0)
    (offset_aligned : hhdm_offset % 4096 ≡ 0) where
  classify-Aligned : (level e : ℕ) → Aligned (classify hhdm_offset level e)
  classify-Aligned level e = elim (Bool-cases (test e flag_p)) [
    | inr absent ↦ rw absent tt
    | inl present ↦ elim (Bool-cases (test e flag_ps)) [
      | inl large ↦ rw (present, large) tt
      | inr small ↦ rw (present, small) (table_of-aligned hhdm_offset e offset_aligned)
    ]
  ]

  step-Aligned : (level i : ℕ) (w : Walk) → Aligned (step hhdm_offset words level i w)
  step-Aligned level i (at_table a) = classify-Aligned level (words (slot a i))
  step-Aligned level i (at_page l v) = tt
  step-Aligned level i missing = tt

  walk-Aligned : (p : List ℕ) → Aligned (walk hhdm_offset words table p)
  walk-Aligned [] = root_aligned
  walk-Aligned (i ∷ p) = step-Aligned (suc (length p)) i (walk hhdm_offset words table p)

  pub walk-aligned :
      (p : List ℕ) (a : ℕ) → walk hhdm_offset words table p ≡ at_table a → a % 4096 ≡ 0
  walk-aligned p a e = subst Aligned e (walk-Aligned p)

-- The words before and after a write to entry `i0` of the table at `p0`.
module _ (hhdm_offset table : ℕ) (words after : ℕ → ℕ) (p0 : List ℕ) (i0 : ℕ)
    (agree : (p : List ℕ) (a i : ℕ)
      → IsPath p
      → i < 512
      → walk hhdm_offset words table p ≡ at_table a
      → ((p ≡ p0) → (i ≡ i0) → ⊥)
      → after (slot a i) ≡ words (slot a i)) where
  step-agree :
      (i : ℕ) (p : List ℕ) (w : Walk)
      → IsPath (i ∷ p)
      → (Passes (i0 ∷ p0) (i ∷ p) → ⊥)
      → walk hhdm_offset words table p ≡ w
      → step hhdm_offset after (suc (length p)) i w ≡ step hhdm_offset words (suc (length p)) i w
  step-agree i p (at_table a) h off e =
      ap (classify hhdm_offset (suc (length p)))
        (agree p a i (IsPath-tail i p h) h.1.0 e (λ ep ei. off (inl (ap₂ ◌∷◌ (sym ei) (sym ep)))))
  step-agree i p (at_page l v) h off e = refl
  step-agree i p missing h off e = refl

  pub walk-agree :
      (q : List ℕ)
      → IsPath q
      → (Passes (i0 ∷ p0) q → ⊥)
      → walk hhdm_offset after table q ≡ walk hhdm_offset words table q
  walk-agree [] h off = refl
  walk-agree (i ∷ p) h off =
      ap (step hhdm_offset after (suc (length p)) i)
        (walk-agree p (IsPath-tail i p h) (λ w. off (inr w)))
      ∙ step-agree i p (walk hhdm_offset words table p) h off refl

  -- An entry of the last level.
  pub finish-agree :
      (i : ℕ) (q : List ℕ) (w : Walk)
      → IsPath q
      → i < 512
      → ((q ≡ p0) → (i ≡ i0) → ⊥)
      → walk hhdm_offset words table q ≡ w
      → finish after i w ≡ finish words i w
  finish-agree i q (at_table a) h lt ne e = rw (agree q a i h lt e ne)
  finish-agree i q (at_page l v) h lt ne e = refl
  finish-agree i q missing h lt ne e = refl
