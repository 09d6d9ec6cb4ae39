-- ===== src/PageTables/Grow.antt =====
-- Giving an entry that is not present a new table changes no translation and keeps the tree.
use drastic.Base.{
  ℕ, suc, ◌+◌, ◌%◌, ◌^◌, ◌≤◌, ◌<◌, ◌≡◌, ◌≢◌, refl, ap, sym, ◌∙◌, ◌⊎◌, inl, inr, false, List, [],
  ◌∷◌, length, arith,
}
use drastic.PhysicalAllocator.{u64}
use drastic.PageTables.{flag_p, test, slot, put, zeroed, pointed, encoded, parent_flags}
use drastic.PageTables.Entries.{
  pointed-eq, encoded-address, encoded-test_p, encoded-test_ps, bit_and-flag_address_page,
}
use drastic.PageTables.Walk.{at_table, missing, classify, step, walk, finish, IsPath, IsTree}
use drastic.PageTables.Frame.{
  Passes, Passes-cases, Passes-length, IsPath-tail, slot-injective, walk-aligned, walk-agree,
  finish-agree,
}

table_injective : {a b : ℕ} → at_table a ≡ at_table b → a ≡ b
table_injective e = cc e

-- Where a new table is seen, and the words after it was entered.
abbrev pub new_table : ℕ → ℕ → ℕ
new_table hhdm_offset new = u64 (new + hhdm_offset)

abbrev pub grown : ℕ → (ℕ → ℕ) → ℕ → ℕ → ℕ → ℕ
grown hhdm_offset words entry new =
    put entry (encoded new parent_flags) (zeroed (new_table hhdm_offset new) words)

module _ (hhdm_offset table : ℕ) (words : ℕ → ℕ) (Free : ℕ → Type 0)
    (tree : IsTree hhdm_offset words table Free) (p0 : List ℕ) (i0 a0 : ℕ) (here : IsPath (i0 ∷ p0))
    (at_p0 : walk hhdm_offset words table p0 ≡ at_table a0)
    (absent : test (words (slot a0 i0)) flag_p ≡ false) (new : ℕ) (new_free : Free new)
    (new_aligned : new % 4096 ≡ 0) (new_low : new + 4096 ≤ 2 ^ 48) where
  abbrev page : ℕ
  page = new_table hhdm_offset new

  abbrev after : ℕ → ℕ
  after = grown hhdm_offset words (slot a0 i0) new

  page-aligned : page % 4096 ≡ 0
  page-aligned = omega (arith, new_aligned, tree.offset_aligned)

  a0_aligned : a0 % 4096 ≡ 0
  a0_aligned =
      walk-aligned hhdm_offset table words tree.root_aligned tree.offset_aligned p0 a0 at_p0

  old_apart :
      (p : List ℕ) (a : ℕ) → IsPath p → walk hhdm_offset words table p ≡ at_table a → page ≢ a
  old_apart p a h e = tree.not_free p a new h e new_free

  -- Slots of the old tables, but the one that is written.
  agree :
      (p : List ℕ) (a i : ℕ)
      → IsPath p
      → i < 512
      → walk hhdm_offset words table p ≡ at_table a
      → ((p ≡ p0) → (i ≡ i0) → ⊥)
      → after (slot a i) ≡ words (slot a i)
  agree p a i h lt e ne =
      let a_aligned =
        walk-aligned hhdm_offset table words tree.root_aligned tree.offset_aligned p a e in
      let apart = old_apart p a h e in
      let other : slot a i ≢ slot a0 i0 = λ same.
        let (ea, ei) = slot-injective a a0 i i0 a_aligned a0_aligned lt here.1.0 same in
        ne (tree.unique p p0 a h (IsPath-tail i0 p0 here) e (at_p0 ∙ ap at_table (sym ea))) ei in
      ground (arith, a_aligned, page-aligned, apart, other)

  pub after-entry : after (slot a0 i0) ≡ encoded new parent_flags
  after-entry = ground arith

  after-zeroed : (i : ℕ) → i < 512 → after (slot page i) ≡ 0
  after-zeroed i lt =
      ground
        (arith, a0_aligned, page-aligned, old_apart p0 a0 (IsPath-tail i0 p0 here) at_p0, here.1.0)

  pub pointed-new : pointed hhdm_offset (encoded new parent_flags) ≡ page
  pointed-new = rw (
    encoded-address new parent_flags (omega (arith, new_low)) (omega arith) refl,
    bit_and-flag_address_page new new_aligned (omega (arith, new_low)),
  )

  classify-new : (level : ℕ) → classify hhdm_offset level (encoded new parent_flags) ≡ at_table page
  classify-new level = rw (
    sym (pointed-eq hhdm_offset (encoded new parent_flags)),
    encoded-test_p new parent_flags (omega (arith, new_low)) (omega arith),
    encoded-test_ps new parent_flags (omega (arith, new_low)) (omega arith),
    pointed-new,
  )

  off_itself : Passes (i0 ∷ p0) p0 → ⊥
  off_itself w = omega (arith, Passes-length (i0 ∷ p0) p0 w)

  pub walk-new : walk hhdm_offset after table (i0 ∷ p0) ≡ at_table page
  walk-new =
      ap (step hhdm_offset after (suc (length p0)) i0) (
        walk-agree hhdm_offset table words after p0 i0 agree p0 (IsPath-tail i0 p0 here) off_itself
        ∙ at_p0)
      ∙ ap (classify hhdm_offset (suc (length p0))) after-entry
      ∙ classify-new (suc (length p0))

  -- Below the new table there is nothing yet, and there was nothing before.
  walk-passing :
      (q : List ℕ)
      → IsPath q
      → Passes (i0 ∷ p0) q
      → (i0 ∷ p0 ≡ q) ⊎ (walk hhdm_offset after table q ≡ missing)
  walk-passing [] h e = inl e
  walk-passing (j ∷ q) h (inl e) = inl e
  walk-passing (j ∷ q) h (inr w) = inr (elim (walk-passing q (IsPath-tail j q h) w) [
    | inl e ↦
        ap (step hhdm_offset after (suc (length q)) j)
          (ap (walk hhdm_offset after table) (sym e) ∙ walk-new)
        ∙ ap (classify hhdm_offset (suc (length q))) (after-zeroed j h.1.0)
    | inr e ↦ ap (step hhdm_offset after (suc (length q)) j) e
  ])

  was_missing : (q : List ℕ) → Passes (i0 ∷ p0) q → walk hhdm_offset words table q ≡ missing
  was_missing [] e = absurd (omega (arith, ap length e))
  was_missing (j ∷ q) (inl e) = ap (walk hhdm_offset words table) (sym e) ∙ rw (at_p0, absent)
  was_missing (j ∷ q) (inr w) = ap (step hhdm_offset words (suc (length q)) j) (was_missing q w)

  walk-other :
      (q : List ℕ)
      → IsPath q
      → (Passes (i0 ∷ p0) q → ⊥)
      → walk hhdm_offset after table q ≡ walk hhdm_offset words table q
  walk-other = walk-agree hhdm_offset table words after p0 i0 agree

  module _ (Left : ℕ → Type 0) (left : (b : ℕ) → Left b → Free b)
      (left_ne : (b : ℕ) → Left b → b ≢ new) (left_low : (b : ℕ) → Free b → b < 2 ^ 48) where
    -- A table of the new tree is the new one or an old one.
    table-cases :
        (q : List ℕ) (a : ℕ)
        → IsPath q
        → walk hhdm_offset after table q ≡ at_table a
        → ((i0 ∷ p0 ≡ q) × (a ≡ page)) ⊎ (walk hhdm_offset words table q ≡ at_table a)
    table-cases q a h e = elim (Passes-cases (i0 ∷ p0) q) [
      | inr off ↦ inr (sym (walk-other q h off) ∙ e)
      | inl w ↦ elim (walk-passing q h w) [
        | inl same ↦ inl (
          same,
          table_injective (sym e ∙ ap (walk hhdm_offset after table) (sym same) ∙ walk-new),
        )
        | inr gone ↦ absurd (cc (sym gone ∙ e))
      ]
    ]

    pub IsTree-after : IsTree hhdm_offset after table Left
    IsTree-after = record {
      root_aligned = tree.root_aligned;
      offset_aligned = tree.offset_aligned;
      unique = λ p q a hp hq ep eq. elim (table-cases p a hp ep) [
        | inl (same_p, ea) ↦ elim (table-cases q a hq eq) [
          | inl (same_q, aq) ↦ sym same_p ∙ same_q
          | inr eq' ↦ absurd (old_apart q a hq eq' (sym ea))
        ]
        | inr ep' ↦ elim (table-cases q a hq eq) [
          | inl (same_q, aq) ↦ absurd (old_apart p a hp ep' (sym aq))
          | inr eq' ↦ tree.unique p q a hp hq ep' eq'
        ]
      ];
      not_free = λ p a b hp ep is_left same. elim (table-cases p a hp ep) [
        | inl (same_p, ea) ↦
            left_ne b is_left (omega (arith, same, ea, left_low b (left b is_left), new_low))
        | inr ep' ↦ tree.not_free p a b hp ep' (left b is_left) same
      ];
    }

  -- No translation changes.
  pub finish-after :
      (q : List ℕ) (i : ℕ)
      → IsPath q
      → i < 512
      → length p0 < length q
      → finish after i (walk hhdm_offset after table q)
        ≡ finish words i (walk hhdm_offset words table q)
  finish-after q i h lt longer = elim (Passes-cases (i0 ∷ p0) q) [
    | inr off ↦
        ap (finish after i) (walk-other q h off)
        ∙ finish-agree hhdm_offset table words after p0 i0 agree i q _ h lt
            (λ e same. omega (arith, ap length e)) refl
    | inl w ↦
        elim (walk-passing q h w) [
          | inl same ↦
              ap (finish after i) (ap (walk hhdm_offset after table) (sym same) ∙ walk-new)
              ∙ rw (after-zeroed i lt) refl
          | inr gone ↦ ap (finish after i) gone
        ]
        ∙ sym (ap (finish words i) (was_missing q w))
  ]
