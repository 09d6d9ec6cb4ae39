-- ===== src/PageTables/Written.antt =====
-- Writing an entry of the last level reassigns one page in the translations of the processor.
use native.Mathlib.Decide.{ℕ_discrete}
use drastic.Base.{
  ℕ, ◌/◌, ◌%◌, ◌^◌, ◌<◌, ◌≡◌, ◌≢◌, refl, ap, ap₂, sym, ◌∙◌, true, false, List, [], ◌∷◌, arith,
  if◌then◌else◌, ◌==◌,
}
use drastic.Base.Bits.Mask.{bit_and-mask}
use drastic.Zones.Valid.{Layout}
use drastic.PageTables.{Machine, slot, flag_p, test, put}
use drastic.PageTables.Entries.{field-lt}
use drastic.PageTables.Walk.{
  Walk, at_table, at_page, missing, walk, finish, path, translate, field, IsPath, IsTree,
}
use drastic.PageTables.Frame.{
  Passes, Passes-length, slot-injective, walk-aligned, walk-agree, finish-agree,
}
use drastic.PageTables.Pages.{IsFreePage}
use drastic.PageTables.Enter.{IsState, path-IsPath}

-- The page of an address in the 48 bits that are translated.
abbrev pub page_number : ℕ → ℕ
page_number virtual = virtual / 4096 % 2 ^ 36

-- The translations of an address space, one page assigned.
abbrev pub assign : ℕ → Walk → (ℕ → Walk) → ℕ → Walk
assign page w space v = if page_number v == page then w else space v

assign_same :
    (page : ℕ) (w : Walk) (space : ℕ → Walk) (v : ℕ)
    → page_number v ≡ page
    → assign page w space v ≡ w
assign_same page w space v e = let b : (page_number v == page) ≡ true = ground arith in rw b refl

assign_other :
    (page : ℕ) (w : Walk) (space : ℕ → Walk) (v : ℕ)
    → page_number v ≢ page
    → assign page w space v ≡ space v
assign_other page w space v e = let b : (page_number v == page) ≡ false = ground arith in rw b refl

-- How an entry of the last level is read.
abbrev pub leaf : ℕ → Walk
leaf value = if test value flag_p then at_page 4 value else missing

field-page_number_12 : (v w : ℕ) → page_number v ≡ page_number w → field 12 v ≡ field 12 w
field-page_number_12 v w e = omega (arith, e)

field-page_number_21 : (v w : ℕ) → page_number v ≡ page_number w → field 21 v ≡ field 21 w
field-page_number_21 v w e = omega (arith, e)

field-page_number_30 : (v w : ℕ) → page_number v ≡ page_number w → field 30 v ≡ field 30 w
field-page_number_30 v w e = omega (arith, e)

field-page_number_39 : (v w : ℕ) → page_number v ≡ page_number w → field 39 v ≡ field 39 w
field-page_number_39 v w e = omega (arith, e)

path-page_number : (v w : ℕ) → page_number v ≡ page_number w → path v ≡ path w
path-page_number v w e =
    ap₂ ◌∷◌ (field-page_number_21 v w e)
      (ap₂ ◌∷◌ (field-page_number_30 v w e) (ap (λ i. i ∷ []) (field-page_number_39 v w e)))

-- The pages of two addresses are the same if all four indices are.
indices-page_number :
    (v w : ℕ) → path v ≡ path w → field 12 v ≡ field 12 w → page_number v ≡ page_number w
indices-page_number v w e last = omega (
  arith,
  last,
  ap first e,
  ap first (ap rest e),
  ap first (ap rest (ap rest e)),
  bit_and-mask 9 (v / 2 ^ 12),
  bit_and-mask 9 (v / 2 ^ 21),
  bit_and-mask 9 (v / 2 ^ 30),
  bit_and-mask 9 (v / 2 ^ 39),
  bit_and-mask 9 (w / 2 ^ 12),
  bit_and-mask 9 (w / 2 ^ 21),
  bit_and-mask 9 (w / 2 ^ 30),
  bit_and-mask 9 (w / 2 ^ 39),
)
  where
    first : List ℕ → ℕ
    first [] = 0
    first (i ∷ p) = i

    rest : List ℕ → List ℕ
    rest [] = []
    rest (i ∷ p) = p

-- The entry of the last level for `virtual` is written.
module _ (hhdm_offset table : ℕ) (l : Layout) (m : Machine) (s : IsState hhdm_offset table l m)
    (virtual pt value : ℕ)
    (found : walk hhdm_offset m.words table (path virtual) ≡ at_table pt) where
  abbrev pub written : ℕ → ℕ
  written = put (slot pt (field 12 virtual)) value m.words

  table_aligned :
      (p : List ℕ) (a : ℕ) → walk hhdm_offset m.words table p ≡ at_table a → a % 4096 ≡ 0
  table_aligned = walk-aligned hhdm_offset table m.words s.tree.root_aligned s.tree.offset_aligned

  agree :
      (p : List ℕ) (a i : ℕ)
      → IsPath p
      → i < 512
      → walk hhdm_offset m.words table p ≡ at_table a
      → ((p ≡ path virtual) → (i ≡ field 12 virtual) → ⊥)
      → written (slot a i) ≡ m.words (slot a i)
  agree p a i h lt e ne =
      let other : slot a i ≢ slot pt (field 12 virtual) = λ same.
        let (ea, ei) =
          slot-injective a pt i (field 12 virtual) (table_aligned p a e)
            (table_aligned (path virtual) pt found) lt (field-lt 12 virtual) same in
        ne
          (s.tree.unique p (path virtual) a h (path-IsPath virtual) e
            (found ∙ ap at_table (sym ea)))
          ei in
      ground (arith, other)

  -- Paths to tables are too short to pass the entry.
  off : (q : List ℕ) → IsPath q → Passes (field 12 virtual ∷ path virtual) q → ⊥
  off q h w = omega (arith, h.0, Passes-length (field 12 virtual ∷ path virtual) q w)

  walk-written :
      (q : List ℕ) → IsPath q → walk hhdm_offset written table q ≡ walk hhdm_offset m.words table q
  walk-written q h =
      walk-agree hhdm_offset table m.words written (path virtual) (field 12 virtual) agree q h
        (off q h)

  pub written-IsTree : IsTree hhdm_offset written table (IsFreePage m.paging)
  written-IsTree = record {
    root_aligned = s.tree.root_aligned;
    offset_aligned = s.tree.offset_aligned;
    unique = λ p q a hp hq ep eq.
        s.tree.unique p q a hp hq (sym (walk-written p hp) ∙ ep) (sym (walk-written q hq) ∙ eq);
    not_free = λ p a b hp ep. s.tree.not_free p a b hp (sym (walk-written p hp) ∙ ep);
  }

  translate-here :
      (v : ℕ)
      → path v ≡ path virtual
      → field 12 v ≡ field 12 virtual
      → translate hhdm_offset written table v ≡ leaf value
  translate-here v ep ei =
      ap₂ (λ i p. finish written i (walk hhdm_offset written table p)) ei ep
      ∙ ap (finish written (field 12 virtual))
          (walk-written (path virtual) (path-IsPath virtual) ∙ found)
      ∙ rw same_entry refl
    where
      same_entry : written (slot pt (field 12 virtual)) ≡ value
      same_entry = ground arith

  translate-other :
      (v : ℕ)
      → page_number v ≢ page_number virtual
      → translate hhdm_offset written table v ≡ translate hhdm_offset m.words table v
  translate-other v ne =
      ap (finish written (field 12 v)) (walk-written (path v) (path-IsPath v))
      ∙ finish-agree hhdm_offset table m.words written (path virtual) (field 12 virtual) agree
          (field 12 v) (path v) _ (path-IsPath v) (field-lt 12 v)
          (λ e same. ne (indices-page_number v virtual e same)) refl

  pub translate-written :
      (v : ℕ)
      → translate hhdm_offset written table v
        ≡ assign (page_number virtual) (leaf value) (translate hhdm_offset m.words table) v
  translate-written v = elim (ℕ_discrete (page_number v) (page_number virtual)) [
    | yes e ↦
        translate-here v (path-page_number v virtual e) (field-page_number_12 v virtual e)
        ∙ sym (assign_same _ _ (translate hhdm_offset m.words table) v e)
    | no ne ↦
        translate-other v ne ∙ sym (assign_other _ _ (translate hhdm_offset m.words table) v ne)
  ]
