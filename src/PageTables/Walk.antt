-- ===== src/PageTables/Walk.antt =====
-- Which entry maps a virtual address: a reading of memory along the four levels, with large pages. A
-- physical address has 48 bits. The reading says where a walk ends, not which accesses are allowed: the
-- rights of the entries on the way are not combined.
use drastic.Base.{
  ℕ, suc, ◌+◌, ◌*◌, ◌/◌, ◌%◌, ◌^◌, ◌≤◌, ◌≡◌, ◌≢◌, List, [], ◌∷◌, length, if◌then◌else◌,
}
use drastic.PhysicalAllocator.{u64}
use drastic.PhysicalAllocator.Pool.{Below}
use drastic.PageTables.{flag_p, flag_ps, test}

-- Nine bits of an address, from a place on.
abbrev pub field : ℕ → ℕ → ℕ
field shift virtual = virtual / 2 ^ shift % 512

-- Where a table has its entry `i`, and where the table is that an entry points to: bits 12 to 47 are the
-- number of its physical page.
abbrev pub word_at : ℕ → ℕ → ℕ
word_at table i = table + 8 * i

abbrev pub table_of : ℕ → ℕ → ℕ
table_of hhdm_offset e = u64 (4096 * (e / 4096 % 2 ^ 36) + hhdm_offset)

-- A walk ends in a table, in a page whose entry stands in a table of the given level, or nowhere.
pub data Walk : Type 0 where
  at_table : ℕ → Walk
  at_page : ℕ → ℕ → Walk
  missing : Walk

-- An entry of one of the first three levels.
abbrev pub classify : ℕ → ℕ → ℕ → Walk
classify hhdm_offset level e =
    if test e flag_p
    then (if test e flag_ps then at_page level e else at_table (table_of hhdm_offset e))
    else missing

abbrev pub step : ℕ → (ℕ → ℕ) → ℕ → ℕ → Walk → Walk
step hhdm_offset words level i (at_table a) = classify hhdm_offset level (words (word_at a i))
step hhdm_offset words level i (at_page l e) = at_page l e
step hhdm_offset words level i missing = missing

-- Along the indices of a path, whose last index stands first.
abbrev pub walk : ℕ → (ℕ → ℕ) → ℕ → List ℕ → Walk
walk hhdm_offset words table [] = at_table table
walk hhdm_offset words table (i ∷ p) =
    step hhdm_offset words (suc (length p)) i (walk hhdm_offset words table p)

-- The entry `i` of a table of the last level.
abbrev pub finish : (ℕ → ℕ) → ℕ → Walk → Walk
finish words i (at_table a) =
    if test (words (word_at a i)) flag_p then at_page 4 (words (word_at a i)) else missing
finish words i (at_page l e) = at_page l e
finish words i missing = missing

abbrev pub path : ℕ → List ℕ
path virtual = field 21 virtual ∷ field 30 virtual ∷ field 39 virtual ∷ []

-- The entry that maps a virtual address.
abbrev pub translate : ℕ → (ℕ → ℕ) → ℕ → ℕ → Walk
translate hhdm_offset words table virtual =
    finish words (field 12 virtual) (walk hhdm_offset words table (path virtual))

-- A path to a table.
abbrev pub IsPath : List ℕ → Type 0
IsPath p = (length p ≤ 3) × Below 512 p

-- The tables below `table` form a tree, and none of them lies in a free page.
pub record IsTree (hhdm_offset : ℕ) (words : ℕ → ℕ) (table : ℕ) (IsFree : ℕ → Type 0) : Type 0 where
  pub root_aligned : table % 4096 ≡ 0
  pub offset_aligned : hhdm_offset % 4096 ≡ 0
  pub unique :
      (p q : List ℕ) (a : ℕ)
      → IsPath p
      → IsPath q
      → walk hhdm_offset words table p ≡ at_table a
      → walk hhdm_offset words table q ≡ at_table a
      → p ≡ q
  pub not_free :
      (p : List ℕ) (a b : ℕ)
      → IsPath p
      → walk hhdm_offset words table p ≡ at_table a
      → IsFree b
      → u64 (b + hhdm_offset) ≢ a
