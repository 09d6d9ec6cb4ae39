-- ===== src/PageTables/Space.antt =====
-- `system_paging_map` and `system_paging_unmap` as updates of an address space.
use drastic.Base.{
  ℕ, ◌%◌, ◌^◌, ◌<◌, ◌≡◌, ◌≢◌, refl, ap, ◌∙◌, ◌⊎◌, inl, inr, ◌∷◌, Result, ok, stop, kpanic,
  page_mapping, if◌then◌else◌, ◌==◌, true,
}
use drastic.Zones.Valid.{Layout}
use drastic.PageTables.{Machine, flag_p, test, entry, map_page, unmap_page, pt_entry}
use drastic.PageTables.Walk.{Walk, at_page, missing, translate}
use drastic.PageTables.Enter.{Fails, IsState}
use drastic.PageTables.Find.{IsSmall}
use drastic.PageTables.Descend.{aligned-assert, Found, entry-cases}
use drastic.PageTables.Written.{
  page_number, assign, leaf, written, written-IsTree, translate-written,
}
use drastic.PageTables.Flags.{Describes, map_entry, map_entry-Describes}

-- The address spaces that agree everywhere with the translations of a machine.
abbrev pub IsSpace : ℕ → ℕ → Machine → (ℕ → Walk) → Type 0
IsSpace hhdm_offset table m space = (v : ℕ) → translate hhdm_offset m.words table v ≡ space v

-- The call returned; it mapped the page of `virtual` by an entry for `physical` with `flags`.
pub record Maps (hhdm_offset table : ℕ) (l : Layout) (physical virtual flags : ℕ) (m : Machine)
    (out : Result Machine) : Type 0 where
  pub after : Machine
  pub e : ℕ
  pub returns : out ≡ ok after
  pub state : IsState hhdm_offset table l after
  pub describes : Describes e physical flags
  pub space :
      IsSpace hhdm_offset table after
        (assign (page_number virtual) (at_page 4 e) (translate hhdm_offset m.words table))
  pub flushes : after.flushed ≡ virtual ∷ m.flushed

-- The call returned; nothing is mapped at the page of `virtual`.
pub record Unmaps (hhdm_offset table : ℕ) (l : Layout) (virtual : ℕ) (m : Machine)
    (out : Result Machine) : Type 0 where
  pub after : Machine
  pub returns : out ≡ ok after
  pub state : IsState hhdm_offset table l after
  pub space :
      IsSpace hhdm_offset table after
        (assign (page_number virtual) missing (translate hhdm_offset m.words table))
  pub flushes : after.flushed ≡ virtual ∷ m.flushed

leaf-present : (e : ℕ) → test e flag_p ≡ true → leaf e ≡ at_page 4 e
leaf-present e h = rw h refl

module _ (hhdm_offset table : ℕ) (l : Layout) (m : Machine) (virtual : ℕ)
    (s : IsState hhdm_offset table l m) (nonnull : table ≢ 0) (aligned : virtual % 4096 ≡ 0)
    (small : IsSmall (translate hhdm_offset m.words table virtual)) where
  module _ (f : Found hhdm_offset table l m virtual (entry hhdm_offset table virtual m))
      (value : ℕ) where
    rewritten : Machine
    rewritten = record {
      words = written hhdm_offset table l f.after f.state virtual f.pt value f.found;
      paging = f.after.paging;
      flushed = virtual ∷ f.after.flushed;
    }

    rewritten-IsState : IsState hhdm_offset table l rewritten
    unfolding rewritten
    rewritten-IsState = record {
      ready = f.state.ready;
      tree = written-IsTree hhdm_offset table l f.after f.state virtual f.pt value f.found;
    }

    rewritten-IsSpace :
        IsSpace hhdm_offset table rewritten
          (assign (page_number virtual) (leaf value) (translate hhdm_offset m.words table))
    unfolding rewritten
    rewritten-IsSpace v =
        translate-written hhdm_offset table l f.after f.state virtual f.pt value f.found v
        ∙ ap (λ w. if page_number v == page_number virtual then leaf value else w) (f.same v)

  -- If the lists of allocators are well formed, every region starts at a page, has at most 2^20
  -- pages and ends at 2^48 at most, the tables lie at pages and form a tree outside the free
  -- pages, the offset of the mapped memory is a multiple of 4096 and the pointer to the table is
  -- not null, then for a page-aligned address and no large page at it, unmapping either halts
  -- because one of at most three requests for a page fails, or returns with the same invariants,
  -- maps nothing at the page of the address, leaves the entry that maps every other page as it
  -- was, and flushes the address.
  pub unmap_page-Unmaps :
      ((unmap_page hhdm_offset table virtual m ≡ stop (kpanic page_mapping)) × Fails 3 m.paging)
      ⊎ Unmaps hhdm_offset table l virtual m (unmap_page hhdm_offset table virtual m)
  unfolding unmap_page rewritten
  unmap_page-Unmaps = elim (entry-cases hhdm_offset table l m virtual s nonnull aligned small) [
    | inl (e, failed) ↦ inl (rw (aligned-assert virtual aligned, e) refl, failed)
    | inr f ↦ inr (record {
      after = rewritten f 0;
      returns = rw (aligned-assert virtual aligned, f.returns) refl;
      state = rewritten-IsState f 0;
      space = rewritten-IsSpace f 0;
      flushes = ap (◌∷◌ virtual) f.same_flushed;
    })
  ]

  module _ (physical flags : ℕ) (aligned' : physical % 4096 ≡ 0) (low : physical < 2 ^ 48) where
    -- If the lists of allocators are well formed, every region starts at a page, has at most 2^20
    -- pages and ends at 2^48 at most, the tables lie at pages and form a tree outside the free
    -- pages, the offset of the mapped memory is a multiple of 4096 and the pointer to the table is
    -- not null, then for page-aligned addresses, a physical one below 2^48 and no large page at
    -- the virtual one, mapping either halts because one of at most three requests for a page
    -- fails, or returns with the same invariants, maps the virtual page by an entry that holds the
    -- physical address and the flags asked for, leaves the entry that maps every other page as it
    -- was, large pages included, and flushes the address.
    pub map_page-Maps :
        ((map_page hhdm_offset table physical virtual flags m ≡ stop (kpanic page_mapping))
          × Fails 3 m.paging)
        ⊎ Maps hhdm_offset table l physical virtual flags m
            (map_page hhdm_offset table physical virtual flags m)
    unfolding map_page rewritten pt_entry
    map_page-Maps = elim (entry-cases hhdm_offset table l m virtual s nonnull aligned small) [
      | inl (e, failed) ↦
          inl
            (rw (aligned-assert virtual aligned, aligned-assert physical aligned', e) refl, failed)
      | inr f ↦ inr (
          let d = map_entry-Describes flags physical aligned' low in
          record {
            after = rewritten f (map_entry physical flags);
            e = map_entry physical flags;
            returns =
                rw (aligned-assert virtual aligned, aligned-assert physical aligned', f.returns)
                  refl;
            state = rewritten-IsState f (map_entry physical flags);
            describes = d;
            space = λ v.
                rewritten-IsSpace f (map_entry physical flags) v
                ∙ ap (λ w. assign (page_number virtual) w (translate hhdm_offset m.words table) v)
                    (leaf-present (map_entry physical flags) d.present);
            flushes = ap (◌∷◌ virtual) f.same_flushed;
          })
    ]
