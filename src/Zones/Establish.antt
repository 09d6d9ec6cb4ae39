-- ===== src/Zones/Establish.antt =====
-- What one usable region adds to the lists under construction: the new allocator, and its zones.
use mathlib.Core.Path.{subst}
use drastic.Base.{
  ℕ, suc, ◌+◌, ◌≤◌, ◌<◌, ◌≡◌, refl, true, false, List, ◌∷◌, length, Result, ok, arith, ◌∙◌, sym, ap,
  inl, inr, if◌then◌else◌, Bool-cases, leb, length-append,
}
use drastic.PhysicalAllocator.{PhysicalAllocator, page_size}
use drastic.PhysicalAllocator.Init.{page_range}
use drastic.PhysicalAllocator.Pool.{Below}
use drastic.Zones.{sentinel, node, Node, pa_is_sentinel}
use drastic.Zones.Chain.{node_at, node-not_sentinel, sentinel-is_sentinel}
use drastic.Zones.Setup.{
  Building, MemmapEntry, ends_below, mb_16, gb_4, append, append_16mb, append_4gb, enter_16mb,
  enter_4gb, add_usable, sentinel_links,
}
use drastic.Zones.Ends.{
  relinked, set_links-relinked, relinked-view, node_at-append_last, relinked-length,
}
use drastic.Zones.Built.{append-IsBuilt, append_16mb-IsBuilt, append_4gb-IsBuilt}
use drastic.Zones.Append.{
  IsBuilt, end_of, next_field, field_16mb, field_4gb, new-IsBuilt, with_new, FirstNon,
}
use drastic.Zones.Enlist.{
  IsLarge, Makes, make_allocator-Makes, Lists, enlist_large, Built, weaken, first_non-IsBuilt,
}

-- What entering the zone of 16 MB leaves, for the new allocator `n`.
record Entered (out : Result Building) (all z16 z4 : List ℕ) (from count n : ℕ)
    (pa : PhysicalAllocator) : Type 0 where
  after : Building
  returns : out ≡ ok after
  built : IsBuilt after all z16 z4 from
  counted : length after.nodes ≡ count
  new_pa : (node_at after.nodes n).pa ≡ pa
  unlinked : (node_at after.nodes n).links.next_4gb ≡ sentinel

module _ (entry : MemmapEntry) (b : Building) (all z16 z4 : List ℕ) (from n : ℕ)
    (s : IsBuilt b all z16 z4 from) (lt : n < length b.nodes) (pa : PhysicalAllocator)
    (there : (node_at b.nodes n).pa ≡ pa)
    (unlinked_4gb : (node_at b.nodes n).links.next_4gb ≡ sentinel) where
  abbrev zone_of : List ℕ
  zone_of = if ends_below entry mb_16 then n ∷ z16 else z16

  abbrev in_zone : Building
  in_zone = record (relinked (field_16mb.put (node n)) b z16) { last_16mb = node n }

  enter_below :
      Below n z16
      → (node_at b.nodes n).links.next_16mb ≡ sentinel
      → end_of (node_at b.nodes n).pa ≤ mb_16
      → ends_below entry mb_16 ≡ true
      → Entered (enter_16mb entry (node n) b) all (n ∷ z16) z4 from (length b.nodes) n pa
  enter_below below unlinked low e = record {
    after = in_zone;
    returns =
        unfold enter_16mb append_16mb in
        rw (
          e,
          set_links-relinked (field_16mb.put (node n)) field_16mb.follow b.base_links.next_16mb b
              b.last_16mb z16 s.list_16mb,
        );
    built = append_16mb-IsBuilt b all z16 z4 from n s lt below unlinked low;
    counted = relinked-length field_16mb b b.last (node n) z16;
    new_pa =
        relinked-view field_16mb b b.last (node n) (λ m. m.pa) (λ m. refl) z16 n s.below_16mb
        ∙ there;
    unlinked =
        relinked-view field_16mb b b.last (node n) (λ m. m.links.next_4gb) (λ m. refl) z16 n
          s.below_16mb
        ∙ unlinked_4gb;
  }

  enter_above :
      FirstNon (length b.nodes) b.first_non_16mb
      → ends_below entry mb_16 ≡ false
      → Entered (enter_16mb entry (node n) b) all z16 z4 from (length b.nodes) n pa
  enter_above (inl none_yet) e = record {
    after = record b { first_non_16mb = node n };
    returns =
        unfold enter_16mb in
        rw (
          e,
          subst (λ p. pa_is_sentinel b.nodes p ≡ ok true) (sym none_yet)
              (sentinel-is_sentinel b.nodes),
        );
    built = first_non-IsBuilt b all z16 z4 from n s lt;
    counted = refl;
    new_pa = there;
    unlinked = unlinked_4gb;
  }
  enter_above (inr (m, m_lt, is_m)) e = record {
    after = b;
    returns =
        unfold enter_16mb in
        rw (
          e,
          subst (λ p. pa_is_sentinel b.nodes p ≡ ok false) (sym is_m)
              (node-not_sentinel b.nodes m s.no_loop m_lt),
        );
    built = s;
    counted = refl;
    new_pa = there;
    unlinked = unlinked_4gb;
  }

  enter_16mb-Entered :
      Below n z16
      → (node_at b.nodes n).links.next_16mb ≡ sentinel
      → (ends_below entry mb_16 ≡ true → end_of (node_at b.nodes n).pa ≤ mb_16)
      → Entered (enter_16mb entry (node n) b) all zone_of z4 from (length b.nodes) n pa
  enter_16mb-Entered below unlinked low = elim (Bool-cases (ends_below entry mb_16)) [
    | inl e ↦ rw e (enter_below below unlinked (low e) e)
    | inr e ↦ rw e (enter_above s.first_non e)
  ]

-- What entering the zone of 4 GB leaves.
module _ (entry : MemmapEntry) (b : Building) (all z16 z4 : List ℕ) (from n : ℕ)
    (s : IsBuilt b all z16 z4 from) (lt : n < length b.nodes) where
  abbrev zone_4gb_of : List ℕ
  zone_4gb_of = if ends_below entry gb_4 then n ∷ z4 else z4

  enter_4gb-IsBuilt :
      Below n z4
      → (node_at b.nodes n).links.next_4gb ≡ sentinel
      → (ends_below entry gb_4 ≡ true → end_of (node_at b.nodes n).pa ≤ gb_4)
      → (after : Building) × (enter_4gb entry (node n) b ≡ ok after)
        × IsBuilt after all z16 zone_4gb_of from
        × (length after.nodes ≡ length b.nodes)
  enter_4gb-IsBuilt below unlinked low = elim (Bool-cases (ends_below entry gb_4)) [
    | inl e ↦ (
      record (relinked (field_4gb.put (node n)) b z4) { last_4gb = node n },
      unfold enter_4gb append_4gb in
          rw (
            e,
            set_links-relinked (field_4gb.put (node n)) field_4gb.follow b.base_links.next_4gb b
                b.last_4gb z4 s.list_4gb,
          ),
      rw e (append_4gb-IsBuilt b all z16 z4 from n s lt below unlinked (low e)),
      relinked-length field_4gb b b.last (node n) z4,
    )
    | inr e ↦ (b, unfold enter_4gb in rw e, rw e s, refl)
  ]

module _ (entry : MemmapEntry) (h : IsLarge entry) (b : Building) (lists : Lists) (from : ℕ)
    (s : Built b lists from) (above : from ≤ entry.entry_base) where
  abbrev made : Makes entry
  made = make_allocator-Makes entry h

  abbrev n : ℕ
  n = length b.nodes

  abbrev all : List ℕ
  all = page_range 0 lists.count

  from_base : from ≤ made.pa.address_base
  from_base = omega (arith, made.same_base)

  made_ends : end_of made.pa ≤ entry.entry_base + entry.entry_length
  made_ends = omega (arith, made.same_base, made.same_size)

  made_below : (limit : ℕ) → ends_below entry limit ≡ true → end_of made.pa ≤ limit
  made_below limit e = ground (arith, made_ends, h.ends)

  -- The building after the allocator was made, and after it was linked.
  abbrev b₁ : Building
  b₁ = with_new b all lists.zone_16mb lists.zone_4gb from s.built made.pa made.valid from_base

  s₁ : IsBuilt b₁ all lists.zone_16mb lists.zone_4gb (end_of made.pa)
  s₁ = new-IsBuilt b all lists.zone_16mb lists.zone_4gb from s.built made.pa made.valid from_base

  n_lt : n < length b₁.nodes
  n_lt = omega (arith, length-append {A = Node} b.nodes)

  new_node : node_at b₁.nodes n ≡ record { pa = made.pa; links = sentinel_links }
  new_node = node_at-append_last b.nodes _

  abbrev b₂ : Building
  b₂ = record (relinked (next_field.put (node n)) b₁ all) { last = node n }

  appended : append (node n) b₁ ≡ ok b₂
  unfolding append
  appended = rw (
      set_links-relinked (next_field.put (node n)) next_field.follow b₁.base_links.next b₁ b₁.last
        all s₁.list)

  s₂ : IsBuilt b₂ (n ∷ all) lists.zone_16mb lists.zone_4gb (end_of made.pa)
  s₂ =
      append-IsBuilt b₁ all lists.zone_16mb lists.zone_4gb (end_of made.pa) n s₁ n_lt
        s.built.below_all (ap (λ m. m.links.next) new_node)

  -- What linking the new allocator leaves of it.
  new_view :
      {V : Type 0} (view : Node → V)
      → ((m : Node) → view (record { pa = m.pa; links = next_field.put (node n) m.links }) ≡ view m)
      → view (node_at b₂.nodes n) ≡ view (record { pa = made.pa; links = sentinel_links })
  new_view view unseen =
      relinked-view next_field b₁ b₁.last (node n) view unseen all n s₁.below_all ∙ ap view new_node

  length₂ : length b₂.nodes ≡ n + 1
  length₂ = relinked-length next_field b₁ b₁.last (node n) all ∙ length-append b.nodes _

  n_lt₂ : n < length b₂.nodes
  n_lt₂ = omega (arith, length₂)

  entered :
      Entered
        (enter_16mb entry (node n) b₂)
        (n ∷ all)
        (if ends_below entry mb_16 then n ∷ lists.zone_16mb else lists.zone_16mb)
        lists.zone_4gb
        (end_of made.pa)
        (length b₂.nodes)
        n
        made.pa
  entered =
      enter_16mb-Entered entry b₂ (n ∷ all) lists.zone_16mb lists.zone_4gb (end_of made.pa) n s₂
        n_lt₂ made.pa (new_view (λ m. m.pa) (λ m. refl))
        (new_view (λ m. m.links.next_4gb) (λ m. refl)) s.built.below_16mb
        (new_view (λ m. m.links.next_16mb) (λ m. refl))
        (λ e.
          subst (λ pa. end_of pa ≤ mb_16) (sym (new_view (λ m. m.pa) (λ m. refl)))
            (made_below mb_16 e))

  abbrev lists' : Lists
  lists' = enlist_large entry lists

  finished :
      (after : Building) × (enter_4gb entry (node n) entered.after ≡ ok after)
      × IsBuilt after
          (n ∷ all)
          (if ends_below entry mb_16 then n ∷ lists.zone_16mb else lists.zone_16mb)
          (if ends_below entry gb_4 then n ∷ lists.zone_4gb else lists.zone_4gb)
          (end_of made.pa)
      × (length after.nodes ≡ length entered.after.nodes)
  finished =
      enter_4gb-IsBuilt entry entered.after (n ∷ all) _ lists.zone_4gb (end_of made.pa) n
        entered.built (omega (arith, entered.counted, n_lt₂)) s.built.below_4gb entered.unlinked
        (λ e. subst (λ pa. end_of pa ≤ gb_4) (sym entered.new_pa) (made_below gb_4 e))

  returns : add_usable entry b ≡ ok finished.0
  unfolding add_usable
  returns =
      let not_small : leb entry.entry_length page_size ≡ false = ground (arith, h.large) in
      rw (not_small, made.returns, appended, entered.returns) finished.1

  by_count :
      IsBuilt finished.0
        (page_range 0 (suc lists.count))
        lists'.zone_16mb
        lists'.zone_4gb
        (end_of made.pa)
  by_count =
      let listed : n ∷ all ≡ page_range 0 (suc lists.count) =
        ap (λ k. k ∷ all) (omega (arith, s.counted)) in
      subst (λ rs. IsBuilt finished.0 rs lists'.zone_16mb lists'.zone_4gb (end_of made.pa)) listed
        (subst
          (λ k.
            IsBuilt finished.0 (n ∷ all)
              (if ends_below entry mb_16 then k ∷ lists.zone_16mb else lists.zone_16mb)
              (if ends_below entry gb_4 then k ∷ lists.zone_4gb else lists.zone_4gb)
              (end_of made.pa))
          s.counted finished.2)

  pub add_large :
      (after : Building) × (add_usable entry b ≡ ok after)
      × Built after lists' (entry.entry_base + entry.entry_length)
  add_large = (
    finished.0,
    returns,
    weaken finished.0 lists' (end_of made.pa) (entry.entry_base + entry.entry_length) made_ends
        (record {
          built = by_count;
          counted = omega (arith, finished.3, entered.counted, length₂, s.counted);
        }),
  )
