-- ===== src/Zones/Built.antt =====
-- The lists under construction stay well formed while an allocator is made and linked.
use mathlib.Core.Path.{subst}
use native.Mathlib.Decide.{ℕ_discrete}
use drastic.Base.{
  ℕ, ◌≤◌, ◌<◌, ◌≡◌, ◌≢◌, refl, List, [], ◌∷◌, length, arith, sym, inl, inr, get_or-set_self,
}
use drastic.PhysicalAllocator.Pool.{Below}
use drastic.Zones.{Pointer, sentinel, node, Links, sentinel_node}
use drastic.Zones.Chain.{node_at}
use drastic.Zones.Valid.{EndsBelow}
use drastic.Zones.Setup.{Building, mb_16, gb_4}
use drastic.Zones.Ends.{
  Field, ListState, ListState-frame, ListState-relinked, relinked, relinked-length, relinked-view,
  relinked-ne,
}
use drastic.Zones.Append.{
  next_field, field_16mb, field_4gb, end_of, Ranges, FirstNon, IsBuilt, Below-mono, EndsBelow-frame,
  Ranges-frame, node-injective,
}

-- Linking allocator `n` at the end of one of the lists.
module _ (b : Building) (all z16 z4 : List ℕ) (from n : ℕ) (s : IsBuilt b all z16 z4 from)
    (lt : n < length b.nodes) where
  same_pa :
      (f : Field) (rs : List ℕ) (i : ℕ)
      → Below (length b.nodes) rs
      → (node_at (relinked (f.put (node n)) b rs).nodes i).pa ≡ (node_at b.nodes i).pa
  same_pa f rs i below = relinked-view f b b.last (node n) (λ m. m.pa) (λ m. refl) rs i below

  kept_ends :
      (f : Field) (rs : List ℕ) (limit : ℕ) (zone : List ℕ)
      → Below (length b.nodes) rs
      → EndsBelow limit b.nodes zone
      → EndsBelow limit (relinked (f.put (node n)) b rs).nodes zone
  kept_ends f rs limit zone below =
      EndsBelow-frame limit b.nodes (relinked (f.put (node n)) b rs).nodes zone
        (λ i h. same_pa f rs i below)

  kept-Ranges :
      (f : Field) (rs : List ℕ)
      → Below (length b.nodes) rs
      → Ranges (relinked (f.put (node n)) b rs).nodes from
  kept-Ranges f rs below =
      Ranges-frame b.nodes (relinked (f.put (node n)) b rs).nodes from
        (relinked-length f b b.last (node n) rs) (λ i. same_pa f rs i below) s.ranges

  -- A list of another field is as before.
  kept_state :
      (f other : Field) (rs zone : List ℕ) (last : Pointer)
      → Below (length b.nodes) rs
      → ((links : Links) → other.follow (f.put (node n) links) ≡ other.follow links)
      → ListState other.follow (other.follow b.base_links) b.nodes last zone
      → ListState other.follow
          (other.follow (relinked (f.put (node n)) b rs).base_links)
          (relinked (f.put (node n)) b rs).nodes
          last
          zone
  kept_state f other [] zone last below unseen st = rw unseen st
  kept_state f other (k ∷ rs) zone last below unseen st =
      ListState-frame other.follow (other.follow b.base_links) b.nodes
        (relinked (f.put (node n)) b (k ∷ rs)).nodes
        (omega (arith, relinked-length f b b.last (node n) (k ∷ rs))) last zone
        (λ i h.
          relinked-view f b b.last (node n) (λ m. other.follow m.links) (λ m. unseen m.links)
            (k ∷ rs) i below)
        st

  kept_first :
      (f : Field) (rs : List ℕ)
      → FirstNon (length b.nodes) b.first_non_16mb
      → FirstNon
          (length (relinked (f.put (node n)) b rs).nodes)
          (relinked (f.put (node n)) b rs).first_non_16mb
  kept_first f [] e = e
  kept_first f (k ∷ rs) (inl e) = inl e
  kept_first f (k ∷ rs) (inr (m, m_lt, e)) =
      inr (m, omega (arith, relinked-length f b b.last (node n) (k ∷ rs)), e)

  module _ (below : Below n all)
      (unlinked : next_field.follow (node_at b.nodes n).links ≡ sentinel) where
    no_self_loop :
        (i : ℕ)
        → i < length b.nodes
        → (node_at (relinked (next_field.put (node n)) b all).nodes i).links.next ≢ node i
    no_self_loop = by_list all below s.below_all
      where
        by_list :
            (rs : List ℕ)
            → Below n rs
            → Below (length b.nodes) rs
            → (i : ℕ) → i < length b.nodes
            → (node_at (relinked (next_field.put (node n)) b rs).nodes i).links.next ≢ node i
        by_list [] be bl i h = s.no_loop i h
        by_list (k ∷ rs) be bl i h = elim (ℕ_discrete k i) [
          | yes e ↦
              subst
                (λ j.
                  (node_at (relinked (next_field.put (node n)) b (k ∷ rs)).nodes j).links.next
                  ≢ node j)
                e
                (rw (get_or-set_self b.nodes k _ sentinel_node bl.0)
                  λ loop. omega (arith, be.0, node-injective n k loop))
          | no ne ↦ rw (relinked-ne next_field b b.last (node n) k rs i ne) (s.no_loop i h)
        ]

    pub append-IsBuilt :
        IsBuilt
          (record (relinked (next_field.put (node n)) b all) { last = node n })
          (n ∷ all)
          z16
          z4
          from
    append-IsBuilt = record {
      list =
          ListState-relinked next_field b b.last (node n) all n s.list s.descending_all below lt
            unlinked refl;
      list_16mb =
          kept_state next_field field_16mb all z16 b.last_16mb s.below_all (λ links. refl)
            s.list_16mb;
      list_4gb =
          kept_state next_field field_4gb all z4 b.last_4gb s.below_all (λ links. refl) s.list_4gb;
      below_all = (
        omega (arith, relinked-length next_field b b.last (node n) all),
        Below-mono _ _ all (omega (arith, relinked-length next_field b b.last (node n) all))
            s.below_all,
      );
      below_16mb =
          Below-mono _ _ z16 (omega (arith, relinked-length next_field b b.last (node n) all))
            s.below_16mb;
      below_4gb =
          Below-mono _ _ z4 (omega (arith, relinked-length next_field b b.last (node n) all))
            s.below_4gb;
      descending_all = (below, s.descending_all);
      descending_16mb = s.descending_16mb;
      descending_4gb = s.descending_4gb;
      ends_16mb = kept_ends next_field all mb_16 z16 s.below_all s.ends_16mb;
      ends_4gb = kept_ends next_field all gb_4 z4 s.below_all s.ends_4gb;
      first_non = kept_first next_field all s.first_non;
      no_loop = λ i h. no_self_loop i (rw (relinked-length next_field b b.last (node n) all) at h);
      ranges = kept-Ranges next_field all s.below_all;
    }

  module _ (below : Below n z16) (unlinked : field_16mb.follow (node_at b.nodes n).links ≡ sentinel)
      (low : end_of (node_at b.nodes n).pa ≤ mb_16) where
    pub append_16mb-IsBuilt :
        IsBuilt
          (record (relinked (field_16mb.put (node n)) b z16) { last_16mb = node n })
          all
          (n ∷ z16)
          z4
          from
    append_16mb-IsBuilt = record {
      list = kept_state field_16mb next_field z16 all b.last s.below_16mb (λ links. refl) s.list;
      list_16mb =
          ListState-relinked field_16mb b b.last_16mb (node n) z16 n s.list_16mb s.descending_16mb
            below lt unlinked refl;
      list_4gb =
          kept_state field_16mb field_4gb z16 z4 b.last_4gb s.below_16mb (λ links. refl) s.list_4gb;
      below_all =
          Below-mono _ _ all (omega (arith, relinked-length field_16mb b b.last (node n) z16))
            s.below_all;
      below_16mb = (
        omega (arith, relinked-length field_16mb b b.last (node n) z16),
        Below-mono _ _ z16 (omega (arith, relinked-length field_16mb b b.last (node n) z16))
            s.below_16mb,
      );
      below_4gb =
          Below-mono _ _ z4 (omega (arith, relinked-length field_16mb b b.last (node n) z16))
            s.below_4gb;
      descending_all = s.descending_all;
      descending_16mb = (below, s.descending_16mb);
      descending_4gb = s.descending_4gb;
      ends_16mb = (
        subst (λ pa. end_of pa ≤ mb_16) (sym (same_pa field_16mb z16 n s.below_16mb)) low,
        kept_ends field_16mb z16 mb_16 z16 s.below_16mb s.ends_16mb,
      );
      ends_4gb = kept_ends field_16mb z16 gb_4 z4 s.below_16mb s.ends_4gb;
      first_non = kept_first field_16mb z16 s.first_non;
      no_loop = λ i h.
          rw
            (relinked-view field_16mb b b.last (node n) (λ m. m.links.next) (λ m. refl) z16 i
              s.below_16mb)
            (s.no_loop i (rw (relinked-length field_16mb b b.last (node n) z16) at h));
      ranges = kept-Ranges field_16mb z16 s.below_16mb;
    }

  module _ (below : Below n z4) (unlinked : field_4gb.follow (node_at b.nodes n).links ≡ sentinel)
      (low : end_of (node_at b.nodes n).pa ≤ gb_4) where
    pub append_4gb-IsBuilt :
        IsBuilt
          (record (relinked (field_4gb.put (node n)) b z4) { last_4gb = node n })
          all
          z16
          (n ∷ z4)
          from
    append_4gb-IsBuilt = record {
      list = kept_state field_4gb next_field z4 all b.last s.below_4gb (λ links. refl) s.list;
      list_16mb =
          kept_state field_4gb field_16mb z4 z16 b.last_16mb s.below_4gb (λ links. refl)
            s.list_16mb;
      list_4gb =
          ListState-relinked field_4gb b b.last_4gb (node n) z4 n s.list_4gb s.descending_4gb below
            lt unlinked refl;
      below_all =
          Below-mono _ _ all (omega (arith, relinked-length field_4gb b b.last (node n) z4))
            s.below_all;
      below_16mb =
          Below-mono _ _ z16 (omega (arith, relinked-length field_4gb b b.last (node n) z4))
            s.below_16mb;
      below_4gb = (
        omega (arith, relinked-length field_4gb b b.last (node n) z4),
        Below-mono _ _ z4 (omega (arith, relinked-length field_4gb b b.last (node n) z4))
            s.below_4gb,
      );
      descending_all = s.descending_all;
      descending_16mb = s.descending_16mb;
      descending_4gb = (below, s.descending_4gb);
      ends_16mb = kept_ends field_4gb z4 mb_16 z16 s.below_4gb s.ends_16mb;
      ends_4gb = (
        subst (λ pa. end_of pa ≤ gb_4) (sym (same_pa field_4gb z4 n s.below_4gb)) low,
        kept_ends field_4gb z4 gb_4 z4 s.below_4gb s.ends_4gb,
      );
      first_non = kept_first field_4gb z4 s.first_non;
      no_loop = λ i h.
          rw
            (relinked-view field_4gb b b.last (node n) (λ m. m.links.next) (λ m. refl) z4 i
              s.below_4gb)
            (s.no_loop i (rw (relinked-length field_4gb b b.last (node n) z4) at h));
      ranges = kept-Ranges field_4gb z4 s.below_4gb;
    }
