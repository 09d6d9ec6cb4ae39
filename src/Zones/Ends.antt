-- ===== src/Zones/Ends.antt =====
-- A list under construction, read from its last allocator, and what `SL_APPEND_BASE` does to it.
use mathlib.Core.Path.{subst}
use native.Mathlib.Decide.{ℕ_discrete}
use drastic.Base.{
  ℕ, zero, suc, ◌≤◌, ◌<◌, ◌≡◌, ◌≢◌, refl, true, List, [], ◌∷◌, ◌++◌, length, set, ok, arith, ◌∙◌,
  ap, get_or-set_self, get_or-set_ne, length-set,
}
use drastic.PhysicalAllocator.Pool.{has, Below}
use drastic.Zones.{Pointer, null, base, sentinel, node, Links, Node, sentinel_node}
use drastic.Zones.Chain.{node_at, load-node}
use drastic.Zones.Alloc.{store-node}
use drastic.Zones.Setup.{Building, set_links}

-- From `start` the pointers lead through the allocators `rs`, given in reverse, to `target`.
abbrev pub Ends : (Links → Pointer) → Pointer → List Node → List ℕ → Pointer → Type 0
Ends follow start nodes [] target = start ≡ target
Ends follow start nodes (k ∷ rs) target =
    Ends follow start nodes rs (node k)
    × (k < length nodes)
    × (follow (node_at nodes k).links ≡ target)

-- The allocators are listed in the order in which they were made.
abbrev pub Descending : List ℕ → Type 0
Descending [] = Unit
Descending (k ∷ rs) = Below k rs × Descending rs

-- A list and the pointer to its last element; both are unset if it is empty.
abbrev pub ListState : (Links → Pointer) → Pointer → List Node → Pointer → List ℕ → Type 0
ListState follow start nodes last [] = (start ≡ null) × (last ≡ base)
ListState follow start nodes last (k ∷ rs) =
    (last ≡ node k) × Ends follow start nodes (k ∷ rs) sentinel

pub has-Below : (n k : ℕ) (rs : List ℕ) → Below n rs → has k rs ≡ true → k < n
has-Below n k [] b h = absurd (ground arith)
has-Below n k (r ∷ rs) b h = ground (arith, has-Below n k rs b.1)

module _ (follow : Links → Pointer) (start : Pointer) (nodes nodes' : List Node)
    (longer : length nodes ≤ length nodes') where
  pub Ends-frame :
      (rs : List ℕ) (target : Pointer)
      → ((i : ℕ)
          → has i rs ≡ true
          → follow (node_at nodes' i).links ≡ follow (node_at nodes i).links)
      → Ends follow start nodes rs target
      → Ends follow start nodes' rs target
  Ends-frame [] target same e = e
  Ends-frame (k ∷ rs) target same (e, lt, to) = (
    Ends-frame rs (node k) (λ i h. same i (ground (arith, h))) e,
    omega arith,
    same k (ground arith) ∙ to,
  )

  pub ListState-frame :
      (last : Pointer) (rs : List ℕ)
      → ((i : ℕ)
          → has i rs ≡ true
          → follow (node_at nodes' i).links ≡ follow (node_at nodes i).links)
      → ListState follow start nodes last rs
      → ListState follow start nodes' last rs
  ListState-frame last [] same s = s
  ListState-frame last (k ∷ rs) same (e, s) = (e, Ends-frame (k ∷ rs) sentinel same s)

-- A new allocator at the end of the store leaves the lists alone.
pub node_at-append_lt :
    (nodes : List Node) (n : Node) (i : ℕ)
    → i < length nodes
    → node_at (nodes ++ n ∷ []) i ≡ node_at nodes i
node_at-append_lt [] n i h = absurd (omega arith)
node_at-append_lt (x ∷ nodes) n zero h = refl
node_at-append_lt (x ∷ nodes) n (suc i) h = node_at-append_lt nodes n i (omega arith)

pub node_at-append_last :
    (nodes : List Node) (n : Node) → node_at (nodes ++ n ∷ []) (length nodes) ≡ n
node_at-append_last [] n = refl
node_at-append_last (x ∷ nodes) n = node_at-append_last nodes n

-- The lists after `last->field = current`, by the list that `last` is the end of.
module _ (put : Links → Links) where
  abbrev pub relinked_base : Links → List ℕ → Links
  relinked_base links [] = put links
  relinked_base links (k ∷ rs) = links

  abbrev pub relinked_nodes : List Node → List ℕ → List Node
  relinked_nodes nodes [] = nodes
  relinked_nodes nodes (k ∷ rs) =
      set nodes k (record { pa = (node_at nodes k).pa; links = put (node_at nodes k).links })

  abbrev pub relinked : Building → List ℕ → Building
  relinked b rs = record b {
    nodes = relinked_nodes b.nodes rs;
    base_links = relinked_base b.base_links rs;
  }

  pub set_links-relinked :
      (follow : Links → Pointer) (start : Pointer) (b : Building) (last : Pointer) (rs : List ℕ)
      → ListState follow start b.nodes last rs
      → set_links last put b ≡ ok (relinked b rs)
  unfolding set_links
  set_links-relinked follow start b last [] s = rw s.1
  set_links-relinked follow start b last (k ∷ rs) s =
      rw (s.0, load-node b.nodes k s.1.1, store-node b.nodes k _ s.1.1)

-- One of the three lists, by the field that links it.
pub record Field : Type 0 where
  pub follow : Links → Pointer
  pub put : Pointer → Links → Links
  pub follow-put : (p : Pointer) (links : Links) → follow (put p links) ≡ p

module _ (f : Field) (b : Building) (last current : Pointer) where
  open f use {follow, put, follow-put}

  pub relinked-length : (rs : List ℕ) → length (relinked (put current) b rs).nodes ≡ length b.nodes
  relinked-length [] = refl
  relinked-length (k ∷ rs) = length-set b.nodes k _

  pub relinked-ne :
      (k : ℕ) (rs : List ℕ) (i : ℕ)
      → k ≢ i
      → node_at (relinked (put current) b (k ∷ rs)).nodes i ≡ node_at b.nodes i
  relinked-ne k rs i ne = get_or-set_ne b.nodes k i _ sentinel_node ne

  -- The list that is linked grows by the new allocator `n`.
  pub ListState-relinked :
      (rs : List ℕ) (n : ℕ)
      → ListState follow (follow b.base_links) b.nodes last rs
      → Descending rs
      → Below n rs
      → n < length b.nodes
      → follow (node_at b.nodes n).links ≡ sentinel
      → current ≡ node n
      → ListState follow
          (follow (relinked (put current) b rs).base_links)
          (relinked (put current) b rs).nodes
          current
          (n ∷ rs)
  ListState-relinked [] n s d below lt new e = (e, (follow-put current b.base_links ∙ e, lt, new))
  ListState-relinked (k ∷ rs) n (last_is, (before, k_lt, to)) d below lt new e = (
    e,
    (
      (
        Ends-frame follow _ b.nodes (relinked (put current) b (k ∷ rs)).nodes
            (omega (arith, relinked-length (k ∷ rs))) rs (node k)
            (λ i h.
              ap (λ m. follow m.links) (relinked-ne k rs i (omega (arith, has-Below k i rs d.0 h))))
            before,
        rw (relinked-length (k ∷ rs)) k_lt,
        ap (λ m. follow m.links) (get_or-set_self b.nodes k _ sentinel_node k_lt)
            ∙ follow-put current (node_at b.nodes k).links
            ∙ e,
      ),
      rw (relinked-length (k ∷ rs)) lt,
      ap (λ m. follow m.links) (relinked-ne k rs n (omega (arith, below.0))) ∙ new,
    ),
  )

  -- What the write leaves as it is, at every allocator.
  module _ {V : Type 0} (view : Node → V)
      (unseen : (n : Node)
        → view (record { pa = n.pa; links = put current n.links }) ≡ view n) where
    pub relinked-view :
        (rs : List ℕ) (i : ℕ)
        → Below (length b.nodes) rs
        → view (node_at (relinked (put current) b rs).nodes i) ≡ view (node_at b.nodes i)
    relinked-view [] i below = refl
    relinked-view (k ∷ rs) i below = elim (ℕ_discrete k i) [
      | yes e ↦
          subst
            (λ j.
              view (node_at (relinked (put current) b (k ∷ rs)).nodes j) ≡ view (node_at b.nodes j))
            e
            (ap view (get_or-set_self b.nodes k _ sentinel_node below.0)
              ∙ unseen (node_at b.nodes k))
      | no ne ↦ ap view (relinked-ne k rs i ne)
    ]
