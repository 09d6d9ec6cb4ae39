-- ===== src/Zones/Chain.antt =====
-- The lists of allocators: which indices a list goes through, and what a loop along it does.
use drastic.Base.{
  ℕ, ◌<◌, ◌≡◌, ◌≢◌, refl, true, false, List, [], ◌∷◌, length, get_or, ok, arith,
  get_elem?-eq-get_or,
}
use drastic.Zones.{
  Pointer, null, base, sentinel, node, same_pointer, Links, Node, sentinel_node, load,
  pa_is_sentinel,
}
use drastic.PhysicalAllocator.Valid

abbrev pub node_at : List Node → ℕ → Node
node_at nodes i = get_or nodes i sentinel_node

-- From `p` the pointers chosen by `follow` lead through the allocators `is` to the sentinel.
abbrev pub Chain : (Links → Pointer) → List Node → Pointer → List ℕ → Type 0
Chain follow nodes p [] = p ≡ sentinel
Chain follow nodes p (i ∷ is) =
    (p ≡ node i) × (i < length nodes) × Chain follow nodes (follow (node_at nodes i).links) is

-- No allocator looks like the sentinel.
abbrev pub NoLoop : List Node → Type 0
NoLoop nodes = (i : ℕ) → i < length nodes → (node_at nodes i).links.next ≢ node i

abbrev pub AllValid : List Node → Type 0
AllValid nodes = (i : ℕ) → i < length nodes → Valid.IsValid (node_at nodes i).pa

pub load-node :
    (nodes : List Node) (i : ℕ) → i < length nodes → load nodes (node i) ≡ ok (node_at nodes i)
unfolding load
load-node nodes i h = rw (get_elem?-eq-get_or nodes i sentinel_node h)

same_node : (p : Pointer) (i : ℕ) → p ≢ node i → same_pointer (node i) p ≡ false
same_node null i h = refl
same_node base i h = refl
same_node sentinel i h = refl
same_node (node j) i h = ground (arith)

pub node-not_sentinel :
    (nodes : List Node) (i : ℕ)
    → NoLoop nodes
    → i < length nodes
    → pa_is_sentinel nodes (node i) ≡ ok false
unfolding pa_is_sentinel
node-not_sentinel nodes i free h =
    rw (load-node nodes i h, same_node (node_at nodes i).links.next i (free i h))

pub sentinel-is_sentinel : (nodes : List Node) → pa_is_sentinel nodes sentinel ≡ ok true
unfolding pa_is_sentinel
sentinel-is_sentinel nodes = refl
