-- ===== src/RbTree.antt =====
-- experiments/rbtree.c: a red-black tree of memory ranges whose nodes are also linked in a list. Here:
-- the ranges and the functions on single nodes (lines 19 to 226).
--
-- The fields of all nodes are kept as functions of the node's number; number 0 is the sentinel
-- `tree->list`. The lowest bit of `children[RB_LEFT]` is the field `color`, and `node_get`, which
-- masks it, leaves no trace. A failed `assert` ends the call.
pub mod Model
pub mod Heap
pub mod Arena
pub mod Insert
pub mod Delete
pub mod Search
pub mod Invariant
mod Tests
use drastic.Base.{
  ℕ, ◌+◌, ◌-◌, ◌^◌, ◌%◌, Bool, true, false, not, ◌&&◌, ltb, leb, ◌==◌, if◌then◌else◌, Result, ok,
  stop, assertion_failed, bad_pointer, kassert, ◌>>=◌, ◌>>◌,
}
use drastic.Base.Int.{ℤ, pos, negsuc}
use drastic.PhysicalAllocator.{u64}

-- `Test_Range`
pub record TestRange : Type 0 where
  pub start : ℕ
  pub len : ℕ

unfoldable pub test_range_compare : TestRange → TestRange → ℤ
test_range_compare a b =
    if ltb a.start b.start
    then negsuc 0
    else (if ltb b.start a.start
        then pos 1
        else (if ltb a.len b.len then negsuc 0 else (if ltb b.len a.len then pos 1 else pos 0)))

-- `UINTPTR_MAX`
abbrev pub uintptr_max : ℕ
uintptr_max = 2 ^ 64 - 1

abbrev pub test_range_valid : TestRange → Bool
test_range_valid range =
    if leb range.len 0
    then false
    else (if ltb (uintptr_max - range.start) range.len then false else true)

unfoldable pub test_range_overlap : TestRange → TestRange → Result Bool
test_range_overlap a b =
    kassert (test_range_valid a && test_range_valid b)
    >> ok (ltb a.start (u64 (b.start + b.len)) && ltb b.start (u64 (a.start + a.len)))

-- `RB_Direction`
pub data Direction : Type 0 where
  left right : Direction

-- `rb_direction_flip`
abbrev pub flip : Direction → Direction
flip left = right
flip right = left

-- `RB_Color`
pub data Color : Type 0 where
  black red : Color

-- `rb_color_flip`
abbrev pub rb_color_flip : Color → Color
rb_color_flip black = red
rb_color_flip red = black

-- `nil` is `&node_nil`.
pub data NodePointer : Type 0 where
  null : NodePointer
  nil : NodePointer
  node : ℕ → NodePointer

-- The fields of `Node`.
pub record Nodes : Type 0 where
  pub range : ℕ → TestRange
  pub list : Direction → ℕ → NodePointer
  pub children : Direction → ℕ → NodePointer
  pub color : ℕ → Color

abbrev pub same_direction : Direction → Direction → Bool
same_direction left left = true
same_direction right right = true
same_direction _ _ = false

-- One field of one node is written.
abbrev pub set_at {ℓ} : {A : Type ℓ} → (ℕ → A) → ℕ → A → ℕ → A
set_at f i v k = if k == i then v else f k

abbrev pub set_link :
    (Direction → ℕ → NodePointer) → Direction → ℕ → NodePointer → Direction → ℕ → NodePointer
set_link f d i v e k = if same_direction d e && (k == i) then v else f e k

-- `assert(node_valid(node))`
abbrev pub node_valid : NodePointer → Result NodePointer
node_valid null = stop assertion_failed
node_valid p = ok p

abbrev pub node_is_nil : NodePointer → Result Bool
node_is_nil null = stop assertion_failed
node_is_nil nil = ok true
node_is_nil (node i) = ok false

-- `assert(!node_is_nil(node))`, and which node it is.
abbrev pub node_index : NodePointer → Result ℕ
node_index null = stop assertion_failed
node_index nil = stop assertion_failed
node_index (node i) = ok i

abbrev pub not_nil : NodePointer → Result (Unit {0})
not_nil p = node_index p >>= λ i. ok tt

abbrev pub node_get_color : Nodes → NodePointer → Result Color
node_get_color s p = node_index p >>= λ i. ok (s.color i)

abbrev pub node_set_color : Nodes → NodePointer → Color → Result Nodes
node_set_color s p color = node_index p >>= λ i. ok (record s { color = set_at s.color i color })

abbrev pub node_get_child : Nodes → NodePointer → Direction → Result NodePointer
node_get_child s p direction = node_index p >>= λ i. node_valid (s.children direction i)

-- The colour in the lowest bit is kept.
abbrev pub node_set_child : Nodes → NodePointer → Direction → NodePointer → Result Nodes
node_set_child s p direction child = node_valid child >>= λ valid_child.
    node_index p >>= λ i. ok (record s { children = set_link s.children direction i valid_child })

abbrev pub node_has_child : Nodes → NodePointer → Direction → Result Bool
node_has_child s p direction =
    node_get_child s p direction >>= λ child. node_is_nil child >>= λ none. ok (not none)

abbrev pub is_red_color : Color → Bool
is_red_color black = false
is_red_color red = true

abbrev pub node_red : Nodes → NodePointer → Result Bool
node_red s null = stop assertion_failed
node_red s nil = ok false
node_red s (node i) = ok (is_red_color (s.color i))

abbrev pub node_child_red : Nodes → NodePointer → Direction → Result Bool
node_child_red s p direction = node_get_child s p direction >>= node_red s

-- Whether one of the children is red, the one in this direction first.
abbrev pub either_red : Nodes → NodePointer → Direction → Result Bool
either_red s p direction = node_child_red s p direction >>= λ found. elim found [
  | true ↦ ok true
  | false ↦ node_child_red s p (flip direction)
]

-- The colour of a child that is there is flipped.
abbrev pub flip_unless_nil : Nodes → NodePointer → Result Nodes
flip_unless_nil s null = stop assertion_failed
flip_unless_nil s nil = ok s
flip_unless_nil s (node i) = ok (record s { color = set_at s.color i (rb_color_flip (s.color i)) })

unfoldable pub node_color_flip : Nodes → NodePointer → Result Nodes
node_color_flip s p = do
  color ← node_get_color s p
  s1 ← node_set_color s p (rb_color_flip color)
  left_child ← node_get_child s1 p left
  s2 ← flip_unless_nil s1 left_child
  right_child ← node_get_child s2 p right
  flip_unless_nil s2 right_child

unfoldable pub node_rotate : Nodes → NodePointer → Direction → Result (NodePointer × Nodes)
node_rotate s p direction = do
  temp ← node_get_child s p (flip direction)
  not_nil temp
  inner ← node_get_child s temp direction
  s1 ← node_set_child s p (flip direction) inner
  s2 ← node_set_child s1 temp direction p
  color ← node_get_color s2 p
  s3 ← node_set_color s2 temp color
  s4 ← node_set_color s3 p red
  ok (temp, s4)

unfoldable pub node_double_rotate : Nodes → NodePointer → Direction → Result (NodePointer × Nodes)
unfolding node_rotate
node_double_rotate s p direction = do
  child ← node_get_child s p (flip direction)
  not_nil child
  (turned, s1) ← node_rotate s child (flip direction)
  s2 ← node_set_child s1 p (flip direction) turned
  node_rotate s2 p direction

-- `p->list[direction]`, and an assignment to it; `node_nil` is in no list, and its links are NULL.
abbrev pub list_get : Nodes → NodePointer → Direction → Result NodePointer
list_get s null direction = stop bad_pointer
list_get s nil direction = ok null
list_get s (node i) direction = ok (s.list direction i)

abbrev pub list_set : Nodes → NodePointer → Direction → NodePointer → Result Nodes
list_set s null direction v = stop bad_pointer
list_set s nil direction v = stop bad_pointer
list_set s (node i) direction v = ok (record s { list = set_link s.list direction i v })

-- Links `p` into the list next to `anker`.
unfoldable pub node_insert : Nodes → NodePointer → NodePointer → Direction → Result Nodes
node_insert s p anker direction = do
  not_nil p
  not_nil anker
  next ← list_get s anker direction
  s1 ← list_set s p direction next
  s2 ← list_set s1 p (flip direction) anker
  s3 ← list_set s2 anker direction p
  beyond ← list_get s3 p direction
  list_set s3 beyond (flip direction) p

unfoldable pub node_remove_from_list : Nodes → NodePointer → Result Nodes
node_remove_from_list s p = do
  not_nil p
  before ← list_get s p left
  after ← list_get s p right
  s1 ← list_set s before right after
  after' ← list_get s1 p right
  before' ← list_get s1 p left
  list_set s1 after' left before'
