-- ===== src/RbTree/Model/Balance.antt =====
-- The red-black rules: no red node has a red child, and as many black nodes lie on every way down.
use drastic.Base.{ℕ, suc, ◌≡◌, refl, true, false, ◌&&◌, ◌||◌, Bool-cases, inl, inr, arith}
use drastic.RbTree.{TestRange, left, right, black, red}
use drastic.RbTree.Model.{
  Tree, leaf, branch, is_red, double_rotate, toggle, paint, side, insert, insert_fix, insert-left,
  insert-right,
}
use drastic.RbTree.Model.Counts.{Direction-cases}

-- `n` black nodes lie on every way down.
abbrev pub Balanced : Tree → ℕ → Type 0
Balanced leaf n = n ≡ 0
Balanced (branch i red q x y) n =
    (is_red x ≡ false) × (is_red y ≡ false) × Balanced x n × Balanced y n
Balanced (branch i black q x y) n = (m : ℕ) × (n ≡ suc m) × Balanced x m × Balanced y m

-- Balanced but for a red root, which may have one red child.
abbrev pub Nearly : Tree → ℕ → Type 0
Nearly leaf n = n ≡ 0
Nearly (branch i red q x y) n = (is_red x && is_red y ≡ false) × Balanced x n × Balanced y n
Nearly (branch i black q x y) n = Balanced (branch i black q x y) n

Balanced→Nearly : (t : Tree) (n : ℕ) → Balanced t n → Nearly t n
Balanced→Nearly leaf n h = h
Balanced→Nearly (branch i red q x y) n (ex, ey, hx, hy) = (ground arith, hx, hy)
Balanced→Nearly (branch i black q x y) n h = h

Balanced-toggle : (t : Tree) (n : ℕ) → is_red t ≡ true → Balanced t n → Balanced (toggle t) (suc n)
Balanced-toggle leaf n e h = absurd (cc)
Balanced-toggle (branch i red q x y) n e (ex, ey, hx, hy) = (n, refl, hx, hy)
Balanced-toggle (branch i black q x y) n e h = absurd (cc)

is_red-toggle : (t : Tree) → is_red t ≡ true → is_red (toggle t) ≡ false
is_red-toggle leaf e = absurd (cc)
is_red-toggle (branch i red q x y) e = refl
is_red-toggle (branch i black q x y) e = absurd (cc)

-- The double rotation at a black node whose left child is red and has a red child inside.
double-left :
    (i j n : ℕ) (q r : TestRange) (a b y : Tree)
    → is_red b ≡ true
    → is_red a ≡ false
    → is_red y ≡ false
    → Balanced a n
    → Balanced b n
    → Balanced y n
    → Balanced (double_rotate right (branch i black r (branch j red q a b) y)) (suc n)
double-left i j n q r a leaf y eb ea ey ha hb hy = absurd (cc)
double-left i j n q r a (branch k black s l m) y eb ea ey ha hb hy = absurd (cc)
double-left i j n q r a (branch k red s l m) y eb ea ey ha (el, em, hl, hm) hy =
    (n, refl, (ea, el, ha, hl), (em, ey, hm, hy))

black-left :
    (i n : ℕ) (r : TestRange) (z y : Tree)
    → Nearly z n
    → Balanced y n
    → Balanced (insert_fix left (branch i black r z y)) (suc n)
unfolding insert_fix
black-left i n r leaf y hz hy = (n, refl, hz, hy)
black-left i n r (branch j black q a b) y hz hy = (n, refl, hz, hy)
black-left i n r (branch j red q a b) y (ne, ha, hb) hy = elim (Bool-cases (is_red y)) [
  | inl ey ↦ elim (Bool-cases (is_red a || is_red b)) [
    | inl e ↦ rw (ey, e) (refl, is_red-toggle y ey, (n, refl, ha, hb), Balanced-toggle y n ey hy)
    | inr e ↦
        let ea : is_red a ≡ false = ground arith in
        let eb : is_red b ≡ false = ground arith in rw (ey, e) (n, refl, (ea, eb, ha, hb), hy)
  ]
  | inr ey ↦ elim (Bool-cases (is_red a)) [
    | inl ea ↦
        let eb : is_red b ≡ false = ground arith in rw (ey, ea) (n, refl, ha, (eb, ey, hb, hy))
    | inr ea ↦ elim (Bool-cases (is_red b)) [
      | inl eb ↦ rw (ey, ea, eb) (double-left i j n q r a b y eb ea ey ha hb hy)
      | inr eb ↦ rw (ey, ea, eb) (n, refl, (ea, eb, ha, hb), hy)
    ]
  ]
]

red-left :
    (i n : ℕ) (r : TestRange) (z y : Tree)
    → Balanced z n
    → Balanced y n
    → is_red y ≡ false
    → Nearly (insert_fix left (branch i red r z y)) n
unfolding insert_fix
red-left i n r leaf y hz hy ey = (ground arith, hz, hy)
red-left i n r (branch j black q a b) y hz hy ey = (ground arith, hz, hy)
red-left i n r (branch j red q a b) y (ea, eb, ha, hb) hy ey =
    rw (ey, ea, eb) (ground arith, (ea, eb, ha, hb), hy)

-- The double rotation at a black node whose right child is red and has a red child inside.
double-right :
    (i j n : ℕ) (q r : TestRange) (a b y : Tree)
    → is_red b ≡ true
    → is_red a ≡ false
    → is_red y ≡ false
    → Balanced a n
    → Balanced b n
    → Balanced y n
    → Balanced (double_rotate left (branch i black r y (branch j red q b a))) (suc n)
double-right i j n q r a leaf y eb ea ey ha hb hy = absurd (cc)
double-right i j n q r a (branch k black s l m) y eb ea ey ha hb hy = absurd (cc)
double-right i j n q r a (branch k red s l m) y eb ea ey ha (el, em, hl, hm) hy =
    (n, refl, (ey, el, hy, hl), (em, ea, hm, ha))

black-right :
    (i n : ℕ) (r : TestRange) (z y : Tree)
    → Nearly z n
    → Balanced y n
    → Balanced (insert_fix right (branch i black r y z)) (suc n)
unfolding insert_fix
black-right i n r leaf y hz hy = (n, refl, hy, hz)
black-right i n r (branch j black q a b) y hz hy = (n, refl, hy, hz)
black-right i n r (branch j red q b a) y (ne, hb, ha) hy = elim (Bool-cases (is_red y)) [
  | inl ey ↦ elim (Bool-cases (is_red a || is_red b)) [
    | inl e ↦ rw (ey, e) (is_red-toggle y ey, refl, Balanced-toggle y n ey hy, (n, refl, hb, ha))
    | inr e ↦
        let ea : is_red a ≡ false = ground arith in
        let eb : is_red b ≡ false = ground arith in rw (ey, e) (n, refl, hy, (eb, ea, hb, ha))
  ]
  | inr ey ↦ elim (Bool-cases (is_red a)) [
    | inl ea ↦
        let eb : is_red b ≡ false = ground arith in rw (ey, ea) (n, refl, (ey, eb, hy, hb), ha)
    | inr ea ↦ elim (Bool-cases (is_red b)) [
      | inl eb ↦ rw (ey, ea, eb) (double-right i j n q r a b y eb ea ey ha hb hy)
      | inr eb ↦ rw (ey, ea, eb) (n, refl, hy, (eb, ea, hb, ha))
    ]
  ]
]

red-right :
    (i n : ℕ) (r : TestRange) (z y : Tree)
    → Balanced z n
    → Balanced y n
    → is_red y ≡ false
    → Nearly (insert_fix right (branch i red r y z)) n
unfolding insert_fix
red-right i n r leaf y hz hy ey = (ground arith, hy, hz)
red-right i n r (branch j black q a b) y hz hy ey = (ground arith, hy, hz)
red-right i n r (branch j red q b a) y (eb, ea, hb, ha) hy ey =
    rw (ey, ea, eb) (ground arith, hy, (eb, ea, hb, ha))

insert-Nearly :
    (k : ℕ) (q : TestRange) (t : Tree) (n : ℕ)
    → Balanced t n
    → Nearly (insert k q t) n × (is_red t ≡ false → Balanced (insert k q t) n)
insert-Nearly k q leaf n h = unfold insert in ((refl, h, h), λ e. (refl, refl, h, h))
insert-Nearly k q (branch i black r x y) n (m, e, hx, hy) =
    let b : Balanced (insert k q (branch i black r x y)) n = elim (Direction-cases (side q r)) [
      | inl f ↦
          rw (insert-left k q i black r x y f, e)
            (black-left i m r (insert k q x) y ((insert-Nearly k q x m hx).0) hy)
      | inr f ↦
          rw (insert-right k q i black r x y f, e)
            (black-right i m r (insert k q y) x ((insert-Nearly k q y m hy).0) hx)
    ] in
    (Balanced→Nearly (insert k q (branch i black r x y)) n b, λ g. b)
insert-Nearly k q (branch i red r x y) n (ex, ey, hx, hy) = (
  elim (Direction-cases (side q r)) [
    | inl f ↦
        rw (insert-left k q i red r x y f)
          (red-left i n r (insert k q x) y ((insert-Nearly k q x n hx).1 ex) hy ey)
    | inr f ↦
        rw (insert-right k q i red r x y f)
          (red-right i n r (insert k q y) x ((insert-Nearly k q y n hy).1 ey) hx ex)
  ],
  λ g. absurd (cc),
)

-- A red-black tree with a black root.
abbrev pub IsRedBlack : Tree → Type 0
IsRedBlack t = (is_red t ≡ false) × ((n : ℕ) × Balanced t n)

Nearly-IsRedBlack : (t : Tree) (n : ℕ) → Nearly t n → IsRedBlack (paint black t)
Nearly-IsRedBlack leaf n h = (refl, (n, h))
Nearly-IsRedBlack (branch i red q x y) n (e, hx, hy) = (refl, (suc n, (n, refl, hx, hy)))
Nearly-IsRedBlack (branch i black q x y) n h = (refl, (n, h))

pub insert-IsRedBlack :
    (k : ℕ) (q : TestRange) (t : Tree) → IsRedBlack t → IsRedBlack (paint black (insert k q t))
insert-IsRedBlack k q t (e, (n, h)) =
    Nearly-IsRedBlack (insert k q t) n ((insert-Nearly k q t n h).0)
