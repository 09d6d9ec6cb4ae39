-- ===== src/RbTree/Model/Delete/Nephews.antt =====
-- The rotations of a repair after a deletion, when a nephew is red.
use drastic.Base.{ℕ, suc, ◌≡◌, refl, true, false, ◌||◌, Bool-cases, inl, inr, arith}
use drastic.RbTree.{TestRange, left, right, Color, black, red}
use drastic.RbTree.Model.{Tree, leaf, branch, is_red, paint, rotate, double_rotate}
use drastic.RbTree.Model.Balance.{Balanced}
use drastic.RbTree.Model.Delete.{paint_child, rebuilt}

-- The black nodes on every way of a node above children with `n`.
abbrev pub above : Color → ℕ → ℕ
above black n = suc n
above red n = n

pub Balanced-paint :
    (t : Tree) (n : ℕ) → is_red t ≡ true → Balanced t n → Balanced (paint black t) (suc n)
Balanced-paint leaf n e h = absurd (cc)
Balanced-paint (branch i red q x y) n e (ex, ey, hx, hy) = (n, refl, hx, hy)
Balanced-paint (branch i black q x y) n e h = absurd (cc)

pub is_red-paint : (t : Tree) → is_red (paint black t) ≡ false
is_red-paint leaf = refl
is_red-paint (branch i c q x y) = refl

-- The colours after the rotation.
abbrev paint_ends : Color → Tree → Tree
paint_ends c t = paint_child right black (paint_child left black (paint c t))

-- The inner nephew of a black sibling comes up.
double-left :
    (i j m : ℕ) (c : Color) (r s : TestRange) (z a b : Tree)
    → is_red a ≡ true
    → is_red b ≡ false
    → Balanced z m
    → Balanced a m
    → Balanced b m
    → Balanced
        (paint_ends c (double_rotate left (branch i c r z (branch j black s a b))))
        (above c (suc m))
double-left i j m c r s z leaf b ea eb hz ha hb = absurd (cc)
double-left i j m c r s z (branch k black u l o) b ea eb hz ha hb = absurd (cc)
double-left i j m black r s z (branch k red u l o) b ea eb hz (el, eo, hl, ho) hb =
    (suc m, refl, (m, refl, hz, hl), (m, refl, ho, hb))
double-left i j m red r s z (branch k red u l o) b ea eb hz (el, eo, hl, ho) hb =
    (refl, refl, (m, refl, hz, hl), (m, refl, ho, hb))

-- The outer nephew stays on its side, and the sibling comes up.
single-left :
    (i j m : ℕ) (c : Color) (r s : TestRange) (z a b : Tree)
    → is_red b ≡ true
    → Balanced z m
    → Balanced a m
    → Balanced b m
    → Balanced
        (paint_ends c (rotate left (branch i c r z (branch j black s a b))))
        (above c (suc m))
single-left i j m black r s z a b eb hz ha hb =
    (suc m, refl, (m, refl, hz, ha), Balanced-paint b m eb hb)
single-left i j m red r s z a b eb hz ha hb =
    (refl, is_red-paint b, (m, refl, hz, ha), Balanced-paint b m eb hb)

-- A red nephew: the repair ends.
pub rebuilt-left :
    (i j m : ℕ) (c : Color) (r s : TestRange) (z a b : Tree)
    → is_red a || is_red b ≡ true
    → Balanced z m
    → Balanced a m
    → Balanced b m
    → Balanced (rebuilt left (branch i c r z (branch j black s a b))) (above c (suc m))
rebuilt-left i j m c r s z a b e hz ha hb = elim (Bool-cases (is_red b)) [
  | inl f ↦ rw f (single-left i j m c r s z a b f hz ha hb)
  | inr f ↦ rw f (double-left i j m c r s z a b (ground arith) f hz ha hb)
]

-- The inner nephew of a black sibling comes up.
double-right :
    (i j m : ℕ) (c : Color) (r s : TestRange) (z a b : Tree)
    → is_red a ≡ true
    → is_red b ≡ false
    → Balanced z m
    → Balanced a m
    → Balanced b m
    → Balanced
        (paint_ends c (double_rotate right (branch i c r (branch j black s b a) z)))
        (above c (suc m))
double-right i j m c r s z leaf b ea eb hz ha hb = absurd (cc)
double-right i j m c r s z (branch k black u l o) b ea eb hz ha hb = absurd (cc)
double-right i j m black r s z (branch k red u o l) b ea eb hz (eo, el, ho, hl) hb =
    (suc m, refl, (m, refl, hb, ho), (m, refl, hl, hz))
double-right i j m red r s z (branch k red u o l) b ea eb hz (eo, el, ho, hl) hb =
    (refl, refl, (m, refl, hb, ho), (m, refl, hl, hz))

-- The outer nephew stays on its side, and the sibling comes up.
single-right :
    (i j m : ℕ) (c : Color) (r s : TestRange) (z a b : Tree)
    → is_red b ≡ true
    → Balanced z m
    → Balanced a m
    → Balanced b m
    → Balanced
        (paint_ends c (rotate right (branch i c r (branch j black s b a) z)))
        (above c (suc m))
single-right i j m black r s z a b eb hz ha hb =
    (suc m, refl, Balanced-paint b m eb hb, (m, refl, ha, hz))
single-right i j m red r s z a b eb hz ha hb =
    (is_red-paint b, refl, Balanced-paint b m eb hb, (m, refl, ha, hz))

-- A red nephew: the repair ends.
pub rebuilt-right :
    (i j m : ℕ) (c : Color) (r s : TestRange) (z a b : Tree)
    → is_red b || is_red a ≡ true
    → Balanced z m
    → Balanced a m
    → Balanced b m
    → Balanced (rebuilt right (branch i c r (branch j black s b a) z)) (above c (suc m))
rebuilt-right i j m c r s z a b e hz ha hb = elim (Bool-cases (is_red b)) [
  | inl f ↦ rw f (single-right i j m c r s z a b f hz ha hb)
  | inr f ↦ rw f (double-right i j m c r s z a b (ground arith) f hz ha hb)
]
