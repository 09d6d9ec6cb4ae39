-- ===== src/RbTree/Model/Delete/Balance.antt =====
-- A deletion keeps the red-black rules, or takes one black node off every way and says so.
use drastic.Base.{ℕ, suc, ◌≡◌, refl, sym, true, false, ◌||◌, Bool-cases, inl, inr, arith}
use mathlib.Core.Path.{subst}
use drastic.RbTree.{TestRange, Direction, left, right, Color, black, red, is_red_color}
use drastic.RbTree.Delete.{DeleteStatus, delete_ok, delete_fail}
use drastic.RbTree.Model.{Tree, leaf, branch, is_red}
use drastic.RbTree.Model.Balance.{Balanced}
use drastic.RbTree.Model.Delete.{rebalance, delete_fix, in_child, recolored, rebuilt}
use drastic.RbTree.Model.Delete.Nephews.{above, rebuilt-left, rebuilt-right}

-- What is left of a tree with `n` black nodes on every way.
abbrev pub AfterDelete : Tree × DeleteStatus → ℕ → Type 0
AfterDelete (z, delete_ok) n = Balanced z n
AfterDelete (z, delete_fail) n = (is_red z ≡ false) × ((m : ℕ) × (n ≡ suc m) × Balanced z m)

-- At a red node the repair ends; at a black one it ends, or the node has one black node less.
red-left :
    (i m : ℕ) (r : TestRange) (z y : Tree)
    → Balanced z m
    → Balanced y (suc m)
    → is_red z ≡ false
    → is_red y ≡ false
    → ((rebalance left (branch i red r z y)).1 ≡ delete_ok)
      × Balanced ((rebalance left (branch i red r z y)).0) (suc m)
red-left i m r z leaf hz hy ez ey = absurd (omega arith)
red-left i m r z (branch j red s a b) hz hy ez ey = absurd (cc)
red-left i m r z (branch j black s a b) hz (n, e, ha, hb) ez ey =
    let same : n ≡ m = omega arith in
    let ha' : Balanced a m = subst (Balanced a) same ha in
    let hb' : Balanced b m = subst (Balanced b) same hb in
    elim (Bool-cases (is_red a || is_red b)) [
      | inl f ↦ unfold rebalance in rw f (refl, rebuilt-left i j m red r s z a b f hz ha' hb')
      | inr f ↦
          let ea : is_red a ≡ false = ground arith in
          let eb : is_red b ≡ false = ground arith in
          unfold rebalance in rw f (refl, (m, refl, hz, (ea, eb, ha', hb')))
    ]

black-left :
    (i m : ℕ) (r : TestRange) (z y : Tree)
    → Balanced z m
    → Balanced y (suc m)
    → is_red y ≡ false
    → AfterDelete (rebalance left (branch i black r z y)) (suc (suc m))
black-left i m r z leaf hz hy ey = absurd (omega arith)
black-left i m r z (branch j red s a b) hz hy ey = absurd (cc)
black-left i m r z (branch j black s a b) hz (n, e, ha, hb) ey =
    let same : n ≡ m = omega arith in
    let ha' : Balanced a m = subst (Balanced a) same ha in
    let hb' : Balanced b m = subst (Balanced b) same hb in
    elim (Bool-cases (is_red a || is_red b)) [
      | inl f ↦
          let t : Tree = (branch i black r z (branch j black s a b)) in
          let e : rebalance left t ≡ (rebuilt left t, delete_ok) = unfold rebalance in rw f refl in
          subst (λ z. AfterDelete z (suc (suc m))) (sym e)
            (rebuilt-left i j m black r s z a b f hz ha' hb')
      | inr f ↦
          let ea : is_red a ≡ false = ground arith in
          let eb : is_red b ≡ false = ground arith in
          let t : Tree = (branch i black r z (branch j black s a b)) in
          let e : rebalance left t ≡ (recolored left t, delete_fail) =
            unfold rebalance in rw f refl in
          subst (λ z. AfterDelete z (suc (suc m))) (sym e)
            (refl, (suc m, refl, (m, refl, hz, (ea, eb, ha', hb'))))
    ]

-- At a red node the repair ends; at a black one it ends, or the node has one black node less.
red-right :
    (i m : ℕ) (r : TestRange) (z y : Tree)
    → Balanced z m
    → Balanced y (suc m)
    → is_red z ≡ false
    → is_red y ≡ false
    → ((rebalance right (branch i red r y z)).1 ≡ delete_ok)
      × Balanced ((rebalance right (branch i red r y z)).0) (suc m)
red-right i m r z leaf hz hy ez ey = absurd (omega arith)
red-right i m r z (branch j red s a b) hz hy ez ey = absurd (cc)
red-right i m r z (branch j black s b a) hz (n, e, hb, ha) ez ey =
    let same : n ≡ m = omega arith in
    let ha' : Balanced a m = subst (Balanced a) same ha in
    let hb' : Balanced b m = subst (Balanced b) same hb in
    elim (Bool-cases (is_red b || is_red a)) [
      | inl f ↦ unfold rebalance in rw f (refl, rebuilt-right i j m red r s z a b f hz ha' hb')
      | inr f ↦
          let ea : is_red a ≡ false = ground arith in
          let eb : is_red b ≡ false = ground arith in
          unfold rebalance in rw f (refl, (m, refl, (eb, ea, hb', ha'), hz))
    ]

black-right :
    (i m : ℕ) (r : TestRange) (z y : Tree)
    → Balanced z m
    → Balanced y (suc m)
    → is_red y ≡ false
    → AfterDelete (rebalance right (branch i black r y z)) (suc (suc m))
black-right i m r z leaf hz hy ey = absurd (omega arith)
black-right i m r z (branch j red s a b) hz hy ey = absurd (cc)
black-right i m r z (branch j black s b a) hz (n, e, hb, ha) ey =
    let same : n ≡ m = omega arith in
    let ha' : Balanced a m = subst (Balanced a) same ha in
    let hb' : Balanced b m = subst (Balanced b) same hb in
    elim (Bool-cases (is_red b || is_red a)) [
      | inl f ↦
          let t : Tree = (branch i black r (branch j black s b a) z) in
          let e : rebalance right t ≡ (rebuilt right t, delete_ok) =
            unfold rebalance in rw f refl in
          subst (λ z. AfterDelete z (suc (suc m))) (sym e)
            (rebuilt-right i j m black r s z a b f hz ha' hb')
      | inr f ↦
          let ea : is_red a ≡ false = ground arith in
          let eb : is_red b ≡ false = ground arith in
          let t : Tree = (branch i black r (branch j black s b a) z) in
          let e : rebalance right t ≡ (recolored right t, delete_fail) =
            unfold rebalance in rw f refl in
          subst (λ z. AfterDelete z (suc (suc m))) (sym e)
            (refl, (suc m, refl, (m, refl, (eb, ea, hb', ha'), hz)))
    ]

ended : (z : Tree × DeleteStatus) (n : ℕ) → z.1 ≡ delete_ok → Balanced (z.0) n → AfterDelete z n
ended (z, delete_ok) n e h = h
ended (z, delete_fail) n e h = absurd (cc)

true-not-false : true ≡ false → ⊥
true-not-false e = cc

in_child-status :
    (d : Direction) (t : Tree) (z : Tree × DeleteStatus)
    → z.1 ≡ delete_ok
    → (in_child d t z).1 ≡ delete_ok
in_child-status d t (z, status) e = e

in_child-left :
    (j n : ℕ) (s : TestRange) (x b : Tree) (z : Tree × DeleteStatus)
    → Balanced (z.0) n
    → Balanced b n
    → Balanced ((in_child left (branch j black s x b) z).0) (suc n)
in_child-left j n s x b (z, status) h hb = (n, refl, h, hb)

in_child-right :
    (j n : ℕ) (s : TestRange) (x b : Tree) (z : Tree × DeleteStatus)
    → Balanced (z.0) n
    → Balanced b n
    → Balanced ((in_child right (branch j black s b x) z).0) (suc n)
in_child-right j n s x b (z, status) h hb = (n, refl, hb, h)

-- After a black node less on the side left.
pub fix-left :
    (i m : ℕ) (c : Color) (r : TestRange) (z y : Tree)
    → Balanced z m
    → Balanced y (suc m)
    → is_red z ≡ false
    → (is_red_color c ≡ true → is_red y ≡ false)
    → AfterDelete (delete_fix left (branch i c r z y)) (above c (suc m))
fix-left i m c r z leaf hz hy ez ey = absurd (omega arith)
fix-left i m black r z (branch j black s a b) hz hy ez ey =
    unfold delete_fix in black-left i m r z (branch j black s a b) hz hy refl
fix-left i m red r z (branch j black s a b) hz hy ez ey =
    let e : ((rebalance left (branch i red r z (branch j black s a b))).1 ≡ delete_ok)
        × Balanced ((rebalance left (branch i red r z (branch j black s a b))).0) (suc m) =
      red-left i m r z (branch j black s a b) hz hy ez refl in
    unfold delete_fix in
    ended (rebalance left (branch i red r z (branch j black s a b))) (suc m) (e.0) (e.1)
fix-left i m red r z (branch j red s a b) hz hy ez ey = absurd (true-not-false (ey refl))
fix-left i m black r z (branch j red s a b) hz (ea, eb, ha, hb) ez ey =
    let e : ((rebalance left (branch i red r z a)).1 ≡ delete_ok)
        × Balanced ((rebalance left (branch i red r z a)).0) (suc m) =
      red-left i m r z a hz ha ez ea in
    unfold delete_fix in
    ended
      (in_child left (branch j black s (branch i red r z a) b)
        (rebalance left (branch i red r z a)))
      (suc (suc m))
      (in_child-status left (branch j black s (branch i red r z a) b)
        (rebalance left (branch i red r z a)) (e.0))
      (in_child-left j (suc m) s (branch i red r z a) b (rebalance left (branch i red r z a)) (e.1)
        hb)

-- After a black node less on the side right.
pub fix-right :
    (i m : ℕ) (c : Color) (r : TestRange) (z y : Tree)
    → Balanced z m
    → Balanced y (suc m)
    → is_red z ≡ false
    → (is_red_color c ≡ true → is_red y ≡ false)
    → AfterDelete (delete_fix right (branch i c r y z)) (above c (suc m))
fix-right i m c r z leaf hz hy ez ey = absurd (omega arith)
fix-right i m black r z (branch j black s a b) hz hy ez ey =
    unfold delete_fix in black-right i m r z (branch j black s a b) hz hy refl
fix-right i m red r z (branch j black s a b) hz hy ez ey =
    let e : ((rebalance right (branch i red r (branch j black s a b) z)).1 ≡ delete_ok)
        × Balanced ((rebalance right (branch i red r (branch j black s a b) z)).0) (suc m) =
      red-right i m r z (branch j black s a b) hz hy ez refl in
    unfold delete_fix in
    ended (rebalance right (branch i red r (branch j black s a b) z)) (suc m) (e.0) (e.1)
fix-right i m red r z (branch j red s a b) hz hy ez ey = absurd (true-not-false (ey refl))
fix-right i m black r z (branch j red s b a) hz (eb, ea, hb, ha) ez ey =
    let e : ((rebalance right (branch i red r a z)).1 ≡ delete_ok)
        × Balanced ((rebalance right (branch i red r a z)).0) (suc m) =
      red-right i m r z a hz ha ez ea in
    unfold delete_fix in
    ended
      (in_child right (branch j black s b (branch i red r a z))
        (rebalance right (branch i red r a z)))
      (suc (suc m))
      (in_child-status right (branch j black s b (branch i red r a z))
        (rebalance right (branch i red r a z)) (e.0))
      (in_child-right j (suc m) s (branch i red r a z) b (rebalance right (branch i red r a z))
        (e.1) hb)
