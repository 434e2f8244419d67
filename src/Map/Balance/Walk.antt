-- ===== src/Map/Balance/Walk.antt =====
-- src/map.c: the walks back up of `map_insert` and `map_remove` leave an Andersson tree.
use casting.Base.{
  ℕ, suc, ◌≡◌, refl, inl, inr, arith, Ordering, Ordering-cases, Bool, true, false, Bool-cases, leb,
  Option, none, some, if-elim,
}
use casting.Map.Node.{
  Tree, nil, node, level, right, Copy, copied, refused, Callbacks, Insertion, created, overwritten,
  failed, Removal, missing, removed, height_limit,
}
use casting.Map.Ops.{
  stored, new_leaf, new_node, overwrite, relink, place, reattach, take_heir, inherit, unlink,
  detach,
}
use casting.Map.Balance.{IsBalanced, Grown, Grown-left, Grown-right}
use casting.Map.Balance.Shrink.{Shrunk, Shrunk-left, Shrunk-right}

module _ {ℓ} {A : Type ℓ} where
  -- An insertion makes a grown tree, or one of the same shape.
  abbrev pub Grows : Tree A → Insertion A → Type 0
  Grows t (created u) = Grown t u
  Grows t (overwritten old u) =
      IsBalanced u × (level u ≡ level t) × (level (right u) ≡ level (right t))
  Grows t (failed e) = Unit
  Grows t (Insertion.fault w) = Unit

  relink-Grows_right :
      (lv : ℕ) (d : A) (l r : Tree A) (i : Insertion A)
      → IsBalanced (node lv d l r)
      → Grows r i
      → Grows (node lv d l r) (relink (λ t. node lv d l t) i)
  unfolding relink
  relink-Grows_right lv d l r (created u) b g = Grown-right lv d l r u b g
  relink-Grows_right lv d l r (overwritten old u) b g =
      ((b.0, omega arith, omega arith, omega arith, b.4, g.0), refl, g.1)
  relink-Grows_right lv d l r (failed e) b g = tt
  relink-Grows_right lv d l r (Insertion.fault w) b g = tt

  relink-Grows_left :
      (lv : ℕ) (d : A) (l r : Tree A) (i : Insertion A)
      → IsBalanced (node lv d l r)
      → Grows l i
      → Grows (node lv d l r) (relink (λ t. node lv d t r) i)
  unfolding relink
  relink-Grows_left lv d l r (created u) b g = Grown-left lv d l r u b g
  relink-Grows_left lv d l r (overwritten old u) b g =
      ((omega arith, b.1, b.2, b.3, g.0, b.5), refl, refl)
  relink-Grows_left lv d l r (failed e) b g = tt
  relink-Grows_left lv d l r (Insertion.fault w) b g = tt

  new_leaf-Grows : (s : Copy A) → Grows nil (new_leaf s)
  unfolding new_leaf
  new_leaf-Grows (copied d) = omega arith
  new_leaf-Grows (refused e) = tt

  new_node-Grows : (c : Callbacks A) (mem : Bool) (x : A) → Grows nil (new_node c mem x)
  unfolding new_node
  new_node-Grows c false x = tt
  new_node-Grows c true x = new_leaf-Grows (stored c x)

  overwrite-Grows :
      (dup : Option (A → Copy A)) (rel : Bool) (lv : ℕ) (d x : A) (l r : Tree A)
      → IsBalanced (node lv d l r)
      → Grows (node lv d l r) (overwrite dup rel lv d l r x)
  unfolding overwrite
  overwrite-Grows none rel lv d x l r b = (b, refl, refl)
  overwrite-Grows (some f) rel lv d x l r b = tt

  pub place-Grows :
      (c : Callbacks A) (mem : Bool) (x : A) (t : Tree A) (top : ℕ)
      → IsBalanced t
      → Grows t (place c mem top t x)
  unfolding place
  place-Grows c mem x nil top b = new_node-Grows c mem x
  place-Grows c mem x (node lv d l r) top b = elim (Bool-cases (leb height_limit top)) [
    | inl deep ↦ rw (deep, place) tt
    | inr shallow ↦
        rw (shallow, place)
          (elim (Ordering-cases (c.cmp d x)) [
            | inl e ↦
                rw (e, place)
                  (relink-Grows_right lv d l r _ b (place-Grows c mem x r (suc top) b.5))
            | inr (inl e) ↦ rw (e, place) (overwrite-Grows c.dup c.rel lv d x l r b)
            | inr (inr e) ↦
                rw (e, place) (relink-Grows_left lv d l r _ b (place-Grows c mem x l (suc top) b.4))
          ])
  ]

  -- A removal makes a shrunk tree.
  abbrev pub Shrinks : Tree A → Removal A → Type 0
  Shrinks t missing = Unit
  Shrinks t (removed d u) = Shrunk t u
  Shrinks t Removal.fault = Unit

  reattach-Shrinks_right :
      (lv : ℕ) (d : A) (l r : Tree A) (i : Removal A)
      → IsBalanced (node lv d l r)
      → Shrinks r i
      → Shrinks (node lv d l r) (reattach (λ t. node lv d l t) i)
  unfolding reattach
  reattach-Shrinks_right lv d l r missing b s = tt
  reattach-Shrinks_right lv d l r (removed e u) b s = Shrunk-right lv d d l r u b s
  reattach-Shrinks_right lv d l r Removal.fault b s = tt

  reattach-Shrinks_left :
      (lv : ℕ) (d : A) (l r : Tree A) (i : Removal A)
      → IsBalanced (node lv d l r)
      → Shrinks l i
      → Shrinks (node lv d l r) (reattach (λ t. node lv d t r) i)
  unfolding reattach
  reattach-Shrinks_left lv d l r missing b s = tt
  reattach-Shrinks_left lv d l r (removed e u) b s = Shrunk-left lv d d l r u b s
  reattach-Shrinks_left lv d l r Removal.fault b s = tt

  -- A node without a left child gives way to its right child.
  replaced-Shrunk :
      (lv : ℕ) (d : A) (r : Tree A) → IsBalanced (node lv d nil r) → Shrunk (node lv d nil r) r
  replaced-Shrunk lv d nil b = omega arith
  replaced-Shrunk lv d (node k e x y) b = (b.5, omega arith)

  take_heir-Shrinks :
      (l r : Tree A) (top lv : ℕ) (d : A)
      → IsBalanced (node lv d l r)
      → Shrinks (node lv d l r) (take_heir top lv d l r)
  unfolding take_heir
  take_heir-Shrinks nil r top lv d b = replaced-Shrunk lv d r b
  take_heir-Shrinks (node k e x y) r top lv d b = elim (Bool-cases (leb height_limit top)) [
    | inl deep ↦ rw (deep, take_heir) tt
    | inr shallow ↦
        rw (shallow, take_heir)
          (reattach-Shrinks_left lv d (node k e x y) r _ b
            (take_heir-Shrinks x y (suc top) k e b.4))
  ]

  inherit-Shrinks :
      (lv : ℕ) (d : A) (l r : Tree A) (i : Removal A)
      → IsBalanced (node lv d l r)
      → Shrinks r i
      → Shrinks (node lv d l r) (inherit lv d l i)
  unfolding inherit
  inherit-Shrinks lv d l r missing b s = tt
  inherit-Shrinks lv d l r (removed e u) b s = Shrunk-right lv d e l r u b s
  inherit-Shrinks lv d l r Removal.fault b s = tt

  unlink-Shrinks :
      (top lv : ℕ) (d : A) (l r : Tree A)
      → IsBalanced (node lv d l r)
      → Shrinks (node lv d l r) (unlink top lv d l r)
  unfolding unlink
  unlink-Shrinks top lv d nil r b = replaced-Shrunk lv d r b
  unlink-Shrinks top lv d (node k e x y) nil b = absurd (omega arith)
  unlink-Shrinks top lv d (node k e x y) (node j f g h) b =
      inherit-Shrinks lv d (node k e x y) (node j f g h) _ b
        (take_heir-Shrinks g h (suc top) j f b.5)

  pub detach-Shrinks :
      (cmp : A → A → Ordering) (x : A) (t : Tree A) (top : ℕ)
      → IsBalanced t
      → Shrinks t (detach cmp top t x)
  unfolding detach
  detach-Shrinks cmp x nil top b =
      if-elim (Shrinks nil) (leb height_limit top) Removal.fault missing tt tt
  detach-Shrinks cmp x (node lv d l r) top b = elim (Bool-cases (leb height_limit top)) [
    | inl deep ↦ rw (deep, detach) tt
    | inr shallow ↦
        rw (shallow, detach)
          (elim (Ordering-cases (cmp d x)) [
            | inl e ↦
                rw (e, detach)
                  (reattach-Shrinks_right lv d l r _ b (detach-Shrinks cmp x r (suc top) b.5))
            | inr (inl e) ↦ rw (e, detach) (unlink-Shrinks top lv d l r b)
            | inr (inr e) ↦
                rw (e, detach)
                  (reattach-Shrinks_left lv d l r _ b (detach-Shrinks cmp x l (suc top) b.4))
          ])
  ]
