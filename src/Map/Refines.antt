-- ===== src/Map/Refines.antt =====
-- src/map.c: the tree operations, seen on the ascending list of the data.
pub mod Find
pub mod Place
pub mod Detach
use casting.Base.{
  ℕ, ◌-◌, ltb, ◌||◌, if◌then◌else◌, if-elim, ◌≡◌, refl, ◌∙◌, arith, ◌∷◌, ◌++◌, append_assoc,
}
use casting.Map.Node.{
  Tree, nil, node, level, skew, split, set_level, on_right, realign, rebalance, ordered,
}

module _ {ℓ} {A : Type ℓ} where
  -- The rotations and the rebalancing keep the order of the data.
  ordered-skew : (t : Tree A) → ordered (skew t) ≡ ordered t
  unfolding skew
  ordered-skew nil = refl
  ordered-skew (node lv d nil r) = refl
  ordered-skew (node lv d (node k e a b) r) =
      ground (arith, append_assoc (ordered a) (e ∷ ordered b) (d ∷ ordered r))

  ordered-split : (t : Tree A) → ordered (split t) ≡ ordered t
  unfolding split
  ordered-split nil = refl
  ordered-split (node lv d l nil) = refl
  ordered-split (node lv d l (node k e a nil)) = refl
  ordered-split (node lv d l (node k e a (node j f b c))) =
      ground (arith, append_assoc (ordered l) (d ∷ ordered a) (e ∷ (ordered b ++ (f ∷ ordered c))))

  ordered-on_right :
      (f : Tree A → Tree A)
      → ((t : Tree A) → ordered (f t) ≡ ordered t)
      → (t : Tree A) → ordered (on_right f t) ≡ ordered t
  unfolding on_right
  ordered-on_right f h nil = refl
  ordered-on_right f h (node lv d l r) = rw (h r)

  ordered-realign : (t : Tree A) → ordered (realign t) ≡ ordered t
  unfolding realign
  ordered-realign t = rw (
    ordered-on_right split ordered-split,
    ordered-split,
    ordered-on_right (on_right skew) (ordered-on_right skew ordered-skew),
    ordered-on_right skew ordered-skew,
    ordered-skew,
  )

  ordered-set_level : (n : ℕ) (t : Tree A) → ordered (set_level n t) ≡ ordered t
  unfolding set_level
  ordered-set_level n nil = refl
  ordered-set_level n (node lv d l r) = refl

  pub ordered-rebalance : (t : Tree A) → ordered (rebalance t) ≡ ordered t
  unfolding rebalance
  ordered-rebalance nil = refl
  ordered-rebalance (node lv d l r) =
      let child : Tree A = if ltb (lv - 1) (level r) then set_level (lv - 1) r else r in
      let same : ordered child ≡ ordered r =
        if-elim (λ u. ordered u ≡ ordered r) (ltb (lv - 1) (level r)) (set_level (lv - 1) r) r
          (ordered-set_level (lv - 1) r) refl in
      if-elim (λ u. ordered u ≡ ordered l ++ (d ∷ ordered r))
        (ltb (level l) (lv - 1) || ltb (level r) (lv - 1)) (realign (node (lv - 1) d l child))
        (node lv d l r) (rw (ordered-realign (node (lv - 1) d l child), same)) refl

  pub ordered-relink : (t : Tree A) → ordered (split (skew t)) ≡ ordered t
  ordered-relink t = ordered-split (skew t) ∙ ordered-skew t
