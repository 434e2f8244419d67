-- ===== src/Map/Refines/Detach.antt =====
-- src/map.c: the descent of `map_remove` is the removal from the ascending list.
use mathlib.Core.Logic.{Lift}
use casting.Base.{
  ℕ, suc, ◌+◌, ◌≤◌, ◌<◌, ◌≡◌, refl, sym, ◌∙◌, ap, arith, Ordering, Ordering-cases, Bool-cases, leb,
  leb→le, inl, inr, none, some, List, ◌∷◌, ◌++◌,
}
use casting.Map.Node.{Tree, nil, node, Removal, missing, removed, height_limit, ordered, depth}
use casting.Map.Ops.{reattach, take_heir, inherit, unlink, detach}
use casting.Map.Sorted.{IsOrder, IsAscending, lookup, erase}
use casting.Map.Sorted.Laws.{IsAscending-left, IsAscending-right}
use casting.Map.Sorted.Around.{
  lookup_right, lookup_here, lookup_left, erase_right, erase_here, erase_left,
}
use casting.Map.Refines.{ordered-rebalance}
use casting.Map.Balance.{IsBalanced}

module _ {ℓ} {A : Type ℓ} where
  -- What each result of a removal from a tree with the data `xs`, `deep` levels deep, says.
  abbrev pub Removed : (A → A → Ordering) → ℕ → ℕ → List A → A → Removal A → Type ℓ
  Removed cmp top deep xs x missing = lookup cmp x xs ≡ none
  Removed cmp top deep xs x (removed d u) =
      (lookup cmp x xs ≡ some d) × (ordered u ≡ erase cmp x xs)
  Removed cmp top deep xs x Removal.fault = Lift (height_limit ≤ top + deep)

  reattach-Removed :
      (cmp : A → A → Ordering) (top deep more : ℕ) (xs ys : List A) (x : A) (link : Tree A → Tree A)
      → lookup cmp x ys ≡ lookup cmp x xs
      → ((u : Tree A) → ordered u ≡ erase cmp x xs → ordered (link u) ≡ erase cmp x ys)
      → deep < more
      → (r : Removal A) → Removed cmp (suc top) deep xs x r
      → Removed cmp top more ys x (reattach link r)
  unfolding reattach
  reattach-Removed cmp top deep more xs ys x link p q h missing a = p ∙ a
  reattach-Removed cmp top deep more xs ys x link p q h (removed d u) (a, b) =
      (p ∙ a, ordered-rebalance (link u) ∙ q u b)
  reattach-Removed cmp top deep more xs ys x link p q h Removal.fault a =
      let low : height_limit ≤ suc top + deep = a.lower in record { lower = omega arith }

  -- The heir is the first of the data `xs`.
  abbrev Inherits : ℕ → ℕ → List A → Removal A → Type ℓ
  Inherits top deep xs missing = Lift ⊥
  Inherits top deep xs (removed d u) = xs ≡ d ∷ ordered u
  Inherits top deep xs Removal.fault = Lift (height_limit ≤ top + deep)

  reattach-Inherits :
      (top deep more lv : ℕ) (d : A) (xs : List A) (b : Tree A)
      → deep < more
      → (r : Removal A) → Inherits (suc top) deep xs r
      → Inherits top more (xs ++ (d ∷ ordered b)) (reattach (λ t. node lv d t b) r)
  unfolding reattach
  reattach-Inherits top deep more lv d xs b h missing a = record { lower = a.lower }
  reattach-Inherits top deep more lv d xs b h (removed e u) a =
      rw (ordered-rebalance (node lv d u b), a)
  reattach-Inherits top deep more lv d xs b h Removal.fault a =
      let low : height_limit ≤ suc top + deep = a.lower in record { lower = omega arith }

  take_heir-Inherits :
      (l r : Tree A) (top lv : ℕ) (d : A)
      → Inherits top (depth (node lv d l r)) (ordered (node lv d l r)) (take_heir top lv d l r)
  unfolding take_heir
  take_heir-Inherits nil r top lv d = refl
  take_heir-Inherits (node k e a b) r top lv d = elim (Bool-cases (leb height_limit top)) [
    | inl deep ↦
        rw (deep, take_heir)
          (let e : height_limit ≤ top = leb→le height_limit top deep in
            record { lower = omega arith })
    | inr shallow ↦
        rw (shallow, take_heir)
          (reattach-Inherits top (depth (node k e a b)) _ lv d (ordered (node k e a b)) r
            (omega arith) (take_heir (suc top) k e a b) (take_heir-Inherits a b (suc top) k e))
  ]

module _ {ℓ} {A : Type ℓ} (cmp : A → A → Ordering) (o : IsOrder cmp) (x : A) where
  inherit-Removed :
      (top deep more lv : ℕ) (d : A) (l : Tree A) (xs ys : List A) (r : Removal A)
      → lookup cmp x ys ≡ some d
      → ordered l ++ xs ≡ erase cmp x ys
      → deep < more
      → Inherits (suc top) deep xs r
      → Removed cmp top more ys x (inherit lv d l r)
  unfolding inherit
  inherit-Removed top deep more lv d l xs ys missing p q h a = absurd a.lower
  inherit-Removed top deep more lv d l xs ys (removed e u) p q h a =
      (p, ordered-rebalance (node lv e l u) ∙ ap (◌++◌ (ordered l)) (sym a) ∙ q)
  inherit-Removed top deep more lv d l xs ys Removal.fault p q h a =
      let low : height_limit ≤ suc top + deep = a.lower in record { lower = omega arith }

  unlink-Removed :
      (top lv : ℕ) (d : A) (l r : Tree A)
      → IsBalanced (node lv d l r)
      → lookup cmp x (ordered l ++ (d ∷ ordered r)) ≡ some d
      → ordered l ++ ordered r ≡ erase cmp x (ordered l ++ (d ∷ ordered r))
      → Removed cmp top
          (depth (node lv d l r))
          (ordered l ++ (d ∷ ordered r))
          x
          (unlink top lv d l r)
  unfolding unlink
  unlink-Removed top lv d nil r b p q = (p, q)
  unlink-Removed top lv d (node k e l r) nil b p q = absurd (omega arith)
  unlink-Removed top lv d (node k e l r) (node j f g h) b p q =
      inherit-Removed top (depth (node j f g h)) _ lv d (node k e l r) (ordered (node j f g h)) _
        (take_heir (suc top) j f g h) p q (omega arith) (take_heir-Inherits g h (suc top) j f)

  pub detach-Removed :
      (t : Tree A) (top : ℕ)
      → IsBalanced t
      → IsAscending cmp (ordered t)
      → Removed cmp top (depth t) (ordered t) x (detach cmp top t x)
  unfolding detach lookup
  detach-Removed nil top b h = elim (Bool-cases (leb height_limit top)) [
    | inl deep ↦ rw deep (
        let e : height_limit ≤ top = leb→le height_limit top deep in record { lower = omega arith })
    | inr shallow ↦ rw shallow refl
  ]
  detach-Removed (node lv d l r) top b h = elim (Bool-cases (leb height_limit top)) [
    | inl deep ↦
        rw (deep, detach)
          (let e : height_limit ≤ top = leb→le height_limit top deep in
            record { lower = omega arith })
    | inr shallow ↦
        rw (shallow, detach)
          (elim (Ordering-cases (cmp d x)) [
            | inl e ↦
                rw (e, detach)
                  (reattach-Removed cmp top (depth r) _ (ordered r) (ordered l ++ (d ∷ ordered r)) x
                    (λ t. node lv d l t) (lookup_right cmp o x d (ordered l) (ordered r) h e)
                    (λ u q.
                      ap (λ ys. ordered l ++ (d ∷ ys)) q
                      ∙ sym (erase_right cmp o x d (ordered l) (ordered r) h e))
                    (omega arith) (detach cmp (suc top) r x)
                    (detach-Removed r (suc top) b.5
                      (IsAscending-right cmp o (ordered l) (d ∷ ordered r) h).1))
            | inr (inl e) ↦
                rw (e, detach)
                  (unlink-Removed top lv d l r b (lookup_here cmp o x d (ordered l) (ordered r) h e)
                    (sym (erase_here cmp o x d (ordered l) (ordered r) h e)))
            | inr (inr e) ↦
                rw (e, detach)
                  (reattach-Removed cmp top (depth l) _ (ordered l) (ordered l ++ (d ∷ ordered r)) x
                    (λ t. node lv d t r) (lookup_left cmp o x d (ordered l) (ordered r) h e)
                    (λ u q.
                      ap (λ ys. ys ++ (d ∷ ordered r)) q
                      ∙ sym (erase_left cmp o x d (ordered l) (ordered r) h e))
                    (omega arith) (detach cmp (suc top) l x)
                    (detach-Removed l (suc top) b.4
                      (IsAscending-left cmp o (ordered l) (d ∷ ordered r) h)))
          ])
  ]
