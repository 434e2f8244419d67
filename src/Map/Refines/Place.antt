-- ===== src/Map/Refines/Place.antt =====
-- src/map.c: the descent of `map_insert` is the insertion into the ascending list.
use casting.Base.{
  ℕ, suc, ◌+◌, ◌<◌, ◌≡◌, ◌⊎◌, refl, sym, ◌∙◌, ap, arith, Ordering-cases, Bool, true, false,
  Bool-cases, leb, inl, inr, Option, none, some, List, [], ◌∷◌, ◌++◌, err_nomem, if◌then◌else◌,
}
use casting.Map.Node.{
  Tree, nil, node, Copy, copied, refused, Callbacks, Insertion, created, overwritten, failed,
  height_limit, ordered, depth, path_full,
}
use casting.Map.Ops.{stored, miscopied, new_leaf, new_node, overwrite, relink, place}
use casting.Map.Sorted.{IsOrder, IsAscending, lookup, insert}
use casting.Map.Sorted.Laws.{IsAscending-left, IsAscending-right}
use casting.Map.Sorted.Around.{
  lookup_right, lookup_here, lookup_left, insert_right, insert_here, insert_left,
}
use casting.Map.Refines.{ordered-relink}

module _ {ℓ} {A : Type ℓ} where
  -- What each result of an insertion into a tree with the data `xs`, `deep` levels deep, says.
  abbrev pub Placed : Callbacks A → Bool → ℕ → ℕ → List A → A → Insertion A → Type ℓ
  Placed c mem top deep xs x (created u) =
      (lookup c.cmp x xs ≡ none)
      × (mem ≡ true)
      × (e : A) × (stored c x ≡ copied e)
      × (ordered u ≡ insert c.cmp x e xs)
  Placed c mem top deep xs x (overwritten old u) =
      (c.dup ≡ none)
      × (e : A) × (lookup c.cmp x xs ≡ some e)
      × (old ≡ (if c.rel then e ∷ [] else []))
      × (ordered u ≡ insert c.cmp x x xs)
  Placed c mem top deep xs x (failed e) =
      (lookup c.cmp x xs ≡ none)
      × (((mem ≡ false) × (e ≡ err_nomem)) ⊎ ((mem ≡ true) × (stored c x ≡ refused e)))
  Placed c mem top deep xs x (Insertion.fault w) =
      ((f : A → Copy A) × (e : A) × (c.dup ≡ some f)
        × (lookup c.cmp x xs ≡ some e)
        × (w ≡ miscopied e c.rel (f x)))
      ⊎ ((w ≡ path_full) × (height_limit < top + deep))

  -- From a child to its parent.
  relink-Placed :
      (c : Callbacks A) (mem : Bool) (top deep more : ℕ) (xs ys : List A) (x : A)
      (link : Tree A → Tree A)
      → lookup c.cmp x ys ≡ lookup c.cmp x xs
      → ((e : A) (u : Tree A)
          → ordered u ≡ insert c.cmp x e xs
          → ordered (link u) ≡ insert c.cmp x e ys)
      → deep < more
      → (i : Insertion A) → Placed c mem (suc top) deep xs x i
      → Placed c mem top more ys x (relink link i)
  unfolding relink
  relink-Placed c mem top deep more xs ys x link p q h (created u) (a, b, e, s, r) =
      (p ∙ a, b, e, s, ordered-relink (link u) ∙ q e u r)
  relink-Placed c mem top deep more xs ys x link p q h (overwritten old u) (a, e, b, s, r) =
      (a, e, p ∙ b, s, q x u r)
  relink-Placed c mem top deep more xs ys x link p q h (failed e) (a, b) = (p ∙ a, b)
  relink-Placed c mem top deep more xs ys x link p q h (Insertion.fault w) (inl (f, e, a, b, k)) =
      inl (f, e, a, p ∙ b, k)
  relink-Placed c mem top deep more xs ys x link p q h (Insertion.fault w) (inr (k, b)) =
      inr (k, omega arith)

  new_node-Placed :
      (c : Callbacks A) (mem : Bool) (top : ℕ) (x : A) → Placed c mem top 0 [] x (new_node c mem x)
  unfolding new_node new_leaf lookup insert
  new_node-Placed c false top x = (refl, inl (refl, refl))
  new_node-Placed c true top x = go (stored c x) refl
    where
      go : (r : Copy A) → stored c x ≡ r → Placed c true top 0 [] x (new_leaf r)
      go (copied e) p = (refl, refl, e, p, refl)
      go (refused e) p = (refl, inr (refl, p))

  overwrite-Placed :
      (c : Callbacks A) (mem : Bool) (top lv deep : ℕ) (x d : A) (l r : Tree A)
      → lookup c.cmp x (ordered l ++ (d ∷ ordered r)) ≡ some d
      → insert c.cmp x x (ordered l ++ (d ∷ ordered r)) ≡ ordered l ++ (x ∷ ordered r)
      → Placed c mem top deep (ordered l ++ (d ∷ ordered r)) x (overwrite c.dup c.rel lv d l r x)
  unfolding overwrite
  overwrite-Placed c mem top lv deep x d l r h k = go c.dup refl
    where
      go :
          (s : Option (A → Copy A))
          → c.dup ≡ s
          → Placed c mem top deep (ordered l ++ (d ∷ ordered r)) x (overwrite s c.rel lv d l r x)
      go none e = (e, d, h, refl, sym k)
      go (some f) e = inl (f, d, e, h, refl)

module _ {ℓ} {A : Type ℓ} (c : Callbacks A) (o : IsOrder c.cmp) (mem : Bool) (x : A) where
  pub place-Placed :
      (t : Tree A) (top : ℕ)
      → IsAscending c.cmp (ordered t)
      → Placed c mem top (depth t) (ordered t) x (place c mem top t x)
  unfolding place
  place-Placed nil top h = new_node-Placed c mem top x
  place-Placed (node lv d l r) top h = elim (Bool-cases (leb height_limit top)) [
    | inl deep ↦ rw (deep, place) (inr (refl, ground arith))
    | inr shallow ↦
        rw (shallow, place)
          (elim (Ordering-cases (c.cmp d x)) [
            | inl e ↦
                rw (e, place)
                  (relink-Placed c mem top (depth r) _ (ordered r) (ordered l ++ (d ∷ ordered r)) x
                    (λ t. node lv d l t) (lookup_right c.cmp o x d (ordered l) (ordered r) h e)
                    (λ a u q.
                      ap (λ ys. ordered l ++ (d ∷ ys)) q
                      ∙ sym (insert_right c.cmp o x d (ordered l) (ordered r) h a e))
                    (omega arith) (place c mem (suc top) r x)
                    (place-Placed r (suc top)
                      (IsAscending-right c.cmp o (ordered l) (d ∷ ordered r) h).1))
            | inr (inl e) ↦
                rw (e, place)
                  (overwrite-Placed c mem top lv _ x d l r
                    (lookup_here c.cmp o x d (ordered l) (ordered r) h e)
                    (insert_here c.cmp o x d (ordered l) (ordered r) h x e))
            | inr (inr e) ↦
                rw (e, place)
                  (relink-Placed c mem top (depth l) _ (ordered l) (ordered l ++ (d ∷ ordered r)) x
                    (λ t. node lv d t r) (lookup_left c.cmp o x d (ordered l) (ordered r) h e)
                    (λ a u q.
                      ap (λ ys. ys ++ (d ∷ ordered r)) q
                      ∙ sym (insert_left c.cmp o x d (ordered l) (ordered r) h a e))
                    (omega arith) (place c mem (suc top) l x)
                    (place-Placed l (suc top)
                      (IsAscending-left c.cmp o (ordered l) (d ∷ ordered r) h)))
          ])
  ]
