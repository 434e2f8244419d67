-- ===== src/Map/Sorted/Around.antt =====
-- The ascending list of a node of src/map.c: the data of its left child, its own, those of its
-- right child. One comparison says which part an operation is about.
use casting.Base.{◌≡◌, ◌∙◌, arith, Ordering, some, List, ◌∷◌, ◌++◌}
use casting.Map.Sorted.{
  IsOrder, Below, IsAscending, Lacks, lookup, insert, erase, lookup-append, lookup-append_Lacks,
  insert-append, insert-append_gt, erase-append, erase-append_Lacks,
}
use casting.Map.Sorted.Laws.{
  IsAscending-right, Below-of_append, Below-trans, Above-trans, Lacks-of_Above, Below-congr,
}

module _ {ℓ} {A : Type ℓ} (cmp : A → A → Ordering) (o : IsOrder cmp) (x d : A) (xs ys : List A)
    (h : IsAscending cmp (xs ++ (d ∷ ys))) where
  Below-of_lt : cmp d x ≡ Ordering.lt → Below cmp x xs
  Below-of_lt e = Below-trans cmp o d x xs e (Below-of_append cmp o xs d ys h)

  Below-of_eq : cmp d x ≡ Ordering.eq → Below cmp x xs
  Below-of_eq e = Below-congr cmp o d x xs e (Below-of_append cmp o xs d ys h)

  Lacks-of_gt : cmp d x ≡ Ordering.gt → Lacks cmp x (d ∷ ys)
  Lacks-of_gt e = (
    (λ k. ground arith),
    Lacks-of_Above cmp o x ys
        (Above-trans cmp o d x ys (o.lt_of_gt d x e) (IsAscending-right cmp o xs (d ∷ ys) h).0),
  )

  pub lookup_right : cmp d x ≡ Ordering.lt → lookup cmp x (xs ++ (d ∷ ys)) ≡ lookup cmp x ys
  unfolding lookup
  lookup_right e = ground (arith, lookup-append cmp x xs (d ∷ ys) (Below-of_lt e))

  pub lookup_here : cmp d x ≡ Ordering.eq → lookup cmp x (xs ++ (d ∷ ys)) ≡ some d
  unfolding lookup
  lookup_here e = ground (arith, lookup-append cmp x xs (d ∷ ys) (Below-of_eq e))

  pub lookup_left : cmp d x ≡ Ordering.gt → lookup cmp x (xs ++ (d ∷ ys)) ≡ lookup cmp x xs
  lookup_left e = lookup-append_Lacks cmp x xs (d ∷ ys) (Lacks-of_gt e)

  pub insert_right :
      (a : A)
      → cmp d x ≡ Ordering.lt
      → insert cmp x a (xs ++ (d ∷ ys)) ≡ xs ++ (d ∷ insert cmp x a ys)
  unfolding insert
  insert_right a e = insert-append cmp x a xs (d ∷ ys) (Below-of_lt e) ∙ rw (e, insert)

  pub insert_here :
      (a : A) → cmp d x ≡ Ordering.eq → insert cmp x a (xs ++ (d ∷ ys)) ≡ xs ++ (a ∷ ys)
  unfolding insert
  insert_here a e = insert-append cmp x a xs (d ∷ ys) (Below-of_eq e) ∙ rw (e, insert)

  pub insert_left :
      (a : A)
      → cmp d x ≡ Ordering.gt
      → insert cmp x a (xs ++ (d ∷ ys)) ≡ insert cmp x a xs ++ (d ∷ ys)
  insert_left a e = insert-append_gt cmp x a d xs ys e

  pub erase_right :
      cmp d x ≡ Ordering.lt → erase cmp x (xs ++ (d ∷ ys)) ≡ xs ++ (d ∷ erase cmp x ys)
  unfolding erase
  erase_right e = erase-append cmp x xs (d ∷ ys) (Below-of_lt e) ∙ rw (e, erase)

  pub erase_here : cmp d x ≡ Ordering.eq → erase cmp x (xs ++ (d ∷ ys)) ≡ xs ++ ys
  unfolding erase
  erase_here e = erase-append cmp x xs (d ∷ ys) (Below-of_eq e) ∙ rw (e, erase)

  pub erase_left : cmp d x ≡ Ordering.gt → erase cmp x (xs ++ (d ∷ ys)) ≡ erase cmp x xs ++ (d ∷ ys)
  erase_left e = erase-append_Lacks cmp x xs (d ∷ ys) (Lacks-of_gt e)
