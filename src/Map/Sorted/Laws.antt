-- ===== src/Map/Sorted/Laws.antt =====
-- Laws of the ascending lists that the maps of src/map.c stand for.
use casting.Base.{
  suc, ◌≡◌, refl, sym, ◌∙◌, arith, Ordering, none, some, List, [], ◌∷◌, ◌++◌, length, All-left,
  All-right, All-imp,
}
use casting.Map.Sorted.{
  IsOrder, Below, Above, IsAscending, Lacks, lookup, insert, erase, lookup-Lacks,
}

module _ {ℓ} {A : Type ℓ} (cmp : A → A → Ordering) (o : IsOrder cmp) where
  open o use {cmp_refl, gt_of_lt, lt_of_gt, eq_of_eq, cmp_congr, lt_trans}

  -- An order by which two data agree with a third.
  cmp_congr_right :
      (a b c : A) → cmp b c ≡ Ordering.eq → cmp a b ≡ Ordering.lt → cmp a c ≡ Ordering.lt
  cmp_congr_right a b c h k = lt_of_gt c a (sym (cmp_congr b c a h) ∙ gt_of_lt a b k)

  pub IsAscending-left : (xs ys : List A) → IsAscending cmp (xs ++ ys) → IsAscending cmp xs
  IsAscending-left [] ys h = tt
  IsAscending-left (x ∷ xs) ys h = (All-left _ xs ys h.0, IsAscending-left xs ys h.1)

  pub IsAscending-right : (xs ys : List A) → IsAscending cmp (xs ++ ys) → IsAscending cmp ys
  IsAscending-right [] ys h = h
  IsAscending-right (x ∷ xs) ys h = IsAscending-right xs ys h.1

  pub Below-of_append :
      (xs : List A) (d : A) (ys : List A) → IsAscending cmp (xs ++ (d ∷ ys)) → Below cmp d xs
  Below-of_append [] d ys h = tt
  Below-of_append (x ∷ xs) d ys h = ((All-right _ xs (d ∷ ys) h.0).0, Below-of_append xs d ys h.1)

  pub Below-trans :
      (d x : A) (xs : List A) → cmp d x ≡ Ordering.lt → Below cmp d xs → Below cmp x xs
  Below-trans d x xs h = All-imp _ _ (λ y k. lt_trans y d x k h) xs

  pub Above-trans :
      (d x : A) (xs : List A) → cmp x d ≡ Ordering.lt → Above cmp d xs → Above cmp x xs
  Above-trans d x xs h = All-imp _ _ (λ y k. lt_trans x d y h k) xs

  pub Below-congr :
      (d x : A) (xs : List A) → cmp d x ≡ Ordering.eq → Below cmp d xs → Below cmp x xs
  Below-congr d x xs h = All-imp _ _ (λ y k. cmp_congr_right y d x h k) xs

  pub Above-congr :
      (d x : A) (xs : List A) → cmp d x ≡ Ordering.eq → Above cmp d xs → Above cmp x xs
  Above-congr d x xs h = All-imp _ _ (λ y k. sym (cmp_congr d x y h) ∙ k) xs

  pub Lacks-of_Above : (x : A) (xs : List A) → Above cmp x xs → Lacks cmp x xs
  Lacks-of_Above x [] h = tt
  Lacks-of_Above x (y ∷ xs) h = ((λ e. ground (arith, gt_of_lt x y)), Lacks-of_Above x xs h.1)

  Above-insert :
      (z x d : A) (xs : List A)
      → cmp z d ≡ Ordering.lt
      → Above cmp z xs
      → Above cmp z (insert cmp x d xs)
  unfolding insert
  Above-insert z x d [] h k = (h, tt)
  Above-insert z x d (y ∷ xs) h k = ground (arith, Above-insert z x d xs h)

  Above-erase : (z x : A) (xs : List A) → Above cmp z xs → Above cmp z (erase cmp x xs)
  unfolding erase
  Above-erase z x [] k = tt
  Above-erase z x (y ∷ xs) k = ground (arith, Above-erase z x xs)

  -- An item with the key of its place keeps the list ascending.
  pub insert-IsAscending :
      (x d : A) (xs : List A)
      → cmp d x ≡ Ordering.eq
      → IsAscending cmp xs
      → IsAscending cmp (insert cmp x d xs)
  unfolding insert
  insert-IsAscending x d [] h k = (tt, tt)
  insert-IsAscending x d (y ∷ xs) h k = ground (
    arith,
    insert-IsAscending x d xs h,
    Above-insert y x d xs,
    Above-congr y d xs,
    Above-trans y d xs,
    eq_of_eq d x,
    cmp_congr d x y,
    cmp_congr x d y,
    cmp_congr y x d,
    eq_of_eq y d,
    lt_of_gt y x,
    lt_of_gt y d,
    gt_of_lt y x,
    cmp_congr_right y x d,
  )

  pub erase-IsAscending :
      (x : A) (xs : List A) → IsAscending cmp xs → IsAscending cmp (erase cmp x xs)
  unfolding erase
  erase-IsAscending x [] k = tt
  erase-IsAscending x (y ∷ xs) k = ground (arith, erase-IsAscending x xs, Above-erase y x xs)

  -- The item put in is found under its key; the others are as before.
  pub lookup-insert :
      (x d z : A) (xs : List A)
      → cmp d x ≡ Ordering.eq
      → IsAscending cmp xs
      → lookup cmp z (insert cmp x d xs)
        ≡ (elim (cmp x z) [ Ordering.eq ↦ some d | _ ↦ lookup cmp z xs ])
  unfolding insert lookup
  lookup-insert x d z [] h k = ground (arith, cmp_congr d x z)
  lookup-insert x d z (y ∷ xs) h k = ground (
    arith,
    lookup-insert x d z xs h,
    cmp_congr d x z,
    cmp_congr y x z,
    cmp_congr y z x,
    eq_of_eq x z,
    gt_of_lt x z,
  )

  pub lookup-erase :
      (x z : A) (xs : List A)
      → IsAscending cmp xs
      → lookup cmp z (erase cmp x xs)
        ≡ (elim (cmp x z) [ Ordering.eq ↦ none | _ ↦ lookup cmp z xs ])
  unfolding erase lookup
  lookup-erase x z [] k = ground arith
  lookup-erase x z (y ∷ xs) k = ground (
    arith,
    lookup-erase x z xs,
    cmp_congr y x z,
    cmp_congr y z x,
    eq_of_eq x z,
    lookup-Lacks cmp z xs,
    Lacks-of_Above z xs,
    Above-congr y z xs,
  )

  -- An insertion adds one item, unless the key is there.
  pub length-insert :
      (x d : A) (xs : List A)
      → IsAscending cmp xs
      → length (insert cmp x d xs)
        ≡ (elim (lookup cmp x xs) [ none ↦ suc (length xs) | some _ ↦ length xs ])
  unfolding insert lookup
  length-insert x d [] k = refl
  length-insert x d (y ∷ xs) k = ground (
    arith,
    length-insert x d xs,
    lt_of_gt y x,
    Above-trans y x xs,
    Lacks-of_Above x xs,
    lookup-Lacks cmp x xs,
  )

  pub length-erase :
      (x : A) (xs : List A)
      → (elim (lookup cmp x xs) [
        | none ↦ length (erase cmp x xs)
        | some _ ↦ suc (length (erase cmp x xs))
      ])
        ≡ length xs
  unfolding erase lookup
  length-erase x [] = refl
  length-erase x (y ∷ xs) = ground (arith, length-erase x xs)
