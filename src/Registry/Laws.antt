-- ===== src/Registry/Laws.antt =====
-- Putting back and taking out in the ascending lists behind a registry.
use casting.Base.{◌≡◌, refl, arith, Ordering, some, List, [], ◌∷◌, All}
use casting.Map.Sorted.{IsOrder, IsAscending, lookup, insert, erase, lookup-Lacks}
use casting.Map.Sorted.Laws.{insert-IsAscending, lookup-insert, Above-trans, Lacks-of_Above}
use casting.Registry.{put}

module _ {ℓ} {A : Type ℓ} (cmp : A → A → Ordering) (o : IsOrder cmp) where
  open o use {cmp_refl, cmp_congr, eq_of_eq, gt_of_lt, lt_of_gt}

  -- What is found has the key.
  pub lookup_key : (x : A) (xs : List A) (t : A) → lookup cmp x xs ≡ some t → cmp t x ≡ Ordering.eq
  unfolding lookup
  lookup_key x [] t e = ground arith
  lookup_key x (y ∷ xs) t e = ground (arith, lookup_key x xs t)

  pub put-IsAscending : (d : A) (xs : List A) → IsAscending cmp xs → IsAscending cmp (put cmp d xs)
  put-IsAscending d xs h = insert-IsAscending cmp o d d xs (cmp_refl d) h

  pub lookup-put :
      (d z : A) (xs : List A)
      → IsAscending cmp xs
      → lookup cmp z (put cmp d xs)
        ≡ (elim (cmp d z) [ Ordering.eq ↦ some d | _ ↦ lookup cmp z xs ])
  lookup-put d z xs h = lookup-insert cmp o d d z xs (cmp_refl d) h

  -- Items of one key are found alike.
  pub lookup-congr :
      (a b : A) (xs : List A) → cmp a b ≡ Ordering.eq → lookup cmp a xs ≡ lookup cmp b xs
  unfolding lookup
  lookup-congr a b [] h = refl
  lookup-congr a b (y ∷ xs) h = ground (
    arith,
    lookup-congr a b xs,
    eq_of_eq a b,
    cmp_congr a b y,
    eq_of_eq y a,
    eq_of_eq y b,
    eq_of_eq a y,
    eq_of_eq b y,
  )

  -- A change of what is found, and the change back.
  pub put-put :
      (t d : A) (x : A) (xs : List A)
      → IsAscending cmp xs
      → lookup cmp x xs ≡ some t
      → cmp d t ≡ Ordering.eq
      → put cmp t (put cmp d xs) ≡ xs
  unfolding insert lookup
  put-put t d x [] k e h = ground arith
  put-put t d x (y ∷ xs) k e h = ground (
    arith,
    put-put t d x xs k.1,
    lookup_key x xs t,
    Above-trans cmp o y x xs,
    Lacks-of_Above cmp o x xs,
    lookup-Lacks cmp x xs,
    gt_of_lt y x,
    lt_of_gt y x,
    cmp_congr d t x,
    cmp_congr d x y,
    cmp_congr t x y,
    lt_of_gt d y,
    lt_of_gt t y,
    eq_of_eq d t,
    eq_of_eq t d,
  )

  -- What holds of every item and of the new one holds of every item afterwards.
  pub All-insert {κ} :
      (P : A → Type κ) (x d : A) (xs : List A) → P d → All P xs → All P (insert cmp x d xs)
  unfolding insert
  All-insert P x d [] p h = (p, tt)
  All-insert P x d (y ∷ xs) p h = ground (arith, All-insert P x d xs p h.1)

  pub All-erase {κ} : (P : A → Type κ) (x : A) (xs : List A) → All P xs → All P (erase cmp x xs)
  unfolding erase
  All-erase P x [] h = tt
  All-erase P x (y ∷ xs) h = ground (arith, All-erase P x xs h.1)

  -- Of two changes of one entry the later one counts.
  pub put_again :
      (a b : A) (xs : List A) → cmp a b ≡ Ordering.eq → put cmp a (put cmp b xs) ≡ put cmp a xs
  unfolding insert
  put_again a b [] h = ground (arith, eq_of_eq a b)
  put_again a b (y ∷ xs) h = ground (
    arith,
    put_again a b xs,
    cmp_congr a b y,
    eq_of_eq a b,
    eq_of_eq y a,
    eq_of_eq y b,
    gt_of_lt y a,
    gt_of_lt y b,
    lt_of_gt y a,
    lt_of_gt y b,
    gt_of_lt a y,
    gt_of_lt b y,
    lt_of_gt a y,
    lt_of_gt b y,
  )
