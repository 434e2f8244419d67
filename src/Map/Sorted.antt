-- ===== src/Map/Sorted.antt =====
-- What a map stands for: an ascending list. The operations on it are the reference for those of
-- src/map.c.
pub mod Laws
pub mod Around
use casting.Base.{◌≡◌, ◌≢◌, refl, arith, Ordering, Option, none, some, List, [], ◌∷◌, ◌++◌, All}

-- The laws of a `compare_cb`. Data of one key need not be equal.
pub record IsOrder {ℓ} {A : Type ℓ} (cmp : A → A → Ordering) : Type ℓ where
  pub cmp_refl : (a : A) → cmp a a ≡ Ordering.eq
  pub gt_of_lt : (a b : A) → cmp a b ≡ Ordering.lt → cmp b a ≡ Ordering.gt
  pub lt_of_gt : (a b : A) → cmp a b ≡ Ordering.gt → cmp b a ≡ Ordering.lt
  pub eq_of_eq : (a b : A) → cmp a b ≡ Ordering.eq → cmp b a ≡ Ordering.eq
  pub cmp_congr : (a b c : A) → cmp a b ≡ Ordering.eq → cmp a c ≡ cmp b c
  pub lt_trans : (a b c : A) → cmp a b ≡ Ordering.lt → cmp b c ≡ Ordering.lt → cmp a c ≡ Ordering.lt

module _ {ℓ} {A : Type ℓ} (cmp : A → A → Ordering) where
  abbrev pub Below : A → List A → Type 0
  Below x xs = All (λ y. cmp y x ≡ Ordering.lt) xs

  abbrev pub Above : A → List A → Type 0
  Above x xs = All (λ y. cmp x y ≡ Ordering.lt) xs

  abbrev pub IsAscending : List A → Type 0
  IsAscending [] = Unit
  IsAscending (x ∷ xs) = Above x xs × IsAscending xs

  -- The item with the key of `x`.
  unfoldable pub lookup : A → List A → Option A
  lookup x [] = none
  lookup x (y ∷ ys) = elim (cmp y x) [ Ordering.eq ↦ some y | _ ↦ lookup x ys ]

  -- `d` at the place of `x`: in place of the item with its key, or before the first greater one.
  unfoldable pub insert : A → A → List A → List A
  insert x d [] = d ∷ []
  insert x d (y ∷ ys) = elim (cmp y x) [
    | Ordering.eq ↦ d ∷ ys
    | Ordering.lt ↦ y ∷ insert x d ys
    | Ordering.gt ↦ d ∷ (y ∷ ys)
  ]

  -- Without the item that has the key of `x`.
  unfoldable pub erase : A → List A → List A
  erase x [] = []
  erase x (y ∷ ys) = elim (cmp y x) [ Ordering.eq ↦ ys | _ ↦ y ∷ erase x ys ]

  -- Each of the three goes past the items below, and stops at one above.
  pub lookup-append : (x : A) (xs ys : List A) → Below x xs → lookup x (xs ++ ys) ≡ lookup x ys
  unfolding lookup
  lookup-append x [] ys h = refl
  lookup-append x (y ∷ xs) ys h = ground (arith, lookup-append x xs ys)

  pub insert-append :
      (x d : A) (xs ys : List A) → Below x xs → insert x d (xs ++ ys) ≡ xs ++ insert x d ys
  unfolding insert
  insert-append x d [] ys h = refl
  insert-append x d (y ∷ xs) ys h = ground (arith, insert-append x d xs ys)

  pub erase-append : (x : A) (xs ys : List A) → Below x xs → erase x (xs ++ ys) ≡ xs ++ erase x ys
  unfolding erase
  erase-append x [] ys h = refl
  erase-append x (y ∷ xs) ys h = ground (arith, erase-append x xs ys)

  pub insert-append_gt :
      (x d y : A) (xs ys : List A)
      → cmp y x ≡ Ordering.gt
      → insert x d (xs ++ (y ∷ ys)) ≡ insert x d xs ++ (y ∷ ys)
  unfolding insert
  insert-append_gt x d y [] ys h = ground arith
  insert-append_gt x d y (z ∷ xs) ys h = ground (arith, insert-append_gt x d y xs ys)

  -- Not one item has the key of `x`.
  abbrev pub Lacks : A → List A → Type 0
  Lacks x xs = All (λ y. cmp y x ≢ Ordering.eq) xs

  pub lookup-Lacks : (x : A) (xs : List A) → Lacks x xs → lookup x xs ≡ none
  unfolding lookup
  lookup-Lacks x [] h = refl
  lookup-Lacks x (y ∷ xs) h = ground (arith, lookup-Lacks x xs)

  pub lookup-append_Lacks :
      (x : A) (xs ys : List A) → Lacks x ys → lookup x (xs ++ ys) ≡ lookup x xs
  unfolding lookup
  lookup-append_Lacks x [] ys h = lookup-Lacks x ys h
  lookup-append_Lacks x (y ∷ xs) ys h = ground (arith, lookup-append_Lacks x xs ys h)

  pub erase-Lacks : (x : A) (xs : List A) → Lacks x xs → erase x xs ≡ xs
  unfolding erase
  erase-Lacks x [] h = refl
  erase-Lacks x (y ∷ xs) h = ground (arith, erase-Lacks x xs)

  pub erase-append_Lacks :
      (x : A) (xs ys : List A) → Lacks x ys → erase x (xs ++ ys) ≡ erase x xs ++ ys
  unfolding erase
  erase-append_Lacks x [] ys h = erase-Lacks x ys h
  erase-append_Lacks x (y ∷ xs) ys h = ground (arith, erase-append_Lacks x xs ys h)
