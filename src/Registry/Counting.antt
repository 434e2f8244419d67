-- ===== src/Registry/Counting.antt =====
-- The reference counts of a registry: what calls of `*_ref` and `*_free` in a row leave in it.
use casting.Base.{
  ℕ, zero, suc, ◌+◌, ◌-◌, ◌≡◌, ◌≢◌, refl, sym, ◌∙◌, ap, subst, arith, Ordering, Option, none, some,
  List, ℤ, pos,
}
use casting.Map.Sorted.{IsOrder, IsAscending, lookup, erase}
use casting.Map.Sorted.Laws.{erase-IsAscending, lookup-erase}
use casting.Registry.{Counter, put, taken, ref, dropped, dropped_if, free, refs, frees}
use casting.Registry.Laws.{lookup_key, put-IsAscending, lookup-put, put-put}

-- The laws of a field that holds the count, which is no part of the key.
pub record IsCounter {ℓ} {A : Type ℓ} (cmp : A → A → Ordering) (c : Counter A) : Type ℓ where
  pub count-recount : (t : A) (n : ℤ) → c.count (c.recount t n) ≡ n
  pub recount-count : (t : A) → c.recount t (c.count t) ≡ t
  pub recount-recount : (t : A) (m n : ℤ) → c.recount (c.recount t m) n ≡ c.recount t n
  pub recount_key : (t : A) (n : ℤ) → cmp (c.recount t n) t ≡ Ordering.eq

module _ {ℓ} {A : Type ℓ} (c : Counter A) where
  -- The entry with `k` references, which is in the registry while that is not 0.
  abbrev pub entry : A → ℕ → Option A
  entry t zero = none
  entry t (suc k) = some (c.recount t (pos (suc k)))

module _ {ℓ} {A : Type ℓ} (cmp : A → A → Ordering) where
  -- The registry `ys` is ascending, has `e` under the key of `x`, and else what `xs` has.
  abbrev pub Holding : A → Option A → List A → List A → Type ℓ
  Holding x e xs ys =
      IsAscending cmp ys
      × (lookup cmp x ys ≡ e)
      × ((z : A) → cmp x z ≢ Ordering.eq → lookup cmp z ys ≡ lookup cmp z xs)

module _ {ℓ} {A : Type ℓ} (cmp : A → A → Ordering) (o : IsOrder cmp) (c : Counter A)
    (w : IsCounter cmp c) where
  open o use {cmp_refl, cmp_congr, eq_of_eq}
  open w use {count-recount, recount-count, recount-recount, recount_key}

  -- A call that finds nothing.
  pub ref_missing : (x : A) (xs : List A) → lookup cmp x xs ≡ none → ref cmp c x xs ≡ (xs, none)
  unfolding ref taken
  ref_missing x xs e = rw e refl

  pub free_missing : (x : A) (xs : List A) → lookup cmp x xs ≡ none → free cmp c x xs ≡ (xs, none)
  unfolding free dropped_if
  free_missing x xs e = rw e refl

  pub ref_found :
      (x : A) (xs : List A) (t : A) (k : ℕ)
      → lookup cmp x xs ≡ some t
      → c.count t ≡ pos k
      → ref cmp c x xs ≡ (put cmp (c.recount t (pos (suc k))) xs, some (c.recount t (pos (suc k))))
  unfolding ref taken
  ref_found x xs t k e n = rw (e, n) refl

  pub free_keeps :
      (x : A) (xs : List A) (t : A) (k : ℕ)
      → lookup cmp x xs ≡ some t
      → c.count t ≡ pos (suc (suc k))
      → free cmp c x xs ≡ (put cmp (c.recount t (pos (suc k))) xs, none)
  unfolding free dropped_if dropped
  free_keeps x xs t k e n = rw (e, n, count-recount t (pos (suc k))) (ground arith)

  pub free_last :
      (x : A) (xs : List A) (t : A)
      → lookup cmp x xs ≡ some t
      → c.count t ≡ pos 1
      → free cmp c x xs ≡ (erase cmp (c.recount t (pos 0)) xs, some (c.recount t (pos 0)))
  unfolding free dropped_if dropped
  free_last x xs t e n = rw (e, n, count-recount t (pos 0)) refl

  -- A reference that is taken and given back leaves the registry as it was.
  pub free-ref :
      (x t : A) (xs : List A) (k : ℕ)
      → IsAscending cmp xs
      → lookup cmp x xs ≡ some t
      → c.count t ≡ pos (suc k)
      → free cmp c x (ref cmp c x xs).0 ≡ (xs, none)
  free-ref x t xs k h e n =
      let t' = c.recount t (pos (suc (suc k))) in
      let found : lookup cmp x (put cmp t' xs) ≡ some t' =
        lookup-put cmp o t' x xs h
        ∙ rw (cmp_congr t' t x (recount_key t _), lookup_key cmp o x xs t e) refl in
      rw
        (
          ref_found x xs t (suc k) e n,
          free_keeps x (put cmp t' xs) t' k found (count-recount t _),
          recount-recount t (pos (suc (suc k))) (pos (suc k)),
          sym n,
          recount-count t,
          put-put cmp o t t' x xs h e (recount_key t _),
        )
        refl

  put-Holding :
      (x t : A) (n : ℤ) (xs ys : List A) {e : Option A}
      → cmp t x ≡ Ordering.eq
      → Holding cmp x e xs ys
      → Holding cmp x (some (c.recount t n)) xs (put cmp (c.recount t n) ys)
  put-Holding x t n xs ys k h =
      let t' = c.recount t n in
      let key : cmp t' x ≡ Ordering.eq = cmp_congr t' t x (recount_key t n) ∙ k in
      (
        put-IsAscending cmp o t' ys h.0,
        lookup-put cmp o t' x ys h.0 ∙ rw key refl,
        λ z ne. lookup-put cmp o t' z ys h.0 ∙ rw (cmp_congr t' x z key) (ground (arith, h.2 z ne)),
      )

  erase-Holding :
      (x t : A) (n : ℤ) (xs ys : List A) {e : Option A}
      → cmp t x ≡ Ordering.eq
      → Holding cmp x e xs ys
      → Holding cmp x none xs (erase cmp (c.recount t n) ys)
  erase-Holding x t n xs ys k h =
      let t' = c.recount t n in
      let key : cmp t' x ≡ Ordering.eq = cmp_congr t' t x (recount_key t n) ∙ k in
      (
        erase-IsAscending cmp o t' ys h.0,
        lookup-erase cmp o t' x ys h.0 ∙ rw key refl,
        λ z ne.
            lookup-erase cmp o t' z ys h.0 ∙ rw (cmp_congr t' x z key) (ground (arith, h.2 z ne)),
      )

  ref-Holding :
      (x t : A) (k : ℕ) (xs ys : List A)
      → cmp t x ≡ Ordering.eq
      → Holding cmp x (entry c t (suc k)) xs ys
      → Holding cmp x (entry c t (suc (suc k))) xs (ref cmp c x ys).0
  ref-Holding x t k xs ys key h =
      rw
        (
          ref_found x ys _ (suc k) h.1 (count-recount t _),
          recount-recount t (pos (suc k)) (pos (suc (suc k))),
        )
        (put-Holding x t _ xs ys key h)

  free-Holding :
      (x t : A) (k : ℕ) (xs ys : List A)
      → cmp t x ≡ Ordering.eq
      → Holding cmp x (entry c t k) xs ys
      → Holding cmp x (entry c t (k - 1)) xs (free cmp c x ys).0
  free-Holding x t zero xs ys key h = rw (free_missing x ys h.1) h
  free-Holding x t (suc zero) xs ys key h =
      rw (free_last x ys _ h.1 (count-recount t _), recount-recount t (pos 1) (pos 0))
        (erase-Holding x t _ xs ys key h)
  free-Holding x t (suc (suc k)) xs ys key h =
      let less : suc k ≡ suc (suc k) - 1 = omega arith in
      rw
        (
          free_keeps x ys _ k h.1 (count-recount t _),
          recount-recount t (pos (suc (suc k))) (pos (suc k)),
          sym less,
        )
        (put-Holding x t _ xs ys key h)

  -- An entry is put in place of the one with its key.
  pub put_is :
      (x d : A) (xs ys : List A) {e : Option A}
      → cmp d x ≡ Ordering.eq
      → Holding cmp x e xs ys
      → Holding cmp x (some d) xs (put cmp d ys)
  put_is x d xs ys key h =
      subst (λ t. Holding cmp x (some t) xs (put cmp t ys)) (recount-count d)
        (put-Holding x d (c.count d) xs ys key h)

  -- And then one of its references is given back.
  pub put-free :
      (x d : A) (k : ℕ) (xs : List A)
      → IsAscending cmp xs
      → cmp d x ≡ Ordering.eq
      → c.count d ≡ pos (suc k)
      → Holding cmp x (entry c d k) xs (free cmp c x (put cmp d xs)).0
  put-free x d k xs h key n =
      let same : c.recount d (pos (suc k)) ≡ d = ap (c.recount d) (sym n) ∙ recount-count d in
      let less : suc k - 1 ≡ k = omega arith in
      let held = put_is x d xs xs key (h, refl, λ z ne. refl) in
      subst (λ j. Holding cmp x (entry c d j) xs (free cmp c x (put cmp d xs)).0) less
        (free-Holding x d (suc k) xs (put cmp d xs) key
          (subst (λ t. Holding cmp x (some t) xs (put cmp d xs)) (sym same) held))

  refs-Holding :
      (n : ℕ) (x t : A) (k : ℕ) (xs ys : List A)
      → cmp t x ≡ Ordering.eq
      → Holding cmp x (entry c t (suc k)) xs ys
      → Holding cmp x (entry c t (suc (n + k))) xs (refs cmp c n x ys)
  refs-Holding zero x t k xs ys key h =
      subst (λ j. Holding cmp x (entry c t (suc j)) xs ys) (omega arith) h
  refs-Holding (suc n) x t k xs ys key h =
      let moved : n + suc k ≡ suc n + k = omega arith in
      subst (λ j. Holding cmp x (entry c t (suc j)) xs (refs cmp c (suc n) x ys)) moved
        (refs-Holding n x t (suc k) xs _ key (ref-Holding x t k xs ys key h))

  frees-Holding :
      (m : ℕ) (x t : A) (k : ℕ) (xs ys : List A)
      → cmp t x ≡ Ordering.eq
      → Holding cmp x (entry c t k) xs ys
      → Holding cmp x (entry c t (k - m)) xs (frees cmp c m x ys)
  frees-Holding zero x t k xs ys key h =
      subst (λ j. Holding cmp x (entry c t j) xs ys) (omega arith) h
  frees-Holding (suc m) x t k xs ys key h =
      let moved : k - 1 - m ≡ k - suc m = omega arith in
      subst (λ j. Holding cmp x (entry c t j) xs (frees cmp c (suc m) x ys)) moved
        (frees-Holding m x t (k - 1) xs _ key (free-Holding x t k xs ys key h))

  -- An entry with `k + 1` references is there, with as many as are left, after `n` more and `m` given
  -- back, unless none is left: then it is gone. Every other entry is as before.
  pub frees-refs :
      (n m k : ℕ) (x t : A) (xs : List A)
      → IsAscending cmp xs
      → lookup cmp x xs ≡ some t
      → c.count t ≡ pos (suc k)
      → Holding cmp x (entry c t (suc (n + k) - m)) xs (frees cmp c m x (refs cmp c n x xs))
  frees-refs n m k x t xs h e q =
      let key = lookup_key cmp o x xs t e in
      let same : some t ≡ entry c t (suc k) =
        ap some (sym (recount-count t) ∙ ap (c.recount t) q) in
      frees-Holding m x t (suc (n + k)) xs _ key
        (refs-Holding n x t k xs xs key (h, e ∙ same, λ z ne. refl))
