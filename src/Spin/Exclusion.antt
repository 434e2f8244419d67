-- ===== src/Spin/Exclusion.antt =====
-- src/lc_thread.c: the spin lock excludes, and is given when it is free.
use casting.Base.{
  ℕ, zero, suc, ◌+◌, ◌≤◌, ◌≡◌, refl, sym, ap, ◌∙◌, arith, true, false, some, List, [], ◌∷◌, ◌==◌,
  ◌⊎◌, inl, inr, if◌then◌else◌,
}
use casting.Spin.{
  atomic_int_cas, atomic_int_tas, lc_spin_init, tried, lc_spin_trylock, lc_spin_unlock, Place,
  outside, spinning, inside, State, place_at, put, entered, spin, release, Step, calls, rounds,
  unlocks, all_outside, Reachable, begin, after, holders,
}

-- 1 where the thread has the lock.
abbrev weight : Place → ℕ
weight outside = 0
weight spinning = 0
weight inside = 1

holders-cons : (x : Place) (xs : List Place) → holders (x ∷ xs) ≡ weight x + holders xs
holders-cons outside xs = omega arith
holders-cons spinning xs = omega arith
holders-cons inside xs = omega arith

holders-put :
    (i : ℕ) (x y : Place) (xs : List Place)
    → place_at i xs ≡ some x
    → holders (put i y xs) + weight x ≡ holders xs + weight y
holders-put i x y [] e = cc
holders-put zero x y (z ∷ xs) e =
    let same : z ≡ x = cc e in omega (arith, holders-cons y xs, holders-cons z xs, ap weight same)
holders-put (suc i) x y (z ∷ xs) e =
    omega (arith, holders-put i x y xs e, holders-cons z (put i y xs), holders-cons z xs)

holders-all_outside : (n : ℕ) → holders (all_outside n) ≡ 0
holders-all_outside zero = refl
holders-all_outside (suc n) = holders-all_outside n

-- The word counts the holders, and is 0 or 1.
abbrev Counts : State → Type 0
Counts t = (holders t.places ≡ t.s) × (t.s ≤ 1)

ne_zero : (k : ℕ) → (suc k == 0) ≡ false
ne_zero k = ground arith

spin-Counts :
    (i : ℕ) (t : State) → place_at i t.places ≡ some spinning → Counts t → Counts (spin i t)
unfolding spin lc_spin_trylock atomic_int_cas
spin-Counts i t e c = go t.s refl
  where
    go : (s : ℕ) → t.s ≡ s → Counts (entered i t (tried (if s == 0 then (1, true) else (s, false))))
    go zero z = (omega (arith, holders-put i spinning inside t.places e, c.0), omega arith)
    go (suc k) z = rw (ne_zero k) (c.0 ∙ z, omega (arith, c.1))

release-Counts :
    (i : ℕ) (t : State) → place_at i t.places ≡ some inside → Counts t → Counts (release i t)
unfolding release lc_spin_unlock atomic_int_tas
release-Counts i t e c =
    (omega (arith, holders-put i inside outside t.places e, c.0, c.1), omega arith)

Step-Counts : {t u : State} → Step t u → Counts t → Counts u
Step-Counts (calls t i e) c = (omega (arith, holders-put i outside spinning t.places e, c.0), c.1)
Step-Counts (rounds t i e) c = spin-Counts i t e c
Step-Counts (unlocks t i e) c = release-Counts i t e c

-- In every state that any number of threads reach by calls of `lc_spin_lock`, rounds of its
-- loop, and calls of `lc_spin_unlock` by a thread that has the lock, in any interleaving, at
-- most one thread has the lock, and the lock's word is the number of threads that have it.
pub Reachable-excludes : (n : ℕ) {t : State} → Reachable n t → (holders t.places ≡ t.s) × (t.s ≤ 1)
unfolding lc_spin_init
Reachable-excludes n begin = (holders-all_outside n, omega arith)
Reachable-excludes n (after r s) = Step-Counts s (Reachable-excludes n r)

place_at-put :
    (i : ℕ) (x y : Place) (xs : List Place)
    → place_at i xs ≡ some x
    → place_at i (put i y xs) ≡ some y
place_at-put i x y [] e = cc
place_at-put zero x y (z ∷ xs) e = refl
place_at-put (suc i) x y (z ∷ xs) e = place_at-put i x y xs e

-- In every state that threads reach, a round of the loop of `lc_spin_lock` in a thread that is
-- in it gives it the lock, where no thread has it; else one thread has it and nothing changes.
pub spin-enters :
    (n i : ℕ) (t : State)
    → Reachable n t
    → place_at i t.places ≡ some spinning
    → ((holders t.places ≡ 0) × (place_at i (spin i t).places ≡ some inside) × ((spin i t).s ≡ 1))
      ⊎ ((holders t.places ≡ 1) × (spin i t ≡ t))
unfolding spin lc_spin_trylock atomic_int_cas
spin-enters n i t r e = go t.s refl
  where
    c : (holders t.places ≡ t.s) × (t.s ≤ 1)
    c = Reachable-excludes n r

    go :
        (s : ℕ)
        → t.s ≡ s
        → let u = entered i t (tried (if s == 0 then (1, true) else (s, false))) in
          ((holders t.places ≡ 0) × (place_at i u.places ≡ some inside) × (u.s ≡ 1))
          ⊎ ((holders t.places ≡ 1) × (u ≡ t))
    go zero z = inl (c.0 ∙ z, place_at-put i spinning inside t.places e, refl)
    go (suc k) z =
        rw (ne_zero k)
          (inr (omega (arith, c.0, c.1), ap (λ s. record { s = s; places = t.places }) (sym z)))
