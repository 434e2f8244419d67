-- ===== src/Spin.antt =====
-- src/lc_thread.c: the atomic operations and the spin lock, under any interleaving of threads.
pub mod Exclusion
use casting.Base.{
  ℕ, zero, suc, ◌+◌, ◌≡◌, Bool, true, false, Option, none, some, List, [], ◌∷◌, ◌==◌, if◌then◌else◌,
  ℤ, pos, success, fail,
}

-- The value left in memory, and the result.
unfoldable pub atomic_int_cas : ℕ → ℕ → ℕ → ℕ × Bool
atomic_int_cas v o n = if v == o then (n, true) else (v, false)

unfoldable pub atomic_int_tas : ℕ → ℕ → ℕ × ℕ
atomic_int_tas v n = (n, v)

-- The other operations on a word that carries no sign.
unfoldable pub atomic_int_get : ℕ → ℕ
atomic_int_get v = v

unfoldable pub atomic_int_add : ℕ → ℕ → ℕ × ℕ
atomic_int_add v i = (v + i, v + i)

unfoldable pub atomic_int_inc : ℕ → ℕ × ℕ
atomic_int_inc v = atomic_int_add v 1

-- `spin->s` after `lc_spin_init`.
unfoldable pub lc_spin_init : ℕ
lc_spin_init = 0

-- `none` is NULL, where there is no memory.
unfoldable pub lc_spin_new : Bool → Option ℕ
lc_spin_new mem = if mem then some lc_spin_init else none

abbrev pub tried : ℕ × Bool → ℕ × ℤ
tried (s, true) = (s, success)
tried (s, false) = (s, fail)

-- One compare and swap, which is a round of the loop of `lc_spin_lock`, too.
unfoldable pub lc_spin_trylock : ℕ → ℕ × ℤ
lc_spin_trylock s = tried (atomic_int_cas s 0 1)

unfoldable pub lc_spin_unlock : ℕ → ℕ × ℤ
lc_spin_unlock s = ((atomic_int_tas s 0).0, success)

-- A thread is outside of the lock, in the loop of `lc_spin_lock`, or behind it.
pub data Place : Type 0 where
  outside spinning inside : Place

pub record State : Type 0 where
  pub s : ℕ
  pub places : List Place

abbrev pub place_at : ℕ → List Place → Option Place
place_at i [] = none
place_at zero (x ∷ xs) = some x
place_at (suc i) (x ∷ xs) = place_at i xs

abbrev pub put : ℕ → Place → List Place → List Place
put i y [] = []
put zero y (x ∷ xs) = y ∷ xs
put (suc i) y (x ∷ xs) = x ∷ put i y xs

abbrev pub entered : ℕ → State → ℕ × ℤ → State
entered i t (s, pos zero) = record { s = s; places = put i inside t.places }
entered i t (s, e) = record { s = s; places = t.places }

-- A round of the loop of `lc_spin_lock` in a thread.
unfoldable pub spin : ℕ → State → State
spin i t = entered i t (lc_spin_trylock t.s)

unfoldable pub release : ℕ → State → State
release i t = record { s = (lc_spin_unlock t.s).0; places = put i outside t.places }

-- What one thread does, while the others stand: it calls `lc_spin_lock`, makes a round of its loop, or
-- calls `lc_spin_unlock` where it has the lock.
pub data Step : State → State → Type 0 where
  calls :
      (t : State) (i : ℕ)
      → place_at i t.places ≡ some outside
      → Step t (record t { places = put i spinning t.places })
  rounds : (t : State) (i : ℕ) → place_at i t.places ≡ some spinning → Step t (spin i t)
  unlocks : (t : State) (i : ℕ) → place_at i t.places ≡ some inside → Step t (release i t)

abbrev pub all_outside : ℕ → List Place
all_outside zero = []
all_outside (suc n) = outside ∷ all_outside n

abbrev pub start : ℕ → State
start n = record { s = lc_spin_init; places = all_outside n }

-- The states that `n` threads reach.
pub data Reachable (n : ℕ) : State → Type 0 where
  begin : Reachable n (start n)
  after : {t u : State} → Reachable n t → Step t u → Reachable n u

-- The number of threads that have the lock.
abbrev pub holders : List Place → ℕ
holders [] = 0
holders (outside ∷ xs) = holders xs
holders (spinning ∷ xs) = holders xs
holders (inside ∷ xs) = suc (holders xs)
