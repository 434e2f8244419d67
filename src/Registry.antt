-- ===== src/Registry.antt =====
-- The counted entries that src/lc_channel.c, src/lc_session.c and src/lc_task.c each keep in a map
-- behind a spin lock. The map is the ascending list that Map.Sorted is about.
pub mod Laws
pub mod Counting
pub mod Keys
pub mod Live
use casting.Base.{
  ℕ, zero, suc, Ordering, Option, none, some, List, if◌then◌else◌, ℤ, pos, succ, pred, ltb_ℤ,
}
use casting.Map.Sorted.{lookup, insert, erase}

-- `a == b ? 0 : a > b ? 1 : -1` on `int`.
abbrev pub compare_ℤ : ℤ → ℤ → Ordering
compare_ℤ a b = if ltb_ℤ a b then Ordering.lt else (if ltb_ℤ b a then Ordering.gt else Ordering.eq)

-- An entry type by its `ref_count`, and the entry with another one.
pub record Counter {ℓ} (A : Type ℓ) : Type ℓ where
  pub count : A → ℤ
  pub recount : A → ℤ → A

module _ {ℓ} {A : Type ℓ} (cmp : A → A → Ordering) where
  -- A change of the data behind the pointer that `map_find` gave, of a `d` with the same key.
  abbrev pub put : A → List A → List A
  put d xs = insert cmp d d xs

  module _ (c : Counter A) where
    -- `atomic_int_inc` on the entry that `map_find` gave, or NULL.
    unfoldable pub taken : List A → Option A → List A × Option A
    taken xs none = (xs, none)
    taken xs (some t) = let t' = c.recount t (succ (c.count t)) in (put t' xs, some t')

    unfoldable pub ref : A → List A → List A × Option A
    ref x xs = taken xs (lookup cmp x xs)

    -- `atomic_int_dec` on an entry: above 0 it stays, else it leaves the map, and is the second result,
    -- for its own parts to be freed.
    unfoldable pub dropped : List A → A → List A × Option A
    dropped xs t =
        let t' = c.recount t (pred (c.count t)) in
        if ltb_ℤ (pos 0) (c.count t') then (put t' xs, none) else (erase cmp t' xs, some t')

    unfoldable pub dropped_if : List A → Option A → List A × Option A
    dropped_if xs none = (xs, none)
    dropped_if xs (some t) = dropped xs t

    unfoldable pub free : A → List A → List A × Option A
    free x xs = dropped_if xs (lookup cmp x xs)

    -- As many calls in a row.
    abbrev pub refs : ℕ → A → List A → List A
    refs zero x xs = xs
    refs (suc n) x xs = refs n x (ref x xs).0

    abbrev pub frees : ℕ → A → List A → List A
    frees zero x xs = xs
    frees (suc n) x xs = frees n x (free x xs).0
