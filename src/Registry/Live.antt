-- ===== src/Registry/Live.antt =====
-- The invariant of a registry: its entries are in order and have references.
use casting.Base.{
  ℕ, zero, suc, ◌≡◌, inl, inr, arith, Ordering, some, List, [], ◌∷◌, All, Option-cases, ℤ, pos,
}
use casting.Map.Sorted.{IsOrder, IsAscending, lookup, erase}
use casting.Map.Sorted.Laws.{erase-IsAscending}
use casting.Registry.{Counter, put, ref, free}
use casting.Registry.Laws.{put-IsAscending, All-insert, All-erase}
use casting.Registry.Counting.{
  IsCounter, ref_missing, free_missing, ref_found, free_keeps, free_last,
}

module _ {ℓ} {A : Type ℓ} (cmp : A → A → Ordering) where
  -- What holds of all holds of what is found.
  pub All-lookup {κ} :
      (P : A → Type κ) (x t : A) (xs : List A) → lookup cmp x xs ≡ some t → All P xs → P t
  unfolding lookup
  All-lookup P x t [] e h = cc
  All-lookup P x t (y ∷ xs) e h = ground (arith, All-lookup P x t xs)

module _ {ℓ κ} {A : Type ℓ} (cmp : A → A → Ordering) (c : Counter A) (P : A → Type κ) where
  -- An entry with a reference at least.
  pub record IsLive (t : A) : Type κ where
    pub others : ℕ
    pub counted : c.count t ≡ pos (suc others)
    pub proper : P t

  abbrev pub IsRegistry : List A → Type κ
  IsRegistry xs = IsAscending cmp xs × All IsLive xs

module _ {ℓ κ} {A : Type ℓ} (cmp : A → A → Ordering) (o : IsOrder cmp) (c : Counter A)
    (w : IsCounter cmp c) (P : A → Type κ)
    (stable : (t : A) (n : ℤ) → P t → P (c.recount t n)) where
  abbrev Live : A → Type κ
  Live = IsLive cmp c P

  abbrev Registered : List A → Type κ
  Registered = IsRegistry cmp c P

  pub recount-IsLive : (t : A) (k : ℕ) → P t → Live (c.recount t (pos (suc k)))
  recount-IsLive t k p = record {
    others = k;
    counted = w.count-recount t (pos (suc k));
    proper = stable t (pos (suc k)) p;
  }

  pub lookup-IsLive : (x t : A) (xs : List A) → lookup cmp x xs ≡ some t → Registered xs → Live t
  lookup-IsLive x t xs e h = All-lookup cmp Live x t xs e h.1

  pub put-IsRegistry : (d : A) (xs : List A) → Live d → Registered xs → Registered (put cmp d xs)
  put-IsRegistry d xs l h = (put-IsAscending cmp o d xs h.0, All-insert cmp o Live d d xs l h.1)

  pub erase-IsRegistry : (x : A) (xs : List A) → Registered xs → Registered (erase cmp x xs)
  erase-IsRegistry x xs h = (erase-IsAscending cmp o x xs h.0, All-erase cmp o Live x xs h.1)

  pub ref-IsRegistry : (x : A) (xs : List A) → Registered xs → Registered (ref cmp c x xs).0
  ref-IsRegistry x xs h = elim (Option-cases (lookup cmp x xs)) [
    | inl e ↦ rw (ref_missing cmp o c w x xs e) h
    | inr (t, e) ↦
        let l = lookup-IsLive x t xs e h in
        rw (ref_found cmp o c w x xs t (suc l.others) e l.counted)
          (put-IsRegistry _ xs (recount-IsLive t (suc l.others) l.proper) h)
  ]

  pub free-IsRegistry : (x : A) (xs : List A) → Registered xs → Registered (free cmp c x xs).0
  free-IsRegistry x xs h = elim (Option-cases (lookup cmp x xs)) [
    | inl e ↦ rw (free_missing cmp o c w x xs e) h
    | inr (t, e) ↦ let l = lookup-IsLive x t xs e h in go t e l.others l.counted l.proper
  ]
    where
      go :
          (t : A)
          → lookup cmp x xs ≡ some t
          → (k : ℕ) → c.count t ≡ pos (suc k)
          → P t
          → Registered (free cmp c x xs).0
      go t e zero n p = rw (free_last cmp o c w x xs t e n) (erase-IsRegistry _ xs h)
      go t e (suc k) n p =
          rw (free_keeps cmp o c w x xs t k e n) (put-IsRegistry _ xs (recount-IsLive t k p) h)
