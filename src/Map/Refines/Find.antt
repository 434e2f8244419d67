-- ===== src/Map/Refines/Find.antt =====
-- src/map.c: `map_find` is the look-up in the ascending list.
use casting.Base.{◌≡◌, refl, sym, ◌∙◌, Ordering, Ordering-cases, inl, inr, ◌∷◌}
use casting.Map.Node.{Tree, nil, node, ordered}
use casting.Map.Ops.{find}
use casting.Map.Sorted.{IsOrder, IsAscending, lookup}
use casting.Map.Sorted.Laws.{IsAscending-left, IsAscending-right}
use casting.Map.Sorted.Around.{lookup_right, lookup_here, lookup_left}

module _ {ℓ} {A : Type ℓ} (cmp : A → A → Ordering) (o : IsOrder cmp) (x : A) where
  pub find-lookup :
      (t : Tree A) → IsAscending cmp (ordered t) → find cmp t x ≡ lookup cmp x (ordered t)
  unfolding find lookup
  find-lookup nil h = refl
  find-lookup (node lv d l r) h = elim (Ordering-cases (cmp d x)) [
    | inl e ↦
        rw (e, find)
          (find-lookup r (IsAscending-right cmp o (ordered l) (d ∷ ordered r) h).1
            ∙ sym (lookup_right cmp o x d (ordered l) (ordered r) h e))
    | inr (inl e) ↦ rw (lookup_here cmp o x d (ordered l) (ordered r) h e) (rw (e, find))
    | inr (inr e) ↦
        rw (e, find)
          (find-lookup l (IsAscending-left cmp o (ordered l) (d ∷ ordered r) h)
            ∙ sym (lookup_left cmp o x d (ordered l) (ordered r) h e))
  ]
