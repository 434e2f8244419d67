-- ===== src/Map/Laws/Remove.antt =====
-- src/map.c: `map_remove`, on each of its branches.
use casting.Base.{
  suc, ◌+◌, ◌≤◌, ◌<◌, ◌≡◌, ◌≢◌, refl, sym, ◌∙◌, ap, arith, Ordering, none, some, List, [], length,
  pos, negsuc, pred,
}
use casting.Map.{Map, returns, map_find, map_remove, remove_below, detached}
use casting.Map.Node.{Tree, nil, node, Removal, missing, removed, ordered, depth, height_limit}
use casting.Map.Ops.{detach}
use casting.Map.Sorted.{lookup, erase}
use casting.Map.Sorted.Laws.{erase-IsAscending, length-erase}
use casting.Map.Refines.Detach.{Removed, detach-Removed}
use casting.Map.Balance.Walk.{Shrinks, detach-Shrinks}
use casting.Map.Balance.Depth.{depth-lt-limit}
use casting.Map.Laws.{IsLawful, IsValid, capacity, map_find_lem}

module _ {ℓ} {A : Type ℓ} where
  remove_below-detach :
      (m : Map A) (t : Tree A) (x : A)
      → t ≢ nil
      → remove_below m t x ≡ detached m (detach m.calls.cmp 0 t x)
  unfolding remove_below
  remove_below-detach m nil x n = absurd (n refl)
  remove_below-detach m (node lv d l r) x n = refl

  lookup-nil : (cmp : A → A → Ordering) (x : A) → lookup cmp x [] ≡ none
  unfolding lookup
  lookup-nil cmp x = refl

module _ {ℓ} {A : Type ℓ} (m : Map A) (law : IsLawful m.calls) (v : IsValid m) where
  abbrev cmp : A → A → Ordering
  cmp = m.calls.cmp

  abbrev items : List A
  items = ordered m.root

  erase-IsValid :
      (x a : A) (u : Tree A)
      → lookup cmp x items ≡ some a
      → Shrinks m.root (removed a u)
      → ordered u ≡ erase cmp x items
      → IsValid (record m { root = u; size = pred m.size })
  erase-IsValid x a u p b q = record {
    balanced = b.0;
    ascending = rw q (erase-IsAscending cmp law.order x items v.ascending);
    counted = rw q (simp v.counted (ap (λ n. pred (pos n)) shorter));
  }
    where
      shorter : length items ≡ suc (length (erase cmp x items))
      shorter = ground (arith, length-erase cmp law.order x items)

  -- On a valid map with lawful callbacks and fewer than 2^32 - 1 items, a removal of data whose
  -- key `map_find` finds returns the found data. The new map is valid, has the same callbacks, a
  -- size that is one less, and the old items without the one of that key.
  pub map_remove_known :
      (x a : A)
      → map_find m (some x) ≡ some a
      → length items < capacity
      → (t : Map A) × (map_remove m (some x) ≡ returns t [] (some a))
        × IsValid t
        × (t.calls ≡ m.calls)
        × (t.size ≡ pred m.size)
        × (ordered t.root ≡ erase cmp x items)
  unfolding map_remove
  map_remove_known x a h small = rw (remove_below-detach m m.root x present-ne-nil) (
      go (detach cmp 0 m.root x) (detach-Removed cmp law.order x m.root 0 v.balanced v.ascending)
        (detach-Shrinks cmp x m.root 0 v.balanced))
    where
      present : lookup cmp x items ≡ some a
      present = sym (map_find_lem m law v x) ∙ h

      present-ne-nil : m.root ≢ nil
      present-ne-nil e = cc (present, lookup-nil cmp x, ap (λ t. lookup cmp x (ordered t)) e)

      go :
          (r : Removal A)
          → Removed cmp 0 (depth m.root) items x r
          → Shrinks m.root r
          → (t : Map A) × (detached m r ≡ returns t [] (some a))
            × IsValid t
            × (t.calls ≡ m.calls)
            × (t.size ≡ pred m.size)
            × (ordered t.root ≡ erase cmp x items)
      go missing p b = cc present
      go (removed d u) (p, q) b =
          let same : d ≡ a = cc present in
          (
            record m { root = u; size = pred m.size },
            rw same,
            erase-IsValid x a u present b q,
            refl,
            refl,
            q,
          )
      go Removal.fault p b =
          let deep : height_limit ≤ 0 + depth m.root = p.lower in
          absurd (omega (arith, depth-lt-limit m.root v.balanced small))

  -- On a valid map with lawful callbacks, at least one item and fewer than 2^32 - 1, a removal
  -- of data whose key `map_find` does not find returns NULL and leaves the map as it was.
  pub map_remove_missing :
      (x : A)
      → map_find m (some x) ≡ none
      → m.root ≢ nil
      → length items < capacity
      → map_remove m (some x) ≡ returns m [] none
  unfolding map_remove
  map_remove_missing x h n small =
      rw (remove_below-detach m m.root x n) (
        go (detach cmp 0 m.root x) (detach-Removed cmp law.order x m.root 0 v.balanced v.ascending))
    where
      absent : lookup cmp x items ≡ none
      absent = sym (map_find_lem m law v x) ∙ h

      go :
          (r : Removal A)
          → Removed cmp 0 (depth m.root) items x r
          → detached m r ≡ returns m [] none
      go missing p = refl
      go (removed d u) (p, q) = cc absent
      go Removal.fault p =
          let deep : height_limit ≤ 0 + depth m.root = p.lower in
          absurd (omega (arith, depth-lt-limit m.root v.balanced small))

-- On a valid map that is empty, any removal returns NULL and makes the size -1: the map is no
-- longer valid.
pub map_remove_empty {ℓ} :
    {A : Type ℓ} (m : Map A) (x : A)
    → IsValid m
    → m.root ≡ nil
    → (t : Map A) × (map_remove m (some x) ≡ returns t [] none)
      × (t.size ≡ negsuc 0)
      × (¬ IsValid t)
unfolding map_remove remove_below
map_remove_empty {A} m x v e = (
  record m { size = pred m.size },
  ap (λ (t : Tree A). remove_below m t x) e,
  below,
  λ w. let n : pred m.size ≡ pos (length (ordered m.root)) = w.counted in cc (n, below),
)
  where
    empty : m.size ≡ pos 0
    empty = v.counted ∙ ap (λ (t : Tree A). pos (length (ordered t))) e

    below : pred m.size ≡ negsuc 0
    below = ap pred empty
