-- ===== src/Map/Laws/Insert.antt =====
-- src/map.c: `map_insert`, on each of its branches.
use casting.Base.{
  ◌<◌, ◌≡◌, ◌⊎◌, refl, sym, ap, ◌∙◌, inl, inr, arith, Ordering, Bool, true, false, none, some, List,
  [], ◌∷◌, length, ℤ, pos, succ, err_nomem, if◌then◌else◌,
}
use casting.Map.{Map, returns, fault, map_insert, map_find, inserted}
use casting.Map.Node.{
  Tree, Copy, copied, refused, Insertion, created, overwritten, failed, ordered, depth,
}
use casting.Map.Ops.{stored, miscopied, place}
use casting.Map.Sorted.{lookup, insert}
use casting.Map.Sorted.Laws.{insert-IsAscending, length-insert}
use casting.Map.Refines.Place.{Placed, place-Placed}
use casting.Map.Balance.{IsBalanced}
use casting.Map.Balance.Walk.{Grows, place-Grows}
use casting.Map.Balance.Depth.{depth-lt-limit}
use casting.Map.Laws.{IsLawful, IsValid, capacity, map_find_lem}

module _ {ℓ} {A : Type ℓ} (m : Map A) (law : IsLawful m.calls) (v : IsValid m) where
  abbrev cmp : A → A → Ordering
  cmp = m.calls.cmp

  -- The data of the map, ascending.
  abbrev items : List A
  items = ordered m.root

  -- A tree with the data of an insertion, under the old callbacks.
  insert-IsValid :
      (x d : A) (u : Tree A) (n : ℤ)
      → cmp d x ≡ Ordering.eq
      → IsBalanced u
      → ordered u ≡ insert cmp x d items
      → n ≡ pos (length (insert cmp x d items))
      → IsValid (record m { root = u; size = n })
  insert-IsValid x d u n k b q e = record {
    balanced = b;
    ascending = rw q (insert-IsAscending cmp law.order x d items k v.ascending);
    counted = rw q e;
  }

  -- On a valid map with lawful callbacks and fewer than 2^32 - 1 items, an insertion of data
  -- whose key `map_find` does not find, with memory for the node and a copy `d` of the data (or
  -- the data itself), returns the size plus one and releases nothing. The new map is valid
  -- (balanced, ascending, with the size of its items), has the same callbacks, and its items are
  -- the old ones with `d` at its place in the order.
  pub map_insert_new :
      (x d : A)
      → map_find m (some x) ≡ none
      → stored m.calls x ≡ copied d
      → length items < capacity
      → (t : Map A) × (map_insert true m (some x) ≡ returns t [] (succ m.size))
        × IsValid t
        × (t.calls ≡ m.calls)
        × (ordered t.root ≡ insert cmp x d items)
  unfolding map_insert
  map_insert_new x d h e small =
      go (place m.calls true 0 m.root x)
        (place-Placed m.calls law.order true x m.root 0 v.ascending)
        (place-Grows m.calls true x m.root 0 v.balanced)
    where
      absent : lookup cmp x items ≡ none
      absent = sym (map_find_lem m law v x) ∙ h

      longer : succ m.size ≡ pos (length (insert cmp x d items))
      longer = rw (v.counted, length-insert cmp law.order x d items v.ascending) (rw absent refl)

      go :
          (i : Insertion A)
          → Placed m.calls true 0 (depth m.root) items x i
          → Grows m.root i
          → (t : Map A) × (inserted m i ≡ returns t [] (succ m.size))
            × IsValid t
            × (t.calls ≡ m.calls)
            × (ordered t.root ≡ insert cmp x d items)
      go (created u) (_, _, a, p, q) (b, _) =
          let same : a ≡ d = cc in
          (
            record m { root = u; size = succ m.size },
            refl,
            insert-IsValid x d u (succ m.size) (law.dup_key x d e) b (rw same at q) longer,
            refl,
            rw same at q,
          )
      go (overwritten old u) (_, a, p, _, _) g = cc absent
      go (failed a) (_, inl (p, _)) g = cc
      go (failed a) (_, inr (_, p)) g = cc
      go (Insertion.fault w) (inl (f, a, _, p, _)) g = cc absent
      go (Insertion.fault w) (inr (_, p)) g =
          absurd (omega (arith, depth-lt-limit m.root v.balanced small))

  -- On a valid map with lawful callbacks, no `dup` and fewer than 2^32 - 1 items, an insertion
  -- of data whose key `map_find` finds returns the size, and releases the found data if there is
  -- a release callback. The new map is valid, has the same callbacks, and has the new data in
  -- place of the found.
  pub map_insert_known :
      (mem : Bool) (x a : A)
      → m.calls.dup ≡ none
      → map_find m (some x) ≡ some a
      → length items < capacity
      → (t : Map A) × (map_insert mem m (some x)
          ≡ returns t (if m.calls.rel then a ∷ [] else []) m.size)
        × IsValid t
        × (t.calls ≡ m.calls)
        × (ordered t.root ≡ insert cmp x x items)
  unfolding map_insert
  map_insert_known mem x a n h small =
      go (place m.calls mem 0 m.root x) (place-Placed m.calls law.order mem x m.root 0 v.ascending)
        (place-Grows m.calls mem x m.root 0 v.balanced)
    where
      present : lookup cmp x items ≡ some a
      present = sym (map_find_lem m law v x) ∙ h

      as_long : m.size ≡ pos (length (insert cmp x x items))
      as_long = rw (v.counted, length-insert cmp law.order x x items v.ascending) (rw present refl)

      go :
          (i : Insertion A)
          → Placed m.calls mem 0 (depth m.root) items x i
          → Grows m.root i
          → (t : Map A) × (inserted m i ≡ returns t (if m.calls.rel then a ∷ [] else []) m.size)
            × IsValid t
            × (t.calls ≡ m.calls)
            × (ordered t.root ≡ insert cmp x x items)
      go (created u) (p, _, _, _, _) g = cc present
      go (overwritten old u) (_, d, p, o, q) (b, _, _) =
          let same : d ≡ a = cc present in
          (
            record m { root = u },
            rw (o, same),
            insert-IsValid x x u m.size (law.order.cmp_refl x) b q as_long,
            refl,
            q,
          )
      go (failed e) (p, _) g = cc present
      go (Insertion.fault w) (inl (f, _, p, _, _)) g = cc present
      go (Insertion.fault w) (inr (_, p)) g =
          absurd (omega (arith, depth-lt-limit m.root v.balanced small))

  -- On a valid map with lawful callbacks and fewer than 2^32 - 1 items, an insertion under a new
  -- key for which there is no memory returns ERR_NOMEM, one whose copy is refused returns the
  -- error of the copy, and both leave the map as it was.
  pub map_insert_failing :
      (mem : Bool) (x : A) (e : ℤ)
      → map_find m (some x) ≡ none
      → length items < capacity
      → ((mem ≡ false) × (e ≡ err_nomem)) ⊎ ((mem ≡ true) × (stored m.calls x ≡ refused e))
      → map_insert mem m (some x) ≡ returns m [] e
  unfolding map_insert inserted
  map_insert_failing mem x e h small why =
      go (place m.calls mem 0 m.root x) (place-Placed m.calls law.order mem x m.root 0 v.ascending)
    where
      absent : lookup cmp x items ≡ none
      absent = sym (map_find_lem m law v x) ∙ h

      go :
          (i : Insertion A)
          → Placed m.calls mem 0 (depth m.root) items x i
          → inserted m i ≡ returns m [] e
      go (created u) (_, p, b, q, _) = ground arith
      go (overwritten old u) (_, a, p, _, _) = cc absent
      go (failed a) (_, p) = ground arith
      go (Insertion.fault w) (inl (f, a, _, p, _)) = cc absent
      go (Insertion.fault w) (inr (_, p)) =
          absurd (omega (arith, depth-lt-limit m.root v.balanced small))

  -- On a valid map with lawful callbacks, a `dup` and fewer than 2^32 - 1 items, an insertion of
  -- data whose key `map_find` finds never overwrites the item: where `dup` copies, the copy's
  -- pointer is written into the found data, which is released if there is a release callback;
  -- where it refuses, the node with the found data is freed while the tree links it.
  pub map_insert_overwrites :
      (mem : Bool) (x a : A) (f : A → Copy A)
      → m.calls.dup ≡ some f
      → map_find m (some x) ≡ some a
      → length items < capacity
      → map_insert mem m (some x) ≡ fault (miscopied a m.calls.rel (f x))
  unfolding map_insert inserted
  map_insert_overwrites mem x a f n h small =
      go (place m.calls mem 0 m.root x) (place-Placed m.calls law.order mem x m.root 0 v.ascending)
    where
      present : lookup cmp x items ≡ some a
      present = sym (map_find_lem m law v x) ∙ h

      go :
          (i : Insertion A)
          → Placed m.calls mem 0 (depth m.root) items x i
          → inserted m i ≡ fault (miscopied a m.calls.rel (f x))
      go (created u) (p, _, _, _, _) = cc present
      go (overwritten old u) (p, _, _, _, _) = cc
      go (failed e) (p, _) = cc present
      go (Insertion.fault w) (inl (g, e, d, p, k)) =
          let same : e ≡ a = cc present in
          let dup : g ≡ f = cc in
          ap fault k
          ∙ ap (λ y. fault (miscopied y m.calls.rel (g x))) same
          ∙ ap (λ h. fault (miscopied a m.calls.rel (h x))) dup
      go (Insertion.fault w) (inr (_, p)) =
          absurd (omega (arith, depth-lt-limit m.root v.balanced small))
