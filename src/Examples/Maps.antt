-- ===== src/Examples/Maps.antt =====
-- src/map.c: a map of three numbers, and what the theorems say of it.
use Prim.Native.Nat.{compare}
use casting.Base.{ℕ, ◌<◌, ◌≡◌, refl, arith, true, none, some, [], ◌∷◌, ◌++◌, map, length, pos}
use casting.Map.{Map, returns, fault, map_init, map_insert, map_find, map_remove, map_ordered}
use casting.Map.Node.{Tree, nil, node, copied, Callbacks, ordered, height_limit}
use casting.Map.Ops.{find, miscopied}
use casting.Map.Clear.{map_clear, map_clear_lem}
use casting.Map.Balance.{IsBalanced}
use casting.Map.Cursor.{Cursor, map_first, map_last, map_next}
use casting.Map.Cursor.Walks.{reverse, walk_next, walk_prev, walk-map_ordered}
use casting.Map.Cursor.Room.{at_first, nexts, Walked-lt-limit}
use casting.Map.Sorted.{IsOrder, lookup, insert, erase}
use casting.Map.Laws.{IsLawful, IsValid, map_find_lem}
use casting.Map.Laws.Insert.{map_insert_new, map_insert_known, map_insert_overwrites}
use casting.Map.Laws.Remove.{map_remove_known}

compare-IsOrder : IsOrder compare
compare-IsOrder = record {
  cmp_refl = λ a. ground arith;
  gt_of_lt = λ a b h. ground arith;
  lt_of_gt = λ a b h. ground arith;
  eq_of_eq = λ a b h. ground arith;
  cmp_congr = λ a b c h. ground arith;
  lt_trans = λ a b c h k. ground arith;
}

-- Numbers that are kept as they are, and numbers that are copied.
abbrev kept : Callbacks ℕ
kept = record { cmp = compare; dup = none; rel = true }

abbrev cloned : Callbacks ℕ
cloned = record { cmp = compare; dup = some copied; rel = true }

kept-IsLawful : IsLawful kept
kept-IsLawful = record { order = compare-IsOrder; dup_key = λ x d h. ground arith }

cloned-IsLawful : IsLawful cloned
cloned-IsLawful = record { order = compare-IsOrder; dup_key = λ x d h. ground arith }

abbrev three_nodes : Tree ℕ
three_nodes = node 2 20 (node 1 10 nil nil) (node 1 30 nil nil)

abbrev three : Callbacks ℕ → Map ℕ
three c = record { root = three_nodes; calls = c; size = pos 3 }

three_nodes-IsBalanced : IsBalanced three_nodes
three_nodes-IsBalanced = (
  refl,
  omega arith,
  omega arith,
  omega arith,
  (refl, omega arith, omega arith, omega arith, tt, tt),
  (refl, omega arith, omega arith, omega arith, tt, tt),
)

three-kept : IsValid (three kept)
three-kept = record {
  balanced = three_nodes-IsBalanced;
  ascending = ((refl, (refl, tt)), ((refl, tt), (tt, tt)));
  counted = refl;
}

three-cloned : IsValid (three cloned)
three-cloned = record {
  balanced = three_nodes-IsBalanced;
  ascending = ((refl, (refl, tt)), ((refl, tt), (tt, tt)));
  counted = refl;
}

find_known : map_find (three kept) (some 10) ≡ some 10
unfolding map_find find
find_known = refl

find_cloned : map_find (three cloned) (some 10) ≡ some 10
unfolding map_find find
find_cloned = refl

find_unknown : map_find (three kept) (some 25) ≡ none
unfolding map_find find
find_unknown = refl

map_find_lem_example : map_find (three kept) (some 10) ≡ lookup compare 10 (10 ∷ (20 ∷ (30 ∷ [])))
map_find_lem_example = map_find_lem (three kept) kept-IsLawful three-kept 10

map_insert_new_example :
    (t : Map ℕ) × (map_insert true (three kept) (some 25) ≡ returns t [] (pos 4))
    × IsValid t
    × (t.calls ≡ kept)
    × (ordered t.root ≡ insert compare 25 25 (10 ∷ (20 ∷ (30 ∷ []))))
map_insert_new_example =
    map_insert_new (three kept) kept-IsLawful three-kept 25 25 find_unknown refl (omega arith)

map_insert_known_example :
    (t : Map ℕ) × (map_insert true (three kept) (some 10) ≡ returns t (10 ∷ []) (pos 3))
    × IsValid t
    × (t.calls ≡ kept)
    × (ordered t.root ≡ insert compare 10 10 (10 ∷ (20 ∷ (30 ∷ []))))
map_insert_known_example =
    map_insert_known (three kept) kept-IsLawful three-kept true 10 10 refl find_known (omega arith)

map_insert_overwrites_example :
    map_insert true (three cloned) (some 10) ≡ fault (miscopied 10 cloned.rel (copied 10))
map_insert_overwrites_example =
    map_insert_overwrites (three cloned) cloned-IsLawful three-cloned true 10 10 copied refl
      find_cloned (omega arith)

map_remove_known_example :
    (t : Map ℕ) × (map_remove (three kept) (some 10) ≡ returns t [] (some 10))
    × IsValid t
    × (t.calls ≡ kept)
    × (t.size ≡ pos 2)
    × (ordered t.root ≡ erase compare 10 (10 ∷ (20 ∷ (30 ∷ []))))
map_remove_known_example =
    map_remove_known (three kept) kept-IsLawful three-kept 10 10 find_known (omega arith)

init-root : (map_init kept).root ≡ nil
unfolding map_init
init-root = refl

-- The cursor at the second item.
abbrev second : Cursor ℕ
second = (map_next (map_first (three kept)).0).0

Walked-lt-limit_example : length second.path < height_limit
unfolding map_ordered
Walked-lt-limit_example =
    Walked-lt-limit (three kept) second three_nodes-IsBalanced (omega arith) (nexts at_first)

walk-map_ordered_example :
    (walk_next 3 (map_first (three kept)) ≡ map some (map_ordered (three kept)) ++ (none ∷ []))
    × (walk_prev 3 (map_last (three kept))
        ≡ map some (reverse (map_ordered (three kept))) ++ (none ∷ []))
unfolding map_ordered
walk-map_ordered_example = walk-map_ordered (three kept)

map_clear_lem_example : map_clear (three kept) ≡ some (10 ∷ (20 ∷ (30 ∷ [])))
map_clear_lem_example = map_clear_lem (three kept)
