-- ===== src/Map/Cursor.antt =====
-- src/map.c: the cursors, which walk the items of a map in either direction.
pub mod Walks
pub mod Room
use casting.Base.{Bool, true, false, not, Option, none, some, List, [], ◌∷◌, if◌then◌else◌}
use casting.Map.Node.{Tree, nil, node}
use casting.Map.{Map}

-- `map_cursor_t` without its map: the current node, and the nodes above it, the last one first, each
-- with the link by which the walk went down. `top` is the length of the path, which the model does not
-- bound: `far` only adds to the path that it leaves, so that a length of less than HEIGHT_LIMIT at its
-- end, as in Map/Cursor/Room, has every entry inside of the array.
pub record Cursor {ℓ} (A : Type ℓ) : Type ℓ where
  pub it : Tree A
  pub path : List (Tree A × Bool)

abbrev pub same_side : Bool → Bool → Bool
same_side true b = b
same_side false b = not b

module _ {ℓ} {A : Type ℓ} where
  abbrev pub at_node : Tree A → List (Tree A × Bool) → Cursor A
  at_node t p = record { it = t; path = p }

  -- `link[0]` and `link[1]`. Those of `sentinal` are `sentinal`.
  abbrev pub link : Bool → Tree A → Tree A
  link dir nil = nil
  link false (node lv d l r) = l
  link true (node lv d l r) = r

  -- `it->data`, which is NULL in `sentinal`.
  abbrev pub item : Tree A → Option A
  item nil = none
  item (node lv d l r) = some d

  -- The loops that go down by one link as far as they can.
  unfoldable pub far : Bool → Tree A → List (Tree A × Bool) → Cursor A
  far dir nil p = at_node nil p
  far false (node lv d nil r) p = at_node (node lv d nil r) p
  far false (node lv d (node k e a b) r) p =
      far false (node k e a b) ((node lv d (node k e a b) r, false) ∷ p)
  far true (node lv d l nil) p = at_node (node lv d l nil) p
  far true (node lv d l (node k e a b)) p =
      far true (node k e a b) ((node lv d l (node k e a b), true) ∷ p)

  -- The loop that goes up while it comes from that link.
  unfoldable pub climb : Bool → List (Tree A × Bool) → Cursor A
  climb dir [] = at_node nil []
  climb dir ((t, side) ∷ p) =
      let above = climb dir p in if same_side dir side then above else at_node t p

  abbrev pub move_by : Bool → Cursor A → Tree A → Cursor A
  move_by dir c nil = climb dir c.path
  move_by dir c (node lv d l r) = far (not dir) (node lv d l r) ((c.it, dir) ∷ c.path)

  unfoldable pub move : Bool → Cursor A → Cursor A
  move dir c = move_by dir c (link dir c.it)

  unfoldable pub start : Map A → Bool → Cursor A
  start m dir = far dir m.root []

  -- Each returns the cursor with the data that it stands at.
  unfoldable pub map_first : Map A → Cursor A × Option A
  map_first m = (start m false, item (start m false).it)

  unfoldable pub map_last : Map A → Cursor A × Option A
  map_last m = (start m true, item (start m true).it)

  unfoldable pub map_next : Cursor A → Cursor A × Option A
  map_next c = (move true c, item (move true c).it)

  unfoldable pub map_prev : Cursor A → Cursor A × Option A
  map_prev c = (move false c, item (move false c).it)
