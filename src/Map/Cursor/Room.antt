-- ===== src/Map/Cursor/Room.antt =====
-- src/map.h: the path of a cursor stays within its array.
use casting.Base.{ℕ, ◌+◌, ◌-◌, ◌^◌, ◌≤◌, ◌<◌, arith, Bool, true, false, List, [], ◌∷◌, length}
use casting.Map.Node.{Tree, nil, node, depth, height_limit}
use casting.Map.Balance.{IsBalanced}
use casting.Map.Balance.Depth.{depth-lt-limit}
use casting.Map.{Map, map_ordered}
use casting.Map.Cursor.{
  Cursor, at_node, far, climb, move, start, map_first, map_last, map_next, map_prev,
}

module _ {ℓ} {A : Type ℓ} where
  -- Each node of a path, with what is below it, ends within the bound.
  abbrev Fits : ℕ → List (Tree A × Bool) → Type 0
  Fits b [] = Unit
  Fits b ((t, side) ∷ p) = (length p + depth t ≤ b) × Fits b p

  abbrev CursorFits : ℕ → Cursor A → Type 0
  CursorFits b c = (length c.path + depth c.it ≤ b) × Fits b c.path

  far-CursorFits :
      (b : ℕ) (dir : Bool) (t : Tree A) (p : List (Tree A × Bool))
      → length p + depth t ≤ b
      → Fits b p
      → CursorFits b (far dir t p)
  unfolding far
  far-CursorFits b dir nil p h f = (h, f)
  far-CursorFits b false (node lv d nil r) p h f = (h, f)
  far-CursorFits b false (node lv d (node k e x y) r) p h f =
      far-CursorFits b false (node k e x y) ((node lv d (node k e x y) r, false) ∷ p) (omega arith)
        (h, f)
  far-CursorFits b true (node lv d l nil) p h f = (h, f)
  far-CursorFits b true (node lv d l (node k e x y)) p h f =
      far-CursorFits b true (node k e x y) ((node lv d l (node k e x y), true) ∷ p) (omega arith)
        (h, f)

  climb-CursorFits :
      (b : ℕ) (dir : Bool) (p : List (Tree A × Bool)) → Fits b p → CursorFits b (climb dir p)
  unfolding climb
  climb-CursorFits b dir [] f = (omega arith, tt)
  climb-CursorFits b true ((t, true) ∷ p) f = climb-CursorFits b true p f.1
  climb-CursorFits b true ((t, false) ∷ p) f = f
  climb-CursorFits b false ((t, false) ∷ p) f = climb-CursorFits b false p f.1
  climb-CursorFits b false ((t, true) ∷ p) f = f

  move-CursorFits :
      (b : ℕ) (dir : Bool) (t : Tree A) (p : List (Tree A × Bool))
      → CursorFits b (at_node t p)
      → CursorFits b (move dir (at_node t p))
  unfolding move
  move-CursorFits b dir nil p f = climb-CursorFits b dir p f.1
  move-CursorFits b true (node lv d l nil) p f = climb-CursorFits b true p f.1
  move-CursorFits b true (node lv d l (node k e x y)) p f =
      far-CursorFits b false (node k e x y) ((node lv d l (node k e x y), true) ∷ p)
        (omega (arith, f.0)) f
  move-CursorFits b false (node lv d nil r) p f = climb-CursorFits b false p f.1
  move-CursorFits b false (node lv d (node k e x y) r) p f =
      far-CursorFits b true (node k e x y) ((node lv d (node k e x y) r, false) ∷ p)
        (omega (arith, f.0)) f

  -- The cursors that calls reach.
  pub data Walked (m : Map A) : Cursor A → Type ℓ where
    at_first : Walked m (map_first m).0
    at_last : Walked m (map_last m).0
    nexts : {c : Cursor A} → Walked m c → Walked m (map_next c).0
    prevs : {c : Cursor A} → Walked m c → Walked m (map_prev c).0

  Walked-CursorFits : (m : Map A) {c : Cursor A} → Walked m c → CursorFits (depth m.root) c
  unfolding map_first map_last map_next map_prev start
  Walked-CursorFits m at_first = far-CursorFits (depth m.root) false m.root [] (omega arith) tt
  Walked-CursorFits m at_last = far-CursorFits (depth m.root) true m.root [] (omega arith) tt
  Walked-CursorFits m (nexts {c = c} w) =
      move-CursorFits (depth m.root) true c.it c.path (Walked-CursorFits m w)
  Walked-CursorFits m (prevs {c = c} w) =
      move-CursorFits (depth m.root) false c.it c.path (Walked-CursorFits m w)

  -- On a balanced tree of fewer than 2^32 - 1 items, the path of a cursor stays shorter than
  -- HEIGHT_LIMIT in every walk by `map_first`, `map_last`, `map_next` and `map_prev`.
  pub Walked-lt-limit :
      (m : Map A) (c : Cursor A)
      → IsBalanced m.root
      → length (map_ordered m) < 2 ^ 32 - 1
      → Walked m c
      → length c.path < height_limit
  unfolding map_ordered
  Walked-lt-limit m c b h w =
      let f = Walked-CursorFits m w in omega (arith, depth-lt-limit m.root b h, f.0)
