-- ===== src/Map/Node.antt =====
-- src/map.c: nodes, the two rotations, and the operations on the nodes below a root.
use Prim.Native.Nat.{max}
use casting.Base.{
  ℕ, suc, ◌-◌, Ordering, Bool, not, ◌&&◌, ◌||◌, Option, List, [], ◌∷◌, ◌++◌, ltb, ◌==◌,
  if◌then◌else◌, ℤ,
}

-- `sentinal` is `nil`, a node of level 0; a node has its level, its data, `link[0]` and `link[1]`.
pub data Tree {ℓ} (A : Type ℓ) : Type ℓ where
  nil : Tree A
  node : ℕ → A → Tree A → Tree A → Tree A

abbrev pub height_limit : ℕ
height_limit = 64

-- What a `copy_cb` returns: the copy, or an error.
pub data Copy {ℓ} (A : Type ℓ) : Type ℓ where
  copied : A → Copy A
  refused : ℤ → Copy A

-- The callbacks of a map. `cmp a b` is the sign of the C function's result. A `dup` or `rel` that is
-- not set is NULL.
pub record Callbacks {ℓ} (A : Type ℓ) : Type ℓ where
  pub cmp : A → A → Ordering
  pub dup : Option (A → Copy A)
  pub rel : Bool

-- How an insertion leaves what the code owns: an entry behind the end of the path; the pointer of a
-- copy, written into the data that the node keeps, with whether that data is released; or the node,
-- freed while it is linked, with the same and the error that is returned.
pub data Misuse {ℓ} (A : Type ℓ) : Type ℓ where
  path_full : Misuse A
  written_into : A → Bool → Misuse A
  node_freed : A → Bool → ℤ → Misuse A

-- How an insertion below a node ends. `overwritten` has the released data.
pub data Insertion {ℓ} (A : Type ℓ) : Type ℓ where
  created : Tree A → Insertion A
  overwritten : List A → Tree A → Insertion A
  failed : ℤ → Insertion A
  fault : Misuse A → Insertion A

-- How a removal below a node ends.
pub data Removal {ℓ} (A : Type ℓ) : Type ℓ where
  missing : Removal A
  removed : A → Tree A → Removal A
  fault : Removal A

module _ {ℓ} {A : Type ℓ} where
  abbrev pub level : Tree A → ℕ
  level nil = 0
  level (node lv d l r) = lv

  abbrev pub right : Tree A → Tree A
  right nil = nil
  right (node lv d l r) = r

  -- Remove a left horizontal link.
  unfoldable pub skew : Tree A → Tree A
  skew (node lv d (node k e a b) r) =
      if k == lv && not (lv == 0) then node k e a (node lv d b r) else node lv d (node k e a b) r
  skew t = t

  -- Remove consecutive right horizontal links.
  unfoldable pub split : Tree A → Tree A
  split (node lv d l (node k e a (node j f b c))) =
      if j == lv && not (lv == 0)
      then node (suc k) e (node lv d l a) (node j f b c)
      else node lv d l (node k e a (node j f b c))
  split t = t

  unfoldable pub set_level : ℕ → Tree A → Tree A
  set_level n nil = nil
  set_level n (node lv d l r) = node n d l r

  unfoldable pub on_right : (Tree A → Tree A) → Tree A → Tree A
  on_right f nil = nil
  on_right f (node lv d l r) = node lv d l (f r)

  -- The three skews and two splits of `map_remove`, on a node whose level has been lowered.
  unfoldable pub realign : Tree A → Tree A
  unfolding on_right
  realign t = on_right split (split (on_right (on_right skew) (on_right skew (skew t))))

  -- The rebalancing of one node on the way back up in `map_remove`.
  unfoldable pub rebalance : Tree A → Tree A
  unfolding realign set_level
  rebalance nil = nil
  rebalance (node lv d l r) =
      if ltb (level l) (lv - 1) || ltb (level r) (lv - 1)
      then realign (node (lv - 1) d l (if ltb (lv - 1) (level r) then set_level (lv - 1) r else r))
      else node lv d l r

  -- `anode_ordered`: the data in the order in which the callback receives them.
  abbrev pub ordered : Tree A → List A
  ordered nil = []
  ordered (node lv d l r) = ordered l ++ (d ∷ ordered r)

  -- The number of nodes on the longest path from a root.
  abbrev pub depth : Tree A → ℕ
  depth nil = 0
  depth (node lv d l r) = suc (max (depth l) (depth r))
