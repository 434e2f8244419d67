-- ===== src/Map.antt =====
-- src/map.h and src/map.c: the ordered map, an Andersson tree.
pub mod Node
pub mod Ops
pub mod Balance
pub mod Refines
pub mod Sorted
pub mod Laws
pub mod Clear
pub mod Cursor
use casting.Base.{Bool, if◌then◌else◌, Option, none, some, List, [], ℤ, pos, succ, pred, err_inval}
use Node.{
  Tree, nil, node, Misuse, path_full, Callbacks, Insertion, created, overwritten, failed, Removal,
  missing, removed, ordered,
}
use Ops.{find, place, detach}

-- `map_t`: `size` is a `long`.
pub record Map {ℓ} (A : Type ℓ) : Type ℓ where
  pub root : Tree A
  pub calls : Callbacks A
  pub size : ℤ

-- What a call leaves behind: the map, the data that it released, and its result.
pub data Outcome {ℓ κ} (A : Type ℓ) (R : Type κ) : Type (ℓ ⊔ κ) where
  returns : Map A → List A → R → Outcome A R
  fault : Misuse A → Outcome A R

module _ {ℓ} {A : Type ℓ} where
  unfoldable pub map_init : Callbacks A → Map A
  map_init c = record { root = nil; calls = c; size = pos 0 }

  -- `mem` says whether `lc_alloc` finds memory; `none` is NULL.
  unfoldable pub map_new : Bool → Callbacks A → Option (Map A)
  map_new mem c = if mem then some (map_init c) else none

  -- The cases of `map_insert` after the walk.
  inserted : Map A → Insertion A → Outcome A ℤ
  inserted m (created t) = returns (record m { root = t; size = succ m.size }) [] (succ m.size)
  inserted m (overwritten old t) = returns (record m { root = t }) old m.size
  inserted m (failed e) = returns m [] e
  inserted m (Insertion.fault w) = fault w

  unfoldable pub map_insert : Bool → Map A → Option A → Outcome A ℤ
  unfolding inserted
  map_insert mem m none = returns m [] err_inval
  map_insert mem m (some x) = inserted m (place m.calls mem 0 m.root x)

  unfoldable pub map_find : Map A → Option A → Option A
  map_find m none = none
  map_find m (some x) = find m.calls.cmp m.root x

  -- On an empty map the size goes down, too.
  detached : Map A → Removal A → Outcome A (Option A)
  detached m missing = returns m [] none
  detached m (removed d t) = returns (record m { root = t; size = pred m.size }) [] (some d)
  detached m Removal.fault = fault path_full

  remove_below : Map A → Tree A → A → Outcome A (Option A)
  unfolding detached
  remove_below m nil x = returns (record m { size = pred m.size }) [] none
  remove_below m (node lv d l r) x = detached m (detach m.calls.cmp 0 (node lv d l r) x)

  unfoldable pub map_remove : Map A → Option A → Outcome A (Option A)
  unfolding remove_below
  map_remove m none = returns m [] none
  map_remove m (some x) = remove_below m m.root x

  unfoldable pub map_size : Map A → ℤ
  map_size m = m.size

  unfoldable pub map_ordered : Map A → List A
  map_ordered m = ordered m.root
