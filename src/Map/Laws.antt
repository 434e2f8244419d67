-- ===== src/Map/Laws.antt =====
-- src/map.c: the map behind its interface. A valid map stands for the ascending list of its data.
pub mod Insert
pub mod Remove
use casting.Base.{ℕ, ◌-◌, ◌^◌, ◌≡◌, refl, Ordering, some, List, length, pos}
use casting.Map.{Map, map_init, map_find}
use casting.Map.Node.{copied, Callbacks, ordered}
use casting.Map.Ops.{stored}
use casting.Map.Sorted.{IsOrder, IsAscending, lookup}
use casting.Map.Refines.Find.{find-lookup}
use casting.Map.Balance.{IsBalanced}

-- Fewer nodes than this keep every path within `HEIGHT_LIMIT`.
abbrev pub capacity : ℕ
capacity = 2 ^ 32 - 1

-- What the code relies on of the callbacks: `cmp` is an order, and a copy has the key of its original.
pub record IsLawful {ℓ} {A : Type ℓ} (c : Callbacks A) : Type ℓ where
  pub order : IsOrder c.cmp
  pub dup_key : (x d : A) → stored c x ≡ copied d → c.cmp d x ≡ Ordering.eq

pub record IsValid {ℓ} {A : Type ℓ} (m : Map A) : Type 0 where
  pub balanced : IsBalanced m.root
  pub ascending : IsAscending m.calls.cmp (ordered m.root)
  pub counted : m.size ≡ pos (length (ordered m.root))

module _ {ℓ} {A : Type ℓ} where
  pub map_init-IsValid : (c : Callbacks A) → IsValid (map_init c)
  unfolding map_init
  map_init-IsValid c = record { balanced = tt; ascending = tt; counted = refl }

module _ {ℓ} {A : Type ℓ} (m : Map A) (law : IsLawful m.calls) (v : IsValid m) where
  abbrev cmp : A → A → Ordering
  cmp = m.calls.cmp

  -- The data of the map, ascending.
  abbrev items : List A
  items = ordered m.root

  -- On a valid map with lawful callbacks, `map_find` returns what a search of the ascending list
  -- of the map's items finds.
  pub map_find_lem : (x : A) → map_find m (some x) ≡ lookup cmp x items
  unfolding map_find
  map_find_lem x = find-lookup cmp law.order x m.root v.ascending
