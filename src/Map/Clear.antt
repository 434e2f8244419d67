-- ===== src/Map/Clear.antt =====
-- src/map.c: `map_clear`, which takes the tree apart by rotations.
use casting.Base.{
  ℕ, zero, suc, ◌+◌, ◌*◌, ◌≤◌, ◌≡◌, refl, sym, ap, ◌∙◌, arith, Bool, Option, none, some, List, [],
  ◌∷◌, append_assoc, length, length-append, if◌then◌else◌,
}
use casting.Map.{Map}
use casting.Map.Node.{Tree, nil, node, ordered}

module _ {ℓ} {A : Type ℓ} where
  abbrev pub cons? : A → Option (List A) → Option (List A)
  cons? d none = none
  cons? d (some ds) = some (d ∷ ds)

  -- The loop for at most `fuel` rounds, with the data of the nodes that it frees, in order. A round
  -- frees a node that has no left child, or rotates the node to the right.
  unfoldable pub clear_nodes : ℕ → Tree A → Option (List A)
  clear_nodes fuel nil = some []
  clear_nodes zero (node lv d l r) = none
  clear_nodes (suc fuel) (node lv d nil r) = cons? d (clear_nodes fuel r)
  clear_nodes (suc fuel) (node lv d (node k e a b) r) =
      clear_nodes fuel (node k e a (node lv d b r))

  abbrev pub released : Bool → Option (List A) → Option (List A)
  released rel none = none
  released rel (some ds) = some (if rel then ds else [])

  -- What the release callback receives. Two rounds for each item are enough. The map itself keeps its
  -- root and its size.
  unfoldable pub map_clear : Map A → Option (List A)
  map_clear m = released m.calls.rel (clear_nodes (2 * length (ordered m.root)) m.root)

  -- `map_free`, which frees the map itself besides.
  unfoldable pub map_free : Map A → Option (List A)
  map_free m = map_clear m

  -- The rounds that the loop needs.
  abbrev rounds : Tree A → ℕ
  rounds nil = 0
  rounds (node lv d l r) = suc (2 * length (ordered l) + rounds r)

  rounds-le : (t : Tree A) → rounds t ≤ 2 * length (ordered t)
  rounds-le nil = omega arith
  rounds-le (node lv d l r) = omega (arith, rounds-le r, length-append (ordered l) (d ∷ ordered r))

  clear_nodes-ordered :
      (fuel : ℕ) (t : Tree A) → rounds t ≤ fuel → clear_nodes fuel t ≡ some (ordered t)
  unfolding clear_nodes
  clear_nodes-ordered fuel nil h = refl
  clear_nodes-ordered zero (node lv d l r) h = absurd (omega arith)
  clear_nodes-ordered (suc fuel) (node lv d nil r) h =
      ap (cons? d) (clear_nodes-ordered fuel r (omega arith))
  clear_nodes-ordered (suc fuel) (node lv d (node k e a b) r) h =
      clear_nodes-ordered fuel (node k e a (node lv d b r))
        (omega (arith, length-append (ordered a) (e ∷ ordered b)))
      ∙ ap some (sym (append_assoc (ordered a) (e ∷ ordered b) (d ∷ ordered r)))

  -- On any map, the loop of `map_clear` ends, and the release callback, if there is one,
  -- receives the data of each node once, in the order of `map_ordered`.
  pub map_clear_lem : (m : Map A) → map_clear m ≡ some (if m.calls.rel then ordered m.root else [])
  unfolding map_clear
  map_clear_lem m =
      ap (released m.calls.rel)
        (clear_nodes-ordered (2 * length (ordered m.root)) m.root (rounds-le m.root))
