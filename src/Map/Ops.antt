-- ===== src/Map/Ops.antt =====
-- src/map.c: `new_node`, `map_find`, and the descents of `map_insert` and `map_remove` with the walk
-- back up their path. The path is the recursion's own stack; `top` is the index of the next free
-- entry of the array `path`, which has `height_limit` entries.
use casting.Base.{
  ℕ, suc, Ordering, Bool, true, false, Option, none, some, [], ◌∷◌, leb, ◌==◌, if◌then◌else◌,
  err_nomem,
}
use casting.Map.Node.{
  Tree, nil, node, Misuse, path_full, written_into, node_freed, Copy, copied, refused, Callbacks,
  Insertion, created, overwritten, failed, Removal, missing, removed, height_limit, skew, split,
  rebalance,
}

module _ {ℓ} {A : Type ℓ} where
  -- The `while` loop of `map_find` from a node down; `nil` has no data, which is NULL.
  unfoldable pub find : (A → A → Ordering) → Tree A → A → Option A
  find cmp nil x = none
  find cmp (node lv d l r) x = elim (cmp d x) [
    | Ordering.eq ↦ some d
    | Ordering.lt ↦ find cmp r x
    | Ordering.gt ↦ find cmp l x
  ]

  -- The data that a node gets: what is given, or its copy.
  abbrev pub stored : Callbacks A → A → Copy A
  stored c x = elim c.dup [ none ↦ copied x | some f ↦ f x ]

  unfoldable pub new_leaf : Copy A → Insertion A
  new_leaf (copied d) = created (node 1 d nil nil)
  new_leaf (refused e) = failed e

  -- `mem` says whether `lc_alloc` finds memory.
  unfoldable pub new_node : Callbacks A → Bool → A → Insertion A
  new_node c false x = failed err_nomem
  new_node c true x = new_leaf (stored c x)

  -- `dup(data, node->data)` on a node whose data is `d`.
  unfoldable pub miscopied : A → Bool → Copy A → Misuse A
  miscopied d rel (copied e) = written_into d rel
  miscopied d rel (refused e) = node_freed d rel e

  -- The same key: the old data is released; with a `dup` the copy is then written through
  -- `node->data` in place of `&node->data`, into the old data, or the node is freed.
  unfoldable pub overwrite : Option (A → Copy A) → Bool → ℕ → A → Tree A → Tree A → A → Insertion A
  overwrite none rel lv d l r x = overwritten (if rel then d ∷ [] else []) (node lv x l r)
  overwrite (some f) rel lv d l r x = Insertion.fault (miscopied d rel (f x))

  -- The walk back up: skew, split and relink, if a node was created.
  unfoldable pub relink : (Tree A → Tree A) → Insertion A → Insertion A
  relink link (created t) = created (split (skew (link t)))
  relink link (overwritten old t) = overwritten old (link t)
  relink link (failed e) = failed e
  relink link (Insertion.fault w) = Insertion.fault w

  unfoldable pub place : Callbacks A → Bool → ℕ → Tree A → A → Insertion A
  place c mem top nil x = new_node c mem x
  place c mem top (node lv d l r) x = elim (leb height_limit top) [
    | true ↦ Insertion.fault path_full
    | false ↦ elim (c.cmp d x) [
      | Ordering.eq ↦ overwrite c.dup c.rel lv d l r x
      | Ordering.lt ↦ relink (λ t. node lv d l t) (place c mem (suc top) r x)
      | Ordering.gt ↦ relink (λ t. node lv d t r) (place c mem (suc top) l x)
    ]
  ]

  unfoldable pub reattach : (Tree A → Tree A) → Removal A → Removal A
  reattach link missing = missing
  reattach link (removed d t) = removed d (rebalance (link t))
  reattach link Removal.fault = Removal.fault

  -- The search for the heir, the leftmost node under a right child, from the node with these fields.
  -- The result has the heir's data and the tree that is left.
  unfoldable pub take_heir : ℕ → ℕ → A → Tree A → Tree A → Removal A
  take_heir top lv d nil r = removed d r
  take_heir top lv d (node k e a b) r = elim (leb height_limit top) [
    | true ↦ Removal.fault
    | false ↦ reattach (λ t. node lv d t r) (take_heir (suc top) k e a b)
  ]

  -- The heir's data replaces that of the node to remove, whose own data is the result.
  unfoldable pub inherit : ℕ → A → Tree A → Removal A → Removal A
  inherit lv d l missing = missing
  inherit lv d l (removed heir t) = removed d (rebalance (node lv heir l t))
  inherit lv d l Removal.fault = Removal.fault

  -- `top` counts the entries below the found node: at the root the right child takes its place,
  -- whichever child is empty.
  unfoldable pub unlink : ℕ → ℕ → A → Tree A → Tree A → Removal A
  unlink top lv d nil r = removed d r
  unlink top lv d (node k e a b) nil = removed d (if top == 0 then nil else node k e a b)
  unlink top lv d (node k e a b) (node j f g h) =
      inherit lv d (node k e a b) (take_heir (suc top) j f g h)

  -- An entry of `path` is also written for the empty tree where a search for missing data ends.
  unfoldable pub detach : (A → A → Ordering) → ℕ → Tree A → A → Removal A
  detach cmp top nil x = if leb height_limit top then Removal.fault else missing
  detach cmp top (node lv d l r) x = elim (leb height_limit top) [
    | true ↦ Removal.fault
    | false ↦ elim (cmp d x) [
      | Ordering.eq ↦ unlink top lv d l r
      | Ordering.lt ↦ reattach (λ t. node lv d l t) (detach cmp (suc top) r x)
      | Ordering.gt ↦ reattach (λ t. node lv d t r) (detach cmp (suc top) l x)
    ]
  ]
