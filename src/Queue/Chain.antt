-- ===== src/Queue/Chain.antt =====
-- src/queue.c: the nodes of a queue, by their addresses.
use casting.Base.{ℕ, Bool, true, false, Option, none, some, List, [], ◌∷◌, ◌==◌, if◌then◌else◌}

-- `q_node_t` at its address; `item` is its `data`, which may be NULL. `next` is the node after it.
pub record Node {ℓ} (A : Type ℓ) : Type ℓ where
  pub addr : ℕ
  pub item : Option A

-- `p == n` and `p == &q->head`, for a pointer `p` to a node or to the head.
unfoldable pub is_node : Option ℕ → ℕ → Bool
is_node none a = false
is_node (some b) a = b == a

unfoldable pub is_head : Option ℕ → Bool
is_head none = true
is_head (some a) = false

module _ {ℓ} {A : Type ℓ} where
  -- `p->next = n`, where `n` has no next node: what followed `p` is cut off. A `p` that is not on
  -- the chain leaves it as it is.
  unfoldable pub link_after : Option ℕ → Node A → List (Node A) → List (Node A)
  link_after none n chain = n ∷ []
  link_after (some p) n [] = []
  link_after (some p) n (x ∷ chain) =
      if x.addr == p then x ∷ (n ∷ []) else x ∷ link_after (some p) n chain
