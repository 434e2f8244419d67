-- ===== src/Queue.antt =====
-- src/queue.h and src/queue.c: a linked queue with a pointer to its last node.
pub mod Chain
pub mod Laws
pub mod Reads
pub mod Clear
pub mod Linked
use casting.Base.{
  ℕ, suc, Bool, Option, none, some, List, [], ◌∷◌, if◌then◌else◌, ℤ, pos, succ, pred, success,
  length,
}
use casting.Map.Node.{Copy, copied, refused}
use Chain.{Node, link_after, is_node, is_head}

-- `queue_t`: `chain` are the nodes from `head.next` on, and `tail` is the address of the last node,
-- or `none` for `&q->head`.
pub record Queue {ℓ} (A : Type ℓ) : Type ℓ where
  pub chain : List (Node A)
  pub tail : Option ℕ
  pub copy : Option (A → Copy A)
  pub rel : Bool
  pub size : ℤ

-- `fault` stands for a write through NULL.
pub data Pushed {ℓ} (A : Type ℓ) : Type ℓ where
  pushed : Queue A → ℤ → Pushed A
  fault : Pushed A

module _ {ℓ} {A : Type ℓ} where
  unfoldable pub queue_init : Option (A → Copy A) → Bool → Queue A
  queue_init copy rel = record { chain = []; tail = none; copy = copy; rel = rel; size = pos 0 }

  -- `mem` says whether `lc_alloc` finds memory; `none` is NULL.
  unfoldable pub queue_new : Bool → Option (A → Copy A) → Bool → Option (Queue A)
  queue_new mem copy rel = if mem then some (queue_init copy rel) else none

  -- The data of a new node: a copy, if there is a copy routine and the data is not NULL.
  unfoldable pub node_data : Option (A → Copy A) → Option A → Copy (Option A)
  node_data copy none = copied none
  node_data none (some x) = copied (some x)
  node_data (some f) (some x) = elim (f x) [ copied d ↦ copied (some d) | refused e ↦ refused e ]

  append : Queue A → ℕ → Option A → Queue A
  append q a x = record q {
    chain = link_after q.tail (record { addr = a; item = x }) q.chain;
    tail = some a;
    size = succ q.size;
  }

  -- After a refused copy the node is freed and becomes NULL, like one that was not allocated, and
  -- `node->next` is written all the same.
  push_node : Queue A → ℕ → Copy (Option A) → Pushed A
  unfolding append
  push_node q a (copied x) = pushed (append q a x) success
  push_node q a (refused e) = fault

  -- `mem` is what `lc_alloc` returns for the node.
  unfoldable pub queue_push : Option ℕ → Queue A → Option A → Pushed A
  unfolding push_node
  queue_push none q x = fault
  queue_push (some a) q x = push_node q a (node_data q.copy x)

  pop_from : Queue A → List (Node A) → Queue A × Option A
  pop_from q [] = (q, none)
  pop_from q (n ∷ rest) = (
    record q {
      chain = rest;
      tail = if is_node q.tail n.addr then none else q.tail;
      size = pred q.size;
    },
    n.item,
  )

  unfoldable pub queue_pop : Queue A → Queue A × Option A
  unfolding pop_from
  queue_pop q = pop_from q q.chain

  peek_from : List (Node A) → Option A
  peek_from [] = none
  peek_from (n ∷ rest) = n.item

  unfoldable pub queue_peek : Queue A → Option A
  unfolding peek_from
  queue_peek q = peek_from q.chain

  -- The end of a round of `queue_clear`: without data the loop ends, else `rel`, if there is one,
  -- receives it and the other rounds follow.
  unfoldable pub clear_round : Bool → Queue A → Option A → Queue A × List A → Queue A × List A
  clear_round rel popped none rest = (popped, [])
  clear_round rel popped (some d) rest = (rest.0, if rel then d ∷ rest.1 else rest.1)

  -- The loop of `queue_clear` for at most `fuel` rounds, with the data that `rel` receives.
  unfoldable pub clear_loop : ℕ → Queue A → Queue A × List A
  clear_loop ℕ.zero q = (q, [])
  clear_loop (suc fuel) q =
      let rest = clear_loop fuel (queue_pop q).0 in
      clear_round q.rel (queue_pop q).0 (queue_pop q).1 rest

  -- One round more than there are nodes is enough.
  unfoldable pub queue_clear : Queue A → Queue A × List A
  queue_clear q = clear_loop (suc (length q.chain)) q

  -- What `queue_free` hands to the release callback before the queue is freed.
  unfoldable pub queue_free : Queue A → List A
  queue_free q = (queue_clear q).1

  unfoldable pub queue_isempty : Queue A → Bool
  queue_isempty q = is_head q.tail

  unfoldable pub queue_size : Queue A → ℤ
  queue_size q = q.size
