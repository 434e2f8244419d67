-- ===== src/Queue/Reads.antt =====
-- src/queue.c: the reads of a queue, and the push that fails.
use casting.Base.{
  ℕ, ◌≡◌, refl, sym, ap, ◌∙◌, true, Option, none, some, List, [], ◌∷◌, map, ◌↔◌, ◌⊎◌, inl, inr,
  length, ℤ, pos,
}
use casting.Map.Node.{refused}
use casting.Queue.Chain.{Node, is_head}
use casting.Queue.{
  Queue, fault, node_data, queue_push, queue_pop, queue_peek, queue_isempty, queue_size, push_node,
  pop_from, peek_from,
}
use casting.Queue.Laws.{contents, last, IsValid, last-ne-none, length-items}

module _ {ℓ} {A : Type ℓ} where
  -- A push for whose node there is no memory, or whose copy is refused, writes through NULL.
  pub queue_push_faults :
      (q : Queue A) (mem : Option ℕ) (x : Option A) (e : ℤ)
      → (mem ≡ none) ⊎ (node_data q.copy x ≡ refused e)
      → queue_push mem q x ≡ fault
  unfolding queue_push
  queue_push_faults q none x e h = refl
  queue_push_faults q (some a) x e (inl h) = cc
  queue_push_faults q (some a) x e (inr h) = ap (push_node q a) h

  is_head_iff :
      (p : Option ℕ) (chain : List (Node A))
      → p ≡ last chain
      → (is_head p ≡ true) ↔ (map (λ n. n.item) chain ≡ [])
  unfolding is_head
  is_head_iff none [] e = ((λ _. refl), (λ _. refl))
  is_head_iff none (x ∷ chain) e = absurd (last-ne-none x chain (sym e))
  is_head_iff (some a) [] e = cc
  is_head_iff (some a) (x ∷ chain) e = ((λ h. cc), (λ h. cc))

  peek_from-pop_from :
      (q : Queue A) (chain : List (Node A)) → peek_from chain ≡ (pop_from q chain).1
  unfolding peek_from pop_from
  peek_from-pop_from q [] = refl
  peek_from-pop_from q (n ∷ rest) = refl

  -- On a valid queue, `queue_isempty` holds just if there are no contents, `queue_size` is the
  -- number of the contents, and `queue_peek` returns what `queue_pop` would.
  pub queue_reads :
      (q : Queue A)
      → IsValid q
      → ((queue_isempty q ≡ true) ↔ (contents q ≡ []))
        × (queue_size q ≡ pos (length (contents q)))
        × (queue_peek q ≡ (queue_pop q).1)
  unfolding queue_isempty queue_size queue_peek queue_pop
  queue_reads q v = (
    is_head_iff q.tail q.chain v.tailed,
    v.counted ∙ ap pos (sym (length-items q.chain)),
    peek_from-pop_from q q.chain,
  )
