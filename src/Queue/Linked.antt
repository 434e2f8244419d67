-- ===== src/Queue/Linked.antt =====
-- src/queue.c: the linked queue meets the interface of the channels.
use casting.Base.{
  ℕ, suc, ◌+◌, ◌≤◌, ◌≡◌, refl, ap, ◌∙◌, arith, true, Option, some, List, [], ◌∷◌, ◌++◌, map, length,
  if◌then◌else◌, pos, inl, inr,
}
use casting.Fifo.{Fifo, head?, tail}
use casting.Map.Node.{Copy, copied}
use casting.Queue.Chain.{Node}
use casting.Queue.{Queue, queue_init, node_data, queue_pop, queue_clear, queue_size}
use casting.Queue.Laws.{
  IsValid, IsFree, contents, Pops, queue_init-IsValid, queue_push_lem, queue_pop_lem, rel-queue_pop,
  copy-queue_pop,
}
use casting.Queue.Reads.{queue_reads}
use casting.Queue.Clear.{
  queue_clear_lem, rel-queue_clear, copy-queue_clear, before_null, after_null,
}

-- A valid queue of the data `held`, none of which is NULL, whose copies are the originals' equals.
record Linked {ℓ} (A : Type ℓ) : Type ℓ where
  queue : Queue A
  held : List A
  valid : IsValid queue
  holds : contents queue ≡ map some held
  faithful : (x : A) → node_data queue.copy (some x) ≡ copied (some x)
  releasing : queue.rel ≡ true

module _ {ℓ} {A : Type ℓ} where
  -- An address above all of the chain, for an allocator that finds memory.
  fresh : List (Node A) → ℕ
  fresh [] = 0
  fresh (n ∷ chain) = suc (n.addr + fresh chain)

  fresh-above : (chain : List (Node A)) (a : ℕ) → fresh chain ≤ a → IsFree a chain
  unfolding fresh
  fresh-above [] a h = tt
  fresh-above (n ∷ chain) a h = ((λ e. omega arith), fresh-above chain a (omega arith))

  map-append : (xs : List A) (x : A) → map some xs ++ (some x ∷ []) ≡ map some (xs ++ (x ∷ []))
  map-append [] x = refl
  map-append (y ∷ xs) x = ap (◌∷◌ (some y)) (map-append xs x)

  push : Linked A → A → Linked A
  push l x =
      let r =
        queue_push_lem l.queue (fresh l.queue.chain) (some x) (some x) l.valid
          (fresh-above l.queue.chain (fresh l.queue.chain) (omega arith)) (l.faithful x) in
      record {
        queue = r.0;
        held = l.held ++ (x ∷ []);
        valid = r.2;
        holds = r.3 ∙ ap (λ xs. xs ++ (some x ∷ [])) l.holds ∙ map-append l.held x;
        faithful = λ y. ap (λ c. node_data c (some y)) r.4 ∙ l.faithful y;
        releasing = r.5 ∙ l.releasing;
      }

  -- The data of the queue are those of `push` on the code's own terms.
  popped-head :
      (q : Queue A) (xs : List A)
      → contents q ≡ map some xs
      → Pops q (queue_pop q)
      → (contents (queue_pop q).0 ≡ map some (tail xs)) × ((queue_pop q).1 ≡ head? xs)
  popped-head q [] e (inl (h, k, n)) = (ap contents k ∙ h, n)
  popped-head q (x ∷ xs) e (inl (h, k, n)) = cc
  popped-head q [] e (inr (h, _)) = cc
  popped-head q (x ∷ xs) e (inr (h, _)) = (cc, cc)

  pop : Linked A → Linked A × Option A
  pop l =
      let p = queue_pop_lem l.queue l.valid in
      let h = popped-head l.queue l.held l.holds p.1 in
      (
        record {
          queue = (queue_pop l.queue).0;
          held = tail l.held;
          valid = p.0;
          holds = h.0;
          faithful = λ y. ap (λ c. node_data c (some y)) (copy-queue_pop l.queue) ∙ l.faithful y;
          releasing = rel-queue_pop l.queue ∙ l.releasing;
        },
        (queue_pop l.queue).1,
      )

  before_null-some : (xs : List A) → before_null (map some xs) ≡ xs
  before_null-some [] = refl
  before_null-some (x ∷ xs) = ap (◌∷◌ x) (before_null-some xs)

  after_null-some : (xs : List A) → after_null (map some xs) ≡ []
  after_null-some [] = refl
  after_null-some (x ∷ xs) = after_null-some xs

  clear : Linked A → Linked A × List A
  clear l =
      let c = queue_clear_lem l.queue l.valid in
      (
        record {
          queue = (queue_clear l.queue).0;
          held = [];
          valid = c.0;
          holds = c.1 ∙ ap after_null l.holds ∙ after_null-some l.held;
          faithful = λ y. ap (λ c. node_data c (some y)) (copy-queue_clear l.queue) ∙ l.faithful y;
          releasing = rel-queue_clear l.queue ∙ l.releasing;
        },
        (queue_clear l.queue).1,
      )

  clear_all : (l : Linked A) → (queue_clear l.queue).1 ≡ l.held
  clear_all l =
      (queue_clear_lem l.queue l.valid).2
      ∙ ap (λ b. if b then before_null (contents l.queue) else []) l.releasing
      ∙ ap before_null l.holds
      ∙ before_null-some l.held

  length-some : (xs : List A) → length (map some xs) ≡ length xs
  length-some [] = refl
  length-some (x ∷ xs) = ap suc (length-some xs)

  -- The queues of src/queue.c as they are made by `queue_new` with a release routine.
  pub linked_fifo :
      (copy : Option (A → Copy A)) → ((x : A) → node_data copy (some x) ≡ copied (some x)) → Fifo A
  unfolding queue_init push pop clear
  linked_fifo copy faithful = record {
    Q = Linked A;
    new = record {
      queue = queue_init copy true;
      held = [];
      valid = queue_init-IsValid copy true;
      holds = refl;
      faithful = faithful;
      releasing = refl;
    };
    push = push;
    pop = pop;
    size = λ l. queue_size l.queue;
    clear = clear;
    contents = λ l. l.held;
    contents-new = refl;
    contents-push = λ l x. refl;
    contents-pop = λ l. refl;
    pop-head = λ l. (popped-head l.queue l.held l.holds (queue_pop_lem l.queue l.valid).1).1;
    size-length = λ l.
        (queue_reads l.queue l.valid).1
        ∙ ap (λ xs. pos (length xs)) l.holds
        ∙ ap pos (length-some l.held);
    contents-clear = λ l. refl;
    clear_released = clear_all;
  }
