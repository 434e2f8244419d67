-- ===== src/Queue/Laws.antt =====
-- src/queue.c: a valid queue is the list of its data, first in first out.
use casting.Base.{
  ℕ, suc, ◌≡◌, ◌≢◌, refl, sym, ap, ◌∙◌, arith, Bool, Option, none, some, List, [], ◌∷◌, ◌++◌, map,
  All, All-append, subst, ◌⊎◌, inl, inr, length, length-append, pos, succ, pred, success,
  if◌then◌else◌,
}
use casting.Map.Node.{Copy, copied}
use casting.Queue.Chain.{Node, link_after, is_node}
use casting.Queue.{
  Queue, pushed, queue_init, node_data, queue_push, queue_pop, append, push_node, pop_from,
}

module _ {ℓ} {A : Type ℓ} where
  abbrev pub contents : Queue A → List (Option A)
  contents q = map (λ n. n.item) q.chain

  -- The address of the last node.
  abbrev pub last : List (Node A) → Option ℕ
  last [] = none
  last (x ∷ []) = some x.addr
  last (x ∷ (y ∷ chain)) = last (y ∷ chain)

  -- No node of the chain stands at the address.
  abbrev pub IsFree : ℕ → List (Node A) → Type 0
  IsFree a = All (λ n. n.addr ≢ a)

  abbrev pub Distinct : List (Node A) → Type 0
  Distinct [] = Unit
  Distinct (x ∷ chain) = IsFree x.addr chain × Distinct chain

  pub record IsValid (q : Queue A) : Type 0 where
    pub tailed : q.tail ≡ last q.chain
    pub distinct : Distinct q.chain
    pub counted : q.size ≡ pos (length q.chain)

  pub queue_init-IsValid : (copy : Option (A → Copy A)) (rel : Bool) → IsValid (queue_init copy rel)
  unfolding queue_init
  queue_init-IsValid copy rel = record { tailed = refl; distinct = tt; counted = refl }

  pub last-ne-none : (x : Node A) (chain : List (Node A)) → last (x ∷ chain) ≢ none
  last-ne-none x [] e = cc
  last-ne-none x (y ∷ chain) e = last-ne-none y chain e

  last-ne-some : (a : ℕ) (chain : List (Node A)) → IsFree a chain → last chain ≢ some a
  last-ne-some a [] f e = cc
  last-ne-some a (x ∷ []) f e = f.0 (ground arith)
  last-ne-some a (x ∷ (y ∷ chain)) f e = last-ne-some a (y ∷ chain) f.1 e

  link_after-skip :
      (p : Option ℕ) (n x : Node A) (chain : List (Node A))
      → p ≢ none
      → p ≢ some x.addr
      → link_after p n (x ∷ chain) ≡ x ∷ link_after p n chain
  unfolding link_after
  link_after-skip none n x chain h k = absurd (h refl)
  link_after-skip (some a) n x chain h k = ground arith

  -- The link after the last node is the node at the end.
  link_after-last :
      (n : Node A) (chain : List (Node A))
      → Distinct chain
      → link_after (last chain) n chain ≡ chain ++ (n ∷ [])
  unfolding link_after
  link_after-last n [] d = refl
  link_after-last n (x ∷ []) d = ground arith
  link_after-last n (x ∷ (y ∷ chain)) d =
      link_after-skip (last (y ∷ chain)) n x (y ∷ chain) (last-ne-none y chain)
        (last-ne-some x.addr (y ∷ chain) d.0)
      ∙ ap (◌∷◌ x) (link_after-last n (y ∷ chain) d.1)

  last-append : (n : Node A) (chain : List (Node A)) → last (chain ++ (n ∷ [])) ≡ some n.addr
  last-append n [] = refl
  last-append n (x ∷ []) = refl
  last-append n (x ∷ (y ∷ chain)) = last-append n (y ∷ chain)

  Distinct-append :
      (n : Node A) (chain : List (Node A))
      → Distinct chain
      → IsFree n.addr chain
      → Distinct (chain ++ (n ∷ []))
  Distinct-append n [] d f = (tt, tt)
  Distinct-append n (x ∷ chain) d f =
      (All-append _ chain (n ∷ []) d.0 ((λ e. f.0 (sym e)), tt), Distinct-append n chain d.1 f.1)

  map-append_item :
      (n : Node A) (chain : List (Node A))
      → map (λ m. m.item) (chain ++ (n ∷ [])) ≡ map (λ m. m.item) chain ++ (n.item ∷ [])
  map-append_item n [] = refl
  map-append_item n (x ∷ chain) = ap (◌∷◌ x.item) (map-append_item n chain)

  -- On a valid queue, a push with a node at an address that the chain does not hold, and with a
  -- copy `d` of the data (or the data itself), returns SUCCESS. The new queue is valid, has `d`
  -- behind the old contents, and has the same copy and release callbacks.
  pub queue_push_lem :
      (q : Queue A) (a : ℕ) (x d : Option A)
      → IsValid q
      → IsFree a q.chain
      → node_data q.copy x ≡ copied d
      → (r : Queue A) × (queue_push (some a) q x ≡ pushed r success)
        × IsValid r
        × (contents r ≡ contents q ++ (d ∷ []))
        × (r.copy ≡ q.copy)
        × (r.rel ≡ q.rel)
  unfolding queue_push append
  queue_push_lem q a x d v f e = (append q a d, ap (push_node q a) e, valid, entries, refl, refl)
    where
      n : Node A
      n = record { addr = a; item = d }

      linked : (append q a d).chain ≡ q.chain ++ (n ∷ [])
      linked = rw v.tailed (link_after-last n q.chain v.distinct)

      entries : contents (append q a d) ≡ contents q ++ (d ∷ [])
      entries = ap (map (λ m. m.item)) linked ∙ map-append_item n q.chain

      valid : IsValid (append q a d)
      valid = record {
        tailed = rw linked (sym (last-append n q.chain));
        distinct = rw linked (Distinct-append n q.chain v.distinct f);
        counted =
            ap succ v.counted
            ∙ ap pos (omega (arith, length-append q.chain (n ∷ [])))
            ∙ sym (ap (λ c. pos (length c)) linked);
      }

  is_node-last :
      (n : Node A) (rest : List (Node A))
      → IsFree n.addr rest
      → (if is_node (last (n ∷ rest)) n.addr then none else last (n ∷ rest)) ≡ last rest
  unfolding is_node
  is_node-last n [] f = ground arith
  is_node-last n (y ∷ rest) f = go (last (y ∷ rest)) (last-ne-some n.addr (y ∷ rest) f)
    where
      go : (p : Option ℕ) → p ≢ some n.addr → (if is_node p n.addr then none else p) ≡ p
      go none h = refl
      go (some b) h = ground arith

  -- What a pop does to a valid queue: it takes the first data, or returns NULL and changes nothing.
  abbrev pub Pops : Queue A → Queue A × Option A → Type ℓ
  Pops q (r, x) =
      ((contents q ≡ []) × (r ≡ q) × (x ≡ none))
      ⊎ ((contents q ≡ x ∷ contents r) × (q.size ≡ succ r.size))

  pop_from-Pops :
      (q : Queue A) (chain : List (Node A))
      → IsValid q
      → q.chain ≡ chain
      → IsValid (pop_from q chain).0 × Pops q (pop_from q chain)
  unfolding pop_from
  pop_from-Pops q [] v e = (v, inl (ap (map (λ n. n.item)) e, refl, refl))
  pop_from-Pops q (n ∷ rest) v e = (
    record { tailed = tailed; distinct = fresh.1; counted = ap pred count },
    inr (ap (map (λ m. m.item)) e, count ∙ sym (ap (λ k. succ (pred k)) count)),
  )
    where
      count : q.size ≡ pos (suc (length rest))
      count = v.counted ∙ ap (λ c. pos (length c)) e

      fresh : Distinct (n ∷ rest)
      fresh = subst Distinct e v.distinct

      tailed : (if is_node q.tail n.addr then none else q.tail) ≡ last rest
      tailed =
          ap (λ p. if is_node p n.addr then none else p) (v.tailed ∙ ap last e)
          ∙ is_node-last n rest fresh.0

  -- A pop leaves a valid queue valid. On an empty queue it changes nothing and returns NULL;
  -- else it returns the first of the contents and leaves the others, and the size goes down by
  -- one.
  pub queue_pop_lem : (q : Queue A) → IsValid q → IsValid (queue_pop q).0 × Pops q (queue_pop q)
  unfolding queue_pop
  queue_pop_lem q v = pop_from-Pops q q.chain v refl

  pub length-items : (chain : List (Node A)) → length (map (λ n. n.item) chain) ≡ length chain
  length-items [] = refl
  length-items (x ∷ chain) = ap suc (length-items chain)

  pub rel-queue_pop : (q : Queue A) → (queue_pop q).0.rel ≡ q.rel
  unfolding queue_pop pop_from
  rel-queue_pop q = go q.chain
    where
      go : (chain : List (Node A)) → (pop_from q chain).0.rel ≡ q.rel
      go [] = refl
      go (n ∷ rest) = refl

  pub copy-queue_pop : (q : Queue A) → (queue_pop q).0.copy ≡ q.copy
  unfolding queue_pop pop_from
  copy-queue_pop q = go q.chain
    where
      go : (chain : List (Node A)) → (pop_from q chain).0.copy ≡ q.copy
      go [] = refl
      go (n ∷ rest) = refl
