-- ===== src/Queue/Clear.antt =====
-- src/queue.c: `queue_clear` stops behind the first NULL that the queue holds.
use casting.Base.{
  ℕ, zero, suc, ◌<◌, ◌≡◌, refl, sym, ap, ◌∙◌, arith, Bool, true, false, subst, Option, none, some,
  List, [], ◌∷◌, length, inl, inr, if◌then◌else◌,
}
use casting.Queue.{Queue, queue_pop, clear_round, clear_loop, queue_clear}
use casting.Queue.Laws.{
  IsValid, contents, Pops, queue_pop_lem, length-items, rel-queue_pop, copy-queue_pop,
}

module _ {ℓ} {A : Type ℓ} where
  -- The data before the first NULL, and what stands after it.
  abbrev pub before_null : List (Option A) → List A
  before_null [] = []
  before_null (none ∷ xs) = []
  before_null (some x ∷ xs) = x ∷ before_null xs

  abbrev pub after_null : List (Option A) → List (Option A)
  after_null [] = []
  after_null (none ∷ xs) = xs
  after_null (some x ∷ xs) = after_null xs

  abbrev Clears : List (Option A) → Bool → Queue A × List A → Type ℓ
  Clears xs rel (r, released) =
      IsValid r × (contents r ≡ after_null xs) × (released ≡ (if rel then before_null xs else []))

  clear_round-Clears :
      (rel : Bool) (popped : Queue A) (item : Option A) (rest : Queue A × List A)
      → IsValid popped
      → Clears (contents popped) rel rest
      → Clears (item ∷ contents popped) rel (clear_round rel popped item rest)
  unfolding clear_round
  clear_round-Clears true popped none rest v c = (v, refl, refl)
  clear_round-Clears false popped none rest v c = (v, refl, refl)
  clear_round-Clears true popped (some d) rest v c = (c.0, c.1, ap (◌∷◌ d) c.2)
  clear_round-Clears false popped (some d) rest v c = c

  clear_round-Clears_empty :
      (rel : Bool) (popped : Queue A) (item : Option A) (rest : Queue A × List A)
      → IsValid popped
      → item ≡ none
      → contents popped ≡ []
      → Clears [] rel (clear_round rel popped item rest)
  unfolding clear_round
  clear_round-Clears_empty true popped none rest v n e = (v, e, refl)
  clear_round-Clears_empty false popped none rest v n e = (v, e, refl)
  clear_round-Clears_empty rel popped (some d) rest v n e = cc

  clear_loop-Clears :
      (fuel : ℕ) (q : Queue A)
      → IsValid q
      → length (contents q) < fuel
      → Clears (contents q) q.rel (clear_loop fuel q)
  unfolding clear_loop
  clear_loop-Clears zero q v h = absurd (omega arith)
  clear_loop-Clears (suc fuel) q v h =
      go (clear_loop-Clears fuel (queue_pop q).0) (queue_pop_lem q v)
    where
      r : Queue A
      r = (queue_pop q).0

      Round : List (Option A) → Type ℓ
      Round xs = Clears xs q.rel (clear_round q.rel r (queue_pop q).1 (clear_loop fuel r))

      go :
          (IsValid r → length (contents r) < fuel → Clears (contents r) r.rel (clear_loop fuel r))
          → IsValid r × Pops q (queue_pop q)
          → Round (contents q)
      go ih (w, inl (e, k, n)) = subst Round (sym e) (
          clear_round-Clears_empty q.rel r (queue_pop q).1 (clear_loop fuel r) w n
            (ap contents k ∙ e))
      go ih (w, inr (e, _)) = subst Round (sym e) (
          clear_round-Clears q.rel r (queue_pop q).1 (clear_loop fuel r) w (
            subst (λ b. Clears (contents r) b (clear_loop fuel r)) (rel-queue_pop q)
              (ih w (omega (arith, ap length e)))))

  -- The clearing of a valid queue ends. It leaves a valid queue of what stands behind the first
  -- NULL of the contents, and hands all that stands before it, in order, to the release
  -- callback, if there is one.
  pub queue_clear_lem :
      (q : Queue A)
      → IsValid q
      → IsValid (queue_clear q).0
        × (contents (queue_clear q).0 ≡ after_null (contents q))
        × ((queue_clear q).1 ≡ (if q.rel then before_null (contents q) else []))
  unfolding queue_clear
  queue_clear_lem q v =
      clear_loop-Clears (suc (length q.chain)) q v (omega (arith, length-items q.chain))

  clear_round-keeps {κ} :
      {B : Type κ} (f : Queue A → B) (rel : Bool) (popped : Queue A) (item : Option A)
      (rest : Queue A × List A)
      → f rest.0 ≡ f popped
      → f (clear_round rel popped item rest).0 ≡ f popped
  unfolding clear_round
  clear_round-keeps f rel popped none rest h = refl
  clear_round-keeps f rel popped (some d) rest h = h

  clear_loop-keeps {κ} :
      {B : Type κ} (f : Queue A → B)
      → ((q : Queue A) → f (queue_pop q).0 ≡ f q)
      → (fuel : ℕ) (q : Queue A) → f (clear_loop fuel q).0 ≡ f q
  unfolding clear_loop
  clear_loop-keeps f h zero q = refl
  clear_loop-keeps f h (suc fuel) q =
      clear_round-keeps f q.rel (queue_pop q).0 (queue_pop q).1 (clear_loop fuel (queue_pop q).0)
        (clear_loop-keeps f h fuel (queue_pop q).0)
      ∙ h q

  -- A clearing leaves the copy routine.
  pub copy-queue_clear : (q : Queue A) → (queue_clear q).0.copy ≡ q.copy
  unfolding queue_clear
  copy-queue_clear q = clear_loop-keeps (λ r. r.copy) copy-queue_pop (suc (length q.chain)) q

  pub rel-queue_clear : (q : Queue A) → (queue_clear q).0.rel ≡ q.rel
  unfolding queue_clear
  rel-queue_clear q = clear_loop-keeps (λ r. r.rel) rel-queue_pop (suc (length q.chain)) q
