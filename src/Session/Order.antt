-- ===== src/Session/Order.antt =====
-- src/lc_session.c: the jobs of a session run in order, one at a time, and none is forgotten.
use casting.Base.{
  ℕ, suc, ◌<◌, ◌≡◌, ◌⊎◌, inl, inr, refl, sym, ◌∙◌, ap, arith, true, false, none, some, List, [],
  ◌∷◌, ◌++◌, append_assoc, length, pos,
}
use casting.Fifo.{Fifo, head?, tail}
use casting.Task.{ready, running}
use casting.Session.{Job, Sess, enqueue, begin_run, began, end_run, rested}
use casting.Session.Turns.{
  State, listed, send, take_up, rest, Step, sends, takes, rests, Reachable, begin, after,
}

module _ (L : Type 0) {M : Type 0} (js : Fifo (Job M)) where
  abbrev pub queued : State L js → List (Job M)
  queued u = js.contents u.session.tasks

  -- One thread runs the session, or it is ready and submitted if it has a job.
  abbrev pub IsTurn : State L js → Type 0
  IsTurn u =
      ((u.session.status ≡ running) × (u.working ≡ 1))
      ⊎ ((u.session.status ≡ ready) × (u.working ≡ 0) × ((queued u ≡ []) ⊎ (0 < u.pending)))

  abbrev pub IsFair : State L js → Type 0
  IsFair u = (u.taken ++ queued u ≡ u.sent) × IsTurn u

  send-IsFair : (u : State L js) (j : Job M) → IsFair u → IsFair (send L js j u)
  unfolding send enqueue
  send-IsFair u j (o, inl (st, n)) =
      (rw (js.contents-push, sym (append_assoc u.taken (queued u) (j ∷ [])), o) refl, inl (st, n))
  send-IsFair u j (o, inr (st, n, w)) = (
    rw (js.contents-push, sym (append_assoc u.taken (queued u) (j ∷ [])), o) refl,
    rw st (inr (refl, n, inr (omega arith))),
  )

  -- The first of the queue, and the rest.
  split_first : (xs : List (Job M)) → listed L js (head? xs) ++ tail xs ≡ xs
  split_first [] = refl
  split_first (x ∷ xs) = refl

  pub begin_running : (s : Sess L js) → s.status ≡ running → begin_run L js s ≡ none
  unfolding begin_run
  begin_running s e = rw e refl

  pub begin_ready :
      (s : Sess L js)
      → s.status ≡ ready
      → begin_run L js s
        ≡ some (record s { status = running; tasks = (js.pop s.tasks).0 }, (js.pop s.tasks).1)
  unfolding begin_run
  begin_ready s e = ap (λ st. began L js st s) e

  pub end_empty :
      (s : Sess L js)
      → js.contents s.tasks ≡ []
      → end_run L js s ≡ (record s { status = ready; sem = suc s.sem }, false)
  unfolding end_run
  end_empty s e = ap (λ n. rested L js n s) (js.size-length s.tasks ∙ ap (λ xs. pos (length xs)) e)

  pub end_more :
      (s : Sess L js) (j : Job M) (more : List (Job M))
      → js.contents s.tasks ≡ j ∷ more
      → end_run L js s ≡ (record s { status = ready }, true)
  unfolding end_run
  end_more s j more e =
      ap (λ n. rested L js n s) (js.size-length s.tasks ∙ ap (λ xs. pos (length xs)) e)

  take-IsFair : (u : State L js) (n : ℕ) → IsFair u → IsFair (take_up L js n u)
  unfolding take_up
  take-IsFair u n (o, inl (st, w)) = rw (begin_running u.session st) (o, inl (st, w))
  take-IsFair u n (o, inr (st, w, q)) =
      rw (begin_ready u.session st, js.contents-pop, js.pop-head)
        (
          append_assoc u.taken _ _ ∙ ap (λ xs. u.taken ++ xs) (split_first (queued u)) ∙ o,
          inl (refl, ap suc w),
        )

  rest-IsFair : (u : State L js) (n : ℕ) → u.working ≡ suc n → IsFair u → IsFair (rest L js n u)
  unfolding rest
  rest-IsFair u n e (o, inr (st, w, q)) = absurd (omega arith)
  rest-IsFair u n e (o, inl (st, w)) = go (queued u) refl
    where
      go : (xs : List (Job M)) → queued u ≡ xs → IsFair (rest L js n u)
      go [] k = rw (end_empty u.session k) (o, inr (refl, omega arith, inl k))
      go (x ∷ xs) k = rw (end_more u.session x xs k) (o, inr (refl, omega arith, inr (omega arith)))

  pub Step-IsFair : {u v : State L js} → Step L js u v → IsFair u → IsFair v
  Step-IsFair (sends u j) f = send-IsFair u j f
  Step-IsFair (takes u n e) f = take-IsFair u n f
  Step-IsFair (rests u n e) f = rest-IsFair u n e f

  -- From a session that is ready and has no job, over any first-in-first-out queue, in any order
  -- of steps in which threads queue jobs (`session_queue_task`) and threads of the pool run the
  -- two halves of `session_run`: the jobs taken, in order, with those still queued, in order,
  -- are the jobs that were queued, in order. Either the session is running and just one thread
  -- runs it, or it is ready, no thread runs it, and it has no job or is submitted to the pool.
  pub Reachable-IsFair :
      (s : Sess L js) {u : State L js}
      → s.status ≡ ready
      → js.contents s.tasks ≡ []
      → Reachable L js s u
      → (u.taken ++ queued u ≡ u.sent)
        × (((u.session.status ≡ running) × (u.working ≡ 1))
            ⊎ ((u.session.status ≡ ready) × (u.working ≡ 0) × ((queued u ≡ []) ⊎ (0 < u.pending))))
  Reachable-IsFair s st e begin = (e, inr (st, refl, inl e))
  Reachable-IsFair s st e (after r p) = Step-IsFair p (Reachable-IsFair s st e r)
