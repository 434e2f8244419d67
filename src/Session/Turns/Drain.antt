-- ===== src/Session/Turns/Drain.antt =====
-- src/lc_session.c: the pool alone finishes what was queued for a session.
use casting.Base.{
  ℕ, zero, suc, ◌+◌, ◌*◌, ◌≤◌, ◌<◌, ◌≡◌, ◌⊎◌, inl, inr, refl, sym, ◌∙◌, ap, subst, arith, List, [],
  ◌∷◌, ◌++◌, append-nil, length,
}
use casting.Fifo.{Fifo}
use casting.Task.{ready}
use casting.Session.{Job, Sess}
use casting.Session.Turns.{State, take_up, rest, takes, rests, Reachable}
use casting.Session.Order.{
  queued, IsFair, begin_ready, end_empty, end_more, Step-IsFair, Reachable-IsFair,
}

module _ (L : Type 0) {M : Type 0} (js : Fifo (Job M)) where
  abbrev once_at : ℕ → ℕ → State L js → State L js
  once_at (suc n) p u = rest L js n u
  once_at zero (suc n) u = take_up L js n u
  once_at zero zero u = u

  -- A thread of the pool goes on with the run it is in, or else takes the session, if it is submitted.
  pub once : State L js → State L js
  once u = once_at u.working u.pending u

  abbrev pub work : ℕ → State L js → State L js
  work zero u = u
  work (suc fuel) u = work fuel (once u)

  abbrev under_way : ℕ → List (Job M) → ℕ
  under_way zero js = 0
  under_way (suc n) [] = 1
  under_way (suc n) (j ∷ more) = 3

  -- A bound for the rounds that are left.
  abbrev pub rounds : State L js → ℕ
  rounds u = 2 * u.pending + 2 * length (queued L js u) + under_way u.working (queued L js u)

  -- A round of a running session, and of one that is submitted.
  rest_less :
      (u : State L js) (n : ℕ) → u.working ≡ suc n → n ≡ 0 → rounds (rest L js n u) < rounds u
  unfolding rest
  rest_less u n e z = go (queued L js u) refl
    where
      go : (xs : List (Job M)) → queued L js u ≡ xs → rounds (rest L js n u) < rounds u
      go [] k = rw (end_empty L js u.session k, e, k, z) (omega arith)
      go (x ∷ xs) k = rw (end_more L js u.session x xs k, e, k, z) (omega arith)

  take_less :
      (u : State L js) (n : ℕ)
      → u.working ≡ 0
      → u.pending ≡ suc n
      → u.session.status ≡ ready
      → rounds (take_up L js n u) < rounds u
  unfolding take_up
  take_less u n w e st = go (queued L js u) refl
    where
      go : (xs : List (Job M)) → queued L js u ≡ xs → rounds (take_up L js n u) < rounds u
      go [] k = rw (begin_ready L js u.session st, js.contents-pop, k, w, e) (omega arith)
      go (x ∷ []) k = rw (begin_ready L js u.session st, js.contents-pop, k, w, e) (omega arith)
      go (x ∷ y ∷ more) k =
          rw (begin_ready L js u.session st, js.contents-pop, k, w, e) (omega arith)

  -- Nothing is left to do.
  abbrev IsDrained : State L js → List (Job M) → Type 0
  IsDrained u sent =
      (queued L js u ≡ []) × (u.taken ≡ sent) × (u.working ≡ 0) × (u.session.status ≡ ready)

  rest_sent : (u : State L js) (n : ℕ) → (rest L js n u).sent ≡ u.sent
  unfolding rest
  rest_sent u n = refl

  take_sent : (u : State L js) (n : ℕ) → u.session.status ≡ ready → (take_up L js n u).sent ≡ u.sent
  unfolding take_up
  take_sent u n st = rw (begin_ready L js u.session st) refl

  idle-IsDrained :
      (u : State L js)
      → u.taken ++ queued L js u ≡ u.sent
      → u.session.status ≡ ready
      → u.working ≡ 0
      → queued L js u ≡ []
      → IsDrained u u.sent
  idle-IsDrained u o st w k =
      (k, sym (append-nil u.taken) ∙ ap (λ xs. u.taken ++ xs) (sym k) ∙ o, w, st)

  busy : (n : ℕ) (xs : List (Job M)) → 0 < under_way (suc n) xs
  busy n [] = omega arith
  busy n (x ∷ xs) = omega arith

  once_rests : (u : State L js) → u.working ≡ 1 → once u ≡ rest L js 0 u
  unfolding once
  once_rests u w = ap (λ k. once_at k u.pending u) w

  once_takes :
      (u : State L js) (n : ℕ) → u.working ≡ 0 → u.pending ≡ suc n → once u ≡ take_up L js n u
  unfolding once
  once_takes u n w e = ap (λ k. once_at k u.pending u) w ∙ ap (λ p. once_at 0 p u) e

  once_stays : (u : State L js) → u.working ≡ 0 → u.pending ≡ 0 → once u ≡ u
  unfolding once
  once_stays u w e = ap (λ k. once_at k u.pending u) w ∙ ap (λ p. once_at 0 p u) e

  none_left :
      (u : State L js) {n : ℕ} → u.working ≡ 0 → u.pending ≡ 0 → queued L js u ≡ [] → rounds u ≤ n
  none_left u w e k = rw (e, w, k) (omega arith)

  moved :
      (fuel : ℕ) (u v : State L js)
      → once u ≡ v
      → v.sent ≡ u.sent
      → IsDrained (work fuel v) v.sent
      → IsDrained (work fuel (once u)) u.sent
  moved fuel u v e k h =
      subst (λ t. IsDrained (work fuel t) u.sent) (sym e)
        (subst (λ xs. IsDrained (work fuel v) xs) k h)

  drains :
      (fuel : ℕ) (u : State L js) → IsFair L js u → rounds u ≤ fuel → IsDrained (work fuel u) u.sent
  drains zero u (o, inl (st, w)) h =
      let some_left : 0 < under_way u.working (queued L js u) = rw w (busy 0 (queued L js u)) in
      absurd (omega arith)
  drains zero u (o, inr (st, w, inl k)) h = idle-IsDrained u o st w k
  drains zero u (o, inr (st, w, inr p)) h = absurd (omega arith)
  drains (suc fuel) u (o, inl (st, w)) h =
      let less = rest_less u 0 w refl in
      moved fuel u _ (once_rests u w) (rest_sent u 0) (
        drains fuel (rest L js 0 u) (Step-IsFair L js (rests u 0 w) (o, inl (st, w))) (omega arith))
  drains (suc fuel) u (o, inr (st, w, q)) h = go (λ v f k. drains fuel v f k) u.pending refl q
    where
      go :
          ((v : State L js) → IsFair L js v → rounds v ≤ fuel → IsDrained (work fuel v) v.sent)
          → (p : ℕ) → u.pending ≡ p
          → (queued L js u ≡ []) ⊎ (0 < u.pending)
          → IsDrained (work fuel (once u)) u.sent
      go again (suc n) e q =
          let less = take_less u n w e st in
          moved fuel u _ (once_takes u n w e) (take_sent u n st) (
            again (take_up L js n u) (Step-IsFair L js (takes u n e) (o, inr (st, w, q)))
              (omega arith))
      go again zero e (inr h) = absurd (omega arith)
      go again zero e (inl k) =
          moved fuel u _ (once_stays u w e) refl
            (again u (o, inr (st, w, inl k)) (none_left u w e k))

  -- From every state that a session, ready and without a job at first, reaches in any order of
  -- such steps of threads that queue jobs and threads that run it, the pool alone, in as many
  -- rounds as twice the pending submissions and twice the queued jobs, and up to three for a run
  -- that is under way, takes all jobs in the order in which they were queued, and leaves the
  -- session ready, with an empty queue and no thread in it.
  pub work-drains :
      (s : Sess L js) (u : State L js) (fuel : ℕ)
      → s.status ≡ ready
      → js.contents s.tasks ≡ []
      → Reachable L js s u
      → rounds u ≤ fuel
      → (queued L js (work fuel u) ≡ [])
        × ((work fuel u).taken ≡ u.sent)
        × ((work fuel u).working ≡ 0)
        × ((work fuel u).session.status ≡ ready)
  work-drains s u fuel st e r h = drains fuel u (Reachable-IsFair L js s st e r) h
