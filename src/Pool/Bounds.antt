-- ===== src/Pool/Bounds.antt =====
-- src/lc_thread.c: the counts of the pool.
use casting.Base.{
  ℕ, suc, ◌+◌, ◌≤◌, ◌<◌, ◌≡◌, ◌⊎◌, inl, inr, refl, sym, ◌∙◌, ap, subst, arith, Bool, true, false,
  Bool-cases, Option, none, some, List, [], ◌∷◌, ◌++◌, append_assoc, length, length-append, ℤ, pos,
  negsuc, succ, pred, if-elim, ◌&&◌, success,
}
use casting.Fifo.{Fifo, head?, tail}
use casting.Pool.{
  Threads, lc_threadpool_new, wants_thread, submitted, lc_threadpool_run, gives_up, next_job,
  thread_ends,
}
use casting.Pool.Steps.{
  State, submit, take_job, time_out, Step, submits, wakes, times_out, takes, finishes, leaves,
  begin_with, Reachable, begin, after,
}

module _ {J : Type 0} (js : Fifo J) where
  abbrev pub queued : State js → List J
  queued u = js.contents u.pool.jobs

  -- The threads that the pool counts.
  abbrev pub alive : State js → ℕ
  alive u = u.waiting + u.awake + u.busy + u.leaving

  -- The greater of two bounds, as a number of threads.
  abbrev pub to_ℕ : ℤ → ℕ
  to_ℕ (pos n) = n
  to_ℕ (negsuc n) = 0

  pub record IsSound (min max : ℤ) (u : State js) : Type 0 where
    pub ordered : u.taken ++ queued u ≡ u.sent
    pub posted : u.pool.sem + u.awake ≡ length (queued u)
    pub counted : u.pool.threads ≡ pos (alive u)
    pub min_kept : u.pool.min_threads ≡ min
    pub max_kept : u.pool.max_threads ≡ max
    pub bounded : (alive u ≤ to_ℕ min) ⊎ (alive u ≤ to_ℕ max)

  module _ (min max : ℤ) where
    -- A thread is started below one of the bounds.
    wants_below :
        (p : Threads js) (n : ℕ)
        → p.threads ≡ pos n
        → wants_thread js p ≡ true
        → (n < to_ℕ p.min_threads) ⊎ (n < to_ℕ p.max_threads)
    unfolding wants_thread
    wants_below p n e h = ground arith

    within : {k n a b : ℕ} → k ≤ n → (n ≤ a) ⊎ (n ≤ b) → (k ≤ a) ⊎ (k ≤ b)
    within h (inl l) = inl (omega arith)
    within h (inr l) = inr (omega arith)

    grown : {k n a b x y : ℕ} → x ≡ a → y ≡ b → (n < x) ⊎ (n < y) → k ≤ suc n → (k ≤ a) ⊎ (k ≤ b)
    grown e f (inl l) h = inl (omega arith)
    grown e f (inr l) h = inr (omega arith)

    and_left : (a b : Bool) → (a && b) ≡ true → a ≡ true
    and_left a b h = ground arith

    ordered_push :
        (u : State js) (j : J)
        → IsSound min max u
        → u.taken ++ js.contents (js.push u.pool.jobs j) ≡ u.sent ++ (j ∷ [])
    ordered_push u j h =
        ap (λ xs. u.taken ++ xs) (js.contents-push u.pool.jobs j)
        ∙ sym (append_assoc u.taken (queued u) (j ∷ []))
        ∙ ap (λ xs. xs ++ (j ∷ [])) h.ordered

    posted_push :
        (u : State js) (j : J)
        → IsSound min max u
        → suc u.pool.sem + u.awake ≡ length (js.contents (js.push u.pool.jobs j))
    posted_push u j h =
        rw (js.contents-push, length-append)
          (let posted : u.pool.sem + u.awake ≡ length (queued u) = h.posted in omega arith)

    run_starts :
        (created : Bool) (j : J) (p : Threads js)
        → (wants_thread js (submitted js j p) && created) ≡ true
        → lc_threadpool_run js created j p
          ≡ ((record (submitted js j p) { threads = succ p.threads }, true), success)
    unfolding lc_threadpool_run
    run_starts created j p e = rw e refl

    run_keeps :
        (created : Bool) (j : J) (p : Threads js)
        → (wants_thread js (submitted js j p) && created) ≡ false
        → lc_threadpool_run js created j p ≡ ((submitted js j p, false), success)
    unfolding lc_threadpool_run
    run_keeps created j p e = rw e refl

    submit-IsSound :
        (u : State js) (created : Bool) (j : J)
        → IsSound min max u
        → IsSound min max (submit js created j u)
    unfolding submit
    submit-IsSound u created j h =
        elim (Bool-cases (wants_thread js (submitted js j u.pool) && created)) [
          | inl e ↦
              let below =
                wants_below (submitted js j u.pool) (alive u) h.counted
                  (and_left (wants_thread js (submitted js j u.pool)) created e) in
              rw (run_starts created j u.pool e) (record {
                ordered = ordered_push u j h;
                posted = posted_push u j h;
                counted = ap succ h.counted ∙ ap pos (omega arith);
                min_kept = h.min_kept;
                max_kept = h.max_kept;
                bounded = grown (ap to_ℕ h.min_kept) (ap to_ℕ h.max_kept) below (omega arith);
              })
          | inr e ↦ rw (run_keeps created j u.pool e) (record {
            ordered = ordered_push u j h;
            posted = posted_push u j h;
            counted = h.counted ∙ ap pos (omega arith);
            min_kept = h.min_kept;
            max_kept = h.max_kept;
            bounded = within (omega arith) h.bounded;
          })
        ]

    wake-IsSound :
        (u : State js) (n k : ℕ)
        → u.waiting ≡ suc n
        → u.pool.sem ≡ suc k
        → IsSound min max u
        → IsSound min max
            (record u { pool = record u.pool { sem = k }; waiting = n; awake = suc u.awake })
    wake-IsSound u n k e f h = record {
      ordered = h.ordered;
      posted = omega (arith, h.posted);
      counted = h.counted ∙ ap pos (omega arith);
      min_kept = h.min_kept;
      max_kept = h.max_kept;
      bounded = within (omega arith) h.bounded;
    }

    time_out-IsSound :
        (u : State js) (n : ℕ)
        → u.waiting ≡ suc n
        → IsSound min max u
        → IsSound min max (time_out js n u)
    unfolding time_out
    time_out-IsSound u n e h =
        if-elim (IsSound min max) (gives_up js u.pool) _ u
          (record {
            ordered = h.ordered;
            posted = h.posted;
            counted = h.counted ∙ ap pos (omega arith);
            min_kept = h.min_kept;
            max_kept = h.max_kept;
            bounded = within (omega arith) h.bounded;
          })
          h

    -- A thread that has passed the semaphore finds a job.
    pub job_there :
        (u : State js) (n : ℕ)
        → u.awake ≡ suc n
        → IsSound min max u
        → (j : J) × (more : List J) × (queued u ≡ j ∷ more)
    job_there u n e h = go (queued u) refl
      where
        go : (xs : List J) → queued u ≡ xs → (j : J) × (more : List J) × (queued u ≡ j ∷ more)
        go [] k = absurd (let posted = h.posted ∙ ap length k in omega arith)
        go (x ∷ xs) k = (x, xs, k)

    pub take-IsSound :
        (u : State js) (n : ℕ)
        → u.awake ≡ suc n
        → IsSound min max u
        → IsSound min max (take_job js n u)
    unfolding take_job next_job
    take-IsSound u n e h =
        let (j, more, q) = job_there u n e h in
        let left : js.contents (js.pop u.pool.jobs).0 ≡ more =
          js.contents-pop u.pool.jobs ∙ ap tail q in
        let first : (js.pop u.pool.jobs).1 ≡ some j = js.pop-head u.pool.jobs ∙ ap head? q in
        let posted : u.pool.sem + u.awake ≡ suc (length more) = h.posted ∙ ap length q in
        rw first (record {
          ordered =
              append_assoc u.taken (j ∷ []) _
              ∙ ap (λ xs. u.taken ++ (j ∷ xs)) left
              ∙ ap (λ xs. u.taken ++ xs) (sym q)
              ∙ h.ordered;
          posted = rw left (omega arith);
          counted = h.counted ∙ ap pos (omega arith);
          min_kept = h.min_kept;
          max_kept = h.max_kept;
          bounded = within (omega arith) h.bounded;
        })

    pred_pos : (n : ℤ) (k : ℕ) → n ≡ pos (suc k) → pred n ≡ pos k
    pred_pos n k e = ap pred e

    pub Step-IsSound : {u v : State js} → Step js u v → IsSound min max u → IsSound min max v
    unfolding thread_ends
    Step-IsSound (submits u created j) h = submit-IsSound u created j h
    Step-IsSound (wakes u n k e f) h = wake-IsSound u n k e f h
    Step-IsSound (times_out u n e) h = time_out-IsSound u n e h
    Step-IsSound (takes u n e) h = take-IsSound u n e h
    Step-IsSound (finishes u n e) h = record {
      ordered = h.ordered;
      posted = h.posted;
      counted = h.counted ∙ ap pos (omega arith);
      min_kept = h.min_kept;
      max_kept = h.max_kept;
      bounded = within (omega arith) h.bounded;
    }
    Step-IsSound (leaves u n e) h = record {
      ordered = h.ordered;
      posted = h.posted;
      counted = pred_pos _ _ (h.counted ∙ ap pos (omega arith));
      min_kept = h.min_kept;
      max_kept = h.max_kept;
      bounded = within (omega arith) h.bounded;
    }

    abbrev Begins : Option (Threads js) → Type 0
    Begins none = Unit
    Begins (some p) = IsSound min max (begin_with js p)

    new-Begins : Begins (lc_threadpool_new js true min max)
    unfolding lc_threadpool_new
    new-Begins = record {
      ordered = js.contents-new;
      posted = sym (ap length js.contents-new);
      counted = refl;
      min_kept = refl;
      max_kept = refl;
      bounded = inl (omega arith);
    }

    -- For a new pool, over any first-in-first-out queue, in any order of submissions, wakings,
    -- timeouts, takings, ends of jobs and ends of threads: the jobs taken and the jobs queued
    -- are, in order, the jobs submitted; the semaphore's value and the threads that have passed
    -- it are together as many as the queued jobs; `threads` is the number of threads that have
    -- not been counted off; the bounds are those of the start; and there are no more threads
    -- than the greater of the two bounds.
    pub Reachable-IsSound :
        (p : Threads js) {u : State js}
        → lc_threadpool_new js true min max ≡ some p
        → Reachable js p u
        → IsSound min max u
    Reachable-IsSound p e begin = subst Begins e new-Begins
    Reachable-IsSound p e (after r s) = Step-IsSound s (Reachable-IsSound p e r)

    -- finds
    pub next_job_finds :
        (p : Threads js) (u : State js) (n : ℕ)
        → lc_threadpool_new js true min max ≡ some p
        → Reachable js p u
        → u.awake ≡ suc n
        → (j : J) × (more : List J) × (queued u ≡ j ∷ more)
          × ((next_job js u.pool).1 ≡ some j)
          × (u.taken ++ (j ∷ more) ≡ u.sent)
    unfolding next_job
    next_job_finds p u n e r a =
        let h = Reachable-IsSound p e r in
        let (j, more, q) = job_there u n a h in
        (
          j,
          more,
          q,
          js.pop-head u.pool.jobs ∙ ap head? q,
          ap (λ xs. u.taken ++ xs) (sym q) ∙ h.ordered,
        )
