-- ===== src/Pool/Serving.antt =====
-- src/lc_thread.c: one thread of the pool that meets no timeout finishes all jobs.
use casting.Base.{
  ℕ, zero, suc, ◌≡◌, refl, sym, ◌∙◌, ap, arith, true, some, List, [], ◌∷◌, ◌++◌, append-nil, length,
  ℤ,
}
use casting.Fifo.{Fifo, head?}
use casting.Pool.{Threads, lc_threadpool_new, next_job}
use casting.Pool.Steps.{State, take_job, wakes, takes, finishes, Reachable}
use casting.Pool.Bounds.{queued, IsSound, job_there, Step-IsSound, Reachable-IsSound}

module _ {J : Type 0} (js : Fifo J) where
  abbrev wake : ℕ → ℕ → State js → State js
  wake n k u = record u { pool = record u.pool { sem = k }; waiting = n; awake = suc u.awake }

  abbrev finish : ℕ → State js → State js
  finish b u = record u { busy = b; waiting = suc u.waiting }

  -- A thread passes the semaphore, takes a job, and finishes it.
  abbrev round_at : ℕ → ℕ → State js → State js
  round_at (suc n) (suc k) u = finish u.busy (take_job js u.awake (wake n k u))
  round_at n k u = u

  pub round : State js → State js
  round u = round_at u.waiting u.pool.sem u

  abbrev pub serve : ℕ → State js → State js
  serve zero u = u
  serve (suc n) u = serve n (round u)

  module _ (min max : ℤ) where
    taken_one :
        (u : State js) (n : ℕ)
        → u.awake ≡ suc n
        → IsSound js min max u
        → ((take_job js n u).busy ≡ suc u.busy)
          × ((take_job js n u).pool.sem ≡ u.pool.sem)
          × ((take_job js n u).waiting ≡ u.waiting)
          × ((take_job js n u).awake ≡ n)
          × ((take_job js n u).sent ≡ u.sent)
    unfolding take_job next_job
    taken_one u n e h =
        let (j, more, q) = job_there js min max u n e h in
        let first : (js.pop u.pool.jobs).1 ≡ some j = js.pop-head u.pool.jobs ∙ ap head? q in
        rw first (refl, refl, refl, refl, refl)

    round_lem :
        (u : State js) (n k : ℕ)
        → u.waiting ≡ suc n
        → u.pool.sem ≡ suc k
        → IsSound js min max u
        → IsSound js min max (round u)
          × ((round u).waiting ≡ suc n)
          × ((round u).pool.sem ≡ k)
          × ((round u).awake ≡ u.awake)
          × ((round u).sent ≡ u.sent)
    unfolding round
    round_lem u n k e f h =
        let v = wake n k u in
        let hv = Step-IsSound js min max (wakes u n k e f) h in
        let w = take_job js u.awake v in
        let hw = Step-IsSound js min max (takes v u.awake refl) hv in
        let (b, s, wt, a, st) = taken_one v u.awake refl hv in
        rw (e, f) (Step-IsSound js min max (finishes w u.busy b) hw, ap suc wt, s, a, st)

    serves :
        (k : ℕ) (u : State js) (n : ℕ)
        → u.waiting ≡ suc n
        → u.awake ≡ 0
        → u.pool.sem ≡ k
        → IsSound js min max u
        → (queued js (serve k u) ≡ []) × ((serve k u).taken ≡ u.sent)
    serves zero u n e a f h = go (queued js u) refl
      where
        go : (xs : List J) → queued js u ≡ xs → (queued js u ≡ []) × (u.taken ≡ u.sent)
        go [] q = (q, sym (append-nil u.taken) ∙ ap (λ xs. u.taken ++ xs) (sym q) ∙ h.ordered)
        go (x ∷ xs) q = absurd (let posted = h.posted ∙ ap length q in omega arith)
    serves (suc k) u n e a f h =
        let (hr, er, fr, ar, sr) = round_lem u n k e f h in
        let (empty, all) = serves k (round u) n er (ar ∙ a) fr hr in (empty, all ∙ sr)

    -- In every state that a new pool reaches in which a thread waits and none is between the
    -- semaphore and the queue, as many rounds of one thread without a timeout as the semaphore's
    -- value empty the queue: then the jobs taken are all those submitted, in order.
    pub serve_all :
        (p : Threads js) (u : State js) (n : ℕ)
        → lc_threadpool_new js true min max ≡ some p
        → Reachable js p u
        → u.waiting ≡ suc n
        → u.awake ≡ 0
        → (queued js (serve u.pool.sem u) ≡ []) × ((serve u.pool.sem u).taken ≡ u.sent)
    serve_all p u n e r w a = serves u.pool.sem u n w a refl (Reachable-IsSound js min max p e r)
