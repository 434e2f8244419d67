-- ===== src/Pool/Steps.antt =====
-- src/lc_thread.c: the pool between the threads that submit jobs and its own, in any order of steps.
use casting.Base.{
  ℕ, suc, ◌+◌, ◌≡◌, Bool, true, false, Option, none, some, List, [], ◌∷◌, ◌++◌, if◌then◌else◌,
}
use casting.Fifo.{Fifo}
use casting.Pool.{Threads, lc_threadpool_run, gives_up, next_job, thread_ends}

module _ {J : Type 0} (js : Fifo J) where
  -- How many threads of the pool wait for the semaphore, have passed it and not yet the queue, run a
  -- job, and are past the loop but still counted; the jobs that were taken and submitted, in order.
  pub record State : Type 0 where
    pub pool : Threads js
    pub waiting : ℕ
    pub awake : ℕ
    pub busy : ℕ
    pub leaving : ℕ
    pub taken : List J
    pub sent : List J

  abbrev pub one_if : Bool → ℕ
  one_if true = 1
  one_if false = 0

  unfoldable pub submit : Bool → J → State → State
  submit created j u =
      let ((p, started), rc) = lc_threadpool_run js created j u.pool in
      record u { pool = p; waiting = u.waiting + one_if started; sent = u.sent ++ (j ∷ []) }

  abbrev pub given : State → Option J → State
  given u none = record u { leaving = suc u.leaving }
  given u (some j) = record u { busy = suc u.busy; taken = u.taken ++ (j ∷ []) }

  -- A thread that has passed the semaphore takes a job. Without one it leaves.
  unfoldable pub take_job : ℕ → State → State
  take_job n u = let (p, j) = next_job js u.pool in given (record u { pool = p; awake = n }) j

  unfoldable pub time_out : ℕ → State → State
  time_out n u = if gives_up js u.pool then record u { waiting = n; leaving = suc u.leaving } else u

  pub data Step : State → State → Type 0 where
    submits : (u : State) (created : Bool) (j : J) → Step u (submit created j u)
    wakes :
        (u : State) (n k : ℕ)
        → u.waiting ≡ suc n
        → u.pool.sem ≡ suc k
        → Step u (record u { pool = record u.pool { sem = k }; waiting = n; awake = suc u.awake })
    times_out : (u : State) (n : ℕ) → u.waiting ≡ suc n → Step u (time_out n u)
    takes : (u : State) (n : ℕ) → u.awake ≡ suc n → Step u (take_job n u)
    finishes :
        (u : State) (n : ℕ)
        → u.busy ≡ suc n
        → Step u (record u { busy = n; waiting = suc u.waiting })
    leaves :
        (u : State) (n : ℕ)
        → u.leaving ≡ suc n
        → Step u (record u { pool = thread_ends js u.pool; leaving = n })

  abbrev pub begin_with : Threads js → State
  begin_with p = record {
    pool = p;
    waiting = 0;
    awake = 0;
    busy = 0;
    leaving = 0;
    taken = [];
    sent = [];
  }

  pub data Reachable (p : Threads js) : State → Type 0 where
    begin : Reachable p (begin_with p)
    after : {u v : State} → Reachable p u → Step u v → Reachable p v
