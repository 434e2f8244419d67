-- ===== src/Pool.antt =====
-- src/lc_thread.c: the thread pool. Each step below is made under the pool's lock, or is one operation
-- of its semaphore or one atomic operation.
pub mod Steps
pub mod Bounds
pub mod Serving
use casting.Base.{
  ℕ, suc, Bool, true, false, Option, none, some, ◌&&◌, ◌||◌, if◌then◌else◌, ℤ, pos, succ, pred,
  ltb_ℤ, success, err_inval,
}
use casting.Fifo.{Fifo}

-- `struct _lc_threadpool`, over the type of its queue. `sem` is the semaphore's value.
pub record Pool (JQ : Type 0) : Type 0 where
  pub sem : ℕ
  pub min_threads : ℤ
  pub max_threads : ℤ
  pub threads : ℤ
  pub jobs : JQ

module _ {J : Type 0} (js : Fifo J) where
  abbrev pub Threads : Type 0
  Threads = Pool js.Q

  unfoldable pub lc_threadpool_new : Bool → ℤ → ℤ → Option Threads
  lc_threadpool_new mem min max =
      if mem
      then some
          (record { sem = 0; min_threads = min; max_threads = max; threads = pos 0; jobs = js.new })
      else none

  -- Whether `lc_threadpool_run` starts a thread, with the size of the queue after the push.
  unfoldable pub wants_thread : Threads → Bool
  wants_thread p =
      ltb_ℤ p.threads p.min_threads
      || (ltb_ℤ (pos 1) (js.size p.jobs) && ltb_ℤ p.threads p.max_threads)

  abbrev pub submitted : J → Threads → Threads
  submitted j p = record p { jobs = js.push p.jobs j; sem = suc p.sem }

  -- The pool, and whether a thread was started. `created` says that `pthread_create` returns 0 where it
  -- is called.
  unfoldable pub lc_threadpool_run : Bool → J → Threads → (Threads × Bool) × ℤ
  lc_threadpool_run created j p =
      let p' = submitted j p in
      if wants_thread p' && created
      then ((record p' { threads = succ p'.threads }, true), success)
      else ((p', false), success)

  -- `next_job` after `lc_sem_timedwait` failed: whether it returns NULL, or waits again.
  unfoldable pub gives_up : Threads → Bool
  gives_up p = ltb_ℤ p.min_threads p.threads

  -- `next_job` after `lc_sem_timedwait` succeeded.
  unfoldable pub next_job : Threads → Threads × Option J
  next_job p = (record p { jobs = (js.pop p.jobs).0 }, (js.pop p.jobs).1)

  -- The end of `pool_thread`.
  unfoldable pub thread_ends : Threads → Threads
  thread_ends p = record p { threads = pred p.threads }

  -- `none` is NULL.
  unfoldable pub lc_threadpool_set_threads : ℤ → ℤ → Option Threads → Option Threads × ℤ
  lc_threadpool_set_threads min max none = (none, err_inval)
  lc_threadpool_set_threads min max (some p) =
      (some (record p { min_threads = min; max_threads = max }), success)

  unfoldable pub lc_threadpool_min : Option Threads → ℤ
  lc_threadpool_min none = err_inval
  lc_threadpool_min (some p) = p.min_threads

  unfoldable pub lc_threadpool_max : Option Threads → ℤ
  lc_threadpool_max none = err_inval
  lc_threadpool_max (some p) = p.max_threads
