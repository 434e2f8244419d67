-- ===== src/Examples/Pools.antt =====
-- src/lc_thread.c: a pool of one to two threads, whose jobs are numbers.
use casting.Base.{ℕ, suc, ◌≡◌, refl, true, none, some, List, [], ◌∷◌, ◌++◌, length, pos}
use casting.Fifo.{Fifo, head?, tail}
use casting.Map.Node.{copied}
use casting.Queue.{node_data}
use casting.Queue.Linked.{linked_fifo}
use casting.Pool.{
  Threads, lc_threadpool_new, wants_thread, lc_threadpool_run, gives_up, next_job, thread_ends,
}
use casting.Pool.Steps.{
  State, submit, take_job, time_out, submits, wakes, times_out, takes, finishes, leaves, begin_with,
  Reachable, begin, after,
}
use casting.Pool.Bounds.{queued, IsSound, Reachable-IsSound, next_job_finds}
use casting.Pool.Serving.{serve, serve_all}

copies {ℓ} : {A : Type ℓ} (x : A) → node_data none (some x) ≡ copied (some x)
unfolding node_data
copies x = refl

abbrev js : Fifo ℕ
js = linked_fifo none copies

abbrev pool : Threads js
pool = record { sem = 0; min_threads = pos 1; max_threads = pos 2; threads = pos 0; jobs = js.new }

is_new : lc_threadpool_new js true (pos 1) (pos 2) ≡ some pool
unfolding lc_threadpool_new
is_new = refl

-- The first job starts a thread.
abbrev one_sent : State js
one_sent = submit js true 40 (begin_with js pool)

one_sent-Reachable : Reachable js pool one_sent
one_sent-Reachable = after begin (submits (begin_with js pool) true 40)

Reachable-IsSound_example : IsSound js (pos 1) (pos 2) one_sent
Reachable-IsSound_example = Reachable-IsSound js (pos 1) (pos 2) pool is_new one_sent-Reachable

abbrev woken : State js
woken = record one_sent {
  pool = record one_sent.pool { sem = 0 };
  waiting = 0;
  awake = suc one_sent.awake;
}

woken-Reachable : Reachable js pool woken
unfolding submit lc_threadpool_run wants_thread
woken-Reachable = after one_sent-Reachable (wakes one_sent 0 0 refl refl)

woken_awake : woken.awake ≡ 1
unfolding submit
woken_awake = refl

next_job_finds_example :
    (j : ℕ) × (more : List ℕ) × (queued js woken ≡ j ∷ more)
    × ((next_job js woken.pool).1 ≡ some j)
    × (woken.taken ++ (j ∷ more) ≡ woken.sent)
next_job_finds_example =
    next_job_finds js (pos 1) (pos 2) pool woken 0 is_new woken-Reachable woken_awake

one_waits : (one_sent.waiting ≡ 1) × (one_sent.awake ≡ 0)
unfolding submit lc_threadpool_run wants_thread
one_waits = (refl, refl)

serve_all_example :
    (queued js (serve js one_sent.pool.sem one_sent) ≡ [])
    × ((serve js one_sent.pool.sem one_sent).taken ≡ one_sent.sent)
serve_all_example =
    serve_all js (pos 1) (pos 2) pool one_sent 0 is_new one_sent-Reachable one_waits.0 one_waits.1

-- A queue that is a list, so that runs compute.
abbrev ls : Fifo ℕ
ls = record {
  Q = List ℕ;
  new = [];
  push = λ q x. q ++ (x ∷ []);
  pop = λ q. (tail q, head? q);
  size = λ q. pos (length q);
  clear = λ q. ([], q);
  contents = λ q. q;
  contents-new = refl;
  contents-push = λ q x. refl;
  contents-pop = λ q. refl;
  pop-head = λ q. refl;
  size-length = λ q. refl;
  contents-clear = λ q. refl;
  clear_released = λ q. refl;
}

abbrev small : Threads ls
small = record { sem = 0; min_threads = pos 1; max_threads = pos 2; threads = pos 0; jobs = [] }

-- Two jobs are done by two threads, which then meet a timeout each before either is counted off.
abbrev timed_out : State ls
timed_out = record {
  pool = record small { threads = pos 2 };
  waiting = 0;
  awake = 0;
  busy = 0;
  leaving = 2;
  taken = 40 ∷ (41 ∷ []);
  sent = 40 ∷ (41 ∷ []);
}

abbrev both_busy : State ls
both_busy = record timed_out { busy = 2; leaving = 0 }

both_busy-Reachable : Reachable ls small both_busy
unfolding submit lc_threadpool_run wants_thread take_job next_job
both_busy-Reachable =
    after
      (after
        (after
          (after (after (after begin (submits (begin_with ls small) true 40)) (submits _ true 41))
            (wakes _ 1 1 refl refl))
          (wakes _ 0 0 refl refl))
        (takes _ 1 refl))
      (takes _ 0 refl)

timed_out-Reachable : Reachable ls small timed_out
unfolding time_out gives_up
timed_out-Reachable =
    after
      (after (after (after both_busy-Reachable (finishes both_busy 1 refl)) (finishes _ 0 refl))
        (times_out _ 1 refl))
      (times_out _ 0 refl)

-- The job that comes then starts no thread, and is left without one.
abbrev stranded : State ls
stranded = record timed_out {
  pool = record small { sem = 1; jobs = 42 ∷ [] };
  leaving = 0;
  sent = 40 ∷ (41 ∷ (42 ∷ []));
}

stranded-Reachable : Reachable ls small stranded
unfolding submit lc_threadpool_run wants_thread thread_ends
stranded-Reachable =
    after (after (after timed_out-Reachable (submits timed_out true 42)) (leaves _ 1 refl))
      (leaves _ 0 refl)
