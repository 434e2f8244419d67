-- ===== src/Session/Held.antt =====
-- src/lc_task.c: the entry of a task in the registry, held while the task runs.
use casting.Base.{ℕ, ◌≡◌, refl, ◌∙◌, Ordering, Option, some, List, ℤ, succ}
use casting.Registry.{put, ref, taken}
use casting.Registry.Laws.{lookup_key}
use casting.Registry.Counting.{Holding, put_is}
use casting.Registry.Keys.{ℤ-IsOrder}
use casting.Task.{Task, int_of, cmp_task, task_counter, with_tid, tasks_find, task_ref}
use casting.Session.Laws.{task-IsOrder, task-IsCounter}

module _ {L : Type 0} where
  -- In `us` the entry under `tid` is `e`, and every other one is that of `ts`.
  abbrev pub TaskIs : ℕ → Option (Task L) → List (Task L) → List (Task L) → Type 0
  TaskIs tid e ts us = Holding cmp_task (with_tid tid) e ts us

  task_key : (c t : Task L) → c.id ≡ t.id → cmp_task c t ≡ Ordering.eq
  unfolding cmp_task
  task_key c t e = rw e (ℤ-IsOrder.cmp_refl (int_of t.id))

  pub found_key :
      (tid : ℕ) (ts : List (Task L)) (t c : Task L)
      → tasks_find tid ts ≡ some t
      → c.id ≡ t.id
      → cmp_task c (with_tid tid) ≡ Ordering.eq
  unfolding tasks_find
  found_key tid ts t c e i =
      task-IsOrder.cmp_congr c t (with_tid tid) (task_key c t i)
      ∙ lookup_key cmp_task task-IsOrder (with_tid tid) ts t e

  pub put-TaskIs :
      (tid : ℕ) (ts us : List (Task L)) (t d : Task L)
      → TaskIs tid (some t) ts us
      → d.id ≡ t.id
      → TaskIs tid (some d) ts (put cmp_task d us)
  unfolding tasks_find
  put-TaskIs tid ts us t d h i =
      put_is cmp_task task-IsOrder task_counter task-IsCounter (with_tid tid) d ts us
        (found_key tid us t d h.1 i) h

  abbrev pub more : Task L → Task L
  more t = record t { ref_count = succ t.ref_count }

  abbrev pub count_of : Task L → ℤ
  count_of t = t.ref_count

  abbrev pub recount_to : ℤ → Task L → Task L
  recount_to k t = record t { ref_count = k }

  pub ref_more :
      (tid : ℕ) (ts : List (Task L)) (t : Task L)
      → tasks_find tid ts ≡ some t
      → task_ref tid ts ≡ (put cmp_task (more t) ts, some (more t))
  unfolding tasks_find task_ref ref taken
  ref_more tid ts t e = rw e refl
