-- ===== src/Task.antt =====
-- src/lc_task.c and src/lc_session.h: tasks, their registry, and the current task of a thread.
pub mod Laws
use casting.Base.{
  ℕ, suc, Bool, Ordering, Option, none, some, List, if◌then◌else◌, ltb, ℤ, pos, negsuc,
}
use casting.Map.Sorted.{lookup}
use casting.Registry.{compare_ℤ, Counter, put, ref, free}

-- `status_t`.
pub data RunStatus : Type 0 where
  ready running suspended finished error : RunStatus

-- `struct _task`, over the type of a Lua state. `none` is NULL.
pub record Task (L : Type 0) : Type 0 where
  pub id : ℕ
  pub sid : ℕ
  pub ref_count : ℤ
  pub thread : Option L
  pub status : RunStatus

-- A double that counts up from 1 as an `int`: what does not fit is the least `int`.
abbrev pub int_of : ℕ → ℤ
int_of n = if ltb n 2147483648 then pos n else negsuc 2147483647

module _ {L : Type 0} where
  unfoldable pub cmp_task : Task L → Task L → Ordering
  cmp_task a b = compare_ℤ (int_of a.id) (int_of b.id)

  abbrev pub task_counter : Counter (Task L)
  task_counter = record { count = λ t. t.ref_count; recount = λ t n. record t { ref_count = n } }

  -- A key for the search: `task_t f = { tid }`.
  abbrev pub with_tid : ℕ → Task L
  with_tid tid = record { id = tid; sid = 0; ref_count = pos 0; thread = none; status = ready }

  unfoldable pub tasks_find : ℕ → List (Task L) → Option (Task L)
  tasks_find tid ts = lookup cmp_task (with_tid tid) ts

  unfoldable pub task_ref : ℕ → List (Task L) → List (Task L) × Option (Task L)
  task_ref tid ts = ref cmp_task task_counter (with_tid tid) ts

  unfoldable pub task_free : ℕ → List (Task L) → List (Task L)
  task_free tid ts = (free cmp_task task_counter (with_tid tid) ts).0

  -- `map_insert` keeps a copy, if there is memory for it and its node. The id is given out either way.
  -- The second number is `next`.
  unfoldable pub task_new : Bool → ℕ → List (Task L) × ℕ → (List (Task L) × ℕ) × ℕ
  task_new mem sid (ts, next) =
      let t : Task L = record {
        id = suc next;
        sid = sid;
        ref_count = pos 1;
        thread = none;
        status = ready;
      } in
      ((if mem then put cmp_task t ts else ts, suc next), suc next)

-- The value under `task_key` in a thread, where `none` is NULL.
unfoldable pub task_set_current : ℕ → Option ℕ → Option ℕ
task_set_current tid none = some tid
task_set_current tid (some current) = some current

unfoldable pub task_current : Option ℕ → ℕ
task_current none = 0
task_current (some tid) = tid
