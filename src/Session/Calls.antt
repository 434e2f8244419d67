-- ===== src/Session/Calls.antt =====
-- src/lc_session.c and src/lc_task.c: the calls that go through both registries, and hand sessions to
-- the thread pool.
use casting.Base.{
  ℕ, Bool, true, false, Option, none, some, List, [], ◌∷◌, ◌++◌, if◌then◌else◌, ℤ, success,
  err_inval, err_taskstate,
}
use casting.Fifo.{Fifo}
use casting.Registry.{put}
use casting.Task.{RunStatus, finished, error, Task, cmp_task, task_ref, task_free}
use casting.Session.{Job, Sess, cmp_session, enqueue, session_ref, session_free}

module _ (L : Type 0) {M : Type 0} (js : Fifo (Job M)) where
  -- The registries, the sessions that are handed to the thread pool and not yet run, in order, and the
  -- value of `task_key` in the thread that makes the calls.
  pub record System : Type 0 where
    pub tasks : List (Task L)
    pub sessions : List (Sess L js)
    pub submitted : List ℕ
    pub current : Option ℕ

  -- `lc_threadpool_run(pool, session_thread, psid)`.
  abbrev pub submit_if : Bool → ℕ → System → System
  submit_if true sid y = record y { submitted = y.submitted ++ (sid ∷ []) }
  submit_if false sid y = y

  abbrev pub free_task : ℕ → System → System
  free_task tid y = record y { tasks = task_free tid y.tasks }

  abbrev pub free_session : ℕ → System → System
  free_session sid y = record y { sessions = session_free L js sid y.sessions }

  abbrev pub put_session : Sess L js → System → System
  put_session s y = record y { sessions = put (cmp_session L js) s y.sessions }

  abbrev pub put_task : Task L → System → System
  put_task t y = record y { tasks = put cmp_task t y.tasks }

  -- `session_queue_task` with the session that it has referenced.
  abbrev pub queued_on : Job M → ℕ → System → Option (Sess L js) → System × ℤ
  queued_on j sid y none = (y, err_inval)
  queued_on j sid y (some s) =
      let (s', again) = enqueue L js j s in
      (free_session sid (submit_if again sid (put_session s' y)), success)

  abbrev pub queued_for : Job M → System → Option (Task L) → System × ℤ
  queued_for j y none = (y, err_inval)
  queued_for j y (some t) =
      let (ss, s) = session_ref L js t.sid y.sessions in
      queued_on j t.sid (free_task j.tid (record y { sessions = ss })) s

  unfoldable pub session_queue_task : ℕ → Option M → System → System × ℤ
  session_queue_task tid m y =
      let (ts, t) = task_ref tid y.tasks in
      queued_for (record { tid = tid; message = m }) (record y { tasks = ts }) t

  abbrev pub is_over : RunStatus → Bool
  is_over finished = true
  is_over error = true
  is_over s = false

  abbrev pub resumed_by : ℕ → Option M → System → Option (Task L) → System × ℤ
  resumed_by tid m y none = (y, err_inval)
  resumed_by tid m y (some t) =
      if is_over t.status
      then (free_task tid y, err_taskstate)
      else session_queue_task tid m (free_task tid y)

  unfoldable pub task_resume : ℕ → Option M → System → System × ℤ
  task_resume tid m y =
      let (ts, t) = task_ref tid y.tasks in resumed_by tid m (record y { tasks = ts }) t
