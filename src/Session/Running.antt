-- ===== src/Session/Running.antt =====
-- src/lc_task.c and src/lc_session.c: a task is run by a thread of the pool, in its session's turn.
use casting.Base.{ℕ, zero, suc, Option, none, some, List, [], ◌∷◌, ℤ, pos, success, err_inval}
use casting.Fifo.{Fifo}
use casting.Map.Sorted.{lookup}
use casting.Task.{
  RunStatus, ready, running, suspended, finished, Task, tasks_find, task_ref, task_set_current,
}
use casting.Session.{Job, Sess, settle, cmp_session, begin_run, end_run, with_sid, session_ref}
use casting.Session.Calls.{System, submit_if, free_task, free_session, put_session, put_task}

-- Of Lua, `lua_newthread` and, with the arguments of a message decoded onto the thread's stack,
-- `lua_resume`, in which any calls of the program can be made. Its result is that of `lua_resume`.
module _ (L : Type 0) {M : Type 0} (js : Fifo (Job M)) (newthread : Option L → Option L)
    (resume : System L js → Option L → Option M → System L js × ℤ) where
  -- The system after an operation, the messages it destroyed, in order, and its result. `fault` stands
  -- for the use of a task or a session that is freed, or is NULL.
  pub data Ending : Type 0 where
    ended : System L js → List M → ℤ → Ending
    blocks : Ending
    fault : Ending

  -- The switch of `task_run`: what is destroyed before Lua runs, and the `rc` that it leaves.
  abbrev pub turn :
      Option L → Option M → Task L → RunStatus → System L js → List M × (System L js × ℤ)
  turn l none t ready y = ([], (put_task L js (record t { status = finished }) y, pos 0))
  turn l (some m) t ready y =
      let t' : Task L = record t { thread = newthread l; status = running } in
      ((m ∷ []), resume (put_task L js t' y) t'.thread (some m))
  turn l none t suspended y =
      ([], resume (put_task L js (record t { status = running }) y) t.thread none)
  turn l (some m) t suspended y =
      (m ∷ [], resume (put_task L js (record t { status = running }) y) t.thread (some m))
  turn l m t st y = ([], (y, pos 0))

  -- The end of `task_run`, where its task is read again.
  abbrev pub settled : ℕ → List M → System L js → ℤ → Option (Task L) → Ending
  settled tid gone y rc none = fault
  settled tid gone y rc (some t) =
      let y' = put_task L js (record t { status = settle rc t.status }) y in
      ended (free_task L js tid (record y' { current = task_set_current 0 y'.current })) gone
        success

  abbrev pub taken_by : ℕ → Option L → Option M → System L js → Option (Task L) → Ending
  taken_by tid l m y none = ended y [] err_inval
  taken_by tid l m y (some t) =
      let (gone, (z, rc)) =
        turn l m t t.status (record y { current = task_set_current tid y.current }) in
      settled tid gone z rc (tasks_find tid z.tasks)

  unfoldable pub task_run : ℕ → Option L → Option M → System L js → Ending
  task_run tid l m y =
      let (ts, t) = task_ref tid y.tasks in taken_by tid l m (record y { tasks = ts }) t

  -- The second half of `session_run`, after the job.
  abbrev pub rested_by : ℕ → System L js → List M → Option (Sess L js) → Ending
  rested_by sid y gone none = fault
  rested_by sid y gone (some s) =
      let (s', again) = end_run L js s in
      ended (free_session L js sid (submit_if L js again sid (put_session L js s' y))) gone success

  abbrev pub after_job : ℕ → Ending → Ending
  after_job sid (ended y gone rc) =
      rested_by sid y gone (lookup (cmp_session L js) (with_sid L js sid) y.sessions)
  after_job sid blocks = blocks
  after_job sid fault = fault

  abbrev pub run_job : Option (Job M) → Option L → System L js → Ending
  run_job none l y = ended y [] success
  run_job (some j) l y = task_run j.tid l j.message y

  abbrev pub begun_by : ℕ → System L js → Option (Sess L js × Option (Job M)) → Ending
  begun_by sid y none = ended (free_session L js sid y) [] success
  begun_by sid y (some (s, j)) = after_job sid (run_job j s.state (put_session L js s y))

  abbrev pub run_by : ℕ → System L js → Option (Sess L js) → Ending
  run_by sid y none = ended y [] err_inval
  run_by sid y (some s) = begun_by sid y (begin_run L js s)

  unfoldable pub session_run : ℕ → System L js → Ending
  session_run sid y =
      let (ss, s) = session_ref L js sid y.sessions in run_by sid (record y { sessions = ss }) s

  abbrev waited : ℕ → System L js → Sess L js → ℕ → Ending
  waited sid y s zero = blocks
  waited sid y s (suc n) =
      ended (free_session L js sid (put_session L js (record s { sem = n }) y)) [] success

  abbrev waits_for : ℕ → System L js → Option (Sess L js) → Ending
  waits_for sid y none = fault
  waits_for sid y (some s) = waited sid y s s.sem

  -- `session_wait` blocks where the semaphore is 0, and reads through NULL where there is no session.
  unfoldable pub session_wait : ℕ → System L js → Ending
  session_wait sid y =
      let (ss, s) = session_ref L js sid y.sessions in waits_for sid (record y { sessions = ss }) s
