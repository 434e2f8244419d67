-- ===== src/Session/Resuming.antt =====
-- src/lc_task.c and src/lc_session.c: `task_resume` and `session_queue_task`, beside the same without
-- the counting of references.
use casting.Base.{
  ℕ, ◌≡◌, inl, inr, refl, sym, ◌∙◌, ap, Bool, true, false, Option, none, some, Option-cases, List,
  if◌then◌else◌, ℤ, success, err_inval, err_taskstate,
}
use casting.Fifo.{Fifo}
use casting.Registry.{put}
use casting.Task.{Task, tasks_find, task_ref}
use casting.Session.{Job, Sess, is_ready, cmp_session, enqueue, session_ref, session_free}
use casting.Session.Calls.{
  System, submit_if, put_session, free_session, queued_on, queued_for, session_queue_task, is_over,
  resumed_by, task_resume,
}
use casting.Session.Laws.{
  TasksValid, task_ref_missing, task_ref_found, SessionsValid, sessions_find, session_ref_missing,
  session_changed,
}

module _ (L : Type 0) {M : Type 0} (js : Fifo (Job M)) where
  -- The job goes to the end of the session's queue, and a session that is ready is submitted.
  abbrev pub queue_on : Job M → ℕ → System L js → Option (Sess L js) → System L js × ℤ
  queue_on j sid y none = (y, err_inval)
  queue_on j sid y (some s) = (
    submit_if L js (is_ready s.status) sid
        (put_session L js (record s { tasks = js.push s.tasks j }) y),
    success,
  )

  abbrev pub queue_for : Job M → System L js → Option (Task L) → System L js × ℤ
  queue_for j y none = (y, err_inval)
  queue_for j y (some t) = queue_on j t.sid y (sessions_find L js t.sid y.sessions)

  abbrev pub resume_for : Job M → System L js → Option (Task L) → System L js × ℤ
  resume_for j y none = (y, err_inval)
  resume_for j y (some t) =
      if is_over L js t.status then (y, err_taskstate) else queue_for j y (some t)

  queued_on_found :
      (j : Job M) (sid : ℕ) (y : System L js) (s : Sess L js)
      → SessionsValid L js y.sessions
      → sessions_find L js sid y.sessions ≡ some s
      → queued_on L js j sid
          (record y { sessions = (session_ref L js sid y.sessions).0 })
          (session_ref L js sid y.sessions).1
        ≡ queue_on j sid y (some s)
  unfolding enqueue
  queued_on_found j sid y s h e =
      let (k, got, freed) = session_changed L js sid y.sessions s h e in
      let ss = (session_ref L js sid y.sessions).0 in
      let d : Sess L js = record s { tasks = js.push s.tasks j; ref_count = k } in
      ap (queued_on L js j sid (record y { sessions = ss })) got
      ∙ ap (λ z. (z, success)) (go (is_ready s.status) d ss (freed d refl refl))
    where
      go :
          (b : Bool) (d : Sess L js) (ss : List (Sess L js)) {rs : List (Sess L js)}
          → session_free L js sid (put (cmp_session L js) d ss) ≡ rs
          → free_session L js sid
              (submit_if L js b sid (put_session L js d (record y { sessions = ss })))
            ≡ submit_if L js b sid (record y { sessions = rs })
      go true d ss f = ap (λ xs. submit_if L js true sid (record y { sessions = xs })) f
      go false d ss f = ap (λ xs. submit_if L js false sid (record y { sessions = xs })) f

  queued_on_lem :
      (j : Job M) (sid : ℕ) (y : System L js)
      → SessionsValid L js y.sessions
      → queued_on L js j sid
          (record y { sessions = (session_ref L js sid y.sessions).0 })
          (session_ref L js sid y.sessions).1
        ≡ queue_on j sid y (sessions_find L js sid y.sessions)
  queued_on_lem j sid y h = elim (Option-cases (sessions_find L js sid y.sessions)) [
    | inl e ↦ rw (session_ref_missing L js sid y.sessions e, e) refl
    | inr (s, e) ↦ queued_on_found j sid y s h e ∙ ap (queue_on j sid y) (sym e)
  ]

  queue_found :
      (tid : ℕ) (m : Option M) (y : System L js) (t : Task L)
      → TasksValid y.tasks
      → SessionsValid L js y.sessions
      → tasks_find tid y.tasks ≡ some t
      → session_queue_task L js tid m y ≡ queue_for (record { tid = tid; message = m }) y (some t)
  unfolding session_queue_task
  queue_found tid m y t h k e =
      let (n, got, freed) = task_ref_found tid y.tasks t h e in
      let j : Job M = record { tid = tid; message = m } in
      let ts = (task_ref tid y.tasks).0 in
      ap (queued_for L js j (record y { tasks = ts })) got
      ∙ ap
          (λ xs.
            queued_on L js j t.sid
              (record y { tasks = xs; sessions = (session_ref L js t.sid y.sessions).0 })
              (session_ref L js t.sid y.sessions).1)
          freed
      ∙ queued_on_lem j t.sid y k

  -- On registries in order, with a reference for each entry, `task_resume` is what it is without
  -- its reference counting: an unknown task is ERR_INVAL, a finished or failed one is
  -- ERR_TASKSTATE, one whose session is unknown is ERR_INVAL, each without a change. Else the
  -- result is SUCCESS, the job is behind the others in the queue of the task's session, and the
  -- session is submitted to the pool just if it is ready; nothing else changes.
  pub task_resume_lem :
      (tid : ℕ) (m : Option M) (y : System L js)
      → TasksValid y.tasks
      → SessionsValid L js y.sessions
      → task_resume L js tid m y
        ≡ resume_for (record { tid = tid; message = m }) y (tasks_find tid y.tasks)
  unfolding task_resume
  task_resume_lem tid m y h k = elim (Option-cases (tasks_find tid y.tasks)) [
    | inl e ↦ rw (task_ref_missing tid y.tasks e, e) refl
    | inr (t, e) ↦
        let (n, got, freed) = task_ref_found tid y.tasks t h e in
        let ts = (task_ref tid y.tasks).0 in
        ap (resumed_by L js tid m (record y { tasks = ts })) got
        ∙ ap
            (λ xs.
              if is_over L js t.status
              then (record y { tasks = xs }, err_taskstate)
              else session_queue_task L js tid m (record y { tasks = xs }))
            freed
        ∙ ap (λ r. if is_over L js t.status then (y, err_taskstate) else r)
            (queue_found tid m y t h k e)
        ∙ ap (resume_for (record { tid = tid; message = m }) y) (sym e)
  ]
