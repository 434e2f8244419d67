-- ===== src/Methods/Keeping.antt =====
-- src/lc_channel.c and src/lc_task.c: what resuming and yielding keep of the registries.
use casting.Base.{
  ℕ, ◌≡◌, inl, inr, refl, sym, ◌∙◌, ap, subst, Bool, true, false, Option, none, some, Option-cases,
  if◌then◌else◌, err_taskstate,
}
use casting.Fifo.{Fifo}
use casting.Registry.Live.{lookup-IsLive, put-IsRegistry}
use casting.Task.{Task, tasks_find, task_ref}
use casting.Session.{Job, Sess, is_ready, cmp_session, session_counter, with_sid}
use casting.Session.Calls.{System, submit_if, put_session, task_resume, is_over}
use casting.Session.Laws.{
  Any, TasksValid, SessionsValid, sessions_find, session-IsOrder, session-IsCounter, task_ref_found,
}
use casting.Session.Resuming.{queue_on, queue_for, resume_for, task_resume_lem}
use casting.Channel.Defs.{Reader, Writer}
use casting.Methods.{Callback, task_yield, yielded_by}

module _ (L : Type 0) {M : Type 0} (js : Fifo (Job M)) where
  -- A system with the same tasks, and sessions that are in order.
  abbrev pub Keeps : System L js → System L js → Type 0
  Keeps y z = (z.tasks ≡ y.tasks) × SessionsValid L js z.sessions × (z.current ≡ y.current)

  submit-Keeps :
      (b : Bool) (sid : ℕ) (y z : System L js) → Keeps y z → Keeps y (submit_if L js b sid z)
  submit-Keeps true sid y z h = h
  submit-Keeps false sid y z h = h

  queue-Keeps :
      (j : Job M) (sid : ℕ) (y : System L js)
      → SessionsValid L js y.sessions
      → Keeps y (queue_on L js j sid y (sessions_find L js sid y.sessions)).0
  unfolding sessions_find
  queue-Keeps j sid y h = elim (Option-cases (sessions_find L js sid y.sessions)) [
    | inl e ↦ rw e (refl, h, refl)
    | inr (s, e) ↦
        let l =
          lookup-IsLive (cmp_session L js) (session-IsOrder L js) (session_counter L js)
            (session-IsCounter L js) Any (λ t k p. p) (with_sid L js sid) s y.sessions e h in
        let d : Sess L js = record s { tasks = js.push s.tasks j } in
        let kept =
          put-IsRegistry (cmp_session L js) (session-IsOrder L js) (session_counter L js)
            (session-IsCounter L js) Any (λ t k p. p) d y.sessions
            (record { others = l.others; counted = l.counted; proper = tt }) h in
        rw e (submit-Keeps (is_ready s.status) sid y (put_session L js d y) (refl, kept, refl))
  ]

  pub resume-Keeps :
      (tid : ℕ) (m : Option M) (y : System L js)
      → TasksValid y.tasks
      → SessionsValid L js y.sessions
      → Keeps y (task_resume L js tid m y).0
  resume-Keeps tid m y h k = rw (task_resume_lem L js tid m y h k) (go (tasks_find tid y.tasks))
    where
      j : Job M
      j = record { tid = tid; message = m }

      go : (o : Option (Task L)) → Keeps y (resume_for L js j y o).0
      go none = (refl, k, refl)
      go (some t) = at_status (is_over L js t.status)
        where
          at_status :
              (b : Bool) → Keeps y (if b then (y, err_taskstate) else queue_for L js j y (some t)).0
          at_status true = (refl, k, refl)
          at_status false = queue-Keeps j t.sid y k

module _ (L : Type 0) {M : Type 0} (js : Fifo (Job M)) (yes : M) where
  -- The systems after the reader and the writer are resumed, in the order of their callbacks.
  abbrev pub handed : Bool → ℕ → ℕ → M → System L js → System L js
  handed true writer reader m y =
      (task_resume L js reader (some m) (task_resume L js writer (some yes) y).0).0
  handed false writer reader m y =
      (task_resume L js writer (some yes) (task_resume L js reader (some m) y).0).0

  pub handed-Keeps :
      (b : Bool) (i k : ℕ) (m : M) (y : System L js)
      → TasksValid y.tasks
      → SessionsValid L js y.sessions
      → Keeps L js y (handed b i k m y)
  handed-Keeps b i k m y h v = go b
    where
      twice :
          (i k : ℕ) (m n : M)
          → Keeps L js y (task_resume L js k (some n) (task_resume L js i (some m) y).0).0
      twice i k m n =
          let (a0, a1, a2) = resume-Keeps L js i (some m) y h v in
          let z = (task_resume L js i (some m) y).0 in
          let (b0, b1, b2) = resume-Keeps L js k (some n) z (subst TasksValid (sym a0) h) a1 in
          (b0 ∙ a0, b1, b2 ∙ a2)

      go : (b : Bool) → Keeps L js y (handed b i k m y)
      go true = twice i k yes m
      go false = twice k i m yes

module _ (L : Type 0) {M : Type 0} (js : Fifo (Job M)) (ms : Fifo M) (rs : Fifo (Reader Callback ℕ))
    (ws : Fifo (Writer Callback ℕ M)) (yes : M) where
  pub yield_lem :
      (tid : ℕ) (y : System L js) (t : Task L)
      → TasksValid y.tasks
      → tasks_find tid y.tasks ≡ some t
      → task_yield L js ms rs ws yes tid y ≡ (y, some t.thread)
  unfolding task_yield
  yield_lem tid y t h e =
      let (k, got, back) = task_ref_found tid y.tasks t h e in
      ap (yielded_by L js ms rs ws yes tid (record y { tasks = (task_ref tid y.tasks).0 })) got
      ∙ ap (λ ts. (record y { tasks = ts }, some t.thread)) back
