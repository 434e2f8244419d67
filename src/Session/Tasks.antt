-- ===== src/Session/Tasks.antt =====
-- src/lc_task.c: `task_run`, with what Lua does as a parameter.
use casting.Base.{
  ℕ, suc, ◌≡◌, refl, sym, ◌∙◌, ap, subst, Option, none, some, List, [], ◌∷◌, ℤ, pos, succ, success,
}
use casting.Fifo.{Fifo}
use casting.Map.Sorted.{IsAscending}
use casting.Registry.{put}
use casting.Registry.Counting.{entry, put-free}
use casting.Registry.Live.{lookup-IsLive}
use casting.Task.{
  RunStatus, ready, running, suspended, finished, error, Task, cmp_task, task_counter, with_tid,
  tasks_find, task_free, task_set_current,
}
use casting.Session.{Job, settle}
use casting.Session.Calls.{System, put_task, free_task}
use casting.Session.Running.{Ending, ended, turn, settled, taken_by, task_run}
use casting.Session.Laws.{Any, task-IsOrder, task-IsCounter, TasksValid}
use casting.Session.Held.{TaskIs, more, found_key, put-TaskIs, count_of, recount_to, ref_more}

module _ (L : Type 0) {M : Type 0} (js : Fifo (Job M)) (newthread : Option L → Option L)
    (resume : System L js → Option L → Option M → System L js × ℤ) where
  -- The end of `task_run` gives the reference back, and settles the status.
  abbrev pub Settled :
      ℕ
      → Option (Task L)
      → List (Task L)
      → List M
      → System L js
      → Ending L js newthread resume
      → Type 0
  Settled tid e ts gone z r =
      (w : System L js) × (r ≡ ended w gone success)
      × TaskIs tid e ts w.tasks
      × (w.sessions ≡ z.sessions)
      × (w.submitted ≡ z.submitted)
      × (w.current ≡ task_set_current 0 z.current)

  settled_found :
      (tid k : ℕ) (ts : List (Task L)) (gone : List M) (z : System L js) (rc : ℤ) (t : Task L)
      → TaskIs tid (some t) ts z.tasks
      → t.ref_count ≡ pos (suc k)
      → Settled tid
          (entry task_counter (record t { status = settle rc t.status }) k)
          ts
          gone
          z
          (settled L js newthread resume tid gone z rc (tasks_find tid z.tasks))
  unfolding tasks_find task_free
  settled_found tid k ts gone z rc t h n =
      let t' : Task L = record t { status = settle rc t.status } in
      let (ordered, here, others) =
        put-free cmp_task task-IsOrder task_counter task-IsCounter (with_tid tid) t' k z.tasks h.0
          (found_key tid z.tasks t t' h.1 refl) n in
      (
        free_task L js tid (record (put_task L js t' z) { current = task_set_current 0 z.current }),
        ap (settled L js newthread resume tid gone z rc) h.1,
        (ordered, here, λ x ne. others x ne ∙ h.2 x ne),
        refl,
        refl,
        refl,
      )

  -- The system as the switch of `task_run` finds it.
  abbrev pub entered : ℕ → Task L → System L js → System L js
  entered tid t y = record y {
    tasks = put cmp_task (more t) y.tasks;
    current = task_set_current tid y.current;
  }

  run_found :
      (tid k : ℕ) (l : Option L) (m : Option M) (y : System L js) (t : Task L) (ts : List (Task L))
      (gone : List M) (z : System L js) (rc : ℤ) (u : Task L)
      → tasks_find tid y.tasks ≡ some t
      → turn L js newthread resume l m (more t) t.status (entered tid t y) ≡ (gone, (z, rc))
      → TaskIs tid (some u) ts z.tasks
      → u.ref_count ≡ pos (suc k)
      → Settled tid
          (entry task_counter (record u { status = settle rc u.status }) k)
          ts
          gone
          z
          (task_run L js newthread resume tid l m y)
  unfolding task_run
  run_found tid k l m y t ts gone z rc u e run h n =
      let (w, end, is, s0, s1, s2) = settled_found tid k ts gone z rc u h n in
      let ran : task_run L js newthread resume tid l m y
          ≡ settled L js newthread resume tid gone z rc (tasks_find tid z.tasks) =
        ap (λ p. taken_by L js newthread resume tid l m (record y { tasks = p.0 }) p.1)
          (ref_more tid y.tasks t e)
        ∙ ap (λ p. settled L js newthread resume tid p.0 p.1.0 p.1.1 (tasks_find tid p.1.0.tasks))
            run in
      (w, ran ∙ end, is, s0, s1, s2)

  -- The switch does not call Lua: a task that is ready has no message, or the status is another one.
  abbrev pub Idles : RunStatus → Option M → Type 0
  Idles ready none = Unit
  Idles ready (some m) = ⊥
  Idles suspended m = ⊥
  Idles running m = Unit
  Idles finished m = Unit
  Idles error m = Unit

  -- What the switch leaves then: the task, which settles as finished.
  abbrev Left : ℕ → List (Task L) → System L js → Task L → List M × (System L js × ℤ) → Type 0
  Left tid ts y t r =
      (z : System L js) × (u : Task L) × (r ≡ ([], (z, pos 0)))
      × TaskIs tid (some u) ts z.tasks
      × ((record u { status = finished }) ≡ (record t { status = finished }))
      × (z.sessions ≡ y.sessions)
      × (z.submitted ≡ y.submitted)
      × (z.current ≡ y.current)

  stays :
      (tid : ℕ) (ts : List (Task L)) (y : System L js) (t : Task L)
      → TaskIs tid (some t) ts y.tasks
      → Left tid ts y t ([], (y, pos 0))
  stays tid ts y t h = (y, t, refl, h, refl, refl, refl, refl)

  idle_turn :
      (tid : ℕ) (l : Option L) (m : Option M) (st : RunStatus) (ts : List (Task L))
      (y : System L js) (t : Task L)
      → Idles st m
      → TaskIs tid (some t) ts y.tasks
      → Left tid ts y t (turn L js newthread resume l m t st y)
  idle_turn tid l none ready ts y t i h =
      let u : Task L = record t { status = finished } in
      (put_task L js u y, u, refl, put-TaskIs tid ts y.tasks t u h refl, refl, refl, refl, refl)
  idle_turn tid l (some m) ready ts y t i h = absurd i
  idle_turn tid l m suspended ts y t i h = absurd i
  idle_turn tid l none running ts y t i h = stays tid ts y t h
  idle_turn tid l (some m) running ts y t i h = stays tid ts y t h
  idle_turn tid l none finished ts y t i h = stays tid ts y t h
  idle_turn tid l (some m) finished ts y t i h = stays tid ts y t h
  idle_turn tid l none error ts y t i h = stays tid ts y t h
  idle_turn tid l (some m) error ts y t i h = stays tid ts y t h

  entered_is :
      (tid : ℕ) (y : System L js) (t : Task L)
      → TasksValid y.tasks
      → tasks_find tid y.tasks ≡ some t
      → TaskIs tid (some (more t)) y.tasks (entered tid t y).tasks
  unfolding tasks_find
  entered_is tid y t h e = put-TaskIs tid y.tasks y.tasks t (more t) (h.0, e, λ z ne. refl) refl

  -- On an ordered registry of tasks with references, for a task that is running, finished or
  -- failed, or ready without a message, `task_run` does not call Lua, returns SUCCESS, does not
  -- destroy the message, and leaves the task finished, a failed one too, with its references.
  -- Every other task, the sessions and the submissions stay.
  pub task_run_idle :
      (tid : ℕ) (l : Option L) (m : Option M) (y : System L js) (t : Task L)
      → TasksValid y.tasks
      → tasks_find tid y.tasks ≡ some t
      → Idles t.status m
      → Settled tid
          (some (record t { status = finished }))
          y.tasks
          []
          (record y { current = task_set_current tid y.current })
          (task_run L js newthread resume tid l m y)
  unfolding tasks_find
  task_run_idle tid l m y t h e i =
      let lv =
        lookup-IsLive cmp_task task-IsOrder task_counter task-IsCounter Any (λ t k p. p)
          (with_tid tid) t y.tasks e h in
      let (z, u, run, held, same, s0, s1, s2) =
        idle_turn tid l m t.status y.tasks (entered tid t y) (more t) i (entered_is tid y t h e) in
      let n : u.ref_count ≡ pos (suc (suc lv.others)) = ap count_of same ∙ ap succ lv.counted in
      let (w, end, is, r0, r1, r2) =
        run_found tid (suc lv.others) l m y t y.tasks [] z (pos 0) u e run held n in
      let final : (record u { status = finished; ref_count = pos (suc lv.others) })
          ≡ (record t { status = finished }) =
        ap (recount_to (pos (suc lv.others))) same
        ∙ ap (λ k. recount_to k (record t { status = finished })) (sym lv.counted) in
      (
        w,
        end,
        subst (λ c. TaskIs tid (some c) y.tasks w.tasks) final is,
        r0 ∙ s0,
        r1 ∙ s1,
        r2 ∙ ap (task_set_current 0) s2,
      )

  -- The switch calls Lua: a task that is ready has a message, or the task is suspended.
  abbrev pub Waits : RunStatus → Option M → Type 0
  Waits ready none = ⊥
  Waits ready (some m) = Unit
  Waits suspended m = Unit
  Waits running m = ⊥
  Waits finished m = ⊥
  Waits error m = ⊥

  -- A new task gets a thread of its own.
  abbrev pub launched : Option L → RunStatus → Task L → Task L
  launched l ready t = record t { thread = newthread l; status = running }
  launched l st t = record t { status = running }

  abbrev pub listed : Option M → List M
  listed none = []
  listed (some m) = m ∷ []

  lua_turn :
      (l : Option L) (m : Option M) (st : RunStatus) (y : System L js) (t : Task L)
      → Waits st m
      → turn L js newthread resume l m t st y
        ≡ (listed m, resume (put_task L js (launched l st t) y) (launched l st t).thread m)
  lua_turn l none ready y t h = absurd h
  lua_turn l (some m) ready y t h = refl
  lua_turn l none suspended y t h = refl
  lua_turn l (some m) suspended y t h = refl
  lua_turn l m running y t h = absurd h
  lua_turn l m finished y t h = absurd h
  lua_turn l m error y t h = absurd h

  -- For a task that is found and suspended, or ready with a message, where `lua_resume` leaves
  -- an ordered registry in which the task is found with `k + 1` references, `task_run` returns
  -- SUCCESS, has destroyed the message, if there is one, and leaves the task with `k` references
  -- (removed, if that is 0) and the status that the result of `lua_resume` says. The other
  -- tasks, the sessions and the submissions are as Lua left them.
  pub task_run_resumes :
      (tid k : ℕ) (l : Option L) (m : Option M) (y z : System L js) (t u : Task L) (rc : ℤ)
      → tasks_find tid y.tasks ≡ some t
      → Waits t.status m
      → let started = launched l t.status (more t) in
        resume (put_task L js started (entered tid t y)) started.thread m ≡ (z, rc)
        → IsAscending cmp_task z.tasks
        → tasks_find tid z.tasks ≡ some u
        → u.ref_count ≡ pos (suc k)
        → Settled tid
            (entry task_counter (record u { status = settle rc u.status }) k)
            z.tasks
            (listed m)
            z
            (task_run L js newthread resume tid l m y)
  unfolding tasks_find
  task_run_resumes tid k l m y z t u rc e w run h f n =
      run_found tid k l m y t z.tasks (listed m) z rc u e
        (lua_turn l m t.status (entered tid t y) (more t) w ∙ ap (λ r. (listed m, r)) run)
        (h, f, λ x ne. refl) n
