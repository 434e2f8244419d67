-- ===== src/Session/Runs.antt =====
-- src/lc_session.c: `session_run`, around what the run of a task does.
use casting.Base.{
  ℕ, suc, ◌≡◌, refl, sym, ◌∙◌, ap, subst, Option, none, some, List, [], ◌∷◌, ◌++◌, append-nil, ℤ,
  pos, succ, success, err_inval,
}
use casting.Fifo.{Fifo, head?, tail}
use casting.Map.Sorted.{IsAscending}
use casting.Registry.{put}
use casting.Registry.Laws.{put_again}
use casting.Registry.Counting.{entry, put_is, put-free}
use casting.Registry.Live.{lookup-IsLive}
use casting.Task.{ready, running}
use casting.Session.{
  Job, Sess, cmp_session, session_counter, with_sid, session_ref, session_free, end_run,
}
use casting.Session.Calls.{System, free_session, put_session}
use casting.Session.Running.{
  Ending, ended, rested_by, after_job, run_job, begun_by, run_by, task_run, session_run,
}
use casting.Session.Order.{begin_running, begin_ready}
use casting.Session.Laws.{
  Any, session-IsOrder, session-IsCounter, SessionsValid, sessions_find, session_ref_missing,
  same_key,
}
use casting.Session.Resting.{
  SessionIs, referenced, again_if, at_rest, session_ref_more, session_returned, found_key,
  at_rest_keeps, end_run_lem,
}

module _ (L : Type 0) {M : Type 0} (js : Fifo (Job M)) (newthread : Option L → Option L)
    (resume : System L js → Option L → Option M → System L js × ℤ) where
  -- The session rests under its id with one reference less, is submitted again if it has a job, and
  -- the rest is as in `z`.
  abbrev pub Rested :
      ℕ
      → ℕ
      → Sess L js
      → List (Sess L js)
      → List M
      → System L js
      → Ending L js newthread resume
      → Type 0
  Rested sid k u ss gone z r =
      (w : System L js) × (r ≡ ended w gone success)
      × SessionIs L js sid (entry (session_counter L js) (at_rest L js (js.contents u.tasks) u) k)
          ss w.sessions
      × (w.submitted ≡ z.submitted ++ again_if L js sid (js.contents u.tasks))
      × (w.tasks ≡ z.tasks)
      × (w.current ≡ z.current)

  rests :
      (sid k : ℕ) (ss : List (Sess L js)) (gone : List M) (z : System L js) (rc : ℤ) (u : Sess L js)
      → SessionIs L js sid (some u) ss z.sessions
      → u.ref_count ≡ pos (suc k)
      → Rested sid k u ss gone z (after_job L js newthread resume sid (ended z gone rc))
  unfolding sessions_find session_free
  rests sid k ss gone z rc u h n =
      let d = at_rest L js (js.contents u.tasks) u in
      let keeps = at_rest_keeps L js (js.contents u.tasks) u in
      let is =
        put-free (cmp_session L js) (session-IsOrder L js) (session_counter L js)
          (session-IsCounter L js) (with_sid L js sid) d k z.sessions h.0
          (found_key L js sid z.sessions u d h.1 keeps.0) (keeps.1 ∙ n) in
      let (same, again) = end_run_lem L js u sid (put_session L js (end_run L js u).0 z) in
      let w : System L js = record z {
        sessions = session_free L js sid (put (cmp_session L js) d z.sessions);
        submitted = z.submitted ++ again_if L js sid (js.contents u.tasks);
      } in
      (
        w,
        ap (rested_by L js newthread resume sid z gone) h.1
            ∙ ap (λ v. ended (free_session L js sid v) gone success) again
            ∙ ap
                (λ c.
                  ended
                    (record w {
                      sessions = session_free L js sid (put (cmp_session L js) c z.sessions);
                    })
                    gone success)
                same,
        (is.0, is.1, λ x ne. is.2 x ne ∙ h.2 x ne),
        refl,
        refl,
        refl,
      )

  -- The system in which the job runs.
  abbrev pub taken_over : Sess L js → System L js → System L js
  taken_over s y =
      put_session L js (record (referenced L js s) { status = running; tasks = (js.pop s.tasks).0 })
        y

  began_with :
      (sid : ℕ) (y : System L js) (s : Sess L js)
      → sessions_find L js sid y.sessions ≡ some s
      → s.status ≡ ready
      → session_run L js newthread resume sid y
        ≡ after_job L js newthread resume sid
            (run_job L js newthread resume (head? (js.contents s.tasks)) s.state (taken_over s y))
  unfolding session_run
  began_with sid y s e st =
      let s' = referenced L js s in
      let d : Sess L js = record s' { status = running; tasks = (js.pop s.tasks).0 } in
      ap (λ p. run_by L js newthread resume sid (record y { sessions = p.0 }) p.1)
        (session_ref_more L js sid y.sessions s e)
      ∙ ap
          (begun_by L js newthread resume sid
            (record y { sessions = put (cmp_session L js) s' y.sessions }))
          (begin_ready L js s' st)
      ∙ ap
          (λ xs.
            after_job L js newthread resume sid (
              run_job L js newthread resume (js.pop s.tasks).1 s.state
                (record y { sessions = xs })))
          (put_again (cmp_session L js) (session-IsOrder L js) d s' y.sessions
            (same_key L js d s' refl))
      ∙ ap
          (λ j.
            after_job L js newthread resume sid
              (run_job L js newthread resume j s.state (taken_over s y)))
          (js.pop-head s.tasks)

  -- For a session that is found and ready with a job first in its queue, where `task_run` for
  -- that job's task ends and leaves an ordered registry in which the session is found with `k +
  -- 1` references, `session_run` returns SUCCESS, has destroyed what `task_run` did, and leaves
  -- the session ready with `k` references. It is submitted again if it has a job then, else its
  -- semaphore is posted. The tasks and the other sessions are as `task_run` left them.
  pub session_run_works :
      (sid k : ℕ) (y z : System L js) (s u : Sess L js) (j : Job M) (more : List (Job M))
      (gone : List M) (rc : ℤ)
      → sessions_find L js sid y.sessions ≡ some s
      → s.status ≡ ready
      → js.contents s.tasks ≡ j ∷ more
      → task_run L js newthread resume j.tid s.state j.message (taken_over s y) ≡ ended z gone rc
      → IsAscending (cmp_session L js) z.sessions
      → sessions_find L js sid z.sessions ≡ some u
      → u.ref_count ≡ pos (suc k)
      → Rested sid k u z.sessions gone z (session_run L js newthread resume sid y)
  unfolding sessions_find
  session_run_works sid k y z s u j more gone rc e st q run h f n =
      let (w, end, is, r0, r1, r2) = rests sid k z.sessions gone z rc u (h, f, λ x ne. refl) n in
      (
        w,
        began_with sid y s e st
            ∙ ap
                (λ xs.
                  after_job L js newthread resume sid
                    (run_job L js newthread resume (head? xs) s.state (taken_over s y)))
                q
            ∙ ap (after_job L js newthread resume sid) run
            ∙ end,
        is,
        r0,
        r1,
        r2,
      )

  abbrev at_count : ℤ → Sess L js → Sess L js
  at_count k s = record s { ref_count = k }

  -- missing
  pub session_run_missing :
      (sid : ℕ) (y : System L js)
      → sessions_find L js sid y.sessions ≡ none
      → session_run L js newthread resume sid y ≡ ended y [] err_inval
  unfolding session_run
  session_run_missing sid y e = rw (session_ref_missing L js sid y.sessions e) refl

  -- running
  pub session_run_running :
      (sid : ℕ) (y : System L js) (s : Sess L js)
      → SessionsValid L js y.sessions
      → sessions_find L js sid y.sessions ≡ some s
      → s.status ≡ running
      → session_run L js newthread resume sid y ≡ ended y [] success
  unfolding session_run
  session_run_running sid y s h e st =
      let ss = (session_ref L js sid y.sessions).0 in
      ap (λ p. run_by L js newthread resume sid (record y { sessions = ss }) p.1)
        (session_ref_more L js sid y.sessions s e)
      ∙ ap (begun_by L js newthread resume sid (record y { sessions = ss }))
          (begin_running L js (referenced L js s) st)
      ∙ ap (λ xs. ended (record y { sessions = xs }) [] success)
          (session_returned L js sid y.sessions s h e)

  -- On an ordered registry of sessions with references, for a session that is found, ready and
  -- without a job, `session_run` returns SUCCESS, posts the session's semaphore, and leaves it
  -- ready. Every other session, the tasks and the submissions stay.
  pub session_run_empty :
      (sid : ℕ) (y : System L js) (s : Sess L js)
      → SessionsValid L js y.sessions
      → sessions_find L js sid y.sessions ≡ some s
      → s.status ≡ ready
      → js.contents s.tasks ≡ []
      → (w : System L js) × (session_run L js newthread resume sid y ≡ ended w [] success)
        × SessionIs L js sid
            (some (record s { status = ready; sem = suc s.sem; tasks = (js.pop s.tasks).0 }))
            y.sessions
            w.sessions
        × (w.submitted ≡ y.submitted)
        × (w.tasks ≡ y.tasks)
        × (w.current ≡ y.current)
  unfolding sessions_find
  session_run_empty sid y s h e st q =
      let l =
        lookup-IsLive (cmp_session L js) (session-IsOrder L js) (session_counter L js)
          (session-IsCounter L js) Any (λ t k p. p) (with_sid L js sid) s y.sessions e h in
      let d : Sess L js = record (referenced L js s) {
        status = running;
        tasks = (js.pop s.tasks).0;
      } in
      let held =
        put_is (cmp_session L js) (session-IsOrder L js) (session_counter L js)
          (session-IsCounter L js) (with_sid L js sid) d y.sessions y.sessions
          (found_key L js sid y.sessions s d e refl) (h.0, e, λ z ne. refl) in
      let final : Sess L js = record s {
        status = ready;
        sem = suc s.sem;
        tasks = (js.pop s.tasks).0;
      } in
      let left : js.contents (js.pop s.tasks).0 ≡ [] = js.contents-pop s.tasks ∙ ap tail q in
      let (w, end, is, r0, r1, r2) =
        rests sid (suc l.others) y.sessions [] (taken_over s y) success d held
          (ap succ l.counted) in
      (
        w,
        began_with sid y s e st
            ∙ ap
                (λ xs.
                  after_job L js newthread resume sid
                    (run_job L js newthread resume (head? xs) s.state (taken_over s y)))
                q
            ∙ end,
        subst (λ c. SessionIs L js sid (some c) y.sessions w.sessions)
            (ap (λ xs. at_count (pos (suc l.others)) (at_rest L js xs d)) left
              ∙ ap (λ k. at_count k final) (sym l.counted))
            is,
        r0 ∙ ap (λ xs. y.submitted ++ again_if L js sid xs) left ∙ append-nil y.submitted,
        r1,
        r2,
      )
