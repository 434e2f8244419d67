-- ===== src/Session/Resting.antt =====
-- src/lc_session.c: a reference to a session taken and given back, and the second half of
-- `session_run`.
use casting.Base.{
  ℕ, suc, ◌≡◌, refl, ◌∙◌, ap, Ordering, Option, some, List, [], ◌∷◌, ◌++◌, append-nil, succ,
}
use casting.Fifo.{Fifo}
use casting.Registry.{put, ref, taken}
use casting.Registry.Laws.{lookup_key}
use casting.Registry.Counting.{Holding, free-ref}
use casting.Registry.Live.{lookup-IsLive}
use casting.Task.{ready}
use casting.Session.{
  Job, Sess, cmp_session, session_counter, with_sid, session_ref, session_free, end_run,
}
use casting.Session.Calls.{System, submit_if}
use casting.Session.Order.{end_empty, end_more}
use casting.Session.Laws.{
  Any, session-IsOrder, session-IsCounter, SessionsValid, sessions_find, same_key,
}

module _ (L : Type 0) {M : Type 0} (js : Fifo (Job M)) where
  -- In `us` the entry under `sid` is `e`, and every other one is that of `ss`.
  abbrev pub SessionIs : ℕ → Option (Sess L js) → List (Sess L js) → List (Sess L js) → Type 0
  SessionIs sid e ss us = Holding (cmp_session L js) (with_sid L js sid) e ss us

  abbrev pub referenced : Sess L js → Sess L js
  referenced s = record s { ref_count = succ s.ref_count }

  pub session_ref_more :
      (sid : ℕ) (ss : List (Sess L js)) (s : Sess L js)
      → sessions_find L js sid ss ≡ some s
      → session_ref L js sid ss ≡ (put (cmp_session L js) (referenced s) ss, some (referenced s))
  unfolding sessions_find session_ref ref taken
  session_ref_more sid ss s e = rw e refl

  pub session_returned :
      (sid : ℕ) (ss : List (Sess L js)) (s : Sess L js)
      → SessionsValid L js ss
      → sessions_find L js sid ss ≡ some s
      → session_free L js sid (session_ref L js sid ss).0 ≡ ss
  unfolding sessions_find session_ref session_free
  session_returned sid ss s h e =
      let l =
        lookup-IsLive (cmp_session L js) (session-IsOrder L js) (session_counter L js)
          (session-IsCounter L js) Any (λ t k p. p) (with_sid L js sid) s ss e h in
      ap (λ p. p.0)
        (free-ref (cmp_session L js) (session-IsOrder L js) (session_counter L js)
          (session-IsCounter L js) (with_sid L js sid) s ss l.others h.0 e l.counted)

  pub found_key :
      (sid : ℕ) (ss : List (Sess L js)) (s d : Sess L js)
      → sessions_find L js sid ss ≡ some s
      → d.id ≡ s.id
      → cmp_session L js d (with_sid L js sid) ≡ Ordering.eq
  unfolding sessions_find
  found_key sid ss s d e i =
      (session-IsOrder L js).cmp_congr d s (with_sid L js sid) (same_key L js d s i)
      ∙ lookup_key (cmp_session L js) (session-IsOrder L js) (with_sid L js sid) ss s e

  -- A session that is ready again is submitted again if it has a job.
  abbrev pub again_if : ℕ → List (Job M) → List ℕ
  again_if sid [] = []
  again_if sid (j ∷ more) = sid ∷ []

  -- What the second half of `session_run` makes of a session.
  abbrev pub at_rest : List (Job M) → Sess L js → Sess L js
  at_rest [] s = record s { status = ready; sem = suc s.sem }
  at_rest (j ∷ more) s = record s { status = ready }

  pub at_rest_keeps :
      (xs : List (Job M)) (s : Sess L js)
      → ((at_rest xs s).id ≡ s.id) × ((at_rest xs s).ref_count ≡ s.ref_count)
  at_rest_keeps [] s = (refl, refl)
  at_rest_keeps (x ∷ xs) s = (refl, refl)

  pub end_run_lem :
      (s : Sess L js) (sid : ℕ) (y : System L js)
      → ((end_run L js s).0 ≡ at_rest (js.contents s.tasks) s)
        × ((submit_if L js (end_run L js s).1 sid y)
            ≡ record y { submitted = y.submitted ++ again_if sid (js.contents s.tasks) })
  end_run_lem s sid y = go (js.contents s.tasks) refl
    where
      go :
          (xs : List (Job M))
          → js.contents s.tasks ≡ xs
          → ((end_run L js s).0 ≡ at_rest xs s)
            × ((submit_if L js (end_run L js s).1 sid y)
                ≡ record y { submitted = y.submitted ++ again_if sid xs })
      go [] k = rw (end_empty L js s k, append-nil y.submitted) (refl, refl)
      go (x ∷ xs) k = rw (end_more L js s x xs k) (refl, refl)
