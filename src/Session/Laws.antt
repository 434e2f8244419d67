-- ===== src/Session/Laws.antt =====
-- src/lc_task.c and src/lc_session.c: the two registries, with their counting.
use casting.Base.{ℕ, suc, ◌≡◌, refl, sym, ◌∙◌, ap, Ordering, Option, none, some, List, pos, ℤ}
use casting.Fifo.{Fifo}
use casting.Map.Sorted.{IsOrder, IsAscending, lookup}
use casting.Registry.{compare_ℤ, put}
use casting.Registry.Keys.{ℤ-IsOrder, by_key-IsOrder}
use casting.Registry.Laws.{lookup_key, lookup-put, put_again}
use casting.Registry.Counting.{IsCounter, ref_found, ref_missing, free_keeps, free-ref}
use casting.Registry.Live.{IsRegistry, lookup-IsLive}
use casting.Task.{Task, int_of, cmp_task, task_counter, with_tid, tasks_find, task_ref, task_free}
use casting.Session.{Job, Sess, cmp_session, session_counter, with_sid, session_ref, session_free}

abbrev pub Any {ℓ} : {A : Type ℓ} → A → Type 0
Any a = Unit

module _ {L : Type 0} where
  pub task-IsOrder : IsOrder (cmp_task {L = L})
  unfolding cmp_task
  task-IsOrder = by_key-IsOrder compare_ℤ ℤ-IsOrder (λ t. int_of t.id)

  pub task-IsCounter : IsCounter (cmp_task {L = L}) task_counter
  unfolding cmp_task
  task-IsCounter = record {
    count-recount = λ t n. refl;
    recount-count = λ t. refl;
    recount-recount = λ t m n. refl;
    recount_key = λ t n. ℤ-IsOrder.cmp_refl (int_of t.id);
  }

  -- The tasks are in the order of their ids, and each has a reference.
  abbrev pub TasksValid : List (Task L) → Type 0
  TasksValid ts = IsRegistry cmp_task task_counter Any ts

  pub task_ref_missing :
      (tid : ℕ) (ts : List (Task L)) → tasks_find tid ts ≡ none → task_ref tid ts ≡ (ts, none)
  unfolding tasks_find task_ref
  task_ref_missing tid ts e = ref_missing cmp_task task-IsOrder task_counter task-IsCounter _ ts e

  -- What is found is given with one more reference, and giving that back leaves all as it was.
  pub task_ref_found :
      (tid : ℕ) (ts : List (Task L)) (t : Task L)
      → TasksValid ts
      → tasks_find tid ts ≡ some t
      → (k : ℤ) × ((task_ref tid ts).1 ≡ some (record t { ref_count = k }))
        × (task_free tid (task_ref tid ts).0 ≡ ts)
  unfolding tasks_find task_ref task_free
  task_ref_found tid ts t h e =
      let l =
        lookup-IsLive cmp_task task-IsOrder task_counter task-IsCounter Any (λ t k p. p) _ t ts e
          h in
      (
        pos (suc (suc l.others)),
        ap (λ p. p.1)
            (ref_found cmp_task task-IsOrder task_counter task-IsCounter (with_tid tid) ts t
              (suc l.others) e l.counted),
        ap (λ p. p.0)
            (free-ref cmp_task task-IsOrder task_counter task-IsCounter (with_tid tid) t ts l.others
              h.0 e l.counted),
      )

module _ (L : Type 0) {M : Type 0} (js : Fifo (Job M)) where
  abbrev cmp : Sess L js → Sess L js → Ordering
  cmp = cmp_session L js

  pub session-IsOrder : IsOrder cmp
  unfolding cmp_session
  session-IsOrder = by_key-IsOrder compare_ℤ ℤ-IsOrder (λ s. int_of s.id)

  pub session-IsCounter : IsCounter cmp (session_counter L js)
  unfolding cmp_session
  session-IsCounter = record {
    count-recount = λ t n. refl;
    recount-count = λ t. refl;
    recount-recount = λ t m n. refl;
    recount_key = λ t n. ℤ-IsOrder.cmp_refl (int_of t.id);
  }

  abbrev pub SessionsValid : List (Sess L js) → Type 0
  SessionsValid ss = IsRegistry cmp (session_counter L js) Any ss

  unfoldable pub sessions_find : ℕ → List (Sess L js) → Option (Sess L js)
  sessions_find sid ss = lookup cmp (with_sid L js sid) ss

  pub session_ref_missing :
      (sid : ℕ) (ss : List (Sess L js))
      → sessions_find sid ss ≡ none
      → session_ref L js sid ss ≡ (ss, none)
  unfolding sessions_find session_ref
  session_ref_missing sid ss e =
      ref_missing cmp session-IsOrder (session_counter L js) session-IsCounter _ ss e

  pub same_key : (c d : Sess L js) → c.id ≡ d.id → cmp c d ≡ Ordering.eq
  unfolding cmp_session
  same_key c d e = rw e (ℤ-IsOrder.cmp_refl (int_of d.id))

  -- `session_free` of a changed session with two references or more.
  free_changed :
      (sid : ℕ) (ss : List (Sess L js)) (s d : Sess L js) (k : ℕ)
      → IsAscending cmp ss
      → sessions_find sid ss ≡ some s
      → d.id ≡ s.id
      → d.ref_count ≡ pos (suc (suc k))
      → session_free L js sid (put cmp d ss) ≡ put cmp (record d { ref_count = pos (suc k) }) ss
  unfolding sessions_find session_free
  free_changed sid ss s d k h e i n =
      let key' = session-IsOrder.cmp_congr d s (with_sid L js sid) (same_key d s i) in
      let found : lookup cmp (with_sid L js sid) (put cmp d ss) ≡ some d =
        lookup-put cmp session-IsOrder d (with_sid L js sid) ss h
        ∙ rw (key' ∙ lookup_key cmp session-IsOrder (with_sid L js sid) ss s e) refl in
      ap (λ p. p.0)
        (free_keeps cmp session-IsOrder (session_counter L js) session-IsCounter (with_sid L js sid)
          (put cmp d ss) d k found n)
      ∙ put_again cmp session-IsOrder (record d { ref_count = pos (suc k) }) d ss
          (same_key (record d { ref_count = pos (suc k) }) d refl)

  -- A session that is found, referenced, changed but for its id and count, and freed again.
  pub session_changed :
      (sid : ℕ) (ss : List (Sess L js)) (s : Sess L js)
      → SessionsValid ss
      → sessions_find sid ss ≡ some s
      → (k : ℤ) × ((session_ref L js sid ss).1 ≡ some (record s { ref_count = k }))
        × ((d : Sess L js)
            → d.id ≡ s.id
            → d.ref_count ≡ k
            → session_free L js sid (put cmp d (session_ref L js sid ss).0)
              ≡ put cmp (record d { ref_count = s.ref_count }) ss)
  unfolding sessions_find session_ref session_free
  session_changed sid ss s h e =
      let l =
        lookup-IsLive cmp session-IsOrder (session_counter L js) session-IsCounter Any (λ t k p. p)
          _ s ss e h in
      let got =
        ref_found cmp session-IsOrder (session_counter L js) session-IsCounter (with_sid L js sid)
          ss s (suc l.others) e l.counted in
      (
        pos (suc (suc l.others)),
        ap (λ p. p.1) got,
        λ d i n.
            ap (λ xs. session_free L js sid (put cmp d xs)) (ap (λ p. p.0) got)
            ∙ ap (session_free L js sid) (
                put_again cmp session-IsOrder d (record s { ref_count = pos (suc (suc l.others)) })
                  ss (same_key d (record s { ref_count = pos (suc (suc l.others)) }) i))
            ∙ free_changed sid ss s d l.others h.0 e i n
            ∙ ap (λ c. put cmp (record d { ref_count = c }) ss) (sym l.counted),
      )
