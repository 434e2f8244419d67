-- ===== src/Session/Turns.antt =====
-- src/lc_session.c: one session between the threads that queue jobs for it and the threads of the pool
-- that run it, each of which has the session's lock for a step.
pub mod Drain
use casting.Base.{ℕ, suc, ◌+◌, ◌≡◌, Bool, true, false, Option, none, some, List, [], ◌∷◌, ◌++◌}
use casting.Fifo.{Fifo}
use casting.Session.{Job, Sess, enqueue, begin_run, end_run}

module _ (L : Type 0) {M : Type 0} (js : Fifo (Job M)) where
  -- How often the session is submitted to the pool and not yet taken, how many threads are between the
  -- two halves of `session_run`, the jobs that were taken and those that were queued, in order.
  pub record State : Type 0 where
    pub session : Sess L js
    pub pending : ℕ
    pub working : ℕ
    pub taken : List (Job M)
    pub sent : List (Job M)

  abbrev pub one_if : Bool → ℕ
  one_if true = 1
  one_if false = 0

  abbrev pub listed : Option (Job M) → List (Job M)
  listed none = []
  listed (some j) = j ∷ []

  -- `session_queue_task` in any thread.
  unfoldable pub send : Job M → State → State
  send j u =
      let (s, again) = enqueue L js j u.session in
      record u { session = s; pending = u.pending + one_if again; sent = u.sent ++ (j ∷ []) }

  abbrev pub taken_up : State → Option (Sess L js × Option (Job M)) → State
  taken_up u none = u
  taken_up u (some (s, j)) = record u {
    session = s;
    working = suc u.working;
    taken = u.taken ++ listed j;
  }

  -- A thread of the pool takes the session, and runs the first half of `session_run`.
  unfoldable pub take_up : ℕ → State → State
  take_up n u = taken_up (record u { pending = n }) (begin_run L js u.session)

  -- A thread runs the second half.
  unfoldable pub rest : ℕ → State → State
  rest n u =
      let (s, again) = end_run L js u.session in
      record u { session = s; pending = u.pending + one_if again; working = n }

  pub data Step : State → State → Type 0 where
    sends : (u : State) (j : Job M) → Step u (send j u)
    takes : (u : State) (n : ℕ) → u.pending ≡ suc n → Step u (take_up n u)
    rests : (u : State) (n : ℕ) → u.working ≡ suc n → Step u (rest n u)

  -- A new session, for any id and any Lua state.
  abbrev pub begin_with : Sess L js → State
  begin_with s = record { session = s; pending = 0; working = 0; taken = []; sent = [] }

  pub data Reachable (s : Sess L js) : State → Type 0 where
    begin : Reachable s (begin_with s)
    after : {u v : State} → Reachable s u → Step u v → Reachable s v
