-- ===== src/Session.antt =====
-- src/lc_session.c: sessions with their queues of jobs, and the calls by which a task is queued, run and
-- resumed.
pub mod Calls
pub mod Running
pub mod Laws
pub mod Resuming
pub mod Tasks
pub mod Held
pub mod Resting
pub mod Runs
pub mod Turns
pub mod Order
use casting.Base.{
  ℕ, zero, suc, Bool, true, false, Ordering, Option, none, some, List, if◌then◌else◌, ℤ, pos,
  success,
}
use casting.Fifo.{Fifo}
use casting.Errors.{same_code}
use casting.Registry.{compare_ℤ, Counter, put, ref, free}
use casting.Task.{RunStatus, ready, running, suspended, finished, error, int_of}

-- `job_t`. A message that is NULL is `none`.
pub record Job (M : Type 0) : Type 0 where
  pub tid : ℕ
  pub message : Option M

-- `struct _session`, over the types of a Lua state and of its queue. `sem` is the semaphore's value.
pub record Session (L JQ : Type 0) : Type 0 where
  pub id : ℕ
  pub ref_count : ℤ
  pub state : Option L
  pub status : RunStatus
  pub sem : ℕ
  pub tasks : JQ

abbrev pub is_ready : RunStatus → Bool
is_ready ready = true
is_ready s = false

-- `LUA_YIELD` and `LUA_ERRRUN` of lua.h.
abbrev pub lua_yield : ℤ
lua_yield = pos 1

abbrev pub lua_errrun : ℤ
lua_errrun = pos 2

-- The status that the result of `lua_resume` leaves.
abbrev pub settle : ℤ → RunStatus → RunStatus
settle rc s =
    if same_code rc lua_errrun
    then error
    else if same_code rc lua_yield
    then suspended
    else if same_code rc (pos 0)
    then finished
    else s

module _ (L : Type 0) {M : Type 0} (js : Fifo (Job M)) where
  abbrev pub Sess : Type 0
  Sess = Session L js.Q

  unfoldable pub cmp_session : Sess → Sess → Ordering
  cmp_session a b = compare_ℤ (int_of a.id) (int_of b.id)

  abbrev pub session_counter : Counter Sess
  session_counter = record { count = λ s. s.ref_count; recount = λ s n. record s { ref_count = n } }

  -- `session_queue_task` under the session's lock: the job, and whether the session is submitted.
  unfoldable pub enqueue : Job M → Sess → Sess × Bool
  enqueue j s = (record s { tasks = js.push s.tasks j }, is_ready s.status)

  abbrev pub began : RunStatus → Sess → Option (Sess × Option (Job M))
  began running s = none
  began st s = some (record s { status = running; tasks = (js.pop s.tasks).0 }, (js.pop s.tasks).1)

  -- `session_run` under the lock for the first time: nothing where the session runs already.
  unfoldable pub begin_run : Sess → Option (Sess × Option (Job M))
  begin_run s = began s.status s

  abbrev pub rested : ℤ → Sess → Sess × Bool
  rested (pos zero) s = (record s { status = ready; sem = suc s.sem }, false)
  rested n s = (record s { status = ready }, true)

  -- `session_run` under the lock for the second time, and whether the session is submitted again.
  unfoldable pub end_run : Sess → Sess × Bool
  end_run s = rested (js.size s.tasks) s

  -- A key for the search: `session_t f = { sid }`.
  abbrev pub with_sid : ℕ → Sess
  with_sid sid = record {
    id = sid;
    ref_count = pos 0;
    state = none;
    status = ready;
    sem = 0;
    tasks = js.new;
  }

  unfoldable pub session_ref : ℕ → List Sess → List Sess × Option Sess
  session_ref sid ss = ref cmp_session session_counter (with_sid sid) ss

  -- The last reference closes the Lua state and frees the queue. The result is SUCCESS, which
  -- `session_close` takes for NULL.
  unfoldable pub session_free : ℕ → List Sess → List Sess
  session_free sid ss = (free cmp_session session_counter (with_sid sid) ss).0

  unfoldable pub session_close : ℕ → List Sess → List Sess × ℤ
  session_close sid ss = (session_free sid ss, success)

  abbrev created : Bool → Option L → List Sess × ℕ → Option ((List Sess × ℕ) × ℕ)
  created mem none s = none
  created mem (some l) (ss, next) =
      let c : Sess = record {
        id = suc next;
        ref_count = pos 1;
        state = some l;
        status = ready;
        sem = 0;
        tasks = js.new;
      } in
      some ((if mem then put cmp_session c ss else ss, suc next), suc next)

  -- The state is that of `luaL_newstate`, which `openlibs` uses before it is compared with NULL: `none`
  -- stands for that fault. The second number is `next`.
  unfoldable pub session_new : Bool → Option L → List Sess × ℕ → Option ((List Sess × ℕ) × ℕ)
  session_new mem l s = created mem l s
