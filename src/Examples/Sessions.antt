-- ===== src/Examples/Sessions.antt =====
-- src/lc_session.c and src/lc_task.c: a session and its tasks, where messages and Lua states are numbers.
use casting.Base.{
  ℕ, ◌≤◌, ◌<◌, ◌≡◌, ◌⊎◌, refl, ◌∙◌, ap, arith, Option, none, some, [], ◌∷◌, ◌++◌, ℤ, pos, success,
}
use casting.Fifo.{Fifo}
use casting.Map.Node.{copied}
use casting.Map.Sorted.{lookup, insert}
use casting.Registry.{ref, free, taken, dropped, dropped_if}
use casting.Queue.{node_data}
use casting.Queue.Linked.{linked_fifo}
use casting.Registry.Counting.{entry}
use casting.Task.{
  ready, running, suspended, finished, error, Task, cmp_task, task_counter, tasks_find, task_ref,
  task_free, task_set_current, task_current,
}
use casting.Task.Laws.{set_all, task_current_sticks}
use casting.Session.{Job, Sess, cmp_session, lua_yield, settle, enqueue}
use casting.Session.Calls.{System, put_task, task_resume}
use casting.Session.Running.{ended, task_run, session_run}
use casting.Session.Laws.{TasksValid, SessionsValid, sessions_find}
use casting.Session.Resuming.{resume_for, task_resume_lem}
use casting.Session.Held.{more}
use casting.Session.Tasks.{entered, launched, Settled, task_run_idle, task_run_resumes}
use casting.Session.Runs.{Rested, taken_over, session_run_works}
use casting.Session.Turns.{State, send, sends, begin_with, Reachable, begin, after}
use casting.Session.Turns.Drain.{work, rounds, work-drains}
use casting.Session.Order.{queued, Reachable-IsFair}

copies {ℓ} : {A : Type ℓ} (x : A) → node_data (some copied) (some x) ≡ copied (some x)
unfolding node_data
copies x = refl

abbrev js : Fifo (Job ℕ)
js = linked_fifo (some copied) copies

abbrev job : Job ℕ
job = record { tid = 1; message = some 50 }

abbrev idle : Sess ℕ js
idle = record { id = 1; ref_count = pos 1; state = some 7; status = ready; sem = 0; tasks = js.new }

-- Tasks that are ready, and that have finished with an error.
abbrev first : Task ℕ
first = record { id = 1; sid = 1; ref_count = pos 1; thread = none; status = ready }

abbrev second : Task ℕ
second = record { id = 2; sid = 1; ref_count = pos 2; thread = some 8; status = error }

abbrev system : Sess ℕ js → System ℕ js
system s = record {
  tasks = first ∷ (second ∷ []);
  sessions = s ∷ [];
  submitted = [];
  current = none;
}

abbrev with_job : Sess ℕ js
with_job = record idle { tasks = js.push js.new job }

tasks-TasksValid : TasksValid (first ∷ (second ∷ []))
unfolding cmp_task
tasks-TasksValid = (
  ((refl, tt), (tt, tt)),
  (
    record { others = 0; counted = refl; proper = tt },
    (record { others = 1; counted = refl; proper = tt }, tt),
  ),
)

sessions-SessionsValid : (s : Sess ℕ js) → s.ref_count ≡ pos 1 → SessionsValid ℕ js (s ∷ [])
sessions-SessionsValid s e = ((tt, tt), (record { others = 0; counted = e; proper = tt }, tt))

-- Every thread is 9, and Lua yields at once.
abbrev newthread : Option ℕ → Option ℕ
newthread l = some 9

abbrev yields : System ℕ js → Option ℕ → Option ℕ → System ℕ js × ℤ
yields y l m = (y, lua_yield)

finds_first : tasks_find 1 (system idle).tasks ≡ some first
unfolding tasks_find lookup cmp_task
finds_first = refl

finds_second : tasks_find 2 (system idle).tasks ≡ some second
unfolding tasks_find lookup cmp_task
finds_second = refl

task_current_sticks_example : task_current (set_all (4 ∷ (0 ∷ (5 ∷ []))) none) ≡ 4
task_current_sticks_example = task_current_sticks 4 (0 ∷ (5 ∷ []))

task_resume_lem_example :
    task_resume ℕ js 1 (some 50) (system idle)
    ≡ resume_for ℕ js job (system idle) (tasks_find 1 (system idle).tasks)
task_resume_lem_example =
    task_resume_lem ℕ js 1 (some 50) (system idle) tasks-TasksValid
      (sessions-SessionsValid idle refl)

task_run_idle_example :
    Settled ℕ js newthread yields 2
      (some (record second { status = finished }))
      (system idle).tasks
      []
      (record (system idle) { current = task_set_current 2 none })
      (task_run ℕ js newthread yields 2 (some 7) (some 60) (system idle))
task_run_idle_example =
    task_run_idle ℕ js newthread yields 2 (some 7) (some 60) (system idle) second tasks-TasksValid
      finds_second tt

abbrev after_yield : System ℕ js
after_yield =
    put_task ℕ js (launched ℕ js newthread yields (some 7) ready (more first))
      (entered ℕ js newthread yields 1 first (system idle))

abbrev yielded : Task ℕ
yielded = launched ℕ js newthread yields (some 7) ready (more first)

task_run_resumes_example :
    Settled ℕ js newthread yields 1
      (entry task_counter (record yielded { status = settle lua_yield running }) 1)
      after_yield.tasks
      (50 ∷ [])
      after_yield
      (task_run ℕ js newthread yields 1 (some 7) (some 50) (system idle))
unfolding cmp_task tasks_find lookup insert
task_run_resumes_example =
    task_run_resumes ℕ js newthread yields 1 1 (some 7) (some 50) (system idle) after_yield first
      yielded lua_yield finds_first tt refl ((refl, tt), (tt, tt)) refl refl

holds_job : js.contents with_job.tasks ≡ job ∷ []
holds_job = js.contents-push js.new job ∙ ap (λ xs. xs ++ (job ∷ [])) js.contents-new

-- The session's run of its job.
abbrev in_run : Sess ℕ js
in_run = record with_job { ref_count = pos 2; status = running; tasks = (js.pop with_job.tasks).0 }

abbrev after_task : System ℕ js
after_task = record {
  tasks = (record first { thread = some 9; status = suspended }) ∷ (second ∷ []);
  sessions = in_run ∷ [];
  submitted = [];
  current = some 1;
}

task_yields :
    task_run ℕ js newthread yields 1
      (some 7)
      (some 50)
      (taken_over ℕ js newthread yields with_job (system with_job))
    ≡ ended after_task (50 ∷ []) success
unfolding task_run tasks_find task_ref task_free ref free taken dropped dropped_if lookup insert
    cmp_task cmp_session task_set_current
task_yields = refl

session_run_works_example :
    Rested ℕ js newthread yields 1 1 in_run
      (in_run ∷ [])
      (50 ∷ [])
      after_task
      (session_run ℕ js newthread yields 1 (system with_job))
unfolding sessions_find lookup cmp_session
session_run_works_example =
    session_run_works ℕ js newthread yields 1 1 (system with_job) after_task with_job in_run job []
      (50 ∷ []) success refl refl holds_job task_yields (tt, tt) refl refl

-- Two jobs are sent, and the first is taken.
abbrev sent_two : State ℕ js
sent_two = send ℕ js (record { tid = 2; message = none }) (send ℕ js job (begin_with ℕ js idle))

sent_two-Reachable : Reachable ℕ js idle sent_two
sent_two-Reachable = after (after begin (sends (begin_with ℕ js idle) job)) (sends _ _)

Reachable-IsFair_example :
    (sent_two.taken ++ queued ℕ js sent_two ≡ sent_two.sent)
    × (((sent_two.session.status ≡ running) × (sent_two.working ≡ 1))
        ⊎ ((sent_two.session.status ≡ ready)
            × (sent_two.working ≡ 0)
            × ((queued ℕ js sent_two ≡ []) ⊎ (0 < sent_two.pending))))
Reachable-IsFair_example = Reachable-IsFair ℕ js idle refl js.contents-new sent_two-Reachable

bounded : rounds ℕ js sent_two ≤ 8
unfolding send enqueue
bounded = rw (js.contents-push, js.contents-push, js.contents-new) (omega arith)

work-drains_example :
    (queued ℕ js (work ℕ js 8 sent_two) ≡ [])
    × ((work ℕ js 8 sent_two).taken ≡ sent_two.sent)
    × ((work ℕ js 8 sent_two).working ≡ 0)
    × ((work ℕ js 8 sent_two).session.status ≡ ready)
work-drains_example =
    work-drains ℕ js idle sent_two 8 refl js.contents-new sent_two-Reachable bounded
