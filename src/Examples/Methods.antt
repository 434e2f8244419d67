-- ===== src/Examples/Methods.antt =====
-- src/lc_channel.c: a task writes to a channel on which another one waits, or which has room.
use casting.Base.{ℕ, ◌≡◌, ◌∙◌, ap, refl, arith, true, none, some, [], ◌∷◌, ◌++◌, pos}
use casting.Fifo.{Fifo}
use casting.Map.Node.{copied}
use casting.Map.Sorted.{lookup}
use casting.Queue.{node_data}
use casting.Queue.Linked.{linked_fifo}
use casting.Task.{running, Task, cmp_task, tasks_find}
use casting.Session.{Job, Sess}
use casting.Session.Calls.{System, task_resume}
use casting.Session.Laws.{TasksValid, SessionsValid}
use casting.Channel.Defs.{Reader, Writer, Chan, channel_new}
use casting.Channel.Laws.{reading, buffered, writing, room}
use casting.Channel.Registry.{cmp_channel, channel_find}
use casting.Channel.Registry.Laws.{IsValid}
use casting.Channel.Registry.Changing.{Replaces}
use casting.Methods.{Callback, task_callback, World, replied, yields, luac_write, luac_read}
use casting.Methods.Keeping.{handed}
use casting.Methods.Passing.{luac_write-hands, luac_write-buffers}
use casting.Methods.Waiting.{GoesOn, luac_read-GoesOn}

copies_none {ℓ} : {A : Type ℓ} (x : A) → node_data none (some x) ≡ copied (some x)
unfolding node_data
copies_none x = refl

copies_some {ℓ} : {A : Type ℓ} (x : A) → node_data (some copied) (some x) ≡ copied (some x)
unfolding node_data
copies_some x = refl

abbrev js : Fifo (Job ℕ)
js = linked_fifo (some copied) copies_some

abbrev ms : Fifo ℕ
ms = linked_fifo none copies_none

abbrev rs : Fifo (Reader Callback ℕ)
rs = linked_fifo (some copied) copies_some

abbrev ws : Fifo (Writer Callback ℕ ℕ)
ws = linked_fifo (some copied) copies_some

-- Task 2 waits to read from a channel without a buffer; another channel has room.
abbrev reader : Reader Callback ℕ
reader = record { cb = task_callback; arg = 2 }

abbrev meeting : Chan ms rs ws
meeting = let c = channel_new ms rs ws 1 (pos 0) in record c { readers = rs.push c.readers reader }

abbrev roomy : Chan ms rs ws
roomy = channel_new ms rs ws 2 (pos 3)

abbrev writing_task : Task ℕ
writing_task = record { id = 1; sid = 1; ref_count = pos 1; thread = some 8; status = running }

abbrev reading_task : Task ℕ
reading_task = record { id = 2; sid = 1; ref_count = pos 1; thread = some 9; status = running }

abbrev session : Sess ℕ js
session = record {
  id = 1;
  ref_count = pos 1;
  state = some 7;
  status = running;
  sem = 0;
  tasks = js.new;
}

abbrev system : System ℕ js
system = record {
  tasks = writing_task ∷ (reading_task ∷ []);
  sessions = session ∷ [];
  submitted = [];
  current = some 1;
}

abbrev world : World ℕ js ms rs ws 77
world = record {
  system = system;
  channels = record { channels = meeting ∷ (roomy ∷ []); next_id = 2 };
  destroyed = [];
  woken = [];
}

channels-IsValid : IsValid ms rs ws world.channels
unfolding cmp_channel channel_new
channels-IsValid = (
  ((refl, tt), (tt, tt)),
  (
    record { others = 0; counted = refl; proper = omega arith },
    (record { others = 0; counted = refl; proper = omega arith }, tt),
  ),
)

tasks-TasksValid : TasksValid system.tasks
unfolding cmp_task
tasks-TasksValid = (
  ((refl, tt), (tt, tt)),
  (
    record { others = 0; counted = refl; proper = tt },
    (record { others = 0; counted = refl; proper = tt }, tt),
  ),
)

sessions-SessionsValid : SessionsValid ℕ js system.sessions
sessions-SessionsValid = ((tt, tt), (record { others = 0; counted = refl; proper = tt }, tt))

finds_meeting : channel_find ms rs ws 1 world.channels ≡ some meeting
unfolding channel_find lookup cmp_channel channel_new
finds_meeting = refl

finds_roomy : channel_find ms rs ws 2 world.channels ≡ some roomy
unfolding channel_find lookup cmp_channel channel_new
finds_roomy = refl

finds_writer : tasks_find 1 system.tasks ≡ some writing_task
unfolding tasks_find lookup cmp_task
finds_writer = refl

one_reads : reading ms rs ws meeting ≡ reader ∷ []
unfolding channel_new
one_reads = rs.contents-push rs.new reader ∙ ap (λ xs. xs ++ (reader ∷ [])) rs.contents-new

has_room : room ms rs ws roomy ≡ true
unfolding channel_new
has_room = rw (ms.size-length, ms.contents-new) refl

luac_write-hands_example :
    (v : World ℕ js ms rs ws 77) × (luac_write ℕ js ms rs ws 77 true 1 (some 50) 0 world
      ≡ replied v (yields (some (some 8))))
    × (v.system ≡ handed ℕ js 77 (room ms rs ws meeting) 1 2 50 system)
    × (v.destroyed ≡ 50 ∷ [])
    × (v.woken ≡ [])
    × ((d : Chan ms rs ws) × Replaces ms rs ws d world.channels v.channels
        × (d.id ≡ 1)
        × (reading ms rs ws d ≡ [])
        × (buffered ms rs ws d ≡ [])
        × (writing ms rs ws d ≡ []))
unfolding channel_new
luac_write-hands_example =
    luac_write-hands ℕ js ms rs ws 77 1 0 50 world meeting 0 writing_task reader [] channels-IsValid
      tasks-TasksValid sessions-SessionsValid finds_meeting refl refl finds_writer one_reads refl
      ms.contents-new ws.contents-new

luac_write-buffers_example :
    (v : World ℕ js ms rs ws 77) × (luac_write ℕ js ms rs ws 77 true 2 (some 50) 0 world
      ≡ replied v (yields (some (some 8))))
    × (v.system ≡ (task_resume ℕ js 1 (some 77) system).0)
    × (v.destroyed ≡ 50 ∷ [])
    × (v.woken ≡ [])
    × ((d : Chan ms rs ws) × Replaces ms rs ws d world.channels v.channels
        × (d.id ≡ 2)
        × (reading ms rs ws d ≡ [])
        × (buffered ms rs ws d ≡ buffered ms rs ws roomy ++ (50 ∷ []))
        × (writing ms rs ws d ≡ writing ms rs ws roomy))
unfolding channel_new
luac_write-buffers_example =
    luac_write-buffers ℕ js ms rs ws 77 2 0 50 world roomy 0 writing_task channels-IsValid
      tasks-TasksValid sessions-SessionsValid finds_roomy refl refl finds_writer rs.contents-new
      has_room

luac_read-GoesOn_example : GoesOn ℕ js ms rs ws 77 (
    luac_read ℕ js ms rs ws 77 true 2 0
      (record world { system = record system { current = none } }))
luac_read-GoesOn_example =
    luac_read-GoesOn ℕ js ms rs ws 77 true 2 0
      (record world { system = record system { current = none } })
