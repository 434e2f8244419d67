-- ===== src/Methods.antt =====
-- src/lc_channel.c: the methods `write` and `read` of a channel in Lua, whose callbacks resume tasks.
pub mod Keeping
pub mod Passing
pub mod Waiting
use casting.Base.{
  ℕ, zero, suc, Bool, true, false, not, ◌&&◌, Option, none, some, List, [], ◌∷◌, ◌++◌,
  if◌then◌else◌, ℤ, ◌==◌, err_full,
}
use casting.Fifo.{Fifo}
use casting.Errors.{same_code}
use casting.Registry.{put}
use casting.Task.{Task, task_ref, task_current}
use casting.Session.{Job}
use casting.Session.Calls.{System, free_task, task_resume}
use casting.Channel.Defs.{
  Event, read, write, closed, Status, channel_open, channel_closed, Reader, Writer, Call, done,
  fault, Chan, Result, channel_write, channel_read,
}
use casting.Channel.Registry.{cmp_channel, Channels, Change, changed, channel_ref, channel_free}

-- The callbacks, whose data is the id of a task, or a `session_cb` by a number.
pub data Callback : Type 0 where
  task_callback session_callback : Callback

-- `yes` is the message that `task_callback` makes of `true`.
module _ (L : Type 0) {M : Type 0} (js : Fifo (Job M)) (ms : Fifo M) (rs : Fifo (Reader Callback ℕ))
    (ws : Fifo (Writer Callback ℕ M)) (yes : M) where
  -- The two registries, the messages that were destroyed, in order, and the `session_cb` whose
  -- semaphores were posted.
  pub record World : Type 0 where
    pub system : System L js
    pub channels : Channels ms rs ws
    pub destroyed : List M
    pub woken : List ℕ

  abbrev pub told_task : Event → Option M → ℕ → World → World
  told_task read m tid w = record w { system = (task_resume L js tid m w.system).0 }
  told_task write none tid w = record w { system = (task_resume L js tid (some yes) w.system).0 }
  told_task write (some m) tid w = record w {
    system = (task_resume L js tid (some yes) w.system).0;
    destroyed = w.destroyed ++ (m ∷ []);
  }
  told_task closed m tid w = w

  -- One call of a callback. What `session_callback` decodes onto its Lua stack is left out.
  abbrev pub perform : Call Callback ℕ M → World → World
  perform c w = elim c.cb [
    | task_callback ↦ told_task c.event c.message c.arg w
    | session_callback ↦ record w { woken = w.woken ++ (c.arg ∷ []) }
  ]

  abbrev pub perform_all : List (Call Callback ℕ M) → World → World
  perform_all [] w = w
  perform_all (c ∷ cs) w = perform_all cs (perform c w)

  -- What the method gives to Lua: an error, `nil` and "closed", the result of `task_yield`, or `true`.
  -- `waits` is a wait for a semaphore that is not posted.
  pub data Reply : Type 0 where
    invalid closed_channel waits true_value : Reply
    yields : Option (Option L) → Reply

  pub data Replied : Type 0 where
    replied : World → Reply → Replied
    faulted : Replied

  -- `task_yield`: the thread that `lua_yield` is called with, or `none` for ERR_INVAL.
  abbrev pub yielded_by : ℕ → System L js → Option (Task L) → System L js × Option (Option L)
  yielded_by tid y none = (y, none)
  yielded_by tid y (some t) = (free_task L js tid y, some t.thread)

  unfoldable pub task_yield : ℕ → System L js → System L js × Option (Option L)
  task_yield tid y =
      let (ts, t) = task_ref tid y.tasks in yielded_by tid (record y { tasks = ts }) t

  -- The end of a method, with `channel_free`.
  abbrev pub freed : World → Change ms rs ws Unit → (World → Replied) → Replied
  freed w (changed s calls gone x) f =
      f (perform_all calls (record w { channels = s; destroyed = w.destroyed ++ gone }))
  freed w other f = faulted

  abbrev pub free_channel : ℕ → World → (World → Replied) → Replied
  free_channel cid w f = freed w (channel_free ms rs ws (some cid) w.channels) f

  abbrev pub finish_task : ℕ → World → Replied
  finish_task tid w =
      let (y, r) = task_yield tid w.system in replied (record w { system = y }) (yields r)

  abbrev pub put_channel : Chan ms rs ws → World → World
  put_channel c w = record w {
    channels = record w.channels { channels = put (cmp_channel ms rs ws) c w.channels.channels };
  }

  -- After the channel's operation in a task: its callbacks are called, the reference is given back, and the
  -- task yields.
  abbrev pub after_task : ℕ → World → Result ms rs ws → Replied
  after_task tid w fault = faulted
  after_task tid w (done c calls rc) =
      free_channel c.id (perform_all calls (put_channel c w)) (finish_task tid)

  abbrev pub posted : ℕ → List ℕ → Bool
  posted s [] = false
  posted s (x ∷ xs) = if x == s then true else posted s xs

  -- Outside of a task: where the result of the operation is the code `full`, the thread waits for the
  -- semaphore of its `session_cb`, `s`.
  abbrev pub after_session : ℤ → ℕ → World → Result ms rs ws → Replied
  after_session full s w fault = faulted
  after_session full s w (done c calls rc) =
      let v = perform_all calls (put_channel c w) in
      if same_code rc full && not (posted s v.woken)
      then replied v waits
      else free_channel c.id v (λ u. replied u true_value)

  -- In a task its id is copied; without memory for that it is written through NULL.
  abbrev pub wrote : Bool → Option M → ℕ → ℕ → Chan ms rs ws → World → Replied
  wrote mem m s zero c w =
      after_session err_full s w (channel_write ms rs ws c m (some session_callback) s)
  wrote true m s (suc n) c w =
      after_task (suc n) w (channel_write ms rs ws c m (some task_callback) (suc n))
  wrote false m s (suc n) c w = faulted

  abbrev pub has_read : Bool → ℕ → ℕ → Chan ms rs ws → World → Replied
  has_read mem s zero c w =
      after_session err_full s w (channel_read ms rs ws c (some session_callback) s)
  has_read true s (suc n) c w =
      after_task (suc n) w (channel_read ms rs ws c (some task_callback) (suc n))
  has_read false s (suc n) c w = faulted

  abbrev pub unless_closed : Status → ℕ → World → Replied → Replied
  unless_closed channel_closed cid w r = free_channel cid w (λ u. replied u closed_channel)
  unless_closed channel_open cid w r = r

  abbrev pub wrote_to : Bool → Option M → ℕ → World → Option (Chan ms rs ws) → Replied
  wrote_to mem m s w none = replied w invalid
  wrote_to mem m s w (some c) =
      unless_closed c.status c.id w (wrote mem m s (task_current w.system.current) c w)

  -- `m` is what `lua_newmessage` makes of the arguments, or NULL, `s` the number of the `session_cb`,
  -- `mem` whether there is memory for the task's id.
  unfoldable pub luac_write : Bool → ℕ → Option M → ℕ → World → Replied
  luac_write mem cid m s w =
      let (cs, c) = channel_ref ms rs ws cid w.channels in
      wrote_to mem m s (record w { channels = cs }) c

  abbrev pub read_from : Bool → ℕ → World → Option (Chan ms rs ws) → Replied
  read_from mem s w none = replied w invalid
  read_from mem s w (some c) =
      unless_closed c.status c.id w (has_read mem s (task_current w.system.current) c w)

  -- The code compares the result with ERR_FULL here, too.
  unfoldable pub luac_read : Bool → ℕ → ℕ → World → Replied
  luac_read mem cid s w =
      let (cs, c) = channel_ref ms rs ws cid w.channels in
      read_from mem s (record w { channels = cs }) c
