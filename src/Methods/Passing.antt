-- ===== src/Methods/Passing.antt =====
-- src/lc_channel.c: what the methods do between tasks.
use casting.Base.{
  ℕ, suc, ◌≡◌, refl, sym, ◌∙◌, ap, subst, Bool, true, false, some, List, [], ◌∷◌, ◌++◌, append-nil,
  if◌then◌else◌,
}
use casting.Fifo.{Fifo}
use casting.Task.{Task, tasks_find, task_current}
use casting.Session.{Job}
use casting.Session.Calls.{System, task_resume}
use casting.Session.Laws.{TasksValid, SessionsValid}
use casting.Channel.Defs.{
  read, write, channel_open, Reader, Writer, Call, told, Chan, channel_write,
}
use casting.Channel.Laws.{
  reading, buffered, writing, Kept, room, channel_write_serves, write_room_waits,
  channel_write-room,
}
use casting.Channel.Registry.{channel_find, channel_free}
use casting.Channel.Registry.Laws.{IsValid, found_id}
use casting.Channel.Registry.Changing.{Replaces, referenced, channel_ref_more, channel_changed}
use casting.Methods.{
  Callback, task_callback, World, perform_all, yields, replied, after_task, freed, finish_task,
  put_channel, wrote, unless_closed, wrote_to, luac_write,
}
use casting.Methods.Keeping.{resume-Keeps, yield_lem, handed, handed-Keeps}

module _ (L : Type 0) {M : Type 0} (js : Fifo (Job M)) (ms : Fifo M) (rs : Fifo (Reader Callback ℕ))
    (ws : Fifo (Writer Callback ℕ M)) (yes : M) where
  abbrev W : Type 0
  W = World L js ms rs ws yes

  -- The two calls that a write makes for a waiting reader.
  abbrev two_calls : Bool → ℕ → Reader Callback ℕ → M → List (Call Callback ℕ M)
  two_calls b writer r m =
      if b
      then told task_callback writer m write ∷ (told r.cb r.arg m read ∷ [])
      else told r.cb r.arg m read ∷ (told task_callback writer m write ∷ [])

  perform_two :
      (b : Bool) (writer : ℕ) (r : Reader Callback ℕ) (m : M) (w : W)
      → r.cb ≡ task_callback
      → perform_all L js ms rs ws yes (two_calls b writer r m) w ≡ record w {
        system = handed L js yes b writer r.arg m w.system;
        destroyed = w.destroyed ++ (m ∷ []);
      }
  perform_two true writer r m w e = rw e refl
  perform_two false writer r m w e = rw e refl

  -- A write by a task, through the registry.
  enters :
      (cid s : ℕ) (m : M) (w : W) (c : Chan ms rs ws) (n : ℕ)
      → channel_find ms rs ws cid w.channels ≡ some c
      → c.status ≡ channel_open
      → w.system.current ≡ some (suc n)
      → luac_write L js ms rs ws yes true cid (some m) s w
        ≡ after_task L js ms rs ws yes
            (suc n)
            (put_channel L js ms rs ws yes (referenced ms rs ws c) w)
            (channel_write ms rs ws (referenced ms rs ws c) (some m) (some task_callback) (suc n))
  unfolding luac_write task_current
  enters cid s m w c n e o k =
      let v = put_channel L js ms rs ws yes (referenced ms rs ws c) w in
      ap (λ p. wrote_to L js ms rs ws yes true (some m) s (record w { channels = p.0 }) p.1)
        (channel_ref_more ms rs ws cid w.channels c e)
      ∙ ap
          (λ st. unless_closed L js ms rs ws yes st c.id v (
            wrote L js ms rs ws yes true (some m) s (task_current w.system.current)
              (referenced ms rs ws c) v))
          o
      ∙ ap
          (λ cur.
            wrote L js ms rs ws yes true (some m) s (task_current cur) (referenced ms rs ws c) v)
          k

  -- The end of a write whose callbacks are done.
  ends :
      (tid : ℕ) (y : System L js) (gone : List M) (w : W) (c d : Chan ms rs ws) (t : Task L)
      → IsValid ms rs ws w.channels
      → channel_find ms rs ws c.id w.channels ≡ some c
      → Kept ms rs ws (referenced ms rs ws c) d
      → TasksValid y.tasks
      → tasks_find tid y.tasks ≡ some t
      → let u : W =
          record (put_channel L js ms rs ws yes d
            (put_channel L js ms rs ws yes (referenced ms rs ws c) w)) {
              system = y;
              destroyed = gone;
            } in
        let back : Chan ms rs ws = record d { ref_count = c.ref_count } in
        (v : W) × (freed L js ms rs ws yes u
            (channel_free ms rs ws (some d.id) u.channels)
            (finish_task L js ms rs ws yes tid)
          ≡ replied v (yields (some t.thread)))
        × (v.system ≡ y)
        × (v.destroyed ≡ gone)
        × (v.woken ≡ w.woken)
        × Replaces ms rs ws back w.channels v.channels
  ends tid y gone w c d t h e k tv f =
      let (free_d, replaces) = channel_changed ms rs ws w.channels c d h e k.0 k.1 in
      let u : W =
        record (put_channel L js ms rs ws yes d
          (put_channel L js ms rs ws yes (referenced ms rs ws c) w)) {
            system = y;
            destroyed = gone;
          } in
      let back : Chan ms rs ws = record d { ref_count = c.ref_count } in
      let v : W = put_channel L js ms rs ws yes back (record w { system = y; destroyed = gone }) in
      (
        v,
        ap (λ r. freed L js ms rs ws yes u r (finish_task L js ms rs ws yes tid)) free_d
            ∙ ap (λ g. finish_task L js ms rs ws yes tid (record v { destroyed = g }))
                (append-nil gone)
            ∙ ap (λ p. replied (record v { system = p.0 }) (yields p.1))
                (yield_lem L js ms rs ws yes tid y t tv f),
        refl,
        refl,
        refl,
        replaces,
      )

  -- In a registry of channels in the order of their ids, none above the last one given, each
  -- with a reference, and registries of tasks and of sessions in order, each entry with a
  -- reference: where the current task, which is found, writes to an open channel that is found,
  -- on which a task's reader waits, with an empty buffer and no writer waiting, the method
  -- `write` resumes the reader's task with the message and the writer's with `true`, in that
  -- order if the buffer has no room and else the other way round, yields the writer's thread,
  -- and has destroyed the message that it handed over. The channel has the other readers, no
  -- message and no writer, and every other channel stays.
  pub luac_write-hands :
      (cid s : ℕ) (m : M) (w : W) (c : Chan ms rs ws) (n : ℕ) (t : Task L) (r : Reader Callback ℕ)
      (more : List (Reader Callback ℕ))
      → IsValid ms rs ws w.channels
      → TasksValid w.system.tasks
      → SessionsValid L js w.system.sessions
      → channel_find ms rs ws cid w.channels ≡ some c
      → c.status ≡ channel_open
      → w.system.current ≡ some (suc n)
      → tasks_find (suc n) w.system.tasks ≡ some t
      → reading ms rs ws c ≡ r ∷ more
      → r.cb ≡ task_callback
      → buffered ms rs ws c ≡ []
      → writing ms rs ws c ≡ []
      → (v : W) × (luac_write L js ms rs ws yes true cid (some m) s w
          ≡ replied v (yields (some t.thread)))
        × (v.system ≡ handed L js yes (room ms rs ws c) (suc n) r.arg m w.system)
        × (v.destroyed ≡ w.destroyed ++ (m ∷ []))
        × (v.woken ≡ w.woken)
        × ((d : Chan ms rs ws) × Replaces ms rs ws d w.channels v.channels
            × (d.id ≡ cid)
            × (reading ms rs ws d ≡ more)
            × (buffered ms rs ws d ≡ [])
            × (writing ms rs ws d ≡ []))
  luac_write-hands cid s m w c n t r more h tv sv e o cur f rd cb bf wr =
      let c' = referenced ms rs ws c in
      let same = found_id ms rs ws cid w.channels c e in
      let found : channel_find ms rs ws c.id w.channels ≡ some c =
        subst (λ i. channel_find ms rs ws i w.channels ≡ some c) (sym same) e in
      let (d, wrote_d, rd', bf', wr', k) =
        channel_write_serves ms rs ws c' m task_callback (suc n) r more o rd bf wr in
      let b = room ms rs ws c in
      let y = handed L js yes b (suc n) r.arg m w.system in
      let (y0, y1, y2) = handed-Keeps L js yes b (suc n) r.arg m w.system tv sv in
      let (v, end, v0, v1, v2, replaces) =
        ends (suc n) y (w.destroyed ++ (m ∷ [])) w c d t h found k (subst TasksValid (sym y0) tv)
          (subst (λ ts. tasks_find (suc n) ts ≡ some t) (sym y0) f) in
      (
        v,
        enters cid s m w c n e o cur
            ∙ ap
                (after_task L js ms rs ws yes (suc n)
                  (put_channel L js ms rs ws yes (referenced ms rs ws c) w))
                wrote_d
            ∙ ap
                (λ x.
                  freed L js ms rs ws yes x (channel_free ms rs ws (some d.id) x.channels)
                    (finish_task L js ms rs ws yes (suc n)))
                (perform_two b (suc n) r m
                  (put_channel L js ms rs ws yes d (put_channel L js ms rs ws yes c' w)) cb)
            ∙ end,
        v0,
        v1,
        v2,
        (record d { ref_count = c.ref_count }, replaces, k.0 ∙ same, rd', bf', wr'),
      )

  -- In registries of channels in the order of their ids, none above the last one given, and of
  -- tasks and of sessions in order, each entry with a reference: where the current task, which
  -- is found, writes to an open channel that is found, on which no reader waits and whose buffer
  -- has room, the method `write` puts the message into the buffer, resumes the writer's task
  -- with `true`, yields its thread, and has destroyed the message that is in the buffer. Every
  -- other channel stays.
  pub luac_write-buffers :
      (cid s : ℕ) (m : M) (w : W) (c : Chan ms rs ws) (n : ℕ) (t : Task L)
      → IsValid ms rs ws w.channels
      → TasksValid w.system.tasks
      → SessionsValid L js w.system.sessions
      → channel_find ms rs ws cid w.channels ≡ some c
      → c.status ≡ channel_open
      → w.system.current ≡ some (suc n)
      → tasks_find (suc n) w.system.tasks ≡ some t
      → reading ms rs ws c ≡ []
      → room ms rs ws c ≡ true
      → (v : W) × (luac_write L js ms rs ws yes true cid (some m) s w
          ≡ replied v (yields (some t.thread)))
        × (v.system ≡ (task_resume L js (suc n) (some yes) w.system).0)
        × (v.destroyed ≡ w.destroyed ++ (m ∷ []))
        × (v.woken ≡ w.woken)
        × ((d : Chan ms rs ws) × Replaces ms rs ws d w.channels v.channels
            × (d.id ≡ cid)
            × (reading ms rs ws d ≡ [])
            × (buffered ms rs ws d ≡ buffered ms rs ws c ++ (m ∷ []))
            × (writing ms rs ws d ≡ writing ms rs ws c))
  luac_write-buffers cid s m w c n t h tv sv e o cur f rd free_place =
      let c' = referenced ms rs ws c in
      let same = found_id ms rs ws cid w.channels c e in
      let found : channel_find ms rs ws c.id w.channels ≡ some c =
        subst (λ i. channel_find ms rs ws i w.channels ≡ some c) (sym same) e in
      let (d, wrote_d, rd', bf', wr', k) =
        write_room_waits ms rs ws true c' m task_callback (suc n) rd in
      let y = (task_resume L js (suc n) (some yes) w.system).0 in
      let (y0, y1, y2) = resume-Keeps L js (suc n) (some yes) w.system tv sv in
      let (v, end, v0, v1, v2, replaces) =
        ends (suc n) y (w.destroyed ++ (m ∷ [])) w c d t h found k (subst TasksValid (sym y0) tv)
          (subst (λ ts. tasks_find (suc n) ts ≡ some t) (sym y0) f) in
      (
        v,
        enters cid s m w c n e o cur
            ∙ ap
                (after_task L js ms rs ws yes (suc n)
                  (put_channel L js ms rs ws yes (referenced ms rs ws c) w))
                (channel_write-room ms rs ws true c' m task_callback (suc n) o free_place ∙ wrote_d)
            ∙ end,
        v0,
        v1,
        v2,
        (record d { ref_count = c.ref_count }, replaces, k.0 ∙ same, rd', bf', wr'),
      )
