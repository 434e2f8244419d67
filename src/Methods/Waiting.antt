-- ===== src/Methods/Waiting.antt =====
-- src/lc_channel.c: the method `read` outside of a task.
use casting.Base.{ℕ, zero, suc, ◌≡◌, refl, Bool, true, false, Option, none, some, err_full}
use casting.Fifo.{Fifo}
use casting.Errors.{same_code}
use casting.Task.{task_current}
use casting.Session.{Job}
use casting.Channel.Defs.{
  Status, channel_open, channel_closed, Reader, Writer, done, fault, Chan, Result, when_open,
  receive, read_open, channel_read,
}
use casting.Channel.Registry.{Change, changed, channel_ref, channel_free}
use casting.Methods.{
  Callback, task_callback, session_callback, World, perform_all, finish_task, Replied, replied,
  faulted, waits, invalid, closed_channel, true_value, yields, put_channel, freed, after_task,
  after_session, has_read, unless_closed, read_from, luac_read,
}

module _ {C D M : Type 0} (ms : Fifo M) (rs : Fifo (Reader C D)) (ws : Fifo (Writer C D M)) where
  -- The code is not ERR_FULL.
  abbrev pub NotFull : Result ms rs ws → Type 0
  NotFull (done c calls rc) = same_code rc err_full ≡ false
  NotFull r = Unit

  receive-NotFull :
      (c : Chan ms rs ws) (cb : C) (d : D) (m : Option M) (w : Option (Writer C D M))
      → NotFull (receive ms rs ws c cb d m w)
  unfolding receive
  receive-NotFull c cb d none none = refl
  receive-NotFull c cb d (some m) none = refl
  receive-NotFull c cb d none (some w) = refl
  receive-NotFull c cb d (some m) (some w) = refl

  pub channel_read-NotFull :
      (c : Chan ms rs ws) (cb : C) (d : D) → NotFull (channel_read ms rs ws c (some cb) d)
  unfolding channel_read read_open when_open
  channel_read-NotFull c cb d = go c.status
    where
      go :
          (st : Status)
          → NotFull (
              when_open ms rs ws st c (
                receive ms rs ws
                  (record c { messages = (ms.pop c.messages).0; writers = (ws.pop c.writers).0 })
                  cb
                  d
                  (ms.pop c.messages).1
                  (ws.pop c.writers).1))
      go channel_closed = refl
      go channel_open = receive-NotFull _ cb d _ _

module _ (L : Type 0) {M : Type 0} (js : Fifo (Job M)) (ms : Fifo M) (rs : Fifo (Reader Callback ℕ))
    (ws : Fifo (Writer Callback ℕ M)) (yes : M) where
  abbrev W : Type 0
  W = World L js ms rs ws yes

  -- The method does not wait for a semaphore.
  abbrev pub GoesOn : Replied L js ms rs ws yes → Type 0
  GoesOn (replied w waits) = ⊥
  GoesOn (replied w invalid) = Unit
  GoesOn (replied w closed_channel) = Unit
  GoesOn (replied w true_value) = Unit
  GoesOn (replied w (yields l)) = Unit
  GoesOn faulted = Unit

  freed-GoesOn :
      (w : W) (ch : Change ms rs ws Unit) (f : W → Replied L js ms rs ws yes)
      → ((u : W) → GoesOn (f u))
      → GoesOn (freed L js ms rs ws yes w ch f)
  freed-GoesOn w (changed s calls gone x) f h = h _
  freed-GoesOn w Change.fault f h = tt

  session-GoesOn :
      (s : ℕ) (w : W) (r : Result ms rs ws)
      → NotFull ms rs ws r
      → GoesOn (after_session L js ms rs ws yes err_full s w r)
  session-GoesOn s w (done c calls rc) h =
      let v = perform_all L js ms rs ws yes calls (put_channel L js ms rs ws yes c w) in
      rw h (
        freed-GoesOn v (channel_free ms rs ws (some c.id) v.channels) (λ u. replied u true_value)
          (λ u. tt))
  session-GoesOn s w fault h = tt

  task-GoesOn :
      (tid : ℕ) (w : W) (r : Result ms rs ws) → GoesOn (after_task L js ms rs ws yes tid w r)
  task-GoesOn tid w (done c calls rc) =
      let v = perform_all L js ms rs ws yes calls (put_channel L js ms rs ws yes c w) in
      freed-GoesOn v (channel_free ms rs ws (some c.id) v.channels)
        (finish_task L js ms rs ws yes tid) (λ u. tt)
  task-GoesOn tid w fault = tt

  -- The method `read` never waits for a semaphore, in any state, also where its reader has to
  -- wait for a message.
  pub luac_read-GoesOn :
      (mem : Bool) (cid s : ℕ) (w : W) → GoesOn (luac_read L js ms rs ws yes mem cid s w)
  unfolding luac_read
  luac_read-GoesOn mem cid s w = go (channel_ref ms rs ws cid w.channels).1
    where
      v : W
      v = record w { channels = (channel_ref ms rs ws cid w.channels).0 }

      reads : (b : Bool) (c : Chan ms rs ws) (i : ℕ) → GoesOn (has_read L js ms rs ws yes b s i c v)
      reads b c zero = session-GoesOn s v _ (channel_read-NotFull ms rs ws c session_callback s)
      reads false c (suc n) = tt
      reads true c (suc n) =
          task-GoesOn (suc n) v (channel_read ms rs ws c (some task_callback) (suc n))

      open_by :
          (c : Chan ms rs ws) (st : Status)
          → GoesOn (
              unless_closed L js ms rs ws yes st c.id v
                (has_read L js ms rs ws yes mem s (task_current w.system.current) c v))
      open_by c channel_open = reads mem c (task_current w.system.current)
      open_by c channel_closed =
          freed-GoesOn v (channel_free ms rs ws (some c.id) v.channels)
            (λ u. replied u closed_channel) (λ u. tt)

      go : (o : Option (Chan ms rs ws)) → GoesOn (read_from L js ms rs ws yes mem s v o)
      go none = tt
      go (some c) = open_by c c.status
