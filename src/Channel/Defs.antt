-- ===== src/Channel/Defs.antt =====
-- src/lc_channel.h and src/lc_channel.c: the channel's state, `channel_write`, `channel_read` and
-- `channel_close`. Each call runs under the channel's lock, its callbacks after the lock.
-- The pushes of `channel_write` and `channel_read`, whose results the code ignores, have memory.
use casting.Base.{
  ℕ, Bool, true, false, Option, none, some, List, [], ◌∷◌, ◌++◌, map, if◌then◌else◌, ℤ, pos, ltb_ℤ,
  success, err_inval, err_full, err_empty, err_closed,
}
use casting.Fifo.{Fifo}

-- `channel_status_t`, the event that a callback is told of.
pub data Event : Type 0 where
  read write closed : Event

-- `channel_status`.
pub data Status : Type 0 where
  channel_open channel_closed : Status

-- `INT_MAX`.
abbrev pub int_max : ℕ
int_max = 2147483647

-- `reader_t` and `writer_t`, for a type of callbacks, of their data and of messages.
pub record Reader (C D : Type 0) : Type 0 where
  pub cb : C
  pub arg : D

pub record Writer (C D M : Type 0) : Type 0 where
  pub cb : C
  pub arg : D
  pub message : M

-- One call of a callback: `cb(message, arg, event)`.
pub record Call (C D M : Type 0) : Type 0 where
  pub cb : C
  pub message : Option M
  pub arg : D
  pub event : Event

-- `struct _channel`, over the types of its queues. The lock is held through each operation.
pub record Channel (MQ RQ WQ : Type 0) : Type 0 where
  pub id : ℕ
  pub ref_count : ℤ
  pub buf_size : ℤ
  pub status : Status
  pub messages : MQ
  pub readers : RQ
  pub writers : WQ

-- The channel after an operation, the callbacks' calls in order, and the code returned. `fault`
-- stands for a read through NULL.
pub data Outcome (MQ RQ WQ C D M : Type 0) : Type 0 where
  done : Channel MQ RQ WQ → List (Call C D M) → ℤ → Outcome MQ RQ WQ C D M
  fault : Outcome MQ RQ WQ C D M

module _ {C D M : Type 0} where
  abbrev pub told : C → D → M → Event → Call C D M
  told cb arg m e = record { cb = cb; message = some m; arg = arg; event = e }

  -- `rel_reader` and `rel_writer`.
  abbrev pub rel_reader : Reader C D → Call C D M
  rel_reader r = record { cb = r.cb; message = none; arg = r.arg; event = closed }

  abbrev pub rel_writer : Writer C D M → Call C D M
  rel_writer w = told w.cb w.arg w.message closed

module _ {C D M : Type 0} (ms : Fifo M) (rs : Fifo (Reader C D)) (ws : Fifo (Writer C D M)) where
  abbrev pub Chan : Type 0
  Chan = Channel ms.Q rs.Q ws.Q

  abbrev pub Result : Type 0
  Result = Outcome ms.Q rs.Q ws.Q C D M

  -- The channel that `channel_new` registers, under the next id. A negative size is no bound.
  unfoldable pub channel_new : ℕ → ℤ → Chan
  channel_new id size = record {
    id = id;
    ref_count = pos 1;
    buf_size = if ltb_ℤ size (pos 0) then pos int_max else size;
    status = channel_open;
    messages = ms.new;
    readers = rs.new;
    writers = ws.new;
  }

  -- With room in the buffer the message goes there, else it waits with its writer.
  unfoldable pub submit : Bool → Chan → M → C → D → Chan
  submit true c m cb d = record c { messages = ms.push c.messages m }
  submit false c m cb d = record c {
    writers = ws.push c.writers (record { cb = cb; arg = d; message = m });
  }

  -- The calls of `channel_write` for a reader: it receives the message from the buffer, or that of
  -- the writer, who is told.
  unfoldable pub hand_over :
      Chan → List (Call C D M) → ℤ → Reader C D → Option M → Option (Writer C D M) → Result
  hand_over c calls rc r (some m) none = done c (calls ++ (told r.cb r.arg m read ∷ [])) rc
  hand_over c calls rc r (some m) (some w) =
      done c (calls ++ (told r.cb r.arg m read ∷ (told w.cb w.arg w.message write ∷ []))) rc
  hand_over c calls rc r none (some w) =
      done c (calls ++ (told r.cb r.arg w.message read ∷ (told w.cb w.arg w.message write ∷ []))) rc
  hand_over c calls rc r none none = fault

  -- The rest of `channel_write`, from `queue_pop(c->readers)` on.
  unfoldable pub match_reader : Chan → List (Call C D M) → ℤ → Option (Reader C D) → Result
  match_reader c calls rc none = done c calls rc
  match_reader c calls rc (some r) =
      hand_over (record c { messages = (ms.pop c.messages).0; writers = (ws.pop c.writers).0 })
        calls rc r (ms.pop c.messages).1 (ws.pop c.writers).1

  unfoldable pub write_room : Bool → Chan → M → C → D → Result
  write_room room c m cb d =
      let c' = submit room c m cb d in
      match_reader (record c' { readers = (rs.pop c'.readers).0 })
        (if room then told cb d m write ∷ [] else []) (if room then success else err_full)
        (rs.pop c'.readers).1

  unfoldable pub when_open : Status → Chan → Result → Result
  when_open channel_closed c r = done c [] err_closed
  when_open channel_open c r = r

  -- A message or a callback that is NULL is `none`.
  unfoldable pub channel_write : Chan → Option M → Option C → D → Result
  channel_write c none cb d = done c [] err_inval
  channel_write c (some m) none d = done c [] err_inval
  channel_write c (some m) (some cb) d =
      when_open c.status c (write_room (ltb_ℤ (ms.size c.messages) c.buf_size) c m cb d)

  -- The rest of `channel_read`, from the two pops on.
  unfoldable pub receive : Chan → C → D → Option M → Option (Writer C D M) → Result
  receive c cb d none none =
      done (record c { readers = rs.push c.readers (record { cb = cb; arg = d }) }) [] err_empty
  receive c cb d (some m) none = done c (told cb d m read ∷ []) success
  receive c cb d none (some w) =
      done c (told cb d w.message read ∷ (told w.cb w.arg w.message write ∷ [])) success
  receive c cb d (some m) (some w) =
      done c (told cb d m read ∷ (told w.cb w.arg m write ∷ [])) success

  unfoldable pub read_open : Chan → C → D → Result
  read_open c cb d =
      receive (record c { messages = (ms.pop c.messages).0; writers = (ws.pop c.writers).0 }) cb d
        (ms.pop c.messages).1 (ws.pop c.writers).1

  unfoldable pub channel_read : Chan → Option C → D → Result
  channel_read c none d = done c [] err_inval
  channel_read c (some cb) d = when_open c.status c (read_open c cb d)

  -- `channel_close` on a channel that is open: the messages are destroyed, and every reader and
  -- writer is told. The result has the messages destroyed, too.
  unfoldable pub close_open : Chan → Chan × List (Call C D M) × List M
  close_open c = (
    record c {
      messages = (ms.clear c.messages).0;
      readers = (rs.clear c.readers).0;
      writers = (ws.clear c.writers).0;
      status = channel_closed;
    },
    map rel_reader (rs.clear c.readers).1 ++ map rel_writer (ws.clear c.writers).1,
    (ms.clear c.messages).1,
  )

  unfoldable pub close_by : Status → Chan → Chan × List (Call C D M) × List M
  close_by channel_open c = close_open c
  close_by channel_closed c = (c, [], [])

  unfoldable pub channel_close : Chan → Chan × List (Call C D M) × List M
  channel_close c = close_by c.status c
