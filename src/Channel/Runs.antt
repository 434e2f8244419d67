-- ===== src/Channel/Runs.antt =====
-- src/lc_channel.c: a client's sequence of writes and reads.
use casting.Base.{some, List, [], ◌∷◌, ◌++◌, success}
use casting.Fifo.{Fifo}
use casting.Channel.Defs.{
  Reader, Writer, Call, done, fault, Chan, Result, channel_write, channel_read,
}

-- A call by a client of the channel, with its callback and the callback's data.
pub data Op (C D M : Type 0) : Type 0 where
  writes : M → C → D → Op C D M
  reads : C → D → Op C D M

module _ {C D M : Type 0} where
  -- The messages of the writes.
  abbrev pub written : List (Op C D M) → List M
  written [] = []
  written (writes m cb d ∷ ops) = m ∷ written ops
  written (reads cb d ∷ ops) = written ops

module _ {C D M : Type 0} (ms : Fifo M) (rs : Fifo (Reader C D)) (ws : Fifo (Writer C D M)) where
  unfoldable pub step : Chan ms rs ws → Op C D M → Result ms rs ws
  step c (writes m cb d) = channel_write ms rs ws c (some m) (some cb) d
  step c (reads cb d) = channel_read ms rs ws c (some cb) d

  -- The callbacks' calls of one operation come before those of the later ones.
  unfoldable pub after_calls : List (Call C D M) → Result ms rs ws → Result ms rs ws
  after_calls calls (done t more code) = done t (calls ++ more) code
  after_calls calls fault = fault

  abbrev pub then_run : (Chan ms rs ws → Result ms rs ws) → Result ms rs ws → Result ms rs ws
  then_run next fault = fault
  then_run next (done t calls code) = after_calls calls (next t)

  -- The operations in turn; the code of a run is that of its end.
  unfoldable pub run : List (Op C D M) → Chan ms rs ws → Result ms rs ws
  unfolding step after_calls
  run [] c = done c [] success
  run (op ∷ ops) c = then_run (run ops) (step c op)
