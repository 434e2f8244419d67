-- ===== src/Examples/Channels.antt =====
-- src/lc_channel.c: channels of numbers over the queues of src/queue.c.
use casting.Base.{
  ℕ, arith, ◌≡◌, ◌⊎◌, ◌∙◌, ap, refl, none, some, List, [], ◌∷◌, ◌++◌, map, ℤ, pos, success,
  err_closed,
}
use casting.Fifo.{Fifo}
use casting.Map.Node.{copied}
use casting.Queue.{node_data}
use casting.Queue.Linked.{linked_fifo}
use casting.Channel.Defs.{
  read, write, channel_open, Reader, Writer, Call, done, told, rel_reader, rel_writer, Chan,
  channel_new, channel_write, channel_read, channel_close,
}
use casting.Channel.Laws.{received, buffered, reading, writing, pending, Kept}
use casting.Channel.Reading.{channel_read_loses}
use casting.Channel.Runs.{Op, writes, reads, run}
use casting.Channel.Traces.{run_delivers}
use casting.Channel.Buffering.{run_delivers_buffered}
use casting.Channel.Closing.{channel_close_lem}

-- Messages, and callbacks and their data, are numbers. The messages are not copied.
copies_none {ℓ} : {A : Type ℓ} (x : A) → node_data none (some x) ≡ copied (some x)
unfolding node_data
copies_none x = refl

copies_some {ℓ} : {A : Type ℓ} (x : A) → node_data (some copied) (some x) ≡ copied (some x)
unfolding node_data
copies_some x = refl

abbrev messages : Fifo ℕ
messages = linked_fifo none copies_none

abbrev readers : Fifo (Reader ℕ ℕ)
readers = linked_fifo (some copied) copies_some

abbrev writers : Fifo (Writer ℕ ℕ ℕ)
writers = linked_fifo (some copied) copies_some

-- A new channel whose buffer has room for one message.
abbrev empty : Chan messages readers writers
empty = channel_new messages readers writers 7 (pos 1)

-- A reader waits.
abbrev with_reader : Chan messages readers writers
with_reader = record empty { readers = readers.push empty.readers (record { cb = 5; arg = 6 }) }

-- A message is in the buffer, which is full.
abbrev with_message : Chan messages readers writers
with_message = record empty { messages = messages.push empty.messages 100 }

-- A writer waits, with an empty or a full buffer.
abbrev with_writer : Chan messages readers writers
with_writer = record empty {
  writers = writers.push empty.writers (record { cb = 3; arg = 4; message = 200 });
}

abbrev with_both : Chan messages readers writers
with_both = record with_message {
  writers = writers.push with_message.writers (record { cb = 3; arg = 4; message = 200 });
}

opened : empty.status ≡ channel_open
unfolding channel_new
opened = refl

no_messages : buffered messages readers writers empty ≡ []
unfolding channel_new
no_messages = messages.contents-new

no_readers : reading messages readers writers empty ≡ []
unfolding channel_new
no_readers = readers.contents-new

no_writers : writing messages readers writers empty ≡ []
unfolding channel_new
no_writers = writers.contents-new

one_reader : reading messages readers writers with_reader ≡ record { cb = 5; arg = 6 } ∷ []
one_reader =
    readers.contents-push empty.readers (record { cb = 5; arg = 6 })
    ∙ ap (λ xs. xs ++ (record { cb = 5; arg = 6 } ∷ [])) no_readers

one_message : buffered messages readers writers with_message ≡ 100 ∷ []
one_message = messages.contents-push empty.messages 100 ∙ ap (λ xs. xs ++ (100 ∷ [])) no_messages

one_writer :
    writing messages readers writers with_writer ≡ record { cb = 3; arg = 4; message = 200 } ∷ []
one_writer =
    writers.contents-push empty.writers (record { cb = 3; arg = 4; message = 200 })
    ∙ ap (λ xs. xs ++ (record { cb = 3; arg = 4; message = 200 } ∷ [])) no_writers

channel_read_loses_example :
    (t : Chan messages readers writers) × (channel_read messages readers writers with_both
        (some 5)
        6
      ≡ done t (told 5 6 100 read ∷ (told 3 4 100 write ∷ [])) success)
    × (pending messages readers writers with_both ≡ 100 ∷ (200 ∷ []))
    × (pending messages readers writers t ≡ [])
    × Kept messages readers writers with_both t
channel_read_loses_example =
    channel_read_loses messages readers writers with_both 5 6 100 []
      (record { cb = 3; arg = 4; message = 200 }) [] opened one_message one_writer

channel_close_lem_example :
    (t : Chan messages readers writers) × (channel_close messages readers writers with_both ≡ (
      t,
      map rel_reader (reading messages readers writers with_both)
          ++ map rel_writer (writing messages readers writers with_both),
      buffered messages readers writers with_both,
    ))
    × (buffered messages readers writers t ≡ [])
    × (reading messages readers writers t ≡ [])
    × (writing messages readers writers t ≡ [])
    × (channel_close messages readers writers t ≡ (t, [], []))
    × (channel_write messages readers writers t (some 9) (some 1) 2 ≡ done t [] err_closed)
    × (channel_read messages readers writers t (some 1) 2 ≡ done t [] err_closed)
channel_close_lem_example = channel_close_lem messages readers writers with_both 9 1 2 opened

abbrev meeting : List (Op ℕ ℕ ℕ)
meeting = reads 5 6 ∷ (writes 100 1 2 ∷ (writes 200 1 2 ∷ []))

run_delivers_example :
    (t : Chan messages readers writers) × (calls : List (Call ℕ ℕ ℕ)) × (code : ℤ) × (run messages
        readers writers meeting
        (channel_new messages readers writers 7 (pos 0))
      ≡ done t calls code)
    × (received calls ++ pending messages readers writers t ≡ 100 ∷ (200 ∷ []))
    × (buffered messages readers writers t ≡ [])
    × ((reading messages readers writers t ≡ []) ⊎ (writing messages readers writers t ≡ []))
run_delivers_example = run_delivers messages readers writers 7 meeting

run_delivers_buffered_example :
    (t : Chan messages readers writers) × (calls : List (Call ℕ ℕ ℕ)) × (code : ℤ) × (run messages
        readers writers meeting
        (channel_new messages readers writers 7 (pos 3))
      ≡ done t calls code)
    × (received calls ++ buffered messages readers writers t ≡ 100 ∷ (200 ∷ []))
    × (writing messages readers writers t ≡ [])
    × ((reading messages readers writers t ≡ []) ⊎ (buffered messages readers writers t ≡ []))
run_delivers_buffered_example =
    run_delivers_buffered messages readers writers 7 3 meeting (omega arith)
