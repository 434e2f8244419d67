-- ===== src/Channel/Reading.antt =====
-- src/lc_channel.c: what `channel_read` delivers, and what it loses.
use casting.Base.{◌≡◌, refl, ◌∙◌, some, List, [], ◌∷◌, ◌++◌, success, err_empty}
use casting.Fifo.{Fifo}
use casting.Channel.Defs.{
  read, write, channel_open, Reader, Writer, done, told, Chan, channel_read, receive, read_open,
}
use casting.Channel.Laws.{messages_of, buffered, reading, writing, pending, Kept, when_open_lem}

module _ {C D M : Type 0} (ms : Fifo M) (rs : Fifo (Reader C D)) (ws : Fifo (Writer C D M)) where
  -- On an open channel with an empty buffer and no writer waiting, a read calls no callback,
  -- returns ERR_EMPTY, and the reader waits behind the other readers. Nothing else changes.
  pub channel_read_waits :
      (c : Chan ms rs ws) (cb : C) (d : D)
      → c.status ≡ channel_open
      → buffered ms rs ws c ≡ []
      → writing ms rs ws c ≡ []
      → (t : Chan ms rs ws) × (channel_read ms rs ws c (some cb) d ≡ done t [] err_empty)
        × (reading ms rs ws t ≡ reading ms rs ws c ++ (record { cb = cb; arg = d } ∷ []))
        × (buffered ms rs ws t ≡ [])
        × (writing ms rs ws t ≡ [])
        × Kept ms rs ws c t
  unfolding channel_read read_open receive
  channel_read_waits c cb d o n k = (
    record c {
      messages = (ms.pop c.messages).0;
      writers = (ws.pop c.writers).0;
      readers = rs.push c.readers (record { cb = cb; arg = d });
    },
    when_open_lem ms rs ws c.status c _ o ∙ rw (ms.pop-head, n, ws.pop-head, k),
    rs.contents-push c.readers (record { cb = cb; arg = d }),
    rw (ms.contents-pop, n),
    rw (ws.contents-pop, k),
    (refl, refl, refl, refl),
  )

  -- On an open channel with a message in the buffer and no writer waiting, a read delivers the
  -- first message and returns SUCCESS. The other messages stay in their order, and the rest of
  -- the channel stays.
  pub channel_read-buffered :
      (c : Chan ms rs ws) (cb : C) (d : D) (m : M) (more : List M)
      → c.status ≡ channel_open
      → buffered ms rs ws c ≡ m ∷ more
      → writing ms rs ws c ≡ []
      → (t : Chan ms rs ws) × (channel_read ms rs ws c (some cb) d
          ≡ done t (told cb d m read ∷ []) success)
        × (reading ms rs ws t ≡ reading ms rs ws c)
        × (buffered ms rs ws t ≡ more)
        × (writing ms rs ws t ≡ [])
        × Kept ms rs ws c t
  unfolding channel_read read_open receive
  channel_read-buffered c cb d m more o n k = (
    record c { messages = (ms.pop c.messages).0; writers = (ws.pop c.writers).0 },
    when_open_lem ms rs ws c.status c _ o ∙ rw (ms.pop-head, n, ws.pop-head, k),
    refl,
    rw (ms.contents-pop, n),
    rw (ws.contents-pop, k),
    (refl, refl, refl, refl),
  )

  -- On an open channel with an empty buffer where a writer waits, a read delivers the message of
  -- the longest waiting writer to the reader, then tells the writer, and returns SUCCESS. The
  -- readers, the other writers and the rest of the channel stay.
  pub channel_read_direct :
      (c : Chan ms rs ws) (cb : C) (d : D) (w : Writer C D M) (more : List (Writer C D M))
      → c.status ≡ channel_open
      → buffered ms rs ws c ≡ []
      → writing ms rs ws c ≡ w ∷ more
      → (t : Chan ms rs ws) × (channel_read ms rs ws c (some cb) d
          ≡ done t (told cb d w.message read ∷ (told w.cb w.arg w.message write ∷ [])) success)
        × (reading ms rs ws t ≡ reading ms rs ws c)
        × (buffered ms rs ws t ≡ [])
        × (writing ms rs ws t ≡ more)
        × Kept ms rs ws c t
  unfolding channel_read read_open receive
  channel_read_direct c cb d w more o n k = (
    record c { messages = (ms.pop c.messages).0; writers = (ws.pop c.writers).0 },
    when_open_lem ms rs ws c.status c _ o ∙ rw (ms.pop-head, n, ws.pop-head, k),
    refl,
    rw (ms.contents-pop, n),
    rw (ws.contents-pop, k),
    (refl, refl, refl, refl),
  )

  -- On an open channel with a message in the buffer and a writer waiting, a read delivers the
  -- message, takes the writer out of the queue too, and tells it that the delivered message was
  -- written. The writer's own message is neither delivered nor kept: of what was pending, both
  -- are gone.
  pub channel_read_loses :
      (c : Chan ms rs ws) (cb : C) (d : D) (m : M) (kept : List M) (w : Writer C D M)
      (more : List (Writer C D M))
      → c.status ≡ channel_open
      → buffered ms rs ws c ≡ m ∷ kept
      → writing ms rs ws c ≡ w ∷ more
      → (t : Chan ms rs ws) × (channel_read ms rs ws c (some cb) d
          ≡ done t (told cb d m read ∷ (told w.cb w.arg m write ∷ [])) success)
        × (pending ms rs ws c ≡ m ∷ (kept ++ (w.message ∷ messages_of more)))
        × (pending ms rs ws t ≡ kept ++ messages_of more)
        × Kept ms rs ws c t
  unfolding channel_read read_open receive
  channel_read_loses c cb d m kept w more o n k = (
    record c { messages = (ms.pop c.messages).0; writers = (ws.pop c.writers).0 },
    when_open_lem ms rs ws c.status c _ o ∙ rw (ms.pop-head, n, ws.pop-head, k),
    rw (n, k),
    rw (ms.contents-pop, n, ws.contents-pop, k),
    (refl, refl, refl, refl),
  )
