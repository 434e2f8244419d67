-- ===== src/Channel/Laws.antt =====
-- src/lc_channel.c: what a channel delivers, and to whom.
use casting.Base.{
  ◌≡◌, refl, ap, ◌∙◌, Bool, true, false, Option, none, some, List, [], ◌∷◌, ◌++◌, map, ltb_ℤ,
  success, err_full, err_closed, if◌then◌else◌,
}
use casting.Fifo.{Fifo, tail}
use casting.Channel.Defs.{
  Event, read, write, closed, Status, channel_open, channel_closed, Reader, Writer, Call, done,
  told, Chan, Result, submit, hand_over, match_reader, write_room, when_open, channel_write,
  channel_read,
}

abbrev pub take_in : {M : Type 0} → Event → Option M → List M → List M
take_in read (some m) xs = m ∷ xs
take_in read none xs = xs
take_in write m xs = xs
take_in closed m xs = xs

module _ {C D M : Type 0} where
  -- The messages that the calls hand to readers.
  abbrev pub received : List (Call C D M) → List M
  received [] = []
  received (c ∷ cs) = take_in c.event c.message (received cs)

  abbrev pub messages_of : List (Writer C D M) → List M
  messages_of ws = map (λ w. w.message) ws

module _ {C D M : Type 0} (ms : Fifo M) (rs : Fifo (Reader C D)) (ws : Fifo (Writer C D M)) where
  -- The queues of a channel, as lists.
  abbrev pub buffered : Chan ms rs ws → List M
  buffered c = ms.contents c.messages

  abbrev pub reading : Chan ms rs ws → List (Reader C D)
  reading c = rs.contents c.readers

  abbrev pub writing : Chan ms rs ws → List (Writer C D M)
  writing c = ws.contents c.writers

  -- What no operation but `channel_close` and the counting of references changes.
  abbrev pub Kept : Chan ms rs ws → Chan ms rs ws → Type 0
  Kept c t =
      (t.id ≡ c.id)
      × (t.ref_count ≡ c.ref_count)
      × (t.buf_size ≡ c.buf_size)
      × (t.status ≡ c.status)

  -- The messages that were written and are not received yet, oldest first.
  abbrev pub pending : Chan ms rs ws → List M
  pending c = buffered c ++ messages_of (writing c)

  -- With no reader waiting, a message is buffered, or waits where the buffer is full.
  pub write_room_waits :
      (b : Bool) (c : Chan ms rs ws) (m : M) (cb : C) (d : D)
      → reading c ≡ []
      → (t : Chan ms rs ws) × (write_room ms rs ws b c m cb d
          ≡ done t (if b then told cb d m write ∷ [] else []) (if b then success else err_full))
        × (reading t ≡ [])
        × (buffered t ≡ (if b then buffered c ++ (m ∷ []) else buffered c))
        × (writing t ≡ (
            if b then writing c else writing c ++ (record { cb = cb; arg = d; message = m } ∷ [])))
        × Kept c t
  unfolding write_room submit match_reader
  write_room_waits true c m cb d e = (
    record c { messages = ms.push c.messages m; readers = (rs.pop c.readers).0 },
    rw (rs.pop-head c.readers, e),
    rs.contents-pop c.readers ∙ ap tail e,
    ms.contents-push c.messages m,
    refl,
    (refl, refl, refl, refl),
  )
  write_room_waits false c m cb d e = (
    record c {
      writers = ws.push c.writers (record { cb = cb; arg = d; message = m });
      readers = (rs.pop c.readers).0;
    },
    rw (rs.pop-head c.readers, e),
    rs.contents-pop c.readers ∙ ap tail e,
    refl,
    ws.contents-push c.writers (record { cb = cb; arg = d; message = m }),
    (refl, refl, refl, refl),
  )

  -- With a reader waiting and nothing pending, it receives the message.
  pub write_room_serves :
      (b : Bool) (c : Chan ms rs ws) (m : M) (cb : C) (d : D) (r : Reader C D)
      (more : List (Reader C D))
      → reading c ≡ r ∷ more
      → buffered c ≡ []
      → writing c ≡ []
      → (t : Chan ms rs ws) × (write_room ms rs ws b c m cb d
          ≡ done t
              (if b
                then told cb d m write ∷ (told r.cb r.arg m read ∷ [])
                else told r.cb r.arg m read ∷ (told cb d m write ∷ []))
              (if b then success else err_full))
        × (reading t ≡ more)
        × (buffered t ≡ [])
        × (writing t ≡ [])
        × Kept c t
  unfolding write_room submit match_reader hand_over
  write_room_serves true c m cb d r more e n k = (
    record c {
      messages = (ms.pop (ms.push c.messages m)).0;
      readers = (rs.pop c.readers).0;
      writers = (ws.pop c.writers).0;
    },
    rw (rs.pop-head, e) (rw (ms.pop-head, ms.contents-push, n, ws.pop-head, k)),
    rs.contents-pop c.readers ∙ ap tail e,
    rw (ms.contents-pop, ms.contents-push, n),
    rw (ws.contents-pop, k),
    (refl, refl, refl, refl),
  )
  write_room_serves false c m cb d r more e n k = (
    record c {
      messages = (ms.pop c.messages).0;
      readers = (rs.pop c.readers).0;
      writers = (ws.pop (ws.push c.writers (record { cb = cb; arg = d; message = m }))).0;
    },
    rw (rs.pop-head, e) (rw (ms.pop-head, n, ws.pop-head, ws.contents-push, k)),
    rs.contents-pop c.readers ∙ ap tail e,
    rw (ms.contents-pop, n),
    rw (ws.contents-pop, ws.contents-push, k),
    (refl, refl, refl, refl),
  )

  pub when_open_lem :
      (s : Status) (c : Chan ms rs ws) (r : Result ms rs ws)
      → s ≡ channel_open
      → when_open ms rs ws s c r ≡ r
  unfolding when_open
  when_open_lem channel_open c r e = refl
  when_open_lem channel_closed c r e = cc

  when_closed_lem :
      (s : Status) (c : Chan ms rs ws) (r : Result ms rs ws)
      → s ≡ channel_closed
      → when_open ms rs ws s c r ≡ done c [] err_closed
  unfolding when_open
  when_closed_lem channel_open c r e = cc
  when_closed_lem channel_closed c r e = refl

  -- A closed channel refuses messages and readers: nothing changes and no callback is called.
  pub channel_closed_refuses :
      (c : Chan ms rs ws) (m : M) (cb : C) (d : D)
      → c.status ≡ channel_closed
      → (channel_write ms rs ws c (some m) (some cb) d ≡ done c [] err_closed)
        × (channel_read ms rs ws c (some cb) d ≡ done c [] err_closed)
  unfolding channel_write channel_read
  channel_closed_refuses c m cb d e =
      (when_closed_lem c.status c _ e, when_closed_lem c.status c _ e)

  -- Whether the buffer has room.
  abbrev pub room : Chan ms rs ws → Bool
  room c = ltb_ℤ (ms.size c.messages) c.buf_size

  pub channel_write-room :
      (b : Bool) (c : Chan ms rs ws) (m : M) (cb : C) (d : D)
      → c.status ≡ channel_open
      → room c ≡ b
      → channel_write ms rs ws c (some m) (some cb) d ≡ write_room ms rs ws b c m cb d
  unfolding channel_write
  channel_write-room b c m cb d o e =
      when_open_lem c.status c _ o ∙ ap (λ b. write_room ms rs ws b c m cb d) e

  -- On an open channel where no reader waits, a write with room in the buffer puts the message
  -- behind those of the buffer, tells the writer and returns SUCCESS. Without room the message
  -- waits with its writer behind the other writers, no one is told, and the result is ERR_FULL.
  -- Nothing else changes.
  pub channel_write_waits :
      (c : Chan ms rs ws) (m : M) (cb : C) (d : D)
      → c.status ≡ channel_open
      → reading c ≡ []
      → (t : Chan ms rs ws) × (channel_write ms rs ws c (some m) (some cb) d
          ≡ done t
              (if room c then told cb d m write ∷ [] else [])
              (if room c then success else err_full))
        × (reading t ≡ [])
        × (buffered t ≡ (if room c then buffered c ++ (m ∷ []) else buffered c))
        × (writing t ≡ (
            if room c
            then writing c
            else writing c ++ (record { cb = cb; arg = d; message = m } ∷ [])))
        × Kept c t
  unfolding channel_write
  channel_write_waits c m cb d o e =
      let w = write_room_waits (room c) c m cb d e in
      (w.0, when_open_lem c.status c _ o ∙ w.1, w.2, w.3, w.4, w.5)

  -- On an open channel where a reader waits, with an empty buffer and no writer waiting, a write
  -- hands the message to the longest waiting reader and tells the writer: first the writer with
  -- SUCCESS if the buffer has room, else first the reader with ERR_FULL. The other readers keep
  -- waiting, no message or writer is left, and the id, the reference count, the buffer's size
  -- and the status stay.
  pub channel_write_serves :
      (c : Chan ms rs ws) (m : M) (cb : C) (d : D) (r : Reader C D) (more : List (Reader C D))
      → c.status ≡ channel_open
      → reading c ≡ r ∷ more
      → buffered c ≡ []
      → writing c ≡ []
      → (t : Chan ms rs ws) × (channel_write ms rs ws c (some m) (some cb) d
          ≡ done t
              (if room c
                then told cb d m write ∷ (told r.cb r.arg m read ∷ [])
                else told r.cb r.arg m read ∷ (told cb d m write ∷ []))
              (if room c then success else err_full))
        × (reading t ≡ more)
        × (buffered t ≡ [])
        × (writing t ≡ [])
        × Kept c t
  unfolding channel_write
  channel_write_serves c m cb d r more o e n k =
      let w = write_room_serves (room c) c m cb d r more e n k in
      (w.0, when_open_lem c.status c _ o ∙ w.1, w.2, w.3, w.4, w.5)
