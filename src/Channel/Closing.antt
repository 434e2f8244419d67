-- ===== src/Channel/Closing.antt =====
-- src/lc_channel.c: `channel_close`.
use casting.Base.{◌≡◌, refl, ◌∙◌, some, [], ◌++◌, map, err_closed}
use casting.Fifo.{Fifo}
use casting.Channel.Defs.{
  channel_open, channel_closed, Reader, Writer, Status, done, rel_reader, rel_writer, Chan,
  channel_write, channel_read, channel_close, close_by, close_open,
}
use casting.Channel.Laws.{buffered, reading, writing, channel_closed_refuses}

module _ {C D M : Type 0} (ms : Fifo M) (rs : Fifo (Reader C D)) (ws : Fifo (Writer C D M)) where
  close_by_open :
      (s : Status) (c : Chan ms rs ws)
      → s ≡ channel_open
      → close_by ms rs ws s c ≡ close_open ms rs ws c
  unfolding close_by
  close_by_open channel_open c e = refl
  close_by_open channel_closed c e = cc

  close_by_closed :
      (s : Status) (c : Chan ms rs ws) → s ≡ channel_closed → close_by ms rs ws s c ≡ (c, [], [])
  unfolding close_by
  close_by_closed channel_open c e = cc
  close_by_closed channel_closed c e = refl

  -- The closing of an open channel destroys the messages of the buffer, and tells every waiting
  -- reader and then every waiting writer, in their order, that the channel is closed. No message
  -- and no one is left. A second closing does nothing, and later writes and reads return
  -- ERR_CLOSED without a callback or a change.
  pub channel_close_lem :
      (c : Chan ms rs ws) (m : M) (cb : C) (d : D)
      → c.status ≡ channel_open
      → (t : Chan ms rs ws) × (channel_close ms rs ws c ≡ (
        t,
        map rel_reader (reading ms rs ws c) ++ map rel_writer (writing ms rs ws c),
        buffered ms rs ws c,
      ))
        × (buffered ms rs ws t ≡ [])
        × (reading ms rs ws t ≡ [])
        × (writing ms rs ws t ≡ [])
        × (channel_close ms rs ws t ≡ (t, [], []))
        × (channel_write ms rs ws t (some m) (some cb) d ≡ done t [] err_closed)
        × (channel_read ms rs ws t (some cb) d ≡ done t [] err_closed)
  unfolding channel_close close_open
  channel_close_lem c m cb d o =
      let t = (close_open ms rs ws c).0 in
      let refused = channel_closed_refuses ms rs ws t m cb d refl in
      (
        t,
        close_by_open c.status c o
            ∙ rw
                (
                  rs.clear_released c.readers,
                  ws.clear_released c.writers,
                  ms.clear_released c.messages,
                )
                refl,
        ms.contents-clear c.messages,
        rs.contents-clear c.readers,
        ws.contents-clear c.writers,
        close_by_closed channel_closed t refl,
        refused.0,
        refused.1,
      )
