-- ===== src/Channel/Registry/Closing.antt =====
-- src/lc_channel.c: a channel is closed from Lua, and the others stay.
use casting.Base.{
  ℕ, suc, ◌≡◌, refl, sym, ◌∙◌, ap, subst, true, some, none, [], append-nil, Ordering, ℤ, pos,
}
use casting.Fifo.{Fifo}
use casting.Registry.{put}
use casting.Registry.Laws.{put_again}
use casting.Registry.Counting.{ref_found}
use casting.Registry.Live.{IsLive}
use casting.Channel.Defs.{
  channel_open, channel_closed, Status, Reader, Writer, Chan, close_open, close_by, channel_close,
}
use casting.Channel.Registry.{
  Channels, with_id, channel_find, channel_ref, changed, channel_free, luac_close, after_free,
}
use casting.Channel.Registry.Laws.{
  cmp, counter, order, counter-IsCounter, Given, IsValid, live, found_id, ref_missing_at,
}
use casting.Channel.Registry.Changing.{Replaces, put-Replaces, free_kept, same_key}

module _ {C D M : Type 0} (ms : Fifo M) (rs : Fifo (Reader C D)) (ws : Fifo (Writer C D M)) where
  -- A closing keeps the key and the count, and does not look at the count.
  close_recount :
      (t : Chan ms rs ws) (k : ℤ)
      → channel_close ms rs ws (record t { ref_count = k }) ≡ (
        record (channel_close ms rs ws t).0 { ref_count = k },
        (channel_close ms rs ws t).1,
        (channel_close ms rs ws t).2,
      )
  unfolding channel_close close_by close_open
  close_recount t k = go t.status
    where
      go :
          (st : Status)
          → close_by ms rs ws st (record t { ref_count = k }) ≡ (
            record (close_by ms rs ws st t).0 { ref_count = k },
            (close_by ms rs ws st t).1,
            (close_by ms rs ws st t).2,
          )
      go channel_open = refl
      go channel_closed = refl

  close_keeps :
      (t : Chan ms rs ws)
      → ((channel_close ms rs ws t).0.id ≡ t.id)
        × ((channel_close ms rs ws t).0.ref_count ≡ t.ref_count)
  unfolding channel_close close_by close_open
  close_keeps t = go t.status
    where
      go :
          (st : Status)
          → ((close_by ms rs ws st t).0.id ≡ t.id)
            × ((close_by ms rs ws st t).0.ref_count ≡ t.ref_count)
      go channel_open = (refl, refl)
      go channel_closed = (refl, refl)

  pub luac_close_missing :
      (cid : ℕ) (s : Channels ms rs ws)
      → channel_find ms rs ws cid s ≡ none
      → luac_close ms rs ws cid s ≡ changed s [] [] true
  unfolding luac_close
  luac_close_missing cid s e = rw (ref_missing_at ms rs ws cid s e) refl

  close_found :
      (s : Channels ms rs ws) (t : Chan ms rs ws)
      → IsValid ms rs ws s
      → channel_find ms rs ws t.id s ≡ some t
      → luac_close ms rs ws t.id s
        ≡ changed
            (record s { channels = put (cmp ms rs ws) (channel_close ms rs ws t).0 s.channels })
            (channel_close ms rs ws t).1
            (channel_close ms rs ws t).2
            true
  unfolding luac_close channel_ref channel_find
  close_found s t h e =
      let l = live ms rs ws t.id s t h e in
      let n = pos (suc (suc l.others)) in
      let d = (channel_close ms rs ws t).0 in
      let d' : Chan ms rs ws = record d { ref_count = n } in
      let keeps = close_keeps t in
      let key : cmp ms rs ws d' (record t { ref_count = n }) ≡ Ordering.eq =
        same_key ms rs ws d' t n keeps.0 in
      let same : (record d' { ref_count = pos (suc l.others) }) ≡ d =
        ap (λ k. record d { ref_count = k }) (sym (keeps.1 ∙ l.counted)) in
      rw
        (
          ref_found (cmp ms rs ws) (order ms rs ws) (counter ms rs ws) (counter-IsCounter ms rs ws)
              (with_id ms rs ws t.id) s.channels t (suc l.others) e l.counted,
          close_recount t n,
        )
        (ap
            (λ xs.
              after_free ms rs ws (channel_close ms rs ws t).1 (channel_close ms rs ws t).2 true
                (channel_free ms rs ws (some t.id) (record s { channels = xs })))
            (put_again (cmp ms rs ws) (order ms rs ws) d' (record t { ref_count = n }) s.channels
              key)
          ∙ ap (after_free ms rs ws (channel_close ms rs ws t).1 (channel_close ms rs ws t).2 true)
              (subst
                (λ i.
                  channel_free ms rs ws (some i)
                    (record s { channels = put (cmp ms rs ws) d' s.channels })
                  ≡ changed
                      (record s {
                        channels =
                            put (cmp ms rs ws) (record d' { ref_count = pos (suc l.others) })
                              s.channels;
                      })
                      [] [] tt)
                keeps.0 (free_kept ms rs ws s d' l.others h.0 refl))
          ∙ rw
              (
                same,
                append-nil (channel_close ms rs ws t).1,
                append-nil (channel_close ms rs ws t).2,
              )
              refl)

  -- In a registry of channels in the order of their ids, none above the last one given, each
  -- with a reference, the method `close` on a channel that is found returns true, makes the
  -- calls and destroys the messages that `channel_close` does on that channel, and puts the
  -- closed channel in its place, with its references as before; every other channel stays, and
  -- the registry stays valid.
  pub luac_close_lem :
      (cid : ℕ) (s : Channels ms rs ws) (t : Chan ms rs ws)
      → IsValid ms rs ws s
      → channel_find ms rs ws cid s ≡ some t
      → let (d, calls, gone) = channel_close ms rs ws t in
        (u : Channels ms rs ws) × (luac_close ms rs ws cid s ≡ changed u calls gone true)
        × (d.id ≡ cid)
        × Replaces ms rs ws d s u
  luac_close_lem cid s t h e =
      let same = found_id ms rs ws cid s t e in
      let l = live ms rs ws cid s t h e in
      let d = (channel_close ms rs ws t).0 in
      let keeps = close_keeps t in
      let l' : IsLive (cmp ms rs ws) (counter ms rs ws) (Given ms rs ws s.next_id) d = record {
        others = l.others;
        counted = keeps.1 ∙ l.counted;
        proper = rw keeps.0 l.proper;
      } in
      (
        record s { channels = put (cmp ms rs ws) d s.channels },
        subst
            (λ i.
              channel_find ms rs ws i s ≡ some t
              → luac_close ms rs ws i s
                ≡ changed (record s { channels = put (cmp ms rs ws) d s.channels })
                    (channel_close ms rs ws t).1 (channel_close ms rs ws t).2 true)
            same (close_found s t h) e,
        keeps.0 ∙ same,
        put-Replaces ms rs ws d s h l',
      )
