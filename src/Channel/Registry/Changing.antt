-- ===== src/Channel/Registry/Changing.antt =====
-- src/lc_channel.c: a channel that is referenced, changed and freed again, and the others.
use casting.Base.{ℕ, suc, ◌≡◌, ◌≢◌, refl, sym, ◌∙◌, ap, arith, some, [], Ordering, ℤ, pos, succ}
use casting.Fifo.{Fifo}
use casting.Map.Sorted.{IsAscending}
use casting.Registry.{put, ref, taken}
use casting.Registry.Laws.{lookup-put, put_again}
use casting.Registry.Counting.{free_keeps}
use casting.Registry.Live.{IsLive, put-IsRegistry}
use casting.Channel.Defs.{Reader, Writer, Chan, channel_new}
use casting.Channel.Registry.{
  cmp_channel, Channels, with_id, channel_find, channel_ref, changed, released, channel_free,
}
use casting.Channel.Registry.Laws.{
  cmp, counter, order, counter-IsCounter, Given, IsValid, find-put, free_found, live,
}

module _ {C D M : Type 0} (ms : Fifo M) (rs : Fifo (Reader C D)) (ws : Fifo (Writer C D M)) where
  -- `channel_free` of a channel with two references or more.
  pub free_kept :
      (s : Channels ms rs ws) (t : Chan ms rs ws) (k : ℕ)
      → IsAscending (cmp ms rs ws) s.channels
      → t.ref_count ≡ pos (suc (suc k))
      → channel_free ms rs ws (some t.id) (record s { channels = put (cmp ms rs ws) t s.channels })
        ≡ changed
            (record s {
              channels = put (cmp ms rs ws) (record t { ref_count = pos (suc k) }) s.channels;
            })
            []
            []
            tt
  unfolding released channel_find cmp_channel
  free_kept s t k h n =
      let s' : Channels ms rs ws = record s { channels = put (cmp ms rs ws) t s.channels } in
      let d : Chan ms rs ws = record t { ref_count = pos (suc k) } in
      let found = find-put ms rs ws t s h in
      free_found ms rs ws t.id s' t found
      ∙ rw
          (free_keeps (cmp ms rs ws) (order ms rs ws) (counter ms rs ws)
            (counter-IsCounter ms rs ws) (with_id ms rs ws t.id) s'.channels t k found n)
          (ap (λ xs. changed (record s { channels = xs }) [] [] tt)
            (put_again (cmp ms rs ws) (order ms rs ws) d t s.channels
              ((order ms rs ws).cmp_refl t)))

  -- In `t` the channel `d` stands under its id, and every other id leads to what it did in `s`.
  abbrev pub Replaces : Chan ms rs ws → Channels ms rs ws → Channels ms rs ws → Type 0
  Replaces d s t =
      IsValid ms rs ws t
      × (channel_find ms rs ws d.id t ≡ some d)
      × ((z : ℕ) → z ≢ d.id → channel_find ms rs ws z t ≡ channel_find ms rs ws z s)

  pub put-Replaces :
      (d : Chan ms rs ws) (s : Channels ms rs ws)
      → IsValid ms rs ws s
      → IsLive (cmp ms rs ws) (counter ms rs ws) (Given ms rs ws s.next_id) d
      → Replaces d s (record s { channels = put (cmp ms rs ws) d s.channels })
  unfolding channel_find cmp_channel channel_new
  put-Replaces d s h l = (
    put-IsRegistry (cmp ms rs ws) (order ms rs ws) (counter ms rs ws) (counter-IsCounter ms rs ws)
        (Given ms rs ws s.next_id) (λ t k p. p) d s.channels l h,
    find-put ms rs ws d s h.0,
    λ z ne.
        lookup-put (cmp ms rs ws) (order ms rs ws) d (with_id ms rs ws z) s.channels h.0
        ∙ ground arith,
  )

  pub same_key :
      (c t : Chan ms rs ws) (n : ℤ)
      → c.id ≡ t.id
      → cmp ms rs ws c (record t { ref_count = n }) ≡ Ordering.eq
  unfolding cmp_channel
  same_key c t n e = ground arith

  abbrev pub referenced : Chan ms rs ws → Chan ms rs ws
  referenced c = record c { ref_count = succ c.ref_count }

  pub channel_ref_more :
      (cid : ℕ) (s : Channels ms rs ws) (c : Chan ms rs ws)
      → channel_find ms rs ws cid s ≡ some c
      → channel_ref ms rs ws cid s ≡ (
        record s { channels = put (cmp ms rs ws) (referenced c) s.channels },
        some (referenced c),
      )
  unfolding channel_find channel_ref ref taken
  channel_ref_more cid s c e = rw e refl

  -- A channel that is found, referenced, changed but for its id and count, and freed again.
  pub channel_changed :
      (s : Channels ms rs ws) (c d : Chan ms rs ws)
      → IsValid ms rs ws s
      → channel_find ms rs ws c.id s ≡ some c
      → d.id ≡ c.id
      → d.ref_count ≡ succ c.ref_count
      → let back : Chan ms rs ws = record d { ref_count = c.ref_count } in
        (channel_free ms rs ws (some d.id) (record s {
          channels = put (cmp ms rs ws) d (put (cmp ms rs ws) (referenced c) s.channels);
        })
          ≡ changed (record s { channels = put (cmp ms rs ws) back s.channels }) [] [] tt)
        × Replaces back s (record s { channels = put (cmp ms rs ws) back s.channels })
  channel_changed s c d h e i n =
      let l = live ms rs ws c.id s c h e in
      let back : Chan ms rs ws = record d { ref_count = c.ref_count } in
      let l' : IsLive (cmp ms rs ws) (counter ms rs ws) (Given ms rs ws s.next_id) back = record {
        others = l.others;
        counted = l.counted;
        proper = rw i l.proper;
      } in
      (
        ap (λ xs. channel_free ms rs ws (some d.id) (record s { channels = xs }))
              (put_again (cmp ms rs ws) (order ms rs ws) d (referenced c) s.channels
                (same_key d c (succ c.ref_count) i))
            ∙ free_kept s d l.others h.0 (n ∙ ap succ l.counted)
            ∙ ap
                (λ k.
                  changed
                    (record s {
                      channels = put (cmp ms rs ws) (record d { ref_count = k }) s.channels;
                    })
                    [] [] tt)
                (sym l.counted),
        put-Replaces back s h l',
      )
