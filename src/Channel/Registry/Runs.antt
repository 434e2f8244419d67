-- ===== src/Channel/Registry/Runs.antt =====
-- src/lc_channel.c: sequences of the calls that go through the map of all channels.
use casting.Base.{
  ℕ, zero, suc, ◌+◌, ◌-◌, ◌≡◌, ◌≢◌, inl, inr, refl, sym, ◌∙◌, ap, arith, true, Option, none, some,
  Option-cases, All, List, [], ◌∷◌, ◌++◌, Ordering, ℤ, pos,
}
use casting.Fifo.{Fifo}
use casting.Registry.{free, refs, frees}
use casting.Registry.Counting.{entry, frees-refs, free_missing}
use casting.Registry.Live.{ref-IsRegistry, free-IsRegistry}
use casting.Channel.Defs.{Reader, Writer, Chan, channel_new}
use casting.Channel.Registry.{
  cmp_channel, Channels, with_id, channel_find, channel_ref, pointer, Change, changed, fault,
  released, channel_free, open_channel, Memory, Opened, opened, null_data, null_parts,
  channel_count, luac_close, luac_status, luac_destroy,
}
use casting.Channel.Registry.Laws.{
  cmp, counter, order, counter-IsCounter, Given, IsValid, found_id, free_found, count_of, status_of,
  reads_lem,
}
use casting.Channel.Registry.Opening.{IsUsable, open_channel_lem}
use casting.Channel.Registry.Closing.{luac_close_lem, luac_close_missing}

pub data Op : Type 0 where
  opens : Memory → ℤ → Op
  connects counts shows closes destroys : ℕ → Op

-- As many of one call.
abbrev pub times : ℕ → Op → List Op
times zero op = []
times (suc n) op = op ∷ times n op

module _ {C D M : Type 0} (ms : Fifo M) (rs : Fifo (Reader C D)) (ws : Fifo (Writer C D M)) where
  abbrev pub left : {R : Type 0} → Change ms rs ws R → Option (Channels ms rs ws)
  left (changed s calls gone r) = some s
  left fault = none

  abbrev pub left_open : Opened ms rs ws → Option (Channels ms rs ws)
  left_open (opened s c) = some s
  left_open null_data = none
  left_open null_parts = none

  abbrev pub step : Op → Channels ms rs ws → Option (Channels ms rs ws)
  step (opens mem size) s = left_open (open_channel ms rs ws mem size s)
  step (connects cid) s = some (channel_ref ms rs ws cid s).0
  step (counts cid) s = left (channel_count ms rs ws cid s)
  step (shows cid) s = left (luac_status ms rs ws cid s)
  step (closes cid) s = left (luac_close ms rs ws cid s)
  step (destroys cid) s = left (luac_destroy ms rs ws cid s)

  abbrev then_run :
      Option (Channels ms rs ws)
      → (Channels ms rs ws → Option (Channels ms rs ws))
      → Option (Channels ms rs ws)
  then_run none f = none
  then_run (some s) f = f s

  abbrev pub run : List Op → Channels ms rs ws → Option (Channels ms rs ws)
  run [] s = some s
  run (op ∷ ops) s = then_run (step op s) (run ops)

  abbrev pub Stays : Option (Channels ms rs ws) → Type 0
  Stays o = (t : Channels ms rs ws) × (o ≡ some t) × IsValid ms rs ws t

  ref-IsValid :
      (cid : ℕ) (s : Channels ms rs ws)
      → IsValid ms rs ws s
      → IsValid ms rs ws (channel_ref ms rs ws cid s).0
  unfolding channel_ref
  ref-IsValid cid s h =
      ref-IsRegistry (cmp ms rs ws) (order ms rs ws) (counter ms rs ws) (counter-IsCounter ms rs ws)
        (Given ms rs ws s.next_id) (λ t k p. p) (with_id ms rs ws cid) s.channels h

  freed : ℕ → Channels ms rs ws → Channels ms rs ws
  freed cid s = record s {
    channels = (free (cmp ms rs ws) (counter ms rs ws) (with_id ms rs ws cid) s.channels).0;
  }

  left-released :
      (s : Channels ms rs ws) (gone : Option (Chan ms rs ws))
      → left (released ms rs ws s gone) ≡ some s
  unfolding released
  left-released s none = refl
  left-released s (some c) = refl

  freed_missing :
      (cid : ℕ) (s : Channels ms rs ws) → channel_find ms rs ws cid s ≡ none → freed cid s ≡ s
  unfolding freed channel_find
  freed_missing cid s e =
      rw
        (free_missing (cmp ms rs ws) (order ms rs ws) (counter ms rs ws)
          (counter-IsCounter ms rs ws) (with_id ms rs ws cid) s.channels e)
        refl

  destroy_missing :
      (cid : ℕ) (s : Channels ms rs ws)
      → channel_find ms rs ws cid s ≡ none
      → luac_destroy ms rs ws cid s ≡ changed s [] [] tt
  unfolding luac_destroy channel_free
  destroy_missing cid s e = ap (λ o. channel_free ms rs ws (pointer ms rs ws o) s) e

  destroy_found :
      (cid : ℕ) (s : Channels ms rs ws) (t : Chan ms rs ws)
      → channel_find ms rs ws cid s ≡ some t
      → luac_destroy ms rs ws cid s ≡ channel_free ms rs ws (some cid) s
  unfolding luac_destroy
  destroy_found cid s t e =
      ap (λ o. channel_free ms rs ws (pointer ms rs ws o) s) e
      ∙ ap (λ i. channel_free ms rs ws (some i) s) (found_id ms rs ws cid s t e)

  -- The method `__gc` gives one reference back, if the channel is there.
  destroy_frees :
      (cid : ℕ) (s : Channels ms rs ws) → left (luac_destroy ms rs ws cid s) ≡ some (freed cid s)
  unfolding freed
  destroy_frees cid s = elim (Option-cases (channel_find ms rs ws cid s)) [
    | inl e ↦ ap left (destroy_missing cid s e) ∙ ap some (sym (freed_missing cid s e))
    | inr (t, e) ↦
        ap left (destroy_found cid s t e ∙ free_found ms rs ws cid s t e)
        ∙ left-released (freed cid s) _
  ]

  freed-IsValid :
      (cid : ℕ) (s : Channels ms rs ws) → IsValid ms rs ws s → IsValid ms rs ws (freed cid s)
  unfolding freed
  freed-IsValid cid s h =
      free-IsRegistry (cmp ms rs ws) (order ms rs ws) (counter ms rs ws)
        (counter-IsCounter ms rs ws) (Given ms rs ws s.next_id) (λ t k p. p) (with_id ms rs ws cid)
        s.channels h

  left-count_of :
      (s : Channels ms rs ws) (o : Option (Chan ms rs ws))
      → (left (count_of ms rs ws s o) ≡ some s) × (left (status_of ms rs ws s o) ≡ some s)
  left-count_of s none = (refl, refl)
  left-count_of s (some t) = (refl, refl)

  -- Each opening leaves no NULL behind.
  abbrev pub IsUsableOp : Op → Type 0
  IsUsableOp (opens mem size) = IsUsable ms rs ws mem
  IsUsableOp op = Unit

  open-Stays :
      (mem : Memory) (size : ℤ) (s : Channels ms rs ws)
      → IsUsable ms rs ws mem
      → IsValid ms rs ws s
      → Stays (left_open (open_channel ms rs ws mem size s))
  open-Stays mem size s (inl e) h =
      let (_, _, unmade, valid, _) = open_channel_lem ms rs ws mem.parts mem.copy size s h in
      (_, rw e (ap left_open unmade), valid)
  open-Stays mem size s (inr (e, copy, parts)) h =
      let (_, (u, result, replaces), _, _, _) = open_channel_lem ms rs ws true true size s h in
      (u, rw (e, copy, parts) (ap left_open result), replaces.0)

  step-Stays :
      (op : Op) (s : Channels ms rs ws) → IsUsableOp op → IsValid ms rs ws s → Stays (step op s)
  step-Stays (opens mem size) s u h = open-Stays mem size s u h
  step-Stays (connects cid) s u h = (_, refl, ref-IsValid cid s h)
  step-Stays (counts cid) s u h =
      (s, ap left (reads_lem ms rs ws cid s h).0 ∙ (left-count_of s _).0, h)
  step-Stays (shows cid) s u h =
      (s, ap left (reads_lem ms rs ws cid s h).1 ∙ (left-count_of s _).1, h)
  step-Stays (destroys cid) s u h = (freed cid s, destroy_frees cid s, freed-IsValid cid s h)
  step-Stays (closes cid) s u h = elim (Option-cases (channel_find ms rs ws cid s)) [
    | inl e ↦ (s, ap left (luac_close_missing ms rs ws cid s e), h)
    | inr (t, e) ↦
        let (u, result, same, replaces) = luac_close_lem ms rs ws cid s t h e in
        (u, ap left result, replaces.0)
  ]

  -- From a registry of channels that is in the order of the ids, with no id above the last one
  -- given and a reference for each channel, any sequence of openings, each with memory or
  -- without any for its node of the map, of connections, and of calls of `#`, `status`, `close`
  -- and `__gc` on any ids, uses no channel that is freed, and leaves the registry so.
  pub run-IsValid :
      (ops : List Op) (s : Channels ms rs ws)
      → All IsUsableOp ops
      → IsValid ms rs ws s
      → Stays (run ops s)
  run-IsValid [] s u h = (s, refl, h)
  run-IsValid (op ∷ ops) s u h =
      let (t, e, v) = step-Stays op s u.0 h in rw e (run-IsValid ops t u.1 v)

  run-connects :
      (n cid : ℕ) (s : Channels ms rs ws) (ops : List Op)
      → run (times n (connects cid) ++ ops) s
        ≡ run ops (record s {
          channels = refs (cmp ms rs ws) (counter ms rs ws) n (with_id ms rs ws cid) s.channels;
        })
  unfolding channel_ref
  run-connects zero cid s ops = refl
  run-connects (suc n) cid s ops = run-connects n cid (channel_ref ms rs ws cid s).0 ops

  run-destroys :
      (m cid : ℕ) (s : Channels ms rs ws)
      → run (times m (destroys cid)) s
        ≡ some (record s {
          channels = frees (cmp ms rs ws) (counter ms rs ws) m (with_id ms rs ws cid) s.channels;
        })
  unfolding freed
  run-destroys zero cid s = refl
  run-destroys (suc m) cid s = rw (destroy_frees cid s) (run-destroys m cid (freed cid s))

  ids_differ :
      (cid z : ℕ) → z ≢ cid → cmp ms rs ws (with_id ms rs ws cid) (with_id ms rs ws z) ≢ Ordering.eq
  unfolding cmp_channel channel_new
  ids_differ cid z ne = λ e. ground arith

  -- In a registry of channels in the order of their ids, none above the last one given, each
  -- with a reference, for a channel with `k + 1` references, `n` connections and then `m` calls
  -- of `__gc` leave the channel with `k + 1 + n - m` references, or, if that is not above 0,
  -- remove it. Every other channel stays.
  pub run_connects_destroys :
      (n m cid k : ℕ) (s : Channels ms rs ws) (c : Chan ms rs ws)
      → IsValid ms rs ws s
      → channel_find ms rs ws cid s ≡ some c
      → c.ref_count ≡ pos (suc k)
      → (t : Channels ms rs ws) × (run (times n (connects cid) ++ times m (destroys cid)) s
          ≡ some t)
        × (channel_find ms rs ws cid t ≡ entry (counter ms rs ws) c (suc (n + k) - m))
        × ((z : ℕ) → z ≢ cid → channel_find ms rs ws z t ≡ channel_find ms rs ws z s)
  unfolding channel_find
  run_connects_destroys n m cid k s c h e q =
      let held =
        frees-refs (cmp ms rs ws) (order ms rs ws) (counter ms rs ws) (counter-IsCounter ms rs ws) n
          m k (with_id ms rs ws cid) c s.channels h.0 e q in
      (
        _,
        run-connects n cid s _ ∙ run-destroys m cid _,
        held.1,
        λ z ne. held.2 (with_id ms rs ws z) (ids_differ cid z ne),
      )
