-- ===== src/Channel/Registry/Laws.antt =====
-- src/lc_channel.c: the map of all channels, through with its counting.
use Prim.Native.Nat.{compare}
use Prim.Native.String.{String}
use casting.Base.{
  ℕ, suc, ◌≤◌, ◌≡◌, inl, inr, refl, ◌∙◌, ap, subst, arith, Ordering, Option, none, some,
  Option-cases, List, [], ℤ, pos, err_inval,
}
use casting.Fifo.{Fifo}
use casting.Map.Sorted.{IsOrder, IsAscending}
use casting.Registry.{Counter, put, free, dropped_if}
use casting.Registry.Keys.{ℕ-IsOrder, by_key-IsOrder}
use casting.Registry.Laws.{lookup-put, lookup_key}
use casting.Registry.Counting.{IsCounter, ref_found, ref_missing, free-ref}
use casting.Registry.Live.{IsLive, IsRegistry, lookup-IsLive, free-IsRegistry}
use casting.Channel.Defs.{Reader, Writer, Chan, channel_new}
use casting.Channel.Registry.{
  cmp_channel, channel_counter, Channels, with_id, channel_find, channel_ref, Change, changed,
  fault, released, channel_free, channel_count, luac_status, status_text, after_free, counted,
  status_by,
}

module _ {C D M : Type 0} (ms : Fifo M) (rs : Fifo (Reader C D)) (ws : Fifo (Writer C D M)) where
  abbrev pub cmp : Chan ms rs ws → Chan ms rs ws → Ordering
  cmp = cmp_channel ms rs ws

  pub order : IsOrder cmp
  unfolding cmp_channel
  order = by_key-IsOrder compare ℕ-IsOrder (λ c. c.id)

  abbrev pub counter : Counter (Chan ms rs ws)
  counter = channel_counter ms rs ws

  pub counter-IsCounter : IsCounter cmp counter
  unfolding cmp_channel
  counter-IsCounter = record {
    count-recount = λ t n. refl;
    recount-count = λ t. refl;
    recount-recount = λ t m n. refl;
    recount_key = λ t n. ℕ-IsOrder.cmp_refl t.id;
  }

  -- No id is above the last one given.
  abbrev pub Given : ℕ → Chan ms rs ws → Type 0
  Given n c = c.id ≤ n

  abbrev Listed : ℕ → List (Chan ms rs ws) → Type 0
  Listed n = IsRegistry cmp counter (Given n)

  -- The channels are in the order of their ids, none of which is above the last one given, and each has
  -- a reference.
  abbrev pub IsValid : Channels ms rs ws → Type 0
  IsValid s = Listed s.next_id s.channels

  -- A valid outcome that is no fault.
  abbrev pub Good : {R : Type 0} → Change ms rs ws R → Type 0
  Good (changed s calls gone r) = IsValid s
  Good fault = ⊥

  self : (c : Chan ms rs ws) (cid : ℕ) → c.id ≡ cid → cmp c (with_id ms rs ws cid) ≡ Ordering.eq
  unfolding cmp_channel channel_new
  self c cid e = ground arith

  pub find-put :
      (c : Chan ms rs ws) (s : Channels ms rs ws)
      → IsAscending cmp s.channels
      → channel_find ms rs ws c.id (record s { channels = put cmp c s.channels }) ≡ some c
  unfolding channel_find
  find-put c s h =
      lookup-put cmp order c (with_id ms rs ws c.id) s.channels h ∙ rw (self c c.id refl) refl

  pub released-Good :
      (s : Channels ms rs ws) (gone : Option (Chan ms rs ws))
      → IsValid s
      → Good (released ms rs ws s gone)
  unfolding released
  released-Good s none h = h
  released-Good s (some c) h = h

  -- `channel_free` of a channel that is there is the counting of its registry.
  pub free_found :
      (cid : ℕ) (s : Channels ms rs ws) (t : Chan ms rs ws)
      → channel_find ms rs ws cid s ≡ some t
      → channel_free ms rs ws (some cid) s
        ≡ released ms rs ws
            (record s { channels = (free cmp counter (with_id ms rs ws cid) s.channels).0 })
            (free cmp counter (with_id ms rs ws cid) s.channels).1
  unfolding channel_free channel_find free dropped_if
  free_found cid s t e = rw e refl

  pub free-Good :
      (cid : ℕ) (s : Channels ms rs ws) (t : Chan ms rs ws)
      → IsValid s
      → channel_find ms rs ws cid s ≡ some t
      → Good (channel_free ms rs ws (some cid) s)
  free-Good cid s t h e = rw (free_found cid s t e) (
      released-Good _ _
        (free-IsRegistry cmp order counter counter-IsCounter (Given s.next_id) (λ t k p. p) _ _ h))

  pub live :
      (cid : ℕ) (s : Channels ms rs ws) (t : Chan ms rs ws)
      → IsValid s
      → channel_find ms rs ws cid s ≡ some t
      → IsLive cmp counter (Given s.next_id) t
  unfolding channel_find
  live cid s t h e =
      lookup-IsLive cmp order counter counter-IsCounter (Given s.next_id) (λ t k p. p) _ t _ e h

  pub found_id :
      (cid : ℕ) (s : Channels ms rs ws) (t : Chan ms rs ws)
      → channel_find ms rs ws cid s ≡ some t
      → t.id ≡ cid
  unfolding channel_find cmp_channel channel_new
  found_id cid s t e = ground (arith, lookup_key cmp order (with_id ms rs ws cid) s.channels t e)

  -- What is taken by `channel_ref` and given back by `channel_free` leaves all as it was.
  pub free-channel_ref :
      (s : Channels ms rs ws) (t : Chan ms rs ws)
      → IsValid s
      → channel_find ms rs ws t.id s ≡ some t
      → channel_free ms rs ws (some t.id) (channel_ref ms rs ws t.id s).0 ≡ changed s [] [] tt
  unfolding channel_ref channel_find released
  free-channel_ref s t h e =
      let l = live t.id s t h e in
      let key = with_id ms rs ws t.id in
      let t' = counter.recount t (pos (suc (suc l.others))) in
      let taken =
        ref_found cmp order counter counter-IsCounter key s.channels t (suc l.others) e l.counted in
      free_found t.id (channel_ref ms rs ws t.id s).0 t' (rw taken (find-put t' s h.0))
      ∙ rw (free-ref cmp order counter counter-IsCounter key t s.channels l.others h.0 e l.counted)
          refl

  pub ref_found_at :
      (s : Channels ms rs ws) (t : Chan ms rs ws)
      → IsValid s
      → channel_find ms rs ws t.id s ≡ some t
      → (k : ℤ) × ((channel_ref ms rs ws t.id s).1 ≡ some (record t { ref_count = k }))
  unfolding channel_ref channel_find
  ref_found_at s t h e =
      let l = live t.id s t h e in
      (
        pos (suc (suc l.others)),
        rw
            (ref_found cmp order counter counter-IsCounter (with_id ms rs ws t.id) s.channels t
              (suc l.others) e l.counted)
            refl,
      )

  pub ref_missing_at :
      (cid : ℕ) (s : Channels ms rs ws)
      → channel_find ms rs ws cid s ≡ none
      → channel_ref ms rs ws cid s ≡ (s, none)
  unfolding channel_ref channel_find
  ref_missing_at cid s e =
      rw (ref_missing cmp order counter counter-IsCounter (with_id ms rs ws cid) s.channels e) refl

  abbrev pub count_of : Channels ms rs ws → Option (Chan ms rs ws) → Change ms rs ws ℤ
  count_of s none = changed s [] [] err_inval
  count_of s (some t) = changed s [] [] (ms.size t.messages)

  abbrev pub status_of : Channels ms rs ws → Option (Chan ms rs ws) → Change ms rs ws String
  status_of s none = changed s [] [] "invalid"
  status_of s (some t) = changed s [] [] (status_text ms rs ws t.status)

  reads_found :
      (s : Channels ms rs ws) (t : Chan ms rs ws)
      → IsValid s
      → channel_find ms rs ws t.id s ≡ some t
      → (channel_count ms rs ws t.id s ≡ changed s [] [] (ms.size t.messages))
        × (luac_status ms rs ws t.id s ≡ changed s [] [] (status_text ms rs ws t.status))
  unfolding channel_count luac_status
  reads_found s t h e =
      let (k, taken) = ref_found_at s t h e in
      let u = (channel_ref ms rs ws t.id s).0 in
      let back = free-channel_ref s t h e in
      (
        ap (λ o. counted ms rs ws (u, o)) taken
            ∙ ap (after_free ms rs ws [] [] (ms.size t.messages)) back,
        ap (λ o. status_by ms rs ws (u, o)) taken
            ∙ ap (after_free ms rs ws [] [] (status_text ms rs ws t.status)) back,
      )

  -- In a registry of channels in the order of their ids, none above the last one given, each
  -- with a reference, `channel_count` and the method `status` leave everything as it was. They
  -- give the number of messages and the status of a channel that is found, and else ERR_INVAL
  -- and `invalid`.
  pub reads_lem :
      (cid : ℕ) (s : Channels ms rs ws)
      → IsValid s
      → (channel_count ms rs ws cid s ≡ count_of s (channel_find ms rs ws cid s))
        × (luac_status ms rs ws cid s ≡ status_of s (channel_find ms rs ws cid s))
  unfolding channel_count luac_status
  reads_lem cid s h = elim (Option-cases (channel_find ms rs ws cid s)) [
    | inl e ↦ (rw (e, ref_missing_at cid s e) refl, rw (e, ref_missing_at cid s e) refl)
    | inr (t, e) ↦ rw e (
        subst
          (λ i.
            channel_find ms rs ws i s ≡ some t
            → (channel_count ms rs ws i s ≡ count_of s (some t))
              × (luac_status ms rs ws i s ≡ status_of s (some t)))
          (found_id cid s t e) (reads_found s t h) e)
  ]
