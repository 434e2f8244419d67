-- ===== src/Channel/Registry/Opening.antt =====
-- src/lc_channel.c: a channel is opened, and the others stay.
use casting.Base.{
  ℕ, suc, ◌≡◌, refl, ap, arith, Bool, true, false, ◌⊎◌, some, none, List, [], ◌∷◌, All, All-imp,
  ◌≤◌, ℤ,
}
use casting.Fifo.{Fifo}
use casting.Map.Sorted.{lookup}
use casting.Registry.{put}
use casting.Registry.Live.{IsLive}
use casting.Channel.Defs.{Reader, Writer, Chan, channel_new}
use casting.Channel.Registry.{
  cmp_channel, Channels, with_id, channel_find, open_channel, Memory, opened, null_data,
}
use casting.Channel.Registry.Laws.{cmp, counter, Given, IsValid, find-put}
use casting.Channel.Registry.Changing.{Replaces, put-Replaces}

module _ {C D M : Type 0} (ms : Fifo M) (rs : Fifo (Reader C D)) (ws : Fifo (Writer C D M)) where
  above-Lacks :
      (n : ℕ) (xs : List (Chan ms rs ws))
      → All (IsLive (cmp ms rs ws) (counter ms rs ws) (Given ms rs ws n)) xs
      → lookup (cmp ms rs ws) (with_id ms rs ws (suc n)) xs ≡ none
  unfolding lookup cmp_channel channel_new
  above-Lacks n [] h = refl
  above-Lacks n (y ∷ xs) h =
      let below : y.id ≤ n = h.0.proper in ground (arith, above-Lacks n xs h.1)

  raise_IsValid :
      (s : Channels ms rs ws)
      → IsValid ms rs ws s
      → IsValid ms rs ws (record s { next_id = suc s.next_id })
  raise_IsValid s h = (
    h.0,
    All-imp _ _
        (λ c l. record {
          others = l.others;
          counted = l.counted;
          proper = let below : c.id ≤ s.next_id = l.proper in omega arith;
        })
        s.channels h.1,
  )

  -- Whether an opening leaves no NULL in the map or in the channel.
  abbrev pub IsUsable : Memory → Type 0
  IsUsable mem = (mem.node ≡ false) ⊎ ((mem.node ≡ true) × (mem.copy ≡ true) × (mem.parts ≡ true))

  -- In a registry of channels in the order of their ids, none above the last one given, each
  -- with a reference, the id after the last is not in use. An opening with memory returns a new
  -- channel under that id, with one reference, and every other channel stays. Without memory for
  -- the node of the map it returns NULL, takes the id, and every channel stays. The registry
  -- stays valid in both cases. With the node but without its copy, the map gets NULL as data.
  pub open_channel_lem :
      (p k : Bool) (size : ℤ) (s : Channels ms rs ws)
      → IsValid ms rs ws s
      → let id = suc s.next_id in
        let c = channel_new ms rs ws id size in
        let raised : Channels ms rs ws = record s { next_id = id } in
        (channel_find ms rs ws id s ≡ none)
        × ((u : Channels ms rs ws) × (open_channel ms rs ws
                (record { parts = true; node = true; copy = true })
                size
                s
              ≡ opened u (some c))
            × Replaces ms rs ws c s u)
        × (open_channel ms rs ws (record { parts = p; node = false; copy = k }) size s
            ≡ opened raised none)
        × IsValid ms rs ws raised
        × (open_channel ms rs ws (record { parts = p; node = true; copy = false }) size s
            ≡ null_data)
  unfolding open_channel channel_find channel_new
  open_channel_lem p k size s h =
      let s' : Channels ms rs ws = record s { next_id = suc s.next_id } in
      let c = channel_new ms rs ws (suc s.next_id) size in
      let l : IsLive (cmp ms rs ws) (counter ms rs ws) (Given ms rs ws (suc s.next_id)) c = record {
        others = 0;
        counted = refl;
        proper = omega arith;
      } in
      let made : Channels ms rs ws = record s' { channels = put (cmp ms rs ws) c s.channels } in
      let missing = above-Lacks s.next_id s.channels h.1 in
      let raised = raise_IsValid s h in
      (
        missing,
        (made, ap (opened made) (find-put ms rs ws c s h.0), put-Replaces ms rs ws c s' raised l),
        ap (opened s') missing,
        raised,
        refl,
      )
