-- ===== src/Examples/Registries.antt =====
-- src/lc_channel.c: the map of all channels, with channels of numbers.
use casting.Base.{
  inl, inr, false, ℕ, suc, ◌≡◌, ◌≢◌, refl, arith, true, false, none, some, [], ◌∷◌, ◌++◌, pos, ◌-◌,
  ◌+◌,
}
use casting.Fifo.{Fifo}
use casting.Map.Node.{copied}
use casting.Map.Sorted.{lookup}
use casting.Queue.{node_data}
use casting.Queue.Linked.{linked_fifo}
use casting.Registry.Counting.{entry}
use casting.Channel.Defs.{Reader, Writer, Chan, channel_new, channel_close}
use casting.Channel.Registry.{
  cmp_channel, Channels, channel_find, changed, open_channel, Memory, opened, null_data, luac_close,
}
use casting.Channel.Registry.Laws.{counter, IsValid}
use casting.Channel.Registry.Changing.{Replaces}
use casting.Channel.Registry.Opening.{open_channel_lem}
use casting.Channel.Registry.Closing.{luac_close_lem}
use casting.Channel.Registry.Runs.{
  opens, connects, counts, shows, closes, destroys, run, times, Stays, run-IsValid,
  run_connects_destroys,
}

-- Messages, and callbacks and their data, are numbers. The messages are not copied.
copies_none {ℓ} : {A : Type ℓ} (x : A) → node_data none (some x) ≡ copied (some x)
unfolding node_data
copies_none x = refl

copies_some {ℓ} : {A : Type ℓ} (x : A) → node_data (some copied) (some x) ≡ copied (some x)
unfolding node_data
copies_some x = refl

abbrev ms : Fifo ℕ
ms = linked_fifo none copies_none

abbrev rs : Fifo (Reader ℕ ℕ)
rs = linked_fifo (some copied) copies_some

abbrev ws : Fifo (Writer ℕ ℕ ℕ)
ws = linked_fifo (some copied) copies_some

-- Two channels, of which the first has a message and a waiting reader.
abbrev first : Chan ms rs ws
first =
    let c = channel_new ms rs ws 1 (pos 4) in
    record c {
      messages = ms.push c.messages 100;
      readers = rs.push c.readers (record { cb = 5; arg = 6 });
    }

abbrev two : Channels ms rs ws
two = record { channels = first ∷ (channel_new ms rs ws 2 (pos 0) ∷ []); next_id = 2 }

two-IsValid : IsValid ms rs ws two
unfolding cmp_channel channel_new
two-IsValid = (
  ((refl, tt), (tt, tt)),
  (
    record { others = 0; counted = refl; proper = omega arith },
    (record { others = 0; counted = refl; proper = omega arith }, tt),
  ),
)

finds_first : channel_find ms rs ws 1 two ≡ some first
unfolding channel_find lookup cmp_channel channel_new
finds_first = refl

first_count : first.ref_count ≡ pos 1
unfolding channel_new
first_count = refl

abbrev all_memory : Memory
all_memory = record { parts = true; node = true; copy = true }

abbrev no_node : Memory
no_node = record { parts = true; node = false; copy = true }

abbrev no_copy : Memory
no_copy = record { parts = true; node = true; copy = false }

run-IsValid_example : Stays ms rs ws (
    run ms rs ws
      (opens all_memory (pos 3)
        ∷ opens no_node (pos 0)
        ∷ connects 1
        ∷ closes 1
        ∷ counts 1
        ∷ shows 9
        ∷ destroys 1
        ∷ destroys 1
        ∷ [])
      two)
run-IsValid_example =
    run-IsValid ms rs ws
      (opens all_memory (pos 3)
        ∷ opens no_node (pos 0)
        ∷ connects 1
        ∷ closes 1
        ∷ counts 1
        ∷ shows 9
        ∷ destroys 1
        ∷ destroys 1
        ∷ [])
      two (inr (refl, refl, refl), (inl refl, (tt, (tt, (tt, (tt, (tt, (tt, tt)))))))) two-IsValid

run_connects_destroys_example :
    (t : Channels ms rs ws) × (run ms rs ws (times 2 (connects 1) ++ times 3 (destroys 1)) two
      ≡ some t)
    × (channel_find ms rs ws 1 t ≡ entry (counter ms rs ws) first (suc (2 + 0) - 3))
    × ((z : ℕ) → z ≢ 1 → channel_find ms rs ws z t ≡ channel_find ms rs ws z two)
run_connects_destroys_example =
    run_connects_destroys ms rs ws 2 3 1 0 two first two-IsValid finds_first first_count

luac_close_lem_example :
    let (d, calls, gone) = channel_close ms rs ws first in
    (u : Channels ms rs ws) × (luac_close ms rs ws 1 two ≡ changed u calls gone true)
    × (d.id ≡ 1)
    × Replaces ms rs ws d two u
luac_close_lem_example = luac_close_lem ms rs ws 1 two first two-IsValid finds_first

open_channel_lem_example :
    let c = channel_new ms rs ws 3 (pos 5) in
    let raised : Channels ms rs ws = record two { next_id = 3 } in
    (channel_find ms rs ws 3 two ≡ none)
    × ((u : Channels ms rs ws) × (open_channel ms rs ws all_memory (pos 5) two ≡ opened u (some c))
        × Replaces ms rs ws c two u)
    × (open_channel ms rs ws no_node (pos 5) two ≡ opened raised none)
    × IsValid ms rs ws raised
    × (open_channel ms rs ws no_copy (pos 5) two ≡ null_data)
open_channel_lem_example = open_channel_lem ms rs ws true true (pos 5) two two-IsValid
