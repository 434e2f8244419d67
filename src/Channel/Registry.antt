-- ===== src/Channel/Registry.antt =====
-- src/lc_channel.c: the map of all channels, their ids and their reference counts, and the methods
-- of a channel in Lua that go through them.
pub mod Laws
pub mod Changing
pub mod Opening
pub mod Closing
pub mod Runs
use Prim.Native.Nat.{compare}
use Prim.Native.String.{String}
use casting.Base.{
  ℕ, suc, Bool, Ordering, Option, none, some, List, [], ◌++◌, map, if◌then◌else◌, ℤ, pos, true,
  err_inval,
}
use casting.Fifo.{Fifo}
use casting.Map.Sorted.{lookup}
use casting.Registry.{Counter, put, ref, dropped}
use casting.Channel.Defs.{
  channel_open, channel_closed, Status, Reader, Writer, Call, rel_reader, rel_writer, Chan,
  channel_new, channel_close,
}

-- What `lc_alloc` finds in an opening: for the lock and the queues, for the node of the map, and for
-- the copy in it.
pub record Memory : Type 0 where
  pub parts : Bool
  pub node : Bool
  pub copy : Bool

module _ {C D M : Type 0} (ms : Fifo M) (rs : Fifo (Reader C D)) (ws : Fifo (Writer C D M)) where
  -- The ids are doubles that count up, exact below 2^53.
  unfoldable pub cmp_channel : Chan ms rs ws → Chan ms rs ws → Ordering
  cmp_channel a b = compare a.id b.id

  abbrev pub channel_counter : Counter (Chan ms rs ws)
  channel_counter = record { count = λ c. c.ref_count; recount = λ c n. record c { ref_count = n } }

  -- `channels` and `next_id`.
  pub record Channels : Type 0 where
    pub channels : List (Chan ms rs ws)
    pub next_id : ℕ

  -- A key for the search: `channel_t f = { cid }`.
  abbrev pub with_id : ℕ → Chan ms rs ws
  with_id cid = record (channel_new ms rs ws cid (pos 0)) { ref_count = pos 0 }

  unfoldable pub channel_find : ℕ → Channels → Option (Chan ms rs ws)
  channel_find cid s = lookup cmp_channel (with_id cid) s.channels

  unfoldable pub channel_ref : ℕ → Channels → Channels × Option (Chan ms rs ws)
  channel_ref cid s =
      let (cs, c) = ref cmp_channel channel_counter (with_id cid) s.channels in
      (record s { channels = cs }, c)

  -- The channels after an operation, the callbacks' calls in order, the messages that are destroyed,
  -- and the result. `fault` stands for the use of a channel that is freed.
  pub data Change (R : Type 0) : Type 0 where
    changed : Channels → List (Call C D M) → List M → R → Change R
    fault : Change R

  -- The queues of a channel that is freed: messages are destroyed, readers and writers are told.
  unfoldable pub released : Channels → Option (Chan ms rs ws) → Change Unit
  released s none = changed s [] [] tt
  released s (some c) =
      changed s (map rel_reader (rs.clear c.readers).1 ++ map rel_writer (ws.clear c.writers).1)
        (ms.clear c.messages).1 tt

  abbrev freed_in : Channels → List (Chan ms rs ws) × Option (Chan ms rs ws) → Change Unit
  freed_in s (cs, gone) = released (record s { channels = cs }) gone

  abbrev freed_at : Channels → Option (Chan ms rs ws) → Change Unit
  freed_at s none = fault
  freed_at s (some c) = freed_in s (dropped cmp_channel channel_counter s.channels c)

  abbrev pub pointer : Option (Chan ms rs ws) → Option ℕ
  pointer none = none
  pointer (some c) = some c.id

  -- The pointer is NULL, or that of a channel with this id.
  unfoldable pub channel_free : Option ℕ → Channels → Change Unit
  channel_free none s = changed s [] [] tt
  channel_free (some cid) s = freed_at s (channel_find cid s)

  -- The channels after an opening with its result; `null_data` is an entry of the map whose data is
  -- NULL, which the comparisons of `channel_find` read, and `null_parts` a channel with a NULL lock
  -- or queue, which its calls use.
  pub data Opened : Type 0 where
    opened : Channels → Option (Chan ms rs ws) → Opened
    null_data null_parts : Opened

  -- `dup_channel` returns 0 also without memory for the copy. Without memory for its node nothing is
  -- inserted. The channel is then looked up.
  unfoldable pub open_channel : Memory → ℤ → Channels → Opened
  open_channel mem size s =
      let id = suc s.next_id in
      let c = channel_new ms rs ws id size in
      let raised : Channels = record s { next_id = id } in
      let s' : Channels = record raised { channels = put cmp_channel c s.channels } in
      if mem.node
      then (if mem.copy
          then (if mem.parts then opened s' (channel_find id s') else null_parts)
          else null_data)
      else opened raised (channel_find id raised)

  -- A result and earlier calls, for an operation that ends with `channel_free`.
  abbrev pub after_free : {R S : Type 0} → List (Call C D M) → List M → R → Change S → Change R
  after_free calls gone r (changed s calls' gone' x) = changed s (calls ++ calls') (gone ++ gone') r
  after_free calls gone r fault = fault

  abbrev pub counted : Channels × Option (Chan ms rs ws) → Change ℤ
  counted (s, none) = changed s [] [] err_inval
  counted (s, some c) = after_free [] [] (ms.size c.messages) (channel_free (some c.id) s)

  unfoldable pub channel_count : ℕ → Channels → Change ℤ
  channel_count cid s = counted (channel_ref cid s)

  -- The method `close`.
  abbrev pub closed_by : Channels × Option (Chan ms rs ws) → Change Bool
  closed_by (s, none) = changed s [] [] true
  closed_by (s, some c) =
      let (c', calls, gone) = channel_close ms rs ws c in
      after_free calls gone true
        (channel_free (some c.id) (record s { channels = put cmp_channel c' s.channels }))

  unfoldable pub luac_close : ℕ → Channels → Change Bool
  luac_close cid s = closed_by (channel_ref cid s)

  -- The method `status`.
  abbrev status_text : Status → String
  status_text channel_open = "open"
  status_text channel_closed = "closed"

  abbrev pub status_by : Channels × Option (Chan ms rs ws) → Change String
  status_by (s, none) = changed s [] [] "invalid"
  status_by (s, some c) = after_free [] [] (status_text c.status) (channel_free (some c.id) s)

  unfoldable pub luac_status : ℕ → Channels → Change String
  luac_status cid s = status_by (channel_ref cid s)

  -- The method `__gc`, on a channel that need not be there any more.
  unfoldable pub luac_destroy : ℕ → Channels → Change Unit
  luac_destroy cid s = channel_free (pointer (channel_find cid s)) s
