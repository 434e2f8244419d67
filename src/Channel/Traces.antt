-- ===== src/Channel/Traces.antt =====
-- src/lc_channel.c: any sequence of writes and reads on a channel that stays open.
use casting.Base.{
  ℕ, ◌≡◌, ◌⊎◌, refl, ◌∙◌, inl, inr, arith, false, some, List, [], ◌∷◌, ◌++◌, append-nil, map-append,
  append_assoc, length, ℤ, pos, ltb_ℤ,
}
use casting.Fifo.{Fifo}
use casting.Channel.Defs.{
  channel_open, Reader, Writer, Call, done, Chan, Result, channel_new, channel_write, channel_read,
}
use casting.Channel.Laws.{
  received, buffered, reading, writing, pending, Kept, room, channel_write-room, write_room_waits,
  write_room_serves,
}
use casting.Channel.Reading.{channel_read_waits, channel_read_direct}
use casting.Channel.Runs.{Op, writes, reads, written, step, run}
use casting.Channel.Passing.{Passes, Stepping, run_passes}

module _ {C D M : Type 0} (ms : Fifo M) (rs : Fifo (Reader C D)) (ws : Fifo (Writer C D M)) where
  -- An open channel without a buffer, on which readers and writers do not both wait.
  record IsRendezvous (c : Chan ms rs ws) : Type 0 where
    opened : c.status ≡ channel_open
    unbuffered : c.buf_size ≡ pos 0
    empty : buffered ms rs ws c ≡ []
    one_sided : (reading ms rs ws c ≡ []) ⊎ (writing ms rs ws c ≡ [])

  abbrev Handing : List M → List M → Result ms rs ws → Type 0
  Handing = Passes ms rs ws (λ left. IsRendezvous) 0

  no_room : (c : Chan ms rs ws) → c.buf_size ≡ pos 0 → room ms rs ws c ≡ false
  no_room c u = rw (ms.size-length c.messages, u) (go (length (buffered ms rs ws c)))
    where
      go : (n : ℕ) → ltb_ℤ (pos n) (pos 0) ≡ false
      go n = ground arith

  IsRendezvous-Kept :
      (c t : Chan ms rs ws)
      → IsRendezvous c
      → Kept ms rs ws c t
      → buffered ms rs ws t ≡ []
      → (reading ms rs ws t ≡ []) ⊎ (writing ms rs ws t ≡ [])
      → IsRendezvous t
  IsRendezvous-Kept c t v k e s = record {
    opened = k.3 ∙ v.opened;
    unbuffered = k.2 ∙ v.unbuffered;
    empty = e;
    one_sided = s;
  }

  write-Passes :
      (c : Chan ms rs ws) (m : M) (cb : C) (d : D)
      → IsRendezvous c
      → Handing (pending ms rs ws c) (m ∷ []) (channel_write ms rs ws c (some m) (some cb) d)
  write-Passes c m cb d v = go (reading ms rs ws c) refl v.one_sided
    where
      full : room ms rs ws c ≡ false
      full = no_room c v.unbuffered

      waits :
          reading ms rs ws c ≡ []
          → Handing (pending ms rs ws c) (m ∷ []) (channel_write ms rs ws c (some m) (some cb) d)
      waits e =
          let w = write_room_waits ms rs ws false c m cb d e in
          rw (channel_write-room ms rs ws false c m cb d v.opened full, w.1)
            (
              IsRendezvous-Kept c w.0 v w.5 (w.3 ∙ v.empty) (inl w.2),
              rw (w.3, w.4, map-append, append_assoc) refl,
            )

      serves :
          (r : Reader C D) (more : List (Reader C D))
          → reading ms rs ws c ≡ r ∷ more
          → writing ms rs ws c ≡ []
          → Handing (pending ms rs ws c) (m ∷ []) (channel_write ms rs ws c (some m) (some cb) d)
      serves r more e s =
          let w = write_room_serves ms rs ws false c m cb d r more e v.empty s in
          rw (channel_write-room ms rs ws false c m cb d v.opened full, w.1)
            (IsRendezvous-Kept c w.0 v w.5 w.3 (inr w.4), rw (w.3, w.4, v.empty, s) refl)

      go :
          (readers : List (Reader C D))
          → reading ms rs ws c ≡ readers
          → (reading ms rs ws c ≡ []) ⊎ (writing ms rs ws c ≡ [])
          → Handing (pending ms rs ws c) (m ∷ []) (channel_write ms rs ws c (some m) (some cb) d)
      go [] e s = waits e
      go (r ∷ more) e (inl s) = cc
      go (r ∷ more) e (inr s) = serves r more e s

  read-Passes :
      (c : Chan ms rs ws) (cb : C) (d : D)
      → IsRendezvous c
      → Handing (pending ms rs ws c) [] (channel_read ms rs ws c (some cb) d)
  read-Passes c cb d v = go (writing ms rs ws c) refl v.one_sided
    where
      go :
          (writers : List (Writer C D M))
          → writing ms rs ws c ≡ writers
          → (reading ms rs ws c ≡ []) ⊎ (writing ms rs ws c ≡ [])
          → Handing (pending ms rs ws c) [] (channel_read ms rs ws c (some cb) d)
      go [] e s =
          let w = channel_read_waits ms rs ws c cb d v.opened v.empty e in
          rw w.1 (IsRendezvous-Kept c w.0 v w.5 w.3 (inr w.4), rw (w.3, w.4, v.empty, e) refl)
      go (x ∷ more) e (inl s) =
          let w = channel_read_direct ms rs ws c cb d x more v.opened v.empty e in
          rw w.1 (
            IsRendezvous-Kept c w.0 v w.5 w.3 (inl (w.2 ∙ s)),
            rw (w.3, w.4, v.empty, e, append-nil) refl,
          )
      go (x ∷ more) e (inr s) = cc

  step-Passes : Stepping ms rs ws (λ left. IsRendezvous)
  unfolding step
  step-Passes left c (writes m cb d) v = write-Passes c m cb d v
  step-Passes left c (reads cb d) v = read-Passes c cb d v

  channel_new-IsRendezvous : (id : ℕ) → IsRendezvous (channel_new ms rs ws id (pos 0))
  unfolding channel_new
  channel_new-IsRendezvous id = record {
    opened = refl;
    unbuffered = refl;
    empty = ms.contents-new;
    one_sided = inl rs.contents-new;
  }

  -- Any sequence of writes and reads on a new channel without a buffer, over any queues that are
  -- first in first out, runs without a fault. What its readers receive, in order, with what
  -- still waits, in order, is what was written, in order. No message stays in the buffer, and
  -- readers and writers do not both wait.
  pub run_delivers :
      (id : ℕ) (ops : List (Op C D M))
      → (t : Chan ms rs ws) × (calls : List (Call C D M)) × (code : ℤ) × (run ms rs ws ops
            (channel_new ms rs ws id (pos 0))
          ≡ done t calls code)
        × (received calls ++ pending ms rs ws t ≡ written ops)
        × (buffered ms rs ws t ≡ [])
        × ((reading ms rs ws t ≡ []) ⊎ (writing ms rs ws t ≡ []))
  run_delivers id ops =
      let r =
        run_passes ms rs ws (λ left. IsRendezvous) step-Passes id (pos 0) ops
          (channel_new-IsRendezvous id) in
      (r.0, r.1, r.2, r.3, r.4, r.5.empty, r.5.one_sided)
