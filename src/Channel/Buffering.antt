-- ===== src/Channel/Buffering.antt =====
-- src/lc_channel.c: a sequence of writes and reads on a channel whose buffer has room for the writes.
use casting.Base.{
  ℕ, suc, ◌+◌, ◌≤◌, ◌≡◌, ◌⊎◌, refl, sym, ap, ◌∙◌, subst, inl, inr, arith, true, some, List, [], ◌∷◌,
  ◌++◌, append-nil, map, length, length-append, ℤ, pos, ltb, lt→ltb, if◌then◌else◌,
}
use casting.Fifo.{Fifo}
use casting.Channel.Defs.{
  channel_open, Reader, Writer, Call, done, Chan, channel_new, channel_write, channel_read,
  write_room, int_max,
}
use casting.Channel.Laws.{
  received, buffered, reading, writing, pending, Kept, room, channel_write-room, write_room_waits,
  write_room_serves,
}
use casting.Channel.Reading.{channel_read_waits, channel_read-buffered}
use casting.Channel.Runs.{Op, writes, reads, written, step, run}
use casting.Channel.Passing.{Passes, Stepping, run_passes}

module _ {C D M : Type 0} (ms : Fifo M) (rs : Fifo (Reader C D)) (ws : Fifo (Writer C D M)) where
  -- An open channel with a buffer for `n` messages and room for the writes that are left, where no
  -- writer waits, and no reader while there is a message.
  record IsRoomy (n left : ℕ) (c : Chan ms rs ws) : Type 0 where
    opened : c.status ≡ channel_open
    sized : c.buf_size ≡ pos n
    fits : length (buffered ms rs ws c) + left ≤ n
    unblocked : writing ms rs ws c ≡ []
    served : (reading ms rs ws c ≡ []) ⊎ (buffered ms rs ws c ≡ [])

  has_room : (n left : ℕ) (c : Chan ms rs ws) → IsRoomy n (suc left) c → room ms rs ws c ≡ true
  has_room n left c v =
      rw (ms.size-length c.messages, v.sized)
        (lt→ltb (length (buffered ms rs ws c)) n (omega (arith, v.fits)))

  IsRoomy-Kept :
      (n left later : ℕ) (c t : Chan ms rs ws)
      → IsRoomy n left c
      → Kept ms rs ws c t
      → length (buffered ms rs ws t) + later ≤ n
      → writing ms rs ws t ≡ []
      → (reading ms rs ws t ≡ []) ⊎ (buffered ms rs ws t ≡ [])
      → IsRoomy n later t
  IsRoomy-Kept n left later c t v k f w s = record {
    opened = k.3 ∙ v.opened;
    sized = k.2 ∙ v.sized;
    fits = f;
    unblocked = w;
    served = s;
  }

  write-Passes :
      (n left : ℕ) (c : Chan ms rs ws) (m : M) (cb : C) (d : D)
      → IsRoomy n (suc left) c
      → Passes ms rs ws
          (IsRoomy n)
          left
          (pending ms rs ws c)
          (m ∷ [])
          (channel_write ms rs ws c (some m) (some cb) d)
  write-Passes n left c m cb d v =
      rw (channel_write-room ms rs ws true c m cb d v.opened (has_room n left c v))
        (go (reading ms rs ws c) refl v.served)
    where
      go :
          (readers : List (Reader C D))
          → reading ms rs ws c ≡ readers
          → (reading ms rs ws c ≡ []) ⊎ (buffered ms rs ws c ≡ [])
          → Passes ms rs ws
              (IsRoomy n)
              left
              (pending ms rs ws c)
              (m ∷ [])
              (write_room ms rs ws true c m cb d)
      go [] e s =
          let w = write_room_waits ms rs ws true c m cb d e in
          rw w.1 (
            IsRoomy-Kept n (suc left) left c w.0 v w.5
                (omega (arith, v.fits, ap length w.3, length-append (buffered ms rs ws c) (m ∷ [])))
                (w.4 ∙ v.unblocked) (inl w.2),
            rw (w.3, w.4, v.unblocked, append-nil, append-nil) refl,
          )
      go (r ∷ more) e (inl s) = cc
      go (r ∷ more) e (inr s) =
          let w = write_room_serves ms rs ws true c m cb d r more e s v.unblocked in
          rw w.1 (
            IsRoomy-Kept n (suc left) left c w.0 v w.5 (omega (arith, v.fits, ap length w.3)) w.4
                (inr w.3),
            rw (w.3, w.4, s, v.unblocked) refl,
          )

  read-Passes :
      (n left : ℕ) (c : Chan ms rs ws) (cb : C) (d : D)
      → IsRoomy n left c
      → Passes ms rs ws
          (IsRoomy n)
          left
          (pending ms rs ws c)
          []
          (channel_read ms rs ws c (some cb) d)
  read-Passes n left c cb d v = go (buffered ms rs ws c) refl v.served
    where
      go :
          (messages : List M)
          → buffered ms rs ws c ≡ messages
          → (reading ms rs ws c ≡ []) ⊎ (buffered ms rs ws c ≡ [])
          → Passes ms rs ws
              (IsRoomy n)
              left
              (pending ms rs ws c)
              []
              (channel_read ms rs ws c (some cb) d)
      go [] e s =
          let w = channel_read_waits ms rs ws c cb d v.opened e v.unblocked in
          rw w.1 (
            IsRoomy-Kept n left left c w.0 v w.5 (omega (arith, v.fits, ap length w.3)) w.4
                (inr w.3),
            rw (w.3, w.4, e, v.unblocked) refl,
          )
      go (m ∷ more) e (inr s) = cc
      go (m ∷ more) e (inl s) =
          let w = channel_read-buffered ms rs ws c cb d m more v.opened e v.unblocked in
          rw w.1 (
            IsRoomy-Kept n left left c w.0 v w.5 (omega (arith, v.fits, ap length w.3, ap length e))
                w.4 (inl (w.2 ∙ s)),
            rw (w.3, w.4, e, v.unblocked, append-nil, append-nil) refl,
          )

  step-Passes : (n : ℕ) → Stepping ms rs ws (IsRoomy n)
  unfolding step
  step-Passes n left c (writes m cb d) v =
      write-Passes n left c m cb d (subst (λ k. IsRoomy n k c) (omega arith) v)
  step-Passes n left c (reads cb d) v =
      read-Passes n left c cb d (subst (λ k. IsRoomy n k c) (omega arith) v)

  channel_new-IsRoomy :
      (id n left : ℕ) → left ≤ n → IsRoomy n left (channel_new ms rs ws id (pos n))
  unfolding channel_new
  channel_new-IsRoomy id n left h = record {
    opened = refl;
    sized = bounded;
    fits = omega (arith, ap length ms.contents-new);
    unblocked = ws.contents-new;
    served = inl rs.contents-new;
  }
    where
      bounded : (if ltb n 0 then pos int_max else pos n) ≡ pos n
      bounded = ground arith

  -- Any sequence of writes and reads, with no more writes than the size of the buffer, on a new
  -- channel of that size, over any queues that are first in first out, runs without a fault.
  -- What its readers receive, in order, with what is still in the buffer, in order, is what was
  -- written, in order. No writer waits, and no reader waits while there is a message.
  pub run_delivers_buffered :
      (id n : ℕ) (ops : List (Op C D M))
      → length (written ops) ≤ n
      → (t : Chan ms rs ws) × (calls : List (Call C D M)) × (code : ℤ) × (run ms rs ws ops
            (channel_new ms rs ws id (pos n))
          ≡ done t calls code)
        × (received calls ++ buffered ms rs ws t ≡ written ops)
        × (writing ms rs ws t ≡ [])
        × ((reading ms rs ws t ≡ []) ⊎ (buffered ms rs ws t ≡ []))
  run_delivers_buffered id n ops h =
      let r =
        run_passes ms rs ws (IsRoomy n) (step-Passes n) id (pos n) ops
          (channel_new-IsRoomy id n (length (written ops)) h) in
      (
        r.0,
        r.1,
        r.2,
        r.3,
        rw (sym (append-nil (buffered ms rs ws r.0))) (
            subst
              (λ xs.
                received r.1 ++ (buffered ms rs ws r.0 ++ map (λ w. w.message) xs) ≡ written ops)
              r.5.unblocked r.4),
        r.5.unblocked,
        r.5.served,
      )
