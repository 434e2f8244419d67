-- ===== src/Channel/Passing.antt =====
-- src/lc_channel.c: what a run hands on, from what one operation hands on.
use casting.Base.{
  ℕ, ◌≡◌, refl, sym, ap, subst, ◌∙◌, Option, none, some, List, [], ◌∷◌, ◌++◌, append-nil,
  append_assoc, length, length-append, ◌+◌, ℤ,
}
use casting.Fifo.{Fifo}
use casting.Channel.Defs.{
  Event, read, write, closed, Reader, Writer, Call, done, fault, Chan, Result, channel_new,
}
use casting.Channel.Laws.{take_in, received, pending}
use casting.Channel.Runs.{Op, writes, reads, written, step, after_calls, then_run, run}

take_in-append :
    {M : Type 0} (e : Event) (m : Option M) (xs ys : List M)
    → take_in e m (xs ++ ys) ≡ take_in e m xs ++ ys
take_in-append read (some m) xs ys = refl
take_in-append read none xs ys = refl
take_in-append write m xs ys = refl
take_in-append closed m xs ys = refl

module _ {C D M : Type 0} where
  received-append : (xs ys : List (Call C D M)) → received (xs ++ ys) ≡ received xs ++ received ys
  received-append [] ys = refl
  received-append (x ∷ xs) ys =
      ap (take_in x.event x.message) (received-append xs ys)
      ∙ take_in-append x.event x.message (received xs) (received ys)

module _ {C D M : Type 0} where
  written-cons :
      (op : Op C D M) (ops : List (Op C D M))
      → written (op ∷ ops) ≡ written (op ∷ []) ++ written ops
  written-cons (writes m cb d) ops = refl
  written-cons (reads cb d) ops = refl

  length-written :
      (op : Op C D M) (ops : List (Op C D M))
      → length (written (op ∷ ops)) ≡ length (written (op ∷ [])) + length (written ops)
  length-written op ops =
      ap length (written-cons op ops) ∙ length-append (written (op ∷ [])) (written ops)

module _ {C D M : Type 0} (ms : Fifo M) (rs : Fifo (Reader C D)) (ws : Fifo (Writer C D M))
    (Stays : ℕ → Chan ms rs ws → Type 0) where
  -- What a run hands to readers is what was pending or is written, oldest first. `left` is the
  -- number of writes that are still to come.
  abbrev pub Passes : ℕ → List M → List M → Result ms rs ws → Type 0
  Passes left before new fault = ⊥
  Passes left before new (done t calls code) =
      Stays left t × (received calls ++ pending ms rs ws t ≡ before ++ new)

  -- What one operation does of which it is shown.
  abbrev pub Stepping : Type 0
  Stepping =
      (left : ℕ) (c : Chan ms rs ws) (op : Op C D M)
      → Stays (length (written (op ∷ [])) + left) c
      → Passes left (pending ms rs ws c) (written (op ∷ [])) (step ms rs ws c op)

  after_calls-Passes :
      (before new later : List M) (calls : List (Call C D M)) (c : Chan ms rs ws)
      (r : Result ms rs ws)
      → received calls ++ pending ms rs ws c ≡ before ++ new
      → Passes 0 (pending ms rs ws c) later r
      → Passes 0 before (new ++ later) (after_calls ms rs ws calls r)
  unfolding after_calls
  after_calls-Passes before new later calls c fault e p = p
  after_calls-Passes before new later calls c (done t more code) e p = (
    p.0,
    rw (received-append calls more) (
        append_assoc (received calls) (received more) (pending ms rs ws t)
        ∙ ap (◌++◌ (received calls)) p.1
        ∙ sym (append_assoc (received calls) (pending ms rs ws c) later)
        ∙ ap (λ xs. xs ++ later) e
        ∙ append_assoc before new later),
  )

  pub run-Passes :
      Stepping
      → (ops : List (Op C D M)) (c : Chan ms rs ws) → Stays (length (written ops)) c
      → Passes 0 (pending ms rs ws c) (written ops) (run ms rs ws ops c)
  unfolding run
  run-Passes steps [] c v = (v, sym (append-nil _))
  run-Passes steps (op ∷ ops) c v = rw (written-cons op ops) (
      go (step ms rs ws c op)
        (steps (length (written ops)) c op (subst (λ n. Stays n c) (length-written op ops) v))
        (run-Passes steps ops))
    where
      go :
          (r : Result ms rs ws)
          → Passes (length (written ops)) (pending ms rs ws c) (written (op ∷ [])) r
          → ((t : Chan ms rs ws)
              → Stays (length (written ops)) t
              → Passes 0 (pending ms rs ws t) (written ops) (run ms rs ws ops t))
          → Passes 0
              (pending ms rs ws c)
              (written (op ∷ []) ++ written ops)
              (then_run ms rs ws (run ms rs ws ops) r)
      go fault p ih = p
      go (done t calls code) p ih =
          after_calls-Passes _ _ _ calls t (run ms rs ws ops t) p.1 (ih t p.0)

  channel_new-pending : (id : ℕ) (size : ℤ) → pending ms rs ws (channel_new ms rs ws id size) ≡ []
  unfolding channel_new
  channel_new-pending id size = rw (ms.contents-new, ws.contents-new) refl

  -- The same from a new channel, with the run's end written out.
  pub run_passes :
      Stepping
      → (id : ℕ) (size : ℤ) (ops : List (Op C D M))
      → Stays (length (written ops)) (channel_new ms rs ws id size)
      → (t : Chan ms rs ws) × (calls : List (Call C D M)) × (code : ℤ) × (run ms rs ws ops
            (channel_new ms rs ws id size)
          ≡ done t calls code)
        × (received calls ++ pending ms rs ws t ≡ written ops)
        × Stays 0 t
  run_passes steps id size ops v = go (run ms rs ws ops c) refl (
      subst (λ xs. Passes 0 xs (written ops) (run ms rs ws ops c)) (channel_new-pending id size)
        (run-Passes steps ops c v))
    where
      c : Chan ms rs ws
      c = channel_new ms rs ws id size

      go :
          (r : Result ms rs ws)
          → run ms rs ws ops (channel_new ms rs ws id size) ≡ r
          → Passes 0 [] (written ops) r
          → (t : Chan ms rs ws) × (calls : List (Call C D M)) × (code : ℤ) × (run ms rs ws ops
                (channel_new ms rs ws id size)
              ≡ done t calls code)
            × (received calls ++ pending ms rs ws t ≡ written ops)
            × Stays 0 t
      go (done t calls code) e p = (t, calls, code, e, p.1, p.0)
      go fault e p = elim p [ ]
