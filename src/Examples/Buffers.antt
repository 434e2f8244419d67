-- ===== src/Examples/Buffers.antt =====
-- src/buffer.c: a buffer of a few bytes, and what the theorems say of it.
use casting.Base.{ℕ, ◌≡◌, ◌≤◌, arith, true, false, some, [], ◌∷◌, success}
use casting.Buffer.{Buffer, nth, grown_size, buf_write_at, buf_write, buf_read, buf_seek, cells}
use casting.Buffer.Laws.{IsSized, Writes, grown_size_lem, buf_write_at_lem}
use casting.Buffer.Streams.{buf_read-buf_write}

-- An array of four bytes, three of them used, and the position behind the second.
abbrev three : Buffer
three = record { size = 4; last = 3; position = 2; cell = nth (1 ∷ (2 ∷ (3 ∷ []))); inline = false }

abbrev junk : ℕ → ℕ
junk i = 170

three-IsSized : IsSized three
three-IsSized = record { held = omega arith; small = omega arith }

grown_size_lem_example : (m : ℕ) × (grown_size 100 100 4 ≡ some m) × (100 ≤ m) × (4 ≤ m)
grown_size_lem_example = grown_size_lem 100 4 (omega arith) (omega arith)

buf_write_at_lem_example :
    Writes true three 1
      (7 ∷ (8 ∷ (9 ∷ (10 ∷ []))))
      (buf_write_at true junk three 1 (7 ∷ (8 ∷ (9 ∷ (10 ∷ [])))))
buf_write_at_lem_example =
    buf_write_at_lem true junk three 1 (7 ∷ (8 ∷ (9 ∷ (10 ∷ [])))) three-IsSized (omega arith)

buf_read-buf_write_example :
    (t : Buffer) × (w : Buffer) × (buf_write true junk three (7 ∷ (8 ∷ (9 ∷ [])))
      ≡ some (t, success))
    × (buf_read (buf_seek t 2).0 3 ≡ (w, some 2))
    × (cells 2 3 w.cell ≡ 7 ∷ (8 ∷ (9 ∷ [])))
    × (w.position ≡ t.position)
    × (w.last ≡ t.last)
buf_read-buf_write_example =
    buf_read-buf_write junk three (7 ∷ (8 ∷ (9 ∷ []))) three-IsSized (omega arith) (omega arith)
