-- ===== src/Buffer/Streams.antt =====
-- src/buffer.c: writes and reads at the buffer's position.
use Prim.Native.Nat.{max}
use casting.Base.{
  ℕ, zero, suc, ◌+◌, ◌≤◌, ◌<◌, ◌≡◌, ◌⊎◌, inl, inr, refl, sym, ap, ◌∙◌, arith, Bool, true, Option,
  none, some, List, ltb, Bool-cases, le→ltb, ltb→lt, ltb→le, length, if◌then◌else◌, ℤ, pos, success,
  err_overflow,
}
use casting.Buffer.{
  Buffer, sum, pass, buf_write_at, buf_write, buf_read_from, read_at, buf_read, buf_seek, cells,
}
use casting.Buffer.Laws.{limit, IsSized, Writes, buf_write_at_lem, sum_small}

-- With memory, a write puts the bytes at the position, and moves it behind them.
pub buf_write_lem :
    (junk : ℕ → ℕ) (b : Buffer) (bs : List ℕ)
    → IsSized b
    → b.position + length bs < limit
    → (t : Buffer) × (buf_write true junk b bs ≡ some (t, success))
      × (cells b.position (length bs) t.cell ≡ bs)
      × (t.position ≡ b.position + length bs)
      × (t.last ≡ max b.last (b.position + length bs))
      × (t.last ≤ t.size)
unfolding buf_write
buf_write_lem junk b bs v h =
    go (buf_write_at true junk b b.position bs) (buf_write_at_lem true junk b b.position bs v h)
  where
    go :
        (o : Option (Buffer × ℤ))
        → Writes true b b.position bs o
        → (t : Buffer) × (pass (length bs) o ≡ some (t, success))
          × (cells b.position (length bs) t.cell ≡ bs)
          × (t.position ≡ b.position + length bs)
          × (t.last ≡ max b.last (b.position + length bs))
          × (t.last ≤ t.size)
    go none w = absurd w
    go (some (t, pos zero)) (inl (_, written, _, last, held, at)) = (
      record t { position = sum t.position (length bs) },
      refl,
      written,
      ap (λ p. sum p (length bs)) at ∙ sum_small b.position (length bs) (omega arith),
      last,
      held,
    )
    go (some (t, pos (suc n))) (inl w) = cc (w.0)
    go (some (t, ℤ.negsuc n)) (inl w) = cc (w.0)
    go (some (t, e)) (inr w) = cc (w.0)

buf_seek_lem :
    (b : Buffer) (p : ℕ) → p ≤ b.last → buf_seek b p ≡ (record b { position = p }, success)
unfolding buf_seek
buf_seek_lem b p h =
    ap (λ x. if x then (b, err_overflow) else (record b { position = p }, success))
      (le→ltb b.last p h)

-- A read of bytes that end before 2^62 returns the position and moves it behind them, if the
-- buffer has that many bytes there; else it returns NULL and changes nothing.
pub buf_read_lem :
    (b : Buffer) (n : ℕ)
    → b.position + n < limit
    → ((b.position + n ≤ b.last)
        × (buf_read b n ≡ (record b { position = b.position + n }, some b.position)))
      ⊎ ((b.last < b.position + n) × (buf_read b n ≡ (b, none)))
unfolding buf_read buf_read_from
buf_read_lem b n h = elim (Bool-cases (ltb b.last (b.position + n))) [
  | inl e ↦ inr (ltb→lt b.last (b.position + n) e, tested ∙ ap outcome e)
  | inr e ↦ inl (
    ltb→le b.last (b.position + n) e,
    tested ∙ ap outcome e ∙ ap (λ s. (record b { position = s }, some b.position)) reach,
  )
]
  where
    reach : sum b.position n ≡ b.position + n
    reach = sum_small b.position n (omega arith)

    outcome : Bool → Buffer × Option ℕ
    outcome x = read_at b n (if x then none else some b.position)

    tested : buf_read b n ≡ outcome (ltb b.last (b.position + n))
    tested = ap (λ s. outcome (ltb b.last s)) reach

-- On a buffer whose bytes fit its array, whose size is below 2^62 and whose position is not
-- behind its bytes, a write with memory of bytes that end before 2^62 succeeds. After a seek
-- back to the old position, a read of as many bytes finds those, and ends at the position where
-- the write ended.
pub buf_read-buf_write :
    (junk : ℕ → ℕ) (b : Buffer) (bs : List ℕ)
    → IsSized b
    → b.position + length bs < limit
    → b.position ≤ b.last
    → (t : Buffer) × (w : Buffer) × (buf_write true junk b bs ≡ some (t, success))
      × (buf_read (buf_seek t b.position).0 (length bs) ≡ (w, some b.position))
      × (cells b.position (length bs) w.cell ≡ bs)
      × (w.position ≡ t.position)
      × (w.last ≡ t.last)
buf_read-buf_write junk b bs v h k =
    let x = buf_write_lem junk b bs v h in
    let back : Buffer = record x.0 { position = b.position } in
    let reaches : b.position + length bs ≤ x.0.last = omega (arith, x.4) in
    let sought = buf_seek_lem x.0 b.position (omega arith) in
    (
      x.0,
      record back { position = b.position + length bs },
      x.1,
      ap (λ (s : Buffer × ℤ). buf_read s.0 (length bs)) sought ∙ read back reaches refl,
      x.2,
      sym x.3,
      refl,
    )
  where
    read :
        (c : Buffer)
        → b.position + length bs ≤ c.last
        → c.position ≡ b.position
        → buf_read c (length bs) ≡ (record c { position = b.position + length bs }, some b.position)
    read c r e = elim (buf_read_lem c (length bs) (omega arith)) [
      | inl (_, q) ↦ q ∙ ap (λ p. (record c { position = p + length bs }, some p)) e
      | inr (l, _) ↦ absurd (omega arith)
    ]
