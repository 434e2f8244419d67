-- ===== src/Buffer/Laws.antt =====
-- src/buffer.c: growth, and writes at a position.
use Prim.Native.Nat.{max}
use casting.Base.{
  ℕ, zero, suc, ◌+◌, ◌-◌, ◌/◌, ◌^◌, ◌≤◌, ◌<◌, ◌≡◌, ◌⊎◌, inl, inr, refl, ap, ◌∙◌, subst, arith, Bool,
  true, false, ◌&&◌, Bool-cases, Option, none, some, List, [], ◌∷◌, ltb, leb, lt→ltb, le→ltb,
  ltb→lt, ltb→le, leb→le, length, if◌then◌else◌, ℤ, pos, success, err_nomem,
}
use casting.Buffer.{
  Buffer, nth, sum, grown_size, copy_cells, moved_to, grow, ensure, write_cells, store,
  buf_write_at, cells,
}

-- Half of the range of an index is enough for all that the sums of the code reach.
abbrev pub limit : ℕ
limit = 2 ^ 62

pub sum_small : (a b : ℕ) → a + b < 2 ^ 64 → sum a b ≡ a + b
sum_small a b h = omega arith

-- One round for each missing byte is enough.
grown_size-fuel :
    (fuel end n : ℕ)
    → end < limit
    → n < 2 ^ 63
    → end ≤ n + fuel
    → (m : ℕ) × (grown_size fuel end n ≡ some m) × (end ≤ m) × (n ≤ m)
unfolding grown_size
grown_size-fuel zero end n h k f =
    (n, rw (le→ltb n end (omega arith)) refl, omega arith, omega arith)
grown_size-fuel (suc fuel) end n h k f = elim (Bool-cases (ltb n end)) [
  | inl e ↦
      let less : n < end = ltb→lt n end e in
      let s : sum (sum n (n / 2)) 8 ≡ n + n / 2 + 8 = omega arith in
      let r = grown_size-fuel fuel end (n + n / 2 + 8) h (omega arith) (omega arith) in
      (
        r.0,
        ap (λ b. if b then grown_size fuel end (sum (sum n (n / 2)) 8) else some n) e
            ∙ ap (grown_size fuel end) s
            ∙ r.1,
        r.2,
        omega (arith, r.3),
      )
  | inr e ↦ (n, rw e refl, ltb→le n end e, omega arith)
]

-- From a size and for an end that are below 2^62, the loop of `grow` ends within as many rounds
-- as the end, with a size that is neither below the end nor below the old size.
pub grown_size_lem :
    (end n : ℕ)
    → end < limit
    → n < limit
    → (m : ℕ) × (grown_size end end n ≡ some m) × (end ≤ m) × (n ≤ m)
grown_size_lem end n h k = grown_size-fuel end end n h (omega arith) (omega arith)

-- A buffer whose bytes fit its array, whose size is an index.
pub record IsSized (b : Buffer) : Type 0 where
  pub held : b.last ≤ b.size
  pub small : b.size < limit

-- What `ensure` makes of a buffer: room for the bytes, the same bytes, or ERR_NOMEM and no change.
abbrev Ensured : Bool → Buffer → ℕ → Option (Buffer × ℤ) → Type 0
Ensured mem b end none = ⊥
Ensured mem b end (some (t, e)) =
    ((e ≡ success)
      × (end ≤ t.size)
      × (b.size ≤ t.size)
      × (t.last ≡ b.last)
      × (t.position ≡ b.position)
      × ((i : ℕ) → i < b.last → t.cell i ≡ b.cell i))
    ⊎ ((mem ≡ false) × (b.size < end) × (t ≡ b) × (e ≡ err_nomem))

ensure-Ensured :
    (mem : Bool) (junk : ℕ → ℕ) (b : Buffer) (p n : ℕ)
    → IsSized b
    → p + n < limit
    → Ensured mem b (p + n) (ensure mem junk b p n)
unfolding ensure grow copy_cells
ensure-Ensured mem junk b p n v h =
    rw (sum_small p n (omega arith)) (elim (Bool-cases (ltb b.size (p + n))) [
      | inl e ↦
          let less : b.size < p + n = ltb→lt b.size (p + n) e in
          rw e (elim (Bool-cases (leb (p + n) b.size)) [
            | inl k ↦ absurd (omega (arith, leb→le (p + n) b.size k))
            | inr k ↦
                let g = grown_size_lem (p + n) b.size h v.small in
                rw (k, g.1) (go mem g.0 less g.2 g.3)
          ])
      | inr e ↦ rw e (inl (refl, ltb→le b.size (p + n) e, omega arith, refl, refl, (λ i k. refl)))
    ])
  where
    go :
        (mem : Bool) (m : ℕ)
        → b.size < p + n
        → p + n ≤ m
        → b.size ≤ m
        → Ensured mem b (p + n) (moved_to mem junk b (some m))
    go false m l g k = inr (refl, l, refl, refl)
    go true m l g k = inl (refl, g, k, refl, refl, λ i j. rw (lt→ltb i b.last j) refl)

cells-nth :
    (bs : List ℕ) (p : ℕ) (c : ℕ → ℕ)
    → ((i : ℕ) → i < length bs → c (p + i) ≡ nth bs i)
    → cells p (length bs) c ≡ bs
cells-nth [] p c h = refl
cells-nth (x ∷ bs) p c h =
    ap (λ y. y ∷ cells (suc p) (length bs) c)
      (subst (λ q. c q ≡ x) (omega arith) (h 0 (omega arith)))
    ∙ ap (◌∷◌ x) (
        cells-nth bs (suc p) c
          (λ i l. subst (λ q. c q ≡ nth bs i) (omega arith) (h (suc i) (omega arith))))

write_cells_in :
    (p : ℕ) (bs : List ℕ) (old : ℕ → ℕ) (i : ℕ)
    → i < length bs
    → write_cells p bs old (p + i) ≡ nth bs i
unfolding write_cells
write_cells_in p bs old i h =
    let a : leb p (p + i) ≡ true = ground arith in
    let b : ltb (p + i) (p + length bs) ≡ true = lt→ltb (p + i) (p + length bs) (omega arith) in
    let c : p + i - p ≡ i = omega arith in rw (a, b, c) refl

write_cells_out :
    (p : ℕ) (bs : List ℕ) (old : ℕ → ℕ) (i : ℕ)
    → (i < p) ⊎ (p + length bs ≤ i)
    → write_cells p bs old i ≡ old i
unfolding write_cells
write_cells_out p bs old i (inl h) = let a : leb p i ≡ false = ground arith in rw a refl
write_cells_out p bs old i (inr h) =
    let b : ltb i (p + length bs) ≡ false = le→ltb i (p + length bs) h in rw b (go (leb p i))
  where
    go : (x : Bool) → (if x && false then nth bs (i - p) else old i) ≡ old i
    go true = refl
    go false = refl

-- What a write does: the bytes stand at their place, those before and behind stay, or there is no
-- memory and nothing changes.
abbrev pub Writes : Bool → Buffer → ℕ → List ℕ → Option (Buffer × ℤ) → Type 0
Writes mem b p bs none = ⊥
Writes mem b p bs (some (t, e)) =
    ((e ≡ success)
      × (cells p (length bs) t.cell ≡ bs)
      × ((i : ℕ) → i < b.last → (i < p) ⊎ (p + length bs ≤ i) → t.cell i ≡ b.cell i)
      × (t.last ≡ max b.last (p + length bs))
      × (t.last ≤ t.size)
      × (t.position ≡ b.position))
    ⊎ ((mem ≡ false) × (b.size < p + length bs) × (t ≡ b) × (e ≡ err_nomem))

-- On a buffer whose bytes fit its array and whose size is below 2^62, a write of bytes that end
-- before 2^62 puts them at their place, leaves the bytes before and behind them and the position
-- as they were, and makes `last` the greater of the old one and the end of the bytes, which fits
-- the array; the result is SUCCESS. Only where the array must grow and there is no memory, the
-- result is ERR_NOMEM and nothing changes.
pub buf_write_at_lem :
    (mem : Bool) (junk : ℕ → ℕ) (b : Buffer) (p : ℕ) (bs : List ℕ)
    → IsSized b
    → p + length bs < limit
    → Writes mem b p bs (buf_write_at mem junk b p bs)
unfolding buf_write_at
buf_write_at_lem mem junk b p bs v h =
    go (ensure mem junk b p (length bs)) (ensure-Ensured mem junk b p (length bs) v h)
  where
    reach : sum p (length bs) ≡ p + length bs
    reach = sum_small p (length bs) (omega arith)

    go :
        (o : Option (Buffer × ℤ))
        → Ensured mem b (p + length bs) o
        → Writes mem b p bs (store p bs o)
    go none h = h
    go (some (t, pos zero)) (inl (_, room, wider, last, at, same)) = inl (
      refl,
      cells-nth bs p (write_cells p bs t.cell) (write_cells_in p bs t.cell),
      (λ i l k. write_cells_out p bs t.cell i k ∙ same i l),
      rw (reach, last) refl,
      rw reach (omega (arith, last, v.held)),
      at,
    )
    go (some (t, pos (suc n))) (inl h) = cc (h.0)
    go (some (t, ℤ.negsuc n)) (inl h) = cc (h.0)
    go (some (t, pos zero)) (inr h) = cc (h.3)
    go (some (t, pos (suc n))) (inr h) = cc (h.3)
    go (some (t, ℤ.negsuc n)) (inr (m, l, e, _)) = inr (m, l, e, refl)
