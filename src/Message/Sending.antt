-- ===== src/Message/Sending.antt =====
-- src/message.c: a message from the builder to the reader, through `msg_new` and `msg_next`.
use casting.Base.{
  ℕ, zero, suc, ◌+◌, ◌-◌, ◌≤◌, ◌<◌, ◌^◌, ◌≡◌, inl, inr, Bool-cases, refl, sym, ap, ◌∙◌, arith, true,
  false, Option, none, some, List, [], ◌∷◌, ◌++◌, length, length-append, drop, drop-append, All,
  append_assoc, ℤ, pos, negsuc, leb, lt→ltb, le→ltb,
}
use casting.Message.Values.{Value, encode, decoded, decode}
use casting.Message.Builder.{
  Builder, Message, Cursor, header_size, encode_all, joined, written_to, msg_new, msg_cursor_init,
  msg_next,
}
use casting.Message.Roundtrip.{IsFitting, Shows, decode-encode}
use casting.Message.Counting.{IsCounted, size_of, encode_all-some}

leb-true : (a b : ℕ) → a ≤ b → leb a b ≡ true
leb-true a b h = ground arith

leb-false : (a b : ℕ) → b < a → leb a b ≡ false
leb-false a b h = ground arith

-- Without references `msg_new` writes just the encodings of the values.
pub msg_new_lem :
    (b : Builder)
    → IsCounted b
    → b.refs ≡ 0
    → header_size + size_of (encode_all b.values) < 2 ^ 31
    → (m : Message) × (msg_new b ≡ some m)
      × (encode_all b.values ≡ some m.contents)
      × (m.size ≡ header_size + length m.contents)
      × (m.count ≡ b.count)
      × (m.refs ≡ b.refs)
unfolding msg_new written_to
msg_new_lem b c z short =
    let e = encode_all-some b.values c.fitting in
    let exact : b.bytes ≡ length e.0 = omega (arith, c.summed, ap size_of e.1) in
    let fits : header_size + b.bytes < 2 ^ 31 = omega (arith, ap size_of e.1) in
    (
      record {
        ref_count = pos 1;
        size = header_size + b.bytes;
        count = b.count;
        refs = b.refs;
        contents = e.0;
      },
      rw
          (
            e.1,
            leb-false (2 ^ 31) (header_size + b.bytes) fits,
            le→ltb b.bytes (length e.0) (omega arith),
          )
          refl,
      e.1,
      omega arith,
      refl,
      refl,
    )

small_of : (a : ℕ) → leb (2 ^ 31) a ≡ false → a < 2 ^ 31
small_of a h = ground arith

-- With references the sum is short.
pub msg_new_overruns :
    (b : Builder)
    → IsCounted b
    → size_of (encode_all b.values) < 2 ^ 31
    → (k : ℕ) → b.refs ≡ suc k
    → k < 2 ^ 28
    → (n : ℕ) → msg_new (record b { refs = n }) ≡ none
unfolding msg_new written_to
msg_new_overruns b c short k z few n =
    let e = encode_all-some b.values c.fitting in
    let shorter : leb (2 ^ 31) (header_size + b.bytes) ≡ false → b.bytes < length e.0 = λ h.
      let small = small_of (header_size + b.bytes) h in
      omega (arith, small, c.summed, ap size_of e.1) in
    elim (Bool-cases (leb (2 ^ 31) (header_size + b.bytes))) [
      | inl h ↦ rw (e.1, h) refl
      | inr h ↦ rw (e.1, h, lt→ltb b.bytes (length e.0) (shorter h)) refl
    ]

abbrev prepend : Value → Option (List Value) → Option (List Value)
prepend v none = none
prepend v (some vs) = some (v ∷ vs)

abbrev collect :
    Option (Cursor × Value × ℤ) → (Cursor → Value → Option (List Value)) → Option (List Value)
collect none next = none
collect (some (c, v, negsuc n)) next = some []
collect (some (c, v, pos n)) next = prepend v (next c v)

-- The values that calls of `msg_next` read, up to the one that returns -1.
unfoldable pub read_values : ℕ → Cursor → Value → Option (List Value)
read_values zero c v = none
read_values (suc fuel) c v = collect (msg_next c v) (read_values fuel)

abbrev pub Similar : List Value → List Value → Type 0
Similar [] [] = Unit
Similar (w ∷ ws) (v ∷ vs) = Shows w v × Similar ws vs
Similar ws vs = ⊥

pub msg_next_end :
    (c : Cursor) (old : Value)
    → c.msg.size ≤ header_size + c.position
    → msg_next c old ≡ some (c, old, negsuc 0)
unfolding msg_next
msg_next_end c old h = rw (leb-true c.msg.size (header_size + c.position) h) refl

pub msg_next_step :
    (c : Cursor) (old w : Value) (before bs rest : List ℕ)
    → c.msg.contents ≡ before ++ (bs ++ rest)
    → c.position ≡ length before
    → c.msg.size ≡ header_size + length c.msg.contents
    → 4 ≤ length bs
    → decode old (bs ++ rest) ≡ decoded w rest
    → msg_next c old
      ≡ some (record c { position = length (before ++ bs); seen = suc c.seen }, w, pos c.seen)
unfolding msg_next
msg_next_step c old w before bs rest s p z l d =
    rw (leb-false c.msg.size (header_size + c.position) inside) (rw (left, d) (rw moved refl))
  where
    total : length c.msg.contents ≡ length before + (length bs + length rest)
    total = ap length s ∙ omega (arith, length-append before (bs ++ rest), length-append bs rest)

    inside : header_size + c.position < c.msg.size
    inside = omega (arith, total)

    left : drop c.position c.msg.contents ≡ bs ++ rest
    left = rw (p, s) (drop-append before (bs ++ rest))

    moved : length c.msg.contents - length rest ≡ length (before ++ bs)
    moved = omega (arith, total, length-append before bs)

-- From a cursor behind `before`, the values whose encodings follow are read.
read_values-encode_all :
    (vs : List Value) (before bs : List ℕ) (c : Cursor) (old : Value)
    → All IsFitting vs
    → encode_all vs ≡ some bs
    → c.msg.contents ≡ before ++ bs
    → c.position ≡ length before
    → c.msg.size ≡ header_size + length c.msg.contents
    → (ws : List Value) × (read_values (suc (length vs)) c old ≡ some ws) × Similar ws vs
unfolding read_values encode_all
read_values-encode_all [] before bs c old f e s p z =
    ([], ap (λ o. collect o (read_values 0)) (msg_next_end c old at_end), tt)
  where
    none_left : length bs ≡ 0
    none_left = ap size_of (sym e)

    at_end : c.msg.size ≤ header_size + c.position
    at_end = omega (arith, none_left, ap length s, length-append before bs)
read_values-encode_all (v ∷ vs) before bs c old f e s p z =
    let x = decode-encode v f.0 in
    let y = encode_all-some vs f.1 in
    let parts : bs ≡ x.0 ++ y.0 =
      cc (sym e, ap (joined (encode v)) y.1, ap (λ o. joined o (some y.0)) x.1) in
    let w = x.2 old y.0 in
    let next = msg_next_step c old w.0 before x.0 y.0 (s ∙ ap (◌++◌ before) parts) p z x.3 w.1 in
    let d : Cursor = record c { position = length (before ++ x.0); seen = suc c.seen } in
    let r =
      read_values-encode_all vs (before ++ x.0) y.0 d w.0 f.1 y.1
        (s ∙ ap (◌++◌ before) parts ∙ sym (append_assoc before x.0 y.0)) refl z in
    (
      w.0 ∷ r.0,
      ap (λ o. collect o (read_values (suc (length vs)))) next ∙ ap (prepend w.0) r.1,
      (w.2, r.2),
    )

-- For a builder that is counted and has no references, `msg_new` writes within the message,
-- which has the builder's count. Calls of `msg_next` from the message's start read, until the
-- first -1, the builder's values in order, each with its type, its flags and its contents.
pub read_values-msg_new :
    (b : Builder) (old : Value)
    → IsCounted b
    → b.refs ≡ 0
    → header_size + size_of (encode_all b.values) < 2 ^ 31
    → (m : Message) × (ws : List Value) × (msg_new b ≡ some m)
      × (read_values (suc (length b.values)) (msg_cursor_init m) old ≡ some ws)
      × Similar ws b.values
      × (m.count ≡ b.count)
unfolding msg_cursor_init
read_values-msg_new b old c z short =
    let n = msg_new_lem b c z short in
    let r =
      read_values-encode_all b.values [] n.0.contents (msg_cursor_init n.0) old c.fitting n.2 refl
        refl n.3 in
    (n.0, r.0, n.1, r.1, r.2, n.4)
