-- ===== src/Message/Counting.antt =====
-- src/message.c: the byte count of the builder against what `msg_new` writes.
use casting.Base.{
  ℕ, ◌+◌, ◌*◌, ◌%◌, ◌^◌, ◌≤◌, ◌<◌, ◌≡◌, refl, sym, ap, ◌∙◌, subst, arith, Bool, true, false, Option,
  none, some, List, [], ◌∷◌, ◌++◌, length, length-append, All, All-append, append-nil, append_assoc,
  succ, ◌==◌, if◌then◌else◌, ◌≢◌,
}
use casting.Message.Values.{Value, encode}
use casting.Message.Builder.{Builder, msg_builder_init, next_index, fill, encode_all, joined}
use casting.Message.Roundtrip.{IsFitting, decode-encode}

-- The length of a value's encoding.
abbrev pub size_of : Option (List ℕ) → ℕ
size_of none = 0
size_of (some bs) = length bs

abbrev pub IsRoomy : Builder → Type 0
IsRoomy b = length b.values ≤ 2 ^ 30 → (length b.values ≤ b.size) × (0 < b.size)

-- Every value has an encoding that can be read, there is room as long as the doubled size is an `int`,
-- and `bytes` with four for each reference is, as a word, the length of the encodings.
pub record IsCounted (b : Builder) : Type 0 where
  pub fitting : All IsFitting b.values
  pub roomy : IsRoomy b
  pub bounded : b.bytes < 2 ^ 32
  pub summed : size_of (encode_all b.values) % 2 ^ 32 ≡ (b.bytes + 4 * b.refs) % 2 ^ 32

pub encode_all-some :
    (vs : List Value) → All IsFitting vs → (bs : List ℕ) × (encode_all vs ≡ some bs)
unfolding encode_all
encode_all-some [] h = ([], refl)
encode_all-some (v ∷ vs) h =
    let e = decode-encode v h.0 in
    let r = encode_all-some vs h.1 in (e.0 ++ r.0, rw (e.1, r.1) refl)

joined-nil : (o : Option (List ℕ)) → joined (some []) o ≡ o
joined-nil none = refl
joined-nil (some bs) = refl

joined_assoc : (x y z : Option (List ℕ)) → joined (joined x y) z ≡ joined x (joined y z)
joined_assoc none y z = refl
joined_assoc (some x) none z = refl
joined_assoc (some x) (some y) none = refl
joined_assoc (some x) (some y) (some z) = ap some (append_assoc x y z)

pub encode_all-append :
    (vs ws : List Value) → encode_all (vs ++ ws) ≡ joined (encode_all vs) (encode_all ws)
unfolding encode_all
encode_all-append [] ws = sym (joined-nil (encode_all ws))
encode_all-append (v ∷ vs) ws =
    ap (joined (encode v)) (encode_all-append vs ws)
    ∙ sym (joined_assoc (encode v) (encode_all vs) (encode_all ws))

size_of-joined :
    (x y : Option (List ℕ)) (xs ys : List ℕ)
    → x ≡ some xs
    → y ≡ some ys
    → size_of (joined x y) ≡ size_of x + size_of y
size_of-joined x y xs ys e k = rw (e, k) (length-append xs ys)

pub msg_builder_init-IsCounted : IsCounted msg_builder_init
unfolding msg_builder_init encode_all
msg_builder_init-IsCounted = record {
  fitting = tt;
  roomy = λ h. (omega arith, omega arith);
  bounded = omega arith;
  summed = refl;
}

eq_true : (a b : ℕ) → (a == b) ≡ true → a ≡ b
eq_true a b h = ground arith

eq_false : (a b : ℕ) → (a == b) ≡ false → a ≢ b
eq_false a b h = ground arith

-- `next_index` finds room and keeps all else, or the array is full.
abbrev Room : Bool → Builder → Option Builder → Type 0
Room mem b none = (mem ≡ false) × (length b.values ≡ b.size)
Room mem b (some t) =
    (t.values ≡ b.values)
    × (length b.values < 2 ^ 30 → length b.values < t.size)
    × (t.bytes ≡ b.bytes)
    × (t.count ≡ b.count)
    × (t.refs ≡ b.refs)

next_index-Room : (mem : Bool) (b : Builder) → IsRoomy b → Room mem b (next_index mem b)
unfolding next_index
next_index-Room mem b r =
    go mem (length b.values == b.size) (eq_true (length b.values) b.size)
      (eq_false (length b.values) b.size)
  where
    go :
        (mem full : Bool)
        → (full ≡ true → length b.values ≡ b.size)
        → (full ≡ false → length b.values ≢ b.size)
        → Room mem b (
            if full
            then (if mem then some (record b { size = b.size * 2 % 2 ^ 32 }) else none)
            else some b)
    go true true h k = (
      refl,
      λ small. let (fits, there) = r (omega arith) in omega (arith, h refl, there),
      refl,
      refl,
      refl,
    )
    go false true h k = (refl, h refl)
    go mem false h k =
        let apart : length b.values ≢ b.size = k refl in
        (refl, λ small. let (fits, there) = r (omega arith) in omega arith, refl, refl, refl)

-- What a push makes of a builder: it faults where the array must grow without memory, else the value is
-- the last of the builder, which stays counted.
abbrev pub Fills : Bool → Builder → Value → Option (Builder × ℕ) → Type 0
Fills mem b v none = (mem ≡ false) × (length b.values ≡ b.size)
Fills mem b v (some (t, i)) =
    (t.values ≡ b.values ++ (v ∷ []))
    × (i ≡ length b.values)
    × (t.count ≡ succ b.count)
    × (t.refs ≡ b.refs)
    × IsCounted t

encode_all-one : (v : Value) (bs : List ℕ) → encode v ≡ some bs → encode_all (v ∷ []) ≡ encode v
unfolding encode_all
encode_all-one v bs e = rw e (ap some (append-nil bs))

pub size_of-append :
    (vs : List Value) (v : Value)
    → All IsFitting vs
    → IsFitting v
    → size_of (encode_all (vs ++ (v ∷ []))) ≡ size_of (encode_all vs) + size_of (encode v)
size_of-append vs v f g =
    let x = encode_all-some vs f in
    let y = decode-encode v g in
    ap size_of (encode_all-append vs (v ∷ []))
    ∙ ap (λ o. size_of (joined (encode_all vs) o)) (encode_all-one v y.0 y.1)
    ∙ size_of-joined (encode_all vs) (encode v) x.0 y.0 x.1 y.1

pub fill-Fills :
    (mem : Bool) (b : Builder) (v : Value) (n : ℕ)
    → All IsFitting b.values
    → IsRoomy b
    → IsFitting v
    → (size_of (encode_all b.values) + size_of (encode v)) % 2 ^ 32
      ≡ (b.bytes + n + 4 * b.refs) % 2 ^ 32
    → Fills mem b v (fill (next_index mem b) v n)
unfolding fill
fill-Fills mem b v n f r g s = go (next_index mem b) (next_index-Room mem b r)
  where
    go : (o : Option Builder) → Room mem b o → Fills mem b v (fill o v n)
    go none h = h
    go (some t) (e, room, bytes, count, refs) = (
      ap (λ vs. vs ++ (v ∷ [])) e,
      ap length e,
      ap succ count,
      refs,
      record {
        fitting =
            subst (λ vs. All IsFitting (vs ++ (v ∷ []))) (sym e)
              (All-append IsFitting b.values (v ∷ []) f (g, tt));
        roomy = λ small.
            let longer = length-append t.values (v ∷ []) in
            let same = ap length e in
            let fits : length b.values < t.size = room (omega (arith, small, longer, same)) in
            (omega (arith, longer, same, fits), omega (arith, fits));
        bounded = omega arith;
        summed =
            ap (λ vs. size_of (encode_all (vs ++ (v ∷ []))) % 2 ^ 32) e
            ∙ ap (λ n. n % 2 ^ 32) (size_of-append b.values v f g)
            ∙ s
            ∙ omega (arith, bytes, refs);
      },
    )
