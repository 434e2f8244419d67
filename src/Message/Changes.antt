-- ===== src/Message/Changes.antt =====
-- src/message.c: the calls that change a value that is in the builder.
use casting.Base.{
  ℕ, zero, suc, ◌+◌, ◌^◌, ◌<◌, ◌≤◌, ◌≡◌, refl, sym, ap, ◌∙◌, subst, arith, Bool, true, false,
  Option, none, some, List, [], ◌∷◌, length, length-append, All, succ, ◌⊎◌, inl, inr,
}
use casting.Message.Bytes.{to_bytes, length-to_bytes}
use casting.Message.Values.{
  Value, ref, t_reference, t_referenced, t_meta, with_bit, encode, body, kind, value_type,
  after_type, value_is_meta, value_is_referenced,
}
use casting.Message.Builder.{
  Builder, next_index, fill, change_at, lc_pushreference, referring, encode_all,
}
use casting.Message.Roundtrip.{IsFitting, Fitting, decode-encode}
use casting.Message.Counting.{
  IsCounted, Fills, fill-Fills, size_of, size_of-append, encode_all-some,
}

-- Setting T_REFERENCED or T_META in a type sets that flag, and changes neither the type that
-- `value_type` reads nor the other flag.
pub with_bit_lem :
    (t : ℕ)
    → (value_type (with_bit t_referenced t) ≡ value_type t)
      × (value_type (with_bit t_meta t) ≡ value_type t)
      × (value_is_referenced (with_bit t_referenced t) ≡ true)
      × (value_is_meta (with_bit t_meta t) ≡ true)
      × (value_is_meta (with_bit t_referenced t) ≡ value_is_meta t)
      × (value_is_referenced (with_bit t_meta t) ≡ value_is_referenced t)
unfolding value_type value_is_referenced value_is_meta
with_bit_lem t =
    (ground arith, ground arith, ground arith, ground arith, ground arith, ground arith)

with_bit-lt_32 : (t : ℕ) → t < 256 ^ 4 → with_bit t_referenced t < 256 ^ 4
with_bit-lt_32 t h = ground arith

pub with_bit-lt_64 : (t : ℕ) → t < 256 ^ 4 → with_bit t_meta t < 256 ^ 4
with_bit-lt_64 t h = ground arith

-- The value at an index.
abbrev pub get : ℕ → List Value → Option Value
get i [] = none
get zero (v ∷ vs) = some v
get (suc i) (v ∷ vs) = get i vs

-- A change that keeps a value fitting and the size of its encoding.
abbrev pub Keeps : (Value → Value) → Value → Type 0
Keeps f v = IsFitting (f v) × (size_of (encode (f v)) ≡ size_of (encode v))

abbrev pub Kept : List Value → Option (List Value) → Type 0
Kept vs none = ⊥
Kept vs (some ws) =
    All IsFitting ws × (length ws ≡ length vs) × (size_of (encode_all ws) ≡ size_of (encode_all vs))

size_of-encode_all :
    (v : Value) (vs : List Value)
    → IsFitting v
    → All IsFitting vs
    → size_of (encode_all (v ∷ vs)) ≡ size_of (encode v) + size_of (encode_all vs)
unfolding encode_all
size_of-encode_all v vs f g =
    let x = decode-encode v f in
    let y = encode_all-some vs g in rw (x.1, y.1) (length-append x.0 y.0)

pub change_at-Kept :
    (i : ℕ) (f : Value → Value) (vs : List Value) (v : Value)
    → All IsFitting vs
    → get i vs ≡ some v
    → (IsFitting v → Keeps f v)
    → Kept vs (change_at i f vs)
unfolding change_at
change_at-Kept i f [] v h e k = cc e
change_at-Kept zero f (x ∷ vs) v h e k =
    let same : v ≡ x = cc e in
    let r = subst (λ y. IsFitting y → Keeps f y) same k h.0 in
    (
      (r.0, h.1),
      refl,
      size_of-encode_all (f x) vs r.0 h.1
          ∙ ap (λ n. n + size_of (encode_all vs)) r.1
          ∙ sym (size_of-encode_all x vs h.0 h.1),
    )
change_at-Kept (suc i) f (x ∷ vs) v h e k = go (change_at i f vs) (change_at-Kept i f vs v h.1 e k)
  where
    go :
        (o : Option (List Value))
        → Kept vs o
        → Kept (x ∷ vs) (elim o [ none ↦ none | some ws ↦ some (x ∷ ws) ])
    go none p = p
    go (some ws) (g, l, s) = (
      (h.0, g),
      ap suc l,
      size_of-encode_all x ws h.0 g
          ∙ ap (λ n. size_of (encode x) + n) s
          ∙ sym (size_of-encode_all x vs h.0 h.1),
    )

-- A new type with the same kind changes only the four bytes of the type.
pub retyped-Keeps :
    (v : Value) (t : ℕ)
    → t < 256 ^ 4
    → value_type t ≡ value_type v.type
    → IsFitting v
    → Keeps (λ v. record v { type = t }) v
unfolding encode
retyped-Keeps v t small e f = (
  (small, subst (λ n. Fitting (kind n) v.payload v.len v.ptr) (sym e) f.1),
  ap (λ n. size_of (after_type t (body (kind n) v.payload v.len v.ptr))) e
      ∙ go (body (kind (value_type v.type)) v.payload v.len v.ptr),
)
  where
    go : (o : Option (List ℕ)) → size_of (after_type t o) ≡ size_of (after_type v.type o)
    go none = refl
    go (some bs) = omega (
      arith,
      length-append (to_bytes 4 t) bs,
      length-append (to_bytes 4 v.type) bs,
      length-to_bytes 4 t,
      length-to_bytes 4 v.type,
    )

-- The value that a reference's call adds.
abbrev pub reference_to : ℕ → Value
reference_to r = record { type = t_reference; payload = ref r; len = 0; ptr = [] }

reference_to-IsFitting : (r : ℕ) → r < 2 ^ 31 → IsFitting (reference_to r)
unfolding kind value_type
reference_to-IsFitting r h = (omega arith, omega arith)

size_of-reference_to : (r : ℕ) → size_of (encode (reference_to r)) ≡ 8
unfolding kind value_type encode body to_bytes
size_of-reference_to r = refl

-- On a counted builder, a reference to one of its values, at an index below 2^31, faults only
-- where the array is full and there is no memory. Else its index is the number of values, the
-- references, the count and the number of values go up by one, and the builder is counted again,
-- the added bytes being four short of the encoding.
pub lc_pushreference_lem :
    (mem : Bool) (b : Builder) (r : ℕ) (v : Value)
    → IsCounted b
    → r < 2 ^ 31
    → get r b.values ≡ some v
    → ((mem ≡ false) × (lc_pushreference mem b r ≡ none) × (length b.values ≡ b.size))
      ⊎ ((t : Builder) × (lc_pushreference mem b r ≡ some (t, length b.values))
          × (t.refs ≡ suc b.refs)
          × (t.count ≡ succ b.count)
          × (length t.values ≡ suc (length b.values))
          × IsCounted t
          × (size_of (encode_all t.values) ≡ size_of (encode_all b.values) + 8))
unfolding lc_pushreference referring
lc_pushreference_lem mem b r v c small e =
    go (change_at r (λ v. record v { type = with_bit t_referenced v.type }) b.values) (
      change_at-Kept r (λ v. record v { type = with_bit t_referenced v.type }) b.values v c.fitting
        e
        (λ f.
          retyped-Keeps v (with_bit t_referenced v.type) (with_bit-lt_32 v.type f.0)
            (with_bit_lem v.type).0 f))
  where
    Ends : Option (Builder × ℕ) → Type 0
    Ends o =
        ((mem ≡ false) × (o ≡ none) × (length b.values ≡ b.size))
        ⊎ ((t : Builder) × (o ≡ some (t, length b.values))
            × (t.refs ≡ suc b.refs)
            × (t.count ≡ succ b.count)
            × (length t.values ≡ suc (length b.values))
            × IsCounted t
            × (size_of (encode_all t.values) ≡ size_of (encode_all b.values) + 8))

    ends :
        (d : Builder) (o : Option (Builder × ℕ))
        → length d.values ≡ length b.values
        → d.refs ≡ suc b.refs
        → d.count ≡ b.count
        → d.size ≡ b.size
        → All IsFitting d.values
        → size_of (encode_all d.values) ≡ size_of (encode_all b.values)
        → Fills mem d (reference_to r) o
        → Ends o
    ends d none l n k s g e h = inl (h.0, refl, sym l ∙ h.1 ∙ s)
    ends d (some (t, i)) l n k s g e (vs, at, count, refs, counted) = inr (
      t,
      ap (λ i. some (t, i)) (at ∙ l),
      refs ∙ n,
      count ∙ ap succ k,
      ap length vs ∙ omega (arith, length-append d.values (reference_to r ∷ []), l),
      counted,
      ap (λ xs. size_of (encode_all xs)) vs
          ∙ size_of-append d.values (reference_to r) g (reference_to-IsFitting r small)
          ∙ omega (arith, e, size_of-reference_to r),
    )

    go : (o : Option (List Value)) → Kept b.values o → Ends (referring mem b r o)
    go none p = absurd p
    go (some ws) (g, l, s) =
        let d : Builder = record b { values = ws; refs = suc b.refs } in
        ends d (fill (next_index mem d) (reference_to r) 4) l refl refl refl g s (
          fill-Fills mem d (reference_to r) 4 g
            (λ small.
              let kept : length ws ≡ length b.values = l in
              subst (λ n. (n ≤ b.size) × (0 < b.size)) (sym kept)
                (c.roomy (omega (arith, small, kept))))
            (reference_to-IsFitting r small) (omega (arith, s, c.summed, size_of-reference_to r)))
