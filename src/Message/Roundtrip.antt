-- ===== src/Message/Roundtrip.antt =====
-- src/message.c: `msg_next` reads what `msg_new` wrote, one value.
use casting.Base.{
  ℕ, ◌^◌, ◌≤◌, ◌<◌, ◌≡◌, refl, subst, arith, some, List, [], ◌++◌, append-nil, append_assoc, length,
  length-append, take, take-append,
}
use casting.Message.Bytes.{to_bytes, length-to_bytes, read_bytes-append, read_number-append}
use casting.Message.Values.{
  Kind, flat, number, string, table, closure, reference, other, kind, value_type, Payload, double,
  ref, upvals, slots_array, Value, body, encode, decoded, decode_body, decode,
}

-- What a value of a kind holds: the union's member fits the kind, and the integers their sizes.
abbrev pub Fitting : Kind → Payload → ℕ → List ℕ → Type 0
Fitting flat p len ptr = Unit
Fitting number (double n) len ptr = n < 256 ^ 8
Fitting string p len ptr = (len < 2 ^ 31) × (length ptr ≡ len)
Fitting table (slots_array s a) len ptr = (s < 256 ^ 4) × (a < 256 ^ 4)
Fitting closure (upvals u) len ptr = (u < 256 ^ 4) × (len < 2 ^ 31) × (length ptr ≡ len)
Fitting reference (ref r) len ptr = r < 256 ^ 4
Fitting k p len ptr = ⊥

abbrev pub IsFitting : Value → Type 0
IsFitting v = (v.type < 256 ^ 4) × Fitting (kind (value_type v.type)) v.payload v.len v.ptr

-- The fields that a value of a kind uses.
abbrev pub Agree : Kind → Value → Payload → ℕ → List ℕ → Type 0
Agree flat w p len ptr = Unit
Agree number w p len ptr = w.payload ≡ p
Agree string w p len ptr = (w.len ≡ len) × (w.ptr ≡ ptr)
Agree table w p len ptr = w.payload ≡ p
Agree closure w p len ptr = (w.payload ≡ p) × (w.len ≡ len) × (w.ptr ≡ ptr)
Agree reference w p len ptr = w.payload ≡ p
Agree other w p len ptr = Unit

-- The same type, flags included, and the same fields where they are used.
abbrev pub Shows : Value → Value → Type 0
Shows w v = (w.type ≡ v.type) × Agree (kind (value_type v.type)) w v.payload v.len v.ptr

abbrev Reads : Kind → Payload → ℕ → List ℕ → List ℕ → Type 0
Reads k p len ptr bs =
    (old : Value) (rest : List ℕ)
    → (w : Value) × (decode_body k old (bs ++ rest) ≡ decoded w rest)
      × (w.type ≡ old.type)
      × Agree k w p len ptr

pub take-all : (n : ℕ) (bs : List ℕ) → length bs ≡ n → take n bs ≡ bs
take-all n bs e =
    subst (λ k. take k bs ≡ bs) e
      (subst (λ xs. take (length bs) xs ≡ bs) (append-nil bs) (take-append bs []))

body-Reads :
    (k : Kind) (p : Payload) (len : ℕ) (ptr : List ℕ)
    → Fitting k p len ptr
    → (bs : List ℕ) × (body k p len ptr ≡ some bs) × Reads k p len ptr bs
unfolding body decode_body
body-Reads flat p len ptr h = ([], refl, λ old rest. (old, refl, refl, tt))
body-Reads number (double n) len ptr h = (
  to_bytes 8 n,
  refl,
  λ old rest.
      (record old { payload = double n }, rw (read_number-append 8 n rest h) refl, refl, refl),
)
body-Reads string p len ptr h = (
  to_bytes 4 len ++ ptr,
  rw (take-all len ptr h.1) refl,
  λ old rest. (
    record old { len = len; ptr = ptr },
    rw (append_assoc, read_number-append 4 len (ptr ++ rest) (omega (arith, h.0)))
        (rw (read_bytes-append ptr rest len h.1) refl),
    refl,
    (refl, refl),
  ),
)
body-Reads table (slots_array s a) len ptr h = (
  to_bytes 4 s ++ to_bytes 4 a,
  refl,
  λ old rest. (
    record old { payload = slots_array s a },
    rw (append_assoc, read_number-append 4 s (to_bytes 4 a ++ rest) h.0)
        (rw (read_number-append 4 a rest h.1) refl),
    refl,
    refl,
  ),
)
body-Reads closure (upvals u) len ptr h = (
  to_bytes 4 u ++ (to_bytes 4 len ++ ptr),
  rw (take-all len ptr h.2) refl,
  λ old rest. (
    record old { payload = upvals u; len = len; ptr = ptr },
    rw (append_assoc, append_assoc, read_number-append 4 u (to_bytes 4 len ++ (ptr ++ rest)) h.0)
        (rw (read_number-append 4 len (ptr ++ rest) (omega (arith, h.1)))
          (rw (read_bytes-append ptr rest len h.2) refl)),
    refl,
    (refl, refl, refl),
  ),
)
body-Reads reference (ref r) len ptr h = (
  to_bytes 4 r,
  refl,
  λ old rest. (record old { payload = ref r }, rw (read_number-append 4 r rest h) refl, refl, refl),
)
body-Reads k p len ptr h = absurd h

-- A value whose union has the member of its type, whose integers fit their sizes, and whose
-- length is that of its string and below 2^31, is written by `msg_new`'s loop as at least four
-- bytes. From these bytes, whatever follows them, the switch of `msg_next` reads a value of the
-- same type, flags included, with the same fields where the type uses them, and goes on behind
-- them.
pub decode-encode :
    (v : Value)
    → IsFitting v
    → (bs : List ℕ) × (encode v ≡ some bs)
      × ((old : Value) (rest : List ℕ)
          → (w : Value) × (decode old (bs ++ rest) ≡ decoded w rest) × Shows w v)
      × (4 ≤ length bs)
unfolding encode decode
decode-encode v h =
    let r = body-Reads (kind (value_type v.type)) v.payload v.len v.ptr h.1 in
    (
      to_bytes 4 v.type ++ r.0,
      rw (r.1) refl,
      λ old rest.
          let w = r.2 (record old { type = v.type }) rest in
          (w.0, rw (append_assoc, read_number-append 4 v.type (r.0 ++ rest) h.0) w.1, (w.2, w.3)),
      omega (arith, length-append (to_bytes 4 v.type) r.0, length-to_bytes 4 v.type),
    )
