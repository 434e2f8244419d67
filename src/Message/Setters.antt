-- ===== src/Message/Setters.antt =====
-- src/message.c: `lc_settable`, `lc_setfunction` (`lc_setuserdata`) and `lc_setmeta`.
use casting.Base.{
  ℕ, ◌+◌, ◌*◌, ◌%◌, ◌^◌, ◌<◌, ◌≤◌, ◌≡◌, refl, sym, ap, subst, ◌∙◌, arith, Option, none, some, List,
  length, length-append,
}
use casting.Message.Bytes.{to_bytes, length-to_bytes}
use casting.Message.Values.{
  Value, Payload, upvals, slots_array, t_meta, with_bit, encode, body, kind, value_type, Kind,
  table, closure, after_type,
}
use casting.Message.Builder.{Builder, lc_setfunction, lc_settable, lc_setmeta, with_values, minus}
use casting.Message.Roundtrip.{Fitting}
use casting.Message.Counting.{IsCounted, size_of}
use casting.Message.Changes.{Kept, get, change_at-Kept, retyped-Keeps, with_bit_lem, with_bit-lt_64}

-- A setter takes the values that belong to one value from the count, and keeps the builder counted.
abbrev pub Sets : Builder → ℕ → Option Builder → Type 0
Sets b n o =
    (t : Builder) × (o ≡ some t)
    × (t.count ≡ minus b.count n)
    × (t.refs ≡ b.refs)
    × (t.bytes ≡ b.bytes)
    × (length t.values ≡ length b.values)
    × IsCounted t

with_values-Sets :
    (b : Builder) (n : ℕ) (o : Option (List Value))
    → IsCounted b
    → Kept b.values o
    → Sets b n (with_values b n o)
with_values-Sets b n none c h = absurd h
with_values-Sets b n (some ws) c (g, l, s) = (
  record b { values = ws; count = minus b.count n },
  refl,
  refl,
  refl,
  refl,
  l,
  record {
    fitting = g;
    roomy = λ small.
        subst (λ n. (n ≤ b.size) × (0 < b.size)) (sym l) (c.roomy (omega (arith, small, l)));
    bounded = c.bounded;
    summed = ap (λ n. n % 2 ^ 32) s ∙ c.summed;
  },
)

-- On a counted builder, the marking of one of its values as one with a metatable takes one from
-- the count, keeps the number of values, the bytes and the references, and leaves the builder
-- counted.
pub lc_setmeta_lem :
    (b : Builder) (i : ℕ) (v : Value)
    → IsCounted b
    → get i b.values ≡ some v
    → Sets b 1 (lc_setmeta b i)
unfolding lc_setmeta
lc_setmeta_lem b i v c e = with_values-Sets b 1 _ c (
    change_at-Kept i (λ v. record v { type = with_bit t_meta v.type }) b.values v c.fitting e
      (λ f.
        retyped-Keeps v (with_bit t_meta v.type) (with_bit-lt_64 v.type f.0) (with_bit_lem v.type).1
          f))

after_type-size : (t : ℕ) (bs : List ℕ) → size_of (after_type t (some bs)) ≡ 4 + length bs
after_type-size t bs = omega (arith, length-append (to_bytes 4 t) bs, length-to_bytes 4 t)

table_size :
    (k : Kind) (p : Payload) (len : ℕ) (ptr : List ℕ) (t s a : ℕ)
    → k ≡ table
    → Fitting k p len ptr
    → size_of (after_type t (body k (slots_array s a) len ptr))
      ≡ size_of (after_type t (body k p len ptr))
unfolding body to_bytes
table_size table (slots_array x y) len ptr t s a e f = refl
table_size table p len ptr t s a e f = absurd f
table_size k p len ptr t s a e f = cc

closure_size :
    (k : Kind) (p : Payload) (len : ℕ) (ptr : List ℕ) (t n : ℕ)
    → k ≡ closure
    → Fitting k p len ptr
    → size_of (after_type t (body k (upvals n) len ptr)) ≡ size_of (after_type t (body k p len ptr))
unfolding body to_bytes
closure_size closure (upvals x) len ptr t n e f = refl
closure_size closure p len ptr t n e f = absurd f
closure_size k p len ptr t n e f = cc

table_fits :
    (k : Kind) (p : Payload) (len : ℕ) (ptr : List ℕ) (s a : ℕ)
    → k ≡ table
    → Fitting k p len ptr
    → Fitting k (slots_array (s % 2 ^ 32) (a % 2 ^ 32)) len ptr
table_fits table p len ptr s a e f = (omega arith, omega arith)
table_fits k p len ptr s a e f = cc

closure_fits :
    (k : Kind) (p : Payload) (len : ℕ) (ptr : List ℕ) (n : ℕ)
    → n < 2 ^ 31
    → k ≡ closure
    → Fitting k p len ptr
    → Fitting k (upvals n) len ptr
closure_fits closure (upvals x) len ptr n h e f = (omega arith, f.1, f.2)
closure_fits closure p len ptr n h e f = absurd f
closure_fits k p len ptr n h e f = cc

-- On a counted builder, the setting of a table among its values to numbers of slots and array
-- items takes twice the slots from the count, keeps the number of values, the bytes and the
-- references, and leaves the builder counted.
pub lc_settable_lem :
    (b : Builder) (i slots array : ℕ) (v : Value)
    → IsCounted b
    → get i b.values ≡ some v
    → kind (value_type v.type) ≡ table
    → Sets b (slots * 2) (lc_settable b i slots array)
unfolding lc_settable encode
lc_settable_lem b i slots array v c e k = with_values-Sets b (slots * 2) _ c (
    change_at-Kept i (λ v. record v { payload = slots_array (slots % 2 ^ 32) (array % 2 ^ 32) })
      b.values v c.fitting e
      (λ f. (
        (f.0, table_fits (kind (value_type v.type)) v.payload v.len v.ptr slots array k f.1),
        table_size (kind (value_type v.type)) v.payload v.len v.ptr v.type (slots % 2 ^ 32)
            (array % 2 ^ 32) k f.1,
      )))

-- On a counted builder, the setting of the upvalues of a function or userdata among its values,
-- to a number below 2^31, takes that number from the count, keeps the number of values, the
-- bytes and the references, and leaves the builder counted.
pub lc_setfunction_lem :
    (b : Builder) (i n : ℕ) (v : Value)
    → IsCounted b
    → n < 2 ^ 31
    → get i b.values ≡ some v
    → kind (value_type v.type) ≡ closure
    → Sets b n (lc_setfunction b i n)
unfolding lc_setfunction encode
lc_setfunction_lem b i n v c small e k = with_values-Sets b n _ c (
    change_at-Kept i (λ v. record v { payload = upvals n }) b.values v c.fitting e
      (λ f. (
        (f.0, closure_fits (kind (value_type v.type)) v.payload v.len v.ptr n small k f.1),
        closure_size (kind (value_type v.type)) v.payload v.len v.ptr v.type n k f.1,
      )))
