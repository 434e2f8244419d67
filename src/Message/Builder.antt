-- ===== src/Message/Builder.antt =====
-- src/message.c: the builder of a message, `msg_new`, and the cursor. The `int`s `size` and `bytes`
-- are their patterns below 2^32, and wrap.
use casting.Base.{
  ℕ, zero, suc, ◌+◌, ◌-◌, ◌*◌, ◌%◌, ◌^◌, ◌==◌, Bool, Option, none, some, List, [], ◌∷◌, ◌++◌, ltb,
  leb, length, take, drop, if◌then◌else◌, ℤ, pos, negsuc, succ, pred,
}
use casting.Message.Values.{
  Value, unset, double, ref, upvals, slots_array, t_nil, t_true, t_false, t_number, t_string,
  t_table, t_function, t_userdata, t_reference, t_referenced, t_meta, with_bit, encode, Decoded,
  decoded, unknown, past_end, decode,
}

-- `message_builder_t`: `last` is the number of values; the references' map is its owner's.
pub record Builder : Type 0 where
  pub values : List Value
  pub size : ℕ
  pub bytes : ℕ
  pub count : ℤ
  pub refs : ℕ

-- `message_t`; `contents` is `data`: the bytes that were written.
pub record Message : Type 0 where
  pub ref_count : ℤ
  pub size : ℕ
  pub count : ℤ
  pub refs : ℕ
  pub contents : List ℕ

-- `msg_cursor_t`.
pub record Cursor : Type 0 where
  pub msg : Message
  pub position : ℕ
  pub seen : ℕ

-- `BUILDER_SIZE`, and the size of a message without its data.
abbrev pub builder_size : ℕ
builder_size = 16

abbrev pub header_size : ℕ
header_size = 16

unfoldable pub msg_builder_init : Builder
msg_builder_init = record { values = []; size = builder_size; bytes = 0; count = pos 0; refs = 0 }

-- `next_index` up to the array: doubled, by a shift of the `int`, when it is full. Without memory the index is an error code,
-- through which the callers write: `none`.
unfoldable pub next_index : Bool → Builder → Option Builder
next_index mem b =
    if length b.values == b.size
    then (if mem then some (record b { size = b.size * 2 % 2 ^ 32 }) else none)
    else some b

-- A new value, the bytes that it takes, and its index.
unfoldable pub fill : Option Builder → Value → ℕ → Option (Builder × ℕ)
fill none v n = none
fill (some b) v n = some (
  record b { values = b.values ++ (v ∷ []); bytes = (b.bytes + n) % 2 ^ 32; count = succ b.count },
  length b.values,
)

unfoldable pub lc_pushnil : Bool → Builder → Option (Builder × ℕ)
lc_pushnil mem b =
    fill (next_index mem b) (record { type = t_nil; payload = unset; len = 0; ptr = [] }) 4

unfoldable pub lc_pushboolean : Bool → Builder → ℕ → Option (Builder × ℕ)
lc_pushboolean mem b x =
    fill (next_index mem b)
      (record { type = if x == 0 then t_false else t_true; payload = unset; len = 0; ptr = [] }) 4

unfoldable pub lc_pushnumber : Bool → Builder → ℕ → Option (Builder × ℕ)
lc_pushnumber mem b n =
    fill (next_index mem b) (record { type = t_number; payload = double n; len = 0; ptr = [] })
      (4 + 8)

-- `len` is an `int`, `sz` a `size_t`.
unfoldable pub lc_pushlstring : Bool → Builder → List ℕ → ℕ → Option (Builder × ℕ)
lc_pushlstring mem b p sz =
    fill (next_index mem b)
      (record { type = t_string; payload = unset; len = sz % 2 ^ 32; ptr = p }) (4 + 4 + sz)

-- `values[idx]` is changed; `none` is an index outside of the values.
unfoldable pub change_at : ℕ → (Value → Value) → List Value → Option (List Value)
change_at i f [] = none
change_at zero f (v ∷ vs) = some (f v ∷ vs)
change_at (suc i) f (v ∷ vs) = elim (change_at i f vs) [ none ↦ none | some ws ↦ some (v ∷ ws) ]

unfoldable pub referring : Bool → Builder → ℕ → Option (List Value) → Option (Builder × ℕ)
referring mem b r none = none
referring mem b r (some vs) =
    fill (next_index mem (record b { values = vs; refs = suc b.refs }))
      (record { type = t_reference; payload = ref r; len = 0; ptr = [] }) 4

-- The bytes that are added are those of the index, without those of the type.
unfoldable pub lc_pushreference : Bool → Builder → ℕ → Option (Builder × ℕ)
lc_pushreference mem b r =
    referring mem b r (change_at r (λ v. record v { type = with_bit t_referenced v.type }) b.values)

unfoldable pub lc_createtable : Bool → Builder → Option (Builder × ℕ)
lc_createtable mem b =
    fill (next_index mem b)
      (record { type = t_table; payload = slots_array 0 0; len = 0; ptr = [] }) (4 + 4 + 4)

-- `code` is the contents of the buffer.
unfoldable pub lc_pushfunction : Bool → Builder → List ℕ → Option (Builder × ℕ)
lc_pushfunction mem b code =
    fill (next_index mem b)
      (record { type = t_function; payload = upvals 0; len = length code % 2 ^ 32; ptr = code })
      (4 + 4 + 4 + length code % 2 ^ 32)

-- The name is copied.
unfoldable pub lc_pushuserdata : Bool → Builder → List ℕ → ℕ → Option (Builder × ℕ)
lc_pushuserdata mem b name len =
    fill (next_index mem b)
      (record { type = t_userdata; payload = upvals 0; len = len; ptr = take len name })
      (4 + 4 + 4 + len)

abbrev pub minus : ℤ → ℕ → ℤ
minus z zero = z
minus z (suc n) = pred (minus z n)

abbrev pub with_values : Builder → ℕ → Option (List Value) → Option Builder
with_values b n none = none
with_values b n (some vs) = some (record b { values = vs; count = minus b.count n })

-- `lc_setfunction` and `lc_setuserdata` are the same.
unfoldable pub lc_setfunction : Builder → ℕ → ℕ → Option Builder
lc_setfunction b i n = with_values b n (change_at i (λ v. record v { payload = upvals n }) b.values)

unfoldable pub lc_settable : Builder → ℕ → ℕ → ℕ → Option Builder
lc_settable b i slots array = with_values b (slots * 2) (
    change_at i (λ v. record v { payload = slots_array (slots % 2 ^ 32) (array % 2 ^ 32) })
      b.values)

unfoldable pub lc_setmeta : Builder → ℕ → Option Builder
lc_setmeta b i =
    with_values b 1 (change_at i (λ v. record v { type = with_bit t_meta v.type }) b.values)

abbrev pub joined : Option (List ℕ) → Option (List ℕ) → Option (List ℕ)
joined none ys = none
joined (some xs) none = none
joined (some xs) (some ys) = some (xs ++ ys)

-- The loop of `msg_new`: all that it writes.
unfoldable pub encode_all : List Value → Option (List ℕ)
encode_all [] = some []
encode_all (v ∷ vs) = joined (encode v) (encode_all vs)

-- `none` is a sum `bytes` that is negative or whose message has a size above the `int`s, for which
-- there is no memory or none behind the header, or a write of more than `bytes` bytes, past the end
-- of the message.
unfoldable pub written_to : Builder → Option (List ℕ) → Option Message
written_to b none = none
written_to b (some bs) =
    if leb (2 ^ 31) (header_size + b.bytes)
    then none
    else if ltb b.bytes (length bs)
    then none
    else some (record {
      ref_count = pos 1;
      size = header_size + b.bytes;
      count = b.count;
      refs = b.refs;
      contents = bs;
    })

-- With memory for the message.
unfoldable pub msg_new : Builder → Option Message
msg_new b = written_to b (encode_all b.values)

unfoldable pub msg_cursor_init : Message → Cursor
msg_cursor_init m = record { msg = m; position = 0; seen = 0 }

-- The cursor, the caller's value and the result of `msg_next`; `none` is a read past the message.
abbrev pub advance : Cursor → Decoded → Option (Cursor × Value × ℤ)
advance c past_end = none
advance c (unknown v) = some (c, v, negsuc 0)
advance c (decoded v rest) =
    some (
      record c { position = length c.msg.contents - length rest; seen = suc c.seen },
      v,
      pos c.seen,
    )

unfoldable pub msg_next : Cursor → Value → Option (Cursor × Value × ℤ)
msg_next c v =
    if leb c.msg.size (header_size + c.position)
    then some (c, v, negsuc 0)
    else advance c (decode v (drop c.position c.msg.contents))

unfoldable pub msg_count : Message → ℤ
msg_count m = m.count

-- `msg_ref` and `msg_destroy`: the message that is left, `none` once it is freed.
unfoldable pub msg_ref : Message → Message
msg_ref m = record m { ref_count = succ m.ref_count }

abbrev pub freed_at : ℤ → Message → Option Message
freed_at (pos zero) m = none
freed_at (pos (suc n)) m = some (record m { ref_count = pos (suc n) })
freed_at (negsuc n) m = some (record m { ref_count = negsuc n })

unfoldable pub msg_destroy : Message → Option Message
msg_destroy m = freed_at (pred m.ref_count) m
