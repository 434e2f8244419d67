-- ===== src/Message/Values.antt =====
-- src/message.h and src/message.c: `type_t` with its flags, `value_t`, and the encoding and decoding
-- of one value. The sizes are those of a 64-bit platform: an `int` has 4 bytes, a `double` has 8.
use casting.Base.{
  ℕ, ◌+◌, ◌*◌, ◌/◌, ◌%◌, ◌==◌, Bool, Option, none, some, List, [], ◌++◌, take, if◌then◌else◌,
}
use casting.Message.Bytes.{to_bytes, read_number, read_bytes}

abbrev pub t_nil : ℕ
t_nil = 1

abbrev pub t_true : ℕ
t_true = 2

abbrev pub t_false : ℕ
t_false = 3

abbrev pub t_number : ℕ
t_number = 4

abbrev pub t_string : ℕ
t_string = 5

abbrev pub t_table : ℕ
t_table = 6

abbrev pub t_function : ℕ
t_function = 7

abbrev pub t_userdata : ℕ
t_userdata = 8

abbrev pub t_reference : ℕ
t_reference = 10

-- A flag that is set by `|=`: its bit, of weight `w`, is added where it is missing.
abbrev pub with_bit : ℕ → ℕ → ℕ
with_bit w t = if t / w % 2 == 0 then t + w else t

-- `T_REFERENCED` and `T_META`.
abbrev pub t_referenced : ℕ
t_referenced = 32

abbrev pub t_meta : ℕ
t_meta = 64

-- `value_type`: the type without the two flags.
unfoldable pub value_type : ℕ → ℕ
value_type t = t % 32 + 128 * (t / 128)

unfoldable pub value_is_meta : ℕ → Bool
value_is_meta t = t / 64 % 2 == 1

unfoldable pub value_is_referenced : ℕ → Bool
value_is_referenced t = t / 32 % 2 == 1

-- The cases of the switches on `value_type`.
pub data Kind : Type 0 where
  flat number string table closure reference other : Kind

unfoldable pub kind : ℕ → Kind
kind t =
    if t == t_nil
    then flat
    else if t == t_true
    then flat
    else if t == t_false
    then flat
    else if t == t_number
    then number
    else if t == t_string
    then string
    else if t == t_table
    then table
    else if t == t_userdata
    then closure
    else if t == t_function
    then closure
    else if t == t_reference
    then reference
    else other

-- The union `data`, by the member last written. A double is the number that its 8 bytes make.
pub data Payload : Type 0 where
  unset : Payload
  double ref upvals : ℕ → Payload
  slots_array : ℕ → ℕ → Payload

-- `value_t`; `next` is not used. `ptr` is the string that it points to.
pub record Value : Type 0 where
  pub type : ℕ
  pub payload : Payload
  pub len : ℕ
  pub ptr : List ℕ

-- The bytes that `msg_new` writes behind the type; `none` is a read of another member of the union.
unfoldable pub body : Kind → Payload → ℕ → List ℕ → Option (List ℕ)
body flat p len ptr = some []
body number (double n) len ptr = some (to_bytes 8 n)
body string p len ptr = some (to_bytes 4 len ++ take len ptr)
body table (slots_array s a) len ptr = some (to_bytes 4 s ++ to_bytes 4 a)
body closure (upvals u) len ptr = some (to_bytes 4 u ++ (to_bytes 4 len ++ take len ptr))
body reference (ref r) len ptr = some (to_bytes 4 r)
body other p len ptr = some []
body k p len ptr = none

abbrev pub after_type : ℕ → Option (List ℕ) → Option (List ℕ)
after_type t none = none
after_type t (some bs) = some (to_bytes 4 t ++ bs)

-- One round of the loop of `msg_new`.
unfoldable pub encode : Value → Option (List ℕ)
encode v = after_type v.type (body (kind (value_type v.type)) v.payload v.len v.ptr)

-- What `msg_next` reads: a value and the bytes behind it, the result -1, or a read past the message.
pub data Decoded : Type 0 where
  decoded : Value → List ℕ → Decoded
  unknown : Value → Decoded
  past_end : Decoded

abbrev pub with_number : Option (ℕ × List ℕ) → (ℕ → List ℕ → Decoded) → Decoded
with_number none f = past_end
with_number (some (n, rest)) f = f n rest

abbrev pub with_bytes : Option (List ℕ × List ℕ) → (List ℕ → List ℕ → Decoded) → Decoded
with_bytes none f = past_end
with_bytes (some (bs, rest)) f = f bs rest

-- The switch of `msg_next`, on a value whose type is read.
unfoldable pub decode_body : Kind → Value → List ℕ → Decoded
decode_body flat v bs = decoded v bs
decode_body number v bs =
    with_number (read_number 8 bs) (λ n rest. decoded (record v { payload = double n }) rest)
decode_body string v bs = with_number (read_number 4 bs) (λ len more.
    with_bytes (read_bytes len more) (λ s rest. decoded (record v { len = len; ptr = s }) rest))
decode_body table v bs = with_number (read_number 4 bs) (λ s more.
    with_number (read_number 4 more)
      (λ a rest. decoded (record v { payload = slots_array s a }) rest))
decode_body closure v bs = with_number (read_number 4 bs) (λ u more.
    with_number (read_number 4 more) (λ len last.
      with_bytes (read_bytes len last)
        (λ s rest. decoded (record v { payload = upvals u; len = len; ptr = s }) rest)))
decode_body reference v bs =
    with_number (read_number 4 bs) (λ r rest. decoded (record v { payload = ref r }) rest)
decode_body other v bs = unknown v

-- `v` is the caller's value, whose fields stay where none is read.
unfoldable pub decode : Value → List ℕ → Decoded
decode v bs =
    with_number (read_number 4 bs)
      (λ t rest. decode_body (kind (value_type t)) (record v { type = t }) rest)
