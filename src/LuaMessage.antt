-- ===== src/LuaMessage.antt =====
-- src/lc_message.c: the values of a Lua state that are written into a message, with memory.
pub mod Flat
pub mod Filling
pub mod Trees
pub mod Repeats
pub mod Decode
pub mod Copies
pub mod Roundtrip
pub mod Delivery
use Prim.Native.Nat.{compare}
use casting.Base.{
  ℕ, suc, Bool, true, false, Ordering, Option, none, some, List, [], length, ℤ, pos, negsuc,
  success, err_inval, err_unsupported,
}
use casting.Map.Sorted.{lookup, insert}
use casting.Message.Builder.{
  Builder, Message, msg_builder_init, lc_pushnil, lc_pushboolean, lc_pushnumber, lc_pushlstring,
  lc_pushreference, lc_createtable, lc_settable, lc_setmeta, lc_pushfunction, lc_setfunction,
  lc_pushuserdata, msg_new,
}

-- A value by its `lua_type`. A table has its pointer, its pairs in the order of `lua_next`, and its
-- length; the pairs of a table whose pointer came before are not read. A function has what
-- `lua_dump` writes. A userdata in here has no `__save`: `unsaved`. Any other type is `other`.
mutual
  pub data Lua : Type 0 where
    nil unsaved other : Lua
    boolean number : ℕ → Lua
    string : List ℕ → Lua
    table : ℕ → Fields → ℕ → Lua
    with_meta : ℕ → Fields → ℕ → Lua → Lua
    function : List ℕ → Upvalues → Lua

  pub data Fields : Type 0 where
    no_fields : Fields
    field : Lua → Lua → Fields → Fields

  pub data Upvalues : Type 0 where
    no_upvalues : Upvalues
    upvalue : Lua → Upvalues → Upvalues

-- A value on the stack: one of those above, or a userdata whose `__save` returned a name and values.
mutual
  pub data Argument : Type 0 where
    value : Lua → Argument
    saved : List ℕ → Arguments → Argument

  pub data Arguments : Type 0 where
    no_arguments : Arguments
    argument : Argument → Arguments → Arguments

-- `refdata_t`, and the builder with its `refmap`, an ascending list.
pub record Ref : Type 0 where
  pub key : ℕ
  pub refid : ℕ

pub record Out : Type 0 where
  pub builder : Builder
  pub refmap : List Ref

unfoldable pub cmp_ref : Ref → Ref → Ordering
cmp_ref a b = compare a.key b.key

-- What a call leaves with its result; `none` is a write outside of the values.
abbrev pub pushed : Out → Option (Builder × ℕ) → Option (Out × ℤ)
pushed o none = none
pushed o (some (b, i)) = some (record o { builder = b }, success)

abbrev pub set_to : Out → ℤ → Option Builder → Option (Out × ℤ)
set_to o rc none = none
set_to o rc (some b) = some (record o { builder = b }, rc)

abbrev pub referred : Out → Option (Builder × ℕ) → Option (Out × Bool)
referred o none = none
referred o (some (b, i)) = some (record o { builder = record b { refs = suc b.refs } }, true)

abbrev pub checked : Out → Ref → Option Ref → Option (Out × Bool)
checked o f none = some (record o { refmap = insert cmp_ref f f o.refmap }, false)
checked o f (some d) = referred o (lc_pushreference true o.builder d.refid)

-- `true` is SUCCESS, `false` FAIL. `lc_pushreference` has counted the reference already.
unfoldable pub ref_check : ℕ → Out → Option (Out × Bool)
ref_check p o =
    let f : Ref = record { key = p; refid = length o.builder.values } in
    checked o f (lookup cmp_ref f o.refmap)

abbrev pub unless_seen : (Out → Option (Out × ℤ)) → Option (Out × Bool) → Option (Out × ℤ)
unless_seen next none = none
unless_seen next (some (o, true)) = some (o, success)
unless_seen next (some (o, false)) = next o

abbrev pub then_next {ℓ} : {A : Type ℓ} → Option (Out × ℤ) → (Out → Option A) → Option A
then_next none next = none
then_next (some (o, rc)) next = next o

abbrev pub one_more : Option (Out × ℕ) → Option (Out × ℕ)
one_more none = none
one_more (some (o, n)) = some (o, suc n)

-- A value that others belong to: they are written behind it, and their number is set at its index.
abbrev pub completed :
    ℕ → (ℕ → ℕ → Builder → Option Builder) → ℤ → Option (Out × ℕ) → Option (Out × ℤ)
completed i finish rc none = none
completed i finish rc (some (o, n)) = set_to o rc (finish i n o.builder)

abbrev pub filled :
    (Out → Option (Out × ℕ))
    → (ℕ → ℕ → Builder → Option Builder)
    → (ℕ → ℤ)
    → Out
    → Option (Builder × ℕ)
    → Option (Out × ℤ)
filled parts finish rc o none = none
filled parts finish rc o (some (b, i)) =
    completed i finish (rc i) (parts (record o { builder = b }))

abbrev pub write_table : (Out → Option (Out × ℕ)) → ℕ → Out → Option (Out × ℤ)
write_table fields array o =
    filled fields (λ i n b. lc_settable b i n array) (λ i. success) o
      (lc_createtable true o.builder)

-- The result of the metatable's own `write_value` is the index that is marked.
abbrev pub marked : Option (Out × ℤ) → Option (Out × ℤ)
marked none = none
marked (some (o, pos i)) = set_to o success (lc_setmeta o.builder i)
marked (some (o, negsuc n)) = none

unfoldable mutual
  pub write_value : Lua → Out → Option (Out × ℤ)
  write_value nil o = pushed o (lc_pushnil true o.builder)
  write_value (boolean b) o = pushed o (lc_pushboolean true o.builder b)
  write_value (number n) o = pushed o (lc_pushnumber true o.builder n)
  write_value (string s) o = pushed o (lc_pushlstring true o.builder s (length s))
  write_value (table p fs array) o =
      unless_seen (write_table (write_fields fs) array) (ref_check p o)
  write_value (with_meta p fs array m) o =
      unless_seen (λ u. marked (then_next (write_table (write_fields fs) array u) (write_value m)))
        (ref_check p o)
  write_value (function code us) o =
      filled (write_upvalues us) (λ i n b. lc_setfunction b i n) pos o
        (lc_pushfunction true o.builder code)
  write_value unsaved o = some (o, err_unsupported)
  write_value other o = some (o, err_inval)

  -- The loop over `lua_next`, with `slots`.
  pub write_fields : Fields → Out → Option (Out × ℕ)
  write_fields no_fields o = some (o, 0)
  write_fields (field k v fs) o =
      one_more (then_next (then_next (write_value k o) (write_value v)) (write_fields fs))

  -- The loop over `lua_getupvalue`.
  pub write_upvalues : Upvalues → Out → Option (Out × ℕ)
  write_upvalues no_upvalues o = some (o, 0)
  write_upvalues (upvalue v us) o = one_more (then_next (write_value v o) (write_upvalues us))

unfoldable mutual
  pub write_argument : Argument → Out → Option (Out × ℤ)
  write_argument (value v) o = write_value v o
  write_argument (saved name xs) o =
      filled (write_arguments xs) (λ i n b. lc_setfunction b i n) (λ i. success) o
        (lc_pushuserdata true o.builder name (length name))

  -- The loop of `lua_newmessage`, and that over what `__save` returned.
  pub write_arguments : Arguments → Out → Option (Out × ℕ)
  write_arguments no_arguments o = some (o, 0)
  write_arguments (argument x xs) o = one_more (then_next (write_argument x o) (write_arguments xs))

abbrev pub begun : Out
begun = record { builder = msg_builder_init; refmap = [] }

abbrev pub message_of : Option (Out × ℕ) → Option Message
message_of none = none
message_of (some (o, n)) = msg_new o.builder

unfoldable pub lua_newmessage : Arguments → Option Message
lua_newmessage xs = message_of (write_arguments xs begun)
