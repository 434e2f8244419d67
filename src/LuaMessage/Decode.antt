-- ===== src/LuaMessage/Decode.antt =====
-- src/lc_message.c: the values of a message are pushed on a Lua stack.
use casting.Base.{
  ℕ, zero, suc, ◌-◌, ◌==◌, Bool, true, false, Option, none, some, List, [], ◌∷◌, length,
  if◌then◌else◌, ℤ, pos, negsuc, success, fail,
}
use casting.Message.Values.{
  Value, Payload, unset, double, ref, upvals, slots_array, value_type, value_is_meta,
  value_is_referenced, t_nil, t_true, t_false, t_number, t_string, t_table, t_function, t_userdata,
  t_reference,
}
use casting.Message.Builder.{Message, Cursor, msg_next, msg_cursor_init, msg_count}

-- A value of the receiver is the term of the calls of Lua that make it. A table has its index in the
-- table of references, if it was stored there, and its pairs in the order of `lua_rawset`; `shared`
-- is the table that is stored under an index. `chunk` is what `luaL_loadbuffer` makes of a dump, with
-- the upvalues set, `loader` the `__load` of a name, and `loaded` the result of its call.
mutual
  pub data Got : Type 0 where
    nil refs_table : Got
    boolean : Bool → Got
    number shared : ℕ → Got
    string loader : List ℕ → Got
    table : Option ℕ → Pairs → Got
    with_meta : Got → Got → Got
    chunk loaded : List ℕ → Gots → Got

  -- The last one is outermost.
  pub data Pairs : Type 0 where
    no_pairs : Pairs
    pair : Pairs → Got → Got → Pairs

  pub data Gots : Type 0 where
    no_gots : Gots
    got : Gots → Got → Gots

-- The stack, its top first, with the indices that the table of references has. `none` is a use of
-- the stack that Lua answers with an error or that is outside of it.
pub record Stack : Type 0 where
  pub slots : List Got
  pub stored : List ℕ

pub record At : Type 0 where
  pub cursor : Cursor
  pub stack : Stack

abbrev pub lua_push : Got → Stack → Stack
lua_push g s = record s { slots = g ∷ s.slots }

abbrev pub set_in : Got → Got → Got → Option Got
set_in (table r ps) nil v = none
set_in (table r ps) k v = some (table r (pair ps k v))
set_in g k v = none

abbrev pub with_top : Stack → List Got → Option Got → Option Stack
with_top s gs none = none
with_top s gs (some g) = some (record s { slots = g ∷ gs })

abbrev pub rawset_on : Stack → List Got → Option Stack
rawset_on s (v ∷ (k ∷ (t ∷ gs))) = with_top s gs (set_in t k v)
rawset_on s gs = none

abbrev pub lua_rawset : Stack → Option Stack
lua_rawset s = rawset_on s s.slots

abbrev pub upvalue_in : Got → Got → Option Got
upvalue_in (chunk code us) v = some (chunk code (got us v))
upvalue_in g v = none

abbrev pub upvalue_on : Stack → List Got → Option Stack
upvalue_on s (v ∷ (f ∷ gs)) = with_top s gs (upvalue_in f v)
upvalue_on s gs = none

abbrev pub lua_setupvalue : Stack → Option Stack
lua_setupvalue s = upvalue_on s s.slots

abbrev pub meta_on : Stack → List Got → Option Stack
meta_on s (m ∷ (g ∷ gs)) = some (record s { slots = with_meta g m ∷ gs })
meta_on s gs = none

abbrev pub lua_setmetatable : Stack → Option Stack
lua_setmetatable s = meta_on s s.slots

-- The arguments of a call, from the top.
abbrev pub appended : Option (Gots × List Got) → Got → Option (Gots × List Got)
appended none g = none
appended (some (xs, gs)) g = some (got xs g, gs)

abbrev pub arguments_on : ℕ → List Got → Option (Gots × List Got)
arguments_on zero gs = some (no_gots, gs)
arguments_on (suc n) [] = none
arguments_on (suc n) (g ∷ gs) = appended (arguments_on n gs) g

abbrev pub called : Stack → Option (Gots × List Got) → Option Stack
called s (some (xs, loader name ∷ gs)) = some (record s { slots = loaded name xs ∷ gs })
called s r = none

abbrev pub lua_call : ℕ → Stack → Option Stack
lua_call n s = called s (arguments_on n s.slots)

abbrev pub moved : Cursor → Option Stack → Option At
moved c none = none
moved c (some s) = some (record { cursor = c; stack = s })

-- The result of an inner `decode_value` is not looked at.
abbrev pub and_then : Option (At × ℤ) → (At → Option At) → Option At
and_then none next = none
and_then (some (a, rc)) next = next a

abbrev pub into_next : Option At → (At → Option At) → Option At
into_next none next = none
into_next (some a) next = next a

abbrev pub into_last : Option (At × ℤ) → (At → Option (At × ℤ)) → Option (At × ℤ)
into_last none next = none
into_last (some (a, rc)) next = next a

-- The loops of a table, of a function and of a userdata, with `decode_value` as an argument. The numbers
-- are `int`s of a message and taken to be below 2^31, as `lua_newmessage` writes them for values of
-- sizes that fit an `int`.
abbrev pub table_loop : (At → Option (At × ℤ)) → ℕ → At → Option At
table_loop one zero a = some a
table_loop one (suc n) a =
    into_next (and_then (into_last (one a) one) (λ b. moved b.cursor (lua_rawset b.stack)))
      (table_loop one n)

abbrev pub function_loop : (At → Option (At × ℤ)) → ℕ → At → Option At
function_loop one zero a = some a
function_loop one (suc n) a =
    into_next (and_then (one a) (λ b. moved b.cursor (lua_setupvalue b.stack)))
      (function_loop one n)

abbrev pub userdata_loop : (At → Option (At × ℤ)) → ℕ → At → Option At
userdata_loop one zero a = some a
userdata_loop one (suc n) a = and_then (one a) (userdata_loop one n)

abbrev pub double_of : Payload → ℕ
double_of (double n) = n
double_of p = 0

abbrev pub slots_of : Payload → ℕ
slots_of (slots_array s a) = s
slots_of p = 0

abbrev pub upvals_of : Payload → ℕ
upvals_of (upvals n) = n
upvals_of p = 0

abbrev pub ref_of : Payload → ℕ
ref_of (ref r) = r
ref_of p = 0

abbrev pub has : ℕ → List ℕ → Bool
has r [] = false
has r (x ∷ xs) = if x == r then true else has r xs

-- `lua_createtable` with the storing of a table that is referenced.
abbrev pub new_table : Value → ℕ → Stack → Stack
new_table v count s =
    if value_is_referenced v.type
    then record s { slots = table (some count) no_pairs ∷ s.slots; stored = count ∷ s.stored }
    else lua_push (table none no_pairs) s

abbrev pub pushes : Got → At → Option (At × Bool)
pushes g a = some (record a { stack = lua_push g a.stack }, true)

abbrev pub known : Option At → Option (At × Bool)
known none = none
known (some a) = some (a, true)

abbrev pub calls : ℕ → Option At → Option At
calls n none = none
calls n (some a) = moved a.cursor (lua_call n a.stack)

-- The switch; `false` is its default.
unfoldable pub switch : (At → Option (At × ℤ)) → Value → ℕ → At → Option (At × Bool)
switch one v count a =
    if value_type v.type == t_nil
    then pushes nil a
    else if value_type v.type == t_true
    then pushes (boolean true) a
    else if value_type v.type == t_false
    then pushes (boolean false) a
    else if value_type v.type == t_number
    then pushes (number (double_of v.payload)) a
    else if value_type v.type == t_string
    then pushes (string v.ptr) a
    else if value_type v.type == t_table
    then known
        (table_loop one (slots_of v.payload) (record a { stack = new_table v count a.stack }))
    else if value_type v.type == t_function
    then known (
        function_loop one (upvals_of v.payload)
          (record a { stack = lua_push (chunk v.ptr no_gots) a.stack }))
    else if value_type v.type == t_userdata
    then known (
        calls (upvals_of v.payload) (
          userdata_loop one (upvals_of v.payload)
            (record a { stack = lua_push (loader v.ptr) a.stack })))
    else if value_type v.type == t_reference
    then pushes (if has (ref_of v.payload) a.stack.stored then shared (ref_of v.payload) else nil) a
    else some (a, false)

abbrev pub succeeded : Option At → Option (At × ℤ)
succeeded none = none
succeeded (some a) = some (a, success)

abbrev pub ending : Value → Option (At × Bool) → Option (At × ℤ)
ending v none = none
ending v (some (a, false)) = some (a, fail)
ending v (some (a, true)) =
    if value_is_meta v.type
    then succeeded (moved a.cursor (lua_setmetatable a.stack))
    else some (a, success)

abbrev pub blank : Value
blank = record { type = 0; payload = unset; len = 0; ptr = [] }

abbrev pub after_next : (At → Option (At × ℤ)) → At → Option (Cursor × Value × ℤ) → Option (At × ℤ)
after_next one a none = none
after_next one a (some (c, v, negsuc n)) = some (record a { cursor = c }, fail)
after_next one a (some (c, v, pos n)) = ending v (switch one v n (record a { cursor = c }))

-- On fuel: each call reads a value, or ends.
unfoldable pub decode_value : ℕ → At → Option (At × ℤ)
decode_value zero a = none
decode_value (suc fuel) a = after_next (decode_value fuel) a (msg_next a.cursor blank)

abbrev pub round : Option (At × ℤ) → (At → Option At) → Option At
round none next = none
round (some (a, pos n)) next = next a
round (some (a, negsuc n)) next = some a

unfoldable pub decode_all : ℕ → At → Option At
decode_all zero a = none
decode_all (suc fuel) a = round (decode_value (suc fuel) a) (decode_all fuel)

-- `lua_remove` by the index from the bottom.
abbrev pub remove_nth : ℕ → List Got → Option (List Got)
remove_nth n [] = none
remove_nth zero (g ∷ gs) = some gs
remove_nth (suc n) (g ∷ gs) = elim (remove_nth n gs) [ none ↦ none | some xs ↦ some (g ∷ xs) ]

abbrev pub lua_remove : ℕ → List Got → Option (List Got)
lua_remove i gs = if i == 0 then none else remove_nth (length gs - i) gs

abbrev pub unpacked : Message → ℕ → Option At → Option (List Got × ℤ)
unpacked m top none = none
unpacked m top (some a) =
    if m.refs == 0
    then some (a.stack.slots, msg_count m)
    else elim (lua_remove (top - 1) a.stack.slots) [
      | none ↦ none
      | some gs ↦ some (gs, msg_count m)
    ]

abbrev pub entry_stack : Message → List Got → List Got
entry_stack m gs = if m.refs == 0 then gs else refs_table ∷ gs

abbrev pub is_zero : ℤ → Bool
is_zero (pos zero) = true
is_zero z = false

-- The stack that is left with the number of results.
unfoldable pub lua_decodemessage : ℕ → Message → List Got → Option (List Got × ℤ)
lua_decodemessage fuel m gs =
    if is_zero m.count
    then some (nil ∷ gs, pos 1)
    else unpacked m (length (entry_stack m gs)) (
        decode_all fuel (record {
          cursor = msg_cursor_init m;
          stack = record { slots = entry_stack m gs; stored = [] };
        }))
