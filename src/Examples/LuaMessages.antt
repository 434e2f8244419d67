-- ===== src/Examples/LuaMessages.antt =====
-- src/lc_message.c on small inputs.
use casting.Message.Bytes.{to_bytes}
use casting.Message.Values.{t_table, slots_array, encode, kind, value_type, body}
use casting.Message.Builder.{msg_new, encode_all}
use casting.Message.Counting.{IsCounted, size_of}
use casting.LuaMessage.Flat.{plain, message_size, flat, flat_fields, flat_upvalues, flat_argument}
use casting.LuaMessage.Repeats.{ref_check_overruns}
use casting.Base.{
  ◌+◌, true, ◌<◌, ◌^◌, ℕ, suc, ◌≡◌, refl, arith, Option, none, some, List, [], ◌∷◌, length, pos,
  map,
}
use casting.Map.Sorted.{lookup, insert}
use casting.Message.Values.{Value, unset}
use casting.Message.Builder.{
  Message, next_index, fill, msg_builder_init, msg_count, msg_cursor_init, lc_pushnil,
  lc_createtable, lc_pushreference, referring, change_at, lc_settable, lc_setmeta,
}
use casting.Message.Sending.{read_values, Similar}
use casting.LuaMessage as LuaMessage
use casting.LuaMessage.{
  number, string, table, with_meta, function, no_fields, field, no_upvalues, upvalue, value, saved,
  no_arguments, argument, Lua, Arguments, Out, begun, cmp_ref, ref_check, write_value, write_fields,
  write_argument, write_arguments, lua_newmessage,
}
use casting.LuaMessage.Flat.{
  number_of, flat_arguments, after, after_fields, after_upvalues, after_argument, after_arguments,
  IsTree, AreTrees, UpvaluesAreTrees, ArgumentIsTree, ArgumentsAreTrees,
}
use casting.LuaMessage.Trees.{lua_newmessage-read_values}
use casting.LuaMessage.Decode as Decode
use casting.LuaMessage.Decode.{nil, loaded, chunk, no_pairs, pair, no_gots, got, lua_decodemessage}
use casting.LuaMessage.Copies.{
  copy, copy_fields, copy_upvalues, copy_argument, copy_arguments, received,
}
use casting.LuaMessage.Delivery.{answer, lua_decodemessage-lua_newmessage}

-- `{ 8, {} }`, a function with an upvalue, and a userdata whose `__save` returns a name and a string.
abbrev nested : Lua
nested =
    table 100 (field (number 1) (number 8) (field (number 2) (table 200 no_fields 0) no_fields)) 2

abbrev three : Arguments
three = argument (value nested) (
    argument (value (function (27 ∷ 76 ∷ []) (upvalue LuaMessage.nil no_upvalues)))
      (argument (saved (97 ∷ []) (argument (value (string (98 ∷ []))) no_arguments)) no_arguments))

abbrev blank : Value
blank = record { type = 0; payload = unset; len = 0; ptr = [] }

three-AreTrees : ArgumentsAreTrees three []
unfolding ArgumentsAreTrees ArgumentIsTree IsTree AreTrees UpvaluesAreTrees after after_fields
    after_upvalues after_argument after_arguments
three-AreTrees = (
  (
    tt,
    omega arith,
    omega arith,
    (
      omega arith,
      omega arith,
      (omega arith, ((λ e. omega arith, tt), omega arith, omega arith, tt), tt, tt),
      tt,
    ),
  ),
  ((omega arith, omega arith, (tt, tt)), ((omega arith, omega arith, (omega arith, tt)), tt)),
)

three-Fits : message_size (flat_arguments three) < 2 ^ 31
unfolding encode_all encode kind value_type body to_bytes flat flat_fields flat_upvalues
    flat_argument flat_arguments
three-Fits = omega arith

lua_newmessage-read_values_example :
    (m : Message) × (ws : List Value) × (lua_newmessage three ≡ some m)
    × (read_values (suc (length (flat_arguments three))) (msg_cursor_init m) blank ≡ some ws)
    × Similar ws (flat_arguments three)
    × (msg_count m ≡ pos (number_of three))
lua_newmessage-read_values_example =
    lua_newmessage-read_values three blank three-AreTrees three-Fits

lua_decodemessage-lua_newmessage_example :
    (m : Message) × (lua_newmessage three ≡ some m)
    × (lua_decodemessage (suc (length (flat_arguments three))) m (nil ∷ [])
        ≡ some (answer three (nil ∷ [])))
lua_decodemessage-lua_newmessage_example =
    lua_decodemessage-lua_newmessage three (nil ∷ []) three-AreTrees three-Fits

-- The copies that the receiver has.
three_copied : answer three [] ≡ (
  loaded (97 ∷ []) (got no_gots (Decode.string (98 ∷ [])))
      ∷ (chunk (27 ∷ 76 ∷ []) (got no_gots nil)
          ∷ (Decode.table none (
                pair
                  (pair no_pairs (Decode.number 1) (Decode.number 8))
                  (Decode.number 2)
                  (Decode.table none no_pairs))
              ∷ [])),
  pos 3,
)
unfolding copy copy_fields copy_upvalues copy_argument copy_arguments received
three_copied = refl

-- The same table twice: two references are counted for one, and the message does not fit.
abbrev refs_of : Option (Out × ℕ) → ℕ
refs_of none = 0
refs_of (some (o, n)) = o.builder.refs

-- After one table.
abbrev known_table : Out
known_table = record {
  builder = record {
    values = plain t_table (slots_array 0 0) 0 [] ∷ [];
    size = 16;
    bytes = 12;
    count = pos 1;
    refs = 0;
  };
  refmap = record { key = 100; refid = 0 } ∷ [];
}

known_table_written : write_value (table 100 no_fields 0) begun ≡ some (known_table, pos 0)
unfolding write_value write_fields ref_check lookup insert cmp_ref msg_builder_init next_index fill
    lc_createtable lc_settable change_at
known_table_written = refl

known_table-IsCounted : IsCounted known_table.builder
unfolding encode_all encode kind value_type body to_bytes
known_table-IsCounted = record {
  fitting = ((omega arith, (omega arith, omega arith)), tt);
  roomy = λ h. (omega arith, omega arith);
  bounded = omega arith;
  summed = refl;
}

known_table-Fits : size_of (encode_all known_table.builder.values) < 2 ^ 30
unfolding encode_all encode kind value_type body to_bytes
known_table-Fits = omega arith

known_table_found :
    lookup cmp_ref (record { key = 100; refid = 1 }) known_table.refmap
    ≡ some (record { key = 100; refid = 0 })
unfolding lookup cmp_ref
known_table_found = refl

ref_check_overruns_example :
    (u : Out) × (ref_check 100 known_table ≡ some (u, true))
    × (length u.builder.values ≡ 2)
    × (u.builder.refs ≡ 2)
    × ((bs : List ℕ) × (encode_all u.builder.values ≡ some bs) × (length bs ≡ u.builder.bytes + 4))
    × (msg_new u.builder ≡ none)
ref_check_overruns_example =
    ref_check_overruns 100 known_table (record { key = 100; refid = 0 })
      (plain t_table (slots_array 0 0) 0 []) known_table-IsCounted refl known_table-Fits
      known_table_found refl (omega arith)

abbrev twice : Arguments
twice =
    argument (value (table 100 no_fields 0)) (argument (value (table 100 no_fields 0)) no_arguments)

twice_refs : refs_of (write_arguments twice begun) ≡ 2
unfolding write_arguments write_argument write_value write_fields ref_check lookup insert cmp_ref
    msg_builder_init next_index fill lc_createtable lc_settable lc_pushreference referring change_at
twice_refs = refl

-- The metatable of the table at 1 marks the value at 0.
abbrev types_of : Option (Out × ℕ) → List ℕ
types_of none = []
types_of (some (o, n)) = map (λ v. v.type) o.builder.values

abbrev with_metatable : Arguments
with_metatable =
    argument (value LuaMessage.nil)
      (argument (value (with_meta 100 no_fields 0 (table 200 no_fields 0))) no_arguments)

with_metatable_types : types_of (write_arguments with_metatable begun) ≡ 65 ∷ (6 ∷ (6 ∷ []))
unfolding write_arguments write_argument write_value write_fields ref_check lookup insert cmp_ref
    msg_builder_init next_index fill lc_pushnil lc_createtable lc_settable lc_setmeta change_at
with_metatable_types = refl
