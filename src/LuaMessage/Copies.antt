-- ===== src/LuaMessage/Copies.antt =====
-- src/lc_message.c: the copies of values that the receiver gets, and the branches of `decode_value`.
use casting.Base.{
  ℕ, suc, ◌+◌, ◌≤◌, ◌≡◌, refl, ap, subst, arith, Bool, true, false, Option, none, some, List, ◌∷◌,
  length, ℤ, success, ◌==◌, if◌then◌else◌,
}
use casting.Message.Values.{
  Value, value_type, value_is_meta, value_is_referenced, t_nil, t_true, t_false, t_number, t_string,
  t_table, t_function, t_userdata,
}
use casting.Message.Builder.{Cursor}
use casting.Message.Roundtrip.{Shows}
use casting.Message.Steps.{Ahead, msg_next-Ahead}
use casting.LuaMessage as LuaMessage
use casting.LuaMessage.{
  Lua, Fields, Upvalues, Argument, Arguments, function, unsaved, other, no_fields, field,
  no_upvalues, upvalue, value, saved, no_arguments, argument,
}
use casting.LuaMessage.Flat.{number_of, IsKey, IsTree, ArgumentIsTree, flat, flat_argument}
use casting.LuaMessage.Decode.{
  Got, Pairs, Gots, nil, boolean, number, string, table, chunk, loader, loaded, no_pairs, pair,
  no_gots, got, At, lua_push, set_in, appended, arguments_on, known, calls, table_loop,
  function_loop, userdata_loop, double_of, slots_of, upvals_of, pushes, switch, ending, blank,
  after_next, decode_value,
}

unfoldable mutual
  pub copy : Lua → Got
  copy LuaMessage.nil = nil
  copy (LuaMessage.boolean b) = boolean (if b == 0 then false else true)
  copy (LuaMessage.number n) = number n
  copy (LuaMessage.string s) = string s
  copy (LuaMessage.table p fs array) = table none (copy_fields fs no_pairs)
  copy (LuaMessage.with_meta p fs array m) = nil
  copy (function code us) = chunk code (copy_upvalues us no_gots)
  copy unsaved = nil
  copy other = nil

  pub copy_fields : Fields → Pairs → Pairs
  copy_fields no_fields ps = ps
  copy_fields (field k v fs) ps = copy_fields fs (pair ps (copy k) (copy v))

  pub copy_upvalues : Upvalues → Gots → Gots
  copy_upvalues no_upvalues gs = gs
  copy_upvalues (upvalue v us) gs = copy_upvalues us (got gs (copy v))

unfoldable mutual
  pub copy_argument : Argument → Got
  copy_argument (value v) = copy v
  copy_argument (saved name xs) = loaded name (copy_arguments xs no_gots)

  pub copy_arguments : Arguments → Gots → Gots
  copy_arguments no_arguments gs = gs
  copy_arguments (argument x xs) gs = copy_arguments xs (got gs (copy_argument x))

-- The stack with the arguments on it.
unfoldable pub received : Arguments → List Got → List Got
received no_arguments gs = gs
received (argument x xs) gs = received xs (copy_argument x ∷ gs)

pub set_in-copy :
    (k : Lua) (ks : List ℕ) (ps : Pairs) (v : Got)
    → IsTree k ks
    → IsKey k
    → set_in (table none ps) (copy k) v ≡ some (table none (pair ps (copy k) v))
unfolding copy IsTree
set_in-copy LuaMessage.nil ks ps v t h = absurd h
set_in-copy (LuaMessage.boolean b) ks ps v t h = refl
set_in-copy (LuaMessage.number n) ks ps v t h = refl
set_in-copy (LuaMessage.string s) ks ps v t h = refl
set_in-copy (LuaMessage.table p fs array) ks ps v t h = refl
set_in-copy (LuaMessage.with_meta p fs array m) ks ps v t h = absurd t
set_in-copy (function code us) ks ps v t h = refl
set_in-copy unsaved ks ps v t h = absurd t
set_in-copy other ks ps v t h = absurd t

pub arguments_on-received :
    (xs : Arguments) (k : ℕ) (gs rest : List Got) (acc : Gots)
    → arguments_on k gs ≡ some (acc, rest)
    → arguments_on (number_of xs + k) (received xs gs) ≡ some (copy_arguments xs acc, rest)
unfolding received copy_arguments
arguments_on-received no_arguments k gs rest acc e =
    let z : k ≡ 0 + k = omega arith in subst (λ k. arguments_on k gs ≡ some (acc, rest)) z e
arguments_on-received (argument x xs) k gs rest acc e =
    let z : number_of xs + suc k ≡ suc (number_of xs) + k = omega arith in
    subst
      (λ n.
        arguments_on n (received xs (copy_argument x ∷ gs))
        ≡ some (copy_arguments xs (got acc (copy_argument x)), rest))
      z
      (arguments_on-received xs (suc k) (copy_argument x ∷ gs) rest (got acc (copy_argument x))
        (ap (λ r. appended r (copy_argument x)) e))

pub flat-some : (v : Lua) (ks : List ℕ) → IsTree v ks → 1 ≤ length (flat v)
unfolding flat IsTree
flat-some LuaMessage.nil ks h = omega arith
flat-some (LuaMessage.boolean b) ks h = omega arith
flat-some (LuaMessage.number n) ks h = omega arith
flat-some (LuaMessage.string s) ks h = omega arith
flat-some (LuaMessage.table p fs array) ks h = omega arith
flat-some (LuaMessage.with_meta p fs array m) ks h = absurd h
flat-some (function code us) ks h = omega arith
flat-some unsaved ks h = absurd h
flat-some other ks h = absurd h

pub flat_argument-some :
    (x : Argument) (ks : List ℕ) → ArgumentIsTree x ks → 1 ≤ length (flat_argument x)
unfolding flat_argument ArgumentIsTree
flat_argument-some (value v) ks h = flat-some v ks h
flat_argument-some (saved name xs) ks h = omega arith

-- The branches, by the type that was read.
module _ (one : At → Option (At × ℤ)) (w : Value) (n : ℕ) (a : At) where
  pub switch_nil : w.type ≡ t_nil → switch one w n a ≡ pushes nil a
  unfolding switch value_type
  switch_nil e = rw e refl

  pub switch_flag :
      (b : Bool)
      → w.type ≡ (if b then t_false else t_true)
      → switch one w n a ≡ pushes (boolean (if b then false else true)) a
  unfolding switch value_type
  switch_flag true e = rw e refl
  switch_flag false e = rw e refl

  pub switch_number : w.type ≡ t_number → switch one w n a ≡ pushes (number (double_of w.payload)) a
  unfolding switch value_type
  switch_number e = rw e refl

  pub switch_string : w.type ≡ t_string → switch one w n a ≡ pushes (string w.ptr) a
  unfolding switch value_type
  switch_string e = rw e refl

  pub switch_table :
      w.type ≡ t_table
      → switch one w n a
        ≡ known (
            table_loop one
              (slots_of w.payload)
              (record a { stack = lua_push (table none no_pairs) a.stack }))
  unfolding switch value_type value_is_referenced
  switch_table e = rw e refl

  pub switch_function :
      w.type ≡ t_function
      → switch one w n a
        ≡ known (
            function_loop one
              (upvals_of w.payload)
              (record a { stack = lua_push (chunk w.ptr no_gots) a.stack }))
  unfolding switch value_type
  switch_function e = rw e refl

  pub switch_userdata :
      w.type ≡ t_userdata
      → switch one w n a
        ≡ known (
            calls (upvals_of w.payload) (
              userdata_loop one
                (upvals_of w.payload)
                (record a { stack = lua_push (loader w.ptr) a.stack })))
  unfolding switch value_type
  switch_userdata e = rw e refl

pub ending_plain :
    (w : Value) (t : ℕ) (a : At)
    → w.type ≡ t
    → value_is_meta t ≡ false
    → ending w (some (a, true)) ≡ some (a, success)
ending_plain w t a e f = rw (e, f) refl

-- The value is read, and the switch is next.
pub opened :
    (fuel : ℕ) (a : At) (v : Value) (vs : List Value)
    → Ahead a.cursor (v ∷ vs)
    → (w : Value) × (d : Cursor) × (decode_value (suc fuel) a
        ≡ ending w (switch (decode_value fuel) w a.cursor.seen (record a { cursor = d })))
      × Shows w v
      × Ahead d vs
unfolding decode_value
opened fuel a v vs h =
    let (d, w, e, shows, ahead) = msg_next-Ahead a.cursor blank v vs h in
    (w, d, ap (after_next (decode_value fuel) a) e, shows, ahead)
