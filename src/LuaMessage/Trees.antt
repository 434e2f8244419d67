-- ===== src/LuaMessage/Trees.antt =====
-- src/lc_message.c: values that have no table twice and no metatable, written into a message and
-- read by `msg_next`.
use casting.Base.{
  ℕ, ◌<◌, ◌^◌, zero, suc, ◌+◌, ◌*◌, ◌≡◌, refl, sym, ap, ◌∙◌, subst, arith, false, Option, some,
  List, [], ◌∷◌, ◌++◌, append-nil, length, ℤ, pos, succ,
}
use casting.Map.Sorted.{lookup}
use casting.Message.Values.{Value, t_function, t_userdata, kind, value_type}
use casting.Message.Builder.{Message, msg_builder_init, msg_count, msg_cursor_init}
use casting.Message.Counting.{msg_builder_init-IsCounted}
use casting.Message.Pushes.{push, nil, boolean, number, lstring, createtable, userdata}
use casting.Message.Pushes as Pushes
use casting.Message.Sending.{read_values, Similar, read_values-msg_new}
use casting.LuaMessage as LuaMessage
use casting.LuaMessage.{
  Lua, Fields, Upvalues, Argument, Arguments, table, with_meta, function, string, unsaved, other,
  no_fields, field, no_upvalues, upvalue, value, saved, no_arguments, argument, Ref, Out, checked,
  ref_check, unless_seen, then_next, one_more, write_table, write_value, write_fields,
  write_upvalues, write_argument, write_arguments, begun, message_of, lua_newmessage, success,
}
use casting.LuaMessage.Flat.{
  message_size, slots, nups, number_of, flat, flat_fields, flat_upvalues, flat_argument,
  flat_arguments, after, after_fields, after_upvalues, after_argument, after_arguments, IsTree,
  AreTrees, UpvaluesAreTrees, ArgumentIsTree, ArgumentsAreTrees, Fresh,
}
use casting.LuaMessage.Filling.{
  up, insert-Knows, IsGood, Grown, Written, AllWritten, Grown-Grown, push-Written, filled-Written,
  settable-Finishes, setfunction-Finishes,
}

-- A table that is new.
ref_check_new :
    (p : ℕ) (ks : List ℕ) (o : Out)
    → IsGood o ks
    → Fresh p ks
    → (u : Out) × (ref_check p o ≡ some (u, false)) × (u.builder ≡ o.builder) × IsGood u (p ∷ ks)
unfolding ref_check
ref_check_new p ks o g h =
    let f : Ref = record { key = p; refid = length o.builder.values } in
    let e = g.1.1 f h in (_, ap (checked o f) e, refl, (g.0, insert-Knows f ks o.refmap g.1))

none_written : (o : Out) (ks : List ℕ) → IsGood o ks → AllWritten (some (o, 0)) o 0 0 [] ks
none_written o ks g = (o, refl, (g, sym (append-nil o.builder.values), refl, refl))

-- One value and then the others.
then-AllWritten :
    (r : Option (Out × ℤ)) (next : Out → Option (Out × ℕ)) (o : Out) (n : ℕ) (vs ws : List Value)
    (ks ls : List ℕ)
    → Written r o vs ks
    → ((u : Out) → IsGood u ks → AllWritten (next u) u n n ws ls)
    → AllWritten (one_more (then_next r next)) o (suc n) (suc n) (vs ++ ws) ls
then-AllWritten r next o n vs ws ks ls (u, rc, e, a) go =
    let (w, f, b) = go u a.0 in
    let c = Grown-Grown o u w 1 n vs ws ks ls a b in
    let k : n + 1 ≡ suc n = omega arith in
    (
      w,
      ap (λ r. one_more (then_next r next)) e ∙ ap one_more f,
      subst (λ m. Grown o m (vs ++ ws) ls w) k c,
    )

-- A key, its value and then the other pairs.
pair-AllWritten :
    (r : Option (Out × ℤ)) (second : Out → Option (Out × ℤ)) (next : Out → Option (Out × ℕ))
    (o : Out) (n : ℕ) (vs ws xs : List Value) (ks ls ms : List ℕ)
    → Written r o vs ks
    → ((u : Out) → IsGood u ks → Written (second u) u ws ls)
    → ((u : Out) → IsGood u ls → AllWritten (next u) u n (n * 2) xs ms)
    → AllWritten
        (one_more (then_next (then_next r second) next))
        o
        (suc n)
        (suc n * 2)
        (vs ++ (ws ++ xs))
        ms
pair-AllWritten r second next o n vs ws xs ks ls ms (u, rc, e, a) go rest =
    let (w, rc', f, b) = go u a.0 in
    let (z, g, c) = rest w b.0 in
    let bc = Grown-Grown u w z 1 (n * 2) ws xs ls ms b c in
    let d = Grown-Grown o u z 1 (n * 2 + 1) vs (ws ++ xs) ks ms a bc in
    let k : n * 2 + 1 + 1 ≡ suc n * 2 = omega arith in
    (
      z,
      ap (λ r. one_more (then_next (then_next r second) next)) e
          ∙ ap (λ r. one_more (then_next r next)) f
          ∙ ap one_more g,
      subst (λ m. Grown o m (vs ++ (ws ++ xs)) ms z) k d,
    )

mutual
  unfolding write_value write_fields write_upvalues flat flat_fields flat_upvalues after
      after_fields after_upvalues IsTree AreTrees UpvaluesAreTrees push kind value_type

  value_writes :
      (v : Lua) (ks : List ℕ) (o : Out)
      → IsTree v ks
      → IsGood o ks
      → Written (write_value v o) o (flat v) (after v ks)
  value_writes LuaMessage.nil ks o h g = push-Written nil o ks tt g
  value_writes (LuaMessage.boolean b) ks o h g = push-Written (boolean b) o ks tt g
  value_writes (LuaMessage.number n) ks o h g = push-Written (number n) o ks h g
  value_writes (string s) ks o h g = push-Written (lstring s (length s)) o ks (h, refl) g
  value_writes (table p fs array) ks o h g =
      let (u, e, same, good) = ref_check_new p ks o g h.0 in
      let (w, rc, f, grown) =
        filled-Written (write_fields fs) _ (λ i. success) createtable _ (slots fs) (slots fs * 2)
          (flat_fields fs) u (p ∷ ks) (after_fields fs (p ∷ ks)) tt good
          (λ u g. fields_write fs (p ∷ ks) u h.3 g) (settable-Finishes (slots fs) array h.1 h.2) in
      (
        w,
        rc,
        ap (unless_seen (write_table (write_fields fs) array)) e ∙ f,
        subst
            (λ b.
              Grown (record o { builder = b }) 1 (flat (table p fs array))
                (after_fields fs (p ∷ ks)) w)
            same grown,
      )
  value_writes (with_meta p fs array m) ks o h g = absurd h
  value_writes (function code us) ks o h g =
      filled-Written (write_upvalues us) _ pos (Pushes.function code) _ (nups us) (nups us)
        (flat_upvalues us) o ks (after_upvalues us ks) h.0 g (λ u g. upvalues_write us ks u h.2 g)
        (setfunction-Finishes t_function (length code) (nups us) code h.1 refl)
  value_writes unsaved ks o h g = absurd h
  value_writes other ks o h g = absurd h

  fields_write :
      (fs : Fields) (ks : List ℕ) (o : Out)
      → AreTrees fs ks
      → IsGood o ks
      → AllWritten
          (write_fields fs o)
          o
          (slots fs)
          (slots fs * 2)
          (flat_fields fs)
          (after_fields fs ks)
  fields_write no_fields ks o h g = none_written o ks g
  fields_write (field k v fs) ks o h g =
      pair-AllWritten (write_value k o) (write_value v) (write_fields fs) o (slots fs) (flat k)
        (flat v) (flat_fields fs) (after k ks) (after v (after k ks)) _ (value_writes k ks o h.0 g)
        (λ u g. value_writes v (after k ks) u h.1 g)
        (λ u g. fields_write fs (after v (after k ks)) u h.2 g)

  upvalues_write :
      (us : Upvalues) (ks : List ℕ) (o : Out)
      → UpvaluesAreTrees us ks
      → IsGood o ks
      → AllWritten
          (write_upvalues us o)
          o
          (nups us)
          (nups us)
          (flat_upvalues us)
          (after_upvalues us ks)
  upvalues_write no_upvalues ks o h g = none_written o ks g
  upvalues_write (upvalue v us) ks o h g =
      then-AllWritten (write_value v o) (write_upvalues us) o (nups us) (flat v) (flat_upvalues us)
        (after v ks) _ (value_writes v ks o h.0 g) (λ u g. upvalues_write us (after v ks) u h.1 g)

mutual
  unfolding write_argument write_arguments flat_argument flat_arguments after_argument
      after_arguments ArgumentIsTree ArgumentsAreTrees push kind value_type

  argument_writes :
      (x : Argument) (ks : List ℕ) (o : Out)
      → ArgumentIsTree x ks
      → IsGood o ks
      → Written (write_argument x o) o (flat_argument x) (after_argument x ks)
  argument_writes (value v) ks o h g = value_writes v ks o h g
  argument_writes (saved name xs) ks o h g =
      filled-Written (write_arguments xs) _ (λ i. success) (userdata name (length name)) _
        (number_of xs) (number_of xs) (flat_arguments xs) o ks (after_arguments xs ks) (h.0, refl) g
        (λ u g. arguments_write xs ks u h.2 g)
        (setfunction-Finishes t_userdata (length name) (number_of xs) name h.1 refl)

  pub arguments_write :
      (xs : Arguments) (ks : List ℕ) (o : Out)
      → ArgumentsAreTrees xs ks
      → IsGood o ks
      → AllWritten
          (write_arguments xs o)
          o
          (number_of xs)
          (number_of xs)
          (flat_arguments xs)
          (after_arguments xs ks)
  arguments_write no_arguments ks o h g = none_written o ks g
  arguments_write (argument x xs) ks o h g =
      then-AllWritten (write_argument x o) (write_arguments xs) o (number_of xs) (flat_argument x)
        (flat_arguments xs) (after_argument x ks) _ (argument_writes x ks o h.0 g)
        (λ u g. arguments_write xs (after_argument x ks) u h.1 g)

pub up-pos : (n : ℕ) → up (pos 0) n ≡ pos n
up-pos zero = refl
up-pos (suc n) = ap succ (up-pos n)

-- Where no table comes twice among the values and in them, none has a metatable, each is nil, a
-- boolean, a number, a string, a table, a function or, on the stack, a userdata with `__save`,
-- and the lengths, the numbers and the size of the message fit: `lua_newmessage`, with memory,
-- gives a message whose count is the number of the values on the stack. Calls of `msg_next`
-- read, until the first -1, each of them followed by the pairs, upvalues or saved values that
-- belong to it, which its own value numbers.
pub lua_newmessage-read_values :
    (xs : Arguments) (old : Value)
    → ArgumentsAreTrees xs []
    → message_size (flat_arguments xs) < 2 ^ 31
    → (m : Message) × (ws : List Value) × (lua_newmessage xs ≡ some m)
      × (read_values (suc (length (flat_arguments xs))) (msg_cursor_init m) old ≡ some ws)
      × Similar ws (flat_arguments xs)
      × (msg_count m ≡ pos (number_of xs))
unfolding lua_newmessage msg_builder_init msg_count lookup
lua_newmessage-read_values xs old h short =
    let start : IsGood begun [] = (msg_builder_init-IsCounted, (tt, λ f k. refl)) in
    let (u, e, (good, values, count, refs)) = arguments_write xs [] begun h start in
    let (m, ws, made, read, same, counted) =
      read_values-msg_new u.builder old good.0 refs
        (subst (λ vs. message_size vs < 2 ^ 31) (sym values) short) in
    (
      m,
      ws,
      ap message_of e ∙ made,
      subst (λ vs. read_values (suc (length vs)) (msg_cursor_init m) old ≡ some ws) values read,
      subst (Similar ws) values same,
      counted ∙ count ∙ up-pos (number_of xs),
    )
