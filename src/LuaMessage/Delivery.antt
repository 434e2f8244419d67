-- ===== src/LuaMessage/Delivery.antt =====
-- src/lc_message.c: from `lua_newmessage` to what `lua_decodemessage` leaves on the receiver's stack.
use casting.Base.{
  ℕ, ◌<◌, ◌^◌, zero, suc, ◌+◌, ◌≤◌, ◌≡◌, refl, sym, ap, ◌∙◌, subst, arith, Option, some, List, [],
  ◌∷◌, ◌++◌, append_assoc, length, length-append, ℤ, pos, ◌==◌, if◌then◌else◌,
}
use casting.Map.Sorted.{lookup}
use casting.Message.Values.{Value, kind, value_type, value_is_meta}
use casting.Message.Builder.{Cursor, Message, msg_builder_init, msg_cursor_init, msg_count}
use casting.Message.Counting.{msg_builder_init-IsCounted}
use casting.Message.Sending.{msg_new_lem}
use casting.Message.Steps.{Ahead, msg_next_stops}
use casting.LuaMessage.{
  Argument, Arguments, value, saved, no_arguments, argument, begun, message_of, lua_newmessage,
}
use casting.LuaMessage.Flat.{
  message_size, number_of, flat_argument, flat_arguments, after_argument, ArgumentIsTree,
  ArgumentsAreTrees,
}
use casting.LuaMessage.Filling.{IsGood}
use casting.LuaMessage.Trees.{arguments_write, up-pos}
use casting.LuaMessage.Decode.{
  Got, nil, loader, loaded, no_gots, called, moved, and_then, known, calls, userdata_loop,
  upvals_of, decode_value, decode_all, blank, after_next, round, lua_decodemessage, unpacked,
  is_zero, refs_table,
}
use casting.LuaMessage.Copies.{
  copy_argument, copy_arguments, received, arguments_on-received, flat_argument-some,
  switch_userdata, opened,
}
use casting.LuaMessage.Roundtrip.{at, Pushed, Looped, pushed_by, value_decodes}

loaded_by :
    (xs : Arguments) (name : List ℕ) (c : Cursor) (gs : List Got) (rs : List ℕ)
    → calls (number_of xs) (some (at c (received xs (loader name ∷ gs)) rs))
      ≡ some (at c (loaded name (copy_arguments xs no_gots) ∷ gs) rs)
loaded_by xs name c gs rs =
    let z : number_of xs + 0 ≡ number_of xs = omega arith in
    subst
      (λ n.
        calls n (some (at c (received xs (loader name ∷ gs)) rs))
        ≡ some (at c (loaded name (copy_arguments xs no_gots) ∷ gs) rs))
      z
      (ap (λ r. moved c (called (record { slots = received xs (loader name ∷ gs); stored = rs }) r))
        (arguments_on-received xs 0 (loader name ∷ gs) (loader name ∷ gs) no_gots refl))

mutual
  unfolding flat_argument flat_arguments copy_argument received ArgumentIsTree ArgumentsAreTrees
      kind value_type value_is_meta

  argument_decodes :
      (x : Argument) (ks : List ℕ) (fuel : ℕ) (c : Cursor) (gs : List Got) (rs : List ℕ)
      (vs : List Value)
      → ArgumentIsTree x ks
      → length (flat_argument x) ≤ suc fuel
      → Ahead c (flat_argument x ++ vs)
      → Pushed (suc fuel) c gs rs (copy_argument x) vs
  argument_decodes (value v) ks fuel c gs rs vs h l a = value_decodes v ks fuel c gs rs vs h l a
  argument_decodes (saved name xs) ks fuel c gs rs vs h l a =
      let (w, d, opens, shows, ahead) = opened fuel (at c gs rs) _ (flat_arguments xs ++ vs) a in
      let (e, loop, left) =
        arguments_decode xs ks fuel d (loader name ∷ gs) rs vs h.2 (omega (arith, l)) ahead in
      let one = decode_value fuel in
      pushed_by fuel c gs rs _ w _ d e vs opens
        (switch_userdata one w c.seen (at d gs rs) shows.0
          ∙ ap
              (λ p. known (
                calls (upvals_of p)
                  (userdata_loop one (upvals_of p) (at d (loader w.ptr ∷ gs) rs))))
              shows.1.0
          ∙ ap
              (λ s.
                known (
                  calls (number_of xs)
                    (userdata_loop one (number_of xs) (at d (loader s ∷ gs) rs))))
              shows.1.2
          ∙ ap (λ r. known (calls (number_of xs) r)) loop
          ∙ ap known (loaded_by xs name e gs rs))
        shows.0 refl left

  arguments_decode :
      (xs : Arguments) (ks : List ℕ) (fuel : ℕ) (c : Cursor) (gs : List Got) (rs : List ℕ)
      (vs : List Value)
      → ArgumentsAreTrees xs ks
      → length (flat_arguments xs) ≤ fuel
      → Ahead c (flat_arguments xs ++ vs)
      → Looped
          (userdata_loop (decode_value fuel) (number_of xs) (at c gs rs))
          (received xs gs)
          rs
          vs
  arguments_decode no_arguments ks fuel c gs rs vs h l a = (c, refl, a)
  arguments_decode (argument x xs) ks zero c gs rs vs h l a = absurd (
      let some_x = flat_argument-some x ks h.0 in
      omega (arith, some_x, l, length-append (flat_argument x) (flat_arguments xs)))
  arguments_decode (argument x xs) ks (suc fuel) c gs rs vs h l a =
      let sizes = length-append (flat_argument x) (flat_arguments xs) in
      let (d, e, b) =
        argument_decodes x ks fuel c gs rs (flat_arguments xs ++ vs) h.0 (omega (arith, l, sizes))
          (subst (Ahead c) (append_assoc (flat_argument x) (flat_arguments xs) vs) a) in
      let (d', loop, left) =
        arguments_decode xs (after_argument x ks) (suc fuel) d (copy_argument x ∷ gs) rs vs h.1
          (omega (arith, l, sizes)) b in
      (
        d',
        ap (λ r. and_then r (userdata_loop (decode_value (suc fuel)) (number_of xs))) e ∙ loop,
        left,
      )

-- The loop of `lua_decodemessage` over a whole message.
all_decode :
    (xs : Arguments) (ks : List ℕ) (fuel : ℕ) (c : Cursor) (gs : List Got) (rs : List ℕ)
    → ArgumentsAreTrees xs ks
    → length (flat_arguments xs) ≤ fuel
    → Ahead c (flat_arguments xs)
    → (d : Cursor) × (decode_all (suc fuel) (at c gs rs) ≡ some (at d (received xs gs) rs))
unfolding decode_all decode_value flat_arguments received ArgumentsAreTrees
all_decode no_arguments ks fuel c gs rs h l a = (
  c,
  ap (λ r. round (after_next (decode_value fuel) (at c gs rs) r) (decode_all fuel))
      (msg_next_stops c blank a),
)
all_decode (argument x xs) ks zero c gs rs h l a = absurd (
    let some_x = flat_argument-some x ks h.0 in
    omega (arith, some_x, l, length-append (flat_argument x) (flat_arguments xs)))
all_decode (argument x xs) ks (suc fuel) c gs rs h l a =
    let some_x = flat_argument-some x ks h.0 in
    let sizes = length-append (flat_argument x) (flat_arguments xs) in
    let (d, e, b) =
      argument_decodes x ks (suc fuel) c gs rs (flat_arguments xs) h.0 (omega (arith, l, sizes))
        a in
    let (d', rest) =
      all_decode xs (after_argument x ks) fuel d (copy_argument x ∷ gs) rs h.1
        (omega (arith, l, sizes, some_x)) b in
    (d', ap (λ r. round r (decode_all (suc fuel))) e ∙ rest)

-- What the receiver has on its stack: the copies, or nil for an empty message.
abbrev pub answer : Arguments → List Got → List Got × ℤ
answer no_arguments gs = (nil ∷ gs, pos 1)
answer (argument x xs) gs = (received (argument x xs) gs, pos (number_of (argument x xs)))

answers :
    (xs : Arguments) (fuel : ℕ) (m : Message) (gs : List Got)
    → m.count ≡ pos (number_of xs)
    → m.refs ≡ 0
    → (d : Cursor) × (decode_all fuel (at (msg_cursor_init m) gs [])
        ≡ some (at d (received xs gs) []))
    → lua_decodemessage fuel m gs ≡ some (answer xs gs)
unfolding lua_decodemessage msg_count
answers no_arguments fuel m gs n z (d, e) = rw n refl
answers (argument x xs) fuel m gs n z (d, e) =
    let entry : ℕ → List Got = λ r. if r == 0 then gs else refs_table ∷ gs in
    let run : List Got → Option (List Got × ℤ) =
      λ es. unpacked m (length es) (decode_all fuel (at (msg_cursor_init m) es [])) in
    let last : unpacked m (length gs) (some (at d (received (argument x xs) gs) []))
        ≡ some (answer (argument x xs) gs) =
      rw (z, n) refl in
    ap (λ k. if is_zero k then some (nil ∷ gs, pos 1) else run (entry m.refs)) n
    ∙ ap (λ r. run (entry r)) z
    ∙ ap (unpacked m (length gs)) e
    ∙ last

-- Where no table comes twice among the values and in them, none has a metatable, each is nil, a
-- boolean, a number, a string, a table, a function or, on the stack, a userdata with `__save`,
-- and the lengths, the numbers and the size of the message fit: `lua_newmessage`, with memory,
-- gives a message, from which `lua_decodemessage` pushes copies of the values in order, with
-- their pairs, upvalues and saved values in order, and returns their number; for an empty
-- message it pushes nil and returns 1.
pub lua_decodemessage-lua_newmessage :
    (xs : Arguments) (gs : List Got)
    → ArgumentsAreTrees xs []
    → message_size (flat_arguments xs) < 2 ^ 31
    → (m : Message) × (lua_newmessage xs ≡ some m)
      × (lua_decodemessage (suc (length (flat_arguments xs))) m gs ≡ some (answer xs gs))
unfolding lua_newmessage msg_builder_init msg_cursor_init lookup
lua_decodemessage-lua_newmessage xs gs h short =
    let start : IsGood begun [] = (msg_builder_init-IsCounted, (tt, λ f k. refl)) in
    let (u, e, (good, values, count, refs)) = arguments_write xs [] begun h start in
    let (m, made, encoded, sized, counted, kept) =
      msg_new_lem u.builder good.0 refs
        (subst (λ vs. message_size vs < 2 ^ 31) (sym values) short) in
    let ahead : Ahead (msg_cursor_init m) (flat_arguments xs) =
      subst (Ahead (msg_cursor_init m)) values (record {
        before = [];
        rest = m.contents;
        parts = refl;
        here = refl;
        sized = sized;
        encoded = encoded;
        fitting = good.0.fitting;
      }) in
    (
      m,
      ap message_of e ∙ made,
      answers xs (suc (length (flat_arguments xs))) m gs (counted ∙ count ∙ up-pos (number_of xs))
          (kept ∙ refs)
          (all_decode xs [] (length (flat_arguments xs)) (msg_cursor_init m) gs [] h (omega arith)
            ahead),
    )
