-- ===== src/LuaMessage/Roundtrip.antt =====
-- src/lc_message.c: `lua_decodemessage` gives copies of what `lua_newmessage` wrote.
use casting.Base.{
  ℕ, zero, suc, ◌≤◌, ◌≡◌, refl, ap, ◌∙◌, subst, arith, Bool, true, false, Option, none, some, List,
  [], ◌∷◌, ◌++◌, append_assoc, length, length-append, success, ◌==◌, if◌then◌else◌,
}
use casting.Message.Values.{Value, kind, value_type, value_is_meta, t_true, t_false}
use casting.Message.Builder.{Cursor}
use casting.Message.Steps.{Ahead}
use casting.LuaMessage as LuaMessage
use casting.LuaMessage.{
  Lua, Fields, Upvalues, function, unsaved, other, no_fields, field, no_upvalues, upvalue,
}
use casting.LuaMessage.Flat.{
  slots, nups, flat, flat_fields, flat_upvalues, after, IsTree, AreTrees, UpvaluesAreTrees,
}
use casting.LuaMessage.Decode.{
  Got, Pairs, Gots, nil, number, string, table, chunk, no_pairs, pair, no_gots, got, At, lua_rawset,
  lua_setupvalue, with_top, moved, into_next, into_last, and_then, known, table_loop, function_loop,
  double_of, slots_of, upvals_of, switch, ending, decode_value,
}
use casting.LuaMessage.Copies.{
  copy, copy_fields, copy_upvalues, set_in-copy, flat-some, switch_nil, switch_flag, switch_number,
  switch_string, switch_table, switch_function, ending_plain, opened,
}

-- A place in the message, with the stack and what the table of references has.
abbrev pub at : Cursor → List Got → List ℕ → At
at c gs rs = record { cursor = c; stack = record { slots = gs; stored = rs } }

-- One call pushes `g`, and the values `vs` are left.
abbrev pub Pushed : ℕ → Cursor → List Got → List ℕ → Got → List Value → Type 0
Pushed fuel c gs rs g vs =
    (d : Cursor) × (decode_value fuel (at c gs rs) ≡ some (at d (g ∷ gs) rs, success)) × Ahead d vs

abbrev pub Looped : Option At → List Got → List ℕ → List Value → Type 0
Looped r gs rs vs = (d : Cursor) × (r ≡ some (at d gs rs)) × Ahead d vs

-- What an `ending` needs of the switch.
pub pushed_by :
    (fuel : ℕ) (c : Cursor) (gs : List Got) (rs : List ℕ) (g : Got) (w : Value) (t : ℕ)
    (d e : Cursor) (vs : List Value)
    → decode_value (suc fuel) (at c gs rs)
      ≡ ending w (switch (decode_value fuel) w c.seen (at d gs rs))
    → switch (decode_value fuel) w c.seen (at d gs rs) ≡ some (at e (g ∷ gs) rs, true)
    → w.type ≡ t
    → value_is_meta t ≡ false
    → Ahead e vs
    → Pushed (suc fuel) c gs rs g vs
pushed_by fuel c gs rs g w t d e vs opens by typed plain ahead =
    (e, opens ∙ ap (ending w) by ∙ ending_plain w t (at e (g ∷ gs) rs) typed plain, ahead)

flag_is : (b : Bool) → value_is_meta (if b then t_false else t_true) ≡ false
unfolding value_is_meta
flag_is true = refl
flag_is false = refl

mutual
  unfolding flat flat_fields flat_upvalues copy copy_fields copy_upvalues IsTree AreTrees
      UpvaluesAreTrees kind value_type value_is_meta

  pub value_decodes :
      (v : Lua) (ks : List ℕ) (fuel : ℕ) (c : Cursor) (gs : List Got) (rs : List ℕ)
      (vs : List Value)
      → IsTree v ks
      → length (flat v) ≤ suc fuel
      → Ahead c (flat v ++ vs)
      → Pushed (suc fuel) c gs rs (copy v) vs
  value_decodes LuaMessage.nil ks fuel c gs rs vs h l a =
      let (w, d, opens, shows, ahead) = opened fuel (at c gs rs) _ vs a in
      pushed_by fuel c gs rs nil w _ d d vs opens
        (switch_nil (decode_value fuel) w c.seen (at d gs rs) shows.0) shows.0 refl ahead
  value_decodes (LuaMessage.boolean b) ks fuel c gs rs vs h l a =
      let (w, d, opens, shows, ahead) = opened fuel (at c gs rs) _ vs a in
      pushed_by fuel c gs rs _ w _ d d vs opens
        (switch_flag (decode_value fuel) w c.seen (at d gs rs) (b == 0) shows.0) shows.0
        (flag_is (b == 0)) ahead
  value_decodes (LuaMessage.number n) ks fuel c gs rs vs h l a =
      let (w, d, opens, shows, ahead) = opened fuel (at c gs rs) _ vs a in
      pushed_by fuel c gs rs _ w _ d d vs opens
        (switch_number (decode_value fuel) w c.seen (at d gs rs) shows.0
          ∙ ap (λ p. some (at d (number (double_of p) ∷ gs) rs, true)) shows.1)
        shows.0 refl ahead
  value_decodes (LuaMessage.string s) ks fuel c gs rs vs h l a =
      let (w, d, opens, shows, ahead) = opened fuel (at c gs rs) _ vs a in
      pushed_by fuel c gs rs _ w _ d d vs opens
        (switch_string (decode_value fuel) w c.seen (at d gs rs) shows.0
          ∙ ap (λ p. some (at d (string p ∷ gs) rs, true)) shows.1.1)
        shows.0 refl ahead
  value_decodes (LuaMessage.table p fs array) ks fuel c gs rs vs h l a =
      let (w, d, opens, shows, ahead) = opened fuel (at c gs rs) _ (flat_fields fs ++ vs) a in
      let (e, loop, left) =
        fields_decode fs (p ∷ ks) fuel d gs rs no_pairs vs h.3 (omega (arith, l)) ahead in
      pushed_by fuel c gs rs _ w _ d e vs opens
        (switch_table (decode_value fuel) w c.seen (at d gs rs) shows.0
          ∙ ap
              (λ p.
                known (
                  table_loop (decode_value fuel) (slots_of p) (at d (table none no_pairs ∷ gs) rs)))
              shows.1
          ∙ ap known loop)
        shows.0 refl left
  value_decodes (LuaMessage.with_meta p fs array m) ks fuel c gs rs vs h l a = absurd h
  value_decodes (function code us) ks fuel c gs rs vs h l a =
      let (w, d, opens, shows, ahead) = opened fuel (at c gs rs) _ (flat_upvalues us ++ vs) a in
      let (e, loop, left) =
        upvalues_decode us ks fuel d gs rs code no_gots vs h.2 (omega (arith, l)) ahead in
      pushed_by fuel c gs rs _ w _ d e vs opens
        (switch_function (decode_value fuel) w c.seen (at d gs rs) shows.0
          ∙ ap
              (λ p. known (
                function_loop (decode_value fuel) (upvals_of p)
                  (at d (chunk w.ptr no_gots ∷ gs) rs)))
              shows.1.0
          ∙ ap
              (λ s.
                known
                  (function_loop (decode_value fuel) (nups us) (at d (chunk s no_gots ∷ gs) rs)))
              shows.1.2
          ∙ ap known loop)
        shows.0 refl left
  value_decodes unsaved ks fuel c gs rs vs h l a = absurd h
  value_decodes other ks fuel c gs rs vs h l a = absurd h

  fields_decode :
      (fs : Fields) (ks : List ℕ) (fuel : ℕ) (c : Cursor) (gs : List Got) (rs : List ℕ) (ps : Pairs)
      (vs : List Value)
      → AreTrees fs ks
      → length (flat_fields fs) ≤ fuel
      → Ahead c (flat_fields fs ++ vs)
      → Looped
          (table_loop (decode_value fuel) (slots fs) (at c (table none ps ∷ gs) rs))
          (table none (copy_fields fs ps) ∷ gs)
          rs
          vs
  fields_decode no_fields ks fuel c gs rs ps vs h l a = (c, refl, a)
  fields_decode (field k v fs) ks zero c gs rs ps vs h l a = absurd (
      let some_k = flat-some k ks h.0 in
      omega (arith, some_k, l, length-append (flat k) (flat v ++ flat_fields fs)))
  fields_decode (field k v fs) ks (suc fuel) c gs rs ps vs h l a =
      let sizes = length-append (flat k) (flat v ++ flat_fields fs) in
      let sizes' = length-append (flat v) (flat_fields fs) in
      let split =
        append_assoc (flat k) (flat v ++ flat_fields fs) vs
        ∙ ap (λ xs. flat k ++ xs) (append_assoc (flat v) (flat_fields fs) vs) in
      let one = decode_value (suc fuel) in
      let (d, e, b) =
        value_decodes k ks fuel c (table none ps ∷ gs) rs (flat v ++ (flat_fields fs ++ vs)) h.0
          (omega (arith, l, sizes)) (subst (Ahead c) split a) in
      let (d', e', b') =
        value_decodes v (after k ks) fuel d (copy k ∷ (table none ps ∷ gs)) rs
          (flat_fields fs ++ vs) h.1 (omega (arith, l, sizes, sizes')) b in
      let (d'', loop, left) =
        fields_decode fs (after v (after k ks)) (suc fuel) d' gs rs (pair ps (copy k) (copy v)) vs
          h.2 (omega (arith, l, sizes, sizes')) b' in
      let next = table_loop one (slots fs) in
      (
        d'',
        ap
              (λ r.
                into_next (and_then (into_last r one) (λ b. moved b.cursor (lua_rawset b.stack)))
                  next)
              e
            ∙ ap (λ r. into_next (and_then r (λ b. moved b.cursor (lua_rawset b.stack))) next) e'
            ∙ ap
                (λ o.
                  into_next (moved d' (with_top (record { slots = []; stored = rs }) gs o)) next)
                (set_in-copy k ks ps (copy v) h.0 h.3)
            ∙ loop,
        left,
      )

  upvalues_decode :
      (us : Upvalues) (ks : List ℕ) (fuel : ℕ) (c : Cursor) (gs : List Got) (rs : List ℕ)
      (code : List ℕ) (xs : Gots) (vs : List Value)
      → UpvaluesAreTrees us ks
      → length (flat_upvalues us) ≤ fuel
      → Ahead c (flat_upvalues us ++ vs)
      → Looped
          (function_loop (decode_value fuel) (nups us) (at c (chunk code xs ∷ gs) rs))
          (chunk code (copy_upvalues us xs) ∷ gs)
          rs
          vs
  upvalues_decode no_upvalues ks fuel c gs rs code xs vs h l a = (c, refl, a)
  upvalues_decode (upvalue v us) ks zero c gs rs code xs vs h l a = absurd (
      let some_v = flat-some v ks h.0 in
      omega (arith, some_v, l, length-append (flat v) (flat_upvalues us)))
  upvalues_decode (upvalue v us) ks (suc fuel) c gs rs code xs vs h l a =
      let sizes = length-append (flat v) (flat_upvalues us) in
      let (d, e, b) =
        value_decodes v ks fuel c (chunk code xs ∷ gs) rs (flat_upvalues us ++ vs) h.0
          (omega (arith, l, sizes))
          (subst (Ahead c) (append_assoc (flat v) (flat_upvalues us) vs) a) in
      let (d', loop, left) =
        upvalues_decode us (after v ks) (suc fuel) d gs rs code (got xs (copy v)) vs h.1
          (omega (arith, l, sizes)) b in
      (
        d',
        ap
              (λ r.
                into_next (and_then r (λ b. moved b.cursor (lua_setupvalue b.stack)))
                  (function_loop (decode_value (suc fuel)) (nups us)))
              e
            ∙ loop,
        left,
      )
