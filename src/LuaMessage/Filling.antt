-- ===== src/LuaMessage/Filling.antt =====
-- src/lc_message.c: a value that is written, with the ones that belong to it.
use Prim.Native.Nat.{compare}
use casting.Base.{
  ℕ, zero, suc, ◌+◌, ◌*◌, ◌%◌, ◌^◌, ◌<◌, ◌≡◌, refl, sym, ap, ◌∙◌, arith, true, Option, none, some,
  List, [], ◌∷◌, ◌++◌, append_assoc, length, ℤ, pos, negsuc, succ, pred,
}
use casting.Map.Sorted.{IsOrder, IsAscending, lookup, insert}
use casting.Registry.Keys.{ℕ-IsOrder, by_key-IsOrder}
use casting.Registry.Laws.{put-IsAscending, lookup-put}
use casting.Message.Values.{Value, upvals, slots_array, t_table, kind, value_type, closure}
use casting.Message.Builder.{Builder, change_at, with_values, minus, lc_settable, lc_setfunction}
use casting.Message.Counting.{IsCounted, Fills}
use casting.Message.Pushes.{Push, push, IsAllowed, described, push-Fills}
use casting.Message.Changes.{get}
use casting.Message.Setters.{Sets, lc_settable_lem, lc_setfunction_lem}
use casting.LuaMessage.{Ref, Out, cmp_ref, pushed, filled, completed, set_to}
use casting.LuaMessage.Flat.{plain, Fresh}

abbrev pub up : ℤ → ℕ → ℤ
up z zero = z
up z (suc n) = succ (up z n)

pub up-up : (z : ℤ) (m n : ℕ) → up (up z m) n ≡ up z (n + m)
up-up z m zero = let e : m ≡ 0 + m = omega arith in ap (up z) e
up-up z m (suc n) =
    let e : suc (n + m) ≡ suc n + m = omega arith in ap succ (up-up z m n) ∙ ap (up z) e

pred-succ : (z : ℤ) → pred (succ z) ≡ z
pred-succ (pos n) = refl
pred-succ (negsuc zero) = refl
pred-succ (negsuc (suc n)) = refl

succ-pred : (z : ℤ) → succ (pred z) ≡ z
succ-pred (pos zero) = refl
succ-pred (pos (suc n)) = refl
succ-pred (negsuc n) = refl

minus-succ : (z : ℤ) (n : ℕ) → minus (succ z) n ≡ succ (minus z n)
minus-succ z zero = refl
minus-succ z (suc n) =
    ap pred (minus-succ z n) ∙ pred-succ (minus z n) ∙ sym (succ-pred (minus z n))

minus-up : (z : ℤ) (n : ℕ) → minus (up z n) n ≡ z
minus-up z zero = refl
minus-up z (suc n) = ap pred (minus-succ (up z n) n) ∙ pred-succ (minus (up z n) n) ∙ minus-up z n

change_at-end :
    (f : Value → Value) (before after : List Value) (v : Value)
    → change_at (length before) f (before ++ (v ∷ after)) ≡ some (before ++ (f v ∷ after))
unfolding change_at
change_at-end f [] after v = refl
change_at-end f (x ∷ before) after v = rw (change_at-end f before after v) refl

get-end :
    (before after : List Value) (v : Value) → get (length before) (before ++ (v ∷ after)) ≡ some v
get-end [] after v = refl
get-end (x ∷ before) after v = get-end before after v

-- The map has only pointers that came before.
abbrev pub Knows : List ℕ → List Ref → Type 0
Knows ks xs = IsAscending cmp_ref xs × ((f : Ref) → Fresh f.key ks → lookup cmp_ref f xs ≡ none)

pub ref-IsOrder : IsOrder cmp_ref
unfolding cmp_ref
ref-IsOrder = by_key-IsOrder compare ℕ-IsOrder (λ r. r.key)

pub insert-Knows :
    (f : Ref) (ks : List ℕ) (xs : List Ref)
    → Knows ks xs
    → Knows (f.key ∷ ks) (insert cmp_ref f f xs)
unfolding cmp_ref
insert-Knows f ks xs h = (
  put-IsAscending cmp_ref ref-IsOrder f xs h.0,
  λ g k.
      let missing = h.1 g k.1 in
      lookup-put cmp_ref ref-IsOrder f g xs h.0 ∙ ground (arith, k.0, missing),
)

abbrev pub IsGood : Out → List ℕ → Type 0
IsGood o ks = IsCounted o.builder × Knows ks o.refmap

-- From `o` to `u` the values `vs` were written, which raised the count by `n`.
abbrev pub Grown : Out → ℕ → List Value → List ℕ → Out → Type 0
Grown o n vs ks u =
    IsGood u ks
    × (u.builder.values ≡ o.builder.values ++ vs)
    × (u.builder.count ≡ up o.builder.count n)
    × (u.builder.refs ≡ o.builder.refs)

abbrev pub Written : Option (Out × ℤ) → Out → List Value → List ℕ → Type 0
Written r o vs ks = (u : Out) × (rc : ℤ) × (r ≡ some (u, rc)) × Grown o 1 vs ks u

abbrev pub AllWritten : Option (Out × ℕ) → Out → ℕ → ℕ → List Value → List ℕ → Type 0
AllWritten r o n m vs ks = (u : Out) × (r ≡ some (u, n)) × Grown o m vs ks u

pub Grown-Grown :
    (o u w : Out) (m n : ℕ) (vs ws : List Value) (ks ls : List ℕ)
    → Grown o m vs ks u
    → Grown u n ws ls w
    → Grown o (n + m) (vs ++ ws) ls w
Grown-Grown o u w m n vs ws ks ls (a, b, c, d) (e, f, g, h) = (
  e,
  f ∙ ap (λ xs. xs ++ ws) b ∙ append_assoc o.builder.values vs ws,
  g ∙ ap (λ z. up z n) c ∙ up-up o.builder.count m n,
  h ∙ d,
)

abbrev Added : Builder → Value → Option (Builder × ℕ) → Type 0
Added b v r =
    (t : Builder) × (r ≡ some (t, length b.values))
    × (t.values ≡ b.values ++ (v ∷ []))
    × (t.count ≡ succ b.count)
    × (t.refs ≡ b.refs)
    × IsCounted t

added : (b : Builder) (v : Value) (r : Option (Builder × ℕ)) → Fills true b v r → Added b v r
added b v none h = cc (h.0)
added b v (some (t, i)) (e, n, c, r, k) = (t, ap (λ i. some (t, i)) n, e, c, r, k)

pub push-Added :
    (p : Push) (b : Builder) → IsCounted b → IsAllowed p → Added b (described p) (push true b p)
push-Added p b c h = added b (described p) (push true b p) (push-Fills true b p c h)

pub push-Written :
    (p : Push) (o : Out) (ks : List ℕ)
    → IsAllowed p
    → IsGood o ks
    → Written (pushed o (push true o.builder p)) o (described p ∷ []) ks
push-Written p o ks h g =
    let (t, e, values, count, refs, counted) = push-Added p o.builder g.0 h in
    (record o { builder = t }, pos 0, ap (pushed o) e, ((counted, g.1), values, count, refs))

-- A setter of the value before `vs`, for the `m` values that belong to it.
abbrev pub Finishes : (ℕ → ℕ → Builder → Option Builder) → Value → Value → ℕ → ℕ → Type 0
Finishes finish v w n m =
    (b : Builder) (before vs : List Value)
    → IsCounted b
    → b.values ≡ before ++ (v ∷ vs)
    → (t : Builder) × (finish (length before) n b ≡ some t)
      × IsCounted t
      × (t.values ≡ before ++ (w ∷ vs))
      × (t.count ≡ minus b.count m)
      × (t.refs ≡ b.refs)

pub filled-Written :
    (parts : Out → Option (Out × ℕ)) (finish : ℕ → ℕ → Builder → Option Builder) (rc : ℕ → ℤ)
    (p : Push) (w : Value) (n m : ℕ) (vs : List Value) (o : Out) (ks ls : List ℕ)
    → IsAllowed p
    → IsGood o ks
    → ((u : Out) → IsGood u ks → AllWritten (parts u) u n m vs ls)
    → Finishes finish (described p) w n m
    → Written (filled parts finish rc o (push true o.builder p)) o (w ∷ vs) ls
filled-Written parts finish rc p w n m vs o ks ls h g go finishes =
    let (t, e, values, count, refs, counted) = push-Added p o.builder g.0 h in
    let i = length o.builder.values in
    let (u, ran, (good, values', count', refs')) = go (record o { builder = t }) (counted, g.1) in
    let (b, set, counted_b, values_b, count_b, refs_b) =
      finishes u.builder o.builder.values vs good.0 (
        values'
        ∙ ap (λ xs. xs ++ vs) values
        ∙ append_assoc o.builder.values (described p ∷ []) vs) in
    (
      record u { builder = b },
      rc i,
      ap (filled parts finish rc o) e
          ∙ ap (completed i finish (rc i)) ran
          ∙ ap (set_to u (rc i)) set,
      (
        (counted_b, good.1),
        values_b,
        count_b
            ∙ ap (λ z. minus z m) (count' ∙ ap (λ z. up z m) count)
            ∙ minus-up (succ o.builder.count) m,
        refs_b ∙ refs' ∙ refs,
      ),
    )

abbrev values_of : Option Builder → List Value
values_of none = []
values_of (some b) = b.values

setter :
    (b : Builder) (before vs : List Value) (f : Value → Value) (v w : Value) (m : ℕ)
    → f v ≡ w
    → b.values ≡ before ++ (v ∷ vs)
    → Sets b m (with_values b m (change_at (length before) f b.values))
    → (t : Builder) × (with_values b m (change_at (length before) f b.values) ≡ some t)
      × IsCounted t
      × (t.values ≡ before ++ (w ∷ vs))
      × (t.count ≡ minus b.count m)
      × (t.refs ≡ b.refs)
setter b before vs f v w m k e (t, same, count, refs, bytes, len, counted) =
    let is : with_values b m (change_at (length before) f b.values)
        ≡ some (record b { values = before ++ (f v ∷ vs); count = minus b.count m }) =
      ap (λ xs. with_values b m (change_at (length before) f xs)) e
      ∙ ap (with_values b m) (change_at-end f before vs v) in
    let built = ap values_of (sym same ∙ is) in
    (t, same, counted, built ∙ ap (λ y. before ++ (y ∷ vs)) k, count, refs)

got :
    (b : Builder) (before vs : List Value) (v : Value)
    → b.values ≡ before ++ (v ∷ vs)
    → get (length before) b.values ≡ some v
got b before vs v e = ap (get (length before)) e ∙ get-end before vs v

pub settable-Finishes :
    (n array : ℕ)
    → n < 2 ^ 31
    → array < 2 ^ 31
    → Finishes
        (λ i n b. lc_settable b i n array)
        (plain t_table (slots_array 0 0) 0 [])
        (plain t_table (slots_array n array) 0 [])
        n
        (n * 2)
unfolding lc_settable kind value_type
settable-Finishes n array small short b before vs c e =
    let v = plain t_table (slots_array 0 0) 0 [] in
    let same : (x : ℕ) → x < 2 ^ 31 → x % 2 ^ 32 ≡ x = λ x h. omega arith in
    setter b before vs (λ v. record v { payload = slots_array (n % 2 ^ 32) (array % 2 ^ 32) }) v
      (plain t_table (slots_array n array) 0 []) (n * 2) (rw (same n small, same array short) refl)
      e (lc_settable_lem b (length before) n array v c (got b before vs v e) refl)

pub setfunction-Finishes :
    (t len n : ℕ) (ptr : List ℕ)
    → n < 2 ^ 31
    → kind (value_type t) ≡ closure
    → Finishes
        (λ i n b. lc_setfunction b i n)
        (plain t (upvals 0) len ptr)
        (plain t (upvals n) len ptr)
        n
        n
unfolding lc_setfunction
setfunction-Finishes t len n ptr small k b before vs c e =
    let v = plain t (upvals 0) len ptr in
    setter b before vs (λ v. record v { payload = upvals n }) v (plain t (upvals n) len ptr) n refl
      e (lc_setfunction_lem b (length before) n v c small (got b before vs v e) k)
