-- ===== src/Message/Delivery.antt =====
-- src/message.c: any sequence of values, from the sender's calls to what the receiver reads.
use casting.Base.{
  ℕ, zero, suc, ◌+◌, ◌^◌, ◌<◌, ◌≡◌, refl, sym, ap, ◌∙◌, subst, true, Option, none, some, List, [],
  ◌∷◌, ◌++◌, map, All, length, append-nil, append_assoc, arith, ℤ, pos, succ,
}
use casting.Message.Values.{Value}
use casting.Message.Builder.{
  Builder, Message, header_size, encode_all, msg_builder_init, msg_new, msg_count, msg_cursor_init,
}
use casting.Message.Counting.{IsCounted, size_of, Fills, msg_builder_init-IsCounted}
use casting.Message.Pushes.{Push, push, IsAllowed, described, push-Fills}
use casting.Message.Sending.{read_values, Similar, read_values-msg_new}

abbrev then_push : (Builder → Option Builder) → Option (Builder × ℕ) → Option Builder
then_push next none = none
then_push next (some (b, i)) = next b

-- The calls in turn, with memory.
unfoldable pub push_all : List Push → Builder → Option Builder
push_all [] b = some b
push_all (p ∷ ps) b = then_push (push_all ps) (push true b p)

abbrev count_up : ℕ → ℤ → ℤ
count_up zero z = z
count_up (suc n) z = count_up n (succ z)

abbrev Holds : Builder → List Push → Option Builder → Type 0
Holds b ps none = ⊥
Holds b ps (some t) =
    IsCounted t
    × (t.refs ≡ b.refs)
    × (t.count ≡ count_up (length ps) b.count)
    × (t.values ≡ b.values ++ map described ps)

push_all-Holds :
    (ps : List Push) (b : Builder) → All IsAllowed ps → IsCounted b → Holds b ps (push_all ps b)
unfolding push_all
push_all-Holds [] b h c = (c, refl, refl, sym (append-nil b.values))
push_all-Holds (p ∷ ps) b h c = go (push true b p) (push-Fills true b p c h.0) (push_all-Holds ps)
  where
    later :
        (t : Builder) (o : Option Builder)
        → t.values ≡ b.values ++ (described p ∷ [])
        → t.count ≡ succ b.count
        → t.refs ≡ b.refs
        → Holds t ps o
        → Holds b (p ∷ ps) o
    later t none e n r k = k
    later t (some u) e n r (k, refs, count, values) = (
      k,
      refs ∙ r,
      count ∙ ap (count_up (length ps)) n,
      values
          ∙ ap (λ vs. vs ++ map described ps) e
          ∙ append_assoc b.values (described p ∷ []) (map described ps),
    )

    go :
        (o : Option (Builder × ℕ))
        → Fills true b (described p) o
        → ((t : Builder) → All IsAllowed ps → IsCounted t → Holds t ps (push_all ps t))
        → Holds b (p ∷ ps) (then_push (push_all ps) o)
    go none f ih = cc (f.0)
    go (some (t, i)) (e, _, n, r, k) ih = later t (push_all ps t) e n r (ih t h.1 k)

count_up-pos : (n k : ℕ) → count_up n (pos k) ≡ pos (n + k)
count_up-pos zero k = ap pos (omega arith)
count_up-pos (suc n) k = count_up-pos n (suc k) ∙ ap pos (omega arith)

length-described : (ps : List Push) → length (map described ps) ≡ length ps
length-described [] = refl
length-described (p ∷ ps) = ap suc (length-described ps)

-- Any sequence of pushes that has no reference, with memory, of strings with the lengths that
-- are given and below 2^31, and of doubles of 8 bytes, starting from an initialised builder,
-- succeeds. Where the message that they describe has, with its header, less than 2^31 bytes,
-- `msg_new` then writes within the message, whose count is the number of the pushes, and calls
-- of `msg_next` read, until the first -1, one value for each push, in order, with the type and
-- the contents that were pushed.
pub send-receive :
    (ps : List Push) (old : Value)
    → All IsAllowed ps
    → header_size + size_of (encode_all (map described ps)) < 2 ^ 31
    → (b : Builder) × (m : Message) × (ws : List Value) × (push_all ps msg_builder_init ≡ some b)
      × (msg_new b ≡ some m)
      × (msg_count m ≡ pos (length ps))
      × (read_values (suc (length ps)) (msg_cursor_init m) old ≡ some ws)
      × Similar ws (map described ps)
unfolding msg_count msg_builder_init
send-receive ps old h short =
    go (push_all ps msg_builder_init) refl
      (push_all-Holds ps msg_builder_init h msg_builder_init-IsCounted)
  where
    go :
        (o : Option Builder)
        → push_all ps msg_builder_init ≡ o
        → Holds msg_builder_init ps o
        → (b : Builder) × (m : Message) × (ws : List Value) × (push_all ps msg_builder_init
            ≡ some b)
          × (msg_new b ≡ some m)
          × (m.count ≡ pos (length ps))
          × (read_values (suc (length ps)) (msg_cursor_init m) old ≡ some ws)
          × Similar ws (map described ps)
    go none e k = absurd k
    go (some b) e (c, r, n, v) =
        let q =
          read_values-msg_new b old c r
            (subst (λ vs. header_size + size_of (encode_all vs) < 2 ^ 31) (sym v) short) in
        let l : length b.values ≡ length ps = ap length v ∙ length-described ps in
        (
          b,
          q.0,
          q.1,
          e,
          q.2,
          q.5 ∙ n ∙ count_up-pos (length ps) 0 ∙ ap pos (omega arith),
          subst (λ n. read_values (suc n) (msg_cursor_init q.0) old ≡ some q.1) l q.3,
          subst (Similar q.1) v q.4,
        )
