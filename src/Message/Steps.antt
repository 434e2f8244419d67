-- ===== src/Message/Steps.antt =====
-- src/message.c: one call of `msg_next` after another.
use casting.Base.{
  ℕ, ◌+◌, ◌≤◌, ◌≡◌, sym, ap, ◌∙◌, refl, arith, some, List, [], ◌∷◌, ◌++◌, length, length-append,
  All, append_assoc, pos, negsuc, suc,
}
use casting.Message.Values.{Value, encode}
use casting.Message.Builder.{Cursor, header_size, encode_all, joined, msg_next}
use casting.Message.Roundtrip.{IsFitting, Shows, decode-encode}
use casting.Message.Counting.{size_of, encode_all-some}
use casting.Message.Sending.{msg_next_end, msg_next_step}

-- The values that are left for a cursor.
pub record Ahead (c : Cursor) (vs : List Value) : Type 0 where
  pub before : List ℕ
  pub rest : List ℕ
  pub parts : c.msg.contents ≡ before ++ rest
  pub here : c.position ≡ length before
  pub sized : c.msg.size ≡ header_size + length c.msg.contents
  pub encoded : encode_all vs ≡ some rest
  pub fitting : All IsFitting vs

pub msg_next-Ahead :
    (c : Cursor) (old v : Value) (vs : List Value)
    → Ahead c (v ∷ vs)
    → (d : Cursor) × (w : Value) × (msg_next c old ≡ some (d, w, pos c.seen))
      × Shows w v
      × Ahead d vs
unfolding encode_all
msg_next-Ahead c old v vs h =
    let x = decode-encode v h.fitting.0 in
    let y = encode_all-some vs h.fitting.1 in
    let parts : h.rest ≡ x.0 ++ y.0 =
      cc (sym h.encoded, ap (joined (encode v)) y.1, ap (λ o. joined o (some y.0)) x.1) in
    let w = x.2 old y.0 in
    let all : c.msg.contents ≡ h.before ++ (x.0 ++ y.0) = h.parts ∙ ap (◌++◌ h.before) parts in
    (
      record c { position = length (h.before ++ x.0); seen = suc c.seen },
      w.0,
      msg_next_step c old w.0 h.before x.0 y.0 all h.here h.sized x.3 w.1,
      w.2,
      record {
        before = h.before ++ x.0;
        rest = y.0;
        parts = all ∙ sym (append_assoc h.before x.0 y.0);
        here = refl;
        sized = h.sized;
        encoded = y.1;
        fitting = h.fitting.1;
      },
    )

pub msg_next_stops :
    (c : Cursor) (old : Value) → Ahead c [] → msg_next c old ≡ some (c, old, negsuc 0)
unfolding encode_all
msg_next_stops c old h =
    let none_left : length h.rest ≡ 0 = ap size_of (sym h.encoded) in
    let total = ap length h.parts in
    let here = h.here in
    let sized = h.sized in
    let at_end : c.msg.size ≤ header_size + c.position =
      omega (arith, none_left, total, here, sized, length-append h.before h.rest) in
    msg_next_end c old at_end
