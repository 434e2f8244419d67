-- ===== src/Examples/Messages.antt =====
-- src/message.c: small builders and messages, and what the theorems say of them.
use casting.Base.{
  ℕ, ◌+◌, ◌<◌, ◌^◌, ◌≡◌, refl, arith, some, List, [], ◌∷◌, ◌++◌, map, All, length, pos, ◌≤◌,
}
use casting.Message.Values.{
  Value, unset, slots_array, upvals, t_table, t_function, kind, value_type, encode, body, decode,
  decoded, closure, table,
}
use casting.Message.Bytes.{to_bytes}
use casting.Message.Builder.{
  Builder, Message, header_size, msg_builder_init, encode_all, msg_new, msg_count, msg_cursor_init,
}
use casting.Message.Roundtrip.{IsFitting, Shows, decode-encode}
use casting.Message.Counting.{size_of}
use casting.Message.Pushes.{Push, nil, boolean, number, lstring, IsAllowed, described}
use casting.Message.Sending.{read_values, Similar}
use casting.Message.Delivery.{push_all, send-receive}

abbrev blank : Value
blank = record { type = 0; payload = unset; len = 0; ptr = [] }

abbrev a_table : Value
a_table = record { type = t_table; payload = slots_array 0 0; len = 0; ptr = [] }

abbrev a_function : Value
a_function = record { type = t_function; payload = upvals 0; len = 2; ptr = 27 ∷ (76 ∷ []) }

a_table-IsFitting : IsFitting a_table
unfolding kind value_type
a_table-IsFitting = (omega arith, (omega arith, omega arith))

a_function-IsFitting : IsFitting a_function
unfolding kind value_type
a_function-IsFitting = (omega arith, (omega arith, omega arith, refl))

abbrev sent : List Push
sent = nil ∷ (boolean 1 ∷ (number 4611686018427387904 ∷ (lstring (104 ∷ (105 ∷ [])) 2 ∷ [])))

sent-IsAllowed : All IsAllowed sent
sent-IsAllowed = (tt, (tt, (omega arith, ((omega arith, refl), tt))))

sent-Fits : header_size + size_of (encode_all (map described sent)) < 2 ^ 31
unfolding encode_all encode kind value_type body to_bytes
sent-Fits = omega arith

send-receive_example :
    (b : Builder) × (m : Message) × (ws : List Value) × (push_all sent msg_builder_init ≡ some b)
    × (msg_new b ≡ some m)
    × (msg_count m ≡ pos 4)
    × (read_values 5 (msg_cursor_init m) blank ≡ some ws)
    × Similar ws (map described sent)
send-receive_example = send-receive sent blank sent-IsAllowed sent-Fits

decode-encode_example :
    (bs : List ℕ) × (encode a_function ≡ some bs)
    × ((old : Value) (rest : List ℕ)
        → (w : Value) × (decode old (bs ++ rest) ≡ decoded w rest) × Shows w a_function)
    × (4 ≤ length bs)
decode-encode_example = decode-encode a_function a_function-IsFitting

table_kind : kind (value_type a_table.type) ≡ table
unfolding kind value_type
table_kind = refl

function_kind : kind (value_type a_function.type) ≡ closure
unfolding kind value_type
function_kind = refl
