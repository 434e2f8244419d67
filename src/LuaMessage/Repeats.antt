-- ===== src/LuaMessage/Repeats.antt =====
-- src/lc_message.c: a table that came before.
use casting.Base.{
  ℕ, suc, ◌^◌, ◌<◌, ◌≡◌, inl, inr, ap, ◌∙◌, arith, true, false, none, some, List, length, ◌+◌,
}
use casting.Map.Sorted.{lookup}
use casting.Message.Values.{Value}
use casting.Message.Builder.{Builder, encode_all, msg_new}
use casting.Message.Counting.{IsCounted, size_of, encode_all-some}
use casting.Message.Changes.{get, lc_pushreference_lem}
use casting.Message.Sending.{msg_new_overruns}
use casting.LuaMessage.{Ref, Out, cmp_ref, checked, referred, ref_check}

distinct : true ≡ false → ⊥
distinct e = cc e

-- The bytes are four short of the encodings.
four_short :
    (b t : Builder)
    → IsCounted t
    → b.refs ≡ 0
    → t.refs ≡ suc b.refs
    → size_of (encode_all t.values) ≡ size_of (encode_all b.values) + 8
    → size_of (encode_all b.values) < 2 ^ 30
    → (bs : List ℕ) × (encode_all t.values ≡ some bs) × (length bs ≡ t.bytes + 4)
four_short b t c z refs size small =
    let (bs, e) = encode_all-some t.values c.fitting in
    (bs, e, omega (arith, c.summed, c.bounded, z, refs, size, small, ap size_of e))

-- In a builder that is counted and has no references, with encodings of less than 2^30 bytes,
-- for a pointer that the map has, with the index of a value: `ref_check` gives SUCCESS and adds
-- one value, a reference; `refs` goes up by two for it; and `msg_new` then writes four bytes
-- past the end of the message.
pub ref_check_overruns :
    (p : ℕ) (o : Out) (d : Ref) (v : Value)
    → IsCounted o.builder
    → o.builder.refs ≡ 0
    → size_of (encode_all o.builder.values) < 2 ^ 30
    → lookup cmp_ref (record { key = p; refid = length o.builder.values }) o.refmap ≡ some d
    → get d.refid o.builder.values ≡ some v
    → d.refid < 2 ^ 31
    → (u : Out) × (ref_check p o ≡ some (u, true))
      × (length u.builder.values ≡ suc (length o.builder.values))
      × (u.builder.refs ≡ 2)
      × ((bs : List ℕ) × (encode_all u.builder.values ≡ some bs)
          × (length bs ≡ u.builder.bytes + 4))
      × (msg_new u.builder ≡ none)
unfolding ref_check
ref_check_overruns p o d v c z small found at low =
    elim (lc_pushreference_lem true o.builder d.refid v c low at) [
      | inl (no_memory, _, _) ↦ absurd (distinct no_memory)
      | inr (t, e, refs, count, longer, counted, size) ↦ (
        record o { builder = record t { refs = suc t.refs } },
        ap (checked o (record { key = p; refid = length o.builder.values })) found
            ∙ ap (referred o) e,
        longer,
        ap suc (refs ∙ ap suc z),
        four_short o.builder t counted z refs size small,
        msg_new_overruns t counted (omega (arith, size)) 0 (refs ∙ ap suc z) (omega arith)
            (suc t.refs),
      )
    ]
