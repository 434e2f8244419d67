-- ===== src/Message/Pushes.antt =====
-- src/message.c: the calls that add a value to the builder, and those that change one.
use casting.Base.{
  ℕ, ◌+◌, ◌%◌, ◌^◌, ◌<◌, ◌≡◌, refl, sym, ap, subst, arith, Bool, true, false, Option, List, [],
  length, ◌==◌, if◌then◌else◌,
}
use casting.Message.Bytes.{to_bytes}
use casting.Message.Values.{
  Value, Payload, unset, double, upvals, slots_array, t_nil, t_true, t_false, t_number, t_string,
  t_table, t_function, t_userdata, encode, body, kind, value_type,
}
use casting.Message.Builder.{
  Builder, next_index, fill, lc_pushnil, lc_pushboolean, lc_pushnumber, lc_pushlstring,
  lc_createtable, lc_pushfunction, lc_pushuserdata,
}
use casting.Message.Roundtrip.{IsFitting, take-all}
use casting.Message.Counting.{IsCounted, Fills, fill-Fills, size_of}

-- The calls that add a value, but for a reference.
pub data Push : Type 0 where
  nil createtable : Push
  boolean number : ℕ → Push
  lstring userdata : List ℕ → ℕ → Push
  function : List ℕ → Push

unfoldable pub push : Bool → Builder → Push → Option (Builder × ℕ)
push mem b nil = lc_pushnil mem b
push mem b createtable = lc_createtable mem b
push mem b (boolean x) = lc_pushboolean mem b x
push mem b (number n) = lc_pushnumber mem b n
push mem b (lstring p sz) = lc_pushlstring mem b p sz
push mem b (userdata name len) = lc_pushuserdata mem b name len
push mem b (function code) = lc_pushfunction mem b code

-- Strings have the length that is given, and fit an `int`; a double has 8 bytes.
abbrev pub IsAllowed : Push → Type 0
IsAllowed nil = Unit
IsAllowed createtable = Unit
IsAllowed (boolean x) = Unit
IsAllowed (number n) = n < 256 ^ 8
IsAllowed (lstring p sz) = (sz < 2 ^ 31) × (length p ≡ sz)
IsAllowed (userdata name len) = (len < 2 ^ 31) × (length name ≡ len)
IsAllowed (function code) = length code < 2 ^ 31

abbrev plain : ℕ → Payload → ℕ → List ℕ → Value
plain t p len s = record { type = t; payload = p; len = len; ptr = s }

-- The value that a call describes.
abbrev pub described : Push → Value
described nil = plain t_nil unset 0 []
described createtable = plain t_table (slots_array 0 0) 0 []
described (boolean x) = plain (if x == 0 then t_false else t_true) unset 0 []
described (number n) = plain t_number (double n) 0 []
described (lstring p sz) = plain t_string unset sz p
described (userdata name len) = plain t_userdata (upvals 0) len name
described (function code) = plain t_function (upvals 0) (length code) code

-- The number of bytes that a call adds.
abbrev cost : Push → ℕ
cost nil = 4
cost createtable = 12
cost (boolean x) = 4
cost (number n) = 12
cost (lstring p sz) = 8 + sz
cost (userdata name len) = 12 + len
cost (function code) = 12 + length code

flag-IsFitting : (b : Bool) → IsFitting (plain (if b then t_false else t_true) unset 0 [])
unfolding kind value_type
flag-IsFitting true = (omega arith, tt)
flag-IsFitting false = (omega arith, tt)

size_of-flag : (b : Bool) → size_of (encode (plain (if b then t_false else t_true) unset 0 [])) ≡ 4
unfolding kind value_type encode body to_bytes
size_of-flag true = refl
size_of-flag false = refl

mod_small : (n : ℕ) → n < 2 ^ 31 → n % 2 ^ 32 ≡ n
mod_small n h = omega arith

described-IsFitting : (p : Push) → IsAllowed p → IsFitting (described p)
unfolding kind value_type
described-IsFitting nil h = (omega arith, tt)
described-IsFitting createtable h = (omega arith, (omega arith, omega arith))
described-IsFitting (boolean x) h = flag-IsFitting (x == 0)
described-IsFitting (number n) h = (omega arith, h)
described-IsFitting (lstring p sz) h = (omega arith, h)
described-IsFitting (userdata name len) h = (omega arith, (omega arith, h.0, h.1))
described-IsFitting (function code) h = (omega arith, (omega arith, h, refl))

size_of-described : (p : Push) → IsAllowed p → size_of (encode (described p)) ≡ cost p
unfolding kind value_type encode body to_bytes
size_of-described nil h = refl
size_of-described createtable h = refl
size_of-described (boolean x) h = size_of-flag (x == 0)
size_of-described (number n) h = refl
size_of-described (lstring p sz) h = omega (arith, ap length (take-all sz p h.1), h.1)
size_of-described (userdata name len) h = omega (arith, ap length (take-all len name h.1), h.1)
size_of-described (function code) h = omega (arith, ap length (take-all (length code) code refl))

push-described :
    (mem : Bool) (b : Builder) (p : Push)
    → IsAllowed p
    → push mem b p ≡ fill (next_index mem b) (described p) (cost p)
unfolding push lc_pushnil lc_pushboolean lc_pushnumber lc_pushlstring lc_createtable lc_pushfunction
    lc_pushuserdata
push-described mem b nil h = refl
push-described mem b createtable h = refl
push-described mem b (boolean x) h = refl
push-described mem b (number n) h = refl
push-described mem b (lstring p sz) h = rw (mod_small sz h.0) refl
push-described mem b (userdata name len) h = rw (take-all len name h.1) refl
push-described mem b (function code) h = rw (mod_small (length code) h) refl

-- On a counted builder, any push but that of a reference, of a string with the length that is
-- given and below 2^31, or of a double of 8 bytes, faults only where the array is full and there
-- is no memory. Else the value is the new last value, its index is the old number of values, the
-- count goes up by one, and the builder is counted again.
pub push-Fills :
    (mem : Bool) (b : Builder) (p : Push)
    → IsCounted b
    → IsAllowed p
    → Fills mem b (described p) (push mem b p)
push-Fills mem b p c h = subst (Fills mem b (described p)) (sym (push-described mem b p h)) (
    fill-Fills mem b (described p) (cost p) c.fitting c.roomy (described-IsFitting p h)
      (omega (arith, c.summed, size_of-described p h)))
