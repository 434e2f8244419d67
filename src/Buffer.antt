-- ===== src/Buffer.antt =====
-- src/buffer.h and src/buffer.c: a buffer of bytes that grows, with a position. A `size_t` wraps at
-- 2 ^ 64.
pub mod Laws
pub mod Streams
use Prim.Native.Nat.{max}
use casting.Base.{
  ℕ, zero, suc, ◌+◌, ◌-◌, ◌/◌, ◌%◌, ◌^◌, Bool, true, false, ◌&&◌, Option, none, some, List, [], ◌∷◌,
  ltb, leb, length, if◌then◌else◌, ℤ, success, err_nomem, err_overflow,
}

-- `buffer_t`: `cell i` is the byte `p[i]`, and `inline` is `p == b`.
pub record Buffer : Type 0 where
  pub size : ℕ
  pub last : ℕ
  pub position : ℕ
  pub cell : ℕ → ℕ
  pub inline : Bool

abbrev pub buffer_size : ℕ
buffer_size = 2048

-- `junk` is what memory holds before it is written.
unfoldable pub buf_init : (ℕ → ℕ) → Buffer
buf_init junk = record { size = buffer_size; last = 0; position = 0; cell = junk; inline = true }

-- The byte at an index of a list, 0 behind its end.
abbrev pub nth : List ℕ → ℕ → ℕ
nth [] i = 0
nth (x ∷ xs) zero = x
nth (x ∷ xs) (suc i) = nth xs i

-- `buf_wrap` of an array with these bytes.
unfoldable pub buf_wrap : List ℕ → Buffer
buf_wrap bs = record {
  size = length bs;
  last = length bs;
  position = 0;
  cell = nth bs;
  inline = false;
}

abbrev pub sum : ℕ → ℕ → ℕ
sum a b = (a + b) % 2 ^ 64

-- The loop of `grow` for at most `fuel` rounds; `none` means that it has not ended.
unfoldable pub grown_size : ℕ → ℕ → ℕ → Option ℕ
grown_size zero end n = if ltb n end then none else some n
grown_size (suc fuel) end n =
    let rest = grown_size fuel end (sum (sum n (n / 2)) 8) in if ltb n end then rest else some n

-- `memcpy` of the first `n` cells.
unfoldable pub copy_cells : ℕ → (ℕ → ℕ) → (ℕ → ℕ) → ℕ → ℕ
copy_cells n source target i = if ltb i n then source i else target i

abbrev pub moved_to : Bool → (ℕ → ℕ) → Buffer → Option ℕ → Option (Buffer × ℤ)
moved_to mem junk b none = none
moved_to false junk b (some n) = some (b, err_nomem)
moved_to true junk b (some n) =
    some (record b { size = n; cell = copy_cells b.last b.cell junk; inline = false }, success)

-- `mem` says whether `lc_alloc` finds memory, `junk` what that holds. `end` rounds are enough. `none`
-- is a loop that does not end.
unfoldable pub grow : Bool → (ℕ → ℕ) → Buffer → ℕ → Option (Buffer × ℤ)
grow mem junk b end =
    if leb end b.size then some (b, success) else moved_to mem junk b (grown_size end end b.size)

unfoldable pub ensure : Bool → (ℕ → ℕ) → Buffer → ℕ → ℕ → Option (Buffer × ℤ)
ensure mem junk b p n =
    if ltb b.size (sum p n) then grow mem junk b (sum p n) else some (b, success)

-- `memcpy` of bytes to a position.
unfoldable pub write_cells : ℕ → List ℕ → (ℕ → ℕ) → ℕ → ℕ
write_cells p bs old i = if leb p i && ltb i (p + length bs) then nth bs (i - p) else old i

-- With another result than SUCCESS, ERR_NOMEM is returned.
abbrev pub store : ℕ → List ℕ → Option (Buffer × ℤ) → Option (Buffer × ℤ)
store p bs none = none
store p bs (some (b, ℤ.pos zero)) =
    some
      (record b { cell = write_cells p bs b.cell; last = max b.last (sum p (length bs)) }, success)
store p bs (some (b, e)) = some (b, err_nomem)

unfoldable pub buf_write_at : Bool → (ℕ → ℕ) → Buffer → ℕ → List ℕ → Option (Buffer × ℤ)
buf_write_at mem junk b p bs = store p bs (ensure mem junk b p (length bs))

abbrev pub pass : ℕ → Option (Buffer × ℤ) → Option (Buffer × ℤ)
pass n none = none
pass n (some (b, ℤ.pos zero)) = some (record b { position = sum b.position n }, success)
pass n (some (b, e)) = some (b, e)

unfoldable pub buf_write : Bool → (ℕ → ℕ) → Buffer → List ℕ → Option (Buffer × ℤ)
buf_write mem junk b bs = pass (length bs) (buf_write_at mem junk b b.position bs)

-- A pointer into the buffer is its index; `none` is NULL.
unfoldable pub buf_read_from : Buffer → ℕ → ℕ → Option ℕ
buf_read_from b p n = if ltb b.last (sum p n) then none else some p

abbrev pub read_at : Buffer → ℕ → Option ℕ → Buffer × Option ℕ
read_at b n none = (b, none)
read_at b n (some p) = (record b { position = sum b.position n }, some p)

unfoldable pub buf_read : Buffer → ℕ → Buffer × Option ℕ
buf_read b n = read_at b n (buf_read_from b b.position n)

abbrev pub reserve : ℕ → Option (Buffer × ℤ) → Option (Buffer × Option ℕ)
reserve n none = none
reserve n (some (b, ℤ.pos zero)) = some (
  record b { position = sum b.position n; last = max b.last (sum b.position n) },
  some b.position,
)
reserve n (some (b, e)) = some (b, none)

unfoldable pub buf_reserve : Bool → (ℕ → ℕ) → Buffer → ℕ → Option (Buffer × Option ℕ)
buf_reserve mem junk b n = reserve n (ensure mem junk b b.position n)

unfoldable pub buf_seek : Buffer → ℕ → Buffer × ℤ
buf_seek b p = if ltb b.last p then (b, err_overflow) else (record b { position = p }, success)

-- `n` cells from an index on.
abbrev pub cells : ℕ → ℕ → (ℕ → ℕ) → List ℕ
cells p zero c = []
cells p (suc n) c = c p ∷ cells (suc p) n c

-- `buf_release`: the bytes that the caller owns from then on.
unfoldable pub buf_release : Buffer → List ℕ
buf_release b = cells 0 b.last b.cell
