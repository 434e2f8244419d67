-- ===== src/Message/Bytes.antt =====
-- src/message.c: `mem_write` and `mem_read` of an integer, lowest byte first. A C integer of `k`
-- bytes is its pattern, a number below 256 ^ k.
use native.Mathlib.Nat.{pow-suc}
use casting.Base.{
  ℕ, zero, suc, ◌+◌, ◌*◌, ◌/◌, ◌%◌, ◌^◌, ◌<◌, ◌≡◌, refl, ap, subst, ◌∙◌, arith, Option, none, some,
  List, [], ◌∷◌, ◌++◌, false, if◌then◌else◌, ltb, le→ltb, length, length-append, take, drop,
  take-append, drop-append,
}

-- The bytes of a number, and the number of bytes.
unfoldable pub to_bytes : ℕ → ℕ → List ℕ
to_bytes zero n = []
to_bytes (suc k) n = n % 256 ∷ to_bytes k (n / 256)

unfoldable pub of_bytes : List ℕ → ℕ
of_bytes [] = 0
of_bytes (b ∷ bs) = b + 256 * of_bytes bs

-- `mem_read` of `k` bytes; `none` is a read past the end.
unfoldable pub read_bytes : ℕ → List ℕ → Option (List ℕ × List ℕ)
read_bytes k bs = if ltb (length bs) k then none else some (take k bs, drop k bs)

abbrev pub first_number : Option (List ℕ × List ℕ) → Option (ℕ × List ℕ)
first_number none = none
first_number (some (bs, rest)) = some (of_bytes bs, rest)

unfoldable pub read_number : ℕ → List ℕ → Option (ℕ × List ℕ)
read_number k bs = first_number (read_bytes k bs)

pub length-to_bytes : (k n : ℕ) → length (to_bytes k n) ≡ k
unfolding to_bytes
length-to_bytes zero n = refl
length-to_bytes (suc k) n = ap suc (length-to_bytes k (n / 256))

pub of_bytes-to_bytes : (k n : ℕ) → n < 256 ^ k → of_bytes (to_bytes k n) ≡ n
unfolding to_bytes of_bytes
of_bytes-to_bytes zero n h = omega arith
of_bytes-to_bytes (suc k) n h =
    let small : n / 256 < 256 ^ k = omega (arith, pow-suc 256 k) in
    omega (arith, of_bytes-to_bytes k (n / 256) small)

pub read_bytes-append :
    (bs rest : List ℕ) (k : ℕ) → length bs ≡ k → read_bytes k (bs ++ rest) ≡ some (bs, rest)
unfolding read_bytes
read_bytes-append bs rest k e = rw (enough, taken, dropped) refl
  where
    enough : ltb (length (bs ++ rest)) k ≡ false
    enough = le→ltb (length (bs ++ rest)) k (omega (arith, length-append bs rest))

    taken : take k (bs ++ rest) ≡ bs
    taken = subst (λ n. take n (bs ++ rest) ≡ bs) e (take-append bs rest)

    dropped : drop k (bs ++ rest) ≡ rest
    dropped = subst (λ n. drop n (bs ++ rest) ≡ rest) e (drop-append bs rest)

pub read_number-append :
    (k n : ℕ) (rest : List ℕ) → n < 256 ^ k → read_number k (to_bytes k n ++ rest) ≡ some (n, rest)
unfolding read_number
read_number-append k n rest h =
    ap first_number (read_bytes-append (to_bytes k n) rest k (length-to_bytes k n))
    ∙ ap (λ x. some (x, rest)) (of_bytes-to_bytes k n h)
