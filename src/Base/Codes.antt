-- ===== src/Base/Codes.antt =====
-- src/lc_error.h: the return codes, and the integers that carry them.
use Prim.Native.Nat.{ℕ, zero, suc}
use mathlib.Core.Bool.{Bool, true, false}
use casting.Base.Tests.{ltb}

-- `int` and `long` values that may be negative: `negsuc n` is -(n + 1).
pub data ℤ : Type 0 where
  pos : ℕ → ℤ
  negsuc : ℕ → ℤ

-- `++x` and `--x`.
abbrev pub succ : ℤ → ℤ
succ (pos n) = pos (suc n)
succ (negsuc zero) = pos 0
succ (negsuc (suc n)) = negsuc n

abbrev pub pred : ℤ → ℤ
pred (pos zero) = negsuc 0
pred (pos (suc n)) = pos n
pred (negsuc n) = negsuc (suc n)

abbrev pub success : ℤ
success = pos 0

abbrev pub fail : ℤ
fail = negsuc 0

abbrev pub err_inval : ℤ
err_inval = negsuc 1

abbrev pub err_nomem : ℤ
err_nomem = negsuc 2

abbrev pub err_luastack : ℤ
err_luastack = negsuc 3

abbrev pub err_unsupported : ℤ
err_unsupported = negsuc 4

abbrev pub err_copy : ℤ
err_copy = negsuc 5

abbrev pub err_full : ℤ
err_full = negsuc 6

abbrev pub err_empty : ℤ
err_empty = negsuc 7

abbrev pub err_notfound : ℤ
err_notfound = negsuc 8

abbrev pub err_threadfail : ℤ
err_threadfail = negsuc 9

abbrev pub err_closed : ℤ
err_closed = negsuc 10

abbrev pub err_badstate : ℤ
err_badstate = negsuc 11

abbrev pub err_badsession : ℤ
err_badsession = negsuc 12

abbrev pub err_busy : ℤ
err_busy = negsuc 13

abbrev pub err_deadlock : ℤ
err_deadlock = negsuc 14

abbrev pub err_again : ℤ
err_again = negsuc 15

abbrev pub err_overflow : ℤ
err_overflow = negsuc 16

abbrev pub err_timedout : ℤ
err_timedout = negsuc 17

abbrev pub err_wait : ℤ
err_wait = negsuc 18

abbrev pub err_taskstate : ℤ
err_taskstate = negsuc 19

abbrev pub err_sysunknown : ℤ
err_sysunknown = negsuc 9998

-- `a < b` on such values.
abbrev pub ltb_ℤ : ℤ → ℤ → Bool
ltb_ℤ (pos a) (pos b) = ltb a b
ltb_ℤ (pos a) (negsuc b) = false
ltb_ℤ (negsuc a) (pos b) = true
ltb_ℤ (negsuc a) (negsuc b) = ltb b a
