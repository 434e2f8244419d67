-- ===== src/Errors.antt =====
-- src/lc_error.c: the text of a return code.
use Prim.Native.String.{String}
use casting.Base.{
  Bool, false, ◌==◌, if◌then◌else◌, ℤ, pos, negsuc, err_inval, err_luastack, err_unsupported,
  err_nomem, err_copy, err_full, err_notfound, err_threadfail, err_closed, err_badstate,
  err_badsession, err_busy, err_deadlock, err_sysunknown,
}

abbrev pub same_code : ℤ → ℤ → Bool
same_code (pos a) (pos b) = a == b
same_code (negsuc a) (negsuc b) = a == b
same_code a b = false

unfoldable pub errmsg : ℤ → String
errmsg e =
    if same_code e err_inval
    then "Invalid value"
    else if same_code e err_luastack
    then "cannot grow Lua stack"
    else if same_code e err_unsupported
    then "Unsupported value"
    else if same_code e err_nomem
    then "Unable to allocate memory"
    else if same_code e err_copy
    then "Error copying value"
    else if same_code e err_full
    then "Data structure is full"
    else if same_code e err_notfound
    then "Data not found"
    else if same_code e err_threadfail
    then "Could not create thread"
    else if same_code e err_closed
    then "Attempt to used resource that is closed"
    else if same_code e err_badstate
    then "Lua state could not be created or is corrupt"
    else if same_code e err_badsession
    then "session id does not refer to a valid session"
    else if same_code e err_busy
    then "resource is busy"
    else if same_code e err_deadlock
    then "already locked"
    else if same_code e err_sysunknown
    then "unknown system error"
    else "unknown error"
