-- ===== src/Base/Results.antt =====
-- What an exported function returns to Lean: a value or an `IO.Error`. The C functions of ffi/ never
-- abort; `out_of_fuel` is the model's own, for a loop that was given too few rounds.
use Prim.Native.Nat.{ℕ}
use Prim.Native.String.{String}
use mathlib.Core.Bool.{Bool, true, false}
use linen.Base.Words.{ℤ}

-- the values of `errno` that the code compares with, and all others
pub data Errno : Type 0 where
  eagain ewouldblock einprogress eexist enoent eintr : Errno
  errno_other : ℕ → Errno

-- `errno == EAGAIN || errno == EWOULDBLOCK`
abbrev pub would_block : Errno → Bool
would_block eagain = true
would_block ewouldblock = true
would_block _ = false

-- `user_error` is `mk_io_error(msg)`, `os_error` is `mk_io_errno_error()`.
pub data IoError : Type 0 where
  user_error : String → IoError
  os_error : Errno → IoError

pub data Result {ℓ} (A : Type ℓ) : Type ℓ where
  ok : A → Result A
  error : IoError → Result A
  out_of_fuel : Result A

-- a file descriptor, -1 when closed
abbrev pub Fd : Type 0
Fd = ℤ
