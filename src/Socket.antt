-- ===== src/Socket.antt =====
-- The sockets of ffi/network.c. A system call is a parameter: it changes the state `W` of the world and
-- answers with a value or with `errno`.
pub mod Address
pub mod Connect
pub mod Datagram
pub mod Options
pub mod Transfer
use linen.Base.{Errno, os_error, Result, ok, error}

-- what a system call returns: a value, or -1 with errno
pub data Answer (A : Type 0) : Type 0 where
  answered : A → Answer A
  failed : Errno → Answer A

-- `lean_io_result_mk_ok(...)`, or `mk_io_errno_error()`
abbrev pub result : {A : Type 0} → Answer A → Result A
result (answered a) = ok a
result (failed e) = error (os_error e)
