-- ===== src/Socket/Options.antt =====
-- The options and limits of ffi/network.c: socket options, the blocking mode, shutdown, the backlog, the
-- limit on open files and the number of processors.
pub mod Laws
mod Examples
use linen.Base.{
  ℕ, suc, ◌+◌, ◌-◌, ◌*◌, ◌/◌, ◌%◌, ◌^◌, Bool, true, false, ◌&&◌, not, Option, none, some, ltb, ◌==◌,
  if◌then◌else◌, has_bit, or_bit, ℤ, pos, negsuc, Fd, int_of_size, user_error, Result, ok, error,
}
use linen.Socket.{Answer, answered, failed, result}

-- an option with its value: an int, a `struct linger`, or a `struct timeval` of seconds and microseconds
pub data SockOpt : Type 0 where
  so_reuseaddr tcp_nodelay so_keepalive : ℕ → SockOpt
  so_linger : ℕ → ℤ → SockOpt
  so_rcvtimeo so_sndtimeo : ℕ → ℕ → SockOpt
  so_rcvbuf so_sndbuf : ℤ → SockOpt

pub data How : Type 0 where
  shut_rd shut_wr shut_rdwr : How

-- the system calls; F_GETFL and F_SETFL carry the mask of flags
pub record Control (W : Type 0) : Type 0 where
  pub setsockopt : Fd → SockOpt → W → Answer (Unit {0}) × W
  pub getfl : Fd → W → Answer ℕ × W
  pub setfl : Fd → ℕ → W → Answer (Unit {0}) × W
  pub shutdown : Fd → How → W → Answer (Unit {0}) × W
  pub listen : Fd → ℤ → W → Answer (Unit {0}) × W

-- `enable ? 1 : 0`
abbrev pub one_if : Bool → ℕ
one_if true = 1
one_if false = 0

-- `tv.tv_sec` and `tv.tv_usec`
abbrev pub seconds : ℕ → ℕ
seconds millis = millis / 1000

abbrev pub microseconds : ℕ → ℕ
microseconds millis = millis % 1000 * 1000

-- O_NONBLOCK is 1 << 11 on Linux.
abbrev pub nonblock_flags : Bool → ℕ → ℕ
nonblock_flags true flags = or_bit 11 flags
nonblock_flags false flags = if has_bit 11 flags then flags - 2 ^ 11 else flags

-- `linen_socket_set_nonblocking` after F_GETFL
abbrev pub nonblocking_after :
    {W : Type 0} → (ℕ → W → Answer (Unit {0}) × W) → Bool → Answer ℕ × W → Result (Unit {0}) × W
nonblocking_after setfl enable (failed e, w) = (result (failed e), w)
nonblocking_after setfl enable (answered flags, w) =
    let (r, w') = setfl (nonblock_flags enable flags) w in (result r, w')

-- `switch (how)`
abbrev pub how_of : ℕ → Option How
how_of how =
    if how == 0
    then some shut_rd
    else if how == 1
    then some shut_wr
    else if how == 2
    then some shut_rdwr
    else none

abbrev pub shutdown_how :
    {W : Type 0} → (How → W → Answer (Unit {0}) × W) → Option How → W → Result (Unit {0}) × W
shutdown_how call none w = (error (user_error "shutdown: invalid how value"), w)
shutdown_how call (some how) w = let (r, w') = call how w in (result r, w')

module _ {W : Type 0} (sys : Control W) (fd : Fd) where
  set_option : SockOpt → W → Result (Unit {0}) × W
  set_option o w = let (r, w') = sys.setsockopt fd o w in (result r, w')

  pub set_reuseaddr : Bool → W → Result (Unit {0}) × W
  unfolding set_option
  set_reuseaddr enable w = set_option (so_reuseaddr (one_if enable)) w

  pub set_nodelay : Bool → W → Result (Unit {0}) × W
  unfolding set_option
  set_nodelay enable w = set_option (tcp_nodelay (one_if enable)) w

  pub set_keepalive : Bool → W → Result (Unit {0}) × W
  unfolding set_option
  set_keepalive enable w = set_option (so_keepalive (one_if enable)) w

  pub set_linger : Bool → ℕ → W → Result (Unit {0}) × W
  unfolding set_option
  set_linger enable secs w = set_option (so_linger (one_if enable) (int_of_size secs)) w

  pub set_recv_timeout : ℕ → W → Result (Unit {0}) × W
  unfolding set_option
  set_recv_timeout millis w = set_option (so_rcvtimeo (seconds millis) (microseconds millis)) w

  pub set_send_timeout : ℕ → W → Result (Unit {0}) × W
  unfolding set_option
  set_send_timeout millis w = set_option (so_sndtimeo (seconds millis) (microseconds millis)) w

  pub set_recvbuf : ℕ → W → Result (Unit {0}) × W
  unfolding set_option
  set_recvbuf sz w = set_option (so_rcvbuf (int_of_size sz)) w

  pub set_sendbuf : ℕ → W → Result (Unit {0}) × W
  unfolding set_option
  set_sendbuf sz w = set_option (so_sndbuf (int_of_size sz)) w

  pub set_nonblocking : Bool → W → Result (Unit {0}) × W
  set_nonblocking enable w = nonblocking_after (sys.setfl fd) enable (sys.getfl fd w)

  pub shutdown : ℕ → W → Result (Unit {0}) × W
  shutdown how w = shutdown_how (sys.shutdown fd) (how_of how) w

  pub listen : ℕ → W → Result (Unit {0}) × W
  listen backlog w = let (r, w') = sys.listen fd (int_of_size backlog) w in (result r, w')

-- `struct rlimit`
pub record Rlimit : Type 0 where
  pub rlim_cur : ℕ
  pub rlim_max : ℕ

-- RLIM_INFINITY on Linux
abbrev pub rlim_infinity : ℕ
rlim_infinity = 2 ^ 64 - 1

-- `getrlimit` and `setrlimit` of RLIMIT_NOFILE; `true` is success
pub record Limits (W : Type 0) : Type 0 where
  pub getrlimit : W → Option Rlimit
  pub setrlimit : Rlimit → W → Bool × W

-- `want`
abbrev pub wanted : ℕ → Rlimit → ℕ
wanted target rl =
    if not (rl.rlim_max == rlim_infinity) && ltb rl.rlim_max target then rl.rlim_max else target

-- the last `getrlimit`, into the `rl` that is there
abbrev pub current : Option Rlimit → Rlimit → ℕ
current none rl = rl.rlim_cur
current (some now) rl = now.rlim_cur

-- `linen_set_fd_limit` after its first `getrlimit`
pub limit_after : {W : Type 0} → Limits W → ℕ → Option Rlimit → W → ℕ × W
limit_after sys target none w = (0, w)
limit_after sys target (some rl) w =
    let want = wanted target rl in
    let (set, w') = sys.setrlimit (record rl { rlim_cur = want }) w in
    let (again, w'') =
      sys.setrlimit (record rl { rlim_cur = if ltb 10240 want then 10240 else want }) w' in
    if set then (current (sys.getrlimit w') rl, w') else (current (sys.getrlimit w'') rl, w'')

-- `linen_set_fd_limit`
pub set_fd_limit : {W : Type 0} → Limits W → ℕ → W → ℕ × W
unfolding limit_after
set_fd_limit sys target w = limit_after sys target (sys.getrlimit w) w

-- `linen_num_cpus`, from `sysconf`
pub num_cpus : ℤ → ℕ
num_cpus (negsuc n) = 1
num_cpus (pos n) = if ltb n 1 then 1 else n
