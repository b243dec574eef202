-- ===== src/Socket/Options/Laws.antt =====
-- What the options and limits of ffi/network.c set.
use linen.Base.{
  ℕ, ◌+◌, ◌*◌, ◌/◌, ◌%◌, ◌^◌, ◌≤◌, ◌<◌, ◌≡◌, refl, ap, subst, inl, inr, Bool, true, false, some,
  min, arith, Bool-cases, has_bit, Fd,
}
use linen.Socket.{answered, result}
use linen.Socket.Options.{
  Control, so_rcvtimeo, so_sndtimeo, seconds, microseconds, nonblock_flags, set_recv_timeout,
  set_send_timeout, set_nonblocking, Rlimit, rlim_infinity, Limits, wanted, current, limit_after,
  set_fd_limit,
}

-- Both timeouts reach the kernel whole, as seconds and microseconds below a second that make up the
-- milliseconds asked for.
timeouts_exact :
    {W : Type 0} (sys : Control W) (fd : Fd) (millis : ℕ) (w : W)
    → (set_recv_timeout sys fd millis w ≡ (
        let (r, w') = sys.setsockopt fd (so_rcvtimeo (seconds millis) (microseconds millis)) w in
        (result r, w')))
      × (set_send_timeout sys fd millis w ≡ (
          let (r, w') = sys.setsockopt fd (so_sndtimeo (seconds millis) (microseconds millis)) w in
          (result r, w')))
      × (seconds millis * 1000000 + microseconds millis ≡ millis * 1000)
      × (microseconds millis < 1000000)
unfolding set_recv_timeout set_send_timeout
timeouts_exact sys fd millis w = (refl, refl, omega arith, omega arith)

-- the flags with bit 11 as asked and all others as they were
abbrev pub OnlyNonblock : Bool → ℕ → ℕ → Type 0
OnlyNonblock enable old new =
    (has_bit 11 new ≡ enable) × (new % 2 ^ 11 ≡ old % 2 ^ 11) × (new / 2 ^ 12 ≡ old / 2 ^ 12)

nonblock_flags-only :
    (enable : Bool) (flags : ℕ) → OnlyNonblock enable flags (nonblock_flags enable flags)
nonblock_flags-only true flags = elim (Bool-cases (has_bit 11 flags)) [
  | inl set ↦ rw set (set, refl, refl)
  | inr unset ↦ rw unset (ground arith, omega arith, ground arith)
]
nonblock_flags-only false flags = elim (Bool-cases (has_bit 11 flags)) [
  | inl set ↦ rw set (ground arith, ground arith, ground arith)
  | inr unset ↦ rw unset (unset, refl, refl)
]

-- When the flags can be read, the mode of a socket is set with flags in which O_NONBLOCK is as asked and
-- every other bit is as it was.
set_nonblocking-only :
    {W : Type 0} (sys : Control W) (fd : Fd) (enable : Bool) (w : W) (flags : ℕ)
    → (sys.getfl fd w).0 ≡ answered flags
    → (new : ℕ) × OnlyNonblock enable flags new
      × (set_nonblocking sys fd enable w
          ≡ (let (r, w') = sys.setfl fd new (sys.getfl fd w).1 in (result r, w')))
unfolding set_nonblocking
set_nonblocking-only sys fd enable w flags h =
    (nonblock_flags enable flags, nonblock_flags-only enable flags, rw h refl)

-- What setrlimit(2) documents: a success sets both limits.
abbrev pub IsLimits : {W : Type 0} → Limits W → Type 0
IsLimits {W} sys =
    (rl : Rlimit) (w : W)
    → (sys.setrlimit rl w).0 ≡ true
    → sys.getrlimit (sys.setrlimit rl w).1 ≡ some rl

limit_after-sets :
    {W : Type 0} (sys : Limits W) (law : IsLimits sys) (target : ℕ) (w : W) (rl : Rlimit)
    → (sys.setrlimit (record rl { rlim_cur = wanted target rl }) w).0 ≡ true
    → let (limit, w') = limit_after sys target (some rl) w in
      (limit ≡ wanted target rl)
      × (sys.getrlimit w' ≡ some (record rl { rlim_cur = wanted target rl }))
unfolding limit_after
limit_after-sets sys law target w rl succeeds =
    let now = law (record rl { rlim_cur = wanted target rl }) w succeeds in
    rw succeeds (ap (λ c. current c rl) now, now)

-- If the first `setrlimit` succeeds, `linen_set_fd_limit` returns, and has set, the target or the hard
-- limit, the smaller one, also when that is below the limit that held before.
set_fd_limit-sets :
    {W : Type 0} (sys : Limits W) (law : IsLimits sys) (target : ℕ) (w : W) (rl : Rlimit)
    → target < rlim_infinity
    → rl.rlim_max ≤ rlim_infinity
    → sys.getrlimit w ≡ some rl
    → (sys.setrlimit (record rl { rlim_cur = min target rl.rlim_max }) w).0 ≡ true
    → let (limit, w') = set_fd_limit sys target w in
      (limit ≡ min target rl.rlim_max)
      × (sys.getrlimit w' ≡ some (record rl { rlim_cur = min target rl.rlim_max }))
unfolding set_fd_limit
set_fd_limit-sets sys law target w rl small bound h succeeds =
    let e : wanted target rl ≡ min target rl.rlim_max = ground arith in
    rw h (
      subst
        (λ m.
          (sys.setrlimit (record rl { rlim_cur = m }) w).0 ≡ true
          → ((limit_after sys target (some rl) w).0 ≡ m)
            × (sys.getrlimit (limit_after sys target (some rl) w).1
                ≡ some (record rl { rlim_cur = m })))
        e (limit_after-sets sys law target w rl) succeeds)
