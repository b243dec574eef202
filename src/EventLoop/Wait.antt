-- ===== src/EventLoop/Wait.antt =====
-- What `linen_event_loop_wait` of ffi/network.c reports, and how long it waits, on both platforms.
use linen.Base.{
  ℕ, ◌+◌, ◌*◌, ◌/◌, ◌%◌, ◌^◌, ◌<◌, ◌≡◌, refl, ap, ◌∙◌, Bool, true, false, ◌||◌, some, List, [], ◌∷◌,
  ◌++◌, map, append-nil, arith, lt→ltb, pos, has_bit, int_of_size, int_of_size-small,
  int_of_size-wraps, ok,
}
use linen.EventLoop.{
  or_if, readable, writable, error_bit, EpollMask, EpollEvent, Epoll, Kevent, Kqueue, max_events,
  epoll_flags, size_of_fd, is_filter_read, is_filter_write, kqueue_flags, prepend_all, from_last,
  waited, wait, timespec, kqueue_wait,
}

prepend_all-from_last :
    {A : Type 0} (entry : A → ℕ × ℕ) (es acc : List A) (list : List (ℕ × ℕ))
    → prepend_all entry (from_last es acc) list ≡ prepend_all entry acc (map entry es ++ list)
unfolding prepend_all from_last
prepend_all-from_last entry [] acc list = refl
prepend_all-from_last entry (e ∷ es) acc list = prepend_all-from_last entry es (e ∷ acc) list

-- Going from the last event to the first, each put before the list, keeps the events' order.
waited-ok :
    {A : Type 0} (entry : A → ℕ × ℕ) (es : List A) → waited entry (ok es) ≡ ok (map entry es)
unfolding waited prepend_all
waited-ok entry es =
    ap (λ l. ok l) (prepend_all-from_last entry es [] [] ∙ append-nil (map entry es))

-- three bits set in turn
or_if_bits :
    (a b c : Bool)
    → let flags = or_if c error_bit (or_if b writable (or_if a readable 0)) in
      (has_bit readable flags ≡ a) × (has_bit writable flags ≡ b) × (has_bit error_bit flags ≡ c)
or_if_bits true true true = (refl, refl, refl)
or_if_bits true true false = (refl, refl, refl)
or_if_bits true false true = (refl, refl, refl)
or_if_bits true false false = (refl, refl, refl)
or_if_bits false true true = (refl, refl, refl)
or_if_bits false true false = (refl, refl, refl)
or_if_bits false false true = (refl, refl, refl)
or_if_bits false false false = (refl, refl, refl)

-- the last of them set twice
or_if_twice :
    (c d : Bool) (flags : ℕ)
    → or_if d error_bit (or_if c error_bit flags) ≡ or_if (c || d) error_bit flags
or_if_twice true false flags = refl
or_if_twice true true flags = ground arith
or_if_twice false d flags = refl

-- the flags that Lean reads off a number
abbrev pub Flags : ℕ → Bool → Bool → Bool → Type 0
Flags flags r w e =
    (has_bit readable flags ≡ r) × (has_bit writable flags ≡ w) × (has_bit error_bit flags ≡ e)

-- When the kernel reports events, the wait on Linux returns one pair for each, in the kernel's order:
-- its descriptor, and flags whose bits 0, 1 and 2 are EPOLLIN, EPOLLOUT, and EPOLLERR or EPOLLHUP.
pub wait_reports :
    {W : Type 0} (epoll : Epoll W) (timeout_ms : ℕ) (w : W) (es : List EpollEvent)
    → (epoll.epoll_wait max_events (int_of_size timeout_ms) w).0 ≡ ok es
    → ((wait epoll timeout_ms w).0 ≡ ok (map (λ e. (size_of_fd e.fd, epoll_flags e.mask)) es))
      × ((m : EpollMask) → Flags (epoll_flags m) m.epollin m.epollout (m.epollerr || m.epollhup))
unfolding wait epoll_flags
wait_reports epoll timeout_ms w es answer = (
  ap (λ r. waited (λ e. (size_of_fd e.fd, epoll_flags e.mask)) r) answer ∙ waited-ok _ es,
  λ m. or_if_bits m.epollin m.epollout (m.epollerr || m.epollhup),
)

-- The same on macOS: bits 0, 1 and 2 are the read filter, the write filter, and EV_ERROR or EV_EOF.
kqueue_wait_reports :
    {W : Type 0} (kqueue : Kqueue W) (timeout_ms : ℕ) (w : W) (es : List Kevent)
    → (kqueue.kevent_wait max_events (timespec timeout_ms) w).0 ≡ ok es
    → ((kqueue_wait kqueue timeout_ms w).0 ≡ ok (map (λ k. (k.ident, kqueue_flags k)) es))
      × ((k : Kevent)
          → Flags
              (kqueue_flags k)
              (is_filter_read k.filter)
              (is_filter_write k.filter)
              (k.ev_error || k.ev_eof))
unfolding kqueue_wait kqueue_flags
kqueue_wait_reports kqueue timeout_ms w es answer = (
  ap (λ r. waited (λ k. (k.ident, kqueue_flags k)) r) answer ∙ waited-ok _ es,
  λ k.
      rw
        (or_if_twice k.ev_error k.ev_eof
          (or_if (is_filter_write k.filter) writable (or_if (is_filter_read k.filter) readable 0)))
        (or_if_bits (is_filter_read k.filter) (is_filter_write k.filter) (k.ev_error || k.ev_eof)),
)

-- A timeout below 2^31 milliseconds reaches both kernels as it is: `epoll_wait` as an int, and
-- `kevent` as seconds and nanoseconds below a second that make up the same time.
timeouts_agree :
    (t : ℕ)
    → t < 2 ^ 31
    → (int_of_size t ≡ pos t)
      × (timespec t ≡ some (t / 1000, t % 1000 * 1000000))
      × (t / 1000 * 1000000000 + t % 1000 * 1000000 ≡ t * 1000000)
      × (t % 1000 * 1000000 < 1000000000)
timeouts_agree t short =
    (int_of_size-small t short, rw (lt→ltb t (2 ^ 63) (omega arith)) refl, omega arith, omega arith)

-- On Linux only the low 32 bits of the timeout count: a wait of 2^32 milliseconds, or of any multiple
-- of them, more is the same wait.
wait_wraps :
    {W : Type 0} (epoll : Epoll W) (t n : ℕ) (w : W)
    → wait epoll (t + n * 2 ^ 32) w ≡ wait epoll t w
unfolding wait
wait_wraps epoll t n w = rw (int_of_size-wraps t n) refl
