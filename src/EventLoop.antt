-- ===== src/EventLoop.antt =====
-- The event loops and the socket handles of ffi/network.c: epoll on Linux, kqueue on macOS.
--
-- The kernel is a parameter: a system call changes the state `W` of the world and answers with an error
-- or a value. A mask that the kernel defines (EPOLLIN, EV_EOF, ...) is a record of its bits; the masks
-- that the code shares with Lean (LINEN_EV_READABLE, ...) are numbers, as there.
pub mod Wait
pub mod Interest
pub mod Lifetime
mod Examples
use linen.Base.{
  ℕ, ◌+◌, ◌-◌, ◌*◌, ◌/◌, ◌%◌, ◌^◌, Bool, true, false, not, ◌&&◌, ◌||◌, Option, none, some, List, [],
  ◌∷◌, ltb, ◌==◌, if◌then◌else◌, has_bit, or_bit, ℤ, pos, negsuc, Fd, int_of_size, is_negative,
  Errno, eexist, enoent, out_of_fuel, eintr, user_error, os_error, Result, ok, error,
}

-- the bits of LINEN_EV_READABLE, LINEN_EV_WRITABLE, LINEN_EV_ERROR and LINEN_EV_ONESHOT
abbrev pub readable : ℕ
readable = 0

abbrev pub writable : ℕ
writable = 1

abbrev pub error_bit : ℕ
error_bit = 2

abbrev pub oneshot : ℕ
oneshot = 3

-- `if (test) flags |= 1 << k;`
abbrev pub or_if : Bool → ℕ → ℕ → ℕ
or_if test k flags = if test then or_bit k flags else flags

-- `ev.events` of a `struct epoll_event`
pub record EpollMask : Type 0 where
  pub epollin : Bool
  pub epollout : Bool
  pub epolloneshot : Bool
  pub epollerr : Bool
  pub epollhup : Bool

-- A `struct epoll_event`, with `data.fd`.
pub record EpollEvent : Type 0 where
  pub mask : EpollMask
  pub fd : Fd

-- epoll, on one epoll descriptor; `none` is success
pub record Epoll (W : Type 0) : Type 0 where
  pub ctl_add : Fd → EpollMask → W → Option Errno × W
  pub ctl_mod : Fd → EpollMask → W → Option Errno × W
  pub ctl_del : Fd → W → Option Errno × W
  pub epoll_wait : ℕ → ℤ → W → Result (List EpollEvent) × W

-- a `struct kevent`'s filter
pub data Filter : Type 0 where
  evfilt_read evfilt_write : Filter
  evfilt_other : ℕ → Filter

-- a `struct kevent` that the kernel reports, with its flags
pub record Kevent : Type 0 where
  pub ident : ℕ
  pub filter : Filter
  pub ev_error : Bool
  pub ev_eof : Bool

-- a change that the code asks for: EV_ADD | EV_ENABLE, perhaps EV_ONESHOT, or EV_DELETE
pub data Change : Type 0 where
  ev_add : Filter → Fd → Bool → Change
  ev_delete : Filter → Fd → Change

-- kqueue, on one kqueue descriptor; a timeout is seconds and nanoseconds, `none` for ever
pub record Kqueue (W : Type 0) : Type 0 where
  pub change : List Change → W → Option Errno × W
  pub kevent_wait : ℕ → Option (ℕ × ℕ) → W → Result (List Kevent) × W

-- MAX_EVENTS
abbrev pub max_events : ℕ
max_events = 64

-- `lean_io_result_mk_ok(lean_box(0))`, or the error of errno
abbrev pub done_or : Option Errno → Result (Unit {0})
done_or none = ok tt
done_or (some e) = error (os_error e)

-- the mask of `linen_event_loop_add`
pub epoll_mask : ℕ → EpollMask
epoll_mask events = record {
  epollin = has_bit readable events;
  epollout = has_bit writable events;
  epolloneshot = has_bit oneshot events;
  epollerr = false;
  epollhup = false;
}

-- the flags of one event in `linen_event_loop_wait`
pub epoll_flags : EpollMask → ℕ
epoll_flags m =
    or_if (m.epollerr || m.epollhup) error_bit
      (or_if m.epollout writable (or_if m.epollin readable 0))

-- `(size_t)fd`
abbrev pub size_of_fd : Fd → ℕ
size_of_fd (pos n) = n
size_of_fd (negsuc n) = 2 ^ 64 - 1 - n

pub is_filter_read : Filter → Bool
is_filter_read evfilt_read = true
is_filter_read _ = false

pub is_filter_write : Filter → Bool
is_filter_write evfilt_write = true
is_filter_write _ = false

-- the same on macOS
pub kqueue_flags : Kevent → ℕ
unfolding is_filter_read is_filter_write
kqueue_flags k = or_if k.ev_eof error_bit (
    or_if k.ev_error error_bit
      (or_if (is_filter_write k.filter) writable (or_if (is_filter_read k.filter) readable 0)))

-- `for (int i = n - 1; i >= 0; i--)`: each event's pair goes before the list, from the last event on;
-- the events come here in that order.
pub prepend_all : {A : Type 0} → (A → ℕ × ℕ) → List A → List (ℕ × ℕ) → List (ℕ × ℕ)
prepend_all entry [] list = list
prepend_all entry (e ∷ es) list = prepend_all entry es (entry e ∷ list)

-- the last event first
pub from_last : {A : Type 0} → List A → List A → List A
from_last [] acc = acc
from_last (e ∷ es) acc = from_last es (e ∷ acc)

-- What `linen_event_loop_wait` returns for the answer of the kernel.
pub waited : {A : Type 0} → (A → ℕ × ℕ) → Result (List A) → Result (List (ℕ × ℕ))
unfolding prepend_all from_last
waited entry (ok es) = ok (prepend_all entry (from_last es []) [])
waited entry (error (os_error eintr)) = ok []
waited entry (error e) = error e
waited entry out_of_fuel = out_of_fuel

-- How `linen_event_loop_add` ends after EPOLL_CTL_ADD, given what EPOLL_CTL_MOD would do.
pub add_after : {W : Type 0} → Option Errno → Option Errno × W → W → Result (Unit {0}) × W
add_after none modded w = (ok tt, w)
add_after (some eexist) modded w = (done_or modded.0, modded.1)
add_after (some e) modded w = (error (os_error e), w)

-- how `linen_event_loop_del` ends after EPOLL_CTL_DEL
pub del_after : Option Errno → Result (Unit {0})
del_after none = ok tt
del_after (some enoent) = ok tt
del_after (some e) = error (os_error e)

module _ {W : Type 0} (epoll : Epoll W) where
  -- `linen_event_loop_add` on Linux, for the descriptor of the socket
  pub add : Fd → ℕ → W → Result (Unit {0}) × W
  unfolding epoll_mask add_after
  add fd events w =
      let (e, w') = epoll.ctl_add fd (epoll_mask events) w in
      add_after e (epoll.ctl_mod fd (epoll_mask events) w') w'

  -- `linen_event_loop_del` on Linux
  pub del : Fd → W → Result (Unit {0}) × W
  unfolding del_after
  del fd w = let (e, w') = epoll.ctl_del fd w in (del_after e, w')

  -- `linen_event_loop_wait` on Linux
  pub wait : ℕ → W → Result (List (ℕ × ℕ)) × W
  unfolding epoll_flags waited
  wait timeout_ms w =
      let (r, w') = epoll.epoll_wait max_events (int_of_size timeout_ms) w in
      (waited (λ e. (size_of_fd e.fd, epoll_flags e.mask)) r, w')

-- `changes` of `linen_event_loop_add` on macOS
abbrev pub changes : Fd → ℕ → List Change
changes fd events =
    let one = has_bit oneshot events in
    let write_change = if has_bit writable events then ev_add evfilt_write fd one ∷ [] else [] in
    if has_bit readable events then ev_add evfilt_read fd one ∷ write_change else write_change

-- `(int64_t)timeout_ms >= 0`, and the `struct timespec`
abbrev pub timespec : ℕ → Option (ℕ × ℕ)
timespec timeout_ms =
    if ltb timeout_ms (2 ^ 63) then some (timeout_ms / 1000, timeout_ms % 1000 * 1000000) else none

module _ {W : Type 0} (kqueue : Kqueue W) where
  -- `linen_event_loop_add` on macOS
  pub kqueue_add : Fd → ℕ → W → Result (Unit {0}) × W
  kqueue_add fd events w =
      let (e, w') = kqueue.change (changes fd events) w in
      elim (changes fd events) [
        | [] ↦ (error (user_error "event_loop_add: no events specified"), w)
        | c ∷ cs ↦ (done_or e, w')
      ]

  -- `linen_event_loop_del` on macOS
  pub kqueue_del : Fd → W → Result (Unit {0}) × W
  kqueue_del fd w =
      let (_, w') = kqueue.change (ev_delete evfilt_read fd ∷ []) w in
      let (_, w'') = kqueue.change (ev_delete evfilt_write fd ∷ []) w' in (ok tt, w'')

  -- `linen_event_loop_wait` on macOS
  pub kqueue_wait : ℕ → W → Result (List (ℕ × ℕ)) × W
  unfolding kqueue_flags waited
  kqueue_wait timeout_ms w =
      let (r, w') = kqueue.kevent_wait max_events (timespec timeout_ms) w in
      (waited (λ k. (k.ident, kqueue_flags k)) r, w')

-- The handles: a socket or an event loop is its descriptor, -1 once it is closed.
module _ {W : Type 0} (opens : W → Result ℕ × W) where
  -- `linen_event_loop_create`, with `epoll_create1` or `kqueue` for `opens`
  pub loop_create : W → Result Fd × W
  loop_create w =
      let (r, w') = opens w in
      elim r [
        | ok fd ↦ (ok (pos fd), w')
        | error e ↦ (error e, w')
        | out_of_fuel ↦ (out_of_fuel, w')
      ]

-- How a close by hand ends after `close`, and the handle that it leaves.
pub close_after : ℕ → Option Errno → Result (Unit {0}) × Fd
close_after fd none = (ok tt, negsuc 0)
close_after fd (some e) = (error (os_error e), pos fd)

module _ {W : Type 0} (close : ℕ → W → Option Errno × W) where
  -- `linen_event_loop_close`, and `linen_socket_close`
  pub close_handle : Fd → W → Result (Unit {0}) × Fd × W
  unfolding close_after
  close_handle (negsuc n) w = (ok tt, negsuc n, w)
  close_handle (pos fd) w = let (e, w') = close fd w in let (r, h) = close_after fd e in (r, h, w')

  -- `linen_event_loop_finalizer`, and `linen_socket_finalizer`
  pub finalize_handle : Fd → W → W
  finalize_handle (pos fd) w = (close fd w).1
  finalize_handle (negsuc n) w = w
