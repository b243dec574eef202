-- ===== src/EventLoop/Interest.antt =====
-- `linen_event_loop_add` and `linen_event_loop_del` of ffi/network.c on Linux, against the interest list
-- of the epoll descriptor: a map from descriptors to masks.
use linen.Base.{
  ℕ, ◌≡◌, refl, subst, ap, ◌∙◌, inl, inr, Bool, true, false, Option, none, some, ◌==◌, ==_iff,
  if◌then◌else◌, Bool-cases, pos, negsuc, Fd, Errno, eagain, ewouldblock, einprogress, eexist,
  enoent, eintr, errno_other, Result, ok, error, out_of_fuel, os_error, user_error, ◌⊎◌, ◌≢◌, sym,
  ◌/◌, ◌%◌, arith,
}
use linen.EventLoop.{EpollMask, Epoll, epoll_mask, done_or, add_after, del_after, add, del}

abbrev pub Interests : Type 0
Interests = Fd → Option EpollMask

abbrev pub same_fd : Fd → Fd → Bool
same_fd (pos a) (pos b) = a == b
same_fd (negsuc a) (negsuc b) = a == b
same_fd _ _ = false

same_fd-eq : (a b : Fd) → same_fd a b ≡ true → a ≡ b
same_fd-eq (pos a) (pos b) h = ap (λ n. pos n) ((==_iff a b).0 h)
same_fd-eq (negsuc a) (negsuc b) h = ap (λ n. negsuc n) ((==_iff a b).0 h)
same_fd-eq (pos a) (negsuc b) h = cc
same_fd-eq (negsuc a) (pos b) h = cc

-- the interests with one descriptor's set
abbrev pub set_interest : Fd → Option EpollMask → Interests → Interests
set_interest fd m i x = if same_fd x fd then m else i x

-- ENOMEM or ENOSPC, out of memory or of watches
abbrev pub IsShort : Errno → Type 0
IsShort (errno_other n) = (n ≡ 12) ⊎ (n ≡ 28)
IsShort _ = ⊥

-- the errors of the three calls on a socket, the first by what it is registered with
abbrev pub AddError : Option EpollMask → Errno → Type 0
AddError registered eexist = registered ≢ none
AddError registered e = IsShort e

abbrev pub DelError : Errno → Type 0
DelError enoent = Unit {0}
DelError e = IsShort e

-- What epoll_ctl(2) documents: a success does what was asked, an error changes nothing, and ENOENT of
-- EPOLL_CTL_DEL says that the descriptor is not registered. On an open socket, and with epoll open, the
-- only errors are EEXIST of EPOLL_CTL_ADD if it is registered, ENOENT if it is not, ENOMEM and ENOSPC.
pub record IsEpoll {W : Type 0} (epoll : Epoll W) : Type 0 where
  pub interest : W → Interests
  pub adds :
      (fd : Fd) (m : EpollMask) (w : W)
      → (epoll.ctl_add fd m w).0 ≡ none
      → interest (epoll.ctl_add fd m w).1 ≡ set_interest fd (some m) (interest w)
  pub mods :
      (fd : Fd) (m : EpollMask) (w : W)
      → (epoll.ctl_mod fd m w).0 ≡ none
      → interest (epoll.ctl_mod fd m w).1 ≡ set_interest fd (some m) (interest w)
  pub dels :
      (fd : Fd) (w : W)
      → (epoll.ctl_del fd w).0 ≡ none
      → interest (epoll.ctl_del fd w).1 ≡ set_interest fd none (interest w)
  pub add_fails :
      (fd : Fd) (m : EpollMask) (w : W) (e : Errno)
      → (epoll.ctl_add fd m w).0 ≡ some e
      → interest (epoll.ctl_add fd m w).1 ≡ interest w
  pub mod_fails :
      (fd : Fd) (m : EpollMask) (w : W) (e : Errno)
      → (epoll.ctl_mod fd m w).0 ≡ some e
      → interest (epoll.ctl_mod fd m w).1 ≡ interest w
  pub del_fails :
      (fd : Fd) (w : W) (e : Errno)
      → (epoll.ctl_del fd w).0 ≡ some e
      → interest (epoll.ctl_del fd w).1 ≡ interest w
  pub is_socket : W → Fd → Bool
  pub stays_socket :
      (fd : Fd) (m : EpollMask) (w : W)
      → is_socket w fd ≡ true
      → is_socket (epoll.ctl_add fd m w).1 fd ≡ true
  pub add_errors :
      (fd : Fd) (m : EpollMask) (w : W) (e : Errno)
      → is_socket w fd ≡ true
      → (epoll.ctl_add fd m w).0 ≡ some e
      → AddError (interest w fd) e
  pub mod_errors :
      (fd : Fd) (m : EpollMask) (w : W) (e : Errno)
      → is_socket w fd ≡ true
      → interest w fd ≢ none
      → (epoll.ctl_mod fd m w).0 ≡ some e
      → IsShort e
  pub del_errors :
      (fd : Fd) (w : W) (e : Errno)
      → is_socket w fd ≡ true
      → (epoll.ctl_del fd w).0 ≡ some e
      → DelError e
  pub del_missing : (fd : Fd) (w : W) → (epoll.ctl_del fd w).0 ≡ some enoent → interest w fd ≡ none

-- A success leaves the descriptor's interest as asked and all others alone; an error leaves all, and on a
-- socket it is ENOMEM or ENOSPC.
abbrev pub Sets :
    Fd → Option EpollMask → Interests → Type 0 → Result (Unit {0}) → Interests → Type 0
Sets fd m old socket (ok u) new = (x : Fd) → new x ≡ set_interest fd m old x
Sets fd m old socket (error (os_error e)) new = ((x : Fd) → new x ≡ old x) × (socket → IsShort e)
Sets fd m old socket (error (user_error t)) new = ⊥
Sets fd m old socket out_of_fuel new = ⊥

-- the mask for the flags of Lean: 1 for reading, 2 for writing, 8 for once
abbrev pub IsMask : ℕ → EpollMask → Type 0
IsMask events m =
    (m.epollin ≡ (events % 2 == 1))
    × (m.epollout ≡ (events / 2 % 2 == 1))
    × (m.epolloneshot ≡ (events / 8 % 2 == 1))
    × (m.epollerr ≡ false)
    × (m.epollhup ≡ false)

epoll_mask-IsMask : (events : ℕ) → IsMask events (epoll_mask events)
unfolding epoll_mask
epoll_mask-IsMask events = (ap (λ n. n == 1) (omega arith), refl, refl, refl, refl)

module _ {W : Type 0} (epoll : Epoll W) (law : IsEpoll epoll) where
  -- EPOLL_CTL_MOD of what is registered, if it is a socket
  modded :
      (fd : Fd) (m : EpollMask) (w : W) (socket : Type 0) (e : Option Errno)
      → (socket → (law.is_socket w fd ≡ true) × (law.interest w fd ≢ none))
      → (epoll.ctl_mod fd m w).0 ≡ e
      → Sets fd (some m) (law.interest w) socket (done_or e) (law.interest (epoll.ctl_mod fd m w).1)
  modded fd m w socket none k h = λ x. ap (λ i. i x) (law.mods fd m w h)
  modded fd m w socket (some e) k h = (
    (λ x. ap (λ i. i x) (law.mod_fails fd m w e h)),
    λ s. law.mod_errors fd m w e (k s).0 (k s).1 h,
  )

  -- The second call, after an EEXIST that changed nothing.
  modded_after :
      (fd : Fd) (m : EpollMask) (w w' : W) (socket : Type 0)
      → law.interest w' ≡ law.interest w
      → (socket → (law.is_socket w' fd ≡ true) × (law.interest w fd ≢ none))
      → Sets fd
          (some m)
          (law.interest w)
          socket
          (done_or (epoll.ctl_mod fd m w').0)
          (law.interest (epoll.ctl_mod fd m w').1)
  modded_after fd m w w' socket same k =
      subst
        (λ i.
          Sets fd (some m) i socket (done_or (epoll.ctl_mod fd m w').0)
            (law.interest (epoll.ctl_mod fd m w').1))
        same
        (modded fd m w' socket (epoll.ctl_mod fd m w').0
          (λ s. ((k s).0, λ n. (k s).1 (ap (λ i. i fd) (sym same) ∙ n))) refl)

  failed_after :
      (fd : Fd) (m : EpollMask) (w : W) (e : Errno)
      → (epoll.ctl_add fd m w).0 ≡ some e
      → ((law.is_socket w fd ≡ true) → IsShort e)
      → Sets fd
          (some m)
          (law.interest w)
          ((law.is_socket w fd ≡ true))
          (error (os_error e))
          (law.interest (epoll.ctl_add fd m w).1)
  failed_after fd m w e h k = ((λ x. ap (λ i. i x) (law.add_fails fd m w e h)), k)

  add_after-Sets :
      (fd : Fd) (m : EpollMask) (w : W) (a : Option Errno)
      → (epoll.ctl_add fd m w).0 ≡ a
      → let w' = (epoll.ctl_add fd m w).1 in
        let (r, w'') = add_after a (epoll.ctl_mod fd m w') w' in
        Sets fd (some m) (law.interest w) ((law.is_socket w fd ≡ true)) r (law.interest w'')
  unfolding add_after
  add_after-Sets fd m w none h = λ x. ap (λ i. i x) (law.adds fd m w h)
  add_after-Sets fd m w (some eexist) h =
      modded_after fd m w (epoll.ctl_add fd m w).1 ((law.is_socket w fd ≡ true))
        (law.add_fails fd m w eexist h)
        (λ s. (law.stays_socket fd m w s, law.add_errors fd m w eexist s h))
  add_after-Sets fd m w (some eagain) h =
      failed_after fd m w eagain h (λ s. law.add_errors fd m w eagain s h)
  add_after-Sets fd m w (some ewouldblock) h =
      failed_after fd m w ewouldblock h (λ s. law.add_errors fd m w ewouldblock s h)
  add_after-Sets fd m w (some einprogress) h =
      failed_after fd m w einprogress h (λ s. law.add_errors fd m w einprogress s h)
  add_after-Sets fd m w (some enoent) h =
      failed_after fd m w enoent h (λ s. law.add_errors fd m w enoent s h)
  add_after-Sets fd m w (some eintr) h =
      failed_after fd m w eintr h (λ s. law.add_errors fd m w eintr s h)
  add_after-Sets fd m w (some (errno_other n)) h =
      failed_after fd m w (errno_other n) h (λ s. law.add_errors fd m w (errno_other n) s h)

  -- Registering a descriptor sets its interest to the mask of the flags, 1 for reading, 2 for writing and 8 for
  -- once, and touches no other; if it fails, nothing has changed. On an open socket, registered before or not,
  -- it fails only with ENOMEM or ENOSPC.
  pub add-Sets :
      (fd : Fd) (events : ℕ) (w : W)
      → IsMask events (epoll_mask events)
        × (let (r, w') = add epoll fd events w in
            Sets fd
              (some (epoll_mask events))
              (law.interest w)
              ((law.is_socket w fd ≡ true))
              r
              (law.interest w'))
  unfolding add
  add-Sets fd events w = (
    epoll_mask-IsMask events,
    add_after-Sets fd (epoll_mask events) w (epoll.ctl_add fd (epoll_mask events) w).0 refl,
  )

  kept :
      (fd : Fd) (w : W) (e : Errno)
      → (epoll.ctl_del fd w).0 ≡ some e
      → (x : Fd) → law.interest (epoll.ctl_del fd w).1 x ≡ law.interest w x
  kept fd w e h x = ap (λ i. i x) (law.del_fails fd w e h)

  -- A descriptor that has no interest is left without one by an ENOENT.
  missing :
      (fd : Fd) (w : W)
      → (epoll.ctl_del fd w).0 ≡ some enoent
      → (x : Fd) → law.interest (epoll.ctl_del fd w).1 x ≡ set_interest fd none (law.interest w) x
  missing fd w h x = elim (Bool-cases (same_fd x fd)) [
    | inl same ↦
        rw same (
          kept fd w enoent h x
          ∙ ap (law.interest w) (same_fd-eq x fd same)
          ∙ law.del_missing fd w h)
    | inr other ↦ rw other (kept fd w enoent h x)
  ]

  del_after-Sets :
      (fd : Fd) (w : W) (e : Option Errno)
      → (epoll.ctl_del fd w).0 ≡ e
      → Sets fd none
          (law.interest w)
          ((law.is_socket w fd ≡ true))
          (del_after e)
          (law.interest (epoll.ctl_del fd w).1)
  unfolding del_after
  del_after-Sets fd w none h = λ x. ap (λ i. i x) (law.dels fd w h)
  del_after-Sets fd w (some enoent) h = missing fd w h
  del_after-Sets fd w (some eagain) h = (kept fd w eagain h, λ s. law.del_errors fd w eagain s h)
  del_after-Sets fd w (some ewouldblock) h =
      (kept fd w ewouldblock h, λ s. law.del_errors fd w ewouldblock s h)
  del_after-Sets fd w (some einprogress) h =
      (kept fd w einprogress h, λ s. law.del_errors fd w einprogress s h)
  del_after-Sets fd w (some eexist) h = (kept fd w eexist h, λ s. law.del_errors fd w eexist s h)
  del_after-Sets fd w (some eintr) h = (kept fd w eintr h, λ s. law.del_errors fd w eintr s h)
  del_after-Sets fd w (some (errno_other n)) h =
      (kept fd w (errno_other n) h, λ s. law.del_errors fd w (errno_other n) s h)

  -- Unregistering a descriptor leaves it without an interest and touches no other; if it fails, nothing has
  -- changed. On an open socket, with an interest or without, it fails only with ENOMEM or ENOSPC.
  pub del-Sets :
      (fd : Fd) (w : W)
      → let (r, w') = del epoll fd w in
        Sets fd none (law.interest w) ((law.is_socket w fd ≡ true)) r (law.interest w')
  unfolding del
  del-Sets fd w = del_after-Sets fd w (epoll.ctl_del fd w).0 refl
