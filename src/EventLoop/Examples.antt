-- ===== src/EventLoop/Examples.antt =====
-- An epoll descriptor that is its interest list, a kernel that reports two events, and a `close` that
-- counts its calls.
use linen.Base.{
  subst, suc, ◌≡◌, refl, true, false, ◌||◌, Option, none, some, List, [], ◌∷◌, map, pos, Fd, Errno,
  eexist, enoent, errno_other, ok,
}
use mathlib.Core.Option.{some_inj}
use linen.EventLoop.{
  EpollMask, EpollEvent, Epoll, epoll_mask, epoll_flags, size_of_fd, add, del, wait,
}
use linen.EventLoop.Wait.{Flags, wait_reports}
use linen.EventLoop.Interest.{
  Interests, set_interest, AddError, DelError, IsEpoll, IsMask, Sets, add-Sets, del-Sets,
}
use linen.EventLoop.Lifetime.{handle_life, handle_life_once, handle_life-recloses}

abbrev read_mask : EpollMask
read_mask = record {
  epollin = true;
  epollout = false;
  epolloneshot = false;
  epollerr = false;
  epollhup = true;
}

abbrev two_events : List EpollEvent
two_events = record { mask = read_mask; fd = pos 7 } ∷ record { mask = read_mask; fd = pos 9 } ∷ []

abbrev add_interest : Fd → EpollMask → Option EpollMask → Interests → Option Errno × Interests
add_interest fd m none i = (none, set_interest fd (some m) i)
add_interest fd m (some old) i = (some eexist, i)

abbrev del_interest : Fd → Option EpollMask → Interests → Option Errno × Interests
del_interest fd none i = (some enoent, i)
del_interest fd (some old) i = (none, set_interest fd none i)

abbrev simple : Epoll Interests
simple = record {
  ctl_add = λ fd m i. add_interest fd m (i fd) i;
  ctl_mod = λ fd m i. (none, set_interest fd (some m) i);
  ctl_del = λ fd i. del_interest fd (i fd) i;
  epoll_wait = λ n t i. (ok two_events, i);
}

add_interest-sets :
    (fd : Fd) (m : EpollMask) (o : Option EpollMask) (i : Interests)
    → (add_interest fd m o i).0 ≡ none
    → (add_interest fd m o i).1 ≡ set_interest fd (some m) i
add_interest-sets fd m none i h = refl
add_interest-sets fd m (some old) i h = cc

add_interest-fails :
    (fd : Fd) (m : EpollMask) (o : Option EpollMask) (i : Interests) (e : Errno)
    → (add_interest fd m o i).0 ≡ some e
    → (add_interest fd m o i).1 ≡ i
add_interest-fails fd m none i e h = cc
add_interest-fails fd m (some old) i e h = refl

del_interest-sets :
    (fd : Fd) (o : Option EpollMask) (i : Interests)
    → (del_interest fd o i).0 ≡ none
    → (del_interest fd o i).1 ≡ set_interest fd none i
del_interest-sets fd none i h = cc
del_interest-sets fd (some old) i h = refl

del_interest-fails :
    (fd : Fd) (o : Option EpollMask) (i : Interests) (e : Errno)
    → (del_interest fd o i).0 ≡ some e
    → ((del_interest fd o i).1 ≡ i) × (o ≡ none)
del_interest-fails fd none i e h = (refl, refl)
del_interest-fails fd (some old) i e h = cc

add_interest-errors :
    (fd : Fd) (m : EpollMask) (o : Option EpollMask) (i : Interests) (e : Errno)
    → (add_interest fd m o i).0 ≡ some e
    → AddError o e
add_interest-errors fd m none i e h = cc
add_interest-errors fd m (some old) i e h =
    subst (λ x. AddError (some old) x) (some_inj.0 h) (λ n. cc)

del_interest-errors :
    (fd : Fd) (o : Option EpollMask) (i : Interests) (e : Errno)
    → (del_interest fd o i).0 ≡ some e
    → DelError e
del_interest-errors fd none i e h = subst DelError (some_inj.0 h) tt
del_interest-errors fd (some old) i e h = cc

simple-IsEpoll : IsEpoll simple
simple-IsEpoll = record {
  interest = λ i. i;
  adds = λ fd m i. add_interest-sets fd m (i fd) i;
  mods = λ fd m i h. refl;
  dels = λ fd i. del_interest-sets fd (i fd) i;
  add_fails = λ fd m i. add_interest-fails fd m (i fd) i;
  mod_fails = λ fd m i e h. cc;
  del_fails = λ fd i e h. (del_interest-fails fd (i fd) i e h).0;
  is_socket = λ i fd. true;
  stays_socket = λ fd m i s. refl;
  add_errors = λ fd m i e s. add_interest-errors fd m (i fd) i e;
  mod_errors = λ fd m i e s n h. cc;
  del_errors = λ fd i e s. del_interest-errors fd (i fd) i e;
  del_missing = λ fd i h. (del_interest-fails fd (i fd) i enoent h).1;
}

abbrev registered : Interests
registered = set_interest (pos 7) (some read_mask) (λ x. none)

add-Sets_example :
    IsMask 11 (epoll_mask 11)
    × (let (r, w') = add simple (pos 7) 11 registered in
        Sets
          (pos 7)
          (some (epoll_mask 11))
          registered
          (simple-IsEpoll.is_socket registered (pos 7) ≡ true)
          r
          w')
unfolding simple-IsEpoll add
add-Sets_example = add-Sets simple simple-IsEpoll (pos 7) 11 registered

del-Sets_example :
    let (r, w') = del simple (pos 9) registered in
    Sets (pos 9) none registered (simple-IsEpoll.is_socket registered (pos 9) ≡ true) r w'
unfolding simple-IsEpoll del
del-Sets_example = del-Sets simple simple-IsEpoll (pos 9) registered

wait_reports_example :
    ((wait simple 5 registered).0
      ≡ ok (map (λ e. (size_of_fd e.fd, epoll_flags e.mask)) two_events))
    × ((m : EpollMask) → Flags (epoll_flags m) m.epollin m.epollout (m.epollerr || m.epollhup))
wait_reports_example = wait_reports simple 5 registered two_events refl

handle_life_once_example : handle_life (λ fd w. (none, suc w)) 3 (pos 5) 0 ≡ 1
handle_life_once_example = handle_life_once (λ fd w. (none, suc w)) 3 5 0 refl

handle_life-recloses_example : handle_life (λ fd w. (some (errno_other 5), suc w)) 1 (pos 5) 0 ≡ 2
handle_life-recloses_example =
    handle_life-recloses (λ fd w. (some (errno_other 5), suc w)) 5 0 (errno_other 5) refl
