-- ===== src/Socket/Options/Examples.antt =====
-- A socket whose only state is its flags, and a limit on open files that a success replaces.
use linen.Base.{ℕ, refl, true, some}
use linen.Socket.{answered}
use linen.Socket.Options.{Control, Rlimit, Limits}
use linen.Socket.Options.Laws.{IsLimits}

abbrev flagged : Control ℕ
flagged = record {
  setsockopt = λ fd o w. (answered tt, w);
  getfl = λ fd w. (answered w, w);
  setfl = λ fd flags w. (answered tt, flags);
  shutdown = λ fd how w. (answered tt, w);
  listen = λ fd backlog w. (answered tt, w);
}

abbrev replaced : Limits Rlimit
replaced = record { getrlimit = λ w. some w; setrlimit = λ rl w. (true, rl) }

replaced-IsLimits : IsLimits replaced
replaced-IsLimits rl w h = refl
