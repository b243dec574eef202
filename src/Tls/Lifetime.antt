-- ===== src/Tls/Lifetime.antt =====
-- A session of ffi/tls.c from its SSL object's handing over to its finalizer.
use linen.Base.{ℕ, ◌≡◌, refl, ◌∙◌, Bool, true, false, List, [], ◌∷◌, ◌++◌}
use linen.Tls.{Ssl, Session, Event, read, write, close, finalize, handshake_nb, read_nb, write_nb}
use linen.Tls.Getters.{asked, session_version, session_alpn}
use linen.Tls.Safety.{
  Phase, live, fatal, freed, violated, steps, steps-append, Agrees, read-Keeps, write-Keeps,
  close-Keeps, handshake_nb-Keeps, read_nb-Keeps, write_nb-Keeps,
}

-- a call of an exported function on a session
pub data Call : Type 0 where
  handshakes closes gets_version gets_alpn : Call
  reads nb_reads : ℕ → Call
  writes nb_writes : List ℕ → Call

module _ {W : Type 0} (lib : Ssl W) where
  abbrev pub call : Call → Session → W → Session × List Event × W
  call handshakes s w = let (_, s', es, w') = handshake_nb lib s w in (s', es, w')
  call closes s w = close lib s w
  call gets_version s w = (s, (session_version lib s w).1, w)
  call gets_alpn s w = (s, (session_alpn lib s w).1, w)
  call (reads n) s w = let (_, s', es, w') = read lib n s w in (s', es, w')
  call (nb_reads n) s w = let (_, s', es, w') = read_nb lib n s w in (s', es, w')
  call (writes bs) s w = let (_, s', es, w') = write lib bs s w in (s', es, w')
  call (nb_writes bs) s w = let (_, s', es, w') = write_nb lib bs s w in (s', es, w')

  -- Any calls in any order, then the finalizer: the calls of OpenSSL that they make.
  unfoldable pub life : List Call → Session → W → List Event
  life [] s w = (finalize lib s w).0
  life (c ∷ cs) s w = let (s', es, w') = call c s w in es ++ life cs s' w'

  -- a getter asks only what is there
  asks-Agrees :
      (p : Phase) (s : Session) (b : Bool) → s.ssl ≡ b → Agrees s p → Agrees s (steps p (asked b))
  asks-Agrees live s true o h = h
  asks-Agrees fatal s true o h = h
  asks-Agrees freed s true o h = cc
  asks-Agrees violated s true o h = h
  asks-Agrees p s false o h = h

  call-Agrees :
      (p : Phase) (c : Call) (s : Session) (w : W)
      → Agrees s p
      → Agrees (call c s w).0 (steps p (call c s w).1)
  unfolding session_version session_alpn
  call-Agrees p handshakes s w h = (handshake_nb-Keeps lib p s w h).agrees
  call-Agrees p closes s w h = close-Keeps lib p s w h
  call-Agrees p gets_version s w h = asks-Agrees p s s.ssl refl h
  call-Agrees p gets_alpn s w h = asks-Agrees p s s.ssl refl h
  call-Agrees p (reads n) s w h = (read-Keeps lib p n s w h).agrees
  call-Agrees p (nb_reads n) s w h = (read_nb-Keeps lib p n s w h).agrees
  call-Agrees p (writes bs) s w h = (write-Keeps lib p bs s w h).agrees
  call-Agrees p (nb_writes bs) s w h = (write_nb-Keeps lib p bs s w h).agrees

  finalize-frees :
      (p : Phase) (s : Session) (w : W) → Agrees s p → steps p (finalize lib s w).0 ≡ freed
  unfolding finalize
  finalize-frees live s w h = rw h refl
  finalize-frees fatal s w h = rw h.0 refl
  finalize-frees freed s w h = rw h refl
  finalize-frees violated s w h = elim h [ ]

  life-frees :
      (p : Phase) (cs : List Call) (s : Session) (w : W)
      → Agrees s p
      → steps p (life cs s w) ≡ freed
  unfolding life
  life-frees p [] s w h = finalize-frees p s w h
  life-frees p (c ∷ cs) s w h =
      let (s', es, w') = call c s w in
      steps-append p es (life cs s' w') ∙ life-frees (steps p es) cs s' w' (call-Agrees p c s w h)

  -- Whatever exported functions are called on a new session, its getters included, in any order and however OpenSSL answers, the calls that
  -- reach its SSL object keep OpenSSL's protocol up to the finalizer: SSL_shutdown is never called
  -- after a fatal error, nothing is called after SSL_free, and SSL_free is called once.
  pub life_keeps_protocol :
      (cs : List Call) (s : Session) (w : W) → s.ssl ≡ true → steps live (life cs s w) ≡ freed
  life_keeps_protocol cs s w h = life-frees live cs s w h
