-- ===== src/Tls/Safety.antt =====
-- The protocol that OpenSSL demands of the calls on one SSL object, and that the sessions of ffi/tls.c
-- keep to: no SSL_shutdown after a fatal error, no call after SSL_free, and one SSL_free in the end.
use linen.Base.{
  ℕ, zero, suc, ◌≡◌, refl, inl, inr, Bool, true, false, not, List, [], ◌∷◌, ◌++◌, arith, none, some,
  ltb, ◌==◌, if◌then◌else◌, Bool-cases, length, drop, take,
}
use linen.Tls.{
  SslError, want_read_error, want_write_error, zero_return, syscall_error, ssl_error, other_error,
  Queued, Ssl, Session, Event, io, asks, shuts_down, frees, error, io_error, mark_failed, marked,
  is_some_bytes, int32_max, clamp_int, read_failure, call_failure, read, write_loop, write, close,
  handshake_nb, read_nb, write_nb,
}

-- SSL_ERROR_SYSCALL and SSL_ERROR_SSL are fatal.
abbrev pub is_fatal : SslError → Bool
is_fatal syscall_error = true
is_fatal ssl_error = true
is_fatal _ = false

-- what the SSL object has been through
pub data Phase : Type 0 where
  live fatal freed violated : Phase

-- A call moves the object on, or violates the protocol.
abbrev pub step : Phase → Event → Phase
step live (io none) = live
step live (io (some e)) = if is_fatal e then fatal else live
step live asks = live
step live shuts_down = live
step live frees = freed
step fatal (io e) = fatal
step fatal asks = fatal
step fatal shuts_down = violated
step fatal frees = freed
step freed e = violated
step violated e = violated

abbrev pub steps : Phase → List Event → Phase
steps p [] = p
steps p (e ∷ es) = steps (step p e) es

-- What a session knows of its object: closed, its object freed; open, its object live, or perhaps
-- fatal if the session is marked.
abbrev pub Agrees : Session → Phase → Type 0
Agrees s live = s.ssl ≡ true
Agrees s fatal = (s.ssl ≡ true) × (s.failed ≡ true)
Agrees s freed = s.ssl ≡ false
Agrees s violated = ⊥

pub steps-append : (p : Phase) (es fs : List Event) → steps p (es ++ fs) ≡ steps (steps p es) fs
steps-append p [] fs = refl
steps-append p (e ∷ es) fs = steps-append (step p e) es fs

not-false : {b : Bool} → not b ≡ false → b ≡ true
not-false {b} h = ground arith

-- What a function of a session does is allowed, and leaves the session knowing its object.
pub record Keeps {W : Type 0} {A : Type 0} (p : Phase) (x : A × Session × List Event × W)
    : Type 0 where
  pub agrees : Agrees x.1 (steps p x.2)

read_failure-marks : (e : SslError) (q : Queued) → is_fatal e ≡ true → (read_failure e q).1 ≡ true
unfolding read_failure
read_failure-marks syscall_error q h = refl
read_failure-marks ssl_error q h = refl
read_failure-marks want_read_error q h = cc
read_failure-marks want_write_error q h = cc
read_failure-marks zero_return q h = cc
read_failure-marks (other_error n) q h = cc

call_failure-marks : (e : SslError) (q : Queued) → is_fatal e ≡ true → (call_failure e q).1 ≡ true
unfolding call_failure
call_failure-marks syscall_error q h = refl
call_failure-marks ssl_error q h = refl
call_failure-marks want_read_error q h = cc
call_failure-marks want_write_error q h = cc
call_failure-marks zero_return q h = cc
call_failure-marks (other_error n) q h = cc

-- A call that succeeds while the session is open leaves the session knowing its object.
done-Agrees : (p : Phase) (s : Session) → Agrees s p → s.ssl ≡ true → Agrees s (step p (io none))
done-Agrees live s h o = h
done-Agrees fatal s h o = h
done-Agrees freed s h o = ground arith
done-Agrees violated s h o = h

-- So does a failed call, if the session is marked at least when the error is fatal.
failed-Agrees :
    (p : Phase) (s : Session) (e : SslError) (marks : Bool)
    → Agrees s p
    → s.ssl ≡ true
    → (is_fatal e ≡ true → marks ≡ true)
    → Agrees (marked s marks) (step p (io (some e)))
failed-Agrees live s e true h o m = elim (Bool-cases (is_fatal e)) [
  | inl t ↦ rw t (h, refl)
  | inr t ↦ rw t h
]
failed-Agrees live s e false h o m = elim (Bool-cases (is_fatal e)) [
  | inl t ↦ ground arith
  | inr t ↦ rw t h
]
failed-Agrees fatal s e true h o m = (h.0, refl)
failed-Agrees fatal s e false h o m = h
failed-Agrees freed s e marks h o m = ground arith
failed-Agrees violated s e marks h o m = elim h [ ]

Keeps-if :
    {W : Type 0} {A : Type 0} (p : Phase) (b : Bool) (x y : A × Session × List Event × W)
    → (b ≡ true → Keeps p x)
    → (b ≡ false → Keeps p y)
    → Keeps p (if b then x else y)
Keeps-if p true x y f g = f refl
Keeps-if p false x y f g = g refl

-- One call of OpenSSL, that succeeds or fails.
call-Keeps :
    {W : Type 0} {A : Type 0} (p : Phase) (s : Session) (b : Bool) (a o : A) (e : SslError)
    (marks : Bool) (w : W)
    → Agrees s p
    → not s.ssl ≡ false
    → (is_fatal e ≡ true → marks ≡ true)
    → Keeps p (if b then (a, s, io none ∷ [], w) else (o, marked s marks, io (some e) ∷ [], w))
call-Keeps p s true a o e marks w h op m = record { agrees = done-Agrees p s h (not-false op) }
call-Keeps p s false a o e marks w h op m = record {
  agrees = failed-Agrees p s e marks h (not-false op) m;
}

module _ {W : Type 0} (lib : Ssl W) where
  pub close-Keeps :
      (p : Phase) (s : Session) (w : W)
      → Agrees s p
      → let (s', es, w') = close lib s w in Agrees s' (steps p es)
  unfolding close
  close-Keeps live s w h = ground arith
  close-Keeps p s w h = ground arith

  pub handshake_nb-Keeps :
      (p : Phase) (s : Session) (w : W) → Agrees s p → Keeps p (handshake_nb lib s w)
  unfolding handshake_nb
  handshake_nb-Keeps p s w h =
      let r = (lib.ssl_do_handshake w).0 in
      Keeps-if p (not s.ssl) _ _ (λ _. record { agrees = h })
        (λ o. call-Keeps p s (r.n == 1) _ _ r.err _ _ h o (call_failure-marks r.err r.queue))

  pub read_nb-Keeps :
      (p : Phase) (n : ℕ) (s : Session) (w : W) → Agrees s p → Keeps p (read_nb lib n s w)
  unfolding read_nb
  read_nb-Keeps p n s w h =
      let r = (lib.ssl_read (clamp_int n) w).0 in
      Keeps-if p (not s.ssl) _ _ (λ _. record { agrees = h })
        (λ o.
          Keeps-if p (n == 0) _ _ (λ _. record { agrees = h })
            (λ _.
              call-Keeps p s (is_some_bytes r.bytes) _ _ r.err _ _ h o
                (read_failure-marks r.err r.queue)))

  pub write_nb-Keeps :
      (p : Phase) (bytes : List ℕ) (s : Session) (w : W)
      → Agrees s p
      → Keeps p (write_nb lib bytes s w)
  unfolding write_nb
  write_nb-Keeps p bytes s w h =
      let r = (lib.ssl_write bytes w).0 in
      Keeps-if p (not s.ssl) _ _ (λ _. record { agrees = h })
        (λ o.
          Keeps-if p (length bytes == 0) _ _ (λ _. record { agrees = h })
            (λ _.
              Keeps-if p (ltb int32_max (length bytes)) _ _ (λ _. record { agrees = h })
                (λ _.
                  call-Keeps p s (ltb 0 r.n) _ _ r.err _ _ h o (call_failure-marks r.err r.queue))))

  -- a call before the others
  again :
      {A : Type 0} {p : Phase} {e : Event} {a : A} {s : Session} {es : List Event} {w : W}
      → Keeps (step p e) (a, s, es, w)
      → Keeps p (a, s, e ∷ es, w)
  again k = record { agrees = k.agrees }

  write_loop-Keeps :
      (p : Phase) (f : ℕ) (bytes : List ℕ) (s : Session) (w : W)
      → Agrees s p
      → s.ssl ≡ true
      → Keeps p (write_loop lib f bytes s w)
  unfolding write_loop
  write_loop-Keeps p zero bytes s w h o = record { agrees = h }
  write_loop-Keeps p (suc f) [] s w h o = record { agrees = h }
  write_loop-Keeps p (suc f) (b ∷ bs) s w h o =
      let (r, w') = lib.ssl_write (take (clamp_int (length (b ∷ bs))) (b ∷ bs)) w in
      Keeps-if p (r.n == 0)
        (error (io_error "SSL_write failed" r.queue), mark_failed s, io (some r.err) ∷ [], w') _
        (λ _. record { agrees = failed-Agrees p s r.err true h o (λ _. refl) })
        (λ _.
          again (
            write_loop-Keeps (step p (io none)) f (drop r.n (b ∷ bs)) s w' (done-Agrees p s h o) o))

  pub write-Keeps :
      (p : Phase) (bytes : List ℕ) (s : Session) (w : W)
      → Agrees s p
      → Keeps p (write lib bytes s w)
  unfolding write
  write-Keeps p bytes s w h =
      Keeps-if p s.ssl _ _ (λ o. write_loop-Keeps p _ bytes s w h o) (λ _. record { agrees = h })

  pub read-Keeps : (p : Phase) (n : ℕ) (s : Session) (w : W) → Agrees s p → Keeps p (read lib n s w)
  unfolding read
  read-Keeps p n s w h = record { agrees = rk p h }
    where
      rk : (p : Phase) → Agrees s p → Agrees (read lib n s w).1 (steps p (read lib n s w).2)
      rk live h = ground arith
      rk p h = ground arith
