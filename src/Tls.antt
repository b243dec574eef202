-- ===== src/Tls.antt =====
-- The TLS sessions of ffi/tls.c (`linen_ssl_t`): handshake, reads, writes and close.
--
-- OpenSSL is a parameter: a call of it changes the state `W` of the world and answers with what
-- `SSL_read`, `SSL_write` or `SSL_do_handshake` returns, the `SSL_get_error` code and the head of the
-- error queue. Each function takes the session's lock for the whole of its body, so a function is one
-- step. Beside its result and the new session a function gives the calls that it made on the SSL
-- object, in order.
pub mod Safety
pub mod Lifetime
pub mod Write
pub mod Setup
pub mod Getters
mod Examples
use linen.Base.{
  ℕ, zero, suc, ◌+◌, ◌-◌, ◌^◌, Bool, true, false, not, ◌&&◌, ◌||◌, List, [], ◌∷◌, ◌++◌, String,
  Option, none, some, ltb, ◌==◌, if◌then◌else◌, length, take, drop,
}

-- `SSL_get_error`
pub data SslError : Type 0 where
  want_read_error want_write_error zero_return syscall_error ssl_error : SslError
  other_error : ℕ → SslError

-- `ERR_peek_error()`: 0, an error with SSL_R_UNEXPECTED_EOF_WHILE_READING, or another
pub data Queued : Type 0 where
  queue_empty unexpected_eof : Queued
  queued : ℕ → Queued

-- The answer of `SSL_read`; `bytes` is empty when it returns n ≤ 0, and only then `err` counts.
pub record ReadReply : Type 0 where
  pub bytes : List ℕ
  pub err : SslError
  pub queue : Queued

-- The answer of `SSL_write` or `SSL_do_handshake`; `n` is 0 when it returns n ≤ 0.
pub record CallReply : Type 0 where
  pub n : ℕ
  pub err : SslError
  pub queue : Queued

-- OpenSSL on one SSL object
pub record Ssl (W : Type 0) : Type 0 where
  pub ssl_read : ℕ → W → ReadReply × W
  pub ssl_write : List ℕ → W → CallReply × W
  pub ssl_do_handshake : W → CallReply × W
  pub ssl_shutdown : W → W
  pub ssl_free : W → W
  pub is_init_finished : W → Bool
  pub get_version : W → List ℕ
  -- none for NULL
  pub get0_alpn_selected : W → Option (List ℕ)

-- `linen_ssl_t`: whether `ssl` is not NULL, and `failed`. (`fd` is only handed to OpenSSL.)
pub record Session : Type 0 where
  pub ssl : Bool
  pub failed : Bool

-- A call on the SSL object: one that can fail, with the error code if it did, one that only asks (the version,
-- the protocol selected, whether the handshake is finished), SSL_shutdown and SSL_free. SSL_get_error goes with
-- the call that failed.
pub data Event : Type 0 where
  io : Option SslError → Event
  asks shuts_down frees : Event

-- an error's text: a literal, the one of the error at the head of OpenSSL's queue, or "SSL error %d"
pub data TlsError : Type 0 where
  message : String → TlsError
  library : Queued → TlsError
  ssl_error_number : SslError → TlsError

-- `mk_io_error`
pub io_error : String → Queued → TlsError
io_error m queue_empty = message m
io_error m q = library q

-- `mk_tls_ssl_error`
pub tls_ssl_error : SslError → Queued → TlsError
tls_ssl_error e queue_empty = ssl_error_number e
tls_ssl_error e q = library q

-- what the blocking functions return
pub data TlsResult (A : Type 0) : Type 0 where
  ok : A → TlsResult A
  error : TlsError → TlsResult A
  out_of_fuel : TlsResult A

-- `TLSOutcome`, tags 0 to 3
pub data TlsOutcome (A : Type 0) : Type 0 where
  done : A → TlsOutcome A
  want_read want_write : TlsOutcome A
  failure : TlsError → TlsOutcome A

-- INT32_MAX
abbrev pub int32_max : ℕ
int32_max = 2 ^ 31 - 1

-- `x > (size_t)INT32_MAX ? INT32_MAX : (int)x`
abbrev pub clamp_int : ℕ → ℕ
clamp_int x = if ltb int32_max x then int32_max else x

abbrev pub closed : Session → Session
closed s = record s { ssl = false }

abbrev pub mark_failed : Session → Session
mark_failed s = record s { failed = true }

-- `err != SSL_ERROR_ZERO_RETURN`
abbrev pub is_zero_return : SslError → Bool
is_zero_return zero_return = true
is_zero_return _ = false

-- `linen_tls_is_unexpected_eof`, from OpenSSL 3.0 on
pub is_unexpected_eof : SslError → Queued → Bool
is_unexpected_eof syscall_error queue_empty = true
is_unexpected_eof ssl_error unexpected_eof = true
is_unexpected_eof _ _ = false

-- the event of a call that returned n > 0, or failed
abbrev pub io_event : Bool → SslError → Event
io_event true e = io none
io_event false e = io (some e)

abbrev pub is_some_bytes : List ℕ → Bool
is_some_bytes [] = false
is_some_bytes (b ∷ bs) = true

-- How `linen_tls_read_nb` ends on a failed read, and whether it sets `failed`.
pub read_failure : SslError → Queued → TlsOutcome (List ℕ) × Bool
unfolding is_unexpected_eof tls_ssl_error
read_failure want_read_error q = (want_read, false)
read_failure want_write_error q = (want_write, false)
read_failure zero_return q = (done [], false)
read_failure e q = (if is_unexpected_eof e q then done [] else failure (tls_ssl_error e q), true)

-- How `linen_tls_handshake_nb` and `linen_tls_write_nb` end on a failed call.
pub call_failure : SslError → Queued → TlsOutcome (Unit {0}) × Bool
unfolding tls_ssl_error
call_failure want_read_error q = (want_read, false)
call_failure want_write_error q = (want_write, false)
call_failure e q = (failure (tls_ssl_error e q), true)

-- `wrapper->failed = 1`, if a failure sets it
abbrev pub marked : Session → Bool → Session
marked s true = mark_failed s
marked s false = s

module _ {W : Type 0} (lib : Ssl W) where
  -- `linen_tls_read`
  pub read : ℕ → Session → W → TlsResult (List ℕ) × Session × List Event × W
  read maxlen s w =
      let (r, w') = lib.ssl_read (clamp_int maxlen) w in
      let ev = io_event (is_some_bytes r.bytes) r.err ∷ [] in
      if not s.ssl || maxlen == 0
      then (ok [], s, [], w)
      else if is_some_bytes r.bytes
      then (ok r.bytes, s, ev, w')
      else (ok [], (if is_zero_return r.err then s else mark_failed s), ev, w')

  -- `while (written < len)` in `linen_tls_write`, on the bytes that are left to write
  pub write_loop : ℕ → List ℕ → Session → W → TlsResult (Unit {0}) × Session × List Event × W
  write_loop zero rest s w = (out_of_fuel, s, [], w)
  write_loop (suc f) [] s w = (ok tt, s, [], w)
  write_loop (suc f) (b ∷ bs) s w =
      let rest = b ∷ bs in
      let (r, w') = lib.ssl_write (take (clamp_int (length rest)) rest) w in
      let (res, s', evs, w'') = write_loop f (drop r.n rest) s w' in
      if r.n == 0
      then (error (io_error "SSL_write failed" r.queue), mark_failed s, io (some r.err) ∷ [], w')
      else (res, s', io none ∷ evs, w'')

  -- `linen_tls_write`
  pub write : List ℕ → Session → W → TlsResult (Unit {0}) × Session × List Event × W
  unfolding write_loop io_error
  write bytes s w =
      let r = write_loop (length bytes + 1) bytes s w in
      if s.ssl then r else (error (message "TLS write on closed session"), s, [], w)

  -- `linen_tls_close`
  pub close : Session → W → Session × List Event × W
  close s w =
      if not s.ssl
      then (s, [], w)
      else if s.failed
      then (closed s, frees ∷ [], lib.ssl_free w)
      else if lib.is_init_finished w
      then (closed s, asks ∷ shuts_down ∷ frees ∷ [], lib.ssl_free (lib.ssl_shutdown w))
      else (closed s, asks ∷ frees ∷ [], lib.ssl_free w)

  -- `linen_ssl_finalizer`
  pub finalize : Session → W → List Event × W
  finalize s w = if s.ssl then (frees ∷ [], lib.ssl_free w) else ([], w)

  -- `linen_tls_handshake_nb`
  pub handshake_nb : Session → W → TlsOutcome (Unit {0}) × Session × List Event × W
  unfolding call_failure
  handshake_nb s w =
      let (r, w') = lib.ssl_do_handshake w in
      let (o, marks) = call_failure r.err r.queue in
      if not s.ssl
      then (failure (message "TLS handshake on closed session"), s, [], w)
      else if r.n == 1
      then (done tt, s, io none ∷ [], w')
      else (o, marked s marks, io (some r.err) ∷ [], w')

  -- `linen_tls_read_nb`
  pub read_nb : ℕ → Session → W → TlsOutcome (List ℕ) × Session × List Event × W
  unfolding read_failure
  read_nb maxlen s w =
      let (r, w') = lib.ssl_read (clamp_int maxlen) w in
      let (o, marks) = read_failure r.err r.queue in
      if not s.ssl
      then (failure (message "TLS read on closed session"), s, [], w)
      else if maxlen == 0
      then (done [], s, [], w)
      else if is_some_bytes r.bytes
      then (done r.bytes, s, io none ∷ [], w')
      else (o, marked s marks, io (some r.err) ∷ [], w')

  -- `linen_tls_write_nb`
  pub write_nb : List ℕ → Session → W → TlsOutcome (Unit {0}) × Session × List Event × W
  unfolding call_failure
  write_nb bytes s w =
      let (r, w') = lib.ssl_write bytes w in
      let (o, marks) = call_failure r.err r.queue in
      if not s.ssl
      then (failure (message "TLS write on closed session"), s, [], w)
      else if length bytes == 0
      then (done tt, s, [], w)
      else if ltb int32_max (length bytes)
      then (failure (message "TLS write larger than 2 GiB"), s, [], w)
      else if ltb 0 r.n
      then (done tt, s, io none ∷ [], w')
      else (o, marked s marks, io (some r.err) ∷ [], w')
