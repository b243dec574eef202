-- ===== src/Postgres/Connection.antt =====
-- The connections of ffi/postgres.c (`linen_pg_conn_t`).
use linen.Base.{
  ℕ, Bool, true, false, not, Option, some, none, List, [], ◌∷◌, String, ◌==◌, length, ℤ, pos,
  negsuc, int_of_size,
}
use linen.Calls.{
  Code, done, error, described, branch, ◌>>=◌, ◌>>◌, pure, ask, make, make_or, free, when, unless,
}
use linen.Postgres.{
  conn, conn_wrapper, result, result_wrapper, values, memory, on_conn, status, error_message,
  consume_input, reset, put_copy_data, put_copy_end, setnonblocking, connectdb, connect_start,
  malloc_conn, malloc_result, calloc, exec, exec_params, prepare, exec_prepared, escape_literal,
  escape_identifier, notifies, Notify, libpq, fail, word_of,
}
use linen.Postgres.Result.{PgResult}

-- `linen_pg_conn_t`: whether `conn` is not NULL
pub record Conn : Type 0 where
  pub conn_open : Bool

-- `msg ? msg : "unknown PostgreSQL error"`
abbrev pub conn_message : {A : Type 0} → Option (List ℕ) → Code libpq A
conn_message none = fail "unknown PostgreSQL error"
conn_message (some m) = done (error (described "" (some m)))

-- `mk_pg_conn_error`
abbrev pub conn_error : {A : Type 0} → Code libpq A
conn_error = do m ← ask (on_conn true error_message); conn_message m

-- `mk_pg_conn`
abbrev pub mk_conn : Code libpq Conn
mk_conn = do
  make_or conn_wrapper malloc_conn (do free conn; fail "malloc failed for PGconn wrapper")
  pure (record { conn_open = true })

-- `linen_pg_connect`
unfoldable pub connect : List ℕ → Code libpq Conn
connect conninfo = do make_or conn (connectdb conninfo) (fail "PQconnectdb returned NULL"); mk_conn

-- an int that is a constant: CONNECTION_OK is 0, and CONNECTION_BAD 1
abbrev pub is_int : ℕ → ℤ → Bool
is_int k (pos n) = n == k
is_int k (negsuc n) = false

-- `linen_pg_connect_start`
unfoldable pub start_connect : List ℕ → Code libpq Conn
start_connect conninfo = do
  make_or conn (connect_start conninfo) (fail "PQconnectStart returned NULL")
  st ← ask (on_conn true status)
  unless (not (is_int 1 st)) (do m ← ask (on_conn true error_message); free conn; conn_message m)
  mk_conn

-- `linen_pg_close`
unfoldable pub close : Conn → Code libpq Conn
close c = branch c.conn_open (do free conn; pure (record { conn_open = false })) (pure c)

-- `linen_pg_conn_finalizer`
unfoldable pub conn_finalizer : Conn → Code libpq (Unit {0})
conn_finalizer c = do when c.conn_open (free conn); free conn_wrapper

-- `if (!conn) { return mk_pg_io_error(m); }`
abbrev pub with_conn : {A : Type 0} → Conn → String → Code libpq A → Code libpq A
with_conn c m k = branch c.conn_open k (fail m)

-- the result of a query, in its wrapper (`mk_pg_result`), or the connection's error
abbrev pub mk_result : Option (Unit {0}) → Code libpq PgResult
mk_result none = conn_error
mk_result (some r) = do
  make_or result_wrapper malloc_result (do free result; fail "malloc failed for PGresult wrapper")
  pure (record { has_result = true })

-- `linen_pg_exec`
unfoldable pub exec_query : Conn → List ℕ → Code libpq PgResult
exec_query c query =
    with_conn c "pg_exec: connection is closed" (do r ← make result (exec query); mk_result r)

-- `linen_pg_exec_params`, with `build_param_values`: no array for no parameters
unfoldable pub exec_with : Conn → List ℕ → List (Option (List ℕ)) → Code libpq PgResult
exec_with c query [] =
    with_conn c "pg_exec_params: connection is closed"
      (do r ← make result (exec_params query (int_of_size 0) []); mk_result r)
exec_with c query (p ∷ ps) = with_conn c "pg_exec_params: connection is closed" (do
  make_or values (calloc (length (p ∷ ps))) (fail "pg_exec_params: malloc failed")
  r ← make result (exec_params query (int_of_size (length (p ∷ ps))) (p ∷ ps))
  free values
  mk_result r)

-- `linen_pg_prepare`
unfoldable pub prepare_stmt : Conn → List ℕ → List ℕ → Code libpq PgResult
prepare_stmt c name query =
    with_conn c "pg_prepare: connection is closed"
      (do r ← make result (prepare name query); mk_result r)

-- `linen_pg_exec_prepared`
unfoldable pub exec_stmt : Conn → List ℕ → List (Option (List ℕ)) → Code libpq PgResult
exec_stmt c name [] =
    with_conn c "pg_exec_prepared: connection is closed"
      (do r ← make result (exec_prepared name (int_of_size 0) []); mk_result r)
exec_stmt c name (p ∷ ps) = with_conn c "pg_exec_prepared: connection is closed" (do
  make_or values (calloc (length (p ∷ ps))) (fail "pg_exec_prepared: malloc failed")
  r ← make result (exec_prepared name (int_of_size (length (p ∷ ps))) (p ∷ ps))
  free values
  mk_result r)

-- the escaped text, which is copied and freed
abbrev pub copy_escaped : Option (List ℕ) → Code libpq (List ℕ)
copy_escaped none = conn_error
copy_escaped (some s) = do free memory; pure s

-- `linen_pg_escape_literal`
unfoldable pub literal : Conn → List ℕ → Code libpq (List ℕ)
literal c s =
    with_conn c "pg_escape_literal: connection is closed"
      (do e ← make memory (escape_literal s); copy_escaped e)

-- `linen_pg_escape_identifier`
unfoldable pub identifier : Conn → List ℕ → Code libpq (List ℕ)
identifier c s =
    with_conn c "pg_escape_identifier: connection is closed"
      (do e ← make memory (escape_identifier s); copy_escaped e)

-- the triple of a notification, which is then freed
abbrev pub copy_notify : Option Notify → Code libpq (Option (List ℕ × List ℕ × ℕ))
copy_notify none = pure none
copy_notify (some n) = do free memory; pure (some (n.channel, n.payload, word_of 32 n.be_pid))

-- `linen_pg_notifies`
unfoldable pub next_notify : Conn → Code libpq (Option (List ℕ × List ℕ × ℕ))
next_notify c =
    with_conn c "pg_notifies: connection is closed" (do n ← make memory notifies; copy_notify n)

-- `linen_pg_consume_input`
unfoldable pub consume : Conn → Code libpq ℕ
consume c =
    with_conn c "pg_consume_input: connection is closed"
      (do n ← ask (on_conn true consume_input); pure (word_of 8 n))

-- `ret == -1`
abbrev pub is_minus_one : ℤ → Bool
is_minus_one (pos n) = false
is_minus_one (negsuc n) = n == 0

-- an error of the connection, or the int as a byte
abbrev pub byte_or_error : ℤ → Code libpq ℕ
byte_or_error ret = do unless (not (is_minus_one ret)) conn_error; pure (word_of 8 ret)

-- `linen_pg_put_copy_data`, which takes the length as `(int)`
unfoldable pub copy_data : Conn → List ℕ → Code libpq ℕ
copy_data c bytes = with_conn c "pg_put_copy_data: connection is closed" (do
  ret ← ask (on_conn true (put_copy_data bytes (int_of_size (length bytes))))
  byte_or_error ret)

-- `(strlen(errmsg) == 0) ? NULL : errmsg`
abbrev pub abort_message : List ℕ → Option (List ℕ)
abort_message [] = none
abort_message (b ∷ bs) = some (b ∷ bs)

-- `linen_pg_put_copy_end`
unfoldable pub copy_end : Conn → List ℕ → Code libpq ℕ
copy_end c errmsg =
    with_conn c "pg_put_copy_end: connection is closed"
      (do ret ← ask (on_conn true (put_copy_end (abort_message errmsg))); byte_or_error ret)

-- `ret == 0 ? 0 : 1`
abbrev pub zero_or_one : Bool → ℕ
zero_or_one true = 0
zero_or_one false = 1

-- `linen_pg_set_nonblocking`
unfoldable pub make_nonblocking : Conn → ℕ → Code libpq ℕ
make_nonblocking c arg =
    with_conn c "pg_set_nonblocking: connection is closed"
      (do ret ← ask (on_conn true (setnonblocking arg)); pure (zero_or_one (is_int 0 ret)))

-- `linen_pg_reset`
unfoldable pub reset_conn : Conn → Code libpq (Unit {0})
reset_conn c =
    with_conn c "pg_reset: connection is closed"
      (do ask (on_conn true reset); st ← ask (on_conn true status); unless (is_int 0 st) conn_error)
