-- ===== src/Postgres/Life.antt =====
-- The lives of a connection and its results in ffi/postgres.c.
pub mod Results
pub mod Frees
use linen.Base.{ℕ, ◌≡◌, refl, Bool, true, false, Option, some, none, List, [], ◌∷◌, arith}
use linen.Calls.{Code, Exit, ok, error, Prog, done, and_then, Library, run}
use linen.Calls.Legal.{Legal, Legal-run, Legal-and_then, SomeIs, after_all, has_all}
use linen.Postgres.{
  Call, Reply, Object, conn, conn_wrapper, result, result_wrapper, ConnCall, on_conn, uses, libpq,
}
use linen.Postgres.Result.{PgResult}
use linen.Postgres.Connection
use linen.Postgres.Connection.{Conn, with_conn}
use linen.Postgres.Getters
use linen.Postgres.Life.Results.{
  Any, held_if, conn_held, result_held, ResultOp, result_life, result_life-Legal,
}

-- how a connection is opened
pub data Opening : Type 0 where
  connects starts : List ℕ → Opening

-- what Lean calls on a connection; a result lives its life
pub data ConnOp : Type 0 where
  closes consumes takes_notify resets : ConnOp
  escapes_literal escapes_identifier copies ends_copy : List ℕ → ConnOp
  sets_nonblocking : ℕ → ConnOp
  gets_status gets_error gets_transaction gets_version gets_socket gets_db gets_user gets_host
        gets_port :
      ConnOp
  polls gets_nonblocking : ConnOp
  execs : List ℕ → List ResultOp → ConnOp
  execs_params : List ℕ → List (Option (List ℕ)) → List ResultOp → ConnOp
  prepares : List ℕ → List ℕ → List ResultOp → ConnOp
  execs_prepared : List ℕ → List (Option (List ℕ)) → List ResultOp → ConnOp

abbrev closed : Conn → Exit Conn → Conn
closed c (ok c') = c'
closed c (error e) = c

abbrev with_result : Conn → List ResultOp → Exit PgResult → Prog libpq Conn
with_result c os (ok r) = and_then (result_life os r) (λ x. done c)
with_result c os (error e) = done c

abbrev keep : {A : Type 0} → Conn → Code libpq A → Prog libpq Conn
keep c p = and_then p (λ r. done c)

pub conn_code : ConnOp → Conn → Prog libpq Conn
conn_code closes c = and_then (Connection.close c) (λ r. done (closed c r))
conn_code consumes c = keep c (Connection.consume c)
conn_code takes_notify c = keep c (Connection.next_notify c)
conn_code resets c = keep c (Connection.reset_conn c)
conn_code (escapes_literal s) c = keep c (Connection.literal c s)
conn_code (escapes_identifier s) c = keep c (Connection.identifier c s)
conn_code (copies bytes) c = keep c (Connection.copy_data c bytes)
conn_code (ends_copy m) c = keep c (Connection.copy_end c m)
conn_code (sets_nonblocking n) c = keep c (Connection.make_nonblocking c n)
conn_code gets_status c = keep c (Getters.conn_status c)
conn_code gets_error c = keep c (Getters.last_error c)
conn_code gets_transaction c = keep c (Getters.transaction c)
conn_code gets_version c = keep c (Getters.version c)
conn_code gets_socket c = keep c (Getters.socket_of c)
conn_code gets_db c = keep c (Getters.db_of c)
conn_code gets_user c = keep c (Getters.user_of c)
conn_code gets_host c = keep c (Getters.host_of c)
conn_code gets_port c = keep c (Getters.port_of c)
conn_code polls c = keep c (Getters.poll_connect c)
conn_code gets_nonblocking c = keep c (Getters.nonblocking c)
conn_code (execs query os) c = and_then (Connection.exec_query c query) (with_result c os)
conn_code (execs_params query ps os) c =
    and_then (Connection.exec_with c query ps) (with_result c os)
conn_code (prepares name query os) c =
    and_then (Connection.prepare_stmt c name query) (with_result c os)
conn_code (execs_prepared name ps os) c =
    and_then (Connection.exec_stmt c name ps) (with_result c os)

-- the calls on a connection, and then its finalizer
pub conn_life : List ConnOp → Conn → Prog libpq (Exit (Unit {0}))
unfolding conn_code
conn_life [] c = Connection.conn_finalizer c
conn_life (o ∷ os) c = and_then (conn_code o c) (λ c'. conn_life os c')

abbrev opened_life : List ConnOp → Exit Conn → Prog libpq (Exit (Unit {0}))
opened_life os (ok c) = conn_life os c
opened_life os (error e) = done (error e)

abbrev opening : Opening → Code libpq Conn
opening (connects conninfo) = Connection.connect conninfo
opening (starts conninfo) = Connection.start_connect conninfo

-- a connection from its opening to its finalizer
pub connection : Opening → List ConnOp → Prog libpq (Exit (Unit {0}))
unfolding conn_life
connection o os = and_then (opening o) (opened_life os)

abbrev Passes : Conn → Prog libpq Conn → Type 0
Passes c p = Legal libpq Any (λ c'. conn_held c') (conn_held c) p

-- what is held when a query has a result, or none
abbrev queried : Conn → Exit PgResult → List Object
queried c (ok r) = result_held r (conn_held c)
queried c (error e) = conn_held c

with_result-Legal :
    (c : Conn) (os : List ResultOp) (r : Exit PgResult)
    → Legal libpq Any (λ c'. conn_held c') (queried c r) (with_result c os r)
with_result-Legal c os (ok r) =
    Legal-and_then libpq Any _ _ _ (result_life os r) (λ x. done c) (result_life-Legal os r c)
      (λ x. refl)
with_result-Legal c os (error e) = refl

abbrev Queries : Conn → Code libpq PgResult → Type 0
Queries c p = Legal libpq Any (queried c) (conn_held c) p

and_then-Passes :
    (c : Conn) (p : Code libpq PgResult) (os : List ResultOp)
    → Queries c p
    → Passes c (and_then p (with_result c os))
and_then-Passes c p os h =
    Legal-and_then libpq Any _ _ _ p (with_result c os) h (with_result-Legal c os)

exec_query-Queries :
    (b : Bool) (query : List ℕ)
    → Queries (record { conn_open = b }) (Connection.exec_query (record { conn_open = b }) query)
unfolding Connection.exec_query
exec_query-Queries true query = ground arith
exec_query-Queries false query = ground arith

exec_with-Queries :
    (b : Bool) (query : List ℕ) (ps : List (Option (List ℕ)))
    → Queries (record { conn_open = b }) (Connection.exec_with (record { conn_open = b }) query ps)
unfolding Connection.exec_with
exec_with-Queries true query [] = ground arith
exec_with-Queries true query (p ∷ ps) = ground arith
exec_with-Queries false query [] = ground arith
exec_with-Queries false query (p ∷ ps) = ground arith

prepare_stmt-Queries :
    (b : Bool) (name query : List ℕ)
    → Queries
        (record { conn_open = b })
        (Connection.prepare_stmt (record { conn_open = b }) name query)
unfolding Connection.prepare_stmt
prepare_stmt-Queries true name query = ground arith
prepare_stmt-Queries false name query = ground arith

exec_stmt-Queries :
    (b : Bool) (name : List ℕ) (ps : List (Option (List ℕ)))
    → Queries (record { conn_open = b }) (Connection.exec_stmt (record { conn_open = b }) name ps)
unfolding Connection.exec_stmt
exec_stmt-Queries true name [] = ground arith
exec_stmt-Queries true name (p ∷ ps) = ground arith
exec_stmt-Queries false name [] = ground arith
exec_stmt-Queries false name (p ∷ ps) = ground arith

conn_code-Passes :
    (o : ConnOp) (b : Bool)
    → Passes (record { conn_open = b }) (conn_code o (record { conn_open = b }))
unfolding conn_code Connection.close Connection.consume Connection.next_notify Connection.reset_conn
    Connection.literal Connection.identifier Connection.copy_data Connection.copy_end
    Connection.make_nonblocking Getters.conn_status Getters.last_error Getters.transaction
    Getters.version Getters.socket_of Getters.db_of Getters.user_of Getters.host_of Getters.port_of
    Getters.poll_connect Getters.nonblocking
conn_code-Passes (execs query os) b = and_then-Passes _ _ os (exec_query-Queries b query)
conn_code-Passes (execs_params query ps os) b =
    and_then-Passes _ _ os (exec_with-Queries b query ps)
conn_code-Passes (prepares name query os) b =
    and_then-Passes _ _ os (prepare_stmt-Queries b name query)
conn_code-Passes (execs_prepared name ps os) b =
    and_then-Passes _ _ os (exec_stmt-Queries b name ps)
conn_code-Passes o true = ground arith
conn_code-Passes o false = ground arith
