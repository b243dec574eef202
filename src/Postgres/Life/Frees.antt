-- ===== src/Postgres/Life/Frees.antt =====
-- What a connection of ffi/postgres.c and its results allocate is released.
use linen.Base.{◌≡◌, refl, Bool, true, false, Option, some, none, List, [], ◌∷◌, arith}
use linen.Calls.{Exit, ok, error, Library, run}
use linen.Calls.Legal.{Legal, Legal-run, Legal-and_then, SomeIs, after_all}
use linen.Postgres.{Object, libpq}
use linen.Postgres.Connection
use linen.Postgres.Connection.{Conn}
use linen.Postgres.Life.{
  Opening, connects, starts, ConnOp, conn_code, conn_life, opened_life, opening, connection,
  conn_code-Passes,
}
use linen.Postgres.Life.Results.{Any, conn_held}

conn_finalizer-Legal :
    (b : Bool)
    → Legal libpq Any
        (λ r. [])
        (conn_held (record { conn_open = b }))
        (Connection.conn_finalizer (record { conn_open = b }))
unfolding Connection.conn_finalizer
conn_finalizer-Legal true = ground arith
conn_finalizer-Legal false = ground arith

conn_life-Legal :
    (os : List ConnOp) (c : Conn) → Legal libpq Any (λ r. []) (conn_held c) (conn_life os c)
unfolding conn_life
conn_life-Legal [] c = conn_finalizer-Legal c.conn_open
conn_life-Legal (o ∷ os) c =
    Legal-and_then libpq Any _ _ _ (conn_code o c) (conn_life os) (conn_code-Passes o c.conn_open)
      (conn_life-Legal os)

abbrev opened_held : Exit Conn → List Object
opened_held (ok c) = conn_held c
opened_held (error e) = []

opening-Legal : (o : Opening) → Legal libpq Any opened_held [] (opening o)
unfolding Connection.connect Connection.start_connect
opening-Legal (connects conninfo) = ground arith
opening-Legal (starts conninfo) = ground arith

opened_life-Legal :
    (os : List ConnOp) (r : Exit Conn)
    → Legal libpq Any (λ x. []) (opened_held r) (opened_life os r)
opened_life-Legal os (ok c) = conn_life-Legal os c
opened_life-Legal os (error e) = refl

answered : {B : Type 0} (r : Option B) → SomeIs (λ b. Unit {0}) r
answered none = tt
answered (some b) = tt

-- A connection, opened either way, to its finalizer, with any calls on it and on the results of its queries,
-- in any order, whatever libpq and malloc answer: no call uses a connection after `PQfinish` or a result after
-- `PQclear`, each is released once, with its wrapper, the arrays of parameters and the memory of libpq, and
-- nothing is left. A result is released by its finalizer before the next call on the connection.
pub connection-Releases :
    {W : Type 0} (lib : Library libpq W) (o : Opening) (os : List ConnOp) (w : W)
    → after_all libpq Any (run lib (connection o os) w).1 (some []) ≡ some []
unfolding connection
connection-Releases lib o os w =
    Legal-run libpq Any lib
      (record { made_reply = λ o c w. answered (lib.makes o c w).0; reply = λ c w. tt }) (λ r. [])
      [] (connection o os) w
      (Legal-and_then libpq Any opened_held _ _ (opening o) (opened_life os) (opening-Legal o)
        (opened_life-Legal os))
