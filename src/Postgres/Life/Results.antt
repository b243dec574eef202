-- ===== src/Postgres/Life/Results.antt =====
-- The life of a result of ffi/postgres.c.
use linen.Base.{ℕ, ◌≡◌, refl, Bool, true, false, List, [], ◌∷◌, arith}
use linen.Calls.{Code, Exit, ok, error, Prog, done, and_then}
use linen.Calls.Legal.{Legal, Legal-and_then, has_all}
use linen.Postgres.{
  Call, Reply, Object, conn, conn_wrapper, result, result_wrapper, ResultCall, on_result, uses,
  libpq,
}
use linen.Postgres.Connection.{Conn}
use linen.Postgres.Result.{
  PgResult, status_of, error_of, count_rows, count_fields, value_at, null_at, field_name,
  field_type, affected, length_at, field_format, bytes_at, clear, result_finalizer,
}

-- nothing is assumed of the answers
abbrev pub Any : (c : Call) → Reply c → Type 0
Any c r = Unit {0}

abbrev pub held_if : Bool → Object → List Object → List Object
held_if true o rest = o ∷ rest
held_if false o rest = rest

-- what a connection holds, and a result
abbrev pub conn_held : Conn → List Object
conn_held c = conn_wrapper ∷ held_if c.conn_open conn []

abbrev pub result_held : PgResult → List Object → List Object
result_held r rest = result_wrapper ∷ held_if r.has_result result rest

-- what Lean calls on a result
pub data ResultOp : Type 0 where
  reads_status reads_error counts_rows counts_fields reads_affected clears : ResultOp
  reads_value reads_null reads_length reads_bytes : ℕ → ℕ → ResultOp
  reads_name reads_type reads_format : ℕ → ResultOp

abbrev keep : {A : Type 0} → PgResult → Code libpq A → Prog libpq PgResult
keep r p = and_then p (λ x. done r)

abbrev cleared : PgResult → Exit PgResult → PgResult
cleared r (ok r') = r'
cleared r (error e) = r

pub result_code : ResultOp → PgResult → Prog libpq PgResult
result_code reads_status r = keep r (status_of r)
result_code reads_error r = keep r (error_of r)
result_code counts_rows r = keep r (count_rows r)
result_code counts_fields r = keep r (count_fields r)
result_code reads_affected r = keep r (affected r)
result_code clears r = and_then (clear r) (λ x. done (cleared r x))
result_code (reads_value row col) r = keep r (value_at r row col)
result_code (reads_null row col) r = keep r (null_at r row col)
result_code (reads_length row col) r = keep r (length_at r row col)
result_code (reads_bytes row col) r = keep r (bytes_at r row col)
result_code (reads_name col) r = keep r (field_name r col)
result_code (reads_type col) r = keep r (field_type r col)
result_code (reads_format col) r = keep r (field_format r col)

-- the calls on a result, and then its finalizer
pub result_life : List ResultOp → PgResult → Prog libpq (Exit (Unit {0}))
unfolding result_code
result_life [] r = result_finalizer r
result_life (o ∷ os) r = and_then (result_code o r) (λ r'. result_life os r')

result_uses :
    (b : Bool) (c : ResultCall) (d : Conn)
    → has_all libpq Any
        (result_held (record { has_result = b }) (conn_held d))
        (uses (on_result b c))
      ≡ true
result_uses true c d = refl
result_uses false c d = refl

abbrev Passes : Conn → PgResult → Prog libpq PgResult → Type 0
Passes d r p = Legal libpq Any (λ r'. result_held r' (conn_held d)) (result_held r (conn_held d)) p

clear-Passes :
    (b : Bool) (d : Conn)
    → Passes d (record { has_result = b }) (result_code clears (record { has_result = b }))
unfolding result_code clear
clear-Passes true d = ground arith
clear-Passes false d = ground arith

result_code-Passes : (o : ResultOp) (r : PgResult) (d : Conn) → Passes d r (result_code o r)
unfolding result_code status_of error_of count_rows count_fields value_at null_at field_name
    field_type affected length_at field_format bytes_at
result_code-Passes clears r d = clear-Passes r.has_result d
result_code-Passes (reads_bytes row col) r d = (
  result_uses r.has_result _ d,
  λ x t. (result_uses r.has_result _ d, λ x t. (refl, λ x t. refl)),
)
result_code-Passes o r d = (result_uses r.has_result _ d, λ x t. refl)

result_finalizer-Legal :
    (b : Bool) (d : Conn)
    → Legal libpq Any
        (λ x. conn_held d)
        (result_held (record { has_result = b }) (conn_held d))
        (result_finalizer (record { has_result = b }))
unfolding result_finalizer
result_finalizer-Legal true d = ground arith
result_finalizer-Legal false d = ground arith

pub result_life-Legal :
    (os : List ResultOp) (r : PgResult) (d : Conn)
    → Legal libpq Any (λ x. conn_held d) (result_held r (conn_held d)) (result_life os r)
unfolding result_life
result_life-Legal [] r d = result_finalizer-Legal r.has_result d
result_life-Legal (o ∷ os) r d =
    Legal-and_then libpq Any _ _ _ (result_code o r) (result_life os) (result_code-Passes o r d)
      (λ r'. result_life-Legal os r' d)
