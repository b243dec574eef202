-- ===== src/Sqlite/Life.antt =====
-- The lives of a connection and its statements in ffi/sqlite3_shim.c.
pub mod Connection
use linen.Base.{ℕ, ◌≡◌, refl, Bool, true, false, Option, some, none, List, [], ◌∷◌, ℤ, arith}
use linen.Calls.{Code, Exit, ok, error, Prog, done, and_then, ask, ◌>>=◌, Library, run}
use linen.Calls.Legal.{Legal, Legal-run, Legal-and_then, Documented, after_all, has_all}
use linen.Sqlite.{
  Call, Reply, Object, db, wrapper, stmt, stmt_wrapper, sqlite, uses, on_stmt, on_db, StmtCall,
  DbCall, StmtReply,
}
use linen.Sqlite.Statement.{
  Stmt, ask_uint32, step, reset, clear, finalize_stmt, parameter_count, parameter_name,
  parameter_index, count_columns, name_column, int64_bound, double_bound, text_bound, blob_bound,
  null_bound, type_read, int64_read, double_read, text_read, blob_read, stmt_finalizer,
}
use linen.Sqlite.Database.{Database}

-- nothing is assumed of the answers
abbrev pub Any : (c : Call) → Reply c → Type 0
Any c r = Unit {0}

abbrev pub held_if : Bool → Object → List Object → List Object
held_if true o rest = o ∷ rest
held_if false o rest = rest

-- what a connection holds, and a statement
abbrev pub db_held : Database → List Object
db_held d = wrapper ∷ held_if d.db_open db []

abbrev pub stmt_held : Option Stmt → List Object → List Object
stmt_held none rest = rest
stmt_held (some s) rest = stmt_wrapper ∷ held_if s.stmt_open stmt rest

stmt_uses :
    (b : Bool) (c : StmtCall) (d : Database)
    → has_all sqlite Any
        (stmt_held (some (record { stmt_open = b })) (db_held d))
        (uses (on_stmt b c))
      ≡ true
stmt_uses true c d = refl
stmt_uses false c d = refl

-- what Lean calls on a statement; a double is its bits
pub data StmtOp : Type 0 where
  steps resets clears finalizes counts_parameters counts_columns : StmtOp
  names_parameter names_column : ℕ → StmtOp
  finds_parameter : List ℕ → StmtOp
  binds_int64 : ℕ → ℤ → StmtOp
  binds_double : ℕ → ℕ → StmtOp
  binds_text binds_blob : ℕ → List ℕ → StmtOp
  binds_null reads_type reads_int64 reads_double reads_text reads_blob : ℕ → StmtOp

-- the statement after a function that leaves it
abbrev keep : {A : Type 0} → Stmt → Code sqlite A → Prog sqlite Stmt
keep s p = and_then p (λ r. done s)

abbrev finalized : Stmt → Exit (ℕ × Stmt) → Stmt
finalized s (ok r) = r.1
finalized s (error e) = s

pub stmt_code : StmtOp → Stmt → Prog sqlite Stmt
stmt_code steps s = keep s (step s)
stmt_code resets s = keep s (reset s)
stmt_code clears s = keep s (clear s)
stmt_code finalizes s = and_then (finalize_stmt s) (λ r. done (finalized s r))
stmt_code counts_parameters s = keep s (parameter_count s)
stmt_code counts_columns s = keep s (count_columns s)
stmt_code (names_parameter idx) s = keep s (parameter_name s idx)
stmt_code (names_column idx) s = keep s (name_column s idx)
stmt_code (finds_parameter name) s = keep s (parameter_index s name)
stmt_code (binds_int64 idx v) s = keep s (int64_bound s idx v)
stmt_code (binds_double idx v) s = keep s (double_bound s idx v)
stmt_code (binds_text idx v) s = keep s (text_bound s idx v)
stmt_code (binds_blob idx v) s = keep s (blob_bound s idx v)
stmt_code (binds_null idx) s = keep s (null_bound s idx)
stmt_code (reads_type idx) s = keep s (type_read s idx)
stmt_code (reads_int64 idx) s = keep s (int64_read s idx)
stmt_code (reads_double idx) s = keep s (double_read s idx)
stmt_code (reads_text idx) s = keep s (text_read s idx)
stmt_code (reads_blob idx) s = keep s (blob_read s idx)

-- the calls of a statement, and then its finalizer
pub stmt_life : List StmtOp → Stmt → Prog sqlite (Exit (Unit {0}))
unfolding stmt_code
stmt_life [] s = stmt_finalizer s
stmt_life (o ∷ os) s = and_then (stmt_code o s) (λ s'. stmt_life os s')

abbrev Passes : Database → Stmt → Prog sqlite Stmt → Type 0
Passes d s p =
    Legal sqlite Any (λ s'. stmt_held (some s') (db_held d)) (stmt_held (some s) (db_held d)) p

finalize-Passes :
    (b : Bool) (d : Database)
    → Passes d (record { stmt_open = b }) (stmt_code finalizes (record { stmt_open = b }))
unfolding stmt_code finalize_stmt
finalize-Passes true d = ground arith
finalize-Passes false d = ground arith

stmt_code-Passes : (o : StmtOp) (s : Stmt) (d : Database) → Passes d s (stmt_code o s)
unfolding stmt_code step reset clear parameter_count count_columns parameter_name name_column
    parameter_index int64_bound double_bound text_bound blob_bound null_bound type_read int64_read
    double_read text_read blob_read
stmt_code-Passes finalizes s d = finalize-Passes s.stmt_open d
stmt_code-Passes (reads_text idx) s d =
    (stmt_uses s.stmt_open _ d, λ r t. (stmt_uses s.stmt_open _ d, λ r t. refl))
stmt_code-Passes (reads_blob idx) s d =
    (stmt_uses s.stmt_open _ d, λ r t. (stmt_uses s.stmt_open _ d, λ r t. (refl, λ r t. refl)))
stmt_code-Passes o s d = (stmt_uses s.stmt_open _ d, λ r t. refl)

stmt_finalizer-Legal :
    (b : Bool) (d : Database)
    → Legal sqlite Any
        (λ r. db_held d)
        (stmt_held (some (record { stmt_open = b })) (db_held d))
        (stmt_finalizer (record { stmt_open = b }))
unfolding stmt_finalizer
stmt_finalizer-Legal true d = ground arith
stmt_finalizer-Legal false d = ground arith

pub stmt_life-Legal :
    (os : List StmtOp) (s : Stmt) (d : Database)
    → Legal sqlite Any (λ r. db_held d) (stmt_held (some s) (db_held d)) (stmt_life os s)
unfolding stmt_life
stmt_life-Legal [] s d = stmt_finalizer-Legal s.stmt_open d
stmt_life-Legal (o ∷ os) s d =
    Legal-and_then sqlite Any _ _ _ (stmt_code o s) (stmt_life os) (stmt_code-Passes o s d)
      (λ s'. stmt_life-Legal os s' d)
