-- ===== src/Sqlite/Statement.antt =====
-- The statements of ffi/sqlite3_shim.c (`linen_sqlite3_stmt_t`), with a function for each exported one.
use linen.Base.{
  ℕ, Bool, true, false, Option, some, none, List, [], ◌++◌, take, drop, length, ℤ, pos, negsuc,
  int_of_size,
}
use linen.Calls.{Code, branch, ◌>>=◌, ◌>>◌, pure, ask, free, when}
use linen.Sqlite.{
  stmt, stmt_wrapper, StmtCall, StmtReply, stmt_step, stmt_reset, stmt_finalize, clear_bindings,
  bind_parameter_count, column_count, bind_parameter_name, column_name, bind_parameter_index,
  bind_int64, bind_double, bind_text, bind_blob, bind_null, column_type, column_int64,
  column_double, column_text, column_blob, column_bytes, on_stmt, alloc_sarray, sqlite, uint32_of,
  uint64_of, int_of_uint32,
}

-- `linen_sqlite3_stmt_t`: whether `stmt` is not NULL
pub record Stmt : Type 0 where
  pub stmt_open : Bool

-- an int of SQLite as a uint32_t
abbrev pub ask_uint32 : Stmt → (c : StmtCall) → (StmtReply c → ℤ) → Code sqlite ℕ
ask_uint32 s c int = do rc ← ask (on_stmt s.stmt_open c); pure (uint32_of (int rc))

-- `linen_sqlite3_step`
unfoldable pub step : Stmt → Code sqlite ℕ
step s = ask_uint32 s stmt_step (λ rc. rc)

-- `linen_sqlite3_reset`
unfoldable pub reset : Stmt → Code sqlite ℕ
reset s = ask_uint32 s stmt_reset (λ rc. rc)

-- `linen_sqlite3_clear_bindings`
unfoldable pub clear : Stmt → Code sqlite ℕ
clear s = ask_uint32 s clear_bindings (λ rc. rc)

-- `linen_sqlite3_finalize`
unfoldable pub finalize_stmt : Stmt → Code sqlite (ℕ × Stmt)
finalize_stmt s =
    branch s.stmt_open
      (do
        rc ← ask (on_stmt true stmt_finalize)
        free stmt
        pure (uint32_of rc, record { stmt_open = false }))
      (pure (0, s))

-- `linen_sqlite3_bind_parameter_count`
unfoldable pub parameter_count : Stmt → Code sqlite ℕ
parameter_count s = ask_uint32 s bind_parameter_count (λ n. n)

-- `linen_sqlite3_bind_parameter_name`
unfoldable pub parameter_name : Stmt → ℕ → Code sqlite (Option (List ℕ))
parameter_name s idx = ask (on_stmt s.stmt_open (bind_parameter_name (int_of_uint32 idx)))

-- `linen_sqlite3_bind_parameter_index`
unfoldable pub parameter_index : Stmt → List ℕ → Code sqlite ℕ
parameter_index s name = ask_uint32 s (bind_parameter_index name) (λ n. n)

-- `linen_sqlite3_column_count`
unfoldable pub count_columns : Stmt → Code sqlite ℕ
count_columns s = ask_uint32 s column_count (λ n. n)

-- `linen_sqlite3_column_name`
unfoldable pub name_column : Stmt → ℕ → Code sqlite (Option (List ℕ))
name_column s idx = ask (on_stmt s.stmt_open (column_name (int_of_uint32 idx)))

-- `linen_sqlite3_bind_int64`
unfoldable pub int64_bound : Stmt → ℕ → ℤ → Code sqlite ℕ
int64_bound s idx value = ask_uint32 s (bind_int64 (int_of_uint32 idx) value) (λ rc. rc)

-- `linen_sqlite3_bind_double`
unfoldable pub double_bound : Stmt → ℕ → ℕ → Code sqlite ℕ
double_bound s idx value = ask_uint32 s (bind_double (int_of_uint32 idx) value) (λ rc. rc)

-- `linen_sqlite3_bind_text`, which takes the length as `(int)len`
unfoldable pub text_bound : Stmt → ℕ → List ℕ → Code sqlite ℕ
text_bound s idx value =
    ask_uint32 s (bind_text (int_of_uint32 idx) value (int_of_size (length value))) (λ rc. rc)

-- `linen_sqlite3_bind_blob`, which takes the length as `(int)len`
unfoldable pub blob_bound : Stmt → ℕ → List ℕ → Code sqlite ℕ
blob_bound s idx value =
    ask_uint32 s (bind_blob (int_of_uint32 idx) value (int_of_size (length value))) (λ rc. rc)

-- `linen_sqlite3_bind_null`
unfoldable pub null_bound : Stmt → ℕ → Code sqlite ℕ
null_bound s idx = ask_uint32 s (bind_null (int_of_uint32 idx)) (λ rc. rc)

-- `linen_sqlite3_column_type`
unfoldable pub type_read : Stmt → ℕ → Code sqlite ℕ
type_read s idx = ask_uint32 s (column_type (int_of_uint32 idx)) (λ t. t)

-- `linen_sqlite3_column_int64`
unfoldable pub int64_read : Stmt → ℕ → Code sqlite ℕ
int64_read s idx = do
  v ← ask (on_stmt s.stmt_open (column_int64 (int_of_uint32 idx)))
  pure (uint64_of v)

-- `linen_sqlite3_column_double`
unfoldable pub double_read : Stmt → ℕ → Code sqlite ℕ
double_read s idx = ask (on_stmt s.stmt_open (column_double (int_of_uint32 idx)))

-- `(size_t)len`
abbrev pub size_of : ℤ → ℕ
size_of = uint64_of

-- the bytes of a text, which is "" and of length 0 where it is NULL
abbrev pub text_of : Option (List ℕ) → ℤ → List ℕ
text_of none len = []
text_of (some text) len = take (size_of len) text

-- `linen_sqlite3_column_text`
unfoldable pub text_read : Stmt → ℕ → Code sqlite (List ℕ)
text_read s idx = do
  text ← ask (on_stmt s.stmt_open (column_text (int_of_uint32 idx)))
  len ← ask (on_stmt s.stmt_open (column_bytes (int_of_uint32 idx)))
  pure (text_of text len)

-- `if (len > 0 && blob) memcpy(...)`, on an array of `len` bytes
abbrev pub copied : Option (List ℕ) → ℤ → List ℕ → List ℕ
copied none len array = array
copied (some blob) (pos len) array = take len blob ++ drop len array
copied (some blob) (negsuc len) array = array

-- `linen_sqlite3_column_blob`
unfoldable pub blob_read : Stmt → ℕ → Code sqlite (List ℕ)
blob_read s idx = do
  blob ← ask (on_stmt s.stmt_open (column_blob (int_of_uint32 idx)))
  len ← ask (on_stmt s.stmt_open (column_bytes (int_of_uint32 idx)))
  array ← ask (alloc_sarray (size_of len))
  pure (copied blob len array)

-- `linen_sqlite3_stmt_finalizer`
unfoldable pub stmt_finalizer : Stmt → Code sqlite (Unit {0})
stmt_finalizer s = do
  when s.stmt_open (do ask (on_stmt true stmt_finalize); free stmt)
  free stmt_wrapper
