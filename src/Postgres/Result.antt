-- ===== src/Postgres/Result.antt =====
-- The results of ffi/postgres.c (`linen_pg_result_t`).
use linen.Base.{ℕ, Bool, false, Option, some, none, List, ◌++◌, take, drop, ℤ, pos, negsuc}
use linen.Calls.{Code, branch, ◌>>=◌, ◌>>◌, pure, ask, free, when}
use linen.Postgres.{
  result, result_wrapper, ResultCall, ResultReply, on_result, result_status, result_error_message,
  ntuples, nfields, cmd_tuples, getvalue, getisnull, getlength, fname, ftype, fformat, alloc_sarray,
  libpq, word_of, int_of_uint32, text_or_empty,
}

-- `linen_pg_result_t`: whether `result` is not NULL
pub record PgResult : Type 0 where
  pub has_result : Bool

-- a number that libpq gives of a result, as a word of so many bits
abbrev pub ask_word : ℕ → PgResult → (c : ResultCall) → (ResultReply c → ℤ) → Code libpq ℕ
ask_word w r c int = do n ← ask (on_result r.has_result c); pure (word_of w (int n))

-- a text that libpq gives of a result
abbrev pub ask_text :
    PgResult → (c : ResultCall) → (ResultReply c → Option (List ℕ)) → Code libpq (List ℕ)
ask_text r c text = do t ← ask (on_result r.has_result c); pure (text_or_empty (text t))

-- `linen_pg_result_status`
unfoldable pub status_of : PgResult → Code libpq ℕ
status_of r = ask_word 8 r result_status (λ n. n)

-- `linen_pg_result_error_message`
unfoldable pub error_of : PgResult → Code libpq (List ℕ)
error_of r = ask_text r result_error_message (λ t. t)

-- `linen_pg_ntuples`
unfoldable pub count_rows : PgResult → Code libpq ℕ
count_rows r = ask_word 32 r ntuples (λ n. n)

-- `linen_pg_nfields`
unfoldable pub count_fields : PgResult → Code libpq ℕ
count_fields r = ask_word 32 r nfields (λ n. n)

-- `linen_pg_getvalue`
unfoldable pub value_at : PgResult → ℕ → ℕ → Code libpq (List ℕ)
value_at r row col = ask_text r (getvalue (int_of_uint32 row) (int_of_uint32 col)) (λ t. t)

-- `linen_pg_getisnull`
unfoldable pub null_at : PgResult → ℕ → ℕ → Code libpq ℕ
null_at r row col = ask_word 8 r (getisnull (int_of_uint32 row) (int_of_uint32 col)) (λ n. n)

-- `linen_pg_fname`
unfoldable pub field_name : PgResult → ℕ → Code libpq (List ℕ)
field_name r col = ask_text r (fname (int_of_uint32 col)) (λ t. t)

-- `linen_pg_ftype`
unfoldable pub field_type : PgResult → ℕ → Code libpq ℕ
field_type r col = ask_word 32 r (ftype (int_of_uint32 col)) (λ n. n)

-- `linen_pg_cmd_tuples`
unfoldable pub affected : PgResult → Code libpq (List ℕ)
affected r = ask_text r cmd_tuples (λ t. t)

-- `linen_pg_getlength`
unfoldable pub length_at : PgResult → ℕ → ℕ → Code libpq ℕ
length_at r row col = ask_word 32 r (getlength (int_of_uint32 row) (int_of_uint32 col)) (λ n. n)

-- `linen_pg_fformat`
unfoldable pub field_format : PgResult → ℕ → Code libpq ℕ
field_format r col = ask_word 32 r (fformat (int_of_uint32 col)) (λ n. n)

-- `if (len > 0 && val) memcpy(...)`, on an array of `len` bytes
abbrev pub copied : Option (List ℕ) → ℤ → List ℕ → List ℕ
copied none len array = array
copied (some val) (pos len) array = take len val ++ drop len array
copied (some val) (negsuc len) array = array

-- `linen_pg_getvalue_bytes`
unfoldable pub bytes_at : PgResult → ℕ → ℕ → Code libpq (List ℕ)
bytes_at r row col = do
  len ← ask (on_result r.has_result (getlength (int_of_uint32 row) (int_of_uint32 col)))
  val ← ask (on_result r.has_result (getvalue (int_of_uint32 row) (int_of_uint32 col)))
  array ← ask (alloc_sarray (word_of 64 len))
  pure (copied val len array)

-- `linen_pg_clear`
unfoldable pub clear : PgResult → Code libpq PgResult
clear r = branch r.has_result (do free result; pure (record { has_result = false })) (pure r)

-- `linen_pg_result_finalizer`
unfoldable pub result_finalizer : PgResult → Code libpq (Unit {0})
result_finalizer r = do when r.has_result (free result); free result_wrapper
