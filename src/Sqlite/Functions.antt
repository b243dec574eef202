-- ===== src/Sqlite/Functions.antt =====
-- The run of a registered function in ffi/sqlite3_shim.c, and what the closure may ask and answer.
use linen.Base.{
  ℕ, Bool, true, false, Option, some, none, List, [], ◌∷◌, ◌==◌, length, ℤ, int_of_size, arith,
}
use linen.Calls.{Api, Exit, ok, error, Code, ◌>>=◌, ◌>>◌, pure, ask, make, free, when}
use linen.Calls.Legal.{Legal}
use linen.Sqlite.{uint32_of, uint64_of}
use linen.Sqlite.Statement.{text_of, copied}

-- the reference to the closure that a run takes, and the wrappers for it
pub data Object : Type 0 where
  closure_ref ctx_obj args_obj : Object

-- An index is that of `argv`; a double is its bits.
pub data Call : Type 0 where
  malloc_ctx malloc_args : Call
  apply : ℕ → Call
  value_type value_int64 value_double value_text value_blob value_bytes : ℕ → Call
  result_int64 : ℤ → Call
  result_double : ℕ → Call
  result_text result_blob : List ℕ → ℤ → Call
  result_null : Call
  alloc_sarray : ℕ → Call

-- `apply` says whether the closure returned an error.
abbrev pub Reply : Call → Type 0
Reply (apply argc) = Bool
Reply (value_type idx) = ℤ
Reply (value_int64 idx) = ℤ
Reply (value_double idx) = ℕ
Reply (value_text idx) = Option (List ℕ)
Reply (value_blob idx) = Option (List ℕ)
Reply (value_bytes idx) = ℤ
Reply (alloc_sarray n) = List ℕ
Reply _ = Unit {0}

abbrev pub uses : Call → List Object
uses (apply argc) = closure_ref ∷ ctx_obj ∷ args_obj ∷ []
uses _ = []

abbrev pub number : Object → ℕ
number closure_ref = 0
number ctx_obj = 1
number args_obj = 2

abbrev pub function_api : Api
function_api = record {
  Object = Object;
  Call = Call;
  Reply = Reply;
  uses = uses;
  same = λ a b. number a == number b;
}

-- which way a run went: with the closure applied, or without, the wrappers that were made told
pub data Run : Type 0 where
  applied : Run
  gave_up : Bool → Bool → Run

abbrev pub is_made : {A : Type 0} → Option A → Bool
is_made none = false
is_made (some a) = true

-- from `if (!ctxObj || !argsObj)` on; the closure takes over its reference and the wrappers
abbrev pub apply_closure : ℤ → Option (Unit {0}) → Option (Unit {0}) → Code function_api Run
apply_closure argc (some c) (some a) = do
  failed ← ask (apply (uint32_of argc))
  free closure_ref
  free ctx_obj
  free args_obj
  when failed (ask result_null)
  pure applied
apply_closure argc c a = do ask result_null; pure (gave_up (is_made c) (is_made a))

-- `linen_sqlite3_xfunc_trampoline` after `lean_inc_ref`
unfoldable pub run_closure : ℤ → Code function_api Run
run_closure argc = do
  c ← make ctx_obj malloc_ctx
  a ← make args_obj malloc_args
  apply_closure argc c a

-- `linen_sqlite3_func_arg_type`
unfoldable pub arg_type : ℕ → Code function_api ℕ
arg_type idx = do t ← ask (value_type idx); pure (uint32_of t)

-- `linen_sqlite3_func_arg_int64`
unfoldable pub arg_int64 : ℕ → Code function_api ℕ
arg_int64 idx = do v ← ask (value_int64 idx); pure (uint64_of v)

-- `linen_sqlite3_func_arg_double`
unfoldable pub arg_double : ℕ → Code function_api ℕ
arg_double idx = ask (value_double idx)

-- `linen_sqlite3_func_arg_text`
unfoldable pub arg_text : ℕ → Code function_api (List ℕ)
arg_text idx = do text ← ask (value_text idx); len ← ask (value_bytes idx); pure (text_of text len)

-- `linen_sqlite3_func_arg_blob`
unfoldable pub arg_blob : ℕ → Code function_api (List ℕ)
arg_blob idx = do
  blob ← ask (value_blob idx)
  len ← ask (value_bytes idx)
  array ← ask (alloc_sarray (uint64_of len))
  pure (copied blob len array)

-- `linen_sqlite3_func_result_int64`
unfoldable pub answer_int64 : ℤ → Code function_api (Unit {0})
answer_int64 value = ask (result_int64 value)

-- `linen_sqlite3_func_result_double`
unfoldable pub answer_double : ℕ → Code function_api (Unit {0})
answer_double value = ask (result_double value)

-- `linen_sqlite3_func_result_text`, which gives the length as `(int)len`
unfoldable pub answer_text : List ℕ → Code function_api (Unit {0})
answer_text value = ask (result_text value (int_of_size (length value)))

-- `linen_sqlite3_func_result_blob`, likewise
unfoldable pub answer_blob : List ℕ → Code function_api (Unit {0})
answer_blob value = ask (result_blob value (int_of_size (length value)))

-- `linen_sqlite3_func_result_null`
unfoldable pub answer_null : Code function_api (Unit {0})
answer_null = ask result_null

abbrev held_if : Bool → Object → List Object → List Object
held_if true o rest = o ∷ rest
held_if false o rest = rest

-- what a run leaves
abbrev left_by : Exit Run → List Object
left_by (ok applied) = []
left_by (ok (gave_up c a)) = held_if a args_obj (held_if c ctx_obj (closure_ref ∷ []))
left_by (error e) = []

-- A run that applies the closure leaves nothing. One that gives up for want of a wrapper leaves the reference
-- to the closure, and the wrapper that was made.
run_closure-left_by :
    (argc : ℤ) → Legal function_api (λ c r. Unit {0}) left_by (closure_ref ∷ []) (run_closure argc)
unfolding run_closure
run_closure-left_by argc = ground arith
