-- ===== src/DuckDb/Closures.antt =====
-- The closures of scalar functions and log storages in ffi/duckdb_shim.c: their references, and the wrappers of
-- the calls' arguments.
--
-- A state is whether the handle's pointer is not NULL, whether DuckDB has a closure, how many references to closures the binding and DuckDB hold, and how
-- many wrappers of arguments are there. DuckDB is documented to call the deleter of a closure once, when it is
-- replaced or its function is destroyed, and to ignore a NULL function or log storage.
pub mod Refs
use linen.Base.{if◌then◌else◌, ℕ, suc, ◌+◌, ◌-◌, Bool, true, false, not, ◌&&◌, ◌||◌, List, [], ◌∷◌}
use linen.Calls.{called}

pub record State : Type 0 where
  pub live : Bool
  pub has_closure : Bool
  pub references : ℕ
  pub wrappers : ℕ

-- `lean_inc_ref(closure)`
abbrev pub inc_ref : State → State
inc_ref s = record s { references = suc s.references }

-- `lean_dec_ref(closure)`
abbrev pub dec_ref : State → State
dec_ref s = record s { references = s.references - 1 }

-- `linen_duckdb_scalar_function_delete_trampoline` and `linen_duckdb_log_delete_trampoline`
abbrev pub delete_trampoline : Bool → State → State
delete_trampoline extra_data s = if extra_data then dec_ref s else s

-- DuckDB replaces or destroys what it has, and calls the deleter
abbrev pub deletes : State → State
deletes s = record (delete_trampoline s.has_closure s) { has_closure = false }

-- DuckDB has the closure, in place of the one it had, if its function is not NULL
abbrev pub takes : State → State
takes s = if s.live then record (deletes s) { has_closure = true } else s

-- `linen_duckdb_scalar_function_set_extra_info`: the closure comes with a reference, another is taken, DuckDB
-- takes the closure or not, and one is given back
unfoldable pub set_extra_info : State → State
set_extra_info s = dec_ref (takes (inc_ref (inc_ref s)))

-- `linen_duckdb_log_storage_set_extra_data`: the same for the closure of a log storage
unfoldable pub log_storage_set_extra_data : State → State
log_storage_set_extra_data s = dec_ref (takes (inc_ref (inc_ref s)))

-- `linen_duckdb_destroy_scalar_function` and `linen_duckdb_destroy_log_storage`, which leave NULL
unfoldable pub destroy_handle : State → State
destroy_handle s = if s.live then record (deletes s) { live = false } else s

abbrev pub count_made : Bool → ℕ
count_made true = 1
count_made false = 0

-- the wrappers of the input and of the output, where there is memory
abbrev pub make_wrappers : Bool → Bool → State → State
make_wrappers input output s = record s {
  wrappers = s.wrappers + count_made input + count_made output;
}

-- `lean_apply_3`, which takes the closure's reference and both wrappers
abbrev pub apply_closure : State → State
apply_closure s = record (dec_ref s) { wrappers = s.wrappers - 2 }

-- `linen_duckdb_scalar_function_call_trampoline`, with or without memory for its wrappers
unfoldable pub call_trampoline : Bool → Bool → State → State
call_trampoline input output s =
    let called = make_wrappers input output (inc_ref s) in
    let done_call = apply_closure called in
    if s.has_closure then (if input && output then done_call else called) else s

-- `linen_duckdb_log_write_trampoline`: `lean_apply_5` takes the reference
unfoldable pub log_write_trampoline : State → State
log_write_trampoline s = let called = dec_ref (inc_ref s) in if s.has_closure then called else s

-- what happens to a scalar function or a log storage
pub data Use : Type 0 where
  sets sets_log destroys writes : Use
  calls : Bool → Bool → Use

abbrev pub step : Use → State → State
step sets s = set_extra_info s
step sets_log s = log_storage_set_extra_data s
step destroys s = destroy_handle s
step writes s = log_write_trampoline s
step (calls input output) s = call_trampoline input output s

abbrev pub run_uses : List Use → State → State
run_uses [] s = s
run_uses (e ∷ es) s = run_uses es (step e s)

-- whether the handle is not NULL after an event, and whether DuckDB has a closure
abbrev pub keeps_live : Use → Bool → Bool
keeps_live destroys l = false
keeps_live _ l = l

abbrev pub keeps_closure : Use → Bool → Bool → Bool
keeps_closure sets l b = l || b
keeps_closure sets_log l b = l || b
keeps_closure destroys l b = not l && b
keeps_closure _ l b = b

-- the references that nobody gives back: of a closure set on NULL, and of a call that fails to make a wrapper
abbrev pub fails : Use → Bool → Bool → ℕ
fails sets l b = count_made (not l)
fails sets_log l b = count_made (not l)
fails (calls input output) l true = count_made (not (input && output))
fails _ l b = 0

abbrev pub lost : Use → Bool → Bool → ℕ
lost (calls true true) l true = 0
lost (calls input output) l true = count_made input + count_made output
lost _ l b = 0

abbrev pub total : (Use → Bool → Bool → ℕ) → List Use → Bool → Bool → ℕ
total f [] l b = 0
total f (e ∷ es) l b = f e l b + total f es (keeps_live e l) (keeps_closure e l b)
