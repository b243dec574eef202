-- ===== src/DuckDb/Steps/Others.antt =====
-- The functions of ffi/duckdb_shim.c on handles that have a shape of their own.
use linen.Base.{
  ok, error, ℕ, zero, suc, ◌≡◌, refl, Bool, true, false, Option, none, some, List, [], arith,
}
use linen.Calls.{Exit, ok, error, ◌>>=◌}
use linen.Calls.Legal.{Legal}
use linen.DuckDb.Api.{
  Kind, database, instance_cache, client_context, value, vector, file_handle, validity_mask, fresh,
  Object, native, wrapper, buffer, Handle, Arg, owns, held_if, lives, duckdb,
}
use linen.DuckDb.Catalogs.{client_context_get_config_option}
use linen.DuckDb.Files.{buffer_size, read_buffer, read_into, file_handle_read}
use linen.DuckDb.Functions.{Silent}
use linen.DuckDb.Handles.{one, is_made}
use linen.DuckDb.Opening.{get_or_create_from_cache, open_ext, fetches}
use linen.DuckDb.Owned.{Any, handle_held, held, has_all-grow, usable, IsNew, not_held}
use linen.DuckDb.Shapes.{
  new_held, option_held, some_held, wrapper_of-Legal, IsNew-native, IsNew-wrapper, unchanged,
}
use linen.DuckDb.Vectors.{vector_get_validity}

abbrev pub ext_held :
    List Object → Exit (ℕ × Option (Option Handle) × Option (List ℕ)) → List Object
ext_held rest (ok r) = option_held database rest r.1
ext_held rest (error e) = rest

pub open_ext-Legal : (path : Option (List ℕ)) → Legal duckdb Any (ext_held []) [] (open_ext path)
open_ext-Legal path = ground arith

cached-Legal :
    (b : Bool) (path : Option (List ℕ))
    → Legal duckdb Any
        (ext_held (held (one instance_cache (record { live = b }))))
        (held (one instance_cache (record { live = b })))
        (get_or_create_from_cache (record { live = b }) path)
cached-Legal true path = ground arith
cached-Legal false path = ground arith

pub get_or_create_from_cache-Legal :
    (c : Handle) (path : Option (List ℕ))
    → Legal duckdb Any
        (ext_held (held (one instance_cache c)))
        (held (one instance_cache c))
        (get_or_create_from_cache c path)
get_or_create_from_cache-Legal c path = cached-Legal c.live path

-- the context or the options of a connection
pub fetches-Legal :
    (k : Kind) (f : Silent) (given : List Arg)
    → owns k ≡ true
    → Legal duckdb Any (new_held k (held given)) (held given) (fetches k f given "")
fetches-Legal k f given own =
    let free_slot = not_held (wrapper k fresh) given (IsNew-wrapper k) in
    (
      usable given,
      λ r t. (
        refl,
        not_held (native k fresh) given (IsNew-native k),
        (λ p t. wrapper_of-Legal k (some p) "" (held given) own free_slot),
        wrapper_of-Legal k none "" (held given) own free_slot,
      ),
    )

-- a handle and a number
abbrev pub scoped_held : List Object → Exit (Handle × ℕ) → List Object
scoped_held rest (ok r) = handle_held value fresh r.0 rest
scoped_held rest (error e) = rest

pub client_context_get_config_option-Legal :
    (x : Handle) (name : List ℕ)
    → Legal duckdb Any
        (scoped_held (held (one client_context x)))
        (held (one client_context x))
        (client_context_get_config_option x name)
client_context_get_config_option-Legal x name =
    let given = one client_context x in
    let free_slot = not_held (wrapper value fresh) given (IsNew-wrapper value) in
    (
      usable given,
      not_held (native value fresh) given (IsNew-native value),
      (λ p t. (refl, λ n t. wrapper_of-Legal value (some p) "" (held given) refl free_slot)),
      (refl, λ n t. wrapper_of-Legal value none "" (held given) refl free_slot),
    )

pub vector_get_validity-Legal :
    (v : Handle)
    → Legal duckdb Any
        (some_held validity_mask (held (one vector v)))
        (held (one vector v))
        (vector_get_validity v)
vector_get_validity-Legal v = (
  usable (one vector v),
  λ p t. (
    (λ e. (
      refl,
      not_held (wrapper validity_mask fresh) (one vector v) (IsNew-wrapper validity_mask),
      (λ w t. refl),
      refl,
    )),
    λ e. refl,
  ),
)

IsNew-buffer : IsNew buffer
IsNew-buffer l i = (refl, refl)

read_into-Legal :
    (h : Handle) (size : ℕ) (b : Option (Unit {0}))
    → Legal duckdb Any
        (unchanged (one file_handle h))
        (held_if (is_made b) buffer (held (one file_handle h)))
        (read_into h size b)
read_into-Legal h size none = (usable (one file_handle h), λ r t. refl)
read_into-Legal h size (some b) = (
  has_all-grow buffer (held (one file_handle h)) (lives (one file_handle h))
      (usable (one file_handle h)),
  λ r t. (refl, refl),
)

buffered-Legal :
    (h : Handle) (size n : ℕ)
    → Legal duckdb Any
        (unchanged (one file_handle h))
        (held (one file_handle h))
        (do b ← read_buffer n; read_into h size b)
buffered-Legal h size zero = read_into-Legal h size none
buffered-Legal h size (suc n) = (
  refl,
  not_held buffer (one file_handle h) IsNew-buffer,
  (λ b t. read_into-Legal h size (some b)),
  read_into-Legal h size none,
)

-- a read: its buffer is freed
pub file_handle_read-Legal :
    (h : Handle) (size : ℕ)
    → Legal duckdb Any
        (unchanged (one file_handle h))
        (held (one file_handle h))
        (file_handle_read h size)
file_handle_read-Legal h size = buffered-Legal h size (buffer_size size)
