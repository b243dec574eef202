-- ===== src/DuckDb/Steps/Arrays.antt =====
-- The functions of ffi/duckdb_shim.c that build arrays for a call: the arrays are freed on every branch.
use linen.Base.{ℕ, ◌≡◌, refl, Bool, true, false, Option, none, some, List, [], ◌∷◌}
use linen.Calls.{Exit, Code, ◌>>=◌}
use linen.Calls.Legal.{has, has_all, Legal}
use linen.DuckDb.Api.{
  Kind, connection, appender, data_chunk, logical_type, fresh, Object, native, wrapper, types_array,
  names_array, Handle, Arg, owns, held_if, lives, duckdb,
}
use linen.DuckDb.Arrays.{
  type_args, allocated, chunk_of, members_of, enum_of, build_names, appender_of,
}
use linen.DuckDb.Functions.{Maker}
use linen.DuckDb.Handles.{arg, is_made, wrapper_of, option_of}
use linen.DuckDb.Owned.{Any, held, has_all-grow, usable, IsNew, not_held}
use linen.DuckDb.Shapes.{
  new_held, found_held, opened_held, wrapper_of-Legal, IsNew-native, IsNew-wrapper, option_of-Legal,
}

-- A program that starts with an array, on top of what it holds.
pub allocated-Legal :
    {A B : Type 0} (o : Object) (xs : List A) (end : Exit B → List Object) (rest : List Object)
    (k : Option (List A) → Code duckdb B)
    → has duckdb Any rest o ≡ false
    → ((r : Option (List A)) → Legal duckdb Any end (held_if (is_made r) o rest) (k r))
    → Legal duckdb Any end rest (allocated o xs >>= k)
allocated-Legal o [] end rest k new h = h none
allocated-Legal o (x ∷ xs) end rest k new h = (refl, new, (λ r t. h (some (x ∷ xs))), h none)

pub names-Legal :
    {B : Type 0} (columns : Option (List (List ℕ))) (end : Exit B → List Object)
    (rest : List Object) (k : Option (List (List ℕ)) → Code duckdb B)
    → has duckdb Any rest names_array ≡ false
    → ((r : Option (List (List ℕ)))
        → Legal duckdb Any end (held_if (is_made r) names_array rest) (k r))
    → Legal duckdb Any end rest (build_names columns >>= k)
names-Legal none end rest k new h = h none
names-Legal (some ns) end rest k new h = allocated-Legal names_array ns end rest k new h

-- what is held while both arrays may be there
abbrev arrays_held : {A B : Type 0} → Option A → Option B → List Object → List Object
arrays_held types names rest =
    held_if (is_made names) names_array (held_if (is_made types) types_array rest)

pub IsNew-types : IsNew types_array
IsNew-types l i = (refl, refl)

IsNew-names : IsNew names_array
IsNew-names l i = (refl, refl)

-- The array of types is not that of names.
pub no_names :
    {A : Type 0} (given : List Arg) (types : Option A)
    → has duckdb Any (held_if (is_made types) types_array (held given)) names_array ≡ false
no_names given none = not_held names_array given IsNew-names
no_names given (some xs) = not_held names_array given IsNew-names

-- what the wrapper of the new object needs, with the arrays gone
module _ (k : Kind) (given : List Arg) (own : owns k ≡ true) where
  wrapped_held :
      (p : Option (Unit {0}))
      → Legal duckdb Any
          (new_held k (held given))
          (held_if (is_made p) (native k fresh) (held given))
          (wrapper_of k p "")
  wrapped_held p =
      wrapper_of-Legal k p "" (held given) own (not_held (wrapper k fresh) given (IsNew-wrapper k))

  no_native : has duckdb Any (held given) (native k fresh) ≡ false
  no_native = not_held (native k fresh) given (IsNew-native k)

  usable_with : (o : Object) → has_all duckdb Any (o ∷ held given) (lives given) ≡ true
  usable_with o = has_all-grow o (held given) (lives given) (usable given)

  usable_with_both : (o p : Object) → has_all duckdb Any (o ∷ p ∷ held given) (lives given) ≡ true
  usable_with_both o p = has_all-grow o (p ∷ held given) (lives given) (usable_with p)

pub members_of-Legal :
    (f : Bool → Option (List (List ℕ)) → ℕ → Maker) (ts : List Handle)
    (types : Option (List Handle)) (names : Option (List (List ℕ)))
    → Legal duckdb Any
        (new_held logical_type (held (type_args ts)))
        (arrays_held types names (held (type_args ts)))
        (members_of f ts types names)
members_of-Legal f ts (some xs) (some ns) =
    let w = wrapped_held logical_type (type_args ts) refl in
    (
      usable_with_both logical_type (type_args ts) refl names_array types_array,
      no_native logical_type (type_args ts) refl,
      (λ r t. (refl, (refl, w (some r)))),
      (refl, (refl, w none)),
    )
members_of-Legal f ts (some xs) none =
    let w = wrapped_held logical_type (type_args ts) refl in
    (
      usable_with logical_type (type_args ts) refl types_array,
      no_native logical_type (type_args ts) refl,
      (λ r t. (refl, w (some r))),
      (refl, w none),
    )
members_of-Legal f ts none (some ns) =
    let w = wrapped_held logical_type (type_args ts) refl in
    (
      usable_with logical_type (type_args ts) refl names_array,
      no_native logical_type (type_args ts) refl,
      (λ r t. (refl, w (some r))),
      (refl, w none),
    )
members_of-Legal f ts none none =
    let w = wrapped_held logical_type (type_args ts) refl in
    (usable (type_args ts), no_native logical_type (type_args ts) refl, (λ r t. w (some r)), w none)

pub chunk_of-Legal :
    (ts : List Handle) (types : Option (List Handle))
    → Legal duckdb Any
        (new_held data_chunk (held (type_args ts)))
        (held_if (is_made types) types_array (held (type_args ts)))
        (chunk_of ts types)
chunk_of-Legal ts (some xs) =
    let w = wrapped_held data_chunk (type_args ts) refl in
    (
      usable_with data_chunk (type_args ts) refl types_array,
      no_native data_chunk (type_args ts) refl,
      (λ r t. (refl, w (some r))),
      (refl, w none),
    )
chunk_of-Legal ts none =
    let w = wrapped_held data_chunk (type_args ts) refl in
    (usable (type_args ts), no_native data_chunk (type_args ts) refl, (λ r t. w (some r)), w none)

pub enum_of-Legal :
    (ns : List (List ℕ)) (names : Option (List (List ℕ)))
    → Legal duckdb Any
        (new_held logical_type [])
        (held_if (is_made names) names_array [])
        (enum_of ns names)
enum_of-Legal ns (some xs) =
    let w = wrapped_held logical_type [] refl in
    (refl, refl, (λ r t. (refl, w (some r))), (refl, w none))
enum_of-Legal ns none =
    let w = wrapped_held logical_type [] refl in (refl, refl, (λ r t. w (some r)), w none)

found_appender :
    (given : List Arg) (p : Option (Unit {0}))
    → Legal duckdb Any
        (found_held appender (held given))
        (held_if (is_made p) (native appender fresh) (held given))
        (option_of appender p)
found_appender given p =
    option_of-Legal appender p (held given) refl
      (not_held (wrapper appender fresh) given (IsNew-wrapper appender))

-- the arguments of an appender of a query
abbrev pub appender_args : Handle → List Handle → List Arg
appender_args c ts = arg connection c ∷ type_args ts

pub appender_of-Legal :
    (c : Handle) (sql : List ℕ) (ts : List Handle) (table : Option (List ℕ))
    (types : Option (List Handle)) (names : Option (List (List ℕ)))
    → Legal duckdb Any
        (opened_held appender (held (appender_args c ts)))
        (arrays_held types names (held (appender_args c ts)))
        (appender_of c sql ts table types names)
appender_of-Legal c sql ts table (some xs) (some ns) =
    let given = appender_args c ts in
    (
      usable_with_both appender given refl names_array types_array,
      λ rc t. (
        refl,
        no_native appender given refl,
        (λ r t. (refl, (refl, found_appender given (some r)))),
        (refl, (refl, refl)),
      ),
    )
appender_of-Legal c sql ts table (some xs) none =
    let given = appender_args c ts in
    (
      usable_with appender given refl types_array,
      λ rc t. (
        refl,
        no_native appender given refl,
        (λ r t. (refl, found_appender given (some r))),
        (refl, refl),
      ),
    )
appender_of-Legal c sql ts table none (some ns) =
    let given = appender_args c ts in
    (
      usable_with appender given refl names_array,
      λ rc t. (
        refl,
        no_native appender given refl,
        (λ r t. (refl, found_appender given (some r))),
        (refl, refl),
      ),
    )
appender_of-Legal c sql ts table none none =
    let given = appender_args c ts in
    (
      usable given,
      λ rc t. (refl, no_native appender given refl, (λ r t. found_appender given (some r)), refl),
    )
