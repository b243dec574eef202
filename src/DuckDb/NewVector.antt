-- ===== src/DuckDb/NewVector.antt =====
-- `linen_duckdb_create_vector` and `linen_duckdb_destroy_vector` of ffi/duckdb_shim.c: the only functions that make
-- and destroy a vector, which handles of vectors borrow else.
use linen.Base.{
  arith, ok, error, ℕ, ◌≡◌, refl, Bool, true, false, Option, none, some, List, [], ◌∷◌,
}
use linen.Calls.{Code, ◌>>=◌, Exit, ok, error, Library, run}
use linen.Calls.Legal.{SomeIs, Documented, after_all, Legal, Legal-run, grown, after_all-made_or}
use linen.DuckDb.Api.{
  vector, logical_type, fresh, argument, Object, native, wrapper, Handle, Arg, held_if, duckdb,
  makes,
}
use linen.DuckDb.Functions.{duckdb_create_vector}
use linen.DuckDb.Handles.{one, is_made, mk_borrowed, or_fail, destroy}
use linen.DuckDb.Owned.{Any, held, usable, not_held}
use linen.DuckDb.Shapes.{IsNew-native, IsNew-wrapper}
use linen.DuckDb.Vectors.{create_vector, destroy_vector}

answered : {B : Type 0} (r : Option B) → SomeIs (λ b. Unit {0}) r
answered none = tt
answered (some b) = tt

all-Documented : {W : Type 0} (lib : Library duckdb W) → Documented duckdb Any lib
all-Documented lib = record {
  made_reply = λ o c w. answered (lib.makes o c w).0;
  reply = λ c w. tt;
}

-- the wrapper of a result on top of what there was
abbrev pub wrapped_held : List Object → Exit Handle → List Object
wrapped_held rest (ok h) = wrapper vector fresh ∷ rest
wrapped_held rest (error e) = rest

-- what the function does with the vector, or with NULL
abbrev wraps : Option (Unit {0}) → Code duckdb Handle
wraps p = do h ← mk_borrowed vector (is_made p); or_fail h "malloc failed for duckdb_vector wrapper"

abbrev vector_held : Option (Unit {0}) → List Arg → List Object
vector_held p given = grown duckdb Any p (native vector fresh) (held given)

wraps-Legal :
    (p : Option (Unit {0})) (given : List Arg)
    → Legal duckdb Any (wrapped_held (vector_held p given)) (vector_held p given) (wraps p)
wraps-Legal none given =
    (refl, not_held (wrapper vector fresh) given (IsNew-wrapper vector), (λ r t. refl), refl)
wraps-Legal (some p) given =
    (refl, not_held (wrapper vector fresh) given (IsNew-wrapper vector), (λ r t. refl), refl)

-- A new vector is held whether or not its wrapper could be made: where it could not, the vector is lost.
pub create_vector-holds :
    {W : Type 0} (lib : Library duckdb W) (t : Handle) (capacity : ℕ) (w : W)
    → let (p, w') =
        lib.makes
          (native vector fresh)
          (makes (duckdb_create_vector capacity) (one logical_type t))
          w in
      let (r, es, w'') = run lib (create_vector t capacity) w in
      after_all duckdb Any es (some (held (one logical_type t)))
      ≡ some (wrapped_held (grown duckdb Any p (native vector fresh) (held (one logical_type t))) r)
unfolding run
create_vector-holds lib t capacity w =
    let given = one logical_type t in
    let (p, w') = lib.makes (native vector fresh) (makes (duckdb_create_vector capacity) given) w in
    after_all-made_or duckdb Any p (native vector fresh)
      (makes (duckdb_create_vector capacity) given) (held given) (run lib (wraps p) w').1 _
      (usable given) (not_held (native vector fresh) given (IsNew-native vector))
      (Legal-run duckdb Any lib (all-Documented lib) (wrapped_held (vector_held p given))
        (vector_held p given) (wraps p) w' (wraps-Legal p given))

-- what a vector that was made holds
abbrev pub owned_vector : Handle → List Object
owned_vector v = wrapper vector (argument 0) ∷ held_if v.live (native vector (argument 0)) []

-- and after it is destroyed
abbrev pub destroyed : Bool → Exit Handle → List Object
destroyed b (ok v) = owned_vector v
destroyed b (error e) = owned_vector (record { live = b })

destroyed-Legal :
    (b : Bool)
    → Legal duckdb Any
        (destroyed b)
        (owned_vector (record { live = b }))
        (destroy_vector (record { live = b }))
unfolding destroy
destroyed-Legal true = ground arith
destroyed-Legal false = ground arith

-- Destroying a vector that was made releases it once, and never again.
pub destroy_vector-releases :
    {W : Type 0} (lib : Library duckdb W) (v : Handle) (w : W)
    → after_all duckdb Any (run lib (destroy_vector v) w).1 (some (owned_vector v))
      ≡ some (destroyed v.live (run lib (destroy_vector v) w).0)
destroy_vector-releases lib v w =
    Legal-run duckdb Any lib (all-Documented lib) (destroyed v.live) (owned_vector v)
      (destroy_vector v) w (destroyed-Legal v.live)
