-- ===== src/DuckDb/Releases.antt =====
-- Destroying and finalizing the handles of ffi/duckdb_shim.c.
use linen.Base.{ok, error, ◌≡◌, refl, ap, ◌∙◌, subst, Bool, true, false, List, [], ◌∷◌, arith}
use linen.Calls.{Exit, ok, error}
use linen.Calls.Legal.{Legal}
use linen.DuckDb.Api.{Kind, argument, Object, native, wrapper, Handle, owns, duckdb}
use linen.DuckDb.Handles.{destroy, finalizer, borrowed_finalizer, one}
use linen.DuckDb.Owned.{Any, handle_held, held, same_kind, has_head, without_head, owner_held}

-- what a handle holds after it was destroyed
abbrev pub destroyed_held : Kind → Exit Handle → List Object
destroyed_held k (ok h) = handle_held k (argument 0) h []
destroyed_held k (error e) = []

pub destroy-Legal :
    (k : Kind) (b : Bool)
    → owns k ≡ true
    → Legal duckdb Any
        (destroyed_held k)
        (held (one k (record { live = b })))
        (destroy k (record { live = b }))
unfolding destroy
destroy-Legal k true own =
    let n = native k (argument 0) in
    subst (λ l. Legal duckdb Any (destroyed_held k) l (destroy k (record { live = true })))
      (owner_held k (argument 0) true [] own)
      (
        (λ e. (
          has_head n [],
          ap (λ l. wrapper k (argument 0) ∷ l) (without_head n [])
              ∙ owner_held k (argument 0) false [] own,
        )),
        λ e. ground arith,
      )
destroy-Legal k false own = ((λ e. ground arith), λ e. refl)

pub finalizer-Legal :
    (k : Kind) (b : Bool)
    → owns k ≡ true
    → Legal duckdb Any
        (λ r. [])
        (held (one k (record { live = b })))
        (finalizer k (record { live = b }))
unfolding finalizer
finalizer-Legal k true own =
    let n = native k (argument 0) in
    subst (λ l. Legal duckdb Any (λ r. []) l (finalizer k (record { live = true })))
      (owner_held k (argument 0) true [] own)
      ((λ e. (has_head n [], rw (same_kind k) (refl, refl))), λ e. ground arith)
finalizer-Legal k false own =
    subst (λ l. Legal duckdb Any (λ r. []) l (finalizer k (record { live = false })))
      (owner_held k (argument 0) false [] own)
      ((λ e. ground arith), λ e. rw (same_kind k) (refl, refl))

pub borrowed_finalizer-Legal :
    (k : Kind) (h : Handle)
    → owns k ≡ false
    → Legal duckdb Any (λ r. []) (held (one k h)) (borrowed_finalizer k h)
unfolding borrowed_finalizer
borrowed_finalizer-Legal k h lent =
    let w = wrapper k (argument 0) in rw lent (has_head w [], without_head w [])
