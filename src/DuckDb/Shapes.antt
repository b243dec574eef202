-- ===== src/DuckDb/Shapes.antt =====
-- What the common shapes of the functions of ffi/duckdb_shim.c hold and release, whatever they are called for.
use linen.Base.{ok, error, ℕ, String, ◌≡◌, refl, Bool, true, false, Option, none, some, List, arith}
use linen.Calls.{Exit, ok, error}
use linen.Calls.Legal.{has, Legal}
use linen.DuckDb.Api.{
  Kind, fresh, Object, native, wrapper, text, Handle, Arg, owns, held_if, duckdb,
}
use linen.DuckDb.Functions.{Maker, Stateful, Numeric, Lent, Given, Borrower, Silent}
use linen.DuckDb.Handles.{
  is_made, wrapper_of, option_of, option_or_fail, gets, finds, opens, views, state_of, number_of,
  number_or, silently, borrowed_text, owned_text,
}
use linen.DuckDb.Owned.{
  Any, handle_held, held, has_head, without_head, owner_held, usable, IsNew, not_held,
}

-- a new handle of a kind, or nothing on an error, on top of what there was
abbrev pub new_held : Kind → List Object → Exit Handle → List Object
new_held k rest (ok h) = handle_held k fresh h rest
new_held k rest (error e) = rest

-- the handle in a pair of a state and an option, which may be a NULL
abbrev pub option_held : Kind → List Object → Option (Option Handle) → List Object
option_held k rest none = rest
option_held k rest (some none) = rest
option_held k rest (some (some h)) = handle_held k fresh h rest

abbrev pub found_held : Kind → List Object → Exit (Option (Option Handle)) → List Object
found_held k rest (ok o) = option_held k rest o
found_held k rest (error e) = rest

abbrev pub opened_held : Kind → List Object → Exit (ℕ × Option (Option Handle)) → List Object
opened_held k rest (ok r) = option_held k rest r.1
opened_held k rest (error e) = rest

abbrev pub some_held : Kind → List Object → Exit (Option Handle) → List Object
some_held k rest (ok none) = rest
some_held k rest (ok (some h)) = handle_held k fresh h rest
some_held k rest (error e) = rest

-- Wrapping a pointer that was just made, or NULL: the pointer is in the wrapper, or is destroyed.
pub wrapper_of-Legal :
    (k : Kind) (p : Option (Unit {0})) (m : String) (rest : List Object)
    → owns k ≡ true
    → has duckdb Any rest (wrapper k fresh) ≡ false
    → Legal duckdb Any
        (new_held k rest)
        (held_if (is_made p) (native k fresh) rest)
        (wrapper_of k p m)
wrapper_of-Legal k none m rest own new =
    (refl, new, (λ w t. owner_held k fresh false rest own), ((λ e. ground arith), λ e. refl))
wrapper_of-Legal k (some p) m rest own new = (
  refl,
  new,
  (λ w t. owner_held k fresh true rest own),
  ((λ e. (has_head (native k fresh) rest, without_head (native k fresh) rest)), λ e. ground arith),
)

pub IsNew-native : (k : Kind) → IsNew (native k fresh)
IsNew-native k l i = (refl, refl)

pub IsNew-wrapper : (k : Kind) → IsNew (wrapper k fresh)
IsNew-wrapper k l i = (refl, refl)

pub gets-Legal :
    (k : Kind) (f : Maker) (given : List Arg)
    → owns k ≡ true
    → Legal duckdb Any (new_held k (held given)) (held given) (gets k f given "")
gets-Legal k f given own =
    let free_slot = not_held (wrapper k fresh) given (IsNew-wrapper k) in
    (
      usable given,
      not_held (native k fresh) given (IsNew-native k),
      (λ r t. wrapper_of-Legal k (some r) "" (held given) own free_slot),
      wrapper_of-Legal k none "" (held given) own free_slot,
    )

-- An option of a pointer, which is NULL in it where there is no wrapper.
pub option_of-Legal :
    (k : Kind) (p : Option (Unit {0})) (rest : List Object)
    → owns k ≡ true
    → has duckdb Any rest (wrapper k fresh) ≡ false
    → Legal duckdb Any
        (found_held k rest)
        (held_if (is_made p) (native k fresh) rest)
        (option_of k p)
option_of-Legal k none rest own new = refl
option_of-Legal k (some p) rest own new = (
  refl,
  new,
  (λ w t. owner_held k fresh true rest own),
  ((λ e. (has_head (native k fresh) rest, without_head (native k fresh) rest)), λ e. ground arith),
)

pub finds-Legal :
    (k : Kind) (f : Maker) (given : List Arg)
    → owns k ≡ true
    → Legal duckdb Any (found_held k (held given)) (held given) (finds k f given)
finds-Legal k f given own =
    let free_slot = not_held (wrapper k fresh) given (IsNew-wrapper k) in
    (
      usable given,
      not_held (native k fresh) given (IsNew-native k),
      (λ r t. option_of-Legal k (some r) (held given) own free_slot),
      option_of-Legal k none (held given) own free_slot,
    )

pub opens-Legal :
    (k : Kind) (f : Stateful) (given : List Arg)
    → owns k ≡ true
    → Legal duckdb Any (opened_held k (held given)) (held given) (opens k f given)
opens-Legal k f given own =
    let free_slot = not_held (wrapper k fresh) given (IsNew-wrapper k) in
    (
      usable given,
      λ rc t. (
        refl,
        not_held (native k fresh) given (IsNew-native k),
        (λ r t. option_of-Legal k (some r) (held given) own free_slot),
        refl,
      ),
    )

-- A pointer into something, whatever the message of an error is: the wrapper is all that is new.
pub views-Legal :
    (f : Borrower) (given : List Arg) (k : Kind)
    → owns k ≡ false
    → Legal duckdb Any (new_held k (held given)) (held given) (views f given k "")
views-Legal f given k lent =
    let free_slot = not_held (wrapper k fresh) given (IsNew-wrapper k) in
    (usable given, λ p t. (refl, free_slot, (λ w t. rw lent refl), refl))

-- what there was, whatever is returned
abbrev pub unchanged : {A : Type 0} → List Arg → Exit A → List Object
unchanged given r = held given

IsNew-text : IsNew text
IsNew-text l i = (refl, refl)

-- A text of DuckDB's is freed where there is one.
pub owned_text-Legal :
    (f : Given) (given : List Arg)
    → Legal duckdb Any (unchanged given) (held given) (owned_text f given)
owned_text-Legal f given =
    (usable given, not_held text given IsNew-text, (λ r t. (refl, refl)), refl)

pub option_or_fail-Legal :
    (k : Kind) (p : Option (Unit {0})) (m : String) (given : List Arg)
    → owns k ≡ true
    → Legal duckdb Any
        (some_held k (held given))
        (held_if (is_made p) (native k fresh) (held given))
        (option_or_fail k p m)
option_or_fail-Legal k none m given own = refl
option_or_fail-Legal k (some p) m given own =
    option_of-Legal k (some p) (held given) own (not_held (wrapper k fresh) given (IsNew-wrapper k))

-- A call without anything new, where its answer is made into a result.
pub state_of-Legal :
    (f : Stateful) (given : List Arg)
    → Legal duckdb Any (unchanged given) (held given) (state_of f given)
state_of-Legal f given = (usable given, λ r t. refl)

pub number_of-Legal :
    (w : ℕ) (f : Numeric) (given : List Arg)
    → Legal duckdb Any (unchanged given) (held given) (number_of w f given)
number_of-Legal w f given = (usable given, λ r t. refl)

-- A call that is made only where there is a pointer.
pub number_or-Legal :
    (w : ℕ) (live : Bool) (f : Numeric) (given : List Arg) (n : ℕ)
    → Legal duckdb Any (unchanged given) (held given) (number_or w live f given n)
number_or-Legal w live f given n = ((λ e. number_of-Legal w f given), λ e. refl)

pub silently-Legal :
    (f : Silent) (given : List Arg)
    → Legal duckdb Any (unchanged given) (held given) (silently f given)
silently-Legal f given = (usable given, λ r t. refl)

pub borrowed_text-Legal :
    (f : Lent) (given : List Arg)
    → Legal duckdb Any (unchanged given) (held given) (borrowed_text f given)
borrowed_text-Legal f given = (usable given, λ r t. refl)
