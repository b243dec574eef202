-- ===== src/DuckDb/Owned.antt =====
-- What a function of ffi/duckdb_shim.c holds with its handles, and the calls that give nothing new.
use linen.Base.{◌==◌, ℕ, suc, ◌≡◌, refl, Bool, true, false, ◌&&◌, ◌||◌, List, [], ◌∷◌, arith}
use linen.Calls.Legal.{has, has_all, without}
use linen.DuckDb.Api.{
  Kind, Place, fresh, argument, Object, native, wrapper, err_text, text, types_array, names_array,
  buffer, Handle, Arg, Call, Reply, owns, held_if, native_held, lives_from, lives, kind_number,
  same, duckdb,
}

-- nothing is assumed of the answers
abbrev pub Any : (c : Call) → Reply c → Type 0
Any c r = Unit {0}

-- what a handle of a kind holds
abbrev pub handle_held : Kind → Place → Handle → List Object → List Object
handle_held k p h rest = wrapper k p ∷ native_held k p h rest

-- what the handles that a function gets hold
abbrev pub held_from : ℕ → List Arg → List Object
held_from i [] = []
held_from i (a ∷ given) = handle_held a.kind (argument i) a.handle (held_from (suc i) given)

abbrev pub held : List Arg → List Object
held = held_from 0

equal_self : (n : ℕ) → (n == n) ≡ true
equal_self n = ground arith

both : {a b : Bool} → a ≡ true → b ≡ true → (a && b) ≡ true
both {a} {b} h k = rw (h, k) refl

pub same_kind : (k : Kind) → (kind_number k == kind_number k) ≡ true
same_kind k = equal_self (kind_number k)

same_refl : (o : Object) → same o o ≡ true
same_refl (native k fresh) = same_kind k
same_refl (native k (argument i)) = both (equal_self i) (same_kind k)
same_refl (wrapper k fresh) = same_kind k
same_refl (wrapper k (argument i)) = both (equal_self i) (same_kind k)
same_refl err_text = refl
same_refl text = refl
same_refl types_array = refl
same_refl names_array = refl
same_refl buffer = refl

or_true : (b : Bool) {c : Bool} → c ≡ true → (b || c) ≡ true
or_true true h = refl
or_true false h = h

and_left : (a b : Bool) → (a && b) ≡ true → a ≡ true
and_left true b h = refl
and_left false b h = h

and_right : (a b : Bool) → (a && b) ≡ true → b ≡ true
and_right true b h = h
and_right false b h = ground arith

pub has_all-grow :
    (x : Object) (xs ys : List Object)
    → has_all duckdb Any xs ys ≡ true
    → has_all duckdb Any (x ∷ xs) ys ≡ true
has_all-grow x xs [] h = refl
has_all-grow x xs (y ∷ ys) h =
    both (or_true (same x y) (and_left _ _ h)) (has_all-grow x xs ys (and_right _ _ h))

pub has_head : (x : Object) (xs : List Object) → has duckdb Any (x ∷ xs) x ≡ true
has_head x xs = rw (same_refl x) refl

pub without_head : (x : Object) (xs : List Object) → without duckdb Any (x ∷ xs) x ≡ xs
without_head x xs = rw (same_refl x) refl

-- A handle that owns what it wraps holds that.
pub owner_held :
    (k : Kind) (p : Place) (b : Bool) (rest : List Object)
    → owns k ≡ true
    → wrapper k p ∷ held_if b (native k p) rest ≡ handle_held k p (record { live = b }) rest
owner_held k p b rest own = rw own refl

has_all-held_if :
    (b : Bool) (o : Object) (xs ys : List Object)
    → has_all duckdb Any xs ys ≡ true
    → has_all duckdb Any (held_if b o xs) (held_if b o ys) ≡ true
has_all-held_if true o xs ys h = both (has_head o xs) (has_all-grow o xs ys h)
has_all-held_if false o xs ys h = h

usable_from :
    (i : ℕ) (given : List Arg) → has_all duckdb Any (held_from i given) (lives_from i given) ≡ true
usable_from i [] = refl
usable_from i (a ∷ given) =
    let o = native a.kind (argument i) in
    let live = owns a.kind && a.handle.live in
    has_all-grow (wrapper a.kind (argument i)) (held_if live o (held_from (suc i) given))
      (held_if live o (lives_from (suc i) given))
      (has_all-held_if live o _ _ (usable_from (suc i) given))

-- So a function may use what its handles hold.
pub usable : (given : List Arg) → has_all duckdb Any (held given) (lives given) ≡ true
usable given = usable_from 0 given

has-held_if :
    (b : Bool) (o p : Object) (xs : List Object)
    → same o p ≡ false
    → has duckdb Any xs p ≡ false
    → has duckdb Any (held_if b o xs) p ≡ false
has-held_if true o p xs h k = rw (h, k) refl
has-held_if false o p xs h k = k

-- an object that no argument has
abbrev pub IsNew : Object → Type 0
IsNew o =
    (k : Kind) (i : ℕ)
    → (same (native k (argument i)) o ≡ false) × (same (wrapper k (argument i)) o ≡ false)

new_from :
    (o : Object) (i : ℕ) (given : List Arg) → IsNew o → has duckdb Any (held_from i given) o ≡ false
new_from o i [] h = refl
new_from o i (a ∷ given) h =
    rw (h a.kind i).1
      (has-held_if (owns a.kind && a.handle.live) _ _ _ (h a.kind i).0 (new_from o (suc i) given h))

-- and does not hold what is new.
pub not_held : (o : Object) (given : List Arg) → IsNew o → has duckdb Any (held given) o ≡ false
not_held o given h = new_from o 0 given h
