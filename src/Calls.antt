-- ===== src/Calls.antt =====
-- Functions of ffi/ that call a library and own what it allocates, as programs: trees of the calls that
-- they make, with a branch for every answer. What holds of all branches holds for any library.
pub mod Legal
pub mod Granted
pub mod Outcomes
use linen.Base.{
  ℕ, Bool, true, false, not, ◌&&◌, ◌||◌, Option, none, some, List, [], ◌∷◌, ◌++◌, String,
  if◌then◌else◌, ℤ,
}

-- A library, as a component sees it: the objects that a function can own, the calls that it can make,
-- what a call answers, and which objects a call works on.
pub record Api : Type 1 where
  pub Object : Type 0
  pub Call : Type 0
  pub Reply : Call → Type 0
  pub uses : Call → List Object
  pub same : Object → Object → Bool

-- `acquire o c` is a call that makes the object `o` and answers, or answers NULL, here `none`.
-- `release o` frees it, or hands it over to another owner. `branch` is an `if`.
pub data Prog (api : Api) (A : Type 0) : Type 0 where
  done : A → Prog api A
  acquire : api.Object → (c : api.Call) → (Option (api.Reply c) → Prog api A) → Prog api A
  release : api.Object → Prog api A → Prog api A
  call : (c : api.Call) → (api.Reply c → Prog api A) → Prog api A
  branch : Bool → Prog api A → Prog api A → Prog api A

-- an error's text: a literal, that of an error number of the library, a literal and a text that the library
-- gave, or a literal and a number; of macOS a literal, its text of a status if there is one, and the status
pub data Failure : Type 0 where
  message : String → Failure
  library : ℕ → Failure
  described : String → Option (List ℕ) → Failure
  numbered : String → ℕ → Failure
  os_status : String → Option (List ℕ) → ℤ → Failure

-- what a function returns to Lean
pub data Exit (A : Type 0) : Type 0 where
  ok : A → Exit A
  error : Failure → Exit A

abbrev pub Code : Api → Type 0 → Type 0
Code api A = Prog api (Exit A)

infixl 5 ◌>>=◌ ◌>>◌
abbrev pub ◌>>=◌ : {api : Api} {A B : Type 0} → Code api A → (A → Code api B) → Code api B
done (ok a) >>= f = f a
done (error e) >>= f = done (error e)
acquire o c k >>= f = acquire o c (λ b. k b >>= f)
release o k >>= f = release o (k >>= f)
call c k >>= f = call c (λ r. k r >>= f)
branch b p q >>= f = branch b (p >>= f) (q >>= f)

abbrev pub ◌>>◌ : {api : Api} {A B : Type 0} → Code api A → Code api B → Code api B
m >> k = m >>= λ _. k

module _ {api : Api} where
  abbrev pub pure : {A : Type 0} → A → Code api A
  pure a = done (ok a)

  abbrev pub make : api.Object → (c : api.Call) → Code api (Option (api.Reply c))
  make o c = acquire o c (λ r. done (ok r))

  -- `if (!p) { ... return ...; }`, and the answer
  abbrev pub or_else : {A : Type 0} → Option A → Code api A → Code api A
  or_else none m = m
  or_else (some a) m = done (ok a)

  -- a call that makes an object, and what is done instead on NULL
  abbrev pub make_or : api.Object → (c : api.Call) → Code api (api.Reply c) → Code api (api.Reply c)
  make_or o c m = make o c >>= λ r. or_else r m

  abbrev pub free : api.Object → Code api (Unit {0})
  free o = release o (done (ok tt))

  abbrev pub ask : (c : api.Call) → Code api (api.Reply c)
  ask c = call c (λ r. done (ok r))

  -- `if (!test) { ... return ...; }`
  abbrev pub unless : Bool → Code api (Unit {0}) → Code api (Unit {0})
  unless b m = branch b (done (ok tt)) m

  -- `if (test) { ... }`
  abbrev pub when : Bool → Code api (Unit {0}) → Code api (Unit {0})
  when b m = branch b m (done (ok tt))

-- what is done after a function, whatever it returned
abbrev pub and_then : {api : Api} {A B : Type 0} → Prog api A → (A → Prog api B) → Prog api B
and_then (done a) f = f a
and_then (acquire o c k) f = acquire o c (λ r. and_then (k r) f)
and_then (release o k) f = release o (and_then k f)
and_then (call c k) f = call c (λ r. and_then (k r) f)
and_then (branch b p q) f = branch b (and_then p f) (and_then q f)

-- A library of its own state, and what a function does with it: its result, and the calls and releases
-- that it made, the first one first.
pub record Library (api : Api) (W : Type 0) : Type 0 where
  pub makes : api.Object → (c : api.Call) → W → Option (api.Reply c) × W
  pub answers : (c : api.Call) → W → api.Reply c × W

pub data Event (api : Api) : Type 0 where
  made refused : api.Object → api.Call → Event api
  freed : api.Object → Event api
  called : (c : api.Call) → api.Reply c → Event api

-- the event of a call that makes an object
abbrev pub made_or : {api : Api} {A : Type 0} → Option A → api.Object → api.Call → Event api
made_or (some r) o c = made o c
made_or none o c = refused o c

unfoldable pub run :
    {api : Api} {W A : Type 0} → Library api W → Prog api A → W → A × List (Event api) × W
run lib (done a) w = (a, [], w)
run lib (acquire o c k) w =
    let (b, w') = lib.makes o c w in
    let (a, es, w'') = run lib (k b) w' in (a, made_or b o c ∷ es, w'')
run lib (release o k) w = let (a, es, w') = run lib k w in (a, freed o ∷ es, w')
run lib (call c k) w =
    let (r, w') = lib.answers c w in
    let (a, es, w'') = run lib (k r) w' in (a, called c r ∷ es, w'')
run lib (branch b p q) w =
    let yes_run = run lib p w in let no_run = run lib q w in if b then yes_run else no_run
