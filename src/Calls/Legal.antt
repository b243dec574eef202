-- ===== src/Calls/Legal.antt =====
-- Ownership: what a function allocates is used while it is there, and given back exactly once.
use linen.Base.{
  ◌≡◌, refl, sym, subst, ap, ◌∙◌, Bool, true, false, ◌&&◌, ◌||◌, Option, none, some, List, [], ◌∷◌,
  if◌then◌else◌,
}
use linen.Calls.{
  Api, Prog, done, acquire, release, call, branch, and_then, Library, Event, made, refused, freed,
  called, made_or, run,
}

pub if_once : {A : Type 0} (b : Bool) (x y : A) → b ≡ true → (if b then x else y) ≡ x
if_once b x y h = rw h refl

if_twice :
    {A : Type 0} (b c : Bool) (x y z : A)
    → b ≡ true
    → c ≡ false
    → (if b then (if c then x else y) else z) ≡ y
if_twice b c x y z h k = rw (h, k) refl

abbrev pub SomeIs : {B : Type 0} → (B → Type 0) → Option B → Type 0
SomeIs P none = Unit {0}
SomeIs P (some b) = P b

-- `Possible` is what the library documents of its answers.
module _ (api : Api) (Possible : (c : api.Call) → api.Reply c → Type 0) where
  abbrev pub has : List api.Object → api.Object → Bool
  has [] o = false
  has (x ∷ xs) o = api.same x o || has xs o

  abbrev pub has_all : List api.Object → List api.Object → Bool
  has_all held [] = true
  has_all held (o ∷ os) = has held o && has_all held os

  abbrev pub without : List api.Object → api.Object → List api.Object
  without [] o = []
  without (x ∷ xs) o = if api.same x o then xs else x ∷ without xs o

  -- What is held after an event, or `none` if it uses or frees what is not held, or makes what is.
  abbrev pub after : Event api → List api.Object → Option (List api.Object)
  after (made o c) held =
      if has_all held (api.uses c) then (if has held o then none else some (o ∷ held)) else none
  after (refused o c) held = if has_all held (api.uses c) then some held else none
  after (freed o) held = if has held o then some (without held o) else none
  after (called c r) held = if has_all held (api.uses c) then some held else none

  abbrev pub after_all : List (Event api) → Option (List api.Object) → Option (List api.Object)
  after_all es none = none
  after_all [] (some held) = some held
  after_all (e ∷ es) (some held) = after_all es (after e held)

  -- On every branch a program keeps the rules and ends with what `end` says of its result.
  abbrev pub Legal : {A : Type 0} → (A → List api.Object) → List api.Object → Prog api A → Type 0
  Legal end held (done a) = held ≡ end a
  Legal end held (acquire o c k) =
      (has_all held (api.uses c) ≡ true)
      × (has held o ≡ false)
      × ((r : api.Reply c) → Possible c r → Legal end (o ∷ held) (k (some r)))
      × Legal end held (k none)
  Legal end held (release o k) = (has held o ≡ true) × Legal end (without held o) k
  Legal end held (call c k) =
      (has_all held (api.uses c) ≡ true) × ((r : api.Reply c) → Possible c r → Legal end held (k r))
  Legal end held (branch b p q) = (b ≡ true → Legal end held p) × (b ≡ false → Legal end held q)

  pub Legal-and_then :
      {A B : Type 0} (between : A → List api.Object) (end : B → List api.Object)
      (held : List api.Object) (p : Prog api A) (f : A → Prog api B)
      → Legal between held p
      → ((a : A) → Legal end (between a) (f a))
      → Legal end held (and_then p f)
  Legal-and_then between end held (done a) f h k = subst (λ l. Legal end l (f a)) (sym h) (k a)
  Legal-and_then between end held (acquire o c p) f h k = (
    h.0,
    h.1,
    (λ r t. Legal-and_then between end (o ∷ held) (p (some r)) f (h.2 r t) k),
    Legal-and_then between end held (p none) f h.3 k,
  )
  Legal-and_then between end held (release o p) f h k =
      (h.0, Legal-and_then between end (without held o) p f h.1 k)
  Legal-and_then between end held (call c p) f h k =
      (h.0, λ r t. Legal-and_then between end held (p r) f (h.1 r t) k)
  Legal-and_then between end held (branch b p q) f h k = (
    (λ t. Legal-and_then between end held p f (h.0 t) k),
    λ t. Legal-and_then between end held q f (h.1 t) k,
  )

  pub after_all-step :
      (e : Event api) (held held' : List api.Object) (es : List (Event api))
      {x : Option (List api.Object)}
      → after e held ≡ some held'
      → after_all es (some held') ≡ x
      → after_all (e ∷ es) (some held) ≡ x
  after_all-step e held held' es step rest = ap (λ m. after_all es m) step ∙ rest

  -- what is held after a call that was to make an object
  abbrev pub grown : {A : Type 0} → Option A → api.Object → List api.Object → List api.Object
  grown none o held = held
  grown (some r) o held = o ∷ held

  pub after_all-made_or :
      {A : Type 0} (r : Option A) (o : api.Object) (c : api.Call) (held : List api.Object)
      (es : List (Event api)) (x : Option (List api.Object))
      → has_all held (api.uses c) ≡ true
      → has held o ≡ false
      → after_all es (some (grown r o held)) ≡ x
      → after_all (made_or r o c ∷ es) (some held) ≡ x
  after_all-made_or (some r) o c held es x usable fresh h =
      after_all-step (made o c) held (o ∷ held) es (if_twice _ _ _ _ _ usable fresh) h
  after_all-made_or none o c held es x usable fresh h =
      after_all-step (refused o c) held held es (if_once _ _ _ usable) h

  Legal-grown :
      {A B : Type 0} {P : B → Type 0} (end : A → List api.Object) (r : Option B) (o : api.Object)
      (held : List api.Object) (k : Option B → Prog api A)
      → ((r : B) → P r → Legal end (o ∷ held) (k (some r)))
      → Legal end held (k none)
      → SomeIs P r
      → Legal end (grown r o held) (k r)
  Legal-grown end (some r) o held k t f p = t r p
  Legal-grown end none o held k t f p = f

  -- a library whose answers are as documented
  pub record Documented {W : Type 0} (lib : Library api W) : Type 0 where
    pub made_reply :
        (o : api.Object) (c : api.Call) (w : W) → SomeIs (Possible c) (lib.makes o c w).0
    pub reply : (c : api.Call) (w : W) → Possible c (lib.answers c w).0

  -- So with a documented library its run keeps the rules, and ends so.
  pub Legal-run :
      {W A : Type 0} (lib : Library api W) (doc : Documented lib) (end : A → List api.Object)
      (held : List api.Object) (p : Prog api A) (w : W)
      → Legal end held p
      → after_all (run lib p w).1 (some held) ≡ some (end (run lib p w).0)
  unfolding run
  Legal-run lib doc end held (done a) w h = ap (λ l. some l) h
  Legal-run lib doc end held (acquire o c k) w h =
      let (r, w') = lib.makes o c w in
      after_all-made_or r o c held (run lib (k r) w').1 _ h.0 h.1 (
        Legal-run lib doc end (grown r o held) (k r) w'
          (Legal-grown end r o held k h.2 h.3 (doc.made_reply o c w)))
  Legal-run lib doc end held (release o k) w h =
      after_all-step (freed o) held (without held o) _ (if_once _ _ _ h.0)
        (Legal-run lib doc end (without held o) k w h.1)
  Legal-run lib doc end held (call c k) w h =
      after_all-step (called c (lib.answers c w).0) held held _ (if_once _ _ _ h.0) (
        Legal-run lib doc end held (k (lib.answers c w).0) (lib.answers c w).1
          (h.1 (lib.answers c w).0 (doc.reply c w)))
  Legal-run lib doc end held (branch true p q) w h = Legal-run lib doc end held p w (h.0 refl)
  Legal-run lib doc end held (branch false p q) w h = Legal-run lib doc end held q w (h.1 refl)
