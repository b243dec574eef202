-- ===== src/Calls/Outcomes.antt =====
-- What a program returns, with the events on the way to it.
use linen.Base.{◌≡◌, refl, true, false, Option, some, none, List, [], ◌∷◌}
use linen.Calls.{
  Api, Prog, done, acquire, release, call, branch, Library, Exit, ok, error, Code, ◌>>=◌, Event,
  made, refused, freed, called, made_or, run,
}

module _ {api : Api} where
  -- `P` holds of the result and the events of every branch.
  abbrev pub Ends : {A : Type 0} → (A → List (Event api) → Type 0) → Prog api A → Type 0
  Ends P (done a) = P a []
  Ends P (acquire o c k) =
      ((r : api.Reply c) → Ends (λ a es. P a (made o c ∷ es)) (k (some r)))
      × Ends (λ a es. P a (refused o c ∷ es)) (k none)
  Ends P (release o k) = Ends (λ a es. P a (freed o ∷ es)) k
  Ends P (call c k) = (r : api.Reply c) → Ends (λ a es. P a (called c r ∷ es)) (k r)
  Ends P (branch b p q) = (b ≡ true → Ends P p) × (b ≡ false → Ends P q)

  Ends-acquire :
      {A B : Type 0} (P : A → List (Event api) → Type 0) (o : api.Object) (c : api.Call)
      (k : Option B → Prog api A) (r : Option B)
      → ((r : B) → Ends (λ a es. P a (made o c ∷ es)) (k (some r)))
      → Ends (λ a es. P a (refused o c ∷ es)) (k none)
      → Ends (λ a es. P a (made_or r o c ∷ es)) (k r)
  Ends-acquire P o c k (some r) t f = t r
  Ends-acquire P o c k none t f = f

  -- So with any library `P` holds of the run.
  pub Ends-run :
      {W A : Type 0} (lib : Library api W) (P : A → List (Event api) → Type 0) (p : Prog api A)
      (w : W)
      → Ends P p
      → P (run lib p w).0 (run lib p w).1
  unfolding run
  Ends-run lib P (done a) w h = h
  Ends-run lib P (acquire o c k) w h =
      let (r, w') = lib.makes o c w in
      Ends-run lib (λ a es. P a (made_or r o c ∷ es)) (k r) w' (Ends-acquire P o c k r h.0 h.1)
  Ends-run lib P (release o k) w h = Ends-run lib (λ a es. P a (freed o ∷ es)) k w h
  Ends-run lib P (call c k) w h =
      let (r, w') = lib.answers c w in Ends-run lib (λ a es. P a (called c r ∷ es)) (k r) w' (h r)
  Ends-run lib P (branch true p q) w h = Ends-run lib P p w (h.0 refl)
  Ends-run lib P (branch false p q) w h = Ends-run lib P q w (h.1 refl)

-- a function of what a program returns
abbrev pub mapped : {A B : Type 0} → (A → B) → Exit A → Exit B
mapped f (ok a) = ok (f a)
mapped f (error e) = error e

pub run-map :
    {api : Api} {W A B : Type 0} (lib : Library api W) (f : A → B) (p : Code api A) (w : W)
    → (run lib (p >>= λ x. done (ok (f x))) w).0 ≡ mapped f (run lib p w).0
unfolding run
run-map lib f (done (ok a)) w = refl
run-map lib f (done (error e)) w = refl
run-map lib f (acquire o c k) w = run-map lib f (k (lib.makes o c w).0) (lib.makes o c w).1
run-map lib f (release o k) w = run-map lib f k w
run-map lib f (call c k) w = run-map lib f (k (lib.answers c w).0) (lib.answers c w).1
run-map lib f (branch true p q) w = run-map lib f p w
run-map lib f (branch false p q) w = run-map lib f q w
