-- ===== src/Calls/Granted.antt =====
-- The rule of ownership for code that does not check all that it makes: some calls are granted, that is
-- they make their object whenever they are made.
use linen.Base.{◌≡◌, refl, ap, Bool, true, false, Option, none, some, List, ◌∷◌}
use linen.Calls.{Api, Prog, done, acquire, release, call, branch, Library, freed, called, run}
use linen.Calls.Legal.{
  SomeIs, has, has_all, without, after_all, after_all-step, grown, after_all-made_or, Documented,
  if_once,
}

-- what is asked of a refusal, which a granted call does not give
abbrev Refusal : Bool → Type 0 → Type 0
Refusal true A = Unit {0}
Refusal false A = A

module _ (api : Api) (Possible : (c : api.Call) → api.Reply c → Type 0)
    (granted : api.Call → Bool) where
  -- As `Legal`, but nothing is asked where a granted call is refused.
  abbrev pub Sound : {A : Type 0} → (A → List api.Object) → List api.Object → Prog api A → Type 0
  Sound end held (done a) = held ≡ end a
  Sound end held (acquire o c k) =
      (has_all api Possible held (api.uses c) ≡ true)
      × (has api Possible held o ≡ false)
      × ((r : api.Reply c) → Possible c r → Sound end (o ∷ held) (k (some r)))
      × Refusal (granted c) (Sound end held (k none))
  Sound end held (release o k) =
      (has api Possible held o ≡ true) × Sound end (without api Possible held o) k
  Sound end held (call c k) =
      (has_all api Possible held (api.uses c) ≡ true)
      × ((r : api.Reply c) → Possible c r → Sound end held (k r))
  Sound end held (branch b p q) = (b ≡ true → Sound end held p) × (b ≡ false → Sound end held q)

  answered : (b : Bool) {A : Type 0} → (b ≡ true → ⊥) → Refusal b A → A
  answered true h x = absurd (h refl)
  answered false h x = x

  Sound-grown :
      {A B : Type 0} {P : B → Type 0} (end : A → List api.Object) (r : Option B) (o : api.Object)
      (held : List api.Object) (k : Option B → Prog api A) (b : Bool)
      → ((r : B) → P r → Sound end (o ∷ held) (k (some r)))
      → Refusal b (Sound end held (k none))
      → (b ≡ true → ¬ (r ≡ none))
      → SomeIs P r
      → Sound end (grown api Possible r o held) (k r)
  Sound-grown end (some r) o held k b t f g p = t r p
  Sound-grown end none o held k b t f g p = answered b (λ t. g t refl) f

  -- a library that grants them
  abbrev pub Grants : {W : Type 0} → Library api W → Type 0
  Grants {W} lib =
      (o : api.Object) (c : api.Call) (w : W) → granted c ≡ true → ¬ ((lib.makes o c w).0 ≡ none)

  -- So with such a library, if it is documented, the run keeps the rules, and ends so.
  pub Sound-run :
      {W A : Type 0} (lib : Library api W) (doc : Documented api Possible lib) (g : Grants lib)
      (end : A → List api.Object) (held : List api.Object) (p : Prog api A) (w : W)
      → Sound end held p
      → after_all api Possible (run lib p w).1 (some held) ≡ some (end (run lib p w).0)
  unfolding run
  Sound-run lib doc g end held (done a) w h = ap (λ l. some l) h
  Sound-run lib doc g end held (acquire o c k) w h =
      let (r, w') = lib.makes o c w in
      after_all-made_or api Possible r o c held (run lib (k r) w').1 _ h.0 h.1 (
        Sound-run lib doc g end (grown api Possible r o held) (k r) w'
          (Sound-grown end r o held k (granted c) h.2 h.3 (g o c w) (doc.made_reply o c w)))
  Sound-run lib doc g end held (release o k) w h =
      after_all-step api Possible (freed o) held (without api Possible held o) _ (if_once _ _ _ h.0)
        (Sound-run lib doc g end (without api Possible held o) k w h.1)
  Sound-run lib doc g end held (call c k) w h =
      let (r, w') = lib.answers c w in
      after_all-step api Possible (called c r) held held _ (if_once _ _ _ h.0)
        (Sound-run lib doc g end held (k r) w' (h.1 r (doc.reply c w)))
  Sound-run lib doc g end held (branch true p q) w h = Sound-run lib doc g end held p w (h.0 refl)
  Sound-run lib doc g end held (branch false p q) w h = Sound-run lib doc g end held q w (h.1 refl)
