-- ===== src/Classes/Ensured.antt =====
-- What a call of the registration finds when it returns, and that it returns.
use linen.Base.{
  ℕ, zero, suc, ◌+◌, ◌-◌, ◌≤◌, ◌<◌, ◌≡◌, refl, ap, ◌∙◌, Bool, true, false, Option, none, some, List,
  [], ◌∷◌, length, arith, ◌==◌, if◌then◌else◌,
}
use linen.Classes.{
  Ensuring, loading, registering, ended, Classes, unregistered, turn, turn_of, turns_of, loaded,
}
use linen.Classes.Kept.{calls, Registered, AreEnsuring, turns_of-keeps, AreEnsuring-calls}

-- the turns that the call with this number takes
abbrev pub turns_taken : ℕ → List ℕ → ℕ
turns_taken i [] = 0
turns_taken i (j ∷ js) = (if i == j then 1 else 0) + turns_taken i js

abbrev pub get_elem? : {A : Type 0} → List A → ℕ → Option A
get_elem? [] i = none
get_elem? (p ∷ ps) zero = some p
get_elem? (p ∷ ps) (suc i) = get_elem? ps i

module _ {C : Type 0} (classes : List C) where
  -- the turns that a call still needs
  abbrev remaining : Ensuring C → ℕ
  remaining loading = length classes + 2
  remaining (registering cs) = suc (length cs)
  remaining ended = 0

  abbrev remaining_at : List (Ensuring C) → ℕ → ℕ
  remaining_at [] i = 0
  remaining_at (p ∷ ps) zero = remaining p
  remaining_at (p ∷ ps) (suc i) = remaining_at ps i

  remaining-loaded : (b : Bool) → remaining (loaded classes b) ≤ suc (length classes)
  remaining-loaded true = omega arith
  remaining-loaded false = omega arith

  remaining-turn :
      (p : Ensuring C) (s : Classes C) → remaining (turn classes p s).0 ≤ remaining p - 1
  unfolding turn
  remaining-turn loading s = let h = remaining-loaded s.initialized in omega arith
  remaining-turn (registering []) s = omega arith
  remaining-turn (registering (c ∷ cs)) s = omega arith
  remaining-turn ended s = omega arith

  remaining-turn_of :
      (i j : ℕ) (ps : List (Ensuring C)) (s : Classes C)
      → remaining_at (turn_of classes j ps s).0 i ≤ remaining_at ps i - (if i == j then 1 else 0)
  unfolding turn_of
  remaining-turn_of i j [] s = omega arith
  remaining-turn_of zero zero (p ∷ ps) s = remaining-turn p s
  remaining-turn_of (suc i) zero (p ∷ ps) s = ground arith
  remaining-turn_of zero (suc j) (p ∷ ps) s = ground arith
  remaining-turn_of (suc i) (suc j) (p ∷ ps) s = let h = remaining-turn_of i j ps s in ground arith

  remaining-turns_of :
      (i : ℕ) (js : List ℕ) (ps : List (Ensuring C)) (s : Classes C)
      → remaining_at (turns_of classes js ps s).0 i ≤ remaining_at ps i - turns_taken i js
  unfolding turns_of
  remaining-turns_of i [] ps s = omega arith
  remaining-turns_of i (j ∷ js) ps s =
      let (qs, t) = turn_of classes j ps s in
      let h = remaining-turn_of i j ps s in let k = remaining-turns_of i js qs t in omega arith

  length-turn_of :
      (i : ℕ) (ps : List (Ensuring C)) (s : Classes C)
      → length (turn_of classes i ps s).0 ≡ length ps
  unfolding turn_of
  length-turn_of i [] s = refl
  length-turn_of zero (p ∷ ps) s = refl
  length-turn_of (suc i) (p ∷ ps) s = ap suc (length-turn_of i ps s)

  length-turns_of :
      (js : List ℕ) (ps : List (Ensuring C)) (s : Classes C)
      → length (turns_of classes js ps s).0 ≡ length ps
  unfolding turns_of
  length-turns_of [] ps s = refl
  length-turns_of (j ∷ js) ps s = length-turns_of js _ _ ∙ length-turn_of j ps s

  length-calls : (n : ℕ) → length (calls {C = C} n) ≡ n
  length-calls zero = refl
  length-calls (suc n) = ap suc (length-calls n)

  remaining_at-calls : (n i : ℕ) → remaining_at (calls n) i ≤ length classes + 2
  remaining_at-calls zero i = omega arith
  remaining_at-calls (suc n) zero = omega arith
  remaining_at-calls (suc n) (suc i) = remaining_at-calls n i

  -- a call that needs no turn has returned
  get_elem?-ended :
      (ps : List (Ensuring C)) (i : ℕ) (s : Classes C)
      → i < length ps
      → remaining_at ps i ≤ 0
      → AreEnsuring classes ps s
      → (get_elem? ps i ≡ some ended) × Registered classes s
  get_elem?-ended [] i s short z h = absurd (omega arith)
  get_elem?-ended (loading ∷ ps) zero s short z h = absurd (omega arith)
  get_elem?-ended (registering cs ∷ ps) zero s short z h = absurd (omega arith)
  get_elem?-ended (ended ∷ ps) zero s short z h = (refl, h.0)
  get_elem?-ended (p ∷ ps) (suc i) s short z h = get_elem?-ended ps i s (omega (arith, short)) z h.1

  -- Of n calls that start with nothing registered, in whatever order they take their turns, one that has
  -- taken two turns more than there are classes has returned, and every class is then registered.
  pub turns_of-Registered :
      (n i : ℕ) (js : List ℕ)
      → i < n
      → length classes + 2 ≤ turns_taken i js
      → (get_elem? (turns_of classes js (calls n) unregistered).0 i ≡ some ended)
        × Registered classes (turns_of classes js (calls n) unregistered).1
  turns_of-Registered n i js short enough =
      let (ps, s) = turns_of classes js (calls n) unregistered in
      let l = length-turns_of js (calls n) unregistered ∙ length-calls n in
      let r = remaining-turns_of i js (calls n) unregistered in
      let c = remaining_at-calls n i in
      get_elem?-ended ps i s (omega (arith, l, short)) (omega (arith, r, c, enough)) (
        turns_of-keeps classes js (calls n) unregistered (AreEnsuring-calls classes n)
          (λ e. absurd (cc)))
