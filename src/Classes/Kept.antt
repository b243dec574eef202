-- ===== src/Classes/Kept.antt =====
-- What holds of the calls that register the classes, whatever turns they take.
use linen.Base.{ℕ, zero, suc, ◌≡◌, refl, ◌⊎◌, inl, inr, Bool, true, false, List, [], ◌∷◌}
use mathlib.Core.List.{Memᴰ}
use mathlib.Core.List.Memᴰ.{head, tail, not-nil}
use linen.Classes.{
  Ensuring, loading, registering, ended, Classes, unregistered, turn, turn_of, turns_of, loaded,
}

-- the calls that start together
abbrev pub calls : {C : Type 0} → ℕ → List (Ensuring C)
calls zero = []
calls (suc n) = loading ∷ calls n

module _ {C : Type 0} (classes : List C) where
  -- each class of these is still to be registered by the call, or is registered
  abbrev Covers : List C → Classes C → Type 0
  Covers cs s = (c : C) → Memᴰ c classes → Memᴰ c cs ⊎ Memᴰ c s.registered

  abbrev pub Registered : Classes C → Type 0
  Registered s = (c : C) → Memᴰ c classes → Memᴰ c s.registered

  abbrev IsEnsuring : Ensuring C → Classes C → Type 0
  IsEnsuring loading s = Unit {0}
  IsEnsuring (registering cs) s = Covers cs s
  IsEnsuring ended s = Registered s

  abbrev pub AreEnsuring : List (Ensuring C) → Classes C → Type 0
  AreEnsuring [] s = Unit {0}
  AreEnsuring (p ∷ ps) s = IsEnsuring p s × AreEnsuring ps s

  abbrev pub IsFlagged : Classes C → Type 0
  IsFlagged s = s.initialized ≡ true → Registered s

  -- nothing is unregistered
  abbrev Grows : Classes C → Classes C → Type 0
  Grows s t = (c : C) → Memᴰ c s.registered → Memᴰ c t.registered

  covers : (cs : List C) (s t : Classes C) → Grows s t → Covers cs s → Covers cs t
  covers cs s t g h c m = elim (h c m) [ inl k ↦ inl k | inr k ↦ inr (g c k) ]

  -- one class registered, and the last one
  registers :
      (d : C) (cs rs : List C) (c : C) → Memᴰ c (d ∷ cs) ⊎ Memᴰ c rs → Memᴰ c cs ⊎ Memᴰ c (d ∷ rs)
  registers d cs rs c (inl (head e)) = inr (head e)
  registers d cs rs c (inl (tail m)) = inl m
  registers d cs rs c (inr m) = inr (tail m)

  completes : (rs : List C) (c : C) → Memᴰ c [] ⊎ Memᴰ c rs → Memᴰ c rs
  completes rs c (inl m) = absurd (not-nil m)
  completes rs c (inr m) = m

  IsEnsuring-Grows :
      (p : Ensuring C) (s t : Classes C) → Grows s t → IsEnsuring p s → IsEnsuring p t
  IsEnsuring-Grows loading s t g h = tt
  IsEnsuring-Grows (registering cs) s t g h = covers cs s t g h
  IsEnsuring-Grows ended s t g h = λ c m. g c (h c m)

  AreEnsuring-Grows :
      (ps : List (Ensuring C)) (s t : Classes C) → Grows s t → AreEnsuring ps s → AreEnsuring ps t
  AreEnsuring-Grows [] s t g h = tt
  AreEnsuring-Grows (p ∷ ps) s t g h =
      (IsEnsuring-Grows p s t g h.0, AreEnsuring-Grows ps s t g h.1)

  turn-Grows : (p : Ensuring C) (s : Classes C) → Grows s (turn classes p s).1
  unfolding turn
  turn-Grows loading s c m = m
  turn-Grows (registering []) s c m = m
  turn-Grows (registering (d ∷ cs)) s c m = tail m
  turn-Grows ended s c m = m

  loaded-IsEnsuring :
      (s : Classes C) (b : Bool) → (b ≡ true → Registered s) → IsEnsuring (loaded classes b) s
  loaded-IsEnsuring s true f = f refl
  loaded-IsEnsuring s false f = λ c m. inl m

  turn-keeps :
      (p : Ensuring C) (s : Classes C)
      → IsEnsuring p s
      → IsFlagged s
      → IsEnsuring (turn classes p s).0 (turn classes p s).1 × IsFlagged (turn classes p s).1
  unfolding turn
  turn-keeps loading s h f = (loaded-IsEnsuring s s.initialized f, f)
  turn-keeps (registering []) s h f =
      ((λ c m. completes s.registered c (h c m)), λ e c m. completes s.registered c (h c m))
  turn-keeps (registering (d ∷ cs)) s h f =
      ((λ c m. registers d cs s.registered c (h c m)), λ e c m. tail (f e c m))
  turn-keeps ended s h f = (h, f)

  turn_of-Grows :
      (i : ℕ) (ps : List (Ensuring C)) (s : Classes C) → Grows s (turn_of classes i ps s).1
  unfolding turn_of
  turn_of-Grows i [] s c m = m
  turn_of-Grows zero (p ∷ ps) s c m = turn-Grows p s c m
  turn_of-Grows (suc i) (p ∷ ps) s c m = turn_of-Grows i ps s c m

  turn_of-keeps :
      (i : ℕ) (ps : List (Ensuring C)) (s : Classes C)
      → AreEnsuring ps s
      → IsFlagged s
      → AreEnsuring (turn_of classes i ps s).0 (turn_of classes i ps s).1
        × IsFlagged (turn_of classes i ps s).1
  unfolding turn_of
  turn_of-keeps i [] s h f = (tt, f)
  turn_of-keeps zero (p ∷ ps) s h f =
      let k = turn-keeps p s h.0 f in
      ((k.0, AreEnsuring-Grows ps s (turn classes p s).1 (turn-Grows p s) h.1), k.1)
  turn_of-keeps (suc i) (p ∷ ps) s h f =
      let k = turn_of-keeps i ps s h.1 f in
      ((IsEnsuring-Grows p s (turn_of classes i ps s).1 (turn_of-Grows i ps s) h.0, k.0), k.1)

  pub turns_of-keeps :
      (js : List ℕ) (ps : List (Ensuring C)) (s : Classes C)
      → AreEnsuring ps s
      → IsFlagged s
      → AreEnsuring (turns_of classes js ps s).0 (turns_of classes js ps s).1
  unfolding turns_of
  turns_of-keeps [] ps s h f = h
  turns_of-keeps (j ∷ js) ps s h f =
      let k = turn_of-keeps j ps s h f in turns_of-keeps js _ _ k.0 k.1

  pub AreEnsuring-calls : (n : ℕ) → AreEnsuring (calls n) unregistered
  AreEnsuring-calls zero = tt
  AreEnsuring-calls (suc n) = (tt, AreEnsuring-calls n)
