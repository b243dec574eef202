-- ===== src/Base/Lists.antt =====
-- C arrays as lists measured and indexed by native numbers, under the library's names, and the
-- copies that `memcpy`, `memmove` and `recv` make into them.
use Prim.Native.Nat.{ℕ, zero, suc, ◌+◌, ◌-◌, ◌≤◌, ◌<◌, min}
use mathlib.Core.Path.{◌≡◌, refl, ap}
use mathlib.Core.List.{List, [], ◌∷◌, ◌++◌}
use native.Mathlib.Omega.{arith}

module _ {ℓ} {A : Type ℓ} where
  abbrev pub length : List A → ℕ
  length [] = 0
  length (x ∷ xs) = suc (length xs)

  abbrev pub get_or : List A → ℕ → A → A
  get_or [] i d = d
  get_or (x ∷ xs) zero d = x
  get_or (x ∷ xs) (suc i) d = get_or xs i d

  abbrev pub take : ℕ → List A → List A
  take zero xs = []
  take (suc n) [] = []
  take (suc n) (x ∷ xs) = x ∷ take n xs

  abbrev pub drop : ℕ → List A → List A
  drop zero xs = xs
  drop (suc n) [] = []
  drop (suc n) (x ∷ xs) = drop n xs

  abbrev pub replicate : ℕ → A → List A
  replicate zero a = []
  replicate (suc n) a = a ∷ replicate n a

  -- the elements of `xs` written over the array from index `i` on, cut off at its end
  abbrev pub write_at : List A → ℕ → List A → List A
  write_at [] i xs = []
  write_at (b ∷ bs) zero [] = b ∷ bs
  write_at (b ∷ bs) zero (x ∷ xs) = x ∷ write_at bs zero xs
  write_at (b ∷ bs) (suc i) xs = b ∷ write_at bs i xs

module _ {ℓ} {A : Type ℓ} where
  pub length-append : (xs ys : List A) → length (xs ++ ys) ≡ length xs + length ys
  length-append [] ys = omega arith
  length-append (x ∷ xs) ys = omega (arith, length-append xs ys)

  pub length-take : (n : ℕ) (xs : List A) → length (take n xs) ≡ min n (length xs)
  length-take zero xs = omega arith
  length-take (suc n) [] = omega arith
  length-take (suc n) (x ∷ xs) = omega (arith, length-take n xs)

  pub length-drop : (n : ℕ) (xs : List A) → length (drop n xs) ≡ length xs - n
  length-drop zero xs = omega arith
  length-drop (suc n) [] = omega arith
  length-drop (suc n) (x ∷ xs) = omega (arith, length-drop n xs)

  pub length-replicate : (n : ℕ) (a : A) → length (replicate n a) ≡ n
  length-replicate zero a = refl
  length-replicate (suc n) a = ap suc (length-replicate n a)

  pub length-write_at : (bs : List A) (i : ℕ) (xs : List A) → length (write_at bs i xs) ≡ length bs
  length-write_at [] i xs = refl
  length-write_at (b ∷ bs) zero [] = refl
  length-write_at (b ∷ bs) zero (x ∷ xs) = ap suc (length-write_at bs zero xs)
  length-write_at (b ∷ bs) (suc i) xs = ap suc (length-write_at bs i xs)

  pub take-append-drop : (n : ℕ) (xs : List A) → take n xs ++ drop n xs ≡ xs
  take-append-drop zero xs = refl
  take-append-drop (suc n) [] = refl
  take-append-drop (suc n) (x ∷ xs) = ap (λ r. x ∷ r) (take-append-drop n xs)

  pub take-all : (n : ℕ) (xs : List A) → length xs ≤ n → take n xs ≡ xs
  take-all zero [] h = refl
  take-all zero (x ∷ xs) h = absurd (omega arith)
  take-all (suc n) [] h = refl
  take-all (suc n) (x ∷ xs) h = ap (λ r. x ∷ r) (take-all n xs (omega arith))

  pub drop-all : (n : ℕ) (xs : List A) → length xs ≤ n → drop n xs ≡ []
  drop-all zero [] h = refl
  drop-all zero (x ∷ xs) h = absurd (omega arith)
  drop-all (suc n) [] h = refl
  drop-all (suc n) (x ∷ xs) h = drop-all n xs (omega arith)

  -- A list is cut where its first part ends.
  pub take-append : (xs ys : List A) (n : ℕ) → n ≡ length xs → take n (xs ++ ys) ≡ xs
  take-append [] ys zero h = refl
  take-append [] ys (suc n) h = absurd (omega arith)
  take-append (x ∷ xs) ys zero h = absurd (omega arith)
  take-append (x ∷ xs) ys (suc n) h = ap (λ r. x ∷ r) (take-append xs ys n (omega arith))

  pub drop-append : (xs ys : List A) (n : ℕ) → n ≡ length xs → drop n (xs ++ ys) ≡ ys
  drop-append [] ys zero h = refl
  drop-append [] ys (suc n) h = absurd (omega arith)
  drop-append (x ∷ xs) ys zero h = absurd (omega arith)
  drop-append (x ∷ xs) ys (suc n) h = drop-append xs ys n (omega arith)

  -- What `n` elements from `i` on begin with, and what follows the first of them.
  pub take-drop-cons :
      (bs : List A) (i n : ℕ) (d : A)
      → i < length bs
      → take (suc n) (drop i bs) ≡ get_or bs i d ∷ take n (drop (suc i) bs)
  take-drop-cons [] i n d h = absurd (omega arith)
  take-drop-cons (b ∷ []) zero zero d h = refl
  take-drop-cons (b ∷ []) zero (suc n) d h = refl
  take-drop-cons (b ∷ b' ∷ bs) zero n d h = refl
  take-drop-cons (b ∷ bs) (suc i) n d h = take-drop-cons bs i n d (omega arith)

  -- Elements written behind the first `i` extend them.
  pub take-write_at :
      (bs : List A) (i : ℕ) (xs : List A) (k : ℕ)
      → k ≡ i + length xs
      → k ≤ length bs
      → take k (write_at bs i xs) ≡ take i bs ++ xs
  take-write_at bs zero [] zero e h = refl
  take-write_at bs zero [] (suc k) e h = absurd (omega arith)
  take-write_at [] zero (x ∷ xs) k e h = absurd (omega arith)
  take-write_at (b ∷ bs) zero (x ∷ xs) zero e h = absurd (omega arith)
  take-write_at (b ∷ bs) zero (x ∷ xs) (suc k) e h =
      ap (λ r. x ∷ r) (take-write_at bs zero xs k (omega arith) (omega arith))
  take-write_at [] (suc i) xs k e h = absurd (omega arith)
  take-write_at (b ∷ bs) (suc i) xs zero e h = absurd (omega arith)
  take-write_at (b ∷ bs) (suc i) xs (suc k) e h =
      ap (λ r. b ∷ r) (take-write_at bs i xs k (omega arith) (omega arith))

  pub nil_of_length : (xs : List A) → length xs ≡ 0 → xs ≡ []
  nil_of_length [] h = refl
  nil_of_length (x ∷ xs) h = absurd (omega arith)
