-- ===== src/Jose/Base64/RoundTrip.antt =====
-- `linen_jose_base64url_decode` gives OpenSSL the text that `linen_jose_base64url_encode` had from it.
use linen.Base.{
  ℕ, zero, suc, ◌+◌, ◌%◌, ◌<◌, ◌≡◌, refl, sym, ap, ap₂, ◌∙◌, Bool, true, not, ◌&&◌, List, [], ◌∷◌,
  ◌++◌, map, reverse, append-nil, append_assoc, ◌==◌, length, replicate, arith,
}
use mathlib.Core.List.{reverse-append, reverse-reverse, reverse-cons}
use linen.Jose.Base64.{to_base64, to_base64url, padded, strip, stripped}

-- a character of base64 that is not padding, nor one that only base64url has
abbrev pub is_plain : ℕ → Bool
is_plain c = not (c == b'=') && not (c == b'-') && not (c == b'_')

abbrev pub all_plain : List ℕ → Bool
all_plain [] = true
all_plain (c ∷ cs) = is_plain c && all_plain cs

-- no '=' in a text
abbrev unpadded : List ℕ → Bool
unpadded [] = true
unpadded (c ∷ cs) = not (c == b'=') && unpadded cs

strip-unpadded : (cs : List ℕ) → unpadded cs ≡ true → strip cs ≡ cs
unfolding strip
strip-unpadded [] h = refl
strip-unpadded (c ∷ cs) h = ground arith

unpadded-append :
    (xs ys : List ℕ) → unpadded xs ≡ true → unpadded ys ≡ true → unpadded (xs ++ ys) ≡ true
unpadded-append [] ys h k = k
unpadded-append (x ∷ xs) ys h k = grind (arith, unpadded-append xs ys)

unpadded-reverse : (cs : List ℕ) → unpadded cs ≡ true → unpadded (reverse cs) ≡ true
unpadded-reverse [] h = refl
unpadded-reverse (c ∷ cs) h =
    rw (reverse-cons c cs)
      (unpadded-append (reverse cs) (c ∷ []) (unpadded-reverse cs (ground arith)) (ground arith))

unpadded-map : (cs : List ℕ) → all_plain cs ≡ true → unpadded (map to_base64url cs) ≡ true
unpadded-map [] h = refl
unpadded-map (c ∷ cs) h = grind (arith, unpadded-map cs)

to_base64-to_base64url : (c : ℕ) → is_plain c ≡ true → to_base64 (to_base64url c) ≡ c
to_base64-to_base64url c h = grind arith

map-to_base64 : (cs : List ℕ) → all_plain cs ≡ true → map to_base64 (map to_base64url cs) ≡ cs
map-to_base64 [] h = refl
map-to_base64 (c ∷ cs) h =
    ap₂ (λ x l. x ∷ l) (to_base64-to_base64url c (ground arith)) (map-to_base64 cs (ground arith))

-- one trailing '=' goes
strip-last : (cs : List ℕ) → strip (reverse (cs ++ (b'=' ∷ []))) ≡ strip (reverse cs)
unfolding strip
strip-last cs = ap strip (reverse-append cs (b'=' ∷ []))

strip-padding :
    (n : ℕ) (cs : List ℕ) → strip (reverse (cs ++ replicate n b'=')) ≡ strip (reverse cs)
strip-padding zero cs = rw (append-nil cs) refl
strip-padding (suc n) cs =
    ap (λ l. strip (reverse l)) (sym (append_assoc cs (b'=' ∷ []) (replicate n b'=')))
    ∙ strip-padding n (cs ++ (b'=' ∷ []))
    ∙ strip-last cs

map-padding :
    (cs : List ℕ) (n : ℕ)
    → map to_base64url (cs ++ replicate n b'=') ≡ map to_base64url cs ++ replicate n b'='
map-padding [] zero = refl
map-padding [] (suc n) = ap (λ l. b'=' ∷ l) (map-padding [] n)
map-padding (c ∷ cs) n = ap (λ l. to_base64url c ∷ l) (map-padding cs n)

length-map : (f : ℕ → ℕ) (cs : List ℕ) → length (map f cs) ≡ length cs
length-map f [] = refl
length-map f (c ∷ cs) = ap suc (length-map f cs)

stripped-body :
    (body : List ℕ) (n : ℕ)
    → all_plain body ≡ true
    → stripped (body ++ replicate n b'=') ≡ map to_base64url body
unfolding stripped
stripped-body body n plain =
    ap (λ l. reverse (strip (reverse l))) (map-padding body n)
    ∙ ap reverse (strip-padding n (map to_base64url body))
    ∙ ap reverse (
        strip-unpadded (reverse (map to_base64url body))
          (unpadded-reverse (map to_base64url body) (unpadded-map body plain)))
    ∙ reverse-reverse (map to_base64url body)

-- What the encoder leaves of a base64 text, padded again by the decoder, is the text that OpenSSL made:
-- characters but '=', '-' and '_', then up to three '=' to a multiple of four.
pub padded-stripped :
    (body : List ℕ) (n : ℕ)
    → all_plain body ≡ true
    → n < 4
    → (length body + n) % 4 ≡ 0
    → padded (stripped (body ++ replicate n b'=')) ≡ body ++ replicate n b'='
unfolding padded
padded-stripped body n plain few whole = rw (stripped-body body n plain) (
    ap₂ (λ l k. l ++ replicate k b'=') (map-to_base64 body plain)
      (rw (length-map to_base64url body) (omega (arith, few, whole))))
