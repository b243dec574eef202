-- ===== src/Tls/Getters.antt =====
-- What ffi/tls.c tells of a session, under its lock.
use linen.Base.{ℕ, Bool, true, false, Option, some, none, List, [], ◌∷◌, if◌then◌else◌}
use linen.Tls.{Ssl, Session, Event, asks}

-- "unknown"
abbrev pub unknown_version : List ℕ
unknown_version = b'u' ∷ b'n' ∷ b'k' ∷ b'n' ∷ b'o' ∷ b'w' ∷ b'n' ∷ []

-- `alpn && alpn_len > 0`
abbrev pub selected_name : Option (List ℕ) → Option (List ℕ)
selected_name none = none
selected_name (some []) = none
selected_name (some (b ∷ bs)) = some (b ∷ bs)

-- the call of OpenSSL, which is made if there is an SSL object
abbrev pub asked : Bool → List Event
asked true = asks ∷ []
asked false = []

module _ {W : Type 0} (lib : Ssl W) where
  -- `linen_tls_get_version`
  unfoldable pub session_version : Session → W → List ℕ × List Event
  session_version s w = (if s.ssl then lib.get_version w else unknown_version, asked s.ssl)

  -- `linen_tls_get_alpn`
  unfoldable pub session_alpn : Session → W → Option (List ℕ) × List Event
  session_alpn s w = (if s.ssl then selected_name (lib.get0_alpn_selected w) else none, asked s.ssl)
