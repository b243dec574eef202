-- ===== src/Keychain/Linux.antt =====
-- The secrets of ffi/keychain.c in the Secret Service, over libsecret.
use linen.Base.{ℕ, ◌+◌, Bool, Option, some, none, List, String, length}
use linen.Calls.{Code, done, error, described, ◌>>=◌, ◌>>◌, pure, ask, make, make_or, free, unless}
use linen.Keychain.{
  value, attrs, label, g_error, secret_value_new, attributes_build, malloc, store_sync, lookup_sync,
  clear_sync, stored_error, stored_message, value_get, keychain, fail,
}

-- `snprintf` of an error's message, which is then freed; its buffer of 256 bytes cuts a longer text.
-- Where there is no error or no message the text is "unknown error".
abbrev pub report : {A : Type 0} → String → Option (Unit {0}) → Code keychain A
report m none = done (error (described m none))
report m (some e) = do text ← ask stored_message; free g_error; done (error (described m text))

-- `linen_keychain_set` on Linux. An error is stored only by a call that fails, as in all of GLib.
unfoldable pub set_secret : List ℕ → List ℕ → List ℕ → Code keychain (Unit {0})
set_secret service account secret = do
  make_or value (secret_value_new secret) (fail "keychain: out of memory")
  make_or attrs (attributes_build service account)
      (do free value; fail "keychain: failed to build Secret Service attributes")
  make_or label (malloc (length service + length account + 4))
      (do free attrs; free value; fail "keychain: out of memory")
  stored ← ask store_sync
  free label
  free attrs
  free value
  unless stored (do e ← make g_error stored_error; report "keychain: failed to store secret: " e)

-- `if (value) secret_value_unref(value)`
abbrev pub unref_value : Option (Unit {0}) → Code keychain (Unit {0})
unref_value none = pure tt
unref_value (some v) = free value

-- what `linen_keychain_get` does with the value and the error of the look-up
abbrev pub looked_up : Option (Unit {0}) → Option (Unit {0}) → Code keychain (List ℕ)
looked_up v (some e) = do
  text ← ask stored_message
  free g_error
  unref_value v
  done (error (described "keychain: failed to retrieve secret: " text))
looked_up none none = fail "keychain: no matching entry found"
looked_up (some v) none = do bytes ← ask value_get; free value; pure bytes

-- `linen_keychain_get` on Linux
unfoldable pub get_secret : List ℕ → List ℕ → Code keychain (List ℕ)
get_secret service account = do
  make_or attrs (attributes_build service account)
      (fail "keychain: failed to build Secret Service attributes")
  v ← make value lookup_sync
  e ← make g_error stored_error
  free attrs
  looked_up v e

-- what `linen_keychain_delete` does with the answer and the error
abbrev pub cleared : Bool → Option (Unit {0}) → Code keychain (Unit {0})
cleared removed (some e) = report "keychain: failed to delete secret: " (some e)
cleared removed none = unless removed (fail "keychain: no matching entry found")

-- `linen_keychain_delete` on Linux
unfoldable pub delete_secret : List ℕ → List ℕ → Code keychain (Unit {0})
delete_secret service account = do
  removed ← ask (clear_sync service account)
  e ← make g_error stored_error
  cleared removed e
