-- ===== src/Keychain/Macos.antt =====
-- The secrets of ffi/keychain.c in the keychain of macOS, over CoreFoundation and Security.framework.
use linen.Base.{ℕ, Bool, false, Option, some, none, List, [], ℤ, pos, negsuc, ◌==◌, String}
use linen.Calls.{
  Code, done, error, os_status, ◌>>=◌, ◌>>◌, pure, ask, make, free, branch, unless, when,
}
use linen.Keychain.{
  service_str, account_str, query, add_query, attrs_to_update, secret_data, item, status_text,
  class_key, service_key, account_key, value_data, return_data, match_limit, string_create,
  data_create, dictionary_create, dictionary_copy, set_constant, set_value, item_add, item_update,
  item_match, item_delete, matched_item, item_bytes, error_message, message_text, keychain, fail,
}

-- an OSStatus is another
abbrev pub is : ℤ → ℤ → Bool
is (pos m) (pos n) = m == n
is (negsuc m) (negsuc n) = m == n
is (pos m) (negsuc n) = false
is (negsuc m) (pos n) = false

-- `errSecSuccess`, and -25299 and -25300
abbrev pub success : ℤ
success = pos 0

abbrev pub duplicate_item : ℤ
duplicate_item = negsuc 25298

abbrev pub item_not_found : ℤ
item_not_found = negsuc 25299

-- the text that `CFStringGetCString` gives, empty if it does not fit
abbrev pub or_empty : Option (List ℕ) → List ℕ
or_empty (some text) = text
or_empty none = []

-- what `mk_osstatus_error` does with the message of the status, or without one
abbrev pub described_status : {A : Type 0} → String → ℤ → Option (Unit {0}) → Code keychain A
described_status m s (some c) = do
  text ← ask message_text
  free status_text
  done (error (os_status m (some (or_empty text)) s))
described_status m s none = done (error (os_status m none s))

-- `mk_osstatus_error`
abbrev pub os_status_error : {A : Type 0} → String → ℤ → Code keychain A
os_status_error m s = do c ← make status_text (error_message s); described_status m s c

-- `mk_query`. What CoreFoundation makes is not checked for NULL.
abbrev pub mk_query : List ℕ → List ℕ → Code keychain (Unit {0})
mk_query service account = do
  make service_str (string_create service)
  make account_str (string_create account)
  make query dictionary_create
  ask (set_constant query class_key)
  ask (set_value query service_key service_str)
  ask (set_value query account_key account_str)
  free service_str
  free account_str

-- an item that exists already is updated instead
abbrev pub update_item : ℤ → Code keychain ℤ
update_item s =
    branch (is s duplicate_item)
      (do
        make attrs_to_update dictionary_create
        ask (set_value attrs_to_update value_data secret_data)
        t ← ask item_update
        free attrs_to_update
        pure t)
      (pure s)

-- `linen_keychain_set` on macOS
unfoldable pub set_secret : List ℕ → List ℕ → List ℕ → Code keychain (Unit {0})
set_secret service account secret = do
  mk_query service account
  make secret_data (data_create secret)
  make add_query dictionary_copy
  ask (set_value add_query value_data secret_data)
  s ← ask item_add
  free add_query
  t ← update_item s
  free secret_data
  free query
  unless (is t success) (os_status_error "keychain: failed to store secret" t)

-- the two errors of a look-up, the second with its text
abbrev pub check_found : String → ℤ → Code keychain (Unit {0})
check_found m s = do
  when (is s item_not_found) (fail "keychain: no matching entry found")
  unless (is s success) (os_status_error m s)

-- `linen_keychain_get` on macOS; only a match that succeeds stores an item.
unfoldable pub get_secret : List ℕ → List ℕ → Code keychain (List ℕ)
get_secret service account = do
  mk_query service account
  ask (set_constant query return_data)
  ask (set_constant query match_limit)
  s ← ask item_match
  free query
  check_found "keychain: failed to retrieve secret" s
  make item matched_item
  bytes ← ask item_bytes
  free item
  pure bytes

-- `linen_keychain_delete` on macOS
unfoldable pub delete_secret : List ℕ → List ℕ → Code keychain (Unit {0})
delete_secret service account = do
  mk_query service account
  s ← ask item_delete
  free query
  check_found "keychain: failed to delete secret" s
