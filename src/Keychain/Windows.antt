-- ===== src/Keychain/Windows.antt =====
-- The secrets of ffi/keychain.c in the Credential Manager.
use linen.Base.{
  ℕ, ◌+◌, ◌%◌, ◌^◌, Bool, true, false, Option, some, none, List, ◌∷◌, ◌++◌, ◌==◌, length,
}
use linen.Calls.{
  Code, done, error, numbered, branch, ◌>>=◌, ◌>>◌, pure, ask, make, make_or, or_else, free, unless,
}
use linen.Keychain.{
  combined, target, wuser, cred, malloc, wide_length, to_wide, wide_size, cred_write, cred_read,
  cred_delete, last_error, cred_blob, keychain, fail,
}

-- `combined` in `mk_target_name`, without its NUL
abbrev pub combined_name : List ℕ → List ℕ → List ℕ
combined_name service account = service ++ (b':' ∷ account)

-- `if (wide) MultiByteToWideChar(...)`
abbrev pub widen : Option (Unit {0}) → List ℕ → Code keychain (Unit {0})
widen none s = pure tt
widen (some w) s = ask (to_wide target s)

-- `mk_target_name`; a return of NULL is what its callers do then
abbrev pub target_name : List ℕ → List ℕ → Code keychain (Unit {0})
target_name service account = do
  make_or combined (malloc (length service + length account + 2)) (fail "keychain: out of memory")
  wlen ← ask (wide_length (combined_name service account))
  wide ← make target (malloc (wide_size wlen))
  widen wide (combined_name service account)
  free combined
  or_else wide (fail "keychain: out of memory")

-- `ERROR_NOT_FOUND`
abbrev pub not_found : ℕ
not_found = 1168

-- `CredWriteW` and its error with the user name if there was memory for it, and what is freed after it
abbrev pub write_cred : Option (Unit {0}) → List ℕ → List ℕ → Code keychain (Bool × ℕ)
write_cred none account secret = do
  written ← ask (cred_write false (length secret % 2 ^ 32))
  branch written (pure (true, 0)) (do e ← ask last_error; pure (false, e))
write_cred (some w) account secret = do
  ask (to_wide wuser account)
  written ← ask (cred_write true (length secret % 2 ^ 32))
  branch written (pure (true, 0)) (do e ← ask last_error; pure (false, e))

-- `free(wuser)`
abbrev pub free_wuser : Option (Unit {0}) → Code keychain (Unit {0})
free_wuser none = pure tt
free_wuser (some w) = free wuser

-- `linen_keychain_set` on Windows
unfoldable pub set_secret : List ℕ → List ℕ → List ℕ → Code keychain (Unit {0})
set_secret service account secret = do
  target_name service account
  walen ← ask (wide_length account)
  user ← make wuser (malloc (wide_size walen))
  r ← write_cred user account secret
  free target
  free_wuser user
  unless r.0 (done (error (numbered "keychain: CredWriteW failed (error)" r.1)))

-- what `linen_keychain_get` does with the credential, or without one
abbrev pub read_or : Option (Unit {0}) → Code keychain (List ℕ)
read_or (some c) = do free target; blob ← ask cred_blob; free cred; pure blob
read_or none = do
  e ← ask last_error
  free target
  branch (e == not_found) (fail "keychain: no matching entry found")
      (done (error (numbered "keychain: CredReadW failed (error)" e)))

-- `linen_keychain_get` on Windows; `CredReadW` stores a credential when it succeeds.
unfoldable pub get_secret : List ℕ → List ℕ → Code keychain (List ℕ)
get_secret service account = do target_name service account; c ← make cred cred_read; read_or c

-- `linen_keychain_delete` on Windows
unfoldable pub delete_secret : List ℕ → List ℕ → Code keychain (Unit {0})
delete_secret service account = do
  target_name service account
  deleted ← ask cred_delete
  branch deleted (free target) (do
    e ← ask last_error
    free target
    branch (e == not_found) (fail "keychain: no matching entry found")
        (done (error (numbered "keychain: CredDeleteW failed (error)" e))))
