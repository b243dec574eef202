-- ===== src/Keychain/Examples.antt =====
-- Storing a secret that exists already with ffi/keychain.c on macOS.
use linen.Base.{ℕ, suc, ◌≡◌, true, some, [], ◌∷◌, pos, negsuc, none}
use linen.Calls.{Library, run}
use linen.Calls.Legal.{after_all}
use linen.Calls.Granted.{Grants}
use linen.Keychain.{
  Call, Reply, keychain, store_sync, clear_sync, stored_message, value_get, wide_length, cred_write,
  cred_delete, last_error, cred_blob, item_add, item_update, item_match, item_delete, item_bytes,
  message_text,
}
use linen.Keychain.Owned.{Any, granted, macos, sets, code, code-Frees}

abbrev answer : (c : Call) → Reply c
-- SecItemAdd finds a duplicate
answer item_add = negsuc 25298
answer item_update = pos 0
answer item_match = pos 0
answer item_delete = pos 0
answer item_bytes = 7 ∷ 8 ∷ []
answer message_text = none
answer store_sync = true
answer (clear_sync service account) = true
answer stored_message = some (9 ∷ [])
answer value_get = 7 ∷ 8 ∷ []
answer (wide_length s) = pos 4
answer (cred_write has_user size) = true
answer cred_delete = true
answer last_error = 5
answer cred_blob = 7 ∷ 8 ∷ []
answer _ = tt

-- makes every object, an error included, so that a value comes with an error
abbrev stores_errors : Library keychain ℕ
stores_errors = record {
  makes = λ o c w. (some (answer c), suc w);
  answers = λ c w. (answer c, suc w);
}

stores_errors-Grants : Grants keychain Any granted stores_errors
stores_errors-Grants o c w t e = absurd (cc)

-- an item that exists is updated
code-Frees_example :
    after_all keychain Any
      (run stores_errors (code macos (sets (1 ∷ []) (2 ∷ []) (3 ∷ []))) 0).1
      (some [])
    ≡ some []
code-Frees_example =
    code-Frees stores_errors stores_errors-Grants macos (sets (1 ∷ []) (2 ∷ []) (3 ∷ [])) 0
