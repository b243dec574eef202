-- ===== src/Keychain/Owned.antt =====
-- What the functions of ffi/keychain.c allocate is freed, on every path, secrets included.
use linen.Base.{ℕ, ◌≡◌, Bool, true, false, Option, some, none, List, [], arith}
use linen.Calls.{Code, Library, run}
use linen.Calls.Legal.{SomeIs, after_all}
use linen.Calls.Granted.{Sound, Grants, Sound-run}
use linen.Keychain.{
  Call, Reply, keychain, string_create, data_create, dictionary_create, dictionary_copy,
  matched_item,
}
use linen.Keychain.Macos
use linen.Keychain.Linux
use linen.Keychain.Windows

-- nothing is assumed of the answers
abbrev pub Any : (c : Call) → Reply c → Type 0
Any c r = Unit {0}

-- What the macOS branch does not check: CoreFoundation's allocations, and the item of a match that
-- succeeded.
abbrev pub granted : Call → Bool
granted (string_create s) = true
granted (data_create s) = true
granted dictionary_create = true
granted dictionary_copy = true
granted matched_item = true
granted _ = false

pub data Platform : Type 0 where
  macos linux windows : Platform

-- a call from Lean, with the service, the account and, for the first, the secret
pub data Function : Type 0 where
  sets : List ℕ → List ℕ → List ℕ → Function
  gets deletes : List ℕ → List ℕ → Function

abbrev pub Result : Function → Type 0
Result (gets service account) = List ℕ
Result _ = Unit {0}

pub code : Platform → (f : Function) → Code keychain (Result f)
code macos (sets service account secret) = Macos.set_secret service account secret
code macos (gets service account) = Macos.get_secret service account
code macos (deletes service account) = Macos.delete_secret service account
code linux (sets service account secret) = Linux.set_secret service account secret
code linux (gets service account) = Linux.get_secret service account
code linux (deletes service account) = Linux.delete_secret service account
code windows (sets service account secret) = Windows.set_secret service account secret
code windows (gets service account) = Windows.get_secret service account
code windows (deletes service account) = Windows.delete_secret service account

code-Sound : (p : Platform) (f : Function) → Sound keychain Any granted (λ r. []) [] (code p f)
unfolding code Macos.set_secret Macos.get_secret Macos.delete_secret Linux.set_secret
    Linux.get_secret Linux.delete_secret Windows.set_secret Windows.get_secret Windows.delete_secret
code-Sound macos (sets service account secret) = ground arith
code-Sound macos (gets service account) = ground arith
code-Sound macos (deletes service account) = ground arith
code-Sound linux (sets service account secret) = ground arith
code-Sound linux (gets service account) = ground arith
code-Sound linux (deletes service account) = ground arith
code-Sound windows (sets service account secret) = ground arith
code-Sound windows (gets service account) = ground arith
code-Sound windows (deletes service account) = ground arith

answered : {B : Type 0} (r : Option B) → SomeIs (λ b. Unit {0}) r
answered none = tt
answered (some b) = tt

-- If on macOS CoreFoundation allocates what it is asked for and a match that succeeds stores an item,
-- storing, reading or deleting a secret on macOS, Linux or Windows, on every path, errors included and
-- whatever the system answers else: nothing is used or freed that is not there, and when the function
-- returns the secret, the attributes, the errors and the names that it made are freed, each once.
pub code-Frees :
    {W : Type 0} (lib : Library keychain W)
    → Grants keychain Any granted lib
    → (p : Platform) (f : Function) (w : W)
    → after_all keychain Any (run lib (code p f) w).1 (some []) ≡ some []
code-Frees lib g p f w =
    Sound-run keychain Any granted lib
      (record { made_reply = λ o c w. answered (lib.makes o c w).0; reply = λ c w. tt }) g (λ r. [])
      [] (code p f) w (code-Sound p f)
