-- ===== src/Keychain.antt =====
-- ffi/keychain.c: secrets in the keychains of macOS, Linux and Windows.
--
-- The system's libraries and malloc are parameters. A call that answers and stores a pointer is two
-- events: the call, and the object that it stored, or not.
pub mod Macos
pub mod Linux
pub mod Windows
pub mod Owned
pub mod TargetName
mod Examples
use linen.Base.{
  ℕ, ◌-◌, ◌*◌, ◌%◌, ◌^◌, Bool, true, false, Option, some, none, List, [], ◌∷◌, String, ltb, ◌==◌,
  take, if◌then◌else◌, ℤ, pos, negsuc,
}
use linen.Calls.{Api, Failure, message, error, Code, done}

-- the keys of a query, without their prefixes `kSec`, `kSecAttr` and `kSecMatch`
pub data Key : Type 0 where
  class_key service_key account_key value_data return_data match_limit : Key

pub data Object : Type 0 where
  -- CoreFoundation
  service_str account_str query add_query attrs_to_update secret_data item status_text : Object
  -- libsecret and GLib
  value attrs label g_error : Object
  -- Windows
  combined target wuser cred : Object

-- A service, an account and a secret are their bytes.
pub data Call : Type 0 where
  -- CoreFoundation and the Security framework
  string_create data_create : List ℕ → Call
  dictionary_create dictionary_copy : Call
  -- a value of a dictionary, a constant of the framework or an object
  set_constant : Object → Key → Call
  set_value : Object → Key → Object → Call
  item_add item_update item_match item_delete : Call
  -- the item that a match stored, and its bytes
  matched_item item_bytes : Call
  error_message : ℤ → Call
  message_text : Call
  -- libsecret
  secret_value_new : List ℕ → Call
  attributes_build : List ℕ → List ℕ → Call
  malloc : ℕ → Call
  store_sync lookup_sync : Call
  clear_sync : List ℕ → List ℕ → Call
  -- the error that a call stored, and its message
  stored_error stored_message : Call
  value_get : Call
  -- Windows
  wide_length : List ℕ → Call
  to_wide : Object → List ℕ → Call
  cred_write : Bool → ℕ → Call
  cred_read cred_delete last_error cred_blob : Call

-- A count is an int, as is an OSStatus; a text that does not fit is none; a gboolean or BOOL says whether it is not 0.
abbrev pub Reply : Call → Type 0
Reply item_add = ℤ
Reply item_update = ℤ
Reply item_match = ℤ
Reply item_delete = ℤ
Reply item_bytes = List ℕ
Reply message_text = Option (List ℕ)
Reply store_sync = Bool
Reply (clear_sync service account) = Bool
Reply stored_message = Option (List ℕ)
Reply value_get = List ℕ
Reply (wide_length s) = ℤ
Reply (cred_write has_user size) = Bool
Reply cred_delete = Bool
Reply last_error = ℕ
Reply cred_blob = List ℕ
Reply _ = Unit {0}

abbrev pub uses : Call → List Object
uses dictionary_copy = query ∷ []
uses (set_constant d k) = d ∷ []
uses (set_value d k v) = d ∷ v ∷ []
uses item_add = add_query ∷ []
uses item_update = query ∷ attrs_to_update ∷ []
uses item_match = query ∷ []
uses item_delete = query ∷ []
uses item_bytes = item ∷ []
uses message_text = status_text ∷ []
uses store_sync = attrs ∷ label ∷ value ∷ []
uses lookup_sync = attrs ∷ []
uses stored_message = g_error ∷ []
uses value_get = value ∷ []
uses (to_wide o s) = o ∷ []
uses (cred_write true size) = target ∷ wuser ∷ []
uses (cred_write false size) = target ∷ []
uses cred_read = target ∷ []
uses cred_delete = target ∷ []
uses cred_blob = cred ∷ []
uses _ = []

abbrev pub number : Object → ℕ
number value = 8
number attrs = 9
number label = 10
number g_error = 11
number combined = 12
number target = 13
number wuser = 14
number cred = 15
number service_str = 16
number account_str = 17
number query = 18
number add_query = 19
number attrs_to_update = 20
number secret_data = 21
number item = 22
number status_text = 23

abbrev pub keychain : Api
keychain = record {
  Object = Object;
  Call = Call;
  Reply = Reply;
  uses = uses;
  same = λ a b. number a == number b;
}

-- `mk_io_error`
abbrev pub fail : {A : Type 0} → String → Code keychain A
fail m = done (error (message m))

-- `(size_t)n * sizeof(WCHAR)`
abbrev pub wide_size : ℤ → ℕ
wide_size (pos n) = n * 2
wide_size (negsuc n) = (2 ^ 64 - 1 - n) * 2 % 2 ^ 64
