-- ===== src/DeviceAuth.antt =====
-- user_compat/device_auth.py: the binding of an account to its one device, the nonces of signed
-- requests, and the claims of an access token. The hash, the signatures and the encodings of a token
-- are parameters; a table changes only when nothing was raised, as its transaction is rolled back.
pub mod Nonces
mod Tests
use awiki_open_server.Shared.{
  ℕ, ◌+◌, max, String, Bool, true, false, not, ◌&&◌, ◌||◌, Option, none, some, List, [], ◌∷◌, ◌++◌,
  if◌then◌else◌, ltb, leb, nat_eq, ◌==◌, Result, ok, err, AwikiError, unauthorized, raise_if, ◌>>=◌,
  ◌>>◌,
}
use awiki_open_server.Shared.Lists.{any, all}
use awiki_open_server.Shared.Decimal.{text_length}
use awiki_open_server.Shared.Text.{is_blank}
use awiki_open_server.Shared.Table.{first_where, delete_where}
use awiki_open_server.Shared.Json.{
  Value, Fields, Items, nil, cons, num, str, arr, obj, get, keys, entries, elements, is_dict,
  equals_str, equals_num, same_set,
}

pub record DeviceAccount : Type 0 where
  pub did : String
  pub account_id : String
  pub device_id : String
  pub signing_key_id : String
  pub root_key_id : String
  pub key_fingerprint : String
  pub auth_generation : ℕ

abbrev pub device_invalid : AwikiError
device_invalid = unauthorized "device_authorization_invalid"

-- The columns of the row are those of the account.
unfoldable pub is_same_account : DeviceAccount → DeviceAccount → Bool
is_same_account row account =
    row.account_id == account.account_id
    && row.device_id == account.device_id
    && row.signing_key_id == account.signing_key_id
    && row.root_key_id == account.root_key_id
    && row.key_fingerprint == account.key_fingerprint
    && nat_eq row.auth_generation account.auth_generation

-- The keys of single_device_accounts.
unfoldable pub account_conflicts : DeviceAccount → DeviceAccount → Bool
account_conflicts account row = row.did == account.did || row.account_id == account.account_id

abbrev pub insert_account : Bool → DeviceAccount → List DeviceAccount → List DeviceAccount
insert_account create account rows =
    if create && not (any (account_conflicts account) rows) then rows ++ account ∷ [] else rows

abbrev pub bound_account :
    DeviceAccount → List DeviceAccount → Option DeviceAccount → Result (List DeviceAccount)
bound_account account rows none = err device_invalid
bound_account account rows (some row) =
    raise_if (not (is_same_account row account)) device_invalid >> ok rows

unfoldable pub bind_device_account :
    DeviceAccount → Bool → List DeviceAccount → Result (List DeviceAccount)
unfolding account_conflicts is_same_account
bind_device_account account create rows =
    let inserted = insert_account create account rows in
    bound_account account inserted (first_where (λ r. r.did == account.did) inserted)

pub record Nonce : Type 0 where
  pub nonce_hash : String
  pub expires_at : ℕ

abbrev pub bad_signature : AwikiError
bad_signature = unauthorized "invalid_http_signature"

-- The conditions on a nonce and its times; `now` is the second of the clock.
unfoldable pub is_refused : String → ℕ → ℕ → ℕ → Bool
is_refused nonce created expires now =
    is_blank nonce
    || ltb 256 (text_length nonce)
    || ltb expires created
    || ltb (created + 600) expires
    || ltb (now + 30) created
    || ltb (expires + 30) now

-- DELETE of the expired nonces, and the INSERT of a new one.
unfoldable pub store_nonce : String → ℕ → ℕ → List Nonce → Result (List Nonce)
store_nonce digest expires now table =
    let kept = delete_where (λ n. ltb n.expires_at now) table in
    raise_if (any (λ n. n.nonce_hash == digest) kept) (unauthorized "signature_replayed")
    >> ok (kept ++ record { nonce_hash = digest; expires_at = expires + 30 } ∷ [])

-- A nonce that is no text, or a time that is no integer, is refused. So is a negative time, which is
-- here an other_num: a clock past the year 1970 is more than 11 minutes past it.
abbrev pub consume_values :
    (String → String → String)
    → String
    → Value
    → Value
    → Value
    → ℕ
    → List Nonce
    → Result (List Nonce)
consume_values hash key_id (str nonce) (num created) (num expires) now table =
    raise_if (is_refused nonce created expires now) bad_signature
    >> store_nonce (hash key_id nonce) expires now table
consume_values hash key_id _ _ _ now table = err bad_signature

-- `params` is signature_metadata.get("params").
unfoldable pub consume_auth_nonce :
    (String → String → String) → String → Value → ℕ → List Nonce → Result (List Nonce)
unfolding is_refused store_nonce
consume_auth_nonce hash key_id params now table =
    raise_if (not (is_dict params)) bad_signature
    >> consume_values hash key_id (get (entries params) "nonce") (get (entries params) "created")
        (get (entries params) "expires") now table

-- value == [text, …]
abbrev equals_texts : List Value → List String → Bool
equals_texts [] [] = true
equals_texts (v ∷ vs) (t ∷ ts) = equals_str v t && equals_texts vs ts
equals_texts _ _ = false

abbrev equals_array : Value → List String → Bool
equals_array (arr items) texts = equals_texts (elements items) texts
equals_array _ texts = false

-- type(value) is int, for the values that a token may have
abbrev is_int : Value → Bool
is_int (num n) = true
is_int _ = false

abbrev claim_keys : List String
claim_keys =
    "iss" ∷ "aud" ∷ "sub" ∷ "type" ∷ "purpose" ∷ "did" ∷ "user_id" ∷ "device_id" ∷ "key_id"
    ∷ "auth_generation" ∷ "scopes" ∷ "iat" ∷ "nbf" ∷ "exp" ∷ "jti" ∷ []

-- The claims are those of _binding_claims.
unfoldable pub is_bound : DeviceAccount → Fields → Bool
is_bound account claims =
    equals_str (get claims "iss") "user-service"
    && equals_array (get claims "aud") ("awiki-user-service" ∷ "awiki-message-service" ∷ [])
    && equals_str (get claims "sub") account.did
    && equals_str (get claims "type") "access"
    && equals_str (get claims "purpose") "awiki.device.access.v1"
    && equals_str (get claims "did") account.did
    && equals_str (get claims "user_id") account.account_id
    && equals_str (get claims "device_id") account.device_id
    && equals_str (get claims "key_id") account.signing_key_id
    && equals_num (get claims "auth_generation") account.auth_generation
    && equals_array (get claims "scopes") ("device:manage" ∷ "device:read" ∷ "message:connect" ∷ [])

-- The times of a token are ints. A negative time, which no token of the server has, is refused here.
abbrev is_in_time : Value → Value → Value → ℕ → Bool
is_in_time (num iat) (num nbf) (num exp) now =
    nat_eq nbf iat && leb iat (now + 30) && ltb (max now iat) exp
is_in_time _ _ _ now = false

abbrev is_filled : Value → Bool
is_filled (str text) = not (is_blank text)
is_filled _ = false

-- The checks of validate_device_token on the claims of a token that was decoded and verified.
unfoldable pub validate_claims : DeviceAccount → Value → ℕ → Result (Unit {0})
unfolding is_bound
validate_claims account claims now =
    let fs = entries claims in
    raise_if
      (not (
        is_dict claims
        && same_set (keys fs) claim_keys
        && is_bound account fs
        && is_int (get fs "auth_generation")
        && is_in_time (get fs "iat") (get fs "nbf") (get fs "exp") now
        && is_filled (get fs "jti")))
      device_invalid
