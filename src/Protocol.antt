-- ===== src/Protocol.antt =====
-- messaging/groups/protocol.py, and request_context of messaging/groups/service.py: what a request to
-- a group must look like before a handler acts on it. The login of the caller, the check of the
-- origin proof and that of the signature of a peer are parameters.
pub mod Admitted
mod Tests
use awiki_open_server.Shared.{
  String, Bool, true, false, not, ◌&&◌, ◌||◌, Option, none, some, List, [], ◌∷◌, ◌++◌,
  if◌then◌else◌, ◌==◌, Result, ok, err, AwikiError, invalid_params, not_supported, unauthorized,
  raise_if, ◌>>=◌, ◌>>◌,
}
use awiki_open_server.Shared.Lists.{any}
use awiki_open_server.Shared.Text.{is_blank, starts_with}
use awiki_open_server.Shared.Python.{in_set}
use awiki_open_server.Shared.Json.{
  Value, Items, Fields, str, obj, arr, nil, end, get, keys, entries, elements, contains, is_subset,
  equals_str, is_null, is_dict,
}
use awiki_open_server.Storage.{HostedGroup}
use awiki_open_server.Policy.{transport_security}
use awiki_open_server.Operations.{GroupRequest}

abbrev pub base_v1 : String
base_v1 = "anp.group.base.v1"

abbrev pub base_v2 : String
base_v2 = "anp.group.base.v2"

abbrev pub base_profiles : List String
base_profiles = base_v1 ∷ base_v2 ∷ []

abbrev pub handle_fields : List String
handle_fields =
    "member_handle" ∷ "creator_handle" ∷ "subject_handle" ∷ "handle_binding_generation"
    ∷ "binding_generation" ∷ "member_home_service_did" ∷ "wns" ∷ "wns_name" ∷ []

abbrev pub device_fields : List String
device_fields =
    "device_id" ∷ "device_ids" ∷ "devices" ∷ "sender_device_id" ∷ "recipient_device_id"
    ∷ "recipient_device_ids" ∷ "member_device_id" ∷ "member_device_ids" ∷ "device_selector"
    ∷ "device_selectors" ∷ "device_list" ∷ []

-- names & fields.keys()
unfoldable pub has_any : List String → Fields → Bool
has_any names fields = any (contains (keys fields)) names

-- The dicts among the values of a dict under some keys.
abbrev pub dicts_at : Fields → List String → List Fields
dicts_at fields [] = []
dicts_at fields (key ∷ rest) =
    let more = dicts_at fields rest in
    if is_dict (get fields key) then entries (get fields key) ∷ more else more

-- The parts of a request in which no device may be named.
unfoldable pub structures : Fields → Fields → List Fields
structures meta body =
    meta ∷ body ∷ dicts_at meta ("target" ∷ [])
    ++ dicts_at body (
        "group_policy" ∷ "group_policy_patch" ∷ "group_profile" ∷ "group_profile_patch"
        ∷ "group_receipt" ∷ [])

-- d.get(key, default)
abbrev pub get_or : Fields → String → Value → Value
get_or fields key default = if contains (keys fields) key then get fields key else default

-- isinstance(value, str) and value.startswith("did:")
abbrev pub is_did : Value → Bool
is_did (str text) = starts_with text "did:"
is_did _ = false

abbrev pub is_list : Value → Bool
is_list (arr items) = true
is_list _ = false

abbrev pub items_of : Value → List Value
items_of (arr items) = elements items
items_of _ = []

abbrev pub check_role : Fields → Result (Unit {0})
check_role fields = do
  known ← in_set (get_or fields "role" (str "member")) ("member" ∷ "admin" ∷ [])
  raise_if (not known) (invalid_params "group.role_invalid")

abbrev pub check_member_did : Fields → Result (Unit {0})
check_member_did fields =
    raise_if (not (is_did (get fields "member_did"))) (invalid_params "group.member_did_required")

unfoldable pub check_initial_members : List Value → Result (Unit {0})
unfolding in_set starts_with
check_initial_members [] = ok tt
check_initial_members (member ∷ rest) = do
  raise_if
      (not (is_dict member) || not (is_subset (keys (entries member)) ("member_did" ∷ "role" ∷ [])))
      (invalid_params "group.v2_initial_member_invalid")
  check_member_did (entries member)
  check_role (entries member)
  check_initial_members rest

-- The fields that a request of version 2 may not have.
unfoldable pub check_v2_fields : String → Fields → Fields → Result (Unit {0})
unfolding has_any structures
check_v2_fields method meta body = do
  raise_if (contains ("group.rebind_member" ∷ "group.member_did_update" ∷ []) method)
      (not_supported "group.method_not_supported_in_v2")
  raise_if (has_any handle_fields body) (invalid_params "group.v2_handle_identity_not_allowed")
  raise_if
      (is_dict (get body "group_receipt")
        && not (is_null (get (entries (get body "group_receipt")) "e2ee")))
      (not_supported "group.e2ee_not_supported")
  raise_if (any (has_any device_fields) (structures meta body))
      (invalid_params "group.v2_device_selector_not_allowed")

-- The members that a request of version 2 names.
unfoldable pub check_v2_members : String → Fields → Result (Unit {0})
unfolding check_initial_members in_set starts_with
check_v2_members method body = do
  raise_if (method == "group.join" && contains (keys body) "member_did")
      (invalid_params "group.v2_join_uses_authenticated_did")
  if method == "group.create"
      then (raise_if (not (is_list (get_or body "initial_members" (arr nil))))
            (invalid_params "group.initial_members_invalid")
          >> check_initial_members (items_of (get_or body "initial_members" (arr nil))))
      else ok tt
  if contains ("group.add" ∷ "group.remove" ∷ []) method then check_member_did body else ok tt
  if method == "group.add" then check_role body else ok tt

unfoldable pub validate_v2_shape : String → Fields → Fields → Result (Unit {0})
unfolding check_v2_fields check_v2_members
validate_v2_shape method meta body =
    if not (equals_str (get meta "profile") base_v2)
    then ok tt
    else (check_v2_fields method meta body >> check_v2_members method body)

-- Of the group only wire_profile and protocol_state are read.
unfoldable pub require_group_protocol : HostedGroup → Option String → Bool → Result (Unit {0})
require_group_protocol group none writing =
    raise_if (writing && group.protocol_state == "quiescing")
      (not_supported "group.protocol_upgrade_in_progress")
require_group_protocol group (some profile) writing = do
  raise_if (contains base_profiles profile && not (group.wire_profile == profile))
      (not_supported "group.protocol_mismatch")
  raise_if (writing && group.protocol_state == "quiescing")
      (not_supported "group.protocol_upgrade_in_progress")

-- service.py, require_string
unfoldable pub require_string : Value → String → Result String
unfolding is_blank
require_string (str text) message = raise_if (is_blank text) (invalid_params message) >> ok text
require_string _ message = err (invalid_params message)

-- What the handler of a request is given of its transport, and the checks of signatures: the
-- request came in at the public path, the DID of its login, the digest that the origin proof
-- covers, and the signature of the peer.
pub record Caller : Type 0 where
  pub is_public : Bool
  pub current_did : Result (Option String)
  pub proof_digest : Fields → String → Fields → Fields → String → Result String
  pub peer_signature : String → Result (Unit {0})

unfoldable pub check_envelope : String → Fields → Fields → Fields → Result (Unit {0})
unfolding validate_v2_shape in_set
check_envelope method meta auth body = do
  raise_if (not (equals_str (get auth "scheme") "anp-rfc9421-origin-proof-v1"))
      (unauthorized "invalid_origin_proof_scheme")
  known ← in_set (get meta "profile") base_profiles
  raise_if (not known) (invalid_params "anp_meta_profile_mismatch")
  validate_v2_shape method meta body
  raise_if (not (equals_str (get meta "security_profile") transport_security))
      (invalid_params "anp_meta_security_profile_mismatch")

-- The sender, the operation and the target that a request names.
unfoldable pub named_parties : String → Fields → Result (String × String × String)
unfolding require_string
named_parties target_kind meta = do
  sender ← require_string (get meta "sender_did") "anp_meta_sender_did_required"
  operation ← require_string (get meta "operation_id") "anp_meta_operation_id_required"
  raise_if (not (is_dict (get meta "target"))) (invalid_params "anp_meta_target_required")
  raise_if (not (equals_str (get (entries (get meta "target")) "kind") target_kind))
      (invalid_params "anp_meta_target_kind_mismatch")
  target ← require_string (get (entries (get meta "target")) "did") "anp_meta_target_did_required"
  ok (sender, operation, target)

abbrev pub is_other : Option String → String → Bool
is_other none sender = false
is_other (some did) sender = not (did == sender)

-- The checks of the caller, and the digest of the payload.
unfoldable pub verified_digest : Caller → String → Fields → Fields → Fields → String → Result String
verified_digest caller method meta auth body sender = do
  authenticated ← caller.current_did
  raise_if (is_other authenticated sender) (unauthorized "sender_did_mismatch")
  digest ← caller.proof_digest auth method meta body sender
  if caller.is_public then caller.peer_signature sender else ok tt
  ok digest

abbrev pub text_of : Value → String
text_of (str text) = text
text_of _ = ""

abbrev pub missing_proof : AwikiError
missing_proof = unauthorized "missing_origin_proof"

abbrev pub group_request :
    String → Fields → Fields → Fields → String × String × String → String → GroupRequest
group_request method meta auth body parties digest = record {
  method = method;
  sender_did = parties.0;
  operation_id = parties.1;
  target_did = parties.2;
  meta = meta;
  auth = auth;
  body = body;
  payload_digest = digest;
  profile = text_of (get meta "profile");
}

-- The checks in their order, once meta, auth and body are dicts.
unfoldable pub checked_context :
    Caller → String → String → Fields → Fields → Fields → Result GroupRequest
unfolding check_envelope named_parties verified_digest
checked_context caller method target_kind meta auth body = do
  check_envelope method meta auth body
  parties ← named_parties target_kind meta
  digest ← verified_digest caller method meta auth body parties.0
  ok (group_request method meta auth body parties digest)

unfoldable pub request_context : Caller → Fields → String → String → Result GroupRequest
unfolding checked_context
request_context caller params method target_kind = do
  raise_if
      (not (is_dict (get params "_anp_meta"))
        || not (is_dict (get params "_anp_body"))
        || not (is_dict (get params "_anp_auth")))
      missing_proof
  checked_context caller method target_kind (entries (get params "_anp_meta"))
      (entries (get params "_anp_auth")) (entries (get params "_anp_body"))
