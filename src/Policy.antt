-- ===== src/Policy.antt =====
-- messaging/groups/service.py: the roles of a group, its policy and profile, and the merge patches
-- that change them. int() of a number that is negative or no integer is the parameter `truncate`.
pub mod Validated
pub mod Patch
mod Tests
use awiki_open_server.Shared.{
  ℕ, String, Bool, true, false, not, ◌&&◌, ◌||◌, List, [], ◌∷◌, if◌then◌else◌, ltb, ◌==◌, Result,
  ok, err, AwikiError, invalid_params, unauthorized, python_error, raise_if, ◌>>=◌, ◌>>◌,
}
use awiki_open_server.Shared.Lists.{any}
use awiki_open_server.Shared.Decimal.{show}
use awiki_open_server.Shared.Python.{ℤ, pos, negsuc, int_of, catching, in_set, item}
use awiki_open_server.Shared.Json.{
  Value, Fields, str, num, other_num, bool, obj, arr, null, end, field, get, put, merge, keys,
  entries, contains, is_subset, same_set, equals_str, is_null, is_dict,
}

abbrev pub transport_security : String
transport_security = "transport-protected"

abbrev pub max_members : ℕ
max_members = 100

abbrev pub roles : List String
roles = "member" ∷ "admin" ∷ "owner" ∷ []

-- ROLE_LEVEL.get(role, 0)
unfoldable pub role_level : String → ℕ
role_level role =
    if role == "member" then 1 else if role == "admin" then 2 else if role == "owner" then 3 else 0

abbrev pub policy_keys : List String
policy_keys =
    "message_security_profile" ∷ "bootstrap_security_profile" ∷ "admission_mode" ∷ "permissions"
    ∷ "attachments_allowed" ∷ "max_members" ∷ []

abbrev pub permission_keys : List String
permission_keys = "send" ∷ "add" ∷ "remove" ∷ "update_profile" ∷ "update_policy" ∷ []

abbrev pub default_permissions : Fields
default_permissions = field "send" (str "member") (
    field "add" (str "admin") (
      field "remove" (str "admin")
        (field "update_profile" (str "admin") (field "update_policy" (str "owner") end))))

abbrev pub default_policy : Fields
default_policy = field "message_security_profile" (str transport_security) (
    field "bootstrap_security_profile" (str transport_security) (
      field "admission_mode" (str "open-join") (
        field "permissions" (obj default_permissions)
          (field "attachments_allowed" (bool false) (field "max_members" (str "100") end)))))

-- d.values()
abbrev pub values : Fields → List Value
values end = []
values (field key value rest) = value ∷ values rest

abbrev pub is_bool : Value → Bool
is_bool (bool b) = true
is_bool _ = false

-- any(role not in ROLE_LEVEL for role in values)
unfoldable pub has_other_role : List Value → Result Bool
unfolding in_set
has_other_role [] = ok false
has_other_role (role ∷ rest) =
    let more = has_other_role rest in
    in_set role roles >>= λ is_role. if is_role then more else ok true

unfoldable pub check_permissions : Value → Result (Unit {0})
unfolding has_other_role
check_permissions permissions = do
  raise_if (not (is_dict permissions && same_set (keys (entries permissions)) permission_keys))
      (invalid_params "group.permissions_invalid")
  refused ← has_other_role (values (entries permissions))
  raise_if refused (invalid_params "group.permission_role_invalid")

abbrev pub members_exceeded : AwikiError
members_exceeded = invalid_params "group.max_members_exceeded"

-- max_members < 1 or max_members > MAX_MEMBERS
abbrev pub member_limit : ℤ → Result ℕ
member_limit (pos n) = if ltb n 1 || ltb max_members n then err members_exceeded else ok n
member_limit (negsuc n) = err members_exceeded

unfoldable pub check_security : Fields → Result (Unit {0})
unfolding in_set
check_security policy = do
  raise_if
      (not (equals_str (get policy "message_security_profile") transport_security)
        || not (equals_str (get policy "bootstrap_security_profile") transport_security))
      (invalid_params "group.security_profile_not_supported")
  known ← in_set (get policy "admission_mode") ("open-join" ∷ "admin-add" ∷ [])
  raise_if (not known) (invalid_params "group.admission_mode_invalid")

module _ (truncate : String → Result ℤ) where
  unfoldable pub limit_of : Fields → Result ℕ
  unfolding int_of catching
  limit_of policy =
      catching ("TypeError" ∷ "ValueError" ∷ []) (invalid_params "group.max_members_invalid")
        (int_of truncate (get policy "max_members"))
      >>= member_limit

  -- The policy after the defaults were filled in.
  unfoldable pub checked_policy : Fields → Result Fields
  unfolding check_security check_permissions limit_of
  checked_policy policy = do
    check_security policy
    check_permissions (get policy "permissions")
    limit ← limit_of policy
    let limited = put "max_members" (str (show limit)) policy
    raise_if (not (is_bool (get limited "attachments_allowed")))
        (invalid_params "group.attachments_allowed_invalid")
    ok limited

  unfoldable pub validate_policy : Value → Result Fields
  unfolding checked_policy
  validate_policy value = do
    raise_if (not (is_dict value)) (invalid_params "group.policy_required")
    raise_if (not (is_subset (keys (entries value)) policy_keys))
        (invalid_params "group.policy_fields_invalid")
    checked_policy (merge default_policy (entries value))

-- profile.setdefault("discoverability", "public")
abbrev pub with_discoverability : Fields → Fields
with_discoverability profile =
    if contains (keys profile) "discoverability"
    then profile
    else put "discoverability" (str "public") profile

unfoldable pub validate_profile : Value → Result Fields
unfolding in_set
validate_profile value = do
  raise_if (not (is_dict value)) (invalid_params "group.profile_required")
  let profile = with_discoverability (entries value)
  known ← in_set (get profile "discoverability") ("public" ∷ "listed" ∷ "private" ∷ [])
  raise_if (not known) (invalid_params "group.discoverability_invalid")
  ok profile

-- result.pop(key, None)
abbrev pub pop : String → Fields → Fields
pop key end = end
pop key (field k v rest) = let fs = pop key rest in if k == key then fs else field k v fs

mutual
  -- The entries of a patch in turn, on a copy of the document.
  pub patch_fields : Fields → Fields → Fields
  patch_fields result end = result
  patch_fields result (field k v rest) =
      let changed = put k (merge_patch (get result k) v) result in
      patch_fields (if is_null v then pop k result else changed) rest

  pub merge_patch : Value → Value → Value
  merge_patch document (obj patch) = obj (patch_fields (entries document) patch)
  merge_patch document (str text) = str text
  merge_patch document (num n) = num n
  merge_patch document (other_num text) = other_num text
  merge_patch document (bool b) = bool b
  merge_patch document (arr items) = arr items
  merge_patch document null = null

-- ROLE_LEVEL[minimum]
abbrev pub level_of_minimum : Value → Result ℕ
level_of_minimum (str minimum) =
    raise_if (not (contains roles minimum)) (python_error "KeyError") >> ok (role_level minimum)
level_of_minimum (obj fields) = err (python_error "TypeError")
level_of_minimum (arr items) = err (python_error "TypeError")
level_of_minimum _ = err (python_error "KeyError")

abbrev pub permission_denied : AwikiError
permission_denied = unauthorized "group.permission_denied"

-- Of the group only the policy is read, and of the member the role.
unfoldable pub require_permission : Value → String → String → Result (Unit {0})
unfolding item role_level
require_permission policy role permission = do
  permissions ← item policy "permissions"
  minimum ← item permissions permission
  needed ← level_of_minimum minimum
  raise_if (ltb (role_level role) needed) permission_denied
