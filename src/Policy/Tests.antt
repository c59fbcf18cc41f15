-- ===== src/Policy/Tests.antt =====
-- A policy that a creator sends, the permissions under it, and a patch of it.
use awiki_open_server.Shared.{
  String, ◌≡◌, refl, none, some, true, if◌then◌else◌, ltb, Result, ok, err, python_error, raise_if,
}
use awiki_open_server.Shared.Decimal.{show}
use awiki_open_server.Shared.Python.{ℤ, int_of, catching, in_set}
use awiki_open_server.Shared.Json.{
  Fields, str, num, bool, obj, null, end, field, get, keys, entries, contains, is_null,
}
use awiki_open_server.Policy.{
  roles, role_level, validate_policy, require_permission, permission_denied, merge_patch,
  checked_policy, check_security, check_permissions, has_other_role, limit_of,
}
use awiki_open_server.Policy.Validated.{
  IsPolicy, validate_policy-IsPolicy, require_permission_by_level,
}
use awiki_open_server.Policy.Patch.{IsDistinct, lookup, lookup-merge_patch}

abbrev truncate : String → Result ℤ
truncate text = err (python_error "ValueError")

abbrev sent : Fields
sent = field "admission_mode" (str "admin-add") (field "max_members" (num 7) end)

abbrev policy : Fields
unfolding validate_policy checked_policy check_security check_permissions has_other_role limit_of
    in_set int_of catching show
policy = elim (validate_policy truncate (obj sent)) [ ok p ↦ p | err e ↦ end ]

validates : validate_policy truncate (obj sent) ≡ ok policy
unfolding validate_policy checked_policy check_security check_permissions has_other_role limit_of
    in_set int_of catching show
validates = refl

validate_policy-IsPolicy_example : IsPolicy policy
validate_policy-IsPolicy_example = validate_policy-IsPolicy truncate (obj sent) policy validates

require_permission_by_level_example :
    (least : String) × (get (entries (get policy "permissions")) "add" ≡ str least)
    × (contains roles least ≡ true)
    × (require_permission (obj policy) "member" "add"
        ≡ raise_if (ltb (role_level "member") (role_level least)) permission_denied)
require_permission_by_level_example =
    require_permission_by_level policy "member" "add"
      (validate_policy-IsPolicy truncate (obj sent) policy validates) refl

abbrev patch : Fields
patch = field "admission_mode" null (field "attachments_allowed" (bool true) end)

lookup-merge_patch_example :
    lookup (entries (merge_patch (obj sent) (obj patch))) "admission_mode" ≡ (
      if contains (keys patch) "admission_mode"
      then (if is_null (get patch "admission_mode")
          then none
          else some (
              merge_patch (get (entries (obj sent)) "admission_mode") (get patch "admission_mode")))
      else lookup (entries (obj sent)) "admission_mode")
unfolding IsDistinct
lookup-merge_patch_example = lookup-merge_patch (obj sent) patch "admission_mode" (refl, (refl, tt))
