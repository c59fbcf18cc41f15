-- ===== src/Host/Updating.antt =====
-- messaging/groups/service.py: group.update_profile and group.update_policy.
use awiki_open_server.Shared.{
  ℕ, String, Bool, true, false, none, not, if◌then◌else◌, Result, invalid_params, raise_if, ◌>>=◌,
  ◌>>◌,
}
use awiki_open_server.Shared.Decimal.{show}
use awiki_open_server.Shared.Json.{Value, Fields, str, obj, end, field, get, is_dict}
use awiki_open_server.Storage.{HostedGroup}
use awiki_open_server.Delivery.{ensure_outbox_capacity}
use awiki_open_server.Operations.{GroupRequest}
use awiki_open_server.Policy.{require_permission, validate_policy, validate_profile, merge_patch}
use awiki_open_server.Protocol.{Caller, request_context}
use awiki_open_server.Host.Tables.{HostDb, World}
use awiki_open_server.Host.Changes.{Change, active_member, commit_change, in_group}

abbrev pub permission_of : Bool → String
permission_of is_profile = if is_profile then "update_profile" else "update_policy"

abbrev pub patch_key_of : Bool → String
patch_key_of is_profile = if is_profile then "group_profile_patch" else "group_policy_patch"

abbrev pub result_key_of : Bool → String
result_key_of is_profile = if is_profile then "group_profile" else "group_policy"

abbrev pub updated_type_of : Bool → String
updated_type_of is_profile = if is_profile then "group-profile-updated" else "group-policy-updated"

-- The profile or the policy with the patch in it, as far as it is valid.
unfoldable pub patched_value : World → HostedGroup → Bool → Value → Result Fields
unfolding validate_policy validate_profile
patched_value world group is_profile patch =
    if is_profile
    then validate_profile (merge_patch group.profile patch)
    else validate_policy world.truncate (merge_patch group.policy patch)

unfoldable pub updated_result : GroupRequest → Bool → Fields → ℕ → ℕ → Fields → Fields
updated_result context is_profile value version seq signed =
    field "group_did" (str context.target_did) (
      field "group_state_version" (str (show version)) (
        field "group_event_seq" (str (show seq))
          (field (result_key_of is_profile) (obj value) (field "group_receipt" (obj signed) end))))

unfoldable pub updated_event : World → GroupRequest → Bool → Fields → ℕ → ℕ → Fields → Fields
updated_event world context is_profile value version seq signed =
    field "group_did" (str context.target_did) (
      field "event_type" (str (updated_type_of is_profile)) (
        field "subject_method" (str context.method) (
          field "group_state_version" (str (show version)) (
            field "group_event_seq" (str (show seq)) (
              field "changed_at" (str (world.time_text world.now)) (
                field "actor_did" (str context.sender_did) (
                  field (result_key_of is_profile) (obj value)
                    (field "group_receipt" (obj signed) end))))))))

abbrev pub set_column : Bool → Fields → HostedGroup → HostedGroup
set_column is_profile value g =
    if is_profile then record g { profile = obj value } else record g { policy = obj value }

abbrev pub updated : World → GroupRequest → Bool → Fields → Change
updated world context is_profile value = record {
  columns = set_column is_profile value;
  event_type = updated_type_of is_profile;
  sync_type = if is_profile then "group.group-profile-updated" else "group.group-policy-updated";
  result = updated_result context is_profile value;
  event = updated_event world context is_profile value;
  departed = none;
}

unfoldable pub update_in_group :
    World → HostDb → GroupRequest → Bool → Value → HostedGroup → Result (HostDb × Fields)
unfolding active_member require_permission ensure_outbox_capacity patched_value commit_change
    updated_result updated_event
update_in_group world host context is_profile patch group = do
  member ← active_member host context.target_did context.sender_did
  require_permission group.policy member.role (permission_of is_profile)
  ensure_outbox_capacity world.settings host.db context.target_did true
  value ← patched_value world group is_profile patch
  commit_change world context context.target_did group (updated world context is_profile value) host

unfoldable pub update_group : World → Caller → Fields → Bool → HostDb → Result (HostDb × Fields)
unfolding request_context in_group update_in_group
update_group world caller params is_profile host = do
  context ←
      request_context caller params
        (if is_profile then "group.update_profile" else "group.update_policy") "group"
  let patch = get context.body (patch_key_of is_profile)
  raise_if (not (is_dict patch)) (
      invalid_params (
        if is_profile
        then "group.group_profile_patch_required"
        else "group.group_policy_patch_required"))
  in_group host context (update_in_group world host context is_profile patch)

unfoldable pub hosted_group_update_profile :
    World → Caller → Fields → HostDb → Result (HostDb × Fields)
unfolding update_group
hosted_group_update_profile world caller params = update_group world caller params true

unfoldable pub hosted_group_update_policy :
    World → Caller → Fields → HostDb → Result (HostDb × Fields)
unfolding update_group
hosted_group_update_policy world caller params = update_group world caller params false
