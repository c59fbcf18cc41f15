-- ===== src/Host/Ending.antt =====
-- messaging/groups/service.py: group.leave and group.remove, which end a membership.
use awiki_open_server.Shared.{
  ℕ, String, Bool, true, false, none, some, if◌then◌else◌, Result, ok, ◌>>=◌, ◌>>◌,
}
use awiki_open_server.Shared.Decimal.{show}
use awiki_open_server.Shared.Table.{update_where}
use awiki_open_server.Shared.Json.{Fields, str, obj, end, field, get, put}
use awiki_open_server.Storage.{HostedGroup, MemberStatus, left, removed}
use awiki_open_server.Delivery.{ensure_outbox_capacity}
use awiki_open_server.Operations.{GroupRequest, is_v2}
use awiki_open_server.Policy.{require_permission}
use awiki_open_server.Protocol.{Caller, request_context, require_string}
use awiki_open_server.Host.Tables.{HostDb, World}
use awiki_open_server.Host.Snapshots.{is_row, status_text}
use awiki_open_server.Host.Changes.{Change, active_member, set_members, commit_change, in_group}

-- The member whose membership ends, who is active. With group.remove the sender may remove.
unfoldable pub ending_did : HostDb → GroupRequest → HostedGroup → Bool → Result String
unfolding active_member require_permission require_string
ending_did host context group is_leave = do
  actor ← active_member host context.target_did context.sender_did
  if is_leave
      then ok context.sender_did
      else (require_permission group.policy actor.role "remove"
          >> (require_string (get context.body "member_did") "group.member_did_required" >>= λ did.
              active_member host context.target_did did >>= λ m. ok did))

abbrev pub ending_status : Bool → MemberStatus
ending_status is_leave = if is_leave then left else removed

-- UPDATE hosted_group_members SET status = ?, ended_at = ? WHERE group_did = ? AND agent_did = ?
unfoldable pub end_member : World → String → Bool → String → HostDb → HostDb
unfolding set_members
end_member world group_did is_leave did host =
    set_members
      (update_where (is_row group_did did)
        (λ m. record m { status = ending_status is_leave; ended_at = some world.now })
        host.db.hosted_group_members)
      host

-- In version 2 the capacity is checked with the member, in version 1 without.
unfoldable pub end_within_capacity : World → GroupRequest → Bool → String → HostDb → Result HostDb
unfolding end_member ensure_outbox_capacity
end_within_capacity world context is_leave did host =
    let after = end_member world context.target_did is_leave did host in
    ensure_outbox_capacity world.settings (if is_v2 context then host else after).db
      context.target_did true
    >> ok after

abbrev pub event_type_of : Bool → String
event_type_of is_leave = if is_leave then "member-left" else "member-removed"

unfoldable pub ended_result : GroupRequest → Bool → String → ℕ → ℕ → Fields → Fields
ended_result context is_leave did version seq signed =
    let base = field "group_did" (str context.target_did) (
      field "group_state_version" (str (show version))
        (field "group_event_seq" (str (show seq)) (field "group_receipt" (obj signed) end))) in
    if is_leave
    then put "leaver_did" (str did) base
    else put "membership_status" (str "removed") (put "member_did" (str did) base)

unfoldable pub ended_event : World → GroupRequest → Bool → String → ℕ → ℕ → Fields → Fields
ended_event world context is_leave did version seq signed =
    field "group_did" (str context.target_did) (
      field "event_type" (str (event_type_of is_leave)) (
        field "subject_method" (str context.method) (
          field "subject_did" (str did) (
            field "membership_status" (str (status_text (ending_status is_leave))) (
              field "group_state_version" (str (show version)) (
                field "group_event_seq" (str (show seq)) (
                  field "changed_at" (str (world.time_text world.now)) (
                    field "actor_did" (str context.sender_did)
                      (field "group_receipt" (obj signed) end)))))))))

abbrev pub ended : World → GroupRequest → Bool → String → Change
ended world context is_leave did = record {
  columns = λ g. g;
  event_type = event_type_of is_leave;
  sync_type = if is_leave then "group.member-left" else "group.member-removed";
  result = ended_result context is_leave did;
  event = ended_event world context is_leave did;
  departed = if is_v2 context then some did else none;
}

unfoldable pub end_in_group :
    World → HostDb → GroupRequest → Bool → HostedGroup → Result (HostDb × Fields)
unfolding ending_did end_within_capacity commit_change ended_result ended_event
end_in_group world host context is_leave group = do
  did ← ending_did host context group is_leave
  after ← end_within_capacity world context is_leave did host
  commit_change world context context.target_did group (ended world context is_leave did) after

unfoldable pub end_membership : World → Caller → Fields → Bool → HostDb → Result (HostDb × Fields)
unfolding request_context in_group end_in_group
end_membership world caller params is_leave host = do
  context ←
      request_context caller params (if is_leave then "group.leave" else "group.remove") "group"
  in_group host context (end_in_group world host context is_leave)

unfoldable pub hosted_group_leave : World → Caller → Fields → HostDb → Result (HostDb × Fields)
unfolding end_membership
hosted_group_leave world caller params = end_membership world caller params true

unfoldable pub hosted_group_remove : World → Caller → Fields → HostDb → Result (HostDb × Fields)
unfolding end_membership
hosted_group_remove world caller params = end_membership world caller params false
