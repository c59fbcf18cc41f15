-- ===== src/Host/Reading/Groups.antt =====
-- messaging/groups/service.py: the information on a group, the lists of groups and of members, and
-- whether a group is hosted or viewed here.
use awiki_open_server.Shared.{
  String, Bool, true, false, not, ◌&&◌, ◌||◌, Option, none, some, List, [], ◌∷◌, map, if◌then◌else◌,
  ◌==◌, Result, ok, err, invalid_params, not_found, unauthorized, raise_if, ◌>>=◌, ◌>>◌,
}
use awiki_open_server.Shared.Lists.{any}
use awiki_open_server.Shared.Decimal.{show}
use awiki_open_server.Shared.Table.{select_where, first_where, order_by}
use awiki_open_server.Shared.Json.{
  Value, Items, Fields, str, bool, null, obj, arr, nil, cons, end, field, get, put, is_dict,
  entries, equals_str,
}
use awiki_open_server.Storage.{HostedGroup, HostedMember, is_active}
use awiki_open_server.Protocol.{Caller, require_string, get_or, validate_v2_shape, base_v2}
use awiki_open_server.Host.Tables.{HostDb, World, GroupView}
use awiki_open_server.Host.Snapshots.{status_text, active_count}
use awiki_open_server.Host.Projections.{by_joined}
use awiki_open_server.Host.Changes.{group_row, active_member, is_active_row}
use awiki_open_server.Host.Reading.Pages.{is_active_view}

-- is_hosted_group, for a group_did that may be empty
unfoldable pub is_hosted_group : HostDb → String → Bool
is_hosted_group host group_did =
    not (group_did == "")
    && any (λ (g : HostedGroup). g.group_did == group_did) host.db.hosted_groups

unfoldable pub has_group_projection : HostDb → String → String → Bool
has_group_projection host group_did owner =
    not (group_did == "") && any (is_active_view owner group_did) host.group_views

abbrev str_or_null : Option String → Value
str_or_null none = null
str_or_null (some text) = str text

abbrev is_true : Value → Bool
is_true (bool b) = b
is_true _ = false

abbrev items : List Value → Items
items [] = nil
items (v ∷ vs) = cons v (items vs)

-- SELECT … WHERE group_did = ? AND status = 'active' ORDER BY joined_at, agent_did
unfoldable pub active_members : HostDb → String → List HostedMember
active_members host group_did = order_by by_joined (
    select_where (λ (m : HostedMember). m.group_did == group_did && is_active m.status)
      host.db.hosted_group_members)

-- The entries of a row behind its names, without those of handles in version 2.
abbrev pub with_handles : Bool → HostedMember → Fields → Fields
with_handles is_v2 m fields =
    if is_v2
    then fields
    else field "member_handle" (str_or_null m.member_handle)
        (field "handle_binding_generation" (str_or_null m.handle_binding_generation) fields)

unfoldable pub member_info : World → Bool → HostedMember → Value
member_info world is_v2 m = obj (
    field (if is_v2 then "member_did" else "agent_did") (str m.agent_did) (
      with_handles is_v2 m (
        field "role" (str m.role) (
          field "status" (str (status_text m.status))
            (field "joined_at" (str (world.time_text m.joined_at)) end)))))

unfoldable pub listed_member : World → Bool → HostedMember → Value
listed_member world is_v2 m = obj (
    field "agent_did" (str m.agent_did) (
      with_handles is_v2 m (
        field "role" (str m.role) (
          field "status" (str (status_text m.status)) (
            field "joined_at" (str (world.time_text m.joined_at)) (
              field "added_by" (str_or_null m.added_by)
                (field "member_did" (str m.agent_did) end)))))))

-- `owner` is the DID of the login.
unfoldable pub hosted_group_list_members : World → String → Fields → HostDb → Result (List Value)
unfolding require_string group_row active_member active_members listed_member
hosted_group_list_members world owner params host = do
  group_did ← require_string (get params "group_did") "group_did_required"
  group ← group_row host group_did none false
  active_member host group_did owner >>= λ member. ok tt
  ok (map (listed_member world (group.wire_profile == base_v2)) (active_members host group_did))

-- The sender of get_info: on the public path the one that is named, if any, whose peer signed.
abbrev named_sender : Caller → Value → Result (Option String)
named_sender caller (str sender) = caller.peer_signature sender >> ok (some sender)
named_sender caller _ = ok none

unfoldable info_sender : Caller → Fields → Result (Option String)
info_sender caller meta =
    if caller.is_public then named_sender caller (get meta "sender_did") else caller.current_did

abbrev text_or_none : Value → Option String
text_or_none (str text) = some text
text_or_none _ = none

abbrev member_of : HostDb → String → Option String → Option HostedMember
member_of host group_did none = none
member_of host group_did (some did) =
    first_where (is_active_row group_did did) host.db.hosted_group_members

abbrev is_some : Option HostedMember → Bool
is_some none = false
is_some (some m) = true

abbrev with_member : Option HostedMember → Fields → Fields
with_member none fields = fields
with_member (some m) fields =
    put "membership_status" (str (status_text m.status)) (put "member_role" (str m.role) fields)

-- profile.get("discoverability", "public") == "private"
abbrev is_private : Value → Bool
is_private profile =
    equals_str (get_or (entries profile) "discoverability" (str "public")) "private"

unfoldable pub group_info : World → HostDb → HostedGroup → Option HostedMember → Bool → Bool → Value
unfolding member_info active_members
group_info world host group member with_policy with_members =
    let base = with_member member (
      field "group_did" (str group.group_did) (
        field "host_service_did" (str group.host_service_did) (
          field "group_state_version" (str (show group.group_state_version)) (
            field "group_event_seq" (str (show group.group_event_seq)) (
              field "group_profile" group.profile (
                field "member_count" (str (show (active_count host group.group_did)))
                  (field "created_at" (str (world.time_text group.created_at)) end))))))) in
    let known =
      if is_some member && with_policy then put "group_policy" group.policy base else base in
    let members =
      map (member_info world (group.wire_profile == base_v2))
        (active_members host group.group_did) in
    obj (
      if is_some member && with_members
      then put "member_list" (arr (items members)) known
      else known)

-- The part of hosted_group_get_info behind the check of the sender.
unfoldable pub info_for :
    World → Caller → HostDb → String → Fields → Fields → Option String → Result Value
unfolding group_row group_info
info_for world caller host group_did meta body sender = do
  group ← group_row host group_did (text_or_none (get meta "profile")) false
  let member = member_of host group_did sender
  let wants_policy = is_true (get body "include_policy")
  let wants_members = is_true (get body "include_member_list")
  raise_if (not (is_some member) && (is_private group.profile || wants_policy || wants_members))
      (unauthorized "group.policy_violation")
  let is_local = equals_str (get meta "profile") "anp.group.local.v1" && not caller.is_public
  ok (group_info world host group member (wants_policy || is_local) wants_members)

abbrev group_did_of : Value → Result String
group_did_of (str text) = ok text
group_did_of _ = err (invalid_params "group_did_required")

unfoldable pub hosted_group_get_info : World → Caller → Fields → HostDb → Result Value
unfolding validate_v2_shape info_sender info_for
hosted_group_get_info world caller params host = do
  group_did ← group_did_of (get params "group_did")
  let meta = entries (get params "_anp_meta")
  let body = if is_dict (get params "_anp_body") then entries (get params "_anp_body") else params
  validate_v2_shape "group.get_info" meta body
  sender ← info_sender caller meta
  info_for world caller host group_did meta body sender

abbrev found_view : Option GroupView → Result GroupView
found_view none = err (not_found "group.projection_not_found")
found_view (some v) = ok v

unfoldable active_view : HostDb → String → String → Result GroupView
active_view host owner group_did =
    found_view (first_where (is_active_view owner group_did) host.group_views)

unfoldable pub view_info : World → GroupView → Value
view_info world v = obj (
    field "group_did" (str v.group_did) (
      field "host_service_did" (str v.host_service_did) (
        field "group_state_version" (str (show v.group_state_version)) (
          field "group_event_seq" (str (show v.group_event_seq)) (
            field "group_profile" v.profile (
              field "group_policy" v.policy (
                field "member_role" (str v.member_role) (
                  field "membership_status" (str v.membership_status)
                    (field "updated_at" (str (world.time_text v.updated_at)) end)))))))))

unfoldable pub projected_group_get : World → String → Fields → HostDb → Result Value
unfolding require_string active_view view_info
projected_group_get world owner params host = do
  group_did ← require_string (get params "group_did") "group_did_required"
  v ← active_view host owner group_did
  ok (view_info world v)
