-- ===== src/Host/Changes.antt =====
-- messaging/groups/service.py: the steps that the handlers share. A handler runs in the transactions
-- of its connection, so the tables come back only when nothing was raised.
use awiki_open_server.Shared.{
  ℕ, ◌+◌, String, Bool, true, ◌&&◌, ◌||◌, Option, none, some, List, [], ◌∷◌, ◌++◌, if◌then◌else◌,
  nat_eq, ◌==◌, Result, ok, err, AwikiError, not_found, unauthorized, invalid_params, python_error,
  raise_if, ◌>>=◌, ◌>>◌,
}
use awiki_open_server.Shared.Lists.{any, length}
use awiki_open_server.Shared.Decimal.{show}
use awiki_open_server.Shared.Table.{select_where, first_where, update_where}
use awiki_open_server.Shared.Json.{Fields, str, obj, end, field, put}
use awiki_open_server.Storage.{HostedGroup, HostedMember, is_active}
use awiki_open_server.Delivery.{find_group, enqueue_state_changed}
use awiki_open_server.Operations.{GroupRequest, operation_replay, store_operation}
use awiki_open_server.Protocol.{require_group_protocol}
use awiki_open_server.Host.Tables.{HostDb, World, GroupEvent, GroupDocument}
use awiki_open_server.Host.Snapshots.{
  sync_active_members, add_sync_event, user_exists, is_row, is_active_in,
}
use awiki_open_server.Host.Projections.{refresh_hosted_local_projections}

abbrev pub found_group : Option HostedGroup → Option String → Bool → Result HostedGroup
found_group none profile writing = err (not_found "group.not_found")
found_group (some g) profile writing = require_group_protocol g profile writing >> ok g

-- group_row, behind the BEGIN IMMEDIATE of a writer
unfoldable pub group_row : HostDb → String → Option String → Bool → Result HostedGroup
unfolding find_group require_group_protocol
group_row host group_did profile writing =
    found_group (find_group host.db group_did) profile writing

abbrev pub is_active_row : String → String → HostedMember → Bool
is_active_row group_did agent_did m = is_row group_did agent_did m && is_active m.status

abbrev pub not_member : AwikiError
not_member = unauthorized "group.not_member"

abbrev pub found_member : Option HostedMember → Result HostedMember
found_member none = err not_member
found_member (some m) = ok m

unfoldable pub active_member : HostDb → String → String → Result HostedMember
active_member host group_did agent_did =
    found_member (first_where (is_active_row group_did agent_did) host.db.hosted_group_members)

abbrev found_key : Option GroupDocument → Result String
found_key none = err (invalid_params "group_receipt_key_unavailable")
found_key (some d) = ok d.key_reference

unfoldable pub key_reference : HostDb → String → Result String
key_reference host group_did =
    found_key
      (first_where (λ (d : GroupDocument). d.group_did == group_did) host.group_did_documents)

abbrev with_message_id : Option String → Fields → Fields
with_message_id none value = value
with_message_id (some message_id) value = put "message_id" (str message_id) value

unfoldable pub receipt :
    World → HostDb → GroupRequest → String → ℕ → ℕ → Option String → Result Fields
unfolding key_reference
receipt world host context group_did state_version event_seq message_id = do
  key ← key_reference host group_did
  let type =
      if context.method == "group.send"
      then "group-message-accepted"
      else "group-operation-accepted"
  world.sign_receipt
      (with_message_id message_id (
        field "receipt_type" (str type) (
          field "group_did" (str group_did) (
            field "group_state_version" (str (show state_version)) (
              field "group_event_seq" (str (show event_seq)) (
                field "subject_method" (str context.method) (
                  field "operation_id" (str context.operation_id) (
                    field "actor_did" (str context.sender_did) (
                      field "accepted_at" (str (world.time_text world.now))
                        (field "payload_digest" (str context.payload_digest) end))))))))))
      key

-- The primary key and the UNIQUE constraint of hosted_group_events.
abbrev pub same_event : GroupEvent → GroupEvent → Bool
same_event row e =
    (e.group_did == row.group_did && nat_eq e.group_event_seq row.group_event_seq)
    || e.event_id == row.event_id

unfoldable pub write_event : GroupEvent → HostDb → Result HostDb
write_event row host =
    raise_if (any (same_event row) host.hosted_group_events) (python_error "IntegrityError")
    >> ok (record host { hosted_group_events = host.hosted_group_events ++ row ∷ [] })

unfoldable pub event_row :
    World → GroupRequest → String → ℕ → ℕ → String → Fields → Fields → GroupEvent
event_row world context group_did state_version event_seq event_type payload signed = record {
  group_did = group_did;
  group_event_seq = event_seq;
  event_id = world.event_id;
  event_type = event_type;
  group_state_version = state_version;
  subject_method = context.method;
  actor_did = context.sender_did;
  payload = obj payload;
  payload_digest = context.payload_digest;
  receipt = signed;
  created_at = world.now;
}

-- UPDATE hosted_groups SET … WHERE group_did = ?
unfoldable pub set_group : String → (HostedGroup → HostedGroup) → HostDb → HostDb
set_group group_did change host = record host {
  db = record host.db {
    hosted_groups = update_where (λ g. g.group_did == group_did) change host.db.hosted_groups;
  };
}

unfoldable pub set_members : List HostedMember → HostDb → HostDb
set_members members host = record host { db = record host.db { hosted_group_members = members } }

-- Where the handlers that change the state of a group differ behind their checks and the change of
-- the members: the columns of the group, the result and the event but for their versions and
-- receipt, and the DID that is told beside the active members.
pub record Change : Type 0 where
  pub columns : HostedGroup → HostedGroup
  pub event_type : String
  pub sync_type : String
  pub result : ℕ → ℕ → Fields → Fields
  pub event : ℕ → ℕ → Fields → Fields
  pub departed : Option String

abbrev pub set_versions : ℕ → ℕ → ℕ → (HostedGroup → HostedGroup) → HostedGroup → HostedGroup
set_versions state_version event_seq at columns g = record (columns g) {
  group_state_version = state_version;
  group_event_seq = event_seq;
  updated_at = at;
}

-- The member that left, in version 2, where it is a user of this service.
abbrev pub tell_departed : World → ℕ → String → Fields → Option String → HostDb → HostDb
tell_departed world told sync_type event none host = host
tell_departed world told sync_type event (some did) host =
    let after = add_sync_event world (world.sync_ids told) did sync_type event host in
    if user_exists host did then after else host

unfoldable pub tell_members : World → String → String → Fields → Option String → HostDb → HostDb
unfolding sync_active_members add_sync_event user_exists
tell_members world group_did sync_type event departed host =
    tell_departed world
      (length (select_where (is_active_in group_did) host.db.hosted_group_members)) sync_type event
      departed (sync_active_members world group_did sync_type event host)

-- The receipt, the event and the operation of a change.
unfoldable pub record_change :
    World → GroupRequest → String → ℕ → ℕ → Change → HostDb → Result (HostDb × Fields × Fields)
unfolding receipt write_event event_row store_operation
record_change world context group_did state_version event_seq change host = do
  signed ← receipt world host context group_did state_version event_seq none
  let event = change.event state_version event_seq signed
  written ←
      write_event
        (event_row world context group_did state_version event_seq change.event_type event signed)
        host
  stored ←
      store_operation context group_did (change.result state_version event_seq signed) world.now
        written.group_operations
  ok (record written { group_operations = stored.0 }, event, stored.1)

-- Who is told of a change: the members here, their views, and the services of the others.
unfoldable pub announce : World → String → ℕ → Change → Fields → HostDb → Result HostDb
unfolding tell_members refresh_hosted_local_projections enqueue_state_changed
announce world group_did event_seq change event host = do
  let told = tell_members world group_did change.sync_type event change.departed host
  let viewed = refresh_hosted_local_projections world group_did world.now told
  db ←
      enqueue_state_changed world.settings world.delivery_ids group_did event_seq event world.now
        viewed.db
  ok (record viewed { db = db })

-- The part of the handlers behind the change of the members.
unfoldable pub commit_change :
    World → GroupRequest → String → HostedGroup → Change → HostDb → Result (HostDb × Fields)
unfolding set_group record_change announce
commit_change world context group_did group change host = do
  let state_version = group.group_state_version + 1
  let event_seq = group.group_event_seq + 1
  let bumped =
      set_group group_did (set_versions state_version event_seq world.now change.columns) host
  recorded ← record_change world context group_did state_version event_seq change bumped
  announced ← announce world group_did event_seq change recorded.1 recorded.0
  ok (announced, recorded.2)

-- replay = operation_replay(…); if replay is not None: return replay
abbrev pub unless_replayed :
    HostDb → Option Fields → Result (HostDb × Fields) → Result (HostDb × Fields)
unless_replayed host none act = act
unless_replayed host (some result) act = ok (host, result)

unfoldable pub replay : HostDb → GroupRequest → String → Result (Option Fields)
unfolding operation_replay
replay host context scope = operation_replay context scope host.group_operations

-- The checks that open the transaction of a handler that changes a group.
unfoldable pub in_group :
    HostDb → GroupRequest → (HostedGroup → Result (HostDb × Fields)) → Result (HostDb × Fields)
unfolding group_row replay
in_group host context act = do
  group ← group_row host context.target_did (some context.profile) true
  replayed ← replay host context context.target_did
  unless_replayed host replayed (act group)
