-- ===== src/Host/Sending.antt =====
-- messaging/groups/service.py: group.send. The events for listeners that are connected, behind the
-- transaction, are not modelled.
use Prim.Native.String
use awiki_open_server.Shared.{
  ℕ, ◌+◌, String, Bool, true, false, not, ◌&&◌, some, List, [], ◌∷◌, ◌++◌, ltb, nat_eq, ◌==◌,
  Result, ok, conflict, invalid_params, python_error, raise_if, ◌>>=◌, ◌>>◌,
}
use awiki_open_server.Shared.Lists.{any, length}
use awiki_open_server.Shared.Decimal.{show}
use awiki_open_server.Shared.Table.{select_where}
use awiki_open_server.Shared.Json.{
  Value, Fields, str, num, bool, obj, end, field, get, keys, contains, is_dict, dict,
}
use awiki_open_server.Storage.{HostedGroup}
use awiki_open_server.Delivery.{Incoming, ensure_outbox_capacity, enqueue_incoming_message}
use awiki_open_server.Operations.{GroupRequest, store_operation}
use awiki_open_server.Policy.{require_permission}
use awiki_open_server.Protocol.{Caller, request_context, require_string}
use awiki_open_server.Host.Tables.{HostDb, World, HostedMessage}
use awiki_open_server.Host.Snapshots.{sync_active_members}
use awiki_open_server.Host.Projections.{refresh_hosted_local_projections, project_hosted_message}
use awiki_open_server.Host.Changes.{
  active_member, receipt, write_event, event_row, set_group, in_group,
}

-- What a request to send names: the identifier of the message and its content type.
pub record Content : Type 0 where
  pub message_id : String
  pub content_type : String

abbrev is_str : Value → Bool
is_str (str text) = true
is_str _ = false

-- The keys of the body among text, payload and payload_b64u.
abbrev content_fields : Fields → List String
content_fields body = select_where (contains (keys body)) ("text" ∷ "payload" ∷ "payload_b64u" ∷ [])

unfoldable pub check_body : World → String → Fields → Result (Unit {0})
check_body world content_type body = do
  raise_if (not (nat_eq (length (content_fields body)) 1))
      (invalid_params "group.message_content_required")
  raise_if (content_type == "text/plain" && not (is_str (get body "text")))
      (invalid_params "message_body_text_required")
  raise_if
      (contains ("application/json" ∷ "application/anp-attachment-manifest+json" ∷ []) content_type
        && not (is_dict (get body "payload")))
      (invalid_params "message_body_payload_object_required")
  raise_if (ltb world.group_max_message_bytes (world.canonical_length body))
      (invalid_params "group.message_too_large")

unfoldable pub content_of : World → GroupRequest → Result Content
unfolding require_string check_body
content_of world context = do
  message_id ← require_string (get context.meta "message_id") "anp_meta_message_id_required"
  content_type ← require_string (get context.meta "content_type") "anp_meta_content_type_required"
  check_body world content_type context.body
  ok (record { message_id = message_id; content_type = content_type })

abbrev pub message_row : World → GroupRequest → Content → ℕ → Fields → HostedMessage
message_row world context content event_seq signed = record {
  message_id = content.message_id;
  group_did = context.target_did;
  group_event_seq = event_seq;
  sender_did = context.sender_did;
  operation_id = context.operation_id;
  body = context.body;
  content_type = content.content_type;
  origin_auth = context.auth;
  receipt = signed;
  created_at = world.now;
  wire_profile = context.profile;
  meta = context.meta;
}

-- UNIQUE(group_did, group_event_seq)
abbrev pub same_place : HostedMessage → HostedMessage → Bool
same_place row m = m.group_did == row.group_did && nat_eq m.group_event_seq row.group_event_seq

unfoldable pub insert_message : HostedMessage → HostDb → Result HostDb
insert_message row host =
    raise_if (any (same_place row) host.hosted_group_messages) (python_error "IntegrityError")
    >> ok (record host { hosted_group_messages = host.hosted_group_messages ++ row ∷ [] })

unfoldable pub sent_result : World → HostedMessage → ℕ → Fields
sent_result world m state_version = field "accepted" (bool true) (
    field "delivery_state" (str "accepted") (
      field "final_acceptance" (bool true) (
        field "message_id" (str m.message_id) (
          field "operation_id" (str m.operation_id) (
            field "group_did" (str m.group_did) (
              field "sender_did" (str m.sender_did) (
                field "server_seq" (num m.group_event_seq) (
                  field "group_event_seq" (str (show m.group_event_seq)) (
                    field "group_state_version" (str (show state_version)) (
                      field "accepted_at" (str (world.time_text m.created_at)) (
                        field "content_type" (str m.content_type) (
                          field "body" (obj m.body)
                            (field "group_receipt" (obj m.receipt) end)))))))))))))

unfoldable pub sent_event : HostedMessage → Fields
sent_event m = field "group_did" (str m.group_did) (
    field "message_id" (str m.message_id) (
      field "sender_did" (str m.sender_did)
        (field "group_event_seq" (str (show m.group_event_seq)) end)))

unfoldable pub sent_sync : HostedMessage → Fields
sent_sync m = field "thread_kind" (str "group") (
    field "thread" (dict (("kind", str "group") ∷ ("group_did", str m.group_did) ∷ [])) (
      field "message"
        (dict (
          ("id", str (String.◌++◌ m.group_did (String.◌++◌ ":" (show m.group_event_seq))))
          ∷ ("message_id", str m.message_id)
          ∷ ("server_seq", str (show m.group_event_seq))
          ∷ ("group_event_seq", str (show m.group_event_seq))
          ∷ ("group_did", str m.group_did)
          ∷ ("sender_did", str m.sender_did)
          ∷ ("content_type", str m.content_type)
          ∷ []))
        end))

abbrev pub incoming_of : World → GroupRequest → HostedMessage → Incoming
incoming_of world context m = record {
  original_meta = context.meta;
  body = m.body;
  auth = obj context.auth;
  receipt = obj m.receipt;
  accepted_at_text = world.time_text m.created_at;
}

-- The receipt, the row of the message, the event and the operation.
unfoldable pub record_message :
    World → GroupRequest → Content → ℕ → ℕ → HostDb → Result (HostDb × HostedMessage × Fields)
unfolding receipt insert_message write_event event_row store_operation sent_event sent_result
record_message world context content state_version event_seq host = do
  signed ←
      receipt world host context context.target_did state_version event_seq
        (some content.message_id)
  let row = message_row world context content event_seq signed
  inserted ← insert_message row host
  written ←
      write_event
        (event_row world context context.target_did state_version event_seq "group-message-created"
          (sent_event row) signed)
        inserted
  stored ←
      store_operation context context.target_did (sent_result world row state_version) world.now
        written.group_operations
  ok (record written { group_operations = stored.0 }, row, stored.1)

-- The views of the members here, the outbox for the others, and the events for the members here.
unfoldable pub deliver_message : World → GroupRequest → ℕ → HostedMessage → HostDb → HostDb
unfolding refresh_hosted_local_projections project_hosted_message enqueue_incoming_message
    sync_active_members sent_sync
deliver_message world context state_version row host =
    let refreshed = refresh_hosted_local_projections world row.group_did world.now host in
    let projected = project_hosted_message world state_version row refreshed in
    let enqueued = record projected {
      db =
          enqueue_incoming_message world.settings world.delivery_ids row.group_did state_version
            row.group_event_seq (incoming_of world context row) world.now projected.db;
    } in
    sync_active_members world row.group_did "group.message.created" (sent_sync row) enqueued

-- UPDATE hosted_groups SET group_event_seq = ?, updated_at = ?
abbrev pub set_seq : ℕ → ℕ → HostedGroup → HostedGroup
set_seq event_seq at g = record g { group_event_seq = event_seq; updated_at = at }

unfoldable pub send_in_group :
    World → HostDb → GroupRequest → Content → HostedGroup → Result (HostDb × Fields)
unfolding active_member require_permission ensure_outbox_capacity set_group record_message
    deliver_message
send_in_group world host context content group = do
  member ← active_member host context.target_did context.sender_did
  require_permission group.policy member.role "send"
  ensure_outbox_capacity world.settings host.db context.target_did false
  raise_if
      (any (λ (m : HostedMessage). m.message_id == content.message_id) host.hosted_group_messages)
      (conflict "message_id_conflict")
  let event_seq = group.group_event_seq + 1
  recorded ←
      record_message world context content group.group_state_version event_seq
        (set_group context.target_did (set_seq event_seq world.now) host)
  ok (deliver_message world context group.group_state_version recorded.1 recorded.0, recorded.2)

unfoldable pub hosted_group_send : World → Caller → Fields → HostDb → Result (HostDb × Fields)
unfolding request_context content_of in_group send_in_group
hosted_group_send world caller params host = do
  context ← request_context caller params "group.send" "group"
  content ← content_of world context
  in_group host context (send_in_group world host context content)
