-- ===== src/Delivery.antt =====
-- messaging/groups/delivery.py: what the group host puts into its outbox. Each function runs in the
-- transaction of its caller, so the database comes back only when nothing was raised.
pub mod Capacity
pub mod Receivers
mod Tests
use Prim.Native.String
use text.Mathlib.Text.{is_lt}
use awiki_open_server.Shared.Json
use awiki_open_server.Shared.{
  ℕ, zero, suc, ◌+◌, ◌/◌, min, max, String, Bool, true, false, not, ◌&&◌, ◌||◌, Option, none, some,
  List, [], ◌∷◌, ◌++◌, if◌then◌else◌, ltb, nat_eq, ◌==◌, Result, ok, err, AwikiError,
  invalid_params, python_error, raise_if, ◌>>=◌, ◌>>◌,
}
use awiki_open_server.Shared.Lists.{length, any}
use awiki_open_server.Shared.Decimal.{show}
use awiki_open_server.Shared.Table.{select_where, first_where, count_where, order_by}
use awiki_open_server.Shared.Json.{
  Value, Fields, str, obj, end, field, get, put, merge, dict, equals_str, entries,
}
use awiki_open_server.Shared.Python.{item}
use awiki_open_server.Storage.{HostedGroup, HostedMember, Delivery, Db, pending, is_active, is_open}

-- The settings that group delivery reads (app/settings.py).
pub record Settings : Type 0 where
  pub service_did : String
  pub group_outbox_max_pending : ℕ
  pub allow_unsigned_peer_dev : Bool

-- home_service_did IS NOT NULL AND home_service_did != ?
unfoldable pub is_elsewhere : Settings → Option String → Bool
is_elsewhere settings none = false
is_elsewhere settings (some home) = not (home == settings.service_did)

-- ORDER BY agent_did
abbrev by_agent : HostedMember → HostedMember → Bool
by_agent a b = is_lt (String.compare a.agent_did b.agent_did)

unfoldable pub remote_members : Settings → Db → String → List HostedMember
unfolding is_elsewhere
remote_members settings db group_did = order_by by_agent (
    select_where
      (λ m.
        m.group_did == group_did && is_active m.status && is_elsewhere settings m.home_service_did)
      db.hosted_group_members)

-- SELECT COUNT(*) … WHERE status IN ('pending', 'retry')
unfoldable pub open_count : Db → ℕ
open_count db = count_where (λ d. is_open d.status) db.group_delivery_outbox

-- The rows that management operations may use beyond the configured maximum.
unfoldable pub reserve : Settings → ℕ
reserve settings = max 10 (min 100 (settings.group_outbox_max_pending / 100))

unfoldable pub capacity_limit : Settings → Bool → ℕ
unfolding reserve
capacity_limit settings management_operation =
    settings.group_outbox_max_pending + (if management_operation then reserve settings else 0)

unfoldable pub ensure_outbox_capacity : Settings → Db → String → Bool → Result (Unit {0})
unfolding remote_members open_count capacity_limit
ensure_outbox_capacity settings db group_did management_operation =
    let additional = length (remote_members settings db group_did) in
    if nat_eq additional 0
    then ok tt
    else raise_if (ltb (capacity_limit settings management_operation) (open_count db + additional))
        (invalid_params "group.delivery_backlog_full")

-- The primary key and the UNIQUE constraint of the table.
unfoldable pub conflicts : Delivery → Delivery → Bool
conflicts row other =
    other.delivery_id == row.delivery_id
    || (other.group_did == row.group_did
        && nat_eq other.group_event_seq row.group_event_seq
        && other.target_did == row.target_did
        && other.method == row.method)

-- INSERT OR IGNORE
unfoldable pub insert_or_ignore : Delivery → List Delivery → List Delivery
unfolding conflicts
insert_or_ignore row rows = if any (conflicts row) rows then rows else rows ++ row ∷ []

unfoldable pub enqueue : Delivery → Db → Db
unfolding insert_or_ignore
enqueue row db = record db { group_delivery_outbox = insert_or_ignore row db.group_delivery_outbox }

-- A fresh row. `delivery_id` is what new_id("gdlv") returned.
unfoldable pub new_delivery :
    String → String → ℕ → HostedMember → String → String → Value → ℕ → Delivery
new_delivery delivery_id group_did group_event_seq member home method envelope created_at = record {
  delivery_id = delivery_id;
  group_did = group_did;
  group_event_seq = group_event_seq;
  target_did = member.agent_did;
  target_service_did = home;
  method = method;
  envelope = envelope;
  status = pending;
  attempt_count = 0;
  next_attempt_at = created_at;
  last_error = none;
  created_at = created_at;
  updated_at = created_at;
}

-- str(member["home_service_did"]): the callers select members that have one.
abbrev pub home_of : HostedMember → String
home_of m = elim m.home_service_did [ none ↦ "None" | some home ↦ home ]

-- The loop over the members; `ids n` is the n-th identifier that new_id draws.
unfoldable pub enqueue_each :
    (HostedMember → Value) → (ℕ → String) → String → ℕ → String → ℕ → List HostedMember → Db → Db
unfolding enqueue new_delivery
enqueue_each envelope ids group_did seq method created_at [] db = db
enqueue_each envelope ids group_did seq method created_at (m ∷ rest) db =
    enqueue_each envelope (λ n. ids (suc n)) group_did seq method created_at rest
      (enqueue (new_delivery (ids 0) group_did seq m (home_of m) method (envelope m) created_at) db)

unfoldable pub state_changed_envelope : String → Fields → String → HostedMember → Value
state_changed_envelope group_did event wire_profile m = dict (
    ("jsonrpc", str "2.0")
    ∷ ("method", str "group.state_changed")
    ∷ (
      "params",
      dict (
          (
            "meta",
            dict (
                ("anp_version", str "1.0")
                ∷ ("profile", str wire_profile)
                ∷ ("security_profile", str "transport-protected")
                ∷ ("sender_did", str group_did)
                ∷ ("target", dict (("kind", str "agent") ∷ ("did", str m.agent_did) ∷ []))
                ∷ ("operation_id", get (entries (get event "group_receipt")) "operation_id")
                ∷ ("content_type", str "application/json")
                ∷ []),
          )
          ∷ ("body", obj event)
          ∷ []),
    )
    ∷ [])

-- The member that just left or was removed, whose row is no longer active.
unfoldable pub departed_member : Settings → Db → String → Fields → Option HostedMember
unfolding is_elsewhere
departed_member settings db group_did event =
    first_where
      (λ m.
        m.group_did == group_did
        && equals_str (get event "subject_did") m.agent_did
        && is_elsewhere settings m.home_service_did)
      db.hosted_group_members

abbrev pub with_departed : List HostedMember → Option HostedMember → List HostedMember
with_departed members none = members
with_departed members (some m) =
    if any (λ r. r.agent_did == m.agent_did) members then members else members ++ m ∷ []

abbrev pub is_departure : Fields → Bool
is_departure event =
    equals_str (get event "event_type") "member-removed"
    || equals_str (get event "event_type") "member-left"

-- The members that a state change is sent to.
unfoldable pub state_changed_targets : Settings → Db → String → String → Fields → List HostedMember
unfolding remote_members departed_member
state_changed_targets settings db group_did wire_profile event =
    let members = remote_members settings db group_did in
    if wire_profile == "anp.group.base.v2" && is_departure event
    then with_departed members (departed_member settings db group_did event)
    else members

unfoldable pub find_group : Db → String → Option HostedGroup
find_group db group_did = first_where (λ g. g.group_did == group_did) db.hosted_groups

abbrev pub enqueue_to_found :
    Settings → (ℕ → String) → String → ℕ → Fields → ℕ → Db → Option HostedGroup → Result Db
enqueue_to_found settings ids group_did seq event created_at db none =
    err (python_error "TypeError")
enqueue_to_found settings ids group_did seq event created_at db (some group) = ok (
    enqueue_each (state_changed_envelope group_did event group.wire_profile) ids group_did seq
      "group.state_changed" created_at
      (state_changed_targets settings db group_did group.wire_profile event) db)

-- The operation_id of a receipt is a text, on which str() changes nothing.
unfoldable pub enqueue_state_changed :
    Settings → (ℕ → String) → String → ℕ → Fields → ℕ → Db → Result Db
unfolding find_group state_changed_targets state_changed_envelope enqueue_each item
enqueue_state_changed settings ids group_did seq event created_at db = do
  receipt ← item (obj event) "group_receipt"
  operation_id ← item receipt "operation_id"
  enqueue_to_found settings ids group_did seq event created_at db (find_group db group_did)

-- What enqueue_incoming_message is given of the message, beside the group and its versions.
pub record Incoming : Type 0 where
  pub original_meta : Fields
  pub body : Fields
  pub auth : Value
  pub receipt : Value
  pub accepted_at_text : String

abbrev delivery_body : String → ℕ → ℕ → Incoming → Fields
delivery_body group_did state_version seq message =
    merge
      (field "group_did" (str group_did) (
        field "group_state_version" (str (show state_version)) (
          field "group_event_seq" (str (show seq)) (
            field "accepted_at" (str message.accepted_at_text)
              (field "group_receipt" message.receipt end)))))
      message.body

unfoldable pub incoming_envelope : String → ℕ → ℕ → Incoming → HostedMember → Value
incoming_envelope group_did state_version seq message m = dict (
    ("jsonrpc", str "2.0")
    ∷ ("method", str "group.incoming")
    ∷ (
      "params",
      dict (
          (
            "meta",
            obj (
                put "target" (dict (("kind", str "agent") ∷ ("did", str m.agent_did) ∷ []))
                  message.original_meta),
          )
          ∷ ("auth", message.auth)
          ∷ ("body", obj (delivery_body group_did state_version seq message))
          ∷ []),
    )
    ∷ [])

unfoldable pub enqueue_incoming_message :
    Settings → (ℕ → String) → String → ℕ → ℕ → Incoming → ℕ → Db → Db
unfolding remote_members enqueue_each incoming_envelope
enqueue_incoming_message settings ids group_did state_version seq message accepted_at db =
    enqueue_each (incoming_envelope group_did state_version seq message) ids group_did seq
      "group.incoming" accepted_at (remote_members settings db group_did) db
