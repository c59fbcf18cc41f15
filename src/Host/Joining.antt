-- ===== src/Host/Joining.antt =====
-- messaging/groups/service.py: group.join and group.add, which make an agent an active member.
use awiki_open_server.Shared.{
  ℕ, String, Bool, true, false, not, ◌&&◌, ◌||◌, Option, none, some, if◌then◌else◌, leb, ◌==◌,
  Result, ok, unauthorized, conflict, invalid_params, python_error, raise_if, ◌>>=◌, ◌>>◌,
}
use awiki_open_server.Shared.Lists.{any}
use awiki_open_server.Shared.Decimal.{show}
use awiki_open_server.Shared.Table.{first_where}
use awiki_open_server.Shared.Python.{ℤ, pos, negsuc, int_of, in_set, item}
use awiki_open_server.Shared.Json.{
  Value, Fields, str, obj, end, field, get, put, equals_str, is_null,
}
use awiki_open_server.Storage.{HostedGroup, HostedMember, active, is_active}
use awiki_open_server.Delivery.{ensure_outbox_capacity}
use awiki_open_server.Operations.{GroupRequest}
use awiki_open_server.Policy.{roles, require_permission, members_exceeded}
use awiki_open_server.Protocol.{
  Caller, request_context, require_string, get_or, require_group_protocol,
}
use awiki_open_server.Host.Tables.{HostDb, World, VerifiedHandleBinding, upsert}
use awiki_open_server.Host.Snapshots.{is_row, active_count}
use awiki_open_server.Host.Handles.{home_service_did, optional_binding}
use awiki_open_server.Host.Changes.{
  Change, replay, group_row, active_member, set_members, commit_change, in_group,
}

abbrev pub MaybeBinding : Type 0
MaybeBinding = Option VerifiedHandleBinding

-- The member that a request is to make active.
pub record Entrant : Type 0 where
  pub did : String
  pub binding : MaybeBinding
  pub role : String
  pub added_by : Option String

abbrev pub handle_of : MaybeBinding → Option String
handle_of none = none
handle_of (some binding) = some binding.handle

abbrev pub generation_of : MaybeBinding → Option String
generation_of none = none
generation_of (some binding) = some binding.binding_generation

abbrev pub did_or : MaybeBinding → String → String
did_or none did = did
did_or (some binding) did = binding.did

-- binding is not None and binding.did != did
abbrev pub is_bound_elsewhere : MaybeBinding → String → Bool
is_bound_elsewhere none did = false
is_bound_elsewhere (some binding) did = not (binding.did == did)

-- policy["admission_mode"] != "open-join"
unfoldable pub require_open_join : Value → Result (Unit {0})
unfolding item
require_open_join policy = do
  mode ← item policy "admission_mode"
  raise_if (not (equals_str mode "open-join")) (unauthorized "group.policy_violation")

-- The sender of group.add is an active member who may add.
unfoldable pub require_adder : HostDb → GroupRequest → HostedGroup → Result (Unit {0})
unfolding active_member require_permission
require_adder host context group = do
  actor ← active_member host context.target_did context.sender_did
  require_permission group.policy actor.role "add"

unfoldable pub require_admission : HostDb → GroupRequest → HostedGroup → Bool → Result (Unit {0})
unfolding require_open_join require_adder
require_admission host context group is_join =
    if is_join then require_open_join group.policy else require_adder host context group

unfoldable pub joiner : World → HostDb → GroupRequest → Result Entrant
unfolding optional_binding
joiner world host context = do
  binding ←
      optional_binding world host (get context.body "member_handle") "group.member_handle_invalid"
  raise_if (is_bound_elsewhere binding context.sender_did)
      (unauthorized "group.handle_did_mismatch")
  ok (record {
    did = did_or binding context.sender_did;
    binding = binding;
    role = "member";
    added_by = none;
  })

-- The DID of a member that is named by a DID or by a handle.
unfoldable pub member_did_of : MaybeBinding → Value → String → Result String
unfolding require_string
member_did_of none value message = require_string value message
member_did_of (some binding) value message = ok binding.did

abbrev pub role_text : Value → String
role_text (str text) = text
role_text _ = ""

unfoldable pub addee : World → HostDb → GroupRequest → Result Entrant
unfolding optional_binding member_did_of in_set
addee world host context = do
  let member_did = get context.body "member_did"
  let member_handle = get context.body "member_handle"
  raise_if
      ((is_null member_did && is_null member_handle)
        || (not (is_null member_did) && not (is_null member_handle)))
      (invalid_params "group.member_identifier_ambiguous")
  binding ← optional_binding world host member_handle "group.member_handle_invalid"
  did ← member_did_of binding member_did "group.member_did_required"
  let role = get_or context.body "role" (str "member")
  known ← in_set role roles
  raise_if (not known) (invalid_params "group.role_invalid")
  ok (record {
    did = did;
    binding = binding;
    role = role_text role;
    added_by = some context.sender_did;
  })

abbrev pub entrant_row : World → String → Entrant → String → HostedMember
entrant_row world group_did entrant home = record {
  group_did = group_did;
  agent_did = entrant.did;
  member_handle = handle_of entrant.binding;
  handle_binding_generation = generation_of entrant.binding;
  home_service_did = some home;
  role = entrant.role;
  status = active;
  joined_at = world.now;
  ended_at = none;
  added_by = entrant.added_by;
}

abbrev pub same_handle : Option String → Option String → Bool
same_handle none other = false
same_handle (some handle) none = false
same_handle (some handle) (some other) = handle == other

-- Another row of the group that has the handle: UNIQUE(group_did, member_handle).
abbrev pub holds_handle : HostedMember → HostedMember → Bool
holds_handle row m =
    m.group_did == row.group_did
    && not (m.agent_did == row.agent_did)
    && same_handle row.member_handle m.member_handle

-- INSERT INTO hosted_group_members … ON CONFLICT(group_did, agent_did) DO UPDATE
unfoldable pub put_member : HostedMember → HostDb → Result HostDb
unfolding upsert set_members
put_member row host =
    raise_if (any (holds_handle row) host.db.hosted_group_members) (python_error "IntegrityError")
    >> ok (
        set_members
          (upsert (is_row row.group_did row.agent_did) (λ m. row) row host.db.hosted_group_members)
          host)

-- int(policy["max_members"]), which is at most `count`
abbrev pub is_full : ℕ → ℤ → Bool
is_full count (pos limit) = leb limit count
is_full count (negsuc n) = true

unfoldable pub member_limit_of : World → Value → Result ℤ
unfolding item int_of
member_limit_of world policy = do limit ← item policy "max_members"; int_of world.truncate limit

abbrev pub is_active_option : Option HostedMember → Bool
is_active_option none = false
is_active_option (some m) = is_active m.status

-- Whether the entrant may become active, and then the table with the row.
unfoldable pub activate : World → HostDb → String → HostedGroup → Entrant → String → Result HostDb
unfolding active_count member_limit_of put_member ensure_outbox_capacity
activate world host group_did group entrant home = do
  raise_if
      (is_active_option (first_where (is_row group_did entrant.did) host.db.hosted_group_members))
      (conflict "group.member_already_active")
  limit ← member_limit_of world group.policy
  raise_if (is_full (active_count host group_did) limit) members_exceeded
  entered ← put_member (entrant_row world group_did entrant home) host
  ensure_outbox_capacity world.settings entered.db group_did true
  ok entered

abbrev pub with_binding : String → MaybeBinding → Fields → Fields
with_binding key none fields = fields
with_binding key (some binding) fields =
    put "handle_binding_generation" (str binding.binding_generation)
      (put key (str binding.handle) fields)

unfoldable pub entered_result : String → Entrant → ℕ → ℕ → Fields → Fields
entered_result group_did entrant version seq signed = with_binding "member_handle" entrant.binding (
    field "group_did" (str group_did) (
      field "member_did" (str entrant.did) (
        field "membership_status" (str "active") (
          field "role" (str entrant.role) (
            field "group_state_version" (str (show version)) (
              field "group_event_seq" (str (show seq))
                (field "group_receipt" (obj signed) end)))))))

unfoldable pub entered_event :
    World → GroupRequest → HostedGroup → Entrant → ℕ → ℕ → Fields → Fields
entered_event world context group entrant version seq signed =
    with_binding "subject_handle" entrant.binding (
      field "group_did" (str context.target_did) (
        field "event_type" (str "member-activated") (
          field "subject_method" (str context.method) (
            field "subject_did" (str entrant.did) (
              field "membership_status" (str "active") (
                field "role" (str entrant.role) (
                  field "group_profile" group.profile (
                    field "group_policy" group.policy (
                      field "group_state_version" (str (show version)) (
                        field "group_event_seq" (str (show seq)) (
                          field "changed_at" (str (world.time_text world.now)) (
                            field "actor_did" (str context.sender_did)
                              (field "group_receipt" (obj signed) end)))))))))))))

abbrev pub entered : World → GroupRequest → HostedGroup → Entrant → Change
entered world context group entrant = record {
  columns = λ g. g;
  event_type = "member-activated";
  sync_type = "group.member.activated";
  result = entered_result context.target_did entrant;
  event = entered_event world context group entrant;
  departed = none;
}

-- The second transaction: what the first found may have changed.
unfoldable pub enter :
    World → HostDb → GroupRequest → Bool → Entrant → String → Result (HostDb × Fields)
unfolding in_group require_admission activate commit_change entered_result entered_event
enter world host context is_join entrant home = in_group host context (λ group.
    require_admission host context group is_join
    >> (activate world host context.target_did group entrant home >>= λ admitted.
        commit_change world context context.target_did group (entered world context group entrant)
          admitted))

-- The first transaction, on the tables as it finds them.
unfoldable pub entrant_of : World → HostDb → GroupRequest → Bool → Result Entrant
unfolding joiner addee
entrant_of world host context is_join =
    if is_join then joiner world host context else addee world host context

-- What a first transaction comes to: a replayed result, or the entrant.
pub data Prepared : Type 0 where
  replayed : Fields → Prepared
  entrant : Entrant → Prepared

abbrev pub prepared : Option Fields → Result Entrant → Result Prepared
prepared none found = found >>= λ e. ok (entrant e)
prepared (some result) found = ok (replayed result)

unfoldable pub prepare : World → HostDb → GroupRequest → Bool → Result Prepared
unfolding group_row require_group_protocol replay require_admission entrant_of
prepare world host context is_join = do
  group ← group_row host context.target_did (some context.profile) false
  require_group_protocol group (some context.profile) true
  stored ← replay host context context.target_did
  prepared stored
      (require_admission host context group is_join >> entrant_of world host context is_join)

unfoldable pub enter_prepared :
    World → HostDb → GroupRequest → Bool → Prepared → Result (HostDb × Fields)
unfolding home_service_did enter
enter_prepared world host context is_join (replayed result) = ok (host, result)
enter_prepared world host context is_join (entrant e) =
    home_service_did world e.did >>= λ home. enter world host context is_join e home

-- membership_mutation: `earlier` is what the first transaction reads, before other requests may
-- have changed the tables to `host`.
unfoldable pub membership_mutation :
    World → Caller → Fields → Bool → HostDb → HostDb → Result (HostDb × Fields)
unfolding request_context prepare enter_prepared
membership_mutation world caller params is_join earlier host = do
  context ← request_context caller params (if is_join then "group.join" else "group.add") "group"
  found ← prepare world earlier context is_join
  enter_prepared world host context is_join found

unfoldable pub hosted_group_join :
    World → Caller → Fields → HostDb → HostDb → Result (HostDb × Fields)
unfolding membership_mutation
hosted_group_join world caller params = membership_mutation world caller params true

unfoldable pub hosted_group_add :
    World → Caller → Fields → HostDb → HostDb → Result (HostDb × Fields)
unfolding membership_mutation
hosted_group_add world caller params = membership_mutation world caller params false
