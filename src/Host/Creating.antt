-- ===== src/Host/Creating.antt =====
-- messaging/groups/service.py: group.create. The identity of the new group and the file of its key
-- are parameters; that a failure removes the file again is not modelled.
use awiki_open_server.Shared.{
  ℕ, ◌+◌, String, Bool, true, false, not, ◌&&◌, ◌||◌, Option, none, some, List, [], ◌∷◌, ◌++◌, map,
  ltb, ◌==◌, Result, ok, conflict, unauthorized, invalid_params, python_error, raise_if, ◌>>=◌,
  ◌>>◌,
}
use awiki_open_server.Shared.Lists.{any, length}
use awiki_open_server.Shared.Python.{ℤ, pos, negsuc, in_set, int_of}
use awiki_open_server.Shared.Json.{
  Value, Fields, str, obj, arr, nil, end, field, get, contains, is_dict, is_null, entries,
}
use awiki_open_server.Storage.{HostedGroup, HostedMember, active}
use awiki_open_server.Operations.{GroupRequest, store_operation}
use awiki_open_server.Policy.{roles, members_exceeded, validate_policy, validate_profile}
use awiki_open_server.Protocol.{Caller, request_context, get_or, is_list, items_of}
use awiki_open_server.Host.Tables.{HostDb, World, GroupDocument, DidDocument}
use awiki_open_server.Host.Snapshots.{sync_active_members}
use awiki_open_server.Host.Projections.{refresh_hosted_local_projections}
use awiki_open_server.Host.Handles.{home_service_did, optional_binding}
use awiki_open_server.Host.Joining.{
  MaybeBinding, handle_of, generation_of, is_bound_elsewhere, member_did_of, role_text,
  with_binding,
}
use awiki_open_server.Host.Changes.{receipt, write_event, event_row, replay, unless_replayed}

-- generate_group_identity and persist_group_private_key
pub record Identity : Type 0 where
  pub group_did : String
  pub document : Value
  pub key_path : String

pub record Initial : Type 0 where
  pub did : String
  pub binding : MaybeBinding
  pub role : String
  pub home : String

abbrev add_handle : MaybeBinding → List String → List String
add_handle none handles = handles
add_handle (some binding) handles = binding.handle ∷ handles

abbrev is_seen_handle : MaybeBinding → List String → Bool
is_seen_handle none handles = false
is_seen_handle (some binding) handles = contains handles binding.handle

unfoldable initial_member : World → HostDb → List String → List String → Value → Result Initial
unfolding optional_binding member_did_of in_set home_service_did
initial_member world host dids handles item = do
  let fields = entries item
  raise_if (not (is_dict item)) (invalid_params "group.initial_member_invalid")
  let member_did = get fields "member_did"
  let member_handle = get fields "member_handle"
  raise_if
      ((is_null member_did && is_null member_handle)
        || (not (is_null member_did) && not (is_null member_handle)))
      (invalid_params "group.member_identifier_ambiguous")
  binding ← optional_binding world host member_handle "group.member_handle_invalid"
  did ← member_did_of binding member_did "group.member_did_required"
  let role = get_or fields "role" (str "member")
  known ← in_set role roles
  raise_if (not known) (invalid_params "group.role_invalid")
  raise_if (contains dids did || is_seen_handle binding handles)
      (conflict "group.initial_member_duplicate")
  home ← home_service_did world did
  ok (record { did = did; binding = binding; role = role_text role; home = home })

-- The loop over the members, with the DIDs and handles that came before.
unfoldable pub prepare_members :
    World → HostDb → List String → List String → List Value → Result (List Initial)
unfolding initial_member
prepare_members world host dids handles [] = ok []
prepare_members world host dids handles (item ∷ rest) = do
  m ← initial_member world host dids handles item
  more ← prepare_members world host (m.did ∷ dids) (add_handle m.binding handles) rest
  ok (m ∷ more)

-- What a group starts from.
pub record Founding : Type 0 where
  pub profile : Fields
  pub policy : Fields
  pub creator : MaybeBinding
  pub members : List Initial

abbrev exceeds : ℕ → ℤ → Bool
exceeds count (pos limit) = ltb limit count
exceeds count (negsuc n) = true

unfoldable creator_of : World → HostDb → GroupRequest → Result MaybeBinding
unfolding optional_binding
creator_of world host context = do
  creator ←
      optional_binding world host (get context.body "creator_handle") "group.creator_handle_invalid"
  raise_if (is_bound_elsewhere creator context.sender_did)
      (unauthorized "group.creator_handle_did_mismatch")
  ok creator

unfoldable initial_members :
    World → HostDb → GroupRequest → MaybeBinding → Value → Result (List Initial)
unfolding prepare_members
initial_members world host context creator listed =
    prepare_members world host (context.sender_did ∷ []) (add_handle creator []) (items_of listed)

unfoldable pub founding_of : World → HostDb → GroupRequest → Result Founding
unfolding validate_profile validate_policy creator_of initial_members int_of
founding_of world host context = do
  profile ← validate_profile (get_or context.body "group_profile" (obj end))
  policy ← validate_policy world.truncate (get context.body "group_policy")
  let listed = get_or context.body "initial_members" (arr nil)
  raise_if (not (is_list listed)) (invalid_params "group.initial_members_invalid")
  creator ← creator_of world host context
  members ← initial_members world host context creator listed
  limit ← int_of world.truncate (get policy "max_members")
  raise_if (exceeds (length members + 1) limit) members_exceeded
  ok (record { profile = profile; policy = policy; creator = creator; members = members })

unfoldable pub founded_group : World → GroupRequest → Founding → String → HostedGroup
founded_group world context founding group_did = record {
  group_did = group_did;
  host_service_did = world.settings.service_did;
  creator_did = context.sender_did;
  profile = obj founding.profile;
  policy = obj founding.policy;
  group_state_version = 1;
  group_event_seq = 1;
  created_at = world.now;
  updated_at = world.now;
  wire_profile = context.profile;
  protocol_state = "active";
}

abbrev pub owner_row : World → GroupRequest → MaybeBinding → String → HostedMember
owner_row world context creator group_did = record {
  group_did = group_did;
  agent_did = context.sender_did;
  member_handle = handle_of creator;
  handle_binding_generation = generation_of creator;
  home_service_did = some world.settings.service_did;
  role = "owner";
  status = active;
  joined_at = world.now;
  ended_at = none;
  added_by = none;
}

abbrev pub initial_row : World → GroupRequest → String → Initial → HostedMember
initial_row world context group_did m = record {
  group_did = group_did;
  agent_did = m.did;
  member_handle = handle_of m.binding;
  handle_binding_generation = generation_of m.binding;
  home_service_did = some m.home;
  role = m.role;
  status = active;
  joined_at = world.now;
  ended_at = none;
  added_by = some context.sender_did;
}

-- The rows of a new group. Its DID is new to the tables that have it as key; by the foreign key a
-- group that is not there has no members.
unfoldable pub insert_group : World → GroupRequest → Founding → Identity → HostDb → Result HostDb
unfolding founded_group
insert_group world context founding identity host =
    raise_if
      (any (λ (g : HostedGroup). g.group_did == identity.group_did) host.db.hosted_groups
        || any (λ (m : HostedMember). m.group_did == identity.group_did)
            host.db.hosted_group_members
        || any (λ (d : GroupDocument). d.group_did == identity.group_did) host.group_did_documents
        || any (λ (d : DidDocument). d.did == identity.group_did) host.did_documents)
      (python_error "IntegrityError")
    >> ok (record host {
      db = record host.db {
        hosted_groups =
            host.db.hosted_groups ++ founded_group world context founding identity.group_did ∷ [];
        hosted_group_members =
            host.db.hosted_group_members
            ++ owner_row world context founding.creator identity.group_did
              ∷ map (initial_row world context identity.group_did) founding.members;
      };
      group_did_documents =
          host.group_did_documents
          ++ record {
            group_did = identity.group_did;
            document = identity.document;
            key_reference = identity.key_path;
            created_at = world.now;
          }
            ∷ [];
      did_documents =
          host.did_documents
          ++ record {
            did = identity.group_did;
            document = identity.document;
            updated_at = world.now;
            is_active = true;
            is_revoked = false;
          }
            ∷ [];
    })

unfoldable pub created_result : World → GroupRequest → Founding → String → Fields → Fields
created_result world context founding group_did signed =
    with_binding "creator_handle" founding.creator (
      field "group_did" (str group_did) (
        field "group_state_version" (str "1") (
          field "group_event_seq" (str "1") (
            field "created_at" (str (world.time_text world.now)) (
              field "creator_did" (str context.sender_did) (
                field "group_profile" (obj founding.profile) (
                  field "group_policy" (obj founding.policy)
                    (field "group_receipt" (obj signed) end))))))))

-- The second transaction.
unfoldable pub establish_group :
    World → HostDb → GroupRequest → Founding → Identity → Result (HostDb × Fields)
unfolding insert_group receipt write_event event_row store_operation sync_active_members
    refresh_hosted_local_projections created_result
establish_group world host context founding identity = do
  let did = identity.group_did
  inserted ← insert_group world context founding identity host
  signed ← receipt world inserted context did 1 1 none
  written ←
      write_event
        (event_row world context did 1 1 "group-created"
          (field "group_did" (str did) (field "creator_did" (str context.sender_did) end)) signed)
        inserted
  stored ←
      store_operation context world.settings.service_did
        (created_result world context founding did signed) world.now written.group_operations
  let synced =
      sync_active_members world did "group.created" (field "group_did" (str did) end)
        (record written { group_operations = stored.0 })
  ok (refresh_hosted_local_projections world did world.now synced, stored.1)

-- Only an agent of this service creates a group here, and not through the public path.
unfoldable pub require_local : World → Caller → GroupRequest → Result (Unit {0})
require_local world caller context = do
  raise_if (not (context.target_did == world.settings.service_did))
      (invalid_params "group.target_service_mismatch")
  raise_if (caller.is_public || not (world.belongs_to_domain context.sender_did))
      (unauthorized "group.remote_create_not_allowed")

-- A first replay is looked up before the identity is made, and a second in the transaction.
unfoldable pub create_on :
    World
    → GroupRequest
    → Founding
    → Result Identity
    → Option Fields
    → HostDb
    → Result (HostDb × Fields)
unfolding replay establish_group
create_on world context founding made stored host = unless_replayed host stored (do
  identity ← made
  again ← replay host context world.settings.service_did
  unless_replayed host again (establish_group world host context founding identity))

unfoldable pub hosted_group_create :
    World
    → Caller
    → Fields
    → (String → Result Identity)
    → HostDb
    → HostDb
    → Result (HostDb × Fields)
unfolding request_context require_local founding_of replay create_on
hosted_group_create world caller params generate earlier host = do
  context ← request_context caller params "group.create" "service"
  require_local world caller context
  founding ← founding_of world earlier context
  stored ← replay earlier context world.settings.service_did
  create_on world context founding (generate context.profile) stored host
