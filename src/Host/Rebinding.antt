-- ===== src/Host/Rebinding.antt =====
-- messaging/groups/service.py: group.rebind_member, which gives a membership to the new DID of its
-- handle.
use awiki_open_server.Shared.{
  ℕ, String, Bool, true, not, ◌&&◌, Option, none, some, ◌==◌, Result, ok, err, unauthorized,
  conflict, not_found, invalid_params, python_error, raise_if, ◌>>=◌, ◌>>◌,
}
use awiki_open_server.Shared.Lists.{any}
use awiki_open_server.Shared.Decimal.{show}
use awiki_open_server.Shared.Table.{first_where, update_where}
use awiki_open_server.Shared.Json.{Fields, str, obj, end, field, get}
use awiki_open_server.Storage.{HostedGroup, HostedMember}
use awiki_open_server.Delivery.{ensure_outbox_capacity}
use awiki_open_server.Operations.{GroupRequest}
use awiki_open_server.Protocol.{Caller, request_context, require_string}
use awiki_open_server.Host.Tables.{HostDb, World, VerifiedHandleBinding}
use awiki_open_server.Host.Snapshots.{is_row}
use awiki_open_server.Host.Handles.{home_service_did, resolve_handle_binding}
use awiki_open_server.Host.Joining.{same_handle}
use awiki_open_server.Host.Changes.{Change, is_active_row, set_members, commit_change, in_group}

-- The handle as it was verified, the DID that had the membership, and the one that is to have it.
pub record Rebind : Type 0 where
  pub binding : VerifiedHandleBinding
  pub previous_did : String
  pub new_did : String

-- The texts of the body: the handle, the two DIDs and the generation.
unfoldable pub rebind_texts : Fields → Result (String × String × String × String)
unfolding require_string
rebind_texts body = do
  handle ← require_string (get body "member_handle") "group.member_handle_required"
  previous ← require_string (get body "previous_member_did") "group.previous_member_did_required"
  new_did ← require_string (get body "new_member_did") "group.new_member_did_required"
  generation ←
      require_string (get body "handle_binding_generation")
        "group.handle_binding_generation_required"
  ok (handle, previous, new_did, generation)

unfoldable pub rebinding_of : World → HostDb → GroupRequest → Result Rebind
unfolding rebind_texts resolve_handle_binding
rebinding_of world host context = do
  texts ← rebind_texts context.body
  raise_if (not (context.sender_did == texts.2)) (unauthorized "group.rebind_sender_mismatch")
  binding ← resolve_handle_binding world host texts.0
  raise_if (not (binding.did == texts.2)) (unauthorized "group.handle_did_mismatch")
  raise_if (not (binding.binding_generation == texts.3))
      (invalid_params "group.binding_generation_mismatch")
  ok (record { binding = binding; previous_did = texts.1; new_did = texts.2 })

-- The active row of the handle and the previous DID.
abbrev pub is_rebound : String → Rebind → HostedMember → Bool
is_rebound group_did r m =
    is_active_row group_did r.previous_did m && same_handle m.member_handle (some r.binding.handle)

abbrev pub previous_generation : Option HostedMember → Result String
previous_generation none = err (not_found "group.handle_member_not_found")
previous_generation (some m) = generation m.handle_binding_generation
  where
    generation : Option String → Result String
    generation none = err (invalid_params "group.did_only_member_cannot_rebind")
    generation (some text) = ok text

unfoldable pub check_rebinding : World → HostDb → String → Rebind → Result (Unit {0})
check_rebinding world host group_did r = do
  previous ← previous_generation (first_where (is_rebound group_did r) host.db.hosted_group_members)
  newer ← world.binding_generation_is_newer r.binding.binding_generation previous
  raise_if (not newer) (conflict "group.binding_generation_not_advanced")
  raise_if (any (is_active_row group_did r.new_did) host.db.hosted_group_members)
      (conflict "group.rebind_target_already_member")

-- The UPDATE of the row, which the primary key of the table refuses where the new DID has a row.
unfoldable pub rebind_member : String → Rebind → String → HostDb → Result HostDb
unfolding set_members
rebind_member group_did r home host =
    raise_if
      (not (r.new_did == r.previous_did)
        && any (is_row group_did r.new_did) host.db.hosted_group_members)
      (python_error "IntegrityError")
    >> ok (
        set_members
          (update_where (is_rebound group_did r)
            (λ m. record m {
              agent_did = r.new_did;
              handle_binding_generation = some r.binding.binding_generation;
              home_service_did = some home;
            })
            host.db.hosted_group_members)
          host)

unfoldable pub rebound_result : String → Rebind → ℕ → ℕ → Fields → Fields
rebound_result group_did r version seq signed = field "group_did" (str group_did) (
    field "member_handle" (str r.binding.handle) (
      field "previous_member_did" (str r.previous_did) (
        field "member_did" (str r.new_did) (
          field "handle_binding_generation" (str r.binding.binding_generation) (
            field "membership_status" (str "active") (
              field "group_state_version" (str (show version)) (
                field "group_event_seq" (str (show seq))
                  (field "group_receipt" (obj signed) end))))))))

unfoldable pub rebound_event : World → GroupRequest → Rebind → ℕ → ℕ → Fields → Fields
rebound_event world context r version seq signed = field "group_did" (str context.target_did) (
    field "event_type" (str "member-credential-rebound") (
      field "subject_method" (str context.method) (
        field "subject_handle" (str r.binding.handle) (
          field "previous_subject_did" (str r.previous_did) (
            field "subject_did" (str r.new_did) (
              field "handle_binding_generation" (str r.binding.binding_generation) (
                field "membership_status" (str "active") (
                  field "group_state_version" (str (show version)) (
                    field "group_event_seq" (str (show seq)) (
                      field "changed_at" (str (world.time_text world.now)) (
                        field "actor_did" (str context.sender_did)
                          (field "group_receipt" (obj signed) end))))))))))))

abbrev pub rebound : World → GroupRequest → Rebind → Change
rebound world context r = record {
  columns = λ g. g;
  event_type = "member-credential-rebound";
  sync_type = "group.member.credential_rebound";
  result = rebound_result context.target_did r;
  event = rebound_event world context r;
  departed = none;
}

unfoldable pub rebind_in_group :
    World → HostDb → GroupRequest → Rebind → String → HostedGroup → Result (HostDb × Fields)
unfolding check_rebinding rebind_member ensure_outbox_capacity commit_change rebound_result
    rebound_event
rebind_in_group world host context r home group = do
  check_rebinding world host context.target_did r
  after ← rebind_member context.target_did r home host
  ensure_outbox_capacity world.settings after.db context.target_did true
  commit_change world context context.target_did group (rebound world context r) after

-- The handle is resolved in a transaction of its own, on the tables `earlier`.
unfoldable pub hosted_group_rebind_member :
    World → Caller → Fields → HostDb → HostDb → Result (HostDb × Fields)
unfolding request_context rebinding_of home_service_did in_group rebind_in_group
hosted_group_rebind_member world caller params earlier host = do
  context ← request_context caller params "group.rebind_member" "group"
  r ← rebinding_of world earlier context
  home ← home_service_did world r.new_did
  in_group host context (rebind_in_group world host context r home)
