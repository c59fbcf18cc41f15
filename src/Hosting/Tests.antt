-- ===== src/Hosting/Tests.antt =====
-- The member of the sample leaves, and the owner sends a message.
use awiki_open_server.Shared.{
  String, ◌≤◌, ◌≡◌, refl, Result, ok, err, ℕ, List, [], ◌∷◌, ◌⊎◌, arith, python_error,
}
use awiki_open_server.Shared.Text.{is_space, is_blank, starts_with}
use awiki_open_server.Shared.Python.{in_set, item, int_of, catching}
use awiki_open_server.Shared.Decimal.{show}
use awiki_open_server.Shared.Json.{Fields, str, obj, end, field}
use awiki_open_server.Delivery.{
  is_elsewhere, remote_members, ensure_outbox_capacity, enqueue_each, departed_member,
  state_changed_targets, find_group, enqueue_state_changed, enqueue_incoming_message,
}
use awiki_open_server.Operations.{standard_v2_acceptance, operation_replay, store_operation}
use awiki_open_server.Policy.{
  role_level, require_permission, default_policy, max_members, validate_policy, checked_policy,
  check_security, check_permissions, has_other_role, limit_of,
}
use awiki_open_server.Policy.Validated.{IsPolicy, validate_policy-IsPolicy}
use awiki_open_server.Shared.Table.{count_where}
use awiki_open_server.Hosting.Bounded.{IsBounded, Run-IsBounded}
use awiki_open_server.Protocol.{
  has_any, structures, check_v2_fields, check_v2_members, validate_v2_shape, require_group_protocol,
  require_string, check_envelope, named_parties, verified_digest, checked_context, request_context,
}
use awiki_open_server.Host.{
  is_active_in, HostDb, World, upsert, user_exists, sync_each, sync_active_members, hosted_view,
  refreshed_view, put_view, member_view, put_member_view, put_member_views, refresh_each,
  refresh_group, refresh_hosted_local_projections, put_message_view, message_view, project_each,
  project_hosted_message, group_row, active_member, key_reference, receipt, write_event, event_row,
  set_group, set_members, tell_members, record_change, announce, commit_change, replay, in_group,
  ending_did, end_member, end_within_capacity, ended_result, ended_event, end_in_group,
  end_membership, hosted_group_leave, check_body, content_of, insert_message, sent_result,
  sent_event, sent_sync, record_message, deliver_message, send_in_group, hosted_group_send,
}
use awiki_open_server.Hosting.Core.{core}
use awiki_open_server.Hosting.Run.{Run, done, step, leaves, sends}
use awiki_open_server.Hosting.Order.{IsOrdered, Run-IsOrdered}
use awiki_open_server.Hosting.Keyed.{Keyed}
use awiki_open_server.Hosting.Requests.{leave}
use awiki_open_server.Hosting.Steps.{IsReplayed}
use awiki_open_server.Hosting.Asked.{IsAnswered, handle-IsAnswered}
use awiki_open_server.Hosting.Authority.{IsPermitted, send, handle-IsPermitted}
use awiki_open_server.Hosting.Repeated.{IsReplayOf, send_again}
use awiki_open_server.Hosting.Paging.{Climbing, behind, read_all, read_all_gets_rows}
use awiki_open_server.Hosting.Samples.{member, world, host, caller, params}

abbrev later : World
later = record world { now = 21; event_id = "gevt-2" }

abbrev leave_params : Fields
leave_params = params "did:wba:bob" end end

abbrev send_params : Fields
send_params =
    params "did:wba:ann"
      (field "message_id" (str "m-1") (field "content_type" (str "text/plain") end))
      (field "text" (str "hello") end)

abbrev made : Result (HostDb × Fields) → HostDb × Fields
made (ok r) = r
made (err e) = (host, end)

abbrev left : HostDb × Fields
unfolding is_space is_blank starts_with in_set item show is_elsewhere remote_members
    ensure_outbox_capacity enqueue_each find_group standard_v2_acceptance operation_replay
    store_operation role_level require_permission has_any structures check_v2_fields
    check_v2_members validate_v2_shape require_group_protocol require_string check_envelope
    named_parties verified_digest checked_context request_context upsert user_exists sync_each
    sync_active_members hosted_view refreshed_view put_view member_view put_member_view
    put_member_views refresh_each refresh_group refresh_hosted_local_projections group_row
    active_member key_reference receipt write_event event_row set_group replay in_group
    departed_member state_changed_targets enqueue_state_changed set_members tell_members
    record_change announce commit_change ending_did end_member end_within_capacity ended_result
    ended_event end_in_group end_membership hosted_group_leave
left = made (hosted_group_leave world (caller "did:wba:bob") leave_params host)

leaves_well :
    hosted_group_leave world (caller "did:wba:bob") leave_params host ≡ ok (left.0, left.1)
unfolding is_space is_blank starts_with in_set item show is_elsewhere remote_members
    ensure_outbox_capacity enqueue_each find_group standard_v2_acceptance operation_replay
    store_operation role_level require_permission has_any structures check_v2_fields
    check_v2_members validate_v2_shape require_group_protocol require_string check_envelope
    named_parties verified_digest checked_context request_context upsert user_exists sync_each
    sync_active_members hosted_view refreshed_view put_view member_view put_member_view
    put_member_views refresh_each refresh_group refresh_hosted_local_projections group_row
    active_member key_reference receipt write_event event_row set_group replay in_group
    departed_member state_changed_targets enqueue_state_changed set_members tell_members
    record_change announce commit_change ending_did end_member end_within_capacity ended_result
    ended_event end_in_group end_membership hosted_group_leave
leaves_well = refl

abbrev sent : HostDb × Fields
unfolding is_space is_blank starts_with in_set item show is_elsewhere remote_members
    ensure_outbox_capacity enqueue_each find_group standard_v2_acceptance operation_replay
    store_operation role_level require_permission has_any structures check_v2_fields
    check_v2_members validate_v2_shape require_group_protocol require_string check_envelope
    named_parties verified_digest checked_context request_context upsert user_exists sync_each
    sync_active_members hosted_view refreshed_view put_view member_view put_member_view
    put_member_views refresh_each refresh_group refresh_hosted_local_projections group_row
    active_member key_reference receipt write_event event_row set_group replay in_group
    departed_member state_changed_targets enqueue_state_changed set_members tell_members
    record_change announce commit_change ending_did end_member end_within_capacity ended_result
    ended_event end_in_group end_membership hosted_group_leave enqueue_incoming_message
    put_message_view message_view project_each project_hosted_message check_body content_of
    insert_message sent_result sent_event sent_sync record_message deliver_message send_in_group
    hosted_group_send
sent = made (hosted_group_send later (caller "did:wba:ann") send_params left.0)

sends_well : hosted_group_send later (caller "did:wba:ann") send_params left.0 ≡ ok (sent.0, sent.1)
unfolding is_space is_blank starts_with in_set item show is_elsewhere remote_members
    ensure_outbox_capacity enqueue_each find_group standard_v2_acceptance operation_replay
    store_operation role_level require_permission has_any structures check_v2_fields
    check_v2_members validate_v2_shape require_group_protocol require_string check_envelope
    named_parties verified_digest checked_context request_context upsert user_exists sync_each
    sync_active_members hosted_view refreshed_view put_view member_view put_member_view
    put_member_views refresh_each refresh_group refresh_hosted_local_projections group_row
    active_member key_reference receipt write_event event_row set_group replay in_group
    departed_member state_changed_targets enqueue_state_changed set_members tell_members
    record_change announce commit_change ending_did end_member end_within_capacity ended_result
    ended_event end_in_group end_membership hosted_group_leave enqueue_incoming_message
    put_message_view message_view project_each project_hosted_message check_body content_of
    insert_message sent_result sent_event sent_sync record_message deliver_message send_in_group
    hosted_group_send
sends_well = refl

-- A run of the two.
abbrev two_steps : Run host sent.0
two_steps =
    step (step done (leaves world (caller "did:wba:bob") leave_params left.1 leaves_well))
      (sends later (caller "did:wba:ann") send_params sent.1 sends_well)

ordered : IsOrdered (core host)
unfolding core
ordered = record { events = tt; messages = tt; events_ascend = tt; messages_ascend = tt }

Run-IsOrdered_example : IsOrdered (core sent.0)
Run-IsOrdered_example = Run-IsOrdered two_steps ordered

keyed : Keyed (core host).members
unfolding core
keyed = (refl, (refl, tt))

-- Bob leaves.
handle-IsAnswered_example :
    IsAnswered leave world (caller "did:wba:bob") leave_params host host left.0 left.1
    × Keyed (core left.0).members
handle-IsAnswered_example =
    handle-IsAnswered leave world (caller "did:wba:bob") leave_params host host left.0 left.1 keyed
      leaves_well

default_policy-IsPolicy : IsPolicy default_policy
unfolding validate_policy checked_policy check_security check_permissions has_other_role limit_of
    in_set int_of catching show is_space
default_policy-IsPolicy =
    validate_policy-IsPolicy (λ text. err (python_error "ValueError")) (obj default_policy)
      default_policy refl

bounded : IsBounded (core host)
unfolding core
bounded = record {
  keyed = keyed;
  policies = ((default_policy, refl, default_policy-IsPolicy), tt);
  counts = at_most;
}
  where
    at_most :
        (did : String)
        → count_where
            (is_active_in did)
            (member "did:wba:ann" "owner" ∷ member "did:wba:bob" "member" ∷ [])
          ≤ max_members
    at_most did = ground arith

Run-IsBounded_example : IsBounded (core sent.0)
Run-IsBounded_example = Run-IsBounded two_steps bounded

-- Ann sends.
handle-IsPermitted_example :
    IsReplayed (caller "did:wba:ann") send_params "group.send" left.0 left.0 sent.0 sent.1
    ⊎ IsPermitted send (caller "did:wba:ann") send_params left.0 sent.0
handle-IsPermitted_example =
    handle-IsPermitted send later (caller "did:wba:ann") send_params left.0 left.0 sent.0 sent.1
      sends_well

send_again_example :
    (replayed : Fields) × (hosted_group_send later (caller "did:wba:ann") send_params sent.0
      ≡ ok (sent.0, replayed))
    × ((sent.0 ≡ left.0) ⊎ IsReplayOf replayed sent.1)
send_again_example =
    send_again later (caller "did:wba:ann") send_params left.0 sent.0 sent.1 sends_well

-- Places of messages, read two at a time.
abbrev places : List ℕ
places = 2 ∷ 3 ∷ 5 ∷ 8 ∷ 9 ∷ []

climbs : Climbing (λ n. n) places
climbs = (
  (omega arith, (omega arith, (omega arith, (omega arith, tt)))),
  (
    (omega arith, (omega arith, (omega arith, tt))),
    ((omega arith, (omega arith, tt)), ((omega arith, tt), (tt, tt))),
  ),
)

read_all_gets_rows_example : read_all (λ n. n) 2 places 6 2 ≡ behind (λ n. n) 2 places
read_all_gets_rows_example = read_all_gets_rows (λ n. n) 1 6 2 places climbs (omega arith)
