-- ===== src/Hosting/Authority.antt =====
-- messaging/groups/service.py: whoever changes a group beyond the own membership has the permission.
use awiki_open_server.Shared.{String, ◌≡◌, refl, true, false, some, ◌⊎◌, inl, inr, ok, >>=-eq-ok}
use awiki_open_server.Shared.Json.{Fields}
use awiki_open_server.Storage.{HostedGroup, HostedMember}
use awiki_open_server.Delivery.{find_group}
use awiki_open_server.Operations.{GroupRequest}
use awiki_open_server.Policy.{require_permission}
use awiki_open_server.Protocol.{Caller, request_context}
use awiki_open_server.Protocol.Admitted.{IsAdmitted, request_context-IsAdmitted}
use awiki_open_server.Host.{
  HostDb, World, active_member, require_adder, require_admission, hosted_group_add,
  hosted_group_remove, hosted_group_update_profile, hosted_group_update_policy,
}
use awiki_open_server.Hosting.Core.{core}
use awiki_open_server.Hosting.Members.{active_row, active_member_inv}
use awiki_open_server.Hosting.Steps.{IsReplayed}
use awiki_open_server.Hosting.Requests.{Kind, method_of, handle, first_tables}
use awiki_open_server.Hosting.Confined.{
  IsConfined, entered-IsConfined, ended-IsConfined, updated-IsConfined, taken-IsConfined,
}
use awiki_open_server.Hosting.Inverted.{
  membership_mutation_inv, end_membership_inv, update_group_inv, hosted_group_send_inv,
}

-- The requests that a permission guards.
pub data Guarded : Type 0 where
  add remove update_profile update_policy send : Guarded

abbrev pub permission : Guarded → String
permission add = "add"
permission remove = "remove"
permission update_profile = "update_profile"
permission update_policy = "update_policy"
permission send = "send"

abbrev pub kind_of : Guarded → Kind
kind_of add = Kind.add
kind_of remove = Kind.remove
kind_of update_profile = Kind.update_profile
kind_of update_policy = Kind.update_policy
kind_of send = Kind.send

-- The request is the one of the parameters, and was admitted, which takes the proof of its sender. Its
-- sender is an active member of the group that it is for and has the permission there, and nothing of
-- another group changed.
pub record IsPermitted (q : Guarded) (caller : Caller) (params : Fields) (before after : HostDb)
    : Type 0 where
  pub context : GroupRequest
  pub is_request : request_context caller params (method_of (kind_of q)) "group" ≡ ok context
  pub admitted : IsAdmitted caller (method_of (kind_of q)) "group" context
  pub group : HostedGroup
  pub is_group : find_group before.db context.target_did ≡ some group
  pub actor : HostedMember
  pub is_member : active_row before context.target_did context.sender_did ≡ some actor
  pub may : require_permission group.policy actor.role (permission q) ≡ ok tt
  pub is_confined : IsConfined context.target_did (core before) (core after)

require_adder_inv :
    (host : HostDb) (context : GroupRequest) (group : HostedGroup)
    → require_adder host context group ≡ ok tt
    → (actor : HostedMember) × (active_row host context.target_did context.sender_did ≡ some actor)
      × (require_permission group.policy actor.role "add" ≡ ok tt)
unfolding require_adder
require_adder_inv host context group h =
    let (actor, e, h1) =
      >>=-eq-ok (active_member host context.target_did context.sender_did) _ tt h in
    (actor, active_member_inv host context.target_did context.sender_did actor e, h1)

-- A request to add or remove a member, to update the profile or the policy, or to send a message,
-- which succeeds, is replayed with the result stored for it and changes nothing, or was admitted with
-- the proof of its sender, who is an active member of the group that the request is for and has the
-- permission for it under the policy of that group, and changes no group, member, event or message of
-- another group.
pub handle-IsPermitted :
    (q : Guarded) (world : World) (caller : Caller) (params : Fields)
    (earlier before after : HostDb) (r : Fields)
    → handle (kind_of q) world caller params earlier before ≡ ok (after, r)
    → IsReplayed caller params
        (method_of (kind_of q))
        (first_tables (kind_of q) earlier before)
        before
        after
        r
      ⊎ IsPermitted q caller params before after
unfolding hosted_group_add hosted_group_remove hosted_group_update_profile
    hosted_group_update_policy require_admission
handle-IsPermitted add world caller params earlier before after r h =
    elim (membership_mutation_inv world caller params false earlier before after r h) [
      | inl same ↦ inl same
      | inr (context, e, k, asked) ↦
          let (actor, acts, may) = require_adder_inv before context k.group k.admitted in
          inr (record {
            context = context;
            is_request = e;
            admitted = request_context-IsAdmitted caller params "group.add" "group" context e;
            group = k.group;
            is_group = k.opened.found;
            actor = actor;
            is_member = acts;
            may = may;
            is_confined = entered-IsConfined world context before after r false k;
          })
    ]
handle-IsPermitted remove world caller params earlier before after r h =
    elim (end_membership_inv world caller params false before after r h) [
      | inl same ↦ inl same
      | inr (context, e, k) ↦ inr (record {
        context = context;
        is_request = e;
        admitted = request_context-IsAdmitted caller params "group.remove" "group" context e;
        group = k.group;
        is_group = k.opened.found;
        actor = k.ending.actor;
        is_member = k.ending.acts;
        may = k.ending.may refl;
        is_confined = ended-IsConfined world context before after r false k;
      })
    ]
handle-IsPermitted update_profile world caller params earlier before after r h =
    elim (update_group_inv world caller params true before after r h) [
      | inl same ↦ inl same
      | inr (context, e, k) ↦ inr (record {
        context = context;
        is_request = e;
        admitted =
            request_context-IsAdmitted caller params "group.update_profile" "group" context e;
        group = k.group;
        is_group = k.opened.found;
        actor = k.actor;
        is_member = k.acts;
        may = k.may;
        is_confined = updated-IsConfined world context before after r true k;
      })
    ]
handle-IsPermitted update_policy world caller params earlier before after r h =
    elim (update_group_inv world caller params false before after r h) [
      | inl same ↦ inl same
      | inr (context, e, k) ↦ inr (record {
        context = context;
        is_request = e;
        admitted = request_context-IsAdmitted caller params "group.update_policy" "group" context e;
        group = k.group;
        is_group = k.opened.found;
        actor = k.actor;
        is_member = k.acts;
        may = k.may;
        is_confined = updated-IsConfined world context before after r false k;
      })
    ]
handle-IsPermitted send world caller params earlier before after r h =
    elim (hosted_group_send_inv world caller params before after r h) [
      | inl same ↦ inl same
      | inr (context, e, k) ↦ inr (record {
        context = context;
        is_request = e;
        admitted = request_context-IsAdmitted caller params "group.send" "group" context e;
        group = k.group;
        is_group = k.opened.found;
        actor = k.actor;
        is_member = k.acts;
        may = k.may;
        is_confined = taken-IsConfined world context before after r k;
      })
    ]
