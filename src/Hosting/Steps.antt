-- ===== src/Hosting/Steps.antt =====
-- messaging/groups/service.py: what each handler of the group host that succeeds has checked
-- and done.
use awiki_open_server.Shared.{◌+◌, String, ◌≡◌, Bool, false, not, ◌&&◌, some, ◌==◌, ok, ◌⊎◌}
use awiki_open_server.Shared.Lists.{any}
use awiki_open_server.Shared.Json.{Value, Fields}
use awiki_open_server.Storage.{HostedGroup, HostedMember}
use awiki_open_server.Delivery.{ensure_outbox_capacity}
use awiki_open_server.Operations.{GroupRequest}
use awiki_open_server.Policy.{require_permission}
use awiki_open_server.Protocol.{Caller, request_context}
use awiki_open_server.Host.{
  HostDb, World, replay, is_row, HostedMessage, Change, Content, Entrant, Rebind, require_admission,
  entered, ended, check_rebinding, rebound, permission_of, patched_value, updated, set_seq,
  set_versions,
}
use awiki_open_server.Hosting.Core.{core}
use awiki_open_server.Hosting.Effects.{IsChanged, IsSent}
use awiki_open_server.Hosting.Handlers.{IsOpened}
use awiki_open_server.Hosting.Members.{
  IsActivated, IsEnding, ended_members, rebound_members, with_members, active_row,
}

-- The change of a group by `make`, on the tables `mid` that its members were changed in.
abbrev pub IsMade : World → GroupRequest → HostedGroup → Change → HostDb → HostDb → Fields → Type 0
IsMade world context group make mid after r =
    IsChanged context context.target_did group
      (set_versions (group.group_state_version + 1) (group.group_event_seq + 1) world.now
        make.columns)
      (group.group_state_version + 1) (group.group_event_seq + 1) mid after r

-- group.join or group.add made an entrant active.
pub record IsEntered (world : World) (context : GroupRequest) (is_join : Bool)
    (before after : HostDb) (r : Fields) : Type 0 where
  pub group : HostedGroup
  pub opened : IsOpened before context group
  pub admitted : require_admission before context group is_join ≡ ok tt
  pub newcomer : Entrant
  pub home : String
  pub mid : HostDb
  pub activated : IsActivated world context.target_did group newcomer home before mid
  pub made : IsMade world context group (entered world context group newcomer) mid after r

-- group.leave or group.remove ended a membership.
pub record IsEnded (world : World) (context : GroupRequest) (is_leave : Bool)
    (before after : HostDb) (r : Fields) : Type 0 where
  pub group : HostedGroup
  pub opened : IsOpened before context group
  pub did : String
  pub ending : IsEnding before context group is_leave did
  pub mid : HostDb
  pub tables :
      core mid
      ≡ with_members
          (ended_members world context.target_did is_leave did before.db.hosted_group_members)
          (core before)
  pub made : IsMade world context group (ended world context is_leave did) mid after r

-- group.rebind_member gave a membership to another DID.
pub record IsRebound (world : World) (context : GroupRequest) (before after : HostDb) (r : Fields)
    : Type 0 where
  pub group : HostedGroup
  pub opened : IsOpened before context group
  pub rebind : Rebind
  pub home : String
  pub checked : check_rebinding world before context.target_did rebind ≡ ok tt
  pub mid : HostDb
  pub tables :
      core mid
      ≡ with_members
          (rebound_members context.target_did rebind home before.db.hosted_group_members)
          (core before)
  pub free :
      (not (rebind.new_did == rebind.previous_did)
        && any (is_row context.target_did rebind.new_did) before.db.hosted_group_members)
      ≡ false
  pub made : IsMade world context group (rebound world context rebind) mid after r

-- group.update_profile or group.update_policy patched a column.
pub record IsUpdated (world : World) (context : GroupRequest) (is_profile : Bool)
    (before after : HostDb) (r : Fields) : Type 0 where
  pub group : HostedGroup
  pub opened : IsOpened before context group
  pub actor : HostedMember
  pub acts : active_row before context.target_did context.sender_did ≡ some actor
  pub may : require_permission group.policy actor.role (permission_of is_profile) ≡ ok tt
  pub patch : Value
  pub value : Fields
  pub is_valid : patched_value world group is_profile patch ≡ ok value
  pub made : IsMade world context group (updated world context is_profile value) before after r

-- group.send took a message.
pub record IsTaken (world : World) (context : GroupRequest) (before after : HostDb) (r : Fields)
    : Type 0 where
  pub group : HostedGroup
  pub opened : IsOpened before context group
  pub actor : HostedMember
  pub acts : active_row before context.target_did context.sender_did ≡ some actor
  pub may : require_permission group.policy actor.role "send" ≡ ok tt
  pub capacity : ensure_outbox_capacity world.settings before.db context.target_did false ≡ ok tt
  pub content : Content
  pub is_new :
      any (λ (m : HostedMessage). m.message_id == content.message_id) before.hosted_group_messages
      ≡ false
  pub sent :
      IsSent context content group (set_seq (group.group_event_seq + 1) world.now) before after r

-- Nothing changed, and the result is the one that is stored for the request, in the tables of one of
-- the transactions of the handler.
pub record IsReplayed (caller : Caller) (params : Fields) (method : String)
    (earlier before after : HostDb) (r : Fields) : Type 0 where
  pub nothing : after ≡ before
  pub context : GroupRequest
  pub is_request : request_context caller params method "group" ≡ ok context
  pub stored :
      (replay earlier context context.target_did ≡ ok (some r))
      ⊎ (replay before context context.target_did ≡ ok (some r))
