-- ===== src/Host/Projections.antt =====
-- messaging/groups/projection.py: the views of a group that the server keeps for its members on this
-- service, and for members of a group on another service.
use Prim.Native.String
use text.Mathlib.Text.{is_lt}
use awiki_open_server.Shared.{
  ℕ, String, Bool, false, not, ◌&&◌, ◌||◌, Option, none, some, List, [], ◌∷◌, ◌++◌, if◌then◌else◌,
  ltb, nat_eq, ◌==◌,
}
use awiki_open_server.Shared.Lists.{any}
use awiki_open_server.Shared.Table.{select_where, update_where, order_by}
use awiki_open_server.Storage.{HostedGroup, HostedMember, is_active}
use awiki_open_server.Delivery.{find_group}
use awiki_open_server.Host.Tables.{
  HostDb, World, GroupView, MemberView, MessageView, HostedMessage, upsert,
}
use awiki_open_server.Host.Snapshots.{status_text}

-- ORDER BY joined_at, agent_did
abbrev pub by_joined : HostedMember → HostedMember → Bool
by_joined a b =
    ltb a.joined_at b.joined_at
    || (nat_eq a.joined_at b.joined_at && is_lt (String.compare a.agent_did b.agent_did))

abbrev pub is_at_home : World → HostedMember → Bool
is_at_home world m = is_home m.home_service_did
  where
    is_home : Option String → Bool
    is_home none = false
    is_home (some home) = home == world.settings.service_did

abbrev pub is_view : String → String → GroupView → Bool
is_view owner group_did v = v.owner_did == owner && v.group_did == group_did

abbrev pub is_member_view : String → String → String → MemberView → Bool
is_member_view owner group_did agent_did v =
    v.owner_did == owner && v.group_did == group_did && v.agent_did == agent_did

unfoldable pub hosted_view : HostedGroup → HostedMember → ℕ → GroupView
hosted_view g owner updated_at = record {
  owner_did = owner.agent_did;
  group_did = g.group_did;
  host_service_did = g.host_service_did;
  profile = g.profile;
  policy = g.policy;
  group_state_version = g.group_state_version;
  group_event_seq = g.group_event_seq;
  member_role = owner.role;
  membership_status = status_text owner.status;
  updated_at = updated_at;
  wire_profile = g.wire_profile;
  observed_event_seq = 0;
  observed_state_version = 0;
}

-- DO UPDATE SET …, and the wire_profile by the statement behind it
unfoldable pub refreshed_view : GroupView → GroupView → GroupView
refreshed_view row v = record v {
  host_service_did = row.host_service_did;
  profile = row.profile;
  policy = row.policy;
  group_state_version = row.group_state_version;
  group_event_seq = row.group_event_seq;
  member_role = row.member_role;
  membership_status = row.membership_status;
  updated_at = row.updated_at;
  wire_profile = row.wire_profile;
}

unfoldable pub put_view : GroupView → List GroupView → List GroupView
unfolding upsert refreshed_view
put_view row views = upsert (is_view row.owner_did row.group_did) (refreshed_view row) row views

unfoldable pub member_view : String → String → ℕ → HostedMember → MemberView
member_view owner group_did updated_at m = record {
  owner_did = owner;
  group_did = group_did;
  agent_did = m.agent_did;
  member_handle = m.member_handle;
  handle_binding_generation = m.handle_binding_generation;
  role = m.role;
  status = status_text m.status;
  joined_at = some m.joined_at;
  updated_at = updated_at;
}

-- DO UPDATE SET every column beyond the key
unfoldable pub put_member_view : MemberView → List MemberView → List MemberView
unfolding upsert
put_member_view row views =
    upsert (is_member_view row.owner_did row.group_did row.agent_did) (λ v. row) row views

unfoldable pub put_member_views :
    String → String → ℕ → List HostedMember → List MemberView → List MemberView
unfolding put_member_view member_view
put_member_views owner group_did updated_at [] views = views
put_member_views owner group_did updated_at (m ∷ rest) views =
    put_member_views owner group_did updated_at rest
      (put_member_view (member_view owner group_did updated_at m) views)

-- The loop over the active members at home.
unfoldable pub refresh_each :
    HostedGroup → List HostedMember → ℕ → List HostedMember → HostDb → HostDb
unfolding put_view hosted_view put_member_views
refresh_each g members updated_at [] host = host
refresh_each g members updated_at (owner ∷ rest) host =
    refresh_each g members updated_at rest (record host {
      group_views = put_view (hosted_view g owner updated_at) host.group_views;
      group_member_views =
          put_member_views owner.agent_did g.group_did updated_at members host.group_member_views;
    })

-- The owners who are no longer among the active members.
abbrev pub is_lost : World → String → List HostedMember → GroupView → Bool
is_lost world group_did local v =
    v.group_did == group_did
    && v.host_service_did == world.settings.service_did
    && not (any (λ (m : HostedMember). m.agent_did == v.owner_did) local)

unfoldable pub refresh_group : World → ℕ → HostDb → HostedGroup → HostDb
unfolding refresh_each
refresh_group world updated_at host g =
    let members = order_by by_joined (
      select_where (λ (m : HostedMember). m.group_did == g.group_did)
        host.db.hosted_group_members) in
    let local = select_where (λ m. is_active m.status && is_at_home world m) members in
    let refreshed = refresh_each g members updated_at local host in
    record refreshed {
      group_views =
          update_where (is_lost world g.group_did local)
            (λ v. record v { membership_status = "inactive"; updated_at = updated_at })
            refreshed.group_views;
    }

abbrev pub refresh_found : World → ℕ → HostDb → Option HostedGroup → HostDb
refresh_found world updated_at host none = host
refresh_found world updated_at host (some g) = refresh_group world updated_at host g

unfoldable pub refresh_hosted_local_projections : World → String → ℕ → HostDb → HostDb
unfolding refresh_group find_group
refresh_hosted_local_projections world group_did updated_at host =
    refresh_found world updated_at host (find_group host.db group_did)

-- The primary key and the UNIQUE constraint of group_message_views.
abbrev same_message : MessageView → MessageView → Bool
same_message row v =
    v.owner_did == row.owner_did
    && v.group_did == row.group_did
    && (v.message_id == row.message_id || nat_eq v.group_event_seq row.group_event_seq)

-- INSERT OR IGNORE
unfoldable pub put_message_view : MessageView → List MessageView → List MessageView
put_message_view row views = if any (same_message row) views then views else views ++ row ∷ []

unfoldable pub message_view : String → ℕ → HostedMessage → String → MessageView
message_view wire_profile state_version message owner = record {
  owner_did = owner;
  group_did = message.group_did;
  message_id = message.message_id;
  group_event_seq = message.group_event_seq;
  group_state_version = state_version;
  sender_did = message.sender_did;
  operation_id = message.operation_id;
  content_type = message.content_type;
  body = message.body;
  receipt = message.receipt;
  accepted_at = message.created_at;
  wire_profile = wire_profile;
}

unfoldable pub project_each :
    String → ℕ → HostedMessage → List HostedMember → List MessageView → List MessageView
unfolding put_message_view message_view
project_each wire_profile state_version message [] views = views
project_each wire_profile state_version message (m ∷ rest) views =
    project_each wire_profile state_version message rest
      (put_message_view (message_view wire_profile state_version message m.agent_did) views)

-- (SELECT wire_profile …) is NULL without a group, and OR IGNORE then leaves the row out.
abbrev pub project_found : World → ℕ → HostedMessage → HostDb → Option HostedGroup → HostDb
project_found world state_version message host none = host
project_found world state_version message host (some g) =
    let owners =
      select_where
        (λ (m : HostedMember).
          m.group_did == message.group_did && is_active m.status && is_at_home world m)
        host.db.hosted_group_members in
    record host {
      group_message_views =
          project_each g.wire_profile state_version message owners host.group_message_views;
    }

unfoldable pub project_hosted_message : World → ℕ → HostedMessage → HostDb → HostDb
unfolding project_each find_group
project_hosted_message world state_version message host =
    project_found world state_version message host (find_group host.db message.group_did)
