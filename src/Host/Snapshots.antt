-- ===== src/Host/Snapshots.antt =====
-- messaging/sync_contract.py, group_snapshot, and the events of shared/runtime.py that tell the
-- members of a group on this service of its changes.
use Prim.Native.String
use Prim.Native.Char.{Char, code}
use awiki_open_server.Shared.{
  ℕ, suc, ◌+◌, String, Bool, true, false, not, ◌&&◌, Option, none, some, List, [], ◌∷◌, ◌++◌, max,
  if◌then◌else◌, nat_eq, ◌==◌,
}
use awiki_open_server.Shared.Lists.{any}
use awiki_open_server.Shared.Decimal.{show}
use awiki_open_server.Shared.Text.{starts_with}
use awiki_open_server.Shared.Table.{select_where, first_where, count_where}
use awiki_open_server.Shared.Json.{Value, Fields, str, null, get, put, dict}
use awiki_open_server.Storage.{
  HostedGroup, HostedMember, MemberStatus, active, left, removed, is_active,
}
use awiki_open_server.Delivery.{find_group}
use awiki_open_server.Host.Tables.{
  HostDb, World, GroupView, MemberView, LegacyGroup, LegacyMember, SyncEvent, User, DidDocument,
}

abbrev pub status_text : MemberStatus → String
status_text active = "active"
status_text left = "left"
status_text removed = "removed"

abbrev pub is_row : String → String → HostedMember → Bool
is_row group_did agent_did m = m.group_did == group_did && m.agent_did == agent_did

abbrev pub is_active_in : String → HostedMember → Bool
is_active_in group_did m = m.group_did == group_did && is_active m.status

abbrev pub active_count : HostDb → String → ℕ
active_count host group_did = count_where (is_active_in group_did) host.db.hosted_group_members

abbrev on_first : Char → List String → List String
on_first c [] = []
on_first c (piece ∷ rest) = (String.◌∷◌ c piece) ∷ rest

-- text.split(":")
unfoldable split_at_colon : String → List String
split_at_colon String.[] = "" ∷ []
split_at_colon (String.◌∷◌ c s) =
    let more = split_at_colon s in if nat_eq (code c) b':' then "" ∷ more else on_first c more

abbrev authority : String → List String → String
authority group_did (scheme ∷ method ∷ host ∷ rest) =
    if scheme == "did"
    then String.◌++◌ scheme (String.◌++◌ ":" (String.◌++◌ method (String.◌++◌ ":" host)))
    else group_did
authority group_did _ = group_did

-- `configured` is host_service_did, which may be None or empty.
unfoldable pub host_service_did_for_group : String → Option String → String
unfolding split_at_colon
host_service_did_for_group group_did none = authority group_did (split_at_colon group_did)
host_service_did_for_group group_did (some configured) =
    if configured == "" then authority group_did (split_at_colon group_did) else configured

-- value or default, of a column
abbrev or_default : Option String → String → String
or_default none default = default
or_default (some text) default = if text == "" then default else text

abbrev str_or_null : Option String → Value
str_or_null none = null
str_or_null (some text) = str text

abbrev role_of : Option HostedMember → Option String
role_of none = none
role_of (some m) = some m.role

abbrev status_of : Option HostedMember → Option String
status_of none = none
status_of (some m) = some (status_text m.status)

-- What the last statement of group_snapshot is given of a row.
unfoldable snapshot_of :
    String → String → Value → ℕ → ℕ → Value → Option String → Option String → ℕ → Value → Value
snapshot_of group_did host_did creator version seq profile role status count updated_at = dict (
    ("group_did", str group_did)
    ∷ ("host_service_did", str host_did)
    ∷ ("creator_did", creator)
    ∷ ("group_state_version", str (show version))
    ∷ ("group_event_seq", str (show seq))
    ∷ ("required_security_profile", str "transport-protected")
    ∷ ("group_profile", profile)
    ∷ ("member_role", str (or_default role "member"))
    ∷ ("membership_status", str (or_default status "removed"))
    ∷ ("member_count", str (show count))
    ∷ ("updated_at", updated_at)
    ∷ [])

module _ (world : World) (host : HostDb) (owner group_did : String) where
  unfoldable hosted_snapshot : HostedGroup → Value
  unfolding snapshot_of
  hosted_snapshot g =
      let member = first_where (is_row group_did owner) host.db.hosted_group_members in
      snapshot_of group_did g.host_service_did (str g.creator_did) g.group_state_version
        g.group_event_seq g.profile (role_of member) (status_of member)
        (active_count host group_did) (str (world.time_text g.updated_at))

  abbrev is_view_of : GroupView → Bool
  is_view_of v = v.owner_did == owner && v.group_did == group_did

  unfoldable viewed_snapshot : GroupView → Value
  unfolding snapshot_of
  viewed_snapshot v =
      let count =
        count_where
          (λ (m : MemberView).
            m.owner_did == owner && m.group_did == group_did && m.status == "active")
          host.group_member_views in
      snapshot_of group_did v.host_service_did null v.group_state_version v.group_event_seq
        v.profile (some v.member_role) (some v.membership_status) count
        (str (world.time_text v.updated_at))

  abbrev legacy_role : Option LegacyMember → Option String
  legacy_role none = none
  legacy_role (some m) = some m.role

  unfoldable legacy_snapshot : Option String → LegacyGroup → Value
  unfolding snapshot_of host_service_did_for_group
  legacy_snapshot configured g =
      let role = legacy_role (
        first_where (λ (m : LegacyMember). m.group_did == group_did && m.member_did == owner)
          host.group_members) in
      let count = count_where (λ (m : LegacyMember). m.group_did == group_did) host.group_members in
      let profile =
        dict (
          ("display_name", str g.display_name) ∷ ("description", str_or_null g.description) ∷ []) in
      snapshot_of group_did (host_service_did_for_group group_did configured) null 1 0 profile role
        (some (if or_default role "" == "" then "removed" else "active")) count
        (str (world.time_text g.created_at))

  abbrev legacy_case : Option String → Option LegacyGroup → Option Value
  legacy_case configured none = none
  legacy_case configured (some g) = some (legacy_snapshot configured g)

  abbrev viewed_case : Option String → Option GroupView → Option Value
  viewed_case configured none =
      legacy_case configured
        (first_where (λ (g : LegacyGroup). g.group_did == group_did) host.groups)
  viewed_case configured (some v) = some (viewed_snapshot v)

  abbrev hosted_case : Option String → Option HostedGroup → Option Value
  hosted_case configured none = viewed_case configured (first_where is_view_of host.group_views)
  hosted_case configured (some g) = some (hosted_snapshot g)

  unfoldable pub group_snapshot : Option String → Option Value
  unfolding hosted_snapshot viewed_snapshot legacy_snapshot find_group
  group_snapshot configured = hosted_case configured (find_group host.db group_did)

-- users u JOIN did_documents d ON d.did = u.did, of which neither is revoked
unfoldable pub user_exists : HostDb → String → Bool
user_exists host did =
    any (λ (u : User). u.did == did && not u.is_revoked) host.users
    && any (λ (d : DidDocument). d.did == did && d.is_active && not d.is_revoked) host.did_documents

-- SELECT COALESCE(MAX(event_seq), 0) + 1 … WHERE owner_did = ?
unfoldable pub next_sync_seq : String → List SyncEvent → ℕ
next_sync_seq owner events =
    highest (select_where (λ (e : SyncEvent). e.owner_did == owner) events) + 1
  where
    highest : List SyncEvent → ℕ
    highest [] = 0
    highest (e ∷ rest) = max e.event_seq (highest rest)

abbrev is_str : Value → Bool
is_str (str text) = true
is_str _ = false

abbrev text_at : Value → String
text_at (str text) = text
text_at _ = ""

abbrev with_snapshot : Option Value → Fields → Fields
with_snapshot none payload = payload
with_snapshot (some snapshot) payload = put "_sync_group" snapshot payload

-- The payload of an event of a group, with the snapshot of the group.
unfoldable pub sync_payload : World → HostDb → String → String → Fields → Fields
unfolding group_snapshot starts_with
sync_payload world host owner event_type payload =
    if starts_with event_type "group."
      && not (starts_with event_type "group.message.")
      && is_str (get payload "group_did")
    then with_snapshot (group_snapshot world host owner (text_at (get payload "group_did")) none)
        payload
    else payload

unfoldable pub add_sync_event : World → String → String → String → Fields → HostDb → HostDb
unfolding sync_payload next_sync_seq
add_sync_event world sync_id owner event_type payload host = record host {
  sync_events =
      host.sync_events
      ++ record {
        event_id = sync_id;
        owner_did = owner;
        event_seq = next_sync_seq owner host.sync_events;
        event_type = event_type;
        payload = sync_payload world host owner event_type payload;
        created_at = world.now;
      }
        ∷ [];
}

-- The loop over the active members; those that are users of this service get an event.
unfoldable pub sync_each :
    World → (ℕ → String) → String → Fields → List HostedMember → HostDb → HostDb
unfolding add_sync_event user_exists
sync_each world ids event_type payload [] host = host
sync_each world ids event_type payload (m ∷ rest) host =
    let next = add_sync_event world (ids 0) m.agent_did event_type payload host in
    sync_each world (λ n. ids (suc n)) event_type payload rest
      (if user_exists host m.agent_did then next else host)

unfoldable pub sync_active_members : World → String → String → Fields → HostDb → HostDb
unfolding sync_each
sync_active_members world group_did event_type payload host =
    sync_each world world.sync_ids event_type payload
      (select_where (is_active_in group_did) host.db.hosted_group_members) host
