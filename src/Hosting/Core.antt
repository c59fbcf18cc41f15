-- ===== src/Hosting/Core.antt =====
-- messaging/groups/service.py: what the handlers of the group host leave in the tables that they
-- decide by. Views, events for synchronisation and the outbox are written behind those tables.
use awiki_open_server.Shared.{
  ℕ, suc, String, ◌≡◌, refl, sym, ap, ◌∙◌, Bool, true, false, Option, none, some, List, [], ◌∷◌,
  if◌then◌else◌, ◌==◌, ◌&&◌, Bool-cases, inl, inr, ok, >>=-eq-ok, ok-injective,
}
use awiki_open_server.Shared.Table.{select_where, order_by}
use awiki_open_server.Shared.Json.{Value, Fields, obj}
use awiki_open_server.Shared.Python.{item}
use awiki_open_server.Storage.{HostedGroup, HostedMember, Db, is_active}
use awiki_open_server.Delivery.{
  find_group, enqueue, enqueue_each, enqueue_to_found, enqueue_state_changed,
  enqueue_incoming_message, incoming_envelope, remote_members, state_changed_envelope,
  state_changed_targets, new_delivery, home_of,
}
use awiki_open_server.Operations.{Operation, GroupRequest}
use awiki_open_server.Host.{
  HostDb, World, GroupEvent, HostedMessage, Change, sync_each, add_sync_event, user_exists,
  sync_active_members, refresh_each, refresh_group, refresh_hosted_local_projections,
  project_hosted_message, tell_members, announce, is_active_in, deliver_message, incoming_of,
  sent_sync, by_joined, is_at_home, refresh_found, project_found, tell_departed,
}

pub record Core : Type 0 where
  pub groups : List HostedGroup
  pub members : List HostedMember
  pub events : List GroupEvent
  pub messages : List HostedMessage
  pub operations : List Operation

unfoldable pub core : HostDb → Core
core host = record {
  groups = host.db.hosted_groups;
  members = host.db.hosted_group_members;
  events = host.hosted_group_events;
  messages = host.hosted_group_messages;
  operations = host.group_operations;
}

core-sync_each :
    (world : World) (ids : ℕ → String) (event_type : String) (payload : Fields)
    (ms : List HostedMember) (host : HostDb)
    → core (sync_each world ids event_type payload ms host) ≡ core host
unfolding core sync_each add_sync_event
core-sync_each world ids event_type payload [] host = refl
core-sync_each world ids event_type payload (m ∷ ms) host =
    let next = add_sync_event world (ids 0) m.agent_did event_type payload host in
    core-sync_each world (λ n. ids (suc n)) event_type payload ms
      (if user_exists host m.agent_did then next else host)
    ∙ core_of_if (user_exists host m.agent_did)
  where
    core_of_if :
        (b : Bool)
        → core
            (if b then add_sync_event world (ids 0) m.agent_did event_type payload host else host)
          ≡ core host
    core_of_if true = refl
    core_of_if false = refl

core-sync_active_members :
    (world : World) (group_did event_type : String) (payload : Fields) (host : HostDb)
    → core (sync_active_members world group_did event_type payload host) ≡ core host
unfolding sync_active_members
core-sync_active_members world group_did event_type payload host =
    core-sync_each world world.sync_ids event_type payload
      (select_where (is_active_in group_did) host.db.hosted_group_members) host

core-tell_departed :
    (world : World) (told : ℕ) (sync_type : String) (event : Fields) (did : Option String)
    (host : HostDb)
    → core (tell_departed world told sync_type event did host) ≡ core host
unfolding core add_sync_event
core-tell_departed world told sync_type event none host = refl
core-tell_departed world told sync_type event (some did) host =
    elim (Bool-cases (user_exists host did)) [ inl e ↦ rw e refl | inr e ↦ rw e refl ]

core-refresh_each :
    (g : HostedGroup) (members : List HostedMember) (at : ℕ) (ms : List HostedMember)
    (host : HostDb)
    → core (refresh_each g members at ms host) ≡ core host
unfolding core refresh_each
core-refresh_each g members at [] host = refl
core-refresh_each g members at (m ∷ ms) host = core-refresh_each g members at ms _

core-refresh_found :
    (world : World) (at : ℕ) (host : HostDb) (g : Option HostedGroup)
    → core (refresh_found world at host g) ≡ core host
unfolding refresh_group core
core-refresh_found world at host none = refl
core-refresh_found world at host (some g) =
    let members = order_by by_joined (
      select_where (λ (m : HostedMember). m.group_did == g.group_did)
        host.db.hosted_group_members) in
    core-refresh_each g members at
      (select_where (λ (m : HostedMember). is_active m.status && is_at_home world m) members) host

core-refresh :
    (world : World) (group_did : String) (at : ℕ) (host : HostDb)
    → core (refresh_hosted_local_projections world group_did at host) ≡ core host
unfolding refresh_hosted_local_projections
core-refresh world group_did at host =
    core-refresh_found world at host (find_group host.db group_did)

core-project_found :
    (world : World) (version : ℕ) (m : HostedMessage) (host : HostDb) (g : Option HostedGroup)
    → core (project_found world version m host g) ≡ core host
unfolding core
core-project_found world version m host none = refl
core-project_found world version m host (some g) = refl

-- The rows of the host that an enqueue leaves as they were.
abbrev tables : Db → List HostedGroup × List HostedMember
tables db = (db.hosted_groups, db.hosted_group_members)

tables-enqueue_each :
    (envelope : HostedMember → Value) (ids : ℕ → String) (group_did : String) (seq : ℕ)
    (method : String) (at : ℕ) (ms : List HostedMember) (db : Db)
    → tables (enqueue_each envelope ids group_did seq method at ms db) ≡ tables db
unfolding enqueue_each enqueue
tables-enqueue_each envelope ids group_did seq method at [] db = refl
tables-enqueue_each envelope ids group_did seq method at (m ∷ ms) db =
    tables-enqueue_each envelope (λ n. ids (suc n)) group_did seq method at ms
      (enqueue (new_delivery (ids 0) group_did seq m (home_of m) method (envelope m) at) db)

tables-enqueue_to_found :
    (world : World) (group_did : String) (seq : ℕ) (event : Fields) (db after : Db)
    (g : Option HostedGroup)
    → enqueue_to_found world.settings world.delivery_ids group_did seq event world.now db g
      ≡ ok after
    → tables after ≡ tables db
tables-enqueue_to_found world group_did seq event db after none h = cc
tables-enqueue_to_found world group_did seq event db after (some g) h =
    ap tables (sym (ok-injective h))
    ∙ tables-enqueue_each (state_changed_envelope group_did event g.wire_profile) world.delivery_ids
        group_did seq "group.state_changed" world.now
        (state_changed_targets world.settings db group_did g.wire_profile event) db

core_of_tables :
    (host : HostDb) (db : Db)
    → tables db ≡ tables host.db
    → core (record host { db = db }) ≡ core host
unfolding core
core_of_tables host db h =
    ap
      (λ (t : List HostedGroup × List HostedMember). record (core host) {
        groups = t.0;
        members = t.1;
      })
      h

-- Announcing a change leaves the tables that decide as they were.
pub core-announce :
    (world : World) (group_did : String) (seq : ℕ) (change : Change) (event : Fields)
    (host after : HostDb)
    → announce world group_did seq change event host ≡ ok after
    → core after ≡ core host
unfolding announce tell_members enqueue_state_changed
core-announce world group_did seq change event host after h =
    let told = tell_members world group_did change.sync_type event change.departed host in
    let viewed = refresh_hosted_local_projections world group_did world.now told in
    let enqueued =
      enqueue_state_changed world.settings world.delivery_ids group_did seq event world.now
        viewed.db in
    let (db, e, h1) = >>=-eq-ok enqueued _ after h in
    let same : record viewed { db = db } ≡ after = ok-injective h1 in
    let (receipt, _, e1) = >>=-eq-ok (item (obj event) "group_receipt") _ db e in
    let (operation_id, _, e2) = >>=-eq-ok (item receipt "operation_id") _ db e1 in
    sym (ap core same)
    ∙ core_of_tables viewed db (
        tables-enqueue_to_found world group_did seq event viewed.db db
          (find_group viewed.db group_did) e2)
    ∙ core-refresh world group_did world.now told
    ∙ core-tell_departed world _ change.sync_type event change.departed
        (sync_active_members world group_did change.sync_type event host)
    ∙ core-sync_active_members world group_did change.sync_type event host

core-project :
    (world : World) (version : ℕ) (m : HostedMessage) (host : HostDb)
    → core (project_hosted_message world version m host) ≡ core host
unfolding project_hosted_message
core-project world version m host =
    core-project_found world version m host (find_group host.db m.group_did)

-- Delivering a message leaves them too.
pub core-deliver_message :
    (world : World) (context : GroupRequest) (version : ℕ) (m : HostedMessage) (host : HostDb)
    → core (deliver_message world context version m host) ≡ core host
unfolding deliver_message enqueue_incoming_message
core-deliver_message world context version m host =
    let refreshed = refresh_hosted_local_projections world m.group_did world.now host in
    let projected = project_hosted_message world version m refreshed in
    let message = incoming_of world context m in
    let db =
      enqueue_incoming_message world.settings world.delivery_ids m.group_did version
        m.group_event_seq message world.now projected.db in
    core-sync_active_members world m.group_did "group.message.created" (sent_sync m)
      (record projected { db = db })
    ∙ core_of_tables projected db (
        tables-enqueue_each (incoming_envelope m.group_did version m.group_event_seq message)
          world.delivery_ids m.group_did m.group_event_seq "group.incoming" world.now
          (remote_members world.settings projected.db m.group_did) projected.db)
    ∙ core-project world version m refreshed
    ∙ core-refresh world m.group_did world.now host
