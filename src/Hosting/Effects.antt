-- ===== src/Hosting/Effects.antt =====
-- messaging/groups/service.py: what a handler that succeeds has done to the tables that decide, when
-- it changed the state of a group and when it took a message.
use awiki_open_server.Shared.{
  ℕ, ◌+◌, String, ◌≡◌, refl, sym, ap, ◌∙◌, subst, false, none, some, List, [], ◌∷◌, ◌++◌, ◌==◌, ok,
  python_error, >>=-eq-ok, raise_if-eq-ok, ok-injective,
}
use awiki_open_server.Shared.Lists.{any}
use awiki_open_server.Shared.Table.{update_where}
use awiki_open_server.Shared.Json.{Fields}
use awiki_open_server.Storage.{HostedGroup}
use awiki_open_server.Operations.{GroupRequest, Operation, store_operation}
use awiki_open_server.Host.{
  HostDb, World, GroupEvent, HostedMessage, Change, Content, receipt, write_event, event_row,
  same_event, set_group, set_versions, set_seq, record_change, announce, commit_change,
  record_message, message_row, insert_message, same_place, sent_event, sent_result, deliver_message,
}
use awiki_open_server.Hosting.Core.{Core, core, core-announce, core-deliver_message}

-- The tables after a change of the group: its row is moved on, and an event of the new versions is
-- behind the others.
abbrev pub moved : (HostedGroup → HostedGroup) → String → GroupEvent → List Operation → Core → Core
moved change group_did e operations c = record c {
  groups = update_where (λ g. g.group_did == group_did) change c.groups;
  events = c.events ++ e ∷ [];
  operations = operations;
}

write_event_inv :
    (row : GroupEvent) (host after : HostDb)
    → write_event row host ≡ ok after
    → (any (same_event row) host.hosted_group_events ≡ false)
      × (record host { hosted_group_events = host.hosted_group_events ++ row ∷ [] } ≡ after)
unfolding write_event
write_event_inv row host after h =
    let (fresh, h1) =
      raise_if-eq-ok (any (same_event row) host.hosted_group_events) (python_error "IntegrityError")
        (ok (record host { hosted_group_events = host.hosted_group_events ++ row ∷ [] })) after h in
    (fresh, ok-injective h1)

-- What a recorded change leaves: the event, the stored operation, and the tables.
pub record IsRecorded (context : GroupRequest) (group_did : String) (version seq : ℕ)
    (before after : HostDb) (r : Fields) : Type 0 where
  pub e : GroupEvent
  pub is_group : e.group_did ≡ group_did
  pub is_seq : e.group_event_seq ≡ seq
  pub is_version : e.group_state_version ≡ version
  pub is_fresh : any (same_event e) before.hosted_group_events ≡ false
  pub operations : List Operation
  pub result : Fields
  pub at : ℕ
  pub stored :
      store_operation context group_did result at before.group_operations ≡ ok (operations, r)
  pub tables : core after ≡ record (core before) {
    events = before.hosted_group_events ++ e ∷ [];
    operations = operations;
  }

record_change_inv :
    (world : World) (context : GroupRequest) (group_did : String) (version seq : ℕ)
    (change : Change) (host after : HostDb) (event r : Fields)
    → record_change world context group_did version seq change host ≡ ok (after, event, r)
    → IsRecorded context group_did version seq host after r
unfolding record_change core event_row
record_change_inv world context group_did version seq change host after event r h =
    let result : HostDb × Fields × Fields = (after, event, r) in
    let (signed, e, h1) =
      >>=-eq-ok (receipt world host context group_did version seq none) _ result h in
    let payload = change.event version seq signed in
    let row = event_row world context group_did version seq change.event_type payload signed in
    let (written, f, h2) = >>=-eq-ok (write_event row host) _ result h1 in
    let (fresh, same) = write_event_inv row host written f in
    let (stored, g, h3) =
      >>=-eq-ok
        (store_operation context group_did (change.result version seq signed) world.now
          written.group_operations)
        _ result h2 in
    let last : (record written { group_operations = stored.0 }, payload, stored.1) ≡ result =
      ok-injective h3 in
    record {
      e = row;
      is_group = refl;
      is_seq = refl;
      is_version = refl;
      is_fresh = fresh;
      operations = stored.0;
      result = change.result version seq signed;
      at = world.now;
      stored =
          subst
            (λ (w : HostDb).
              store_operation context group_did (change.result version seq signed) world.now
                w.group_operations
              ≡ ok stored)
            (sym same) g
          ∙ ap (λ (t : HostDb × Fields × Fields). ok (stored.0, t.2)) last;
      tables =
          sym (ap (λ (t : HostDb × Fields × Fields). core t.0) last)
          ∙ ap (λ (w : HostDb). core (record w { group_operations = stored.0 })) (sym same);
    }

-- What a handler that changed the state of a group leaves.
pub record IsChanged (context : GroupRequest) (group_did : String) (group : HostedGroup)
    (change : HostedGroup → HostedGroup) (version seq : ℕ) (before after : HostDb) (r : Fields)
    : Type 0 where
  pub e : GroupEvent
  pub is_group : e.group_did ≡ group_did
  pub is_seq : e.group_event_seq ≡ seq
  pub is_version : e.group_state_version ≡ version
  pub is_fresh : any (same_event e) before.hosted_group_events ≡ false
  pub operations : List Operation
  pub result : Fields
  pub at : ℕ
  pub stored :
      store_operation context group_did result at before.group_operations ≡ ok (operations, r)
  pub tables : core after ≡ moved change group_did e operations (core before)

pub commit_change_inv :
    (world : World) (context : GroupRequest) (group_did : String) (group : HostedGroup)
    (change : Change) (host after : HostDb) (r : Fields)
    → commit_change world context group_did group change host ≡ ok (after, r)
    → IsChanged context group_did group
        (set_versions
          (group.group_state_version + 1)
          (group.group_event_seq + 1)
          world.now
          change.columns)
        (group.group_state_version + 1)
        (group.group_event_seq + 1)
        host
        after
        r
unfolding commit_change set_group core
commit_change_inv world context group_did group change host after r h =
    let result : HostDb × Fields = (after, r) in
    let version = group.group_state_version + 1 in
    let seq = group.group_event_seq + 1 in
    let bumped = set_group group_did (set_versions version seq world.now change.columns) host in
    let (recorded, e, h1) =
      >>=-eq-ok (record_change world context group_did version seq change bumped) _ result h in
    let (announced, f, h2) =
      >>=-eq-ok (announce world group_did seq change recorded.1 recorded.0) _ result h1 in
    let last : (announced, recorded.2) ≡ result = ok-injective h2 in
    let k =
      record_change_inv world context group_did version seq change bumped recorded.0 recorded.1
        recorded.2 e in
    record {
      e = k.e;
      is_group = k.is_group;
      is_seq = k.is_seq;
      is_version = k.is_version;
      is_fresh = k.is_fresh;
      operations = k.operations;
      result = k.result;
      at = k.at;
      stored = k.stored ∙ ap (λ (t : HostDb × Fields). ok (k.operations, t.1)) last;
      tables =
          sym (ap (λ (t : HostDb × Fields). core t.0) last)
          ∙ core-announce world group_did seq change recorded.1 recorded.0 announced f
          ∙ k.tables;
    }

-- What a handler that took a message leaves.
pub record IsSent (context : GroupRequest) (content : Content) (group : HostedGroup)
    (change : HostedGroup → HostedGroup) (before after : HostDb) (r : Fields) : Type 0 where
  pub e : GroupEvent
  pub is_group : e.group_did ≡ context.target_did
  pub is_seq : e.group_event_seq ≡ group.group_event_seq + 1
  pub is_version : e.group_state_version ≡ group.group_state_version
  pub is_fresh : any (same_event e) before.hosted_group_events ≡ false
  pub m : HostedMessage
  pub in_group : m.group_did ≡ context.target_did
  pub in_order : m.group_event_seq ≡ group.group_event_seq + 1
  pub is_named : m.message_id ≡ content.message_id
  pub operations : List Operation
  pub result : Fields
  pub at : ℕ
  pub stored :
      store_operation context context.target_did result at before.group_operations
      ≡ ok (operations, r)
  pub tables : core after ≡ record (moved change context.target_did e operations (core before)) {
    messages = before.hosted_group_messages ++ m ∷ [];
  }

insert_message_inv :
    (row : HostedMessage) (host after : HostDb)
    → insert_message row host ≡ ok after
    → record host { hosted_group_messages = host.hosted_group_messages ++ row ∷ [] } ≡ after
unfolding insert_message
insert_message_inv row host after h =
    let (fresh, h1) =
      raise_if-eq-ok (any (same_place row) host.hosted_group_messages)
        (python_error "IntegrityError")
        (ok (record host { hosted_group_messages = host.hosted_group_messages ++ row ∷ [] })) after
        h in
    ok-injective h1

-- The message and the event of a send, before they are delivered.
sent_inv :
    (world : World) (context : GroupRequest) (content : Content) (group : HostedGroup)
    (before after : HostDb) (row : HostedMessage) (r : Fields)
    → record_message world context content group.group_state_version
        (group.group_event_seq + 1)
        (set_group context.target_did (set_seq (group.group_event_seq + 1) world.now) before)
      ≡ ok (after, row, r)
    → IsSent context content group (set_seq (group.group_event_seq + 1) world.now) before after r
unfolding record_message core set_group event_row
sent_inv world context content group before after row r h =
    let result : HostDb × HostedMessage × Fields = (after, row, r) in
    let seq = group.group_event_seq + 1 in
    let version = group.group_state_version in
    let host = set_group context.target_did (set_seq seq world.now) before in
    let (signed, e, h1) =
      >>=-eq-ok
        (receipt world host context context.target_did version seq (some content.message_id)) _
        result h in
    let m = message_row world context content seq signed in
    let (inserted, f, h2) = >>=-eq-ok (insert_message m host) _ result h1 in
    let in_place = insert_message_inv m host inserted f in
    let event =
      event_row world context context.target_did version seq "group-message-created" (sent_event m)
        signed in
    let (written, g, h3) = >>=-eq-ok (write_event event inserted) _ result h2 in
    let (fresh, same) = write_event_inv event inserted written g in
    let dto = sent_result world m version in
    let (stored, k, h4) =
      >>=-eq-ok (store_operation context context.target_did dto world.now written.group_operations)
        _ result h3 in
    let last : (record written { group_operations = stored.0 }, m, stored.1) ≡ result =
      ok-injective h4 in
    record {
      e = event;
      is_group = refl;
      is_seq = refl;
      is_version = refl;
      is_fresh =
          subst (λ (w : HostDb). any (same_event event) w.hosted_group_events ≡ false)
            (sym in_place) fresh;
      m = m;
      in_group = refl;
      in_order = refl;
      is_named = refl;
      operations = stored.0;
      result = dto;
      at = world.now;
      stored =
          subst
            (λ (w : HostDb).
              store_operation context context.target_did dto world.now w.group_operations
              ≡ ok stored)
            (sym in_place)
            (subst
              (λ (w : HostDb).
                store_operation context context.target_did dto world.now w.group_operations
                ≡ ok stored)
              (sym same) k)
          ∙ ap (λ (t : HostDb × HostedMessage × Fields). ok (stored.0, t.2)) last;
      tables =
          sym (ap (λ (t : HostDb × HostedMessage × Fields). core t.0) last)
          ∙ ap (λ (w : HostDb). core (record w { group_operations = stored.0 })) (sym same)
          ∙ ap
              (λ (w : HostDb). core (record w {
                hosted_group_events = w.hosted_group_events ++ event ∷ [];
                group_operations = stored.0;
              }))
              (sym in_place);
    }

-- The same once it is delivered.
pub sent-IsSent :
    (world : World) (context : GroupRequest) (content : Content) (group : HostedGroup)
    (before after : HostDb) (recorded : HostDb × HostedMessage × Fields) (r : Fields)
    → record_message world context content group.group_state_version
        (group.group_event_seq + 1)
        (set_group context.target_did (set_seq (group.group_event_seq + 1) world.now) before)
      ≡ ok recorded
    → ◌≡◌ {A = HostDb × Fields}
        (deliver_message world context group.group_state_version recorded.1 recorded.0, recorded.2)
        (after, r)
    → IsSent context content group (set_seq (group.group_event_seq + 1) world.now) before after r
sent-IsSent world context content group before after recorded r h last =
    let k = sent_inv world context content group before recorded.0 recorded.1 recorded.2 h in
    record {
      e = k.e;
      is_group = k.is_group;
      is_seq = k.is_seq;
      is_version = k.is_version;
      is_fresh = k.is_fresh;
      m = k.m;
      in_group = k.in_group;
      in_order = k.in_order;
      is_named = k.is_named;
      operations = k.operations;
      result = k.result;
      at = k.at;
      stored = k.stored ∙ ap (λ (t : HostDb × Fields). ok (k.operations, t.1)) last;
      tables =
          sym (ap (λ (t : HostDb × Fields). core t.0) last)
          ∙ core-deliver_message world context group.group_state_version recorded.1 recorded.0
          ∙ k.tables;
    }
