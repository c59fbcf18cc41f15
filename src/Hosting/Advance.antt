-- ===== src/Hosting/Advance.antt =====
-- messaging/groups/service.py: the effect of a handler on the tables that decide, as far as the order
-- of events and messages goes, whichever handler it was.
use awiki_open_server.Shared.{
  ℕ, ◌+◌, ◌≤◌, String, ◌≡◌, refl, sym, ap, ◌∙◌, Option, none, some, List, [], ◌∷◌, ◌++◌, append-nil,
  arith, ◌==◌,
}
use awiki_open_server.Shared.Lists.{All}
use awiki_open_server.Shared.Table.{first_where, update_where}
use awiki_open_server.Shared.Json.{Fields}
use awiki_open_server.Storage.{HostedGroup, HostedMember}
use awiki_open_server.Operations.{GroupRequest, Operation}
use awiki_open_server.Host.{HostDb, GroupEvent, HostedMessage, Content, set_versions, set_seq}
use awiki_open_server.Hosting.Core.{Core, core}
use awiki_open_server.Hosting.Effects.{IsChanged, IsSent, moved}

abbrev pub group_at : Core → String → Option HostedGroup
group_at c group_did = first_where (λ (g : HostedGroup). g.group_did == group_did) c.groups

abbrev pub list_of {ℓ} : {A : Type ℓ} → Option A → List A
list_of none = []
list_of (some a) = a ∷ []

-- One step of one group: its event_seq goes up by one, its state_version by one or not at all, and
-- an event, perhaps with a message, has the new versions.
pub record IsAdvance (before after : Core) : Type 0 where
  pub group_did : String
  pub group : HostedGroup
  pub found : group_at before group_did ≡ some group
  pub change : HostedGroup → HostedGroup
  pub keeps : (g : HostedGroup) → (change g).group_did ≡ g.group_did
  pub seq : (change group).group_event_seq ≡ group.group_event_seq + 1
  pub version :
      (group.group_state_version ≤ (change group).group_state_version)
      × ((change group).group_state_version ≤ group.group_state_version + 1)
  pub e : GroupEvent
  pub is_group : e.group_did ≡ group_did
  pub is_seq : e.group_event_seq ≡ (change group).group_event_seq
  pub is_version : e.group_state_version ≡ (change group).group_state_version
  pub message : Option HostedMessage
  pub in_place :
      All
        (λ m. (m.group_did ≡ group_did) × (m.group_event_seq ≡ (change group).group_event_seq))
        (list_of message)
  pub members : List HostedMember
  pub operations : List Operation
  pub tables : after ≡ record {
    groups = update_where (λ g. g.group_did == group_did) change before.groups;
    members = members;
    events = before.events ++ e ∷ [];
    messages = before.messages ++ list_of message;
    operations = operations;
  }

-- The tables but for the members are those of `mid`, on which the change was made.
pub changed-IsAdvance :
    (context : GroupRequest) (group : HostedGroup) (columns : HostedGroup → HostedGroup) (at : ℕ)
    (before mid after : HostDb) (r : Fields)
    → group_at (core before) context.target_did ≡ some group
    → ((g : HostedGroup) → (columns g).group_did ≡ g.group_did)
    → core mid ≡ record (core before) { members = (core mid).members }
    → IsChanged context context.target_did group
        (set_versions (group.group_state_version + 1) (group.group_event_seq + 1) at columns)
        (group.group_state_version + 1)
        (group.group_event_seq + 1)
        mid
        after
        r
    → IsAdvance (core before) (core after)
changed-IsAdvance context group columns at before mid after r found keeps same k = record {
  group_did = context.target_did;
  group = group;
  found = found;
  change = set_versions (group.group_state_version + 1) (group.group_event_seq + 1) at columns;
  keeps = keeps;
  seq = refl;
  version = (omega arith, omega arith);
  e = k.e;
  is_group = k.is_group;
  is_seq = k.is_seq;
  is_version = k.is_version;
  message = none;
  in_place = tt;
  members = (core mid).members;
  operations = k.operations;
  tables =
      k.tables
      ∙ ap
          (moved
            (set_versions (group.group_state_version + 1) (group.group_event_seq + 1) at columns)
            context.target_did k.e k.operations)
          same
      ∙ no_message (
          moved
            (set_versions (group.group_state_version + 1) (group.group_event_seq + 1) at columns)
            context.target_did k.e k.operations
            (record (core before) { members = (core mid).members }));
}
  where
    no_message : (c : Core) → c ≡ record c { messages = c.messages ++ [] }
    no_message c =
        ap (λ (ms : List HostedMessage). record c { messages = ms }) (sym (append-nil c.messages))

pub sent-IsAdvance :
    (context : GroupRequest) (content : Content) (group : HostedGroup) (at : ℕ)
    (before after : HostDb) (r : Fields)
    → group_at (core before) context.target_did ≡ some group
    → IsSent context content group (set_seq (group.group_event_seq + 1) at) before after r
    → IsAdvance (core before) (core after)
unfolding core
sent-IsAdvance context content group at before after r found k = record {
  group_did = context.target_did;
  group = group;
  found = found;
  change = set_seq (group.group_event_seq + 1) at;
  keeps = λ g. refl;
  seq = refl;
  version = (omega arith, omega arith);
  e = k.e;
  is_group = k.is_group;
  is_seq = k.is_seq;
  is_version = k.is_version;
  message = some k.m;
  in_place = ((k.in_group, k.in_order), tt);
  members = before.db.hosted_group_members;
  operations = k.operations;
  tables = k.tables;
}
