-- ===== src/Hosting/Confined.antt =====
-- messaging/groups/service.py: a handler changes nothing of other groups than the one that the request
-- is for.
use awiki_open_server.Shared.{
  ℕ, ◌+◌, String, ◌≡◌, refl, sym, ap, ◌∙◌, subst, Bool, true, false, some, List, [], ◌∷◌, ◌++◌, inl,
  inr, Bool-cases, arith, ◌==◌, eq_iff,
}
use awiki_open_server.Shared.Lists.{any}
use awiki_open_server.Shared.Table.{delete_where, update_where}
use awiki_open_server.Shared.Json.{Fields}
use awiki_open_server.Storage.{HostedGroup, HostedMember}
use awiki_open_server.Operations.{GroupRequest}
use awiki_open_server.Host.{
  HostDb, World, GroupEvent, HostedMessage, is_row, upsert, entrant_row, ending_status,
  set_versions, set_seq, set_column,
}
use awiki_open_server.Hosting.Core.{Core, core}
use awiki_open_server.Hosting.Members.{with_members}
use awiki_open_server.Hosting.Effects.{IsChanged, moved}
use awiki_open_server.Hosting.Steps.{IsEntered, IsEnded, IsUpdated, IsTaken}

module _ {ℓ} {R : Type ℓ} where
  -- A change of rows that are deleted, and stay such, does not show in the others.
  delete-update :
      (p test : R → Bool) (change : R → R) (rows : List R)
      → ((x : R) → test x ≡ true → (p x ≡ true) × (p (change x) ≡ true))
      → delete_where p (update_where test change rows) ≡ delete_where p rows
  delete-update p test change [] k = refl
  delete-update p test change (x ∷ rows) k =
      let rest = delete-update p test change rows k in
      elim (Bool-cases (test x)) [
        | inl e ↦ let (old, new) = k x e in rw e (rw old (rw new rest))
        | inr e ↦ elim (Bool-cases (p x)) [
          | inl f ↦ rw e (rw f rest)
          | inr f ↦ rw e (rw f (ap (λ (xs : List R). x ∷ xs) rest))
        ]
      ]

  delete-append :
      (p : R → Bool) (rows : List R) (x : R)
      → p x ≡ true
      → delete_where p (rows ++ x ∷ []) ≡ delete_where p rows
  delete-append p [] x e = rw e refl
  delete-append p (y ∷ rows) x e =
      let rest = delete-append p rows x e in
      elim (Bool-cases (p y)) [
        | inl f ↦ rw f rest
        | inr f ↦ rw f (ap (λ (xs : List R). y ∷ xs) rest)
      ]

delete-upsert :
    (row : HostedMember) (group_did did : String) (rows : List HostedMember)
    → row.group_did ≡ group_did
    → delete_where
        (λ (m : HostedMember). m.group_did == group_did)
        (upsert (is_row group_did did) (λ m. row) row rows)
      ≡ delete_where (λ (m : HostedMember). m.group_did == group_did) rows
unfolding upsert
delete-upsert row group_did did rows own =
    let in_group = λ (m : HostedMember). m.group_did == group_did in
    let met : in_group row ≡ true = (eq_iff row.group_did group_did).1 own in
    elim (Bool-cases (any (is_row group_did did) rows)) [
      | inl e ↦ rw e (
          delete-update in_group (is_row group_did did) (λ m. row) rows
            (λ m f. (ground arith, met)))
      | inr e ↦ rw e (delete-append in_group rows row met)
    ]

-- The groups, members, events and messages of other groups are as they were.
pub record IsConfined (group_did : String) (before after : Core) : Type 0 where
  pub groups :
      delete_where (λ (g : HostedGroup). g.group_did == group_did) after.groups
      ≡ delete_where (λ (g : HostedGroup). g.group_did == group_did) before.groups
  pub members :
      delete_where (λ (m : HostedMember). m.group_did == group_did) after.members
      ≡ delete_where (λ (m : HostedMember). m.group_did == group_did) before.members
  pub events :
      delete_where (λ (e : GroupEvent). e.group_did == group_did) after.events
      ≡ delete_where (λ (e : GroupEvent). e.group_did == group_did) before.events
  pub messages :
      delete_where (λ (m : HostedMessage). m.group_did == group_did) after.messages
      ≡ delete_where (λ (m : HostedMessage). m.group_did == group_did) before.messages

event-IsConfined :
    (group_did : String) (e : GroupEvent) (events : List GroupEvent)
    → e.group_did ≡ group_did
    → delete_where (λ (x : GroupEvent). x.group_did == group_did) (events ++ e ∷ [])
      ≡ delete_where (λ (x : GroupEvent). x.group_did == group_did) events
event-IsConfined group_did e events own =
    delete-append (λ (x : GroupEvent). x.group_did == group_did) events e
      ((eq_iff e.group_did group_did).1 own)

groups-IsConfined :
    (group_did : String) (change : HostedGroup → HostedGroup) (groups : List HostedGroup)
    → ((g : HostedGroup) → (change g).group_did ≡ g.group_did)
    → delete_where
        (λ (g : HostedGroup). g.group_did == group_did)
        (update_where (λ (g : HostedGroup). g.group_did == group_did) change groups)
      ≡ delete_where (λ (g : HostedGroup). g.group_did == group_did) groups
groups-IsConfined group_did change groups keeps =
    delete-update (λ (g : HostedGroup). g.group_did == group_did)
      (λ (g : HostedGroup). g.group_did == group_did) change groups
      (λ g e. (e, subst (λ (x : String). (x == group_did) ≡ true) (sym (keeps g)) e))

-- A change of the group that the request is for, with other members of it.
changed-IsConfined :
    (context : GroupRequest) (group : HostedGroup) (columns : HostedGroup → HostedGroup)
    (version seq at : ℕ) (members : List HostedMember) (before mid after : HostDb) (r : Fields)
    → ((g : HostedGroup) → (columns g).group_did ≡ g.group_did)
    → core mid ≡ with_members members (core before)
    → delete_where (λ (m : HostedMember). m.group_did == context.target_did) members
      ≡ delete_where (λ (m : HostedMember). m.group_did == context.target_did) (core before).members
    → IsChanged context context.target_did group
        (set_versions version seq at columns)
        version
        seq
        mid
        after
        r
    → IsConfined context.target_did (core before) (core after)
unfolding core
changed-IsConfined context group columns version seq at members before mid after r keeps tables
      others k =
    let did = context.target_did in
    let change = set_versions version seq at columns in
    let made = moved change did k.e k.operations in
    subst (IsConfined did (core before)) (sym (k.tables ∙ ap made tables)) (record {
      groups = groups-IsConfined did change before.db.hosted_groups keeps;
      members = others;
      events = event-IsConfined did k.e before.hosted_group_events k.is_group;
      messages = refl;
    })

module _ (world : World) (context : GroupRequest) (before after : HostDb) (r : Fields) where
  pub entered-IsConfined :
      (is_join : Bool)
      → IsEntered world context is_join before after r
      → IsConfined context.target_did (core before) (core after)
  unfolding core
  entered-IsConfined is_join k =
      let did = context.target_did in
      changed-IsConfined context k.group (λ g. g) _ _ world.now _ before k.mid after r (λ g. refl)
        k.activated.tables
        (delete-upsert (entrant_row world did k.newcomer k.home) did k.newcomer.did
          before.db.hosted_group_members refl)
        k.made

  pub ended-IsConfined :
      (is_leave : Bool)
      → IsEnded world context is_leave before after r
      → IsConfined context.target_did (core before) (core after)
  unfolding core
  ended-IsConfined is_leave k =
      let did = context.target_did in
      changed-IsConfined context k.group (λ g. g) _ _ world.now _ before k.mid after r (λ g. refl)
        k.tables
        (delete-update (λ (m : HostedMember). m.group_did == did) (is_row did k.did)
          (λ m. record m { status = ending_status is_leave; ended_at = some world.now })
          before.db.hosted_group_members (λ m f. (ground arith, ground arith)))
        k.made

  pub updated-IsConfined :
      (is_profile : Bool)
      → IsUpdated world context is_profile before after r
      → IsConfined context.target_did (core before) (core after)
  unfolding core
  updated-IsConfined is_profile k =
      changed-IsConfined context k.group (set_column is_profile k.value) _ _ world.now
        before.db.hosted_group_members before before after r (keeps is_profile k.value) refl refl
        k.made
    where
      keeps :
          (is_profile : Bool) (value : Fields) (g : HostedGroup)
          → (set_column is_profile value g).group_did ≡ g.group_did
      keeps true value g = refl
      keeps false value g = refl

  pub taken-IsConfined :
      IsTaken world context before after r
      → IsConfined context.target_did (core before) (core after)
  unfolding core
  taken-IsConfined k =
      let did = context.target_did in
      subst (IsConfined did (core before)) (sym k.sent.tables) (record {
        groups =
            groups-IsConfined did (set_seq (k.group.group_event_seq + 1) world.now)
              before.db.hosted_groups (λ g. refl);
        members = refl;
        events = event-IsConfined did k.sent.e before.hosted_group_events k.sent.is_group;
        messages =
            delete-append (λ (m : HostedMessage). m.group_did == did) before.hosted_group_messages
              k.sent.m ((eq_iff k.sent.m.group_did did).1 k.sent.in_group);
      })
