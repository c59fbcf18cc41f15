-- ===== src/Hosting/Bounded.antt =====
-- messaging/groups/service.py: along the runs of the handlers, every policy is valid and no group has
-- more than MAX_MEMBERS active members.
use awiki_open_server.Shared.{
  ◌+◌, ◌≤◌, ◌<◌, String, ◌≡◌, refl, sym, ap, ◌∙◌, subst, Bool, true, false, Option, some, List, [],
  ◌∷◌, inl, inr, Bool-cases, arith, ◌==◌, eq_iff,
}
use awiki_open_server.Shared.Lists.{All}
use awiki_open_server.Shared.Json.{Fields, obj}
use awiki_open_server.Shared.Table.{count_where, first_where, update_where}
use awiki_open_server.Storage.{HostedGroup, HostedMember}
use awiki_open_server.Delivery.{find_group}
use awiki_open_server.Operations.{GroupRequest}
use awiki_open_server.Policy.{max_members, merge_patch}
use awiki_open_server.Policy.Validated.{IsPolicy, validate_policy-IsPolicy}
use awiki_open_server.Host.{
  HostDb, World, is_row, is_active_in, entrant_row, ending_status, is_rebound, patched_value,
  set_column, set_versions, set_seq, hosted_group_join, hosted_group_add, hosted_group_leave,
  hosted_group_remove, hosted_group_update_profile, hosted_group_update_policy,
}
use awiki_open_server.Hosting.Core.{Core, core}
use awiki_open_server.Hosting.Keyed.{Keyed}
use awiki_open_server.Hosting.Limit.{count-update-le, active-upsert-le, room_under_limit}
use awiki_open_server.Hosting.Steps.{IsEntered, IsEnded, IsRebound, IsUpdated, IsTaken}
use awiki_open_server.Hosting.Inverted.{
  membership_mutation_inv, end_membership_inv, hosted_group_rebind_member_inv, update_group_inv,
  hosted_group_send_inv,
}
use awiki_open_server.Hosting.Run.{
  Step, Run, done, step, joins, adds, leaves, removes, rebinds, updates_profile, updates_policy,
  sends,
}
use awiki_open_server.Hosting.Refined.{Step-Move}

-- A group whose policy is one that validate_policy gives.
abbrev pub IsValid : HostedGroup → Type 0
IsValid g = (policy : Fields) × (g.policy ≡ obj policy) × IsPolicy policy

-- Each agent has one row in a group, each group a valid policy and MAX_MEMBERS active members at most.
pub record IsBounded (c : Core) : Type 0 where
  pub keyed : Keyed c.members
  pub policies : All IsValid c.groups
  pub counts : (did : String) → count_where (is_active_in did) c.members ≤ max_members

first_where-IsValid :
    (test : HostedGroup → Bool) (gs : List HostedGroup) (group : HostedGroup)
    → All IsValid gs
    → first_where test gs ≡ some group
    → IsValid group
first_where-IsValid test [] group h e = cc
first_where-IsValid test (g ∷ gs) group h e = elim (Bool-cases (test g)) [
  | inl t ↦ subst IsValid (same g group (rw t at e)) h.0
  | inr t ↦ first_where-IsValid test gs group h.1 (rw t at e)
]
  where
    same : (a b : HostedGroup) → ◌≡◌ {A = Option HostedGroup} (some a) (some b) → a ≡ b
    same a b h = cc

All-update_where :
    (test : HostedGroup → Bool) (change : HostedGroup → HostedGroup) (gs : List HostedGroup)
    → ((g : HostedGroup) → IsValid g → IsValid (change g))
    → All IsValid gs
    → All IsValid (update_where test change gs)
All-update_where test change [] k h = tt
All-update_where test change (g ∷ gs) k h =
    let rest = All-update_where test change gs k h.1 in
    elim (Bool-cases (test g)) [ inl t ↦ rw t (k g h.0, rest) | inr t ↦ rw t (h.0, rest) ]

module _ (world : World) (context : GroupRequest) (before after : HostDb) (r : Fields)
    (o : IsBounded (core before)) (k : Keyed (core after).members) where
  -- A step that changed the groups validly and left the members as told.
  advanced-IsBounded :
      (change : HostedGroup → HostedGroup) (did : String) (members : List HostedMember)
      → ((g : HostedGroup) → IsValid g → IsValid (change g))
      → (core after).groups ≡ update_where (λ g. g.group_did == did) change (core before).groups
      → (core after).members ≡ members
      → ((did : String) → count_where (is_active_in did) members ≤ max_members)
      → IsBounded (core after)
  advanced-IsBounded change did members keeps groups same counts = record {
    keyed = k;
    policies = subst (All IsValid) (sym groups) (
        All-update_where (λ (g : HostedGroup). g.group_did == did) change (core before).groups keeps
          o.policies);
    counts = λ d.
        subst (λ (ms : List HostedMember). count_where (is_active_in d) ms ≤ max_members) (sym same)
          (counts d);
  }

  entered-IsBounded :
      (is_join : Bool) → IsEntered world context is_join before after r → IsBounded (core after)
  unfolding core find_group
  entered-IsBounded is_join e =
      let group_did = context.target_did in
      let rows = before.db.hosted_group_members in
      let (policy, is_obj, valid) =
        first_where-IsValid (λ (g : HostedGroup). g.group_did == group_did) before.db.hosted_groups
          e.group o.policies e.opened.found in
      let row = entrant_row world group_did e.newcomer e.home in
      let room =
        room_under_limit world policy (count_where (is_active_in group_did) rows) e.activated.limit
          valid (rw is_obj at e.activated.is_limit) e.activated.has_room in
      advanced-IsBounded
        (set_versions (e.group.group_state_version + 1) (e.group.group_event_seq + 1) world.now
          (λ g. g))
        group_did _ (λ g v. v)
        (ap (λ (c : Core). c.groups) e.made.tables
          ∙ ap
              (λ (c : Core).
                update_where (λ (g : HostedGroup). g.group_did == group_did)
                  (set_versions (e.group.group_state_version + 1) (e.group.group_event_seq + 1)
                    world.now (λ g. g))
                  c.groups)
              e.activated.tables)
        (ap (λ (c : Core). c.members) e.made.tables
          ∙ ap (λ (c : Core). c.members) e.activated.tables)
        (λ did.
          let (one, none_else) = active-upsert-le row did rows o.keyed in
          elim (Bool-cases (group_did == did)) [
            | inl here ↦
                let same = (eq_iff group_did did).0 here in
                let room_here =
                  subst (λ (x : String). count_where (is_active_in x) rows < max_members) same
                    room in
                omega (arith, one, room_here)
            | inr there ↦ omega (arith, none_else there, o.counts did)
          ])

  ended-IsBounded :
      (is_leave : Bool) → IsEnded world context is_leave before after r → IsBounded (core after)
  unfolding core
  ended-IsBounded is_leave e =
      let change =
        set_versions (e.group.group_state_version + 1) (e.group.group_event_seq + 1) world.now
          (λ g. g) in
      advanced-IsBounded change context.target_did _ (λ g v. v)
        (ap (λ (c : Core). c.groups) e.made.tables ∙ moved_groups change e.tables)
        (ap (λ (c : Core). c.members) e.made.tables ∙ ap (λ (c : Core). c.members) e.tables)
        (λ did. omega (
          arith,
          o.counts did,
          count-update-le (is_active_in did) (is_row context.target_did e.did)
              (λ m. record m { status = ending_status is_leave; ended_at = some world.now })
              before.db.hosted_group_members (λ m f h. inactive is_leave did m h),
        ))
    where
      moved_groups :
          {c : Core} (change : HostedGroup → HostedGroup)
          → core e.mid ≡ c
          → update_where
              (λ (g : HostedGroup). g.group_did == context.target_did)
              change
              (core e.mid).groups
            ≡ update_where (λ (g : HostedGroup). g.group_did == context.target_did) change c.groups
      moved_groups change h =
          ap
            (λ (c : Core).
              update_where (λ (g : HostedGroup). g.group_did == context.target_did) change c.groups)
            h

      inactive :
          (is_leave : Bool) (did : String) (m : HostedMember)
          → is_active_in did
              (record m { status = ending_status is_leave; ended_at = some world.now })
            ≡ true
          → is_active_in did m ≡ true
      inactive true did m h = ground arith
      inactive false did m h = ground arith

  rebound-IsBounded : IsRebound world context before after r → IsBounded (core after)
  unfolding core
  rebound-IsBounded e =
      let change =
        set_versions (e.group.group_state_version + 1) (e.group.group_event_seq + 1) world.now
          (λ g. g) in
      advanced-IsBounded change context.target_did _ (λ g v. v)
        (ap (λ (c : Core). c.groups) e.made.tables
          ∙ ap
              (λ (c : Core).
                update_where (λ (g : HostedGroup). g.group_did == context.target_did) change
                  c.groups)
              e.tables)
        (ap (λ (c : Core). c.members) e.made.tables ∙ ap (λ (c : Core). c.members) e.tables)
        (λ did. omega (
          arith,
          o.counts did,
          count-update-le (is_active_in did) (is_rebound context.target_did e.rebind)
              (λ m. record m {
                agent_did = e.rebind.new_did;
                handle_binding_generation = some e.rebind.binding.binding_generation;
                home_service_did = some e.home;
              })
              before.db.hosted_group_members (λ m f h. h),
        ))

  updated-IsBounded :
      (is_profile : Bool)
      → IsUpdated world context is_profile before after r
      → IsBounded (core after)
  unfolding core patched_value
  updated-IsBounded true e =
      advanced-IsBounded
        (set_versions (e.group.group_state_version + 1) (e.group.group_event_seq + 1) world.now
          (set_column true e.value))
        context.target_did _ (λ g v. v) (ap (λ (c : Core). c.groups) e.made.tables)
        (ap (λ (c : Core). c.members) e.made.tables) o.counts
  updated-IsBounded false e =
      let valid =
        validate_policy-IsPolicy world.truncate (merge_patch e.group.policy e.patch) e.value
          e.is_valid in
      advanced-IsBounded
        (set_versions (e.group.group_state_version + 1) (e.group.group_event_seq + 1) world.now
          (set_column false e.value))
        context.target_did _ (λ g v. (e.value, refl, valid))
        (ap (λ (c : Core). c.groups) e.made.tables) (ap (λ (c : Core). c.members) e.made.tables)
        o.counts

  taken-IsBounded : IsTaken world context before after r → IsBounded (core after)
  unfolding core
  taken-IsBounded e =
      advanced-IsBounded (set_seq (e.group.group_event_seq + 1) world.now) context.target_did _
        (λ g v. v) (ap (λ (c : Core). c.groups) e.sent.tables)
        (ap (λ (c : Core). c.members) e.sent.tables) o.counts

replayed-IsBounded :
    (before after : HostDb) → IsBounded (core before) → after ≡ before → IsBounded (core after)
replayed-IsBounded before after o same = subst (λ (h : HostDb). IsBounded (core h)) (sym same) o

Step-IsBounded :
    {before after : HostDb} → Step before after → IsBounded (core before) → IsBounded (core after)
unfolding hosted_group_join hosted_group_add hosted_group_leave hosted_group_remove
    hosted_group_update_profile hosted_group_update_policy
Step-IsBounded {before} {after} (joins world caller params earlier r h) o =
    let k = (Step-Move (joins world caller params earlier r h) o.keyed).1 in
    elim (membership_mutation_inv world caller params true earlier before after r h) [
      | inl same ↦ replayed-IsBounded before after o same.nothing
      | inr (context, e, s, asked) ↦ entered-IsBounded world context before after r o k true s
    ]
Step-IsBounded {before} {after} (adds world caller params earlier r h) o =
    let k = (Step-Move (adds world caller params earlier r h) o.keyed).1 in
    elim (membership_mutation_inv world caller params false earlier before after r h) [
      | inl same ↦ replayed-IsBounded before after o same.nothing
      | inr (context, e, s, asked) ↦ entered-IsBounded world context before after r o k false s
    ]
Step-IsBounded {before} {after} (leaves world caller params r h) o =
    let k = (Step-Move (leaves world caller params r h) o.keyed).1 in
    elim (end_membership_inv world caller params true before after r h) [
      | inl same ↦ replayed-IsBounded before after o same.nothing
      | inr (context, e, s) ↦ ended-IsBounded world context before after r o k true s
    ]
Step-IsBounded {before} {after} (removes world caller params r h) o =
    let k = (Step-Move (removes world caller params r h) o.keyed).1 in
    elim (end_membership_inv world caller params false before after r h) [
      | inl same ↦ replayed-IsBounded before after o same.nothing
      | inr (context, e, s) ↦ ended-IsBounded world context before after r o k false s
    ]
Step-IsBounded {before} {after} (rebinds world caller params earlier r h) o =
    let k = (Step-Move (rebinds world caller params earlier r h) o.keyed).1 in
    elim (hosted_group_rebind_member_inv world caller params earlier before after r h) [
      | inl same ↦ replayed-IsBounded before after o same.nothing
      | inr (context, e, s, asked) ↦ rebound-IsBounded world context before after r o k s
    ]
Step-IsBounded {before} {after} (updates_profile world caller params r h) o =
    let k = (Step-Move (updates_profile world caller params r h) o.keyed).1 in
    elim (update_group_inv world caller params true before after r h) [
      | inl same ↦ replayed-IsBounded before after o same.nothing
      | inr (context, e, s) ↦ updated-IsBounded world context before after r o k true s
    ]
Step-IsBounded {before} {after} (updates_policy world caller params r h) o =
    let k = (Step-Move (updates_policy world caller params r h) o.keyed).1 in
    elim (update_group_inv world caller params false before after r h) [
      | inl same ↦ replayed-IsBounded before after o same.nothing
      | inr (context, e, s) ↦ updated-IsBounded world context before after r o k false s
    ]
Step-IsBounded {before} {after} (sends world caller params r h) o =
    let k = (Step-Move (sends world caller params r h) o.keyed).1 in
    elim (hosted_group_send_inv world caller params before after r h) [
      | inl same ↦ replayed-IsBounded before after o same.nothing
      | inr (context, e, s) ↦ taken-IsBounded world context before after r o k s
    ]

-- From tables in which each agent has one row in a group, every policy is one that validate_policy
-- gives and no group has more than MAX_MEMBERS active members, every run of group.join,
-- add, leave, remove, rebind_member, update_profile, update_policy and send leads to tables of this
-- kind.
pub Run-IsBounded :
    {first last : HostDb} → Run first last → IsBounded (core first) → IsBounded (core last)
Run-IsBounded done o = o
Run-IsBounded (step run s) o = Step-IsBounded s (Run-IsBounded run o)
