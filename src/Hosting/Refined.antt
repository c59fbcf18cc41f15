-- ===== src/Hosting/Refined.antt =====
-- messaging/groups/service.py: the handlers of the group host move the map of roles as Roster says.
use awiki_open_server.Shared.{
  String, ◌≡◌, refl, sym, ap, ◌∙◌, subst, Bool, true, false, not, Option, none, some, List, [], ◌∷◌,
  inl, inr, if◌then◌else◌, Bool-cases, arith, ◌==◌, eq_iff, false≢true, ok, raise_if, ◌>>◌,
  >>=-eq-ok, conflict, raise_if-eq-ok, raise_if-eq-ok_tt,
}
use awiki_open_server.Shared.Lists.{any}
use awiki_open_server.Shared.Json.{Fields}
use awiki_open_server.Shared.Table.{first_where}
use awiki_open_server.Shared.Keys.{first_where-none}
use awiki_open_server.Storage.{HostedMember, is_active}
use awiki_open_server.Operations.{GroupRequest}
use awiki_open_server.Host.{
  HostDb, World, Rebind, is_row, is_active_row, is_active_option, entrant_row, ending_status,
  is_rebound, previous_generation, check_rebinding, hosted_group_join, hosted_group_add,
  hosted_group_leave, hosted_group_remove, hosted_group_update_profile, hosted_group_update_policy,
}
use awiki_open_server.Hosting.Core.{Core, core}
use awiki_open_server.Hosting.Keyed.{Keyed, upsert-Keyed, update-Keyed, rename-Keyed}
use awiki_open_server.Hosting.Roster.{
  Roster, IsAssigned, is_at, Move, stay, enter, exit, rename, roster, role_of, upsert-IsAssigned,
  end-IsAssigned, active_of_row,
}
use awiki_open_server.Hosting.Renamed.{rename-IsAssigned}
use awiki_open_server.Hosting.Steps.{IsEntered, IsEnded, IsRebound, IsUpdated, IsTaken}
use awiki_open_server.Hosting.Inverted.{
  membership_mutation_inv, end_membership_inv, hosted_group_rebind_member_inv, update_group_inv,
  hosted_group_send_inv,
}
use awiki_open_server.Hosting.Run.{
  Step, joins, adds, leaves, removes, rebinds, updates_profile, updates_policy, sends,
}

-- The members of the tables that decide moved, and have one row for each agent still.
abbrev pub IsMove : HostDb → HostDb → Type 0
IsMove before after =
    Move (roster (core before).members) (roster (core after).members) × Keyed (core after).members

-- Where the one row of an agent is not active, the agent has no role.
no_role :
    (g d : String) (ms : List HostedMember)
    → Keyed ms
    → is_active_option (first_where (is_row g d) ms) ≡ false
    → first_where (is_active_row g d) ms ≡ none
no_role g d [] k h = refl
no_role g d (m ∷ ms) k h = elim (Bool-cases (is_row g d m)) [
  | inl e ↦
      let idle : is_active m.status ≡ false = rw e at h in
      let group = (eq_iff m.group_did g).0 (ground arith) in
      let agent = (eq_iff m.agent_did d).0 (ground arith) in
      let absent : any (is_row g d) ms ≡ false =
        ap (λ (x : String). any (is_row x d) ms) (sym group)
        ∙ ap (λ (x : String). any (is_row m.group_did x) ms) (sym agent)
        ∙ k.0 in
      rw e (rw idle (absent_role ms absent))
  | inr e ↦ rw (active_of_row g d m e) (no_role g d ms k.1 (rw e at h))
]
  where
    absent_role :
        (ms : List HostedMember)
        → any (is_row g d) ms ≡ false
        → first_where (is_active_row g d) ms ≡ none
    absent_role [] n = refl
    absent_role (m ∷ ms) n =
        let apart : is_row g d m ≡ false = ground arith in
        rw (active_of_row g d m apart) (absent_role ms (ground arith))

-- A move between the members of the tables, carried to what they are.
moved_to :
    (before after : HostDb) (members : List HostedMember)
    → (core after).members ≡ members
    → Move (roster (core before).members) (roster members)
    → Keyed members
    → IsMove before after
moved_to before after members same m k =
    subst (λ (ms : List HostedMember). Move (roster (core before).members) (roster ms) × Keyed ms)
      (sym same) (m, k)

-- An assignment between the members of the tables, carried to what they are.
carried-IsAssigned :
    (before after : HostDb) (members : List HostedMember) (group_did did : String)
    (role : Option String) (from : Roster)
    → (core after).members ≡ members
    → IsAssigned group_did did role from (roster members)
    → Keyed members
    → IsAssigned group_did did role from (roster (core after).members) × Keyed (core after).members
carried-IsAssigned before after members group_did did role from same a k =
    subst (λ (ms : List HostedMember). IsAssigned group_did did role from (roster ms) × Keyed ms)
      (sym same) (a, k)

stays :
    (before after : HostDb)
    → (core after).members ≡ (core before).members
    → Keyed (core before).members
    → IsMove before after
stays before after same k = moved_to before after (core before).members same (stay (λ g d. refl)) k

module _ (world : World) (context : GroupRequest) (before after : HostDb) (r : Fields)
    (k : Keyed (core before).members) where
  pub entered-IsAssigned :
      (is_join : Bool) (e : IsEntered world context is_join before after r)
      → (roster (core before).members context.target_did e.newcomer.did ≡ none)
        × IsAssigned context.target_did e.newcomer.did
            (some e.newcomer.role)
            (roster (core before).members)
            (roster (core after).members)
        × Keyed (core after).members
  unfolding roster core
  entered-IsAssigned is_join e =
      let row = entrant_row world context.target_did e.newcomer e.home in
      let rows = before.db.hosted_group_members in
      let (assigned, keyed) =
        carried-IsAssigned before after _ context.target_did e.newcomer.did (some e.newcomer.role)
          (roster rows)
          (ap (λ (c : Core). c.members) (e.made.tables)
            ∙ ap (λ (c : Core). c.members) e.activated.tables)
          (upsert-IsAssigned row rows refl) (upsert-Keyed row rows k) in
      (
        ap role_of (no_role context.target_did e.newcomer.did rows k e.activated.is_new),
        assigned,
        keyed,
      )

  pub ended-IsAssigned :
      (is_leave : Bool) (e : IsEnded world context is_leave before after r)
      → (roster (core before).members context.target_did e.did ≡ some e.ending.subject.role)
        × IsAssigned context.target_did e.did none
            (roster (core before).members)
            (roster (core after).members)
        × Keyed (core after).members
  unfolding roster core
  ended-IsAssigned is_leave e =
      let change = λ (m : HostedMember). record m {
        status = ending_status is_leave;
        ended_at = some world.now;
      } in
      let rows = before.db.hosted_group_members in
      let (assigned, keyed) =
        carried-IsAssigned before after _ context.target_did e.did none (roster rows)
          (ap (λ (c : Core). c.members) (e.made.tables) ∙ ap (λ (c : Core). c.members) e.tables)
          (end-IsAssigned context.target_did e.did change rows (λ m. idle is_leave))
          (update-Keyed (is_row context.target_did e.did) change rows (λ m f. (refl, refl)) k) in
      (ap role_of e.ending.is_subject, assigned, keyed)
    where
      idle : (is_leave : Bool) → is_active (ending_status is_leave) ≡ false
      idle true = refl
      idle false = refl

  entered-IsMove :
      (is_join : Bool) → IsEntered world context is_join before after r → IsMove before after
  entered-IsMove is_join e =
      let (absent, assigned, keyed) = entered-IsAssigned is_join e in
      (enter context.target_did e.newcomer.did e.newcomer.role absent assigned, keyed)

  ended-IsMove :
      (is_leave : Bool) → IsEnded world context is_leave before after r → IsMove before after
  ended-IsMove is_leave e =
      let (there, assigned, keyed) = ended-IsAssigned is_leave e in
      (exit context.target_did e.did e.ending.subject.role there assigned, keyed)

  updated-IsMove :
      (is_profile : Bool) → IsUpdated world context is_profile before after r → IsMove before after
  updated-IsMove is_profile e = stays before after (ap (λ (c : Core). c.members) e.made.tables) k

  taken-IsMove : IsTaken world context before after r → IsMove before after
  taken-IsMove e = stays before after (ap (λ (c : Core). c.members) e.sent.tables) k

-- The row of a checked rebinding, and that the new agent is not active.
checked_row :
    (world : World) (host : HostDb) (group_did : String) (r : Rebind)
    → check_rebinding world host group_did r ≡ ok tt
    → (m : HostedMember) × (first_where (is_rebound group_did r) host.db.hosted_group_members
        ≡ some m)
      × (any (is_active_row group_did r.new_did) host.db.hosted_group_members ≡ false)
unfolding check_rebinding
checked_row world host group_did r h =
    let found = first_where (is_rebound group_did r) host.db.hosted_group_members in
    let active = any (is_active_row group_did r.new_did) host.db.hosted_group_members in
    let last = raise_if active (conflict "group.rebind_target_already_member") in
    let newer = λ (previous : String).
      world.binding_generation_is_newer r.binding.binding_generation previous in
    let advanced = λ (is_newer : Bool).
      raise_if (not is_newer) (conflict "group.binding_generation_not_advanced") >> last in
    let (previous, e, h1) = >>=-eq-ok (previous_generation found) _ tt h in
    let (is_newer, f, h2) = >>=-eq-ok (newer previous) advanced tt h1 in
    let (_, h3) =
      raise_if-eq-ok (not is_newer) (conflict "group.binding_generation_not_advanced") last tt h2 in
    let (m, found_m) = row_of found previous e in
    (m, found_m, raise_if-eq-ok_tt active (conflict "group.rebind_target_already_member") h3)
  where
    row_of :
        (found : Option HostedMember) (previous : String)
        → previous_generation found ≡ ok previous
        → (m : HostedMember) × (found ≡ some m)
    row_of none previous h = cc
    row_of (some m) previous h = (m, refl)

-- The rows of a rebinding are active rows of the previous DID.
is_rebound-own :
    (group_did : String) (r : Rebind) (m : HostedMember)
    → is_rebound group_did r m ≡ true
    → is_active_row group_did r.previous_did m ≡ true
is_rebound-own group_did r m h = ground arith

first-own :
    (p q : HostedMember → Bool) (ms : List HostedMember) (m : HostedMember)
    → ((n : HostedMember) → p n ≡ true → q n ≡ true)
    → first_where p ms ≡ some m
    → (any q ms ≡ true) × (p m ≡ true)
first-own p q [] m h f = cc
first-own p q (n ∷ ms) m h f = elim (Bool-cases (p n)) [
  | inl e ↦
      let same : n ≡ m = some-injective (rw e at f) in
      let met = h n e in (ground arith, subst (λ (x : HostedMember). p x ≡ true) same e)
  | inr e ↦ let later = first-own p q ms m h (rw e at f) in (ground (arith, later.0), later.1)
]
  where
    some-injective : {a b : HostedMember} → ◌≡◌ {A = Option HostedMember} (some a) (some b) → a ≡ b
    some-injective h = cc

-- The row that a test finds among the rows of one agent is the active row of the agent.
first_own-Keyed :
    (g d : String) (test : HostedMember → Bool) (ms : List HostedMember) (m : HostedMember)
    → ((n : HostedMember) → test n ≡ true → is_active_row g d n ≡ true)
    → Keyed ms
    → first_where test ms ≡ some m
    → first_where (is_active_row g d) ms ≡ some m
first_own-Keyed g d test [] m own k f = cc
first_own-Keyed g d test (n ∷ ms) m own k f = elim (Bool-cases (test n)) [
  | inl e ↦ rw (own n e) (rw e at f)
  | inr e ↦ elim (Bool-cases (is_active_row g d n)) [
    | inl here ↦
        let later =
          (first-own test (is_row g d) ms m (λ o t. row_of_own o (own o t)) (rw e at f)).0 in
        let group = (eq_iff n.group_did g).0 (ground arith) in
        let agent = (eq_iff n.agent_did d).0 (ground arith) in
        let absent : any (is_row g d) ms ≡ false =
          ap (λ (x : String). any (is_row x d) ms) (sym group)
          ∙ ap (λ (x : String). any (is_row n.group_did x) ms) (sym agent)
          ∙ k.0 in
        absurd (false≢true (sym absent ∙ later))
    | inr there ↦ rw there (first_own-Keyed g d test ms m own k.1 (rw e at f))
  ]
]
  where
    row_of_own : (o : HostedMember) → is_active_row g d o ≡ true → is_row g d o ≡ true
    row_of_own o h = ground arith

module _ (world : World) (context : GroupRequest) (before after : HostDb) (r : Fields)
    (k : Keyed (core before).members) where
  pub rebound-IsAssigned :
      (e : IsRebound world context before after r)
      → let group_did = context.target_did in
        let old = e.rebind.previous_did in
        let rows = roster (core before).members in
        (role : String) × (rows group_did old ≡ some role)
        × (rows group_did e.rebind.new_did ≡ none)
        × ((old == e.rebind.new_did) ≡ false)
        × IsAssigned group_did e.rebind.new_did
            (some role)
            (λ g d. if is_at group_did old g d then none else rows g d)
            (roster (core after).members)
        × Keyed (core after).members
  unfolding core roster
  rebound-IsAssigned e =
      let ms = before.db.hosted_group_members in
      let group_did = context.target_did in
      let old = e.rebind.previous_did in
      let new_did = e.rebind.new_did in
      let test = is_rebound group_did e.rebind in
      let own = is_rebound-own group_did e.rebind in
      let change = λ (m : HostedMember). record m {
        agent_did = new_did;
        handle_binding_generation = some e.rebind.binding.binding_generation;
        home_service_did = some e.home;
      } in
      let (m, found, idle) = checked_row world before group_did e.rebind e.checked in
      let has_old = (first-own test (is_active_row group_did old) ms m own found).0 in
      let apart = differ old new_did has_old idle in
      let absent : any (is_row group_did new_did) ms ≡ false =
        ground (arith, e.free, eq_iff old new_did, eq_iff new_did old, apart) in
      let group_of = λ (n : HostedMember) (t : test n ≡ true).
        (eq_iff n.group_did group_did).0 (ground (arith, own n t)) in
      let (assigned, keyed) =
        carried-IsAssigned before after _ group_did new_did (some m.role)
          (λ g d. if is_at group_did old g d then none else roster ms g d)
          (ap (λ (c : Core). c.members) (e.made.tables) ∙ ap (λ (c : Core). c.members) e.tables)
          (rename-IsAssigned group_did old new_did test change own
            (λ n t. (group_of n t, refl, refl, refl)) ms m found k absent apart)
          (rename-Keyed group_did old new_did test change ms
            (λ n t. row_of_own group_did old n (own n t)) (λ n t. (group_of n t, refl)) absent k) in
      (
        m.role,
        ap role_of (first_own-Keyed group_did old test ms m own k found),
        ap role_of (first_where-none (is_active_row group_did new_did) ms idle),
        apart,
        assigned,
        keyed,
      )
    where
      differ :
          (old new_did : String)
          → any (is_active_row context.target_did old) before.db.hosted_group_members ≡ true
          → any (is_active_row context.target_did new_did) before.db.hosted_group_members ≡ false
          → (old == new_did) ≡ false
      differ old new_did h n = elim (Bool-cases (old == new_did)) [
        | inl e ↦ absurd (
            false≢true (
              sym n
              ∙ ap
                  (λ (x : String).
                    any (is_active_row context.target_did x) before.db.hosted_group_members)
                  (sym ((eq_iff old new_did).0 e))
              ∙ h))
        | inr e ↦ e
      ]

      row_of_own :
          (g d : String) (o : HostedMember) → is_active_row g d o ≡ true → is_row g d o ≡ true
      row_of_own g d o h = ground arith

rebound-IsMove :
    (world : World) (context : GroupRequest) (before after : HostDb) (r : Fields)
    → Keyed (core before).members
    → IsRebound world context before after r
    → IsMove before after
rebound-IsMove world context before after r k e =
    let (role, there, absent, apart, assigned, keyed) =
      rebound-IsAssigned world context before after r k e in
    (
      rename context.target_did e.rebind.previous_did e.rebind.new_did role there absent apart
          assigned,
      keyed,
    )

replayed-IsMove :
    (before after : HostDb) → after ≡ before → Keyed (core before).members → IsMove before after
replayed-IsMove before after same k =
    stays before after (ap (λ (h : HostDb). (core h).members) same) k

-- Each handler that succeeds moves the map from agents to roles by one move of the specification: no
-- role changes, one agent gets a role that had none, one agent loses its role, or one agent's role
-- goes to another that had none. Each agent still has one row in a group at most.
pub Step-Move :
    {before after : HostDb}
    → Step before after
    → Keyed (core before).members
    → Move (roster (core before).members) (roster (core after).members) × Keyed (core after).members
unfolding hosted_group_join hosted_group_add hosted_group_leave hosted_group_remove
    hosted_group_update_profile hosted_group_update_policy
Step-Move {before = before} {after = after} (joins world caller params earlier r h) k =
    elim (membership_mutation_inv world caller params true earlier before after r h) [
      | inl same ↦ replayed-IsMove before after same.nothing k
      | inr (context, c, e, asked) ↦ entered-IsMove world context before after r k true e
    ]
Step-Move {before = before} {after = after} (adds world caller params earlier r h) k =
    elim (membership_mutation_inv world caller params false earlier before after r h) [
      | inl same ↦ replayed-IsMove before after same.nothing k
      | inr (context, c, e, asked) ↦ entered-IsMove world context before after r k false e
    ]
Step-Move {before = before} {after = after} (leaves world caller params r h) k =
    elim (end_membership_inv world caller params true before after r h) [
      | inl same ↦ replayed-IsMove before after same.nothing k
      | inr (context, c, e) ↦ ended-IsMove world context before after r k true e
    ]
Step-Move {before = before} {after = after} (removes world caller params r h) k =
    elim (end_membership_inv world caller params false before after r h) [
      | inl same ↦ replayed-IsMove before after same.nothing k
      | inr (context, c, e) ↦ ended-IsMove world context before after r k false e
    ]
Step-Move {before = before} {after = after} (rebinds world caller params earlier r h) k =
    elim (hosted_group_rebind_member_inv world caller params earlier before after r h) [
      | inl same ↦ replayed-IsMove before after same.nothing k
      | inr (context, c, e, asked) ↦ rebound-IsMove world context before after r k e
    ]
Step-Move {before = before} {after = after} (updates_profile world caller params r h) k =
    elim (update_group_inv world caller params true before after r h) [
      | inl same ↦ replayed-IsMove before after same.nothing k
      | inr (context, c, e) ↦ updated-IsMove world context before after r k true e
    ]
Step-Move {before = before} {after = after} (updates_policy world caller params r h) k =
    elim (update_group_inv world caller params false before after r h) [
      | inl same ↦ replayed-IsMove before after same.nothing k
      | inr (context, c, e) ↦ updated-IsMove world context before after r k false e
    ]
Step-Move {before = before} {after = after} (sends world caller params r h) k =
    elim (hosted_group_send_inv world caller params before after r h) [
      | inl same ↦ replayed-IsMove before after same.nothing k
      | inr (context, c, e) ↦ taken-IsMove world context before after r k e
    ]
