-- ===== src/Hosting/Roster.antt =====
-- messaging/groups/service.py: the members of the groups as a map from agents to roles, and how the
-- handlers move it.
use awiki_open_server.Shared.{
  String, ◌≡◌, sym, ap, ◌∙◌, Bool, true, false, ◌&&◌, Option, none, some, List, inl, inr,
  if◌then◌else◌, Bool-cases, arith, ◌==◌, eq_iff, eq_refl,
}
use awiki_open_server.Shared.Lists.{any}
use awiki_open_server.Shared.Table.{first_where, update_where}
use awiki_open_server.Shared.Keys.{
  first-update_apart, first-update_none, first-update_all, first-append_same, first-append_other,
  any-eq-false-imp,
}
use awiki_open_server.Storage.{HostedMember, is_active}
use awiki_open_server.Host.{is_row, is_active_row, upsert}
use awiki_open_server.Hosting.Keyed.{is_row_self}

abbrev pub role_of : Option HostedMember → Option String
role_of none = none
role_of (some m) = some m.role

-- The role of an active member, by group and agent.
abbrev pub Roster : Type 0
Roster = String → String → Option String

unfoldable pub roster : List HostedMember → Roster
roster members group_did did = role_of (first_where (is_active_row group_did did) members)

abbrev pub is_at : String → String → String → String → Bool
is_at group_did did g d = group_did == g && did == d

-- A roster that differs from another at most in the role of one agent of one group.
abbrev pub IsAssigned : String → String → Option String → Roster → Roster → Type 0
IsAssigned group_did did role before after =
    (g d : String) → after g d ≡ (if is_at group_did did g d then role else before g d)

-- What the members of the groups may become in one step, whatever stores them.
pub data Move (before after : Roster) : Type 0 where
  stay : ((g d : String) → after g d ≡ before g d) → Move before after
  enter :
      (group_did did role : String)
      → before group_did did ≡ none
      → IsAssigned group_did did (some role) before after
      → Move before after
  exit :
      (group_did did role : String)
      → before group_did did ≡ some role
      → IsAssigned group_did did none before after
      → Move before after
  rename :
      (group_did did new_did role : String)
      → before group_did did ≡ some role
      → before group_did new_did ≡ none
      → (did == new_did) ≡ false
      → IsAssigned group_did new_did
          (some role)
          (λ g d. if is_at group_did did g d then none else before g d)
          after
      → Move before after

pub active_of_row :
    (g d : String) (m : HostedMember) → is_row g d m ≡ false → is_active_row g d m ≡ false
active_of_row g d m h = ground arith

-- A row of one agent is none of another's.
pub row-apart :
    (group_did did g d : String) (m : HostedMember)
    → is_at group_did did g d ≡ false
    → is_row group_did did m ≡ true
    → is_active_row g d m ≡ false
row-apart group_did did g d m a h = ground (
  arith,
  eq_iff m.group_did group_did,
  eq_iff m.agent_did did,
  eq_iff group_did g,
  eq_iff did d,
  eq_iff m.group_did g,
  eq_iff m.agent_did d,
)

at_same :
    (group_did did g d : String) → is_at group_did did g d ≡ true → (group_did ≡ g) × (did ≡ d)
at_same group_did did g d h =
    ((eq_iff group_did g).0 (ground arith), (eq_iff did d).0 (ground arith))

-- A roster is set where it has the role of the agent, and agrees elsewhere.
pub one_role :
    (group_did did : String) (role : Option String) (before after : Roster)
    → after group_did did ≡ role
    → ((g d : String) → is_at group_did did g d ≡ false → after g d ≡ before g d)
    → IsAssigned group_did did role before after
one_role group_did did role before after here there g d =
    elim (Bool-cases (is_at group_did did g d)) [
      | inl e ↦
          let (group, agent) = at_same group_did did g d e in
          rw e (
            ap (λ (x : String). after x d) (sym group)
            ∙ ap (λ (x : String). after group_did x) (sym agent)
            ∙ here)
      | inr e ↦ rw e (there g d e)
    ]

-- An upsert of an active row sets its role, and touches nothing else.
first-upsert_same :
    (row : HostedMember) (ms : List HostedMember)
    → is_active row.status ≡ true
    → first_where
        (is_active_row row.group_did row.agent_did)
        (upsert (is_row row.group_did row.agent_did) (λ m. row) row ms)
      ≡ some row
unfolding upsert
first-upsert_same row ms h =
    let own = λ (m : HostedMember). is_active_row row.group_did row.agent_did m in
    let met : own row ≡ true = ground (arith, eq_refl row.group_did, eq_refl row.agent_did) in
    elim (Bool-cases (any (is_row row.group_did row.agent_did) ms)) [
      | inl e ↦ rw e (
          first-update_all own (is_row row.group_did row.agent_did) row ms
            (λ r f. active_of_row row.group_did row.agent_did r f) met e)
      | inr e ↦ rw e (
          first-append_same own row ms met (
            any-eq-false-imp (is_row row.group_did row.agent_did) own ms
              (λ r f. active_of_row row.group_did row.agent_did r f) e))
    ]

first-upsert_other :
    (row : HostedMember) (ms : List HostedMember) (g d : String)
    → is_at row.group_did row.agent_did g d ≡ false
    → first_where
        (is_active_row g d)
        (upsert (is_row row.group_did row.agent_did) (λ m. row) row ms)
      ≡ first_where (is_active_row g d) ms
unfolding upsert
first-upsert_other row ms g d a =
    let apart = row-apart row.group_did row.agent_did g d row a (is_row_self row) in
    elim (Bool-cases (any (is_row row.group_did row.agent_did) ms)) [
      | inl e ↦ rw e (
          first-update_apart (is_active_row g d) (is_row row.group_did row.agent_did) (λ m. row) ms
            (λ m f. (row-apart row.group_did row.agent_did g d m a f, apart)))
      | inr e ↦ rw e (first-append_other (is_active_row g d) row ms apart)
    ]

pub upsert-IsAssigned :
    (row : HostedMember) (ms : List HostedMember)
    → is_active row.status ≡ true
    → IsAssigned row.group_did row.agent_did
        (some row.role)
        (roster ms)
        (roster (upsert (is_row row.group_did row.agent_did) (λ m. row) row ms))
unfolding roster
upsert-IsAssigned row ms h =
    one_role row.group_did row.agent_did (some row.role) (roster ms)
      (roster (upsert (is_row row.group_did row.agent_did) (λ m. row) row ms))
      (ap role_of (first-upsert_same row ms h))
      (λ g d a. ap role_of (first-upsert_other row ms g d a))

-- A change of the rows of an agent that makes them inactive takes its role away.
pub end-IsAssigned :
    (group_did did : String) (change : HostedMember → HostedMember) (ms : List HostedMember)
    → ((m : HostedMember) → is_active (change m).status ≡ false)
    → IsAssigned group_did did none
        (roster ms)
        (roster (update_where (is_row group_did did) change ms))
unfolding roster
end-IsAssigned group_did did change ms k =
    one_role group_did did none (roster ms) (roster (update_where (is_row group_did did) change ms))
      (ap role_of (
        first-update_none (is_active_row group_did did) (is_row group_did did) change ms
          (λ m e. active_of_row group_did did m e) (λ m e. ended group_did did m)))
      (λ g d a. ap role_of (
        first-update_apart (is_active_row g d) (is_row group_did did) change ms
          (λ m e. (row-apart group_did did g d m a e, ended g d m))))
  where
    ended : (g d : String) (m : HostedMember) → is_active_row g d (change m) ≡ false
    ended g d m = ground (arith, k m)
