-- ===== src/Hosting/Renamed.antt =====
-- messaging/groups/service.py: a rebinding moves the role of one agent to another.
use awiki_open_server.Shared.{
  String, ◌≡◌, refl, sym, ap, ◌∙◌, Bool, true, false, ◌&&◌, Option, none, some, List, [], ◌∷◌, inl,
  inr, if◌then◌else◌, Bool-cases, arith, ◌==◌, eq_iff, eq_refl, false≢true,
}
use awiki_open_server.Shared.Lists.{any}
use awiki_open_server.Shared.Table.{first_where, update_where}
use awiki_open_server.Shared.Keys.{first-update_apart}
use awiki_open_server.Storage.{HostedMember, is_active}
use awiki_open_server.Host.{is_row, is_active_row}
use awiki_open_server.Hosting.Keyed.{Keyed}
use awiki_open_server.Hosting.Roster.{
  roster, role_of, is_at, IsAssigned, one_role, active_of_row, row-apart,
}

-- The rows of a rebinding: those of one agent that are active, of which there is one.
module _ (group_did did new_did : String) (test : HostedMember → Bool)
    (change : HostedMember → HostedMember)
    (is_own : (m : HostedMember) → test m ≡ true → is_active_row group_did did m ≡ true)
    (renames : (m : HostedMember)
      → test m ≡ true
      → ((change m).group_did ≡ group_did)
        × ((change m).agent_did ≡ new_did)
        × ((change m).status ≡ m.status)
        × ((change m).role ≡ m.role)) where
  renamed-apart :
      (g d : String) (m : HostedMember)
      → is_at group_did new_did g d ≡ false
      → test m ≡ true
      → is_active_row g d (change m) ≡ false
  renamed-apart g d m a e =
      let (group, agent, status, role) = renames m e in
      row-apart group_did new_did g d (change m) a (
        ap (λ (x : String). x == group_did && (change m).agent_did == new_did) group
        ∙ ap (λ (x : String). group_did == group_did && x == new_did) agent
        ∙ ground (arith, eq_refl group_did, eq_refl new_did))

  -- The new agent has the role of the row.
  first_new :
      (ms : List HostedMember) (m : HostedMember)
      → first_where test ms ≡ some m
      → any (is_row group_did new_did) ms ≡ false
      → role_of (first_where (is_active_row group_did new_did) (update_where test change ms))
        ≡ some m.role
  first_new [] m f n = cc
  first_new (r ∷ ms) m f n = elim (Bool-cases (test r)) [
    | inl e ↦
        let same : r ≡ m = some-injective (rw e at f) in
        let (group, agent, status, role) = renames r e in
        rw e (rw (met r e) (role_same r m role same))
    | inr e ↦
        let absent : is_active_row group_did new_did r ≡ false =
          active_of_row group_did new_did r (ground arith) in
        rw e (rw absent (first_new ms m (rw e at f) (ground arith)))
  ]
    where
      some-injective :
          {a b : HostedMember} → ◌≡◌ {A = Option HostedMember} (some a) (some b) → a ≡ b
      some-injective h = cc

      role_same :
          (r m : HostedMember)
          → (change r).role ≡ r.role
          → r ≡ m
          → some (change r).role ≡ some m.role
      role_same r m h k = ap some (h ∙ ap (λ (x : HostedMember). x.role) k)

      met : (r : HostedMember) → test r ≡ true → is_active_row group_did new_did (change r) ≡ true
      met r e =
          let (group, agent, status, role) = renames r e in
          ap
            (λ (x : String).
              (x == group_did && (change r).agent_did == new_did) && is_active (change r).status)
            group
          ∙ ap
              (λ (x : String).
                (group_did == group_did && x == new_did) && is_active (change r).status)
              agent
          ∙ ap (λ x. (group_did == group_did && new_did == new_did) && is_active x) status
          ∙ ground (arith, is_own r e, eq_refl group_did, eq_refl new_did)

  absent_none :
      (ms : List HostedMember)
      → any (is_row group_did did) ms ≡ false
      → first_where (is_active_row group_did did) (update_where test change ms) ≡ none
  absent_none [] n = refl
  absent_none (r ∷ ms) n = elim (Bool-cases (test r)) [
    | inl e ↦
        let own = is_own r e in
        let apart : is_row group_did did r ≡ false = ground arith in
        absurd (false≢true (sym (active_of_row group_did did r apart) ∙ own))
    | inr e ↦
        let apart : is_active_row group_did did r ≡ false =
          active_of_row group_did did r (ground arith) in
        rw e (rw apart (absent_none ms (ground arith)))
  ]

  found_any :
      (ms : List HostedMember) (m : HostedMember)
      → first_where test ms ≡ some m
      → any (is_row group_did did) ms ≡ true
  found_any [] m f = cc
  found_any (r ∷ ms) m f = elim (Bool-cases (test r)) [
    | inl e ↦
        let own = is_own r e in
        let here : is_row group_did did r ≡ true = ground arith in ground arith
    | inr e ↦ let later = found_any ms m (rw e at f) in ground arith
  ]

  -- The agent that had the role has none.
  first_old :
      (ms : List HostedMember) (m : HostedMember)
      → first_where test ms ≡ some m
      → Keyed ms
      → is_at group_did new_did group_did did ≡ false
      → first_where (is_active_row group_did did) (update_where test change ms) ≡ none
  first_old [] m f k a = cc
  first_old (r ∷ ms) m f k a = elim (Bool-cases (test r)) [
    | inl e ↦ rw e (rw (renamed-apart group_did did r a e) (absent_none ms (same_key r e k.0)))
    | inr e ↦ elim (Bool-cases (is_row group_did did r)) [
      | inl here ↦
          let later = found_any ms m (rw e at f) in
          absurd (false≢true (sym (other_key r here k.0) ∙ later))
      | inr there ↦
          rw e (rw (active_of_row group_did did r there) (first_old ms m (rw e at f) k.1 a))
    ]
  ]
    where
      other_key :
          (r : HostedMember)
          → is_row group_did did r ≡ true
          → any (is_row r.group_did r.agent_did) ms ≡ false
          → any (is_row group_did did) ms ≡ false
      other_key r h n =
          let group = (eq_iff r.group_did group_did).0 (ground arith) in
          let agent = (eq_iff r.agent_did did).0 (ground arith) in
          ap (λ (x : String). any (is_row x did) ms) (sym group)
          ∙ ap (λ (x : String). any (is_row r.group_did x) ms) (sym agent)
          ∙ n

      same_key :
          (r : HostedMember)
          → test r ≡ true
          → any (is_row r.group_did r.agent_did) ms ≡ false
          → any (is_row group_did did) ms ≡ false
      same_key r e n = let own = is_own r e in other_key r (ground arith) n

  -- The role of the agent is that of the other now, and the rest of the roster is as it was.
  pub rename-IsAssigned :
      (ms : List HostedMember) (m : HostedMember)
      → first_where test ms ≡ some m
      → Keyed ms
      → any (is_row group_did new_did) ms ≡ false
      → (did == new_did) ≡ false
      → IsAssigned group_did new_did
          (some m.role)
          (λ g d. if is_at group_did did g d then none else roster ms g d)
          (roster (update_where test change ms))
  unfolding roster
  rename-IsAssigned ms m f k n apart =
      let after = roster (update_where test change ms) in
      let old : is_at group_did new_did group_did did ≡ false =
        ground (arith, eq_iff did new_did, eq_iff new_did did) in
      let gone =
        one_role group_did did none
          (λ g d. if is_at group_did new_did g d then after g d else roster ms g d) after
          (ap role_of (first_old ms m f k old))
          (λ g d a. elim (Bool-cases (is_at group_did new_did g d)) [
            | inl e ↦ rw e refl
            | inr e ↦ rw e (
                ap role_of (
                  first-update_apart (is_active_row g d) test change ms (λ r h. (
                    row-apart group_did did g d r a (ground (arith, is_own r h)),
                    renamed-apart g d r e h,
                  ))))
          ]) in
      one_role group_did new_did (some m.role)
        (λ g d. if is_at group_did did g d then none else roster ms g d) after (first_new ms m f n)
        (λ g d a. gone g d ∙ rw a refl)
