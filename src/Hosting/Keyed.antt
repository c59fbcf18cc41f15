-- ===== src/Hosting/Keyed.antt =====
-- messaging/groups/service.py: each agent has one row in a group at most, whatever the handlers do to
-- the members.
use awiki_open_server.Shared.{
  String, ◌≡◌, refl, sym, ap, ◌∙◌, Bool, true, false, ◌&&◌, List, [], ◌∷◌, ◌++◌, inl, inr,
  Bool-cases, arith, ◌==◌, eq_iff, eq_refl, false≢true,
}
use awiki_open_server.Shared.Lists.{any, any-append}
use awiki_open_server.Shared.Table.{update_where}
use awiki_open_server.Storage.{HostedMember}
use awiki_open_server.Host.{is_row, upsert}

abbrev pub Keyed : List HostedMember → Type 0
Keyed [] = Unit
Keyed (m ∷ ms) = (any (is_row m.group_did m.agent_did) ms ≡ false) × Keyed ms

pub is_row_self : (m : HostedMember) → is_row m.group_did m.agent_did m ≡ true
is_row_self m = ground (arith, eq_refl m.group_did, eq_refl m.agent_did)

pub is_row_sym :
    (m n : HostedMember) → is_row m.group_did m.agent_did n ≡ is_row n.group_did n.agent_did m
is_row_sym m n = ground (
  arith,
  eq_iff m.group_did n.group_did,
  eq_iff n.group_did m.group_did,
  eq_iff m.agent_did n.agent_did,
  eq_iff n.agent_did m.agent_did,
)

-- A change that keeps the key of each row that it touches.
pub any-update_keeps :
    (p test : HostedMember → Bool) (change : HostedMember → HostedMember) (ms : List HostedMember)
    → ((m : HostedMember) → test m ≡ true → p (change m) ≡ p m)
    → any p (update_where test change ms) ≡ any p ms
any-update_keeps p test change [] k = refl
any-update_keeps p test change (m ∷ ms) k = elim (Bool-cases (test m)) [
  | inl e ↦ rw e (rw (k m e) (rw (any-update_keeps p test change ms k) refl))
  | inr e ↦ rw e (rw (any-update_keeps p test change ms k) refl)
]

abbrev SameKey : HostedMember → HostedMember → Type 0
SameKey m n = (m.group_did ≡ n.group_did) × (m.agent_did ≡ n.agent_did)

is_row-same : (g d : String) (m n : HostedMember) → SameKey m n → is_row g d m ≡ is_row g d n
is_row-same g d m n h =
    ap (λ (x : String). x == g && m.agent_did == d) h.0
    ∙ ap (λ (x : String). n.group_did == g && x == d) h.1

pub update-Keyed :
    (test : HostedMember → Bool) (change : HostedMember → HostedMember) (ms : List HostedMember)
    → ((m : HostedMember) → test m ≡ true → SameKey (change m) m)
    → Keyed ms
    → Keyed (update_where test change ms)
update-Keyed test change [] k h = tt
update-Keyed test change (m ∷ ms) k h =
    let rest = update-Keyed test change ms k h.1 in
    let keeps = λ (g d : String).
      any-update_keeps (is_row g d) test change ms (λ n e. is_row-same g d (change n) n (k n e)) in
    elim (Bool-cases (test m)) [
      | inl e ↦
          let (same_group, same_agent) = k m e in
          rw e (
            keeps (change m).group_did (change m).agent_did
                ∙ ap (λ (x : String). any (is_row x (change m).agent_did) ms) same_group
                ∙ ap (λ (x : String). any (is_row m.group_did x) ms) same_agent
                ∙ h.0,
            rest,
          )
      | inr e ↦ rw e (keeps m.group_did m.agent_did ∙ h.0, rest)
    ]

pub append-Keyed :
    (row : HostedMember) (ms : List HostedMember)
    → Keyed ms
    → any (is_row row.group_did row.agent_did) ms ≡ false
    → Keyed (ms ++ row ∷ [])
append-Keyed row [] h k = (refl, tt)
append-Keyed row (m ∷ ms) h k =
    let apart = is_row_sym m row in
    (
      any-append (is_row m.group_did m.agent_did) ms (row ∷ []) ∙ ground arith,
      append-Keyed row ms h.1 (ground arith),
    )

pub upsert-Keyed :
    (row : HostedMember) (ms : List HostedMember)
    → Keyed ms
    → Keyed (upsert (is_row row.group_did row.agent_did) (λ m. row) row ms)
unfolding upsert
upsert-Keyed row ms h = elim (Bool-cases (any (is_row row.group_did row.agent_did) ms)) [
  | inl e ↦ rw e (
      update-Keyed (is_row row.group_did row.agent_did) (λ m. row) ms
        (λ m f. let (g, d) = keys row m f in (g, d)) h)
  | inr e ↦ rw e (append-Keyed row ms h e)
]
  where
    keys : (row m : HostedMember) → is_row row.group_did row.agent_did m ≡ true → SameKey row m
    keys row m f = (
      (eq_iff row.group_did m.group_did).0
          (ground (arith, eq_iff m.group_did row.group_did, eq_iff row.group_did m.group_did)),
      (eq_iff row.agent_did m.agent_did).0
          (ground (arith, eq_iff m.agent_did row.agent_did, eq_iff row.agent_did m.agent_did)),
    )

-- A change that gives the one row of an agent to another, who had none.
pub rename-Keyed :
    (g d new_did : String) (test : HostedMember → Bool) (change : HostedMember → HostedMember)
    (ms : List HostedMember)
    → ((m : HostedMember) → test m ≡ true → is_row g d m ≡ true)
    → ((m : HostedMember)
        → test m ≡ true
        → ((change m).group_did ≡ g) × ((change m).agent_did ≡ new_did))
    → any (is_row g new_did) ms ≡ false
    → Keyed ms
    → Keyed (update_where test change ms)
rename-Keyed g d new_did test change [] t k n h = tt
rename-Keyed g d new_did test change (m ∷ ms) t k n h =
    let rest = rename-Keyed g d new_did test change ms t k (ground arith) h.1 in
    elim (Bool-cases (test m)) [
      | inl e ↦
          let (group, agent) = k m e in
          let no_more = others_absent ms m (t m e) h.0 in
          rw e (
            ap (λ (x : String). any (is_row x (change m).agent_did) (update_where test change ms))
                  group
                ∙ ap (λ (x : String). any (is_row g x) (update_where test change ms)) agent
                ∙ any-update_absent (is_row g new_did) ms no_more
                ∙ ground arith,
            rest,
          )
      | inr e ↦
          let not_new : is_row g new_did m ≡ false = ground arith in
          rw e (
            any-update_other (is_row m.group_did m.agent_did) ms (λ r f. is_new m r (k r f) not_new)
                h.0,
            rest,
          )
    ]
  where
    same_row :
        (m n : HostedMember)
        → is_row g d m ≡ true
        → is_row g d n ≡ true
        → is_row m.group_did m.agent_did n ≡ true
    same_row m n a b = ground (
      arith,
      eq_iff m.group_did g,
      eq_iff n.group_did g,
      eq_iff m.agent_did d,
      eq_iff n.agent_did d,
      eq_iff n.group_did m.group_did,
      eq_iff n.agent_did m.agent_did,
    )

    -- Behind the row of the agent there is no row that is touched.
    others_absent :
        (ms : List HostedMember) (m : HostedMember)
        → is_row g d m ≡ true
        → any (is_row m.group_did m.agent_did) ms ≡ false
        → any test ms ≡ false
    others_absent [] m r a = refl
    others_absent (n ∷ ms) m r a = elim (Bool-cases (test n)) [
      | inl e ↦
          let apart : is_row m.group_did m.agent_did n ≡ false = ground arith in
          absurd (false≢true (sym apart ∙ same_row m n r (t n e)))
      | inr e ↦ rw e (others_absent ms m r (ground arith))
    ]

    any-update_absent :
        (p : HostedMember → Bool) (ms : List HostedMember)
        → any test ms ≡ false
        → any p (update_where test change ms) ≡ any p ms
    any-update_absent p [] a = refl
    any-update_absent p (n ∷ ms) a = elim (Bool-cases (test n)) [
      | inl e ↦ cc (rw e at a)
      | inr e ↦ rw e (rw (any-update_absent p ms (rw e at a)) refl)
    ]

    any-update_other :
        (p : HostedMember → Bool) (ms : List HostedMember)
        → ((r : HostedMember) → test r ≡ true → p (change r) ≡ false)
        → any p ms ≡ false
        → any p (update_where test change ms) ≡ false
    any-update_other p [] f a = refl
    any-update_other p (n ∷ ms) f a = elim (Bool-cases (test n)) [
      | inl e ↦ rw e (rw (f n e) (any-update_other p ms f (ground arith)))
      | inr e ↦ rw e (elim (Bool-cases (p n)) [
        | inl b ↦ cc (rw b at a)
        | inr b ↦ rw b (any-update_other p ms f (rw b at a))
      ])
    ]

    is_new :
        (m r : HostedMember)
        → ((change r).group_did ≡ g) × ((change r).agent_did ≡ new_did)
        → is_row g new_did m ≡ false
        → is_row m.group_did m.agent_did (change r) ≡ false
    is_new m r (a, b) n =
        ap (λ (x : String). x == m.group_did && (change r).agent_did == m.agent_did) a
        ∙ ap (λ (x : String). g == m.group_did && x == m.agent_did) b
        ∙ ground (
          arith,
          eq_iff g m.group_did,
          eq_iff m.group_did g,
          eq_iff new_did m.agent_did,
          eq_iff m.agent_did new_did,
        )
