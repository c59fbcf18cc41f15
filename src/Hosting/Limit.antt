-- ===== src/Hosting/Limit.antt =====
-- messaging/groups/service.py: no group gets more than MAX_MEMBERS active members.
use awiki_open_server.Shared.{
  ℕ, ◌+◌, ◌≤◌, ◌<◌, String, ◌≡◌, refl, sym, ap, ◌∙◌, subst, Bool, true, false, List, [], ◌∷◌, inl,
  inr, Bool-cases, leb, arith, ◌==◌, eq_iff, ok, ok-injective,
}
use awiki_open_server.Shared.Lists.{any}
use awiki_open_server.Shared.Decimal.{show}
use awiki_open_server.Shared.Python.{ℤ, pos, int_of, int_of_text, int_of_text-show, item}
use awiki_open_server.Shared.Json.{Fields, str, obj}
use awiki_open_server.Shared.Table.{count_where, update_where}
use awiki_open_server.Storage.{HostedMember}
use awiki_open_server.Delivery.Capacity.{count_where-append}
use awiki_open_server.Policy.{max_members}
use awiki_open_server.Policy.Validated.{IsPolicy, contains_of-get}
use awiki_open_server.Host.{World, is_row, is_active_in, upsert, is_full, member_limit_of}
use awiki_open_server.Hosting.Keyed.{Keyed}

-- A change that makes no row count that did not count before.
pub count-update-le :
    (p test : HostedMember → Bool) (change : HostedMember → HostedMember) (ms : List HostedMember)
    → ((m : HostedMember) → test m ≡ true → p (change m) ≡ true → p m ≡ true)
    → count_where p (update_where test change ms) ≤ count_where p ms
count-update-le p test change [] k = omega arith
count-update-le p test change (m ∷ ms) k =
    let rest = count-update-le p test change ms k in
    elim (Bool-cases (test m)) [
      | inl e ↦ elim (Bool-cases (p (change m))) [
        | inl f ↦ rw e (rw f (rw (k m e f) (omega (arith, rest))))
        | inr f ↦ rw e (rw f (ground (arith, rest)))
      ]
      | inr e ↦ rw e (ground (arith, rest))
    ]

-- The row of an agent counts once.
count-upsert-le :
    (p : HostedMember → Bool) (row : HostedMember) (g d : String) (ms : List HostedMember)
    → Keyed ms
    → count_where p (upsert (is_row g d) (λ m. row) row ms) ≤ count_where p ms + 1
unfolding upsert
count-upsert-le p row g d ms k = elim (Bool-cases (any (is_row g d) ms)) [
  | inl e ↦ rw e (once ms k)
  | inr e ↦ rw e (ground (arith, count_where-append p ms (row ∷ [])))
]
  where
    untouched :
        (ms : List HostedMember)
        → any (is_row g d) ms ≡ false
        → count_where p (update_where (is_row g d) (λ m. row) ms) ≤ count_where p ms
    untouched [] a = omega arith
    untouched (m ∷ ms) a =
        let apart : is_row g d m ≡ false = ground arith in
        rw apart (ground (arith, untouched ms (ground arith)))

    once :
        (ms : List HostedMember)
        → Keyed ms
        → count_where p (update_where (is_row g d) (λ m. row) ms) ≤ count_where p ms + 1
    once [] k = omega arith
    once (m ∷ ms) k = elim (Bool-cases (is_row g d m)) [
      | inl e ↦
          let group = (eq_iff m.group_did g).0 (ground arith) in
          let agent = (eq_iff m.agent_did d).0 (ground arith) in
          let absent : any (is_row g d) ms ≡ false =
            ap (λ (x : String). any (is_row x d) ms) (sym group)
            ∙ ap (λ (x : String). any (is_row m.group_did x) ms) (sym agent)
            ∙ k.0 in
          rw e (ground (arith, untouched ms absent))
      | inr e ↦ rw e (ground (arith, once ms k.1))
    ]

-- An upsert into one group adds one active member there at most, and none to another group.
pub active-upsert-le :
    (row : HostedMember) (g : String) (ms : List HostedMember)
    → Keyed ms
    → (count_where (is_active_in g) (upsert (is_row row.group_did row.agent_did) (λ m. row) row ms)
        ≤ count_where (is_active_in g) ms + 1)
      × ((row.group_did == g) ≡ false
          → count_where
              (is_active_in g)
              (upsert (is_row row.group_did row.agent_did) (λ m. row) row ms)
            ≤ count_where (is_active_in g) ms)
unfolding upsert
active-upsert-le row g ms k = (
  count-upsert-le (is_active_in g) row row.group_did row.agent_did ms k,
  λ apart. elim (Bool-cases (any (is_row row.group_did row.agent_did) ms)) [
    | inl e ↦ rw e (
        count-update-le (is_active_in g) (is_row row.group_did row.agent_did) (λ m. row) ms
          (λ m f h. ground (arith, apart, h)))
    | inr e ↦ rw e (ground (arith, count_where-append (is_active_in g) ms (row ∷ []), apart))
  ],
)

-- Under a validated policy, where there is room, the active members are fewer than MAX_MEMBERS.
pub room_under_limit :
    (world : World) (policy : Fields) (count : ℕ) (limit : ℤ)
    → IsPolicy policy
    → member_limit_of world (obj policy) ≡ ok limit
    → is_full count limit ≡ false
    → count < max_members
unfolding member_limit_of item int_of
room_under_limit world policy count limit h e room =
    let (n, shown, low, high) = h.limit in
    let present = contains_of-get policy "max_members" (str (show n)) shown refl in
    let parsed : int_of_text (show n) ≡ ok limit = rw shown at (rw present at e) in
    let same : pos n ≡ limit =
      ok-injective (sym (int_of_text-show n (omega (arith, high))) ∙ parsed) in
    let room_n : leb n count ≡ false = subst (λ (z : ℤ). is_full count z ≡ false) (sym same) room in
    ground (arith, room_n, high)
