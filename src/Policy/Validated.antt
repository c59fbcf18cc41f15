-- ===== src/Policy/Validated.antt =====
-- What validate_policy lets through: a policy that the handlers of a group can read without an error.
use awiki_open_server.Shared.{
  ℕ, ◌≤◌, String, ◌≡◌, refl, ap, subst, ◌∙◌, sym, Bool, true, false, not, ◌&&◌, ◌||◌, List, [], ◌∷◌,
  ltb, Bool-cases, inl, inr, arith, ◌==◌, eq_iff, Result, ok, invalid_params, raise_if, ◌>>=◌, ◌>>◌,
  >>=-eq-ok, raise_if-eq-ok, ok-injective, &&-eq-true, false≢true,
}
use awiki_open_server.Shared.Lists.{all, All}
use awiki_open_server.Shared.Decimal.{show}
use awiki_open_server.Shared.Python.{ℤ, pos, negsuc, int_of, catching, in_set, item}
use awiki_open_server.Shared.Json.{
  Value, Fields, str, num, other_num, bool, obj, arr, null, end, field, get, put, merge, keys,
  entries, contains, is_subset, same_set, equals_str, is_dict, is_null, get-put_same, get-put_other,
}
use awiki_open_server.Policy.{
  roles, role_level, policy_keys, permission_keys, transport_security, default_policy, values,
  is_bool, has_other_role, check_permissions, check_security, member_limit, limit_of,
  checked_policy, validate_policy, require_permission, permission_denied, max_members,
}

abbrev pub IsRole : Value → Type 0
IsRole v = (role : String) × (v ≡ str role) × (contains roles role ≡ true)

abbrev pub IsMode : Value → Type 0
IsMode v =
    (mode : String) × (v ≡ str mode) × (contains ("open-join" ∷ "admin-add" ∷ []) mode ≡ true)

-- A dict that has a role for each of the five permissions, and no other key.
abbrev pub IsPermissions : Value → Type 0
IsPermissions v =
    (allowed : Fields) × (v ≡ obj allowed)
    × (same_set (keys allowed) permission_keys ≡ true)
    × All IsRole (values allowed)

pub record IsPolicy (policy : Fields) : Type 0 where
  pub security : equals_str (get policy "message_security_profile") transport_security ≡ true
  pub bootstrap : equals_str (get policy "bootstrap_security_profile") transport_security ≡ true
  pub admission : IsMode (get policy "admission_mode")
  pub permissions : IsPermissions (get policy "permissions")
  pub limit : (n : ℕ) × (get policy "max_members" ≡ str (show n)) × (1 ≤ n) × (n ≤ max_members)
  pub attachments : is_bool (get policy "attachments_allowed") ≡ true

in_set_inv :
    (v : Value) (texts : List String)
    → in_set v texts ≡ ok true
    → (text : String) × (v ≡ str text) × (contains texts text ≡ true)
unfolding in_set
in_set_inv (str text) texts h = (text, refl, ok-injective h)
in_set_inv (obj fields) texts h = cc
in_set_inv (arr items) texts h = cc
in_set_inv (num n) texts h = cc
in_set_inv (other_num text) texts h = cc
in_set_inv (bool b) texts h = cc
in_set_inv null texts h = cc

has_other_role_inv : (vs : List Value) → has_other_role vs ≡ ok false → All IsRole vs
unfolding has_other_role
has_other_role_inv [] h = tt
has_other_role_inv (v ∷ vs) h =
    let (is_role, e, h1) = >>=-eq-ok (in_set v roles) _ false h in
    elim (Bool-cases is_role) [
      | inl f ↦
          (in_set_inv v roles (e ∙ ap (λ (b : Bool). ok b) f), has_other_role_inv vs (rw f at h1))
      | inr f ↦ cc (rw f at h1)
    ]

is_dict_inv : (v : Value) → is_dict v ≡ true → (fs : Fields) × (v ≡ obj fs)
is_dict_inv (obj fs) h = (fs, refl)
is_dict_inv (str s) h = cc
is_dict_inv (num s) h = cc
is_dict_inv (other_num s) h = cc
is_dict_inv (bool s) h = cc
is_dict_inv (arr s) h = cc
is_dict_inv null h = cc

check_permissions_inv : (v : Value) → check_permissions v ≡ ok tt → IsPermissions v
unfolding check_permissions
check_permissions_inv v h =
    let vs = values (entries v) in
    let rest : Result (Unit {0}) = has_other_role vs >>= λ refused.
    raise_if refused (invalid_params "group.permission_role_invalid") in
    let (passed, h1) =
      raise_if-eq-ok (not (is_dict v && same_set (keys (entries v)) permission_keys))
        (invalid_params "group.permissions_invalid") rest tt h in
    let (refused, e, h2) = >>=-eq-ok (has_other_role vs) _ tt h1 in
    let (a_dict, same) =
      &&-eq-true (is_dict v) (same_set (keys (entries v)) permission_keys) (not-eq-false passed) in
    let (allowed, shape) = is_dict_inv v a_dict in
    elim (Bool-cases refused) [
      | inl f ↦ cc (rw f at h2)
      | inr f ↦ (
        allowed,
        shape,
        subst (λ (x : Value). same_set (keys (entries x)) permission_keys ≡ true) shape same,
        subst (λ (x : Value). All IsRole (values (entries x))) shape
            (has_other_role_inv vs (e ∙ ap (λ (b : Bool). ok b) f)),
      )
    ]
  where
    not-eq-false : {b : Bool} → not b ≡ false → b ≡ true
    not-eq-false h = ground arith

member_limit_inv : (z : ℤ) (n : ℕ) → member_limit z ≡ ok n → (1 ≤ n) × (n ≤ max_members)
member_limit_inv (pos m) n h = elim (Bool-cases (ltb m 1 || ltb max_members m)) [
  | inl e ↦ cc (rw e at h)
  | inr e ↦ let same : m ≡ n = ok-injective (rw e at h) in (ground arith, ground arith)
]
member_limit_inv (negsuc m) n h = cc

check_security_inv :
    (policy : Fields)
    → check_security policy ≡ ok tt
    → (equals_str (get policy "message_security_profile") transport_security ≡ true)
      × (equals_str (get policy "bootstrap_security_profile") transport_security ≡ true)
      × IsMode (get policy "admission_mode")
unfolding check_security
check_security_inv policy h =
    let a = equals_str (get policy "message_security_profile") transport_security in
    let b = equals_str (get policy "bootstrap_security_profile") transport_security in
    let mode = in_set (get policy "admission_mode") ("open-join" ∷ "admin-add" ∷ []) in
    let (passed, h1) =
      raise_if-eq-ok (not a || not b) (invalid_params "group.security_profile_not_supported")
        (mode >>= λ known. raise_if (not known) (invalid_params "group.admission_mode_invalid")) tt
        h in
    let (known, e, h2) = >>=-eq-ok mode _ tt h1 in
    elim (Bool-cases known) [
      | inl f ↦ (
        ground arith,
        ground arith,
        in_set_inv (get policy "admission_mode") ("open-join" ∷ "admin-add" ∷ [])
            (e ∙ ap (λ (k : Bool). ok k) f),
      )
      | inr f ↦ cc (rw f at h2)
    ]

-- The keys that the checks read are not the one that they write.
get-limited :
    (limit : Value) (policy : Fields) (key : String)
    → ("max_members" == key) ≡ false
    → get (put "max_members" limit policy) key ≡ get policy key
get-limited limit policy key h = get-put_other "max_members" key limit policy h

module _ (truncate : String → Result ℤ) where
  limit_of_inv :
      (policy : Fields) (n : ℕ) → limit_of truncate policy ≡ ok n → (1 ≤ n) × (n ≤ max_members)
  unfolding limit_of
  limit_of_inv policy n h =
      let (z, e, h1) =
        >>=-eq-ok
          (catching ("TypeError" ∷ "ValueError" ∷ []) (invalid_params "group.max_members_invalid")
            (int_of truncate (get policy "max_members")))
          member_limit n h in
      member_limit_inv z n h1

  checked_policy-IsPolicy :
      (policy checked : Fields) → checked_policy truncate policy ≡ ok checked → IsPolicy checked
  unfolding checked_policy
  checked_policy-IsPolicy policy checked h =
      let (_, secure, h1) = >>=-eq-ok (check_security policy) _ checked h in
      let (_, permitted, h2) =
        >>=-eq-ok (check_permissions (get policy "permissions")) _ checked h1 in
      let (n, e, h3) = >>=-eq-ok (limit_of truncate policy) _ checked h2 in
      let limited = put "max_members" (str (show n)) policy in
      let (attached, h4) =
        raise_if-eq-ok (not (is_bool (get limited "attachments_allowed")))
          (invalid_params "group.attachments_allowed_invalid") (ok limited) checked h3 in
      let (security, bootstrap, admission) = check_security_inv policy secure in
      let bounds = limit_of_inv policy n e in
      let limited-IsPolicy : IsPolicy limited = record {
        security = rw (get-limited (str (show n)) policy "message_security_profile" refl) security;
        bootstrap =
            rw (get-limited (str (show n)) policy "bootstrap_security_profile" refl) bootstrap;
        admission = rw (get-limited (str (show n)) policy "admission_mode" refl) admission;
        permissions =
            rw (get-limited (str (show n)) policy "permissions" refl)
              (check_permissions_inv (get policy "permissions") permitted);
        limit = (n, get-put_same "max_members" (str (show n)) policy, bounds.0, bounds.1);
        attachments = ground arith;
      } in
      subst IsPolicy (ok-injective h4) limited-IsPolicy

  -- A value that validate_policy accepts comes back as a policy with the transport security
  -- profile, a known admission mode, a known role for exactly the five permissions, a limit of 1
  -- to 100 members in decimal, and a Boolean for attachments.
  pub validate_policy-IsPolicy :
      (value : Value) (policy : Fields)
      → validate_policy truncate value ≡ ok policy
      → IsPolicy policy
  unfolding validate_policy
  validate_policy-IsPolicy value policy h =
      let checked = checked_policy truncate (merge default_policy (entries value)) in
      let known = not (is_subset (keys (entries value)) policy_keys) in
      let (_, h1) =
        raise_if-eq-ok (not (is_dict value)) (invalid_params "group.policy_required")
          (raise_if known (invalid_params "group.policy_fields_invalid") >> checked) policy h in
      let (_, h2) =
        raise_if-eq-ok known (invalid_params "group.policy_fields_invalid") checked policy h1 in
      checked_policy-IsPolicy (merge default_policy (entries value)) policy h2

-- A key whose value is not None is a key of the dict.
pub contains_of-get :
    (fs : Fields) (key : String) (v : Value)
    → get fs key ≡ v
    → is_null v ≡ false
    → contains (keys fs) key ≡ true
contains_of-get end key v h k = absurd (false≢true (sym k ∙ ap is_null (sym h)))
contains_of-get (field name value rest) key v h k = elim (Bool-cases (name == key)) [
  | inl e ↦ rw e refl
  | inr e ↦ rw e (contains_of-get rest key v (rw e at h) k)
]

contains_of-all :
    (ks texts : List String) (key : String)
    → all (contains ks) texts ≡ true
    → contains texts key ≡ true
    → contains ks key ≡ true
contains_of-all ks [] key h k = cc
contains_of-all ks (text ∷ texts) key h k = elim (Bool-cases (text == key)) [
  | inl e ↦
      subst (λ (x : String). contains ks x ≡ true) ((eq_iff text key).0 e)
        (&&-eq-true (contains ks text) (all (contains ks) texts) h).0
  | inr e ↦
      contains_of-all ks texts key (&&-eq-true (contains ks text) (all (contains ks) texts) h).1
        (rw e at k)
]

All-get :
    (P : Value → Type 0) (fs : Fields) (key : String)
    → All P (values fs)
    → contains (keys fs) key ≡ true
    → P (get fs key)
All-get P end key h k = cc
All-get P (field name value rest) key h k = elim (Bool-cases (name == key)) [
  | inl e ↦ rw e h.0
  | inr e ↦ rw e (All-get P rest key h.1 (rw e at k))
]

-- Under a validated policy each of the five permissions names a least role, and the check of a
-- permission passes exactly for the roles of that level and above, and else refuses.
pub require_permission_by_level :
    (policy : Fields) (role permission : String)
    → IsPolicy policy
    → contains permission_keys permission ≡ true
    → (least : String) × (get (entries (get policy "permissions")) permission ≡ str least)
      × (contains roles least ≡ true)
      × (require_permission (obj policy) role permission
          ≡ raise_if (ltb (role_level role) (role_level least)) permission_denied)
unfolding require_permission item
require_permission_by_level policy role permission h k =
    let (allowed, shape, same, known) = h.permissions in
    let present = contains_of-get policy "permissions" (obj allowed) shape refl in
    let listed =
      contains_of-all (keys allowed) permission_keys permission
        (&&-eq-true (is_subset (keys allowed) permission_keys)
          (is_subset permission_keys (keys allowed)) same).1
        k in
    let (least, e, is_role) = All-get IsRole allowed permission known listed in
    (least, rw shape e, is_role, rw (present) (rw shape (rw listed (rw e (rw is_role refl)))))
