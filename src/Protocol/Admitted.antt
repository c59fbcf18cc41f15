-- ===== src/Protocol/Admitted.antt =====
-- What a handler may assume of a request that request_context let through.
use awiki_open_server.Shared.{
  String, ◌≡◌, refl, ap, subst, sym, ◌∙◌, Bool, true, false, not, ◌&&◌, ◌||◌, Option, none, some,
  List, ◌∷◌, [], if◌then◌else◌, arith, ◌==◌, eq_iff, Result, ok, invalid_params, not_supported,
  unauthorized, raise_if, ◌>>=◌, ◌>>◌, >>=-eq-ok, >>-eq-ok, raise_if-eq-ok, raise_if-eq-ok_tt,
  ok-injective,
}
use awiki_open_server.Shared.Lists.{any}
use awiki_open_server.Shared.Text.{is_blank}
use awiki_open_server.Shared.Python.{in_set}
use awiki_open_server.Shared.Json.{
  Value, Fields, str, num, other_num, bool, obj, arr, null, get, entries, contains, equals_str,
  is_dict, is_null,
}
use awiki_open_server.Operations.{GroupRequest}
use awiki_open_server.Policy.{transport_security}
use awiki_open_server.Protocol.{
  Caller, base_v2, base_profiles, device_fields, handle_fields, has_any, structures,
  check_v2_fields, check_v2_members, validate_v2_shape, check_envelope, require_string,
  named_parties, verified_digest, checked_context, request_context, group_request, text_of,
  is_other, missing_proof,
}

pub record IsAdmitted (caller : Caller) (method target_kind : String) (r : GroupRequest)
    : Type 0 where
  pub is_method : r.method ≡ method
  pub is_profile : contains base_profiles r.profile ≡ true
  pub is_authentic : (did : String) → caller.current_did ≡ ok (some did) → did ≡ r.sender_did
  pub is_proved : caller.proof_digest r.auth method r.meta r.body r.sender_did ≡ ok r.payload_digest
  pub is_signed : caller.is_public ≡ true → caller.peer_signature r.sender_did ≡ ok tt
  pub is_target : equals_str (get (entries (get r.meta "target")) "kind") target_kind ≡ true
  pub is_named : (is_blank r.sender_did ≡ false) × (is_blank r.target_did ≡ false)
  pub no_handle : r.profile ≡ base_v2 → has_any handle_fields r.body ≡ false
  pub no_device :
      r.profile ≡ base_v2 → any (has_any device_fields) (structures r.meta r.body) ≡ false

-- A text that is required is there and not blank.
pub require_string_inv :
    (v : Value) (message text : String)
    → require_string v message ≡ ok text
    → (v ≡ str text) × (is_blank text ≡ false)
unfolding require_string
require_string_inv (str s) message text h =
    let (filled, h1) = raise_if-eq-ok (is_blank s) (invalid_params message) (ok s) text h in
    let same : s ≡ text = cc in
    (ap str same, subst (λ (x : String). is_blank x ≡ false) same filled)
require_string_inv (num n) message text h = cc
require_string_inv (other_num n) message text h = cc
require_string_inv (bool n) message text h = cc
require_string_inv (obj n) message text h = cc
require_string_inv (arr n) message text h = cc
require_string_inv null message text h = cc

-- A value that is found in a set of texts is one of them.
pub in_set_text :
    (v : Value) (texts : List String)
    → in_set v texts ≡ ok true
    → (v ≡ str (text_of v)) × (contains texts (text_of v) ≡ true)
unfolding in_set
in_set_text (str text) texts h = (refl, cc)
in_set_text (obj n) texts h = cc
in_set_text (arr n) texts h = cc
in_set_text (num n) texts h = cc
in_set_text (other_num n) texts h = cc
in_set_text (bool n) texts h = cc
in_set_text null texts h = cc

abbrev HasNoDevice : Fields → Fields → Type 0
HasNoDevice meta body =
    (has_any handle_fields body ≡ false)
    × (any (has_any device_fields) (structures meta body) ≡ false)

check_v2_fields_inv :
    (method : String) (meta body : Fields)
    → check_v2_fields method meta body ≡ ok tt
    → HasNoDevice meta body
unfolding check_v2_fields
check_v2_fields_inv method meta body h =
    let device =
      raise_if (any (has_any device_fields) (structures meta body))
        (invalid_params "group.v2_device_selector_not_allowed") in
    let e2ee =
      is_dict (get body "group_receipt")
      && not (is_null (get (entries (get body "group_receipt")) "e2ee")) in
    let sealed = raise_if e2ee (not_supported "group.e2ee_not_supported") >> device in
    let handled =
      raise_if (has_any handle_fields body) (invalid_params "group.v2_handle_identity_not_allowed")
      >> sealed in
    let (_, h1) =
      raise_if-eq-ok (contains ("group.rebind_member" ∷ "group.member_did_update" ∷ []) method)
        (not_supported "group.method_not_supported_in_v2") handled tt h in
    let (no_handle, h2) =
      raise_if-eq-ok (has_any handle_fields body)
        (invalid_params "group.v2_handle_identity_not_allowed") sealed tt h1 in
    let (_, h3) = raise_if-eq-ok e2ee (not_supported "group.e2ee_not_supported") device tt h2 in
    (
      no_handle,
      raise_if-eq-ok_tt (any (has_any device_fields) (structures meta body))
          (invalid_params "group.v2_device_selector_not_allowed") h3,
    )

validate_v2_shape_inv :
    (method : String) (meta body : Fields)
    → validate_v2_shape method meta body ≡ ok tt
    → equals_str (get meta "profile") base_v2 ≡ true
    → HasNoDevice meta body
unfolding validate_v2_shape
validate_v2_shape_inv method meta body h e =
    let (fields, _) =
      >>-eq-ok (check_v2_fields method meta body) (check_v2_members method body) tt (rw e at h) in
    check_v2_fields_inv method meta body fields

check_envelope_inv :
    (method : String) (meta auth body : Fields)
    → check_envelope method meta auth body ≡ ok tt
    → (contains base_profiles (text_of (get meta "profile")) ≡ true)
      × (text_of (get meta "profile") ≡ base_v2 → HasNoDevice meta body)
unfolding check_envelope
check_envelope_inv method meta auth body h =
    let scheme = not (equals_str (get auth "scheme") "anp-rfc9421-origin-proof-v1") in
    let known = in_set (get meta "profile") base_profiles in
    let secure =
      raise_if (not (equals_str (get meta "security_profile") transport_security))
        (invalid_params "anp_meta_security_profile_mismatch") in
    let shaped = validate_v2_shape method meta body >> secure in
    let (_, h1) =
      raise_if-eq-ok scheme (unauthorized "invalid_origin_proof_scheme")
        (known >>= λ k. raise_if (not k) (invalid_params "anp_meta_profile_mismatch") >> shaped) tt
        h in
    let (k, e, h2) = >>=-eq-ok known _ tt h1 in
    let (is_known, h3) =
      raise_if-eq-ok (not k) (invalid_params "anp_meta_profile_mismatch") shaped tt h2 in
    let (shape, _) = >>-eq-ok (validate_v2_shape method meta body) secure tt h3 in
    let named =
      in_set_text (get meta "profile") base_profiles
        (e ∙ ap (λ (b : Bool). ok b) (not-eq-false is_known)) in
    (
      named.1,
      λ v2.
          validate_v2_shape_inv method meta body shape
            (subst (λ (v : Value). equals_str v base_v2 ≡ true) (sym (named.0 ∙ ap str v2)) refl),
    )
  where
    not-eq-false : {b : Bool} → not b ≡ false → b ≡ true
    not-eq-false h = ground arith

named_parties_inv :
    (kind : String) (meta : Fields) (sender operation target : String)
    → named_parties kind meta ≡ ok (sender, operation, target)
    → (is_blank sender ≡ false)
      × (is_blank target ≡ false)
      × (equals_str (get (entries (get meta "target")) "kind") kind ≡ true)
unfolding named_parties
named_parties_inv kind meta sender operation target h =
    let result : String × String × String = (sender, operation, target) in
    let aim = entries (get meta "target") in
    let (s, e1, h1) =
      >>=-eq-ok (require_string (get meta "sender_did") "anp_meta_sender_did_required") _ result
        h in
    let (o, e2, h2) =
      >>=-eq-ok (require_string (get meta "operation_id") "anp_meta_operation_id_required") _ result
        h1 in
    let last =
      require_string (get aim "did") "anp_meta_target_did_required" >>= λ t. ok (s, o, t) in
    let kinded =
      raise_if (not (equals_str (get aim "kind") kind))
        (invalid_params "anp_meta_target_kind_mismatch")
      >> last in
    let (_, h3) =
      raise_if-eq-ok (not (is_dict (get meta "target"))) (invalid_params "anp_meta_target_required")
        kinded result h2 in
    let (is_kind, h4) =
      raise_if-eq-ok (not (equals_str (get aim "kind") kind))
        (invalid_params "anp_meta_target_kind_mismatch") last result h3 in
    let (t, e3, h5) =
      >>=-eq-ok (require_string (get aim "did") "anp_meta_target_did_required") _ result h4 in
    let same : (s, o, t) ≡ result = ok-injective h5 in
    (
      subst (λ (x : String × String × String). is_blank x.0 ≡ false) same
          (require_string_inv (get meta "sender_did") "anp_meta_sender_did_required" s e1).1,
      subst (λ (x : String × String × String). is_blank x.2 ≡ false) same
          (require_string_inv (get aim "did") "anp_meta_target_did_required" t e3).1,
      ground arith,
    )

verified_digest_inv :
    (caller : Caller) (method : String) (meta auth body : Fields) (sender digest : String)
    → verified_digest caller method meta auth body sender ≡ ok digest
    → ((did : String) → caller.current_did ≡ ok (some did) → did ≡ sender)
      × (caller.proof_digest auth method meta body sender ≡ ok digest)
      × (caller.is_public ≡ true → caller.peer_signature sender ≡ ok tt)
unfolding verified_digest
verified_digest_inv caller method meta auth body sender digest h =
    let signed = if caller.is_public then caller.peer_signature sender else ok tt in
    let proved = caller.proof_digest auth method meta body sender >>= λ d. signed >> ok d in
    let (authenticated, e, h1) = >>=-eq-ok caller.current_did _ digest h in
    let (is_sender, h2) =
      raise_if-eq-ok (is_other authenticated sender) (unauthorized "sender_did_mismatch") proved
        digest h1 in
    let (d, f, h3) = >>=-eq-ok (caller.proof_digest auth method meta body sender) _ digest h2 in
    let (is_signed, h4) = >>-eq-ok signed (ok d) digest h3 in
    (
      λ did k. same_sender did (is_other-some did authenticated (sym e ∙ k) is_sender),
      f ∙ h4,
      λ public. rw public at is_signed,
    )
  where
    same_sender : (did : String) → not (did == sender) ≡ false → did ≡ sender
    same_sender did k = (eq_iff did sender).0 (ground arith)

    is_other-some :
        (did : String) (authenticated : Option String)
        → ◌≡◌ {A = Result (Option String)} (ok authenticated) (ok (some did))
        → is_other authenticated sender ≡ false
        → not (did == sender) ≡ false
    is_other-some did none k l = cc
    is_other-some did (some other) k l =
        let same : other ≡ did = cc in subst (λ (x : String). not (x == sender) ≡ false) same l

checked_context-IsAdmitted :
    (caller : Caller) (method target_kind : String) (meta auth body : Fields) (r : GroupRequest)
    → checked_context caller method target_kind meta auth body ≡ ok r
    → IsAdmitted caller method target_kind r
unfolding checked_context
checked_context-IsAdmitted caller method target_kind meta auth body r h =
    let digested = λ (p : String × String × String).
      verified_digest caller method meta auth body p.0 >>= λ d.
      ok (group_request method meta auth body p d) in
    let (envelope, h1) =
      >>-eq-ok (check_envelope method meta auth body)
        (named_parties target_kind meta >>= λ p. digested p) r h in
    let (parties, e, h2) = >>=-eq-ok (named_parties target_kind meta) _ r h1 in
    let (digest, f, h3) =
      >>=-eq-ok (verified_digest caller method meta auth body parties.0) _ r h2 in
    let (known, plain) = check_envelope_inv method meta auth body envelope in
    let (sender, target, kind) =
      named_parties_inv target_kind meta parties.0 parties.1 parties.2 e in
    let (authentic, proved, signed) =
      verified_digest_inv caller method meta auth body parties.0 digest f in
    let made : IsAdmitted caller method target_kind
        (group_request method meta auth body parties digest) =
      record {
        is_method = refl;
        is_profile = known;
        is_authentic = authentic;
        is_proved = proved;
        is_signed = signed;
        is_target = kind;
        is_named = (sender, target);
        no_handle = λ v2. (plain v2).0;
        no_device = λ v2. (plain v2).1;
      } in
    subst (IsAdmitted caller method target_kind) (ok-injective h3) made

-- A request that request_context lets through has a profile that is known and the kind of target
-- asked for, names its sender and target, and was proved by its sender, who is the caller where the
-- caller logged in, and whose signature was checked where the request is public. In a request of
-- version 2 no handle field is a key of the body itself, and no device field is a key of one of
-- the objects that _validate_v2_shape looks at, which are those of `structures`: what lies deeper,
-- as in the payload of an application, may have such keys.
pub request_context-IsAdmitted :
    (caller : Caller) (params : Fields) (method target_kind : String) (r : GroupRequest)
    → request_context caller params method target_kind ≡ ok r
    → IsAdmitted caller method target_kind r
unfolding request_context
request_context-IsAdmitted caller params method target_kind r h =
    let meta = get params "_anp_meta" in
    let body = get params "_anp_body" in
    let auth = get params "_anp_auth" in
    let (_, h1) =
      raise_if-eq-ok (not (is_dict meta) || not (is_dict body) || not (is_dict auth)) missing_proof
        (checked_context caller method target_kind (entries meta) (entries auth) (entries body)) r
        h in
    checked_context-IsAdmitted caller method target_kind (entries meta) (entries auth)
      (entries body) r h1
