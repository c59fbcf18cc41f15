-- ===== src/Operations/Replay.antt =====
-- A stored operation is replayed with its result, and its identifier is not taken for another request.
use awiki_open_server.Shared.{
  ℕ, String, ◌≡◌, refl, ap, subst, ◌∙◌, true, false, not, ◌&&◌, some, List, [], ◌∷◌, ◌++◌,
  if◌then◌else◌, Bool-cases, inl, inr, arith, ◌==◌, eq_iff, eq_refl, Result, ok, err, conflict,
  python_error, raise_if, >>=-eq-ok, raise_if-eq-ok, ◌>>◌,
}
use awiki_open_server.Shared.Lists.{any}
use awiki_open_server.Shared.Table.{first_where}
use awiki_open_server.Shared.Keys.{first-append_same}
use awiki_open_server.Shared.Json.{
  Value, Fields, bool, str, get, put, get-put_same, get-put_other, entries,
}
use awiki_open_server.Operations.{
  GroupRequest, Operation, is_operation, is_v2, has_receipt, receipt_of, update_accepted,
  standard_v2_acceptance, operation_replay, operation_of, store_operation,
}

get-put :
    (k j : String) (v : Value) (fs : Fields) → get (put k v fs) j ≡ (if k == j then v else get fs j)
get-put k j v fs = elim (Bool-cases (k == j)) [
  | inl e ↦
      rw e (subst (λ (x : String). get (put k v fs) x ≡ v) ((eq_iff k j).0 e) (get-put_same k v fs))
  | inr e ↦ rw e (get-put_other k j v fs e)
]

is_operation_self :
    (context : GroupRequest) (scope : String) (result : Fields) (at : ℕ)
    → is_operation context scope (operation_of context scope result at) ≡ true
is_operation_self context scope result at = ground (
  arith,
  eq_refl context.sender_did,
  eq_refl scope,
  eq_refl context.method,
  eq_refl context.operation_id,
)

-- The row that a store leaves under its key.
stored_row :
    (context : GroupRequest) (scope : String) (result accepted : Fields) (at : ℕ)
    (table after : List Operation)
    → store_operation context scope result at table ≡ ok (after, accepted)
    → (standard_v2_acceptance context result ≡ ok accepted)
      × (first_where (is_operation context scope) after
          ≡ some (operation_of context scope accepted at))
unfolding store_operation
stored_row context scope result accepted at table after h =
    let (made, first, h1) =
      >>=-eq-ok (standard_v2_acceptance context result) _ (after, accepted) h in
    let (fresh, h2) =
      raise_if-eq-ok (any (is_operation context scope) table) (python_error "IntegrityError")
        (ok (table ++ operation_of context scope made at ∷ [], made)) (after, accepted) h1 in
    let same : (table ++ operation_of context scope made at ∷ [], made) ≡ (after, accepted) =
      ok-injective h2 in
    let row =
      first-append_same (is_operation context scope) (operation_of context scope made at) table
        (is_operation_self context scope made at) fresh in
    (
      first ∙ ap (λ (x : List Operation × Fields). ok x.1) same,
      subst
          (λ (x : List Operation × Fields).
            first_where (is_operation context scope) x.0 ≡ some (operation_of context scope x.1 at))
          same row,
    )
  where
    ok-injective :
        {a b : List Operation × Fields}
        → ◌≡◌ {A = Result (List Operation × Fields)} (ok a) (ok b)
        → a ≡ b
    ok-injective h = cc

-- A request that names a stored operation with another payload or profile is refused as a conflict.
pub operation_conflicts :
    (context other : GroupRequest) (scope : String) (result accepted : Fields) (at : ℕ)
    (table after : List Operation)
    → store_operation context scope result at table ≡ ok (after, accepted)
    → other.sender_did ≡ context.sender_did
    → other.method ≡ context.method
    → other.operation_id ≡ context.operation_id
    → ((other.payload_digest == context.payload_digest) && (other.profile == context.profile))
      ≡ false
    → operation_replay other scope after ≡ err (conflict "group.operation_id_conflict")
unfolding operation_replay
operation_conflicts context other scope result accepted at table after h s m o d =
    let (first, row) = stored_row context scope result accepted at table after h in
    let found : first_where (is_operation other scope) after
        ≡ some (operation_of context scope accepted at) =
      rw (s, m, o) row in
    rw found (
      ground (
        arith,
        eq_iff context.profile other.profile,
        eq_iff other.profile context.profile,
        eq_iff context.payload_digest other.payload_digest,
        eq_iff other.payload_digest context.payload_digest,
      ))

abbrev accepted_of : GroupRequest → Value → Fields → Fields
accepted_of context at result = put "accepted_at" at (update_accepted context result)

get-accepted_of :
    (context : GroupRequest) (at : Value) (result : Fields) (key : String)
    → get (accepted_of context at result) key ≡ (
        if "accepted_at" == key
        then at
        else if "operation_id" == key
        then str context.operation_id
        else if "final_acceptance" == key
        then bool true
        else if "accepted" == key
        then bool true
        else get result key)
get-accepted_of context at result key =
    rw (get-put "accepted_at" key at (update_accepted context result)) (
      rw
        (get-put "operation_id" key (str context.operation_id)
          (put "final_acceptance" (bool true) (put "accepted" (bool true) result)))
        (rw (get-put "final_acceptance" key (bool true) (put "accepted" (bool true) result))
          (rw (get-put "accepted" key (bool true) result) refl)))

get-accepted_of_twice :
    (context : GroupRequest) (at : Value) (result : Fields) (key : String)
    → get (accepted_of context at (accepted_of context at result)) key
      ≡ get (accepted_of context at result) key
get-accepted_of_twice context at result key =
    rw (get-accepted_of context at (accepted_of context at result) key)
      (rw (get-accepted_of context at result key) (ground arith))

-- Accepting an accepted result changes nothing in it.
accept_again :
    (context : GroupRequest) (result accepted : Fields)
    → standard_v2_acceptance context result ≡ ok accepted
    → (again : Fields) × (standard_v2_acceptance context accepted ≡ ok again)
      × ((key : String) → get again key ≡ get accepted key)
unfolding standard_v2_acceptance
accept_again context result accepted h = elim (Bool-cases (is_v2 context)) [
  | inr e ↦ (accepted, rw e refl, λ key. refl)
  | inl e ↦
      let at = get (entries (receipt_of result)) "accepted_at" in
      let (has, h1) =
        raise_if-eq-ok (not (has_receipt result)) (python_error "KeyError")
          (ok (accepted_of context at result)) accepted (rw e at h) in
      let same : accepted_of context at result ≡ accepted = ok-injective h1 in
      let receipt : receipt_of (accepted_of context at result) ≡ receipt_of result =
        get-accepted_of context at result "group_receipt" in
      let again = accepted_of context at (accepted_of context at result) in
      (
        again,
        subst
            (λ (x : Fields).
              (if is_v2 context
                then (raise_if (not (has_receipt x)) (python_error "KeyError")
                    >> ok (accepted_of context (get (entries (receipt_of x)) "accepted_at") x))
                else ok x)
              ≡ ok again)
            same (rw e (rw receipt (rw has refl))),
        λ key. get-accepted_of_twice context at result key ∙ ap (λ (x : Fields). get x key) same,
      )
]
  where
    ok-injective : {a b : Fields} → ◌≡◌ {A = Result Fields} (ok a) (ok b) → a ≡ b
    ok-injective h = cc

-- A request that is sent again after its operation was stored gets a result with the entries of the
-- first, and idempotent_replay beside them.
pub operation_replay-store :
    (context : GroupRequest) (scope : String) (result accepted : Fields) (at : ℕ)
    (table after : List Operation)
    → store_operation context scope result at table ≡ ok (after, accepted)
    → (replayed : Fields) × (operation_replay context scope after ≡ ok (some replayed))
      × ((key : String)
          → get replayed key ≡ (if "idempotent_replay" == key then bool true else get accepted key))
unfolding operation_replay
operation_replay-store context scope result accepted at table after h =
    let (first, row) = stored_row context scope result accepted at table after h in
    let (again, second, same) = accept_again context result accepted first in
    (
      put "idempotent_replay" (bool true) again,
      rw row (rw (eq_refl context.profile) (rw (eq_refl context.payload_digest) (rw second refl))),
      λ key.
          get-put "idempotent_replay" key (bool true) again
          ∙ ap (λ (v : Value). if "idempotent_replay" == key then bool true else v) (same key),
    )
