-- ===== src/Bootstrap/Granted.antt =====
-- The lanes that a bootstrap grants are the lanes that a delta request may name.
use awiki_open_server.Shared.{
  ap, sym, raise_if-eq-ok, python_error, ◌∙◌, ◌==◌, String, ◌≡◌, ◌≢◌, refl, Bool, true, false, List,
  [], ◌∷◌, if◌then◌else◌, Bool-cases, inl, inr, arith, eq_refl, some, Result, ok,
}
use awiki_open_server.Shared.Json.{
  Fields, str, obj, end, field, get, dict, contains, get-put_same, get-put_other,
}
use awiki_open_server.Bootstrap.{
  with_delivery, granted_lane, with_lanes, lane_p5, lane_p6, p6_delivery, lanes_of, compat_lanes,
  empty_answer, each_name, attach_standard_bootstrap_fields, empty_compat_delta_lanes,
  is_delivery_context, is_empty_lane, is_empty_cursor,
}

-- The request for a delta of the lanes as a bootstrap answered them, by the client that it named.
abbrev pub delta_request : Fields → List String → String → Fields
delta_request bootstrap requested client = field "lanes" (get bootstrap "lanes") (
    if contains requested lane_p6
    then field "p6_delivery"
        (dict (("profile", str p6_delivery) ∷ ("client_instance_id", str client) ∷ [])) end
    else end)

ok-injective : {a b : Fields} → ◌≡◌ {A = Result Fields} (ok a) (ok b) → a ≡ b
ok-injective h = cc

get-with_delivery :
    (p6 : Bool) (client : String) (attached bootstrap : Fields)
    → with_delivery p6 (some client) attached ≡ ok bootstrap
    → get bootstrap "lanes" ≡ get attached "lanes"
get-with_delivery false client attached bootstrap h =
    ap (λ (b : Fields). get b "lanes") (sym (ok-injective h))
get-with_delivery true client attached bootstrap h =
    let (given, h1) = raise_if-eq-ok (client == "") (python_error "ValueError") _ bootstrap h in
    ap (λ (b : Fields). get b "lanes") (sym (ok-injective h1))
    ∙ get-put_other "p6_delivery" "lanes" _ attached refl

get-with_lanes :
    (names : List String) (result : Fields)
    → names ≢ []
    → get (with_lanes names result) "lanes" ≡ obj (each_name granted_lane names)
get-with_lanes [] result n = absurd (n refl)
get-with_lanes (name ∷ names) result n =
    get-put_same "lanes" (obj (each_name granted_lane (name ∷ names))) result

-- A client that was granted some lane and asks for a delta of all of its lanes, at the cursors that
-- the bootstrap gave it, gets an empty answer for each of them.
pub granted_lanes_accepted :
    (result bootstrap : Fields) (paging : Bool) (requested : List String) (client : String)
    → attach_standard_bootstrap_fields result paging requested (some client) ≡ ok bootstrap
    → lanes_of compat_lanes requested ≢ []
    → empty_compat_delta_lanes (delta_request bootstrap requested client) requested client
      ≡ ok (each_name empty_answer (lanes_of compat_lanes requested))
unfolding attach_standard_bootstrap_fields empty_compat_delta_lanes is_delivery_context
    is_empty_lane is_empty_cursor
granted_lanes_accepted result bootstrap paging requested client h some_lane =
    let lanes =
      get-with_delivery (contains requested lane_p6) client _ bootstrap h
      ∙ get-with_lanes (lanes_of compat_lanes requested) _ some_lane in
    elim (Bool-cases (contains requested lane_p5)) [
      | inl p ↦ elim (Bool-cases (contains requested lane_p6)) [
        | inl q ↦ rw lanes (ground (arith, p, q, eq_refl client))
        | inr q ↦ rw lanes (ground (arith, p, q))
      ]
      | inr p ↦ elim (Bool-cases (contains requested lane_p6)) [
        | inl q ↦ rw lanes (ground (arith, p, q, eq_refl client))
        | inr q ↦ absurd (some_lane (rw (p, q) refl))
      ]
    ]
