-- ===== src/Bootstrap.antt =====
-- messaging/standard_sync.py: the negotiation of a bootstrap, and the lanes for encrypted messages,
-- which the server grants and which stay empty.
pub mod Negotiated
pub mod Granted
mod Tests
use awiki_open_server.Shared.{
  ℕ, String, Bool, true, false, not, ◌&&◌, ◌||◌, Option, none, some, List, [], ◌∷◌, map,
  if◌then◌else◌, ltb, Result, ok, err, AwikiError, sync_protocol_error, python_error, raise_if,
  ◌>>=◌, ◌>>◌, ◌==◌,
}
use awiki_open_server.Shared.Lists.{any, all}
use awiki_open_server.Shared.Decimal.{text_length}
use awiki_open_server.Shared.Text.{is_blank}
use awiki_open_server.Shared.Json.{
  Value, Items, Fields, null, bool, num, str, arr, obj, nil, cons, end, field, get, put, keys,
  contains, elements, same_set, is_subset, equals_str, equals_num, is_null, is_dict, entries, dict,
}

abbrev pub sync_profile_v2 : String
sync_profile_v2 = "anp.sync.local.v2"

abbrev pub lane_p5 : String
lane_p5 = "lanes.p5_device.v1"

abbrev pub lane_p6 : String
lane_p6 = "lanes.p6_group.v1"

abbrev pub p6_delivery : String
p6_delivery = "p6.delivery_context.v1"

abbrev pub known_lane_capabilities : List String
known_lane_capabilities = lane_p5 ∷ lane_p6 ∷ p6_delivery ∷ []

-- COMPAT_LANES.items()
abbrev pub compat_lanes : List (String × String)
compat_lanes = (lane_p5, "p5_device") ∷ (lane_p6, "p6_group") ∷ []

pub record BootstrapCapabilities : Type 0 where
  pub client_instance_id : String
  pub extended : Bool
  pub snapshot_paging : Bool
  pub requested : List String
  pub with_p6 : Bool

abbrev pub invalid : AwikiError
invalid = sync_protocol_error 4200 "sync.invalid_request"

abbrev pub legacy_keys : List String
legacy_keys = "sync_profile" ∷ "event_schema_max" ∷ []

abbrev pub extended_keys : List String
extended_keys =
    "sync_profile" ∷ "event_schema_max" ∷ "requested_sync_capabilities"
    ∷ "requested_snapshot_capabilities" ∷ "p6_delivery" ∷ []

-- The texts of a list of texts that are not empty.
abbrev pub texts : List Value → Result (List String)
texts [] = ok []
texts (str text ∷ rest) = raise_if (text == "") invalid >> (texts rest >>= λ more. ok (text ∷ more))
texts (_ ∷ rest) = err invalid

abbrev pub text_list : Value → Result (List String)
text_list (arr items) = texts (elements items)
text_list _ = err invalid

-- len(values) != len(set(values))
abbrev pub has_duplicate : List String → Bool
has_duplicate [] = false
has_duplicate (text ∷ rest) = contains rest text || has_duplicate rest

-- value == ["paged_v1"]
abbrev is_paged_v1 : List Value → Bool
is_paged_v1 (str text ∷ []) = text == "paged_v1"
is_paged_v1 _ = false

abbrev is_array : (List Value → Bool) → Value → Bool
is_array test (arr items) = test (elements items)
is_array test _ = false

unfoldable pub is_snapshot_request : Value → Bool
is_snapshot_request snapshot =
    is_dict snapshot
    && same_set (keys (entries snapshot)) ("schema_max" ∷ "deliveries" ∷ [])
    && equals_num (get (entries snapshot) "schema_max") 3
    && is_array is_paged_v1 (get (entries snapshot) "deliveries")

abbrev same_bool : Bool → Bool → Bool
same_bool true b = b
same_bool false b = not b

-- The checks on what was requested, and on p6_delivery beside it.
unfoldable pub parse_requested : String → Fields → List String → Result BootstrapCapabilities
unfolding is_snapshot_request
parse_requested client capabilities requested = do
  raise_if (has_duplicate requested) invalid
  raise_if (not (all (contains known_lane_capabilities) requested)) invalid
  raise_if
      (not (is_null (get capabilities "p6_delivery"))
        && not (equals_str (get capabilities "p6_delivery") p6_delivery))
      invalid
  raise_if
      (not (same_bool (contains requested lane_p6) (contains requested p6_delivery))
        || not (
            same_bool (contains requested lane_p6 || contains requested p6_delivery)
              (equals_str (get capabilities "p6_delivery") p6_delivery)))
      invalid
  raise_if (not (is_subset (keys capabilities) extended_keys)) invalid
  raise_if (is_null (get capabilities "requested_snapshot_capabilities")) invalid
  raise_if (not (is_snapshot_request (get capabilities "requested_snapshot_capabilities"))) invalid
  ok (record {
    client_instance_id = client;
    extended = true;
    snapshot_paging = true;
    requested = requested;
    with_p6 = contains requested lane_p6 || contains requested p6_delivery;
  })

abbrev pub legacy_capabilities : String → BootstrapCapabilities
legacy_capabilities client = record {
  client_instance_id = client;
  extended = false;
  snapshot_paging = false;
  requested = [];
  with_p6 = false;
}

unfoldable pub parse_capabilities : String → Fields → Result BootstrapCapabilities
unfolding parse_requested
parse_capabilities client capabilities =
    let requested = text_list (get capabilities "requested_sync_capabilities") >>= λ requested.
    parse_requested client capabilities requested in
    raise_if
      (not (equals_str (get capabilities "sync_profile") sync_profile_v2)
        || not (equals_num (get capabilities "event_schema_max") 1))
      invalid
    >> (if same_set (keys capabilities) legacy_keys
        then ok (legacy_capabilities client)
        else if same_set (keys capabilities)
            ("sync_profile" ∷ "event_schema_max" ∷ "p6_delivery" ∷ [])
        then err (sync_protocol_error 4200 "sync.lanes_not_supported")
        else (raise_if (not (contains (keys capabilities) "requested_sync_capabilities")) invalid
            >> requested))

abbrev pub parse_instance : Value → Result String
parse_instance (str client) =
    raise_if (is_blank client || ltb 255 (text_length client)) invalid >> ok client
parse_instance _ = err invalid

unfoldable pub parse_bootstrap_capabilities : Value → Result BootstrapCapabilities
unfolding parse_capabilities
parse_bootstrap_capabilities body = do
  raise_if
      (not (is_dict body)
        || not (same_set (keys (entries body)) ("client_instance_id" ∷ "capabilities" ∷ [])))
      invalid
  client ← parse_instance (get (entries body) "client_instance_id")
  raise_if (not (is_dict (get (entries body) "capabilities"))) invalid
  parse_capabilities client (entries (get (entries body) "capabilities"))

abbrev pub empty_compat_cursor : Value
empty_compat_cursor = dict (("stream_epoch", str "1") ∷ ("scan_seq", str "0") ∷ [])

abbrev pub granted_lane : Value
granted_lane = dict (("cursor", empty_compat_cursor) ∷ ("committed_seq", str "0") ∷ [])

-- The names of the lanes among the given capabilities.
abbrev pub lanes_of : List (String × String) → List String → List String
lanes_of [] requested = []
lanes_of ((capability, name) ∷ rest) requested =
    let more = lanes_of rest requested in
    if contains requested capability then name ∷ more else more

-- { name: value for name in names }
abbrev pub each_name : Value → List String → Fields
each_name value [] = end
each_name value (name ∷ names) = field name value (each_name value names)

abbrev no_text : Option String → Bool
no_text none = true
no_text (some text) = text == ""

abbrev text_value : Option String → Value
text_value none = null
text_value (some text) = str text

-- [str, …] of texts
abbrev pub to_texts : List String → Items
to_texts [] = nil
to_texts (text ∷ rest) = cons (str text) (to_texts rest)

abbrev pub with_paging : Bool → List String → Fields → Fields
with_paging snapshot_paging requested result =
    if snapshot_paging
    then put "snapshot_capability" (dict (("schema", num 3) ∷ ("delivery", str "paged_v1") ∷ []))
        (put "sync_capabilities" (arr (to_texts requested)) result)
    else result

abbrev pub with_lanes : List String → Fields → Fields
with_lanes [] result = result
with_lanes (name ∷ names) result = put "lanes" (obj (each_name granted_lane (name ∷ names))) result

abbrev pub with_delivery : Bool → Option String → Fields → Result Fields
with_delivery false client result = ok result
with_delivery true client result = do
  raise_if (no_text client) (python_error "ValueError")
  ok (
      put "p6_delivery"
        (dict (
          ("profile", str p6_delivery)
          ∷ ("client_instance_id", text_value client)
          ∷ ("activated", bool true)
          ∷ []))
        result)

unfoldable pub attach_standard_bootstrap_fields :
    Fields → Bool → List String → Option String → Result Fields
attach_standard_bootstrap_fields result snapshot_paging requested client =
    with_delivery (contains requested lane_p6) client
      (with_lanes (lanes_of compat_lanes requested) (with_paging snapshot_paging requested result))

-- value == empty_compat_cursor()
unfoldable pub is_empty_cursor : Value → Bool
is_empty_cursor value =
    is_dict value
    && same_set (keys (entries value)) ("stream_epoch" ∷ "scan_seq" ∷ [])
    && equals_str (get (entries value) "stream_epoch") "1"
    && equals_str (get (entries value) "scan_seq") "0"

-- The two checks on the section of a lane.
unfoldable pub is_empty_lane : Value → Bool
unfolding is_empty_cursor
is_empty_lane section =
    is_dict section
    && same_set (keys (entries section)) ("cursor" ∷ "committed_seq" ∷ [])
    && is_empty_cursor (get (entries section) "cursor")
    && equals_str (get (entries section) "committed_seq") "0"

-- d.values()
abbrev pub values : Fields → List Value
values end = []
values (field k v fs) = v ∷ values fs

-- value == {"profile": P6_DELIVERY, "client_instance_id": client}
unfoldable pub is_delivery_context : String → Value → Bool
is_delivery_context client value =
    is_dict value
    && same_set (keys (entries value)) ("profile" ∷ "client_instance_id" ∷ [])
    && equals_str (get (entries value) "profile") p6_delivery
    && equals_str (get (entries value) "client_instance_id") client

abbrev pub empty_answer : Value
empty_answer =
    dict
      (("events", arr nil) ∷ ("next_cursor", empty_compat_cursor) ∷ ("has_more", bool false) ∷ [])

unfoldable pub empty_compat_delta_lanes : Fields → List String → String → Result Fields
unfolding is_empty_lane is_delivery_context
empty_compat_delta_lanes body negotiated client =
    let lanes = get body "lanes" in
    let names = keys (entries lanes) in
    let answered =
      raise_if
        (not (is_dict lanes)
          || not (any (λ name. true) names)
          || not (is_subset names (lanes_of compat_lanes negotiated)))
        invalid
      >> raise_if (not (all is_empty_lane (values (entries lanes)))) invalid
      >> raise_if
          (if contains names "p6_group"
            then not (is_delivery_context client (get body "p6_delivery"))
            else contains (keys body) "p6_delivery")
          invalid
      >> ok (each_name empty_answer names) in
    if contains (keys body) "lanes"
    then answered
    else (raise_if (contains (keys body) "p6_delivery") invalid >> ok end)
