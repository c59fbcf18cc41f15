-- ===== src/Outbox.antt =====
-- messaging/groups/outbox.py: the worker that sends the rows of group_delivery_outbox. Discovery,
-- the signature and the HTTP request are a parameter, `Network`; so are the readings of the clock,
-- of which each row of a drain has its own.
pub mod Batch
pub mod Order
pub mod Attempts
pub mod Run
mod Tests
use Prim.Native.String
use Prim.Native.String.{[] as empty_text, ◌∷◌ as text_cons}
use awiki_open_server.Shared.{
  ℕ, zero, suc, ◌+◌, ◌-◌, ◌*◌, ◌/◌, ◌^◌, min, max, String, Bool, true, false, not, ◌&&◌, ◌||◌,
  Option, none, some, List, [], ◌∷◌, map, if◌then◌else◌, ltb, leb, nat_eq, ◌==◌, Result, ok, err,
  AwikiError, server_error, invalid_request, method_not_found, invalid_params, unauthorized,
  not_supported, not_found, user_service_not_found, conflict, python_error, sync_protocol_error,
  raise_if, ◌>>=◌, ◌>>◌,
}
use awiki_open_server.Shared.Lists.{length, any, take}
use awiki_open_server.Shared.Table.{select_where, count_where, update_where, order_by}
use awiki_open_server.Shared.Json.{
  Value, Fields, null, bool, num, other_num, str, arr, obj, end, get, keys, contains, entries,
  is_dict, equals_str,
}
use awiki_open_server.Storage.{
  Delivery, DeliveryStatus, Db, pending, retry, delivered, dead, is_open, is_delivered, is_active,
}
use awiki_open_server.Delivery.{Settings}

abbrev pub max_delivery_attempts : ℕ
max_delivery_attempts = 8

abbrev pub max_backoff_seconds : ℕ
max_backoff_seconds = 300

abbrev pub second : ℕ
second = 1_000_000

-- The seconds until the next attempt, after the given number of attempts.
unfoldable pub backoff_seconds : ℕ → ℕ
backoff_seconds attempt_count = min max_backoff_seconds (2 ^ (attempt_count - 1))

unfoldable pub next_attempt : ℕ → ℕ → ℕ
unfolding backoff_seconds
next_attempt now attempt_count = now + backoff_seconds attempt_count * second

abbrev class_name : AwikiError → String
class_name (server_error m) = "AwikiError"
class_name (invalid_request m) = "InvalidRequest"
class_name (method_not_found m) = "MethodNotFound"
class_name (invalid_params m) = "InvalidParams"
class_name (unauthorized m) = "Unauthorized"
class_name (not_supported m) = "NotSupported"
class_name (not_found m) = "NotFound"
class_name (user_service_not_found m) = "UserServiceNotFound"
class_name (conflict m) = "Conflict"
class_name (python_error m) = m
class_name (sync_protocol_error c m) = "SyncProtocolError"

abbrev message_of : AwikiError → String
message_of (server_error m) = m
message_of (invalid_request m) = m
message_of (method_not_found m) = m
message_of (invalid_params m) = m
message_of (unauthorized m) = m
message_of (not_supported m) = m
message_of (not_found m) = m
message_of (user_service_not_found m) = m
message_of (conflict m) = m
message_of (python_error m) = ""
message_of (sync_protocol_error c m) = m

-- isinstance(exc, NotSupported)
abbrev pub is_not_supported : AwikiError → Bool
is_not_supported (not_supported m) = true
is_not_supported _ = false

-- text[:n]
abbrev text_take : ℕ → String → String
text_take zero text = empty_text
text_take (suc n) empty_text = empty_text
text_take (suc n) (text_cons c text) = text_cons c (text_take n text)

unfoldable pub error_summary : AwikiError → String
error_summary e = text_take 500 (String.◌++◌ (class_name e) (String.◌++◌ ": " (message_of e)))

-- What runtime._discover_anp_service returns of the service that a DID document declares.
pub record Service : Type 0 where
  pub service_did : String
  pub service_endpoint : String
  pub profiles : List String

abbrev pub Headers : Type 0
Headers = List (String × String)

pub record Network : Type 0 where
  pub discover : String → Result Service
  -- app.state.service_identity, by its sign_headers
  pub identity : Option (String → Headers → Value → Headers)
  pub post : Service → Value → Headers → Result Value

-- d.get(key, {}), where the next call is .get
abbrev section : Fields → String → Result Fields
section fs key = if contains (keys fs) key then as_fields (get fs key) else ok end
  where
    as_fields : Value → Result Fields
    as_fields (obj gs) = ok gs
    as_fields _ = err (python_error "AttributeError")

abbrev envelope_fields : Value → Result Fields
envelope_fields (obj fs) =
    if contains (keys fs) "id"
    then err (invalid_params "group_notification_envelope_invalid")
    else ok fs
envelope_fields _ = err (invalid_params "group_notification_envelope_invalid")

-- d.update(other), an entry at a time.
abbrev set_header : String × String → Headers → Headers
set_header h [] = h ∷ []
set_header h (x ∷ headers) =
    let rest = x ∷ set_header h headers in if x.0 == h.0 then h ∷ headers else rest

abbrev update_headers : Headers → Headers → Headers
update_headers headers [] = headers
update_headers headers (h ∷ new) = update_headers (set_header h headers) new

signed_headers : Settings → Network → Service → Value → Result Headers
signed_headers settings net service envelope =
    let headers : Headers =
      ("Content-Type", "application/json")
      ∷ ("x-anp-source-service-did", settings.service_did)
      ∷ [] in
    elim net.identity [
      | none ↦
          if settings.allow_unsigned_peer_dev
          then ok headers
          else err (unauthorized "service_identity_not_configured")
      | some sign ↦ ok (update_headers headers (sign service.service_endpoint headers envelope))
    ]

unfoldable pub deliver : Settings → Network → Delivery → Result (Unit {0})
unfolding signed_headers
deliver settings net row = do
  declared ← net.discover row.target_did
  raise_if (not (declared.service_did == row.target_service_did))
      (unauthorized "outbox_target_service_did_changed")
  home ← net.discover declared.service_did
  raise_if
      (not (home.service_did == declared.service_did)
        || not (home.service_endpoint == declared.service_endpoint))
      (unauthorized "outbox_target_home_endpoint_changed")
  raise_if (home.service_endpoint == "") (invalid_params "anp_service_endpoint_required")
  envelope ← envelope_fields row.envelope
  params ← section envelope "params"
  meta ← section params "meta"
  raise_if (not (any (equals_str (get meta "profile")) home.profiles))
      (not_supported "peer_profile_not_supported")
  headers ← signed_headers settings net home row.envelope
  response ← net.post home row.envelope headers
  raise_if (is_dict (get (entries response) "error"))
      (invalid_params "remote_group_notification_rejected")

abbrev pub same_stream : Delivery → Delivery → Bool
same_stream a b = a.group_did == b.group_did && a.target_did == b.target_did

-- The WHERE clause of the subquery on `earlier`.
abbrev pub blocks : Delivery → Delivery → Bool
blocks candidate earlier =
    same_stream earlier candidate
    && ltb earlier.group_event_seq candidate.group_event_seq
    && not (is_delivered earlier.status)

-- EXISTS (…)
unfoldable pub blocked : List Delivery → Delivery → Bool
blocked rows candidate = any (blocks candidate) rows

abbrev by_due : Delivery → Delivery → Bool
by_due a b =
    ltb a.next_attempt_at b.next_attempt_at
    || (nat_eq a.next_attempt_at b.next_attempt_at && ltb a.created_at b.created_at)

abbrev pub is_due : ℕ → List Delivery → Delivery → Bool
is_due now rows candidate =
    is_open candidate.status && leb candidate.next_attempt_at now && not (blocked rows candidate)

-- The rows that a drain selects.
unfoldable pub due : ℕ → ℕ → List Delivery → List Delivery
due now limit rows =
    take (max 1 (min limit 100)) (order_by by_due (select_where (is_due now rows) rows))

pub record Clock : Type 0 where
  -- now_iso() at the start of the drain
  pub now : ℕ
  -- the reading in _next_attempt, and that for updated_at
  pub retry_from : Delivery → ℕ
  pub updated : Delivery → ℕ

-- The row after an attempt that failed.
unfoldable pub failed_row : Clock → Delivery → AwikiError → Delivery → Delivery
unfolding next_attempt error_summary
failed_row clock row e d =
    let attempt_count = row.attempt_count + 1 in
    let is_dead = leb max_delivery_attempts attempt_count || is_not_supported e in
    record d {
      status = if is_dead then dead else retry;
      attempt_count = attempt_count;
      next_attempt_at =
          if is_dead then clock.now else next_attempt (clock.retry_from row) attempt_count;
      last_error = some (error_summary e);
      updated_at = clock.updated row;
    }

-- The row after an attempt that succeeded.
unfoldable pub delivered_row : Clock → Delivery → Delivery → Delivery
delivered_row clock row d = record d {
  status = delivered;
  attempt_count = row.attempt_count + 1;
  last_error = none;
  updated_at = clock.updated row;
}

abbrev pub after_attempt : Clock → Delivery → Result (Unit {0}) → Delivery → Delivery
after_attempt clock row (ok _) d = delivered_row clock row d
after_attempt clock row (err e) d = failed_row clock row e d

-- WHERE delivery_id = ? AND status IN ('pending', 'retry')
abbrev pub is_still_open : Delivery → Delivery → Bool
is_still_open row d = d.delivery_id == row.delivery_id && is_open d.status

pub record Report : Type 0 where
  pub selected : ℕ
  pub delivered_count : ℕ
  pub retried : ℕ
  pub dead_count : ℕ

abbrev pub empty_report : Report
empty_report = record { selected = 0; delivered_count = 0; retried = 0; dead_count = 0 }

abbrev pub count_attempt : Delivery → Result (Unit {0}) → Report → Report
count_attempt row (ok _) r = record r { delivered_count = r.delivered_count + 1 }
count_attempt row (err e) r =
    if leb max_delivery_attempts (row.attempt_count + 1) || is_not_supported e
    then record r { dead_count = r.dead_count + 1 }
    else record r { retried = r.retried + 1 }

module _ (settings : Settings) (net : Network) (clock : Clock) where
  -- The loop over the selected rows.
  pub attempt_each : List Delivery → Report → List Delivery → Report × List Delivery
  unfolding deliver delivered_row failed_row
  attempt_each [] report table = (report, table)
  attempt_each (row ∷ rest) report table =
      attempt_each rest (count_attempt row (deliver settings net row) report) (
        update_where (is_still_open row) (after_attempt clock row (deliver settings net row)) table)

  pub drain_locked : ℕ → List Delivery → Report × List Delivery
  unfolding attempt_each due blocked
  drain_locked limit table =
      let rows = due clock.now limit table in
      attempt_each rows (record empty_report { selected = length rows }) table

  -- The lock of the worker is not waited for.
  pub drain_once : Bool → ℕ → List Delivery → Report × List Delivery
  unfolding drain_locked
  drain_once locked limit table = if locked then (empty_report, table) else drain_locked limit table

-- One cycle of the worker: its network, its clock, and whether another drain holds the lock.
pub record Cycle : Type 0 where
  pub net : Network
  pub clock : Clock
  pub locked : Bool

-- The worker, for the given cycles. The limit is the default of drain_group_outbox_once.
pub run : Settings → List Cycle → List Delivery → List Delivery
unfolding drain_once
run settings [] table = table
run settings (c ∷ cycles) table =
    run settings cycles (drain_once settings c.net c.clock c.locked 50 table).1

-- The part of group_operations_status that reads the database.
pub record OutboxStatus : Type 0 where
  pub hosted : ℕ
  pub active_members : ℕ
  pub pending_count : ℕ
  pub retry_count : ℕ
  pub delivered_count : ℕ
  pub dead_count : ℕ
  pub oldest_pending_age_seconds : Option ℕ

abbrev is_status : DeliveryStatus → DeliveryStatus → Bool
is_status pending pending = true
is_status retry retry = true
is_status delivered delivered = true
is_status dead dead = true
is_status _ _ = false

-- SELECT MIN(created_at)
abbrev oldest_created : List Delivery → Option ℕ
oldest_created [] = none
oldest_created (d ∷ rest) =
    some (elim (oldest_created rest) [ none ↦ d.created_at | some t ↦ min d.created_at t ])

unfoldable pub operations_status : ℕ → Db → OutboxStatus
operations_status now db =
    let rows = db.group_delivery_outbox in
    record {
      hosted = length db.hosted_groups;
      active_members = count_where (λ m. is_active m.status) db.hosted_group_members;
      pending_count = count_where (λ d. is_status d.status pending) rows;
      retry_count = count_where (λ d. is_status d.status retry) rows;
      delivered_count = count_where (λ d. is_status d.status delivered) rows;
      dead_count = count_where (λ d. is_status d.status dead) rows;
      oldest_pending_age_seconds =
          elim (oldest_created (select_where (λ d. is_open d.status) rows)) [
            | none ↦ none
            | some t ↦ some ((now - t) / second)
          ];
    }
