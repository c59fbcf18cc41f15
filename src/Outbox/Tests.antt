-- ===== src/Outbox/Tests.antt =====
-- An outbox with a dead delivery, a later one of its stream, and one of another group.
use awiki_open_server.Shared.{
  ℕ, ◌≤◌, ◌<◌, min, max, String, ◌≡◌, ◌≢◌, refl, true, false, none, List, [], ◌∷◌, map, arith, ok,
  err, python_error,
}
use awiki_open_server.Shared.Json.{null, str, dict}
use awiki_open_server.Shared.Table.{count_where}
use awiki_open_server.Shared.Lists.{length, sum_by, All, All_at}
use awiki_open_server.Storage.{Delivery, DeliveryStatus, pending, retry, delivered, dead}
use awiki_open_server.Delivery.{Settings, conflicts}
use awiki_open_server.Delivery.Receivers.{Distinct}
use awiki_open_server.Outbox.{Network, Clock, Cycle, Service, due, drain_locked, run, blocked}
use awiki_open_server.Outbox.Batch.{drain-map, step_row}
use awiki_open_server.Outbox.Order.{IsInOrder}
use awiki_open_server.Outbox.Attempts.{attempts_left, drain-uses_attempts, drain_report, is_left}
use awiki_open_server.Outbox.Run.{IsSound, run-IsSound}

abbrev settings : Settings
settings = record {
  service_did = "did:wba:a.example";
  group_outbox_max_pending = 100;
  allow_unsigned_peer_dev = true;
}

abbrev home : Service
home = record {
  service_did = "did:wba:b.example";
  service_endpoint = "https://b.example/anp";
  profiles = "anp.group.base.v1" ∷ [];
}

abbrev answers : Network
answers = record {
  discover = λ did. ok home;
  identity = none;
  post = λ service envelope headers. ok null;
}

abbrev unreachable : Network
unreachable = record answers { discover = λ did. err (python_error "ConnectError") }

abbrev clock : Clock
clock = record { now = 100; retry_from = λ d. 200; updated = λ d. 300 }

abbrev row : String → String → ℕ → DeliveryStatus → Delivery
row delivery_id group_did seq status = record {
  delivery_id = delivery_id;
  group_did = group_did;
  group_event_seq = seq;
  target_did = "did:wba:bob";
  target_service_did = "did:wba:b.example";
  method = "group.incoming";
  envelope =
      dict
        (("params", dict (("meta", dict (("profile", str "anp.group.base.v1") ∷ [])) ∷ [])) ∷ []);
  status = status;
  attempt_count = 1;
  next_attempt_at = 50;
  last_error = none;
  created_at = 10;
  updated_at = 10;
}

abbrev ended : Delivery
ended = row "gdlv-1" "did:wba:g" 1 dead

abbrev waiting : Delivery
waiting = row "gdlv-2" "did:wba:g" 2 pending

abbrev other : Delivery
other = row "gdlv-3" "did:wba:h" 7 retry

abbrev rows : List Delivery
rows = ended ∷ waiting ∷ other ∷ []

rows-Distinct : Distinct rows
unfolding conflicts
rows-Distinct = (refl, (refl, (refl, tt)))

undelivered-IsInOrder : (t : List Delivery) → All (λ d. d.status ≢ delivered) t → IsInOrder t
undelivered-IsInOrder t h a b ma mb g s lt e =
    absurd (All_at (λ (d : Delivery). d.status ≢ delivered) t h b mb e)

rows-IsSound : IsSound rows
rows-IsSound = record {
  distinct = rows-Distinct;
  in_order = undelivered-IsInOrder rows ((λ e. cc), ((λ e. cc), ((λ e. cc), tt)));
  counted = (
    (omega arith, λ e. omega arith),
    ((omega arith, λ e. omega arith), ((omega arith, λ e. omega arith), tt)),
  );
}

something_due : due 100 50 rows ≢ []
unfolding due blocked
something_due e = cc

abbrev cycles : List Cycle
cycles =
    record { net = answers; clock = clock; locked = false }
    ∷ record { net = unreachable; clock = clock; locked = true }
    ∷ []

run-IsSound_example : IsSound (run settings cycles rows)
run-IsSound_example = run-IsSound settings cycles rows rows-IsSound

drain-map_example :
    (drain_locked settings answers clock 50 rows).1
    ≡ map (step_row settings answers clock (due 100 50 rows)) rows
drain-map_example = drain-map settings answers clock 50 rows rows-Distinct

drain-uses_attempts_example :
    sum_by attempts_left (drain_locked settings answers clock 50 rows).1 < sum_by attempts_left rows
drain-uses_attempts_example =
    drain-uses_attempts settings answers clock 50 rows rows-Distinct rows-IsSound.counted
      something_due

drain_report_example :
    let out = (drain_locked settings answers clock 50 rows).0 in
    (out.selected ≡ length (due 100 50 rows))
    × (out.delivered_count
        ≡ count_where (is_left settings answers clock delivered) (due 100 50 rows))
    × (out.retried ≡ count_where (is_left settings answers clock retry) (due 100 50 rows))
    × (out.dead_count ≡ count_where (is_left settings answers clock dead) (due 100 50 rows))
    × (out.selected ≤ max 1 (min 50 100))
drain_report_example = drain_report settings answers clock 50 rows
