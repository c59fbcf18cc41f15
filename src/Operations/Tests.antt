-- ===== src/Operations/Tests.antt =====
-- A send that is stored, sent again, and confused with another.
use awiki_open_server.Shared.{
  String, ◌≡◌, refl, true, some, List, [], ◌∷◌, if◌then◌else◌, ◌==◌, ok, err, conflict,
}
use awiki_open_server.Shared.Json.{Fields, bool, str, get, field, end, dict}
use awiki_open_server.Operations.{
  GroupRequest, Operation, store_operation, operation_replay, standard_v2_acceptance,
}
use awiki_open_server.Operations.Replay.{operation_replay-store, operation_conflicts}

abbrev context : GroupRequest
context = record {
  sender_did = "did:wba:ann";
  method = "group.send";
  operation_id = "op-1";
  target_did = "did:wba:g";
  meta = field "profile" (str "anp.group.base.v2") end;
  auth = end;
  body = end;
  payload_digest = "d1";
  profile = "anp.group.base.v2";
}

abbrev other : GroupRequest
other = record context { payload_digest = "d2" }

abbrev result : Fields
result = field "group_receipt" (dict (("accepted_at", str "t1") ∷ [])) end

abbrev stored : List Operation × Fields
unfolding store_operation standard_v2_acceptance
stored = elim (store_operation context "did:wba:g" result 7 []) [ ok r ↦ r | err e ↦ ([], end) ]

stores : store_operation context "did:wba:g" result 7 [] ≡ ok (stored.0, stored.1)
unfolding store_operation standard_v2_acceptance
stores = refl

operation_replay-store_example :
    (replayed : Fields) × (operation_replay context "did:wba:g" stored.0 ≡ ok (some replayed))
    × ((key : String)
        → get replayed key ≡ (if "idempotent_replay" == key then bool true else get stored.1 key))
operation_replay-store_example =
    operation_replay-store context "did:wba:g" result stored.1 7 [] stored.0 stores

operation_conflicts_example :
    operation_replay other "did:wba:g" stored.0 ≡ err (conflict "group.operation_id_conflict")
operation_conflicts_example =
    operation_conflicts context other "did:wba:g" result stored.1 7 [] stored.0 stores refl refl
      refl refl
