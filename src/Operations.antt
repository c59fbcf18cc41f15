-- ===== src/Operations.antt =====
-- messaging/groups/service.py: the record of group operations, by which a request that is sent again
-- gets the result that it got before.
pub mod Replay
mod Tests
use awiki_open_server.Shared.{
  ℕ, String, Bool, true, false, not, ◌&&◌, ◌||◌, Option, none, some, List, [], ◌∷◌, ◌++◌,
  if◌then◌else◌, ◌==◌, Result, ok, err, AwikiError, conflict, python_error, raise_if, ◌>>=◌, ◌>>◌,
}
use awiki_open_server.Shared.Lists.{any}
use awiki_open_server.Shared.Table.{first_where}
use awiki_open_server.Shared.Json.{
  Value, Fields, bool, str, get, put, keys, contains, entries, is_dict,
}

-- `profile` is meta["profile"], a text by the time that a GroupRequest is made.
pub record GroupRequest : Type 0 where
  pub method : String
  pub sender_did : String
  pub operation_id : String
  pub target_did : String
  pub meta : Fields
  pub auth : Fields
  pub body : Fields
  pub payload_digest : String
  pub profile : String

pub record Operation : Type 0 where
  pub sender_did : String
  pub group_scope : String
  pub method : String
  pub operation_id : String
  pub payload_digest : String
  pub result : Fields
  pub created_at : ℕ
  pub wire_profile : String

-- The primary key of group_operations.
abbrev pub is_operation : GroupRequest → String → Operation → Bool
is_operation context scope o =
    o.sender_did == context.sender_did
    && o.group_scope == scope
    && o.method == context.method
    && o.operation_id == context.operation_id

abbrev pub is_v2 : GroupRequest → Bool
is_v2 context = context.profile == "anp.group.base.v2"

-- result.update(…)
abbrev pub update_accepted : GroupRequest → Fields → Fields
update_accepted context result =
    put "operation_id" (str context.operation_id)
      (put "final_acceptance" (bool true) (put "accepted" (bool true) result))

abbrev pub receipt_of : Fields → Value
receipt_of result = get result "group_receipt"

abbrev pub has_receipt : Fields → Bool
has_receipt result =
    is_dict (receipt_of result) && contains (keys (entries (receipt_of result))) "accepted_at"

unfoldable pub standard_v2_acceptance : GroupRequest → Fields → Result Fields
standard_v2_acceptance context result =
    if is_v2 context
    then (raise_if (not (has_receipt result)) (python_error "KeyError")
        >> ok (
            put "accepted_at" (get (entries (receipt_of result)) "accepted_at")
              (update_accepted context result)))
    else ok result

abbrev pub replay_row : GroupRequest → Option Operation → Result (Option Fields)
replay_row context none = ok none
replay_row context (some row) = do
  raise_if
      (not (row.wire_profile == context.profile)
        || not (row.payload_digest == context.payload_digest))
      (conflict "group.operation_id_conflict")
  result ← standard_v2_acceptance context row.result
  ok (some (put "idempotent_replay" (bool true) result))

unfoldable pub operation_replay : GroupRequest → String → List Operation → Result (Option Fields)
unfolding standard_v2_acceptance
operation_replay context scope table =
    replay_row context (first_where (is_operation context scope) table)

abbrev pub operation_of : GroupRequest → String → Fields → ℕ → Operation
operation_of context scope result created_at = record {
  sender_did = context.sender_did;
  group_scope = scope;
  method = context.method;
  operation_id = context.operation_id;
  payload_digest = context.payload_digest;
  result = result;
  created_at = created_at;
  wire_profile = context.profile;
}

-- The table, and the result as the caller has it afterwards.
unfoldable pub store_operation :
    GroupRequest → String → Fields → ℕ → List Operation → Result (List Operation × Fields)
unfolding standard_v2_acceptance
store_operation context scope result created_at table = do
  accepted ← standard_v2_acceptance context result
  raise_if (any (is_operation context scope) table) (python_error "IntegrityError")
  ok (table ++ operation_of context scope accepted created_at ∷ [], accepted)
