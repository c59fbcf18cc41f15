-- ===== src/Delivery/Tests.antt =====
-- A group with one remote and one local member, for the outbox.
use mathlib.Core.List.Memᴰ
use awiki_open_server.Shared.{
  ℕ, ◌≤◌, max, String, ◌≡◌, refl, sym, ap, ◌∙◌, true, false, none, some, [], ◌∷◌, Bool-cases, inl,
  inr, arith, nat_eq, ◌==◌, eq_iff, eq_refl, ok,
}
use awiki_open_server.Shared.Json.{null, end}
use awiki_open_server.Shared.Lists.{any}
use awiki_open_server.Shared.Decimal.{show, number_from, number_from-show}
use awiki_open_server.Storage.{HostedMember, Db, active}
use awiki_open_server.Delivery.{
  Settings, Incoming, open_count, capacity_limit, ensure_outbox_capacity, enqueue_incoming_message,
  enqueue_each, incoming_envelope, is_elsewhere,
}
use awiki_open_server.Delivery.Capacity.{incoming-within-limit}
use awiki_open_server.Delivery.Receivers.{
  Distinct, IsFresh, has_key, incoming_reaches_members, enqueue_each-Distinct,
}

abbrev settings : Settings
settings = record {
  service_did = "did:wba:a.example";
  group_outbox_max_pending = 2;
  allow_unsigned_peer_dev = false;
}

abbrev member : String → String → HostedMember
member did home = record {
  group_did = "did:wba:g";
  agent_did = did;
  member_handle = none;
  handle_binding_generation = none;
  home_service_did = some home;
  role = "member";
  status = active;
  joined_at = 0;
  ended_at = none;
  added_by = none;
}

abbrev remote : HostedMember
remote = member "did:wba:bob" "did:wba:b.example"

abbrev db : Db
db = record {
  hosted_groups = [];
  hosted_group_members = member "did:wba:ann" "did:wba:a.example" ∷ remote ∷ [];
  group_delivery_outbox = [];
}

abbrev message : Incoming
message = record {
  original_meta = end;
  body = end;
  auth = null;
  receipt = null;
  accepted_at_text = "t";
}

passed : ensure_outbox_capacity settings db "did:wba:g" false ≡ ok tt
unfolding ensure_outbox_capacity
passed = refl

show-injective : (n m : ℕ) → show n ≡ show m → n ≡ m
show-injective n m h = sym (number_from-show n) ∙ ap (number_from 0) h ∙ number_from-show m

fresh : IsFresh show db.group_delivery_outbox
fresh = record {
  unused = λ n. refl;
  distinct = λ n m. elim (Bool-cases (show n == show m)) [
    | inl e ↦ ground (arith, show-injective n m ((eq_iff (show n) (show m)).0 e))
    | inr e ↦ elim (Bool-cases (nat_eq n m)) [
      | inl f ↦ ground (arith, eq_refl (show m))
      | inr f ↦ e ∙ sym f
    ]
  ];
}

elsewhere : is_elsewhere settings (some "did:wba:b.example") ≡ true
unfolding is_elsewhere
elsewhere = refl

incoming-within-limit_example :
    open_count (enqueue_incoming_message settings show "did:wba:g" 4 5 message 9 db)
    ≤ max (open_count db) (capacity_limit settings false)
incoming-within-limit_example =
    incoming-within-limit settings show "did:wba:g" 4 5 message 9 false db passed

incoming_reaches_members_example :
    any
      (has_key "did:wba:g" 5 "did:wba:bob" "group.incoming")
      (enqueue_incoming_message settings show "did:wba:g" 4 5 message 9 db).group_delivery_outbox
    ≡ true
incoming_reaches_members_example =
    incoming_reaches_members settings show "did:wba:g" 4 5 message 9 db remote fresh
      (Memᴰ.tail (Memᴰ.head refl)) refl refl elsewhere

enqueue_each-Distinct_example :
    Distinct
      (enqueue_each
        (incoming_envelope "did:wba:g" 4 5 message)
        show
        "did:wba:g"
        5
        "group.incoming"
        9
        (remote ∷ remote ∷ [])
        db).group_delivery_outbox
enqueue_each-Distinct_example =
    enqueue_each-Distinct (incoming_envelope "did:wba:g" 4 5 message) show "did:wba:g" 5
      "group.incoming" 9 (remote ∷ remote ∷ []) db tt
