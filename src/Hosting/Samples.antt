-- ===== src/Hosting/Samples.antt =====
-- A group with an owner and a member who wants to leave, on a service where both are at home.
use awiki_open_server.Shared.{String, true, false, none, some, [], ◌∷◌, ok, err, python_error}
use awiki_open_server.Shared.Json.{Fields, str, obj, end, field, dict}
use awiki_open_server.Storage.{HostedGroup, HostedMember, active}
use awiki_open_server.Delivery.{Settings}
use awiki_open_server.Policy.{default_policy}
use awiki_open_server.Protocol.{Caller}
use awiki_open_server.Host.{HostDb, World}

abbrev pub settings : Settings
settings = record {
  service_did = "did:wba:a.example";
  group_outbox_max_pending = 10;
  allow_unsigned_peer_dev = false;
}

abbrev pub world : World
world = record {
  settings = settings;
  did_domain = "a.example";
  group_max_message_bytes = 100;
  now = 20;
  time_text = λ t. "t20";
  event_id = "gevt-1";
  delivery_ids = λ n. "gdlv-1";
  sync_ids = λ n. "sev-1";
  sign_receipt = λ value key. ok (
      field "group_did" (str "did:wba:g")
        (field "operation_id" (str "op-1") (field "accepted_at" (str "t20") end)));
  belongs_to_domain = λ did. true;
  discover_service = λ did. err (python_error "URLError");
  resolve_remote_handle = λ handle. err (python_error "URLError");
  binding_generation_is_newer = λ a b. ok true;
  canonical_length = λ body. 9;
  truncate = λ text. err (python_error "ValueError");
}

abbrev pub group : HostedGroup
group = record {
  group_did = "did:wba:g";
  host_service_did = "did:wba:a.example";
  creator_did = "did:wba:ann";
  profile = dict [];
  policy = obj default_policy;
  group_state_version = 1;
  group_event_seq = 1;
  created_at = 1;
  updated_at = 1;
  wire_profile = "anp.group.base.v2";
  protocol_state = "active";
}

abbrev pub member : String → String → HostedMember
member did role = record {
  group_did = "did:wba:g";
  agent_did = did;
  member_handle = none;
  handle_binding_generation = none;
  home_service_did = some "did:wba:a.example";
  role = role;
  status = active;
  joined_at = 1;
  ended_at = none;
  added_by = none;
}

abbrev pub host : HostDb
host = record {
  db = record {
    hosted_groups = group ∷ [];
    hosted_group_members = member "did:wba:ann" "owner" ∷ member "did:wba:bob" "member" ∷ [];
    group_delivery_outbox = [];
  };
  hosted_group_events = [];
  hosted_group_messages = [];
  group_operations = [];
  group_did_documents =
      record {
        group_did = "did:wba:g";
        document = dict [];
        key_reference = "key-1";
        created_at = 1;
      }
      ∷ [];
  group_views = [];
  group_member_views = [];
  group_message_views = [];
  sync_events = [];
  users = [];
  profiles = [];
  did_documents = [];
  groups = [];
  group_members = [];
}

abbrev pub caller : String → Caller
caller did = record {
  is_public = false;
  current_did = ok (some did);
  proof_digest = λ auth method meta body sender. ok "digest-1";
  peer_signature = λ sender. ok tt;
}

abbrev pub params : String → Fields → Fields → Fields
params sender more body =
    field "_anp_meta"
      (obj (
        field "profile" (str "anp.group.base.v2") (
          field "security_profile" (str "transport-protected") (
            field "sender_did" (str sender) (
              field "operation_id" (str "op-7") (
                field "target" (dict (("kind", str "group") ∷ ("did", str "did:wba:g") ∷ []))
                  more))))))
      (field "_anp_body" (obj body)
        (field "_anp_auth" (dict (("scheme", str "anp-rfc9421-origin-proof-v1") ∷ [])) end))
