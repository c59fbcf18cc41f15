-- ===== src/Grant/Tests.antt =====
-- A message with one attachment.
use awiki_open_server.Shared.{◌≡◌, refl, ◌⊎◌, none, [], ◌∷◌, ok}
use awiki_open_server.Shared.Json.{str, arr, nil, cons, dict}
use awiki_open_server.ReadState.{DirectMessage}
use awiki_open_server.Grant.{
  Binding, ensure_direct_attachment_context, attachment_manifest_has_object, attachments_of,
  is_object,
}
use awiki_open_server.Grant.Granted.{IsCarried, ensure_direct_attachment_context_grants}

abbrev binding : Binding
binding = record {
  attachment_id = "att-1";
  object_uri = "https://a.example/objects/obj-1";
  requester_did = "did:wba:ann";
  sender_did = "did:wba:bob";
  message_id = "m1";
  message_target_did = "did:wba:ann";
}

abbrev message : DirectMessage
message = record {
  message_id = "m1";
  sender_did = "did:wba:bob";
  recipient_did = "did:wba:ann";
  operation_id = none;
  body = dict (
      (
        "payload",
        dict (
            (
              "attachments",
              arr (
                  cons
                    (dict (
                      ("attachment_id", str "att-1")
                      ∷ (
                        "access_info",
                        dict (("object_uri", str "https://a.example/objects/obj-1") ∷ []),
                      )
                      ∷ []))
                    nil),
            )
            ∷ []),
      )
      ∷ []);
  content_type = "application/json";
  created_at = 1;
  server_seq = 1;
}

accepted : ensure_direct_attachment_context binding "did:wba:bob" (message ∷ []) ≡ ok tt
unfolding ensure_direct_attachment_context attachment_manifest_has_object attachments_of is_object
accepted = refl

ensure_direct_attachment_context_grants_example :
    ((binding.requester_did ≡ binding.sender_did) × (binding.sender_did ≡ "did:wba:bob"))
    ⊎ IsCarried binding (message ∷ [])
ensure_direct_attachment_context_grants_example =
    ensure_direct_attachment_context_grants binding "did:wba:bob" (message ∷ []) accepted
