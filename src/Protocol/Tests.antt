-- ===== src/Protocol/Tests.antt =====
-- A request of version 2 to leave a group, from a caller that logged in.
use awiki_open_server.Shared.{◌≡◌, refl, false, some, ok}
use awiki_open_server.Shared.Text.{is_blank, is_space, starts_with}
use awiki_open_server.Shared.Python.{in_set}
use awiki_open_server.Shared.Json.{Fields, str, obj, end, field}
use awiki_open_server.Operations.{GroupRequest}
use awiki_open_server.Protocol.{
  Caller, request_context, checked_context, group_request, check_envelope, named_parties,
  verified_digest, validate_v2_shape, check_v2_fields, check_v2_members, has_any, structures,
  require_string,
}
use awiki_open_server.Protocol.Admitted.{IsAdmitted, request_context-IsAdmitted}

abbrev caller : Caller
caller = record {
  is_public = false;
  current_did = ok (some "did:wba:ann");
  proof_digest = λ auth method meta body sender. ok "digest-1";
  peer_signature = λ sender. ok tt;
}

abbrev meta : Fields
meta = field "profile" (str "anp.group.base.v2") (
    field "security_profile" (str "transport-protected") (
      field "sender_did" (str "did:wba:ann") (
        field "operation_id" (str "op-7") (
          field "target" (obj (field "kind" (str "group") (field "did" (str "did:wba:g") end)))
            end))))

abbrev auth : Fields
auth = field "scheme" (str "anp-rfc9421-origin-proof-v1") end

abbrev params : Fields
params =
    field "_anp_meta" (obj meta) (field "_anp_body" (obj end) (field "_anp_auth" (obj auth) end))

abbrev admitted : GroupRequest
admitted = group_request "group.leave" meta auth end ("did:wba:ann", "op-7", "did:wba:g") "digest-1"

admits : request_context caller params "group.leave" "group" ≡ ok admitted
unfolding request_context checked_context check_envelope named_parties verified_digest
    validate_v2_shape check_v2_fields check_v2_members has_any structures require_string is_blank
    is_space in_set starts_with
admits = refl

request_context-IsAdmitted_example : IsAdmitted caller "group.leave" "group" admitted
request_context-IsAdmitted_example =
    request_context-IsAdmitted caller params "group.leave" "group" admitted admits
