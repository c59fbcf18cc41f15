-- ===== src/Grant.antt =====
-- attachments/core.py: whether a requester may have a ticket for an attachment of a direct message.
pub mod Granted
mod Tests
use awiki_open_server.Shared.{
  String, Bool, true, false, not, ◌&&◌, Option, none, some, List, [], ◌∷◌, if◌then◌else◌, ◌==◌,
  Result, ok, err, unauthorized, raise_if, ◌>>◌,
}
use awiki_open_server.Shared.Lists.{any}
use awiki_open_server.Shared.Table.{first_where}
use awiki_open_server.Shared.Json.{Value, Fields, arr, get, entries, elements, is_dict, equals_str}
use awiki_open_server.ReadState.{DirectMessage}

-- What _ticket_direct_binding returns, with the sender that attachment_ticket adds.
pub record Binding : Type 0 where
  pub attachment_id : String
  pub object_uri : String
  pub requester_did : String
  pub sender_did : String
  pub message_id : String
  pub message_target_did : String

-- body["payload"]["attachments"], where these are a dict and a list
abbrev pub listed : Value → List Value
listed (arr items) = elements items
listed _ = []

unfoldable pub attachments_of : Value → List Value
attachments_of body = listed (get (entries (get (entries body) "payload")) "attachments")

-- The attachment has the identifier and the address.
unfoldable pub is_object : String → String → Value → Bool
is_object attachment_id object_uri attachment =
    is_dict attachment
    && is_dict (get (entries attachment) "access_info")
    && equals_str (get (entries attachment) "attachment_id") attachment_id
    && equals_str (get (entries (get (entries attachment) "access_info")) "object_uri") object_uri

unfoldable pub attachment_manifest_has_object : Value → String → String → Bool
unfolding attachments_of is_object
attachment_manifest_has_object body attachment_id object_uri =
    any (is_object attachment_id object_uri) (attachments_of body)

abbrev pub is_message : Binding → DirectMessage → Bool
is_message binding m =
    m.message_id == binding.message_id
    && m.sender_did == binding.sender_did
    && m.recipient_did == binding.message_target_did

abbrev pub has_object : Binding → Option DirectMessage → Bool
has_object binding none = false
has_object binding (some m) =
    attachment_manifest_has_object m.body binding.attachment_id binding.object_uri

unfoldable pub ensure_direct_attachment_context :
    Binding → String → List DirectMessage → Result (Unit {0})
unfolding attachment_manifest_has_object
ensure_direct_attachment_context binding owner messages =
    if binding.requester_did == binding.sender_did && binding.sender_did == owner
    then ok tt
    else raise_if (not (has_object binding (first_where (is_message binding) messages)))
        (unauthorized "anp.attachment.grant_not_found")
