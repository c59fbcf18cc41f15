-- ===== src/ReadState/Tests.antt =====
-- A thread of three messages, of which the owner read the first and reads the second.
use awiki_open_server.Shared.{
  ℕ, ◌≤◌, String, ◌≡◌, refl, arith, false, Option, none, some, [], ◌∷◌, ok, err,
}
use awiki_open_server.Shared.Json.{null}
use awiki_open_server.Shared.Lists.{All_at}
use awiki_open_server.ReadState.{
  Mail, DirectMessage, MessageView, direct, Outside, Joined, is_none, joined,
}
use awiki_open_server.ReadState.Marking.{Marked, mark_read, inbox_mark_read}
use awiki_open_server.ReadState.Prefix.{IsPrefixRead, IsMarked, mark_read-IsMarked}
use awiki_open_server.ReadState.Inbox.{IsKept, inbox_mark_read-IsKept}

abbrev message : String → ℕ → DirectMessage
message message_id seq = record {
  message_id = message_id;
  sender_did = "did:wba:bob";
  recipient_did = "did:wba:ann";
  operation_id = none;
  body = null;
  content_type = "text/plain";
  created_at = 10;
  server_seq = seq;
}

abbrev view : String → Option ℕ → MessageView
view message_id read_at = record {
  owner_did = "did:wba:ann";
  message_id = message_id;
  peer_did = "did:wba:bob";
  read_at = read_at;
}

abbrev mail : Mail
mail = record {
  direct_messages = message "m1" 1 ∷ message "m2" 2 ∷ message "m3" 3 ∷ [];
  direct_message_views = view "m1" (some 11) ∷ view "m2" none ∷ view "m3" none ∷ [];
  thread_read_states =
      record {
        owner_did = "did:wba:ann";
        thread_id = "direct:did:wba:bob";
        read_up_to_seq = 1;
        updated_at = 11;
        state_version = 1;
        read_message_id = none;
      }
      ∷ [];
  sync_events = [];
  direct_conversation_refs = [];
  hosted_groups = [];
  hosted_group_members = [];
  group_views = [];
  group_members = [];
  hosted_group_messages = [];
  group_message_views = [];
  group_messages = [];
}

abbrev outside : Outside
outside = record {
  reference = λ owner peer. "conv_";
  event_id = "sev-1";
  now = 20;
  show_time = λ t. "now";
}

prefix : IsPrefixRead "did:wba:ann" "did:wba:bob" mail
unfolding joined
prefix j i le =
    All_at (λ (x : Joined). x.server_seq ≤ 1 → is_none x.read_at ≡ false) _
      ((λ h. refl), ((λ h. absurd (omega arith)), ((λ h. absurd (omega arith)), tt))) j i le

inbox_mark_read-IsKept_example :
    IsKept "did:wba:ann" "did:wba:bob" mail
      (inbox_mark_read (λ peer. outside) "did:wba:ann" 20 ("m2" ∷ []) mail).0
inbox_mark_read-IsKept_example =
    inbox_mark_read-IsKept (λ peer. outside) "did:wba:ann" "did:wba:bob" 20 ("m2" ∷ []) mail prefix

abbrev result : Mail × Marked
unfolding mark_read
result = elim (mark_read outside "did:wba:ann" (direct "did:wba:bob") (some 2) none mail) [
  | ok r ↦ r
  | err e ↦ (
    mail,
    record {
      saved_seq = 0;
      updated_count = 0;
      unread_count = 0;
      advanced = false;
      stored_message_id = none;
      read_at = 0;
      not_advanced_warning = false;
    },
  )
]

marks : mark_read outside "did:wba:ann" (direct "did:wba:bob") (some 2) none mail ≡ ok result
unfolding mark_read
marks = refl

mark_read-IsMarked_example : IsMarked "did:wba:ann" "did:wba:bob" mail result.0 result.1
mark_read-IsMarked_example =
    mark_read-IsMarked outside "did:wba:ann" "did:wba:bob" (some 2) none mail result.0 result.1
      marks
