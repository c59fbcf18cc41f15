-- ===== src/ReadState.antt =====
-- messaging/core.py: the read watermark of a thread, mark_read and inbox_mark_read behind the parsing
-- of their parameters, with the parts of messaging/sync_contract.py and shared/runtime.py that they
-- call. The hash in conversation_ref, the identifiers of new_id and the clock are parameters.
pub mod Marking
pub mod Prefix
pub mod Inbox
mod Tests
use Prim.Native.String
use awiki_open_server.Shared.{
  ℕ, zero, suc, ◌+◌, min, max, String, Bool, true, false, not, ◌&&◌, ◌||◌, Option, none, some, List,
  [], ◌∷◌, ◌++◌, map, if◌then◌else◌, ltb, leb, nat_eq, ◌==◌, Result, ok, err, AwikiError,
  invalid_params, unauthorized, raise_if, ◌>>=◌, ◌>>◌,
}
use awiki_open_server.Shared.Lists.{length, any}
use awiki_open_server.Shared.Decimal.{show}
use awiki_open_server.Shared.Table.{select_where, first_where, count_where, update_where}
use awiki_open_server.Shared.Json.{Value, null, str, num, dict, contains}
use awiki_open_server.Storage.{HostedGroup, HostedMember, is_active}

pub record DirectMessage : Type 0 where
  pub message_id : String
  pub sender_did : String
  pub recipient_did : String
  pub operation_id : Option String
  pub body : Value
  pub content_type : String
  pub created_at : ℕ
  pub server_seq : ℕ

pub record MessageView : Type 0 where
  pub owner_did : String
  pub message_id : String
  pub peer_did : String
  pub read_at : Option ℕ

pub record ReadRow : Type 0 where
  pub owner_did : String
  pub thread_id : String
  pub read_up_to_seq : ℕ
  pub updated_at : ℕ
  pub state_version : ℕ
  pub read_message_id : Option String

pub record SyncEvent : Type 0 where
  pub event_id : String
  pub owner_did : String
  pub event_seq : ℕ
  pub event_type : String
  pub payload : Value
  pub created_at : ℕ

pub record ConversationRef : Type 0 where
  pub owner_did : String
  pub peer_did : String
  pub conversation_ref : String

-- A row of hosted_group_messages, group_message_views or group_messages, as far as it is read here;
-- the owner is that of a view.
pub record GroupMessage : Type 0 where
  pub owner_did : String
  pub group_did : String
  pub message_id : String
  pub seq : ℕ

pub record GroupView : Type 0 where
  pub owner_did : String
  pub group_did : String
  pub is_member : Bool

pub record LocalMember : Type 0 where
  pub group_did : String
  pub member_did : String

-- The tables of messages and of what was read.
pub record Mail : Type 0 where
  pub direct_messages : List DirectMessage
  pub direct_message_views : List MessageView
  pub thread_read_states : List ReadRow
  pub sync_events : List SyncEvent
  pub direct_conversation_refs : List ConversationRef
  pub hosted_groups : List HostedGroup
  pub hosted_group_members : List HostedMember
  pub group_views : List GroupView
  pub group_members : List LocalMember
  pub hosted_group_messages : List GroupMessage
  pub group_message_views : List GroupMessage
  pub group_messages : List GroupMessage

pub data Thread : Type 0 where
  direct : String → Thread
  group : String → Thread

abbrev pub thread_id_of : Thread → String
thread_id_of (direct peer) = String.◌++◌ "direct:" peer
thread_id_of (group did) = String.◌++◌ "group:" did

-- A view of a direct message beside its message.
pub record Joined : Type 0 where
  pub message_id : String
  pub server_seq : ℕ
  pub read_at : Option ℕ

abbrev pub is_none {ℓ} : {A : Type ℓ} → Option A → Bool
is_none none = true
is_none (some a) = false

abbrev pub message_at : List DirectMessage → String → Option DirectMessage
message_at messages message_id = first_where (λ m. m.message_id == message_id) messages

abbrev pub is_view : String → String → MessageView → Bool
is_view owner peer v = v.owner_did == owner && v.peer_did == peer

abbrev pub join_view : MessageView → Option DirectMessage → List Joined → List Joined
join_view v none rest = rest
join_view v (some m) rest =
    record { message_id = m.message_id; server_seq = m.server_seq; read_at = v.read_at } ∷ rest

-- direct_messages m JOIN direct_message_views v ON v.message_id = m.message_id
abbrev pub join_views : List DirectMessage → List MessageView → List Joined
join_views messages [] = []
join_views messages (v ∷ rest) =
    join_view v (message_at messages v.message_id) (join_views messages rest)

-- … WHERE v.owner_did = ? AND v.peer_did = ?
unfoldable pub joined : Mail → String → String → List Joined
joined mail owner peer =
    join_views mail.direct_messages (select_where (is_view owner peer) mail.direct_message_views)

-- SELECT MIN(seq), over rows that may be none
abbrev pub min_of : List ℕ → Option ℕ
min_of [] = none
min_of (n ∷ ns) = some (elim (min_of ns) [ none ↦ n | some m ↦ min n m ])

-- SELECT COALESCE(MAX(seq), 0)
abbrev pub max_of : List ℕ → ℕ
max_of [] = 0
max_of (n ∷ ns) = max n (max_of ns)

-- … ORDER BY m.server_seq DESC LIMIT 1
abbrev pub latest : List Joined → Option Joined
latest [] = none
latest (j ∷ js) = elim (latest js) [
  | none ↦ some j
  | some k ↦ some (if ltb j.server_seq k.server_seq then k else j)
]

pub data GroupTable : Type 0 where
  hosted viewed local : GroupTable

unfoldable pub group_source : Mail → String → String → Result GroupTable
group_source mail owner group_did =
    if any (λ g. g.group_did == group_did) mail.hosted_groups
    then (raise_if
          (not (
            any (λ m. m.group_did == group_did && m.agent_did == owner && is_active m.status)
              mail.hosted_group_members))
          (unauthorized "group.not_member")
        >> ok hosted)
    else if any (λ v. v.owner_did == owner && v.group_did == group_did) mail.group_views
    then (raise_if
          (not (
            any (λ v. v.owner_did == owner && v.group_did == group_did && v.is_member)
              mail.group_views))
          (unauthorized "group.not_member")
        >> ok viewed)
    else (raise_if
          (not (any (λ m. m.group_did == group_did && m.member_did == owner) mail.group_members))
          (unauthorized "group.not_member")
        >> ok local)

-- The rows of the table for the group, and for the owner in a table of views.
abbrev pub group_rows : Mail → String → String → GroupTable → List GroupMessage
group_rows mail owner group_did hosted =
    select_where (λ m. m.group_did == group_did) mail.hosted_group_messages
group_rows mail owner group_did viewed =
    select_where (λ m. m.group_did == group_did && m.owner_did == owner) mail.group_message_views
group_rows mail owner group_did local =
    select_where (λ m. m.group_did == group_did) mail.group_messages

abbrev mismatch : AwikiError
mismatch = invalid_params "read_state.watermark_mismatch"

unfoldable pub thread_message_seq : Mail → String → Thread → String → Result ℕ
unfolding joined group_source
thread_message_seq mail owner (direct peer) message_id = do
  raise_if (peer == "") (invalid_params "thread_required")
  elim (first_where (λ j. j.message_id == message_id) (joined mail owner peer)) [
    | none ↦ err mismatch
    | some j ↦ ok j.server_seq
  ]
thread_message_seq mail owner (group did) message_id = do
  raise_if (did == "") (invalid_params "thread_required")
  table ← group_source mail owner did
  elim (first_where (λ m. m.message_id == message_id) (group_rows mail owner did table)) [
    | none ↦ err mismatch
    | some m ↦ ok m.seq
  ]

-- The newest message of the thread.
unfoldable pub highest_seq : Mail → String → Thread → Result ℕ
unfolding joined group_source
highest_seq mail owner (direct peer) =
    ok (max_of (map (λ j. j.server_seq) (joined mail owner peer)))
highest_seq mail owner (group did) = do
  table ← group_source mail owner did
  ok (max_of (map (λ m. m.seq) (group_rows mail owner did table)))

abbrev pub is_state : String → String → ReadRow → Bool
is_state owner thread_id s = s.owner_did == owner && s.thread_id == thread_id

abbrev pub state_at : Mail → String → String → Option ReadRow
state_at mail owner thread_id = first_where (is_state owner thread_id) mail.thread_read_states

abbrev pub seq_of : Option ReadRow → ℕ
seq_of none = 0
seq_of (some s) = s.read_up_to_seq

-- INSERT … ON CONFLICT(owner_did, thread_id) DO UPDATE
unfoldable pub upsert_state : ReadRow → List ReadRow → List ReadRow
upsert_state row states =
    if any (is_state row.owner_did row.thread_id) states
    then update_where (is_state row.owner_did row.thread_id)
        (λ s. record s {
          read_up_to_seq = row.read_up_to_seq;
          updated_at = row.updated_at;
          state_version = row.state_version;
          read_message_id = row.read_message_id;
        })
        states
    else states ++ row ∷ []

-- What the statements draw from outside: the hash, the identifier of an event, the clock.
pub record Outside : Type 0 where
  pub reference : String → String → String
  pub event_id : String
  pub now : ℕ
  pub show_time : ℕ → String

-- INSERT OR IGNORE of the row, where `found` is the row of its key.
abbrev pub use_reference : ConversationRef → Mail → Option ConversationRef → String × Mail
use_reference row mail (some r) = (r.conversation_ref, mail)
use_reference row mail none = (
  row.conversation_ref,
  record mail { direct_conversation_refs = mail.direct_conversation_refs ++ row ∷ [] },
)

-- sync_contract.conversation_ref
unfoldable pub conversation_ref : Outside → String → String → Mail → String × Mail
conversation_ref outside owner peer mail =
    use_reference
      (record {
        owner_did = owner;
        peer_did = peer;
        conversation_ref = outside.reference owner peer;
      })
      mail
      (first_where (λ r. r.owner_did == owner && r.peer_did == peer) mail.direct_conversation_refs)

abbrev pub optional_text : Option String → Value
optional_text none = null
optional_text (some text) = str text

abbrev pub thread_key : Outside → String → Thread → Mail → String × Mail
thread_key outside owner (direct peer) mail = conversation_ref outside owner peer mail
thread_key outside owner (group did) mail = (did, mail)

abbrev pub thread_kind : Thread → String
thread_kind (direct peer) = "direct"
thread_kind (group did) = "group"

-- sync_contract.read_state_dto
unfoldable pub read_state_dto : Outside → String → Thread → ReadRow → Mail → Value × Mail
unfolding conversation_ref
read_state_dto outside owner thread s mail =
    let keyed = thread_key outside owner thread mail in
    (
      dict (
          ("thread_key", str keyed.0)
          ∷ ("thread_kind", str (thread_kind thread))
          ∷ ("read_up_to_thread_seq", str (show s.read_up_to_seq))
          ∷ ("read_up_to_message_id", optional_text s.read_message_id)
          ∷ ("state_version", str (show s.state_version))
          ∷ ("updated_at", str (outside.show_time s.updated_at))
          ∷ ("updated_by_device_id", null)
          ∷ []),
      keyed.1,
    )

-- runtime.add_sync_event, for an event that is not of a group
unfoldable pub add_sync_event : Outside → String → String → Value → Mail → Mail
add_sync_event outside owner event_type payload mail =
    let seq =
      max_of (map (λ e. e.event_seq) (select_where (λ e. e.owner_did == owner) mail.sync_events))
      + 1 in
    record mail {
      sync_events =
          mail.sync_events
          ++ record {
            event_id = outside.event_id;
            owner_did = owner;
            event_seq = seq;
            event_type = event_type;
            payload = payload;
            created_at = outside.now;
          }
            ∷ [];
    }

abbrev pub tell_of : Outside → String → Thread → Mail → Option ReadRow → Mail
tell_of outside owner thread mail none = mail
tell_of outside owner thread mail (some s) =
    let told = read_state_dto outside owner thread s mail in
    add_sync_event outside owner "message.read_state_updated" told.0 told.1

-- SELECT the state of the thread, and the event that tells of it.
unfoldable pub tell_read_state : Outside → String → Thread → Mail → Mail
unfolding read_state_dto add_sync_event
tell_read_state outside owner thread mail =
    tell_of outside owner thread mail (state_at mail owner (thread_id_of thread))
