-- ===== src/ReadState/Marking.antt =====
-- messaging/core.py: the operations that move the read watermark of a thread, each a transaction.
use awiki_open_server.Shared.{
  ℕ, ◌+◌, max, String, Bool, true, not, ◌&&◌, ◌||◌, Option, none, some, List, [], ◌∷◌, map,
  if◌then◌else◌, ltb, leb, nat_eq, ◌==◌, Result, ok, err, invalid_params, raise_if, ◌>>=◌, ◌>>◌,
}
use awiki_open_server.Shared.Lists.{any}
use awiki_open_server.Shared.Table.{select_where, count_where, update_where}
use awiki_open_server.Shared.Json.{contains}
use awiki_open_server.ReadState.{
  Mail, MessageView, ReadRow, Thread, direct, group, thread_id_of, Joined, is_none, is_view, joined,
  min_of, latest, group_source, group_rows, thread_message_seq, highest_seq, state_at, seq_of,
  upsert_state, Outside, tell_read_state,
}

-- message_id IN (SELECT message_id FROM direct_messages WHERE server_seq <= ?)
abbrev pub is_up_to : Mail → ℕ → String → Bool
is_up_to mail seq message_id =
    any (λ m. m.message_id == message_id && leb m.server_seq seq) mail.direct_messages

-- The unread views of the thread up to the sequence number.
abbrev pub to_mark : Mail → String → String → ℕ → MessageView → Bool
to_mark mail owner peer seq v =
    is_view owner peer v && is_none v.read_at && is_up_to mail seq v.message_id

abbrev pub set_read : ℕ → MessageView → MessageView
set_read at v = record v { read_at = some at }

-- The tables after _apply_read_watermark, and its counts of updated and of unread messages.
unfoldable pub apply_read_watermark : String → Thread → ℕ → ℕ → ℕ → Mail → Result (Mail × ℕ × ℕ)
unfolding joined group_source
apply_read_watermark owner (direct peer) saved_seq previous_seq at mail = do
  raise_if (peer == "") (invalid_params "thread_required")
  let test = to_mark mail owner peer saved_seq
  let after = record mail {
    direct_message_views = update_where test (set_read at) mail.direct_message_views;
  }
  ok (
    after,
    count_where test mail.direct_message_views,
    count_where (λ j. is_none j.read_at) (joined after owner peer),
  )
apply_read_watermark owner (group did) saved_seq previous_seq at mail = do
  raise_if (did == "") (invalid_params "thread_required")
  table ← group_source mail owner did
  let rows = group_rows mail owner did table
  ok (
    mail,
    count_where (λ m. ltb previous_seq m.seq && leb m.seq saved_seq) rows,
    count_where (λ m. ltb saved_seq m.seq) rows,
  )

-- What mark_read answers, beside what the request named.
pub record Marked : Type 0 where
  pub saved_seq : ℕ
  pub updated_count : ℕ
  pub unread_count : ℕ
  pub advanced : Bool
  pub stored_message_id : Option String
  pub read_at : ℕ
  pub not_advanced_warning : Bool

-- The number that a request names by a message, by itself or by both.
unfoldable pub requested_seq : Mail → String → Thread → Option ℕ → Option String → Result ℕ
unfolding thread_message_seq
requested_seq mail owner thread none none = err (invalid_params "read_state.watermark_required")
requested_seq mail owner thread (some seq) none = ok seq
requested_seq mail owner thread none (some message_id) =
    thread_message_seq mail owner thread message_id
requested_seq mail owner thread (some seq) (some message_id) = do
  message_seq ← thread_message_seq mail owner thread message_id
  raise_if (not (nat_eq seq message_seq)) (invalid_params "read_state.watermark_mismatch")
  ok message_seq

abbrev pub is_some_text : Option String → Bool
is_some_text message_id = not (is_none message_id)

-- The row of the thread that mark_read writes, for the number `seq`.
unfoldable pub next_state : Outside → String → Thread → ℕ → Option String → Option ReadRow → ReadRow
next_state outside owner thread seq message_id previous =
    let saved_seq = max (seq_of previous) seq in
    let advanced = ltb (seq_of previous) saved_seq in
    record {
      owner_did = owner;
      thread_id = thread_id_of thread;
      read_up_to_seq = saved_seq;
      updated_at = elim previous [
        | none ↦ outside.now
        | some p ↦ if advanced then outside.now else p.updated_at
      ];
      state_version = elim previous [
        | none ↦ 1
        | some p ↦ p.state_version + (if advanced then 1 else 0)
      ];
      read_message_id =
          if nat_eq seq saved_seq && is_some_text message_id then message_id else elim previous [
            | none ↦ none
            | some p ↦ if nat_eq saved_seq p.read_up_to_seq then p.read_message_id else none
          ];
    }

-- mark_read behind the checks on the number: the row, the views, the event and the answer.
unfoldable pub write_watermark :
    Outside → String → Thread → ℕ → Option String → Mail → Result (Mail × Marked)
unfolding next_state upsert_state apply_read_watermark tell_read_state
write_watermark outside owner thread seq message_id mail =
    let previous = state_at mail owner (thread_id_of thread) in
    let row = next_state outside owner thread seq message_id previous in
    let advanced = ltb (seq_of previous) row.read_up_to_seq in
    let written = record mail { thread_read_states = upsert_state row mail.thread_read_states } in
    apply_read_watermark owner thread row.read_up_to_seq (seq_of previous) row.updated_at written
    >>= λ applied. ok (
      if advanced || is_none previous
          then tell_read_state outside owner thread applied.0
          else applied.0,
      record {
        saved_seq = row.read_up_to_seq;
        updated_count = applied.1;
        unread_count = applied.2;
        advanced = advanced;
        stored_message_id = row.read_message_id;
        read_at = row.updated_at;
        not_advanced_warning = not (advanced || nat_eq seq (seq_of previous));
      },
    )

-- mark_read, for the thread, number and message that its parameters name.
unfoldable pub mark_read :
    Outside → String → Thread → Option ℕ → Option String → Mail → Result (Mail × Marked)
unfolding requested_seq highest_seq write_watermark
mark_read outside owner thread seq message_id mail = do
  number ← requested_seq mail owner thread seq message_id
  highest ← highest_seq mail owner thread
  raise_if (ltb highest number) (invalid_params "read_state.watermark_mismatch")
  write_watermark outside owner thread number message_id mail

-- m.server_seq > previous AND v.read_at IS NULL
unfoldable pub first_unread : Mail → String → String → ℕ → Option ℕ
unfolding joined
first_unread mail owner peer previous = min_of (
    map (λ j. j.server_seq)
      (select_where (λ j. ltb previous j.server_seq && is_none j.read_at) (joined mail owner peer)))

abbrev pub is_before : Option ℕ → ℕ → Bool
is_before none seq = true
is_before (some unread) seq = ltb seq unread

-- The last message before the first unread one.
unfoldable pub read_candidate : Mail → String → String → ℕ → Option Joined
unfolding joined first_unread
read_candidate mail owner peer previous = latest (
    select_where
      (λ j.
        ltb previous j.server_seq
        && not (is_none j.read_at)
        && is_before (first_unread mail owner peer previous) j.server_seq)
      (joined mail owner peer))

abbrev pub next_version : Option ReadRow → ℕ
next_version none = 1
next_version (some p) = p.state_version + 1

abbrev pub moved_row : String → String → ℕ → Option ReadRow → Joined → ReadRow
moved_row owner peer at previous j = record {
  owner_did = owner;
  thread_id = thread_id_of (direct peer);
  read_up_to_seq = j.server_seq;
  updated_at = at;
  state_version = next_version previous;
  read_message_id = some j.message_id;
}

-- The watermark at the candidate, if there is one, and the event that tells of it.
unfoldable pub move_to : Outside → String → String → ℕ → Mail → Option Joined → Mail
unfolding upsert_state tell_read_state
move_to outside owner peer at mail none = mail
move_to outside owner peer at mail (some j) =
    let row = moved_row owner peer at (state_at mail owner (thread_id_of (direct peer))) j in
    tell_read_state outside owner (direct peer)
      (record mail { thread_read_states = upsert_state row mail.thread_read_states })

unfoldable pub advance_direct_read_prefix : Outside → String → String → ℕ → Mail → Mail
unfolding read_candidate move_to
advance_direct_read_prefix outside owner peer at mail =
    move_to outside owner peer at mail
      (read_candidate mail owner peer (seq_of (state_at mail owner (thread_id_of (direct peer)))))

-- The peers of the given views, each once. Python iterates over a set of them, in any order.
abbrev pub distinct_peers : List MessageView → List String → List String
distinct_peers [] seen = seen
distinct_peers (v ∷ rest) seen =
    distinct_peers rest (if contains seen v.peer_did then seen else v.peer_did ∷ seen)

unfoldable pub advance_each : (String → Outside) → String → ℕ → List String → Mail → Mail
unfolding advance_direct_read_prefix
advance_each outside owner at [] mail = mail
advance_each outside owner at (peer ∷ peers) mail =
    advance_each outside owner at peers
      (advance_direct_read_prefix (outside peer) owner peer at mail)

-- owner_did = ? AND message_id IN (…)
abbrev pub is_named : String → List String → MessageView → Bool
is_named owner message_ids v = v.owner_did == owner && contains message_ids v.message_id

-- inbox_mark_read, for the message_ids that its parameters name: the tables and the updated_count.
unfoldable pub inbox_mark_read : (String → Outside) → String → ℕ → List String → Mail → Mail × ℕ
unfolding advance_each
inbox_mark_read outside owner at message_ids mail =
    let test = is_named owner message_ids in
    let unread = λ (v : MessageView). test v && is_none v.read_at in
    let marked = record mail {
      direct_message_views = update_where unread (set_read at) mail.direct_message_views;
    } in
    (
      advance_each outside owner at
          (distinct_peers (select_where test mail.direct_message_views) []) marked,
      count_where unread mail.direct_message_views,
    )
