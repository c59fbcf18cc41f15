-- ===== src/ReadState/Prefix.antt =====
-- The watermark of a direct thread: it only moves forward, and no unread message is below it.
use mathlib.Core.List.Memᴰ
use mathlib.Core.List.{Memᴰ}
use awiki_open_server.Shared.{
  ℕ, ◌≤◌, max, String, ◌≡◌, refl, sym, ap, subst, ◌∙◌, Bool, true, false, ◌&&◌, Option, none, some,
  List, [], ◌∷◌, map, if◌then◌else◌, ltb, leb, Bool-cases, Option-cases, inl, inr, arith, ◌==◌,
  eq_iff, eq_refl, Result, ok, invalid_params, >>=-eq-ok, raise_if-eq-ok,
}
use awiki_open_server.Shared.Lists.{any}
use awiki_open_server.Shared.Table.{first_where, update_where, mem_of_mem-select_where}
use awiki_open_server.Shared.Keys.{
  first-update_same, first-update_other, first-append_same, first-append_other,
}
use text.Mathlib.TextLemmas.{append_cancel_left}
use awiki_open_server.ReadState.{
  Mail, DirectMessage, MessageView, ReadRow, Thread, direct, group, thread_id_of, Joined, is_none,
  message_at, is_view, join_views, joined, state_at, is_state, seq_of, upsert_state, Outside,
  tell_read_state, add_sync_event, read_state_dto, conversation_ref, highest_seq, max_of,
  use_reference, tell_of, ConversationRef,
}
use awiki_open_server.ReadState.Marking.{
  is_up_to, to_mark, set_read, apply_read_watermark, Marked, next_state, write_watermark, mark_read,
  requested_seq,
}

-- The watermark of the thread with a peer.
abbrev pub watermark : Mail → String → String → ℕ
watermark mail owner peer = seq_of (state_at mail owner (thread_id_of (direct peer)))

-- Every message of the thread up to the watermark is read.
abbrev pub IsPrefixRead : String → String → Mail → Type 0
IsPrefixRead owner peer mail =
    (j : Joined)
    → Memᴰ j (joined mail owner peer)
    → j.server_seq ≤ watermark mail owner peer
    → is_none j.read_at ≡ false

-- Two states of the tables that agree on messages, views and watermarks.
pub record IsSameReading (a b : Mail) : Type 0 where
  pub messages : a.direct_messages ≡ b.direct_messages
  pub views : a.direct_message_views ≡ b.direct_message_views
  pub states : a.thread_read_states ≡ b.thread_read_states

used-IsSameReading :
    (row : ConversationRef) (mail : Mail) (found : Option ConversationRef)
    → IsSameReading (use_reference row mail found).1 mail
used-IsSameReading row mail none = record { messages = refl; views = refl; states = refl }
used-IsSameReading row mail (some r) = record { messages = refl; views = refl; states = refl }

told-IsSameReading :
    (outside : Outside) (owner : String) (thread : Thread) (s : ReadRow) (mail : Mail)
    → IsSameReading (read_state_dto outside owner thread s mail).1 mail
unfolding read_state_dto conversation_ref
told-IsSameReading outside owner (group did) s mail = record {
  messages = refl;
  views = refl;
  states = refl;
}
told-IsSameReading outside owner (direct peer) s mail = used-IsSameReading _ mail _

tell_of-IsSameReading :
    (outside : Outside) (owner : String) (thread : Thread) (mail : Mail) (found : Option ReadRow)
    → IsSameReading (tell_of outside owner thread mail found) mail
unfolding add_sync_event
tell_of-IsSameReading outside owner thread mail none = record {
  messages = refl;
  views = refl;
  states = refl;
}
tell_of-IsSameReading outside owner thread mail (some s) =
    let told = told-IsSameReading outside owner thread s mail in
    record { messages = told.messages; views = told.views; states = told.states }

pub tell-IsSameReading :
    (outside : Outside) (owner : String) (thread : Thread) (mail : Mail)
    → IsSameReading (tell_read_state outside owner thread mail) mail
unfolding tell_read_state
tell-IsSameReading outside owner thread mail = tell_of-IsSameReading outside owner thread mail _

is_state_self : (row : ReadRow) → is_state row.owner_did row.thread_id row ≡ true
is_state_self row = ground (arith, eq_refl row.owner_did, eq_refl row.thread_id)

-- The watermark of the key of an upsert is that of the row.
pub seq-upsert_same :
    (row : ReadRow) (states : List ReadRow)
    → seq_of (first_where (is_state row.owner_did row.thread_id) (upsert_state row states))
      ≡ row.read_up_to_seq
unfolding upsert_state
seq-upsert_same row states = elim (Bool-cases (any (is_state row.owner_did row.thread_id) states)) [
  | inl e ↦ rw e (
      let (r, found, changed) =
        first-update_same (is_state row.owner_did row.thread_id) _ states (λ r h. h) e in
      ap seq_of changed)
  | inr e ↦ rw e (
      ap seq_of
        (first-append_same (is_state row.owner_did row.thread_id) row states (is_state_self row) e))
]

-- Another thread of the owner keeps its row.
pub first-upsert_other :
    (owner thread_id : String) (row : ReadRow) (states : List ReadRow)
    → (row.thread_id == thread_id) ≡ false
    → first_where (is_state owner thread_id) (upsert_state row states)
      ≡ first_where (is_state owner thread_id) states
unfolding upsert_state
first-upsert_other owner thread_id row states h =
    let other = is_state owner thread_id in
    elim (Bool-cases (any (is_state row.owner_did row.thread_id) states)) [
      | inl e ↦ rw e (
          first-update_other other (is_state row.owner_did row.thread_id) _ states
            (λ r k. ground (arith, eq_iff r.thread_id row.thread_id)) (λ r. refl))
      | inr e ↦ rw e (first-append_other other row states (ground arith))
    ]

pub thread_id-injective : (p q : String) → thread_id_of (direct p) ≡ thread_id_of (direct q) → p ≡ q
thread_id-injective p q h = append_cancel_left "direct:" p q h

-- A joined row is a view of the thread and its message.
pub record IsJoined (mail : Mail) (owner peer : String) (j : Joined) (v : MessageView)
    : Type 0 where
  pub in_table : Memᴰ v mail.direct_message_views
  pub of_thread : is_view owner peer v ≡ true
  pub read : j.read_at ≡ v.read_at
  pub message : DirectMessage
  pub found : message_at mail.direct_messages v.message_id ≡ some message
  pub seq : j.server_seq ≡ message.server_seq

join_views_inv :
    (messages : List DirectMessage) (vs : List MessageView) (j : Joined)
    → Memᴰ j (join_views messages vs)
    → (v : MessageView) × Memᴰ v vs
      × (m : DirectMessage) × (message_at messages v.message_id ≡ some m)
      × (j.read_at ≡ v.read_at)
      × (j.server_seq ≡ m.server_seq)
join_views_inv messages [] j i = absurd (Memᴰ.not-nil i)
join_views_inv messages (v ∷ vs) j i = elim (Option-cases (message_at messages v.message_id)) [
  | inl e ↦
      let (w, k, m2, found, read, seq) = join_views_inv messages vs j (rw e at i) in
      (w, Memᴰ.tail k, m2, found, read, seq)
  | inr (m, e) ↦ elim (Memᴰ.cases_cons (rw e at i)) [
    | inl same ↦ (
      v,
      Memᴰ.head refl,
      m,
      e,
      ap (λ (x : Joined). x.read_at) same,
      ap (λ (x : Joined). x.server_seq) same,
    )
    | inr later ↦
        let (w, k, m2, found, read, seq) = join_views_inv messages vs j later in
        (w, Memᴰ.tail k, m2, found, read, seq)
  ]
]

pub joined_inv :
    (mail : Mail) (owner peer : String) (j : Joined)
    → Memᴰ j (joined mail owner peer)
    → (v : MessageView) × IsJoined mail owner peer j v
unfolding joined
joined_inv mail owner peer j i =
    let (v, k, m, found, read, seq) = join_views_inv mail.direct_messages _ j i in
    let (in_table, of_thread) =
      mem_of_mem-select_where (is_view owner peer) mail.direct_message_views v k in
    (
      v,
      record {
        in_table = in_table;
        of_thread = of_thread;
        read = read;
        message = m;
        found = found;
        seq = seq;
      },
    )

some-injective : {a b : DirectMessage} → ◌≡◌ {A = Option DirectMessage} (some a) (some b) → a ≡ b
some-injective h = cc

is_up_to_of_found :
    (mail : Mail) (seq : ℕ) (message_id : String) (m : DirectMessage)
    → message_at mail.direct_messages message_id ≡ some m
    → m.server_seq ≤ seq
    → is_up_to mail seq message_id ≡ true
is_up_to_of_found mail seq message_id m found le = go mail.direct_messages found
  where
    go :
        (ms : List DirectMessage)
        → first_where (λ x. x.message_id == message_id) ms ≡ some m
        → any (λ x. x.message_id == message_id && leb x.server_seq seq) ms ≡ true
    go [] h = cc
    go (x ∷ ms) h = elim (Bool-cases (x.message_id == message_id)) [
      | inl e ↦
          let same : x ≡ m = some-injective (rw e at h) in
          ground (arith, ap (λ (d : DirectMessage). d.server_seq) same)
      | inr e ↦ ground (arith, go ms (rw e at h))
    ]

-- A view after an update is the image of a view before it.
pub mem-update_inv :
    (test : MessageView → Bool) (change : MessageView → MessageView) (vs : List MessageView)
    (v : MessageView)
    → Memᴰ v (update_where test change vs)
    → (w : MessageView) × Memᴰ w vs × (v ≡ (if test w then change w else w))
mem-update_inv test change [] v i = absurd (Memᴰ.not-nil i)
mem-update_inv test change (w ∷ vs) v i = elim (Memᴰ.cases_cons i) [
  | inl e ↦ (w, Memᴰ.head refl, e)
  | inr k ↦ let (x, later, same) = mem-update_inv test change vs v k in (x, Memᴰ.tail later, same)
]

-- After the update of the views, none up to the number is unread.
marked_views :
    (mail : Mail) (owner peer : String) (seq at : ℕ) (v : MessageView) (m : DirectMessage)
    → Memᴰ v (update_where (to_mark mail owner peer seq) (set_read at) mail.direct_message_views)
    → is_view owner peer v ≡ true
    → message_at mail.direct_messages v.message_id ≡ some m
    → m.server_seq ≤ seq
    → is_none v.read_at ≡ false
marked_views mail owner peer seq at v m i t found le =
    let (w, k, same) =
      mem-update_inv (to_mark mail owner peer seq) (set_read at) mail.direct_message_views v i in
    elim (Bool-cases (to_mark mail owner peer seq w)) [
      | inl e ↦
          let v_is : v ≡ set_read at w = same ∙ rw e refl in
          ap (λ (x : MessageView). is_none x.read_at) v_is
      | inr e ↦
          let v_is : v ≡ w = same ∙ rw e refl in
          let unmarked =
            subst (λ (x : MessageView). to_mark mail owner peer seq x ≡ false) (sym v_is) e in
          let up_to = is_up_to_of_found mail seq v.message_id m found le in
          ground (arith, unmarked, up_to)
    ]

pub same-IsPrefixRead :
    (owner peer : String) (a b : Mail)
    → IsSameReading a b
    → IsPrefixRead owner peer b
    → IsPrefixRead owner peer a
unfolding joined
same-IsPrefixRead owner peer a b same h j i le =
    h j (rw (sym same.messages, sym same.views) i) (rw (sym same.states) le)

pub same_watermark :
    (owner peer : String) (a b : Mail)
    → IsSameReading a b
    → watermark a owner peer ≡ watermark b owner peer
same_watermark owner peer a b same =
    ap (λ t. seq_of (first_where (is_state owner (thread_id_of (direct peer))) t)) same.states

-- Where a mark_read of a direct thread succeeds, its watermark is at least what it was and at least
-- the number asked for, it is the one that the answer names, and every message of the thread up to
-- it is read.
pub record IsMarked (owner peer : String) (mail after : Mail) (answer : Marked) : Type 0 where
  pub forward : watermark mail owner peer ≤ watermark after owner peer
  pub answered : watermark after owner peer ≡ answer.saved_seq
  pub prefix : IsPrefixRead owner peer after

module _ (owner peer : String) (mail : Mail) (row : ReadRow) where
  -- The tables that write_watermark leaves, but for the event.
  abbrev written : Mail
  written = record mail {
    direct_message_views =
        update_where (to_mark mail owner peer row.read_up_to_seq) (set_read row.updated_at)
          mail.direct_message_views;
    thread_read_states = upsert_state row mail.thread_read_states;
  }

  written-watermark :
      row.owner_did ≡ owner
      → row.thread_id ≡ thread_id_of (direct peer)
      → watermark written owner peer ≡ row.read_up_to_seq
  written-watermark o t =
      subst
        (λ (x : String).
          seq_of (
            first_where (is_state x (thread_id_of (direct peer)))
              (upsert_state row mail.thread_read_states))
          ≡ row.read_up_to_seq)
        o
        (subst
          (λ (x : String).
            seq_of
              (first_where (is_state row.owner_did x) (upsert_state row mail.thread_read_states))
            ≡ row.read_up_to_seq)
          t (seq-upsert_same row mail.thread_read_states))

  written-IsPrefixRead :
      row.owner_did ≡ owner
      → row.thread_id ≡ thread_id_of (direct peer)
      → IsPrefixRead owner peer written
  written-IsPrefixRead o t j i le =
      let (v, k) = joined_inv written owner peer j i in
      let read =
        marked_views mail owner peer row.read_up_to_seq row.updated_at v k.message k.in_table
          k.of_thread k.found (omega (arith, k.seq, written-watermark o t)) in
      ap is_none k.read ∙ read

told_if-IsSameReading :
    (outside : Outside) (owner : String) (thread : Thread) (tell : Bool) (mail : Mail)
    → IsSameReading (if tell then tell_read_state outside owner thread mail else mail) mail
told_if-IsSameReading outside owner thread true mail = tell-IsSameReading outside owner thread mail
told_if-IsSameReading outside owner thread false mail = record {
  messages = refl;
  views = refl;
  states = refl;
}

write_watermark_inv :
    (outside : Outside) (owner peer : String) (seq : ℕ) (message_id : Option String)
    (mail after : Mail) (answer : Marked)
    → write_watermark outside owner (direct peer) seq message_id mail ≡ ok (after, answer)
    → let previous = state_at mail owner (thread_id_of (direct peer)) in
      let row = next_state outside owner (direct peer) seq message_id previous in
      IsSameReading after (written owner peer mail row) × (answer.saved_seq ≡ row.read_up_to_seq)
unfolding write_watermark apply_read_watermark
write_watermark_inv outside owner peer seq message_id mail after answer h =
    elim (Bool-cases (peer == "")) [
      | inl e ↦ cc (rw e at h)
      | inr e ↦
          let same = ok-injective (rw e at h) in
          let previous = state_at mail owner (thread_id_of (direct peer)) in
          let row = next_state outside owner (direct peer) seq message_id previous in
          (
            subst (λ (x : Mail × Marked). IsSameReading x.0 (written owner peer mail row)) same
                (told_if-IsSameReading outside owner (direct peer) _ (written owner peer mail row)),
            ap (λ (x : Mail × Marked). x.1.saved_seq) (sym same),
          )
    ]
  where
    ok-injective : {a b : Mail × Marked} → ◌≡◌ {A = Result (Mail × Marked)} (ok a) (ok b) → a ≡ b
    ok-injective h = cc

next_state-saved :
    (outside : Outside) (owner : String) (thread : Thread) (seq : ℕ) (message_id : Option String)
    (previous : Option ReadRow)
    → let row = next_state outside owner thread seq message_id previous in
      (row.read_up_to_seq ≡ max (seq_of previous) seq)
      × (row.owner_did ≡ owner)
      × (row.thread_id ≡ thread_id_of thread)
unfolding next_state
next_state-saved outside owner thread seq message_id previous = (refl, refl, refl)

write_watermark-IsMarked :
    (outside : Outside) (owner peer : String) (seq : ℕ) (message_id : Option String)
    (mail after : Mail) (answer : Marked)
    → write_watermark outside owner (direct peer) seq message_id mail ≡ ok (after, answer)
    → IsMarked owner peer mail after answer
write_watermark-IsMarked outside owner peer seq message_id mail after answer h =
    let previous = state_at mail owner (thread_id_of (direct peer)) in
    let row = next_state outside owner (direct peer) seq message_id previous in
    let (saved, o, t) = next_state-saved outside owner (direct peer) seq message_id previous in
    let (same, answered) =
      write_watermark_inv outside owner peer seq message_id mail after answer h in
    let level =
      same_watermark owner peer after (written owner peer mail row) same
      ∙ written-watermark owner peer mail row o t in
    record {
      forward = omega (arith, level, saved);
      answered = level ∙ sym answered;
      prefix =
          same-IsPrefixRead owner peer after (written owner peer mail row) same
            (written-IsPrefixRead owner peer mail row o t);
    }

-- Where a mark_read of a direct thread succeeds, the watermark does not go back, the answer names it,
-- and no message of the thread up to it is unread, whatever was read before.
pub mark_read-IsMarked :
    (outside : Outside) (owner peer : String) (seq : Option ℕ) (message_id : Option String)
    (mail after : Mail) (answer : Marked)
    → mark_read outside owner (direct peer) seq message_id mail ≡ ok (after, answer)
    → IsMarked owner peer mail after answer
unfolding mark_read highest_seq
mark_read-IsMarked outside owner peer seq message_id mail after answer h =
    let (number, named, h1) =
      >>=-eq-ok (requested_seq mail owner (direct peer) seq message_id) _ (after, answer) h in
    let highest = max_of (map (λ (j : Joined). j.server_seq) (joined mail owner peer)) in
    let (known, h3) =
      raise_if-eq-ok (ltb highest number) (invalid_params "read_state.watermark_mismatch")
        (write_watermark outside owner (direct peer) number message_id mail) (after, answer) h1 in
    write_watermark-IsMarked outside owner peer number message_id mail after answer h3
