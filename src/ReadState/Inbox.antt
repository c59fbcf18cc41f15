-- ===== src/ReadState/Inbox.antt =====
-- inbox_mark_read moves a watermark over the messages that are read, and never over an unread one.
use mathlib.Core.List.Memᴰ
use mathlib.Core.List.{Memᴰ}
use awiki_open_server.Shared.{
  ℕ, ◌≤◌, ◌<◌, min, String, ◌≡◌, refl, sym, ap, subst, ◌∙◌, Bool, true, false, not, ◌&&◌, Option,
  none, some, List, [], ◌∷◌, ltb, Bool-cases, Option-cases, inl, inr, arith, ◌==◌, eq_iff,
}
use awiki_open_server.Shared.Table.{
  select_where, first_where, update_where, mem-select_where, mem_of_mem-select_where,
}
use awiki_open_server.ReadState.{
  Mail, DirectMessage, MessageView, ReadRow, direct, thread_id_of, Joined, is_none, message_at,
  is_view, join_views, joined, min_of, latest, state_at, is_state, seq_of, upsert_state, Outside,
}
use awiki_open_server.ReadState.Marking.{
  distinct_peers, moved_row, move_to, set_read, first_unread, read_candidate, is_before,
  advance_direct_read_prefix, advance_each, inbox_mark_read, is_named,
}
use awiki_open_server.ReadState.Prefix.{
  watermark, IsPrefixRead, IsSameReading, joined_inv, same-IsPrefixRead, same_watermark,
  tell-IsSameReading, thread_id-injective, first-upsert_other, seq-upsert_same, mem-update_inv,
}

-- The minimum is below every element.
min_of-le : (ns : List ℕ) (n : ℕ) → Memᴰ n ns → (m : ℕ) × (min_of ns ≡ some m) × (m ≤ n)
min_of-le [] n i = absurd (Memᴰ.not-nil i)
min_of-le (k ∷ ns) n i = elim (Memᴰ.cases_cons i) [
  | inl e ↦ elim (Option-cases (min_of ns)) [
    | inl f ↦ (k, rw f refl, omega arith)
    | inr (m, f) ↦ (min k m, rw f refl, omega arith)
  ]
  | inr later ↦ let (m, f, le) = min_of-le ns n later in (min k m, rw f refl, omega arith)
]

mem-latest : (js : List Joined) (j : Joined) → latest js ≡ some j → Memᴰ j js
mem-latest [] j h = cc
mem-latest (k ∷ js) j h = elim (Option-cases (latest js)) [
  | inl e ↦ Memᴰ.head (some-injective (sym (rw e at h)))
  | inr (l, e) ↦ elim (Bool-cases (ltb k.server_seq l.server_seq)) [
    | inl f ↦ Memᴰ.tail (mem-latest js j (e ∙ rw (e, f) at h))
    | inr f ↦ Memᴰ.head (some-injective (sym (rw (e, f) at h)))
  ]
]
  where
    some-injective : {a b : Joined} → ◌≡◌ {A = Option Joined} (some a) (some b) → a ≡ b
    some-injective h = cc

-- An unread message after the watermark is not before the first unread one.
first_unread-le :
    (mail : Mail) (owner peer : String) (previous : ℕ) (j : Joined)
    → Memᴰ j (joined mail owner peer)
    → previous < j.server_seq
    → is_none j.read_at ≡ true
    → (u : ℕ) × (first_unread mail owner peer previous ≡ some u) × (u ≤ j.server_seq)
unfolding first_unread
first_unread-le mail owner peer previous j i after unread = min_of-le _ j.server_seq (
    Memᴰ.map (λ (x : Joined). x.server_seq)
      (mem-select_where (λ x. ltb previous x.server_seq && is_none x.read_at)
        (joined mail owner peer) j i (ground arith)))

-- The candidate is after the watermark, and all messages up to it that are after it are read.
candidate_after :
    (mail : Mail) (owner peer : String) (previous : ℕ) (c : Joined)
    → read_candidate mail owner peer previous ≡ some c
    → (previous < c.server_seq)
      × (is_before (first_unread mail owner peer previous) c.server_seq ≡ true)
unfolding read_candidate
candidate_after mail owner peer previous c h =
    let test = λ (j : Joined).
      ltb previous j.server_seq
      && not (is_none j.read_at)
      && is_before (first_unread mail owner peer previous) j.server_seq in
    let (i, p) = mem_of_mem-select_where test (joined mail owner peer) c (mem-latest _ c h) in
    (ground arith, ground arith)

read_up_to_candidate :
    (mail : Mail) (owner peer : String) (previous : ℕ) (c j : Joined)
    → read_candidate mail owner peer previous ≡ some c
    → Memᴰ j (joined mail owner peer)
    → previous < j.server_seq
    → j.server_seq ≤ c.server_seq
    → is_none j.read_at ≡ false
read_up_to_candidate mail owner peer previous c j h i after le =
    elim (Bool-cases (is_none j.read_at)) [
      | inl unread ↦
          let (u, first, below) = first_unread-le mail owner peer previous j i after unread in
          let (later, before) = candidate_after mail owner peer previous c h in
          let early : ltb c.server_seq u ≡ true =
            subst (λ (x : Option ℕ). is_before x c.server_seq ≡ true) first before in
          absurd (ground arith)
      | inr read ↦ read
    ]

advanced-watermark :
    (owner peer : String) (mail : Mail) (row : ReadRow)
    → row.owner_did ≡ owner
    → row.thread_id ≡ thread_id_of (direct peer)
    → watermark
        (record mail { thread_read_states = upsert_state row mail.thread_read_states })
        owner
        peer
      ≡ row.read_up_to_seq
advanced-watermark owner peer mail row o t =
    subst
      (λ (x : String).
        seq_of (
          first_where (is_state x (thread_id_of (direct peer)))
            (upsert_state row mail.thread_read_states))
        ≡ row.read_up_to_seq)
      o
      (subst
        (λ (x : String).
          seq_of (first_where (is_state row.owner_did x) (upsert_state row mail.thread_read_states))
          ≡ row.read_up_to_seq)
        t (seq-upsert_same row mail.thread_read_states))

-- What an operation owes to a thread: the watermark does not go back, and no message up to it is unread.
pub record IsKept (owner peer : String) (mail after : Mail) : Type 0 where
  pub forward : watermark mail owner peer ≤ watermark after owner peer
  pub prefix : IsPrefixRead owner peer after

IsKept-trans :
    (owner peer : String) (a b c : Mail)
    → IsKept owner peer a b
    → IsKept owner peer b c
    → IsKept owner peer a c
IsKept-trans owner peer a b c h k = record {
  forward = omega (arith, h.forward, k.forward);
  prefix = k.prefix;
}

-- The row of the thread, moved to a candidate.
moved-IsKept :
    (owner peer : String) (mail : Mail) (row : ReadRow) (c : Joined)
    → IsPrefixRead owner peer mail
    → read_candidate mail owner peer (watermark mail owner peer) ≡ some c
    → row.owner_did ≡ owner
    → row.thread_id ≡ thread_id_of (direct peer)
    → row.read_up_to_seq ≡ c.server_seq
    → IsKept owner peer mail
        (record mail { thread_read_states = upsert_state row mail.thread_read_states })
unfolding joined
moved-IsKept owner peer mail row c p h o t e =
    let level = advanced-watermark owner peer mail row o t in
    let (later, before) = candidate_after mail owner peer (watermark mail owner peer) c h in
    record {
      forward = omega (arith, level, e, later);
      prefix = λ j i le. elim (Bool-cases (ltb (watermark mail owner peer) j.server_seq)) [
        | inl after ↦
            read_up_to_candidate mail owner peer (watermark mail owner peer) c j h i (ground arith)
              (omega (arith, level, e, le))
        | inr below ↦ p j i (ground arith)
      ];
    }

same-IsKept :
    (owner peer : String) (mail a b : Mail)
    → IsSameReading a b
    → IsKept owner peer mail b
    → IsKept owner peer mail a
same-IsKept owner peer mail a b same k = record {
  forward = omega (arith, same_watermark owner peer a b same, k.forward);
  prefix = same-IsPrefixRead owner peer a b same k.prefix;
}

-- The row of another thread.
other-IsKept :
    (owner peer : String) (mail : Mail) (row : ReadRow)
    → IsPrefixRead owner peer mail
    → (row.thread_id == thread_id_of (direct peer)) ≡ false
    → IsKept owner peer mail
        (record mail { thread_read_states = upsert_state row mail.thread_read_states })
unfolding joined
other-IsKept owner peer mail row p d =
    let level : watermark
          (record mail { thread_read_states = upsert_state row mail.thread_read_states }) owner peer
        ≡ watermark mail owner peer =
      ap seq_of
        (first-upsert_other owner (thread_id_of (direct peer)) row mail.thread_read_states d) in
    record { forward = omega (arith, level); prefix = λ j i le. p j i (omega (arith, level, le)) }

move_to-IsKept :
    (outside : Outside) (owner peer : String) (at : ℕ) (mail : Mail) (found : Option Joined)
    → IsPrefixRead owner peer mail
    → read_candidate mail owner peer (watermark mail owner peer) ≡ found
    → IsKept owner peer mail (move_to outside owner peer at mail found)
unfolding move_to
move_to-IsKept outside owner peer at mail none p h = record { forward = omega arith; prefix = p }
move_to-IsKept outside owner peer at mail (some c) p h =
    let row = moved_row owner peer at (state_at mail owner (thread_id_of (direct peer))) c in
    same-IsKept owner peer mail _ _ (tell-IsSameReading outside owner (direct peer) _)
      (moved-IsKept owner peer mail row c p h refl refl refl)

move_other-IsKept :
    (outside : Outside) (owner peer other : String) (at : ℕ) (mail : Mail) (found : Option Joined)
    → IsPrefixRead owner peer mail
    → (thread_id_of (direct other) == thread_id_of (direct peer)) ≡ false
    → IsKept owner peer mail (move_to outside owner other at mail found)
unfolding move_to
move_other-IsKept outside owner peer other at mail none p d = record {
  forward = omega arith;
  prefix = p;
}
move_other-IsKept outside owner peer other at mail (some c) p d =
    let row = moved_row owner other at (state_at mail owner (thread_id_of (direct other))) c in
    same-IsKept owner peer mail _ _ (tell-IsSameReading outside owner (direct other) _)
      (other-IsKept owner peer mail row p d)

advance-IsKept :
    (outside : Outside) (owner peer : String) (at : ℕ) (other : String) (mail : Mail)
    → IsPrefixRead owner peer mail
    → IsKept owner peer mail (advance_direct_read_prefix outside owner other at mail)
unfolding advance_direct_read_prefix
advance-IsKept outside owner peer at other mail p =
    elim (Bool-cases (thread_id_of (direct other) == thread_id_of (direct peer))) [
      | inl e ↦
          let same = thread_id-injective other peer ((eq_iff _ _).0 e) in
          subst
            (λ (x : String).
              IsKept owner peer mail (advance_direct_read_prefix outside owner x at mail))
            (sym same) (move_to-IsKept outside owner peer at mail _ p refl)
      | inr e ↦ move_other-IsKept outside owner peer other at mail _ p e
    ]

advance_each-IsKept :
    (outside : String → Outside) (owner peer : String) (at : ℕ) (others : List String) (mail : Mail)
    → IsPrefixRead owner peer mail
    → IsKept owner peer mail (advance_each outside owner at others mail)
unfolding advance_each
advance_each-IsKept outside owner peer at [] mail p = record { forward = omega arith; prefix = p }
advance_each-IsKept outside owner peer at (other ∷ others) mail p =
    let one = advance-IsKept (outside other) owner peer at other mail p in
    IsKept-trans owner peer mail _ _ one (
      advance_each-IsKept outside owner peer at others
        (advance_direct_read_prefix (outside other) owner other at mail) one.prefix)

abbrev row_of : MessageView → DirectMessage → Joined
row_of v m = record { message_id = m.message_id; server_seq = m.server_seq; read_at = v.read_at }

mem-join_views :
    (messages : List DirectMessage) (vs : List MessageView) (v : MessageView) (m : DirectMessage)
    → Memᴰ v vs
    → message_at messages v.message_id ≡ some m
    → Memᴰ (row_of v m) (join_views messages vs)
mem-join_views messages [] v m i found = absurd (Memᴰ.not-nil i)
mem-join_views messages (w ∷ vs) v m i found = elim (Memᴰ.cases_cons i) [
  | inl e ↦
      let found_w : message_at messages w.message_id ≡ some m =
        subst (λ (x : MessageView). message_at messages x.message_id ≡ some m) e found in
      rw found_w (Memᴰ.head (ap (λ (x : MessageView). row_of x m) e))
  | inr later ↦
      let k = mem-join_views messages vs v m later found in
      elim (Option-cases (message_at messages w.message_id)) [
        | inl e ↦ rw e k
        | inr (n, e) ↦ rw e (Memᴰ.tail k)
      ]
]

-- Reading some messages leaves every message up to the watermark read.
marked-IsKept :
    (owner peer : String) (mail : Mail) (test : MessageView → Bool) (at : ℕ)
    → IsPrefixRead owner peer mail
    → IsKept owner peer mail (record mail {
      direct_message_views = update_where test (set_read at) mail.direct_message_views;
    })
unfolding joined
marked-IsKept owner peer mail test at p =
    let after = record mail {
      direct_message_views = update_where test (set_read at) mail.direct_message_views;
    } in
    record {
      forward = omega arith;
      prefix = λ j i le.
          let (v, k) = joined_inv after owner peer j i in
          let (w, in_table, same) =
            mem-update_inv test (set_read at) mail.direct_message_views v k.in_table in
          ap is_none k.read ∙ elim (Bool-cases (test w)) [
            | inl e ↦
                let v_is : v ≡ set_read at w = same ∙ rw e refl in
                ap (λ (x : MessageView). is_none x.read_at) v_is
            | inr e ↦
                let v_is : v ≡ w = same ∙ rw e refl in
                let here =
                  mem-select_where (is_view owner peer) mail.direct_message_views v
                    (subst (λ (x : MessageView). Memᴰ x mail.direct_message_views) (sym v_is)
                      in_table)
                    k.of_thread in
                p (row_of v k.message)
                  (mem-join_views mail.direct_messages _ v k.message here k.found)
                  (omega (arith, k.seq, le))
          ];
    }

-- Where every message of the thread up to its watermark is read, inbox_mark_read keeps this, and the
-- watermark does not go back, for the thread of the owner with any peer, whichever messages it names.
pub inbox_mark_read-IsKept :
    (outside : String → Outside) (owner peer : String) (at : ℕ) (message_ids : List String)
    (mail : Mail)
    → IsPrefixRead owner peer mail
    → IsKept owner peer mail (inbox_mark_read outside owner at message_ids mail).0
unfolding inbox_mark_read
inbox_mark_read-IsKept outside owner peer at message_ids mail p =
    let one =
      marked-IsKept owner peer mail (λ v. is_named owner message_ids v && is_none v.read_at) at p in
    let peers =
      distinct_peers (select_where (is_named owner message_ids) mail.direct_message_views) [] in
    IsKept-trans owner peer mail _ _ one
      (advance_each-IsKept outside owner peer at peers _ one.prefix)
