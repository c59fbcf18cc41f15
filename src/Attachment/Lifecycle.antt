-- ===== src/Attachment/Lifecycle.antt =====
-- A slot is committed once, whatever happens to the store afterwards.
use awiki_open_server.Shared.{
  ℕ, String, ◌≡◌, ◌≢◌, refl, sym, ap, subst, ◌∙◌, Bool, true, false, not, ◌&&◌, Option, none, some,
  List, [], ◌∷◌, ◌++◌, Bool-cases, inl, inr, arith, ◌==◌, eq_iff, ok, >>=-eq-ok, false≢true, Result,
  raise_if, ok-injective, raise_if-eq-ok, ◌>>=◌, ◌>>◌, invalid_params, not_supported, ltb,
}
use awiki_open_server.Shared.Lists.{length, All, All-append}
use awiki_open_server.Shared.Table.{first_where, select_where}
use awiki_open_server.Attachment.{
  Bytes, Slot, SlotStatus, open_slot, uploaded, committed, aborted, StoredObject, Depot, Limits,
  CommitRequest, SlotRequest, Drawn, attachment_create_slot, exceeds, allowed_if_given, found_slot,
  is_uploaded, is_uploadable, set_status, is_named, is_stale, unlink, write_bytes, is_expired,
  upload_slot, attachment_commit, attachment_abort, remove_slots, cleanup_expired_attachments,
}
use awiki_open_server.Attachment.Committed.{attachment_commit-IsStored}

-- One call on the store. A new slot has another identifier than `id`, as new_id draws them.
pub data DepotStep (id : String) (before : Depot) : Depot → Type 0 where
  creates :
      (limits : Limits) (owner : String) (now : ℕ) (drawn : Drawn) (request : SlotRequest)
      (after : Depot)
      → (drawn.slot_id == id) ≡ false
      → attachment_create_slot limits owner now drawn request before ≡ ok after
      → DepotStep id before after
  uploads :
      (limits : Limits) (now : ℕ) (slot_id token : String) (bytes : Bytes) (after : Depot)
      → upload_slot limits now slot_id token bytes before ≡ ok after
      → DepotStep id before after
  commits :
      (limits : Limits) (owner : String) (now : ℕ) (request : CommitRequest) (object : StoredObject)
      (after : Depot)
      → attachment_commit limits owner now request before ≡ ok (object, after)
      → DepotStep id before after
  aborts :
      (owner slot_id : String) (after : Depot)
      → attachment_abort owner slot_id before ≡ ok after
      → DepotStep id before after
  cleans : (now : ℕ) → DepotStep id before (cleanup_expired_attachments now before).0

-- Calls one after another.
pub data DepotRun (id : String) (first : Depot) : Depot → Type 0 where
  done : DepotRun id first first
  step :
      {mid after : Depot} → DepotRun id first mid → DepotStep id mid after → DepotRun id first after

abbrev is_closed : SlotStatus → Bool
is_closed committed = true
is_closed aborted = true
is_closed _ = false

-- The slots of an identifier take no upload and no commit.
abbrev IsClosed : String → Slot → Type 0
IsClosed id s = (s.slot_id == id) ≡ true → is_closed s.status ≡ true

set_status-IsClosed :
    (id slot_id : String) (status : SlotStatus) (slots : List Slot)
    → ((slot_id == id) ≡ true → is_closed status ≡ true)
    → All (IsClosed id) slots
    → All (IsClosed id) (set_status slot_id status slots)
set_status-IsClosed id slot_id status [] k h = tt
set_status-IsClosed id slot_id status (s ∷ slots) k h =
    let rest = set_status-IsClosed id slot_id status slots k h.1 in
    elim (Bool-cases (s.slot_id == slot_id)) [
      | inl e ↦
          let same = (eq_iff s.slot_id slot_id).0 e in
          rw e (λ n. k (subst (λ (x : String). (x == id) ≡ true) same n), rest)
      | inr e ↦ rw e (h.0, rest)
    ]

closing-IsClosed :
    (id slot_id : String) (status : SlotStatus) (slots : List Slot)
    → (slot_id ≡ id → All (IsClosed id) slots → is_closed status ≡ true)
    → All (IsClosed id) slots
    → All (IsClosed id) (set_status slot_id status slots)
closing-IsClosed id slot_id status slots k h =
    set_status-IsClosed id slot_id status slots (λ e. k ((eq_iff slot_id id).0 e) h) h

select_where-IsClosed :
    (id : String) (test : Slot → Bool) (slots : List Slot)
    → All (IsClosed id) slots
    → All (IsClosed id) (select_where test slots)
select_where-IsClosed id test [] h = tt
select_where-IsClosed id test (s ∷ slots) h =
    let rest = select_where-IsClosed id test slots h.1 in
    elim (Bool-cases (test s)) [ inl e ↦ rw e (h.0, rest) | inr e ↦ rw e rest ]

-- The row that a call needs.
found_slot_inv :
    (found : Option Slot) (slot : Slot) → found_slot found ≡ ok slot → found ≡ some slot
found_slot_inv none slot h = cc
found_slot_inv (some other) slot h = ground arith

first_where-IsClosed :
    (id : String) (test : Slot → Bool) (slots : List Slot) (slot : Slot)
    → All (IsClosed id) slots
    → first_where test slots ≡ some slot
    → IsClosed id slot × (test slot ≡ true)
first_where-IsClosed id test [] slot h f = cc
first_where-IsClosed id test (s ∷ slots) slot h f = elim (Bool-cases (test s)) [
  | inl e ↦
      let same = some-injective (rw e at f) in
      (subst (IsClosed id) same h.0, subst (λ (x : Slot). test x ≡ true) same e)
  | inr e ↦ first_where-IsClosed id test slots slot h.1 (rw e at f)
]
  where
    some-injective : {a b : Slot} → ◌≡◌ {A = Option Slot} (some a) (some b) → a ≡ b
    some-injective h = cc

module _ (id : String) (depot after : Depot) (h : All (IsClosed id) depot.slots) where
  no_upload :
      (limits : Limits) (now : ℕ) (token : String) (bytes : Bytes)
      → upload_slot limits now id token bytes depot ≢ ok after
  unfolding upload_slot
  no_upload limits now token bytes e =
      let test = λ (s : Slot). s.slot_id == id && s.upload_token == token in
      let (slot, row, rest) = >>=-eq-ok (found_slot (first_where test depot.slots)) _ after e in
      let (closed, named) =
        first_where-IsClosed id test depot.slots slot h (found_slot_inv _ slot row) in
      let shut : is_uploadable slot.status ≡ false =
        by_status slot.status (closed (ground arith)) in
      cc (rw shut at rest)
    where
      by_status : (status : SlotStatus) → is_closed status ≡ true → is_uploadable status ≡ false
      by_status open_slot c = cc
      by_status uploaded c = cc
      by_status committed c = refl
      by_status aborted c = refl

  no_commit :
      (limits : Limits) (owner : String) (now : ℕ) (request : CommitRequest) (object : StoredObject)
      → request.slot_id ≡ id
      → attachment_commit limits owner now request depot ≢ ok (object, after)
  no_commit limits owner now request object same e =
      let (slot, found, stored) =
        attachment_commit-IsStored limits owner now request depot after object e in
      let (closed, named) =
        first_where-IsClosed id (is_named owner request) depot.slots slot h found in
      let own : (slot.slot_id == id) ≡ true =
        subst (λ (x : String). (slot.slot_id == x) ≡ true) same (ground arith) in
      absurd (false≢true (sym (by_status slot.status (closed own)) ∙ stored.ready))
    where
      by_status : (status : SlotStatus) → is_closed status ≡ true → is_uploaded status ≡ false
      by_status open_slot c = cc
      by_status uploaded c = cc
      by_status committed c = refl
      by_status aborted c = refl

remove_slots-IsClosed :
    (id : String) (stale : List Slot) (depot : Depot)
    → All (IsClosed id) depot.slots
    → All (IsClosed id) (remove_slots stale depot).slots
unfolding remove_slots
remove_slots-IsClosed id [] depot h = h
remove_slots-IsClosed id (slot ∷ rest) depot h =
    remove_slots-IsClosed id rest _
      (select_where-IsClosed id (λ s. not (s.slot_id == slot.slot_id)) depot.slots h)

first_where-test :
    (test : Slot → Bool) (slots : List Slot) (slot : Slot)
    → first_where test slots ≡ some slot
    → test slot ≡ true
first_where-test test [] slot h = cc
first_where-test test (s ∷ slots) slot h = elim (Bool-cases (test s)) [
  | inl e ↦ subst (λ (x : Slot). test x ≡ true) (some-injective (rw e at h)) e
  | inr e ↦ first_where-test test slots slot (rw e at h)
]
  where
    some-injective : {a b : Slot} → ◌≡◌ {A = Option Slot} (some a) (some b) → a ≡ b
    some-injective h = cc

-- What a commit leaves under the identifiers of its request and of others.
committed_slots :
    (limits : Limits) (owner : String) (now : ℕ) (request : CommitRequest) (before after : Depot)
    (object : StoredObject)
    → attachment_commit limits owner now request before ≡ ok (object, after)
    → after.slots ≡ set_status request.slot_id committed before.slots
committed_slots limits owner now request before after object h =
    let (slot, found, stored) =
      attachment_commit-IsStored limits owner now request before after object h in
    let named = first_where-test (is_named owner request) before.slots slot found in
    let id : slot.slot_id ≡ request.slot_id = ground (arith, eq_iff slot.slot_id request.slot_id) in
    stored.closed ∙ ap (λ i. set_status i committed before.slots) id

set_committed-IsClosed :
    (id : String) (slots : List Slot) → All (IsClosed id) (set_status id committed slots)
set_committed-IsClosed id [] = tt
set_committed-IsClosed id (s ∷ slots) = elim (Bool-cases (s.slot_id == id)) [
  | inl e ↦ rw e (λ n. refl, set_committed-IsClosed id slots)
  | inr e ↦ rw e (λ n. absurd (false≢true (sym e ∙ n)), set_committed-IsClosed id slots)
]

abort_slots :
    (owner slot_id : String) (before after : Depot)
    → attachment_abort owner slot_id before ≡ ok after
    → after.slots ≡ set_status slot_id aborted before.slots
unfolding attachment_abort
abort_slots owner slot_id before after h =
    let found =
      found_slot
        (first_where (λ (s : Slot). s.slot_id == slot_id && s.owner_did == owner) before.slots) in
    let aborting = λ (slot : Slot). ok (record before {
      files = unlink slot.path before.files;
      slots = set_status slot_id aborted before.slots;
    }) in
    let (_, h1) =
      raise_if-eq-ok (slot_id == "") (invalid_params "slot_id_required") (found >>= aborting) after
        h in
    let (slot, _, h2) = >>=-eq-ok found aborting after h1 in
    sym (ap (λ (d : Depot). d.slots) (ok-injective h2))

upload_slots :
    (limits : Limits) (now : ℕ) (slot_id token : String) (bytes : Bytes) (before after : Depot)
    → upload_slot limits now slot_id token bytes before ≡ ok after
    → after.slots ≡ set_status slot_id uploaded before.slots
unfolding upload_slot
upload_slots limits now slot_id token bytes before after h =
    let found =
      found_slot (
        first_where (λ (s : Slot). s.slot_id == slot_id && s.upload_token == token) before.slots) in
    let (slot, _, h1) = >>=-eq-ok found _ after h in
    let stored : Result Depot = ok (record before {
      files = write_bytes slot.path bytes before.files;
      slots = set_status slot_id uploaded before.slots;
    }) in
    let bounded =
      raise_if (ltb limits.max_attachment_bytes (length bytes))
        (invalid_params "attachment_too_large")
      >> stored in
    let in_time =
      raise_if (is_expired now slot.expires_at) (invalid_params "slot_expired") >> bounded in
    let (_, h2) =
      raise_if-eq-ok (not (is_uploadable slot.status)) (invalid_params "slot_not_uploadable")
        in_time after h1 in
    let (_, h3) =
      raise_if-eq-ok (is_expired now slot.expires_at) (invalid_params "slot_expired") bounded after
        h2 in
    let (_, h4) =
      raise_if-eq-ok (ltb limits.max_attachment_bytes (length bytes))
        (invalid_params "attachment_too_large") stored after h3 in
    sym (ap (λ (d : Depot). d.slots) (ok-injective h4))

created_slots :
    (limits : Limits) (owner : String) (now : ℕ) (drawn : Drawn) (request : SlotRequest)
    (before after : Depot)
    → attachment_create_slot limits owner now drawn request before ≡ ok after
    → (slot : Slot) × (slot.slot_id ≡ drawn.slot_id) × (after.slots ≡ before.slots ++ slot ∷ [])
unfolding attachment_create_slot
created_slots limits owner now drawn request before after h =
    let (_, h1) =
      raise_if-eq-ok request.encrypted (not_supported "anp.attachment.encryption_policy_violation")
        _ after h in
    let (_, h2) =
      raise_if-eq-ok (exceeds limits.max_attachment_bytes request.expected_size)
        (invalid_params "attachment_too_large") _ after h1 in
    let (_, h3) =
      raise_if-eq-ok (not (allowed_if_given limits request.expected_content_type))
        (invalid_params "attachment_content_type_not_allowed") _ after h2 in
    (_, refl, sym (ap (λ (d : Depot). d.slots) (ok-injective h3)))

-- No call opens a closed slot again.
DepotStep-IsClosed :
    (id : String) {before after : Depot}
    → DepotStep id before after
    → All (IsClosed id) before.slots
    → All (IsClosed id) after.slots
unfolding cleanup_expired_attachments
DepotStep-IsClosed id {before} (creates limits owner now drawn request after apart e) h =
    let (slot, own, slots) = created_slots limits owner now drawn request before after e in
    let other : (slot.slot_id == id) ≡ false =
      subst (λ (x : String). (x == id) ≡ false) (sym own) apart in
    subst (All (IsClosed id)) (sym slots) (
      All-append (IsClosed id) before.slots (slot ∷ []) h
        (λ n. absurd (false≢true (sym other ∙ n)), tt))
DepotStep-IsClosed id {before} (uploads limits now slot_id token bytes after e) h =
    subst (All (IsClosed id)) (sym (upload_slots limits now slot_id token bytes before after e)) (
      closing-IsClosed id slot_id uploaded before.slots
        (λ same k. absurd (
          no_upload id before after k limits now token bytes (
            subst (λ (x : String). upload_slot limits now x token bytes before ≡ ok after) same e)))
        h)
DepotStep-IsClosed id {before} (commits limits owner now request object after e) h =
    subst (All (IsClosed id)) (sym (committed_slots limits owner now request before after object e))
      (closing-IsClosed id request.slot_id committed before.slots (λ same k. refl) h)
DepotStep-IsClosed id {before} (aborts owner slot_id after e) h =
    subst (All (IsClosed id)) (sym (abort_slots owner slot_id before after e))
      (closing-IsClosed id slot_id aborted before.slots (λ same k. refl) h)
DepotStep-IsClosed id {before} (cleans now) h =
    remove_slots-IsClosed id (select_where (is_stale now) before.slots) before h

DepotRun-IsClosed :
    (id : String) {first last : Depot}
    → DepotRun id first last
    → All (IsClosed id) first.slots
    → All (IsClosed id) last.slots
DepotRun-IsClosed id done h = h
DepotRun-IsClosed id (step run s) h = DepotStep-IsClosed id s (DepotRun-IsClosed id run h)

-- Once a slot is committed, and after any calls that create, upload to, commit, abort or clean up
-- slots, new ones having other identifiers, no upload to the slot and no commit of it succeeds,
-- whoever asks, with whichever tokens, limits and time.
pub committed_once :
    (limits : Limits) (owner : String) (now : ℕ) (request : CommitRequest)
    (before after last : Depot) (object : StoredObject)
    → attachment_commit limits owner now request before ≡ ok (object, after)
    → DepotRun request.slot_id after last
    → ((limits' : Limits) (now' : ℕ) (token : String) (bytes : Bytes) (later : Depot)
        → upload_slot limits' now' request.slot_id token bytes last ≢ ok later)
      × ((limits' : Limits) (owner' : String) (now' : ℕ) (again : CommitRequest)
            (other : StoredObject) (later : Depot)
          → again.slot_id ≡ request.slot_id
          → attachment_commit limits' owner' now' again last ≢ ok (other, later))
committed_once limits owner now request before after last object h run =
    let id = request.slot_id in
    let closed =
      subst (All (IsClosed id))
        (sym (committed_slots limits owner now request before after object h))
        (set_committed-IsClosed id before.slots) in
    let k = DepotRun-IsClosed id run closed in
    (
      λ limits' now' token bytes later. no_upload id last later k limits' now' token bytes,
      λ limits' owner' now' again other later same.
          no_commit id last later k limits' owner' now' again other same,
    )
