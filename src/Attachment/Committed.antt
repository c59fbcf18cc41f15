-- ===== src/Attachment/Committed.antt =====
-- What a commit puts into the store.
use awiki_open_server.Shared.{
  ℕ, String, ◌≡◌, ◌≤◌, refl, subst, true, false, not, ◌||◌, Option, none, some, List, [], ◌∷◌, ◌++◌,
  arith, ◌==◌, eq_refl, Result, ok, raise_if, >>=-eq-ok, raise_if-eq-ok, ◌>>=◌, ◌>>◌,
  invalid_params, not_supported, python_error,
}
use awiki_open_server.Shared.Lists.{length, any}
use awiki_open_server.Shared.Table.{first_where}
use awiki_open_server.Attachment.{
  Bytes, Slot, StoredObject, Depot, Limits, CommitRequest, File, same_path, read_bytes, write_bytes,
  unlink, is_allowed, found_slot, found_bytes, is_uploaded, is_expired, meets_size, meets_text,
  check_content, object_of, store_object, attachment_commit, commit_slot, is_named, set_status,
  committed, with_suffix_bin, ObjectPath, upload_path, final_path,
}

-- The bytes that a commit accepted, beside the slot.
pub record IsAccepted (limits : Limits) (slot : Slot) (bytes : Bytes) (content_type : String)
    : Type 0 where
  pub bounded : length bytes ≤ limits.max_attachment_bytes
  pub size : meets_size (length bytes) slot.expected_size ≡ true
  pub digest : meets_text (limits.sha256 bytes) slot.expected_sha256 ≡ true
  pub allowed : is_allowed limits content_type ≡ true
  pub typed : meets_text content_type slot.expected_content_type ≡ true

check_content_inv :
    (limits : Limits) (request : CommitRequest) (slot : Slot) (bytes : Bytes)
    (content_type : String)
    → check_content limits request slot bytes ≡ ok content_type
    → IsAccepted limits slot bytes content_type
unfolding check_content
check_content_inv limits request slot bytes content_type h = record {
  bounded = ground arith;
  size = ground arith;
  digest = ground arith;
  allowed = ground arith;
  typed = ground arith;
}

-- What a commit of a slot leaves: the slot was uploaded and had not expired, the object names what
-- the accepted bytes are, and the store reads them back under its path.
pub record IsStored (limits : Limits) (now : ℕ) (slot : Slot) (object : StoredObject)
    (before after : Depot) : Type 0 where
  pub bytes : Bytes
  pub uploaded : read_bytes slot.path before.files ≡ some bytes
  pub ready : is_uploaded slot.status ≡ true
  pub in_time : is_expired now slot.expires_at ≡ false
  pub accepted : IsAccepted limits slot bytes object.content_type
  pub size : object.size ≡ length bytes
  pub digest : object.sha256 ≡ limits.sha256 bytes
  pub owner : object.owner_did ≡ slot.owner_did
  pub identity : object.object_id ≡ slot.object_id
  pub stored : read_bytes object.path after.files ≡ some bytes
  pub recorded : after.objects ≡ before.objects ++ object ∷ []
  pub fresh : any (λ o. o.object_id == object.object_id) before.objects ≡ false
  pub closed : after.slots ≡ set_status slot.slot_id committed before.slots

same_path_self : (path : ObjectPath) → same_path path path ≡ true
same_path_self (upload_path id) = eq_refl id
same_path_self (final_path id) = eq_refl id

pub read-write :
    (path : ObjectPath) (bytes : Bytes) (files : List File)
    → read_bytes path (write_bytes path bytes files) ≡ some bytes
read-write path bytes files = rw (same_path_self path) refl

object_of-IsStored :
    (limits : Limits) (now : ℕ) (slot : Slot) (bytes : Bytes) (content_type : String)
    (depot : Depot)
    → read_bytes slot.path depot.files ≡ some bytes
    → is_uploaded slot.status ≡ true
    → is_expired now slot.expires_at ≡ false
    → IsAccepted limits slot bytes content_type
    → any (λ o. o.object_id == slot.object_id) depot.objects ≡ false
    → IsStored limits now slot
        (object_of limits now slot bytes content_type)
        depot
        (store_object (object_of limits now slot bytes content_type) slot bytes depot)
object_of-IsStored limits now slot bytes content_type depot found ready in_time accepted fresh =
    record {
      bytes = bytes;
      uploaded = found;
      ready = ready;
      in_time = in_time;
      accepted = accepted;
      size = refl;
      digest = refl;
      owner = refl;
      identity = refl;
      stored = read-write (with_suffix_bin slot.path) bytes (unlink slot.path depot.files);
      recorded = refl;
      fresh = fresh;
      closed = refl;
    }

found_bytes_inv :
    (found : Option Bytes) (bytes : Bytes) → found_bytes found ≡ ok bytes → found ≡ some bytes
found_bytes_inv none bytes h = cc
found_bytes_inv (some other) bytes h = ground arith

commit_slot-IsStored :
    (limits : Limits) (now : ℕ) (request : CommitRequest) (slot : Slot) (before after : Depot)
    (object : StoredObject)
    → commit_slot limits now request slot before ≡ ok (object, after)
    → IsStored limits now slot object before after
unfolding commit_slot
commit_slot-IsStored limits now request slot before after object h =
    let rest = found_bytes (read_bytes slot.path before.files) >>= λ bytes.
    check_content limits request slot bytes >>= λ content_type.
    let made = object_of limits now slot bytes content_type in
    raise_if (any (λ o. o.object_id == made.object_id) before.objects)
      (python_error "IntegrityError")
    >> ok (made, store_object made slot bytes before) in
    let (ready, h1) =
      raise_if-eq-ok (not (is_uploaded slot.status)) (invalid_params "object_not_uploaded")
        (raise_if (is_expired now slot.expires_at) (invalid_params "slot_expired") >> rest)
        (object, after) h in
    let (in_time, h2) =
      raise_if-eq-ok (is_expired now slot.expires_at) (invalid_params "slot_expired") rest
        (object, after) h1 in
    let (bytes, read, h3) =
      >>=-eq-ok (found_bytes (read_bytes slot.path before.files)) _ (object, after) h2 in
    let (content_type, checked, h4) =
      >>=-eq-ok (check_content limits request slot bytes) _ (object, after) h3 in
    let (fresh, h5) =
      raise_if-eq-ok (any (λ o. o.object_id == slot.object_id) before.objects)
        (python_error "IntegrityError")
        (ok (
          object_of limits now slot bytes content_type,
          store_object (object_of limits now slot bytes content_type) slot bytes before,
        ))
        (object, after) h4 in
    subst (λ (x : StoredObject × Depot). IsStored limits now slot x.0 before x.1) (ok-injective h5)
      (object_of-IsStored limits now slot bytes content_type before
        (found_bytes_inv (read_bytes slot.path before.files) bytes read) (ground (arith, ready))
        in_time (check_content_inv limits request slot bytes content_type checked) fresh)
  where
    ok-injective :
        {a b : StoredObject × Depot} → ◌≡◌ {A = Result (StoredObject × Depot)} (ok a) (ok b) → a ≡ b
    ok-injective h = cc

found_slot_inv :
    (found : Option Slot) (slot : Slot) → found_slot found ≡ ok slot → found ≡ some slot
found_slot_inv none slot h = cc
found_slot_inv (some other) slot h = ground arith

-- A commit that succeeds finds the slot that it names, which is the owner's, was uploaded and is in
-- time; the object has the size and digest of the bytes that were uploaded, these are within the
-- limit and what the slot and the content types allow, no object had its identifier before, and the
-- store reads back these bytes.
pub attachment_commit-IsStored :
    (limits : Limits) (owner : String) (now : ℕ) (request : CommitRequest) (before after : Depot)
    (object : StoredObject)
    → attachment_commit limits owner now request before ≡ ok (object, after)
    → (slot : Slot) × (first_where (is_named owner request) before.slots ≡ some slot)
      × IsStored limits now slot object before after
unfolding attachment_commit
attachment_commit-IsStored limits owner now request before after object h =
    let rest = found_slot (first_where (is_named owner request) before.slots) >>= λ slot.
    commit_slot limits now request slot before in
    let (plain, h1) =
      raise_if-eq-ok request.encrypted (not_supported "anp.attachment.encryption_policy_violation")
        (raise_if (request.slot_id == "" || request.commit_token == "")
            (invalid_params "slot_id_and_commit_token_required")
          >> rest)
        (object, after) h in
    let (named, h2) =
      raise_if-eq-ok (request.slot_id == "" || request.commit_token == "")
        (invalid_params "slot_id_and_commit_token_required") rest (object, after) h1 in
    let (slot, found, h3) =
      >>=-eq-ok (found_slot (first_where (is_named owner request) before.slots)) _ (object, after)
        h2 in
    (
      slot,
      found_slot_inv _ slot found,
      commit_slot-IsStored limits now request slot before after object h3,
    )
