-- ===== src/Attachment.antt =====
-- attachments/core.py: the life of an upload, from its slot to the object or to its removal. The
-- parameters come parsed: sizes as _parse_expected_size, digests as _parse_expected_sha256 and content
-- types as _normalize_mime_type return them. The hash of hashlib is a parameter.
pub mod Cleanup
pub mod Committed
pub mod Lifecycle
mod Tests
use awiki_open_server.Shared.{
  ℕ, String, Bool, true, false, not, ◌&&◌, ◌||◌, Option, none, some, List, [], ◌∷◌, ◌++◌, map,
  if◌then◌else◌, ltb, leb, nat_eq, ◌==◌, Result, ok, err, invalid_params, not_found, not_supported,
  python_error, raise_if, ◌+◌, ◌>>=◌, ◌>>◌,
}
use awiki_open_server.Shared.Lists.{length, any}
use awiki_open_server.Shared.Table.{
  select_where, first_where, count_where, delete_where, update_where,
}

abbrev pub Bytes : Type 0
Bytes = List ℕ

pub data SlotStatus : Type 0 where
  open_slot uploaded committed aborted : SlotStatus

-- object_dir / f"{object_id}.upload", and the same with_suffix(".bin")
pub data ObjectPath : Type 0 where
  upload_path final_path : String → ObjectPath

pub record Slot : Type 0 where
  pub slot_id : String
  pub object_id : String
  pub attachment_id : String
  pub object_uri : String
  pub owner_did : String
  pub upload_token : String
  pub commit_token : String
  pub path : ObjectPath
  pub status : SlotStatus
  pub expected_size : Option ℕ
  pub expected_sha256 : Option String
  pub expected_content_type : Option String
  pub expires_at : Option ℕ
  pub created_at : ℕ

pub record StoredObject : Type 0 where
  pub object_id : String
  pub source_attachment_id : String
  pub object_uri : String
  pub owner_did : String
  pub path : ObjectPath
  pub size : ℕ
  pub sha256 : String
  pub content_type : String
  pub created_at : ℕ

pub record Ticket : Type 0 where
  pub ticket : String
  pub object_id : String
  pub expires_at : ℕ

pub record File : Type 0 where
  pub path : ObjectPath
  pub data_bytes : Bytes

-- The tables of attachments and the directory of their files.
pub record Depot : Type 0 where
  pub slots : List Slot
  pub objects : List StoredObject
  pub tickets : List Ticket
  pub files : List File

pub record Limits : Type 0 where
  pub max_attachment_bytes : ℕ
  pub allowed_mime_types : List String
  -- hashlib.sha256(data).hexdigest()
  pub sha256 : Bytes → String

abbrev pub same_path : ObjectPath → ObjectPath → Bool
same_path (upload_path a) (upload_path b) = a == b
same_path (final_path a) (final_path b) = a == b
same_path _ _ = false

abbrev pub with_suffix_bin : ObjectPath → ObjectPath
with_suffix_bin (upload_path id) = final_path id
with_suffix_bin (final_path id) = final_path id

-- path.unlink()
abbrev pub unlink : ObjectPath → List File → List File
unlink path files = delete_where (λ f. same_path f.path path) files

-- path.write_bytes(data)
abbrev pub write_bytes : ObjectPath → Bytes → List File → List File
write_bytes path bytes files = record { path = path; data_bytes = bytes } ∷ unlink path files

abbrev pub bytes_of : Option File → Option Bytes
bytes_of none = none
bytes_of (some f) = some f.data_bytes

-- path.read_bytes(), if path.exists()
abbrev pub read_bytes : ObjectPath → List File → Option Bytes
read_bytes path files = bytes_of (first_where (λ f. same_path f.path path) files)

-- _is_expired
abbrev pub is_expired : ℕ → Option ℕ → Bool
is_expired now none = false
is_expired now (some at) = leb at now

abbrev pub is_allowed : Limits → String → Bool
is_allowed limits content_type = any (λ t. t == content_type) limits.allowed_mime_types

-- What a request for a slot asks, and what new_id draws for it.
pub record SlotRequest : Type 0 where
  pub encrypted : Bool
  pub attachment_id : String
  pub expected_size : Option ℕ
  pub expected_sha256 : Option String
  pub expected_content_type : Option String

pub record Drawn : Type 0 where
  pub slot_id : String
  pub object_id : String
  pub object_uri : String
  pub upload_token : String
  pub commit_token : String

abbrev pub exceeds : ℕ → Option ℕ → Bool
exceeds bound none = false
exceeds bound (some n) = ltb bound n

abbrev pub allowed_if_given : Limits → Option String → Bool
allowed_if_given limits none = true
allowed_if_given limits (some content_type) = is_allowed limits content_type

-- 30 minutes, as the clock counts
abbrev slot_minutes : ℕ
slot_minutes = 1_800_000_000

unfoldable pub attachment_create_slot :
    Limits → String → ℕ → Drawn → SlotRequest → Depot → Result Depot
attachment_create_slot limits owner now drawn request depot = do
  raise_if request.encrypted (not_supported "anp.attachment.encryption_policy_violation")
  raise_if (exceeds limits.max_attachment_bytes request.expected_size)
      (invalid_params "attachment_too_large")
  raise_if (not (allowed_if_given limits request.expected_content_type))
      (invalid_params "attachment_content_type_not_allowed")
  ok (record depot {
    slots =
        depot.slots
        ++ record {
          slot_id = drawn.slot_id;
          object_id = drawn.object_id;
          attachment_id = request.attachment_id;
          object_uri = drawn.object_uri;
          owner_did = owner;
          upload_token = drawn.upload_token;
          commit_token = drawn.commit_token;
          path = upload_path drawn.object_id;
          status = open_slot;
          expected_size = request.expected_size;
          expected_sha256 = request.expected_sha256;
          expected_content_type = request.expected_content_type;
          expires_at = some (now + slot_minutes);
          created_at = now;
        }
          ∷ [];
  })

abbrev pub is_uploadable : SlotStatus → Bool
is_uploadable open_slot = true
is_uploadable uploaded = true
is_uploadable _ = false

abbrev pub is_uploaded : SlotStatus → Bool
is_uploaded uploaded = true
is_uploaded _ = false

abbrev pub is_committed : SlotStatus → Bool
is_committed committed = true
is_committed _ = false

-- UPDATE attachment_slots SET status = ? WHERE slot_id = ?
abbrev pub set_status : String → SlotStatus → List Slot → List Slot
set_status slot_id status slots =
    update_where (λ s. s.slot_id == slot_id) (λ s. record s { status = status }) slots

abbrev pub found_slot : Option Slot → Result Slot
found_slot none = err (not_found "slot_not_found")
found_slot (some slot) = ok slot

unfoldable pub upload_slot : Limits → ℕ → String → String → Bytes → Depot → Result Depot
upload_slot limits now slot_id token bytes depot = do
  slot ← found_slot (first_where (λ s. s.slot_id == slot_id && s.upload_token == token) depot.slots)
  raise_if (not (is_uploadable slot.status)) (invalid_params "slot_not_uploadable")
  raise_if (is_expired now slot.expires_at) (invalid_params "slot_expired")
  raise_if (ltb limits.max_attachment_bytes (length bytes)) (invalid_params "attachment_too_large")
  ok (record depot {
    files = write_bytes slot.path bytes depot.files;
    slots = set_status slot_id uploaded depot.slots;
  })

-- What a request of the standard protocol says of the file.
pub record Claim : Type 0 where
  pub attachment_id : Option String
  pub actual_size : Result (Option ℕ)
  pub actual_digest : Result (Option String)

pub record CommitRequest : Type 0 where
  pub encrypted : Bool
  pub slot_id : String
  pub commit_token : String
  pub claim : Option Claim
  pub content_type : Option String

abbrev pub is_number : ℕ → Option ℕ → Bool
is_number n none = false
is_number n (some m) = nat_eq m n

abbrev pub is_text : String → Option String → Bool
is_text text none = false
is_text text (some other) = other == text

-- A value that was expected, if one was, is the actual one.
abbrev pub meets_size : ℕ → Option ℕ → Bool
meets_size n none = true
meets_size n (some m) = nat_eq m n

abbrev pub meets_text : String → Option String → Bool
meets_text text none = true
meets_text text (some other) = other == text

unfoldable pub check_claim : Slot → ℕ → String → Option Claim → Result (Unit {0})
check_claim slot size digest none = ok tt
check_claim slot size digest (some claim) = do
  raise_if (not (is_text slot.attachment_id claim.attachment_id))
      (invalid_params "attachment_id_mismatch")
  actual_size ← claim.actual_size
  raise_if (not (is_number size actual_size)) (invalid_params "attachment_size_mismatch")
  actual_digest ← claim.actual_digest
  raise_if (not (is_text digest actual_digest)) (invalid_params "attachment_digest_mismatch")

abbrev pub content_type_of : Option String → Option String → String
content_type_of (some given) expected = given
content_type_of none (some expected) = expected
content_type_of none none = "application/octet-stream"

abbrev pub found_bytes : Option Bytes → Result Bytes
found_bytes none = err (invalid_params "object_not_uploaded")
found_bytes (some bytes) = ok bytes

-- The checks on the bytes of the slot, and the content type of the object.
unfoldable pub check_content : Limits → CommitRequest → Slot → Bytes → Result String
unfolding check_claim
check_content limits request slot bytes = do
  raise_if (ltb limits.max_attachment_bytes (length bytes)) (invalid_params "attachment_too_large")
  raise_if (not (meets_size (length bytes) slot.expected_size))
      (invalid_params "attachment_size_mismatch")
  raise_if (not (meets_text (limits.sha256 bytes) slot.expected_sha256))
      (invalid_params "attachment_digest_mismatch")
  check_claim slot (length bytes) (limits.sha256 bytes) request.claim
  let content_type = content_type_of request.content_type slot.expected_content_type
  raise_if (not (is_allowed limits content_type))
      (invalid_params "attachment_content_type_not_allowed")
  raise_if (not (meets_text content_type slot.expected_content_type))
      (invalid_params "attachment_content_type_mismatch")
  ok content_type

abbrev pub object_of : Limits → ℕ → Slot → Bytes → String → StoredObject
object_of limits now slot bytes content_type = record {
  object_id = slot.object_id;
  source_attachment_id = slot.attachment_id;
  object_uri = slot.object_uri;
  owner_did = slot.owner_did;
  path = with_suffix_bin slot.path;
  size = length bytes;
  sha256 = limits.sha256 bytes;
  content_type = content_type;
  created_at = now;
}

-- The file moved to its final name, the row of the object, and the slot closed.
abbrev pub store_object : StoredObject → Slot → Bytes → Depot → Depot
store_object object slot bytes depot = record depot {
  files = write_bytes object.path bytes (unlink slot.path depot.files);
  objects = depot.objects ++ object ∷ [];
  slots = set_status slot.slot_id committed depot.slots;
}

-- attachment_commit behind the row of the slot. Where the INSERT fails, for an identifier of an object
-- that is there already, the transaction is undone, but the file was moved before; an error has no
-- depot here, so that this trace of a failed call is left out.
unfoldable pub commit_slot :
    Limits → ℕ → CommitRequest → Slot → Depot → Result (StoredObject × Depot)
unfolding check_content
commit_slot limits now request slot depot = do
  raise_if (not (is_uploaded slot.status)) (invalid_params "object_not_uploaded")
  raise_if (is_expired now slot.expires_at) (invalid_params "slot_expired")
  bytes ← found_bytes (read_bytes slot.path depot.files)
  content_type ← check_content limits request slot bytes
  let object = object_of limits now slot bytes content_type
  raise_if (any (λ o. o.object_id == object.object_id) depot.objects)
      (python_error "IntegrityError")
  ok (object, store_object object slot bytes depot)

abbrev pub is_named : String → CommitRequest → Slot → Bool
is_named owner request s =
    s.slot_id == request.slot_id && s.commit_token == request.commit_token && s.owner_did == owner

unfoldable pub attachment_commit :
    Limits → String → ℕ → CommitRequest → Depot → Result (StoredObject × Depot)
unfolding commit_slot
attachment_commit limits owner now request depot = do
  raise_if request.encrypted (not_supported "anp.attachment.encryption_policy_violation")
  raise_if (request.slot_id == "" || request.commit_token == "")
      (invalid_params "slot_id_and_commit_token_required")
  slot ← found_slot (first_where (is_named owner request) depot.slots)
  commit_slot limits now request slot depot

unfoldable pub attachment_abort : String → String → Depot → Result Depot
attachment_abort owner slot_id depot = do
  raise_if (slot_id == "") (invalid_params "slot_id_required")
  slot ← found_slot (first_where (λ s. s.slot_id == slot_id && s.owner_did == owner) depot.slots)
  ok (record depot {
    files = unlink slot.path depot.files;
    slots = set_status slot_id aborted depot.slots;
  })

-- WHERE expires_at IS NOT NULL AND expires_at <= ? AND status != 'committed'
abbrev pub is_stale : ℕ → Slot → Bool
is_stale now slot = is_expired now slot.expires_at && not (is_committed slot.status)

-- The loop over the selected slots.
unfoldable pub remove_slots : List Slot → Depot → Depot
remove_slots [] depot = depot
remove_slots (slot ∷ rest) depot = remove_slots rest (record depot {
  files = unlink slot.path depot.files;
  slots = delete_where (λ s. s.slot_id == slot.slot_id) depot.slots;
})

-- The depot after the cleanup, and the removed slots and tickets.
unfoldable pub cleanup_expired_attachments : ℕ → Depot → Depot × ℕ × ℕ
unfolding remove_slots
cleanup_expired_attachments now depot =
    let stale = select_where (is_stale now) depot.slots in
    let cleaned = remove_slots stale depot in
    let old = λ (t : Ticket). leb t.expires_at now in
    (
      record cleaned { tickets = delete_where old cleaned.tickets },
      length stale,
      count_where old cleaned.tickets,
    )
