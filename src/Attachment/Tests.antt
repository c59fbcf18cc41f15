-- ===== src/Attachment/Tests.antt =====
-- An upload of three bytes that is committed.
use awiki_open_server.Shared.{
  ℕ, String, ◌≡◌, ◌≢◌, refl, sym, ap, ◌∙◌, true, false, none, some, [], ◌∷◌, ok, ◌⊎◌, ◌↔◌, inl, inr,
  eq_iff, false≢true,
}
use awiki_open_server.Shared.Table.{first_where}
use awiki_open_server.Attachment.{
  Bytes, Slot, StoredObject, Depot, Limits, CommitRequest, uploaded, open_slot, committed, aborted,
  set_status, unlink, is_expired, is_committed, attachment_abort, upload_path, final_path,
  upload_slot, attachment_commit, read_bytes, cleanup_expired_attachments, is_named, object_of,
  store_object, check_claim, check_content, commit_slot,
}
use awiki_open_server.Attachment.Committed.{IsStored, attachment_commit-IsStored}
use awiki_open_server.Attachment.Lifecycle.{DepotRun, done, step, aborts, cleans, committed_once}
use awiki_open_server.Attachment.Cleanup.{IsKeyed, cleanup_keeps_committed}
use mathlib.Core.List.Memᴰ
use mathlib.Core.List.{Memᴰ}

abbrev limits : Limits
limits = record {
  max_attachment_bytes = 10;
  allowed_mime_types = "text/plain" ∷ [];
  sha256 = λ bytes. "d1";
}

abbrev slot : Slot
slot = record {
  slot_id = "slot-1";
  object_id = "obj-1";
  attachment_id = "att-1";
  object_uri = "https://a.example/objects/obj-1";
  owner_did = "did:wba:ann";
  upload_token = "up-1";
  commit_token = "commit-1";
  path = upload_path "obj-1";
  status = uploaded;
  expected_size = some 3;
  expected_sha256 = some "d1";
  expected_content_type = some "text/plain";
  expires_at = some 100;
  created_at = 1;
}

abbrev depot : Depot
depot = record {
  slots = slot ∷ [];
  objects = [];
  tickets = [];
  files = record { path = upload_path "obj-1"; data_bytes = 1 ∷ 2 ∷ 3 ∷ [] } ∷ [];
}

abbrev request : CommitRequest
request = record {
  encrypted = false;
  slot_id = "slot-1";
  commit_token = "commit-1";
  claim = none;
  content_type = none;
}

abbrev object : StoredObject
object = object_of limits 50 slot (1 ∷ 2 ∷ 3 ∷ []) "text/plain"

abbrev after : Depot
after = store_object object slot (1 ∷ 2 ∷ 3 ∷ []) depot

commits : attachment_commit limits "did:wba:ann" 50 request depot ≡ ok (object, after)
unfolding attachment_commit commit_slot check_content check_claim
commits = refl

attachment_commit-IsStored_example :
    (s : Slot) × (first_where (is_named "did:wba:ann" request) depot.slots ≡ some s)
    × IsStored limits 50 s object depot after
attachment_commit-IsStored_example =
    attachment_commit-IsStored limits "did:wba:ann" 50 request depot after object commits

-- The owner aborts the upload after the commit, and a cleanup follows.
abbrev aborted_depot : Depot
aborted_depot = record after {
  files = unlink (upload_path "obj-1") after.files;
  slots = set_status "slot-1" aborted after.slots;
}

aborts_well : attachment_abort "did:wba:ann" "slot-1" after ≡ ok aborted_depot
unfolding attachment_abort
aborts_well = refl

abbrev last : Depot
unfolding cleanup_expired_attachments
last = (cleanup_expired_attachments 50 aborted_depot).0

abbrev two_calls : DepotRun "slot-1" after last
unfolding cleanup_expired_attachments
two_calls = step (step done (aborts "did:wba:ann" "slot-1" aborted_depot aborts_well)) (cleans 50)

committed_once_example :
    ((limits' : Limits) (now' : ℕ) (token : String) (bytes : Bytes) (later : Depot)
      → upload_slot limits' now' "slot-1" token bytes last ≢ ok later)
    × ((limits' : Limits) (owner' : String) (now' : ℕ) (again : CommitRequest)
          (other : StoredObject) (later : Depot)
        → again.slot_id ≡ "slot-1"
        → attachment_commit limits' owner' now' again last ≢ ok (other, later))
committed_once_example =
    committed_once limits "did:wba:ann" 50 request depot after last object commits two_calls

-- Beside the committed slot there is one that was never uploaded to.
abbrev two_slots : Depot
two_slots = record after {
  slots =
      record slot { status = committed }
      ∷ record slot {
        slot_id = "slot-2";
        object_id = "obj-2";
        path = upload_path "obj-2";
        status = open_slot;
      }
      ∷ [];
}

two_slots-IsKeyed : IsKeyed two_slots.slots
two_slots-IsKeyed a b m n same = elim (Memᴰ.cases_cons m) [
  | inl e ↦ elim (Memᴰ.cases_cons n) [
    | inl f ↦ e ∙ sym f
    | inr f ↦ differ (sym (id_of e) ∙ same ∙ id_of (Memᴰ.eq_of_singleton f))
  ]
  | inr e ↦ elim (Memᴰ.cases_cons n) [
    | inl f ↦ differ (sym (id_of f) ∙ sym same ∙ id_of (Memᴰ.eq_of_singleton e))
    | inr f ↦ Memᴰ.eq_of_singleton e ∙ sym (Memᴰ.eq_of_singleton f)
  ]
]
  where
    id_of : {x y : Slot} → x ≡ y → x.slot_id ≡ y.slot_id
    id_of e = ap (λ (s : Slot). s.slot_id) e

    differ : {x y : Slot} → ◌≡◌ {A = String} "slot-1" "slot-2" → x ≡ y
    differ e = absurd (false≢true ((eq_iff "slot-1" "slot-2").1 e))

cleanup_keeps_committed_example :
    ((s : Slot)
      → (Memᴰ s (cleanup_expired_attachments 200 two_slots).0.slots ↔ (
          Memᴰ s two_slots.slots
          × ((is_expired 200 s.expires_at ≡ false) ⊎ (is_committed s.status ≡ true)))))
    × ((id : String)
        → read_bytes (final_path id) (cleanup_expired_attachments 200 two_slots).0.files
          ≡ read_bytes (final_path id) after.files)
    × ((cleanup_expired_attachments 200 two_slots).0.objects ≡ object ∷ [])
cleanup_keeps_committed_example =
    cleanup_keeps_committed 200 two_slots two_slots-IsKeyed (("obj-1", refl), (("obj-2", refl), tt))
