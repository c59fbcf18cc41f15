-- ===== src/Attachment/Cleanup.antt =====
-- What a cleanup of expired uploads removes, and what it keeps.
use mathlib.Core.List.Memᴰ
use mathlib.Core.List.{Memᴰ}
use awiki_open_server.Shared.{
  ℕ, String, ◌≡◌, ◌≢◌, refl, sym, ap, subst, ◌∙◌, Bool, true, false, not, ◌⊎◌, List, [], ◌∷◌,
  Bool-cases, inl, inr, arith, ◌==◌, eq_iff, false≢true, ◌↔◌,
}
use awiki_open_server.Shared.Lists.{All}
use awiki_open_server.Shared.Table.{select_where, delete_where, mem_of_mem-select_where}
use awiki_open_server.Attachment.{
  Slot, Depot, File, ObjectPath, upload_path, final_path, same_path, read_bytes, unlink, is_expired,
  is_committed, is_stale, remove_slots, cleanup_expired_attachments,
}

-- The slots of the table keep their files under upload names, as attachment_create_slot gives them.
abbrev pub IsUploadPath : Slot → Type 0
IsUploadPath slot = (id : String) × (slot.path ≡ upload_path id)

disjoint :
    (p : ObjectPath) (u id : String)
    → same_path p (upload_path u) ≡ true
    → same_path p (final_path id) ≡ false
disjoint (upload_path a) u id h = refl
disjoint (final_path a) u id h = cc

-- Removing an upload leaves the objects readable.
read-unlink :
    (id u : String) (files : List File)
    → read_bytes (final_path id) (unlink (upload_path u) files) ≡ read_bytes (final_path id) files
read-unlink id u [] = refl
read-unlink id u (f ∷ files) = elim (Bool-cases (same_path f.path (upload_path u))) [
  | inl e ↦ rw e (rw (disjoint f.path u id e) (read-unlink id u files))
  | inr e ↦ elim (Bool-cases (same_path f.path (final_path id))) [
    | inl g ↦ rw e (rw g refl)
    | inr g ↦ rw e (rw g (read-unlink id u files))
  ]
]

read-unlink_slot :
    (id : String) (slot : Slot) (files : List File)
    → IsUploadPath slot
    → read_bytes (final_path id) (unlink slot.path files) ≡ read_bytes (final_path id) files
read-unlink_slot id slot files h =
    subst
      (λ (p : ObjectPath).
        read_bytes (final_path id) (unlink p files) ≡ read_bytes (final_path id) files)
      (sym h.1) (read-unlink id h.0 files)

read-remove_slots :
    (id : String) (stale : List Slot) (depot : Depot)
    → All IsUploadPath stale
    → (read_bytes (final_path id) (remove_slots stale depot).files
        ≡ read_bytes (final_path id) depot.files)
      × ((remove_slots stale depot).objects ≡ depot.objects)
unfolding remove_slots
read-remove_slots id [] depot h = (refl, refl)
read-remove_slots id (slot ∷ rest) depot h =
    let (files, objects) =
      read-remove_slots id rest
        (record depot {
          files = unlink slot.path depot.files;
          slots = delete_where (λ s. s.slot_id == slot.slot_id) depot.slots;
        })
        h.1 in
    (files ∙ read-unlink_slot id slot depot.files h.0, objects)

All-select_where :
    (test : Slot → Bool) (slots : List Slot)
    → All IsUploadPath slots
    → All IsUploadPath (select_where test slots)
All-select_where test [] h = tt
All-select_where test (s ∷ slots) h = elim (Bool-cases (test s)) [
  | inl e ↦ rw e (h.0, All-select_where test slots h.1)
  | inr e ↦ rw e (All-select_where test slots h.1)
]

-- slot_id is the primary key of the table.
abbrev pub IsKeyed : List Slot → Type 0
IsKeyed slots = (a b : Slot) → Memᴰ a slots → Memᴰ b slots → a.slot_id ≡ b.slot_id → a ≡ b

abbrev removed : Slot → Depot → Depot
removed slot depot = record depot {
  files = unlink slot.path depot.files;
  slots = delete_where (λ s. s.slot_id == slot.slot_id) depot.slots;
}

mem-select_where :
    (test : Slot → Bool) (slots : List Slot) (slot : Slot)
    → Memᴰ slot slots
    → test slot ≡ true
    → Memᴰ slot (select_where test slots)
mem-select_where test [] slot m e = m
mem-select_where test (s ∷ slots) slot m e = elim (Memᴰ.cases_cons m) [
  | inl same ↦ rw (subst (λ (x : Slot). test x ≡ true) same e) (Memᴰ.head same)
  | inr later ↦
      let rest = mem-select_where test slots slot later e in
      elim (Bool-cases (test s)) [ inl f ↦ rw f (Memᴰ.tail rest) | inr f ↦ rw f rest ]
]

-- A slot is there after the removal of others where it was before and is none of them.
mem-remove_slots :
    (stale : List Slot) (depot : Depot) (slot : Slot)
    → Memᴰ slot depot.slots
    → ((t : Slot) → Memᴰ t stale → slot.slot_id ≢ t.slot_id)
    → Memᴰ slot (remove_slots stale depot).slots
unfolding remove_slots
mem-remove_slots [] depot slot m other = m
mem-remove_slots (t ∷ rest) depot slot m other =
    mem-remove_slots rest (removed t depot) slot
      (mem-select_where (λ s. not (s.slot_id == t.slot_id)) depot.slots slot m
        (ground (arith, eq_iff slot.slot_id t.slot_id, other t (Memᴰ.head refl))))
      (λ u k. other u (Memᴰ.tail k))

mem_of_mem-remove_slots :
    (stale : List Slot) (depot : Depot) (slot : Slot)
    → Memᴰ slot (remove_slots stale depot).slots
    → Memᴰ slot depot.slots × ((t : Slot) → Memᴰ t stale → slot.slot_id ≢ t.slot_id)
unfolding remove_slots
mem_of_mem-remove_slots [] depot slot m = (m, λ t k. absurd (Memᴰ.not-nil k))
mem_of_mem-remove_slots (t ∷ rest) depot slot m =
    let (later, other) = mem_of_mem-remove_slots rest (removed t depot) slot m in
    let (here, apart) =
      mem_of_mem-select_where (λ s. not (s.slot_id == t.slot_id)) depot.slots slot later in
    (
      here,
      λ u k same. elim (Memᴰ.cases_cons k) [
        | inl e ↦
            let named = (eq_iff slot.slot_id t.slot_id).1 (same ∙ ap (λ (s : Slot). s.slot_id) e) in
            absurd (false≢true (ground arith))
        | inr l ↦ other u l same
      ],
    )

-- A cleanup removes exactly the slots whose time is over and that are not committed: a slot is there
-- afterwards where it was before and has not expired or is committed. Where the slots keep their
-- files under upload names, the table of objects stays, and every object's file reads back as before.
pub cleanup_keeps_committed :
    (now : ℕ) (depot : Depot)
    → IsKeyed depot.slots
    → All IsUploadPath depot.slots
    → let after = (cleanup_expired_attachments now depot).0 in
      ((slot : Slot)
        → (Memᴰ slot after.slots ↔ (
            Memᴰ slot depot.slots
            × ((is_expired now slot.expires_at ≡ false) ⊎ (is_committed slot.status ≡ true)))))
      × ((id : String)
          → read_bytes (final_path id) after.files ≡ read_bytes (final_path id) depot.files)
      × (after.objects ≡ depot.objects)
unfolding cleanup_expired_attachments
cleanup_keeps_committed now depot k h =
    let stale = select_where (is_stale now) depot.slots in
    let paths = All-select_where (is_stale now) depot.slots h in
    (
      λ slot. (
        λ m.
            let (here, other) = mem_of_mem-remove_slots stale depot slot m in
            (
              here,
              elim (Bool-cases (is_stale now slot)) [
                | inl e ↦
                    absurd
                      (other slot (mem-select_where (is_stale now) depot.slots slot here e) refl)
                | inr e ↦ fresh slot e
              ],
            ),
        λ (m, kept). mem-remove_slots stale depot slot m (λ t n same.
            let (there, old) = mem_of_mem-select_where (is_stale now) depot.slots t n in
            let old_slot =
              subst (λ (x : Slot). is_stale now x ≡ true) (sym (k slot t m there same)) old in
            still slot old_slot kept),
      ),
      λ id. (read-remove_slots id stale depot paths).0,
      (read-remove_slots "" stale depot paths).1,
    )
  where
    fresh :
        (slot : Slot)
        → is_stale now slot ≡ false
        → (is_expired now slot.expires_at ≡ false) ⊎ (is_committed slot.status ≡ true)
    fresh slot e = elim (Bool-cases (is_committed slot.status)) [
      | inl c ↦ inr c
      | inr c ↦ inl (ground arith)
    ]

    still :
        (slot : Slot)
        → is_stale now slot ≡ true
        → (is_expired now slot.expires_at ≡ false) ⊎ (is_committed slot.status ≡ true)
        → ⊥
    still slot e (inl f) = absurd (false≢true (ground arith))
    still slot e (inr c) = absurd (false≢true (ground arith))
