-- ===== src/Manifest.antt =====
-- messaging/standard_sync.py: the manifest that describes a snapshot.
pub mod Totals
mod Tests
use awiki_open_server.Shared.{◌+◌, String, Option, none, some, true, List, [], ◌∷◌, ltb}
use awiki_open_server.Shared.Lists.{length}
use awiki_open_server.Shared.Json.{Value, null, bool, num, str, obj, dict, put, entries}
use awiki_open_server.Snapshot.{
  Jcs, Page, Sections, Truncation, Budget, History, max_items, max_encoded_bytes, too_many_pages,
  read_states, groups, recent_plain_messages, unexpired_system_notifications, max_package_items,
  max_package_bytes, max_pages, to_items,
}

abbrev truncation_value : Option Truncation → Value
truncation_value none = null
truncation_value (some max_items) = str "max_items"
truncation_value (some max_encoded_bytes) = str "max_encoded_bytes"
truncation_value (some too_many_pages) = str "max_pages"

abbrev seq_value : Option Value → Value
seq_value none = null
seq_value (some v) = v

unfoldable pub history_policy : History → Value
history_policy h = dict (
    ("selection", str "newest_complete_suffix")
    ∷ ("returned_items", num h.returned_items)
    ∷ ("returned_encoded_bytes", num h.returned_encoded_bytes)
    ∷ ("returned_pages", num h.returned_pages)
    ∷ ("oldest_included_event_seq", seq_value h.oldest_included_event_seq)
    ∷ ("excluded_older_messages", num h.excluded_older_messages)
    ∷ ("older_history_excluded", bool (ltb 0 h.excluded_older_messages))
    ∷ ("truncation_reason", truncation_value h.truncation_reason)
    ∷ ("complete_within_policy", bool true)
    ∷ [])

unfoldable pub recovery_budget : Budget → Value
recovery_budget b = dict (
    ("max_items", num max_package_items)
    ∷ ("max_encoded_bytes", num max_package_bytes)
    ∷ ("max_pages", num max_pages)
    ∷ ("required_state_items", num b.required_state_items)
    ∷ ("required_state_encoded_bytes", num b.required_state_encoded_bytes)
    ∷ ("required_state_pages", num b.required_state_pages)
    ∷ [])

pub record Cursor : Type 0 where
  pub stream_epoch : String
  pub scan_seq : String

abbrev pub cursor_value : Cursor → Value
cursor_value c = dict (("stream_epoch", str c.stream_epoch) ∷ ("scan_seq", str c.scan_seq) ∷ [])

abbrev pub package_value : Sections → Value
package_value sections = dict (
    ("read_states", to_items (sections read_states))
    ∷ ("groups", to_items (sections groups))
    ∷ ("recent_plain_messages", to_items (sections recent_plain_messages))
    ∷ ("unexpired_system_notifications", to_items (sections unexpired_system_notifications))
    ∷ [])

module _ (jcs : Jcs) where
  abbrev pub section_entry : List Value → Value
  section_entry items =
      dict (("item_count", num (length items)) ∷ ("digest", str (jcs.digest (to_items items))) ∷ [])

  abbrev pub sections_value : Sections → Value
  sections_value sections = dict (
      ("read_states", section_entry (sections read_states))
      ∷ ("groups", section_entry (sections groups))
      ∷ ("recent_plain_messages", section_entry (sections recent_plain_messages))
      ∷ ("unexpired_system_notifications", section_entry (sections unexpired_system_notifications))
      ∷ [])

  -- The manifest without its own digest.
  unfoldable pub manifest_body :
      String → Cursor → Sections → List Page → Budget → History → String → Value
  unfolding history_policy recovery_budget
  manifest_body frozen_at cursor sections pages budget history cutoff = dict (
      ("manifest_schema", num 1)
      ∷ ("frozen_at", str frozen_at)
      ∷ ("snapshot_cursor", cursor_value cursor)
      ∷ ("sections", sections_value sections)
      ∷ ("recovery_budget", recovery_budget budget)
      ∷ ("history_policy", history_policy history)
      ∷ (
        "message_policy",
        dict (("server_cutoff", str cutoff) ∷ ("selection", str "ordinary_plain_only") ∷ []),
      )
      ∷ (
        "system_notification_policy",
        dict (
            ("scope", str "exact_device_unexpired")
            ∷ ("complete_through_scan_seq", str cursor.scan_seq)
            ∷ ("complete", bool true)
            ∷ []),
      )
      ∷ (
        "excluded",
        dict (("e2ee_messages", bool true) ∷ ("plain_messages_before_cutoff", bool true) ∷ []),
      )
      ∷ (
        "total_items",
        num (
            length (sections read_states)
            + length (sections groups)
            + length (sections recent_plain_messages)
            + length (sections unexpired_system_notifications)),
      )
      ∷ ("total_encoded_bytes", num (jcs.size (package_value sections)))
      ∷ ("total_pages", num (length pages))
      ∷ [])

  unfoldable pub build_manifest :
      String → Cursor → Sections → List Page → Budget → History → String → Value
  unfolding manifest_body
  build_manifest frozen_at cursor sections pages budget history cutoff =
      let body = manifest_body frozen_at cursor sections pages budget history cutoff in
      obj (put "manifest_digest" (str (jcs.digest body)) (entries body))
