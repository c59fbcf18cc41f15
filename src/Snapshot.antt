-- ===== src/Snapshot.antt =====
-- messaging/standard_sync.py: the selection of a Schema 3 snapshot and its pages. The canonical JSON
-- encoding and its digest (packages jcs and hashlib) are a parameter, `Jcs`.
pub mod Chunks
pub mod Pages
pub mod Selected
pub mod LargeHistory
mod Tests
use awiki_open_server.Shared.{
  ℕ, zero, suc, ◌+◌, ◌-◌, String, Bool, true, false, not, ◌&&◌, ◌||◌, Option, none, some, List, [],
  ◌∷◌, ◌++◌, reverse, map, if◌then◌else◌, ltb, leb, Result, ok, err, AwikiError,
  sync_protocol_error, raise_if, ◌>>=◌, ◌>>◌,
}
use awiki_open_server.Shared.Lists.{length, sum_by}
use awiki_open_server.Shared.Python.{item}
use awiki_open_server.Shared.Json
use awiki_open_server.Shared.Json.{
  Value, null, bool, num, str, arr, obj, nil, cons, dict, get, put, entries, is_dict,
}

pub data Section : Type 0 where
  read_states groups recent_plain_messages unexpired_system_notifications : Section

abbrev pub section_order : List Section
section_order = read_states ∷ groups ∷ recent_plain_messages ∷ unexpired_system_notifications ∷ []

abbrev pub section_name : Section → String
section_name read_states = "read_states"
section_name groups = "groups"
section_name recent_plain_messages = "recent_plain_messages"
section_name unexpired_system_notifications = "unexpired_system_notifications"

abbrev pub max_page_items : ℕ
max_page_items = 100

abbrev pub max_page_bytes : ℕ
max_page_bytes = 1_048_576

abbrev pub max_package_items : ℕ
max_package_items = 10_000

abbrev pub max_package_bytes : ℕ
max_package_bytes = 67_108_864

abbrev pub max_pages : ℕ
max_pages = 100

-- A dict from section names to items; a missing name stands for no items.
abbrev pub Sections : Type 0
Sections = Section → List Value

pub record Jcs : Type 0 where
  -- len(jcs_bytes(value))
  pub size : Value → ℕ
  -- sha256_digest(value)
  pub digest : Value → String

pub record Page : Type 0 where
  pub section : Section
  pub items : List Value
  pub returned_encoded_bytes : ℕ

abbrev pub too_large : AwikiError
too_large = sync_protocol_error 4222 "sync.snapshot_required_state_too_large"

abbrev pub item_too_large : AwikiError
item_too_large = sync_protocol_error 4221 "sync.snapshot_item_too_large"

abbrev pub to_items : List Value → Value
to_items vs = arr (from vs)
  where
    from : List Value → Json.Items
    from [] = nil
    from (v ∷ rest) = cons v (from rest)

pub record Budget : Type 0 where
  pub required_state_items : ℕ
  pub required_state_encoded_bytes : ℕ
  pub required_state_pages : ℕ

-- The reason for which the history was cut.
pub data Truncation : Type 0 where
  max_items max_encoded_bytes too_many_pages : Truncation

pub record History : Type 0 where
  pub returned_items : ℕ
  pub returned_encoded_bytes : ℕ
  pub returned_pages : ℕ
  pub oldest_included_event_seq : Option Value
  pub excluded_older_messages : ℕ
  pub truncation_reason : Option Truncation

pub record Selection : Type 0 where
  pub chosen : Sections
  pub budget : Budget
  pub history : History

abbrev pub is_empty : List Value → Bool
is_empty [] = true
is_empty (x ∷ xs) = false

abbrev pub only_messages : List Value → Sections
only_messages items recent_plain_messages = items
only_messages items _ = []

abbrev pub with_messages : Sections → List Value → Sections
with_messages sections messages recent_plain_messages = messages
with_messages sections messages section = sections section

-- selected_messages[0]["event"]["event_seq"] of messages in the order of the snapshot, if there is one.
unfoldable pub check_oldest : List Value → Result (Unit {0})
unfolding item
check_oldest [] = ok tt
check_oldest (m ∷ ms) = do event ← item m "event"; seq ← item event "event_seq"; ok tt

-- str(…) of it. The event_seq of an event is a text, on which str() changes nothing.
abbrev pub oldest_seq : List Value → Option Value
oldest_seq [] = none
oldest_seq (m ∷ ms) = some (get (entries (get (entries m) "event")) "event_seq")

-- if not pages: pages.append(…)
abbrev pub or_empty_page : List Page → List Page
or_empty_page [] = record { section = read_states; items = []; returned_encoded_bytes = 0 } ∷ []
or_empty_page (p ∷ ps) = p ∷ ps

-- The result of select_snapshot_package, from what its loops found.
abbrev pub selection_of :
    Sections → List Value → ℕ → ℕ → ℕ → List Value → ℕ → Option Truncation → ℕ → Selection
selection_of required messages items bytes pages taken encoded truncation message_pages = record {
  chosen = with_messages required (reverse taken);
  budget = record {
    required_state_items = items;
    required_state_encoded_bytes = bytes;
    required_state_pages = pages;
  };
  history = record {
    returned_items = length (reverse taken);
    returned_encoded_bytes = encoded;
    returned_pages = message_pages;
    oldest_included_event_seq = oldest_seq (reverse taken);
    excluded_older_messages = length messages - length (reverse taken);
    truncation_reason = truncation;
  };
}

module _ (jcs : Jcs) where
  unfoldable pub encoded_size : Value → Result ℕ
  encoded_size item =
      if ltb max_page_bytes (jcs.size item) then err item_too_large else ok (jcs.size item)

  -- The inner loop: the items of one page, their bytes, and the items that are left.
  unfoldable pub fill_page : List Value → List Value → ℕ → Result (List Value × ℕ × List Value)
  unfolding encoded_size
  fill_page [] batch encoded = ok (batch, encoded, [])
  fill_page (item ∷ rest) batch encoded =
      let more = λ (size : ℕ). fill_page rest (batch ++ item ∷ []) (encoded + size) in
      if ltb (length batch) max_page_items
      then (encoded_size item >>= λ size.
          if not (is_empty batch) && ltb max_page_bytes (encoded + size)
          then ok (batch, encoded, item ∷ rest)
          else more size)
      else ok (batch, encoded, item ∷ rest)

  -- The pages of one section behind those made so far. Each page takes an item, so the number of
  -- items is fuel enough.
  unfoldable pub paginate_items : ℕ → Section → List Value → List Page → Result (List Page)
  unfolding fill_page
  paginate_items zero section items pages = ok pages
  paginate_items (suc fuel) section [] pages = ok pages
  paginate_items (suc fuel) section (item ∷ rest) pages = do
    page ← fill_page (item ∷ rest) [] 0
    let pages' =
        pages ++ record { section = section; items = page.0; returned_encoded_bytes = page.1 } ∷ []
    raise_if (ltb max_pages (length pages')) too_large
    paginate_items fuel section page.2 pages'

  unfoldable pub paginate_each : List Section → Sections → List Page → Result (List Page)
  unfolding paginate_items
  paginate_each [] sections pages = ok pages
  paginate_each (name ∷ names) sections pages = do
    pages' ← paginate_items (length (sections name)) name (sections name) pages
    paginate_each names sections pages'

  unfoldable pub paginate_nonempty_sections : Sections → Result (List Page)
  unfolding paginate_each
  paginate_nonempty_sections sections = paginate_each section_order sections []

  unfoldable pub page_count_for_sections : Sections → Result ℕ
  unfolding paginate_nonempty_sections
  page_count_for_sections sections = do
    pages ← paginate_nonempty_sections sections
    ok (length pages)

  -- The bytes of items that are all encoded.
  unfoldable pub sized : List Value → Result ℕ
  unfolding encoded_size
  sized [] = ok 0
  sized (item ∷ rest) = do size ← encoded_size item; later ← sized rest; ok (size + later)

  -- The loop over the messages, newest first: those taken, their bytes, and why it stopped.
  unfoldable pub take_messages :
      ℕ → ℕ → ℕ → List Value → List Value → ℕ → Result (List Value × ℕ × Option Truncation)
  unfolding encoded_size page_count_for_sections
  take_messages items bytes pages [] taken encoded = ok (taken, encoded, none)
  take_messages items bytes pages (item ∷ rest) taken encoded =
      let more =
        λ (size : ℕ). take_messages items bytes pages rest (taken ++ item ∷ []) (encoded + size) in
      encoded_size item >>= λ size.
      if leb items (length taken)
      then ok (taken, encoded, some max_items)
      else if ltb bytes (encoded + size)
      then ok (taken, encoded, some max_encoded_bytes)
      else (page_count_for_sections (only_messages (reverse (taken ++ item ∷ []))) >>= λ count.
          if ltb pages count then ok (taken, encoded, some too_many_pages) else more size)

  -- select_snapshot_package behind the sizes of the required state.
  unfoldable pub select_beside : Sections → List Value → ℕ → ℕ → Result Selection
  unfolding take_messages page_count_for_sections check_oldest
  select_beside required messages required_items required_bytes = do
    raise_if (ltb max_package_items required_items || ltb max_package_bytes required_bytes)
        too_large
    required_pages ← page_count_for_sections (with_messages required [])
    raise_if (ltb max_pages required_pages) too_large
    found ←
        take_messages (max_package_items - required_items) (max_package_bytes - required_bytes)
          (max_pages - required_pages) messages [] 0
    check_oldest (reverse found.0)
    message_pages ← page_count_for_sections (only_messages (reverse found.0))
    ok (
        selection_of required messages required_items required_bytes required_pages found.0 found.1
          found.2 message_pages)

  unfoldable pub select_snapshot_package : Sections → List Value → Result Selection
  unfolding sized select_beside
  select_snapshot_package required messages = do
    read_bytes ← sized (required read_states)
    group_bytes ← sized (required groups)
    notification_bytes ← sized (required unexpired_system_notifications)
    select_beside required messages
        (length (required read_states)
          + length (required groups)
          + length (required unexpired_system_notifications))
        (read_bytes + group_bytes + notification_bytes)

  unfoldable pub paginate_sections : Sections → Result (List Page)
  unfolding paginate_nonempty_sections
  paginate_sections sections = do
    made ← paginate_nonempty_sections sections
    let pages = or_empty_page made
    raise_if (ltb max_pages (length pages)) too_large
    ok pages

  unfoldable pub decorate_pages : List Page → List Value
  decorate_pages pages =
      map
        (λ page. dict (
          ("section", str (section_name page.section))
          ∷ ("items", to_items page.items)
          ∷ ("returned_items", num (length page.items))
          ∷ ("returned_encoded_bytes", num page.returned_encoded_bytes)
          ∷ ("page_digest", str (jcs.digest (to_items page.items)))
          ∷ []))
        pages
