-- ===== src/Manifest/Tests.antt =====
-- The manifest of one group.
use awiki_open_server.Shared.{◌≡◌, refl, none, List, [], ◌∷◌, ok}
use awiki_open_server.Shared.Json.{str, num, get, entries}
use awiki_open_server.Snapshot.{
  Jcs, Page, Sections, Budget, History, groups, paginate_sections, fill_page,
}
use awiki_open_server.Manifest.{Cursor, build_manifest}
use awiki_open_server.Manifest.Totals.{build_manifest_totals}

abbrev jcs : Jcs
jcs = record { size = λ value. 10; digest = λ value. "sha256:" }

abbrev sections : Sections
sections groups = str "g" ∷ str "h" ∷ []
sections _ = []

abbrev pages : List Page
pages =
    record { section = groups; items = str "g" ∷ str "h" ∷ []; returned_encoded_bytes = 20 } ∷ []

abbrev budget : Budget
budget = record {
  required_state_items = 2;
  required_state_encoded_bytes = 20;
  required_state_pages = 1;
}

abbrev history : History
history = record {
  returned_items = 0;
  returned_encoded_bytes = 0;
  returned_pages = 0;
  oldest_included_event_seq = none;
  excluded_older_messages = 0;
  truncation_reason = none;
}

abbrev cursor : Cursor
cursor = record { stream_epoch = "1"; scan_seq = "9" }

paged : paginate_sections jcs sections ≡ ok pages
unfolding paginate_sections fill_page
paged = refl

build_manifest_totals_example :
    (get (entries (build_manifest jcs "t" cursor sections pages budget history "c")) "total_items"
      ≡ num 2)
    × (get (entries (build_manifest jcs "t" cursor sections pages budget history "c")) "total_pages"
        ≡ num 1)
build_manifest_totals_example =
    build_manifest_totals jcs "t" cursor sections pages budget history "c" paged
