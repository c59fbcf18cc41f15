-- ===== src/Manifest/Totals.antt =====
-- The totals of a manifest and the pages that it describes.
use awiki_open_server.Shared.{ℕ, ◌+◌, String, ◌≡◌, refl, ap, List, [], ◌∷◌, arith, ok}
use awiki_open_server.Shared.Lists.{length, length-append, sum_by}
use awiki_open_server.Shared.Json.{Value, num, get, entries}
use awiki_open_server.Snapshot.{
  Jcs, Page, Section, Sections, Budget, History, section_order, paginate_sections, read_states,
  groups, recent_plain_messages, unexpired_system_notifications,
}
use awiki_open_server.Snapshot.Pages.{paginate_sections_sound, page_rows, section_rows, tag}
use awiki_open_server.Manifest.{Cursor, build_manifest, manifest_body}

length-tag : (s : Section) (vs : List Value) → length (tag s vs) ≡ length vs
length-tag s [] = refl
length-tag s (v ∷ vs) = omega (arith, length-tag s vs)

length-page_rows : (ps : List Page) → length (page_rows ps) ≡ sum_by (λ p. length p.items) ps
length-page_rows [] = refl
length-page_rows (p ∷ ps) = omega (
  arith,
  length-append (tag p.section p.items) (page_rows ps),
  length-tag p.section p.items,
  length-page_rows ps,
)

length-section_rows :
    (names : List Section) (sections : Sections)
    → length (section_rows names sections) ≡ sum_by (λ name. length (sections name)) names
length-section_rows [] sections = refl
length-section_rows (name ∷ names) sections = omega (
  arith,
  length-append (tag name (sections name)) (section_rows names sections),
  length-tag name (sections name),
  length-section_rows names sections,
)

-- The manifest of a snapshot and of the pages that paginate_sections made of it names the number of
-- items that the pages hold, and the number of pages.
pub build_manifest_totals :
    (jcs : Jcs) (frozen_at : String) (cursor : Cursor) (sections : Sections) (pages : List Page)
    (budget : Budget) (history : History) (cutoff : String)
    → paginate_sections jcs sections ≡ ok pages
    → let manifest =
        entries (build_manifest jcs frozen_at cursor sections pages budget history cutoff) in
      (get manifest "total_items" ≡ num (sum_by (λ p. length p.items) pages))
      × (get manifest "total_pages" ≡ num (length pages))
unfolding build_manifest manifest_body
build_manifest_totals jcs frozen_at cursor sections pages budget history cutoff h =
    let paged = paginate_sections_sound jcs sections pages h in
    let total : length (sections read_states)
          + length (sections groups)
          + length (sections recent_plain_messages)
          + length (sections unexpired_system_notifications)
        ≡ sum_by (λ (p : Page). length p.items) pages =
      omega (
        arith,
        length-page_rows pages,
        length-section_rows section_order sections,
        ap (λ (rows : List (Section × Value)). length rows) paged.rows,
      ) in
    (ap (λ (n : ℕ). num n) total, refl)
