-- ===== src/Snapshot/Pages.antt =====
-- What the pages of a snapshot hold: every item once, in order, on pages within the limits.
use awiki_open_server.Shared.{
  ℕ, zero, suc, ◌+◌, ◌≤◌, ◌≡◌, refl, sym, ap, subst, ◌∙◌, List, [], ◌∷◌, ◌++◌, append_assoc, ltb,
  arith, Result, ok, >>=-eq-ok, raise_if-eq-ok,
}
use awiki_open_server.Shared.Lists.{length, sum_by, All, All-append}
use awiki_open_server.Shared.Json.{Value}
use awiki_open_server.Snapshot.{
  Jcs, Page, Section, Sections, max_page_items, max_page_bytes, max_pages, too_large, encoded_size,
  fill_page, paginate_items, section_order, paginate_each, paginate_nonempty_sections,
  paginate_sections, or_empty_page,
}
use awiki_open_server.Snapshot.Chunks.{
  Fits, fill, fill-IsFilling, fill-append, length-fill, length-fill_pos, All-fill, chunks,
  all_chunks, append_pages_inv, append_pages-ok, paginate_each-chunks,
}

-- An item with the section that it stands in.
abbrev pub tag : Section → List Value → List (Section × Value)
tag section [] = []
tag section (v ∷ vs) = (section, v) ∷ tag section vs

-- The items on pages, in the order in which a client reads them.
abbrev pub page_rows : List Page → List (Section × Value)
page_rows [] = []
page_rows (p ∷ ps) = tag p.section p.items ++ page_rows ps

-- The items of the sections, in the order of the sections.
abbrev pub section_rows : List Section → Sections → List (Section × Value)
section_rows [] sections = []
section_rows (name ∷ names) sections = tag name (sections name) ++ section_rows names sections

tag-append : (s : Section) (xs ys : List Value) → tag s (xs ++ ys) ≡ tag s xs ++ tag s ys
tag-append s [] ys = refl
tag-append s (x ∷ xs) ys = ap (◌∷◌ (s, x)) (tag-append s xs ys)

page_rows-append : (ps qs : List Page) → page_rows (ps ++ qs) ≡ page_rows ps ++ page_rows qs
page_rows-append [] qs = refl
page_rows-append (p ∷ ps) qs =
    ap (λ rows. tag p.section p.items ++ rows) (page_rows-append ps qs)
    ∙ sym (append_assoc (tag p.section p.items) (page_rows ps) (page_rows qs))

module _ (jcs : Jcs) where
  ok-injective : {a b : List Page} → ◌≡◌ {A = Result (List Page)} (ok a) (ok b) → a ≡ b
  ok-injective h = cc

  pub record IsWithinLimits (p : Page) : Type 0 where
    pub some_item : 1 ≤ length p.items
    pub items_bound : length p.items ≤ max_page_items
    pub bytes_bound : p.returned_encoded_bytes ≤ max_page_bytes
    pub bytes_exact : p.returned_encoded_bytes ≡ sum_by jcs.size p.items

  page_rows-chunks :
      (fuel : ℕ) (s : Section) (items : List Value)
      → length items ≤ fuel
      → page_rows (chunks jcs fuel s items) ≡ tag s items
  unfolding chunks
  page_rows-chunks zero s [] h = refl
  page_rows-chunks zero s (item ∷ rest) h = absurd (omega arith)
  page_rows-chunks (suc fuel) s [] h = refl
  page_rows-chunks (suc fuel) s (item ∷ rest) h =
      let (batch, encoded, later) = fill jcs (item ∷ rest) [] 0 in
      ap (λ rows. tag s batch ++ rows)
        (page_rows-chunks fuel s later (omega (arith, length-fill jcs item rest)))
      ∙ sym (tag-append s batch later)
      ∙ ap (tag s) (fill-append jcs (item ∷ rest) [] 0)

  page_rows-all_chunks :
      (names : List Section) (sections : Sections)
      → page_rows (all_chunks jcs names sections) ≡ section_rows names sections
  unfolding all_chunks
  page_rows-all_chunks [] sections = refl
  page_rows-all_chunks (name ∷ names) sections =
      page_rows-append (chunks jcs (length (sections name)) name (sections name))
        (all_chunks jcs names sections)
      ∙ ap (λ rows. rows ++ page_rows (all_chunks jcs names sections))
          (page_rows-chunks (length (sections name)) name (sections name) (omega arith))
      ∙ ap (λ rows. tag name (sections name) ++ rows) (page_rows-all_chunks names sections)

  chunks-IsWithinLimits :
      (fuel : ℕ) (s : Section) (items : List Value)
      → All (Fits jcs) items
      → All IsWithinLimits (chunks jcs fuel s items)
  unfolding chunks
  chunks-IsWithinLimits zero s items h = tt
  chunks-IsWithinLimits (suc fuel) s [] h = tt
  chunks-IsWithinLimits (suc fuel) s (item ∷ rest) h =
      let v = fill-IsFilling jcs (item ∷ rest) [] 0 h (record {
        items_bound = omega arith;
        bytes_bound = omega arith;
        bytes_exact = omega arith;
      }) in
      (
        record {
          some_item = length-fill_pos jcs item rest;
          items_bound = v.items_bound;
          bytes_bound = v.bytes_bound;
          bytes_exact = v.bytes_exact;
        },
        chunks-IsWithinLimits fuel s (fill jcs (item ∷ rest) [] 0).2
            (All-fill jcs (item ∷ rest) [] 0 h),
      )

  all_chunks-IsWithinLimits :
      (names : List Section) (sections : Sections)
      → All (λ name. All (Fits jcs) (sections name)) names
      → All IsWithinLimits (all_chunks jcs names sections)
  unfolding all_chunks
  all_chunks-IsWithinLimits [] sections h = tt
  all_chunks-IsWithinLimits (name ∷ names) sections h =
      All-append IsWithinLimits (chunks jcs (length (sections name)) name (sections name))
        (all_chunks jcs names sections)
        (chunks-IsWithinLimits (length (sections name)) name (sections name) h.0)
        (all_chunks-IsWithinLimits names sections h.1)

  Fits-of_size :
      (item : Value) (n : ℕ) → encoded_size jcs item ≡ ok n → Fits jcs item × (n ≡ jcs.size item)
  unfolding encoded_size
  Fits-of_size item n h = ground arith

  -- Where pages come back, no item was too large.
  fill_page-Fits :
      (items batch : List Value) (encoded : ℕ) (out : List Value × ℕ × List Value)
      → fill_page jcs items batch encoded ≡ ok out
      → All (Fits jcs) out.2
      → All (Fits jcs) items
  unfolding fill_page encoded_size
  fill_page-Fits [] batch encoded out e h = tt
  fill_page-Fits (item ∷ rest) batch encoded out e h =
      ground (arith, fill_page-Fits rest (batch ++ item ∷ []) (encoded + jcs.size item) out)

  fill_page-length :
      (items batch : List Value) (encoded : ℕ) (out : List Value × ℕ × List Value)
      → fill_page jcs items batch encoded ≡ ok out
      → length out.2 ≤ length items
  unfolding fill_page encoded_size
  fill_page-length [] batch encoded out e = ground arith
  fill_page-length (item ∷ rest) batch encoded out e =
      ground (arith, fill_page-length rest (batch ++ item ∷ []) (encoded + jcs.size item) out)

  fill_page-rest :
      (item : Value) (rest : List Value) (out : List Value × ℕ × List Value)
      → fill_page jcs (item ∷ rest) [] 0 ≡ ok out
      → length out.2 ≤ length rest
  unfolding fill_page encoded_size
  fill_page-rest item rest out e =
      ground (arith, fill_page-length rest (item ∷ []) (0 + jcs.size item) out)

  paginate_items-Fits :
      (fuel : ℕ) (s : Section) (items : List Value) (pages out : List Page)
      → length items ≤ fuel
      → paginate_items jcs fuel s items pages ≡ ok out
      → All (Fits jcs) items
  unfolding paginate_items
  paginate_items-Fits zero s [] pages out h e = tt
  paginate_items-Fits zero s (item ∷ rest) pages out h e = absurd (omega arith)
  paginate_items-Fits (suc fuel) s [] pages out h e = tt
  paginate_items-Fits (suc fuel) s (item ∷ rest) pages out h e =
      let (page, filled, later) = >>=-eq-ok (fill_page jcs (item ∷ rest) [] 0) _ out e in
      let (within, made) = raise_if-eq-ok _ too_large _ out later in
      fill_page-Fits (item ∷ rest) [] 0 page filled (
        paginate_items-Fits fuel s page.2 _ out
          (omega (arith, fill_page-rest item rest page filled)) made)

  paginate_each-Fits :
      (names : List Section) (sections : Sections) (pages out : List Page)
      → paginate_each jcs names sections pages ≡ ok out
      → All (λ name. All (Fits jcs) (sections name)) names
  unfolding paginate_each
  paginate_each-Fits [] sections pages out e = tt
  paginate_each-Fits (name ∷ names) sections pages out e =
      let (made, first, later) =
        >>=-eq-ok (paginate_items jcs (length (sections name)) name (sections name) pages) _ out
          e in
      (
        paginate_items-Fits (length (sections name)) name (sections name) pages made (omega arith)
            first,
        paginate_each-Fits names sections made out later,
      )

  -- Pages that come back are the pages that the greedy cut makes of items that all fit.
  pub paginate_nonempty_inv :
      (sections : Sections) (out : List Page)
      → paginate_nonempty_sections jcs sections ≡ ok out
      → All (λ name. All (Fits jcs) (sections name)) section_order
        × (out ≡ all_chunks jcs section_order sections)
        × (length out ≤ max_pages)
  unfolding paginate_nonempty_sections
  paginate_nonempty_inv sections out e =
      let fits = paginate_each-Fits section_order sections [] out e in
      let (same, bound) =
        append_pages_inv jcs [] (all_chunks jcs section_order sections) out
          (sym (paginate_each-chunks jcs section_order sections [] fits) ∙ e) (omega arith) in
      (fits, same, bound)

  pub paginate_nonempty_of_Fits :
      (sections : Sections)
      → All (λ name. All (Fits jcs) (sections name)) section_order
      → length (all_chunks jcs section_order sections) ≤ max_pages
      → paginate_nonempty_sections jcs sections ≡ ok (all_chunks jcs section_order sections)
  unfolding paginate_nonempty_sections
  paginate_nonempty_of_Fits sections fits bound =
      paginate_each-chunks jcs section_order sections [] fits
      ∙ append_pages-ok jcs [] (all_chunks jcs section_order sections) (omega arith)

  -- A page that a client may be sent: at most 100 items and 1 MiB, with its bytes counted right.
  pub record IsPage (p : Page) : Type 0 where
    pub items_bound : length p.items ≤ max_page_items
    pub bytes_bound : p.returned_encoded_bytes ≤ max_page_bytes
    pub bytes_exact : p.returned_encoded_bytes ≡ sum_by jcs.size p.items

  IsPages : (ps : List Page) → All IsWithinLimits ps → All IsPage ps
  IsPages [] h = tt
  IsPages (p ∷ ps) h = (
    record {
      items_bound = h.0.items_bound;
      bytes_bound = h.0.bytes_bound;
      bytes_exact = h.0.bytes_exact;
    },
    IsPages ps h.1,
  )

  -- What a client can rely on of the pages of a snapshot: they hold the items of its sections,
  -- each once and in the order of the sections; there are 1 to 100 of them, and each is within the
  -- limits of a page.
  pub record IsPaged (sections : Sections) (out : List Page) : Type 0 where
    pub rows : page_rows out ≡ section_rows section_order sections
    pub some_page : 1 ≤ length out
    pub pages_bound : length out ≤ max_pages
    pub pages : All IsPage out

  or_empty_page-IsPaged :
      (sections : Sections) (made : List Page)
      → made ≡ all_chunks jcs section_order sections
      → All IsWithinLimits made
      → length made ≤ max_pages
      → IsPaged sections (or_empty_page made)
  or_empty_page-IsPaged sections [] same within bound = record {
    rows = ap page_rows same ∙ page_rows-all_chunks section_order sections;
    some_page = omega arith;
    pages_bound = omega arith;
    pages =
        (record { items_bound = omega arith; bytes_bound = omega arith; bytes_exact = refl }, tt);
  }
  or_empty_page-IsPaged sections (p ∷ ps) same within bound = record {
    rows = ap page_rows same ∙ page_rows-all_chunks section_order sections;
    some_page = omega arith;
    pages_bound = bound;
    pages = IsPages (p ∷ ps) within;
  }

  -- paginate_sections, where it raises nothing, returns pages that hold each item of the sections
  -- once and in order: 1 to 100 pages, each of at most 100 items and 1 MiB with its bytes counted
  -- right.
  pub paginate_sections_sound :
      (sections : Sections) (out : List Page)
      → paginate_sections jcs sections ≡ ok out
      → IsPaged sections out
  unfolding paginate_sections
  paginate_sections_sound sections out e =
      let (made, first, later) = >>=-eq-ok (paginate_nonempty_sections jcs sections) _ out e in
      let (fits, same, bound) = paginate_nonempty_inv sections made first in
      let within =
        subst (All IsWithinLimits) (sym same)
          (all_chunks-IsWithinLimits section_order sections fits) in
      subst (IsPaged sections)
        (ok-injective
          (raise_if-eq-ok (ltb max_pages (length (or_empty_page made))) too_large
            (ok (or_empty_page made)) out later).1)
        (or_empty_page-IsPaged sections made same within bound)
