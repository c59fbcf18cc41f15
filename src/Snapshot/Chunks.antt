-- ===== src/Snapshot/Chunks.antt =====
-- The pages of items that are all within the page limit, with no errors: the greedy cut that the
-- loops of Snapshot make.
use mathlib.Core.Path.{fun_ext}
use awiki_open_server.Shared.{
  ℕ, zero, suc, ◌+◌, ◌≤◌, ◌≡◌, refl, sym, ap, ◌∙◌, true, not, ◌&&◌, List, [], ◌∷◌, ◌++◌,
  append_assoc, append-nil, if◌then◌else◌, ltb, Bool-cases, ltb→lt, &&-eq-true, inl, inr, arith,
  Result, ok, err, ◌>>=◌,
}
use awiki_open_server.Shared.Lists.{length, length-append, sum_by, sum_by-append, All}
use awiki_open_server.Shared.Json.{Value}
use awiki_open_server.Snapshot.{
  Jcs, Page, Section, Sections, max_page_items, max_page_bytes, max_pages, too_large, is_empty,
  encoded_size, fill_page, paginate_items, paginate_each,
}

module _ (jcs : Jcs) where
  -- An item that encoded_size accepts.
  abbrev pub Fits : Value → Type 0
  Fits item = jcs.size item ≤ max_page_bytes

  pub encoded_size-Fits : (item : Value) → Fits item → encoded_size jcs item ≡ ok (jcs.size item)
  unfolding encoded_size
  encoded_size-Fits item h = ground arith

  -- fill_page where every item fits.
  unfoldable pub fill : List Value → List Value → ℕ → List Value × ℕ × List Value
  fill [] batch encoded = (batch, encoded, [])
  fill (item ∷ rest) batch encoded =
      let more = fill rest (batch ++ item ∷ []) (encoded + jcs.size item) in
      if ltb (length batch) max_page_items
        && not (not (is_empty batch) && ltb max_page_bytes (encoded + jcs.size item))
      then more
      else (batch, encoded, item ∷ rest)

  fill_page-fill :
      (items batch : List Value) (encoded : ℕ)
      → All Fits items
      → fill_page jcs items batch encoded ≡ ok (fill items batch encoded)
  unfolding fill_page fill
  fill_page-fill [] batch encoded h = refl
  fill_page-fill (item ∷ rest) batch encoded h = ground (
    arith,
    encoded_size-Fits item h.0,
    fill_page-fill rest (batch ++ item ∷ []) (encoded + jcs.size item) h.1,
  )

  -- What holds of a page that is being filled.
  pub record IsFilling (batch : List Value) (encoded : ℕ) : Type 0 where
    pub items_bound : length batch ≤ max_page_items
    pub bytes_bound : encoded ≤ max_page_bytes
    pub bytes_exact : encoded ≡ sum_by jcs.size batch

  IsFilling-more :
      (batch : List Value) (encoded : ℕ) (item : Value)
      → Fits item
      → IsFilling batch encoded
      → ltb (length batch) max_page_items
          && not (not (is_empty batch) && ltb max_page_bytes (encoded + jcs.size item))
        ≡ true
      → IsFilling (batch ++ item ∷ []) (encoded + jcs.size item)
  IsFilling-more [] encoded item f v e = record {
    items_bound = omega arith;
    bytes_bound = omega (arith, v.bytes_exact);
    bytes_exact = omega (arith, v.bytes_exact);
  }
  IsFilling-more (b ∷ batch) encoded item f v e = record {
    items_bound = omega (
      arith,
      length-append batch (item ∷ []),
      ltb→lt (suc (length batch)) max_page_items
          (&&-eq-true (ltb (suc (length batch)) max_page_items) _ e).0,
    );
    bytes_bound = ground arith;
    bytes_exact = omega (arith, v.bytes_exact, sum_by-append jcs.size (b ∷ batch) (item ∷ []));
  }

  pub fill-IsFilling :
      (items batch : List Value) (encoded : ℕ)
      → All Fits items
      → IsFilling batch encoded
      → IsFilling (fill items batch encoded).0 (fill items batch encoded).1
  unfolding fill
  fill-IsFilling [] batch encoded h v = v
  fill-IsFilling (item ∷ rest) batch encoded h v = ground (
    arith,
    fill-IsFilling rest (batch ++ item ∷ []) (encoded + jcs.size item) h.1,
    IsFilling-more batch encoded item h.0,
  )

  -- No item is lost, added or moved.
  pub fill-append :
      (items batch : List Value) (encoded : ℕ)
      → (fill items batch encoded).0 ++ (fill items batch encoded).2 ≡ batch ++ items
  unfolding fill
  fill-append [] batch encoded = refl
  fill-append (item ∷ rest) batch encoded = ground (
    arith,
    fill-append rest (batch ++ item ∷ []) (encoded + jcs.size item),
    append_assoc batch (item ∷ []) rest,
  )

  length-fill-le :
      (items batch : List Value) (encoded : ℕ) → length (fill items batch encoded).2 ≤ length items
  unfolding fill
  length-fill-le [] batch encoded = omega arith
  length-fill-le (item ∷ rest) batch encoded =
      ground (arith, length-fill-le rest (batch ++ item ∷ []) (encoded + jcs.size item))

  -- A page takes an item.
  pub length-fill :
      (item : Value) (rest : List Value) → length (fill (item ∷ rest) [] 0).2 ≤ length rest
  unfolding fill
  length-fill item rest = ground (arith, length-fill-le rest (item ∷ []) (0 + jcs.size item))

  length-fill_grows :
      (items batch : List Value) (encoded : ℕ) → length batch ≤ length (fill items batch encoded).0
  unfolding fill
  length-fill_grows [] batch encoded = omega arith
  length-fill_grows (item ∷ rest) batch encoded = ground (
    arith,
    length-fill_grows rest (batch ++ item ∷ []) (encoded + jcs.size item),
    length-append batch (item ∷ []),
  )

  pub length-fill_pos : (item : Value) (rest : List Value) → 1 ≤ length (fill (item ∷ rest) [] 0).0
  unfolding fill
  length-fill_pos item rest = ground (arith, length-fill_grows rest (item ∷ []) (0 + jcs.size item))

  -- The pages of one section.
  unfoldable pub chunks : ℕ → Section → List Value → List Page
  unfolding fill
  chunks zero section items = []
  chunks (suc fuel) section [] = []
  chunks (suc fuel) section (item ∷ rest) =
      let (batch, encoded, later) = fill (item ∷ rest) [] 0 in
      record { section = section; items = batch; returned_encoded_bytes = encoded }
      ∷ chunks fuel section later

  -- The loop over the pages of all sections, given the pages.
  unfoldable pub append_pages : List Page → List Page → Result (List Page)
  append_pages pages [] = ok pages
  append_pages pages (c ∷ cs) =
      let later = append_pages (pages ++ c ∷ []) cs in
      if ltb max_pages (length (pages ++ c ∷ [])) then err too_large else later

  pub append_pages-ok :
      (pages cs : List Page)
      → length pages + length cs ≤ max_pages
      → append_pages pages cs ≡ ok (pages ++ cs)
  unfolding append_pages
  append_pages-ok pages [] h = rw (append-nil pages)
  append_pages-ok pages (c ∷ cs) h = ground (
    arith,
    append_pages-ok (pages ++ c ∷ []) cs,
    length-append pages (c ∷ []),
    append_assoc pages (c ∷ []) cs,
  )

  pub append_pages_inv :
      (pages cs out : List Page)
      → append_pages pages cs ≡ ok out
      → length pages ≤ max_pages
      → (out ≡ pages ++ cs) × (length out ≤ max_pages)
  unfolding append_pages
  append_pages_inv pages [] out h b = ground (arith, append-nil pages)
  append_pages_inv pages (c ∷ cs) out h b =
      ground (arith, append_pages_inv (pages ++ c ∷ []) cs out, append_assoc pages (c ∷ []) cs)

  append_pages-append :
      (pages cs ds : List Page)
      → append_pages pages (cs ++ ds) ≡ (append_pages pages cs >>= λ made. append_pages made ds)
  unfolding append_pages
  append_pages-append pages [] ds = refl
  append_pages-append pages (c ∷ cs) ds =
      ground (arith, append_pages-append (pages ++ c ∷ []) cs ds)

  pub All-fill :
      (items batch : List Value) (encoded : ℕ)
      → All Fits items
      → All Fits (fill items batch encoded).2
  unfolding fill
  All-fill [] batch encoded h = tt
  All-fill (item ∷ rest) batch encoded h =
      elim (Bool-cases (
        ltb (length batch) max_page_items
        && not (not (is_empty batch) && ltb max_page_bytes (encoded + jcs.size item)))) [
          | inl e ↦ rw (e, fill) (All-fill rest (batch ++ item ∷ []) (encoded + jcs.size item) h.1)
          | inr e ↦ rw (e, fill) h
        ]

  pub paginate_items-chunks :
      (fuel : ℕ) (section : Section) (items : List Value) (pages : List Page)
      → All Fits items
      → paginate_items jcs fuel section items pages ≡ append_pages pages (chunks fuel section items)
  unfolding paginate_items chunks append_pages
  paginate_items-chunks zero section items pages h = refl
  paginate_items-chunks (suc fuel) section [] pages h = refl
  paginate_items-chunks (suc fuel) section (item ∷ rest) pages h =
      let (batch, encoded, later) = fill (item ∷ rest) [] 0 in
      ground (
        arith,
        fill_page-fill (item ∷ rest) [] 0 h,
        paginate_items-chunks fuel section later
            (pages
              ++ record { section = section; items = batch; returned_encoded_bytes = encoded } ∷ [])
            (All-fill (item ∷ rest) [] 0 h),
      )

  -- The pages of all sections.
  unfoldable pub all_chunks : List Section → Sections → List Page
  unfolding chunks
  all_chunks [] sections = []
  all_chunks (name ∷ names) sections =
      chunks (length (sections name)) name (sections name) ++ all_chunks names sections

  pub paginate_each-chunks :
      (names : List Section) (sections : Sections) (pages : List Page)
      → All (λ name. All Fits (sections name)) names
      → paginate_each jcs names sections pages ≡ append_pages pages (all_chunks names sections)
  unfolding paginate_each all_chunks
  paginate_each-chunks [] sections pages h = unfold append_pages in refl
  paginate_each-chunks (name ∷ names) sections pages h =
      rw (paginate_items-chunks (length (sections name)) name (sections name) pages h.0) (
        ap
          (λ (f : List Page → Result (List Page)).
            append_pages pages (chunks (length (sections name)) name (sections name)) >>= f)
          (fun_ext λ made. paginate_each-chunks names sections made h.1)
        ∙ sym (
            append_pages-append pages (chunks (length (sections name)) name (sections name))
              (all_chunks names sections)))
