-- ===== src/Snapshot/LargeHistory.antt =====
-- A history of large messages beside no required state: the loop of select_snapshot_package counts
-- pages by a function that raises at the 101st, so it ends in an error and cuts nothing off.
use mathlib.Core.List.{reverse-cons}
use awiki_open_server.Shared.{
  ℕ, zero, suc, ◌+◌, ◌*◌, ◌≤◌, ◌<◌, ◌≡◌, refl, ap, ◌∙◌, List, [], ◌∷◌, ◌++◌, reverse, Option,
  append-nil, leb, Bool-cases, inl, inr, arith, Result, ok, err, ◌>>=◌, ◌>>◌,
}
use awiki_open_server.Shared.Lists.{length, length-append, length-reverse, All, All-append}
use awiki_open_server.Shared.Json.{Value}
use awiki_open_server.Snapshot.{
  Jcs, Page, Section, Sections, Truncation, check_oldest, selection_of, recent_plain_messages,
  section_order, max_page_bytes, max_pages, max_package_items, max_package_bytes, too_large,
  only_messages, take_messages, page_count_for_sections, paginate_nonempty_sections,
  select_snapshot_package,
}
use awiki_open_server.Snapshot.Chunks.{
  Fits, fill, chunks, all_chunks, append_pages, paginate_each-chunks, encoded_size-Fits,
}
use awiki_open_server.Snapshot.Pages.{paginate_nonempty_of_Fits}

abbrev pub no_sections : Sections
no_sections section = []

module _ (jcs : Jcs) (size : ℕ) where
  -- Two such items do not fit on a page, and 101 of them do not reach the byte budget.
  pub record IsLarge : Type 0 where
    pub one_fits : size ≤ max_page_bytes
    pub two_do_not : max_page_bytes < size + size
    pub within_budget : 101 * size ≤ max_package_bytes

  abbrev pub HasSize : Value → Type 0
  HasSize item = jcs.size item ≡ size

  module _ (large : IsLarge) where
    fill_large :
        (item : Value) (rest : List Value)
        → HasSize item
        → All HasSize rest
        → (fill jcs (item ∷ rest) [] 0).2 ≡ rest
    unfolding fill
    fill_large item [] h k = refl
    fill_large item (next ∷ rest) h k = ground (arith, large.two_do_not)

    length-chunks_large :
        (fuel : ℕ) (s : Section) (items : List Value)
        → length items ≤ fuel
        → All HasSize items
        → length (chunks jcs fuel s items) ≡ length items
    unfolding chunks
    length-chunks_large zero s [] b h = refl
    length-chunks_large zero s (item ∷ rest) b h = absurd (omega arith)
    length-chunks_large (suc fuel) s [] b h = refl
    length-chunks_large (suc fuel) s (item ∷ rest) b h =
        rw (fill_large item rest h.0 h.1)
          (ap suc (length-chunks_large fuel s rest (omega arith) h.1))

    All-Fits_of_size : (items : List Value) → All HasSize items → All (Fits jcs) items
    All-Fits_of_size [] h = tt
    All-Fits_of_size (item ∷ rest) h =
        (omega (arith, large.one_fits, h.0), All-Fits_of_size rest h.1)

    length-all_chunks_large :
        (items : List Value)
        → All HasSize items
        → length (all_chunks jcs section_order (only_messages items)) ≡ length items
    unfolding all_chunks
    length-all_chunks_large items h =
        ap length (append-nil (chunks jcs (length items) recent_plain_messages items))
        ∙ length-chunks_large (length items) recent_plain_messages items (omega arith) h

    append_pages-err :
        (pages cs : List Page)
        → length pages ≤ max_pages
        → max_pages < length pages + length cs
        → append_pages jcs pages cs ≡ err too_large
    unfolding append_pages
    append_pages-err pages [] b h = absurd (omega arith)
    append_pages-err pages (c ∷ cs) b h =
        ground (arith, append_pages-err (pages ++ c ∷ []) cs, length-append pages (c ∷ []))

    -- The count of pages, up to the maximum and beyond it.
    page_count_large :
        (items : List Value)
        → All HasSize items
        → length items ≤ max_pages
        → page_count_for_sections jcs (only_messages items) ≡ ok (length items)
    unfolding page_count_for_sections
    page_count_large items h b =
        let fits = All-Fits_of_size items h in
        let exact = length-all_chunks_large items h in
        ap (λ (r : Result (List Page)). r >>= λ pages. ok (length pages))
          (paginate_nonempty_of_Fits jcs (only_messages items) (tt, (tt, (fits, (tt, tt))))
            (omega (arith, exact)))
        ∙ ap (λ (k : ℕ). ok k) exact

    page_count_refused :
        (items : List Value)
        → All HasSize items
        → max_pages < length items
        → page_count_for_sections jcs (only_messages items) ≡ err too_large
    unfolding page_count_for_sections paginate_nonempty_sections
    page_count_refused items h b =
        let fits = All-Fits_of_size items h in
        ap (λ (r : Result (List Page)). r >>= λ pages. ok (length pages))
          (paginate_each-chunks jcs section_order (only_messages items) []
              (tt, (tt, (fits, (tt, tt))))
            ∙ append_pages-err [] (all_chunks jcs section_order (only_messages items)) (omega arith)
                (omega (arith, length-all_chunks_large items h)))

    All-reverse : (items : List Value) → All HasSize items → All HasSize (reverse items)
    All-reverse [] h = tt
    All-reverse (item ∷ rest) h =
        rw reverse-cons
          (All-append HasSize (reverse rest) (item ∷ []) (All-reverse rest h.1) (h.0, tt))

    times_suc : (k : ℕ) → suc k * size ≡ k * size + size
    times_suc k = omega arith

    -- The bytes of up to 101 messages are within the budget.
    bytes_room : (k : ℕ) → k ≤ max_pages → k * size + size ≤ max_package_bytes
    bytes_room k h =
        let up : k * size ≤ 100 * size = grind arith in omega (arith, large.within_budget)

    take_messages_refused :
        (messages taken : List Value) (encoded : ℕ)
        → All HasSize messages
        → All HasSize taken
        → encoded ≡ length taken * size
        → length taken ≤ max_pages
        → max_pages < length taken + length messages
        → take_messages jcs max_package_items max_package_bytes max_pages messages taken encoded
          ≡ err too_large
    unfolding take_messages
    take_messages_refused [] taken encoded h k e b c = absurd (omega arith)
    take_messages_refused (item ∷ rest) taken encoded h k e b c =
        let trial = reverse (taken ++ item ∷ []) in
        let all_large =
          All-reverse (taken ++ item ∷ []) (All-append HasSize taken (item ∷ []) k (h.0, tt)) in
        let exact : length trial ≡ length taken + 1 =
          omega (arith, length-reverse (taken ++ item ∷ []), length-append taken (item ∷ [])) in
        elim (Bool-cases (leb max_pages (length taken))) [
          | inl full ↦ ground (
            arith,
            encoded_size-Fits jcs item,
            large.one_fits,
            h.0,
            bytes_room (length taken) b,
            exact,
            page_count_refused trial all_large,
          )
          | inr room ↦ ground (
            arith,
            encoded_size-Fits jcs item,
            large.one_fits,
            h.0,
            bytes_room (length taken) b,
            exact,
            page_count_large trial all_large,
            take_messages_refused rest (taken ++ item ∷ []) (encoded + jcs.size item) h.1
                (All-append HasSize taken (item ∷ []) k (h.0, tt)),
            length-append taken (item ∷ []),
            times_suc (length taken),
          )
        ]

    -- Without required state, a history of more than 100 messages of one size, two of which do not
    -- fit on a page and 101 of which are within the byte budget, is refused as required state that
    -- is too large, though there is no required state and the history is meant to be cut.
    pub large_history_refused :
        (messages : List Value)
        → All HasSize messages
        → max_pages < length messages
        → select_snapshot_package jcs no_sections messages ≡ err too_large
    unfolding select_snapshot_package
    large_history_refused messages h b =
        ap
          (λ (r : Result (List Value × ℕ × Option Truncation)). r >>= λ found.
            check_oldest (reverse found.0)
            >> (page_count_for_sections jcs (only_messages (reverse found.0)) >>= λ message_pages.
                ok (selection_of no_sections messages 0 0 0 found.0 found.1 found.2 message_pages)))
          (take_messages_refused messages [] 0 h tt (omega arith) (omega arith) (omega arith))
