-- ===== src/Snapshot/Selected.antt =====
-- What select_snapshot_package takes into a snapshot, and that what it selects can be paged.
use awiki_open_server.Shared.{
  ℕ, ◌+◌, ◌-◌, ◌≤◌, ◌<◌, ◌≡◌, refl, sym, ap, subst, ◌∙◌, ◌||◌, Option, none, some, List, [], ◌∷◌,
  ◌++◌, reverse, append_assoc, append-nil, ltb, leb, Bool-cases, ◌⊎◌, inl, inr, arith, Result, ok,
  ◌>>=◌, ◌>>◌, raise_if, >>=-eq-ok, >>-eq-ok, raise_if-eq-ok,
}
use awiki_open_server.Shared.Lists.{
  length, length-append, length-reverse, sum_by-reverse, sum_by, sum_by-append, All,
}
use awiki_open_server.Shared.Json.{Value}
use awiki_open_server.Snapshot.{
  Jcs, Page, Section, Sections, Truncation, Selection, read_states, groups, recent_plain_messages,
  unexpired_system_notifications, max_items, max_encoded_bytes, too_many_pages, section_order,
  max_pages, max_package_items, max_package_bytes, too_large, check_oldest, selection_of,
  encoded_size, sized, only_messages, with_messages, take_messages, page_count_for_sections,
  paginate_nonempty_sections, paginate_sections, or_empty_page, select_beside,
  select_snapshot_package,
}
use awiki_open_server.Snapshot.Chunks.{Fits, chunks, all_chunks}
use awiki_open_server.Snapshot.Pages.{paginate_nonempty_inv, paginate_nonempty_of_Fits}

abbrev Taken : Type 0
Taken = List Value × ℕ × Option Truncation

module _ (jcs : Jcs) where
  page_count_inv :
      (sections : Sections) (n : ℕ)
      → page_count_for_sections jcs sections ≡ ok n
      → All (λ name. All (Fits jcs) (sections name)) section_order
        × (n ≡ length (all_chunks jcs section_order sections))
        × (n ≤ max_pages)
  unfolding page_count_for_sections
  page_count_inv sections n e =
      let (made, first, later) = >>=-eq-ok (paginate_nonempty_sections jcs sections) _ n e in
      let (fits, same, bound) = paginate_nonempty_inv jcs sections made first in
      let exact : length made ≡ n = ground (arith, later) in
      (fits, omega (arith, ap length same), omega arith)

  -- What the loop over the messages has taken when it stops.
  record IsTaken (items bytes pages : ℕ) (taken messages : List Value) (out : Taken) : Type 0 where
    fresh : List Value
    left : List Value
    split : messages ≡ fresh ++ left
    grown : out.0 ≡ taken ++ fresh
    items_bound : length out.0 ≤ items
    bytes_exact : out.1 ≡ sum_by jcs.size out.0
    bytes_bound : out.1 ≤ bytes
    pages_bound :
        (n : ℕ) × (page_count_for_sections jcs (only_messages (reverse out.0)) ≡ ok n) × (n ≤ pages)
    complete : out.2 ≡ none → left ≡ []

  ok-injective : {a b : Taken} → ◌≡◌ {A = Result Taken} (ok a) (ok b) → a ≡ b
  ok-injective h = cc

  -- One round that takes its message: nothing was exceeded, and the loop went on.
  record IsRound (items bytes pages : ℕ) (item : Value) (rest taken : List Value) (encoded : ℕ)
      (out : Taken) : Type 0 where
    size_fits : encoded_size jcs item ≡ ok (jcs.size item)
    items_room : length taken < items
    bytes_room : encoded + jcs.size item ≤ bytes
    count : ℕ
    counted : page_count_for_sections jcs (only_messages (reverse (taken ++ item ∷ []))) ≡ ok count
    pages_room : count ≤ pages
    later :
        take_messages jcs items bytes pages rest (taken ++ item ∷ []) (encoded + jcs.size item)
        ≡ ok out

  encoded_size_inv : (item : Value) (n : ℕ) → encoded_size jcs item ≡ ok n → n ≡ jcs.size item
  unfolding encoded_size
  encoded_size_inv item n h = ground arith

  take-IsRound :
      (items bytes pages : ℕ) (item : Value) (rest taken : List Value) (encoded : ℕ) (out : Taken)
      → take_messages jcs items bytes pages (item ∷ rest) taken encoded ≡ ok out
      → ((r : Truncation) × (out ≡ (taken, encoded, some r)))
        ⊎ IsRound items bytes pages item rest taken encoded out
  unfolding take_messages
  take-IsRound items bytes pages item rest taken encoded out e =
      let (n, sizes, checks) = >>=-eq-ok (encoded_size jcs item) _ out e in
      let exact = encoded_size_inv item n sizes in
      elim (Bool-cases (leb items (length taken))) [
        | inl p ↦ inl (max_items, sym (ok-injective (rw p at checks)))
        | inr p ↦ elim (Bool-cases (ltb bytes (encoded + n))) [
          | inl q ↦ inl (max_encoded_bytes, sym (ok-injective (rw (p, q) at checks)))
          | inr q ↦
              let (count, counted, pages_check) =
                >>=-eq-ok
                  (page_count_for_sections jcs (only_messages (reverse (taken ++ item ∷ [])))) _ out
                  (rw (p, q) at checks) in
              elim (Bool-cases (ltb pages count)) [
                | inl r ↦ inl (too_many_pages, sym (ok-injective (rw r at pages_check)))
                | inr r ↦ inr (record {
                  size_fits = subst (λ (k : ℕ). encoded_size jcs item ≡ ok k) exact sizes;
                  items_room = ground arith;
                  bytes_room = ground (arith, exact);
                  count = count;
                  counted = counted;
                  pages_room = ground arith;
                  later =
                      subst
                        (λ (k : ℕ).
                          take_messages jcs items bytes pages rest (taken ++ item ∷ [])
                            (encoded + k)
                          ≡ ok out)
                        exact (rw r at pages_check);
                })
              ]
        ]
      ]

  take_none :
      (items bytes pages : ℕ) (taken : List Value) (encoded : ℕ) (out : Taken)
      → take_messages jcs items bytes pages [] taken encoded ≡ ok out
      → ◌≡◌ {A = Taken} (taken, encoded, none) out
  unfolding take_messages
  take_none items bytes pages taken encoded out e = ok-injective e

  take_messages_sound :
      (items bytes pages : ℕ) (messages taken : List Value) (encoded : ℕ) (out : Taken)
      → take_messages jcs items bytes pages messages taken encoded ≡ ok out
      → length taken ≤ items
      → encoded ≡ sum_by jcs.size taken
      → encoded ≤ bytes
      → (n : ℕ) → page_count_for_sections jcs (only_messages (reverse taken)) ≡ ok n
      → n ≤ pages
      → IsTaken items bytes pages taken messages out
  take_messages_sound items bytes pages [] taken encoded out e i x b n p q =
      subst (IsTaken items bytes pages taken []) (take_none items bytes pages taken encoded out e)
        (record {
          fresh = [];
          left = [];
          split = refl;
          grown = sym (append-nil taken);
          items_bound = i;
          bytes_exact = x;
          bytes_bound = b;
          pages_bound = (n, p, q);
          complete = λ _. refl;
        })
  take_messages_sound items bytes pages (item ∷ rest) taken encoded out e i x b n p q =
      elim (take-IsRound items bytes pages item rest taken encoded out e) [
        | inl (r, same) ↦ subst (IsTaken items bytes pages taken (item ∷ rest)) (sym same) (record {
          fresh = [];
          left = item ∷ rest;
          split = refl;
          grown = sym (append-nil taken);
          items_bound = i;
          bytes_exact = x;
          bytes_bound = b;
          pages_bound = (n, p, q);
          complete = λ h. cc;
        })
        | inr round ↦
            let t =
              take_messages_sound items bytes pages rest (taken ++ item ∷ [])
                (encoded + jcs.size item) out round.later
                (omega (arith, length-append taken (item ∷ []), round.items_room))
                (omega (arith, x, sum_by-append jcs.size taken (item ∷ []))) round.bytes_room
                round.count round.counted round.pages_room in
            record {
              fresh = item ∷ t.fresh;
              left = t.left;
              split = ap (◌∷◌ item) t.split;
              grown = t.grown ∙ append_assoc taken (item ∷ []) t.fresh;
              items_bound = t.items_bound;
              bytes_exact = t.bytes_exact;
              bytes_bound = t.bytes_bound;
              pages_bound = t.pages_bound;
              complete = t.complete;
            }
      ]

  -- The bytes of required items that were all encoded.
  sized_inv : (items : List Value) (n : ℕ) → sized jcs items ≡ ok n → n ≡ sum_by jcs.size items
  unfolding sized
  sized_inv [] n h = ground arith
  sized_inv (item ∷ rest) n h =
      let (a, first, later) = >>=-eq-ok (encoded_size jcs item) _ n h in
      let (b, second, sum) = >>=-eq-ok (sized jcs rest) _ n later in
      let total : a + b ≡ n = ground (arith, sum) in
      omega (arith, encoded_size_inv item a first, sized_inv rest b second)

  abbrev pub items_total : Sections → ℕ
  items_total sections =
      length (sections read_states)
      + length (sections groups)
      + length (sections recent_plain_messages)
      + length (sections unexpired_system_notifications)

  abbrev pub bytes_total : Sections → ℕ
  bytes_total sections =
      sum_by jcs.size (sections read_states)
      + sum_by jcs.size (sections groups)
      + sum_by jcs.size (sections recent_plain_messages)
      + sum_by jcs.size (sections unexpired_system_notifications)

  -- What a selection promises. The messages are given newest first.
  pub record IsSelected (required : Sections) (messages : List Value) (s : Selection) : Type 0 where
    pub newest : List Value
    pub older : List Value
    pub split : messages ≡ newest ++ older
    pub chosen : s.chosen ≡ with_messages required (reverse newest)
    pub items_bound : items_total s.chosen ≤ max_package_items
    pub bytes_bound : bytes_total s.chosen ≤ max_package_bytes
    pub excluded : s.history.excluded_older_messages ≡ length older
    pub complete : s.history.truncation_reason ≡ none → older ≡ []
    pub pageable : (pages : List Page) × (paginate_sections jcs s.chosen ≡ ok pages)

  -- The pages of a section are those it has beside other sections.
  length-all_chunks :
      (sections : Sections)
      → length (all_chunks jcs section_order sections)
        ≡ length (all_chunks jcs section_order (with_messages sections []))
          + length (all_chunks jcs section_order (only_messages (sections recent_plain_messages)))
  unfolding all_chunks chunks
  length-all_chunks sections = omega (
    arith,
    length-append (section_chunks read_states) (
        section_chunks groups
        ++ (section_chunks recent_plain_messages
            ++ (section_chunks unexpired_system_notifications ++ []))),
    length-append (section_chunks groups) (
        section_chunks recent_plain_messages
        ++ (section_chunks unexpired_system_notifications ++ [])),
    length-append (section_chunks recent_plain_messages)
        (section_chunks unexpired_system_notifications ++ []),
    length-append (section_chunks read_states)
        (section_chunks groups ++ (section_chunks unexpired_system_notifications ++ [])),
    length-append (section_chunks groups) (section_chunks unexpired_system_notifications ++ []),
    length-append (section_chunks recent_plain_messages) [],
  )
    where
      section_chunks : Section → List Page
      section_chunks name = chunks jcs (length (sections name)) name (sections name)

  or_empty_page_fits :
      (made : List Page)
      → length made ≤ max_pages
      → (raise_if (ltb max_pages (length (or_empty_page made))) too_large
          >> ok (or_empty_page made))
        ≡ ok (or_empty_page made)
  or_empty_page_fits [] h = refl
  or_empty_page_fits (p ∷ ps) h = ground arith

  paginate_sections-nonempty :
      (sections : Sections) (made : List Page)
      → paginate_nonempty_sections jcs sections ≡ ok made
      → length made ≤ max_pages
      → paginate_sections jcs sections ≡ ok (or_empty_page made)
  unfolding paginate_sections
  paginate_sections-nonempty sections made e h =
      ap
        (λ (r : Result (List Page)). r >>= λ pages.
          raise_if (ltb max_pages (length (or_empty_page pages))) too_large
          >> ok (or_empty_page pages))
        e
      ∙ or_empty_page_fits made h

  chosen-pageable :
      (required : Sections) (selected : List Value) (n m : ℕ)
      → page_count_for_sections jcs (with_messages required []) ≡ ok n
      → page_count_for_sections jcs (only_messages selected) ≡ ok m
      → n + m ≤ max_pages
      → (pages : List Page) × (paginate_sections jcs (with_messages required selected) ≡ ok pages)
  chosen-pageable required selected n m hn hm b =
      let (fits, exact, _) = page_count_inv (with_messages required []) n hn in
      let (fits', exact', _) = page_count_inv (only_messages selected) m hm in
      let sections = with_messages required selected in
      let made = all_chunks jcs section_order sections in
      let bound : length made ≤ max_pages = omega (arith, length-all_chunks sections) in
      (
        or_empty_page made,
        paginate_sections-nonempty sections made
            (paginate_nonempty_of_Fits jcs sections
              (fits.0, (fits.1.0, (fits'.1.1.0, (fits.1.1.1.0, tt)))) bound)
            bound,
      )

  finish :
      (required : Sections) (messages : List Value) (items bytes pages n : ℕ) (t : Taken)
      → IsTaken
          (max_package_items - items)
          (max_package_bytes - bytes)
          (max_pages - pages)
          []
          messages
          t
      → items + length t.0 ≡ items_total (with_messages required (reverse t.0))
      → bytes + sum_by jcs.size t.0 ≡ bytes_total (with_messages required (reverse t.0))
      → items ≤ max_package_items
      → bytes ≤ max_package_bytes
      → pages ≤ max_pages
      → page_count_for_sections jcs (with_messages required []) ≡ ok pages
      → IsSelected required messages
          (selection_of required messages items bytes pages t.0 t.1 t.2 n)
  finish required messages items bytes pages n t k it bt ib bb pb counted =
      let (m, mp, mb) = k.pages_bound in
      record {
        newest = k.fresh;
        older = k.left;
        split = k.split;
        chosen = ap (λ (xs : List Value). with_messages required (reverse xs)) k.grown;
        items_bound = omega (arith, k.items_bound, it);
        bytes_bound = omega (arith, k.bytes_bound, k.bytes_exact, bt);
        excluded = omega (
          arith,
          length-reverse t.0,
          ap length k.split,
          ap length k.grown,
          length-append k.fresh k.left,
        );
        complete = k.complete;
        pageable = chosen-pageable required (reverse t.0) pages m counted mp (omega arith);
      }

  page_count-none : page_count_for_sections jcs (only_messages []) ≡ ok 0
  unfolding page_count_for_sections
  page_count-none = refl

  select_beside_sound :
      (required : Sections) (messages : List Value) (items bytes : ℕ) (s : Selection)
      → select_beside jcs required messages items bytes ≡ ok s
      → items
        ≡ length (required read_states)
          + length (required groups)
          + length (required unexpired_system_notifications)
      → bytes
        ≡ sum_by jcs.size (required read_states)
          + sum_by jcs.size (required groups)
          + sum_by jcs.size (required unexpired_system_notifications)
      → IsSelected required messages s
  unfolding select_beside
  select_beside_sound required messages items bytes s e it bt =
      let (c1, e1) =
        raise_if-eq-ok (ltb max_package_items items || ltb max_package_bytes bytes) too_large _ s
          e in
      let (pages, counted, e2) =
        >>=-eq-ok (page_count_for_sections jcs (with_messages required [])) _ s e1 in
      let (c2, e3) = raise_if-eq-ok (ltb max_pages pages) too_large _ s e2 in
      let (t, taken, e4) =
        >>=-eq-ok
          (take_messages jcs (max_package_items - items) (max_package_bytes - bytes)
            (max_pages - pages) messages [] 0)
          _ s e3 in
      let (_, e4') = >>-eq-ok (check_oldest (reverse t.0)) _ s e4 in
      let (n, last, e5) =
        >>=-eq-ok (page_count_for_sections jcs (only_messages (reverse t.0))) _ s e4' in
      subst (IsSelected required messages) (selection-injective e5) (
        finish required messages items bytes pages n t
          (take_messages_sound _ _ _ messages [] 0 t taken (omega arith) (omega arith) (omega arith)
            0 page_count-none (omega arith))
          (omega (arith, length-reverse t.0)) (omega (arith, sum_by-reverse jcs.size t.0))
          (ground arith) (ground arith) (ground arith) counted)
    where
      selection-injective : {a b : Selection} → ◌≡◌ {A = Result Selection} (ok a) (ok b) → a ≡ b
      selection-injective h = cc

  -- select_snapshot_package, where it raises nothing, keeps the required state whole and takes the
  -- newest messages, as many as it gives back and all if it names no reason for a cut; what it takes
  -- is within the budgets of items and bytes, and paginate_sections does not refuse it.
  pub select_snapshot_package_sound :
      (required : Sections) (messages : List Value) (s : Selection)
      → select_snapshot_package jcs required messages ≡ ok s
      → IsSelected required messages s
  unfolding select_snapshot_package
  select_snapshot_package_sound required messages s e =
      let (rb, h1, e1) = >>=-eq-ok (sized jcs (required read_states)) _ s e in
      let (gb, h2, e2) = >>=-eq-ok (sized jcs (required groups)) _ s e1 in
      let (nb, h3, e3) = >>=-eq-ok (sized jcs (required unexpired_system_notifications)) _ s e2 in
      select_beside_sound required messages _ (rb + gb + nb) s e3 refl (
        omega (
          arith,
          sized_inv (required read_states) rb h1,
          sized_inv (required groups) gb h2,
          sized_inv (required unexpired_system_notifications) nb h3,
        ))
