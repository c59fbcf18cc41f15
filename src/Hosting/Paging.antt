-- ===== src/Hosting/Paging.antt =====
-- messaging/groups/service.py: a reader that follows next_since_seq while there is more.
use awiki_open_server.Shared.{
  ℕ, zero, suc, ◌≤◌, ◌<◌, ◌≡◌, refl, sym, ap, ◌∙◌, Bool, true, false, List, [], ◌∷◌, ◌++◌,
  append-nil, append_assoc, if◌then◌else◌, ltb, Bool-cases, inl, inr, arith,
}
use awiki_open_server.Shared.Lists.{length, take, All, All-append}
use awiki_open_server.Shared.Table.{select_where, order_by, order_by_from, insert_by}
use awiki_open_server.Host.{page_of, last_seq}

module _ {ℓ} {R : Type ℓ} (seq : R → ℕ) where
  -- Rows in strictly ascending order of their places.
  abbrev pub Climbing : List R → Type 0
  Climbing [] = Unit
  Climbing (r ∷ rest) = All (λ s. seq r < seq s) rest × Climbing rest

  abbrev pub behind : ℕ → List R → List R
  behind since rows = select_where (λ r. ltb since (seq r)) rows

  abbrev precedes : R → R → Bool
  precedes a b = ltb (seq a) (seq b)

  -- The reader: a page, and the pages behind it while there is more. The fuel bounds the pages.
  unfoldable pub read_all : ℕ → List R → ℕ → ℕ → List R
  read_all limit rows zero since = []
  read_all limit rows (suc fuel) since =
      let page = page_of seq since limit rows in
      let rest = read_all limit rows fuel page.next_since in
      page.rows ++ (if page.has_more then rest else [])

  drop : ℕ → List R → List R
  drop zero rs = rs
  drop (suc n) [] = []
  drop (suc n) (r ∷ rs) = drop n rs

  All-select : (P : R → Type 0) (p : R → Bool) (rs : List R) → All P rs → All P (select_where p rs)
  All-select P p [] h = tt
  All-select P p (r ∷ rs) h = elim (Bool-cases (p r)) [
    | inl e ↦ rw e (h.0, All-select P p rs h.1)
    | inr e ↦ rw e (All-select P p rs h.1)
  ]

  Climbing-select : (p : R → Bool) (rs : List R) → Climbing rs → Climbing (select_where p rs)
  Climbing-select p [] h = tt
  Climbing-select p (r ∷ rs) h = elim (Bool-cases (p r)) [
    | inl e ↦ rw e (All-select (λ s. seq r < seq s) p rs h.0, Climbing-select p rs h.1)
    | inr e ↦ rw e (Climbing-select p rs h.1)
  ]

  insert_last :
      (r : R) (done : List R)
      → All (λ s. seq s < seq r) done
      → insert_by precedes r done ≡ done ++ r ∷ []
  insert_last r [] h = refl
  insert_last r (s ∷ done) h =
      let later : ltb (seq r) (seq s) ≡ false = ground (arith, h.0) in
      rw later (rw (insert_last r done h.1) refl)

  -- ORDER BY leaves rows that climb as they are.
  order_by_from-Climbing :
      (done rs : List R)
      → All (λ r. All (λ s. seq s < seq r) done) rs
      → Climbing rs
      → order_by_from precedes done rs ≡ done ++ rs
  order_by_from-Climbing done [] h c = sym (append-nil done)
  order_by_from-Climbing done (r ∷ rs) h c = rw (insert_last r done h.0) (
      order_by_from-Climbing (done ++ r ∷ []) rs (with_row rs h.1 c.0) c.1
      ∙ append_assoc done (r ∷ []) rs)
    where
      with_row :
          (ts : List R)
          → All (λ t. All (λ s. seq s < seq t) done) ts
          → All (λ t. seq r < seq t) ts
          → All (λ t. All (λ s. seq s < seq t) (done ++ r ∷ [])) ts
      with_row [] h k = tt
      with_row (t ∷ ts) h k =
          (All-append (λ s. seq s < seq t) done (r ∷ []) h.0 (k.0, tt), with_row ts h.1 k.1)

  nothing_done : (rs : List R) → All (λ r. All (λ s. seq s < seq r) []) rs
  nothing_done [] = tt
  nothing_done (r ∷ rs) = (tt, nothing_done rs)

  take-take : (n : ℕ) (rs : List R) → take n (take (suc n) rs) ≡ take n rs
  take-take zero rs = refl
  take-take (suc n) [] = refl
  take-take (suc n) (r ∷ rs) = ap (λ (t : List R). r ∷ t) (take-take n rs)

  select_all : (s : ℕ) (rs : List R) → All (λ r. s < seq r) rs → behind s rs ≡ rs
  select_all s [] h = refl
  select_all s (r ∷ rs) h =
      let later : ltb s (seq r) ≡ true = ground (arith, h.0) in
      rw later (rw (select_all s rs h.1) refl)

  -- Behind the last row of a page stands what the page left.
  behind_page :
      (n s : ℕ) (rs : List R)
      → Climbing rs
      → All (λ r. s < seq r) rs
      → (behind (last_seq seq s (take n rs)) rs ≡ drop n rs) × (s ≤ last_seq seq s (take n rs))
  unfolding drop
  behind_page zero s rs c h = (select_all s rs h, omega arith)
  behind_page (suc n) s [] c h = (refl, omega arith)
  behind_page (suc n) s (r ∷ rs) c h =
      let (rest, low) = behind_page n (seq r) rs c.1 c.0 in
      let past : ltb (last_seq seq (seq r) (take n rs)) (seq r) ≡ false = ground arith in
      (rw past rest, omega (arith, h.0, low))

  -- Rows behind a later place are among those behind an earlier one.
  behind_twice : (s m : ℕ) (rs : List R) → s ≤ m → behind m (behind s rs) ≡ behind m rs
  behind_twice s m [] h = refl
  behind_twice s m (r ∷ rs) h = elim (Bool-cases (ltb s (seq r))) [
    | inl e ↦ elim (Bool-cases (ltb m (seq r))) [
      | inl f ↦ rw e (rw f (rw (behind_twice s m rs h) refl))
      | inr f ↦ rw e (rw f (behind_twice s m rs h))
    ]
    | inr e ↦
        let past : ltb m (seq r) ≡ false = ground arith in rw e (rw past (behind_twice s m rs h))
  ]

  all_behind : (s : ℕ) (rs : List R) → All (λ r. s < seq r) (behind s rs)
  all_behind s [] = tt
  all_behind s (r ∷ rs) = elim (Bool-cases (ltb s (seq r))) [
    | inl e ↦ rw e (ground arith, all_behind s rs)
    | inr e ↦ rw e (all_behind s rs)
  ]

  take-drop : (n : ℕ) (rs : List R) → take n rs ++ drop n rs ≡ rs
  unfolding drop
  take-drop zero rs = refl
  take-drop (suc n) [] = refl
  take-drop (suc n) (r ∷ rs) = ap (λ (t : List R). r ∷ t) (take-drop n rs)

  length-drop-le : (n : ℕ) (rs : List R) → length (drop n rs) ≤ length rs
  unfolding drop
  length-drop-le zero rs = omega arith
  length-drop-le (suc n) [] = omega arith
  length-drop-le (suc n) (r ∷ rs) = omega (arith, length-drop-le n rs)

  -- has_more tells whether the page left any.
  more_left :
      (n : ℕ) (rs : List R)
      → ltb (suc n) (length (take (suc (suc n)) rs)) ≡ true
      → length (drop (suc n) rs) < length rs
  unfolding drop
  more_left n [] h = absurd (ground arith)
  more_left n (r ∷ rs) h = omega (arith, length-drop-le n rs)

  none_left : (n : ℕ) (rs : List R) → ltb n (length (take (suc n) rs)) ≡ false → drop n rs ≡ []
  unfolding drop
  none_left zero [] h = refl
  none_left zero (r ∷ rs) h = absurd (ground arith)
  none_left (suc n) [] h = refl
  none_left (suc n) (r ∷ rs) h = none_left n rs (ground arith)

  ordered_behind :
      (since : ℕ) (rows : List R)
      → Climbing rows
      → order_by precedes (behind since rows) ≡ behind since rows
  ordered_behind since rows c =
      order_by_from-Climbing [] (behind since rows) (nothing_done (behind since rows))
        (Climbing-select (λ r. ltb since (seq r)) rows c)

  -- A page of rows that climb, by the rows behind `since`.
  page_of-Climbing :
      (since limit : ℕ) (rows : List R)
      → Climbing rows
      → ((page_of seq since limit rows).rows ≡ take limit (behind since rows))
        × ((page_of seq since limit rows).has_more
            ≡ ltb limit (length (take (suc limit) (behind since rows))))
        × ((page_of seq since limit rows).next_since
            ≡ last_seq seq since (take limit (behind since rows)))
  unfolding page_of
  page_of-Climbing since limit rows c =
      let same = ordered_behind since rows c in
      let taken = take-take limit (behind since rows) in
      (
        ap (λ (t : List R). take limit (take (suc limit) t)) same ∙ taken,
        ap (λ (t : List R). ltb limit (length (take (suc limit) t))) same,
        ap (λ (t : List R). last_seq seq since (take limit (take (suc limit) t))) same
            ∙ ap (λ (t : List R). last_seq seq since t) taken,
      )

  -- A reader that starts behind `since` and follows next_since while has_more is given gets, with
  -- pages of any size of at least one row, every row behind `since`, once and in order, where the rows
  -- ascend strictly; as many pages as rows, and one more, are enough.
  pub read_all_gets_rows :
      (n fuel since : ℕ) (rows : List R)
      → Climbing rows
      → length (behind since rows) < fuel
      → read_all (suc n) rows fuel since ≡ behind since rows
  unfolding read_all
  read_all_gets_rows n zero since rows c h = absurd (omega arith)
  read_all_gets_rows n (suc fuel) since rows c h =
      let left = behind since rows in
      let (taken, more, next) = page_of-Climbing since (suc n) rows c in
      let (later, low) =
        behind_page (suc n) since left (Climbing-select (λ r. ltb since (seq r)) rows c)
          (all_behind since rows) in
      let m = last_seq seq since (take (suc n) left) in
      let rest : behind m rows ≡ drop (suc n) left = sym (behind_twice since m rows low) ∙ later in
      elim (Bool-cases (ltb (suc n) (length (take (suc (suc n)) left)))) [
        | inl e ↦
            let shorter : length (behind m rows) < fuel =
              omega (arith, more_left n left e, ap (λ (t : List R). length t) rest) in
            let ih = read_all_gets_rows n fuel m rows c shorter in
            rw taken (
              rw (more ∙ e) (
                rw next (
                  rw ih
                    (ap (λ (t : List R). take (suc n) left ++ t) rest ∙ take-drop (suc n) left))))
        | inr e ↦
            let empty = none_left (suc n) left e in
            rw taken (
              rw (more ∙ e)
                (ap (λ (t : List R). take (suc n) left ++ t) (sym empty) ∙ take-drop (suc n) left))
      ]
