-- ===== src/Shared/Table.antt =====
-- Tables as lists of rows, in order of insertion, and the SQL statements that the program runs on
-- them (storage/db.py): SELECT … WHERE, the first row of one, COUNT, UPDATE … WHERE, DELETE …
-- WHERE, and the ordering of ORDER BY, which leaves rows with equal keys in their order.
use mathlib.Core.Path.{◌≡◌, sym, subst}
use mathlib.Core.Logic.{◌⊎◌, inl, inr}
use mathlib.Core.Bool.{Bool, true, not}
use mathlib.Core.Option.{Option, none, some}
use mathlib.Core.List.Memᴰ
use mathlib.Core.List.{List, [], ◌∷◌, map, Memᴰ}
use Prim.Native.Nat.{ℕ}
use awiki_open_server.Shared.Tests.{if◌then◌else◌, Bool-cases}
use awiki_open_server.Shared.Lists.{length}

module _ {ℓ} {R : Type ℓ} where
  -- SELECT * … WHERE test
  abbrev pub select_where : (R → Bool) → List R → List R
  select_where test [] = []
  select_where test (r ∷ t) = let rest = select_where test t in if test r then r ∷ rest else rest

  -- fetchone() of SELECT * … WHERE test
  abbrev pub first_where : (R → Bool) → List R → Option R
  first_where test [] = none
  first_where test (r ∷ t) = let rest = first_where test t in if test r then some r else rest

  -- SELECT COUNT(*) … WHERE test
  abbrev pub count_where : (R → Bool) → List R → ℕ
  count_where test t = length (select_where test t)

  -- DELETE … WHERE test
  abbrev pub delete_where : (R → Bool) → List R → List R
  delete_where test t = select_where (λ r. not (test r)) t

  -- UPDATE … SET change WHERE test
  abbrev pub update_where : (R → Bool) → (R → R) → List R → List R
  update_where test change t = map (λ r. if test r then change r else r) t

  -- One row into rows that `before` orders, behind the rows that it does not precede.
  abbrev pub insert_by : (R → R → Bool) → R → List R → List R
  insert_by before r [] = r ∷ []
  insert_by before r (s ∷ t) =
      let rest = insert_by before r t in if before r s then r ∷ s ∷ t else s ∷ rest

  -- ORDER BY: rows in the order of `before`, equal ones as they stood.
  abbrev pub order_by_from : (R → R → Bool) → List R → List R → List R
  order_by_from before done [] = done
  order_by_from before done (r ∷ t) = order_by_from before (insert_by before r done) t

  abbrev pub order_by : (R → R → Bool) → List R → List R
  order_by before t = order_by_from before [] t

  pub mem_of_mem-select_where :
      (test : R → Bool) (t : List R) (r : R)
      → Memᴰ r (select_where test t)
      → Memᴰ r t × (test r ≡ true)
  mem_of_mem-select_where test [] r m = absurd (Memᴰ.not-nil m)
  mem_of_mem-select_where test (s ∷ t) r m = elim (Bool-cases (test s)) [
    | inl e ↦ elim (Memᴰ.cases_cons (rw e at m)) [
      | inl same ↦ (Memᴰ.head same, subst (λ x. test x ≡ true) (sym same) e)
      | inr later ↦ let (m', e') = mem_of_mem-select_where test t r later in (Memᴰ.tail m', e')
    ]
    | inr e ↦ let (m', e') = mem_of_mem-select_where test t r (rw e at m) in (Memᴰ.tail m', e')
  ]

  pub mem-insert_by :
      (before : R → R → Bool) (r : R) (t : List R) (s : R)
      → Memᴰ s (insert_by before r t)
      → (s ≡ r) ⊎ Memᴰ s t
  mem-insert_by before r [] s m = Memᴰ.cases_cons m
  mem-insert_by before r (u ∷ t) s m = elim (Bool-cases (before r u)) [
    | inl e ↦ Memᴰ.cases_cons (rw e at m)
    | inr e ↦ elim (Memᴰ.cases_cons (rw e at m)) [
      | inl same ↦ inr (Memᴰ.head same)
      | inr later ↦ elim (mem-insert_by before r t s later) [
        | inl same ↦ inl same
        | inr old ↦ inr (Memᴰ.tail old)
      ]
    ]
  ]

  pub mem-order_by_from :
      (before : R → R → Bool) (done t : List R) (s : R)
      → Memᴰ s (order_by_from before done t)
      → Memᴰ s done ⊎ Memᴰ s t
  mem-order_by_from before done [] s m = inl m
  mem-order_by_from before done (r ∷ t) s m =
      elim (mem-order_by_from before (insert_by before r done) t s m) [
        | inl d ↦ elim (mem-insert_by before r done s d) [
          | inl same ↦ inr (Memᴰ.head same)
          | inr old ↦ inl old
        ]
        | inr later ↦ inr (Memᴰ.tail later)
      ]

  -- ORDER BY brings in no row.
  pub mem_of_mem-order_by :
      (before : R → R → Bool) (t : List R) (s : R) → Memᴰ s (order_by before t) → Memᴰ s t
  mem_of_mem-order_by before t s m = elim (mem-order_by_from before [] t s m) [
    | inl d ↦ absurd (Memᴰ.not-nil d)
    | inr k ↦ k
  ]

  -- SELECT … WHERE brings every row that passes the test.
  pub mem-select_where :
      (test : R → Bool) (t : List R) (r : R)
      → Memᴰ r t
      → test r ≡ true
      → Memᴰ r (select_where test t)
  mem-select_where test [] r m h = absurd (Memᴰ.not-nil m)
  mem-select_where test (s ∷ t) r m h = elim (Memᴰ.cases_cons m) [
    | inl same ↦ rw (subst (λ x. test x ≡ true) same h) (Memᴰ.head same)
    | inr later ↦
        let ih = mem-select_where test t r later h in
        elim (Bool-cases (test s)) [ inl e ↦ rw e (Memᴰ.tail ih) | inr e ↦ rw e ih ]
  ]

  mem-insert_by_of :
      (before : R → R → Bool) (r : R) (t : List R) (s : R)
      → (s ≡ r) ⊎ Memᴰ s t
      → Memᴰ s (insert_by before r t)
  mem-insert_by_of before r [] s h = elim h [
    | inl e ↦ Memᴰ.head e
    | inr m ↦ absurd (Memᴰ.not-nil m)
  ]
  mem-insert_by_of before r (u ∷ t) s h = elim (Bool-cases (before r u)) [
    | inl e ↦ rw e (elim h [ inl same ↦ Memᴰ.head same | inr m ↦ Memᴰ.tail m ])
    | inr e ↦ rw e (elim h [
      | inl same ↦ Memᴰ.tail (mem-insert_by_of before r t s (inl same))
      | inr m ↦ elim (Memᴰ.cases_cons m) [
        | inl same ↦ Memᴰ.head same
        | inr later ↦ Memᴰ.tail (mem-insert_by_of before r t s (inr later))
      ]
    ])
  ]

  mem-order_by_from_of :
      (before : R → R → Bool) (done t : List R) (s : R)
      → Memᴰ s done ⊎ Memᴰ s t
      → Memᴰ s (order_by_from before done t)
  mem-order_by_from_of before done [] s h = elim h [ inl m ↦ m | inr m ↦ absurd (Memᴰ.not-nil m) ]
  mem-order_by_from_of before done (r ∷ t) s h =
      mem-order_by_from_of before (insert_by before r done) t s (elim h [
        | inl m ↦ inl (mem-insert_by_of before r done s (inr m))
        | inr m ↦ elim (Memᴰ.cases_cons m) [
          | inl same ↦ inl (mem-insert_by_of before r done s (inl same))
          | inr later ↦ inr later
        ]
      ])

  -- ORDER BY loses no row.
  pub mem-order_by :
      (before : R → R → Bool) (t : List R) (s : R) → Memᴰ s t → Memᴰ s (order_by before t)
  mem-order_by before t s m = mem-order_by_from_of before [] t s (inr m)
