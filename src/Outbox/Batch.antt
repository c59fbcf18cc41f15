-- ===== src/Outbox/Batch.antt =====
-- A drain as one simultaneous step of the table: each due row gets one attempt, judged by the row
-- as it stood when the rows were selected, and no other row changes.
use mathlib.Core.List.Memᴰ
use mathlib.Core.List.{Memᴰ}
use mathlib.Core.Path.{ap₂}
use awiki_open_server.Shared.{
  ℕ, zero, suc, ◌≡◌, refl, sym, ap, subst, ◌∙◌, Bool, true, false, List, [], ◌∷◌, map,
  if◌then◌else◌, Bool-cases, &&-eq-true, inl, inr, arith, eq_iff, Result, ok, err,
}
use awiki_open_server.Shared.Lists.{any, take, any-eq-false_at}
use awiki_open_server.Shared.Table.{update_where, mem_of_mem-select_where, mem_of_mem-order_by}
use awiki_open_server.Storage.{Delivery}
use awiki_open_server.Delivery.{Settings, conflicts}
use awiki_open_server.Delivery.Receivers.{Distinct}
use awiki_open_server.Outbox.{
  Network, Clock, Report, deliver, is_due, due, failed_row, delivered_row, after_attempt,
  is_still_open, count_attempt, attempt_each, drain_locked,
}

-- The identity of rows is their delivery_id.
pub Distinct-unique :
    (rows : List Delivery)
    → Distinct rows
    → (a b : Delivery) → Memᴰ a rows
    → Memᴰ b rows
    → a.delivery_id ≡ b.delivery_id
    → a ≡ b
unfolding conflicts
Distinct-unique [] h a b m k e = absurd (Memᴰ.not-nil m)
Distinct-unique (d ∷ rest) h a b m k e = elim (Memᴰ.cases_cons m) [
  | inl p ↦ elim (Memᴰ.cases_cons k) [
    | inl q ↦ p ∙ sym q
    | inr k' ↦ absurd (
        differs d b (any-eq-false_at (conflicts d) rest h.0 b k')
          (ap (λ (x : Delivery). x.delivery_id) (sym p) ∙ e))
  ]
  | inr m' ↦ elim (Memᴰ.cases_cons k) [
    | inl q ↦ absurd (
        differs d a (any-eq-false_at (conflicts d) rest h.0 a m')
          (ap (λ (x : Delivery). x.delivery_id) (sym q) ∙ sym e))
    | inr k' ↦ Distinct-unique rest h.1 a b m' k' e
  ]
]
  where
    differs : (x y : Delivery) → conflicts x y ≡ false → x.delivery_id ≡ y.delivery_id → ⊥
    differs x y c e = ground (arith, eq_iff y.delivery_id x.delivery_id)

mem_of_mem-take {ℓ} : {A : Type ℓ} (n : ℕ) (xs : List A) (a : A) → Memᴰ a (take n xs) → Memᴰ a xs
mem_of_mem-take zero xs a m = absurd (Memᴰ.not-nil m)
mem_of_mem-take (suc n) [] a m = m
mem_of_mem-take (suc n) (x ∷ xs) a m = elim (Memᴰ.cases_cons m) [
  | inl e ↦ Memᴰ.head e
  | inr k ↦ Memᴰ.tail (mem_of_mem-take n xs a k)
]

-- A selected row is a row of the table that is open, due and not blocked.
pub mem-due :
    (now limit : ℕ) (rows : List Delivery) (r : Delivery)
    → Memᴰ r (due now limit rows)
    → Memᴰ r rows × (is_due now rows r ≡ true)
unfolding due
mem-due now limit rows r m =
    mem_of_mem-select_where (is_due now rows) rows r
      (mem_of_mem-order_by _ _ r (mem_of_mem-take _ _ r m))

module _ (settings : Settings) (net : Network) (clock : Clock) where
  -- The row after its own attempt.
  abbrev pub attempted : Delivery → Delivery
  attempted d = after_attempt clock d (deliver settings net d) d

  -- What the update for `r` makes of a row.
  abbrev pub update_by : Delivery → Delivery → Delivery
  update_by r d = if is_still_open r d then after_attempt clock r (deliver settings net r) d else d

  -- What the updates for all of `rs`, in turn, make of a row.
  abbrev pub update_all : List Delivery → Delivery → Delivery
  update_all [] d = d
  update_all (r ∷ rs) d = update_all rs (update_by r d)

  map-map : (f g : Delivery → Delivery) (t : List Delivery) → map g (map f t) ≡ map (λ d. g (f d)) t
  map-map f g [] = refl
  map-map f g (d ∷ t) = ap (◌∷◌ (g (f d))) (map-map f g t)

  map_id : (t : List Delivery) → t ≡ map (λ d. d) t
  map_id [] = refl
  map_id (d ∷ t) = ap (◌∷◌ d) (map_id t)

  -- The loop over the rows is a map of the table.
  attempt_each-map :
      (rs : List Delivery) (report : Report) (t : List Delivery)
      → (attempt_each settings net clock rs report t).1 ≡ map (update_all rs) t
  unfolding attempt_each
  attempt_each-map [] report t = map_id t
  attempt_each-map (r ∷ rs) report t =
      attempt_each-map rs (count_attempt r (deliver settings net r) report)
        (update_where (is_still_open r) (after_attempt clock r (deliver settings net r)) t)
      ∙ map-map (update_by r) (update_all rs) t

  -- A second attempt with the same reading of the row changes nothing.
  after_attempt_twice :
      (r : Delivery) (x : Result (Unit {0}))
      → after_attempt clock r x (after_attempt clock r x r) ≡ after_attempt clock r x r
  unfolding delivered_row failed_row
  after_attempt_twice r (ok u) = refl
  after_attempt_twice r (err e) = refl

  id-attempted :
      (d : Delivery) (x : Result (Unit {0}))
      → (after_attempt clock d x d).delivery_id ≡ d.delivery_id
  unfolding delivered_row failed_row
  id-attempted d (ok u) = refl
  id-attempted d (err e) = refl

  update_by-attempted :
      (r d : Delivery)
      → (r.delivery_id ≡ d.delivery_id → r ≡ d)
      → update_by r (attempted d) ≡ attempted d
  update_by-attempted r d same = elim (Bool-cases (is_still_open r (attempted d))) [
    | inl e ↦
        let p =
          same
            (sym ((eq_iff _ _).0 (&&-eq-true _ _ e).0) ∙ id-attempted d (deliver settings net d)) in
        rw (e, update_by)
          (subst
            (λ (x : Delivery).
              after_attempt clock x (deliver settings net x) (attempted d) ≡ attempted d)
            (sym p) (after_attempt_twice d (deliver settings net d)))
    | inr e ↦ rw (e, update_by)
  ]

  -- A row that has been attempted stays so under updates by rows that share its identifier.
  update_all-attempted :
      (rs : List Delivery) (d : Delivery)
      → ((r : Delivery) → Memᴰ r rs → r.delivery_id ≡ d.delivery_id → r ≡ d)
      → update_all rs (attempted d) ≡ attempted d
  update_all-attempted [] d same = refl
  update_all-attempted (r ∷ rs) d same =
      ap (update_all rs) (update_by-attempted r d (same r (Memᴰ.head refl)))
      ∙ update_all-attempted rs d (λ x m. same x (Memᴰ.tail m))

  -- The rows that an update for one of `rs` applies to.
  abbrev pub is_hit : List Delivery → Delivery → Bool
  is_hit rs d = any (λ r. is_still_open r d) rs

  update_all_other : (rs : List Delivery) (d : Delivery) → is_hit rs d ≡ false → update_all rs d ≡ d
  update_all_other [] d h = refl
  update_all_other (r ∷ rs) d h =
      ap (update_all rs)
        (let e : is_still_open r d ≡ false = ground arith in rw (e, update_by) refl)
      ∙ update_all_other rs d (ground arith)

  update_all_hit :
      (rs : List Delivery) (d : Delivery)
      → ((r : Delivery) → Memᴰ r rs → r.delivery_id ≡ d.delivery_id → r ≡ d)
      → is_hit rs d ≡ true
      → update_all rs d ≡ attempted d
  update_all_hit [] d same h = cc
  update_all_hit (r ∷ rs) d same h = elim (Bool-cases (is_still_open r d)) [
    | inl e ↦
        let p = same r (Memᴰ.head refl) (sym ((eq_iff _ _).0 (&&-eq-true _ _ e).0)) in
        ap (update_all rs) (
          rw (e, update_by)
            (subst
              (λ (x : Delivery). after_attempt clock x (deliver settings net x) d ≡ attempted d)
              (sym p) refl))
        ∙ update_all-attempted rs d (λ x m. same x (Memᴰ.tail m))
    | inr e ↦
        ap (update_all rs) (rw (e, update_by) refl)
        ∙ update_all_hit rs d (λ x m. same x (Memᴰ.tail m)) (ground arith)
  ]

  -- One row of the table after the drain.
  abbrev pub step_row : List Delivery → Delivery → Delivery
  step_row rs d = if is_hit rs d then attempted d else d

  update_all-step_row :
      (rs : List Delivery) (d : Delivery)
      → ((r : Delivery) → Memᴰ r rs → r.delivery_id ≡ d.delivery_id → r ≡ d)
      → update_all rs d ≡ step_row rs d
  update_all-step_row rs d same = elim (Bool-cases (is_hit rs d)) [
    | inl e ↦ rw e (update_all_hit rs d same e)
    | inr e ↦ rw e (update_all_other rs d e)
  ]

  map_congr :
      (f g : Delivery → Delivery) (t : List Delivery)
      → ((d : Delivery) → Memᴰ d t → f d ≡ g d)
      → map f t ≡ map g t
  map_congr f g [] h = refl
  map_congr f g (d ∷ t) h =
      ap₂ ◌∷◌ (h d (Memᴰ.head refl)) (map_congr f g t (λ x m. h x (Memᴰ.tail m)))

  -- Over a table with distinct identifiers, a drain gives every due row exactly one attempt, with
  -- the outcome of `deliver` on the row as it stood, and leaves every other row as it was.
  pub drain-map :
      (limit : ℕ) (rows : List Delivery)
      → Distinct rows
      → (drain_locked settings net clock limit rows).1
        ≡ map (step_row (due clock.now limit rows)) rows
  unfolding drain_locked
  drain-map limit rows h =
      let rs = due clock.now limit rows in
      attempt_each-map rs _ rows
      ∙ map_congr (update_all rs) (step_row rs) rows (λ d m.
        update_all-step_row rs d
          (λ r k e. Distinct-unique rows h r d (mem-due clock.now limit rows r k).0 m e))

  -- A row is hit only if it is one of the selected rows.
  pub hit-due :
      (limit : ℕ) (rows : List Delivery) (d : Delivery)
      → Distinct rows
      → Memᴰ d rows
      → is_hit (due clock.now limit rows) d ≡ true
      → is_due clock.now rows d ≡ true
  hit-due limit rows d h m e =
      let rs = due clock.now limit rows in go rs e (λ r k. mem-due clock.now limit rows r k)
    where
      go :
          (rs : List Delivery)
          → is_hit rs d ≡ true
          → ((r : Delivery) → Memᴰ r rs → Memᴰ r rows × (is_due clock.now rows r ≡ true))
          → is_due clock.now rows d ≡ true
      go [] e selected = cc
      go (r ∷ rs) e selected = elim (Bool-cases (is_still_open r d)) [
        | inl p ↦
            let (k, q) = selected r (Memᴰ.head refl) in
            subst (λ (x : Delivery). is_due clock.now rows x ≡ true)
              (Distinct-unique rows h r d k m (sym ((eq_iff _ _).0 (&&-eq-true _ _ p).0))) q
        | inr p ↦ go rs (ground arith) (λ x k. selected x (Memᴰ.tail k))
      ]
