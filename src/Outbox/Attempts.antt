-- ===== src/Outbox/Attempts.antt =====
-- How often a row is tried: the count of attempts is bounded, every drain that selects a row uses
-- some of what is left, and the report adds up.
use mathlib.Core.List.Memᴰ
use mathlib.Core.List.{Memᴰ}
use awiki_open_server.Shared.{
  ℕ, ◌+◌, ◌-◌, ◌≤◌, ◌<◌, min, max, ◌≡◌, ◌≢◌, refl, sym, subst, ◌∙◌, Bool, true, false, ◌||◌, leb,
  List, [], ◌∷◌, map, if◌then◌else◌, Bool-cases, inl, inr, arith, eq_refl, Result, ok, err,
}
use awiki_open_server.Shared.Lists.{
  length, sum_by, length-take-le, All, All_map, All_of_mem, All_at,
}
use awiki_open_server.Shared.Table.{update_where, count_where}
use awiki_open_server.Storage.{Delivery, DeliveryStatus, pending, retry, delivered, dead, is_open}
use awiki_open_server.Delivery.{Settings}
use awiki_open_server.Delivery.Receivers.{Distinct}
use awiki_open_server.Outbox.{
  Network, Clock, Report, max_delivery_attempts, deliver, due, failed_row, delivered_row,
  after_attempt, is_not_supported, count_attempt, attempt_each, drain_locked, empty_report,
  is_still_open,
}
use awiki_open_server.Outbox.Batch.{drain-map, step_row, attempted, is_hit, hit-due, mem-due}

-- An open row has an attempt left, and no row has had more than the maximum.
abbrev pub IsCounted : Delivery → Type 0
IsCounted d =
    (d.attempt_count ≤ max_delivery_attempts)
    × (is_open d.status ≡ true → d.attempt_count < max_delivery_attempts)

-- The attempts that a row has left.
abbrev pub attempts_left : Delivery → ℕ
attempts_left d = if is_open d.status then max_delivery_attempts - d.attempt_count else 0

abbrev pub same_status : DeliveryStatus → DeliveryStatus → Bool
same_status pending pending = true
same_status retry retry = true
same_status delivered delivered = true
same_status dead dead = true
same_status _ _ = false

count_attempt-selected :
    (row : Delivery) (x : Result (Unit {0})) (r : Report)
    → (count_attempt row x r).selected ≡ r.selected
count_attempt-selected row (ok u) r = refl
count_attempt-selected row (err e) r = ground arith

length-due :
    (now limit : ℕ) (rows : List Delivery) → length (due now limit rows) ≤ max 1 (min limit 100)
unfolding due
length-due now limit rows = length-take-le (max 1 (min limit 100)) _

module _ (settings : Settings) (net : Network) (clock : Clock) where
  attempted-IsCounted :
      (d : Delivery)
      → is_open d.status ≡ true
      → IsCounted d
      → IsCounted (attempted settings net clock d)
  unfolding failed_row delivered_row
  attempted-IsCounted d o h = ground arith

  attempts_left-attempted :
      (d : Delivery)
      → is_open d.status ≡ true
      → IsCounted d
      → attempts_left (attempted settings net clock d) < attempts_left d
  unfolding failed_row delivered_row
  attempts_left-attempted d o h = ground arith

  is_open-hit :
      (limit : ℕ) (rows : List Delivery) (d : Delivery)
      → Distinct rows
      → Memᴰ d rows
      → is_hit settings net clock (due clock.now limit rows) d ≡ true
      → is_open d.status ≡ true
  is_open-hit limit rows d h m e =
      let p = hit-due settings net clock limit rows d h m e in ground arith

  -- A drain keeps the counts of attempts within their bound.
  pub drain-IsCounted :
      (limit : ℕ) (rows : List Delivery)
      → Distinct rows
      → All IsCounted rows
      → All IsCounted (drain_locked settings net clock limit rows).1
  drain-IsCounted limit rows h c = rw (drain-map settings net clock limit rows h) (
      All_map _ IsCounted rows (
        All_of_mem _ rows λ d m.
          elim (Bool-cases (is_hit settings net clock (due clock.now limit rows) d)) [
            | inl e ↦ rw e (
                attempted-IsCounted d (is_open-hit limit rows d h m e)
                  (All_at IsCounted rows c d m))
            | inr e ↦ rw e (All_at IsCounted rows c d m)
          ]))

  step_row-le :
      (rs : List Delivery) (d : Delivery)
      → (is_hit settings net clock rs d ≡ true → is_open d.status ≡ true)
      → IsCounted d
      → attempts_left (step_row settings net clock rs d) ≤ attempts_left d
  step_row-le rs d o c = elim (Bool-cases (is_hit settings net clock rs d)) [
    | inl e ↦ rw e (omega (arith, attempts_left-attempted d (o e) c))
    | inr e ↦ rw e (omega arith)
  ]

  sum_by-le :
      (rs t : List Delivery)
      → ((d : Delivery)
          → Memᴰ d t
          → is_hit settings net clock rs d ≡ true
          → is_open d.status ≡ true)
      → All IsCounted t
      → sum_by attempts_left (map (step_row settings net clock rs) t) ≤ sum_by attempts_left t
  sum_by-le rs [] o c = omega arith
  sum_by-le rs (d ∷ t) o c = omega (
    arith,
    step_row-le rs d (o d (Memᴰ.head refl)) c.0,
    sum_by-le rs t (λ x m. o x (Memᴰ.tail m)) c.1,
  )

  sum_by-lt :
      (rs t : List Delivery) (r : Delivery)
      → Memᴰ r t
      → is_hit settings net clock rs r ≡ true
      → ((d : Delivery)
          → Memᴰ d t
          → is_hit settings net clock rs d ≡ true
          → is_open d.status ≡ true)
      → All IsCounted t
      → sum_by attempts_left (map (step_row settings net clock rs) t) < sum_by attempts_left t
  sum_by-lt rs [] r m hit o c = absurd (Memᴰ.not-nil m)
  sum_by-lt rs (d ∷ t) r m hit o c = elim (Memᴰ.cases_cons m) [
    | inl e ↦
        let hit' = subst (λ (x : Delivery). is_hit settings net clock rs x ≡ true) e hit in
        let down = attempts_left-attempted d (o d (Memᴰ.head refl) hit') c.0 in
        rw hit' (omega (arith, down, sum_by-le rs t (λ x k. o x (Memᴰ.tail k)) c.1))
    | inr k ↦ omega (
      arith,
      step_row-le rs d (o d (Memᴰ.head refl)) c.0,
      sum_by-lt rs t r k hit (λ x i. o x (Memᴰ.tail i)) c.1,
    )
  ]

  hit_self :
      (rs : List Delivery) (r : Delivery)
      → Memᴰ r rs
      → is_open r.status ≡ true
      → is_hit settings net clock rs r ≡ true
  hit_self [] r m o = absurd (Memᴰ.not-nil m)
  hit_self (s ∷ rs) r m o = elim (Memᴰ.cases_cons m) [
    | inl e ↦
        subst (λ (x : Delivery). is_hit settings net clock (s ∷ rs) x ≡ true) (sym e)
          (let o' : is_open s.status ≡ true =
              subst (λ (x : Delivery). is_open x.status ≡ true) e o in
            rw (eq_refl s.delivery_id) (rw o' refl))
    | inr k ↦ ground (arith, hit_self rs r k o)
  ]

  -- Over distinct rows within the bound on attempts, every drain that selects a row leaves fewer
  -- attempts in all than before it.
  pub drain-uses_attempts :
      (limit : ℕ) (rows : List Delivery)
      → Distinct rows
      → All IsCounted rows
      → due clock.now limit rows ≢ []
      → sum_by attempts_left (drain_locked settings net clock limit rows).1
        < sum_by attempts_left rows
  drain-uses_attempts limit rows h c some_due =
      rw (drain-map settings net clock limit rows h) (go (due clock.now limit rows) refl some_due)
    where
      go :
          (rs : List Delivery)
          → due clock.now limit rows ≡ rs
          → rs ≢ []
          → sum_by attempts_left (map (step_row settings net clock (due clock.now limit rows)) rows)
            < sum_by attempts_left rows
      go [] e n = absurd (n refl)
      go (r ∷ rs) e n =
          let k = subst (Memᴰ r) (sym e) (Memᴰ.head refl) in
          let (m, p) = mem-due clock.now limit rows r k in
          sum_by-lt (due clock.now limit rows) rows r m
            (hit_self (due clock.now limit rows) r k (ground arith))
            (λ d i hit. is_open-hit limit rows d h i hit) c

  -- Whether the attempt of a row leaves it in a state.
  abbrev pub is_left : DeliveryStatus → Delivery → Bool
  is_left status d = same_status status (attempted settings net clock d).status

  count_attempt-counts :
      (row : Delivery) (report : Report) (rs : List Delivery)
      → let out = count_attempt row (deliver settings net row) report in
        (out.delivered_count + count_where (is_left delivered) rs
          ≡ report.delivered_count + count_where (is_left delivered) (row ∷ rs))
        × (out.retried + count_where (is_left retry) rs
            ≡ report.retried + count_where (is_left retry) (row ∷ rs))
        × (out.dead_count + count_where (is_left dead) rs
            ≡ report.dead_count + count_where (is_left dead) (row ∷ rs))
  unfolding failed_row delivered_row
  count_attempt-counts row report rs = by_outcome (deliver settings net row) refl
    where
      by_outcome :
          (x : Result (Unit {0}))
          → deliver settings net row ≡ x
          → let out = count_attempt row (deliver settings net row) report in
            (out.delivered_count + count_where (is_left delivered) rs
              ≡ report.delivered_count + count_where (is_left delivered) (row ∷ rs))
            × (out.retried + count_where (is_left retry) rs
                ≡ report.retried + count_where (is_left retry) (row ∷ rs))
            × (out.dead_count + count_where (is_left dead) rs
                ≡ report.dead_count + count_where (is_left dead) (row ∷ rs))
      by_outcome (ok u) e = rw e (omega arith, refl, refl)
      by_outcome (err x) e =
          elim (Bool-cases
            (leb max_delivery_attempts (row.attempt_count + 1) || is_not_supported x)) [
              | inl f ↦ rw e (rw f (refl, refl, omega arith))
              | inr f ↦ rw e (rw f (refl, omega arith, refl))
            ]

  attempt_each-counts :
      (rs : List Delivery) (report : Report) (t : List Delivery)
      → let out = (attempt_each settings net clock rs report t).0 in
        (out.selected ≡ report.selected)
        × (out.delivered_count ≡ report.delivered_count + count_where (is_left delivered) rs)
        × (out.retried ≡ report.retried + count_where (is_left retry) rs)
        × (out.dead_count ≡ report.dead_count + count_where (is_left dead) rs)
  unfolding attempt_each
  attempt_each-counts [] report t = (refl, omega arith, omega arith, omega arith)
  attempt_each-counts (r ∷ rs) report t =
      let x = deliver settings net r in
      let one = count_attempt-counts r report rs in
      let (same, sent, again, given_up) =
        attempt_each-counts rs (count_attempt r x report)
          (update_where (is_still_open r) (after_attempt clock r x) t) in
      (same ∙ count_attempt-selected r x report, sent ∙ one.0, again ∙ one.1, given_up ∙ one.2)

  -- The report of a drain counts the rows that were due by the state that their own attempt leaves
  -- them in, and no more rows are selected than the limit allows.
  pub drain_report :
      (limit : ℕ) (rows : List Delivery)
      → let out = (drain_locked settings net clock limit rows).0 in
        (out.selected ≡ length (due clock.now limit rows))
        × (out.delivered_count ≡ count_where (is_left delivered) (due clock.now limit rows))
        × (out.retried ≡ count_where (is_left retry) (due clock.now limit rows))
        × (out.dead_count ≡ count_where (is_left dead) (due clock.now limit rows))
        × (out.selected ≤ max 1 (min limit 100))
  unfolding drain_locked
  drain_report limit rows =
      let rs = due clock.now limit rows in
      let (same, sent, again, given_up) =
        attempt_each-counts rs (record empty_report { selected = length rs }) rows in
      (
        same,
        omega (arith, sent),
        omega (arith, again),
        omega (arith, given_up),
        omega (arith, same, length-due clock.now limit rows),
      )
