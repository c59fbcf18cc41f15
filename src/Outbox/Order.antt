-- ===== src/Outbox/Order.antt =====
-- Deliveries of one group to one target go out in the order of their events.
use mathlib.Core.List.Memᴰ
use mathlib.Core.List.{Memᴰ}
use awiki_open_server.Shared.{
  ℕ, ◌<◌, ◌≡◌, refl, sym, ap, subst, ◌∙◌, true, List, Bool-cases, inl, inr, arith, eq_iff,
}
use awiki_open_server.Shared.Lists.{any-eq-false_at}
use awiki_open_server.Storage.{Delivery, delivered}
use awiki_open_server.Delivery.{Settings}
use awiki_open_server.Delivery.Receivers.{Distinct}
use awiki_open_server.Outbox.{
  Network, Clock, blocks, blocked, due, is_due, failed_row, delivered_row, drain_locked,
}
use awiki_open_server.Outbox.Batch.{drain-map, step_row, is_hit, hit-due}

-- Of two rows of one group and target, the later is delivered only after the earlier.
abbrev pub IsInOrder : List Delivery → Type 0
IsInOrder rows =
    (a b : Delivery)
    → Memᴰ a rows
    → Memᴰ b rows
    → a.group_did ≡ b.group_did
    → a.target_did ≡ b.target_did
    → a.group_event_seq < b.group_event_seq
    → b.status ≡ delivered
    → a.status ≡ delivered

module _ (settings : Settings) (net : Network) (clock : Clock) where
  -- An attempt keeps what identifies a row.
  pub record SameKey (a b : Delivery) : Type 0 where
    pub group : a.group_did ≡ b.group_did
    pub target : a.target_did ≡ b.target_did
    pub seq : a.group_event_seq ≡ b.group_event_seq

  pub step_row-SameKey :
      (rs : List Delivery) (d : Delivery) → SameKey (step_row settings net clock rs d) d
  unfolding failed_row delivered_row
  step_row-SameKey rs d = ground arith

  -- A row that was delivered stays so.
  pub step_row-delivered :
      (limit : ℕ) (rows : List Delivery) (d : Delivery)
      → Distinct rows
      → Memᴰ d rows
      → d.status ≡ delivered
      → step_row settings net clock (due clock.now limit rows) d ≡ d
  step_row-delivered limit rows d h m s =
      elim (Bool-cases (is_hit settings net clock (due clock.now limit rows) d)) [
        | inl e ↦ let p = hit-due settings net clock limit rows d h m e in absurd (ground arith)
        | inr e ↦ rw e refl
      ]

  not_blocked_at :
      (rows : List Delivery) (a b : Delivery)
      → is_due clock.now rows b ≡ true
      → Memᴰ a rows
      → a.group_did ≡ b.group_did
      → a.target_did ≡ b.target_did
      → a.group_event_seq < b.group_event_seq
      → a.status ≡ delivered
  unfolding blocked
  not_blocked_at rows a b p m g t lt =
      let free = any-eq-false_at (blocks b) rows (ground arith) a m in
      ground (arith, free, eq_iff a.group_did b.group_did, eq_iff a.target_did b.target_did)

  step_row-IsInOrder :
      (limit : ℕ) (rows : List Delivery) (x y : Delivery)
      → Distinct rows
      → IsInOrder rows
      → Memᴰ x rows
      → Memᴰ y rows
      → x.group_did ≡ y.group_did
      → x.target_did ≡ y.target_did
      → x.group_event_seq < y.group_event_seq
      → (step_row settings net clock (due clock.now limit rows) y).status ≡ delivered
      → (step_row settings net clock (due clock.now limit rows) x).status ≡ delivered
  step_row-IsInOrder limit rows x y h o mx my g t lt e =
      let rs = due clock.now limit rows in
      let done : x.status ≡ delivered = elim (Bool-cases (is_hit settings net clock rs y)) [
        | inl hit ↦
            not_blocked_at rows x y (hit-due settings net clock limit rows y h my hit) mx g t lt
        | inr kept ↦ o x y mx my g t lt (rw (kept, step_row) at e)
      ] in
      rw (step_row-delivered limit rows x h mx done) done

  -- A drain keeps the order.
  pub drain-IsInOrder :
      (limit : ℕ) (rows : List Delivery)
      → Distinct rows
      → IsInOrder rows
      → IsInOrder (drain_locked settings net clock limit rows).1
  drain-IsInOrder limit rows h o a b ma mb g t lt e =
      let rs = due clock.now limit rows in
      let f = step_row settings net clock rs in
      let (x, mx, px) =
        Memᴰ.of_map f rows (subst (Memᴰ a) (drain-map settings net clock limit rows h) ma) in
      let (y, my, py) =
        Memᴰ.of_map f rows (subst (Memᴰ b) (drain-map settings net clock limit rows h) mb) in
      let kx = step_row-SameKey rs x in
      let ky = step_row-SameKey rs y in
      ap (λ (d : Delivery). d.status) (sym px)
      ∙ step_row-IsInOrder limit rows x y h o mx my
          (sym kx.group
            ∙ ap (λ (d : Delivery). d.group_did) px
            ∙ g
            ∙ ap (λ (d : Delivery). d.group_did) (sym py)
            ∙ ky.group)
          (sym kx.target
            ∙ ap (λ (d : Delivery). d.target_did) px
            ∙ t
            ∙ ap (λ (d : Delivery). d.target_did) (sym py)
            ∙ ky.target)
          (omega (
            arith,
            kx.seq,
            ky.seq,
            ap (λ (d : Delivery). d.group_event_seq) px,
            ap (λ (d : Delivery). d.group_event_seq) py,
          ))
          (ap (λ (d : Delivery). d.status) py ∙ e)
