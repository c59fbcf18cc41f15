-- ===== src/Outbox/Run.antt =====
-- The worker over any number of cycles, whatever the network does in each.
use mathlib.Core.List.Memᴰ
use mathlib.Core.List.{Memᴰ}
use awiki_open_server.Shared.{ℕ, ◌≡◌, refl, ◌∙◌, List, [], ◌∷◌, map, Bool-cases, inl, inr, arith}
use awiki_open_server.Shared.Lists.{any, All}
use awiki_open_server.Storage.{Delivery}
use awiki_open_server.Delivery.{Settings, conflicts}
use awiki_open_server.Delivery.Receivers.{Distinct}
use awiki_open_server.Outbox.{
  Network, Clock, Cycle, due, failed_row, delivered_row, drain_locked, drain_once, run,
}
use awiki_open_server.Outbox.Batch.{drain-map, step_row}
use awiki_open_server.Outbox.Order.{IsInOrder, drain-IsInOrder}
use awiki_open_server.Outbox.Attempts.{IsCounted, drain-IsCounted}

-- What holds of the outbox between two cycles.
pub record IsSound (rows : List Delivery) : Type 0 where
  pub distinct : Distinct rows
  pub in_order : IsInOrder rows
  pub counted : All IsCounted rows

module _ (settings : Settings) (net : Network) (clock : Clock) where
  conflicts-step_row :
      (rs : List Delivery) (a b : Delivery)
      → conflicts (step_row settings net clock rs a) (step_row settings net clock rs b)
        ≡ conflicts a b
  unfolding conflicts failed_row delivered_row
  conflicts-step_row rs a b = ground arith

  any-conflicts-step_row :
      (rs : List Delivery) (a : Delivery) (t : List Delivery)
      → any (conflicts (step_row settings net clock rs a)) (map (step_row settings net clock rs) t)
        ≡ any (conflicts a) t
  any-conflicts-step_row rs a [] = refl
  any-conflicts-step_row rs a (b ∷ t) =
      rw (conflicts-step_row rs a b) (rw (any-conflicts-step_row rs a t) refl)

  Distinct-step_row :
      (rs t : List Delivery) → Distinct t → Distinct (map (step_row settings net clock rs) t)
  Distinct-step_row rs [] h = tt
  Distinct-step_row rs (d ∷ t) h = (any-conflicts-step_row rs d t ∙ h.0, Distinct-step_row rs t h.1)

  drain-IsSound :
      (limit : ℕ) (rows : List Delivery)
      → IsSound rows
      → IsSound (drain_locked settings net clock limit rows).1
  drain-IsSound limit rows s = record {
    distinct =
        rw (drain-map settings net clock limit rows s.distinct)
          (Distinct-step_row (due clock.now limit rows) rows s.distinct);
    in_order = drain-IsInOrder settings net clock limit rows s.distinct s.in_order;
    counted = drain-IsCounted settings net clock limit rows s.distinct s.counted;
  }

drain_once-IsSound :
    (settings : Settings) (c : Cycle) (rows : List Delivery)
    → IsSound rows
    → IsSound (drain_once settings c.net c.clock c.locked 50 rows).1
unfolding drain_once
drain_once-IsSound settings c rows s = elim (Bool-cases c.locked) [
  | inl e ↦ rw (e, drain_once) s
  | inr e ↦ rw (e, drain_once) (drain-IsSound settings c.net c.clock 50 rows s)
]

-- From an outbox with distinct rows, in the order of deliveries and within the bound on attempts,
-- any number of cycles leads to such an outbox again, whatever the network answers in each, whatever
-- the clock reads, and whether or not another drain holds the lock.
pub run-IsSound :
    (settings : Settings) (cycles : List Cycle) (rows : List Delivery)
    → IsSound rows
    → IsSound (run settings cycles rows)
unfolding run
run-IsSound settings [] rows s = s
run-IsSound settings (c ∷ cycles) rows s =
    run-IsSound settings cycles _ (drain_once-IsSound settings c rows s)
