-- ===== src/Delivery/Capacity.antt =====
-- The bound on the outbox that ensure_outbox_capacity sets, for the rows of one message.
use awiki_open_server.Shared.{
  ℕ, suc, ◌+◌, ◌≤◌, max, String, ◌≡◌, Bool, List, [], ◌∷◌, ◌++◌, arith, ok,
}
use awiki_open_server.Shared.Json.{Value}
use awiki_open_server.Shared.Lists.{length}
use awiki_open_server.Shared.Table.{count_where}
use awiki_open_server.Storage.{HostedMember, Delivery, Db, is_open}
use awiki_open_server.Delivery.{
  Settings, Incoming, insert_or_ignore, enqueue, enqueue_each, open_count, capacity_limit,
  ensure_outbox_capacity, remote_members, enqueue_incoming_message, incoming_envelope, new_delivery,
  home_of,
}

module _ {ℓ} {R : Type ℓ} where
  pub count_where-append :
      (test : R → Bool) (t u : List R)
      → count_where test (t ++ u) ≡ count_where test t + count_where test u
  count_where-append test [] u = omega arith
  count_where-append test (r ∷ t) u = ground (arith, count_where-append test t u)

open_count-enqueue : (row : Delivery) (db : Db) → open_count (enqueue row db) ≤ open_count db + 1
unfolding open_count enqueue insert_or_ignore
open_count-enqueue row db =
    ground (arith, count_where-append (λ d. is_open d.status) db.group_delivery_outbox (row ∷ []))

pub open_count-enqueue_each :
    (envelope : HostedMember → Value) (ids : ℕ → String) (group_did : String) (seq : ℕ)
    (method : String) (at : ℕ) (ms : List HostedMember) (db : Db)
    → open_count (enqueue_each envelope ids group_did seq method at ms db)
      ≤ open_count db + length ms
unfolding enqueue_each
open_count-enqueue_each envelope ids group_did seq method at [] db = omega arith
open_count-enqueue_each envelope ids group_did seq method at (m ∷ ms) db =
    let row = new_delivery (ids 0) group_did seq m (home_of m) method (envelope m) at in
    omega (
      arith,
      open_count-enqueue_each envelope (λ n. ids (suc n)) group_did seq method at ms
          (enqueue row db),
      open_count-enqueue row db,
    )

capacity_checked :
    (settings : Settings) (db : Db) (group_did : String) (management : Bool)
    → ensure_outbox_capacity settings db group_did management ≡ ok tt
    → open_count db + length (remote_members settings db group_did)
      ≤ max (open_count db) (capacity_limit settings management)
unfolding ensure_outbox_capacity
capacity_checked settings db group_did management h = ground arith

-- Where the capacity check passes, the rows of one message leave the outbox with no more open rows
-- than the limit, or than it had before.
pub incoming-within-limit :
    (settings : Settings) (ids : ℕ → String) (group_did : String) (version seq : ℕ)
    (message : Incoming) (at : ℕ) (management : Bool) (db : Db)
    → ensure_outbox_capacity settings db group_did management ≡ ok tt
    → open_count (enqueue_incoming_message settings ids group_did version seq message at db)
      ≤ max (open_count db) (capacity_limit settings management)
unfolding enqueue_incoming_message
incoming-within-limit settings ids group_did version seq message at management db h = omega (
  arith,
  open_count-enqueue_each (incoming_envelope group_did version seq message) ids group_did seq
      "group.incoming" at (remote_members settings db group_did) db,
  capacity_checked settings db group_did management h,
)
