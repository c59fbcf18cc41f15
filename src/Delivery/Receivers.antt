-- ===== src/Delivery/Receivers.antt =====
-- Who gets a row of the outbox, and that no event is sent twice to one target.
use mathlib.Core.List.Memᴰ
use mathlib.Core.List.{Memᴰ}
use awiki_open_server.Shared.{
  ℕ, suc, String, ◌≡◌, refl, Bool, true, false, ◌&&◌, List, [], ◌∷◌, ◌++◌, Bool-cases, inl, inr,
  sym, subst, arith, ◌==◌, eq_iff, eq_refl, nat_eq,
}
use awiki_open_server.Shared.Json.{Value}
use awiki_open_server.Shared.Lists.{any, any-append, any-or}
use awiki_open_server.Shared.Table.{mem-select_where, mem-order_by}
use awiki_open_server.Storage.{HostedMember, Delivery, Db, is_active}
use awiki_open_server.Delivery.{
  Settings, Incoming, conflicts, insert_or_ignore, enqueue, enqueue_each, new_delivery, home_of,
  remote_members, enqueue_incoming_message, incoming_envelope, is_elsewhere, by_agent,
}

-- A remote active member is among the receivers.
mem-remote_members :
    (settings : Settings) (db : Db) (group_did : String) (m : HostedMember)
    → Memᴰ m db.hosted_group_members
    → m.group_did ≡ group_did
    → is_active m.status ≡ true
    → is_elsewhere settings m.home_service_did ≡ true
    → Memᴰ m (remote_members settings db group_did)
unfolding remote_members
mem-remote_members settings db group_did m i g a e = mem-order_by by_agent _ m (
    mem-select_where _ db.hosted_group_members m i
      (rw ((eq_iff m.group_did group_did).1 g) (rw a e)))

-- The UNIQUE key of the outbox.
abbrev pub has_key : String → ℕ → String → String → Delivery → Bool
has_key group_did seq target_did method d =
    d.group_did == group_did
    && nat_eq d.group_event_seq seq
    && d.target_did == target_did
    && d.method == method

abbrev pub has_id : String → Delivery → Bool
has_id delivery_id d = d.delivery_id == delivery_id

-- No two rows have one identifier or one key.
abbrev pub Distinct : List Delivery → Type 0
Distinct [] = Unit
Distinct (d ∷ rest) = (any (conflicts d) rest ≡ false) × Distinct rest

conflicts_sym : (a b : Delivery) → conflicts a b ≡ false → conflicts b a ≡ false
unfolding conflicts
conflicts_sym a b h = ground (
  arith,
  eq_iff a.delivery_id b.delivery_id,
  eq_iff b.delivery_id a.delivery_id,
  eq_iff a.group_did b.group_did,
  eq_iff b.group_did a.group_did,
  eq_iff a.target_did b.target_did,
  eq_iff b.target_did a.target_did,
  eq_iff a.method b.method,
  eq_iff b.method a.method,
)

Distinct-append :
    (row : Delivery) (rows : List Delivery)
    → Distinct rows
    → any (conflicts row) rows ≡ false
    → Distinct (rows ++ row ∷ [])
Distinct-append row [] h k = (refl, tt)
Distinct-append row (d ∷ rest) h k = (
  ground (arith, any-append (conflicts d) rest (row ∷ []), conflicts_sym row d),
  Distinct-append row rest h.1 (ground arith),
)

-- An INSERT OR IGNORE keeps identifiers and keys distinct.
pub insert_or_ignore-Distinct :
    (row : Delivery) (rows : List Delivery) → Distinct rows → Distinct (insert_or_ignore row rows)
unfolding insert_or_ignore
insert_or_ignore-Distinct row rows h = elim (Bool-cases (any (conflicts row) rows)) [
  | inl old ↦ rw old h
  | inr new ↦ rw new (Distinct-append row rows h new)
]

-- Where no two rows of the outbox share an identifier or a key, enqueuing an event for any members
-- keeps this so: no event stands twice for one target and method, however often it is enqueued.
pub enqueue_each-Distinct :
    (envelope : HostedMember → Value) (ids : ℕ → String) (group_did : String) (seq : ℕ)
    (method : String) (at : ℕ) (ms : List HostedMember) (db : Db)
    → Distinct db.group_delivery_outbox
    → Distinct (enqueue_each envelope ids group_did seq method at ms db).group_delivery_outbox
unfolding enqueue_each enqueue
enqueue_each-Distinct envelope ids group_did seq method at [] db h = h
enqueue_each-Distinct envelope ids group_did seq method at (m ∷ ms) db h =
    let row = new_delivery (ids 0) group_did seq m (home_of m) method (envelope m) at in
    enqueue_each-Distinct envelope (λ n. ids (suc n)) group_did seq method at ms (enqueue row db)
      (insert_or_ignore-Distinct row db.group_delivery_outbox h)

-- new_id draws identifiers that differ from one another and from those in the table.
pub record IsFresh (ids : ℕ → String) (rows : List Delivery) : Type 0 where
  pub unused : (n : ℕ) → any (has_id (ids n)) rows ≡ false
  pub distinct : (n m : ℕ) → (ids n == ids m) ≡ nat_eq n m

-- A row with the key is there after it was inserted, or was there before.
insert_or_ignore-has_key :
    (row : Delivery) (rows : List Delivery)
    → any (has_id row.delivery_id) rows ≡ false
    → any
        (has_key row.group_did row.group_event_seq row.target_did row.method)
        (insert_or_ignore row rows)
      ≡ true
unfolding insert_or_ignore
insert_or_ignore-has_key row rows fresh =
    let key = has_key row.group_did row.group_event_seq row.target_did row.method in
    ground (
      arith,
      any-or (has_id row.delivery_id) key rows,
      any-append key rows (row ∷ []),
      eq_refl row.group_did,
      eq_refl row.target_did,
      eq_refl row.method,
    )

insert_or_ignore_keeps :
    (test : Delivery → Bool) (row : Delivery) (rows : List Delivery)
    → any test rows ≡ true
    → any test (insert_or_ignore row rows) ≡ true
unfolding insert_or_ignore
insert_or_ignore_keeps test row rows h = ground (arith, any-append test rows (row ∷ []))

enqueue_each_keeps :
    (test : Delivery → Bool) (envelope : HostedMember → Value) (ids : ℕ → String)
    (group_did : String) (seq : ℕ) (method : String) (at : ℕ) (ms : List HostedMember) (db : Db)
    → any test db.group_delivery_outbox ≡ true
    → any test (enqueue_each envelope ids group_did seq method at ms db).group_delivery_outbox
      ≡ true
unfolding enqueue_each enqueue
enqueue_each_keeps test envelope ids group_did seq method at [] db h = h
enqueue_each_keeps test envelope ids group_did seq method at (m ∷ ms) db h =
    let row = new_delivery (ids 0) group_did seq m (home_of m) method (envelope m) at in
    enqueue_each_keeps test envelope (λ n. ids (suc n)) group_did seq method at ms (enqueue row db)
      (insert_or_ignore_keeps test row db.group_delivery_outbox h)

insert_or_ignore-IsFresh :
    (ids : ℕ → String) (row : Delivery) (rows : List Delivery)
    → row.delivery_id ≡ ids 0
    → IsFresh ids rows
    → IsFresh (λ n. ids (suc n)) (insert_or_ignore row rows)
unfolding insert_or_ignore
insert_or_ignore-IsFresh ids row rows e f = record {
  unused = λ n. ground (
    arith,
    any-append (has_id (ids (suc n))) rows (row ∷ []),
    f.unused (suc n),
    f.distinct 0 (suc n),
  );
  distinct = λ n m. ground (arith, f.distinct (suc n) (suc m));
}

pub enqueue_each_reaches :
    (envelope : HostedMember → Value) (ids : ℕ → String) (group_did : String) (seq : ℕ)
    (method : String) (at : ℕ) (ms : List HostedMember) (db : Db)
    → IsFresh ids db.group_delivery_outbox
    → (m : HostedMember) → Memᴰ m ms
    → any
        (has_key group_did seq m.agent_did method)
        (enqueue_each envelope ids group_did seq method at ms db).group_delivery_outbox
      ≡ true
unfolding enqueue_each enqueue
enqueue_each_reaches envelope ids group_did seq method at [] db f m i = absurd (Memᴰ.not-nil i)
enqueue_each_reaches envelope ids group_did seq method at (k ∷ ms) db f m i =
    let row = new_delivery (ids 0) group_did seq k (home_of k) method (envelope k) at in
    elim (Memᴰ.cases_cons i) [
      | inl e ↦
          subst
            (λ (x : HostedMember).
              any (has_key group_did seq x.agent_did method)
                (enqueue_each envelope (λ n. ids (suc n)) group_did seq method at ms
                  (enqueue row db)).group_delivery_outbox
              ≡ true)
            (sym e)
            (enqueue_each_keeps (has_key group_did seq k.agent_did method) envelope
              (λ n. ids (suc n)) group_did seq method at ms (enqueue row db)
              (unfold new_delivery in
                insert_or_ignore-has_key row db.group_delivery_outbox (f.unused 0)))
      | inr later ↦
          enqueue_each_reaches envelope (λ n. ids (suc n)) group_did seq method at ms
            (enqueue row db)
            (insert_or_ignore-IsFresh ids row db.group_delivery_outbox (unfold new_delivery in refl)
              f)
            m later
    ]

-- With fresh identifiers, each active member of the group whose home is another service has a
-- delivery of the message afterwards.
pub incoming_reaches_members :
    (settings : Settings) (ids : ℕ → String) (group_did : String) (version seq : ℕ)
    (message : Incoming) (at : ℕ) (db : Db) (m : HostedMember)
    → IsFresh ids db.group_delivery_outbox
    → Memᴰ m db.hosted_group_members
    → m.group_did ≡ group_did
    → is_active m.status ≡ true
    → is_elsewhere settings m.home_service_did ≡ true
    → any
        (has_key group_did seq m.agent_did "group.incoming")
        (enqueue_incoming_message settings ids group_did version seq message at
          db).group_delivery_outbox
      ≡ true
unfolding enqueue_incoming_message
incoming_reaches_members settings ids group_did version seq message at db m f i g a e =
    enqueue_each_reaches (incoming_envelope group_did version seq message) ids group_did seq
      "group.incoming" at (remote_members settings db group_did) db f m
      (mem-remote_members settings db group_did m i g a e)
