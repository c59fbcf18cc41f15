-- ===== src/Hosting/Order.antt =====
-- messaging/groups/service.py: the versions of a group only go up, and its events and messages stand
-- in their order.
use awiki_open_server.Shared.{
  ℕ, ◌≤◌, ◌<◌, String, ◌≡◌, sym, ap, ◌∙◌, subst, true, false, Option, none, some, List, [], ◌∷◌,
  ◌++◌, inl, inr, append-nil, arith, ◌==◌, eq_iff, false≢true, Bool-cases,
}
use awiki_open_server.Shared.Lists.{All, All-append, All_imp}
use awiki_open_server.Shared.Keys.{first-update_some, first-update_other}
use awiki_open_server.Storage.{HostedGroup}
use awiki_open_server.Host.{HostDb, HostedMessage}
use awiki_open_server.Hosting.Core.{Core, core}
use awiki_open_server.Hosting.Advance.{IsAdvance, group_at, list_of}
use awiki_open_server.Hosting.Run.{Step, Run, done, step, Step-Progress}

-- An entry of a group that stands at or before the versions of the group.
abbrev pub IsWithin : Core → String → ℕ → ℕ → Type 0
IsWithin c did seq version =
    (g : HostedGroup) × (group_at c did ≡ some g)
    × (seq ≤ g.group_event_seq)
    × (version ≤ g.group_state_version)

-- The entries of each group in the order of their places, each place taken once.
abbrev pub Ascending {ℓ} : {A : Type ℓ} → (A → String) → (A → ℕ) → List A → Type 0
Ascending group_of seq_of [] = Unit
Ascending group_of seq_of (a ∷ rest) =
    All (λ b. group_of a ≡ group_of b → seq_of a < seq_of b) rest × Ascending group_of seq_of rest

Ascending-append {ℓ} :
    {A : Type ℓ} (group_of : A → String) (seq_of : A → ℕ) (xs : List A) (b : A)
    → Ascending group_of seq_of xs
    → All (λ a. group_of a ≡ group_of b → seq_of a < seq_of b) xs
    → Ascending group_of seq_of (xs ++ b ∷ [])
Ascending-append group_of seq_of [] b h k = (tt, tt)
Ascending-append group_of seq_of (x ∷ xs) b h k = (
  All-append (λ y. group_of x ≡ group_of y → seq_of x < seq_of y) xs (b ∷ []) h.0 (k.0, tt),
  Ascending-append group_of seq_of xs b h.1 k.1,
)

-- Events and messages stand within the versions of their groups, in the order of their places.
pub record IsOrdered (c : Core) : Type 0 where
  pub events : All (λ e. IsWithin c e.group_did e.group_event_seq e.group_state_version) c.events
  pub messages : All (λ m. IsWithin c m.group_did m.group_event_seq 0) c.messages
  pub events_ascend : Ascending (λ e. e.group_did) (λ e. e.group_event_seq) c.events
  pub messages_ascend : Ascending (λ m. m.group_did) (λ m. m.group_event_seq) c.messages

module _ (before after : Core) (k : IsAdvance before after) where
  -- The group that went on, and the others, as they are found afterwards.
  group_after : group_at after k.group_did ≡ some (k.change k.group)
  group_after =
      ap (λ (c : Core). group_at c k.group_did) k.tables
      ∙ first-update_some (λ (g : HostedGroup). g.group_did == k.group_did) k.change before.groups
          k.group (λ g h. subst (λ (x : String). (x == k.group_did) ≡ true) (sym (k.keeps g)) h)
          k.found

  other_after :
      (did : String) → (k.group_did == did) ≡ false → group_at after did ≡ group_at before did
  other_after did h =
      ap (λ (c : Core). group_at c did) k.tables
      ∙ first-update_other (λ (g : HostedGroup). g.group_did == did)
          (λ (g : HostedGroup). g.group_did == k.group_did) k.change before.groups
          (λ g e.
            subst (λ (x : String). (x == did) ≡ false) (sym ((eq_iff g.group_did k.group_did).0 e))
              h)
          (λ g. ap (λ (x : String). x == did) (k.keeps g))

  -- What was within its group is within it afterwards, and before the new place.
  within_after :
      (did : String) (seq version : ℕ)
      → IsWithin before did seq version
      → IsWithin after did seq version
        × (did ≡ k.group_did → seq < (k.change k.group).group_event_seq)
  within_after did seq version (g, e, low, lower) = elim (Bool-cases (k.group_did == did)) [
    | inl here ↦
        let same = (eq_iff k.group_did did).0 here in
        let at_group =
          some-injective
            (sym e ∙ subst (λ (x : String). group_at before x ≡ some k.group) same k.found) in
        let seq_low : seq ≤ k.group.group_event_seq =
          subst (λ (x : HostedGroup). seq ≤ x.group_event_seq) at_group low in
        let version_low : version ≤ k.group.group_state_version =
          subst (λ (x : HostedGroup). version ≤ x.group_state_version) at_group lower in
        (
          (
            k.change k.group,
            subst (λ (x : String). group_at after x ≡ some (k.change k.group)) same group_after,
            omega (arith, k.seq, seq_low),
            omega (arith, k.version.0, version_low),
          ),
          λ d. omega (arith, k.seq, seq_low),
        )
    | inr there ↦ ((g, other_after did there ∙ e, low, lower), λ d. absurd (not_other did there d))
  ]
    where
      some-injective : {a b : HostedGroup} → ◌≡◌ {A = Option HostedGroup} (some a) (some b) → a ≡ b
      some-injective h = cc

      not_other : (did : String) → (k.group_did == did) ≡ false → ¬ (did ≡ k.group_did)
      not_other did h d = false≢true (sym h ∙ (eq_iff k.group_did did).1 (sym d))

  -- Entries that were in their order are still, and one of the new versions comes behind them.
  module _ {A : Type 0} (group_of : A → String) (seq_of version_of : A → ℕ) (xs : List A)
      (within : All (λ a. IsWithin before (group_of a) (seq_of a) (version_of a)) xs) where
    old_entries : All (λ a. IsWithin after (group_of a) (seq_of a) (version_of a)) xs
    old_entries =
        All_imp (λ a. IsWithin before (group_of a) (seq_of a) (version_of a))
          (λ a. IsWithin after (group_of a) (seq_of a) (version_of a)) xs
          (λ a h. (within_after (group_of a) (seq_of a) (version_of a) h).0) within

    with_entry :
        (b : A)
        → group_of b ≡ k.group_did
        → seq_of b ≡ (k.change k.group).group_event_seq
        → version_of b ≤ (k.change k.group).group_state_version
        → Ascending group_of seq_of xs
        → All (λ a. IsWithin after (group_of a) (seq_of a) (version_of a)) (xs ++ b ∷ [])
          × Ascending group_of seq_of (xs ++ b ∷ [])
    with_entry b is_group is_seq low ascend = (
      All-append (λ a. IsWithin after (group_of a) (seq_of a) (version_of a)) xs (b ∷ [])
          old_entries
          (
            (
              k.change k.group,
              ap (λ (x : String). group_at after x) is_group ∙ group_after,
              omega (arith, is_seq),
              low,
            ),
            tt,
          ),
      Ascending-append group_of seq_of xs b ascend (
          All_imp (λ a. IsWithin before (group_of a) (seq_of a) (version_of a))
            (λ a. group_of a ≡ group_of b → seq_of a < seq_of b) xs
            (λ a h same. omega (
              arith,
              is_seq,
              (within_after (group_of a) (seq_of a) (version_of a) h).1 (same ∙ is_group),
            ))
            within),
    )

  messages_after :
      (m : Option HostedMessage)
      → All
          (λ m.
            (m.group_did ≡ k.group_did) × (m.group_event_seq ≡ (k.change k.group).group_event_seq))
          (list_of m)
      → IsOrdered before
      → All (λ m. IsWithin after m.group_did m.group_event_seq 0) (before.messages ++ list_of m)
        × Ascending (λ m. m.group_did) (λ m. m.group_event_seq) (before.messages ++ list_of m)
  messages_after none h o =
      subst
        (λ (ms : List HostedMessage).
          All (λ m. IsWithin after m.group_did m.group_event_seq 0) ms
          × Ascending (λ m. m.group_did) (λ m. m.group_event_seq) ms)
        (sym (append-nil before.messages))
        (
          old_entries (λ m. m.group_did) (λ m. m.group_event_seq) (λ m. 0) before.messages
              o.messages,
          o.messages_ascend,
        )
  messages_after (some m) h o =
      with_entry (λ m. m.group_did) (λ m. m.group_event_seq) (λ m. 0) before.messages o.messages m
        h.0.0 h.0.1 (omega arith) o.messages_ascend

  advance-IsOrdered : IsOrdered before → IsOrdered after
  advance-IsOrdered o =
      let events =
        with_entry (λ e. e.group_did) (λ e. e.group_event_seq) (λ e. e.group_state_version)
          before.events o.events k.e k.is_group k.is_seq (omega (arith, k.is_version))
          o.events_ascend in
      let messages = messages_after k.message k.in_place o in
      let same_events = sym (ap (λ (c : Core). c.events) k.tables) in
      let same_messages = sym (ap (λ (c : Core). c.messages) k.tables) in
      record {
        events =
            subst (All (λ e. IsWithin after e.group_did e.group_event_seq e.group_state_version))
              same_events events.0;
        messages =
            subst (All (λ m. IsWithin after m.group_did m.group_event_seq 0)) same_messages
              messages.0;
        events_ascend =
            subst (Ascending (λ e. e.group_did) (λ e. e.group_event_seq)) same_events events.1;
        messages_ascend =
            subst (Ascending (λ m. m.group_did) (λ m. m.group_event_seq)) same_messages messages.1;
      }

Step-IsOrdered :
    {before after : HostDb} → Step before after → IsOrdered (core before) → IsOrdered (core after)
Step-IsOrdered {before = before} {after = after} s o = elim (Step-Progress before after s) [
  | inl same ↦ subst IsOrdered (sym same) o
  | inr k ↦ advance-IsOrdered (core before) (core after) k o
]

-- Along every run of the handlers of a group, each event and each message stays at or before the
-- event_seq of its group, and the events and the messages of a group stand in strictly ascending
-- order, so that no place is taken twice.
pub Run-IsOrdered :
    {first last : HostDb} → Run first last → IsOrdered (core first) → IsOrdered (core last)
Run-IsOrdered done o = o
Run-IsOrdered (step r s) o = Step-IsOrdered s (Run-IsOrdered r o)
