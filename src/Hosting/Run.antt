-- ===== src/Hosting/Run.antt =====
-- messaging/groups/service.py: the handlers of the group host as a step relation on its tables, and
-- the runs of such steps.
use awiki_open_server.Shared.{
  ◌≡◌, refl, sym, ap, ◌∙◌, Bool, true, false, some, List, ◌⊎◌, inl, inr, ok,
}
use awiki_open_server.Shared.Json.{Fields}
use awiki_open_server.Storage.{HostedGroup, HostedMember}
use awiki_open_server.Delivery.{find_group}
use awiki_open_server.Operations.{GroupRequest}
use awiki_open_server.Protocol.{Caller}
use awiki_open_server.Host.{
  HostDb, World, set_column, hosted_group_join, hosted_group_add, hosted_group_leave,
  hosted_group_remove, hosted_group_rebind_member, hosted_group_update_profile,
  hosted_group_update_policy, hosted_group_send,
}
use awiki_open_server.Hosting.Core.{Core, core}
use awiki_open_server.Hosting.Handlers.{IsOpened}
use awiki_open_server.Hosting.Advance.{IsAdvance, group_at, changed-IsAdvance, sent-IsAdvance}
use awiki_open_server.Hosting.Members.{with_members}
use awiki_open_server.Hosting.Steps.{IsEntered, IsEnded, IsRebound, IsUpdated, IsTaken}
use awiki_open_server.Hosting.Inverted.{
  membership_mutation_inv, end_membership_inv, hosted_group_rebind_member_inv, update_group_inv,
  hosted_group_send_inv,
}

-- A request to a group that is answered with a result; the tables that a first transaction read may
-- be any.
pub data Step (before after : HostDb) : Type 0 where
  joins :
      (world : World) (caller : Caller) (params : Fields) (earlier : HostDb) (r : Fields)
      → hosted_group_join world caller params earlier before ≡ ok (after, r)
      → Step before after
  adds :
      (world : World) (caller : Caller) (params : Fields) (earlier : HostDb) (r : Fields)
      → hosted_group_add world caller params earlier before ≡ ok (after, r)
      → Step before after
  leaves :
      (world : World) (caller : Caller) (params : Fields) (r : Fields)
      → hosted_group_leave world caller params before ≡ ok (after, r)
      → Step before after
  removes :
      (world : World) (caller : Caller) (params : Fields) (r : Fields)
      → hosted_group_remove world caller params before ≡ ok (after, r)
      → Step before after
  rebinds :
      (world : World) (caller : Caller) (params : Fields) (earlier : HostDb) (r : Fields)
      → hosted_group_rebind_member world caller params earlier before ≡ ok (after, r)
      → Step before after
  updates_profile :
      (world : World) (caller : Caller) (params : Fields) (r : Fields)
      → hosted_group_update_profile world caller params before ≡ ok (after, r)
      → Step before after
  updates_policy :
      (world : World) (caller : Caller) (params : Fields) (r : Fields)
      → hosted_group_update_policy world caller params before ≡ ok (after, r)
      → Step before after
  sends :
      (world : World) (caller : Caller) (params : Fields) (r : Fields)
      → hosted_group_send world caller params before ≡ ok (after, r)
      → Step before after

-- Steps one after another.
pub data Run (first : HostDb) : HostDb → Type 0 where
  done : Run first first
  step : {mid after : HostDb} → Run first mid → Step mid after → Run first after

-- Nothing of the tables that decide changed, or one group went on by one event.
abbrev pub Progress : HostDb → HostDb → Type 0
Progress before after = (core after ≡ core before) ⊎ IsAdvance (core before) (core after)

opened_at :
    (host : HostDb) (context : GroupRequest) (group : HostedGroup)
    → IsOpened host context group
    → group_at (core host) context.target_did ≡ some group
unfolding core find_group
opened_at host context group opened = opened.found

same_rest :
    (before mid : HostDb) (members : List HostedMember)
    → core mid ≡ with_members members (core before)
    → core mid ≡ record (core before) { members = (core mid).members }
same_rest before mid members h =
    h
    ∙ ap (λ (ms : List HostedMember). with_members ms (core before))
        (sym (ap (λ (c : Core). c.members) h))

module _ (world : World) (context : GroupRequest) (before after : HostDb) (r : Fields) where
  entered-IsAdvance :
      (is_join : Bool)
      → IsEntered world context is_join before after r
      → IsAdvance (core before) (core after)
  entered-IsAdvance is_join k =
      changed-IsAdvance context k.group (λ g. g) world.now before k.mid after r
        (opened_at before context k.group k.opened) (λ g. refl)
        (same_rest before k.mid _ k.activated.tables) k.made

  ended-IsAdvance :
      (is_leave : Bool)
      → IsEnded world context is_leave before after r
      → IsAdvance (core before) (core after)
  ended-IsAdvance is_leave k =
      changed-IsAdvance context k.group (λ g. g) world.now before k.mid after r
        (opened_at before context k.group k.opened) (λ g. refl) (same_rest before k.mid _ k.tables)
        k.made

  rebound-IsAdvance : IsRebound world context before after r → IsAdvance (core before) (core after)
  rebound-IsAdvance k =
      changed-IsAdvance context k.group (λ g. g) world.now before k.mid after r
        (opened_at before context k.group k.opened) (λ g. refl) (same_rest before k.mid _ k.tables)
        k.made

  updated-IsAdvance :
      (is_profile : Bool)
      → IsUpdated world context is_profile before after r
      → IsAdvance (core before) (core after)
  updated-IsAdvance is_profile k =
      changed-IsAdvance context k.group (set_column is_profile k.value) world.now before before
        after r (opened_at before context k.group k.opened) (keeps is_profile k.value) refl k.made
    where
      keeps :
          (is_profile : Bool) (value : Fields) (g : HostedGroup)
          → (set_column is_profile value g).group_did ≡ g.group_did
      keeps true value g = refl
      keeps false value g = refl

  taken-IsAdvance : IsTaken world context before after r → IsAdvance (core before) (core after)
  taken-IsAdvance k =
      sent-IsAdvance context k.content k.group world.now before after r
        (opened_at before context k.group k.opened) k.sent

replayed-Progress : (before after : HostDb) → after ≡ before → Progress before after
replayed-Progress before after same = inl (ap core same)

-- Every step is progress.
pub Step-Progress : (before after : HostDb) → Step before after → Progress before after
unfolding hosted_group_join hosted_group_add hosted_group_leave hosted_group_remove
    hosted_group_update_profile hosted_group_update_policy
Step-Progress before after (joins world caller params earlier r h) =
    elim (membership_mutation_inv world caller params true earlier before after r h) [
      | inl same ↦ replayed-Progress before after same.nothing
      | inr (context, e, k, asked) ↦ inr (entered-IsAdvance world context before after r true k)
    ]
Step-Progress before after (adds world caller params earlier r h) =
    elim (membership_mutation_inv world caller params false earlier before after r h) [
      | inl same ↦ replayed-Progress before after same.nothing
      | inr (context, e, k, asked) ↦ inr (entered-IsAdvance world context before after r false k)
    ]
Step-Progress before after (leaves world caller params r h) =
    elim (end_membership_inv world caller params true before after r h) [
      | inl same ↦ replayed-Progress before after same.nothing
      | inr (context, e, k) ↦ inr (ended-IsAdvance world context before after r true k)
    ]
Step-Progress before after (removes world caller params r h) =
    elim (end_membership_inv world caller params false before after r h) [
      | inl same ↦ replayed-Progress before after same.nothing
      | inr (context, e, k) ↦ inr (ended-IsAdvance world context before after r false k)
    ]
Step-Progress before after (rebinds world caller params earlier r h) =
    elim (hosted_group_rebind_member_inv world caller params earlier before after r h) [
      | inl same ↦ replayed-Progress before after same.nothing
      | inr (context, e, k, asked) ↦ inr (rebound-IsAdvance world context before after r k)
    ]
Step-Progress before after (updates_profile world caller params r h) =
    elim (update_group_inv world caller params true before after r h) [
      | inl same ↦ replayed-Progress before after same.nothing
      | inr (context, e, k) ↦ inr (updated-IsAdvance world context before after r true k)
    ]
Step-Progress before after (updates_policy world caller params r h) =
    elim (update_group_inv world caller params false before after r h) [
      | inl same ↦ replayed-Progress before after same.nothing
      | inr (context, e, k) ↦ inr (updated-IsAdvance world context before after r false k)
    ]
Step-Progress before after (sends world caller params r h) =
    elim (hosted_group_send_inv world caller params before after r h) [
      | inl same ↦ replayed-Progress before after same.nothing
      | inr (context, e, k) ↦ inr (taken-IsAdvance world context before after r k)
    ]
