-- ===== src/Hosting/Inverted.antt =====
-- messaging/groups/service.py: a handler that succeeds replayed a stored result, or passed its checks
-- and did what Steps says of it.
use awiki_open_server.Shared.{
  ◌+◌, String, ◌≡◌, refl, sym, ap, ◌∙◌, Option, none, some, Bool, true, false, not, ◌⊎◌, inl, inr,
  if◌then◌else◌, ◌==◌, Result, ok, conflict, invalid_params, raise_if, ◌>>=◌, ◌>>◌, >>=-eq-ok,
  >>-eq-ok, raise_if-eq-ok, ok-injective,
}
use awiki_open_server.Shared.Lists.{any}
use awiki_open_server.Shared.Json.{Value, Fields, get, is_dict}
use awiki_open_server.Storage.{HostedGroup}
use awiki_open_server.Delivery.{ensure_outbox_capacity}
use awiki_open_server.Operations.{GroupRequest}
use awiki_open_server.Policy.{require_permission}
use awiki_open_server.Protocol.{require_group_protocol, Caller, request_context}
use awiki_open_server.Host.{
  HostDb, World, HostedMessage, Content, Entrant, Prepared, prepared, entrant_of, replay, group_row,
  replayed, entrant, Rebind, prepare, enter_prepared, enter, home_service_did, require_admission,
  activate, entered, commit_change, ending_did, end_within_capacity, ended, end_in_group,
  rebinding_of, check_rebinding, rebind_member, rebound, rebind_in_group, active_member,
  permission_of, patched_value, updated, update_in_group, patch_key_of, content_of, record_message,
  deliver_message, send_in_group, set_group, set_seq, in_group, membership_mutation, end_membership,
  hosted_group_rebind_member, update_group, hosted_group_send,
}
use awiki_open_server.Hosting.Effects.{commit_change_inv, sent-IsSent}
use awiki_open_server.Hosting.Handlers.{IsOpened, in_group_inv}
use awiki_open_server.Hosting.Members.{
  activate_inv, ending_did_inv, end_within_capacity_inv, rebind_member_inv, active_member_inv,
}
use awiki_open_server.Hosting.Steps.{IsEntered, IsEnded, IsRebound, IsUpdated, IsTaken, IsReplayed}

end_inv :
    (world : World) (context : GroupRequest) (is_leave : Bool) (group : HostedGroup)
    (before after : HostDb) (r : Fields)
    → IsOpened before context group
    → end_in_group world before context is_leave group ≡ ok (after, r)
    → IsEnded world context is_leave before after r
unfolding end_in_group
end_inv world context is_leave group before after r opened h =
    let result : HostDb × Fields = (after, r) in
    let (did, e, h1) = >>=-eq-ok (ending_did before context group is_leave) _ result h in
    let (mid, f, h2) =
      >>=-eq-ok (end_within_capacity world context is_leave did before) _ result h1 in
    record {
      group = group;
      opened = opened;
      did = did;
      ending = ending_did_inv before context group is_leave did e;
      mid = mid;
      tables = end_within_capacity_inv world context is_leave did before mid f;
      made =
          commit_change_inv world context context.target_did group
            (ended world context is_leave did) mid after r h2;
    }

pub end_membership_inv :
    (world : World) (caller : Caller) (params : Fields) (is_leave : Bool) (before after : HostDb)
    (r : Fields)
    → end_membership world caller params is_leave before ≡ ok (after, r)
    → IsReplayed caller params
        (if is_leave then "group.leave" else "group.remove")
        before
        before
        after
        r
      ⊎ ((context : GroupRequest) × (request_context caller params
              (if is_leave then "group.leave" else "group.remove")
              "group"
            ≡ ok context)
          × IsEnded world context is_leave before after r)
unfolding end_membership
end_membership_inv world caller params is_leave before after r h =
    let (context, e, h1) =
      >>=-eq-ok
        (request_context caller params (if is_leave then "group.leave" else "group.remove") "group")
        _ (after, r) h in
    elim (in_group_inv before after context (end_in_group world before context is_leave) r h1) [
      | inl same ↦
          inl (record { nothing = same.0; context = context; is_request = e; stored = inr same.1 })
      | inr (group, opened, k) ↦
          inr (context, e, end_inv world context is_leave group before after r opened k)
    ]

update_inv :
    (world : World) (context : GroupRequest) (is_profile : Bool) (patch : Value)
    (group : HostedGroup) (before after : HostDb) (r : Fields)
    → IsOpened before context group
    → update_in_group world before context is_profile patch group ≡ ok (after, r)
    → IsUpdated world context is_profile before after r
unfolding update_in_group
update_inv world context is_profile patch group before after r opened h =
    let result : HostDb × Fields = (after, r) in
    let commit = λ (value : Fields).
      commit_change world context context.target_did group (updated world context is_profile value)
        before in
    let patched = patched_value world group is_profile patch >>= commit in
    let capacity = ensure_outbox_capacity world.settings before.db context.target_did true in
    let (actor, e, h1) =
      >>=-eq-ok (active_member before context.target_did context.sender_did) _ result h in
    let (may, h2) =
      >>-eq-ok (require_permission group.policy actor.role (permission_of is_profile))
        (capacity >> patched) result h1 in
    let (_, h3) = >>-eq-ok capacity patched result h2 in
    let (value, f, h4) = >>=-eq-ok (patched_value world group is_profile patch) _ result h3 in
    record {
      group = group;
      opened = opened;
      actor = actor;
      acts = active_member_inv before context.target_did context.sender_did actor e;
      may = may;
      patch = patch;
      value = value;
      is_valid = f;
      made =
          commit_change_inv world context context.target_did group
            (updated world context is_profile value) before after r h4;
    }

pub update_group_inv :
    (world : World) (caller : Caller) (params : Fields) (is_profile : Bool) (before after : HostDb)
    (r : Fields)
    → update_group world caller params is_profile before ≡ ok (after, r)
    → IsReplayed caller params
        (if is_profile then "group.update_profile" else "group.update_policy")
        before
        before
        after
        r
      ⊎ ((context : GroupRequest) × (request_context caller params
              (if is_profile then "group.update_profile" else "group.update_policy")
              "group"
            ≡ ok context)
          × IsUpdated world context is_profile before after r)
unfolding update_group
update_group_inv world caller params is_profile before after r h =
    let request =
      request_context caller params
        (if is_profile then "group.update_profile" else "group.update_policy") "group" in
    let (context, e, h1) = >>=-eq-ok request _ (after, r) h in
    let patch = get context.body (patch_key_of is_profile) in
    let act = update_in_group world before context is_profile patch in
    let (_, h2) =
      raise_if-eq-ok (not (is_dict patch))
        (invalid_params (
          if is_profile
          then "group.group_profile_patch_required"
          else "group.group_policy_patch_required"))
        (in_group before context act) (after, r) h1 in
    elim (in_group_inv before after context act r h2) [
      | inl same ↦
          inl (record { nothing = same.0; context = context; is_request = e; stored = inr same.1 })
      | inr (group, opened, k) ↦
          inr (context, e, update_inv world context is_profile patch group before after r opened k)
    ]

pub send_inv :
    (world : World) (context : GroupRequest) (content : Content) (group : HostedGroup)
    (before after : HostDb) (r : Fields)
    → IsOpened before context group
    → send_in_group world before context content group ≡ ok (after, r)
    → IsTaken world context before after r
unfolding send_in_group
send_inv world context content group before after r opened h =
    let result : HostDb × Fields = (after, r) in
    let seq = group.group_event_seq + 1 in
    let host = set_group context.target_did (set_seq seq world.now) before in
    let recording = record_message world context content group.group_state_version seq host in
    let deliver : HostDb × HostedMessage × Fields → Result (HostDb × Fields) =
      λ t. ok (deliver_message world context group.group_state_version t.1 t.0, t.2) in
    let used =
      any (λ (m : HostedMessage). m.message_id == content.message_id)
        before.hosted_group_messages in
    let unused = raise_if used (conflict "message_id_conflict") in
    let capacity = ensure_outbox_capacity world.settings before.db context.target_did false in
    let (actor, e, h1) =
      >>=-eq-ok (active_member before context.target_did context.sender_did) _ result h in
    let (may, h2) =
      >>-eq-ok (require_permission group.policy actor.role "send")
        (capacity >> (unused >> (recording >>= deliver))) result h1 in
    let (has_capacity, h3) = >>-eq-ok capacity (unused >> (recording >>= deliver)) result h2 in
    let (is_new, h4) =
      raise_if-eq-ok used (conflict "message_id_conflict") (recording >>= deliver) result h3 in
    let (recorded, f, h5) = >>=-eq-ok recording deliver result h4 in
    record {
      group = group;
      opened = opened;
      actor = actor;
      acts = active_member_inv before context.target_did context.sender_did actor e;
      may = may;
      capacity = has_capacity;
      content = content;
      is_new = is_new;
      sent = sent-IsSent world context content group before after recorded r f (ok-injective h5);
    }

pub hosted_group_send_inv :
    (world : World) (caller : Caller) (params : Fields) (before after : HostDb) (r : Fields)
    → hosted_group_send world caller params before ≡ ok (after, r)
    → IsReplayed caller params "group.send" before before after r
      ⊎ ((context : GroupRequest) × (request_context caller params "group.send" "group"
            ≡ ok context)
          × IsTaken world context before after r)
unfolding hosted_group_send
hosted_group_send_inv world caller params before after r h =
    let (context, e, h1) =
      >>=-eq-ok (request_context caller params "group.send" "group") _ (after, r) h in
    let (content, f, h2) = >>=-eq-ok (content_of world context) _ (after, r) h1 in
    elim (in_group_inv before after context (send_in_group world before context content) r h2) [
      | inl same ↦
          inl (record { nothing = same.0; context = context; is_request = e; stored = inr same.1 })
      | inr (group, opened, k) ↦
          inr (context, e, send_inv world context content group before after r opened k)
    ]

enter_inv :
    (world : World) (context : GroupRequest) (is_join : Bool) (newcomer : Entrant) (home : String)
    (before after : HostDb) (r : Fields)
    → enter world before context is_join newcomer home ≡ ok (after, r)
    → ((after ≡ before) × (replay before context context.target_did ≡ ok (some r)))
      ⊎ ((k : IsEntered world context is_join before after r) × (k.newcomer ≡ newcomer))
unfolding enter
enter_inv world context is_join newcomer home before after r h =
    let activated =
      λ (group : HostedGroup). activate world before context.target_did group newcomer home in
    let commit = λ (group : HostedGroup) (mid : HostDb).
      commit_change world context context.target_did group (entered world context group newcomer)
        mid in
    let act = λ (group : HostedGroup).
      require_admission before context group is_join >> (activated group >>= commit group) in
    elim (in_group_inv before after context act r h) [
      | inl same ↦ inl same
      | inr (group, opened, k) ↦
          let (admitted, k1) =
            >>-eq-ok (require_admission before context group is_join)
              (activated group >>= commit group) (after, r) k in
          let (mid, f, k2) = >>=-eq-ok (activated group) (commit group) (after, r) k1 in
          inr (
            record {
              group = group;
              opened = opened;
              admitted = admitted;
              newcomer = newcomer;
              home = home;
              mid = mid;
              activated = activate_inv world before mid context.target_did group newcomer home f;
              made =
                  commit_change_inv world context context.target_did group
                    (entered world context group newcomer) mid after r k2;
            },
            refl,
          )
    ]

-- What the first transaction of group.join and group.add found.
prepare_inv :
    (world : World) (host : HostDb) (context : GroupRequest) (is_join : Bool) (found : Prepared)
    → prepare world host context is_join ≡ ok found
    → ((r : Fields) → found ≡ replayed r → replay host context context.target_did ≡ ok (some r))
      × ((e : Entrant) → found ≡ entrant e → entrant_of world host context is_join ≡ ok e)
unfolding prepare
prepare_inv world host context is_join found h =
    let (group, _, h1) =
      >>=-eq-ok (group_row host context.target_did (some context.profile) false) _ found h in
    let (_, h2) = >>-eq-ok (require_group_protocol group (some context.profile) true) _ found h1 in
    let (stored, f, h3) = >>=-eq-ok (replay host context context.target_did) _ found h2 in
    by_stored (require_admission host context group is_join) stored f h3
  where
    by_stored :
        (admitted : Result (Unit {0})) (stored : Option Fields)
        → replay host context context.target_did ≡ ok stored
        → prepared stored (admitted >> entrant_of world host context is_join) ≡ ok found
        → ((r : Fields) → found ≡ replayed r → replay host context context.target_did ≡ ok (some r))
          × ((e : Entrant) → found ≡ entrant e → entrant_of world host context is_join ≡ ok e)
    by_stored admitted none f k =
        let (e, g, k1) = >>=-eq-ok (admitted >> entrant_of world host context is_join) _ found k in
        let (_, g1) = >>-eq-ok admitted (entrant_of world host context is_join) e g in
        let made : entrant e ≡ found = ok-injective k1 in (λ r same. cc, λ e' same. g1 ∙ cc)
    by_stored admitted (some result) f k =
        let made : replayed result ≡ found = ok-injective k in (λ r same. f ∙ cc, λ e same. cc)

enter_prepared_inv :
    (world : World) (context : GroupRequest) (is_join : Bool) (found : Prepared)
    (before after : HostDb) (r : Fields)
    → enter_prepared world before context is_join found ≡ ok (after, r)
    → ((after ≡ before)
        × ((found ≡ replayed r) ⊎ (replay before context context.target_did ≡ ok (some r))))
      ⊎ ((k : IsEntered world context is_join before after r) × (found ≡ entrant k.newcomer))
unfolding enter_prepared
enter_prepared_inv world context is_join (replayed result) before after r h =
    let same : ◌≡◌ {A = HostDb × Fields} (before, result) (after, r) = ok-injective h in
    inl (
      sym (ap (λ (t : HostDb × Fields). t.0) same),
      inl (ap (λ (t : HostDb × Fields). replayed t.1) same),
    )
enter_prepared_inv world context is_join (entrant newcomer) before after r h =
    let (home, e, h1) = >>=-eq-ok (home_service_did world newcomer.did) _ (after, r) h in
    elim (enter_inv world context is_join newcomer home before after r h1) [
      | inl same ↦ inl (same.0, inr same.1)
      | inr (k, own) ↦ inr (k, ap entrant (sym own))
    ]

-- What is returned beside the change is who was asked for, by the tables of the first transaction.
pub membership_mutation_inv :
    (world : World) (caller : Caller) (params : Fields) (is_join : Bool)
    (earlier before after : HostDb) (r : Fields)
    → membership_mutation world caller params is_join earlier before ≡ ok (after, r)
    → IsReplayed caller params
        (if is_join then "group.join" else "group.add")
        earlier
        before
        after
        r
      ⊎ ((context : GroupRequest) × (request_context caller params
              (if is_join then "group.join" else "group.add")
              "group"
            ≡ ok context)
          × (k : IsEntered world context is_join before after r) × (entrant_of world earlier context
                is_join
              ≡ ok k.newcomer))
unfolding membership_mutation
membership_mutation_inv world caller params is_join earlier before after r h =
    let (context, e, h1) =
      >>=-eq-ok
        (request_context caller params (if is_join then "group.join" else "group.add") "group") _
        (after, r) h in
    let (found, f, h2) = >>=-eq-ok (prepare world earlier context is_join) _ (after, r) h1 in
    let (again, asked) = prepare_inv world earlier context is_join found f in
    elim (enter_prepared_inv world context is_join found before after r h2) [
      | inl (same, stored) ↦ inl (record {
        nothing = same;
        context = context;
        is_request = e;
        stored = elim stored [ inl s ↦ inl (again r s) | inr s ↦ inr s ];
      })
      | inr (k, own) ↦ inr (context, e, k, asked k.newcomer own)
    ]

rebind_inv :
    (world : World) (context : GroupRequest) (rebind : Rebind) (home : String) (group : HostedGroup)
    (before after : HostDb) (r : Fields)
    → IsOpened before context group
    → rebind_in_group world before context rebind home group ≡ ok (after, r)
    → (k : IsRebound world context before after r) × (k.rebind ≡ rebind)
unfolding rebind_in_group
rebind_inv world context rebind home group before after r opened h =
    let result : HostDb × Fields = (after, r) in
    let capacity =
      λ (mid : HostDb). ensure_outbox_capacity world.settings mid.db context.target_did true in
    let commit = λ (mid : HostDb).
      commit_change world context context.target_did group (rebound world context rebind) mid in
    let act = λ (mid : HostDb). capacity mid >> commit mid in
    let (checked, h1) =
      >>-eq-ok (check_rebinding world before context.target_did rebind)
        (rebind_member context.target_did rebind home before >>= act) result h in
    let (mid, f, h2) =
      >>=-eq-ok (rebind_member context.target_did rebind home before) act result h1 in
    let (_, h3) = >>-eq-ok (capacity mid) (commit mid) result h2 in
    (
      record {
        group = group;
        opened = opened;
        rebind = rebind;
        home = home;
        checked = checked;
        mid = mid;
        tables = (rebind_member_inv context.target_did rebind home before mid f).0;
        free = (rebind_member_inv context.target_did rebind home before mid f).1;
        made =
            commit_change_inv world context context.target_did group (rebound world context rebind)
              mid after r h3;
      },
      refl,
    )

-- What is returned beside the change is what was asked for, by the tables in which the handle was
-- resolved.
pub hosted_group_rebind_member_inv :
    (world : World) (caller : Caller) (params : Fields) (earlier before after : HostDb) (r : Fields)
    → hosted_group_rebind_member world caller params earlier before ≡ ok (after, r)
    → IsReplayed caller params "group.rebind_member" earlier before after r
      ⊎ ((context : GroupRequest) × (request_context caller params "group.rebind_member" "group"
            ≡ ok context)
          × (k : IsRebound world context before after r) × (rebinding_of world earlier context
              ≡ ok k.rebind))
unfolding hosted_group_rebind_member
hosted_group_rebind_member_inv world caller params earlier before after r h =
    let (context, e, h1) =
      >>=-eq-ok (request_context caller params "group.rebind_member" "group") _ (after, r) h in
    let (rebind, f, h2) = >>=-eq-ok (rebinding_of world earlier context) _ (after, r) h1 in
    let (home, g, h3) = >>=-eq-ok (home_service_did world rebind.new_did) _ (after, r) h2 in
    elim (in_group_inv before after context (rebind_in_group world before context rebind home) r
      h3) [
        | inl same ↦
            inl
              (record { nothing = same.0; context = context; is_request = e; stored = inr same.1 })
        | inr (group, opened, k) ↦
            let (made, own) = rebind_inv world context rebind home group before after r opened k in
            inr (context, e, made, f ∙ ap (λ (x : Rebind). ok x) (sym own))
      ]
