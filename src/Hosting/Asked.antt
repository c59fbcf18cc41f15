-- ===== src/Hosting/Asked.antt =====
-- messaging/groups/service.py: what each handler does to the members of a group, as the request asks.
use awiki_open_server.Shared.{
  String, ◌≡◌, refl, sym, ap, ◌∙◌, subst, true, false, not, none, some, ◌⊎◌, inl, inr,
  if◌then◌else◌, arith, ◌==◌, eq_iff, ok, invalid_params, unauthorized, ◌&&◌, ◌||◌, >>=-eq-ok,
  raise_if-eq-ok, ok-injective,
}
use awiki_open_server.Shared.Python.{in_set}
use awiki_open_server.Shared.Json.{Fields, str, get, contains, is_null}
use awiki_open_server.Operations.{GroupRequest}
use awiki_open_server.Policy.{roles}
use awiki_open_server.Protocol.{Caller, request_context, require_string, get_or, text_of}
use awiki_open_server.Protocol.Admitted.{require_string_inv, in_set_text}
use awiki_open_server.Host.{
  HostDb, World, Entrant, MaybeBinding, Rebind, optional_binding, did_or, is_bound_elsewhere,
  member_did_of, role_text, joiner, addee, entrant_of, rebind_texts, rebinding_of,
  resolve_handle_binding, hosted_group_join, hosted_group_add, hosted_group_leave,
  hosted_group_remove, hosted_group_update_profile, hosted_group_update_policy,
}
use awiki_open_server.Hosting.Core.{Core, core}
use awiki_open_server.Hosting.Keyed.{Keyed}
use awiki_open_server.Hosting.Roster.{Roster, IsAssigned, is_at, roster}
use awiki_open_server.Hosting.Steps.{IsReplayed}
use awiki_open_server.Hosting.Requests.{
  Kind, join, add, leave, remove, rebind, update_profile, update_policy, send, method_of, handle,
  first_tables,
}
use awiki_open_server.Hosting.Refined.{entered-IsAssigned, ended-IsAssigned, rebound-IsAssigned}
use awiki_open_server.Hosting.Inverted.{
  membership_mutation_inv, end_membership_inv, hosted_group_rebind_member_inv, update_group_inv,
  hosted_group_send_inv,
}

-- The agent that group.add names, by a handle or a DID, and the role that it is to have.
pub record IsNamed (world : World) (earlier : HostDb) (context : GroupRequest) (did role : String)
    : Type 0 where
  pub binding : MaybeBinding
  pub is_binding :
      optional_binding world earlier
        (get context.body "member_handle")
        "group.member_handle_invalid"
      ≡ ok binding
  pub is_did :
      member_did_of binding (get context.body "member_did") "group.member_did_required" ≡ ok did
  pub is_role : get_or context.body "role" (str "member") ≡ str role
  pub is_known : contains roles role ≡ true

-- What a request asks of the map from agents to roles, whatever stores it: the sender joins as a
-- member, the named agent enters with the named role, the sender or the named agent loses its role,
-- the role of the named agent goes to the sender, or nothing of it changes.
abbrev pub IsAsked : Kind → World → HostDb → GroupRequest → Roster → Roster → Type 0
IsAsked join world earlier context before after =
    (before context.target_did context.sender_did ≡ none)
    × IsAssigned context.target_did context.sender_did (some "member") before after
IsAsked add world earlier context before after =
    (did : String) × (role : String) × IsNamed world earlier context did role
    × (before context.target_did did ≡ none)
    × IsAssigned context.target_did did (some role) before after
IsAsked leave world earlier context before after =
    (role : String) × (before context.target_did context.sender_did ≡ some role)
    × IsAssigned context.target_did context.sender_did none before after
IsAsked remove world earlier context before after =
    (did : String) × (role : String) × (get context.body "member_did" ≡ str did)
    × (before context.target_did did ≡ some role)
    × IsAssigned context.target_did did none before after
IsAsked rebind world earlier context before after =
    (old : String) × (role : String) × (get context.body "previous_member_did" ≡ str old)
    × (get context.body "new_member_did" ≡ str context.sender_did)
    × (before context.target_did old ≡ some role)
    × (before context.target_did context.sender_did ≡ none)
    × ((old == context.sender_did) ≡ false)
    × IsAssigned context.target_did context.sender_did (some role)
        (λ g d. if is_at context.target_did old g d then none else before g d) after
IsAsked _ world earlier context before after = (g d : String) → after g d ≡ before g d

joiner_inv :
    (world : World) (host : HostDb) (context : GroupRequest) (e : Entrant)
    → joiner world host context ≡ ok e
    → (e.did ≡ context.sender_did) × (e.role ≡ "member")
unfolding joiner
joiner_inv world host context e h =
    let (binding, _, h1) =
      >>=-eq-ok
        (optional_binding world host (get context.body "member_handle")
          "group.member_handle_invalid")
        _ e h in
    let (own, h2) =
      raise_if-eq-ok (is_bound_elsewhere binding context.sender_did)
        (unauthorized "group.handle_did_mismatch") _ e h1 in
    let made = ok-injective h2 in
    (
      sym (ap (λ (x : Entrant). x.did) made) ∙ same_did binding own,
      sym (ap (λ (x : Entrant). x.role) made),
    )
  where
    same_did :
        (binding : MaybeBinding)
        → is_bound_elsewhere binding context.sender_did ≡ false
        → did_or binding context.sender_did ≡ context.sender_did
    same_did none own = refl
    same_did (some binding) own = (eq_iff binding.did context.sender_did).0 (ground arith)

addee_inv :
    (world : World) (host : HostDb) (context : GroupRequest) (e : Entrant)
    → addee world host context ≡ ok e
    → IsNamed world host context e.did e.role
unfolding addee
addee_inv world host context e h =
    let member_did = get context.body "member_did" in
    let member_handle = get context.body "member_handle" in
    let role = get_or context.body "role" (str "member") in
    let (_, h1) =
      raise_if-eq-ok
        ((is_null member_did && is_null member_handle)
          || (not (is_null member_did) && not (is_null member_handle)))
        (invalid_params "group.member_identifier_ambiguous") _ e h in
    let (binding, f, h2) =
      >>=-eq-ok (optional_binding world host member_handle "group.member_handle_invalid") _ e h1 in
    let (did, g, h3) =
      >>=-eq-ok (member_did_of binding member_did "group.member_did_required") _ e h2 in
    let (known, l, h4) = >>=-eq-ok (in_set role roles) _ e h3 in
    let (is_known, h5) = raise_if-eq-ok (not known) (invalid_params "group.role_invalid") _ e h4 in
    let met : known ≡ true = ground arith in
    let (is_text, is_in) = in_set_text role roles (l ∙ ap ok met) in
    let text : role_text role ≡ text_of role = ap role_text is_text in
    let made = ok-injective h5 in
    subst (λ (x : Entrant). IsNamed world host context x.did x.role) made
      (record {
        binding = binding;
        is_binding = f;
        is_did = g;
        is_role = is_text ∙ ap str (sym text);
        is_known = subst (λ (x : String). contains roles x ≡ true) (sym text) is_in;
      })

rebind_texts_inv :
    (body : Fields) (texts : String × String × String × String)
    → rebind_texts body ≡ ok texts
    → (get body "previous_member_did" ≡ str texts.1) × (get body "new_member_did" ≡ str texts.2)
unfolding rebind_texts
rebind_texts_inv body texts h =
    let (handle, _, h1) =
      >>=-eq-ok (require_string (get body "member_handle") "group.member_handle_required") _ texts
        h in
    let (previous, f, h2) =
      >>=-eq-ok
        (require_string (get body "previous_member_did") "group.previous_member_did_required") _
        texts h1 in
    let (new_did, g, h3) =
      >>=-eq-ok (require_string (get body "new_member_did") "group.new_member_did_required") _ texts
        h2 in
    let (generation, _, h4) =
      >>=-eq-ok
        (require_string (get body "handle_binding_generation")
          "group.handle_binding_generation_required")
        _ texts h3 in
    let made = ok-injective h4 in
    (
      (require_string_inv (get body "previous_member_did") "group.previous_member_did_required"
            previous f).0
          ∙ ap (λ (t : String × String × String × String). str t.1) made,
      (require_string_inv (get body "new_member_did") "group.new_member_did_required" new_did g).0
          ∙ ap (λ (t : String × String × String × String). str t.2) made,
    )

rebinding_of_inv :
    (world : World) (host : HostDb) (context : GroupRequest) (q : Rebind)
    → rebinding_of world host context ≡ ok q
    → (get context.body "previous_member_did" ≡ str q.previous_did)
      × (get context.body "new_member_did" ≡ str context.sender_did)
      × (q.new_did ≡ context.sender_did)
unfolding rebinding_of
rebinding_of_inv world host context q h =
    let (texts, f, h1) = >>=-eq-ok (rebind_texts context.body) _ q h in
    let (previous, new_did) = rebind_texts_inv context.body texts f in
    let (is_sender, h2) =
      raise_if-eq-ok (not (context.sender_did == texts.2))
        (unauthorized "group.rebind_sender_mismatch") _ q h1 in
    let own : context.sender_did ≡ texts.2 = (eq_iff context.sender_did texts.2).0 (ground arith) in
    let (binding, _, h3) = >>=-eq-ok (resolve_handle_binding world host texts.0) _ q h2 in
    let (_, h4) =
      raise_if-eq-ok (not (binding.did == texts.2)) (unauthorized "group.handle_did_mismatch") _ q
        h3 in
    let (_, h5) =
      raise_if-eq-ok (not (binding.binding_generation == texts.3))
        (invalid_params "group.binding_generation_mismatch") _ q h4 in
    let made = ok-injective h5 in
    (
      previous ∙ ap (λ (x : Rebind). str x.previous_did) made,
      new_did ∙ ap str (sym own),
      sym (ap (λ (x : Rebind). x.new_did) made) ∙ sym own,
    )

-- A request is replayed, or does what it asks on the map of roles.
abbrev pub IsAnswered : Kind → World → Caller → Fields → HostDb → HostDb → HostDb → Fields → Type 0
IsAnswered kind world caller params earlier before after r =
    IsReplayed caller params (method_of kind) (first_tables kind earlier before) before after r
    ⊎ ((context : GroupRequest) × (request_context caller params (method_of kind) "group"
          ≡ ok context)
        × IsAsked kind world earlier context (roster (core before).members)
            (roster (core after).members))

module _ (world : World) (caller : Caller) (params : Fields) (earlier before after : HostDb)
    (r : Fields) (k : Keyed (core before).members) where
  same_members :
      (core after).members ≡ (core before).members
      → ((g d : String) → roster (core after).members g d ≡ roster (core before).members g d)
        × Keyed (core after).members
  same_members same = (λ g d. ap (λ ms. roster ms g d) same, subst Keyed (sym same) k)

  replays :
      (kind : Kind)
      → IsReplayed caller params (method_of kind) (first_tables kind earlier before) before after r
      → IsAnswered kind world caller params earlier before after r × Keyed (core after).members
  replays kind same =
      (inl same, subst (λ (h : HostDb). Keyed (core h).members) (sym same.nothing) k)

-- A handler that succeeds either replays: then nothing changed and the result is the one stored for
-- the request. Or it does to the map from agents to roles, read from the table of members, exactly
-- what the request asks: on group.join the sender, who had no role, becomes a member; on group.add
-- the agent named by a handle or a DID, who had no role, gets the named role; on group.leave the
-- sender and on group.remove the named agent loses its role; on group.rebind_member the role of the
-- named agent goes to the sender, who had none; on the others the map stays. Provided that each agent
-- has one row in a group at most, it is so afterwards.
pub handle-IsAnswered :
    (kind : Kind) (world : World) (caller : Caller) (params : Fields)
    (earlier before after : HostDb) (r : Fields)
    → Keyed (core before).members
    → handle kind world caller params earlier before ≡ ok (after, r)
    → IsAnswered kind world caller params earlier before after r × Keyed (core after).members
unfolding hosted_group_join hosted_group_add hosted_group_leave hosted_group_remove
    hosted_group_update_profile hosted_group_update_policy entrant_of
handle-IsAnswered join world caller params earlier before after r k h =
    elim (membership_mutation_inv world caller params true earlier before after r h) [
      | inl same ↦ replays world caller params earlier before after r k join same
      | inr (context, e, s, asked) ↦
          let (own, plain) = joiner_inv world earlier context s.newcomer asked in
          let (absent, assigned, keyed) =
            entered-IsAssigned world context before after r k true s in
          let target = context.target_did in
          let b = roster (core before).members in
          let a = roster (core after).members in
          (
            inr (
              context,
              e,
              (
                subst (λ (x : String). b target x ≡ none) own absent,
                subst (λ (x : String). IsAssigned target x (some "member") b a) own
                    (subst (λ (x : String). IsAssigned target s.newcomer.did (some x) b a) plain
                      assigned),
              ),
            ),
            keyed,
          )
    ]
handle-IsAnswered add world caller params earlier before after r k h =
    elim (membership_mutation_inv world caller params false earlier before after r h) [
      | inl same ↦ replays world caller params earlier before after r k add same
      | inr (context, e, s, asked) ↦
          let named = addee_inv world earlier context s.newcomer asked in
          let (absent, assigned, keyed) =
            entered-IsAssigned world context before after r k false s in
          (inr (context, e, (s.newcomer.did, s.newcomer.role, named, absent, assigned)), keyed)
    ]
handle-IsAnswered leave world caller params earlier before after r k h =
    elim (end_membership_inv world caller params true before after r h) [
      | inl same ↦ replays world caller params earlier before after r k leave same
      | inr (context, e, s) ↦
          let (there, assigned, keyed) = ended-IsAssigned world context before after r k true s in
          let own = s.ending.is_self refl in
          let target = context.target_did in
          let role = s.ending.subject.role in
          let b = roster (core before).members in
          let a = roster (core after).members in
          (
            inr (
              context,
              e,
              (
                role,
                subst (λ (x : String). b target x ≡ some role) own there,
                subst (λ (x : String). IsAssigned target x none b a) own assigned,
              ),
            ),
            keyed,
          )
    ]
handle-IsAnswered remove world caller params earlier before after r k h =
    elim (end_membership_inv world caller params false before after r h) [
      | inl same ↦ replays world caller params earlier before after r k remove same
      | inr (context, e, s) ↦
          let (there, assigned, keyed) = ended-IsAssigned world context before after r k false s in
          (
            inr (
              context,
              e,
              (s.did, s.ending.subject.role, s.ending.is_named refl, there, assigned),
            ),
            keyed,
          )
    ]
handle-IsAnswered rebind world caller params earlier before after r k h =
    elim (hosted_group_rebind_member_inv world caller params earlier before after r h) [
      | inl same ↦ replays world caller params earlier before after r k rebind same
      | inr (context, e, s, asked) ↦
          let (previous, sender, own) = rebinding_of_inv world earlier context s.rebind asked in
          let (role, there, absent, apart, assigned, keyed) =
            rebound-IsAssigned world context before after r k s in
          let target = context.target_did in
          let old = s.rebind.previous_did in
          let b = roster (core before).members in
          let a = roster (core after).members in
          (
            inr (
              context,
              e,
              (
                old,
                role,
                previous,
                sender,
                there,
                subst (λ (x : String). b target x ≡ none) own absent,
                subst (λ (x : String). (old == x) ≡ false) own apart,
                subst
                    (λ (x : String).
                      IsAssigned target x (some role)
                        (λ g d. if is_at target old g d then none else b g d) a)
                    own assigned,
              ),
            ),
            keyed,
          )
    ]
handle-IsAnswered update_profile world caller params earlier before after r k h =
    elim (update_group_inv world caller params true before after r h) [
      | inl same ↦ replays world caller params earlier before after r k update_profile same
      | inr (context, e, s) ↦
          let (stays, keyed) =
            same_members world caller params earlier before after r k
              (ap (λ (c : Core). c.members) s.made.tables) in
          (inr (context, e, stays), keyed)
    ]
handle-IsAnswered update_policy world caller params earlier before after r k h =
    elim (update_group_inv world caller params false before after r h) [
      | inl same ↦ replays world caller params earlier before after r k update_policy same
      | inr (context, e, s) ↦
          let (stays, keyed) =
            same_members world caller params earlier before after r k
              (ap (λ (c : Core). c.members) s.made.tables) in
          (inr (context, e, stays), keyed)
    ]
handle-IsAnswered send world caller params earlier before after r k h =
    elim (hosted_group_send_inv world caller params before after r h) [
      | inl same ↦ replays world caller params earlier before after r k send same
      | inr (context, e, s) ↦
          let (stays, keyed) =
            same_members world caller params earlier before after r k
              (ap (λ (c : Core). c.members) s.sent.tables) in
          (inr (context, e, stays), keyed)
    ]
