-- ===== src/Hosting/Handlers.antt =====
-- messaging/groups/service.py: a handler that succeeds either replayed a stored result and changed
-- nothing, or passed its checks and made its change.
use awiki_open_server.Shared.{
  String, ◌≡◌, sym, ap, ◌∙◌, subst, Bool, true, Option, none, some, ◌⊎◌, inl, inr, Result, ok,
  >>=-eq-ok, >>-eq-ok, ok-injective,
}
use awiki_open_server.Shared.Json.{Fields}
use awiki_open_server.Storage.{HostedGroup}
use awiki_open_server.Delivery.{find_group}
use awiki_open_server.Operations.{GroupRequest}
use awiki_open_server.Protocol.{require_group_protocol}
use awiki_open_server.Host.{HostDb, found_group, group_row, replay, unless_replayed, in_group}

found_group_inv :
    (found : Option HostedGroup) (profile : Option String) (writing : Bool) (g : HostedGroup)
    → found_group found profile writing ≡ ok g
    → (found ≡ some g) × (require_group_protocol g profile writing ≡ ok tt)
found_group_inv none profile writing g h = cc
found_group_inv (some f) profile writing g h =
    let (allowed, h1) = >>-eq-ok (require_group_protocol f profile writing) (ok f) g h in
    let same : f ≡ g = ok-injective h1 in
    (ap some same, subst (λ x. require_group_protocol x profile writing ≡ ok tt) same allowed)

-- A request that opened its transaction: the group is there, of the protocol of the request, and no
-- result of the request is stored.
pub record IsOpened (host : HostDb) (context : GroupRequest) (group : HostedGroup) : Type 0 where
  pub found : find_group host.db context.target_did ≡ some group
  pub allowed : require_group_protocol group (some context.profile) true ≡ ok tt
  pub is_new : replay host context context.target_did ≡ ok none

pub in_group_inv :
    (host after : HostDb) (context : GroupRequest) (act : HostedGroup → Result (HostDb × Fields))
    (r : Fields)
    → in_group host context act ≡ ok (after, r)
    → ((after ≡ host) × (replay host context context.target_did ≡ ok (some r)))
      ⊎ ((group : HostedGroup) × IsOpened host context group × (act group ≡ ok (after, r)))
unfolding in_group group_row
in_group_inv host after context act r h =
    let result : HostDb × Fields = (after, r) in
    let (group, e, h1) =
      >>=-eq-ok (found_group (find_group host.db context.target_did) (some context.profile) true) _
        result h in
    let (stored, f, h2) = >>=-eq-ok (replay host context context.target_did) _ result h1 in
    let (found, allowed) =
      found_group_inv (find_group host.db context.target_did) (some context.profile) true group e in
    replay_cases group found allowed stored f h2
  where
    replay_cases :
        (group : HostedGroup)
        → find_group host.db context.target_did ≡ some group
        → require_group_protocol group (some context.profile) true ≡ ok tt
        → (stored : Option Fields) → replay host context context.target_did ≡ ok stored
        → unless_replayed host stored (act group) ≡ ok (after, r)
        → ((after ≡ host) × (replay host context context.target_did ≡ ok (some r)))
          ⊎ ((group : HostedGroup) × IsOpened host context group × (act group ≡ ok (after, r)))
    replay_cases group found allowed none f k =
        inr (group, record { found = found; allowed = allowed; is_new = f }, k)
    replay_cases group found allowed (some result) f k =
        let same : ◌≡◌ {A = HostDb × Fields} (host, result) (after, r) = ok-injective k in
        inl (
          sym (ap (λ (t : HostDb × Fields). t.0) same),
          f ∙ ap (λ (t : HostDb × Fields). ok (some (t.1))) same,
        )
