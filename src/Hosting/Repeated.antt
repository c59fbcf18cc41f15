-- ===== src/Hosting/Repeated.antt =====
-- messaging/groups/service.py: a request that is sent again, after it was taken, changes nothing.
use awiki_open_server.Shared.{
  ℕ, ◌+◌, String, ◌≡◌, refl, sym, ap, ◌∙◌, subst, true, some, List, ◌⊎◌, inl, inr, if◌then◌else◌,
  ◌==◌, Result, ok, ◌>>=◌, >>=-eq-ok,
}
use awiki_open_server.Shared.Json.{Fields, bool, get}
use awiki_open_server.Shared.Table.{first_where, update_where}
use awiki_open_server.Shared.Keys.{first-update_some}
use awiki_open_server.Storage.{HostedGroup}
use awiki_open_server.Delivery.{find_group}
use awiki_open_server.Operations.{GroupRequest, Operation, operation_replay}
use awiki_open_server.Operations.Replay.{operation_replay-store}
use awiki_open_server.Protocol.{Caller, request_context, require_group_protocol}
use awiki_open_server.Host.{
  HostDb, World, Content, content_of, group_row, replay, in_group, set_seq, hosted_group_send,
  send_in_group,
}
use awiki_open_server.Hosting.Core.{Core, core}
use awiki_open_server.Hosting.Handlers.{in_group_inv}
use awiki_open_server.Hosting.Steps.{IsTaken}
use awiki_open_server.Hosting.Inverted.{send_inv}

-- A group that went on is found, and of the same protocol.
protocol_same :
    (group : HostedGroup) (seq at : ℕ) (profile : String)
    → require_group_protocol (set_seq seq at group) (some profile) true
      ≡ require_group_protocol group (some profile) true
unfolding require_group_protocol
protocol_same group seq at profile = refl

-- A result with the entries of another, and idempotent_replay beside them.
abbrev pub IsReplayOf : Fields → Fields → Type 0
IsReplayOf replayed r =
    (key : String)
    → get replayed key ≡ (if "idempotent_replay" == key then bool true else get r key)

taken_again :
    (world : World) (context : GroupRequest) (before after : HostDb) (r : Fields)
    (act : HostedGroup → Result (HostDb × Fields))
    → IsTaken world context before after r
    → (replayed : Fields) × (in_group after context act ≡ ok (after, replayed))
      × IsReplayOf replayed r
unfolding in_group group_row replay core find_group
taken_again world context before after r act k =
    let (replayed, found, same) =
      operation_replay-store context context.target_did k.sent.result r k.sent.at
        before.group_operations k.sent.operations k.sent.stored in
    let change = set_seq (k.group.group_event_seq + 1) world.now in
    let groups : after.db.hosted_groups
        ≡ update_where (λ g. g.group_did == context.target_did) change before.db.hosted_groups =
      ap (λ (c : Core). c.groups) k.sent.tables in
    let operations : after.group_operations ≡ k.sent.operations =
      ap (λ (c : Core). c.operations) k.sent.tables in
    let group_after : find_group after.db context.target_did ≡ some (change k.group) =
      ap (λ (gs : List HostedGroup). first_where (λ g. g.group_did == context.target_did) gs) groups
      ∙ first-update_some (λ (g : HostedGroup). g.group_did == context.target_did) change
          before.db.hosted_groups k.group (λ g h. h) k.opened.found in
    let stored : operation_replay context context.target_did after.group_operations
        ≡ ok (some replayed) =
      ap (λ (os : List Operation). operation_replay context context.target_did os) operations
      ∙ found in
    let allowed : require_group_protocol (change k.group) (some context.profile) true ≡ ok tt =
      protocol_same k.group (k.group.group_event_seq + 1) world.now context.profile
      ∙ k.opened.allowed in
    (replayed, rw group_after (rw allowed (rw stored refl)), same)

-- A message that was taken and is sent again, with the same request, is answered with the entries of
-- the first result and idempotent_replay, and no table changes.
pub send_again :
    (world : World) (caller : Caller) (params : Fields) (before after : HostDb) (r : Fields)
    → hosted_group_send world caller params before ≡ ok (after, r)
    → (replayed : Fields) × (hosted_group_send world caller params after ≡ ok (after, replayed))
      × ((after ≡ before) ⊎ IsReplayOf replayed r)
unfolding hosted_group_send
send_again world caller params before after r h =
    let (context, e, h1) =
      >>=-eq-ok (request_context caller params "group.send" "group") _ (after, r) h in
    let (content, f, h2) = >>=-eq-ok (content_of world context) _ (after, r) h1 in
    elim (in_group_inv before after context (send_in_group world before context content) r h2) [
      | inl same ↦ (
        r,
        subst (λ (x : HostDb). hosted_group_send world caller params x ≡ ok (after, r)) (sym same.0)
            h,
        inl same.0,
      )
      | inr (group, opened, k) ↦
          let (replayed, again, same) =
            taken_again world context before after r (send_in_group world after context content)
              (send_inv world context content group before after r opened k) in
          (
            replayed,
            ap (λ (x : Result GroupRequest). x >>= by_content) e
                ∙ ap
                    (λ (x : Result Content).
                      x >>= λ c. in_group after context (send_in_group world after context c))
                    f
                ∙ again,
            inr same,
          )
    ]
  where
    by_content : GroupRequest → Result (HostDb × Fields)
    by_content context = content_of world context >>= λ c.
        in_group after context (send_in_group world after context c)
