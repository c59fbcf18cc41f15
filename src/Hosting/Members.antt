-- ===== src/Hosting/Members.antt =====
-- messaging/groups/service.py: what a handler that changes the members of a group has checked, and how
-- the members stand when it succeeded.
use awiki_open_server.Shared.{
  String, ◌≡◌, sym, ap, ◌∙◌, subst, Bool, true, false, not, ◌&&◌, Option, none, some, List,
  if◌then◌else◌, ◌==◌, Result, ok, conflict, python_error, raise_if, ◌>>=◌, ◌>>◌, >>=-eq-ok,
  >>-eq-ok, raise_if-eq-ok, ok-injective,
}
use awiki_open_server.Shared.Lists.{any}
use awiki_open_server.Shared.Python.{ℤ}
use awiki_open_server.Shared.Table.{first_where, update_where}
use awiki_open_server.Shared.Json.{str, get}
use awiki_open_server.Storage.{HostedGroup, HostedMember}
use awiki_open_server.Delivery.{ensure_outbox_capacity}
use awiki_open_server.Operations.{GroupRequest, is_v2}
use awiki_open_server.Policy.{require_permission, members_exceeded}
use awiki_open_server.Protocol.{require_string}
use awiki_open_server.Protocol.Admitted.{require_string_inv}
use awiki_open_server.Host.{
  HostDb, World, Entrant, Rebind, upsert, is_row, is_active_row, is_active_option, active_count,
  active_member, found_member, member_limit_of, is_full, put_member, entrant_row, holds_handle,
  activate, ending_did, ending_status, end_member, end_within_capacity, rebind_member, is_rebound,
  set_members,
}
use awiki_open_server.Hosting.Core.{Core, core}

-- The tables with other members.
abbrev pub with_members : List HostedMember → Core → Core
with_members members c = record c { members = members }

abbrev pub row_at : List HostedMember → String → String → Option HostedMember
row_at members group_did did = first_where (is_row group_did did) members

-- An entrant was not active, there was room, and its row is written.
pub record IsActivated (world : World) (group_did : String) (group : HostedGroup)
    (entrant : Entrant) (home : String) (before mid : HostDb) : Type 0 where
  pub is_new :
      is_active_option (row_at before.db.hosted_group_members group_did entrant.did) ≡ false
  pub limit : ℤ
  pub is_limit : member_limit_of world group.policy ≡ ok limit
  pub has_room : is_full (active_count before group_did) limit ≡ false
  pub tables :
      core mid
      ≡ with_members
          (upsert
            (is_row group_did entrant.did)
            (λ m. entrant_row world group_did entrant home)
            (entrant_row world group_did entrant home)
            before.db.hosted_group_members)
          (core before)

put_member_inv :
    (row : HostedMember) (before mid : HostDb)
    → put_member row before ≡ ok mid
    → core mid
      ≡ with_members
          (upsert
            (is_row row.group_did row.agent_did)
            (λ m. row)
            row
            before.db.hosted_group_members)
          (core before)
unfolding put_member core set_members
put_member_inv row before mid h =
    let members =
      upsert (is_row row.group_did row.agent_did) (λ m. row) row before.db.hosted_group_members in
    let (free, h1) =
      raise_if-eq-ok (any (holds_handle row) before.db.hosted_group_members)
        (python_error "IntegrityError") (ok (set_members members before)) mid h in
    sym (ap core (ok-injective h1))

pub activate_inv :
    (world : World) (before mid : HostDb) (group_did : String) (group : HostedGroup)
    (entrant : Entrant) (home : String)
    → activate world before group_did group entrant home ≡ ok mid
    → IsActivated world group_did group entrant home before mid
unfolding activate
activate_inv world before mid group_did group entrant home h =
    let row = entrant_row world group_did entrant home in
    let is_there = is_active_option (row_at before.db.hosted_group_members group_did entrant.did) in
    let last = λ (entered : HostDb).
      ensure_outbox_capacity world.settings entered.db group_did true >> ok entered in
    let put = put_member row before >>= last in
    let bounded = λ (limit : ℤ).
      raise_if (is_full (active_count before group_did) limit) members_exceeded >> put in
    let (is_new, h1) =
      raise_if-eq-ok is_there (conflict "group.member_already_active")
        (member_limit_of world group.policy >>= bounded) mid h in
    let (limit, e, h2) = >>=-eq-ok (member_limit_of world group.policy) _ mid h1 in
    let (has_room, h3) =
      raise_if-eq-ok (is_full (active_count before group_did) limit) members_exceeded put mid h2 in
    let (entered, f, h4) = >>=-eq-ok (put_member row before) _ mid h3 in
    let (capacity, h5) =
      >>-eq-ok (ensure_outbox_capacity world.settings entered.db group_did true) (ok entered) mid
        h4 in
    record {
      is_new = is_new;
      limit = limit;
      is_limit = e;
      has_room = has_room;
      tables = sym (ap core (ok-injective h5)) ∙ put_member_inv row before entered f;
    }

found_member_inv :
    (found : Option HostedMember) (m : HostedMember) → found_member found ≡ ok m → found ≡ some m
found_member_inv none m h = cc
found_member_inv (some f) m h = ap some (ok-injective h)

pub active_member_inv :
    (host : HostDb) (group_did did : String) (m : HostedMember)
    → active_member host group_did did ≡ ok m
    → first_where (is_active_row group_did did) host.db.hosted_group_members ≡ some m
unfolding active_member
active_member_inv host group_did did m h =
    found_member_inv (first_where (is_active_row group_did did) host.db.hosted_group_members) m h

abbrev pub active_row : HostDb → String → String → Option HostedMember
active_row host group_did did =
    first_where (is_active_row group_did did) host.db.hosted_group_members

-- Who may end the membership of `did`: the member itself, or an active member with the permission.
pub record IsEnding (host : HostDb) (context : GroupRequest) (group : HostedGroup) (is_leave : Bool)
    (did : String) : Type 0 where
  pub actor : HostedMember
  pub acts : active_row host context.target_did context.sender_did ≡ some actor
  pub subject : HostedMember
  pub is_subject : active_row host context.target_did did ≡ some subject
  pub is_self : is_leave ≡ true → did ≡ context.sender_did
  pub may : is_leave ≡ false → require_permission group.policy actor.role "remove" ≡ ok tt
  pub is_named : is_leave ≡ false → get context.body "member_did" ≡ str did

pub ending_did_inv :
    (host : HostDb) (context : GroupRequest) (group : HostedGroup) (is_leave : Bool) (did : String)
    → ending_did host context group is_leave ≡ ok did
    → IsEnding host context group is_leave did
unfolding ending_did
ending_did_inv host context group is_leave did h =
    let (actor, e, h1) =
      >>=-eq-ok (active_member host context.target_did context.sender_did) _ did h in
    let acts = active_member_inv host context.target_did context.sender_did actor e in
    by_method actor acts is_leave h1
  where
    target : Result String
    target = require_string (get context.body "member_did") "group.member_did_required"

    found_target : String → Result String
    found_target d = active_member host context.target_did d >>= λ m. ok d

    by_method :
        (actor : HostedMember)
        → active_row host context.target_did context.sender_did ≡ some actor
        → (is_leave : Bool)
        → (if is_leave
            then ok context.sender_did
            else (require_permission group.policy actor.role "remove" >> (target >>= found_target)))
          ≡ ok did
        → IsEnding host context group is_leave did
    by_method actor acts true k =
        let same : context.sender_did ≡ did = ok-injective k in
        record {
          actor = actor;
          acts = acts;
          subject = actor;
          is_subject =
              subst (λ (d : String). active_row host context.target_did d ≡ some actor) same acts;
          is_self = λ e. sym same;
          may = λ e. cc;
          is_named = λ e. cc;
        }
    by_method actor acts false k =
        let (may, k1) =
          >>-eq-ok (require_permission group.policy actor.role "remove") (target >>= found_target)
            did k in
        let (d, f, k2) = >>=-eq-ok target _ did k1 in
        let (m, g, k3) = >>=-eq-ok (active_member host context.target_did d) _ did k2 in
        record {
          actor = actor;
          acts = acts;
          subject = m;
          is_subject =
              subst (λ (x : String). active_row host context.target_did x ≡ some m)
                (ok-injective k3) (active_member_inv host context.target_did d m g);
          is_self = λ e. cc;
          may = λ e. may;
          is_named = λ e.
              (require_string_inv (get context.body "member_did") "group.member_did_required" d f).0
              ∙ ap str (ok-injective k3);
        }

abbrev pub ended_members : World → String → Bool → String → List HostedMember → List HostedMember
ended_members world group_did is_leave did members =
    update_where (is_row group_did did)
      (λ m. record m { status = ending_status is_leave; ended_at = some world.now }) members

pub end_within_capacity_inv :
    (world : World) (context : GroupRequest) (is_leave : Bool) (did : String) (before mid : HostDb)
    → end_within_capacity world context is_leave did before ≡ ok mid
    → core mid
      ≡ with_members
          (ended_members world context.target_did is_leave did before.db.hosted_group_members)
          (core before)
unfolding end_within_capacity end_member core set_members
end_within_capacity_inv world context is_leave did before mid h =
    let after = end_member world context.target_did is_leave did before in
    let (capacity, h1) =
      >>-eq-ok
        (ensure_outbox_capacity world.settings (if is_v2 context then before else after).db
          context.target_did true)
        (ok after) mid h in
    sym (ap core (ok-injective h1))

abbrev pub rebound_members : String → Rebind → String → List HostedMember → List HostedMember
rebound_members group_did r home members =
    update_where (is_rebound group_did r)
      (λ m. record m {
        agent_did = r.new_did;
        handle_binding_generation = some r.binding.binding_generation;
        home_service_did = some home;
      })
      members

pub rebind_member_inv :
    (group_did : String) (r : Rebind) (home : String) (before mid : HostDb)
    → rebind_member group_did r home before ≡ ok mid
    → (core mid
        ≡ with_members
            (rebound_members group_did r home before.db.hosted_group_members)
            (core before))
      × ((not (r.new_did == r.previous_did)
            && any (is_row group_did r.new_did) before.db.hosted_group_members)
          ≡ false)
unfolding rebind_member core set_members
rebind_member_inv group_did r home before mid h =
    let taken =
      not (r.new_did == r.previous_did)
      && any (is_row group_did r.new_did) before.db.hosted_group_members in
    let members = rebound_members group_did r home before.db.hosted_group_members in
    let (free, h1) =
      raise_if-eq-ok taken (python_error "IntegrityError") (ok (set_members members before)) mid
        h in
    (sym (ap core (ok-injective h1)), free)
