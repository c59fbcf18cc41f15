-- ===== src/Host/Handles.antt =====
-- messaging/groups/service.py, resolve_handle_binding, with split_handle of user_compat/core.py, and
-- home_service_did: which agent a handle stands for, and which service an agent is at home.
use Prim.Native.Char.{Char, code}
use Prim.Native.String
use Prim.Native.String.{[], ◌∷◌}
use awiki_open_server.Shared.{
  String, not, ◌&&◌, Option, none, some, List, if◌then◌else◌, nat_eq, ◌==◌, Result, ok,
  invalid_params, raise_if, ◌>>=◌, ◌>>◌,
}
use awiki_open_server.Shared.Table.{first_where}
use awiki_open_server.Shared.Text.{is_space, starts_with}
use awiki_open_server.Shared.Json.{Value, str, is_null}
use awiki_open_server.Protocol.{require_string}
use awiki_open_server.Host.Tables.{HostDb, World, User, Profile, VerifiedHandleBinding}

-- home_service_did
unfoldable pub home_service_did : World → String → Result String
unfolding require_string
home_service_did world did =
    if world.belongs_to_domain did
    then ok world.settings.service_did
    else (world.discover_service did >>= λ service.
        require_string service "anp_service_did_required")

unfoldable left_stripped : String → String
unfolding is_space
left_stripped [] = []
left_stripped (c ∷ s) = let rest = left_stripped s in if is_space c then rest else c ∷ s

unfoldable right_stripped : String → String
unfolding is_space
right_stripped [] = []
right_stripped (c ∷ s) =
    let rest = right_stripped s in if is_space c && rest == "" then [] else c ∷ rest

-- text.strip()
unfoldable strip : String → String
unfolding left_stripped right_stripped
strip text = right_stripped (left_stripped text)

-- text.removeprefix("wba://"), for a text that starts with it
abbrev without_scheme : String → String
without_scheme (a ∷ b ∷ c ∷ d ∷ e ∷ f ∷ rest) = rest
without_scheme text = text

abbrev before_part : Char → Option (String × String) → Option (String × String)
before_part c none = none
before_part c (some parts) = some (c ∷ parts.0, parts.1)

-- text.split(separator, 1), where the separator is in the text
unfoldable split_at : Char → String → Option (String × String)
split_at separator [] = none
split_at separator (c ∷ s) =
    let rest = before_part c (split_at separator s) in
    if nat_eq (code c) (code separator) then some ("", s) else rest

abbrev or_split : Option (String × String) → String × String → String × String
or_split none parts = parts
or_split (some parts) other = parts

-- The local part of a handle and its domain.
unfoldable split_handle : String → String → String × String
unfolding strip split_at starts_with
split_handle handle default_domain =
    let stripped = strip handle in
    let raw = if starts_with stripped "wba://" then without_scheme stripped else stripped in
    or_split (split_at "@" raw) (or_split (split_at "." raw) (raw, default_domain))

-- profiles p JOIN users u ON u.did = p.did WHERE p.handle = ? AND u.revoked_at IS NULL
abbrev user_of : HostDb → Profile → Option User
user_of host p = first_where (λ (u : User). u.did == p.did && not u.is_revoked) host.users

unfoldable bound_user : HostDb → String → List Profile → Option (Profile × User)
bound_user host stored List.[] = none
bound_user host stored (List.◌∷◌ p rest) =
    let later = bound_user host stored rest in
    if p.handle == stored then or_later p (user_of host p) later else later
  where
    or_later : Profile → Option User → Option (Profile × User) → Option (Profile × User)
    or_later p none later = later
    or_later p (some u) later = some (p, u)

abbrev binding_of : World → String → String → Option (Profile × User) → Result VerifiedHandleBinding
binding_of world handle full none = world.resolve_remote_handle handle
binding_of world handle full (some found) = ok (record {
  handle = full;
  did = (found.0).did;
  binding_generation = (found.1).handle_binding_generation;
})

unfoldable pub resolve_handle_binding : World → HostDb → String → Result VerifiedHandleBinding
unfolding split_handle bound_user
resolve_handle_binding world host handle =
    let (local, domain) = split_handle handle world.did_domain in
    let stored = String.◌++◌ local (String.◌++◌ "@" domain) in
    let full = String.◌++◌ local (String.◌++◌ "." domain) in
    binding_of world handle full (bound_user host stored host.profiles)

-- The binding of a handle that may be missing; a handle that is no text is refused.
unfoldable pub optional_binding :
    World → HostDb → Value → String → Result (Option VerifiedHandleBinding)
unfolding resolve_handle_binding
optional_binding world host (str handle) message =
    resolve_handle_binding world host handle >>= λ binding. ok (some binding)
optional_binding world host value message =
    raise_if (not (is_null value)) (invalid_params message) >> ok none
