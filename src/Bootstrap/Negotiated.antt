-- ===== src/Bootstrap/Negotiated.antt =====
-- What a bootstrap grants, and that a well-formed request is granted what it asks for.
use awiki_open_server.Shared.{
  sync_protocol_error, String, ◌≡◌, ◌≤◌, subst, eq_iff, &&-eq-true, false≢true, refl, ap, ◌∙◌, Bool,
  true, false, not, ◌||◌, List, [], ◌∷◌, if◌then◌else◌, ltb, Bool-cases, inl, inr, arith, Result,
  ok, err, raise_if, >>=-eq-ok, raise_if-eq-ok, ◌>>=◌, ◌>>◌, ◌==◌,
}
use awiki_open_server.Shared.Lists.{all}
use awiki_open_server.Shared.Decimal.{text_length}
use awiki_open_server.Shared.Text.{is_blank}
use awiki_open_server.Shared.Json.{
  Value, Fields, null, bool, other_num, num, str, arr, obj, nil, cons, end, field, get, keys,
  contains, elements, dict, same_set, entries, is_dict, equals_num, equals_str,
}
use awiki_open_server.Bootstrap.{
  BootstrapCapabilities, invalid, known_lane_capabilities, lane_p6, p6_delivery, sync_profile_v2,
  has_duplicate, legacy_capabilities, legacy_keys, parse_requested, parse_capabilities,
  parse_instance, parse_bootstrap_capabilities, texts, text_list, to_texts, is_snapshot_request,
}

-- What the later steps of the synchronisation assume of the capabilities.
pub record IsNegotiated (c : BootstrapCapabilities) : Type 0 where
  pub named : is_blank c.client_instance_id ≡ false
  pub short : text_length c.client_instance_id ≤ 255
  pub paged : c.snapshot_paging ≡ c.extended
  pub known : all (contains known_lane_capabilities) c.requested ≡ true
  pub once : has_duplicate c.requested ≡ false
  pub paired : contains c.requested lane_p6 ≡ contains c.requested p6_delivery
  pub p6 : c.with_p6 ≡ contains c.requested lane_p6
  pub plain : c.extended ≡ false → c.requested ≡ []

-- What parse_requested returns, if it returns.
parse_requested_inv :
    (client : String) (capabilities : Fields) (requested : List String) (c : BootstrapCapabilities)
    → parse_requested client capabilities requested ≡ ok c
    → (has_duplicate requested ≡ false)
      × (all (contains known_lane_capabilities) requested ≡ true)
      × (contains requested lane_p6 ≡ contains requested p6_delivery)
      × (record {
        client_instance_id = client;
        extended = true;
        snapshot_paging = true;
        requested = requested;
        with_p6 = contains requested lane_p6 || contains requested p6_delivery;
      }
          ≡ c)
unfolding parse_requested
parse_requested_inv client capabilities requested c h =
    (ground arith, ground arith, ground arith, ground arith)

ok-injective :
    {a b : BootstrapCapabilities} → ◌≡◌ {A = Result BootstrapCapabilities} (ok a) (ok b) → a ≡ b
ok-injective h = cc

abbrev IsFor : String → BootstrapCapabilities → Type 0
IsFor client c = is_blank client ≡ false → text_length client ≤ 255 → IsNegotiated c

requested-IsNegotiated :
    (client : String) (capabilities : Fields) (requested : List String) (c : BootstrapCapabilities)
    → parse_requested client capabilities requested ≡ ok c
    → IsFor client c
requested-IsNegotiated client capabilities requested c h =
    let (once, known, paired, same) = parse_requested_inv client capabilities requested c h in
    subst (IsFor client) same (λ named short. record {
      named = named;
      short = short;
      paged = refl;
      known = known;
      once = once;
      paired = paired;
      p6 = ground (arith, paired);
      plain = λ e. cc;
    })

parse_capabilities-IsNegotiated :
    (client : String) (capabilities : Fields) (c : BootstrapCapabilities)
    → parse_capabilities client capabilities ≡ ok c
    → IsFor client c
unfolding parse_capabilities
parse_capabilities-IsNegotiated client capabilities c h =
    let (profile, h1) =
      raise_if-eq-ok
        (not (equals_str (get capabilities "sync_profile") sync_profile_v2)
          || not (equals_num (get capabilities "event_schema_max") 1))
        invalid
        (if same_set (keys capabilities) legacy_keys
          then ok (legacy_capabilities client)
          else if same_set (keys capabilities)
              ("sync_profile" ∷ "event_schema_max" ∷ "p6_delivery" ∷ [])
          then err (sync_protocol_error 4200 "sync.lanes_not_supported")
          else (raise_if (not (contains (keys capabilities) "requested_sync_capabilities")) invalid
              >> (text_list (get capabilities "requested_sync_capabilities") >>= λ requested.
                  parse_requested client capabilities requested)))
        c h in
    elim (Bool-cases (same_set (keys capabilities) legacy_keys)) [
      | inl e ↦
          let same : legacy_capabilities client ≡ c = ok-injective (rw e at h1) in
          subst (IsFor client) same (λ named short. record {
            named = named;
            short = short;
            paged = refl;
            known = refl;
            once = refl;
            paired = refl;
            p6 = refl;
            plain = λ e. refl;
          })
      | inr e ↦
          elim (Bool-cases (
            same_set (keys capabilities)
              ("sync_profile" ∷ "event_schema_max" ∷ "p6_delivery" ∷ []))) [
                | inl f ↦ cc (rw (e, f) at h1)
                | inr f ↦
                    let (present, h2) =
                      raise_if-eq-ok
                        (not (contains (keys capabilities) "requested_sync_capabilities")) invalid
                        (text_list (get capabilities "requested_sync_capabilities") >>= λ requested.
                          parse_requested client capabilities requested)
                        c (rw (e, f) at h1) in
                    let (requested, read, h3) =
                      >>=-eq-ok (text_list (get capabilities "requested_sync_capabilities")) _ c
                        h2 in
                    requested-IsNegotiated client capabilities requested c h3
              ]
    ]

parse_instance_inv :
    (value : Value) (client : String)
    → parse_instance value ≡ ok client
    → (is_blank client ≡ false) × (text_length client ≤ 255)
parse_instance_inv (str text) client h =
    let (fits, h1) =
      raise_if-eq-ok (is_blank text || ltb 255 (text_length text)) invalid (ok text) client h in
    let same : text ≡ client = cc in
    subst (λ (t : String). (is_blank t ≡ false) × (text_length t ≤ 255)) same
      (ground arith, ground arith)
parse_instance_inv null client h = cc
parse_instance_inv (bool b) client h = cc
parse_instance_inv (num n) client h = cc
parse_instance_inv (other_num t) client h = cc
parse_instance_inv (arr vs) client h = cc
parse_instance_inv (obj fs) client h = cc

-- Where parse_bootstrap_capabilities accepts a body, the client instance is named in at most 255
-- characters; each requested lane is known and named once; the two P6 capabilities are requested
-- together or not at all, and with_p6 says which; paging is granted exactly to the extended form,
-- and the plain form requests nothing.
pub parse_bootstrap_capabilities_sound :
    (body : Value) (c : BootstrapCapabilities)
    → parse_bootstrap_capabilities body ≡ ok c
    → IsNegotiated c
unfolding parse_bootstrap_capabilities
parse_bootstrap_capabilities_sound body c h =
    let (shape, h1) = raise_if-eq-ok _ invalid _ c h in
    let (client, read, h2) =
      >>=-eq-ok (parse_instance (get (entries body) "client_instance_id")) _ c h1 in
    let capabilities = entries (get (entries body) "capabilities") in
    let (inner, h3) =
      raise_if-eq-ok (not (is_dict (get (entries body) "capabilities"))) invalid
        (parse_capabilities client capabilities) c h2 in
    let (named, short) = parse_instance_inv (get (entries body) "client_instance_id") client read in
    parse_capabilities-IsNegotiated client capabilities c h3 named short

-- The request that a client makes for the given capabilities.
abbrev requested_body : String → List String → Bool → Value
requested_body client requested with_p6 = dict (
    ("client_instance_id", str client)
    ∷ (
      "capabilities",
      obj (
          field "sync_profile" (str sync_profile_v2) (
            field "event_schema_max" (num 1) (
              field "requested_sync_capabilities" (arr (to_texts requested)) (
                field "requested_snapshot_capabilities"
                  (dict
                    (("schema_max", num 3) ∷ ("deliveries", arr (cons (str "paged_v1") nil)) ∷ []))
                  (if with_p6 then field "p6_delivery" (str p6_delivery) end else end))))),
    )
    ∷ [])

abbrev pub request_of : BootstrapCapabilities → Value
request_of c =
    if c.extended
    then requested_body c.client_instance_id c.requested c.with_p6
    else dict (
        ("client_instance_id", str c.client_instance_id)
        ∷ (
          "capabilities",
          dict (("sync_profile", str sync_profile_v2) ∷ ("event_schema_max", num 1) ∷ []),
        )
        ∷ [])

known_text : (text : String) → contains known_lane_capabilities text ≡ true → (text == "") ≡ false
known_text text h = elim (Bool-cases (text == "")) [
  | inl e ↦
      let same = (eq_iff text "").0 e in
      absurd (false≢true (subst (λ (t : String). contains known_lane_capabilities t ≡ true) same h))
  | inr e ↦ e
]

texts-to_texts :
    (requested : List String)
    → all (contains known_lane_capabilities) requested ≡ true
    → texts (elements (to_texts requested)) ≡ ok requested
texts-to_texts [] h = refl
texts-to_texts (text ∷ rest) h =
    let (one, more) = &&-eq-true (contains known_lane_capabilities text) _ h in
    rw (known_text text one) (rw (texts-to_texts rest more) refl)

parse_request_extended :
    (client : String) (requested : List String) (with_p6 : Bool)
    → is_blank client ≡ false
    → text_length client ≤ 255
    → all (contains known_lane_capabilities) requested ≡ true
    → has_duplicate requested ≡ false
    → contains requested lane_p6 ≡ contains requested p6_delivery
    → with_p6 ≡ contains requested lane_p6
    → parse_bootstrap_capabilities (requested_body client requested with_p6)
      ≡ ok (record {
        client_instance_id = client;
        extended = true;
        snapshot_paging = true;
        requested = requested;
        with_p6 = with_p6;
      })
unfolding parse_bootstrap_capabilities parse_capabilities parse_requested is_snapshot_request
parse_request_extended client requested true blank short known once paired p6 =
    ground (arith, texts-to_texts requested)
parse_request_extended client requested false blank short known once paired p6 =
    ground (arith, texts-to_texts requested)

parse_request_plain :
    (client : String)
    → is_blank client ≡ false
    → text_length client ≤ 255
    → parse_bootstrap_capabilities (request_of (legacy_capabilities client))
      ≡ ok (legacy_capabilities client)
unfolding parse_bootstrap_capabilities parse_capabilities
parse_request_plain client blank short = ground arith

request_extended :
    (c : BootstrapCapabilities)
    → c.extended ≡ true
    → request_of c ≡ requested_body c.client_instance_id c.requested c.with_p6
request_extended c e = rw e refl

request_plain :
    (c : BootstrapCapabilities)
    → c.extended ≡ false
    → request_of c ≡ request_of (legacy_capabilities c.client_instance_id)
request_plain c e = rw e refl

extended_is :
    (c : BootstrapCapabilities)
    → c.extended ≡ true
    → c.snapshot_paging ≡ c.extended
    → record {
      client_instance_id = c.client_instance_id;
      extended = true;
      snapshot_paging = true;
      requested = c.requested;
      with_p6 = c.with_p6;
    }
      ≡ c
extended_is c e p = ground arith

plain_is :
    (c : BootstrapCapabilities)
    → c.extended ≡ false
    → c.snapshot_paging ≡ c.extended
    → c.requested ≡ []
    → c.with_p6 ≡ false
    → legacy_capabilities c.client_instance_id ≡ c
plain_is c e p r s = ground arith

-- A client that asks for capabilities of the negotiated form, in the words of the protocol, is
-- granted exactly these.
pub parse_bootstrap_capabilities-request_of :
    (c : BootstrapCapabilities)
    → IsNegotiated c
    → parse_bootstrap_capabilities (request_of c) ≡ ok c
parse_bootstrap_capabilities-request_of c n = elim (Bool-cases c.extended) [
  | inl e ↦
      ap parse_bootstrap_capabilities (request_extended c e)
      ∙ parse_request_extended c.client_instance_id c.requested c.with_p6 n.named n.short n.known
          n.once n.paired n.p6
      ∙ ap (λ (x : BootstrapCapabilities). ok x) (extended_is c e n.paged)
  | inr e ↦
      ap parse_bootstrap_capabilities (request_plain c e)
      ∙ parse_request_plain c.client_instance_id n.named n.short
      ∙ ap (λ (x : BootstrapCapabilities). ok x)
          (plain_is c e n.paged (n.plain e) (n.p6 ∙ ap (λ rs. contains rs lane_p6) (n.plain e)))
]
