-- ===== src/Bootstrap/Tests.antt =====
-- A client of the lanes for encrypted groups.
use awiki_open_server.Shared.{String, ◌≡◌, ◌≢◌, refl, arith, true, List, [], ◌∷◌, ok, err, some}
use awiki_open_server.Shared.Decimal.{text_length}
use awiki_open_server.Shared.Text.{is_blank}
use awiki_open_server.Shared.Json.{Fields, end}
use awiki_open_server.Bootstrap.{
  BootstrapCapabilities, lane_p6, p6_delivery, parse_bootstrap_capabilities, lanes_of, compat_lanes,
  each_name, empty_answer, attach_standard_bootstrap_fields, empty_compat_delta_lanes,
}
use awiki_open_server.Bootstrap.Negotiated.{
  IsNegotiated, request_of, parse_bootstrap_capabilities_sound,
  parse_bootstrap_capabilities-request_of,
}
use awiki_open_server.Bootstrap.Granted.{delta_request, granted_lanes_accepted}

abbrev requested : List String
requested = lane_p6 ∷ p6_delivery ∷ []

abbrev capabilities : BootstrapCapabilities
capabilities = record {
  client_instance_id = "client-1";
  extended = true;
  snapshot_paging = true;
  requested = requested;
  with_p6 = true;
}

negotiated : IsNegotiated capabilities
unfolding is_blank text_length
negotiated = record {
  named = refl;
  short = omega arith;
  paged = refl;
  known = refl;
  once = refl;
  paired = refl;
  p6 = refl;
  plain = λ e. cc;
}

parse_bootstrap_capabilities-request_of_example :
    parse_bootstrap_capabilities (request_of capabilities) ≡ ok capabilities
parse_bootstrap_capabilities-request_of_example =
    parse_bootstrap_capabilities-request_of capabilities negotiated

parse_bootstrap_capabilities_sound_example : IsNegotiated capabilities
parse_bootstrap_capabilities_sound_example =
    parse_bootstrap_capabilities_sound (request_of capabilities) capabilities
      (parse_bootstrap_capabilities-request_of capabilities negotiated)

abbrev bootstrap : Fields
unfolding attach_standard_bootstrap_fields
bootstrap = elim (attach_standard_bootstrap_fields end true requested (some "client-1")) [
  | ok b ↦ b
  | err e ↦ end
]

attached : attach_standard_bootstrap_fields end true requested (some "client-1") ≡ ok bootstrap
unfolding attach_standard_bootstrap_fields
attached = refl

some_lane : lanes_of compat_lanes requested ≢ []
some_lane e = cc

granted_lanes_accepted_example :
    empty_compat_delta_lanes (delta_request bootstrap requested "client-1") requested "client-1"
    ≡ ok (each_name empty_answer ("p6_group" ∷ []))
granted_lanes_accepted_example =
    granted_lanes_accepted end bootstrap true requested "client-1" attached some_lane
