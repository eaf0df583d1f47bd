-- ===== src/Server/State/Tests.antt =====
-- A server that starts with the defaults, and reloads.
use corx.Circuit.{from_config}
use corx.Config.Tree.{Config, default_config}
use corx.Config.Validate.{
  validate, validate_full, validate_cors, validate_target, validate_auth, validate_circuit,
  validate_limits, validate_rate_limit, check_dimension, validate_upstream, validate_tls,
  validate_ssrf, error_if, warn_if, is_bound,
}
use corx.Headers.{try_new, parse_names}
use corx.Http.Assoc.{name_of}
use corx.Prelude.{
  ◌≡◌, ◌↔◌, refl, true, false, inl, inr, some, none, [], ◌∷◌, codes, trim, text_eq,
  to_ascii_lowercase,
}
use corx.Server.Crates.{Crates}
use corx.Server.Crates.Known.{known_crates}
use corx.Server.RateLimit.Build.{
  quota, regex_set, build_origin, build_ip, build_host, build_global,
  from_config as limiter_from_config,
}
use corx.Cors.{from_config as cors_from_config}
use corx.Ssrf.{new}
use corx.Target.{from_config as target_from_config}
use corx.Server.State.{
  origin_from_config, client_config, LivePolicies, ServerBuild, build_from, filter_of,
  rate_limiter_of, circuit_of, client_of, new_client, server_from_config, upstream_config_eq,
}
use corx.Server.State.Fits.{IsCurrent}
use corx.Server.State.Frozen.{
  Matches, assert_immutable-Matches_iff, Replaced, reload-Replaced, reload-keeps,
}
use corx.Server.State.Life.{starts, reloads, Life-IsCurrent}
use corx.Server.State.Reload.{
  Frozen, immutable, hot_reload, tls_eq, bail_if, assert_immutable, accepted, load, installed,
  reload_checked, reload_loaded, reload,
}

abbrev crates : Crates
crates = known_crates []

abbrev defaults : Config crates.nets
defaults = record (default_config crates.nets (codes "corx/0")) {
  security = record (default_config crates.nets (codes "corx/0")).security {
    remove_request_headers = codes "cookie" ∷ [];
    remove_response_headers = [];
  };
}

abbrev policies : LivePolicies crates
policies = record {
  config = defaults;
  cors = cors_from_config crates.http defaults.cors;
  request_filter = record { extra_deny = "cookie" ∷ [] };
  response_filter = record { extra_deny = [] };
  origin = origin_from_config crates defaults.security;
  rate_limiter = record {
    enabled = true;
    max_keys = 16384;
    origin = some (record { counted = record { limiter = 100; known = [] }; unlimited = tt });
    ip = some (record { counted = record { limiter = 60; known = [] }; trusted = [] });
    host = some (record { limiter = 200; known = [] });
    global = some 10000;
  };
  target_policy = target_from_config defaults.target;
  circuit = from_config crates.hosts defaults.circuit_breaker;
  client = record {
    upstream = record {
      config = client_config crates defaults;
      target_policy = target_from_config defaults.target;
    };
    ssrf = new crates.nets defaults.ssrf;
  };
}

start : Unit {0}
unfolding build_from filter_of rate_limiter_of circuit_of client_of new_client upstream_config_eq
    try_new parse_names name_of limiter_from_config quota regex_set build_origin build_ip build_host
    build_global to_ascii_lowercase text_eq
start = tt

built : build_from crates defaults none ≡ inr policies
unfolding start
built = refl

abbrev handle : Frozen
handle = record {
  immutable_server = defaults.server;
  immutable_metrics_endpoint = defaults.observability.metrics_endpoint;
  immutable_max_body_bytes = defaults.limits.max_request_body_bytes;
  immutable_max_request_header_bytes = defaults.limits.max_request_header_bytes;
  immutable_request_timeout = defaults.limits.request_timeout;
  immutable_inflight_max = defaults.limits.inflight_max;
  immutable_max_response_body_bytes = defaults.limits.max_response_body_bytes;
}

handle_of_server :
    (build : ServerBuild crates) × ((server_from_config crates defaults ≡ inr build)
      × (hot_reload crates build ≡ handle))
unfolding start server_from_config hot_reload
handle_of_server = (_, (refl, refl))

abbrev without_http2 : Config crates.nets
without_http2 = record defaults { server = record defaults.server { http2 = false } }

reloading : Unit {0}
unfolding start reload load accepted reload_loaded reload_checked installed assert_immutable bail_if
    tls_eq validate validate_full validate_cors validate_target validate_auth validate_circuit
    validate_limits validate_rate_limit check_dimension validate_upstream validate_tls validate_ssrf
    error_if warn_if is_bound trim
reloading = tt

-- HTTP/2 cannot be switched off by a reload.
frozen_http2 :
    (reload crates handle (inr without_http2) policies).0 ≡ inl (immutable (codes "server.http2"))
unfolding reloading
frozen_http2 = refl

same_again : (reload crates handle (inr defaults) policies).0 ≡ inr tt
unfolding reloading
same_again = refl

assert_immutable-Matches_iff_example :
    (assert_immutable crates handle without_http2 ≡ inr tt) ↔ Matches crates handle without_http2
assert_immutable-Matches_iff_example = assert_immutable-Matches_iff crates handle without_http2

reload-keeps_example : (reload crates handle (inr without_http2) policies).1 ≡ policies
reload-keeps_example =
    reload-keeps crates handle (inr without_http2) policies (immutable (codes "server.http2"))
      frozen_http2

reload-Replaced_example :
    Replaced crates handle (inr defaults) policies (reload crates handle (inr defaults) policies).1
reload-Replaced_example = reload-Replaced crates handle (inr defaults) policies same_again

Life-IsCurrent_example : IsCurrent crates (reload crates handle (inr defaults) policies).1
Life-IsCurrent_example =
    Life-IsCurrent crates handle (reloads policies (inr defaults) (starts defaults policies built))
