-- ===== src/Server/Proxy/Tests.antt =====
-- A request for `https://a.test/` that passes every guard.
use corx.Circuit.{
  from_config, check as circuit_check, admit, transition_on_check, check_state, evict_if_needed,
  success, record_success, drop_hop,
}
use corx.Config.Tree.{Config, default_config}
use corx.Cors.{from_config as cors_from_config, is_preflight}
use corx.Error.{IpAddr, ok}
use corx.Http.Assoc.{get_all, as_visible, all_visible}
use corx.Keys.Listed.{add}
use corx.Parser.{
  normalize_scheme, split_once, before_first, candidate_from_uri, candidate_from_path, trim_slashes,
}
use corx.Parser.Target.{
  extract_target, validate, check_parts, ascii_host_of, within_bound, with_host, required, checked,
  to_uri, path_of,
}
use corx.Prelude.{
  ◌≡◌, refl, true, inr, some, none, [], ◌∷◌, codes, trim, text_eq, strip_prefix, to_ascii_lowercase,
  to_ascii_uppercase, contains, arith,
}
use corx.Redirect.{from_initial, is_redirect}
use corx.Server.Crates.{Crates}
use corx.Server.Crates.Known.{known_crates, known_method}
use corx.Server.Guards.{
  Target, Inbound, check_origin, check_rate, rated, target_rate, admit_target, admit_origin,
  admit_request,
}
use corx.Server.OriginGuard.{check_lists, origin_of, check_required, evaluate}
use corx.Server.Proxy.{Surroundings, Snapshots, Served, shaped, finish, send, execute_proxy, serve}
use corx.Server.Guards.Passed.{Passed, admit_request-Passed_iff}
use corx.Server.Proxy.Asked.{Asks, serve-Asks}
use corx.Server.Proxy.Guarded.{IsGuarded, serve-IsGuarded, Ends, serve-Ends}
use corx.Server.RateLimit.{
  check, check_dimensions, limit_origin, limit_ip, limit_host, limit_global, admit_and_check,
  charge, admit_key, ◌then◌, is_trusted,
}
use corx.Server.State.{LivePolicies, origin_from_config, client_config}
use corx.Ssrf.{new}
use corx.Table.{find_key}
use corx.Table.Assoc.{put}
use corx.Target.{from_config as target_from_config, check_authority, check_mode, check_uri}
use corx.Upstream.{
  Response, execute, turns, take_turn, dispatch, answered, succeeded, failed, settle_terminal,
  host_of,
}
use corx.Uris.Known.{KnownUri, parse_known}
use corx.Urls.Known.{to_ascii}

abbrev a_test : KnownUri
a_test = record { text = codes "https://a.test/"; scheme = codes "https"; host = codes "a.test" }

abbrev crates : Crates
crates = known_crates (a_test ∷ [])

abbrev defaults : Config crates.nets
defaults = default_config crates.nets (codes "corx/0")

abbrev policies : LivePolicies crates
policies = record {
  config = defaults;
  cors = cors_from_config crates.http defaults.cors;
  request_filter = record { extra_deny = "cookie" ∷ [] };
  response_filter = record { extra_deny = [] };
  origin = origin_from_config crates defaults.security;
  rate_limiter = record {
    enabled = true;
    max_keys = 16;
    origin = none;
    ip = some (record { counted = record { limiter = 60; known = [] }; trusted = [] });
    host = none;
    global = some 10000;
  };
  target_policy = target_from_config defaults.target;
  circuit = from_config crates.hosts defaults.circuit_breaker;
  client = record {
    upstream = record {
      config = client_config crates defaults;
      target_policy = target_from_config defaults.target;
    };
    ssrf = new crates.nets defaults.ssrf;
  };
}

abbrev snapshots : Snapshots crates
snapshots = record { before = policies; during = policies; after = policies }

abbrev page : Response crates.hosts crates.http crates.uris
page = record { status = 200; headers = [] }

abbrev around : Surroundings crates
around = record {
  tls_on = true;
  local_port = 443;
  now = 0;
  request_id = codes "id";
  environment = record {
    client = λ hops request. inr page;
    others = λ hops circuit. circuit;
    admitted_at = λ hops. hops;
    settled_at = λ hops. hops;
  };
}

abbrev request : Inbound crates
request = record {
  method = "GET";
  uri = record { text = codes "/https://a.test/"; scheme = []; host = [] };
  headers = ("origin", codes "https://app.test") ∷ ("cookie", codes "a=b") ∷ [];
}

abbrev target : Target crates
target = record { url = a_test; host = codes "a.test"; port = 443 }

guards : Unit {0}
unfolding admit_request admit_origin admit_target target_rate rated check_origin check_rate evaluate
    check_lists origin_of check_required origin_from_config known_method extract_target validate
    check_parts ascii_host_of within_bound with_host required checked candidate_from_uri
    candidate_from_path trim_slashes normalize_scheme split_once strip_prefix to_ascii_lowercase
    to_ascii_uppercase parse_known to_ascii text_eq check_authority check_mode check
    check_dimensions limit_origin limit_ip limit_host limit_global admit_and_check charge admit_key
    ◌then◌ is_trusted get_all as_visible all_visible contains target_from_config trim add
guards = tt

admitted : (admit_request crates policies request (IpAddr.v4 1) 0).0 ≡ ok target
unfolding guards
admitted = refl

served :
    (result : Served crates) × (serve crates around snapshots request (IpAddr.v4 1) ≡ some result)
unfolding guards serve is_preflight execute_proxy send finish shaped to_uri path_of before_first
    execute turns take_turn dispatch answered succeeded failed settle_terminal host_of from_initial
    is_redirect from_config admit circuit_check transition_on_check check_state evict_if_needed
    success record_success drop_hop check_uri find_key put client_config
served = (_, refl)

serve-IsGuarded_example :
    IsGuarded crates around snapshots request (IpAddr.v4 1) served.0.log served.0.circuit
serve-IsGuarded_example =
    serve-IsGuarded crates around snapshots request (IpAddr.v4 1) served.0 served.1

serve-Ends_example :
    Ends crates around snapshots request
      (IpAddr.v4 1)
      (serve crates around snapshots request (IpAddr.v4 1))
unfolding client_config
serve-Ends_example = serve-Ends crates around snapshots request (IpAddr.v4 1) (omega arith)

passed : Passed crates policies request (IpAddr.v4 1) 0 target
passed = (admit_request-Passed_iff crates policies request (IpAddr.v4 1) 0 target).0 admitted

a_test_built : to_uri crates.uris crates.urls target ≡ ok a_test
unfolding to_uri path_of checked before_first
a_test_built = refl

a_test_lawful :
    check_authority policies.client.upstream.target_policy (codes "https") (codes "a.test") ≡ ok tt
unfolding guards
a_test_lawful = refl

a_test_closed :
    (circuit_check crates.hosts policies.circuit
      (host_of crates.hosts crates.http crates.uris a_test)
      0).1
    ≡ ok tt
unfolding guards host_of from_config circuit_check transition_on_check check_state evict_if_needed
    find_key put
a_test_closed = refl

serve-Asks_example :
    Asks crates around snapshots request
      (IpAddr.v4 1)
      target
      a_test
      (serve crates around snapshots request (IpAddr.v4 1))
unfolding is_preflight client_config get_all
serve-Asks_example =
    serve-Asks crates around snapshots request (IpAddr.v4 1) target a_test refl passed a_test_built
      a_test_lawful a_test_closed (omega arith)
