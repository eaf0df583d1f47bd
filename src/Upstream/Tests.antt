-- ===== src/Upstream/Tests.antt =====
-- A run that follows a redirect from one host to another.
use corx.Circuit.{
  HostCircuit, CircuitBreaker, new_host, from_config, admit, check, transition_on_check,
  check_state, evict_if_needed, success, record_success, drop_hop,
}
use corx.Config.Limits.{RedirectPolicy}
use corx.Error.{ok}
use corx.Http.Assoc.{assoc_http, get_all, remove_name, as_visible, all_visible}
use corx.Prelude.{
  ℕ, zero, suc, ◌≡◌, refl, inr, true, false, some, [], ◌∷◌, codes, text_eq, All, trim,
  to_ascii_lowercase, starts_with, eq_ignore_ascii_case,
}
use corx.Redirect.{
  Request, Body, from_initial, is_redirect, has_infix, resolve_location, require_safe_scheme,
  is_https_to_http_downgrade, next_uri_of, classify_transition, body_bearing, authority_differs,
  authorities_differ, next_headers, remove_each, advance, location_of, follow as follow_hop,
  prepare_next,
}
use corx.Table.{Table, find_key}
use corx.Table.Assoc.{assoc_table, put}
use corx.Target.{TargetPolicy, default_config, check_uri, check_authority, check_mode}
use corx.Target
use corx.Upstream.{
  Response, Environment, Upstream, sent, settled, Run, execute, turns, take_turn, dispatch,
  answered, redirected, next_turn, succeeded, failed, settle_terminal, host_of,
}
use corx.Upstream.Hops.{IsOrderly, execute-IsOrderly}
use corx.Upstream.Origin.{EventCarries, execute-Carries}
use corx.Uris.{Uris}
use corx.Uris.Known.{KnownUri, known_uris, parse_known}

abbrev home : KnownUri
home = record { text = codes "https://a.test/"; scheme = codes "https"; host = codes "a.test" }

abbrev away : KnownUri
away = record { text = codes "https://b.test/"; scheme = codes "https"; host = codes "b.test" }

abbrev uris : Uris
uris = known_uris (home ∷ away ∷ [])

abbrev table : Table HostCircuit
table = assoc_table HostCircuit

abbrev first : Request assoc_http uris
first = record {
  method = "GET";
  uri = home;
  headers = ("cookie", codes "a=b") ∷ ("accept", codes "x") ∷ [];
  body = Body.original;
}

abbrev answer : ℕ → Response table assoc_http uris
answer zero = record { status = 302; headers = ("location", codes "https://b.test/") ∷ [] }
answer (suc hops) = record { status = 200; headers = [] }

abbrev env : Environment table assoc_http uris
env = record {
  client = λ hops r. inr (answer hops);
  others = λ hops circuit. circuit;
  admitted_at = λ hops. hops;
  settled_at = λ hops. hops;
}

abbrev upstream : Upstream table assoc_http uris
upstream = record {
  config = record {
    pool_max_idle_per_host = 32;
    pool_idle_timeout = 90;
    connect_timeout = 10;
    user_agent = codes "corx";
    max_redirects = 3;
    allow_https_to_http_downgrade = false;
    redirect_policy = RedirectPolicy.follow;
  };
  target_policy = Target.from_config default_config;
}

abbrev breaker : CircuitBreaker table
breaker = from_config table (record {
  enabled = true;
  failure_threshold = 3;
  window = 60;
  open_duration = 50;
  half_open_max = 1;
  count_5xx = true;
  max_hosts = 8;
})

abbrev second : Request assoc_http uris
second = record {
  method = "GET";
  uri = away;
  headers = ("accept", codes "x") ∷ [];
  body = Body.empty;
}

abbrev finished : Run table assoc_http uris
finished = record {
  circuit = record breaker { hosts = (codes "a.test", new_host) ∷ (codes "b.test", new_host) ∷ [] };
  log =
      sent first ∷ settled (codes "a.test") true ∷ sent second ∷ settled (codes "b.test") true ∷ [];
  answer = ok (answer 1);
}

follows : execute table assoc_http uris env upstream first breaker ≡ some finished
unfolding execute turns take_turn dispatch answered redirected next_turn succeeded failed
    settle_terminal host_of from_initial is_redirect has_infix resolve_location require_safe_scheme
    is_https_to_http_downgrade next_uri_of classify_transition body_bearing authority_differs
    authorities_differ next_headers remove_each advance location_of follow_hop prepare_next
    from_config admit check transition_on_check check_state evict_if_needed success record_success
    drop_hop check_uri check_authority check_mode find_key put get_all remove_name as_visible
    all_visible text_eq trim to_ascii_lowercase starts_with eq_ignore_ascii_case parse_known
    Target.from_config
follows = refl

execute-IsOrderly_example :
    IsOrderly table assoc_http uris env upstream 0 breaker finished.log finished.circuit
execute-IsOrderly_example =
    execute-IsOrderly table assoc_http uris env upstream first breaker finished follows

execute-Carries_example : All (EventCarries table assoc_http uris first) finished.log
execute-Carries_example =
    execute-Carries table assoc_http uris env upstream first breaker finished follows
