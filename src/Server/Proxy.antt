-- ===== src/Server/Proxy.antt =====
-- crates/corx-server/src/handlers/proxy.rs: the handler of every
-- request that is not for an operational endpoint. The handler loads the policies three times, and a
-- reload may come between: they are the three snapshots. Metrics are left out, and the body of a
-- response, which `LimitingBody` wraps.

pub mod Guarded
pub mod Asked
mod Tests
use corx.Circuit.{CircuitBreaker}
use corx.Cors.{build_preflight_response, is_preflight}
use corx.Error.{IpAddr, Result, ok, err}
use corx.Parser.Target.{to_uri}
use corx.Prelude.{ℕ, Bool, not, Option, none, some, List, [], Text, codes, is_empty, if◌then◌else◌}
use corx.Redirect.{Body}
use corx.Server.Crates.{Crates}
use corx.Server.Outbound.{outbound_headers, shape_headers}
use corx.Server.State.Fits.{Limiter}
use corx.Upstream.{Response, Environment, Event, Run, execute}
use corx.Server.Guards.{Policies, Target, Inbound, admit_preflight, admit_request}

module _ (crates : Crates) where
  open crates use {http, uris, urls, hosts, texts, ips, governor, regexes, nets}
  open http use {HeaderMap}

  -- What surrounds one request: the listener, the clock when the rate is checked, the request id
  -- that would be generated, and the HTTP client.
  pub record Surroundings : Type 0 where
    pub tls_on : Bool
    pub local_port : ℕ
    pub now : ℕ
    pub request_id : Text
    pub environment : Environment hosts http uris

  -- the policies that `serve`, `execute_proxy` and `shape_response` load
  pub record Snapshots : Type 0 where
    pub before : Policies crates
    pub during : Policies crates
    pub after : Policies crates

  -- `inbound_scheme` of `execute_proxy`
  unfoldable pub inbound_scheme : Bool → Option Text → Text
  inbound_scheme tls_on none = if tls_on then codes "https" else codes "http"
  inbound_scheme tls_on (some s) =
      if not (is_empty s) then s else if tls_on then codes "https" else codes "http"

  -- `inbound_host` of `execute_proxy`
  unfoldable pub inbound_host : HeaderMap → Option Text
  inbound_host headers = elim (http.get headers "host") [ none ↦ none | some v ↦ http.to_str v ]

  -- the headers that `execute_proxy` sends
  unfoldable pub request_headers :
      Surroundings → Policies crates → Inbound crates → Target crates → IpAddr → HeaderMap
  request_headers around policies request target client_ip =
      outbound_headers http crates.ip_text policies.request_filter
        (record {
          client_ip = some client_ip;
          scheme = inbound_scheme around.tls_on (uris.scheme_str request.uri);
          host = inbound_host request.headers;
          local_port = around.local_port;
        })
        policies.config.forwarded around.request_id policies.client.upstream.config.user_agent
        target.host (urls.port target.url) request.headers

  -- What `serve` leaves: its answer, the state of the rate limiter and of the breaker, and what it
  -- did to upstreams.
  pub record Served : Type 0 where
    pub answer : Result (Response hosts http uris)
    pub limiter : Limiter crates
    pub circuit : CircuitBreaker hosts
    pub log : List (Event hosts http uris)

  -- `shape_response`, without the body
  unfoldable pub shape_response :
      Policies crates
      → Policies crates
      → Target crates
      → Response hosts http uris
      → Response hosts http uris
  shape_response during after target response = record response {
    headers =
        shape_headers http after.response_filter during.config.limits.redirect_policy
          (uris.as_str target.url) response.headers;
  }

  unfoldable pub shaped :
      Snapshots
      → Target crates
      → Result (Response hosts http uris)
      → Result (Response hosts http uris)
  shaped snapshots target (err e) = err e
  shaped snapshots target (ok response) =
      ok (shape_response snapshots.during snapshots.after target response)

  -- an answer that no upstream was asked for
  abbrev pub answered_here :
      Snapshots → Limiter crates → Result (Response hosts http uris) → Option Served
  answered_here snapshots limiter answer =
      some (record {
        answer = answer;
        limiter = limiter;
        circuit = snapshots.during.circuit;
        log = [];
      })

  -- the end of `execute_proxy`
  unfoldable pub finish :
      Snapshots → Target crates → Limiter crates → Option (Run hosts http uris) → Option Served
  finish snapshots target limiter none = none
  finish snapshots target limiter (some run) = some (record {
    answer = shaped snapshots target run.answer;
    limiter = limiter;
    circuit = run.circuit;
    log = run.log;
  })

  -- the outbound request, from the URI on
  unfoldable pub send :
      Result uris.Uri
      → Surroundings
      → Snapshots
      → Inbound crates
      → Target crates
      → IpAddr
      → Limiter crates
      → Option Served
  send (err e) around snapshots request target client_ip limiter =
      answered_here snapshots limiter (err e)
  send (ok uri) around snapshots request target client_ip limiter =
      finish snapshots target limiter (
        execute hosts http uris around.environment snapshots.during.client.upstream
          (record {
            method = request.method;
            uri = uri;
            headers = request_headers around snapshots.during request target client_ip;
            body = Body.original;
          })
          snapshots.during.circuit)

  -- `execute_proxy`, where the guards let the request through
  unfoldable pub execute_proxy :
      Result (Target crates) × Limiter crates
      → Surroundings
      → Snapshots
      → Inbound crates
      → IpAddr
      → Option Served
  execute_proxy (err e, limiter) around snapshots request client_ip =
      answered_here snapshots limiter (err e)
  execute_proxy (ok target, limiter) around snapshots request client_ip =
      send (to_uri uris urls target) around snapshots request target client_ip limiter

  -- the answer to a preflight that the guards let through
  unfoldable pub answer_preflight :
      Result (Unit {0}) × Limiter crates → Snapshots → Inbound crates → Option Served
  answer_preflight (err e, limiter) snapshots request = answered_here snapshots limiter (err e)
  answer_preflight (ok _, limiter) snapshots request =
      let (status, headers) = build_preflight_response http snapshots.before.cors request.headers in
      answered_here snapshots limiter (ok (record { status = status; headers = headers }))

  -- `serve`; `none` only where the loop of redirects ran out of fuel
  unfoldable pub serve : Surroundings → Snapshots → Inbound crates → IpAddr → Option Served
  serve around snapshots request client_ip =
      if is_preflight http request.method request.headers
      then answer_preflight (admit_preflight crates snapshots.before request client_ip around.now)
          snapshots request
      else execute_proxy (admit_request crates snapshots.before request client_ip around.now) around
          snapshots request client_ip
