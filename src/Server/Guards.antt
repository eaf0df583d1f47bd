-- ===== src/Server/Guards.antt =====
-- crates/corx-server/src/middleware/request_guard.rs, and the guards of `serve` in handlers/proxy.rs:
-- what a request passes before an upstream is asked.
pub mod Passed
use corx.Circuit.{CircuitBreaker}
use corx.Config.Security.{PreflightMode, enforce, open_mode}
use corx.Cors.{build_preflight_response, is_preflight}
use corx.Error.{IpAddr, Result, ok, err}
use corx.Parser.Target.{TargetUrl, extract_target, to_uri}
use corx.Prelude.{
  ℕ, Bool, true, false, not, Option, none, some, List, [], String, Text, codes, is_empty,
  if◌then◌else◌,
}
use corx.Redirect.{Body}
use corx.Server.Crates.{Crates}
use corx.Server.OriginGuard.{origin_of, evaluate}
use corx.Server.Outbound.{outbound_headers, shape_headers}
use corx.Server.RateLimit.{check}
use corx.Server.State.{LivePolicies}
use corx.Server.State.Fits.{Limiter}
use corx.Target.{check_authority}
use corx.Upstream.{Response, Environment, Event, Run, execute}

-- `preflight.mode == PreflightMode::Enforce`
abbrev pub is_enforced : PreflightMode → Bool
is_enforced enforce = true
is_enforced open_mode = false

module _ (crates : Crates) where
  open crates use {http, uris, urls, hosts, texts, ips, governor, regexes, nets}
  open http use {HeaderMap}

  abbrev pub Policies : Type 0
  Policies = LivePolicies crates

  abbrev pub Target : Type 0
  Target = TargetUrl uris urls

  -- `Request<AxumBody>`, without the body, which is passed on as it is
  pub record Inbound : Type 0 where
    pub method : String
    pub uri : uris.Uri
    pub headers : HeaderMap

  -- `RequestGuard::check_origin`
  unfoldable pub check_origin : Policies → Inbound → Result (Unit {0})
  check_origin policies request =
      evaluate http crates.method_text policies.origin request.method request.headers

  -- `RequestGuard::check_rate`
  unfoldable pub check_rate :
      Policies → Inbound → IpAddr → Option Text → ℕ → Result (Unit {0}) × Limiter crates
  check_rate policies request client_ip target_host now =
      check texts ips governor regexes nets
        (record {
          origin = origin_of http request.headers;
          client_ip = client_ip;
          target_host = target_host;
        })
        now policies.rate_limiter

  -- `proxy::extract_target(request.uri()).ok().map(|t| t.host)`
  unfoldable pub preflight_host : Result Target → Option Text
  preflight_host (ok target) = some target.host
  preflight_host (err e) = none

  -- the guards of a preflight, from the verdict on its origin on
  unfoldable pub preflight_rate :
      Result (Unit {0}) → Policies → Inbound → IpAddr → ℕ → Result (Unit {0}) × Limiter crates
  preflight_rate (err e) policies request client_ip now = (err e, policies.rate_limiter)
  preflight_rate (ok _) policies request client_ip now =
      if policies.config.security.preflight.rate_limit
      then check_rate policies request client_ip
          (preflight_host (extract_target uris urls request.uri)) now
      else (ok tt, policies.rate_limiter)

  -- the guards of a preflight
  unfoldable pub admit_preflight :
      Policies → Inbound → IpAddr → ℕ → Result (Unit {0}) × Limiter crates
  admit_preflight policies request client_ip now =
      if is_enforced policies.config.security.preflight.mode
      then preflight_rate (check_origin policies request) policies request client_ip now
      else (ok tt, policies.rate_limiter)

  -- the target, where the rate limiter lets it through
  unfoldable pub rated :
      Result (Unit {0}) × Limiter crates → Target → Result Target × Limiter crates
  rated (err e, limiter) target = (err e, limiter)
  rated (ok _, limiter) target = (ok target, limiter)

  -- the guards of a request: the verdict on the target, then the rate
  unfoldable pub target_rate :
      Result (Unit {0}) → Target → Policies → Inbound → IpAddr → ℕ → Result Target × Limiter crates
  target_rate (err e) target policies request client_ip now = (err e, policies.rate_limiter)
  target_rate (ok _) target policies request client_ip now =
      rated (check_rate policies request client_ip (some target.host) now) target

  -- `target_policy.check(&target)` and the rest
  unfoldable pub admit_target :
      Result Target → Policies → Inbound → IpAddr → ℕ → Result Target × Limiter crates
  admit_target (err e) policies request client_ip now = (err e, policies.rate_limiter)
  admit_target (ok target) policies request client_ip now =
      target_rate (check_authority policies.target_policy (urls.scheme target.url) target.host)
        target policies request client_ip now

  -- the guards of a request that is no preflight, in the order of `serve`
  unfoldable pub admit_origin :
      Result (Unit {0}) → Policies → Inbound → IpAddr → ℕ → Result Target × Limiter crates
  admit_origin (err e) policies request client_ip now = (err e, policies.rate_limiter)
  admit_origin (ok _) policies request client_ip now =
      admit_target (extract_target uris urls request.uri) policies request client_ip now

  unfoldable pub admit_request : Policies → Inbound → IpAddr → ℕ → Result Target × Limiter crates
  admit_request policies request client_ip now =
      admit_origin (check_origin policies request) policies request client_ip now
