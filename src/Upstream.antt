-- ===== src/Upstream.antt =====
-- crates/corx-core/src/proxy/upstream.rs: the loop that sends a request and follows redirects. The
-- HTTP client, the clock and what other requests do to the shared circuit breaker meanwhile are an
-- environment. A run also lists the requests that it sent, how each of them was settled, and a
-- refusal of the breaker; an event of a settlement is written by the call that makes it.
pub mod Turns
pub mod Total
pub mod Hops
pub mod Origin
pub mod First
mod Tests
use Prim.Native.Nat.{min}
use corx.Circuit.{HostCircuit, CircuitBreaker, CircuitHop, admit, success, failure}
use corx.Config.Limits.{RedirectPolicy, follow, rewrite, block}
use corx.Error.{ProxyError, Result, ok, err}
use corx.Http.{Http}
use corx.Prelude.{
  ℕ, zero, suc, ◌+◌, Bool, true, false, ◌&&◌, not, ◌⊎◌, inl, inr, Option, none, some, List, [], ◌∷◌,
  ◌++◌, Text, codes, leb, ltb, if◌then◌else◌,
}
use corx.Redirect.{
  RedirectState, Request, NextHop, continue, stop, from_initial, is_redirect, prepare_next,
}
use corx.Table.{Table}
use corx.Target.{TargetPolicy, check_uri}
use corx.Uris.{Uris}

-- `ClientConfig`
pub record ClientConfig : Type 0 where
  pub pool_max_idle_per_host : ℕ
  pub pool_idle_timeout : ℕ
  pub connect_timeout : ℕ
  pub user_agent : Text
  pub max_redirects : ℕ
  pub allow_https_to_http_downgrade : Bool
  pub redirect_policy : RedirectPolicy

-- `StatusCode::is_server_error`
abbrev is_server_error : ℕ → Bool
is_server_error status = leb 500 status && ltb status 600

module _ (table : Table HostCircuit) (http : Http) (uris : Uris) where
  open uris use {Uri, scheme_str, host}

  -- `Response<Incoming>`, as far as the loop reads it
  pub record Response : Type 0 where
    pub status : ℕ
    pub headers : http.HeaderMap

  -- What surrounds the hop of a number: the answer of the client, or the text of its error; what the
  -- other requests do to the breaker while it runs; and the times at which it is admitted and settled.
  pub record Environment : Type 0 where
    pub client : ℕ → Request http uris → Text ⊎ Response
    pub others : ℕ → CircuitBreaker table → CircuitBreaker table
    pub admitted_at : ℕ → ℕ
    pub settled_at : ℕ → ℕ

  -- `Upstream`, without the client and the address guard
  pub record Upstream : Type 0 where
    pub config : ClientConfig
    pub target_policy : TargetPolicy

  -- What a run does: it sends a request, or settles the hop to a host as a success or a failure; or
  -- the breaker refuses a host.
  pub data Event : Type 0 where
    sent : Request http uris → Event
    settled : Text → Bool → Event
    refused : Text → Event

  -- The end of one turn of the loop.
  pub data Turn : Type 0 where
    returned : Result Response → Turn
    again : RedirectState http uris → Request http uris → Turn

  -- `host_of`
  unfoldable pub host_of : Uri → Text
  host_of uri = elim (host uri) [ none ↦ codes "unknown" | some h ↦ h ]

  -- `hop.success()`
  unfoldable pub succeeded : CircuitBreaker table → CircuitHop → ℕ → CircuitBreaker table × Event
  succeeded circuit hop now = (success table circuit hop now, settled hop.host true)

  -- `hop.failure()`
  unfoldable pub failed : CircuitBreaker table → CircuitHop → ℕ → CircuitBreaker table × Event
  failed circuit hop now = (failure table circuit hop now, settled hop.host false)

  -- `settle_terminal`
  unfoldable pub settle_terminal :
      CircuitBreaker table → CircuitHop → ℕ → ℕ → CircuitBreaker table × Event
  settle_terminal circuit hop now status =
      if circuit.count_5xx && is_server_error status
      then failed circuit hop now
      else succeeded circuit hop now

  -- what follows from the answer of `prepare_next`
  unfoldable pub next_turn : Response → RedirectState http uris × Result (NextHop http uris) → Turn
  next_turn response (state, err e) = returned (err e)
  next_turn response (state, ok (continue request)) = again state request
  next_turn response (state, ok (stop reason)) = returned (ok response)

  -- the `match` on the redirect policy and the rest of the turn. The hop is settled in every branch,
  -- and where a redirect is followed before `prepare_next` reads it.
  unfoldable pub redirected :
      Upstream
      → RedirectPolicy
      → ℕ
      → RedirectState http uris
      → Response
      → CircuitBreaker table
      → CircuitHop
      → ℕ
      → (CircuitBreaker table × Event) × Turn
  redirected upstream block hops state response circuit hop now = (
    succeeded circuit hop now,
    returned (err (ProxyError.redirect_blocked (codes "redirect policy is block"))),
  )
  redirected upstream rewrite hops state response circuit hop now =
      (succeeded circuit hop now, returned (ok response))
  redirected upstream follow hops state response circuit hop now =
      if leb upstream.config.max_redirects hops
      then (
        failed circuit hop now,
        returned (err (ProxyError.too_many_redirects upstream.config.max_redirects)),
      )
      else (
        succeeded circuit hop now,
        next_turn response (
            prepare_next http uris state response.status response.headers
              upstream.config.allow_https_to_http_downgrade),
      )

  -- the turn from the answer of the client on
  unfoldable pub answered :
      Upstream
      → CircuitBreaker table
      → ℕ
      → RedirectState http uris
      → Text ⊎ Response
      → CircuitHop
      → ℕ
      → (CircuitBreaker table × Event) × Turn
  answered upstream circuit hops state (inl message) hop now =
      (failed circuit hop now, returned (err (ProxyError.upstream message)))
  answered upstream circuit hops state (inr response) hop now =
      if not (is_redirect response.status)
      then (settle_terminal circuit hop now response.status, returned (ok response))
      else redirected upstream upstream.config.redirect_policy hops state response circuit hop now

  -- the turn from the answer of `CircuitHop::admit` on
  unfoldable pub dispatch :
      Environment
      → Upstream
      → ℕ
      → RedirectState http uris
      → Request http uris
      → CircuitBreaker table × Result CircuitHop
      → CircuitBreaker table × (List Event × Turn)
  dispatch env upstream hops state request (circuit, err e) =
      (circuit, (refused (host_of request.uri) ∷ [], returned (err e)))
  dispatch env upstream hops state request (circuit, ok hop) =
      let ((circuit', event), turn) =
        answered upstream (env.others hops circuit) hops state (env.client hops request) hop
          (env.settled_at hops) in
      (circuit', (sent request ∷ event ∷ [], turn))

  -- one turn of the loop of `execute`
  unfoldable pub take_turn :
      Environment
      → Upstream
      → ℕ
      → RedirectState http uris
      → Request http uris
      → CircuitBreaker table
      → CircuitBreaker table × (List Event × Turn)
  take_turn env upstream hops state request circuit =
      elim (check_uri upstream.target_policy (scheme_str request.uri) (host request.uri)) [
        | err e ↦ (circuit, ([], returned (err e)))
        | ok _ ↦
            dispatch env upstream hops state request
              (admit table circuit (host_of request.uri) (env.admitted_at hops))
      ]

  -- A finished run: the breaker, what was done, and the answer.
  pub record Run : Type 0 where
    pub circuit : CircuitBreaker table
    pub log : List Event
    pub answer : Result Response

  abbrev pub with_log : List Event → Option Run → Option Run
  with_log events none = none
  with_log events (some run) = some (record run { log = events ++ run.log })

  -- the loop of `execute`; `none` where the fuel runs out
  unfoldable pub turns :
      Environment
      → Upstream
      → ℕ
      → ℕ
      → RedirectState http uris
      → Request http uris
      → CircuitBreaker table
      → Option Run
  turns env upstream zero hops state request circuit = none
  turns env upstream (suc fuel) hops state request circuit =
      let (circuit', (events, turn)) = take_turn env upstream hops state request circuit in
      elim turn [
        | returned answer ↦ some (record { circuit = circuit'; log = events; answer = answer })
        | again state' request' ↦
            with_log events (turns env upstream fuel (min (hops + 1) 255) state' request' circuit')
      ]

  -- `Upstream::execute`; `split_initial` takes the state from the request
  unfoldable pub execute :
      Environment → Upstream → Request http uris → CircuitBreaker table → Option Run
  execute env upstream request circuit =
      turns env upstream (suc upstream.config.max_redirects) 0
        (from_initial http uris request.method request.uri request.headers) request circuit
