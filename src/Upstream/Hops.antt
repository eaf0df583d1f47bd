-- ===== src/Upstream/Hops.antt =====
-- What every hop of a run has passed, and how it is settled at the circuit breaker.
use Prim.Native.Nat.{min}
use mathlib.Core.Option.{some-injective}
use mathlib.Core.Path.{subst}
use corx.Circuit.{
  HostCircuit, CircuitBreaker, CircuitHop, check, admit, record_success, record_failure, success,
  failure, drop_hop,
}
use corx.Config.Limits.{RedirectPolicy, follow, rewrite, block}
use corx.Error.{ProxyError, ok, err, Result-cases}
use corx.Http.{Http}
use corx.Prelude.{
  ℕ, zero, suc, ◌+◌, leb, ◌≡◌, refl, sym, Option-cases, ◌⊎◌, inl, inr, Bool, true, false, not, ◌&&◌,
  Option, some, List, [], ◌∷◌, ◌++◌, Text, arith, if◌then◌else◌,
}
use corx.Redirect.{RedirectState, Request, is_redirect}
use corx.Table.{Table}
use corx.Target.{check_uri}
use corx.Upstream.{
  Response, Environment, Upstream, Event, sent, settled, refused, Turn, returned, again,
  is_server_error, succeeded, failed, settle_terminal, redirected, answered, dispatch, take_turn,
  host_of, Run, with_log, turns, execute,
}
use corx.Upstream.Turns.{Outcome, take_turn-cases}
use corx.Uris.{Uris}

abbrev is_follow : RedirectPolicy → Bool
is_follow follow = true
is_follow rewrite = false
is_follow block = false

module _ (table : Table HostCircuit) (http : Http) (uris : Uris) (env : Environment table http uris)
    (upstream : Upstream table http uris) where
  -- A hop is a failure where the client fails, where the redirect budget is used up, and, where the
  -- breaker counts them, on a server error.
  unfoldable pub judged : ℕ → CircuitBreaker table → Text ⊎ Response table http uris → Bool
  judged hops circuit (inl message) = false
  judged hops circuit (inr response) =
      if is_redirect response.status
      then not (is_follow upstream.config.redirect_policy && leb upstream.config.max_redirects hops)
      else not (circuit.count_5xx && is_server_error response.status)

  -- What the breaker records of a hop.
  unfoldable pub recorded : CircuitBreaker table → Text → ℕ → Bool → CircuitBreaker table
  recorded circuit host now good =
      if good then record_success table circuit host else record_failure table circuit host now

  -- The breaker when the hop of a request is settled: after its admission, and what others did since.
  abbrev pub meanwhile : ℕ → CircuitBreaker table → Request http uris → CircuitBreaker table
  meanwhile hops circuit request =
      env.others hops
        (check table circuit (host_of table http uris request.uri) (env.admitted_at hops)).0

  abbrev pub judgement : ℕ → CircuitBreaker table → Request http uris → Bool
  judgement hops circuit request =
      judged hops (meanwhile hops circuit request) (env.client hops request)

  -- `IsOrderly hops before log after`: from the hop of that number on, the events bring the breaker
  -- from one state to the other. Each request that is sent goes to a URI that the target policy lets
  -- through and to a host that the breaker admits, and before anything else happens the breaker
  -- records how its hop ended, once and for the host of its URI. A host that the breaker refuses ends
  -- the run.
  pub data IsOrderly
      : ℕ
        → CircuitBreaker table
        → List (Event table http uris)
        → CircuitBreaker table
        → Type 0 where
    ended : (hops : ℕ) (circuit : CircuitBreaker table) → IsOrderly hops circuit [] circuit
    turned_away :
        (hops : ℕ) (circuit : CircuitBreaker table) (request : Request http uris) (e : ProxyError)
        → check_uri upstream.target_policy (uris.scheme_str request.uri) (uris.host request.uri)
          ≡ ok tt
        → (check table circuit (host_of table http uris request.uri) (env.admitted_at hops)).1
          ≡ err e
        → IsOrderly hops circuit
            (refused (host_of table http uris request.uri) ∷ [])
            (check table circuit (host_of table http uris request.uri) (env.admitted_at hops)).0
    hopped :
        (hops : ℕ) (circuit : CircuitBreaker table) (request : Request http uris)
        (log : List (Event table http uris)) (after : CircuitBreaker table)
        → check_uri upstream.target_policy (uris.scheme_str request.uri) (uris.host request.uri)
          ≡ ok tt
        → (check table circuit (host_of table http uris request.uri) (env.admitted_at hops)).1
          ≡ ok tt
        → IsOrderly
            (min (hops + 1) 255)
            (recorded
              (meanwhile hops circuit request)
              (host_of table http uris request.uri)
              (env.settled_at hops)
              (judgement hops circuit request))
            log
            after
        → IsOrderly hops circuit
            (sent request
              ∷ settled (host_of table http uris request.uri) (judgement hops circuit request)
              ∷ log)
            after

  abbrev fresh : Text → CircuitHop
  fresh host = record { host = host; settled = false }

  -- A settlement with its event.
  abbrev settling :
      CircuitBreaker table → Text → ℕ → Bool → CircuitBreaker table × Event table http uris
  settling circuit host now good = (recorded circuit host now good, settled host good)

  redirected-settles :
      (policy : RedirectPolicy) (hops : ℕ) (state : RedirectState http uris)
      (response : Response table http uris) (circuit : CircuitBreaker table) (host : Text) (now : ℕ)
      → (redirected table http uris upstream policy hops state response circuit (fresh host) now).0
        ≡ settling circuit host now
            (not (is_follow policy && leb upstream.config.max_redirects hops))
  unfolding redirected succeeded failed success failure drop_hop recorded
  redirected-settles block hops state response circuit host now = refl
  redirected-settles rewrite hops state response circuit host now = refl
  redirected-settles follow hops state response circuit host now = ground arith

  terminal-settles :
      (circuit : CircuitBreaker table) (host : Text) (now status : ℕ)
      → settle_terminal table http uris circuit (fresh host) now status
        ≡ settling circuit host now (not (circuit.count_5xx && is_server_error status))
  unfolding settle_terminal succeeded failed success failure drop_hop recorded
  terminal-settles circuit host now status = ground arith

  answered-settles :
      (circuit : CircuitBreaker table) (hops : ℕ) (state : RedirectState http uris)
      (found : Text ⊎ Response table http uris) (host : Text) (now : ℕ)
      → (answered table http uris upstream circuit hops state found (fresh host) now).0
        ≡ settling circuit host now (judged hops circuit found)
  unfolding answered judged failed failure drop_hop recorded
  answered-settles circuit hops state (inl message) host now = refl
  answered-settles circuit hops state (inr response) host now = ground (
    arith,
    terminal-settles circuit host now response.status,
    redirected-settles upstream.config.redirect_policy hops state response circuit host now,
  )

  -- A turn that ends the run is an orderly one, and a turn that goes on begins one.
  Opens : ℕ → CircuitBreaker table → Outcome table http uris env upstream → Type 0
  Opens hops circuit (after, (events, returned answer)) = IsOrderly hops circuit events after
  Opens hops circuit (after, (events, again state request)) =
      (log : List (Event table http uris)) (last : CircuitBreaker table)
      → IsOrderly (min (hops + 1) 255) after log last
      → IsOrderly hops circuit (events ++ log) last

  hopped-Opens :
      (hops : ℕ) (circuit after : CircuitBreaker table) (one two : Event table http uris)
      (turn : Turn table http uris)
      → ((log : List (Event table http uris)) (last : CircuitBreaker table)
          → IsOrderly (min (hops + 1) 255) after log last
          → IsOrderly hops circuit (one ∷ two ∷ log) last)
      → Opens hops circuit (after, (one ∷ two ∷ [], turn))
  unfolding Opens
  hopped-Opens hops circuit after one two (returned answer) h = h [] after (ended _ after)
  hopped-Opens hops circuit after one two (again state request) h = h

  settled-Opens :
      (hops : ℕ) (circuit : CircuitBreaker table) (request : Request http uris)
      (settlement : CircuitBreaker table × Event table http uris) (turn : Turn table http uris)
      → check_uri upstream.target_policy (uris.scheme_str request.uri) (uris.host request.uri)
        ≡ ok tt
      → (check table circuit (host_of table http uris request.uri) (env.admitted_at hops)).1 ≡ ok tt
      → settlement
        ≡ settling
            (meanwhile hops circuit request)
            (host_of table http uris request.uri)
            (env.settled_at hops)
            (judgement hops circuit request)
      → Opens hops circuit (settlement.0, (sent request ∷ settlement.1 ∷ [], turn))
  settled-Opens hops circuit request settlement turn policy admitted e =
      subst
        (λ (x : CircuitBreaker table × Event table http uris).
          Opens hops circuit (x.0, (sent request ∷ x.1 ∷ [], turn)))
        (sym e)
        (hopped-Opens hops circuit _ (sent request) _ turn
          (λ log last h. hopped hops circuit request log last policy admitted h))

  dispatch-Opens :
      (hops : ℕ) (state : RedirectState http uris) (request : Request http uris)
      (circuit : CircuitBreaker table)
      → check_uri upstream.target_policy (uris.scheme_str request.uri) (uris.host request.uri)
        ≡ ok tt
      → Opens hops circuit (
          dispatch table http uris env upstream hops state request
            (admit table circuit (host_of table http uris request.uri) (env.admitted_at hops)))
  unfolding dispatch admit Opens
  dispatch-Opens hops state request circuit policy =
      let host = host_of table http uris request.uri in
      elim (Result-cases (check table circuit host (env.admitted_at hops)).1) [
        | inr (e, r) ↦ rw (admit, r) (turned_away hops circuit request e policy r)
        | inl (_, r) ↦
            let found = env.client hops request in
            let circuit' = meanwhile hops circuit request in
            let out =
              answered table http uris upstream circuit' hops state found (fresh host)
                (env.settled_at hops) in
            let settles = answered-settles circuit' hops state found host (env.settled_at hops) in
            rw (admit, r) (settled-Opens hops circuit request out.0 out.1 policy r settles)
      ]

  take_turn-Opens :
      (hops : ℕ) (state : RedirectState http uris) (request : Request http uris)
      (circuit : CircuitBreaker table)
      → Opens hops circuit (take_turn table http uris env upstream hops state request circuit)
  unfolding Opens
  take_turn-Opens hops state request circuit =
      take_turn-cases table http uris env upstream (Opens hops circuit) hops state request circuit
        (λ e. ended hops circuit)
        (λ policy admission a.
          subst
            (λ x. Opens hops circuit (dispatch table http uris env upstream hops state request x)) a
            (dispatch-Opens hops state request circuit policy))

  continued :
      (hops : ℕ) (circuit : CircuitBreaker table)
      (rest : RedirectState http uris
        → Request http uris
        → CircuitBreaker table
        → Option (Run table http uris))
      (out : Outcome table http uris env upstream) (run : Run table http uris)
      → Opens hops circuit out
      → ((s : RedirectState http uris) (r : Request http uris) (c : CircuitBreaker table)
            (later : Run table http uris)
          → rest s r c ≡ some later
          → IsOrderly (min (hops + 1) 255) c later.log later.circuit)
      → (let (c, (events, t)) = out in
          elim t [
            | returned answer ↦ some (record { circuit = c; log = events; answer = answer })
            | again s r ↦ with_log table http uris events (rest s r c)
          ])
        ≡ some run
      → IsOrderly hops circuit run.log run.circuit
  unfolding Opens
  continued hops circuit rest (c, (events, returned answer)) run opens h k =
      subst (λ (r : Run table http uris). IsOrderly hops circuit r.log r.circuit)
        (some-injective (record { circuit = c; log = events; answer = answer }) run k) opens
  continued hops circuit rest (c, (events, again s r)) run opens h k =
      elim (Option-cases (rest s r c)) [
        | inl e ↦ absurd (let none_run = rw e at k in cc)
        | inr (later, e) ↦
            subst (λ (r : Run table http uris). IsOrderly hops circuit r.log r.circuit)
              (some-injective (record later { log = events ++ later.log }) run (rw e at k))
              (opens later.log later.circuit (h s r c later e))
      ]

  turns-IsOrderly :
      (fuel hops : ℕ) (state : RedirectState http uris) (request : Request http uris)
      (circuit : CircuitBreaker table) (run : Run table http uris)
      → turns table http uris env upstream fuel hops state request circuit ≡ some run
      → IsOrderly hops circuit run.log run.circuit
  unfolding turns
  turns-IsOrderly zero hops state request circuit run e = absurd cc
  turns-IsOrderly (suc fuel) hops state request circuit run e =
      continued hops circuit (turns table http uris env upstream fuel (min (hops + 1) 255))
        (take_turn table http uris env upstream hops state request circuit) run
        (take_turn-Opens hops state request circuit) (turns-IsOrderly fuel (min (hops + 1) 255)) e

  -- Of every run, each request that was sent went to a URI that the target policy lets through and
  -- to a host that the circuit breaker admitted, and before the next request was sent the breaker
  -- recorded the end of its hop, once and for the host of that URI: a failure where the client failed,
  -- where the redirect budget was used up, or, if these count, on a server error, and else a success.
  -- The breaker that the run leaves is the one that these admissions and records, and what other
  -- requests did between them, make of the one before.
  pub execute-IsOrderly :
      (request : Request http uris) (circuit : CircuitBreaker table) (run : Run table http uris)
      → execute table http uris env upstream request circuit ≡ some run
      → IsOrderly 0 circuit run.log run.circuit
  unfolding execute
  execute-IsOrderly request circuit run e = turns-IsOrderly _ 0 _ request circuit run e
