-- ===== src/Server/Proxy/Guarded.antt =====
-- No upstream is asked before every guard let the request through, and every request is answered.
use corx.Circuit.{CircuitBreaker}
use corx.Cors.{is_preflight}
use corx.Error.{IpAddr, Result, ok, err}
use corx.Parser.Target.{to_uri}
use corx.Prelude.{
  ◌+◌, ◌≤◌, ◌≡◌, ◌⊎◌, refl, sym, ap, inl, inr, false, Option, none, some, List, [], All, arith,
  Bool-cases,
}
use corx.Redirect.{Request, Body}
use corx.Server.Crates.{Crates}
use corx.Server.Guards.{Target, Inbound, admit_request}
use corx.Server.Guards.Passed.{Passed, admit_request-Passed_iff}
use corx.Server.Proxy.{
  Surroundings, Snapshots, request_headers, Served, finish, send, execute_proxy, answer_preflight,
  serve,
}
use corx.Server.State.Fits.{Limiter}
use corx.Upstream.{Event, Run, execute}
use corx.Upstream.Hops.{IsOrderly, execute-IsOrderly}
use corx.Upstream.Origin.{EventCarries, execute-Carries}
use corx.Upstream.Total.{sent_count, execute-total}

some_inj : {A : Type 0} {a b : A} → Option.some a ≡ some b → a ≡ b
some_inj e = cc

module _ (crates : Crates) where
  open crates use {http, uris, hosts}

  module _ (around : Surroundings crates) (snapshots : Snapshots crates) (request : Inbound crates)
      (client_ip : IpAddr) where
    -- the request that goes out first
    abbrev pub outbound : Target crates → uris.Uri → Request http uris
    outbound target uri = record {
      method = request.method;
      uri = uri;
      headers = request_headers crates around snapshots.during request target client_ip;
      body = Body.original;
    }

    -- Upstreams are asked only for a request that is no preflight and passed every guard. The first
    -- request goes to the URI of the admitted target, with the headers that the proxy prepared; the
    -- later ones carry no credentials to another authority; and each goes to a URI that the target
    -- policy admits, with its hop recorded by the breaker that is left.
    abbrev pub IsGuarded : List (Event hosts http uris) → CircuitBreaker hosts → Type 0
    IsGuarded log circuit =
        ((log ≡ []) × (circuit ≡ snapshots.during.circuit))
        ⊎ ((target : Target crates) × ((is_preflight http request.method request.headers ≡ false)
              × (Passed crates snapshots.before request client_ip around.now target
                  × ((uri : uris.Uri) × ((to_uri uris crates.urls target ≡ ok uri)
                        × (All (EventCarries hosts http uris (outbound target uri)) log
                            × IsOrderly hosts http uris around.environment
                                snapshots.during.client.upstream 0 snapshots.during.circuit log
                                circuit))))))

    abbrev running : Target crates → uris.Uri → Option (Run hosts http uris)
    running target uri =
        execute hosts http uris around.environment snapshots.during.client.upstream
          (outbound target uri) snapshots.during.circuit

    -- The events of an answer are those of its run.
    finish-log :
        (target : Target crates) (limiter : Limiter crates) (result : Option (Run hosts http uris))
        (served : Served crates)
        → finish crates snapshots target limiter result ≡ some served
        → (run : Run hosts http uris) × ((result ≡ some run)
            × ((run.log ≡ served.log) × (run.circuit ≡ served.circuit)))
    unfolding finish
    finish-log target limiter none served h = cc
    finish-log target limiter (some run) served h =
        (run, (refl, (ap (λ x. x.log) (some_inj h), ap (λ x. x.circuit) (some_inj h))))

    send-IsGuarded :
        (found : Result uris.Uri) (target : Target crates) (limiter : Limiter crates)
        (served : Served crates)
        → is_preflight http request.method request.headers ≡ false
        → Passed crates snapshots.before request client_ip around.now target
        → to_uri uris crates.urls target ≡ found
        → send crates found around snapshots request target client_ip limiter ≡ some served
        → IsGuarded served.log served.circuit
    unfolding send
    send-IsGuarded (err e) target limiter served p passed u h =
        inl (ap (λ x. x.log) (sym (some_inj h)), ap (λ x. x.circuit) (sym (some_inj h)))
    send-IsGuarded (ok uri) target limiter served p passed u h =
        let (run, (ran, (same, left))) = finish-log target limiter (running target uri) served h in
        let client = snapshots.during.client.upstream in
        let first = outbound target uri in
        let carries =
          execute-Carries hosts http uris around.environment client first snapshots.during.circuit
            run ran in
        let orderly =
          execute-IsOrderly hosts http uris around.environment client first snapshots.during.circuit
            run ran in
        inr (target, (p, (passed, (uri, (u, rw (sym same, sym left) (carries, orderly))))))

    execute_proxy-IsGuarded :
        (admitted : Result (Target crates) × Limiter crates) (served : Served crates)
        → is_preflight http request.method request.headers ≡ false
        → admit_request crates snapshots.before request client_ip around.now ≡ admitted
        → execute_proxy crates admitted around snapshots request client_ip ≡ some served
        → IsGuarded served.log served.circuit
    unfolding execute_proxy
    execute_proxy-IsGuarded (err e, limiter) served p a h =
        inl (ap (λ x. x.log) (sym (some_inj h)), ap (λ x. x.circuit) (sym (some_inj h)))
    execute_proxy-IsGuarded (ok target, limiter) served p a h =
        send-IsGuarded (to_uri uris crates.urls target) target limiter served p
          ((admit_request-Passed_iff crates snapshots.before request client_ip around.now target).0
            (ap (λ x. x.0) a))
          refl h

    preflight-log :
        (admitted : Result (Unit {0}) × Limiter crates) (served : Served crates)
        → answer_preflight crates admitted snapshots request ≡ some served
        → (served.log ≡ []) × (served.circuit ≡ snapshots.during.circuit)
    unfolding answer_preflight
    preflight-log (err e, limiter) served h =
        (ap (λ x. x.log) (sym (some_inj h)), ap (λ x. x.circuit) (sym (some_inj h)))
    preflight-log (ok _, limiter) served h =
        (ap (λ x. x.log) (sym (some_inj h)), ap (λ x. x.circuit) (sym (some_inj h)))

    -- Upstreams are asked only for a request that is no preflight and that passed every guard. Each
    -- request that goes out is the one for the URI of the admitted target, with the headers that the
    -- proxy prepared, or follows it without credentials for another authority; the target policy
    -- admits its URI, and the breaker that is left is the one that has admitted the host of each and
    -- recorded the end of its hop once, as a success or a failure. Otherwise the breaker stays as it
    -- was. The handler's three loads of the policies may give three different snapshots.
    pub serve-IsGuarded :
        (served : Served crates)
        → serve crates around snapshots request client_ip ≡ some served
        → IsGuarded served.log served.circuit
    unfolding serve
    serve-IsGuarded served h =
        elim (Bool-cases (is_preflight http request.method request.headers)) [
          | inl p ↦ inl (preflight-log _ served (rw (serve, p) at h))
          | inr p ↦ execute_proxy-IsGuarded _ served p refl (rw (serve, p) at h)
        ]

    -- The answer to a request, with the number of requests that it cost.
    abbrev pub Ends : Option (Served crates) → Type 0
    Ends result =
        (served : Served crates) × ((result ≡ some served)
          × (sent_count hosts http uris served.log
              ≤ snapshots.during.client.upstream.config.max_redirects + 1))

    send-Ends :
        (found : Result uris.Uri) (target : Target crates) (limiter : Limiter crates)
        → snapshots.during.client.upstream.config.max_redirects ≤ 255
        → Ends (send crates found around snapshots request target client_ip limiter)
    unfolding send finish sent_count
    send-Ends (err e) target limiter small = (_, (refl, omega arith))
    send-Ends (ok uri) target limiter small =
        let (run, ran, few) =
          execute-total hosts http uris around.environment snapshots.during.client.upstream
            (outbound target uri) snapshots.during.circuit small in
        rw ran (_, (refl, few))

    execute_proxy-Ends :
        (admitted : Result (Target crates) × Limiter crates)
        → snapshots.during.client.upstream.config.max_redirects ≤ 255
        → Ends (execute_proxy crates admitted around snapshots request client_ip)
    unfolding execute_proxy sent_count
    execute_proxy-Ends (err e, limiter) small = (_, (refl, omega arith))
    execute_proxy-Ends (ok target, limiter) small =
        send-Ends (to_uri uris crates.urls target) target limiter small

    preflight-Ends :
        (admitted : Result (Unit {0}) × Limiter crates)
        → Ends (answer_preflight crates admitted snapshots request)
    unfolding answer_preflight sent_count
    preflight-Ends (err e, limiter) = (_, (refl, omega arith))
    preflight-Ends (ok _, limiter) = (_, (refl, omega arith))

    -- Every request is answered, whatever upstreams do, at the cost of at most one request more than
    -- the redirect budget.
    pub serve-Ends :
        snapshots.during.client.upstream.config.max_redirects ≤ 255
        → Ends (serve crates around snapshots request client_ip)
    unfolding serve
    serve-Ends small = elim (Bool-cases (is_preflight http request.method request.headers)) [
      | inl p ↦ rw (serve, p) (preflight-Ends _)
      | inr p ↦ rw (serve, p) (execute_proxy-Ends _ small)
    ]
