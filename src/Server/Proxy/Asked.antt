-- ===== src/Server/Proxy/Asked.antt =====
-- A request that passed every guard is sent.
use corx.Circuit.{check}
use corx.Cors.{is_preflight}
use corx.Error.{IpAddr, Result, ok, err, ok-injective}
use corx.Parser.Safety.{to_uri-check_uri}
use corx.Parser.Target.{to_uri}
use corx.Prelude.{◌≤◌, ◌≡◌, refl, ◌∙◌, false, Option, some}
use corx.Server.Crates.{Crates}
use corx.Server.Guards.{Target, Inbound}
use corx.Server.Guards.Passed.{Passed, admit_request-Passed_iff}
use corx.Server.Proxy.{Surroundings, Snapshots, Served, finish, send, execute_proxy, serve}
use corx.Server.Proxy.Guarded.{outbound}
use corx.Server.State.Fits.{Limiter}
use corx.Target.{check_authority}
use corx.Upstream.{host_of}
use corx.Upstream.First.{Begins, execute-Begins}
use corx.Upstream.Total.{execute-total}

module _ (crates : Crates) (around : Surroundings crates) (snapshots : Snapshots crates)
    (request : Inbound crates) (client_ip : IpAddr) where
  open crates use {http, uris, urls, hosts}

  -- The answer to a request, whose first event is that the request for a URI was sent.
  abbrev pub Asks : Target crates → uris.Uri → Option (Served crates) → Type 0
  Asks target uri result =
      (served : Served crates) × ((result ≡ some served)
        × Begins hosts http uris around.environment snapshots.during.client.upstream
            (outbound crates around snapshots request client_ip target uri) served.log)

  admitted-Asks :
      (admitted : Result (Target crates) × Limiter crates) (target : Target crates) (uri : uris.Uri)
      → admitted.0 ≡ ok target
      → to_uri uris urls target ≡ ok uri
      → ((limiter : Limiter crates)
          → Asks target uri
              (send crates (ok uri) around snapshots request target client_ip limiter))
      → Asks target uri (execute_proxy crates admitted around snapshots request client_ip)
  unfolding execute_proxy
  admitted-Asks (ok found, limiter) target uri e u h =
      rw (execute_proxy, ok-injective e, u) (h limiter)
  admitted-Asks (err e, limiter) target uri f u h = absurd cc

  -- A request that is no preflight and passed every guard is answered, and an upstream is asked
  -- first: with the URI of its target and the headers that the proxy prepared, if the target has a
  -- URI, the target policy of the client lets the target through, and the circuit breaker admits the
  -- host.
  pub serve-Asks :
      (target : Target crates) (uri : uris.Uri)
      → is_preflight http request.method request.headers ≡ false
      → Passed crates snapshots.before request client_ip around.now target
      → to_uri uris urls target ≡ ok uri
      → check_authority snapshots.during.client.upstream.target_policy
          (urls.scheme target.url)
          target.host
        ≡ ok tt
      → (check hosts snapshots.during.circuit
          (host_of hosts http uris uri)
          (around.environment.admitted_at 0)).1
        ≡ ok tt
      → snapshots.during.client.upstream.config.max_redirects ≤ 255
      → Asks target uri (serve crates around snapshots request client_ip)
  unfolding serve send finish
  serve-Asks target uri p passed u policy admitted small =
      let first = outbound crates around snapshots request client_ip target uri in
      let client = snapshots.during.client.upstream in
      let (run, ran, _) =
        execute-total hosts http uris around.environment client first snapshots.during.circuit
          small in
      let agrees =
        to_uri-check_uri uris urls client.target_policy request.uri target uri passed.1.0 u in
      let begins =
        execute-Begins hosts http uris around.environment client first snapshots.during.circuit run
          (agrees ∙ policy) admitted ran in
      let passes =
        (admit_request-Passed_iff crates snapshots.before request client_ip around.now target).1
          passed in
      rw (serve, p)
        (admitted-Asks _ target uri passes u (λ limiter. rw (send, ran) (_, (refl, begins))))
