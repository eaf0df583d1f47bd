-- ===== src/Lib.antt =====
-- corx: a CORS proxy. A request passes the layers of the server crate (the limit on headers, load
-- shedding, bearer tokens) and reaches the proxy handler: the origin guard lets it through, its
-- target is read from its URI, the target is admitted by the target policy, the rate limiter
-- charges it, its headers are filtered, and the upstream client sends it, hop by hop, under the
-- circuit breaker of each host and through a resolver that only hands out admitted addresses. The
-- response is filtered, its body is capped, and the CORS layer stamps its headers. A reload
-- replaces the policies while requests are served.
--
-- The parts, and the files that they are modelled from:
-- - Error: crates/corx-core/src/error.rs, the kinds of errors and what a client sees of them.
-- - Config: crates/corx-core/src/config, the sections of a configuration, their defaults and derived
--   equality; Config.Validate: validate.rs, the checks of a configuration.
-- - Circuit: crates/corx-core/src/policy/circuit.rs and config/circuit.rs. `HostCircuit` is the state
--   of one host, `CircuitBreaker` the breaker (`Inner`); `check`, `record_success`, `record_failure`
--   and the hop guard (`admit`, `success`, `failure`, `drop_hop`) pass it along. Time is an argument.
-- - Target: crates/corx-core/src/policy/target.rs and config/target.rs, `check_authority`.
-- - Ssrf: crates/corx-core/src/proxy/ssrf.rs and config/ssrf.rs, `check_ip` and `resolve`.
-- - Redirect: crates/corx-core/src/proxy/redirect.rs, `prepare_next`.
-- - Upstream: crates/corx-core/src/proxy/upstream.rs, `execute`. A run lists the requests that it
--   sent, how it settled their hops, and a refusal of the breaker.
-- - Forwarded: crates/corx-core/src/proxy/forwarded.rs and config/forwarded.rs, `inject`.
-- - Parser: crates/corx-core/src/proxy/url_parser.rs, from the URI of a request to its target.
-- - Headers: crates/corx-core/src/proxy/headers.rs, `HeaderFilter`.
-- - Cors: crates/corx-core/src/proxy/cors.rs and config/cors.rs, `CorsPolicy` and its three uses.
-- - Server.HeaderLimit, Server.LoadShed, Server.Auth, Server.OriginGuard, Server.RateLimit:
--   header_limit.rs, load_shed.rs, auth.rs, origin_guard.rs and rate_limit.rs of
--   crates/corx-server/src/middleware.
-- - Server.Layers: crates/corx-server/src/router.rs, with middleware/cors.rs and error.rs, the layers
--   around the handlers, for one request at a time.
-- - Server.Body: crates/corx-server/src/observability/metering.rs, `LimitingBody`.
-- - Server.Guards, Server.Proxy: crates/corx-server/src/middleware/request_guard.rs and
--   crates/corx-server/src/handlers/proxy.rs, the handler that composes the parts above. It loads the
--   policies three times; its arguments are the three snapshots.
-- - Server.Outbound: crates/corx-server/src/handlers/outbound.rs, the request for the upstream server
--   and the `Location` of its response.
-- - Server.State: crates/corx-server/src/state.rs, hot_reload.rs and config_loader.rs, the policies
--   built from a configuration and what a reload makes of them.
-- Prelude holds the lists, texts and tests that all of them use, Equality the equalities that Rust
-- derives field by field. Table, Http, Uris, Urls and Keys are interfaces: the concurrent map of
-- dashmap, the header maps of http, the URIs of http and url, the parser of url, and the sets of keys
-- that the rate limiter shares. Each has an instance that meets its laws (Table.Assoc, Http.Assoc,
-- Uris.Known, Urls.Known, Keys.Listed); Server.Crates bundles what the server takes from other crates,
-- with Server.Crates.Known as instance.
--
-- Texts are lists of bytes; numbers are unbounded, with the saturation and the limits of the source
-- written out. The loop of `execute` runs on fuel, one more than `max_redirects`, a number of 8 bits:
-- each turn that goes on counts one redirect, and none goes on at the limit. Other tasks enter as the
-- environment of a run: what they do to the breaker meanwhile is an arbitrary function. The counters of
-- load shedding and of the rate limiter's keys are step relations, with one step for each access.
--
-- Not modelled: TLS, shutdown, telemetry, the command line, the layers of a configuration file, the
-- routes and the operational endpoints. Counters of metrics and log lines are left out everywhere.
-- Crates outside the repository are parameters.
pub mod Prelude
pub mod Error
pub mod Table
pub mod Keys
pub mod Equality
pub mod Circuit
pub mod Http
pub mod Headers
pub mod Cors
pub mod Target
pub mod Ssrf
pub mod Uris
pub mod Urls
pub mod Redirect
pub mod Upstream
pub mod Forwarded
pub mod Parser
pub mod Config
pub mod Server
