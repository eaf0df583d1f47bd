-- ===== src/Config/Listener.antt =====
-- crates/corx-core/src/config/server.rs, tls.rs, upstream.rs and observability.rs: the listener, the
-- pool of the HTTP client, and the telemetry, of which only the path of the metrics is read here.
use corx.Config.Limits.{from_secs}
use corx.Error.{IpAddr}
use corx.Prelude.{ℕ, Bool, true, Option, none, List, [], ◌∷◌, String, Text, codes}
use corx.Ssrf.{SocketAddr}

-- `TlsConfig`; a path is the text that it displays
pub record TlsConfig : Type 0 where
  pub cert_path : String
  pub key_path : String
  pub client_ca_path : Option String
  pub alpn_protocols : List String

-- `default_alpn_protocols`
abbrev pub default_alpn_protocols : List String
default_alpn_protocols = "h2" ∷ "http/1.1" ∷ []

-- `ServerConfig`
pub record ServerConfig : Type 0 where
  pub bind : SocketAddr
  pub workers : ℕ
  pub graceful_shutdown : ℕ
  pub http2 : Bool
  pub tls : Option TlsConfig

-- `Default for ServerConfig`
abbrev pub default_server : ServerConfig
default_server = record {
  bind = record { ip = IpAddr.v4 0; port = 8080 };
  workers = 0;
  graceful_shutdown = from_secs 30;
  http2 = true;
  tls = none;
}

-- `UpstreamConfig`
pub record UpstreamConfig : Type 0 where
  pub pool_max_idle_per_host : ℕ
  pub pool_idle_timeout : ℕ
  pub user_agent : Text

-- `Default for UpstreamConfig`; the version is set when the crate is built
abbrev pub default_upstream : Text → UpstreamConfig
default_upstream user_agent = record {
  pool_max_idle_per_host = 32;
  pool_idle_timeout = from_secs 90;
  user_agent = user_agent;
}

-- `ObservabilityConfig`, without the settings of the logs and of OpenTelemetry
pub record ObservabilityConfig : Type 0 where
  pub metrics_endpoint : Text

-- `Default for ObservabilityConfig`
abbrev pub default_observability : ObservabilityConfig
default_observability = record { metrics_endpoint = codes "/metrics" }
