-- ===== src/Config/Equality.antt =====
-- The sections of the configuration that a reload compares, field by field.
use corx.Circuit.{CircuitBreakerConfig}
use corx.Config.Limits.{RedirectPolicy, follow, block, rewrite}
use corx.Config.Listener.{TlsConfig, UpstreamConfig}
use corx.Config.RateLimit.{
  OriginLimitConfig, IpLimitConfig, HostLimitConfig, GlobalLimitConfig, RateLimitConfig,
}
use corx.Equality.{
  Equal, nat_equal, text_equal, string_equal, bool_equal, pair_equal, list_equal, option_equal, via,
}
use corx.Error.{IpAddr}
use corx.Prelude.{ℕ, ◌≡◌, refl, Bool, true, false, Option, none, some}
use corx.Ssrf.{IpNets, SocketAddr, SsrfMode, SsrfConfig}
use corx.Target.{TargetMode, TargetConfig, any_public, allowlist, denylist}

abbrev pub redirect_index : RedirectPolicy → Option Bool
redirect_index follow = none
redirect_index block = some false
redirect_index rewrite = some true

abbrev pub redirect_of : Option Bool → RedirectPolicy
redirect_of none = follow
redirect_of (some false) = block
redirect_of (some true) = rewrite

pub redirect_of-index : (p : RedirectPolicy) → redirect_of (redirect_index p) ≡ p
redirect_of-index follow = refl
redirect_of-index block = refl
redirect_of-index rewrite = refl

abbrev pub redirect_equal : Equal RedirectPolicy
redirect_equal = via redirect_index redirect_of redirect_of-index (option_equal bool_equal)

abbrev pub target_index : TargetMode → Option Bool
target_index any_public = none
target_index allowlist = some false
target_index denylist = some true

abbrev pub target_mode_of : Option Bool → TargetMode
target_mode_of none = any_public
target_mode_of (some false) = allowlist
target_mode_of (some true) = denylist

pub target_mode_of-index : (m : TargetMode) → target_mode_of (target_index m) ≡ m
target_mode_of-index any_public = refl
target_mode_of-index allowlist = refl
target_mode_of-index denylist = refl

abbrev pub ssrf_index : SsrfMode → Option Bool
ssrf_index SsrfMode.strict = none
ssrf_index (SsrfMode.permissive allow_private) = some allow_private

abbrev pub ssrf_mode_of : Option Bool → SsrfMode
ssrf_mode_of none = SsrfMode.strict
ssrf_mode_of (some allow_private) = SsrfMode.permissive allow_private

pub ssrf_mode_of-index : (m : SsrfMode) → ssrf_mode_of (ssrf_index m) ≡ m
ssrf_mode_of-index SsrfMode.strict = refl
ssrf_mode_of-index (SsrfMode.permissive b) = refl

abbrev pub ip_index : IpAddr → Bool × ℕ
ip_index (IpAddr.v4 a) = (false, a)
ip_index (IpAddr.v6 a) = (true, a)

abbrev pub ip_of : Bool × ℕ → IpAddr
ip_of (false, a) = IpAddr.v4 a
ip_of (true, a) = IpAddr.v6 a

pub ip_of-index : (a : IpAddr) → ip_of (ip_index a) ≡ a
ip_of-index (IpAddr.v4 a) = refl
ip_of-index (IpAddr.v6 a) = refl

abbrev pub ip_equal : Equal IpAddr
ip_equal = via ip_index ip_of ip_of-index (pair_equal bool_equal nat_equal)

abbrev pub address_equal : Equal SocketAddr
address_equal =
    via (λ a. (a.ip, a.port)) (λ t. record { ip = t.0; port = t.1 }) (λ a. refl)
      (pair_equal ip_equal nat_equal)

-- `tls_eq`, on two configurations
abbrev pub tls_equal : Equal TlsConfig
tls_equal =
    via (λ t. (t.cert_path, (t.key_path, (t.client_ca_path, t.alpn_protocols))))
      (λ t. record {
        cert_path = t.0;
        key_path = t.1.0;
        client_ca_path = t.1.1.0;
        alpn_protocols = t.1.1.1;
      })
      (λ t. refl)
      (pair_equal string_equal (
        pair_equal string_equal (pair_equal (option_equal string_equal) (list_equal string_equal))))

abbrev pub upstream_equal : Equal UpstreamConfig
upstream_equal =
    via (λ u. (u.pool_max_idle_per_host, (u.pool_idle_timeout, u.user_agent)))
      (λ t. record { pool_max_idle_per_host = t.0; pool_idle_timeout = t.1.0; user_agent = t.1.1 })
      (λ u. refl) (pair_equal nat_equal (pair_equal nat_equal text_equal))

abbrev pub circuit_equal : Equal CircuitBreakerConfig
circuit_equal =
    via
      (λ c. (
        c.enabled,
        (
          c.failure_threshold,
          (c.window, (c.open_duration, (c.half_open_max, (c.count_5xx, c.max_hosts)))),
        ),
      ))
      (λ t. record {
        enabled = t.0;
        failure_threshold = t.1.0;
        window = t.1.1.0;
        open_duration = t.1.1.1.0;
        half_open_max = t.1.1.1.1.0;
        count_5xx = t.1.1.1.1.1.0;
        max_hosts = t.1.1.1.1.1.1;
      })
      (λ c. refl)
      (pair_equal bool_equal (
        pair_equal nat_equal (
          pair_equal nat_equal
            (pair_equal nat_equal (pair_equal nat_equal (pair_equal bool_equal nat_equal))))))

abbrev pub target_equal : Equal TargetConfig
target_equal =
    via (λ c. (c.mode, (c.hosts, (c.schemes, c.https_only))))
      (λ t. record { mode = t.0; hosts = t.1.0; schemes = t.1.1.0; https_only = t.1.1.1 })
      (λ c. refl)
      (pair_equal (via target_index target_mode_of target_mode_of-index (option_equal bool_equal))
        (pair_equal (list_equal text_equal) (pair_equal (list_equal text_equal) bool_equal)))

abbrev origin_equal : Equal OriginLimitConfig
origin_equal =
    via (λ c. (c.rps, (c.burst, c.unlimited_patterns)))
      (λ t. record { rps = t.0; burst = t.1.0; unlimited_patterns = t.1.1 }) (λ c. refl)
      (pair_equal nat_equal (pair_equal nat_equal (list_equal string_equal)))

abbrev host_equal : Equal HostLimitConfig
host_equal =
    via (λ c. (c.rps, c.burst)) (λ t. record { rps = t.0; burst = t.1 }) (λ c. refl)
      (pair_equal nat_equal nat_equal)

abbrev global_equal : Equal GlobalLimitConfig
global_equal =
    via (λ c. (c.rps, c.burst)) (λ t. record { rps = t.0; burst = t.1 }) (λ c. refl)
      (pair_equal nat_equal nat_equal)

module _ (nets : IpNets) (net_equal : Equal nets.IpNet) where
  abbrev pub ssrf_equal : Equal (SsrfConfig nets)
  ssrf_equal =
      via (λ c. (c.mode, (c.allow_ipv6, (c.extra_blocked_cidrs, c.extra_allowed_cidrs))))
        (λ t. record {
          mode = t.0;
          allow_ipv6 = t.1.0;
          extra_blocked_cidrs = t.1.1.0;
          extra_allowed_cidrs = t.1.1.1;
        })
        (λ c. refl)
        (pair_equal (via ssrf_index ssrf_mode_of ssrf_mode_of-index (option_equal bool_equal))
          (pair_equal bool_equal (pair_equal (list_equal net_equal) (list_equal net_equal))))

  abbrev ip_limit_equal : Equal (IpLimitConfig nets)
  ip_limit_equal =
      via (λ c. (c.rps, (c.burst, c.trusted_cidrs)))
        (λ t. record { rps = t.0; burst = t.1.0; trusted_cidrs = t.1.1 }) (λ c. refl)
        (pair_equal nat_equal (pair_equal nat_equal (list_equal net_equal)))

  abbrev pub rate_limit_equal : Equal (RateLimitConfig nets)
  rate_limit_equal =
      via (λ c. (c.enabled, (c.max_keys, (c.origin, (c.ip, (c.target_host, c.global))))))
        (λ t. record {
          enabled = t.0;
          max_keys = t.1.0;
          origin = t.1.1.0;
          ip = t.1.1.1.0;
          target_host = t.1.1.1.1.0;
          global = t.1.1.1.1.1;
        })
        (λ c. refl)
        (pair_equal bool_equal (
          pair_equal nat_equal (
            pair_equal origin_equal
              (pair_equal ip_limit_equal (pair_equal host_equal global_equal)))))
