-- ===== src/Server/State/Reload.antt =====
-- crates/corx-server/src/hot_reload.rs and config_loader.rs: a reload replaces the policies by those of
-- a new configuration, or leaves them alone. The layers of the configuration (files, environment)
-- are read by a library: `load_raw` is a value here. Texts with the address are shortened.
use corx.Config.Equality.{address_equal, tls_equal}
use corx.Config.Listener.{TlsConfig, ServerConfig}
use corx.Config.Tree.{Config}
use corx.Config.Validate.{ConfigError, validate_full}
use corx.Equality.{nat_equal, bool_equal, text_equal}
use corx.Prelude.{
  ℕ, Bool, true, false, not, ◌⊎◌, inl, inr, Option, none, some, List, [], ◌∷◌, Text, codes,
  if◌then◌else◌,
}
use corx.Server.Crates.{Crates}
use corx.Server.State.{ServerBuild, LivePolicies, build_from}

-- the two kinds of errors of a load: of the library, or of the checks
pub data ReloadError : Type 0 where
  unreadable : Text → ReloadError
  rejected : ConfigError → ReloadError
  immutable : Text → ReloadError
  unbuildable : Text → ReloadError

-- `tls_eq`; paths are compared as texts, `PathBuf` by their components
unfoldable pub tls_eq : Option TlsConfig → Option TlsConfig → Bool
tls_eq none none = true
tls_eq (some x) (some y) = tls_equal.eq x y
tls_eq none (some y) = false
tls_eq (some x) none = false

-- `if test { bail!(message) }`, before the rest
unfoldable pub bail_if : Bool → Text → ReloadError ⊎ Unit {0} → ReloadError ⊎ Unit {0}
bail_if test message rest = if test then inl (immutable message) else rest

-- the frozen fields of `ReloadHandle`
pub record Frozen : Type 0 where
  pub immutable_server : ServerConfig
  pub immutable_metrics_endpoint : Text
  pub immutable_max_body_bytes : ℕ
  pub immutable_max_request_header_bytes : ℕ
  pub immutable_request_timeout : ℕ
  pub immutable_inflight_max : ℕ
  pub immutable_max_response_body_bytes : ℕ

module _ (crates : Crates) where
  open crates use {nets}

  -- `ServerBuild::hot_reload`: the frozen fields of the handle
  unfoldable pub hot_reload : ServerBuild crates → Frozen
  hot_reload build = record {
    immutable_server = build.immutable_server;
    immutable_metrics_endpoint = build.immutable_metrics_endpoint;
    immutable_max_body_bytes = build.immutable_limits.max_request_body_bytes;
    immutable_max_request_header_bytes = build.immutable_limits.max_request_header_bytes;
    immutable_request_timeout = build.immutable_limits.request_timeout;
    immutable_inflight_max = build.immutable_limits.inflight_max;
    immutable_max_response_body_bytes = build.immutable_limits.max_response_body_bytes;
  }

  -- `ReloadHandle::assert_immutable`
  unfoldable pub assert_immutable : Frozen → Config nets → ReloadError ⊎ Unit {0}
  assert_immutable handle config =
      let frozen = handle.immutable_server in
      bail_if (not (address_equal.eq config.server.bind frozen.bind)) (codes "server.bind") (
        bail_if (not (bool_equal.eq config.server.http2 frozen.http2)) (codes "server.http2") (
          bail_if (not (tls_eq config.server.tls frozen.tls)) (codes "server.tls") (
            bail_if
              (not
                (nat_equal.eq config.limits.max_request_body_bytes handle.immutable_max_body_bytes))
              (codes "limits.max_request_body_bytes")
              (bail_if
                (not (
                  nat_equal.eq config.limits.max_request_header_bytes
                    handle.immutable_max_request_header_bytes))
                (codes "limits.max_request_header_bytes")
                (bail_if
                  (not
                    (nat_equal.eq config.limits.request_timeout handle.immutable_request_timeout))
                  (codes "limits.request_timeout")
                  (bail_if
                    (not (nat_equal.eq config.limits.inflight_max handle.immutable_inflight_max))
                    (codes "limits.inflight_max")
                    (bail_if
                      (not (
                        nat_equal.eq config.limits.max_response_body_bytes
                          handle.immutable_max_response_body_bytes))
                      (codes "limits.max_response_body_bytes")
                      (bail_if
                        (not (
                          text_equal.eq config.observability.metrics_endpoint
                            handle.immutable_metrics_endpoint))
                        (codes "observability.metrics_endpoint") (inr tt)))))))))

  -- the first error of a report, or the configuration
  unfoldable pub accepted : List ConfigError → Config nets → ReloadError ⊎ Config nets
  accepted [] config = inr config
  accepted (first ∷ others) config = inl (rejected first)

  -- `config_loader::load`, from the answer of `load_raw` on; warnings are only logged
  unfoldable pub load : Text ⊎ Config nets → ReloadError ⊎ Config nets
  load (inl message) = inl (unreadable message)
  load (inr config) = accepted (validate_full nets crates.is_file config).errors config

  -- `self.policies.store(..)`, where the policies could be built
  unfoldable pub installed :
      Text ⊎ LivePolicies crates
      → LivePolicies crates
      → (ReloadError ⊎ Unit {0}) × LivePolicies crates
  installed (inl message) policies = (inl (unbuildable message), policies)
  installed (inr policies') policies = (inr tt, policies')

  -- `reload`, from the answer of `assert_immutable` on
  unfoldable pub reload_checked :
      ReloadError ⊎ Unit {0}
      → Config nets
      → LivePolicies crates
      → (ReloadError ⊎ Unit {0}) × LivePolicies crates
  reload_checked (inl e) config policies = (inl e, policies)
  reload_checked (inr _) config policies =
      installed (build_from crates config (some policies)) policies

  -- `reload`, from the answer of `load` on
  unfoldable pub reload_loaded :
      ReloadError ⊎ Config nets
      → Frozen
      → LivePolicies crates
      → (ReloadError ⊎ Unit {0}) × LivePolicies crates
  reload_loaded (inl e) handle policies = (inl e, policies)
  reload_loaded (inr config) handle policies =
      reload_checked (assert_immutable handle config) config policies

  -- `ReloadHandle::reload`: the answer, and the policies that serve from then on
  unfoldable pub reload :
      Frozen
      → Text ⊎ Config nets
      → LivePolicies crates
      → (ReloadError ⊎ Unit {0}) × LivePolicies crates
  reload handle raw policies = reload_loaded (load raw) handle policies
