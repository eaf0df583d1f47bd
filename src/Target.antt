-- ===== src/Target.antt =====
-- crates/corx-core/src/policy/target.rs and config/target.rs: which hosts and schemes may be
-- proxied, on the first request and on every redirect. A `Uri` is seen by its scheme and host.
pub mod Admission
mod Tests
use corx.Error.{ProxyError, Result, ok, err}
use corx.Prelude.{
  Bool, true, false, ◌&&◌, ◌||◌, not, Option, none, some, List, [], ◌∷◌, ◌++◌, map, filter, any,
  is_empty, Text, codes, text_eq, ◌==◌, trim, to_ascii_lowercase, ends_with, if◌then◌else◌,
}

-- `TargetMode`
pub data TargetMode : Type 0 where
  any_public allowlist denylist : TargetMode

-- `TargetConfig`
pub record TargetConfig : Type 0 where
  pub mode : TargetMode
  pub hosts : List Text
  pub schemes : List Text
  pub https_only : Bool

-- `default_schemes`
abbrev pub default_schemes : List Text
default_schemes = codes "https" ∷ codes "http" ∷ []

-- `Default for TargetConfig`
abbrev pub default_config : TargetConfig
default_config = record {
  mode = any_public;
  hosts = [];
  schemes = default_schemes;
  https_only = false;
}

-- `TargetPolicy`
pub record TargetPolicy : Type 0 where
  pub mode : TargetMode
  pub hosts : List Text
  pub schemes : List Text
  pub https_only : Bool

abbrev pub normal : Text → Text
normal s = to_ascii_lowercase (trim s)

unfoldable pub from_config : TargetConfig → TargetPolicy
from_config cfg = record {
  mode = cfg.mode;
  hosts = filter (λ h. not (is_empty h)) (map normal cfg.hosts);
  schemes = if is_empty cfg.schemes then default_schemes else map normal cfg.schemes;
  https_only = cfg.https_only;
}

-- `pattern.strip_prefix('.')`
abbrev strip_dot : Text → Option Text
strip_dot [] = none
strip_dot (c ∷ suffix) = if c == b'.' then some suffix else none

unfoldable pub host_matches : Text → Text → Bool
host_matches pattern host = elim (strip_dot pattern) [
  | none ↦ text_eq host pattern
  | some suffix ↦ text_eq host suffix || ends_with host pattern
]

-- the `match self.mode` of `check_authority`
unfoldable pub check_mode : TargetMode → List Text → Bool → Text → Result (Unit {0})
check_mode any_public hosts matched host = ok tt
check_mode allowlist hosts matched host =
    if is_empty hosts
    then err (ProxyError.target_not_allowed (codes "allowlist is empty"))
    else if matched
    then ok tt
    else err (
        ProxyError.target_not_allowed
          (codes "host `" ++ (host ++ codes "` is not on the allowlist")))
check_mode denylist hosts matched host =
    if matched
    then err (ProxyError.target_not_allowed (codes "host `" ++ (host ++ codes "` is denylisted")))
    else ok tt

-- `TargetPolicy::check_authority`; `check` calls it with the scheme and the host of a target URL
unfoldable pub check_authority : TargetPolicy → Text → Text → Result (Unit {0})
unfolding check_mode
check_authority policy scheme host =
    let scheme' = to_ascii_lowercase scheme in
    let host' = to_ascii_lowercase host in
    if policy.https_only && not (text_eq scheme' (codes "https"))
    then err (
        ProxyError.target_not_allowed
          (codes "scheme `" ++ (scheme' ++ codes "` rejected (https_only)")))
    else if not (any (λ s. text_eq s scheme') policy.schemes)
    then err
        (ProxyError.target_not_allowed (codes "scheme `" ++ (scheme' ++ codes "` is not allowed")))
    else check_mode policy.mode policy.hosts
        (any (λ pattern. host_matches pattern host') policy.hosts) host'

-- `TargetPolicy::check_uri`, from the scheme and the host that the URI has
unfoldable pub check_uri : TargetPolicy → Option Text → Option Text → Result (Unit {0})
check_uri policy none host = err (ProxyError.invalid_url (codes "hop URI lacks a scheme"))
check_uri policy (some scheme) none = err (ProxyError.invalid_url (codes "hop URI lacks a host"))
check_uri policy (some scheme) (some host) = check_authority policy scheme host
