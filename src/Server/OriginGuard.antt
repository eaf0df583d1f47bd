-- ===== src/Server/OriginGuard.antt =====
-- crates/corx-server/src/middleware/origin_guard.rs and request_guard.rs: the origin lists, the
-- blocked methods and the required headers. The fields of `SecurityConfig` that the policy reads are
-- a record of their own, which Server.State fills. `Method::from_bytes` and the name of a required
-- header are parameters.
pub mod Verdict
use corx.Error.{ProxyError, Result, ok, err}
use corx.Http.{Http}
use corx.Prelude.{
  Bool, true, false, ◌&&◌, ◌||◌, not, Option, none, some, List, [], ◌∷◌, ◌++◌, String, Text, codes,
  str_eq, any, contains, is_empty, if◌then◌else◌,
}

-- `OriginPolicy`; the header names are lower-case already
pub record OriginPolicy : Type 0 where
  pub blacklist : List Text
  pub whitelist : List Text
  pub blocked_methods : List String
  pub required_header_any_of : List String

-- the `match origin` of `evaluate`
unfoldable pub check_lists : OriginPolicy → Option Text → Result (Unit {0})
check_lists policy (some origin) =
    if contains policy.blacklist origin
    then err (ProxyError.origin_not_allowed origin)
    else if not (is_empty policy.whitelist) && not (contains policy.whitelist origin)
    then err (ProxyError.origin_not_allowed origin)
    else ok tt
check_lists policy none =
    if not (is_empty policy.whitelist)
    then err (ProxyError.origin_not_allowed (codes "<missing origin>"))
    else ok tt

module _ (http : Http) where
  open http use {HeaderMap, get, to_str, contains_key}

  -- `headers.get(ORIGIN).and_then(|value| value.to_str().ok())`
  unfoldable pub origin_of : HeaderMap → Option Text
  origin_of headers = elim (get headers "origin") [ none ↦ none | some v ↦ to_str v ]

  -- the last test of `evaluate`
  unfoldable pub check_required : OriginPolicy → HeaderMap → Result (Unit {0})
  check_required policy headers =
      if not (is_empty policy.required_header_any_of)
        && not (any (λ name. contains_key headers name) policy.required_header_any_of)
      then err (ProxyError.missing_header (codes "required inbound header"))
      else ok tt

  -- `OriginPolicy::evaluate`, and `RequestGuard::check_origin`, which calls it; `method_text` is
  -- `Method::as_str`
  unfoldable pub evaluate : (String → Text) → OriginPolicy → String → HeaderMap → Result (Unit {0})
  evaluate method_text policy method headers =
      if any (λ m. str_eq m method) policy.blocked_methods
      then err (
          ProxyError.origin_not_allowed
            (codes "method `" ++ (method_text method ++ codes "` is blocked")))
      else elim (check_lists policy (origin_of headers)) [
        | err e ↦ err e
        | ok _ ↦ check_required policy headers
      ]
