-- ===== src/Server/OriginGuard/Verdict.antt =====
-- Which requests the origin guard lets through.
use corx.Error.{ProxyError, ErrorKind, kind, ok, err}
use corx.Http.{Http}
use corx.Prelude.{
  ◌≡◌, ◌↔◌, Bool, true, ◌&&◌, ◌||◌, not, Option, none, some, String, Text, str_eq, any, contains,
  is_empty, arith,
}
use corx.Server.OriginGuard.{OriginPolicy, check_lists, origin_of, check_required, evaluate}

-- The origin is not on the blacklist, and is on the whitelist if there is one; without an origin
-- there must be no whitelist.
unfoldable pub listed : OriginPolicy → Option Text → Bool
listed policy none = is_empty policy.whitelist
listed policy (some origin) =
    not (contains policy.blacklist origin)
    && (is_empty policy.whitelist || contains policy.whitelist origin)

check_lists-listed_iff :
    (policy : OriginPolicy) (origin : Option Text)
    → (check_lists policy origin ≡ ok tt) ↔ (listed policy origin ≡ true)
unfolding check_lists listed
check_lists-listed_iff policy none = (λ e. ground arith, λ e. ground arith)
check_lists-listed_iff policy (some origin) = (λ e. ground arith, λ e. ground arith)

check_lists-kind :
    (policy : OriginPolicy) (origin : Option Text) {e : ProxyError}
    → check_lists policy origin ≡ err e
    → kind e ≡ ErrorKind.origin_not_allowed
unfolding check_lists kind
check_lists-kind policy none h = ground arith
check_lists-kind policy (some origin) h = ground arith

module _ (http : Http) where
  open http use {HeaderMap, contains_key}

  unfoldable pub permitted : OriginPolicy → String → HeaderMap → Bool
  permitted policy method headers =
      not (any (λ m. str_eq m method) policy.blocked_methods)
      && (listed policy (origin_of http headers)
          && (is_empty policy.required_header_any_of
              || any (λ name. contains_key headers name) policy.required_header_any_of))

  -- A request passes exactly when its method is not blocked, its origin passes both lists, and one
  -- of the required headers is present, if any are required.
  pub evaluate-permitted_iff :
      (method_text : String → Text) (policy : OriginPolicy) (method : String) (headers : HeaderMap)
      → (evaluate http method_text policy method headers ≡ ok tt)
        ↔ (permitted policy method headers ≡ true)
  unfolding evaluate permitted check_required
  evaluate-permitted_iff method_text policy method headers =
      let (to, from) = check_lists-listed_iff policy (origin_of http headers) in
      (λ e. grind arith, λ e. grind arith)
