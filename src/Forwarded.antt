-- ===== src/Forwarded.antt =====
-- crates/corx-core/src/proxy/forwarded.rs and config/forwarded.rs: the headers that tell an upstream
-- who called. The text of an address and the fresh request id are parameters; a target is seen by
-- its host.
pub mod Client
mod Tests
use corx.Error.{IpAddr}
use corx.Http.{Http}
use corx.Prelude.{
  ℕ, Bool, true, false, not, Option, none, some, List, [], ◌∷◌, ◌++◌, String, Text, codes, join,
  to_string, if◌then◌else◌,
}

-- `InboundContext`
pub record InboundContext : Type 0 where
  pub client_ip : Option IpAddr
  pub scheme : Text
  pub host : Option Text
  pub local_port : ℕ

-- `ForwardedConfig`
pub record ForwardedConfig : Type 0 where
  pub inject : Bool
  pub trust_inbound_xff : Bool
  pub inject_request_id : Bool

module _ (ip_text : IpAddr → Text) where
  -- the `match ip` of `build_forwarded_value`
  abbrev for_token : IpAddr → Text
  for_token (IpAddr.v4 a) = codes "for=" ++ ip_text (IpAddr.v4 a)
  for_token (IpAddr.v6 a) = codes "for=\"[" ++ (ip_text (IpAddr.v6 a) ++ codes "]\"")

  abbrev optional_part {ℓ} : {A : Type ℓ} → (A → Text) → Option A → List Text
  optional_part f none = []
  optional_part f (some a) = f a ∷ []

  -- the parts of `build_forwarded_value`
  unfoldable pub forwarded_parts : InboundContext → Text → List Text
  forwarded_parts inbound target_host =
      optional_part for_token inbound.client_ip
      ++ ((codes "proto=" ++ inbound.scheme)
          ∷ (optional_part (λ host. codes "host=" ++ host) inbound.host
              ++ ((codes "by=" ++ target_host) ∷ [])))

module _ (http : Http) (ip_text : IpAddr → Text) where
  open http use {HeaderMap, get, to_str, from_str, insert, contains_key}

  -- `set_static`: the value is inserted if it is one
  unfoldable pub set_static : HeaderMap → String → Text → HeaderMap
  set_static headers name value = elim (from_str value) [
    | none ↦ headers
    | some v ↦ insert headers name v
  ]

  unfoldable pub ensure_request_id : Text → HeaderMap → HeaderMap
  ensure_request_id id headers =
      if contains_key headers "x-request-id" then headers else set_static headers "x-request-id" id

  -- the text that `append_xff` inserts
  unfoldable pub appended : HeaderMap → IpAddr → Text
  appended headers client = elim (get headers "x-forwarded-for") [
    | none ↦ ip_text client
    | some existing ↦ elim (to_str existing) [
      | none ↦ ip_text client
      | some prev ↦ prev ++ (codes ", " ++ ip_text client)
    ]
  ]

  unfoldable pub append_xff : HeaderMap → IpAddr → HeaderMap
  append_xff headers client = set_static headers "x-forwarded-for" (appended headers client)

  unfoldable pub replace_xff : HeaderMap → IpAddr → HeaderMap
  replace_xff headers client = set_static headers "x-forwarded-for" (ip_text client)

  -- the test of the client's address in `inject`
  unfoldable pub stamp_client : ForwardedConfig → Option IpAddr → HeaderMap → HeaderMap
  stamp_client cfg none headers = headers
  stamp_client cfg (some client) headers =
      if cfg.trust_inbound_xff then append_xff headers client else replace_xff headers client

  abbrev pub set_optional : HeaderMap → String → Option Text → HeaderMap
  set_optional headers name none = headers
  set_optional headers name (some value) = set_static headers name value

  -- `inject` after the test of `cfg.inject`
  unfoldable pub stamp : InboundContext → Text → ForwardedConfig → HeaderMap → HeaderMap
  stamp inbound target_host cfg headers =
      let headers1 = stamp_client cfg inbound.client_ip headers in
      let headers2 = set_static headers1 "x-forwarded-proto" inbound.scheme in
      let headers3 = set_optional headers2 "x-forwarded-host" inbound.host in
      let headers4 = set_static headers3 "x-forwarded-port" (to_string inbound.local_port) in
      set_static headers4 "forwarded"
        (join (codes ";") (forwarded_parts ip_text inbound target_host))

  -- `inject`; `id` is the request id that it would generate
  unfoldable pub inject : Text → HeaderMap → InboundContext → Text → ForwardedConfig → HeaderMap
  inject id headers inbound target_host cfg =
      let headers1 = if cfg.inject_request_id then ensure_request_id id headers else headers in
      if not cfg.inject then headers1 else stamp inbound target_host cfg headers1
