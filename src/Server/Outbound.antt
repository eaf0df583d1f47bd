-- ===== src/Server/Outbound.antt =====
-- crates/corx-server/src/handlers/outbound.rs, and of handlers/proxy.rs the headers of requests to an
-- upstream and of its responses. `target.url.port()` and the host of the target are arguments; the
-- counting of bodies only feeds metrics.
pub mod Sent
pub mod Location
mod Tests
use corx.Config.Limits.{RedirectPolicy, follow, block, rewrite}
use corx.Error.{IpAddr}
use corx.Forwarded.{InboundContext, ForwardedConfig, inject}
use corx.Headers.{HeaderFilter, apply}
use corx.Http.{Http}
use corx.Prelude.{
  ℕ, Bool, true, false, ◌||◌, not, Option, none, some, ◌++◌, String, Text, codes, starts_with,
  if◌then◌else◌,
}
use corx.Urls.{authority_of}

-- `VIA_HEADER_VALUE`
abbrev pub via_header_value : Text
via_header_value = codes "1.1 corx"

-- `EXPOSE_URL_HEADER`
abbrev pub expose_url_header : String
expose_url_header = "x-corx-target-url"

-- `redirect_policy == RedirectPolicy::Rewrite`
abbrev pub is_rewrite : RedirectPolicy → Bool
is_rewrite follow = false
is_rewrite block = false
is_rewrite rewrite = true

-- the test of `rewrite_location_header`
abbrev pub is_absolute : Text → Bool
is_absolute raw = starts_with raw (codes "http://") || starts_with raw (codes "https://")

module _ (http : Http) where
  open http use {HeaderMap, get, insert, contains_key, to_str, from_str}

  -- `if let Ok(value) = HeaderValue::from_str(text) { headers.insert(name, value) }`
  unfoldable pub insert_text : HeaderMap → String → Text → HeaderMap
  insert_text headers name text = elim (from_str text) [
    | none ↦ headers
    | some value ↦ insert headers name value
  ]

  unfoldable pub inject_default_user_agent : HeaderMap → Text → HeaderMap
  inject_default_user_agent headers default_ua =
      if contains_key headers "user-agent"
      then headers
      else insert_text headers "user-agent" default_ua

  unfoldable pub set_host_from_target : HeaderMap → Text → Option ℕ → HeaderMap
  set_host_from_target headers host port = insert_text headers "host" (authority_of host port)

  -- the text that `append_via_header` inserts
  unfoldable pub via_text : HeaderMap → Text
  via_text headers = elim (get headers "via") [
    | none ↦ via_header_value
    | some existing ↦ elim (to_str existing) [
      | none ↦ via_header_value
      | some s ↦ s ++ (codes ", " ++ via_header_value)
    ]
  ]

  unfoldable pub append_via_header : HeaderMap → HeaderMap
  append_via_header headers = insert_text headers "via" (via_text headers)

  -- `rewrite_location_header`, once the text of the header is read
  unfoldable pub rewrite_location : HeaderMap → Text → HeaderMap
  rewrite_location headers raw =
      if not (is_absolute raw) then headers else insert_text headers "location" (codes "/" ++ raw)

  unfoldable pub rewrite_location_header : HeaderMap → HeaderMap
  rewrite_location_header headers = elim (get headers "location") [
    | none ↦ headers
    | some location ↦ elim (to_str location) [
      | none ↦ headers
      | some raw ↦ rewrite_location headers raw
    ]
  ]

  -- the headers of `shape_response`
  unfoldable pub shape_headers : HeaderFilter → RedirectPolicy → Text → HeaderMap → HeaderMap
  shape_headers response_filter redirect_policy target_url headers =
      let headers1 = apply http response_filter headers in
      let headers2 = insert_text headers1 expose_url_header target_url in
      let headers3 = append_via_header headers2 in
      if is_rewrite redirect_policy then rewrite_location_header headers3 else headers3

module _ (http : Http) (ip_text : IpAddr → Text) where
  open http use {HeaderMap}

  -- the headers that `execute_proxy` sends; `id` is the request id that it would generate
  unfoldable pub outbound_headers :
      HeaderFilter
      → InboundContext
      → ForwardedConfig
      → Text
      → Text
      → Text
      → Option ℕ
      → HeaderMap
      → HeaderMap
  outbound_headers request_filter inbound forwarded_cfg id user_agent host port headers =
      let headers1 = apply http request_filter headers in
      let headers2 = inject http ip_text id headers1 inbound host forwarded_cfg in
      let headers3 = inject_default_user_agent http headers2 user_agent in
      set_host_from_target http headers3 host port
