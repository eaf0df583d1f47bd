-- ===== src/Redirect.antt =====
-- crates/corx-core/src/proxy/redirect.rs: the request of the next hop, from an upstream's redirect.
-- Methods are texts, statuses numbers. A request that is built from a parsed method and URI cannot
-- fail to build, so the last `map_err` of `prepare_next` has no counterpart.
pub mod Transition
pub mod Credentials
mod Tests
use corx.Error.{ProxyError, Result, ok, err, ◌>>=◌, ◌>>◌}
use corx.Http.{Http}
use corx.Prelude.{
  ℕ, Bool, true, false, ◌&&◌, ◌||◌, not, ◌⊎◌, inl, inr, Option, none, some, List, [], ◌∷◌, ◌++◌,
  String, Text, codes, str_eq, ◌==◌, if◌then◌else◌, text_eq, starts_with, eq_ignore_ascii_case,
}
use corx.Uris.{Uris}

-- `SENSITIVE_HEADERS`
abbrev pub sensitive_headers : List String
sensitive_headers =
    "authorization" ∷ "cookie" ∷ "proxy-authorization" ∷ "authentication-info" ∷ "www-authenticate"
    ∷ []

-- `is_redirect`
unfoldable pub is_redirect : ℕ → Bool
is_redirect status =
    status == 301 || status == 302 || status == 303 || status == 307 || status == 308

-- `body_bearing`
unfoldable pub body_bearing : String → Bool
body_bearing method = str_eq method "POST" || str_eq method "PUT" || str_eq method "PATCH"

-- `classify_transition`
unfoldable pub classify_transition : String → ℕ → String × Bool
classify_transition method status =
    if status == 301 || status == 302 || status == 303
    then if body_bearing method then ("GET", true) else (method, false)
    else (method, false)

-- `str::contains` with a text
unfoldable pub has_infix : Text → Text → Bool
has_infix [] p = starts_with [] p
has_infix (c ∷ s) p = let later = has_infix s p in starts_with (c ∷ s) p || later

-- The body of a request: the one that the client sent, or `empty_upstream_body`.
pub data Body : Type 0 where
  original empty : Body

-- the arm `Some("http" | "https")`
abbrev pub is_http : Text → Bool
is_http scheme = text_eq scheme (codes "http") || text_eq scheme (codes "https")

-- `matches!(scheme, Some(text))`
abbrev pub is_scheme : Option Text → Text → Bool
is_scheme none text = false
is_scheme (some scheme) text = text_eq scheme text

-- the `match` of `authority_differs`
unfoldable pub authorities_differ : Option Text → Option Text → Bool
authorities_differ (some x) (some y) = not (eq_ignore_ascii_case x y)
authorities_differ (some x) none = true
authorities_differ none y = true

-- `map_err(..)?`
abbrev or_invalid {ℓ} : {A : Type ℓ} → Text → Text ⊎ A → Result A
or_invalid prefix (inl message) = err (ProxyError.invalid_url (prefix ++ message))
or_invalid prefix (inr a) = ok a

-- the reason of the arm of `Stop` for a body that cannot be sent again
abbrev pub replay_reason : Text
replay_reason = codes "307/308 with body-bearing method cannot be safely replayed"

-- "https → http redirect downgrade rejected", with the bytes of the arrow
abbrev pub downgrade_reason : Text
downgrade_reason = codes "https " ++ (226 ∷ 134 ∷ 146 ∷ codes " http redirect downgrade rejected")

module _ (http : Http) (uris : Uris) where
  open http use {HeaderMap, get, to_str, remove}
  open uris use {Uri, scheme_str, authority, parse, to_string, url_parse, join, as_str}

  -- `RedirectState`
  pub record RedirectState : Type 0 where
    pub method : String
    pub headers : HeaderMap
    pub uri : Uri

  -- `Request<UpstreamBody>`
  pub record Request : Type 0 where
    pub method : String
    pub uri : Uri
    pub headers : HeaderMap
    pub body : Body

  -- `NextHop`
  pub data NextHop : Type 0 where
    continue : Request → NextHop
    stop : Text → NextHop

  -- `RedirectState::from_initial`
  unfoldable pub from_initial : String → Uri → HeaderMap → RedirectState
  from_initial method uri headers = record { method = method; headers = headers; uri = uri }

  unfoldable pub require_safe_scheme : Uri → Result (Unit {0})
  require_safe_scheme uri = elim (scheme_str uri) [
    | none ↦ err (ProxyError.invalid_url (codes "redirect Location lacks a scheme"))
    | some scheme ↦
        if is_http scheme
        then ok tt
        else err (
            ProxyError.invalid_url
              (codes "redirect to unsupported scheme `" ++ (scheme ++ codes "`")))
  ]

  unfoldable pub is_https_to_http_downgrade : Uri → Uri → Bool
  is_https_to_http_downgrade from to =
      is_scheme (scheme_str from) (codes "https") && is_scheme (scheme_str to) (codes "http")

  unfoldable pub resolve_location : Uri → Text → Result Uri
  resolve_location base location =
      if has_infix location (codes "://")
      then or_invalid (codes "invalid redirect target: ") (parse location)
      else (do
        base_url ← or_invalid (codes "uri-to-url failed: ") (url_parse (to_string base))
        resolved ← or_invalid (codes "cannot resolve redirect: ") (join base_url location)
        or_invalid (codes "invalid resolved redirect: ") (parse (as_str resolved)))

  unfoldable pub authority_differs : Uri → Uri → Bool
  authority_differs a b = authorities_differ (authority a) (authority b)

  -- the loop over `SENSITIVE_HEADERS`
  unfoldable pub remove_each : HeaderMap → List String → HeaderMap
  remove_each headers [] = headers
  remove_each headers (name ∷ names) = remove_each (remove headers name) names

  -- the headers of the next hop
  unfoldable pub next_headers : Bool → HeaderMap → HeaderMap
  next_headers cross_host headers =
      if cross_host then remove (remove_each headers sensitive_headers) "host" else headers

  -- `prepare_next` once the next URI has passed the tests
  unfoldable pub advance : RedirectState → Uri → ℕ → RedirectState × NextHop
  advance state next_uri status =
      let cross_host = authority_differs state.uri next_uri in
      let (next_method, drop_body) = classify_transition state.method status in
      let headers' = next_headers cross_host state.headers in
      if not drop_body && body_bearing next_method then (state, stop replay_reason) else (
        record { method = next_method; headers = headers'; uri = next_uri },
        continue
            (record { method = next_method; uri = next_uri; headers = headers'; body = empty }),
      )

  -- the tests of `prepare_next` on the location
  unfoldable pub next_uri_of : Uri → Text → Bool → Result Uri
  next_uri_of base location allow_downgrade = do
    next_uri ← resolve_location base location
    require_safe_scheme next_uri
    if not allow_downgrade && is_https_to_http_downgrade base next_uri
        then err (ProxyError.invalid_url downgrade_reason)
        else ok next_uri

  -- the text of the location, or the reason to stop
  unfoldable pub location_of : HeaderMap → Text ⊎ Text
  location_of headers = elim (get headers "location") [
    | none ↦ inl (codes "no Location header")
    | some location ↦ elim (to_str location) [
      | none ↦ inl (codes "non-utf8 Location header")
      | some location_str ↦ inr location_str
    ]
  ]

  -- the end of `prepare_next`, on the outcome of the tests
  unfoldable pub follow : RedirectState → ℕ → Result Uri → RedirectState × Result NextHop
  follow state status (err e) = (state, err e)
  follow state status (ok next_uri) =
      let (state', hop) = advance state next_uri status in (state', ok hop)

  -- `prepare_next`: the status and the headers are those of the response; the state changes only
  -- where the answer is `Continue`
  unfoldable pub prepare_next :
      RedirectState → ℕ → HeaderMap → Bool → RedirectState × Result NextHop
  prepare_next state status headers allow_downgrade = elim (location_of headers) [
    | inl reason ↦ (state, ok (stop reason))
    | inr location ↦ follow state status (next_uri_of state.uri location allow_downgrade)
  ]
