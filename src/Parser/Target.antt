-- ===== src/Parser/Target.antt =====
-- crates/corx-core/src/proxy/url_parser.rs: the target of a request, its checks, and its URI.
use corx.Error.{ProxyError, Result, ok, err, ◌>>=◌, ◌>>◌}
use corx.Parser.{candidate_from_uri, normalize_scheme}
use corx.Prelude.{
  ℕ, ◌||◌, not, Option, none, some, ◌++◌, Text, codes, text_eq, ltb, length, is_empty,
  if◌then◌else◌, ◌⊎◌, inl, inr,
}
use corx.Uris.{Uris}
use corx.Urls.{Urls, authority_of}
use corx.Cors.{is_some}

-- `MAX_HOST_LEN`
abbrev pub max_host_len : ℕ
max_host_len = 253

-- an error of the kind `InvalidUrl`, with a text
abbrev invalid {ℓ} : {A : Type ℓ} → Text → Result A
invalid message = err (ProxyError.invalid_url message)

-- `Result::map_err` into `InvalidUrl`, then `?`
unfoldable pub checked {ℓ} : {A : Type ℓ} → Text → Text ⊎ A → Result A
checked prefix (inl message) = err (ProxyError.invalid_url (prefix ++ message))
checked prefix (inr value) = ok value

-- `Option::ok_or_else` with `InvalidUrl`
unfoldable pub required {ℓ} : {A : Type ℓ} → Text → Option A → Result A
required message none = err (ProxyError.invalid_url message)
required message (some value) = ok value

module _ (uris : Uris) (urls : Urls uris) where
  open uris use {Uri, Url, url_parse}
  open urls use {
    scheme, username, password, fragment, host_str, port, port_or_known_default, path, query,
    set_host, domain_to_ascii, percent_decode, path_and_query, build,
  }

  -- `TargetUrl`
  pub record TargetUrl : Type 0 where
    pub url : Url
    pub host : Text
    pub port : ℕ

  -- the path of `to_uri`, with a query that is not empty
  unfoldable pub path_of : Url → Text
  path_of url = elim (query url) [
    | none ↦ path url
    | some q ↦ if not (is_empty q) then path url ++ (codes "?" ++ q) else path url
  ]

  -- `TargetUrl::to_uri`
  unfoldable pub to_uri : TargetUrl → Result Uri
  to_uri target = do
    pq ← checked (codes "invalid path/query: ") (path_and_query (path_of target.url))
    checked (codes "uri build failed: ")
        (build (scheme target.url) (authority_of target.host (port target.url)) pq)

  -- the tests of `validate` on the scheme, the credentials and the fragment
  unfoldable pub check_parts : Url → Result (Unit {0})
  check_parts parsed =
      if not (text_eq (scheme parsed) (codes "http") || text_eq (scheme parsed) (codes "https"))
      then invalid (codes "unsupported scheme `" ++ (scheme parsed ++ codes "`"))
      else if not (is_empty (username parsed)) || is_some (password parsed)
      then invalid (codes "embedded credentials (`user:pass@`) are not permitted")
      else if is_some (fragment parsed)
      then invalid (codes "fragment identifiers are not permitted in proxy targets")
      else ok tt

  -- the bound on the length of the host
  unfoldable pub within_bound : Text → Result Text
  within_bound ascii_host =
      if ltb max_host_len (length ascii_host)
      then invalid (codes "hostname exceeds 253 bytes after punycode encoding")
      else ok ascii_host

  -- the host in ASCII, within the bound
  unfoldable pub ascii_host_of : Text → Result Text
  ascii_host_of host =
      if is_empty host
      then invalid (codes "empty hostname")
      else checked (codes "invalid IDN host: ") (domain_to_ascii host) >>= within_bound

  -- the URL with the host in ASCII
  unfoldable pub with_host : Url → Text → Text → Result Url
  with_host parsed host ascii_host =
      if not (text_eq ascii_host host)
      then checked (codes "cannot set host: ") (set_host parsed ascii_host)
      else ok parsed

  -- `validate`
  unfoldable pub validate : Url → Result TargetUrl
  validate parsed = do
    check_parts parsed
    host ← required (codes "missing hostname") (host_str parsed)
    ascii_host ← ascii_host_of host
    url ← with_host parsed host ascii_host
    number ← required (codes "unable to determine port for scheme") (port_or_known_default url)
    ok (record { url = url; host = ascii_host; port = number })

  -- `extract_target`
  unfoldable pub extract_target : Uri → Result TargetUrl
  extract_target uri = do
    candidate ← candidate_from_uri (urls.uri_path uri) (urls.uri_query uri)
    decoded ← required (codes "target contains invalid utf-8") (percent_decode candidate)
    normalized ← normalize_scheme decoded
    parsed ← checked (codes "url parse failed: ") (url_parse normalized)
    validate parsed
