-- ===== src/Parser/Safety.antt =====
-- What the handler may rely on in a target, and in the URI that it is sent to.
use mathlib.Core.Path.{subst}
use corx.Error.{Result, ok, ok-injective, Result-cases, ◌>>=◌}
use corx.Parser.{candidate_from_uri, normalize_scheme}
use corx.Parser.Target.{
  TargetUrl, checked, required, max_host_len, path_of, to_uri, check_parts, ascii_host_of,
  with_host, validate, extract_target,
}
use corx.Parser.Steps.{then-ok, checked-ok, required-ok, within_bound-ok}
use corx.Prelude.{
  ℕ, ◌≤◌, ◌≡◌, refl, sym, true, ◌||◌, inl, inr, none, some, Text, text_eq, text_eq_iff, codes,
  length, is_empty, arith, Bool-cases, [],
}
use corx.Target.{TargetPolicy, check_authority, check_uri}
use corx.Uris.{Uris}
use corx.Urls.{Urls, is_plain}

module _ (uris : Uris) (urls : Urls uris) where
  open uris use {Uri, Url, url_parse, scheme_str}
  open urls use {
    scheme, username, password, fragment, host_str, port, port_or_known_default, set_host,
    domain_to_ascii,
  }

  -- The parts of a target that the handler relies on.
  pub record IsSafe (target : TargetUrl uris urls) : Type 0 where
    pub web :
        (text_eq (scheme target.url) (codes "http") || text_eq (scheme target.url) (codes "https"))
        ≡ true
    pub no_username : username target.url ≡ []
    pub no_password : password target.url ≡ none
    pub no_fragment : fragment target.url ≡ none
    pub host : host_str target.url ≡ some target.host
    pub plain : is_plain target.host ≡ true
    pub bound : length target.host ≤ max_host_len
    pub port : port_or_known_default target.url ≡ some target.port

  abbrev PartsAreSafe : Url → Type 0
  PartsAreSafe url =
      ((text_eq (scheme url) (codes "http") || text_eq (scheme url) (codes "https")) ≡ true)
      × (username url ≡ [])
      × (password url ≡ none)
      × (fragment url ≡ none)

  check_parts-PartsAreSafe : (url : Url) → check_parts uris urls url ≡ ok tt → PartsAreSafe url
  unfolding check_parts
  check_parts-PartsAreSafe url h = (ground arith, ground arith, ground arith, ground arith)

  ascii_host_of-plain :
      (host ascii : Text)
      → ascii_host_of uris urls host ≡ ok ascii
      → (domain_to_ascii host ≡ inr ascii)
        × ((is_plain ascii ≡ true) × (length ascii ≤ max_host_len))
  unfolding ascii_host_of
  ascii_host_of-plain host ascii h = elim (Bool-cases (is_empty host)) [
    | inl e ↦ ground arith
    | inr e ↦
        let chain = rw e at h in
        elim (Result-cases (checked (codes "invalid IDN host: ") (domain_to_ascii host))) [
          | inr (e, r) ↦ ground arith
          | inl (plain, r) ↦
              let (same, bound) = within_bound-ok uris urls plain ascii (rw r at chain) in
              let converted = checked-ok _ _ plain r in
              let free = urls.domain_to_ascii-plain host plain converted in
              rw (sym same) (converted, (free, bound))
        ]
  ]

  -- The host of the URL is in ASCII already, and stays as it is.
  with_host-PartsAreSafe :
      (parsed url : Url) (host ascii : Text)
      → with_host uris urls parsed host ascii ≡ ok url
      → domain_to_ascii host ≡ inr ascii
      → host_str parsed ≡ some host
      → PartsAreSafe parsed
      → (host_str url ≡ some ascii) × PartsAreSafe url
  unfolding with_host
  with_host-PartsAreSafe parsed url host ascii h converted present safe =
      let spelled = urls.domain_to_ascii-host parsed host ascii safe.0 present converted in
      let same = ok-injective (rw ((text_eq_iff ascii host).1 spelled) at h) in
      rw (sym same, spelled) (present, safe)

  -- the last two lines of `validate`
  conclude-IsSafe :
      (url : Url) (ascii : Text) (target : TargetUrl uris urls) (number : ℕ)
      → (host_str url ≡ some ascii) × PartsAreSafe url
      → (is_plain ascii ≡ true) × (length ascii ≤ max_host_len)
      → port_or_known_default url ≡ some number
      → Result.ok (record { url = url; host = ascii; port = number }) ≡ ok target
      → IsSafe target
  conclude-IsSafe url ascii target number (present, (web, user, pass, frag)) (plain, bound) known
        e =
      subst IsSafe (ok-injective e) (record {
        web = web;
        no_username = user;
        no_password = pass;
        no_fragment = frag;
        host = present;
        plain = plain;
        bound = bound;
        port = known;
      })

  -- `validate` from the host of the URL on
  present-IsSafe :
      (parsed : Url) (target : TargetUrl uris urls) (host : Text)
      → check_parts uris urls parsed ≡ ok tt
      → host_str parsed ≡ some host
      → (do
        ascii_host ← ascii_host_of uris urls host
        url ← with_host uris urls parsed host ascii_host
        number ← required (codes "unable to determine port for scheme") (port_or_known_default url)
        ok (record { url = url; host = ascii_host; port = number }))
        ≡ Result.ok target
      → IsSafe target
  present-IsSafe parsed target host parts present h =
      elim (Result-cases (ascii_host_of uris urls host)) [
        | inr (e, r) ↦ ground (arith, h, r)
        | inl (ascii, r) ↦
            let h2 = rw r at h in
            elim (Result-cases (with_host uris urls parsed host ascii)) [
              | inr (e, q) ↦ ground (arith, h2, q)
              | inl (url, q) ↦
                  let (converted, narrow) = ascii_host_of-plain host ascii r in
                  let safe =
                    with_host-PartsAreSafe parsed url host ascii q converted present
                      (check_parts-PartsAreSafe parsed parts) in
                  let h3 = rw q at h2 in
                  let message = codes "unable to determine port for scheme" in
                  elim (Result-cases (required message (port_or_known_default url))) [
                    | inr (e, n) ↦ ground (arith, h3, n)
                    | inl (number, n) ↦
                        conclude-IsSafe url ascii target number safe narrow
                          (required-ok message _ number n) (rw n at h3)
                  ]
            ]
      ]

  validate-IsSafe :
      (parsed : Url) (target : TargetUrl uris urls)
      → validate uris urls parsed ≡ ok target
      → IsSafe target
  unfolding validate
  validate-IsSafe parsed target h =
      let (parts, h1) = then-ok (check_parts uris urls parsed) _ target h in
      elim (Result-cases (required (codes "missing hostname") (host_str parsed))) [
        | inr (e, r) ↦ ground (arith, h1, r)
        | inl (host, r) ↦
            present-IsSafe parsed target host parts (required-ok _ _ host r) (rw r at h1)
      ]

  -- `extract_target` from the candidate on
  decoded-IsSafe :
      (candidate : Text) (target : TargetUrl uris urls)
      → (do
        decoded ← required (codes "target contains invalid utf-8") (urls.percent_decode candidate)
        normalized ← normalize_scheme decoded
        parsed ← checked (codes "url parse failed: ") (url_parse normalized)
        validate uris urls parsed)
        ≡ ok target
      → IsSafe target
  decoded-IsSafe candidate target h =
      let message = codes "target contains invalid utf-8" in
      elim (Result-cases (required message (urls.percent_decode candidate))) [
        | inr (e, r) ↦ ground (arith, h, r)
        | inl (decoded, r) ↦
            let h1 = rw r at h in
            elim (Result-cases (normalize_scheme decoded)) [
              | inr (e, q) ↦ ground (arith, h1, q)
              | inl (normalized, q) ↦
                  let h2 = rw q at h1 in
                  elim (Result-cases
                    (checked (codes "url parse failed: ") (url_parse normalized))) [
                      | inr (e, p) ↦ ground (arith, h2, p)
                      | inl (parsed, p) ↦ validate-IsSafe parsed target (rw p at h2)
                    ]
            ]
      ]

  -- Every target that is taken from a request has the scheme "http" or "https", no user name, no
  -- password and no fragment; its host is the host of its URL, at most 253 bytes long, and neither a
  -- literal of IPv6 nor preceded by user information; its port is the one that the URL implies.
  pub extract_target-IsSafe :
      (uri : Uri) (target : TargetUrl uris urls)
      → extract_target uris urls uri ≡ ok target
      → IsSafe target
  unfolding extract_target
  extract_target-IsSafe uri target h =
      elim (Result-cases (candidate_from_uri (urls.uri_path uri) (urls.uri_query uri))) [
        | inr (e, r) ↦ ground (arith, h, r)
        | inl (candidate, r) ↦ decoded-IsSafe candidate target (rw r at h)
      ]

  -- The URI that a target is sent to has the scheme and the authority that were checked: the target
  -- policy of the first hop decides on it as the handler's check of the target does.
  pub to_uri-check_uri :
      (policy : TargetPolicy) (request : Uri) (target : TargetUrl uris urls) (uri : Uri)
      → extract_target uris urls request ≡ ok target
      → to_uri uris urls target ≡ ok uri
      → check_uri policy (scheme_str uri) (uris.host uri)
        ≡ check_authority policy (scheme target.url) target.host
  unfolding to_uri check_uri
  to_uri-check_uri policy request target uri extracted built =
      elim (Result-cases (
        checked (codes "invalid path/query: ")
          (urls.path_and_query (path_of uris urls target.url)))) [
            | inr (e, r) ↦ ground (arith, built, r)
            | inl (pq, r) ↦
                let (s, host) =
                  urls.build-parts (scheme target.url) target.host (port target.url) pq uri
                    (extract_target-IsSafe request target extracted).plain
                    (checked-ok (codes "uri build failed: ") _ uri (rw r at built)) in
                rw (s, host) refl
          ]
