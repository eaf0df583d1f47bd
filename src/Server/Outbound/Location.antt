-- ===== src/Server/Outbound/Location.antt =====
-- Where a rewritten `Location` leads: the client resolves it against the proxy, and requests it.
use corx.Error.{ok}
use corx.Http.{Http}
use corx.Headers.{HeaderFilter, apply}
use corx.Headers.Filter.{dropped, values-apply}
use corx.Config.Limits.{RedirectPolicy}
use corx.Parser.{
  find_query_value, candidate_from_path, candidate_from_uri, trim_slashes, normalize_scheme,
  split_once,
}
use corx.Parser.Target.{extract_target, validate, required, checked}
use corx.Uris.{Uris}
use corx.Urls.{Urls}
use corx.Prelude.{
  ◌==◌, Bool-cases, inl, inr, ℕ, ◌≡◌, refl, true, false, Option, none, some, [], ◌∷◌, ◌++◌, Text,
  codes, starts_with, strip_prefix, arith, is_empty, sym, ap, ◌∙◌, head?, if◌then◌else◌,
  to_ascii_lowercase, text_eq,
}
use corx.Server.Outbound.{
  is_absolute, rewrite_location, rewrite_location_header, shape_headers, append_via_header,
  via_text, insert_text, expose_url_header,
}
use corx.Server.Outbound.Sent.{insert_text-same, insert_text-other}

-- A path with its query, as they stand in the text of an address.
abbrev pub with_query : Text → Option Text → Text
with_query path none = path
with_query path (some query) = path ++ (codes "?" ++ query)

-- the value named "url" of a query, if there is one
unfoldable pub url_value : Option Text → Option Text
url_value none = none
url_value (some query) = find_query_value query (codes "url")

first-absolute : (c : ℕ) (path : Text) → is_absolute (c ∷ path) ≡ true → (c == b'/') ≡ false
unfolding starts_with strip_prefix
first-absolute c path h = elim (Bool-cases (b'h' == c)) [
  | inl e ↦ ground arith
  | inr e ↦ ground arith
]

trim_slashes-absolute :
    (path : Text) → is_absolute path ≡ true → trim_slashes (codes "/" ++ path) ≡ path
unfolding trim_slashes starts_with strip_prefix
trim_slashes-absolute [] h = cc
trim_slashes-absolute (c ∷ path) h = rw (first-absolute c path h) refl

is_empty-absolute : (path : Text) → is_absolute path ≡ true → is_empty path ≡ false
unfolding starts_with strip_prefix
is_empty-absolute [] h = cc
is_empty-absolute (c ∷ path) h = refl

candidate-path :
    (path : Text) (query : Option Text)
    → is_absolute path ≡ true
    → candidate_from_path (codes "/" ++ path) query ≡ ok (with_query path query)
unfolding candidate_from_path
candidate-path path none h =
    rw (candidate_from_path, trim_slashes-absolute path h, is_empty-absolute path h) refl
candidate-path path (some query) h =
    rw (candidate_from_path, trim_slashes-absolute path h, is_empty-absolute path h) refl

-- A rewritten location leads back to the address that the upstream gave, unless its query has a
-- value named "url".
pub candidate-location :
    (path : Text) (query : Option Text)
    → is_absolute path ≡ true
    → url_value query ≡ none
    → candidate_from_uri (codes "/" ++ path) query ≡ ok (with_query path query)
unfolding candidate_from_uri url_value
candidate-location path none h e = candidate-path path none h
candidate-location path (some query) h e =
    rw (candidate_from_uri, e) (candidate-path path (some query) h)

starts_with-append : (p s t : Text) → starts_with s p ≡ true → starts_with (s ++ t) p ≡ true
unfolding starts_with strip_prefix
starts_with-append [] s t h = refl
starts_with-append (c ∷ p) [] t h = cc
starts_with-append (c ∷ p) (d ∷ s) t h = ground (arith, starts_with-append p s t)

is_absolute-query :
    (path : Text) (query : Option Text)
    → is_absolute path ≡ true
    → is_absolute (with_query path query) ≡ true
is_absolute-query path none h = h
is_absolute-query path (some query) h =
    let rest = codes "?" ++ query in
    let plain = starts_with-append (codes "http://") path rest in
    let secure = starts_with-append (codes "https://") path rest in ground (arith, h, plain, secure)

-- A text with a prefix is the prefix with the rest.
starts_with-rest : (p s : Text) → starts_with s p ≡ true → (rest : Text) × (s ≡ p ++ rest)
unfolding starts_with strip_prefix
starts_with-rest [] s h = (s, refl)
starts_with-rest (c ∷ p) [] h = cc
starts_with-rest (c ∷ p) (d ∷ s) h = elim (Bool-cases (c == d)) [
  | inl e ↦
      let (rest, same) = starts_with-rest p s (ground (arith, h)) in (rest, ground (arith, same))
  | inr e ↦ ground (arith, h)
]

normalize_scheme-http :
    (rest : Text)
    → (normalize_scheme (codes "http://" ++ rest) ≡ ok (codes "http://" ++ rest))
      × (normalize_scheme (codes "https://" ++ rest) ≡ ok (codes "https://" ++ rest))
unfolding normalize_scheme split_once strip_prefix to_ascii_lowercase text_eq
normalize_scheme-http rest = (refl, refl)

-- A location with a web scheme keeps it.
normalize_scheme-absolute : (raw : Text) → is_absolute raw ≡ true → normalize_scheme raw ≡ ok raw
normalize_scheme-absolute raw h = elim (Bool-cases (starts_with raw (codes "http://"))) [
  | inl e ↦
      let (rest, same) = starts_with-rest (codes "http://") raw e in
      rw same (normalize_scheme-http rest).0
  | inr e ↦
      let (rest, same) = starts_with-rest (codes "https://") raw (ground (arith, h)) in
      rw same (normalize_scheme-http rest).1
]

module _ (http : Http) where
  open http use {HeaderMap, HeaderValue, values, get, to_str, from_str}

  rewrite_location_header-values :
      (m : HeaderMap) (location v : HeaderValue) (raw : Text)
      → get m "location" ≡ some location
      → to_str location ≡ some raw
      → is_absolute raw ≡ true
      → from_str (codes "/" ++ raw) ≡ some v
      → values (rewrite_location_header http m) "location" ≡ v ∷ []
  unfolding rewrite_location_header rewrite_location
  rewrite_location_header-values m location v raw g s a f =
      rw (rewrite_location_header, g, s, rewrite_location, a)
        (insert_text-same http m "location" (codes "/" ++ raw) v refl f)

  -- A rewritten response has the location of the upstream, as a path of the proxy.
  shape_headers-location :
      (response_filter : HeaderFilter) (url : Text) (m : HeaderMap) (location v : HeaderValue)
      (raw : Text)
      → dropped http response_filter m "location" ≡ false
      → get m "location" ≡ some location
      → to_str location ≡ some raw
      → is_absolute raw ≡ true
      → from_str (codes "/" ++ raw) ≡ some v
      → values (shape_headers http response_filter RedirectPolicy.rewrite url m) "location" ≡ v ∷ []
  unfolding shape_headers append_via_header
  shape_headers-location response_filter url m location v raw kept g s a f =
      let headers1 = apply http response_filter m in
      let headers2 = insert_text http headers1 expose_url_header url in
      let headers3 = append_via_header http headers2 in
      let same1 : values headers1 "location" ≡ values m "location" =
        values-apply http response_filter m "location"
        ∙ ap (λ b. if b then [] else values m "location") kept in
      let same2 = insert_text-other http headers1 expose_url_header url "location" refl in
      let same3 = insert_text-other http headers2 "via" (via_text http headers2) "location" refl in
      let first : get headers3 "location" ≡ some location =
        http.get-values headers3 "location"
        ∙ ap head? (same3 ∙ same2 ∙ same1)
        ∙ sym (http.get-values m "location")
        ∙ g in
      rewrite_location_header-values headers3 location v raw first s a f

  -- Under the policy `rewrite`, an absolute location of an upstream, if the response filter leaves it,
  -- comes back as a path of the proxy; and a request for that path is for the URL that the location
  -- parses to, query included, under the checks that every target passes. Excepted are a query that
  -- has a value named "url", and a location that percent-decoding changes.
  pub location-roundtrip :
      (uris : Uris) (urls : Urls uris) (response_filter : HeaderFilter) (exposed : Text)
      (m : HeaderMap) (location v : HeaderValue) (path : Text) (query : Option Text)
      (request : uris.Uri) (url : uris.Url)
      → dropped http response_filter m "location" ≡ false
      → get m "location" ≡ some location
      → to_str location ≡ some (with_query path query)
      → is_absolute path ≡ true
      → from_str (codes "/" ++ with_query path query) ≡ some v
      → url_value query ≡ none
      → urls.percent_decode (with_query path query) ≡ some (with_query path query)
      → uris.url_parse (with_query path query) ≡ inr url
      → urls.uri_path request ≡ codes "/" ++ path
      → urls.uri_query request ≡ query
      → (values (shape_headers http response_filter RedirectPolicy.rewrite exposed m) "location"
          ≡ v ∷ [])
        × (extract_target uris urls request ≡ validate uris urls url)
  unfolding extract_target required checked
  location-roundtrip uris urls response_filter exposed m location v path query request url kept g s
        a f e plain parsed hpath hquery =
      (
        shape_headers-location response_filter exposed m location v (with_query path query) kept g s
            (is_absolute-query path query a) f,
        rw
            (
              extract_target,
              hpath,
              hquery,
              candidate-location path query a e,
              plain,
              required,
              normalize_scheme-absolute (with_query path query) (is_absolute-query path query a),
              checked,
              parsed,
            )
            refl,
      )
