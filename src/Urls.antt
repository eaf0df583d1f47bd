-- ===== src/Urls.antt =====
-- What the target parser uses of the crates http, url, percent-encoding and idna, beyond `Uris`. They
-- are not part of the repository: their operations and their documented behaviour are a parameter.
pub mod Known
use corx.Prelude.{
  ℕ, ◌≡◌, Bool, true, ◌||◌, not, Option, none, some, ◌++◌, Text, codes, text_eq, to_string, ◌==◌,
  any, ◌⊎◌, inl, inr,
}
use corx.Uris.{Uris}

-- A host as it stands in an authority: without user information, and no literal of IPv6.
abbrev pub is_plain : Text → Bool
is_plain host = not (any (λ c. c == b':' || c == b'@') host)

-- The text of an authority, with the port if there is one.
abbrev pub authority_of : Text → Option ℕ → Text
authority_of host none = host
authority_of host (some port) = host ++ (codes ":" ++ to_string port)

pub record Urls (uris : Uris) : Type 1 where
  -- `Uri::path`, `Uri::query`
  pub uri_path : uris.Uri → Text
  pub uri_query : uris.Uri → Option Text
  -- `PathAndQuery::try_from`, and `Uri::builder` with the scheme, authority, path and query
  pub PathAndQuery : Type 0
  pub path_and_query : Text → Text ⊎ PathAndQuery
  pub build : Text → Text → PathAndQuery → Text ⊎ uris.Uri
  -- `Url`
  pub scheme : uris.Url → Text
  pub username : uris.Url → Text
  pub password : uris.Url → Option Text
  pub fragment : uris.Url → Option Text
  pub host_str : uris.Url → Option Text
  pub port : uris.Url → Option ℕ
  pub port_or_known_default : uris.Url → Option ℕ
  pub path : uris.Url → Text
  pub query : uris.Url → Option Text
  pub set_host : uris.Url → Text → Text ⊎ uris.Url
  -- `percent_decode_str` with `decode_utf8`
  pub percent_decode : Text → Option Text
  -- `domain_to_ascii_cow` with the deny list of URLs, which has `:` and `@`
  pub domain_to_ascii : Text → Text ⊎ Text
  pub domain_to_ascii-plain :
      (host ascii : Text) → domain_to_ascii host ≡ inr ascii → is_plain ascii ≡ true
  -- `Url` parses the host of an http or https URL with the same conversion, so its result is a fixed
  -- point of it. Nothing is known of `set_host`, which parses the host that it is given again.
  pub domain_to_ascii-host :
      (u : uris.Url) (host ascii : Text)
      → (text_eq (scheme u) (codes "http") || text_eq (scheme u) (codes "https")) ≡ true
      → host_str u ≡ some host
      → domain_to_ascii host ≡ inr ascii
      → ascii ≡ host
  -- the parts of a URI that was built
  pub build-parts :
      (s host : Text) (number : Option ℕ) (pq : PathAndQuery) (u : uris.Uri)
      → is_plain host ≡ true
      → build s (authority_of host number) pq ≡ inr u
      → (uris.scheme_str u ≡ some s) × (uris.host u ≡ some host)
