-- ===== src/Uris/Known.antt =====
-- The parameter `Uris` by a parser that knows the URIs of a list.
use corx.Prelude.{some, List, [], ◌∷◌, ◌⊎◌, inl, inr, Text, codes, text_eq, if◌then◌else◌}
use corx.Uris.{Uris}

pub record KnownUri : Type 0 where
  pub text : Text
  pub scheme : Text
  pub host : Text

unfoldable pub parse_known : List KnownUri → Text → Text ⊎ KnownUri
parse_known [] t = inl (codes "invalid uri")
parse_known (u ∷ us) t = let later = parse_known us t in if text_eq u.text t then inr u else later

abbrev pub known_uris : List KnownUri → Uris
known_uris us = record {
  Uri = KnownUri;
  scheme_str = λ u. some u.scheme;
  host = λ u. some u.host;
  authority = λ u. some u.host;
  parse = parse_known us;
  to_string = λ u. u.text;
  Url = KnownUri;
  url_parse = parse_known us;
  join = λ base location. parse_known us location;
  as_str = λ u. u.text;
}
