-- ===== src/Parser/Tests.antt =====
-- A target without a scheme, on the port of https, and a target of a whole request.
use corx.Error.{ok}
use corx.Parser.{
  normalize_scheme, split_once, after_last, before_first, candidate_from_uri, candidate_from_path,
  trim_slashes,
}
use corx.Parser.Safety.{IsSafe, extract_target-IsSafe, to_uri-check_uri}
use corx.Parser.Target.{
  TargetUrl, extract_target, validate, check_parts, ascii_host_of, within_bound, with_host,
  required, checked, to_uri, path_of,
}
use corx.Target.{TargetPolicy, from_config, default_config, check_uri, check_authority}
use corx.Uris.{Uris}
use corx.Uris.Known.{KnownUri, known_uris, parse_known}
use corx.Urls.{Urls}
use corx.Urls.Known.{known_urls, to_ascii}
use corx.Prelude.{◌≡◌, refl, [], ◌∷◌, codes, text_eq, strip_prefix, to_ascii_lowercase}

port_443 : normalize_scheme (codes "a.test:443/x") ≡ ok (codes "https://a.test:443/x")
unfolding normalize_scheme split_once after_last before_first text_eq strip_prefix
port_443 = refl

abbrev a_test : KnownUri
a_test = record { text = codes "https://a.test/"; scheme = codes "https"; host = codes "a.test" }

abbrev uris : Uris
uris = known_uris (a_test ∷ [])

abbrev urls : Urls uris
urls = known_urls (a_test ∷ [])

-- the request of a client, for the target `https://a.test/`
abbrev request : KnownUri
request = record { text = codes "/https://a.test/"; scheme = []; host = [] }

abbrev target : TargetUrl uris urls
target = record { url = a_test; host = codes "a.test"; port = 443 }

abbrev sent_to : KnownUri
sent_to = record { text = codes "https://a.test/"; scheme = codes "https"; host = codes "a.test" }

extracted : extract_target uris urls request ≡ ok target
unfolding extract_target validate check_parts ascii_host_of within_bound with_host required checked
    candidate_from_uri candidate_from_path trim_slashes normalize_scheme split_once strip_prefix
    to_ascii_lowercase parse_known to_ascii text_eq
extracted = refl

built : to_uri uris urls target ≡ ok sent_to
unfolding to_uri path_of checked before_first
built = refl

extract_target-IsSafe_example : IsSafe uris urls target
extract_target-IsSafe_example = extract_target-IsSafe uris urls request target extracted

abbrev policy : TargetPolicy
policy = from_config default_config

to_uri-check_uri_example :
    check_uri policy (uris.scheme_str sent_to) (uris.host sent_to)
    ≡ check_authority policy (urls.scheme target.url) target.host
to_uri-check_uri_example = to_uri-check_uri uris urls policy request target sent_to extracted built
