-- ===== src/Server/Outbound/Tests.antt =====
-- The headers of a request to `https://a.test:8080/` and of its response.
use corx.Error.{IpAddr}
use corx.Forwarded.{InboundContext, ForwardedConfig}
use corx.Headers.{HeaderFilter}
use corx.Headers.Filter.{among, lists, dropped}
use corx.Http.Assoc.{assoc_http, get_all, as_visible, all_visible}
use corx.Config.Limits.{RedirectPolicy}
use corx.Parser.Target.{extract_target, validate}
use corx.Uris.{Uris}
use corx.Uris.Known.{KnownUri, known_uris, parse_known}
use corx.Urls.{Urls}
use corx.Urls.Known.{known_urls}
use corx.Prelude.{
  ◌≡◌, refl, true, false, some, List, [], ◌∷◌, String, Text, codes, starts_with, strip_prefix, none,
  if◌then◌else◌, text_eq,
}
use corx.Server.Outbound.{outbound_headers, shape_headers}
use corx.Server.Outbound.Location.{url_value, location-roundtrip}
use corx.Server.Outbound.Sent.{outbound_headers-values}

abbrev ip_text : IpAddr → Text
ip_text ip = codes "192.0.2.1"

abbrev cookies : HeaderFilter
cookies = record { extra_deny = "cookie" ∷ "set-cookie" ∷ [] }

abbrev inbound : InboundContext
inbound = record {
  client_ip = some (IpAddr.v4 1);
  scheme = codes "https";
  host = some (codes "proxy.test");
  local_port = 443;
}

abbrev cfg : ForwardedConfig
cfg = record { inject = true; trust_inbound_xff = false; inject_request_id = true }

abbrev sent : List (String × Text)
sent =
    ("host", codes "proxy.test")
    ∷ ("connection", codes "close , X-Trace")
    ∷ ("x-trace", codes "1")
    ∷ []

outbound_headers-values_example :
    assoc_http.values
      (outbound_headers assoc_http ip_text cookies inbound cfg
        (codes "id")
        (codes "corx")
        (codes "a.test")
        (some 8080)
        sent)
      "x-trace"
    ≡ (if dropped assoc_http cookies sent "x-trace" then [] else assoc_http.values sent "x-trace")
unfolding among
outbound_headers-values_example =
    outbound_headers-values assoc_http ip_text cookies inbound cfg (codes "id") (codes "corx")
      (codes "a.test") (some 8080) sent "x-trace" refl

host_value : assoc_http.from_str (codes "a.test:8080") ≡ some (codes "a.test:8080")
unfolding as_visible all_visible
host_value = refl

abbrev b_test : KnownUri
b_test = record { text = codes "https://b.test/x"; scheme = codes "https"; host = codes "b.test" }

abbrev uris : Uris
uris = known_uris (b_test ∷ [])

abbrev urls : Urls uris
urls = known_urls (b_test ∷ [])

-- what a client requests that follows the rewritten location
abbrev followed : KnownUri
followed = record { text = codes "/https://b.test/x"; scheme = []; host = [] }

abbrev moved : List (String × Text)
moved = ("location", codes "https://b.test/x") ∷ ("set-cookie", codes "c=d") ∷ []

location-roundtrip_example :
    (assoc_http.values
        (shape_headers assoc_http cookies RedirectPolicy.rewrite (codes "https://a.test/") moved)
        "location"
      ≡ codes "/https://b.test/x" ∷ [])
    × (extract_target uris urls followed ≡ validate uris urls b_test)
unfolding get_all as_visible all_visible starts_with strip_prefix url_value parse_known text_eq
    among lists
location-roundtrip_example =
    location-roundtrip assoc_http uris urls cookies (codes "https://a.test/") moved
      (codes "https://b.test/x") (codes "/https://b.test/x") (codes "https://b.test/x") none
      followed b_test refl refl refl refl refl refl refl refl refl refl
