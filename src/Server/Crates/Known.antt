-- ===== src/Server/Crates/Known.antt =====
-- The crates by concrete functions, for the URIs of a list: all their laws can be met at once.
use corx.Circuit.{HostCircuit}
use corx.Equality.{nat_equal}
use corx.Http.Assoc.{assoc_http}
use corx.Prelude.{
  false, Option, none, some, List, String, Text, codes, str_eq, text_eq, if◌then◌else◌,
}
use corx.Server.Crates.{Crates}
use corx.Server.RateLimit.Known.{texts, ips, governor, regexes, nets}
use corx.Table.Assoc.{assoc_table}
use corx.Uris.Known.{KnownUri, known_uris}
use corx.Urls.Known.{known_urls}

unfoldable pub known_method : Text → Option String
known_method raw = if text_eq raw (codes "TRACE") then some "TRACE" else none

abbrev pub known_crates : List KnownUri → Crates
known_crates us = record {
  http = assoc_http;
  uris = known_uris us;
  urls = known_urls us;
  hosts = assoc_table HostCircuit;
  texts = texts;
  ips = ips;
  governor = governor;
  regexes = regexes;
  nets = nets;
  net_equal = nat_equal;
  build_client = λ config. none;
  method_of = known_method;
  method_text = λ method. if str_eq method "TRACE" then codes "TRACE" else codes "GET";
  header_name = λ name. if text_eq name (codes "origin") then "origin" else "x-unknown";
  ip_text = λ ip. codes "192.0.2.1";
  is_file = λ path. false;
}
