-- ===== src/Server/Crates.antt =====
-- Everything outside the repository that the server uses: the interfaces of the crates, of the
-- standard library and of the operating system, in one record.
pub mod Known
use corx.Circuit.{HostCircuit}
use corx.Equality.{Equal}
use corx.Error.{IpAddr}
use corx.Http.{Http}
use corx.Keys.{Keys}
use corx.Prelude.{Bool, Option, String, Text}
use corx.Server.RateLimit.{Governor, Regexes}
use corx.Ssrf.{IpNets}
use corx.Table.{Table}
use corx.Upstream.{ClientConfig}
use corx.Uris.{Uris}
use corx.Urls.{Urls}

pub record Crates : Type 1 where
  pub http : Http
  pub uris : Uris
  pub urls : Urls uris
  pub hosts : Table HostCircuit
  pub texts : Keys Text
  pub ips : Keys IpAddr
  pub governor : Governor
  pub regexes : Regexes
  pub nets : IpNets
  -- `IpNet` has an equality
  pub net_equal : Equal nets.IpNet
  -- the set-up of TLS and of the connection pool in `Upstream::new`, or the text of its error
  pub build_client : ClientConfig → Option Text
  -- `Method::from_bytes` of an upper-case text, and `Method::as_str`
  pub method_of : Text → Option String
  pub method_text : String → Text
  -- a text as the name of a header to look for
  pub header_name : Text → String
  -- the text of an address
  pub ip_text : IpAddr → Text
  -- `Path::is_file`
  pub is_file : String → Bool
