-- ===== src/Forwarded/Tests.antt =====
-- A request with a forged chain.
use corx.Error.{IpAddr}
use corx.Forwarded.{InboundContext, ForwardedConfig, inject}
use corx.Prelude.{true, false, some, List, [], ◌∷◌, String, Text, codes}

abbrev ip_text : IpAddr → Text
ip_text ip = codes "203.0.113.5"

abbrev inbound : InboundContext
inbound = record {
  client_ip = some (IpAddr.v4 3405803781);
  scheme = codes "https";
  host = some (codes "proxy.example");
  local_port = 8080;
}

abbrev cfg : ForwardedConfig
cfg = record { inject = true; trust_inbound_xff = false; inject_request_id = true }

abbrev forged : List (String × Text)
forged = ("x-forwarded-for", codes "1.2.3.4") ∷ []
