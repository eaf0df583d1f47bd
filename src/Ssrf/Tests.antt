-- ===== src/Ssrf/Tests.antt =====
-- The guard with a parser that knows one network, at concrete addresses.
use corx.Error.{IpAddr, ProxyError, ok, err}
use corx.Prelude.{
  ℕ, ◌+◌, ◌*◌, ◌/◌, ◌≡◌, refl, Bool, true, false, ◌⊎◌, inr, Option, none, some, List, [], ◌∷◌, Text,
  codes, All, text_eq, ◌==◌, if◌then◌else◌, is_empty, contains,
}
use corx.Ssrf.{
  IpNets, strict, SsrfConfig, SsrfGuard, SocketAddr, canonicalise, new, check_ip, resolve,
  compile_cidr_list, evaluate, evaluate_mode, refuse_in, visit, collect, conclude,
}
use corx.Ssrf.Admission.{admissible, check_ip-admissible, strict-refuses-builtin}
use corx.Ssrf.Resolve.{answer, resolve-answer, resolve-IsGuarded}

abbrev in_block : ℕ → IpAddr → Bool
in_block top (IpAddr.v4 a) = a / 16777216 == top
in_block top (IpAddr.v6 a) = false

-- A network is the first byte of an IPv4 address.
abbrev nets : IpNets
nets = record {
  IpNet = ℕ;
  parse = λ t. if text_eq t (codes "127.0.0.0/8") then some 127 else none;
  contains = in_block;
}

abbrev cfg : SsrfConfig nets
cfg = record {
  mode = strict;
  allow_ipv6 = true;
  extra_blocked_cidrs = [];
  extra_allowed_cidrs = [];
}

abbrev guard : SsrfGuard nets
guard = new nets cfg

program : Unit {0}
unfolding new compile_cidr_list check_ip canonicalise evaluate evaluate_mode refuse_in visit collect
    conclude resolve text_eq contains
program = tt

-- The test `strict_mode_rejects_ipv4_mapped_loopback`.
mapped_loopback :
    check_ip nets guard (IpAddr.v6 (65535 * 4294967296 + 2130706433))
    ≡ err (ProxyError.ssrf_blocked (IpAddr.v4 2130706433))
unfolding program
mapped_loopback = refl

check_ip-admissible_example : check_ip nets guard (IpAddr.v4 16843009) ≡ (
    if admissible nets guard (canonicalise (IpAddr.v4 16843009))
    then ok (canonicalise (IpAddr.v4 16843009))
    else err (ProxyError.ssrf_blocked (canonicalise (IpAddr.v4 16843009))))
check_ip-admissible_example = check_ip-admissible nets guard (IpAddr.v4 16843009)

strict-refuses-builtin_example :
    check_ip nets guard (IpAddr.v4 2130706433)
    ≡ err (ProxyError.ssrf_blocked (canonicalise (IpAddr.v4 2130706433)))
unfolding program
strict-refuses-builtin_example =
    strict-refuses-builtin nets cfg (IpAddr.v4 2130706433) (codes "127.0.0.0/8") 127 refl refl refl
      refl refl

-- A resolver that knows one name.
abbrev no_literal : Text → Option IpAddr
no_literal t = none

abbrev both : List IpAddr
both = IpAddr.v4 2130706433 ∷ IpAddr.v4 16843009 ∷ []

abbrev dns : Text → Text ⊎ List IpAddr
dns t = inr both

resolve-answer_example :
    resolve nets no_literal dns guard (codes "a.test") 443
    ≡ answer nets guard (codes "a.test") 443 both
resolve-answer_example =
    resolve-answer nets no_literal dns guard (codes "a.test") 443 both refl refl

abbrev public_only : List SocketAddr
public_only = record { ip = IpAddr.v4 16843009; port = 443 } ∷ []

resolved : resolve nets no_literal dns guard (codes "a.test") 443 ≡ ok public_only
unfolding program
resolved = refl

resolve-IsGuarded_example :
    (is_empty public_only ≡ false) × All (λ addr. admissible nets guard addr.ip ≡ true) public_only
resolve-IsGuarded_example =
    resolve-IsGuarded nets no_literal dns guard (codes "a.test") 443 public_only resolved
