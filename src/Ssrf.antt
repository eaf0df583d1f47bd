-- ===== src/Ssrf.antt =====
-- crates/corx-core/src/proxy/ssrf.rs and config/ssrf.rs: which addresses a connection may be made
-- to. The crate `ipnet`, the parser of address literals of the standard library and the DNS resolver
-- are parameters. Counters and log lines have no effect on the verdict and are left out.
pub mod Admission
pub mod Resolve
mod Tests
use corx.Error.{IpAddr, ProxyError, Result, ok, err}
use corx.Prelude.{
  ℕ, ◌/◌, ◌%◌, Bool, true, false, ◌&&◌, not, ◌⊎◌, inl, inr, Option, none, some, List, [], ◌∷◌, ◌++◌,
  Text, codes, ◌==◌, if◌then◌else◌, any, find, is_empty,
}

-- The crate `ipnet`: networks, their parser, and the addresses in them.
pub record IpNets : Type 1 where
  pub IpNet : Type 0
  pub parse : Text → Option IpNet
  pub contains : IpNet → IpAddr → Bool

-- `SsrfMode`
pub data SsrfMode : Type 0 where
  strict : SsrfMode
  permissive : Bool → SsrfMode

-- `SocketAddr`
pub record SocketAddr : Type 0 where
  pub ip : IpAddr
  pub port : ℕ

-- `DEFAULT_BLOCKED_CIDRS`
abbrev pub default_blocked_cidrs : List Text
default_blocked_cidrs =
    codes "0.0.0.0/8"
    ∷ codes "10.0.0.0/8"
    ∷ codes "100.64.0.0/10"
    ∷ codes "127.0.0.0/8"
    ∷ codes "169.254.0.0/16"
    ∷ codes "172.16.0.0/12"
    ∷ codes "192.0.0.0/24"
    ∷ codes "192.0.2.0/24"
    ∷ codes "192.168.0.0/16"
    ∷ codes "198.18.0.0/15"
    ∷ codes "198.51.100.0/24"
    ∷ codes "203.0.113.0/24"
    ∷ codes "224.0.0.0/4"
    ∷ codes "240.0.0.0/4"
    ∷ codes "255.255.255.255/32"
    ∷ codes "::/128"
    ∷ codes "::1/128"
    ∷ codes "::ffff:0:0/96"
    ∷ codes "64:ff9b::/96"
    ∷ codes "64:ff9b:1::/48"
    ∷ codes "100::/64"
    ∷ codes "2001:db8::/32"
    ∷ codes "2002::/16"
    ∷ codes "fc00::/7"
    ∷ codes "fe80::/10"
    ∷ codes "ff00::/8"
    ∷ []

-- `PRIVATE_RANGES`
abbrev pub private_ranges : List Text
private_ranges =
    codes "10.0.0.0/8"
    ∷ codes "172.16.0.0/12"
    ∷ codes "192.168.0.0/16"
    ∷ codes "127.0.0.0/8"
    ∷ codes "169.254.0.0/16"
    ∷ codes "::1/128"
    ∷ codes "fc00::/7"
    ∷ codes "fe80::/10"
    ∷ []

-- `canonicalise`: `Ipv6Addr::to_canonical` folds `::ffff:a.b.c.d` back to `a.b.c.d`
unfoldable pub canonicalise : IpAddr → IpAddr
canonicalise (IpAddr.v4 a) = IpAddr.v4 a
canonicalise (IpAddr.v6 a) =
    if a / 4294967296 == 65535 then IpAddr.v4 (a % 4294967296) else IpAddr.v6 a

-- `IpAddr::is_ipv6`
abbrev pub is_ipv6 : IpAddr → Bool
is_ipv6 (IpAddr.v4 a) = false
is_ipv6 (IpAddr.v6 a) = true

module _ (nets : IpNets) where
  open nets use {IpNet, parse, contains}

  -- `SsrfConfig`
  pub record SsrfConfig : Type 0 where
    pub mode : SsrfMode
    pub allow_ipv6 : Bool
    pub extra_blocked_cidrs : List IpNet
    pub extra_allowed_cidrs : List IpNet

  -- `SsrfGuard`, without the resolver
  pub record SsrfGuard : Type 0 where
    pub mode : SsrfMode
    pub allow_ipv6 : Bool
    pub blocked : List IpNet
    pub allowed : List IpNet
    pub private : List IpNet

  unfoldable pub compile_cidr_list : List Text → List IpNet → List IpNet
  compile_cidr_list [] extras = extras
  compile_cidr_list (raw ∷ builtin) extras =
      let rest = compile_cidr_list builtin extras in
      elim (parse raw) [ none ↦ rest | some net ↦ net ∷ rest ]

  -- `SsrfGuard::new`
  unfoldable pub new : SsrfConfig → SsrfGuard
  new cfg = record {
    mode = cfg.mode;
    allow_ipv6 = cfg.allow_ipv6;
    blocked = compile_cidr_list default_blocked_cidrs cfg.extra_blocked_cidrs;
    allowed = compile_cidr_list [] cfg.extra_allowed_cidrs;
    private = compile_cidr_list private_ranges [];
  }

  -- `if let Some(net) = list.iter().find(..) { return Err(SsrfBlocked(ip)) }; Ok(())`
  unfoldable pub refuse_in : List IpNet → IpAddr → Result (Unit {0})
  refuse_in list ip = elim (find (λ net. contains net ip) list) [
    | some net ↦ err (ProxyError.ssrf_blocked ip)
    | none ↦ ok tt
  ]

  -- the `match self.mode` of `evaluate`
  unfoldable pub evaluate_mode : SsrfGuard → SsrfMode → IpAddr → Result (Unit {0})
  evaluate_mode guard strict ip = refuse_in guard.blocked ip
  evaluate_mode guard (permissive allow_private) ip =
      if allow_private then ok tt else refuse_in guard.private ip

  unfoldable pub evaluate : SsrfGuard → IpAddr → Result (Unit {0})
  evaluate guard ip =
      if any (λ net. contains net ip) guard.allowed
      then ok tt
      else evaluate_mode guard guard.mode ip

  unfoldable pub check_ip : SsrfGuard → IpAddr → Result IpAddr
  check_ip guard raw =
      let canonical = canonicalise raw in
      if not guard.allow_ipv6 && is_ipv6 canonical
      then err (ProxyError.ssrf_blocked canonical)
      else elim (evaluate guard canonical) [ err e ↦ err e | ok _ ↦ ok canonical ]

  -- the body of the loop of `resolve`, on `admissible` and `last_violation`
  unfoldable pub visit :
      SsrfGuard
      → ℕ
      → IpAddr
      → List SocketAddr × Option ProxyError
      → List SocketAddr × Option ProxyError
  visit guard port canonical (admissible, last_violation) =
      if not guard.allow_ipv6 && is_ipv6 canonical
      then (admissible, last_violation)
      else elim (evaluate guard canonical) [
        | ok _ ↦ (admissible ++ (record { ip = canonical; port = port } ∷ []), last_violation)
        | err e ↦ (admissible, some e)
      ]

  -- the loop of `resolve`
  unfoldable pub collect :
      SsrfGuard
      → ℕ
      → List IpAddr
      → List SocketAddr × Option ProxyError
      → List SocketAddr × Option ProxyError
  collect guard port [] found = found
  collect guard port (raw ∷ lookup) found =
      collect guard port lookup (visit guard port (canonicalise raw) found)

  -- `resolve` after the loop
  unfoldable pub conclude : Text → List SocketAddr × Option ProxyError → Result (List SocketAddr)
  conclude host (admissible, last_violation) =
      if not (is_empty admissible) then ok admissible else elim last_violation [
        | some e ↦ err e
        | none ↦ err (ProxyError.dns host (codes "no usable address returned by resolver"))
      ]

  -- `resolve`: `parse_ip` is `str::parse::<IpAddr>`, and `lookup_ip` the DNS resolver, which answers
  -- with the text of an error or with addresses
  unfoldable pub resolve :
      (Text → Option IpAddr)
      → (Text → Text ⊎ List IpAddr)
      → SsrfGuard
      → Text
      → ℕ
      → Result (List SocketAddr)
  resolve parse_ip lookup_ip guard host port = elim (parse_ip host) [
    | some ip ↦ elim (check_ip guard ip) [
      | err e ↦ err e
      | ok canonical ↦ ok (record { ip = canonical; port = port } ∷ [])
    ]
    | none ↦ elim (lookup_ip host) [
      | inl source ↦ err (ProxyError.dns host source)
      | inr lookup ↦ conclude host (collect guard port lookup ([], none))
    ]
  ]
