-- ===== src/Server/RateLimit/Known.antt =====
-- The parameters of the rate limiter by concrete functions: lists of keys, and a governor that counts
-- tokens.
use corx.Error.{IpAddr}
use corx.Keys.{Keys}
use corx.Keys.Listed.{listed}
use corx.Prelude.{
  ℕ, ◌-◌, ◌≡◌, ◌↔◌, ap, Bool, true, false, inr, none, Text, text_eq, text_eq_iff, ltb, ◌==◌, arith,
}
use corx.Server.RateLimit.{Governor, Regexes}
use corx.Ssrf.{IpNets}

abbrev pub ip_eq : IpAddr → IpAddr → Bool
ip_eq (IpAddr.v4 a) (IpAddr.v4 b) = a == b
ip_eq (IpAddr.v6 a) (IpAddr.v6 b) = a == b
ip_eq _ _ = false

pub ip_eq_iff : (a b : IpAddr) → (ip_eq a b ≡ true) ↔ (a ≡ b)
ip_eq_iff (IpAddr.v4 a) (IpAddr.v4 b) = (λ h. ap IpAddr.v4 (ground arith), λ h. ground arith)
ip_eq_iff (IpAddr.v6 a) (IpAddr.v6 b) = (λ h. ap IpAddr.v6 (ground arith), λ h. ground arith)
ip_eq_iff (IpAddr.v4 a) (IpAddr.v6 b) = (λ h. cc, λ h. cc)
ip_eq_iff (IpAddr.v6 a) (IpAddr.v4 b) = (λ h. cc, λ h. cc)

abbrev pub texts : Keys Text
texts = listed text_eq text_eq_iff

abbrev pub ips : Keys IpAddr
ips = listed ip_eq ip_eq_iff

-- A limiter that has as many tokens as the burst, and never gets new ones.
abbrev pub governor : Governor
governor = record {
  Quota = ℕ;
  per_second = λ rps. rps;
  allow_burst = λ quota burst. burst;
  Keyed = λ K. ℕ;
  dashmap_with_clock = λ quota. quota;
  check_key = λ tokens key now. (ltb 0 tokens, tokens - 1);
  Direct = ℕ;
  direct_with_clock = λ quota. quota;
  check = λ tokens now. (ltb 0 tokens, tokens - 1);
}

-- patterns that match nothing
abbrev pub regexes : Regexes
regexes = record { RegexSet = Unit {0}; new = λ patterns. inr tt; is_match = λ set text. false }

abbrev pub everywhere : ℕ → IpAddr → Bool
everywhere net ip = true

abbrev pub nets : IpNets
nets = record { IpNet = ℕ; parse = λ t. none; contains = everywhere }
