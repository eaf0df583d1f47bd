-- ===== src/Target/Tests.antt =====
-- The target policy at a concrete configuration.
use corx.Error.{ok}
use corx.Prelude.{
  ◌≡◌, refl, ◌↔◌, true, [], ◌∷◌, codes, to_ascii_lowercase, text_eq, trim, ends_with,
}
use corx.Target.{allowlist, TargetPolicy, from_config, host_matches, check_authority, check_mode}
use corx.Target.Admission.{admits, check_authority-admits_iff}

abbrev policy : TargetPolicy
policy = from_config (record {
  mode = allowlist;
  hosts = codes " .Example.com " ∷ [];
  schemes = [];
  https_only = true;
})

-- A subdomain is let through.
subdomain : check_authority policy (codes "HTTPS") (codes "API.example.com") ≡ ok tt
unfolding from_config check_authority check_mode host_matches text_eq ends_with to_ascii_lowercase
    trim
subdomain = refl

check_authority-admits_iff_example :
    (check_authority policy (codes "HTTPS") (codes "API.example.com") ≡ ok tt) ↔ (
      admits policy
        (to_ascii_lowercase (codes "HTTPS"))
        (to_ascii_lowercase (codes "API.example.com"))
      ≡ true)
check_authority-admits_iff_example =
    check_authority-admits_iff policy (codes "HTTPS") (codes "API.example.com")
