-- ===== src/Server/Guards/Passed.antt =====
-- What a request has passed when the handler forwards it.
use corx.Error.{IpAddr, Result, ok, err, ok-injective}
use corx.Parser.Target.{extract_target}
use corx.Prelude.{ℕ, ◌≡◌, ◌↔◌, refl, ap, sym, some}
use corx.Server.Crates.{Crates}
use corx.Server.Guards.{
  Policies, Target, Inbound, check_origin, check_rate, rated, target_rate, admit_target,
  admit_origin, admit_request,
}
use corx.Server.State.Fits.{Limiter}
use corx.Target.{check_authority}

module _ (crates : Crates) where
  open crates use {uris, urls}

  -- The origin guard, the parser of the target, the target policy and the rate limiter each let the
  -- request through.
  abbrev pub Passed : Policies crates → Inbound crates → IpAddr → ℕ → Target crates → Type 0
  Passed policies request client_ip now target =
      (check_origin crates policies request ≡ ok tt)
      × ((extract_target uris urls request.uri ≡ ok target)
          × ((check_authority policies.target_policy (urls.scheme target.url) target.host ≡ ok tt)
              × ((check_rate crates policies request client_ip (some target.host) now).0 ≡ ok tt)))

  rated_iff :
      (result : Result (Unit {0}) × Limiter crates) (found target : Target crates)
      → ((rated crates result found).0 ≡ ok target) ↔ ((found ≡ target) × (result.0 ≡ ok tt))
  unfolding rated
  rated_iff (err e, limiter) found target = (λ h. cc, λ h. cc)
  rated_iff (ok _, limiter) found target =
      (λ h. (ok-injective h, refl), λ h. ap (λ t. Result.ok t) h.0)

  rate_iff :
      (policies : Policies crates) (request : Inbound crates) (client_ip : IpAddr) (now : ℕ)
      (verdict : Result (Unit {0})) (found target : Target crates)
      → ((target_rate crates verdict found policies request client_ip now).0 ≡ ok target) ↔ (
          (found ≡ target)
          × ((verdict ≡ ok tt)
              × ((check_rate crates policies request client_ip (some found.host) now).0 ≡ ok tt)))
  unfolding target_rate
  rate_iff policies request client_ip now (err e) found target = (λ h. cc, λ h. cc)
  rate_iff policies request client_ip now (ok _) found target =
      let (to, from) =
        rated_iff (check_rate crates policies request client_ip (some found.host) now) found
          target in
      (λ h. let (same, rate) = to h in (same, (refl, rate)), λ h. from (h.0, h.1.1))

  target_iff :
      (policies : Policies crates) (request : Inbound crates) (client_ip : IpAddr) (now : ℕ)
      (extracted : Result (Target crates)) (target : Target crates)
      → ((admit_target crates extracted policies request client_ip now).0 ≡ ok target) ↔ (
          (extracted ≡ ok target)
          × ((check_authority policies.target_policy (urls.scheme target.url) target.host ≡ ok tt)
              × ((check_rate crates policies request client_ip (some target.host) now).0 ≡ ok tt)))
  unfolding admit_target
  target_iff policies request client_ip now (err e) target = (λ h. cc, λ h. cc)
  target_iff policies request client_ip now (ok found) target =
      let (to, from) = rate_iff policies request client_ip now _ found target in
      (
        λ h.
            let (same, (verdict, rate)) = to h in
            (ap (λ t. Result.ok t) same, rw (sym same) (verdict, rate)),
        λ h. let same = ok-injective h.0 in from (same, rw same h.1),
      )

  origin_iff :
      (policies : Policies crates) (request : Inbound crates) (client_ip : IpAddr) (now : ℕ)
      (verdict : Result (Unit {0})) (target : Target crates)
      → ((admit_origin crates verdict policies request client_ip now).0 ≡ ok target) ↔ (
          (verdict ≡ ok tt)
          × ((extract_target uris urls request.uri ≡ ok target)
              × ((check_authority policies.target_policy (urls.scheme target.url) target.host
                    ≡ ok tt)
                  × ((check_rate crates policies request client_ip (some target.host) now).0
                      ≡ ok tt))))
  unfolding admit_origin
  origin_iff policies request client_ip now (err e) target = (λ h. cc, λ h. cc)
  origin_iff policies request client_ip now (ok _) target =
      let (to, from) =
        target_iff policies request client_ip now (extract_target uris urls request.uri) target in
      (λ h. (refl, to h), λ h. from h.1)

  -- The guards of a request that is no preflight end with a target exactly when the origin guard lets
  -- it through, the target is the one that its address names, the target policy admits that target,
  -- and the rate limiter lets the request through.
  pub admit_request-Passed_iff :
      (policies : Policies crates) (request : Inbound crates) (client_ip : IpAddr) (now : ℕ)
      (target : Target crates)
      → ((admit_request crates policies request client_ip now).0 ≡ ok target)
        ↔ Passed policies request client_ip now target
  unfolding admit_request
  admit_request-Passed_iff policies request client_ip now target =
      origin_iff policies request client_ip now (check_origin crates policies request) target
