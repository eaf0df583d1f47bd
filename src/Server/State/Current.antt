-- ===== src/Server/State/Current.antt =====
-- The policies fit their configuration, also those that a reload keeps from an earlier one.
use mathlib.Core.Path.{subst}
use corx.Config.Tree.{Config}
use corx.Cors.{from_config as cors_from_config}
use corx.Headers.{HeaderFilter, try_new}
use corx.Prelude.{
  ◌≡◌, refl, inl, inr, Option, some, List, String, Text, arith, Option-cases, Sum-cases,
}
use corx.Server.Crates.{Crates}
use corx.Server.State.{
  origin_from_config, Client, LivePolicies, filter_of, rate_limiter_of, circuit_of, client_of,
  build_from,
}
use corx.Target.{from_config as target_from_config}
use corx.Server.State.Fits.{
  inr-injective, Limiter, LimiterFits, ClientFits, IsCurrent, AreCurrent, rate_limiter_of-fits,
  circuit_of-fits, client_of-fits,
}

module _ (crates : Crates) where
  open crates use {http, uris, hosts, texts, ips, governor, regexes, nets}

  filter_of-parsed :
      (message : String) (names : List Text) (filter : HeaderFilter)
      → filter_of crates message names ≡ inr filter
      → try_new http names ≡ some filter
  unfolding filter_of
  filter_of-parsed message names filter h = elim (Option-cases (try_new http names)) [
    | inl e ↦ ground (arith, h, e)
    | inr (parsed, e) ↦ let kept = inr-injective (rw (filter_of, e) at h) in rw (e, kept) refl
  ]

  -- the last expression of `build_from`
  abbrev assembled :
      Config nets
      → Option (LivePolicies crates)
      → HeaderFilter
      → HeaderFilter
      → Limiter crates
      → Client crates
      → LivePolicies crates
  assembled config previous request_filter response_filter limiter client = record {
    config = config;
    cors = cors_from_config http config.cors;
    request_filter = request_filter;
    response_filter = response_filter;
    origin = origin_from_config crates config.security;
    rate_limiter = limiter;
    target_policy = target_from_config config.target;
    circuit = circuit_of crates config previous;
    client = client;
  }

  assembled-IsCurrent :
      (config : Config nets) (previous : Option (LivePolicies crates))
      (policies : LivePolicies crates) (request_filter response_filter : HeaderFilter)
      (limiter : Limiter crates) (client : Client crates)
      → AreCurrent crates previous
      → try_new http config.security.remove_request_headers ≡ some request_filter
      → try_new http config.security.remove_response_headers ≡ some response_filter
      → LimiterFits crates config.rate_limit limiter
      → ClientFits crates config client
      → assembled config previous request_filter response_filter limiter client ≡ policies
      → (policies.config ≡ config) × IsCurrent crates policies
  assembled-IsCurrent config previous policies rf sf limiter client c hrf hsf hl hc e =
      subst (λ p. (p.config ≡ config) × IsCurrent crates p) e
        (
          refl,
          record {
            cors = refl;
            request_filter = hrf;
            response_filter = hsf;
            origin = refl;
            target_policy = refl;
            rate_limiter = hl;
            circuit = circuit_of-fits crates config previous c;
            client = hc;
          },
        )

  -- Policies that are built are those of their configuration, with or without a reload: what a reload
  -- keeps of the policies before it (the rate limiter, the circuit breaker, the HTTP client with its
  -- target policy and its address guard) is what the new configuration asks for.
  pub build_from-IsCurrent :
      (config : Config nets) (previous : Option (LivePolicies crates))
      (policies : LivePolicies crates)
      → AreCurrent crates previous
      → build_from crates config previous ≡ inr policies
      → (policies.config ≡ config) × IsCurrent crates policies
  unfolding build_from
  build_from-IsCurrent config previous policies c h =
      let request = config.security.remove_request_headers in
      let response = config.security.remove_response_headers in
      elim (Sum-cases (filter_of crates "security.remove_request_headers" request)) [
        | inl (_, e1) ↦ ground (arith, h, e1)
        | inr (request_filter, e1) ↦
            let h1 = rw (build_from, e1) at h in
            elim (Sum-cases (filter_of crates "security.remove_response_headers" response)) [
              | inl (_, e2) ↦ ground (arith, h1, e2)
              | inr (response_filter, e2) ↦
                  let h2 = rw e2 at h1 in
                  elim (Sum-cases (rate_limiter_of crates config previous)) [
                    | inl (_, e3) ↦ ground (arith, h2, e3)
                    | inr (limiter, e3) ↦
                        let h3 = rw e3 at h2 in
                        let target = target_from_config config.target in
                        elim (Sum-cases (client_of crates config target previous)) [
                          | inl (_, e4) ↦ ground (arith, h3, e4)
                          | inr (client, e4) ↦
                              assembled-IsCurrent config previous policies request_filter
                                response_filter limiter client c
                                (filter_of-parsed _ request request_filter e1)
                                (filter_of-parsed _ response response_filter e2)
                                (rate_limiter_of-fits crates config previous limiter c e3)
                                (client_of-fits crates config previous client c e4)
                                (inr-injective (rw e4 at h3))
                        ]
                  ]
            ]
      ]
