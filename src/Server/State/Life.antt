-- ===== src/Server/State/Life.antt =====
-- The policies over the life of a server: it starts, serves requests and reloads, in any order.
use corx.Circuit.{CircuitBreaker, check, record_success, record_failure}
use corx.Config.Tree.{Config}
use corx.Prelude.{ℕ, ◌≡◌, ◌∙◌, ◌⊎◌, inl, inr, none, some, Text, arith, Sum-cases}
use corx.Server.Crates.{Crates}
use corx.Server.RateLimit.{RateContext, check as limiter_check}
use corx.Server.State.{LivePolicies, build_from}
use corx.Server.State.Current.{build_from-IsCurrent}
use corx.Server.State.Fits.{IsCurrent, spends}
use corx.Server.State.Frozen.{reload-Replaced, reload-keeps}
use corx.Server.State.Reload.{Frozen, reload}

module _ (crates : Crates) where
  open crates use {http, uris, hosts, texts, ips, governor, regexes, nets}

  -- The settings of a breaker, without its hosts.
  abbrev bare : CircuitBreaker hosts → CircuitBreaker hosts
  bare circuit = record circuit { hosts = hosts.empty }

  bare-check :
      (circuit : CircuitBreaker hosts) (host : Text) (now : ℕ)
      → bare (check hosts circuit host now).0 ≡ bare circuit
  unfolding check
  bare-check circuit host now = ground arith

  bare-success :
      (circuit : CircuitBreaker hosts) (host : Text)
      → bare (record_success hosts circuit host) ≡ bare circuit
  unfolding record_success
  bare-success circuit host = ground arith

  bare-failure :
      (circuit : CircuitBreaker hosts) (host : Text) (now : ℕ)
      → bare (record_failure hosts circuit host now) ≡ bare circuit
  unfolding record_failure
  bare-failure circuit host now = ground arith

  -- What happens to the policies: the start, a reload, whatever its outcome, and what requests do to
  -- the rate limiter and to the circuit breaker.
  pub data Life (handle : Frozen) : LivePolicies crates → Type 0 where
    starts :
        (config : Config nets) (policies : LivePolicies crates)
        → build_from crates config none ≡ inr policies
        → Life handle policies
    reloads :
        (policies : LivePolicies crates) (raw : Text ⊎ Config nets)
        → Life handle policies
        → Life handle (reload crates handle raw policies).1
    limits :
        (policies : LivePolicies crates) (ctx : RateContext) (now : ℕ)
        → Life handle policies
        → Life handle (record policies {
          rate_limiter =
              (limiter_check texts ips governor regexes nets ctx now policies.rate_limiter).1;
        })
    checks :
        (policies : LivePolicies crates) (host : Text) (now : ℕ)
        → Life handle policies
        → Life handle (record policies { circuit = (check hosts policies.circuit host now).0 })
    succeeds :
        (policies : LivePolicies crates) (host : Text)
        → Life handle policies
        → Life handle (record policies { circuit = record_success hosts policies.circuit host })
    fails :
        (policies : LivePolicies crates) (host : Text) (now : ℕ)
        → Life handle policies
        → Life handle (record policies { circuit = record_failure hosts policies.circuit host now })

  reload-IsCurrent :
      (handle : Frozen) (raw : Text ⊎ Config nets) (policies : LivePolicies crates)
      → IsCurrent crates policies
      → IsCurrent crates (reload crates handle raw policies).1
  reload-IsCurrent handle raw policies c = elim (Sum-cases (reload crates handle raw policies).0) [
    | inl (e, h) ↦ rw (reload-keeps crates handle raw policies e h) c
    | inr (_, h) ↦
        let (config, (_, (_, (_, built)))) = reload-Replaced crates handle raw policies h in
        (build_from-IsCurrent crates config (some policies) _ c built).1
  ]

  limited-IsCurrent :
      (policies : LivePolicies crates) (ctx : RateContext) (now : ℕ)
      → IsCurrent crates policies
      → IsCurrent crates (record policies {
        rate_limiter =
            (limiter_check texts ips governor regexes nets ctx now policies.rate_limiter).1;
      })
  limited-IsCurrent policies ctx now c =
      let (fresh, (built, spent)) = c.rate_limiter in
      record {
        cors = c.cors;
        request_filter = c.request_filter;
        response_filter = c.response_filter;
        origin = c.origin;
        target_policy = c.target_policy;
        rate_limiter = (fresh, (built, spends policies.rate_limiter ctx now spent));
        circuit = c.circuit;
        client = c.client;
      }

  broken-IsCurrent :
      (policies : LivePolicies crates) (circuit : CircuitBreaker hosts)
      → bare circuit ≡ bare policies.circuit
      → IsCurrent crates policies
      → IsCurrent crates (record policies { circuit = circuit })
  broken-IsCurrent policies circuit same c = record {
    cors = c.cors;
    request_filter = c.request_filter;
    response_filter = c.response_filter;
    origin = c.origin;
    target_policy = c.target_policy;
    rate_limiter = c.rate_limiter;
    circuit = same ∙ c.circuit;
    client = c.client;
  }

  -- Whenever a server starts, serves requests and reloads, in any order and with whatever outcomes,
  -- every policy is the one of the configuration that is in force: the filters, the lists, the target
  -- policy, the address guard, and the settings of the HTTP client and of the breaker; the rate limiter
  -- is the one that this configuration builds, quotas included, after some requests.
  pub Life-IsCurrent :
      (handle : Frozen) {policies : LivePolicies crates}
      → Life handle policies
      → IsCurrent crates policies
  Life-IsCurrent handle (starts config policies h) =
      (build_from-IsCurrent crates config none policies tt h).1
  Life-IsCurrent handle (reloads before raw life) =
      reload-IsCurrent handle raw before (Life-IsCurrent handle life)
  Life-IsCurrent handle (limits before ctx now life) =
      limited-IsCurrent before ctx now (Life-IsCurrent handle life)
  Life-IsCurrent handle (checks before host now life) =
      broken-IsCurrent before _ (bare-check before.circuit host now) (Life-IsCurrent handle life)
  Life-IsCurrent handle (succeeds before host life) =
      broken-IsCurrent before _ (bare-success before.circuit host) (Life-IsCurrent handle life)
  Life-IsCurrent handle (fails before host now life) =
      broken-IsCurrent before _ (bare-failure before.circuit host now) (Life-IsCurrent handle life)
