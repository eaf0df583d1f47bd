-- ===== src/Server/State/Frozen.antt =====
-- What a reload may change, and what a failed one leaves.
use corx.Config.Equality.{address_equal, tls_equal}
use corx.Config.Listener.{TlsConfig}
use corx.Config.Tree.{Config}
use corx.Config.Validate.{ConfigError, validate}
use corx.Equality.{nat_equal, bool_equal, text_equal}
use corx.Prelude.{
  sym, Sum-cases, ◌≡◌, ◌↔◌, refl, ap, Bool, true, false, not, ◌⊎◌, inl, inr, Option, none, some,
  List, [], ◌∷◌, Text, arith,
}
use corx.Server.Crates.{Crates}
use corx.Server.State.{LivePolicies, build_from}
use corx.Server.State.Reload.{
  ReloadError, tls_eq, bail_if, Frozen, assert_immutable, accepted, load, installed, reload_checked,
  reload_loaded, reload,
}

inr-injective : {A B : Type 0} {a b : B} → ◌≡◌ {A = A ⊎ B} (inr a) (inr b) → a ≡ b
inr-injective e = cc

some_inj : {A : Type 0} {a b : A} → Option.some a ≡ some b → a ≡ b
some_inj e = cc

bool_distinct : false ≡ true → ⊥
bool_distinct e = cc

tls_eq_iff : (a b : Option TlsConfig) → (tls_eq a b ≡ true) ↔ (a ≡ b)
unfolding tls_eq
tls_eq_iff none none = (λ h. refl, λ h. refl)
tls_eq_iff none (some y) = (λ h. cc, λ h. cc)
tls_eq_iff (some x) none = (λ h. cc, λ h. cc)
tls_eq_iff (some x) (some y) =
    let (to, from) = tls_equal.eq_iff x y in (λ h. ap some (to h), λ h. from (some_inj h))

bail_if_iff :
    {P Q : Type 0} (test : Bool) (message : Text) (rest : ReloadError ⊎ Unit {0})
    → (test ≡ true) ↔ P
    → (rest ≡ inr tt) ↔ Q
    → (bail_if (not test) message rest ≡ inr tt) ↔ (P × Q)
unfolding bail_if
bail_if_iff true message rest p q = (λ h. (p.0 refl, q.0 h), λ h. q.1 h.1)
bail_if_iff false message rest p q = (λ h. cc, λ h. absurd (bool_distinct (p.1 h.0)))

module _ (crates : Crates) where
  open crates use {nets}

  -- The settings that are fixed when the server starts.
  abbrev pub Matches : Frozen → Config nets → Type 0
  Matches handle config =
      (config.server.bind ≡ handle.immutable_server.bind)
      × ((config.server.http2 ≡ handle.immutable_server.http2)
          × ((config.server.tls ≡ handle.immutable_server.tls)
              × ((config.limits.max_request_body_bytes ≡ handle.immutable_max_body_bytes)
                  × ((config.limits.max_request_header_bytes
                        ≡ handle.immutable_max_request_header_bytes)
                      × ((config.limits.request_timeout ≡ handle.immutable_request_timeout)
                          × ((config.limits.inflight_max ≡ handle.immutable_inflight_max)
                              × ((config.limits.max_response_body_bytes
                                    ≡ handle.immutable_max_response_body_bytes)
                                  × ((config.observability.metrics_endpoint
                                        ≡ handle.immutable_metrics_endpoint)
                                      × Unit {0}))))))))

  -- A configuration passes exactly when it changes none of the settings that are fixed at the start:
  -- the address, HTTP/2 and TLS of the listener, the limits on bodies, headers, time and requests in
  -- flight, and the path of the metrics.
  pub assert_immutable-Matches_iff :
      (handle : Frozen) (config : Config nets)
      → (assert_immutable crates handle config ≡ inr tt) ↔ Matches handle config
  unfolding assert_immutable
  assert_immutable-Matches_iff handle config = bail_if_iff _ _ _ (address_equal.eq_iff _ _) (
      bail_if_iff _ _ _ (bool_equal.eq_iff _ _) (
        bail_if_iff _ _ _ (tls_eq_iff _ _) (
          bail_if_iff _ _ _ (nat_equal.eq_iff _ _) (
            bail_if_iff _ _ _ (nat_equal.eq_iff _ _) (
              bail_if_iff _ _ _ (nat_equal.eq_iff _ _) (
                bail_if_iff _ _ _ (nat_equal.eq_iff _ _) (
                  bail_if_iff _ _ _ (nat_equal.eq_iff _ _)
                    (bail_if_iff _ _ _ (text_equal.eq_iff _ _) (λ h. tt, λ h. refl)))))))))

  -- What a reload that succeeded has done: it read a configuration that the checks accept and that
  -- keeps the fixed settings, and built the new policies from it and from the old ones.
  abbrev pub Replaced :
      Frozen → Text ⊎ Config nets → LivePolicies crates → LivePolicies crates → Type 0
  Replaced handle raw policies policies' =
      (config : Config nets) × ((raw ≡ inr config)
        × ((validate nets crates.is_file config ≡ inr tt)
            × (Matches handle config × (build_from crates config (some policies) ≡ inr policies'))))

  accepted-empty :
      (errors : List ConfigError) (config c : Config nets)
      → accepted crates errors config ≡ inr c
      → (errors ≡ []) × (config ≡ c)
  unfolding accepted
  accepted-empty [] config c h = (refl, inr-injective h)
  accepted-empty (first ∷ others) config c h = cc

  load-valid :
      (raw : Text ⊎ Config nets) (config : Config nets)
      → load crates raw ≡ inr config
      → (raw ≡ inr config) × (validate nets crates.is_file config ≡ inr tt)
  unfolding load validate
  load-valid (inl message) config h = cc
  load-valid (inr read) config h =
      let (none_found, same) = accepted-empty _ read config h in
      (ap inr same, rw (sym same) (rw (validate, none_found) refl))

  installed-built :
      (built : Text ⊎ LivePolicies crates) (policies : LivePolicies crates)
      → (installed crates built policies).0 ≡ inr tt
      → built ≡ inr (installed crates built policies).1
  unfolding installed
  installed-built (inl message) policies h = cc
  installed-built (inr built) policies h = refl

  checked-built :
      (verdict : ReloadError ⊎ Unit {0}) (config : Config nets) (policies : LivePolicies crates)
      → (reload_checked crates verdict config policies).0 ≡ inr tt
      → (verdict ≡ inr tt)
        × (build_from crates config (some policies)
            ≡ inr (reload_checked crates verdict config policies).1)
  unfolding reload_checked
  checked-built (inl e) config policies h = cc
  checked-built (inr _) config policies h = (refl, installed-built _ policies h)

  loaded-Replaced :
      (loaded : ReloadError ⊎ Config nets) (handle : Frozen) (raw : Text ⊎ Config nets)
      (policies : LivePolicies crates)
      → load crates raw ≡ loaded
      → (reload_loaded crates loaded handle policies).0 ≡ inr tt
      → Replaced handle raw policies (reload_loaded crates loaded handle policies).1
  unfolding reload_loaded
  loaded-Replaced (inl e) handle raw policies l h = cc
  loaded-Replaced (inr config) handle raw policies l h =
      let (read, valid) = load-valid raw config l in
      let (frozen, built) =
        checked-built (assert_immutable crates handle config) config policies h in
      (config, (read, (valid, ((assert_immutable-Matches_iff handle config).0 frozen, built))))

  -- A reload that succeeds has read a configuration that the checks accept and that keeps the
  -- settings that are fixed at the start, and the new policies are built from it and the old ones.
  pub reload-Replaced :
      (handle : Frozen) (raw : Text ⊎ Config nets) (policies : LivePolicies crates)
      → (reload crates handle raw policies).0 ≡ inr tt
      → Replaced handle raw policies (reload crates handle raw policies).1
  unfolding reload
  reload-Replaced handle raw policies h =
      loaded-Replaced (load crates raw) handle raw policies refl h

  checked-keeps :
      (verdict : ReloadError ⊎ Unit {0}) (config : Config nets) (policies : LivePolicies crates)
      (e : ReloadError)
      → (reload_checked crates verdict config policies).0 ≡ inl e
      → (reload_checked crates verdict config policies).1 ≡ policies
  unfolding reload_checked installed
  checked-keeps (inl f) config policies e h = refl
  checked-keeps (inr _) config policies e h =
      elim (Sum-cases (build_from crates config (some policies))) [
        | inl (message, b) ↦ ground (arith, b)
        | inr (built, b) ↦ ground (arith, b)
      ]

  loaded-keeps :
      (loaded : ReloadError ⊎ Config nets) (handle : Frozen) (policies : LivePolicies crates)
      (e : ReloadError)
      → (reload_loaded crates loaded handle policies).0 ≡ inl e
      → (reload_loaded crates loaded handle policies).1 ≡ policies
  unfolding reload_loaded
  loaded-keeps (inl f) handle policies e h = refl
  loaded-keeps (inr config) handle policies e h =
      checked-keeps (assert_immutable crates handle config) config policies e h

  -- A reload that fails, for whatever reason, leaves the policies as they were.
  pub reload-keeps :
      (handle : Frozen) (raw : Text ⊎ Config nets) (policies : LivePolicies crates)
      (e : ReloadError)
      → (reload crates handle raw policies).0 ≡ inl e
      → (reload crates handle raw policies).1 ≡ policies
  unfolding reload
  reload-keeps handle raw policies e h = loaded-keeps (load crates raw) handle policies e h
