-- ===== src/Upstream/Origin.antt =====
-- What a run carries to hosts other than the first.
use mathlib.Core.Path.{subst}
use corx.Circuit.{HostCircuit, CircuitBreaker, CircuitHop}
use corx.Config.Limits.{RedirectPolicy, follow, rewrite, block}
use corx.Error.{Result, ok, err}
use corx.Http.{Http}
use corx.Prelude.{
  ℕ, leb, suc, ◌≡◌, refl, ap, ◌∙◌, Bool, true, false, not, ◌⊎◌, inl, inr, Option, none, some, [],
  String, Text, eq_ignore_ascii_case_trans, All, All-append, Bool-cases, arith, if◌then◌else◌, ◌&&◌,
}
use corx.Redirect.{
  RedirectState, Request, NextHop, continue, stop, from_initial, body_bearing, authorities_differ,
  authority_differs, is_redirect,
}
use corx.Redirect.Credentials.{is_private}
use corx.Redirect.Transition.{has_safe_scheme, IsSafeHop, IsOutcome, prepare_next-IsOutcome}
use corx.Table.{Table}
use corx.Upstream.{
  Response, Environment, Upstream, Event, sent, settled, refused, Turn, returned, again, next_turn,
  redirected, answered, dispatch, succeeded, failed, settle_terminal, is_server_error, Run, execute,
}
use corx.Upstream.Turns.{take_turn-cases, IsGood, turns-good}
use corx.Uris.{Uris}

authorities_differ_trans :
    (x y z : Option Text)
    → authorities_differ x y ≡ false
    → authorities_differ y z ≡ false
    → authorities_differ x z ≡ false
unfolding authorities_differ
authorities_differ_trans none y z p q = cc
authorities_differ_trans (some x) none z p q = cc
authorities_differ_trans (some x) (some y) none p q = cc
authorities_differ_trans (some x) (some y) (some z) p q =
    ground (arith, eq_ignore_ascii_case_trans x y z)

module _ (table : Table HostCircuit) (http : Http) (uris : Uris) where
  open http use {values}

  -- The request has no credentials and no host header.
  abbrev pub IsClean : Request http uris → Type 0
  IsClean r = (n : String) → is_private n ≡ true → values r.headers n ≡ []

  -- The request is the first of the run; or it goes to an http or https URI, has a method without a
  -- body, and goes to the authority of the first request or carries no credentials.
  unfoldable pub Carries : Request http uris → Request http uris → Type 0
  Carries first r =
      (r ≡ first)
      ⊎ ((has_safe_scheme http uris r.uri ≡ true)
          × (body_bearing r.method ≡ false)
          × ((authority_differs http uris first.uri r.uri ≡ false) ⊎ IsClean r))

  unfoldable pub EventCarries : Request http uris → Event table http uris → Type 0
  EventCarries first (sent r) = Carries first r
  EventCarries first (settled host good) = Unit {0}
  EventCarries first (refused host) = Unit {0}

  -- The state of the loop belongs to the request that is sent next.
  record Belongs (first : Request http uris) (state : RedirectState http uris)
      (r : Request http uris) : Type 0 where
    same_uri : state.uri ≡ r.uri
    same_headers : state.headers ≡ r.headers
    carries : Carries first r

  stays :
      (first r r' : Request http uris) (state state' : RedirectState http uris) (allow : Bool)
      → Belongs first state r
      → IsSafeHop http uris allow state state' r'
      → authority_differs http uris state.uri r'.uri ≡ false
      → Carries first r
      → (authority_differs http uris first.uri r'.uri ≡ false) ⊎ IsClean r'
  unfolding Carries authorities_differ authority_differs
  stays first r r' state state' allow b hop near (inl same) = inl (
      subst (λ u. authority_differs http uris u r'.uri ≡ false)
        (b.same_uri ∙ ap (λ (q : Request http uris). q.uri) same) near)
  stays first r r' state state' allow b hop near (inr (_, _, inl home)) = inl (
      authorities_differ_trans (uris.authority first.uri) (uris.authority r.uri)
        (uris.authority r'.uri) home
        (subst (λ u. authority_differs http uris u r'.uri ≡ false) b.same_uri near))
  stays first r r' state state' allow b hop near (inr (_, _, inr clean)) = inr (λ n private.
      ground (arith, hop.headers_lem n, ap (λ m. values m n) b.same_headers, clean n private))

  step-Belongs :
      (first r r' : Request http uris) (state state' : RedirectState http uris) (allow : Bool)
      → Belongs first state r
      → IsSafeHop http uris allow state state' r'
      → Belongs first state' r'
  unfolding Carries
  step-Belongs first r r' state state' allow b hop = record {
    same_uri = hop.same_uri;
    same_headers = hop.same_headers;
    carries = inr (
      hop.safe_scheme,
      hop.no_replay,
      elim (Bool-cases (authority_differs http uris state.uri r'.uri)) [
        | inl far ↦ inr (λ n private. ground (arith, hop.headers_lem n))
        | inr near ↦ stays first r r' state state' allow b hop near b.carries
      ],
    );
  }

  if_intro {ℓ κ} :
      {A : Type ℓ} (P : A → Type κ) (b : Bool) {x y : A} → P x → P y → P (if b then x else y)
  if_intro P true p q = p
  if_intro P false p q = q

  -- A turn that goes on makes a safe hop.
  GoesOn : Bool → RedirectState http uris → Turn table http uris → Type 0
  GoesOn allow state (returned answer) = Unit {0}
  GoesOn allow state (again state' r) = IsSafeHop http uris allow state state' r

  next_turn-GoesOn :
      (allow : Bool) (state : RedirectState http uris) (response : Response table http uris)
      (outcome : RedirectState http uris × Result (NextHop http uris))
      → IsOutcome http uris allow state outcome
      → GoesOn allow state (next_turn table http uris response outcome)
  unfolding next_turn GoesOn IsOutcome
  next_turn-GoesOn allow state response (state', err e) o = tt
  next_turn-GoesOn allow state response (state', ok (continue r)) o = o
  next_turn-GoesOn allow state response (state', ok (stop reason)) o = tt

  module _ (env : Environment table http uris) (upstream : Upstream table http uris) where
    abbrev allowed : Bool
    allowed = upstream.config.allow_https_to_http_downgrade

    redirected-GoesOn :
        (policy : RedirectPolicy) (hops : ℕ) (state : RedirectState http uris)
        (response : Response table http uris) (circuit : CircuitBreaker table) (hop : CircuitHop)
        (now : ℕ)
        → GoesOn allowed state
            (redirected table http uris upstream policy hops state response circuit hop now).1
    unfolding redirected GoesOn
    redirected-GoesOn block hops state response circuit hop now = tt
    redirected-GoesOn rewrite hops state response circuit hop now = tt
    redirected-GoesOn follow hops state response circuit hop now =
        if_intro
          (λ (r : (CircuitBreaker table × Event table http uris) × Turn table http uris).
            GoesOn allowed state r.1)
          (leb upstream.config.max_redirects hops) tt
          (next_turn-GoesOn allowed state response _
            (prepare_next-IsOutcome http uris state response.status response.headers allowed))

    answered-GoesOn :
        (circuit : CircuitBreaker table) (hops : ℕ) (state : RedirectState http uris)
        (found : Text ⊎ Response table http uris) (hop : CircuitHop) (now : ℕ)
        → GoesOn allowed state
            (answered table http uris upstream circuit hops state found hop now).1
    unfolding answered GoesOn
    answered-GoesOn circuit hops state (inl message) hop now = tt
    answered-GoesOn circuit hops state (inr response) hop now =
        if_intro
          (λ (r : (CircuitBreaker table × Event table http uris) × Turn table http uris).
            GoesOn allowed state r.1)
          (not (is_redirect response.status)) tt
          (redirected-GoesOn upstream.config.redirect_policy hops state response circuit hop now)

    redirected-carries :
        (first : Request http uris) (policy : RedirectPolicy) (hops : ℕ)
        (state : RedirectState http uris) (response : Response table http uris)
        (circuit : CircuitBreaker table) (hop : CircuitHop) (now : ℕ)
        → EventCarries first
            (redirected table http uris upstream policy hops state response circuit hop now).0.1
    unfolding redirected EventCarries succeeded failed
    redirected-carries first block hops state response circuit hop now = tt
    redirected-carries first rewrite hops state response circuit hop now = tt
    redirected-carries first follow hops state response circuit hop now =
        if_intro
          (λ (r : (CircuitBreaker table × Event table http uris) × Turn table http uris).
            EventCarries first r.0.1)
          (leb upstream.config.max_redirects hops) tt tt

    answered-carries :
        (first : Request http uris) (circuit : CircuitBreaker table) (hops : ℕ)
        (state : RedirectState http uris) (found : Text ⊎ Response table http uris)
        (hop : CircuitHop) (now : ℕ)
        → EventCarries first
            (answered table http uris upstream circuit hops state found hop now).0.1
    unfolding answered EventCarries settle_terminal succeeded failed
    answered-carries first circuit hops state (inl message) hop now = tt
    answered-carries first circuit hops state (inr response) hop now =
        if_intro
          (λ (r : (CircuitBreaker table × Event table http uris) × Turn table http uris).
            EventCarries first r.0.1)
          (not (is_redirect response.status))
          (if_intro (λ (r : CircuitBreaker table × Event table http uris). EventCarries first r.1)
            (circuit.count_5xx && is_server_error response.status) tt tt)
          (redirected-carries first upstream.config.redirect_policy hops state response circuit hop
            now)

    dispatch-IsGood :
        (first : Request http uris) (hops : ℕ) (state : RedirectState http uris)
        (r : Request http uris)
        → Belongs first state r
        → (admission : CircuitBreaker table × Result CircuitHop)
        → IsGood table http uris env upstream
            (All (EventCarries first))
            (All-append (EventCarries first))
            (Belongs first)
            (dispatch table http uris env upstream hops state r admission)
    unfolding dispatch EventCarries GoesOn
    dispatch-IsGood first hops state r b (cb, err e) = record {
      good = (tt, tt);
      kept = λ s q g. absurd cc;
    }
    dispatch-IsGood first hops state r b (cb, ok hop) = record {
      good = (
        b.carries,
        (
          answered-carries first (env.others hops cb) hops state (env.client hops r) hop
              (env.settled_at hops),
          tt,
        ),
      );
      kept = λ s q g. step-Belongs first r q state s allowed b (
          subst (GoesOn allowed state) g (
            answered-GoesOn (env.others hops cb) hops state (env.client hops r) hop
              (env.settled_at hops)));
    }

    -- Every request that a run sends is the first one, or goes to an http or https URI with a method
    -- that has no body, and to the authority of the first request or without any of the credentials
    -- and without a host header.
    pub execute-Carries :
        (request : Request http uris) (circuit : CircuitBreaker table) (run : Run table http uris)
        → execute table http uris env upstream request circuit ≡ some run
        → All (EventCarries request) run.log
    unfolding execute from_initial Carries
    execute-Carries request circuit run e =
        turns-good table http uris env upstream (All (EventCarries request))
          (All-append (EventCarries request)) (Belongs request)
          (λ hops state r c b.
            take_turn-cases table http uris env upstream
              (IsGood table http uris env upstream (All (EventCarries request))
                (All-append (EventCarries request)) (Belongs request))
              hops state r c (λ f. record { good = tt; kept = λ s q g. absurd cc })
              (λ _ admission _. dispatch-IsGood request hops state r b admission))
          (suc upstream.config.max_redirects) 0
          (from_initial http uris request.method request.uri request.headers) request circuit run
          (record { same_uri = refl; same_headers = refl; carries = inl refl }) e
