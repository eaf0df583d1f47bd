-- ===== src/Upstream/Total.antt =====
-- The redirect loop ends within its budget.
use Prim.Native.Nat.{min}
use corx.Circuit.{HostCircuit, CircuitBreaker, CircuitHop}
use corx.Config.Limits.{RedirectPolicy, follow, rewrite, block}
use corx.Error.{Result, ok, err}
use corx.Http.{Http}
use corx.Prelude.{
  ℕ, zero, suc, ◌+◌, ◌≤◌, ◌≡◌, refl, Bool, true, false, ◌⊎◌, inl, inr, Option, none, some, List, [],
  ◌∷◌, ◌++◌, arith, Text,
}
use corx.Redirect.{RedirectState, Request, from_initial}
use corx.Table.{Table}
use corx.Upstream.{
  Response, Environment, Upstream, Event, sent, settled, refused, Turn, returned, again, redirected,
  answered, dispatch, succeeded, failed, settle_terminal, take_turn, Run, with_log, turns, execute,
}
use corx.Upstream.Turns.{Outcome, take_turn-cases}
use corx.Uris.{Uris}

module _ (table : Table HostCircuit) (http : Http) (uris : Uris) where
  unfoldable pub sent_count : List (Event table http uris) → ℕ
  sent_count [] = 0
  sent_count (sent request ∷ log) = sent_count log + 1
  sent_count (settled host good ∷ log) = sent_count log
  sent_count (refused host ∷ log) = sent_count log

  -- The turn ends the run.
  abbrev is_returned : Turn table http uris → Bool
  is_returned (returned answer) = true
  is_returned (again state request) = false

  module _ (env : Environment table http uris) (upstream : Upstream table http uris) where
    redirected-returned :
        (policy : RedirectPolicy) (hops : ℕ) (state : RedirectState http uris)
        (response : Response table http uris) (circuit : CircuitBreaker table) (hop : CircuitHop)
        (now : ℕ)
        → upstream.config.max_redirects ≤ hops
        → is_returned
            (redirected table http uris upstream policy hops state response circuit hop now).1
          ≡ true
    unfolding redirected
    redirected-returned block hops state response circuit hop now h = refl
    redirected-returned rewrite hops state response circuit hop now h = refl
    redirected-returned follow hops state response circuit hop now h = ground arith

    answered-returned :
        (circuit : CircuitBreaker table) (hops : ℕ) (state : RedirectState http uris)
        (found : Text ⊎ Response table http uris) (hop : CircuitHop) (now : ℕ)
        → upstream.config.max_redirects ≤ hops
        → is_returned (answered table http uris upstream circuit hops state found hop now).1 ≡ true
    unfolding answered
    answered-returned circuit hops state (inl message) hop now h = refl
    answered-returned circuit hops state (inr response) hop now h = ground (
      arith,
      redirected-returned upstream.config.redirect_policy hops state response circuit hop now h,
    )

    dispatch-returned :
        (hops : ℕ) (state : RedirectState http uris) (request : Request http uris)
        (admission : CircuitBreaker table × Result CircuitHop)
        → upstream.config.max_redirects ≤ hops
        → is_returned (dispatch table http uris env upstream hops state request admission).1.1
          ≡ true
    unfolding dispatch
    dispatch-returned hops state request (circuit, err e) h = refl
    dispatch-returned hops state request (circuit, ok hop) h =
        answered-returned (env.others hops circuit) hops state (env.client hops request) hop
          (env.settled_at hops) h

    take_turn-returned :
        (hops : ℕ) (state : RedirectState http uris) (request : Request http uris)
        (circuit : CircuitBreaker table)
        → upstream.config.max_redirects ≤ hops
        → is_returned (take_turn table http uris env upstream hops state request circuit).1.1 ≡ true
    unfolding take_turn
    take_turn-returned hops state request circuit h =
        take_turn-cases table http uris env upstream (λ out. is_returned out.1.1 ≡ true) hops state
          request circuit (λ e. refl)
          (λ c admission a. dispatch-returned hops state request admission h)

    -- A turn that is answered settles; it sends nothing.
    settlement-sent :
        (policy : RedirectPolicy) (hops : ℕ) (state : RedirectState http uris)
        (response : Response table http uris) (circuit : CircuitBreaker table) (hop : CircuitHop)
        (now : ℕ)
        → sent_count (
            (redirected table http uris upstream policy hops state response circuit hop now).0.1
            ∷ [])
          ≡ 0
    unfolding redirected sent_count succeeded failed
    settlement-sent block hops state response circuit hop now = refl
    settlement-sent rewrite hops state response circuit hop now = refl
    settlement-sent follow hops state response circuit hop now = ground arith

    answered-sent :
        (circuit : CircuitBreaker table) (hops : ℕ) (state : RedirectState http uris)
        (found : Text ⊎ Response table http uris) (hop : CircuitHop) (now : ℕ)
        → sent_count ((answered table http uris upstream circuit hops state found hop now).0.1 ∷ [])
          ≡ 0
    unfolding answered sent_count settle_terminal succeeded failed
    answered-sent circuit hops state (inl message) hop now = refl
    answered-sent circuit hops state (inr response) hop now =
        ground (
          arith,
          settlement-sent upstream.config.redirect_policy hops state response circuit hop now,
        )

    dispatch-sent :
        (hops : ℕ) (state : RedirectState http uris) (request : Request http uris)
        (admission : CircuitBreaker table × Result CircuitHop)
        → sent_count (dispatch table http uris env upstream hops state request admission).1.0 ≤ 1
    unfolding dispatch sent_count
    dispatch-sent hops state request (circuit, err e) = omega arith
    dispatch-sent hops state request (circuit, ok hop) = omega (
      arith,
      answered-sent (env.others hops circuit) hops state (env.client hops request) hop
          (env.settled_at hops),
    )

    take_turn-sent :
        (hops : ℕ) (state : RedirectState http uris) (request : Request http uris)
        (circuit : CircuitBreaker table)
        → sent_count (take_turn table http uris env upstream hops state request circuit).1.0 ≤ 1
    unfolding take_turn sent_count
    take_turn-sent hops state request circuit =
        take_turn-cases table http uris env upstream (λ out. sent_count out.1.0 ≤ 1) hops state
          request circuit (λ e. omega arith)
          (λ c admission a. dispatch-sent hops state request admission)

    sent_count-append :
        (xs ys : List (Event table http uris))
        → sent_count (xs ++ ys) ≡ sent_count xs + sent_count ys
    unfolding sent_count
    sent_count-append [] ys = omega arith
    sent_count-append (sent request ∷ xs) ys = omega (arith, sent_count-append xs ys)
    sent_count-append (settled host good ∷ xs) ys = sent_count-append xs ys
    sent_count-append (refused host ∷ xs) ys = sent_count-append xs ys

    -- A finished run that sent at most so many requests.
    Within : ℕ → Option (Run table http uris) → Type 0
    Within budget found =
        (run : Run table http uris) × (found ≡ some run) × (sent_count run.log ≤ budget)

    with_log-Within :
        (budget : ℕ) (events : List (Event table http uris)) (rest : Option (Run table http uris))
        → sent_count events ≤ 1
        → Within budget rest
        → Within (suc budget) (with_log table http uris events rest)
    unfolding Within
    with_log-Within budget events rest h (run, same, few) = (
      record run { log = events ++ run.log },
      rw same,
      omega (arith, sent_count-append events run.log),
    )

    finish :
        (budget : ℕ)
        (rest : RedirectState http uris
          → Request http uris
          → CircuitBreaker table
          → Option (Run table http uris))
        (out : Outcome table http uris env upstream)
        → sent_count out.1.0 ≤ 1
        → (is_returned out.1.1 ≡ false
            → (s : RedirectState http uris) (r : Request http uris) (c : CircuitBreaker table)
            → Within budget (rest s r c))
        → Within (suc budget) (
            let (c, (events, t)) = out in
            elim t [
              | returned answer ↦ some (record { circuit = c; log = events; answer = answer })
              | again s r ↦ with_log table http uris events (rest s r c)
            ])
    unfolding Within
    finish budget rest (c, (events, returned answer)) h later =
        (record { circuit = c; log = events; answer = answer }, refl, omega arith)
    finish budget rest (c, (events, again s r)) h later =
        with_log-Within budget events (rest s r c) h (later refl s r c)

    turns-Within :
        (fuel hops : ℕ) (state : RedirectState http uris) (request : Request http uris)
        (circuit : CircuitBreaker table)
        → upstream.config.max_redirects ≤ 255
        → upstream.config.max_redirects ≤ hops + fuel
        → Within
            (suc fuel)
            (turns table http uris env upstream (suc fuel) hops state request circuit)
    unfolding turns
    turns-Within zero hops state request circuit p q =
        let ended = take_turn-returned hops state request circuit (omega arith) in
        finish 0 (λ s r c. none) (take_turn table http uris env upstream hops state request circuit)
          (take_turn-sent hops state request circuit) (λ h. absurd cc)
    turns-Within (suc fuel) hops state request circuit p q =
        finish (suc fuel) (turns table http uris env upstream (suc fuel) (min (hops + 1) 255))
          (take_turn table http uris env upstream hops state request circuit)
          (take_turn-sent hops state request circuit)
          (λ _ s r c. turns-Within fuel (min (hops + 1) 255) s r c p (ground arith))

    -- The loop ends whatever upstreams answer, after at most one request more than the redirect budget.
    pub execute-total :
        (request : Request http uris) (circuit : CircuitBreaker table)
        → upstream.config.max_redirects ≤ 255
        → (run : Run table http uris) × (execute table http uris env upstream request circuit
            ≡ some run)
          × (sent_count run.log ≤ upstream.config.max_redirects + 1)
    unfolding execute Within
    execute-total request circuit p =
        let (run, same, few) =
          turns-Within upstream.config.max_redirects 0
            (from_initial http uris request.method request.uri request.headers) request circuit p
            (omega arith) in
        (run, same, omega arith)
