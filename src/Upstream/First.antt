-- ===== src/Upstream/First.antt =====
-- A run sends the request that it is given, if nothing refuses it.
use mathlib.Core.Option.{some-injective}
use corx.Circuit.{HostCircuit, CircuitBreaker, check, admit}
use corx.Error.{ok}
use corx.Http.{Http}
use corx.Prelude.{
  ℕ, ◌≡◌, refl, false, ap, ◌∙◌, sym, inl, inr, Option, some, List, [], ◌∷◌, ◌++◌, Option-cases,
}
use corx.Redirect.{RedirectState, Request, from_initial}
use corx.Table.{Table}
use corx.Target.{check_uri}
use corx.Upstream.{
  Environment, Upstream, Event, sent, returned, again, answered, dispatch, take_turn, host_of, Run,
  with_log, turns, execute,
}
use corx.Upstream.Turns.{Outcome}
use corx.Uris.{Uris}

module _ (table : Table HostCircuit) (http : Http) (uris : Uris) (env : Environment table http uris)
    (upstream : Upstream table http uris) where
  -- The events begin with the request and its settlement.
  abbrev pub Begins : Request http uris → List (Event table http uris) → Type 0
  Begins request log =
      (event : Event table http uris) × ((rest : List (Event table http uris)) × (log
          ≡ sent request ∷ event ∷ rest))

  take_turn-sends :
      (hops : ℕ) (state : RedirectState http uris) (request : Request http uris)
      (circuit : CircuitBreaker table)
      → check_uri upstream.target_policy (uris.scheme_str request.uri) (uris.host request.uri)
        ≡ ok tt
      → (check table circuit (host_of table http uris request.uri) (env.admitted_at hops)).1 ≡ ok tt
      → (event : Event table http uris) × ((take_turn table http uris env upstream hops state
            request circuit).1.0
          ≡ sent request ∷ event ∷ [])
  unfolding take_turn dispatch admit
  take_turn-sends hops state request circuit policy admitted =
      let host = host_of table http uris request.uri in
      let circuit' = env.others hops (check table circuit host (env.admitted_at hops)).0 in
      let out =
        answered table http uris upstream circuit' hops state (env.client hops request)
          (record { host = host; settled = false }) (env.settled_at hops) in
      (out.0.1, rw (take_turn, policy, admit, admitted) refl)

  begun :
      (request : Request http uris) (event : Event table http uris)
      (rest : RedirectState http uris
        → Request http uris
        → CircuitBreaker table
        → Option (Run table http uris))
      (out : Outcome table http uris env upstream) (run : Run table http uris)
      → out.1.0 ≡ sent request ∷ event ∷ []
      → (let (c, (events, t)) = out in
          elim t [
            | returned answer ↦ some (record { circuit = c; log = events; answer = answer })
            | again s r ↦ with_log table http uris events (rest s r c)
          ])
        ≡ some run
      → Begins request run.log
  begun request event rest (c, (events, returned answer)) run e k = (
    event,
    (
      [],
      ap (λ (r : Run table http uris). r.log)
            (sym (some-injective (record { circuit = c; log = events; answer = answer }) run k))
          ∙ e,
    ),
  )
  begun request event rest (c, (events, again s r)) run e k = elim (Option-cases (rest s r c)) [
    | inl f ↦ absurd (let none_run = rw f at k in cc)
    | inr (later, f) ↦ (
      event,
      (
        later.log,
        ap (λ (r : Run table http uris). r.log)
              (sym (some-injective (record later { log = events ++ later.log }) run (rw f at k)))
            ∙ ap (λ xs. xs ++ later.log) e,
      ),
    )
  ]

  pub execute-Begins :
      (request : Request http uris) (circuit : CircuitBreaker table) (run : Run table http uris)
      → check_uri upstream.target_policy (uris.scheme_str request.uri) (uris.host request.uri)
        ≡ ok tt
      → (check table circuit (host_of table http uris request.uri) (env.admitted_at 0)).1 ≡ ok tt
      → execute table http uris env upstream request circuit ≡ some run
      → Begins request run.log
  unfolding execute turns
  execute-Begins request circuit run policy admitted e =
      let state = from_initial http uris request.method request.uri request.headers in
      let (event, sends) = take_turn-sends 0 state request circuit policy admitted in
      begun request event (turns table http uris env upstream upstream.config.max_redirects 1)
        (take_turn table http uris env upstream 0 state request circuit) run sends e
