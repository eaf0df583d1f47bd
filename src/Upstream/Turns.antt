-- ===== src/Upstream/Turns.antt =====
-- How a turn of the loop and a run of it are taken apart.
use Prim.Native.Nat.{min}
use mathlib.Core.Option.{some-injective}
use mathlib.Core.Path.{subst}
use corx.Circuit.{HostCircuit, CircuitBreaker, CircuitHop, admit}
use corx.Error.{ProxyError, Result, ok, err}
use corx.Http.{Http}
use corx.Prelude.{ℕ, zero, suc, ◌+◌, ◌≡◌, refl, Option, none, some, List, [], ◌++◌}
use corx.Redirect.{RedirectState, Request}
use corx.Table.{Table}
use corx.Target.{check_uri}
use corx.Upstream.{
  Environment, Upstream, Event, Turn, returned, again, dispatch, take_turn, host_of, Run, with_log,
  turns,
}
use corx.Uris.{Uris}

module _ (table : Table HostCircuit) (http : Http) (uris : Uris) (env : Environment table http uris)
    (upstream : Upstream table http uris) where
  abbrev pub Outcome : Type 0
  Outcome = CircuitBreaker table × (List (Event table http uris) × Turn table http uris)

  -- A turn refuses the URI, or dispatches a request whose URI the target policy lets through.
  pub take_turn-cases {κ} :
      (P : Outcome → Type κ) (hops : ℕ) (state : RedirectState http uris)
      (request : Request http uris) (circuit : CircuitBreaker table)
      → ((e : ProxyError) → P (circuit, ([], returned (err e))))
      → (check_uri upstream.target_policy (uris.scheme_str request.uri) (uris.host request.uri)
            ≡ ok tt
          → (admission : CircuitBreaker table × Result CircuitHop)
          → admit table circuit (host_of table http uris request.uri) (env.admitted_at hops)
            ≡ admission
          → P (dispatch table http uris env upstream hops state request admission))
      → P (take_turn table http uris env upstream hops state request circuit)
  unfolding take_turn
  take_turn-cases P hops state request circuit refused sent =
      go (check_uri upstream.target_policy (uris.scheme_str request.uri) (uris.host request.uri))
        refl
    where
      go :
          (v : Result (Unit {0}))
          → check_uri upstream.target_policy (uris.scheme_str request.uri) (uris.host request.uri)
            ≡ v
          → P (elim v [
            | err e ↦ (circuit, ([], returned (err e)))
            | ok _ ↦
                dispatch table http uris env upstream hops state request
                  (admit table circuit (host_of table http uris request.uri) (env.admitted_at hops))
          ])
      go (ok _) e =
          sent e (admit table circuit (host_of table http uris request.uri) (env.admitted_at hops))
            refl
      go (err f) e = refused f

  module _ {κ} (Good : List (Event table http uris) → Type κ)
      (joined : (xs ys : List (Event table http uris)) → Good xs → Good ys → Good (xs ++ ys))
      (I : RedirectState http uris → Request http uris → Type κ) where
    -- A turn did only what is good, and leaves the invariant to the next turn.
    pub record IsGood (out : Outcome) : Type κ where
      pub good : Good out.1.0
      pub kept :
          (state : RedirectState http uris) (request : Request http uris)
          → out.1.1 ≡ again state request
          → I state request

    with_log-good :
        (events : List (Event table http uris)) (rest : Option (Run table http uris))
        (run : Run table http uris)
        → Good events
        → ((r : Run table http uris) → rest ≡ some r → Good r.log)
        → with_log table http uris events rest ≡ some run
        → Good run.log
    with_log-good events none run g h k = absurd cc
    with_log-good events (some r) run g h k =
        subst (λ (r : Run table http uris). Good r.log)
          (some-injective (record r { log = events ++ r.log }) run k)
          (joined events r.log g (h r refl))

    -- The rest of a run after a good turn, from a property of the later turns.
    continued :
        (rest : RedirectState http uris
          → Request http uris
          → CircuitBreaker table
          → Option (Run table http uris))
        (out : Outcome) (run : Run table http uris)
        → IsGood out
        → ((s : RedirectState http uris) (r : Request http uris) (c : CircuitBreaker table)
              (later : Run table http uris)
            → I s r
            → rest s r c ≡ some later
            → Good later.log)
        → (let (c, (events, t)) = out in
            elim t [
              | returned answer ↦ some (record { circuit = c; log = events; answer = answer })
              | again s r ↦ with_log table http uris events (rest s r c)
            ])
          ≡ some run
        → Good run.log
    continued rest (c, (events, returned answer)) run g h k =
        subst (λ (r : Run table http uris). Good r.log)
          (some-injective (record { circuit = c; log = events; answer = answer }) run k) g.good
    continued rest (c, (events, again s r)) run g h k =
        with_log-good events (rest s r c) run g.good (λ later. h s r c later (g.kept s r refl)) k

    module _
        (turn : (hops : ℕ) (state : RedirectState http uris) (request : Request http uris)
            (circuit : CircuitBreaker table)
          → I state request
          → IsGood (take_turn table http uris env upstream hops state request circuit)) where
      -- Where every turn is good, so is the log of a whole run.
      pub turns-good :
          (fuel hops : ℕ) (state : RedirectState http uris) (request : Request http uris)
          (circuit : CircuitBreaker table) (run : Run table http uris)
          → I state request
          → turns table http uris env upstream fuel hops state request circuit ≡ some run
          → Good run.log
      unfolding turns
      turns-good zero hops state request circuit run i e = absurd cc
      turns-good (suc fuel) hops state request circuit run i e =
          continued (turns table http uris env upstream fuel (min (hops + 1) 255))
            (take_turn table http uris env upstream hops state request circuit) run
            (turn hops state request circuit i) (turns-good fuel (min (hops + 1) 255)) e
