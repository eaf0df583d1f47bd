-- ===== src/Redirect/Transition.antt =====
-- What is true of every hop that follows a redirect.
use corx.Error.{ProxyError, Result, ok, err, ◌>>=◌, ◌>>◌}
use corx.Http.{Http}
use corx.Prelude.{
  ℕ, ◌≡◌, refl, inl, inr, Bool, true, false, ◌&&◌, not, none, some, [], String, Text, if◌then◌else◌,
  arith, Bool-cases,
}
use corx.Redirect.{
  empty, is_http, body_bearing, classify_transition, RedirectState, Request, NextHop, continue,
  stop, require_safe_scheme, is_https_to_http_downgrade, resolve_location, authority_differs,
  next_headers, advance, follow, location_of, next_uri_of, prepare_next, downgrade_reason,
  replay_reason,
}
use corx.Redirect.Credentials.{is_private, values-next_headers}
use corx.Uris.{Uris}

-- The next hop would have to send the body again.
replayed : String → ℕ → Bool
replayed method status =
    let (next_method, drop_body) = classify_transition method status in
    not drop_body && body_bearing next_method

get-body_bearing : body_bearing "GET" ≡ false
unfolding body_bearing
get-body_bearing = refl

not_replayed :
    (method : String) (status : ℕ)
    → replayed method status ≡ false
    → body_bearing (classify_transition method status).0 ≡ false
unfolding replayed classify_transition
not_replayed method status e = ground (arith, get-body_bearing)

module _ (http : Http) (uris : Uris) where
  open http use {HeaderMap, HeaderValue, values}
  open uris use {Uri, scheme_str}

  -- A URI with the scheme "http" or "https".
  unfoldable pub has_safe_scheme : Uri → Bool
  has_safe_scheme uri = elim (scheme_str uri) [ none ↦ false | some scheme ↦ is_http scheme ]

  -- A hop from `state` that leaves the state `state'` and sends `req`.
  pub record IsSafeHop (allow : Bool) (state state' : RedirectState http uris)
      (req : Request http uris) : Type 0 where
    pub safe_scheme : has_safe_scheme req.uri ≡ true
    pub no_downgrade :
        allow ≡ false → is_https_to_http_downgrade http uris state.uri req.uri ≡ false
    pub no_replay : body_bearing req.method ≡ false
    pub bodyless : req.body ≡ empty
    pub headers_lem :
        (n : String)
        → values req.headers n ≡ (
            if authority_differs http uris state.uri req.uri && is_private n
            then []
            else values state.headers n)
    pub same_method : state'.method ≡ req.method
    pub same_uri : state'.uri ≡ req.uri
    pub same_headers : state'.headers ≡ req.headers

  require_safe_scheme-safe :
      (uri : Uri) → require_safe_scheme http uris uri ≡ ok tt → has_safe_scheme uri ≡ true
  unfolding require_safe_scheme has_safe_scheme
  require_safe_scheme-safe uri e = ground arith

  checked-safe :
      (base : Uri) (allow : Bool) (uri v : Uri) (r : Result (Unit {0}))
      → require_safe_scheme http uris v ≡ r
      → (r
          >> (if not allow && is_https_to_http_downgrade http uris base v
              then err (ProxyError.invalid_url downgrade_reason)
              else ok v))
        ≡ ok uri
      → (has_safe_scheme uri ≡ true)
        × (allow ≡ false → is_https_to_http_downgrade http uris base uri ≡ false)
  checked-safe base allow uri v (err f) q k = absurd cc
  checked-safe base allow uri v (ok _) q k =
      (ground (arith, require_safe_scheme-safe v), λ a. ground arith)

  next_uri_of-safe :
      (base : Uri) (location : Text) (allow : Bool) (uri : Uri)
      → next_uri_of http uris base location allow ≡ ok uri
      → (has_safe_scheme uri ≡ true)
        × (allow ≡ false → is_https_to_http_downgrade http uris base uri ≡ false)
  unfolding next_uri_of
  next_uri_of-safe base location allow uri e = go (resolve_location http uris base location) e
    where
      go :
          (found : Result Uri)
          → (found >>= λ next_uri.
              require_safe_scheme http uris next_uri
              >> (if not allow && is_https_to_http_downgrade http uris base next_uri
                  then err (ProxyError.invalid_url downgrade_reason)
                  else ok next_uri))
            ≡ ok uri
          → (has_safe_scheme uri ≡ true)
            × (allow ≡ false → is_https_to_http_downgrade http uris base uri ≡ false)
      go (err f) h = absurd cc
      go (ok v) h = checked-safe base allow uri v (require_safe_scheme http uris v) refl h

  -- What `advance` sends, where it goes on.
  next_request : RedirectState http uris → Uri → ℕ → Request http uris
  next_request state uri status = record {
    method = (classify_transition state.method status).0;
    uri = uri;
    headers = next_headers http uris (authority_differs http uris state.uri uri) state.headers;
    body = empty;
  }

  next_state : RedirectState http uris → Uri → ℕ → RedirectState http uris
  unfolding next_request
  next_state state uri status =
      let req = next_request state uri status in
      record { method = req.method; headers = req.headers; uri = uri }

  advance-next :
      (state : RedirectState http uris) (uri : Uri) (status : ℕ)
      → advance http uris state uri status ≡ (
          if replayed state.method status
          then (state, stop replay_reason)
          else (next_state state uri status, continue (next_request state uri status)))
  unfolding advance next_request next_state replayed
  advance-next state uri status = refl

  next-IsSafeHop :
      (allow : Bool) (state : RedirectState http uris) (uri : Uri) (status : ℕ)
      → has_safe_scheme uri ≡ true
      → (allow ≡ false → is_https_to_http_downgrade http uris state.uri uri ≡ false)
      → replayed state.method status ≡ false
      → IsSafeHop allow state (next_state state uri status) (next_request state uri status)
  unfolding next_request next_state
  next-IsSafeHop allow state uri status s d r = record {
    safe_scheme = s;
    no_downgrade = d;
    no_replay = not_replayed state.method status r;
    bodyless = refl;
    headers_lem = λ n. ground (
      arith,
      values-next_headers http uris (authority_differs http uris state.uri uri) state.headers n,
    );
    same_method = refl;
    same_uri = refl;
    same_headers = refl;
  }

  -- The state after a hop, or the state as it was.
  unfoldable pub IsOutcome :
      Bool → RedirectState http uris → RedirectState http uris × Result (NextHop http uris) → Type 0
  IsOutcome allow state (state', ok (continue req)) = IsSafeHop allow state state' req
  IsOutcome allow state (state', ok (stop reason)) = state' ≡ state
  IsOutcome allow state (state', err e) = state' ≡ state

  advance-IsOutcome :
      (allow : Bool) (state : RedirectState http uris) (uri : Uri) (status : ℕ)
      → has_safe_scheme uri ≡ true
      → (allow ≡ false → is_https_to_http_downgrade http uris state.uri uri ≡ false)
      → IsOutcome allow state (follow http uris state status (ok uri))
  unfolding IsOutcome follow
  advance-IsOutcome allow state uri status s d = elim (Bool-cases (replayed state.method status)) [
    | inl e ↦ rw (advance-next state uri status, e) refl
    | inr e ↦ rw (advance-next state uri status, e) (next-IsSafeHop allow state uri status s d e)
  ]

  follow-IsOutcome :
      (allow : Bool) (state : RedirectState http uris) (status : ℕ) (location : Text)
      (found : Result Uri)
      → next_uri_of http uris state.uri location allow ≡ found
      → IsOutcome allow state (follow http uris state status found)
  unfolding follow IsOutcome
  follow-IsOutcome allow state status location (err e) same = refl
  follow-IsOutcome allow state status location (ok uri) same =
      let (s, d) = next_uri_of-safe state.uri location allow uri same in
      advance-IsOutcome allow state uri status s d

  -- Where a redirect is followed, the next request goes to an http or https URI, is no downgrade from
  -- https to http unless that is allowed, has a method without a body and an empty body; on a hop to
  -- another authority the credentials and the host header are gone, and all other headers are as
  -- before. Where it is not followed, or refused, the state does not change.
  pub prepare_next-IsOutcome :
      (state : RedirectState http uris) (status : ℕ) (headers : HeaderMap) (allow : Bool)
      → IsOutcome allow state (prepare_next http uris state status headers allow)
  unfolding prepare_next IsOutcome
  prepare_next-IsOutcome state status headers allow =
      elim (location_of http uris headers)
        as (λ l. IsOutcome allow state (elim l [
          | inl reason ↦ (state, ok (stop reason))
          | inr location ↦
              follow http uris state status (next_uri_of http uris state.uri location allow)
        ])) [
          | inl reason ↦ refl
          | inr location ↦
              follow-IsOutcome allow state status location
                (next_uri_of http uris state.uri location allow) refl
        ]
