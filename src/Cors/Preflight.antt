-- ===== src/Cors/Preflight.antt =====
-- The answer to a preflight.
use corx.Cors.{
  CorsPolicy, resolve_allow_origin, append_vary, apply_cors_base, insert_some,
  build_preflight_response, configured_or_echo, is_some,
}
use corx.Cors.Response.{stamped, overlay, values-insert_some, values-apply_cors_base}
use corx.Cors.Vary.{values-append_vary}
use corx.Http.{Http}
use corx.Prelude.{
  ◌≡◌, refl, ap, ◌∙◌, Bool, true, false, ◌&&◌, Option, none, some, List, [], ◌∷◌, String, codes,
  str_eq, arith, if◌then◌else◌,
}

-- The values of a header that is set at most once.
abbrev pub at_most_one {ℓ} : {A : Type ℓ} → Option A → List A
at_most_one none = []
at_most_one (some a) = a ∷ []

module _ (http : Http) where
  open http use {HeaderValue, HeaderMap, values, get, from_static, values-insert, values-empty}

  -- The headers before those of the private network.
  configured : CorsPolicy http → HeaderMap → HeaderMap
  configured policy rq =
      let headers1 = apply_cors_base http policy rq http.empty in
      let headers2 =
        insert_some http headers1 "access-control-allow-methods" (
          configured_or_echo http policy.allowed_methods
            (get rq "access-control-request-method")) in
      let headers3 = insert_some http headers2 "access-control-allow-headers" (
        configured_or_echo http policy.allowed_headers (get rq "access-control-request-headers")) in
      insert_some http headers3 "access-control-max-age" policy.max_age_value

  values-configured :
      (policy : CorsPolicy http) (rq : HeaderMap) (n : String)
      → values (configured policy rq) n
        ≡ overlay http "access-control-max-age" policy.max_age_value
            (overlay http "access-control-allow-headers"
              (configured_or_echo http policy.allowed_headers
                (get rq "access-control-request-headers"))
              (overlay http "access-control-allow-methods"
                (configured_or_echo http policy.allowed_methods
                  (get rq "access-control-request-method"))
                (stamped http policy
                  (resolve_allow_origin http policy (get rq "origin"))
                  (values http.empty)
                  n)
                n)
              n)
            n
  unfolding configured
  values-configured policy rq n = rw (
    values-insert_some http _ "access-control-max-age" policy.max_age_value n,
    values-insert_some http _ "access-control-allow-headers" _ n,
    values-insert_some http _ "access-control-allow-methods" _ n,
    values-apply_cors_base http policy rq http.empty n,
  )

  -- The steps after `configured`.
  finished : Bool → HeaderMap → HeaderMap
  finished private_network m =
      append_vary http
        (append_vary http
          (if private_network
            then http.insert m "access-control-allow-private-network" (from_static (codes "true"))
            else m)
          (codes "access-control-request-method"))
        (codes "access-control-request-headers")

  values-finished :
      (private_network : Bool) (m : HeaderMap) (n : String)
      → str_eq "vary" n ≡ false
      → str_eq "access-control-allow-private-network" n ≡ false
      → values (finished private_network m) n ≡ values m n
  unfolding finished
  values-finished true m n v p = ground (
    arith,
    values-append_vary http
        (append_vary http
          (http.insert m "access-control-allow-private-network" (from_static (codes "true")))
          (codes "access-control-request-method"))
        (codes "access-control-request-headers") n,
    values-append_vary http
        (http.insert m "access-control-allow-private-network" (from_static (codes "true")))
        (codes "access-control-request-method") n,
    values-insert m "access-control-allow-private-network" (from_static (codes "true")) n,
  )
  values-finished false m n v p = ground (
    arith,
    values-append_vary http (append_vary http m (codes "access-control-request-method"))
        (codes "access-control-request-headers") n,
    values-append_vary http m (codes "access-control-request-method") n,
  )

  build-finished :
      (policy : CorsPolicy http) (rq : HeaderMap)
      → (build_preflight_response http policy rq).1
        ≡ finished
            (policy.allow_private_network
              && is_some (get rq "access-control-request-private-network"))
            (configured policy rq)
  unfolding build_preflight_response finished configured
  build-finished policy rq = refl

  values-preflight :
      (policy : CorsPolicy http) (rq : HeaderMap) (n : String)
      → str_eq "vary" n ≡ false
      → str_eq "access-control-allow-private-network" n ≡ false
      → values (build_preflight_response http policy rq).1 n ≡ values (configured policy rq) n
  values-preflight policy rq n v p =
      ap (λ m. values m n) (build-finished policy rq)
      ∙ values-finished _ (configured policy rq) n v p

  base-origin :
      (policy : CorsPolicy http) (resolved : Option HeaderValue)
      → stamped http policy resolved (values http.empty) "access-control-allow-origin"
        ≡ at_most_one resolved
  unfolding stamped
  base-origin policy none = values-empty "access-control-allow-origin"
  base-origin policy (some v) = ground arith

  base-other :
      (policy : CorsPolicy http) (resolved : Option HeaderValue) (n : String)
      → str_eq "vary" n ≡ false
      → str_eq "access-control-allow-origin" n ≡ false
      → str_eq "access-control-allow-credentials" n ≡ false
      → stamped http policy resolved (values http.empty) n ≡ []
  unfolding stamped
  base-other policy none n a b c = ground (arith, values-empty n)
  base-other policy (some v) n a b c = ground (arith, values-empty n)

  overlay-same :
      (n : String) (value : Option HeaderValue) (old : List HeaderValue)
      → old ≡ []
      → str_eq n n ≡ true
      → overlay http n value old n ≡ at_most_one value
  unfolding overlay
  overlay-same n none old e s = e
  overlay-same n (some v) old e s = ground arith

  overlay-other :
      (k : String) (value : Option HeaderValue) (old : List HeaderValue) (n : String)
      → str_eq k n ≡ false
      → overlay http k value old n ≡ old
  unfolding overlay
  overlay-other k none old n e = refl
  overlay-other k (some v) old n e = ground arith

  -- The answer to a preflight has the status 204. Its allowed origin is the one that the policy gives
  -- the request's origin, and absent if there is none; its allowed methods and headers are the
  -- configured lists, or else what the request asks for; its maximal age is the configured one.
  pub build_preflight_response_lem :
      (policy : CorsPolicy http) (rq : HeaderMap)
      → ((build_preflight_response http policy rq).0 ≡ 204)
        × (values (build_preflight_response http policy rq).1 "access-control-allow-origin"
            ≡ at_most_one (resolve_allow_origin http policy (get rq "origin")))
        × (values (build_preflight_response http policy rq).1 "access-control-allow-methods"
            ≡ at_most_one (
                configured_or_echo http policy.allowed_methods
                  (get rq "access-control-request-method")))
        × (values (build_preflight_response http policy rq).1 "access-control-allow-headers"
            ≡ at_most_one (
                configured_or_echo http policy.allowed_headers
                  (get rq "access-control-request-headers")))
        × (values (build_preflight_response http policy rq).1 "access-control-max-age"
            ≡ at_most_one policy.max_age_value)
  unfolding build_preflight_response
  build_preflight_response_lem policy rq = (
    refl,
    values-preflight policy rq "access-control-allow-origin" refl refl
        ∙ rw (
          values-configured policy rq "access-control-allow-origin",
          overlay-other "access-control-max-age" _ _ "access-control-allow-origin" refl,
          overlay-other "access-control-allow-headers" _ _ "access-control-allow-origin" refl,
          overlay-other "access-control-allow-methods" _ _ "access-control-allow-origin" refl,
          base-origin policy _,
        ),
    values-preflight policy rq "access-control-allow-methods" refl refl
        ∙ rw
            (
              values-configured policy rq "access-control-allow-methods",
              overlay-other "access-control-max-age" _ _ "access-control-allow-methods" refl,
              overlay-other "access-control-allow-headers" _ _ "access-control-allow-methods" refl,
            )
            (overlay-same "access-control-allow-methods" _ _
              (base-other policy _ "access-control-allow-methods" refl refl refl) refl),
    values-preflight policy rq "access-control-allow-headers" refl refl
        ∙ rw
            (
              values-configured policy rq "access-control-allow-headers",
              overlay-other "access-control-max-age" _ _ "access-control-allow-headers" refl,
            )
            (overlay-same "access-control-allow-headers" _ _
              (overlay-other "access-control-allow-methods" _ _ "access-control-allow-headers" refl
                ∙ base-other policy _ "access-control-allow-headers" refl refl refl)
              refl),
    values-preflight policy rq "access-control-max-age" refl refl
        ∙ rw (values-configured policy rq "access-control-max-age") (
            overlay-same "access-control-max-age" _ _
              (overlay-other "access-control-allow-headers" _ _ "access-control-max-age" refl
                ∙ overlay-other "access-control-allow-methods" _ _ "access-control-max-age" refl
                ∙ base-other policy _ "access-control-max-age" refl refl refl)
              refl),
  )
