-- ===== src/Cors/Response.antt =====
-- The headers of a response after the CORS layer.
use corx.Cors.{
  CorsPolicy, resolve_allow_origin, append_vary, apply_cors_base, apply_to_response, insert_some,
}
use corx.Cors.Vary.{vary_values, values-append_vary}
use corx.Http.{Http}
use corx.Prelude.{
  ◌≡◌, refl, ap, ◌∙◌, Bool, true, false, ◌&&◌, Option, none, some, List, [], ◌∷◌, String, codes,
  str_eq, arith, if◌then◌else◌, Option-cases, inl, inr,
}

module _ (http : Http) where
  open http use {
    HeaderValue, HeaderMap, values, get, from_static, is_visible, is_visible_of_printable,
    get-values, values-insert,
  }

  -- The values of one name after the CORS layer, from the values before it.
  unfoldable pub stamped :
      CorsPolicy http → Option HeaderValue → (String → List HeaderValue) → String → List HeaderValue
  stamped policy none old n =
      if str_eq "vary" n then vary_values http (codes "origin") (old "vary") else old n
  stamped policy (some allow_origin) old n =
      if str_eq "vary" n
      then vary_values http (codes "origin") (old "vary")
      else if str_eq "access-control-allow-credentials" n && policy.allow_credentials
      then from_static (codes "true") ∷ []
      else if str_eq "access-control-allow-origin" n
      then allow_origin ∷ []
      else old n

  -- A value that is there replaces all values of its name.
  unfoldable pub overlay :
      String → Option HeaderValue → List HeaderValue → String → List HeaderValue
  overlay name none old n = old
  overlay name (some v) old n = if str_eq name n then v ∷ [] else old

  pub values-insert_some :
      (m : HeaderMap) (name : String) (value : Option HeaderValue) (n : String)
      → values (insert_some http m name value) n ≡ overlay name value (values m n) n
  unfolding overlay
  values-insert_some m name none n = refl
  values-insert_some m name (some v) n = values-insert m name v n

  -- The map that `append_vary` is called on.
  granted : Bool → HeaderMap → HeaderValue → HeaderMap
  granted allow_credentials m v =
      let m1 = http.insert m "access-control-allow-origin" v in
      if allow_credentials
      then http.insert m1 "access-control-allow-credentials" (from_static (codes "true"))
      else m1

  values-granted :
      (allow_credentials : Bool) (m : HeaderMap) (v : HeaderValue) (n : String)
      → values (granted allow_credentials m v) n ≡ (
          if str_eq "access-control-allow-credentials" n && allow_credentials
          then from_static (codes "true") ∷ []
          else if str_eq "access-control-allow-origin" n
          then v ∷ []
          else values m n)
  unfolding granted
  values-granted false m v n = ground (arith, values-insert m "access-control-allow-origin" v n)
  values-granted true m v n = ground (
    arith,
    values-insert m "access-control-allow-origin" v n,
    values-insert (http.insert m "access-control-allow-origin" v) "access-control-allow-credentials"
        (from_static (codes "true")) n,
  )

  values-granted_vary :
      (allow_credentials : Bool) (m : HeaderMap) (v : HeaderValue)
      → values (granted allow_credentials m v) "vary" ≡ values m "vary"
  values-granted_vary allow_credentials m v = values-granted allow_credentials m v "vary"

  apply_cors_base-granted :
      (policy : CorsPolicy http) (rq m : HeaderMap) {v : HeaderValue}
      → resolve_allow_origin http policy (get rq "origin") ≡ some v
      → apply_cors_base http policy rq m
        ≡ append_vary http (granted policy.allow_credentials m v) (codes "origin")
  unfolding apply_cors_base granted
  apply_cors_base-granted policy rq m e = rw (e, apply_cors_base)

  apply_cors_base-refused :
      (policy : CorsPolicy http) (rq m : HeaderMap)
      → resolve_allow_origin http policy (get rq "origin") ≡ none
      → apply_cors_base http policy rq m ≡ append_vary http m (codes "origin")
  unfolding apply_cors_base
  apply_cors_base-refused policy rq m e = rw (e, apply_cors_base)

  pub values-apply_cors_base :
      (policy : CorsPolicy http) (rq m : HeaderMap) (n : String)
      → values (apply_cors_base http policy rq m) n
        ≡ stamped policy (resolve_allow_origin http policy (get rq "origin")) (values m) n
  unfolding stamped
  values-apply_cors_base policy rq m n =
      elim (Option-cases (resolve_allow_origin http policy (get rq "origin"))) [
        | inl e ↦
            rw (apply_cors_base-refused policy rq m e, e)
              (values-append_vary http m (codes "origin") n)
        | inr (v, e) ↦
            rw (apply_cors_base-granted policy rq m e, e)
              (ground (
                arith,
                values-append_vary http (granted policy.allow_credentials m v) (codes "origin") n,
                values-granted policy.allow_credentials m v n,
                values-granted_vary policy.allow_credentials m v,
              ))
      ]

  -- The CORS layer sets `Vary`, the exposed headers and, for an admitted origin, the allowed origin
  -- and the credentials flag, each to the value of the policy; all other headers stay. Exposed are the
  -- configured names alone; if there are none, what the upstream exposes stays.
  pub values-apply_to_response :
      (policy : CorsPolicy http) (rq m : HeaderMap) (n : String)
      → values (apply_to_response http policy rq m) n
        ≡ overlay "access-control-expose-headers" policy.exposed_headers
            (stamped policy (resolve_allow_origin http policy (get rq "origin")) (values m) n)
            n
  unfolding apply_to_response
  values-apply_to_response policy rq m n =
      values-insert_some (apply_cors_base http policy rq m) _ policy.exposed_headers n
      ∙ ap (λ old. overlay "access-control-expose-headers" policy.exposed_headers old n)
          (values-apply_cors_base policy rq m n)
