-- ===== src/Cors/Layer.antt =====
-- Repeating the CORS layer, what it leaves of an upstream's headers, and `Vary`.
use corx.Cors.{CorsPolicy, resolve_allow_origin, apply_to_response, lists_token}
use corx.Cors.Response.{stamped, overlay, values-apply_to_response}
use corx.Cors.Vary.{vary_values, vary_values_idem, vary_values-lists}
use corx.Http.{Http}
use corx.Prelude.{
  ◌≡◌, ◌≢◌, refl, ap, ◌∙◌, true, Option, none, some, List, [], ◌∷◌, ◌++◌, String, Text, codes,
  arith, All, split, trim, eq_ignore_ascii_case, head?,
}

module _ (http : Http) where
  open http use {
    HeaderValue, HeaderMap, values, get, to_str, from_static, is_visible, is_visible_of_printable,
    get-values, values-insert,
  }

  origin_visible : All (λ c. is_visible c ≡ true) (codes "origin")
  origin_visible = (
    is_visible_of_printable b'o' (omega arith) (omega arith),
    (
      is_visible_of_printable b'r' (omega arith) (omega arith),
      (
        is_visible_of_printable b'i' (omega arith) (omega arith),
        (
          is_visible_of_printable b'g' (omega arith) (omega arith),
          (
            is_visible_of_printable b'i' (omega arith) (omega arith),
            (is_visible_of_printable b'n' (omega arith) (omega arith), tt),
          ),
        ),
      ),
    ),
  )

  origin_single : lists_token (codes "origin") (codes "origin") ≡ true
  unfolding lists_token split trim eq_ignore_ascii_case
  origin_single = refl

  origin_after_space : lists_token (codes "origin") (codes " " ++ codes "origin") ≡ true
  unfolding lists_token split trim eq_ignore_ascii_case
  origin_after_space = refl

  origin_idem :
      (vs : List HeaderValue)
      → vary_values http (codes "origin") (vary_values http (codes "origin") vs)
        ≡ vary_values http (codes "origin") vs
  origin_idem =
      vary_values_idem http (codes "origin") origin_visible origin_single origin_after_space

  stamped_again :
      (policy : CorsPolicy http) (resolved : Option HeaderValue)
      (old new : String → List HeaderValue) (n : String)
      → new "vary" ≡ vary_values http (codes "origin") (old "vary")
      → new n
        ≡ overlay http "access-control-expose-headers" policy.exposed_headers
            (stamped http policy resolved old n)
            n
      → overlay http "access-control-expose-headers" policy.exposed_headers
          (stamped http policy resolved new n)
          n
        ≡ new n
  unfolding stamped overlay
  stamped_again policy none old new n a b = ground (arith, origin_idem (old "vary"))
  stamped_again policy (some v) old new n a b = ground (arith, origin_idem (old "vary"))

  stamped_vary :
      (policy : CorsPolicy http) (resolved : Option HeaderValue) (old : String → List HeaderValue)
      → overlay http "access-control-expose-headers" policy.exposed_headers
          (stamped http policy resolved old "vary")
          "vary"
        ≡ vary_values http (codes "origin") (old "vary")
  unfolding stamped overlay
  stamped_vary policy none old = ground arith
  stamped_vary policy (some v) old = ground arith

  values-vary :
      (policy : CorsPolicy http) (rq m : HeaderMap)
      → values (apply_to_response http policy rq m) "vary"
        ≡ vary_values http (codes "origin") (values m "vary")
  values-vary policy rq m =
      values-apply_to_response http policy rq m "vary" ∙ stamped_vary policy _ (values m)

  -- Applying the CORS layer to a response that already went through it changes no header, for the
  -- same request and policy.
  pub apply_to_response_idem :
      (policy : CorsPolicy http) (rq m : HeaderMap) (n : String)
      → values (apply_to_response http policy rq (apply_to_response http policy rq m)) n
        ≡ values (apply_to_response http policy rq m) n
  apply_to_response_idem policy rq m n =
      let once = apply_to_response http policy rq m in
      values-apply_to_response http policy rq once n
      ∙ stamped_again policy _ (values m) (values once) n (values-vary policy rq m)
          (values-apply_to_response http policy rq m n)

  abbrev allow_origin : String
  allow_origin = "access-control-allow-origin"

  -- For an admitted origin the response has exactly one allowed origin, the value of the policy,
  -- whatever the upstream sent.
  pub allow_origin-granted :
      (policy : CorsPolicy http) (rq m : HeaderMap) (v : HeaderValue)
      → resolve_allow_origin http policy (get rq "origin") ≡ some v
      → values (apply_to_response http policy rq m) allow_origin ≡ v ∷ []
  unfolding stamped overlay
  allow_origin-granted policy rq m v e =
      ground (arith, values-apply_to_response http policy rq m allow_origin)

  -- For an origin that is not admitted, the allowed origins and the credentials flag that the
  -- upstream sent stay in the response.
  pub allow_origin-refused :
      (policy : CorsPolicy http) (rq m : HeaderMap)
      → resolve_allow_origin http policy (get rq "origin") ≡ none
      → (values (apply_to_response http policy rq m) allow_origin ≡ values m allow_origin)
        × (values (apply_to_response http policy rq m) "access-control-allow-credentials"
            ≡ values m "access-control-allow-credentials")
  unfolding stamped overlay
  allow_origin-refused policy rq m e = (
    ground (arith, values-apply_to_response http policy rq m allow_origin),
    ground (arith, values-apply_to_response http policy rq m "access-control-allow-credentials"),
  )

  -- Unless the upstream's first `Vary` is unreadable, the response's `Vary` lists the token "origin".
  pub apply_to_response-vary :
      (policy : CorsPolicy http) (rq m : HeaderMap)
      → ((v : HeaderValue) → get m "vary" ≡ some v → to_str v ≢ none)
      → (w : HeaderValue) × (s : Text) × (get (apply_to_response http policy rq m) "vary" ≡ some w)
        × (to_str w ≡ some s)
        × (lists_token (codes "origin") s ≡ true)
  apply_to_response-vary policy rq m readable =
      let (w, s, first, seen, listed) =
        vary_values-lists http (codes "origin") origin_visible origin_single origin_after_space
          (values m "vary") (λ v e. readable v (get-values m "vary" ∙ e)) in
      (
        w,
        s,
        get-values (apply_to_response http policy rq m) "vary"
            ∙ ap head? (values-vary policy rq m)
            ∙ first,
        seen,
        listed,
      )
