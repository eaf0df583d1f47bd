-- ===== src/Error/Payload.antt =====
-- What an error tells a client.
use mathlib.Core.Option.{some-injective}
use corx.Error.{ErrorKind, ProxyError, kind, status, as_str, client_message, to_payload}
use corx.Prelude.{
  ◌≡◌, refl, sym, ap, ◌∙◌, Option, none, some, List, [], ◌∷◌, Text, codes, text_eq, if◌then◌else◌,
}

-- The kind that a code stands for.
unfoldable of_str_in : List (Text × ErrorKind) → Text → Option ErrorKind
of_str_in [] t = none
of_str_in ((code, k) ∷ rest) t =
    let later = of_str_in rest t in if text_eq code t then some k else later

abbrev all_codes : List (Text × ErrorKind)
all_codes =
    (codes "invalid_url", ErrorKind.invalid_url)
    ∷ (codes "missing_required_header", ErrorKind.missing_required_header)
    ∷ (codes "origin_not_allowed", ErrorKind.origin_not_allowed)
    ∷ (codes "ssrf_blocked", ErrorKind.ssrf_blocked)
    ∷ (codes "dns_failure", ErrorKind.dns_failure)
    ∷ (codes "upstream_unreachable", ErrorKind.upstream_unreachable)
    ∷ (codes "upstream_timeout", ErrorKind.upstream_timeout)
    ∷ (codes "too_many_redirects", ErrorKind.too_many_redirects)
    ∷ (codes "tls_failure", ErrorKind.tls_failure)
    ∷ (codes "payload_too_large", ErrorKind.payload_too_large)
    ∷ (codes "rate_limited", ErrorKind.rate_limited)
    ∷ (codes "target_not_allowed", ErrorKind.target_not_allowed)
    ∷ (codes "unauthorized", ErrorKind.unauthorized)
    ∷ (codes "circuit_open", ErrorKind.circuit_open)
    ∷ (codes "redirect_blocked", ErrorKind.redirect_blocked)
    ∷ (codes "io", ErrorKind.io)
    ∷ (codes "internal", ErrorKind.internal)
    ∷ []

of_str-as_str : (k : ErrorKind) → of_str_in all_codes (as_str k) ≡ some k
unfolding of_str_in as_str text_eq
of_str-as_str ErrorKind.invalid_url = refl
of_str-as_str ErrorKind.missing_required_header = refl
of_str-as_str ErrorKind.origin_not_allowed = refl
of_str-as_str ErrorKind.ssrf_blocked = refl
of_str-as_str ErrorKind.dns_failure = refl
of_str-as_str ErrorKind.upstream_unreachable = refl
of_str-as_str ErrorKind.upstream_timeout = refl
of_str-as_str ErrorKind.too_many_redirects = refl
of_str-as_str ErrorKind.tls_failure = refl
of_str-as_str ErrorKind.payload_too_large = refl
of_str-as_str ErrorKind.rate_limited = refl
of_str-as_str ErrorKind.target_not_allowed = refl
of_str-as_str ErrorKind.unauthorized = refl
of_str-as_str ErrorKind.circuit_open = refl
of_str-as_str ErrorKind.redirect_blocked = refl
of_str-as_str ErrorKind.io = refl
of_str-as_str ErrorKind.internal = refl

-- The code of a payload tells the kind of the error: errors with the same code have the same status
-- and the same message, so a payload shows nothing of an error but its kind.
to_payload-kind :
    (e f : ProxyError)
    → (to_payload e).1.error ≡ (to_payload f).1.error
    → (kind e ≡ kind f) × (to_payload e ≡ to_payload f)
unfolding to_payload
to_payload-kind e f h =
    let same : kind e ≡ kind f =
      some-injective (kind e) (kind f)
        (sym (of_str-as_str (kind e)) ∙ ap (of_str_in all_codes) h ∙ of_str-as_str (kind f)) in
    (same, ap (λ k. (status k, record { error = as_str k; message = client_message k })) same)
