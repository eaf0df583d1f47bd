-- ===== src/Error.antt =====
-- crates/corx-core/src/error.rs: the errors of the proxy, their kinds, and what a client sees of them.
pub mod Payload
use corx.Prelude.{ℕ, ◌≡◌, ◌⊎◌, inl, inr, refl, Text, codes}

-- `ErrorKind`
pub data ErrorKind : Type 0 where
  invalid_url missing_required_header origin_not_allowed ssrf_blocked : ErrorKind
  dns_failure upstream_unreachable upstream_timeout too_many_redirects : ErrorKind
  tls_failure payload_too_large rate_limited target_not_allowed : ErrorKind
  unauthorized circuit_open redirect_blocked io internal : ErrorKind

-- An address of the standard library: 32 or 128 bits.
pub data IpAddr : Type 0 where
  v4 v6 : ℕ → IpAddr

-- `ProxyError`. A boxed error of a library is the text that it displays.
pub data ProxyError : Type 0 where
  invalid_url missing_header origin_not_allowed : Text → ProxyError
  ssrf_blocked : IpAddr → ProxyError
  dns : Text → Text → ProxyError
  upstream : Text → ProxyError
  upstream_timeout : ProxyError
  too_many_redirects : ℕ → ProxyError
  tls : Text → ProxyError
  payload_too_large rate_limited : ProxyError
  target_not_allowed unauthorized circuit_open redirect_blocked io internal : Text → ProxyError

pub data Result {ℓ} (A : Type ℓ) : Type ℓ where
  ok : A → Result A
  err : ProxyError → Result A

pub ok-injective {ℓ} : {A : Type ℓ} {a b : A} → Result.ok a ≡ ok b → a ≡ b
ok-injective e = cc

pub Result-cases {ℓ} :
    {A : Type ℓ} (r : Result A) → ((a : A) × (r ≡ ok a)) ⊎ ((e : ProxyError) × (r ≡ err e))
Result-cases (ok a) = inl (a, refl)
Result-cases (err e) = inr (e, refl)

-- the operator `?` before the rest of a function
infixl 5 ◌>>=◌ ◌>>◌
abbrev pub ◌>>=◌ {ℓ κ} : {A : Type ℓ} {B : Type κ} → Result A → (A → Result B) → Result B
err failed >>= rest = err failed
ok value >>= rest = rest value

abbrev pub ◌>>◌ {ℓ} : {B : Type ℓ} → Result (Unit {0}) → Result B → Result B
err failed >> rest = err failed
ok _ >> rest = rest

-- `ErrorKind::status`
unfoldable pub status : ErrorKind → ℕ
status ErrorKind.invalid_url = 400
status ErrorKind.missing_required_header = 400
status ErrorKind.origin_not_allowed = 403
status ErrorKind.ssrf_blocked = 403
status ErrorKind.target_not_allowed = 403
status ErrorKind.redirect_blocked = 403
status ErrorKind.dns_failure = 502
status ErrorKind.upstream_unreachable = 502
status ErrorKind.tls_failure = 502
status ErrorKind.upstream_timeout = 504
status ErrorKind.too_many_redirects = 508
status ErrorKind.payload_too_large = 413
status ErrorKind.rate_limited = 429
status ErrorKind.unauthorized = 401
status ErrorKind.circuit_open = 503
status ErrorKind.io = 500
status ErrorKind.internal = 500

-- `ErrorKind::as_str`
unfoldable pub as_str : ErrorKind → Text
as_str ErrorKind.invalid_url = codes "invalid_url"
as_str ErrorKind.missing_required_header = codes "missing_required_header"
as_str ErrorKind.origin_not_allowed = codes "origin_not_allowed"
as_str ErrorKind.ssrf_blocked = codes "ssrf_blocked"
as_str ErrorKind.dns_failure = codes "dns_failure"
as_str ErrorKind.upstream_unreachable = codes "upstream_unreachable"
as_str ErrorKind.upstream_timeout = codes "upstream_timeout"
as_str ErrorKind.too_many_redirects = codes "too_many_redirects"
as_str ErrorKind.tls_failure = codes "tls_failure"
as_str ErrorKind.payload_too_large = codes "payload_too_large"
as_str ErrorKind.rate_limited = codes "rate_limited"
as_str ErrorKind.target_not_allowed = codes "target_not_allowed"
as_str ErrorKind.unauthorized = codes "unauthorized"
as_str ErrorKind.circuit_open = codes "circuit_open"
as_str ErrorKind.redirect_blocked = codes "redirect_blocked"
as_str ErrorKind.io = codes "io"
as_str ErrorKind.internal = codes "internal"

-- `ProxyError::kind`
unfoldable pub kind : ProxyError → ErrorKind
kind (ProxyError.invalid_url m) = ErrorKind.invalid_url
kind (ProxyError.missing_header m) = ErrorKind.missing_required_header
kind (ProxyError.origin_not_allowed m) = ErrorKind.origin_not_allowed
kind (ProxyError.ssrf_blocked ip) = ErrorKind.ssrf_blocked
kind (ProxyError.dns host source) = ErrorKind.dns_failure
kind (ProxyError.upstream source) = ErrorKind.upstream_unreachable
kind ProxyError.upstream_timeout = ErrorKind.upstream_timeout
kind (ProxyError.too_many_redirects limit) = ErrorKind.too_many_redirects
kind (ProxyError.tls source) = ErrorKind.tls_failure
kind ProxyError.payload_too_large = ErrorKind.payload_too_large
kind ProxyError.rate_limited = ErrorKind.rate_limited
kind (ProxyError.target_not_allowed m) = ErrorKind.target_not_allowed
kind (ProxyError.unauthorized m) = ErrorKind.unauthorized
kind (ProxyError.circuit_open host) = ErrorKind.circuit_open
kind (ProxyError.redirect_blocked m) = ErrorKind.redirect_blocked
kind (ProxyError.io m) = ErrorKind.io
kind (ProxyError.internal m) = ErrorKind.internal

-- `ErrorKind::client_message`
unfoldable pub client_message : ErrorKind → Text
client_message ErrorKind.invalid_url = codes "invalid target url"
client_message ErrorKind.missing_required_header = codes "missing required header"
client_message ErrorKind.origin_not_allowed = codes "origin not allowed"
client_message ErrorKind.ssrf_blocked = codes "target address blocked by ssrf policy"
client_message ErrorKind.dns_failure = codes "dns lookup failed"
client_message ErrorKind.upstream_unreachable = codes "upstream unreachable"
client_message ErrorKind.upstream_timeout = codes "upstream timed out"
client_message ErrorKind.too_many_redirects = codes "too many redirects"
client_message ErrorKind.tls_failure = codes "tls handshake failed"
client_message ErrorKind.payload_too_large = codes "payload too large"
client_message ErrorKind.rate_limited = codes "rate limited"
client_message ErrorKind.target_not_allowed = codes "target not allowed"
client_message ErrorKind.unauthorized = codes "unauthorized"
client_message ErrorKind.circuit_open = codes "circuit open for target host"
client_message ErrorKind.redirect_blocked = codes "redirect blocked by policy"
client_message ErrorKind.io = codes "internal error"
client_message ErrorKind.internal = codes "internal error"

-- `ErrorPayload`
pub record ErrorPayload : Type 0 where
  pub error : Text
  pub message : Text

-- `ProxyError::to_payload`
unfoldable pub to_payload : ProxyError → ℕ × ErrorPayload
unfolding kind status as_str client_message
to_payload e = let k = kind e in (status k, record { error = as_str k; message = client_message k })
