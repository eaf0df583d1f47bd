-- ===== src/Server/Layers.antt =====
-- crates/corx-server/src/router.rs: the layers that `build_router` puts around the handlers, with
-- middleware/cors.rs and error.rs. The headers that axum gives a text or a JSON body, the answer of
-- its layers to a timeout or a panic, and the iterator of a header map are parameters. Bodies, traces
-- and logs are left out, and no other request arrives meanwhile.
use corx.Cors.{CorsPolicy, apply_to_response}
use corx.Error.{ProxyError, Result, ok, err, kind, as_str, to_payload}
use corx.Http.{Http}
use corx.Prelude.{
  ℕ, ◌+◌, ◌-◌, ◌<◌, ◌≡◌, Bool, true, false, not, ◌&&◌, Option, none, some, List, [], ◌∷◌, String,
  Text, codes, ltb, leb, ◌==◌, arith, if◌then◌else◌,
}
mod Tests
use corx.Config.Security.{AuthMode}
use corx.Server.Auth.{auth_layer}
use corx.Server.Body.{u64_max}
use corx.Server.HeaderLimit.{header_limit_layer, header_limit_layer-fits, total_length}
use corx.Server.LoadShed.{enter, take_slot, give_back}

-- What the layers take from other crates: the headers of an answer with a text or with JSON, and the
-- entries of a header map.
pub record Axum (http : Http) : Type 0 where
  pub text_headers : http.HeaderMap
  pub json_headers : http.HeaderMap
  pub iter : http.HeaderMap → List (Text × Text)

module _ (http : Http) (axum : Axum http) where
  open http use {HeaderMap, from_str, from_static, insert}

  -- An answer, without its body.
  pub record Reply : Type 0 where
    pub status : ℕ
    pub headers : HeaderMap

  -- What the layers see of a request.
  pub record Arrival : Type 0 where
    pub method : String
    pub path : Text
    pub headers : HeaderMap

  -- The settings that the layers read.
  pub record Settings : Type 0 where
    pub max_request_header_bytes : ℕ
    pub inflight_max : ℕ
    pub mode : AuthMode
    pub bearer_tokens : List Text
    pub metrics_endpoint : Text
    pub cors : CorsPolicy http

  abbrev with_status : HeaderMap → Option http.HeaderValue → HeaderMap
  with_status headers none = headers
  with_status headers (some value) = insert headers "x-corx-status" value

  -- `ServerError::into_response`
  unfoldable pub into_response : ProxyError → Reply
  into_response e = record {
    status = (to_payload e).0;
    headers = with_status axum.json_headers (from_str (as_str (kind e)));
  }

  -- the answer of `header_limit_layer` to headers that are too large
  unfoldable pub too_large_response : Reply
  too_large_response = record { status = 431; headers = axum.text_headers }

  -- `shed_response`
  unfoldable pub shed_response : Reply
  shed_response = record {
    status = 503;
    headers = insert axum.text_headers "retry-after" (from_static (codes "1"));
  }

  -- `cors_layer`, on the answer that comes back; `interrupted` stands for one that does not come
  unfoldable pub cors_layer : CorsPolicy http → HeaderMap → Reply → Option Reply → Reply
  cors_layer policy request_headers interrupted none = record interrupted {
    headers = apply_to_response http policy request_headers interrupted.headers;
  }
  cors_layer policy request_headers interrupted (some reply) = record reply {
    headers = apply_to_response http policy request_headers reply.headers;
  }

  -- A handler changes the state of the server, and gives no answer where it times out or panics.
  abbrev pub Handler : Type 0 → Type 0
  Handler S = S → Option Reply × S

  module _ {S : Type 0} where
    -- `auth_layer` around a handler
    unfoldable pub authorized : Result (Unit {0}) → Handler S → Handler S
    authorized (err e) next s = (some (into_response e), s)
    authorized (ok _) next s = next s

    -- `load_shed_layer`; the permit is dropped when the inner layers return, panic or are cancelled
    unfoldable pub load_shed_layer : ℕ → Handler S → ℕ × S → Option Reply × (ℕ × S)
    load_shed_layer max next (inflight, s) =
        let (inflight', passes) = enter max inflight in
        let (reply, s') = next s in
        if not passes
        then (some shed_response, (give_back inflight', s))
        else (reply, (if max == 0 then inflight' else give_back inflight', s'))

    -- the layers from `header_limit_layer` inwards
    unfoldable pub inner_layers : Settings → Arrival → Handler S → ℕ × S → Option Reply × (ℕ × S)
    inner_layers settings request next s =
        if header_limit_layer settings.max_request_header_bytes (axum.iter request.headers)
        then load_shed_layer settings.inflight_max
            (authorized
              (auth_layer http settings.mode settings.bearer_tokens settings.metrics_endpoint
                request.method request.path request.headers)
              next)
            s
        else (some too_large_response, s)

    -- the layers of `build_router`
    unfoldable pub layers : Settings → Reply → Arrival → Handler S → ℕ × S → Reply × (ℕ × S)
    layers settings interrupted request next s =
        let (reply, s') = inner_layers settings request next s in
        (cors_layer settings.cors request.headers interrupted reply, s')

    -- what a request meets first: the limit on headers, the cap on requests, the token, the handler
    unfoldable pub first_answer : Settings → Arrival → Handler S → ℕ → S → Option Reply × S
    first_answer settings request next inflight s =
        if ltb settings.max_request_header_bytes (total_length (axum.iter request.headers))
        then (some too_large_response, s)
        else if not (settings.inflight_max == 0) && leb settings.inflight_max inflight
        then (some shed_response, s)
        else authorized
            (auth_layer http settings.mode settings.bearer_tokens settings.metrics_endpoint
              request.method request.path request.headers)
            next s

    load_shed_layer-answer :
        (max : ℕ) (next : Handler S) (inflight : ℕ) (s : S)
        → load_shed_layer max next (inflight, s) ≡ (
            if not (max == 0) && leb max inflight
            then (some shed_response, (inflight, s))
            else ((next s).0, (inflight, (next s).1)))
    unfolding load_shed_layer enter take_slot give_back
    load_shed_layer-answer max next inflight s = ground arith

    -- A request is answered by the first that refuses it, of the limit on headers, the cap on
    -- requests in flight and the token, and only if none does it reaches the handler. Whatever the
    -- answer is, the CORS layer has set its headers, also where the handler times out or panics, and
    -- as many requests are in flight as before. The limit on headers is below 2 ^ 64.
    pub layers-answer :
        (settings : Settings) (interrupted : Reply) (request : Arrival) (next : Handler S)
        (inflight : ℕ) (s : S)
        → settings.max_request_header_bytes < u64_max
        → layers settings interrupted request next (inflight, s) ≡ (
            let (reply, s') = first_answer settings request next inflight s in
            (cors_layer settings.cors request.headers interrupted reply, (inflight, s')))
    unfolding layers inner_layers first_answer
    layers-answer settings interrupted request next inflight s h = ground (
      arith,
      header_limit_layer-fits settings.max_request_header_bytes (axum.iter request.headers) h,
      load_shed_layer-answer settings.inflight_max
          (authorized
            (auth_layer http settings.mode settings.bearer_tokens settings.metrics_endpoint
              request.method request.path request.headers)
            next)
          inflight s,
    )
