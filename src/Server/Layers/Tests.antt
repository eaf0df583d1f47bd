-- ===== src/Server/Layers/Tests.antt =====
-- The layers around a handler that counts its calls.
use corx.Config.Security.{bearer}
use corx.Config.Tree.{default_cors}
use corx.Cors.{from_config}
use corx.Http.Assoc.{assoc_http}
use corx.Prelude.{ℕ, ◌+◌, ◌≡◌, Option, some, [], ◌∷◌, codes, map, arith}
use corx.Server.Layers.{
  Axum, Reply, Arrival, Settings, cors_layer, layers, first_answer, layers-answer,
}

abbrev axum : Axum assoc_http
axum = record {
  text_headers = ("content-type", codes "text/plain") ∷ [];
  json_headers = ("content-type", codes "application/json") ∷ [];
  iter = map (λ (name, value). (codes name, value));
}

abbrev settings : Settings assoc_http axum
settings = record {
  max_request_header_bytes = 32768;
  inflight_max = 2;
  mode = bearer;
  bearer_tokens = codes "k9" ∷ [];
  metrics_endpoint = codes "/metrics";
  cors = from_config assoc_http default_cors;
}

abbrev request : Arrival assoc_http axum
request = record {
  method = "GET";
  path = codes "/https://b.test/";
  headers = ("authorization", codes "Bearer k9") ∷ [];
}

abbrev timeout : Reply assoc_http axum
timeout = record { status = 504; headers = [] }

abbrev handler : ℕ → Option (Reply assoc_http axum) × ℕ
handler calls = (some (record { status = 200; headers = [] }), calls + 1)

layers-answer_example : layers assoc_http axum settings timeout request handler (1, 0) ≡ (
    let (reply, calls) = first_answer assoc_http axum settings request handler 1 0 in
    (cors_layer assoc_http axum settings.cors request.headers timeout reply, (1, calls)))
layers-answer_example =
    layers-answer assoc_http axum settings timeout request handler 1 0 (omega arith)
