-- ===== src/Gateway.antt =====
-- internal/gateway/server.go: the CORS middleware and the top-level mux.
use go_grpc_http.Base.{ℕ, String, List, [], ◌∷◌, ◌++◌, if◌then◌else◌}
use go_grpc_http.Base.Text.{◌==◌}

pub record Response : Type 0 where
  pub code : ℕ
  pub headers : List (String × String)
  pub body : String

abbrev pub cors_headers : List (String × String)
cors_headers =
    ("Access-Control-Allow-Origin", "*")
    ∷ ("Access-Control-Allow-Methods", "GET, POST, PUT, DELETE, OPTIONS")
    ∷ ("Access-Control-Allow-Headers", "Content-Type, Authorization")
    ∷ []

-- A handler is given the headers that are already set, and answers.
abbrev pub HttpHandler : Type 0
HttpHandler = String → String → List (String × String) → Response

unfoldable pub cors_middleware : HttpHandler → String → String → Response
cors_middleware next method path =
    if method == "OPTIONS"
    then record { code = 204; headers = cors_headers; body = "" }
    else next method path cors_headers

-- `topMux`: /healthz, and the gateway's own mux for every other path
unfoldable pub top_mux : HttpHandler → HttpHandler
top_mux mux method path headers =
    if path == "/healthz"
    then record {
      code = 200;
      headers = headers ++ ("Content-Type", "application/json") ∷ [];
      body = "{\"status\":\"ok\"}";
    }
    else mux method path headers
