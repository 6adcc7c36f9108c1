-- ===== src/Nats.antt =====
-- What the services hand to NATS JetStream and get from it (github.com/nats-io/nats.go).
use go_grpc_http.Base.{String}
use go_grpc_http.Base.Action.{Bytes}

pub record Message : Type 0 where
  pub subject : String
  pub body : Bytes
