-- ===== src/Notification/Bridge.antt =====
-- internal/notification/event/bridge.go: NATS events are forwarded to RabbitMQ
-- (github.com/rabbitmq/amqp091-go). The state is what was published on the notifications exchange.
use go_grpc_http.Base.{Bool, true, String, List, [], ◌∷◌, ◌++◌}
use go_grpc_http.Base.Text.{◌⧺◌}
use go_grpc_http.Base.Action.{Env, Bytes, World, Action, call, exec, wrapping}
use go_grpc_http.Nats.{Message}

-- What is published of amqp.Publishing, with its routing key; a consumer gets the same back.
pub record Delivery : Type 0 where
  pub routing_key : String
  pub content_type : String
  pub body : Bytes
  pub persistent : Bool

abbrev pub Exchange : Type 0
Exchange = List Delivery

abbrev pub delivery_of : Message → Delivery
delivery_of msg = record {
  routing_key = msg.subject;
  content_type = "application/json";
  body = msg.body;
  persistent = true;
}

module _ (env : Env) where
  unfoldable pub forward : Message → Action String Exchange Unit
  unfolding call
  forward msg =
      wrapping ("rabbitmq publish " ⧺ msg.subject ⧺ ": ")
        (exec env (λ exchange. (tt, exchange ++ delivery_of msg ∷ [])))

  -- the callbacks of `Start`: an error is logged, and the message is acknowledged all the same
  unfoldable pub bridge : Message → World Exchange → World Exchange
  unfolding forward
  bridge msg w = (forward msg w).1

  unfoldable pub bridge_all : List Message → World Exchange → World Exchange
  unfolding bridge
  bridge_all [] w = w
  bridge_all (msg ∷ msgs) w = bridge_all msgs (bridge msg w)
