-- ===== src/Order/Publisher.antt =====
-- internal/order/event/publisher.go
use go_grpc_http.Base.{String, List, [], ◌∷◌, ◌++◌, if◌then◌else◌}
use go_grpc_http.Base.Text.{◌⧺◌, ◌==◌}
use go_grpc_http.Base.Action.{pure, call, exec, wrapping, ◌>>◌}
use go_grpc_http.Nats.{Message}
use go_grpc_http.Order.Model.{
  EventType, StoredEvent, event_order_created, event_order_paid, event_order_cancelled,
}
use go_grpc_http.Order.Services.{Services, Handler}

unfoldable pub nats_subject : EventType → String
nats_subject event_type =
    if event_type == event_order_created
    then "orders.created"
    else if event_type == event_order_paid
    then "orders.paid"
    else if event_type == event_order_cancelled
    then "orders.cancelled"
    else "orders.unknown"

abbrev pub message_of : StoredEvent → Message
message_of e = record { subject = nats_subject e.event_type; body = e.payload }

module _ {P R : Type 0} (d : Services P R) where
  unfoldable pub publish : List StoredEvent → Handler P R Unit
  unfolding call
  publish [] = pure tt
  publish (e ∷ events) = do
    wrapping ("publish " ⧺ nats_subject e.event_type ⧺ ": ")
        (exec d.env (λ s. (tt, record s { published = s.published ++ message_of e ∷ [] })))
    publish events
