-- ===== src/Order/PaymentSubscriber.antt =====
-- internal/order/event/payment_subscriber.go: payment events change the status of orders.
pub mod Stock
pub mod Redelivery
pub mod Persist
pub mod Settlement
pub mod Settles
use go_grpc_http.Base.{String, List, [], ◌∷◌, if◌then◌else◌}
use go_grpc_http.Base.Text.{◌⧺◌, ◌==◌}
use go_grpc_http.Base.Action.{
  Result, ok, err, World, pure, fail, lift, draw, wrapping, handle, ◌>>=◌, ◌>>◌,
}
use go_grpc_http.Nats.{Message}
use go_grpc_http.Order.Model.{StoredEvent}
use go_grpc_http.Order.Services.{Services, OrderState, Handler}
use go_grpc_http.Order.Aggregate.{Order}
use go_grpc_http.Order.Aggregate
use go_grpc_http.Order.EventStore.{append, load}
use go_grpc_http.Order.Publisher.{publish}

module _ {P R : Type 0} (d : Services P R) where
  abbrev pub require_order : String → List StoredEvent → Handler P R Unit
  require_order order_id [] = fail ("order " ⧺ order_id ⧺ " not found")
  require_order order_id (e ∷ es) = pure tt

  -- What both methods do with the aggregate's answer: a refusal is logged and is no error, an
  -- event is persisted and then published; a failed publish is logged.
  unfoldable pub persist : Result String Order → Handler P R Unit
  unfolding append publish
  persist (err e) = pure tt
  persist (ok order) = do
    wrapping "persist events: " (append d order.changes)
    handle (publish d order.changes) λ _. pure tt

  unfoldable pub mark_order_paid : String → String → Handler P R Unit
  unfolding persist load
  mark_order_paid order_id payment_id = do
    events ← wrapping "load events: " (load d order_id)
    require_order order_id events
    order ← wrapping "rebuild aggregate: " (lift (Aggregate.load_from_events d.json events))
    now ← draw d.env.now
    persist (Aggregate.mark_paid d.json now payment_id order)

  unfoldable pub cancel_order : String → String → Handler P R Unit
  unfolding persist load
  cancel_order order_id reason = do
    events ← wrapping "load events: " (load d order_id)
    order ← wrapping "rebuild aggregate: " (lift (Aggregate.load_from_events d.json events))
    now ← draw d.env.now
    persist (Aggregate.cancel d.json now reason order)

  unfoldable pub handle_payment_event : Message → Handler P R Unit
  unfolding mark_order_paid cancel_order
  handle_payment_event msg = do
    payload ← wrapping "unmarshal: " (lift (d.json.payment.unmarshal msg.body))
    (if msg.subject == "payments.completed"
        then mark_order_paid payload.order_id payload.payment_id
        else if msg.subject == "payments.failed"
        then cancel_order payload.order_id "payment failed"
        else pure tt)

  -- the callback of `Start`: an error is logged, and the message is acknowledged all the same
  unfoldable pub deliver : Message → World (OrderState P R) → World (OrderState P R)
  unfolding handle_payment_event
  deliver msg w = (handle_payment_event msg w).1
