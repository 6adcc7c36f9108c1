-- ===== src/Payment/Subscriber.antt =====
-- internal/payment/event/subscriber.go: every created order is paid for.
pub mod Paid
use go_grpc_http.Base.{String}
use go_grpc_http.Base.Action.{Time, Bytes, World, pure, lift, draw, wrapping, handle, ◌>>=◌, ◌>>◌}
use go_grpc_http.Nats.{Message}
use go_grpc_http.Order.Model.{OrderCreatedPayload}
use go_grpc_http.Payment.Model.{Payment, status_pending, status_completed}
use go_grpc_http.Payment.Repository.{Services, PaymentState, Handler, create, update_status}
use go_grpc_http.Payment.Publisher.{publish_completed}

abbrev pub payment_for : OrderCreatedPayload → String → Time → Payment
payment_for p id now = record {
  id = id;
  order_id = p.order_id;
  amount_cents = p.total_cents;
  currency = p.currency;
  status = status_pending;
  method = "card";
  created_at = now;
  updated_at = now;
}

module _ (d : Services) where
  unfoldable pub handle_order_created : Bytes → Handler Unit
  unfolding create update_status publish_completed
  handle_order_created body = do
    payload ← wrapping "unmarshal: " (lift (d.created.unmarshal body))
    now ← draw d.env.now
    id ← draw d.env.uuid
    wrapping "create payment: " (create d (payment_for payload id now))
    wrapping "update status: " (update_status d id status_completed)
    handle (publish_completed d id payload.order_id) λ _. pure tt

  -- the callback of `Start`: an error is logged, and the message is acknowledged all the same
  unfoldable pub deliver : Message → World PaymentState → World PaymentState
  unfolding handle_order_created
  deliver msg w = (handle_order_created msg.body w).1
