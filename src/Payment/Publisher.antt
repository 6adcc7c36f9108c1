-- ===== src/Payment/Publisher.antt =====
-- internal/payment/event/publisher.go
use go_grpc_http.Base.{String, [], ◌∷◌, ◌++◌}
use go_grpc_http.Base.Text.{◌⧺◌}
use go_grpc_http.Base.Action.{lift, draw, call, exec, wrapping, ◌>>=◌}
use go_grpc_http.Payment.Repository.{Services, Handler}

module _ (d : Services) where
  unfoldable pub publish : String → String → String → String → Handler Unit
  unfolding call
  publish subject payment_id order_id status = do
    now ← draw d.env.now
    body ← wrapping "marshal: " (
        lift (
          d.event.marshal (record {
            payment_id = payment_id;
            order_id = order_id;
            status = status;
            timestamp = now;
          })))
    wrapping ("publish " ⧺ subject ⧺ ": ") (
        exec d.env λ s. (
          tt,
          record s { published = s.published ++ record { subject = subject; body = body } ∷ [] },
        ))

  unfoldable pub publish_completed : String → String → Handler Unit
  unfolding publish
  publish_completed payment_id order_id =
      publish "payments.completed" payment_id order_id "completed"

  unfoldable pub publish_failed : String → String → Handler Unit
  unfolding publish
  publish_failed payment_id order_id = publish "payments.failed" payment_id order_id "failed"
