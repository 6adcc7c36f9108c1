-- ===== src/Notification/Subscriber.antt =====
-- internal/notification/event/subscriber.go: a mail and a log row for each event.
use go_grpc_http.Base.{String, List, [], ◌∷◌, if◌then◌else◌}
use go_grpc_http.Base.Text.{◌⧺◌, ◌==◌}
use go_grpc_http.Base.Action.{World, pure, lift, draw, ◌>>=◌, ◌>>◌}
use go_grpc_http.Notification.Model.{Services, NotifyState, Handler}
use go_grpc_http.Notification.Sender.{send, log_notification}
use go_grpc_http.Notification.Bridge.{Delivery}

unfoldable pub resolve_recipient : String → String → String
resolve_recipient notify_email fallback = if notify_email == "" then fallback else notify_email

module _ (d : Services) where
  unfoldable pub log : String → String → String → String → Handler Unit
  unfolding log_notification
  log event_type recipient subject body = do
    id ← draw d.env.uuid
    now ← draw d.env.now
    log_notification d (record {
      id = id;
      event_type = event_type;
      recipient = recipient;
      channel = "email";
      subject = subject;
      body = body;
      created_at = now;
    })

  -- a mail, and the row that logs it: the last lines of each case
  unfoldable pub notify : String → String → String → String → String → Handler Unit
  unfolding log send resolve_recipient
  notify event_type fallback subject text row_text = do
    send d (resolve_recipient d.notify_email fallback) subject text
    log event_type (resolve_recipient d.notify_email fallback) subject row_text

  unfoldable pub handle_order_created : Delivery → Handler Unit
  unfolding notify
  handle_order_created msg = do
    p ← lift (d.created.unmarshal msg.body)
    notify "orders.created" p.user_id "Order Confirmed"
        ("Your order " ⧺ p.order_id ⧺ " has been placed. Total: " ⧺ d.dollars p.total_cents)
        ("Order " ⧺ p.order_id ⧺ " placed")

  unfoldable pub handle_order_paid : Delivery → Handler Unit
  unfolding notify
  handle_order_paid msg = do
    p ← lift (d.paid.unmarshal msg.body)
    notify "orders.paid" p.order_id "Payment Received"
        ("Payment " ⧺ p.payment_id ⧺ " received for order " ⧺ p.order_id)
        ("Payment " ⧺ p.payment_id ⧺ " for order " ⧺ p.order_id)

  unfoldable pub handle_order_cancelled : Delivery → Handler Unit
  unfolding notify
  handle_order_cancelled msg = do
    p ← lift (d.cancelled.unmarshal msg.body)
    notify "orders.cancelled" p.order_id "Order Cancelled"
        ("Order " ⧺ p.order_id ⧺ " has been cancelled. Reason: " ⧺ p.reason)
        ("Order " ⧺ p.order_id ⧺ " cancelled: " ⧺ p.reason)

  unfoldable pub handle_payment_completed : Delivery → Handler Unit
  unfolding notify
  handle_payment_completed msg = do
    p ← lift (d.payment.unmarshal msg.body)
    notify "payments.completed" p.order_id "Payment Successful"
        ("Payment " ⧺ p.payment_id ⧺ " completed for order " ⧺ p.order_id)
        ("Payment " ⧺ p.payment_id ⧺ " completed")

  unfoldable pub handle_payment_failed : Delivery → Handler Unit
  unfolding notify
  handle_payment_failed msg = do
    p ← lift (d.payment.unmarshal msg.body)
    notify "payments.failed" p.order_id "Payment Failed" ("Payment failed for order " ⧺ p.order_id)
        ("Payment failed for order " ⧺ p.order_id)

  -- the cases of `handleMessage`
  unfoldable pub handle_message : Delivery → Handler Unit
  unfolding handle_order_created handle_order_paid handle_order_cancelled handle_payment_completed
      handle_payment_failed
  handle_message msg =
      if msg.routing_key == "orders.created"
      then handle_order_created msg
      else if msg.routing_key == "orders.paid"
      then handle_order_paid msg
      else if msg.routing_key == "orders.cancelled"
      then handle_order_cancelled msg
      else if msg.routing_key == "payments.completed"
      then handle_payment_completed msg
      else if msg.routing_key == "payments.failed"
      then handle_payment_failed msg
      else pure tt

  -- a round of the loop of `Start`: an error is logged, and the message is acknowledged all the same
  unfoldable pub consume : Delivery → World NotifyState → World NotifyState
  unfolding handle_message
  consume msg w = (handle_message msg w).1

  unfoldable pub consume_all : List Delivery → World NotifyState → World NotifyState
  unfolding consume
  consume_all [] w = w
  consume_all (msg ∷ msgs) w = consume_all msgs (consume msg w)
