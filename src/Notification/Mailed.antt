-- ===== src/Notification/Mailed.antt =====
-- internal/notification/event/subscriber.go: the events that notify, and their mail.
use go_grpc_http.Base.{ℕ, ◌+◌, String, ◌≡◌, refl, ◌∙◌, [], ◌∷◌, ◌++◌, true, false, inl, inr}
use go_grpc_http.Base.Text.{◌⧺◌, ◌==◌}
use go_grpc_http.Base.Action.{ok, done, World, call}
use go_grpc_http.Order.Model.{OrderCreatedPayload, OrderPaidPayload, OrderCancelledPayload}
use go_grpc_http.Payment.Model.{PaymentEvent}
use go_grpc_http.Notification.Model.{Notification, Mail, Services, NotifyState}
use go_grpc_http.Notification.Bridge.{Delivery}
use go_grpc_http.Notification.Sender.{is_configured, mail_text, send}
use go_grpc_http.Notification.Subscriber.{
  resolve_recipient, log, notify, handle_order_created, handle_order_paid, handle_order_cancelled,
  handle_payment_completed, handle_payment_failed, handle_message, consume,
}
use go_grpc_http.Notification.Once.{send-ok, log_notification-cases}

module _ (d : Services) where
  -- The routing keys of the five events, each with a payload that decodes.
  pub data IsReadable (msg : Delivery) : Type 0 where
    order_created :
        (p : OrderCreatedPayload)
        → msg.routing_key ≡ "orders.created"
        → d.created.unmarshal msg.body ≡ ok p
        → IsReadable msg
    order_paid :
        (p : OrderPaidPayload)
        → msg.routing_key ≡ "orders.paid"
        → d.paid.unmarshal msg.body ≡ ok p
        → IsReadable msg
    order_cancelled :
        (p : OrderCancelledPayload)
        → msg.routing_key ≡ "orders.cancelled"
        → d.cancelled.unmarshal msg.body ≡ ok p
        → IsReadable msg
    payment_completed :
        (p : PaymentEvent)
        → msg.routing_key ≡ "payments.completed"
        → d.payment.unmarshal msg.body ≡ ok p
        → IsReadable msg
    payment_failed :
        (p : PaymentEvent)
        → msg.routing_key ≡ "payments.failed"
        → d.payment.unmarshal msg.body ≡ ok p
        → IsReadable msg

  log-mails :
      (event_type recipient subject body : String) (w : World NotifyState)
      → (log d event_type recipient subject body w).1.state.mails ≡ w.state.mails
  unfolding log
  log-mails event_type recipient subject body w =
      let row : Notification = record {
        id = d.env.uuid w.calls;
        event_type = event_type;
        recipient = recipient;
        channel = "email";
        subject = subject;
        body = body;
        created_at = d.env.now (w.calls + 1);
      } in
      elim (log_notification-cases d row (record w { calls = w.calls + 1 + 1 })) [
        | inl same ↦ rw same refl
        | inr more ↦ rw more refl
      ]

  module _ (configured : is_configured d.sender ≡ true)
      (up : (n : ℕ) → d.env.outcome n ≡ done) where
    send-mails :
        (to subject body : String) (w : World NotifyState)
        → (send d to subject body w).1.state.mails
          ≡ w.state.mails ++ record { to = to; msg = mail_text d.sender to subject body } ∷ []
    unfolding send call
    send-mails to subject body w = rw (configured, up w.calls) refl

    -- A mail to the recipient behind the others.
    abbrev MailsTo : String → World NotifyState → World NotifyState → Type 0
    MailsTo to w w' = (m : Mail) × (w'.state.mails ≡ w.state.mails ++ m ∷ []) × (m.to ≡ to)

    notify-MailsTo :
        (event_type fallback subject text row_text : String) (w : World NotifyState)
        → MailsTo
            (resolve_recipient d.notify_email fallback)
            w
            (notify d event_type fallback subject text row_text w).1
    unfolding notify
    notify-MailsTo event_type fallback subject text row_text w =
        let to = resolve_recipient d.notify_email fallback in
        let w1 = (send d to subject text w).1 in
        (
          record { to = to; msg = mail_text d.sender to subject text },
          rw (send-ok d to subject text w)
              (log-mails event_type to subject row_text w1 ∙ send-mails to subject text w),
          refl,
        )

    configured_recipient :
        (fallback : String)
        → (d.notify_email == "") ≡ false
        → resolve_recipient d.notify_email fallback ≡ d.notify_email
    unfolding resolve_recipient
    configured_recipient fallback set = rw set refl

    -- Each event mails: with an SMTP server and a NOTIFY_EMAIL configured, while calls go through,
    -- a delivery of one of the five events whose payload decodes sends exactly one mail, to that
    -- address, whether or not its log row is accepted.
    pub consume-MailsTo :
        (msg : Delivery) (w : World NotifyState)
        → (d.notify_email == "") ≡ false
        → IsReadable msg
        → (m : Mail) × ((consume d msg w).state.mails ≡ w.state.mails ++ m ∷ [])
          × (m.to ≡ d.notify_email)
    unfolding consume handle_message handle_order_created handle_order_paid handle_order_cancelled
        handle_payment_completed handle_payment_failed
    consume-MailsTo msg w set (order_created p key decoded) =
        let (m, mails, to) : MailsTo (resolve_recipient d.notify_email p.user_id) w
            (consume d msg w) =
          rw (key, decoded)
            (notify-MailsTo "orders.created" p.user_id "Order Confirmed" _
              ("Order " ⧺ p.order_id ⧺ " placed") w) in
        (m, mails, to ∙ configured_recipient p.user_id set)
    consume-MailsTo msg w set (order_paid p key decoded) =
        let (m, mails, to) : MailsTo (resolve_recipient d.notify_email p.order_id) w
            (consume d msg w) =
          rw (key, decoded)
            (notify-MailsTo "orders.paid" p.order_id "Payment Received" _
              ("Payment " ⧺ p.payment_id ⧺ " for order " ⧺ p.order_id) w) in
        (m, mails, to ∙ configured_recipient p.order_id set)
    consume-MailsTo msg w set (order_cancelled p key decoded) =
        let (m, mails, to) : MailsTo (resolve_recipient d.notify_email p.order_id) w
            (consume d msg w) =
          rw (key, decoded)
            (notify-MailsTo "orders.cancelled" p.order_id "Order Cancelled" _
              ("Order " ⧺ p.order_id ⧺ " cancelled: " ⧺ p.reason) w) in
        (m, mails, to ∙ configured_recipient p.order_id set)
    consume-MailsTo msg w set (payment_completed p key decoded) =
        let (m, mails, to) : MailsTo (resolve_recipient d.notify_email p.order_id) w
            (consume d msg w) =
          rw (key, decoded)
            (notify-MailsTo "payments.completed" p.order_id "Payment Successful" _
              ("Payment " ⧺ p.payment_id ⧺ " completed") w) in
        (m, mails, to ∙ configured_recipient p.order_id set)
    consume-MailsTo msg w set (payment_failed p key decoded) =
        let (m, mails, to) : MailsTo (resolve_recipient d.notify_email p.order_id) w
            (consume d msg w) =
          rw (key, decoded)
            (notify-MailsTo "payments.failed" p.order_id "Payment Failed" _
              ("Payment failed for order " ⧺ p.order_id) w) in
        (m, mails, to ∙ configured_recipient p.order_id set)
