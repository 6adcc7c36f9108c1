-- ===== src/Order/PaymentSubscriber/Stock.antt =====
-- internal/order/event/payment_subscriber.go: payment events and the stock of the products.
use go_grpc_http.Base.{String, ◌≡◌, refl, List, [], ◌∷◌}
use go_grpc_http.Base.Text.{◌==◌}
use go_grpc_http.Base.Action.{Result, ok, err, World}
use go_grpc_http.Base.Keeps.{
  Keeps, Keeps-pure, Keeps-fail, Keeps-draw, Keeps-lift, Keeps-if, Keeps-wrapping, Keeps-bind,
  Keeps-handle,
}
use go_grpc_http.Nats.{Message}
use go_grpc_http.Order.Model.{StoredEvent}
use go_grpc_http.Order.Services.{Services, OrderState}
use go_grpc_http.Order.Aggregate.{Order}
use go_grpc_http.Order.Aggregate
use go_grpc_http.Order.Keeps.{load-Keeps, append-Keeps, publish-Keeps}
use go_grpc_http.Order.PaymentSubscriber.{
  persist, require_order, mark_order_paid, cancel_order, handle_payment_event, deliver,
}

module _ {P R : Type 0} (d : Services P R) (p : P) where
  -- The product service's side of the state is `p`.
  abbrev HasProducts : OrderState P R → Type 0
  HasProducts s = s.products ≡ p

  persist-Keeps : (r : Result String Order) → Keeps HasProducts (persist d r)
  unfolding persist
  persist-Keeps (err e) = Keeps-pure tt
  persist-Keeps (ok order) =
      Keeps-bind _ _
        (Keeps-wrapping "persist events: " _
          (append-Keeps d HasProducts (λ s rows h. h) order.changes))
        λ _.
          Keeps-handle _ _ (publish-Keeps d HasProducts (λ s sent h. h) order.changes)
            λ _. Keeps-pure tt

  require_order-Keeps :
      (id : String) (events : List StoredEvent) → Keeps HasProducts (require_order d id events)
  require_order-Keeps id [] = Keeps-fail _
  require_order-Keeps id (e ∷ es) = Keeps-pure tt

  mark_order_paid-Keeps :
      (order_id payment_id : String) → Keeps HasProducts (mark_order_paid d order_id payment_id)
  unfolding mark_order_paid
  mark_order_paid-Keeps order_id payment_id =
      Keeps-bind _ _ (Keeps-wrapping "load events: " _ (load-Keeps d HasProducts order_id))
        λ events. Keeps-bind _ _ (require_order-Keeps order_id events) λ _.
          Keeps-bind _ _
            (Keeps-wrapping "rebuild aggregate: " _
              (Keeps-lift (Aggregate.load_from_events d.json events)))
            λ order.
              Keeps-bind _ _ (Keeps-draw d.env.now)
                λ now. persist-Keeps (Aggregate.mark_paid d.json now payment_id order)

  cancel_order-Keeps :
      (order_id reason : String) → Keeps HasProducts (cancel_order d order_id reason)
  unfolding cancel_order
  cancel_order-Keeps order_id reason =
      Keeps-bind _ _ (Keeps-wrapping "load events: " _ (load-Keeps d HasProducts order_id))
        λ events.
          Keeps-bind _ _
            (Keeps-wrapping "rebuild aggregate: " _
              (Keeps-lift (Aggregate.load_from_events d.json events)))
            λ order.
              Keeps-bind _ _ (Keeps-draw d.env.now)
                λ now. persist-Keeps (Aggregate.cancel d.json now reason order)

  handle_payment_event-Keeps : (msg : Message) → Keeps HasProducts (handle_payment_event d msg)
  unfolding handle_payment_event
  handle_payment_event-Keeps msg =
      Keeps-bind _ _ (Keeps-wrapping "unmarshal: " _ (Keeps-lift _)) λ payload.
        Keeps-if (msg.subject == "payments.completed") _ _
          (mark_order_paid-Keeps payload.order_id payload.payment_id)
          (Keeps-if (msg.subject == "payments.failed") _ _
            (cancel_order-Keeps payload.order_id "payment failed") (Keeps-pure tt))

module _ {P R : Type 0} (d : Services P R) where
  -- However its calls end, a payment event leaves the product service's side of the state as it was:
  -- what an order that it cancels had reserved stays reserved.
  pub deliver-products :
      (msg : Message) (w : World (OrderState P R))
      → (deliver d msg w).state.products ≡ w.state.products
  unfolding deliver
  deliver-products msg w = (handle_payment_event-Keeps d w.state.products msg).at w refl
