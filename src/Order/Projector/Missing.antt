-- ===== src/Order/Projector/Missing.antt =====
-- internal/order/event/projector.go: payments and cancellations of orders without a view.
use go_grpc_http.Base.{String, ◌≡◌, none, ◌⊎◌}
use go_grpc_http.Base.Action.{ok, err, World}
use go_grpc_http.Nats.{Message}
use go_grpc_http.Order.Model.{OrderPaidPayload, OrderCancelledPayload}
use go_grpc_http.Order.Services.{Services, OrderState}
use go_grpc_http.Order.ReadRepository.{get_by_id}

module _ {P R : Type 0} (d : Services P R) where
  -- The message settles the order of that id.
  pub data SettlesOrder (id : String) (msg : Message) : Type 0 where
    pays :
        (p : OrderPaidPayload)
        → msg.subject ≡ "orders.paid"
        → d.json.paid.unmarshal msg.body ≡ ok p
        → p.order_id ≡ id
        → SettlesOrder id msg
    cancels :
        (p : OrderCancelledPayload)
        → msg.subject ≡ "orders.cancelled"
        → d.json.cancelled.unmarshal msg.body ≡ ok p
        → p.order_id ≡ id
        → SettlesOrder id msg

  -- No view is answered, and the state stays.
  abbrev NoView : String → World (OrderState P R) → Type 0
  NoView id w =
      (((get_by_id d id w).0 ≡ ok none) ⊎ ((e : String) × ((get_by_id d id w).0 ≡ err e)))
      × ((get_by_id d id w).1.state ≡ w.state)
