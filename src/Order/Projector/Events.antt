-- ===== src/Order/Projector/Events.antt =====
-- internal/order/aggregate/order.go: the events that the methods record, as subscribers decode them.
use go_grpc_http.Base.{◌+◌, ◌≡◌, String, List, [], ◌∷◌, arith, inl, inr}
use go_grpc_http.Base.Action.{Result, ok, Result-cases, Time, Bytes}
use go_grpc_http.Order.Model.{
  OrderItem, OrderPaidPayload, OrderCancelledPayload, StoredEvent, event_order_created,
  event_order_paid, event_order_cancelled, status_paid, status_cancelled,
}
use go_grpc_http.Order.Services.{Json, IsLawful}
use go_grpc_http.Order.Aggregate.{Order, new_order, apply, place_order, cancel, mark_paid}
use go_grpc_http.Order.Aggregate.Laws.{created_payload}

-- What a published event says: its type, and the payload that subscribers decode.
pub record Says {A : Type 0} (e : StoredEvent) (event_type : String)
    (unmarshal : Bytes → Result String A) (p : A) : Type 0 where
  pub is_type : e.event_type ≡ event_type
  pub decoded : unmarshal e.payload ≡ ok p

module _ (json : Json) (law : IsLawful json) where
  pub placed_event :
      (now : Time) (uuid user_id : String) (items : List OrderItem) (currency : String) (o : Order)
      (e : StoredEvent)
      → place_order json now uuid user_id items currency new_order ≡ ok o
      → o.changes ≡ e ∷ []
      → Says e event_order_created json.created.unmarshal
          (created_payload now uuid user_id items currency)
  unfolding place_order apply
  placed_event now uuid user_id [] currency o e placed changed = absurd (ground arith)
  placed_event now uuid user_id (i ∷ is) currency o e placed changed =
      let payload = created_payload now uuid user_id (i ∷ is) currency in
      elim (Result-cases (json.created.marshal payload)) [
        | inl (b, m) ↦
            let decoded = law.created_law.round_trip payload m in
            record { is_type = ground (arith, m, decoded); decoded = ground (arith, m, decoded) }
        | inr (text, m) ↦ absurd (ground (arith, m))
      ]

  pub paid_event :
      (now : Time) (id : String) (o o' : Order) (e : StoredEvent)
      → o.changes ≡ []
      → mark_paid json now id o ≡ ok o'
      → o'.changes ≡ e ∷ []
      → Says e event_order_paid json.paid.unmarshal
          (record { order_id = o.id; payment_id = id; paid_at = now })
        × (o' ≡ record o { status = status_paid; version = o.version + 1; changes = e ∷ [] })
  unfolding mark_paid apply
  paid_event now id o o' e fresh settled changed =
      let payload : OrderPaidPayload = record { order_id = o.id; payment_id = id; paid_at = now } in
      elim (Result-cases (json.paid.marshal payload)) [
        | inl (b, m) ↦
            let decoded = law.paid_law.round_trip payload m in
            (
              record {
                is_type = ground (arith, m, fresh);
                decoded = ground (arith, m, decoded, fresh);
              },
              ground (arith, m, fresh),
            )
        | inr (text, m) ↦ absurd (ground (arith, m))
      ]

  pub cancelled_event :
      (now : Time) (reason : String) (o o' : Order) (e : StoredEvent)
      → o.changes ≡ []
      → cancel json now reason o ≡ ok o'
      → o'.changes ≡ e ∷ []
      → Says e event_order_cancelled json.cancelled.unmarshal
          (record { order_id = o.id; reason = reason; cancelled_at = now })
        × (o' ≡ record o { status = status_cancelled; version = o.version + 1; changes = e ∷ [] })
  unfolding cancel apply
  cancelled_event now reason o o' e fresh settled changed =
      let payload : OrderCancelledPayload = record {
        order_id = o.id;
        reason = reason;
        cancelled_at = now;
      } in
      elim (Result-cases (json.cancelled.marshal payload)) [
        | inl (b, m) ↦
            let decoded = law.cancelled_law.round_trip payload m in
            (
              record {
                is_type = ground (arith, m, fresh);
                decoded = ground (arith, m, decoded, fresh);
              },
              ground (arith, m, fresh),
            )
        | inr (text, m) ↦ absurd (ground (arith, m))
      ]
