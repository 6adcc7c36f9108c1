-- ===== src/Order/Aggregate.antt =====
-- internal/order/aggregate/order.go. A method returns the new aggregate; on an error every caller
-- drops the aggregate. The clock and the uuid generator are read by the caller.
pub mod Replay
pub mod Status
pub mod Laws
pub mod Total
use go_grpc_http.Base.{
  ℕ, ◌+◌, String, List, [], ◌∷◌, ◌++◌, Bool, true, false, is_empty, if◌then◌else◌,
}
use go_grpc_http.Base.Text.{◌⧺◌, ◌==◌}
use go_grpc_http.Base.Int.{ℤ, pos, ◌+ℤ◌, ◌*ℤ◌, wrap64}
use go_grpc_http.Base.Action.{Result, ok, err, wrap_error, Time, Bytes}
use go_grpc_http.Order.Model.{
  OrderStatus, status_pending, status_paid, status_cancelled, OrderItem, StoredEvent,
  event_order_created, event_order_paid, event_order_cancelled, OrderCreatedPayload,
}
use go_grpc_http.Order.Services.{Json}

pub record Order : Type 0 where
  pub id : String
  pub user_id : String
  pub items : List OrderItem
  pub total_cents : ℤ
  pub currency : String
  pub status : OrderStatus
  pub version : ℕ
  pub changes : List StoredEvent

abbrev pub new_order : Order
new_order = record {
  id = "";
  user_id = "";
  items = [];
  total_cents = pos 0;
  currency = "";
  status = "";
  version = 0;
  changes = [];
}

-- `o.Version = event.Version`, and the append to `o.Changes`
abbrev record_event : StoredEvent → Bool → Order → Order
record_event event true o = record o { version = event.version; changes = o.changes ++ event ∷ [] }
record_event event false o = record o { version = event.version }

abbrev created_from : OrderCreatedPayload → Order → Order
created_from p o = record o {
  id = p.order_id;
  user_id = p.user_id;
  items = p.items;
  total_cents = p.total_cents;
  currency = p.currency;
  status = status_pending;
}

infixl 10 ◌>>=◌
abbrev ◌>>=◌ : {A B : Type 0} → Result String A → (A → Result String B) → Result String B
ok a >>= f = f a
err e >>= f = err e

unfoldable pub apply : Json → StoredEvent → Bool → Order → Result String Order
apply json event is_new o =
    if event.event_type == event_order_created
    then (do
      p ← json.created.unmarshal event.payload
      ok (record_event event is_new (created_from p o)))
    else if event.event_type == event_order_paid
    then ok (record_event event is_new (record o { status = status_paid }))
    else if event.event_type == event_order_cancelled
    then ok (record_event event is_new (record o { status = status_cancelled }))
    else ok (record_event event is_new o)

unfoldable pub replay : Json → Order → List StoredEvent → Result String Order
replay json o [] = ok o
replay json o (e ∷ events) = do
  o' ← wrap_error ("replay event " ⧺ e.event_type ⧺ ": ") (apply json e false o)
  replay json (record o' { version = e.version }) events

unfoldable pub load_from_events : Json → List StoredEvent → Result String Order
unfolding replay
load_from_events json events = replay json new_order events

-- the loop over the items: `total += item.PriceCents * int64(item.Quantity)`
unfoldable pub total_from : ℤ → List OrderItem → ℤ
total_from total [] = total
total_from total (item ∷ items) =
    total_from (wrap64 (total +ℤ wrap64 (item.price_cents *ℤ item.quantity))) items

abbrev pub order_event : Order → String → Bytes → Time → StoredEvent
order_event o event_type payload now = record {
  id = 0;
  aggregate_id = o.id;
  aggregate_type = "order";
  event_type = event_type;
  payload = payload;
  version = o.version + 1;
  created_at = now;
}

unfoldable pub place_order :
    Json → Time → String → String → List OrderItem → String → Order → Result String Order
unfolding total_from apply
place_order json now uuid user_id items currency o =
    if is_empty items then err "order must have at least one item" else do
      let o' = record o { id = uuid }
      payload ← wrap_error "marshal event: " (
          json.created.marshal (record {
            order_id = uuid;
            user_id = user_id;
            items = items;
            total_cents = total_from (pos 0) items;
            currency = currency;
            created_at = now;
          }))
      apply json (order_event o' event_order_created payload now) true o'

unfoldable pub cancel : Json → Time → String → Order → Result String Order
unfolding apply
cancel json now reason o =
    if o.status == status_pending
    then (do
      payload ←
          wrap_error "marshal event: " (
            json.cancelled.marshal
              (record { order_id = o.id; reason = reason; cancelled_at = now }))
      apply json (order_event o event_order_cancelled payload now) true o)
    else err ("can only cancel pending orders, current status: " ⧺ o.status)

unfoldable pub mark_paid : Json → Time → String → Order → Result String Order
unfolding apply
mark_paid json now payment_id o =
    if o.status == status_pending
    then (do
      payload ←
          wrap_error "marshal event: "
            (json.paid.marshal (record { order_id = o.id; payment_id = payment_id; paid_at = now }))
      apply json (order_event o event_order_paid payload now) true o)
    else err ("can only pay pending orders, current status: " ⧺ o.status)
