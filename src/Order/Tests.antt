-- ===== src/Order/Tests.antt =====
-- Runs of the order service on the sample order.
mod Service
mod Projection
mod Settlement
use go_grpc_http.Base.{List, ◌^◌, ◌-◌, eq_iff, String, ◌≡◌, refl, [], ◌∷◌, some, arith, ◌⊎◌, ◌≢◌}
use go_grpc_http.Base.Text.{◌⧺◌}
use go_grpc_http.Base.Int.{negsuc, IsInt64, pos, wrap64, ◌+ℤ◌, ◌*ℤ◌}
use go_grpc_http.Base.Action.{World, ok, err}
use go_grpc_http.Base.Sql.{take}
use go_grpc_http.Order.Model.{
  OrderItem, StoredEvent, status_pending, event_order_created, event_order_paid,
}
use go_grpc_http.Order.Aggregate.{
  Order, new_order, order_event, apply, load_from_events, place_order, cancel, mark_paid,
  total_from,
}
use go_grpc_http.Order.Aggregate.Laws.{
  load-settle, settled_refuses, load-place_order, place_order-IsPlacement, IsPlacement,
}
use go_grpc_http.Order.Aggregate.Replay.{Stores, by_payment}
use go_grpc_http.Order.EventStore.{append, insert_event, history}
use go_grpc_http.Order.EventStore.Append.{append_atomic, Wrote}
use go_grpc_http.Order.History.{IsOrderly}
use go_grpc_http.Order.History.Interleaving.{placed, settled, Reach, empty, next, Reach-IsOrderly}
use go_grpc_http.Order.ReadRepository.{get_by_id}
use go_grpc_http.Order.Projector.{view_of_created}
use go_grpc_http.Order.Projector
use go_grpc_http.Order.Projector.View.{deliver-created-visible}
use go_grpc_http.Order.PaymentSubscriber
use go_grpc_http.Order.PaymentSubscriber.Redelivery.{deliver-settled}
use mathlib.Core.Bool.{false≢true}
use go_grpc_http.Order.Aggregate.Total.{exact_total, total_from-exact_total}
use go_grpc_http.Order.Services.{OrderState}
use go_grpc_http.Order.Samples.Values.{pens, created}
use go_grpc_http.Order.Samples.{
  Entries, completed, json, json-IsLawful, redis-IsStore, services, start,
}

abbrev pub creation : StoredEvent
creation = order_event (record new_order { id = "o-1" }) event_order_created (1 ∷ []) 1000

abbrev pub placed_order : Order
placed_order = record {
  id = "o-1";
  user_id = "u-1";
  items = pens ∷ [];
  total_cents = pos 300;
  currency = "USD";
  status = status_pending;
  version = 1;
  changes = creation ∷ [];
}

pub placing : place_order json 1000 "o-1" "u-1" (pens ∷ []) "USD" new_order ≡ ok placed_order
unfolding place_order wrap64 ◌+ℤ◌ ◌*ℤ◌
placing = refl

abbrev pub creation_row : StoredEvent
creation_row = record creation { id = 7 }

pub creation_stored : Stores json creation creation_row
creation_stored = record {
  same_aggregate = refl;
  same_type = refl;
  same_version = refl;
  payload = refl;
}

abbrev pub loaded_order : Order
loaded_order = record placed_order { changes = [] }

load-place_order_example :
    (pens ∷ [] ≢ [])
    × (load_from_events json (creation_row ∷ []) ≡ ok loaded_order)
    × (loaded_order ≡ record {
      id = "o-1";
      user_id = "u-1";
      items = pens ∷ [];
      total_cents = total_from (pos 0) (pens ∷ []);
      currency = "USD";
      status = status_pending;
      version = 1;
      changes = [];
    })
load-place_order_example =
    load-place_order json json-IsLawful 1000 "o-1" "u-1" (pens ∷ []) "USD" placed_order creation
      creation_row placing refl creation_stored

place_order-IsPlacement_example : IsPlacement json "o-1" creation
place_order-IsPlacement_example =
    place_order-IsPlacement json json-IsLawful 1000 "o-1" "u-1" (pens ∷ []) "USD" placed_order
      creation placing refl

loading : load_from_events json (creation_row ∷ []) ≡ ok loaded_order
unfolding load_from_events apply
loading = refl

abbrev pub payment : StoredEvent
payment = order_event loaded_order event_order_paid (1 ∷ []) 2000

abbrev pub paid_order : Order
paid_order = record loaded_order { status = "paid"; version = 2; changes = payment ∷ [] }

pub paying : mark_paid json 2000 "pay-1" loaded_order ≡ ok paid_order
unfolding mark_paid
paying = refl

abbrev pub payment_row : StoredEvent
payment_row = record payment { id = 8 }

pub payment_stored : Stores json payment payment_row
payment_stored = record {
  same_aggregate = refl;
  same_type = refl;
  same_version = refl;
  payload = refl;
}

load-settle_example :
    load_from_events json (creation_row ∷ payment_row ∷ [])
    ≡ ok (record paid_order { changes = [] })
load-settle_example =
    load-settle json json-IsLawful (creation_row ∷ []) loaded_order paid_order payment payment_row
      loading (by_payment 2000 "pay-1" paying) refl payment_stored

settled_refuses_example :
    (cancel json 3000 "too late" paid_order
      ≡ err ("can only cancel pending orders, current status: " ⧺ "paid"))
    × (mark_paid json 3000 "too late" paid_order
        ≡ err ("can only pay pending orders, current status: " ⧺ "paid"))
settled_refuses_example =
    settled_refuses json loaded_order paid_order 3000 "too late" (by_payment 2000 "pay-1" paying)

first_insert : insert_event json 7 creation [] ≡ ok (creation_row ∷ [])
unfolding insert_event
first_insert = refl

second_insert :
    insert_event json 8 payment (creation_row ∷ []) ≡ ok (creation_row ∷ payment_row ∷ [])
unfolding insert_event
second_insert = refl

found_history : history "o-1" (creation_row ∷ []) ≡ creation_row ∷ []
unfolding history
found_history = refl

pub one_reached : Reach json (creation_row ∷ [])
one_reached =
    next empty
      (placed 1000 "o-1" "u-1" (pens ∷ []) "USD" placed_order creation 7 placing refl first_insert)

loading_history :
    load_from_events json (take 5 (history "o-1" (creation_row ∷ []))) ≡ ok loaded_order
loading_history = rw found_history loading

both_reached : Reach json (creation_row ∷ payment_row ∷ [])
both_reached = next one_reached (
    settled (creation_row ∷ []) [] "o-1" 5 loaded_order paid_order payment 8 refl loading_history
      (by_payment 2000 "pay-1" paying) refl second_insert)

Reach-IsOrderly_example : IsOrderly json (creation_row ∷ payment_row ∷ [])
Reach-IsOrderly_example =
    Reach-IsOrderly json json-IsLawful (creation_row ∷ payment_row ∷ []) both_reached

append_atomic_example :
    (((append services (creation ∷ []) start).0 ≡ ok tt)
      × Wrote services (creation ∷ []) start.state (append services (creation ∷ []) start).1.state)
    ⊎ ((e : String) × ((append services (creation ∷ []) start).0 ≡ err e)
        × (((append services (creation ∷ []) start).1.state ≡ start.state)
            ⊎ Wrote services
                (creation ∷ [])
                start.state
                (append services (creation ∷ []) start).1.state))
append_atomic_example = append_atomic services (creation ∷ []) start

deliver-created-visible_example :
    (get_by_id services "o-1"
      (Projector.deliver services (record { subject = "orders.created"; body = 1 ∷ [] }) start)).0
    ≡ ok (
        some (record {
          order_id = "o-1";
          user_id = "u-1";
          items = pens ∷ [];
          total_cents = pos 300;
          currency = "USD";
          status = "pending";
          payment_id = "";
          created_at = created.created_at;
          updated_at = created.created_at;
        }))
deliver-created-visible_example =
    deliver-created-visible services redis-IsStore json-IsLawful (λ n. refl) created (1 ∷ []) start
      refl refl (omega arith) (omega arith)

abbrev settled_world : World (OrderState Unit Entries)
settled_world = record start {
  state = record start.state { events = creation_row ∷ payment_row ∷ [] };
}

loading_settled :
    load_from_events json (history "o-1" settled_world.state.events)
    ≡ ok (record paid_order { changes = [] })
unfolding load_from_events apply history
loading_settled = refl

paid-ne-pending : paid_order.status ≢ status_pending
paid-ne-pending e = absurd (false≢true ((eq_iff paid_order.status status_pending).1 e))

deliver-settled_example :
    (PaymentSubscriber.deliver services
      (record { subject = "payments.completed"; body = 1 ∷ [] })
      settled_world).state
    ≡ settled_world.state
deliver-settled_example =
    deliver-settled services (λ n. refl) (record { subject = "payments.completed"; body = 1 ∷ [] })
      completed (record paid_order { changes = [] }) settled_world refl loading_settled
      paid-ne-pending

-- The first product alone does not fit an int64.
abbrev wide_items : List OrderItem
wide_items =
    record { product_id = "p-1"; product_name = ""; quantity = pos 2; price_cents = pos (2 ^ 62) }
    ∷ record {
      product_id = "p-2";
      product_name = "";
      quantity = pos 1;
      price_cents = negsuc (2 ^ 62 - 1);
    }
    ∷ []

wide_sum : exact_total wide_items ≡ pos (2 ^ 62)
unfolding exact_total ◌+ℤ◌ ◌*ℤ◌
wide_sum = refl

wide_fits : IsInt64 (exact_total wide_items)
wide_fits = rw wide_sum (omega arith, omega arith)

total_from-exact_total_example : total_from (pos 0) wide_items ≡ exact_total wide_items
total_from-exact_total_example = total_from-exact_total wide_items wide_fits
