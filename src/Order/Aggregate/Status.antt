-- ===== src/Order/Aggregate/Status.antt =====
-- The status that an event leaves.
use go_grpc_http.Base.{◌≡◌, ◌≢◌, Bool, true, false, arith, eq_iff}
use go_grpc_http.Base.Text.{◌==◌}
use go_grpc_http.Base.Action.{ok}
use go_grpc_http.Order.Model.{
  StoredEvent, status_pending, status_paid, status_cancelled, event_order_created, event_order_paid,
  event_order_cancelled,
}
use go_grpc_http.Order.Services.{Json}
use go_grpc_http.Order.Aggregate.{Order, apply}

pub pending-ne-paid : status_pending ≢ status_paid
pending-ne-paid e = cc ((eq_iff status_pending status_paid).1 e)

pub pending-ne-cancelled : status_pending ≢ status_cancelled
pending-ne-cancelled e = cc ((eq_iff status_pending status_cancelled).1 e)

pub status_of_paid :
    (json : Json) (is_new : Bool) (o o' : Order) (e : StoredEvent)
    → apply json e is_new o ≡ ok o'
    → e.event_type ≡ event_order_paid
    → o'.status ≡ status_paid
unfolding apply
status_of_paid json true o o' e h t =
    ground (arith, eq_iff e.event_type event_order_paid, ne_created t)
  where
    ne_created : e.event_type ≡ event_order_paid → (e.event_type == event_order_created) ≡ false
    ne_created t = rw t
status_of_paid json false o o' e h t =
    ground (arith, eq_iff e.event_type event_order_paid, ne_created t)
  where
    ne_created : e.event_type ≡ event_order_paid → (e.event_type == event_order_created) ≡ false
    ne_created t = rw t

pub status_of_cancelled :
    (json : Json) (is_new : Bool) (o o' : Order) (e : StoredEvent)
    → apply json e is_new o ≡ ok o'
    → e.event_type ≡ event_order_cancelled
    → o'.status ≡ status_cancelled
unfolding apply
status_of_cancelled json true o o' e h t =
    ground (arith, eq_iff e.event_type event_order_cancelled, ne_created t, ne_paid_event t)
  where
    ne_created :
        e.event_type ≡ event_order_cancelled → (e.event_type == event_order_created) ≡ false
    ne_created t = rw t

    ne_paid_event :
        e.event_type ≡ event_order_cancelled → (e.event_type == event_order_paid) ≡ false
    ne_paid_event t = rw t
status_of_cancelled json false o o' e h t =
    ground (arith, eq_iff e.event_type event_order_cancelled, ne_created t, ne_paid_event t)
  where
    ne_created :
        e.event_type ≡ event_order_cancelled → (e.event_type == event_order_created) ≡ false
    ne_created t = rw t

    ne_paid_event :
        e.event_type ≡ event_order_cancelled → (e.event_type == event_order_paid) ≡ false
    ne_paid_event t = rw t
