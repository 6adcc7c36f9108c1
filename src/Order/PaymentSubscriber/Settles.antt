-- ===== src/Order/PaymentSubscriber/Settles.antt =====
-- internal/order/event/payment_subscriber.go: a payment event takes effect.
use go_grpc_http.Base.{ℕ, ◌+◌, String, ◌≡◌, refl, [], ◌∷◌, ◌++◌, true, false, none, arith, eq_iff}
use go_grpc_http.Base.Text.{fits}
use go_grpc_http.Base.Action.{ok, Time, Bytes, World, call}
use go_grpc_http.Payment.Model.{PaymentEvent}
use go_grpc_http.Order.Model.{
  OrderStatus, StoredEvent, status_pending, status_paid, status_cancelled, event_order_paid,
  event_order_cancelled,
}
use go_grpc_http.Order.Services.{Json, IsLawful, Services, OrderState}
use go_grpc_http.Order.Aggregate.{Order, order_event, apply, load_from_events}
use go_grpc_http.Order.Aggregate
use go_grpc_http.Order.Aggregate.Replay.{by_cancel, by_payment, loaded_changes, committed}
use go_grpc_http.Order.EventStore.{has_version, fits_columns, load, history}
use go_grpc_http.Order.Publisher.{nats_subject, message_of}
use go_grpc_http.Order.History.{IsOrderly}
use go_grpc_http.Order.PaymentSubscriber.{
  handle_payment_event, mark_order_paid, cancel_order, deliver,
}
use go_grpc_http.Order.PaymentSubscriber.Persist.{Open, Open-of_pending, persist_stored, with_row}
use go_grpc_http.Order.PaymentSubscriber.Settlement.{load-with_row}
use go_grpc_http.Order.Projector.View.{IsUp}

-- The aggregate after one more event.
abbrev pub after : Order → OrderStatus → StoredEvent → Order
after o order_status e = record o {
  status = order_status;
  version = o.version + 1;
  changes = e ∷ [];
}

-- What the two methods do to a pending order without changes.
mark_paid_pending :
    (json : Json) (now : Time) (payment_id : String) (o : Order) {b : Bytes}
    → o.status ≡ status_pending
    → o.changes ≡ []
    → json.paid.marshal (record { order_id = o.id; payment_id = payment_id; paid_at = now }) ≡ ok b
    → Aggregate.mark_paid json now payment_id o
      ≡ ok (after o status_paid (order_event o event_order_paid b now))
unfolding Aggregate.mark_paid apply
mark_paid_pending json now payment_id o pending fresh written =
    ground (arith, pending, fresh, written, eq_iff o.status status_pending)

pub cancel_pending :
    (json : Json) (now : Time) (reason : String) (o : Order) {b : Bytes}
    → o.status ≡ status_pending
    → o.changes ≡ []
    → json.cancelled.marshal (record { order_id = o.id; reason = reason; cancelled_at = now })
      ≡ ok b
    → Aggregate.cancel json now reason o
      ≡ ok (after o status_cancelled (order_event o event_order_cancelled b now))
unfolding Aggregate.cancel apply
cancel_pending json now reason o pending fresh written =
    ground (arith, pending, fresh, written, eq_iff o.status status_pending)

module _ {P R : Type 0} (d : Services P R) (law : IsLawful d.json) (up : IsUp d.env)
    (whole : (n : ℕ) → d.env.cut n ≡ none) where
  -- What a handler leaves that stores and publishes one settlement.
  abbrev settled_state : World (OrderState P R) → StoredEvent → Bytes → OrderState P R
  settled_state w e payload = record w.state {
    events = with_row (d.env.serial (w.calls + 1 + 1 + 1 + 1)) payload e w.state.events;
    published = w.state.published ++ message_of e ∷ [];
  }

  pub fits_settlement :
      (o : Order) (event_type : String) (b : Bytes) (now : Time)
      → fits 36 o.id ≡ true
      → fits 100 event_type ≡ true
      → o.version ≡ 1
      → fits_columns (order_event o event_type b now) ≡ true
  fits_settlement o event_type b now narrow short first = ground (arith, narrow, short, first)

  module _ (o : Order) (w : World (OrderState P R)) (id : String) {b b' : Bytes}
      (opened : Open d.json law id w.state.events o) (pending : o.status ≡ status_pending)
      (narrow : fits 36 o.id ≡ true) (kept : d.json.jsonb b ≡ ok b') where
    abbrev at : Time
    at = d.env.now (w.calls + 1 + 1)

    abbrev settlement : String → StoredEvent
    settlement event_type = order_event o event_type b at

    free_settlement :
        (event_type : String)
        → has_version
            (settlement event_type).aggregate_id
            (settlement event_type).version
            w.state.events
          ≡ false
    free_settlement event_type = rw (opened.named, opened.first) opened.free

    mark_order_paid-state :
        (payment_id : String)
        → d.json.paid.marshal (record { order_id = o.id; payment_id = payment_id; paid_at = at })
          ≡ ok b
        → (mark_order_paid d id payment_id w).1.state
          ≡ settled_state w (settlement event_order_paid) b'
    unfolding mark_order_paid load call
    mark_order_paid-state payment_id written =
        let fresh = loaded_changes d.json (opened.creation ∷ []) o opened.loaded in
        rw
          (
            up (w.calls + 1),
            whole w.calls,
            opened.read,
            opened.loaded,
            mark_paid_pending d.json at payment_id o pending fresh written,
          )
          (persist_stored d (after o status_paid (settlement event_order_paid))
            (settlement event_order_paid) (record w { calls = w.calls + 1 + 1 + 1 }) up refl
            (fits_settlement o event_order_paid b at narrow refl opened.first)
            (free_settlement event_order_paid) kept)

    cancel_order-state :
        (reason : String)
        → d.json.cancelled.marshal (record { order_id = o.id; reason = reason; cancelled_at = at })
          ≡ ok b
        → (cancel_order d id reason w).1.state
          ≡ settled_state w (settlement event_order_cancelled) b'
    unfolding cancel_order load call
    cancel_order-state reason written =
        let fresh = loaded_changes d.json (opened.creation ∷ []) o opened.loaded in
        rw
          (
            up (w.calls + 1),
            whole w.calls,
            opened.read,
            opened.loaded,
            cancel_pending d.json at reason o pending fresh written,
          )
          (persist_stored d (after o status_cancelled (settlement event_order_cancelled))
            (settlement event_order_cancelled) (record w { calls = w.calls + 1 + 1 + 1 }) up refl
            (fits_settlement o event_order_cancelled b at narrow refl opened.first)
            (free_settlement event_order_cancelled) kept)

  -- A completed payment pays the order that it names. For an order that is pending in an orderly
  -- table and whose id fits its column, with lawful codecs, while calls go through, queries return
  -- whole histories, and the event's payload can be marshalled and stored: the event
  -- payments.completed leaves a history that replays to an order with the status paid, and
  -- publishes one orders.paid event with that payload.
  pub deliver-pays :
      (body : Bytes) (p : PaymentEvent) (o : Order) (w : World (OrderState P R)) {b b' : Bytes}
      → d.json.payment.unmarshal body ≡ ok p
      → IsOrderly d.json w.state.events
      → load_from_events d.json (history p.order_id w.state.events) ≡ ok o
      → o.status ≡ status_pending
      → fits 36 o.id ≡ true
      → d.json.paid.marshal (record {
        order_id = o.id;
        payment_id = p.payment_id;
        paid_at = d.env.now (w.calls + 1 + 1);
      })
        ≡ ok b
      → d.json.jsonb b ≡ ok b'
      → (o' : Order) × (load_from_events d.json (
            history p.order_id
              (deliver d (record { subject = "payments.completed"; body = body }) w).state.events)
          ≡ ok o')
        × (o'.status ≡ status_paid)
        × ((deliver d (record { subject = "payments.completed"; body = body }) w).state.published
            ≡ w.state.published ++ record { subject = "orders.paid"; body = b } ∷ [])
  unfolding deliver handle_payment_event nats_subject
  deliver-pays body p o w {b} {b'} decoded orderly loaded pending narrow written kept =
      let now = d.env.now (w.calls + 1 + 1) in
      let opened = Open-of_pending d.json law p.order_id w.state.events o orderly loaded pending in
      let fresh = loaded_changes d.json (opened.creation ∷ []) o opened.loaded in
      let e = order_event o event_order_paid b now in
      let o' = after o status_paid e in
      let paid = mark_paid_pending d.json now p.payment_id o pending fresh written in
      let left =
        mark_order_paid-state o w p.order_id opened pending narrow kept p.payment_id written in
      (
        committed o',
        rw (decoded, left)
            (load-with_row d.json law p.order_id w.state.events o o' e _ opened
              (by_payment now p.payment_id paid) refl kept),
        refl,
        rw (decoded, left) refl,
      )

  -- A failed payment cancels the order that it names. For an order that is pending in an orderly
  -- table and whose id fits its column, with lawful codecs, while calls go through, queries return
  -- whole histories, and the event's payload can be marshalled and stored: the event
  -- payments.failed leaves a history that replays to an order with the status cancelled, and
  -- publishes one orders.cancelled event with that payload.
  pub deliver-cancels :
      (body : Bytes) (p : PaymentEvent) (o : Order) (w : World (OrderState P R)) {b b' : Bytes}
      → d.json.payment.unmarshal body ≡ ok p
      → IsOrderly d.json w.state.events
      → load_from_events d.json (history p.order_id w.state.events) ≡ ok o
      → o.status ≡ status_pending
      → fits 36 o.id ≡ true
      → d.json.cancelled.marshal (record {
        order_id = o.id;
        reason = "payment failed";
        cancelled_at = d.env.now (w.calls + 1 + 1);
      })
        ≡ ok b
      → d.json.jsonb b ≡ ok b'
      → (o' : Order) × (load_from_events d.json (
            history p.order_id
              (deliver d (record { subject = "payments.failed"; body = body }) w).state.events)
          ≡ ok o')
        × (o'.status ≡ status_cancelled)
        × ((deliver d (record { subject = "payments.failed"; body = body }) w).state.published
            ≡ w.state.published ++ record { subject = "orders.cancelled"; body = b } ∷ [])
  unfolding deliver handle_payment_event nats_subject
  deliver-cancels body p o w {b} {b'} decoded orderly loaded pending narrow written kept =
      let now = d.env.now (w.calls + 1 + 1) in
      let opened = Open-of_pending d.json law p.order_id w.state.events o orderly loaded pending in
      let fresh = loaded_changes d.json (opened.creation ∷ []) o opened.loaded in
      let e = order_event o event_order_cancelled b now in
      let o' = after o status_cancelled e in
      let gone = cancel_pending d.json now "payment failed" o pending fresh written in
      let left =
        cancel_order-state o w p.order_id opened pending narrow kept "payment failed" written in
      (
        committed o',
        rw (decoded, left)
            (load-with_row d.json law p.order_id w.state.events o o' e _ opened
              (by_cancel now "payment failed" gone) refl kept),
        refl,
        rw (decoded, left) refl,
      )
