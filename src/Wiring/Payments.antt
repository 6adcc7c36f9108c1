-- ===== src/Wiring/Payments.antt =====
-- cmd/order-service/main.go and cmd/payment-service/main.go: the payment service pays the orders that
-- the order service placed.
use go_grpc_http.Base.{ℕ, ◌+◌, ◌≡◌, refl, sym, ◌∙◌, List, [], ◌∷◌, ◌++◌, true, none, arith, eq_iff}
use go_grpc_http.Base.Text.{fits}
use go_grpc_http.Base.Action.{ok, Env, World, Bytes}
use go_grpc_http.Base.Sql.{find_row}
use go_grpc_http.Nats.{Message}
use go_grpc_http.Order.Model.{
  OrderCreatedPayload, StoredEvent, event_order_created, status_pending, status_paid,
}
use go_grpc_http.Order.Services.{Json, IsLawful, Services, OrderState}
use go_grpc_http.Order.Aggregate.{Order, apply, load_from_events}
use go_grpc_http.Order.EventStore.{history}
use go_grpc_http.Order.History.{IsOrderly}
use go_grpc_http.Order.PaymentSubscriber
use go_grpc_http.Order.PaymentSubscriber.Persist.{Open-of_pending}
use go_grpc_http.Order.PaymentSubscriber.Settles.{deliver-pays}
use go_grpc_http.Order.Projector.View.{IsUp}
use go_grpc_http.Payment.Model.{Payment}
use go_grpc_http.Payment.Repository.{PaymentState, has_id, fits_columns}
use go_grpc_http.Payment.Repository
use go_grpc_http.Payment.Subscriber.{deliver}
use go_grpc_http.Payment.Subscriber.Paid.{
  completed_payment, deliver-completed_payment, deliver-publishes, event_of,
}

-- The payment service, with encoding/json as the order service has it.
abbrev pub payment_services : Json → Env → Repository.Services
payment_services json env = record { env = env; created = json.created; event = json.payment }

-- An order whose one row is its creation has the total and the currency of the row's payload.
created_amount :
    (json : Json) (creation : StoredEvent) (p : OrderCreatedPayload) (o : Order)
    → creation.event_type ≡ event_order_created
    → json.created.unmarshal creation.payload ≡ ok p
    → load_from_events json (creation ∷ []) ≡ ok o
    → (o.total_cents ≡ p.total_cents) × (o.currency ≡ p.currency)
unfolding load_from_events apply
created_amount json creation p o is_created decoded loaded =
    ground (arith, eq_iff creation.event_type event_order_created, is_created, decoded, loaded)

state_of_parts :
    (s : PaymentState) (rows : List Payment) (sent : List Message)
    → s.payments ≡ rows
    → s.published ≡ sent
    → s ≡ record { payments = rows; published = sent }
state_of_parts s rows sent a b = rw (← a, ← b) refl

module _ {P R : Type 0} (d : Services P R) (law : IsLawful d.json) (up : IsUp d.env)
    (whole : (n : ℕ) → d.env.cut n ≡ none) (theirs : Env) (their_up : IsUp theirs) where
  -- A placed order is paid. For an order that is pending in an orderly table, with lawful codecs,
  -- while calls go through on both sides and queries return whole histories, if the order's one row
  -- holds the payload of the orders.created message as a JSONB column gives it back, the payment has
  -- a new id and fits its columns, the order's id fits its own, and the payloads can be marshalled
  -- and stored: the payment service answers a delivery of the message with one payment behind the
  -- others and one event, the payment has the order's id, total and currency and the status
  -- "completed", and the delivery of that event to the order service leaves a history that replays
  -- to an order with the status paid.
  pub placed_order_is_paid :
      (body : Bytes) (p : OrderCreatedPayload) (creation : StoredEvent) (bank : World PaymentState)
      (o : Order) (w : World (OrderState P R)) {b paid kept : Bytes}
      → d.json.created.marshal p ≡ ok body
      → d.json.jsonb body ≡ ok creation.payload
      → history p.order_id w.state.events ≡ creation ∷ []
      → fits_columns (completed_payment (payment_services d.json theirs) their_up p bank.calls)
        ≡ true
      → find_row (has_id (theirs.uuid (bank.calls + 1))) bank.state.payments ≡ none
      → d.json.payment.marshal (event_of (payment_services d.json theirs) their_up p bank.calls)
        ≡ ok b
      → IsOrderly d.json w.state.events
      → load_from_events d.json (history p.order_id w.state.events) ≡ ok o
      → o.status ≡ status_pending
      → fits 36 o.id ≡ true
      → d.json.paid.marshal (record {
        order_id = o.id;
        payment_id = theirs.uuid (bank.calls + 1);
        paid_at = d.env.now (w.calls + 1 + 1);
      })
        ≡ ok paid
      → d.json.jsonb paid ≡ ok kept
      → (m : Message) × (o' : Order) × ((deliver
            (payment_services d.json theirs)
            (record { subject = "orders.created"; body = body })
            bank).state
          ≡ record {
            payments =
                bank.state.payments
                ++ record {
                  id = theirs.uuid (bank.calls + 1);
                  order_id = o.id;
                  amount_cents = o.total_cents;
                  currency = o.currency;
                  status = "completed";
                  method = "card";
                  created_at = theirs.now bank.calls;
                  updated_at = theirs.now (bank.calls + 1 + 1 + 1);
                }
                  ∷ [];
            published = bank.state.published ++ m ∷ [];
          })
        × (load_from_events d.json
              (history p.order_id (PaymentSubscriber.deliver d m w).state.events)
            ≡ ok o')
        × (o'.status ≡ status_paid)
  placed_order_is_paid body p creation bank o w {b} encoded stored_body alone fitting fresh written
        orderly loaded pending narrow marked stored =
      let bank_services = payment_services d.json theirs in
      let event = event_of bank_services their_up p bank.calls in
      let msg : Message = record { subject = "orders.created"; body = body } in
      let decoded = law.created_law.round_trip p encoded in
      let opened = Open-of_pending d.json law p.order_id w.state.events o orderly loaded pending in
      let same : opened.creation ∷ [] ≡ creation ∷ [] = sym opened.read ∙ alone in
      let is_created : creation.event_type ≡ event_order_created =
        ground (arith, same, opened.legal.is_created) in
      let (total, currency) =
        created_amount d.json creation p o is_created (law.jsonb_keeps p encoded stored_body)
          (rw alone at loaded) in
      let (o', replayed, is_paid, published) =
        deliver-pays d law up whole b event o w (law.payment_law.round_trip event written) orderly
          loaded pending narrow marked stored in
      (
        record { subject = "payments.completed"; body = b },
        o',
        rw (opened.named, total, currency)
            (state_of_parts _ _ _
              (deliver-completed_payment bank_services their_up msg p bank decoded fitting fresh)
              (deliver-publishes bank_services their_up msg p bank decoded fitting fresh written)),
        replayed,
        is_paid,
      )
