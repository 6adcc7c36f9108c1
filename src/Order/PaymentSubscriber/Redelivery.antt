-- ===== src/Order/PaymentSubscriber/Redelivery.antt =====
-- internal/order/event/payment_subscriber.go: payment events for an order that is settled already.
use go_grpc_http.Base.{
  ℕ, ◌+◌, String, ◌≡◌, ◌≢◌, refl, List, [], ◌∷◌, none, arith, inl, inr, Bool-cases, eq_iff, ◌∙◌,
  ◌⊎◌,
}
use go_grpc_http.Base.Text.{◌⧺◌, ◌==◌}
use go_grpc_http.Base.Action.{
  ok, err, Outcome, done, refused, lost, World, call, wrapping, lift, draw, ◌>>=◌, ◌>>◌,
}
use go_grpc_http.Nats.{Message}
use go_grpc_http.Payment.Model.{PaymentEvent}
use go_grpc_http.Order.Model.{StoredEvent, status_pending}
use go_grpc_http.Order.Services.{Services, OrderState, Handler}
use go_grpc_http.Order.Aggregate.{Order, load_from_events}
use go_grpc_http.Order.Aggregate
use go_grpc_http.Order.EventStore.{history, load}
use go_grpc_http.Order.PaymentSubscriber.{
  persist, require_order, mark_order_paid, cancel_order, handle_payment_event, deliver,
}

-- An order that is not pending refuses to be paid and to be cancelled.
refuses :
    {P R : Type 0} (d : Services P R) (now : ℕ) (text : String) (o : Order)
    → o.status ≢ status_pending
    → (Aggregate.mark_paid d.json now text o
        ≡ err ("can only pay pending orders, current status: " ⧺ o.status))
      × (Aggregate.cancel d.json now text o
          ≡ err ("can only cancel pending orders, current status: " ⧺ o.status))
unfolding Aggregate.mark_paid Aggregate.cancel
refuses d now text o final = (
  ground (arith, final, eq_iff o.status status_pending),
  ground (arith, final, eq_iff o.status status_pending),
)

module _ {P R : Type 0} (d : Services P R) (whole : (n : ℕ) → d.env.cut n ≡ none) where
  -- `Load` of a whole history leaves the state, and answers the history or an error.
  abbrev Loads : String → World (OrderState P R) → Type 0
  Loads order_id w =
      ((load d order_id w).1.state ≡ w.state)
      × (((load d order_id w).0 ≡ ok (history order_id w.state.events))
          ⊎ ((e : String) × ((load d order_id w).0 ≡ err e)))

  load_by_outcome :
      (order_id : String) (w : World (OrderState P R)) (o : Outcome)
      → d.env.outcome (w.calls + 1) ≡ o
      → Loads order_id w
  unfolding load call
  load_by_outcome order_id w done h = rw h (refl, inl (rw (whole w.calls) refl))
  load_by_outcome order_id w (refused e) h = rw h (refl, inr (_, refl))
  load_by_outcome order_id w (lost e) h = rw h (refl, inr (_, refl))

  load-history : (order_id : String) (w : World (OrderState P R)) → Loads order_id w
  load-history order_id w = load_by_outcome order_id w (d.env.outcome (w.calls + 1)) refl

  module _ (o : Order) (final : o.status ≢ status_pending) where
    abbrev pay : String → String → List StoredEvent → Handler P R Unit
    pay order_id payment_id events = do
      require_order d order_id events
      order ← wrapping "rebuild aggregate: " (lift (load_from_events d.json events))
      now ← draw d.env.now
      persist d (Aggregate.mark_paid d.json now payment_id order)

    pay-settled :
        (order_id payment_id : String) (events : List StoredEvent) (w : World (OrderState P R))
        → load_from_events d.json events ≡ ok o
        → (pay order_id payment_id events w).1.state ≡ w.state
    unfolding persist
    pay-settled order_id payment_id [] w loaded = refl
    pay-settled order_id payment_id (e ∷ es) w loaded =
        rw (loaded, (refuses d (d.env.now w.calls) payment_id o final).0) refl

    mark_order_paid-settled :
        (order_id payment_id : String) (w : World (OrderState P R))
        → load_from_events d.json (history order_id w.state.events) ≡ ok o
        → (mark_order_paid d order_id payment_id w).1.state ≡ w.state
    unfolding mark_order_paid
    mark_order_paid-settled order_id payment_id w loaded =
        let (kept, ends) = load-history order_id w in
        elim ends [
          | inl answered ↦ rw answered (
              pay-settled order_id payment_id (history order_id w.state.events)
                (load d order_id w).1 loaded
              ∙ kept)
          | inr (m, e) ↦ rw e kept
        ]

    cancel_order-settled :
        (order_id reason : String) (w : World (OrderState P R))
        → load_from_events d.json (history order_id w.state.events) ≡ ok o
        → (cancel_order d order_id reason w).1.state ≡ w.state
    unfolding cancel_order persist
    cancel_order-settled order_id reason w loaded =
        let (kept, ends) = load-history order_id w in
        elim ends [
          | inl answered ↦
              rw
                (
                  answered,
                  loaded,
                  (refuses d (d.env.now (load d order_id w).1.calls) reason o final).1,
                )
                kept
          | inr (m, e) ↦ rw e kept
        ]

  -- When queries return whole histories, a payment event for an order that was paid or cancelled
  -- already changes nothing, whatever its subject is and however the database call ends: a second
  -- delivery of an event has no effect.
  pub deliver-settled :
      (msg : Message) (p : PaymentEvent) (o : Order) (w : World (OrderState P R))
      → d.json.payment.unmarshal msg.body ≡ ok p
      → load_from_events d.json (history p.order_id w.state.events) ≡ ok o
      → o.status ≢ status_pending
      → (deliver d msg w).state ≡ w.state
  unfolding deliver handle_payment_event
  deliver-settled msg p o w decoded loaded final =
      elim (Bool-cases (msg.subject == "payments.completed")) [
        | inl paid ↦
            rw (decoded, paid) (mark_order_paid-settled o final p.order_id p.payment_id w loaded)
        | inr other ↦ elim (Bool-cases (msg.subject == "payments.failed")) [
          | inl failed ↦
              rw (decoded, other, failed)
                (cancel_order-settled o final p.order_id "payment failed" w loaded)
          | inr unknown ↦ rw (decoded, other, unknown) refl
        ]
      ]
