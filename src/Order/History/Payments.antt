-- ===== src/Order/History/Payments.antt =====
-- internal/order/event/payment_subscriber.go: the subscriber of payment events as steps of the history.
use go_grpc_http.Base.{ℕ, ◌+◌, String, ◌≡◌, refl, ap, sym, ◌∙◌, List, [], ◌∷◌, inl, inr, Bool-cases}
use go_grpc_http.Base.Text.{◌==◌}
use go_grpc_http.Base.Action.{
  Result, ok, err, Result-cases, World, lift, draw, wrapping, ◌>>=◌, ◌>>◌,
}
use go_grpc_http.Base.Keeps.{Keeps-pure, Keeps-lift, Keeps-wrapping}
use go_grpc_http.Base.Sql.{take}
use go_grpc_http.Nats.{Message}
use go_grpc_http.Order.Model.{StoredEvent}
use go_grpc_http.Order.Services.{Services, OrderState, Handler}
use go_grpc_http.Order.Aggregate.{Order, new_order, load_from_events}
use go_grpc_http.Order.Aggregate
use go_grpc_http.Order.Aggregate.Replay.{Settles, by_cancel, by_payment}
use go_grpc_http.Order.EventStore.{append, history}
use go_grpc_http.Order.PaymentSubscriber.{
  persist, require_order, handle_payment_event, mark_order_paid, deliver,
}
use go_grpc_http.Order.PaymentSubscriber
use go_grpc_http.Order.History.Steps.{AtMostStep, Moves, Leaves-Moves, Moves-then, step_first}
use go_grpc_http.Order.History.Handlers.{published-Leaves, settle_step, history-Moves}

module _ {P R : Type 0} (d : Services P R) where
  -- What the subscriber does with the aggregate's answer.
  persist-step :
      (order_id : String) (n : ℕ) (w : World (OrderState P R)) (o : Order) (r : Result String Order)
      → load_from_events d.json (take n (history order_id w.state.events)) ≡ ok o
      → ((o' : Order) → r ≡ ok o' → Settles d.json o o')
      → AtMostStep d.json w.state.events (persist d r w).1.state.events
  unfolding persist
  persist-step order_id n w o (err e) loaded settles = inl refl
  persist-step order_id n w o (ok o') loaded settles =
      step_first d (wrapping "persist events: " (append d o'.changes)) _ w
        (settle_step d order_id n w o o' loaded (settles o' refl))
        (λ _. published-Leaves d o'.changes _ (λ r rows. Keeps-pure tt))

  abbrev pay_rest : String → String → List StoredEvent → Handler P R Unit
  pay_rest order_id payment_id events = do
    require_order d order_id events
    order ← wrapping "rebuild aggregate: " (lift (load_from_events d.json events))
    now ← draw d.env.now
    persist d (Aggregate.mark_paid d.json now payment_id order)

  abbrev fail_rest : String → List StoredEvent → Handler P R Unit
  fail_rest reason events = do
    order ← wrapping "rebuild aggregate: " (lift (load_from_events d.json events))
    now ← draw d.env.now
    persist d (Aggregate.cancel d.json now reason order)

  fail_rest-step :
      (order_id reason : String) (n : ℕ) (events : List StoredEvent) (w : World (OrderState P R))
      → events ≡ take n (history order_id w.state.events)
      → AtMostStep d.json w.state.events (fail_rest reason events w).1.state.events
  fail_rest-step order_id reason n events w read =
      elim (Result-cases (load_from_events d.json events)) [
        | inr (m, e) ↦ rw e (inl refl)
        | inl (o, e) ↦
            let loaded = sym (ap (load_from_events d.json) read) ∙ e in
            rw e (
              persist-step order_id n (record w { calls = w.calls + 1 }) o
                (Aggregate.cancel d.json (d.env.now w.calls) reason o) loaded
                (λ o' h. by_cancel (d.env.now w.calls) reason h))
      ]

  pay_rest-step :
      (order_id payment_id : String) (n : ℕ) (events : List StoredEvent)
      (w : World (OrderState P R))
      → events ≡ take n (history order_id w.state.events)
      → AtMostStep d.json w.state.events (pay_rest order_id payment_id events w).1.state.events
  pay_rest-step order_id payment_id n [] w read = inl refl
  pay_rest-step order_id payment_id n (row ∷ rows) w read =
      elim (Result-cases (load_from_events d.json (row ∷ rows))) [
        | inr (m, e) ↦ rw e (inl refl)
        | inl (o, e) ↦
            let loaded = sym (ap (load_from_events d.json) read) ∙ e in
            rw e (
              persist-step order_id n (record w { calls = w.calls + 1 }) o
                (Aggregate.mark_paid d.json (d.env.now w.calls) payment_id o) loaded
                (λ o' h. by_payment (d.env.now w.calls) payment_id h))
      ]

  pub handle_payment_event-Moves : (msg : Message) → Moves d (handle_payment_event d msg)
  unfolding handle_payment_event PaymentSubscriber.mark_order_paid PaymentSubscriber.cancel_order
  handle_payment_event-Moves msg =
      Moves-then d (wrapping "unmarshal: " (lift (d.json.payment.unmarshal msg.body))) _
        (λ rows. Keeps-wrapping "unmarshal: " _ (Keeps-lift (d.json.payment.unmarshal msg.body)))
        λ p. elim (Bool-cases (msg.subject == "payments.completed")) [
          | inl paid ↦
              rw paid (history-Moves d p.order_id _ (pay_rest-step p.order_id p.payment_id))
          | inr other ↦ elim (Bool-cases (msg.subject == "payments.failed")) [
            | inl failed ↦
                rw (other, failed)
                  (history-Moves d p.order_id _ (fail_rest-step p.order_id "payment failed"))
            | inr unknown ↦ rw (other, unknown) (Leaves-Moves d _ (λ rows. Keeps-pure tt))
          ]
        ]
