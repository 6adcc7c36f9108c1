-- ===== src/Payment/Subscriber/Paid.antt =====
-- internal/payment/event/subscriber.go: what a delivered orders.created event leaves in the table.
use go_grpc_http.Base.{
  ℕ, String, ◌≡◌, refl, List, [], ◌∷◌, ◌++◌, true, none, some, arith, inl, inr, ◌+◌, ap, Bool-cases,
  eq_refl,
}
use go_grpc_http.Base.Text.{◌⧺◌, ◌==◌}
use go_grpc_http.Base.Keeps.{Keeps, Keeps-bind, Keeps-draw, Keeps-wrapping, Keeps-lift, Keeps-call}
use go_grpc_http.Base.Action.{ok, Bytes, World, done, call}
use go_grpc_http.Base.Sql.{find_row, update_rows}
use go_grpc_http.Nats.{Message}
use go_grpc_http.Order.Model.{OrderCreatedPayload}
use go_grpc_http.Payment.Model.{Payment, PaymentEvent, status_completed}
use go_grpc_http.Payment.Repository.{
  Services, PaymentState, has_id, insert_payment, fits_columns, set_status, create, update_status,
}
use go_grpc_http.Payment.Publisher.{publish_completed, publish}
use go_grpc_http.Payment.Subscriber.{payment_for, handle_order_created, deliver}

-- The row of a new id goes to the end, and an update by that id reaches it alone.
update-append :
    (f : Payment → Payment) (p : Payment) (rows : List Payment)
    → find_row (has_id p.id) rows ≡ none
    → update_rows (has_id p.id) f (rows ++ p ∷ []) ≡ rows ++ f p ∷ []
unfolding find_row update_rows
update-append f p [] h = rw (eq_refl p.id) refl
update-append f p (x ∷ rows) h = elim (Bool-cases (x.id == p.id)) [
  | inl same ↦ absurd (ground (arith, same))
  | inr other ↦ rw other (ap (λ r. x ∷ r) (update-append f p rows (rw other at h)))
]

find-append :
    (p : Payment) (rows : List Payment)
    → (row : Payment) × (find_row (has_id p.id) (rows ++ p ∷ []) ≡ some row)
unfolding find_row
find-append p [] = (p, rw (eq_refl p.id) refl)
find-append p (x ∷ rows) = elim (Bool-cases (x.id == p.id)) [
  | inl same ↦ (x, rw same refl)
  | inr other ↦ let (row, e) = find-append p rows in (row, rw other e)
]

insert_new :
    (p : Payment) (rows : List Payment)
    → fits_columns p ≡ true
    → find_row (has_id p.id) rows ≡ none
    → insert_payment p rows ≡ ok (rows ++ p ∷ [])
unfolding insert_payment
insert_new p rows fitting missing = rw (fitting, missing) refl

module _ (d : Services) (rows : List Payment) where
  publish_completed-Keeps :
      (payment_id order_id : String)
      → Keeps (λ (s : PaymentState). s.payments ≡ rows) (publish_completed d payment_id order_id)
  unfolding publish_completed publish
  publish_completed-Keeps payment_id order_id = Keeps-bind _ _ (Keeps-draw d.env.now) λ now.
      Keeps-bind _ _
        (Keeps-wrapping "marshal: " _ (
          Keeps-lift (
            d.event.marshal (record {
              payment_id = payment_id;
              order_id = order_id;
              status = "completed";
              timestamp = now;
            }))))
        λ body. Keeps-wrapping ("publish " ⧺ "payments.completed" ⧺ ": ") _ (
          Keeps-call d.env
            (λ s. (
              ok tt,
              record s {
                published =
                    s.published ++ record { subject = "payments.completed"; body = body } ∷ [];
              },
            ))
            (λ s h. h))

module _ (d : Services) (up : (n : ℕ) → d.env.outcome n ≡ done) where
  -- the payment of the order `p`, for a message that is handled at the call `n`
  abbrev pub completed_payment : OrderCreatedPayload → ℕ → Payment
  completed_payment p n = record {
    id = d.env.uuid (n + 1);
    order_id = p.order_id;
    amount_cents = p.total_cents;
    currency = p.currency;
    status = "completed";
    method = "card";
    created_at = d.env.now n;
    updated_at = d.env.now (n + 1 + 1 + 1);
  }

  -- While calls go through, a delivery of an orders.created event whose payload decodes adds one
  -- payment behind the others, if the row fits its columns and its new id is not taken: with the
  -- event's order, amount and currency, the status "completed" and the method "card". Nothing is
  -- asked of the payments that the order has already.
  pub deliver-completed_payment :
      (msg : Message) (p : OrderCreatedPayload) (w : World PaymentState)
      → d.created.unmarshal msg.body ≡ ok p
      → fits_columns (completed_payment p w.calls) ≡ true
      → find_row (has_id (d.env.uuid (w.calls + 1))) w.state.payments ≡ none
      → (deliver d msg w).state.payments
        ≡ w.state.payments
          ++ record {
            id = d.env.uuid (w.calls + 1);
            order_id = p.order_id;
            amount_cents = p.total_cents;
            currency = p.currency;
            status = "completed";
            method = "card";
            created_at = d.env.now w.calls;
            updated_at = d.env.now (w.calls + 1 + 1 + 1);
          }
            ∷ []
  unfolding deliver handle_order_created create update_status call publish_completed
  deliver-completed_payment msg p w decoded fitting fresh =
      let inserted =
        insert_new (payment_for p (d.env.uuid (w.calls + 1)) (d.env.now w.calls)) w.state.payments
          fitting fresh in
      let (row, found) =
        find-append (payment_for p (d.env.uuid (w.calls + 1)) (d.env.now w.calls))
          w.state.payments in
      rw (decoded, up (w.calls + 1 + 1), inserted, up (w.calls + 1 + 1 + 1 + 1), found)
        ((publish_completed-Keeps d (w.state.payments ++ completed_payment p w.calls ∷ [])
            (d.env.uuid (w.calls + 1)) p.order_id).at
          _
          (update-append (set_status (d.env.now (w.calls + 1 + 1 + 1)) status_completed)
            (payment_for p (d.env.uuid (w.calls + 1)) (d.env.now w.calls)) w.state.payments fresh))

  -- the event of that payment
  abbrev pub event_of : OrderCreatedPayload → ℕ → PaymentEvent
  event_of p n = record {
    payment_id = d.env.uuid (n + 1);
    order_id = p.order_id;
    status = "completed";
    timestamp = d.env.now (n + 1 + 1 + 1 + 1 + 1);
  }

  pub deliver-publishes :
      (msg : Message) (p : OrderCreatedPayload) (w : World PaymentState) {b : Bytes}
      → d.created.unmarshal msg.body ≡ ok p
      → fits_columns (completed_payment p w.calls) ≡ true
      → find_row (has_id (d.env.uuid (w.calls + 1))) w.state.payments ≡ none
      → d.event.marshal (event_of p w.calls) ≡ ok b
      → (deliver d msg w).state.published
        ≡ w.state.published ++ record { subject = "payments.completed"; body = b } ∷ []
  unfolding deliver handle_order_created create update_status call publish_completed publish
  deliver-publishes msg p w decoded fitting fresh written =
      let payment = payment_for p (d.env.uuid (w.calls + 1)) (d.env.now w.calls) in
      let inserted = insert_new payment w.state.payments fitting fresh in
      let (row, found) = find-append payment w.state.payments in
      rw
        (
          decoded,
          up (w.calls + 1 + 1),
          inserted,
          up (w.calls + 1 + 1 + 1 + 1),
          found,
          written,
          up (w.calls + 1 + 1 + 1 + 1 + 1 + 1),
        )
        refl
