-- ===== src/Payment/Books.antt =====
-- internal/payment and cmd/payment-service/main.go: the payment service as a whole keeps its books.
use go_grpc_http.Base.{
  ℕ, String, ◌≡◌, refl, sym, ap, ◌∙◌, List, [], ◌∷◌, ◌++◌, map, Bool, Option, none, some, inl, inr,
  ◌⊎◌, Bool-cases, Option-cases,
}
use mathlib.Core.List.{append-nil, append_assoc, map-append}
use go_grpc_http.Base.Text.{◌⧺◌, ◌==◌}
use go_grpc_http.Base.Int.{ℤ}
use go_grpc_http.Base.Action.{Result, ok, err, World}
use go_grpc_http.Base.Keeps.{
  Keeps, Keeps-bind, Keeps-handle, Keeps-pure, Keeps-fail, Keeps-lift, Keeps-draw, Keeps-wrapping,
  Keeps-call, Keeps-if,
}
use go_grpc_http.Base.Sql.{find_row, update_rows, unique_violation, value_too_long}
use go_grpc_http.Nats.{Message}
use go_grpc_http.Payment.Model.{Payment, status_completed, status_refunded}
use go_grpc_http.Payment.Repository.{
  Services, PaymentState, has_id, fits_columns, insert_payment, stored, set_status, require_row,
  create, get_by_id, update_status,
}
use go_grpc_http.Payment.Publisher.{publish, publish_completed}
use go_grpc_http.Payment.Subscriber.{payment_for, handle_order_created, deliver}
use go_grpc_http.Payment.Server.{refund_row, refund_payment}

-- What a payment is for, and how much it is.
abbrev pub Entry : Type 0
Entry = String × String × ℤ × String

abbrev pub entry_of : Payment → Entry
entry_of p = (p.id, p.order_id, p.amount_cents, p.currency)

abbrev pub entries : List Payment → List Entry
entries rows = map entry_of rows

update-entries :
    (test : Payment → Bool) (now : ℕ) (text : String) (rows : List Payment)
    → entries (update_rows test (set_status now text) rows) ≡ entries rows
unfolding update_rows
update-entries test now text [] = refl
update-entries test now text (p ∷ rows) = elim (Bool-cases (test p)) [
  | inl hit ↦ rw hit (ap (λ l. entry_of p ∷ l) (update-entries test now text rows))
  | inr miss ↦ rw miss (ap (λ l. entry_of p ∷ l) (update-entries test now text rows))
]

insert_payment-cases :
    (p : Payment) (rows : List Payment)
    → (insert_payment p rows ≡ ok (rows ++ p ∷ []))
      ⊎ ((e : String) × (insert_payment p rows ≡ err e))
unfolding insert_payment
insert_payment-cases p rows = elim (Bool-cases (fits_columns p)) [
  | inr wide ↦ inr (value_too_long, rw wide refl)
  | inl fitting ↦ elim (Option-cases (find_row (has_id p.id) rows)) [
    | inl free ↦ inl (rw (fitting, free) refl)
    | inr (other, taken) ↦ inr (unique_violation, rw (fitting, taken) refl)
  ]
]

-- The books since `base`: entries were added behind it.
abbrev Grew : List Entry → PaymentState → Type 0
Grew base s = (added : List Entry) × (entries s.payments ≡ base ++ added)

module _ (d : Services) (base : List Entry) where
  create-Keeps : (p : Payment) → Keeps (Grew base) (create d p)
  unfolding create
  create-Keeps p = Keeps-wrapping "insert payment: " _ (
      Keeps-call d.env (λ s. stored s (insert_payment p s.payments))
        λ s (added, h). elim (insert_payment-cases p s.payments) [
          | inl inserted ↦ rw inserted (
            added ++ entry_of p ∷ [],
            map-append entry_of s.payments (p ∷ [])
                ∙ ap (λ l. l ++ entry_of p ∷ []) h
                ∙ append_assoc base added (entry_of p ∷ []),
          )
          | inr (e, refused) ↦ rw refused (added, h)
        ])

  update_status-Keeps : (id text : String) → Keeps (Grew base) (update_status d id text)
  unfolding update_status
  update_status-Keeps id text = Keeps-bind _ _ (Keeps-draw d.env.now) λ now.
      Keeps-bind _ _
        (Keeps-wrapping "update payment status: " _ (
          Keeps-call d.env
            (λ s. (
              ok (find_row (has_id id) s.payments),
              record s { payments = update_rows (has_id id) (set_status now text) s.payments },
            ))
            λ s (added, h). (added, update-entries (has_id id) now text s.payments ∙ h)))
        λ found. row-Keeps found
    where
      row-Keeps : (found : Option Payment) → Keeps (Grew base) (require_row found)
      row-Keeps none = Keeps-fail "payment not found"
      row-Keeps (some p) = Keeps-pure tt

  publish_completed-Keeps :
      (payment_id order_id : String) → Keeps (Grew base) (publish_completed d payment_id order_id)
  unfolding publish_completed publish
  publish_completed-Keeps payment_id order_id = Keeps-bind _ _ (Keeps-draw d.env.now) λ now.
      Keeps-bind _ _
        (Keeps-wrapping "marshal: " _ (
          Keeps-lift (
            d.event.marshal (record {
              payment_id = payment_id;
              order_id = order_id;
              status = "completed";
              timestamp = now;
            }))))
        λ body. Keeps-wrapping ("publish " ⧺ "payments.completed" ⧺ ": ") _ (
          Keeps-call d.env
            (λ s. (
              ok tt,
              record s {
                published =
                    s.published ++ record { subject = "payments.completed"; body = body } ∷ [];
              },
            ))
            λ s h. h)

  handle_order_created-Keeps : (body : List ℕ) → Keeps (Grew base) (handle_order_created d body)
  unfolding handle_order_created
  handle_order_created-Keeps body =
      Keeps-bind _ _ (Keeps-wrapping "unmarshal: " _ (Keeps-lift (d.created.unmarshal body)))
        λ payload. Keeps-bind _ _ (Keeps-draw d.env.now) λ now.
          Keeps-bind _ _ (Keeps-draw d.env.uuid) λ id.
            Keeps-bind _ _
              (Keeps-wrapping "create payment: " _ (create-Keeps (payment_for payload id now)))
              λ created.
                Keeps-bind _ _
                  (Keeps-wrapping "update status: " _ (update_status-Keeps id status_completed))
                  λ updated.
                    Keeps-handle _ _ (publish_completed-Keeps id payload.order_id)
                      λ sent. Keeps-pure tt

  get_by_id-Keeps : (id : String) → Keeps (Grew base) (get_by_id d id)
  unfolding get_by_id
  get_by_id-Keeps id =
      Keeps-wrapping "get payment: " _
        (Keeps-call d.env (λ s. (ok (find_row (has_id id) s.payments), s)) λ s h. h)

  refund_row-Keeps :
      (id : String) (found : Result String (Option Payment))
      → Keeps (Grew base) (refund_row d id found)
  refund_row-Keeps id (err e) = Keeps-fail _
  refund_row-Keeps id (ok none) = Keeps-fail _
  refund_row-Keeps id (ok (some p)) =
      Keeps-if (p.status == status_completed) _ _
        (record { at = λ w h. (update_status-Keeps id status_refunded).at w h }) (Keeps-fail _)

  refund_payment-Keeps : (id : String) → Keeps (Grew base) (refund_payment d id)
  unfolding refund_payment
  refund_payment-Keeps id =
      Keeps-if (id == "") _ _ (Keeps-fail _)
        (Keeps-handle _ _ (get_by_id-Keeps id) (refund_row-Keeps id))

-- What changes the state of the payment service: its subscription, and its one gRPC command.
pub data Request : Type 0 where
  paying : Message → Request
  refunding : String → Request

module _ (d : Services) where
  unfoldable pub serve : Request → World PaymentState → World PaymentState
  unfolding deliver refund_payment
  serve (paying msg) w = deliver d msg w
  serve (refunding payment_id) w = (refund_payment d payment_id w).1

  unfoldable pub serve_all : List Request → World PaymentState → World PaymentState
  unfolding serve
  serve_all [] w = w
  serve_all (req ∷ reqs) w = serve_all reqs (serve req w)

  serve_all-Grew :
      (base : List Entry) (reqs : List Request) (w : World PaymentState)
      → Grew base w.state
      → Grew base (serve_all reqs w).state
  unfolding serve_all serve deliver
  serve_all-Grew base [] w h = h
  serve_all-Grew base (paying msg ∷ reqs) w h =
      serve_all-Grew base reqs (serve (paying msg) w)
        ((handle_order_created-Keeps d base msg.body).at w h)
  serve_all-Grew base (refunding id ∷ reqs) w h =
      serve_all-Grew base reqs (serve (refunding id) w) ((refund_payment-Keeps d base id).at w h)

  -- The books are append-only. After any sequence of deliveries and refunds, whose calls end in any
  -- way, the payments that were there are there, in their order, each with its id, order, amount
  -- and currency; new payments stand behind them.
  pub serve_all_append_only :
      (reqs : List Request) (w : World PaymentState)
      → (added : List Entry) × (entries (serve_all reqs w).state.payments
          ≡ entries w.state.payments ++ added)
  serve_all_append_only reqs w =
      serve_all-Grew (entries w.state.payments) reqs w
        ([], sym (append-nil (entries w.state.payments)))
