-- ===== src/Payment/Repository.antt =====
-- internal/payment/repository/postgres.go, over the payments table of cmd/payment-service/main.go
-- and migrations/payment.
use go_grpc_http.Base.{
  String, List, [], ◌∷◌, ◌++◌, Bool, not, ◌&&◌, Option, none, some, if◌then◌else◌,
}
use go_grpc_http.Base.Text.{◌==◌, fits}
use go_grpc_http.Base.Action.{
  Result, ok, err, Env, Time, Action, pure, fail, draw, reading, call, exec, wrapping, ◌>>=◌,
}
use go_grpc_http.Base.Codec.{Codec}
use go_grpc_http.Base.Sql.{
  cut_rows, where_rows, find_row, update_rows, scanned, order_desc, unique_violation,
  value_too_long,
}
use go_grpc_http.Nats.{Message}
use go_grpc_http.Order.Model.{OrderCreatedPayload}
use go_grpc_http.Payment.Model.{PaymentStatus, Payment, PaymentEvent}

-- What the payment service is wired to.
pub record Services : Type 0 where
  pub env : Env
  pub created : Codec OrderCreatedPayload
  pub event : Codec PaymentEvent

-- The payments table, and what was published on NATS.
pub record PaymentState : Type 0 where
  pub payments : List Payment
  pub published : List Message

abbrev pub Handler : Type 0 → Type 0
Handler A = Action String PaymentState A

abbrev pub has_id : String → Payment → Bool
has_id id p = p.id == id

abbrev pub has_order : String → Payment → Bool
has_order order_id p = p.order_id == order_id

abbrev pub fits_columns : Payment → Bool
fits_columns p =
    fits 36 p.id && fits 36 p.order_id && fits 3 p.currency && fits 20 p.status && fits 50 p.method

unfoldable pub insert_payment : Payment → List Payment → Result String (List Payment)
unfolding find_row
insert_payment p rows =
    if not (fits_columns p) then err value_too_long else elim (find_row (has_id p.id) rows) [
      | none ↦ ok (rows ++ p ∷ [])
      | some other ↦ err unique_violation
    ]

abbrev pub stored : PaymentState → Result String (List Payment) → Result String Unit × PaymentState
stored s (ok rows) = (ok tt, record s { payments = rows })
stored s (err e) = (err e, s)

abbrev pub set_status : Time → PaymentStatus → Payment → Payment
set_status now status p = record p { status = status; updated_at = now }

abbrev pub require_row : Option Payment → Handler Unit
require_row none = fail "payment not found"
require_row (some p) = pure tt

module _ (d : Services) where
  unfoldable pub create : Payment → Handler Unit
  unfolding insert_payment call
  create p = wrapping "insert payment: " (call d.env (λ s. stored s (insert_payment p s.payments)))

  unfoldable pub get_by_id : String → Handler (Option Payment)
  unfolding find_row call
  get_by_id id = wrapping "get payment: " (exec d.env (λ s. (find_row (has_id id) s.payments, s)))

  unfoldable pub get_by_order_id : String → Handler (List Payment)
  unfolding where_rows order_desc call
  get_by_order_id order_id = do
    drawn ← draw (reading d.env)
    wrapping "list payments: " (
        exec d.env λ s. (
          cut_rows drawn.0 (
              order_desc (λ p. p.created_at)
                (where_rows (has_order order_id) (scanned drawn.1 s.payments))),
          s,
        ))

  unfoldable pub update_status : String → PaymentStatus → Handler Unit
  unfolding find_row update_rows call
  update_status id status = do
    now ← draw d.env.now
    found ← wrapping "update payment status: " (
        exec d.env λ s. (
          find_row (has_id id) s.payments,
          record s { payments = update_rows (has_id id) (set_status now status) s.payments },
        ))
    require_row found
