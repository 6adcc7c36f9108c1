-- ===== src/Payment/Server.antt =====
-- internal/payment/server.go: the gRPC handlers.
use go_grpc_http.Base.{String, List, map, Option, none, some, if◌then◌else◌}
use go_grpc_http.Base.Text.{◌⧺◌, ◌==◌, contains}
use go_grpc_http.Base.Int.{ℤ}
use go_grpc_http.Base.Action.{Result, ok, err, Time, Action, pure, fail, handle, ◌>>=◌}
use go_grpc_http.Grpc.{
  invalid_argument, not_found, failed_precondition, internal, Status, status, answer,
}
use go_grpc_http.Payment.Model.{Payment, status_completed, status_refunded}
use go_grpc_http.Payment.Repository.{
  Services, PaymentState, get_by_id, get_by_order_id, update_status,
}

pub record GetPaymentResponse : Type 0 where
  pub payment_id : String
  pub order_id : String
  pub amount_cents : ℤ
  pub currency : String
  pub status : String
  pub method : String
  pub created_at : Time
  pub updated_at : Time

pub record RefundPaymentResponse : Type 0 where
  pub payment_id : String
  pub status : String

unfoldable pub payment_to_proto : Payment → GetPaymentResponse
payment_to_proto p = record {
  payment_id = p.id;
  order_id = p.order_id;
  amount_cents = p.amount_cents;
  currency = p.currency;
  status = p.status;
  method = p.method;
  created_at = p.created_at;
  updated_at = p.updated_at;
}

abbrev pub Reply : Type 0 → Type 0
Reply A = Action Status PaymentState A

abbrev pub payment_not_found : Status
payment_not_found = status not_found "payment not found"

unfoldable pub refund_status : String → Status
unfolding contains
refund_status e =
    if contains e "not found" then payment_not_found else status internal ("refund: " ⧺ e)

module _ (d : Services) where
  abbrev pub or_not_found : Option Payment → Reply GetPaymentResponse
  or_not_found none = fail payment_not_found
  or_not_found (some p) = pure (payment_to_proto p)

  unfoldable pub get_payment : String → Reply GetPaymentResponse
  unfolding get_by_id payment_to_proto
  get_payment payment_id =
      if payment_id == "" then fail (status invalid_argument "payment_id is required") else do
        found ←
            answer (λ (p : Option Payment). p) (λ e. status internal ("get payment: " ⧺ e))
              (get_by_id d payment_id)
        or_not_found found

  unfoldable pub list_payments_by_order : String → Reply (List GetPaymentResponse)
  unfolding get_by_order_id payment_to_proto
  list_payments_by_order order_id =
      if order_id == ""
      then fail (status invalid_argument "order_id is required")
      else answer (map payment_to_proto) (λ e. status internal ("list payments: " ⧺ e))
          (get_by_order_id d order_id)

  -- `if err != nil || p == nil`: an error of the query is a payment that is not found
  abbrev pub refund_row : String → Result String (Option Payment) → Reply RefundPaymentResponse
  refund_row payment_id (err e) = fail payment_not_found
  refund_row payment_id (ok none) = fail payment_not_found
  refund_row payment_id (ok (some p)) =
      if p.status == status_completed
      then answer (λ _. record { payment_id = payment_id; status = status_refunded }) refund_status
          (update_status d payment_id status_refunded)
      else fail
          (status failed_precondition ("can only refund completed payments, current: " ⧺ p.status))

  unfoldable pub refund_payment : String → Reply RefundPaymentResponse
  unfolding get_by_id update_status refund_status
  refund_payment payment_id =
      if payment_id == ""
      then fail (status invalid_argument "payment_id is required")
      else handle (get_by_id d payment_id) (refund_row payment_id)
