-- ===== src/Payment/Model.antt =====
-- internal/payment/model/payment.go, and the event of internal/payment/event/publisher.go.
use go_grpc_http.Base.{String}
use go_grpc_http.Base.Int.{ℤ}
use go_grpc_http.Base.Action.{Time}

abbrev pub PaymentStatus : Type 0
PaymentStatus = String

abbrev pub status_pending : PaymentStatus
status_pending = "pending"

abbrev pub status_completed : PaymentStatus
status_completed = "completed"

abbrev pub status_failed : PaymentStatus
status_failed = "failed"

abbrev pub status_refunded : PaymentStatus
status_refunded = "refunded"

pub record Payment : Type 0 where
  pub id : String
  pub order_id : String
  pub amount_cents : ℤ
  pub currency : String
  pub status : PaymentStatus
  pub method : String
  pub created_at : Time
  pub updated_at : Time

pub record PaymentEvent : Type 0 where
  pub payment_id : String
  pub order_id : String
  pub status : String
  pub timestamp : Time
