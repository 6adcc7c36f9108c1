-- ===== src/Order/Model.antt =====
-- internal/order/model: order.go, events.go. Go's string types are texts; int32 and int64 are
-- integers (`wrap64` where the code computes with them).
use go_grpc_http.Base.{ℕ, String, List}
use go_grpc_http.Base.Int.{ℤ}
use go_grpc_http.Base.Action.{Time, Bytes}

abbrev pub OrderStatus : Type 0
OrderStatus = String

abbrev pub status_pending : OrderStatus
status_pending = "pending"

abbrev pub status_paid : OrderStatus
status_paid = "paid"

abbrev pub status_cancelled : OrderStatus
status_cancelled = "cancelled"

pub record OrderItem : Type 0 where
  pub product_id : String
  pub product_name : String
  pub quantity : ℤ
  pub price_cents : ℤ

pub record OrderView : Type 0 where
  pub order_id : String
  pub user_id : String
  pub items : List OrderItem
  pub total_cents : ℤ
  pub currency : String
  pub status : String
  pub payment_id : String
  pub created_at : Time
  pub updated_at : Time

abbrev pub EventType : Type 0
EventType = String

abbrev pub event_order_created : EventType
event_order_created = "order.created"

abbrev pub event_order_paid : EventType
event_order_paid = "order.paid"

abbrev pub event_order_cancelled : EventType
event_order_cancelled = "order.cancelled"

pub record StoredEvent : Type 0 where
  pub id : ℕ
  pub aggregate_id : String
  pub aggregate_type : String
  pub event_type : EventType
  pub payload : Bytes
  pub version : ℕ
  pub created_at : Time

pub record OrderCreatedPayload : Type 0 where
  pub order_id : String
  pub user_id : String
  pub items : List OrderItem
  pub total_cents : ℤ
  pub currency : String
  pub created_at : Time

pub record OrderPaidPayload : Type 0 where
  pub order_id : String
  pub payment_id : String
  pub paid_at : Time

pub record OrderCancelledPayload : Type 0 where
  pub order_id : String
  pub reason : String
  pub cancelled_at : Time
