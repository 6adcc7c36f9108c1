-- ===== src/Notification/Model.antt =====
-- internal/notification/model/notification.go, and what the service is wired to.
use go_grpc_http.Base.{String, List}
use go_grpc_http.Base.Int.{ℤ}
use go_grpc_http.Base.Action.{Env, Time, Action}
use go_grpc_http.Base.Codec.{Codec}
use go_grpc_http.Order.Model.{OrderCreatedPayload, OrderPaidPayload, OrderCancelledPayload}
use go_grpc_http.Payment.Model.{PaymentEvent}

pub record Notification : Type 0 where
  pub id : String
  pub event_type : String
  pub recipient : String
  pub channel : String
  pub subject : String
  pub body : String
  pub created_at : Time

-- A message as it is handed to smtp.SendMail.
pub record Mail : Type 0 where
  pub to : String
  pub msg : String

-- `EmailSender`
pub record EmailSender : Type 0 where
  pub host : String
  pub port : String
  pub username : String
  pub password : String
  pub from : String

-- `dollars` is `$%.2f` of float64(cents)/100.
pub record Services : Type 0 where
  pub env : Env
  pub created : Codec OrderCreatedPayload
  pub paid : Codec OrderPaidPayload
  pub cancelled : Codec OrderCancelledPayload
  pub payment : Codec PaymentEvent
  pub dollars : ℤ → String
  pub sender : EmailSender
  pub notify_email : String

-- The mails handed to the SMTP server, and the notification_log table.
pub record NotifyState : Type 0 where
  pub mails : List Mail
  pub notification_log : List Notification

abbrev pub Handler : Type 0 → Type 0
Handler A = Action String NotifyState A
