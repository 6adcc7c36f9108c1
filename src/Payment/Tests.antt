-- ===== src/Payment/Tests.antt =====
-- A run of the payment service on one message.
use go_grpc_http.Base.{List, some, ◌≡◌, refl, [], ◌∷◌, none}
use go_grpc_http.Base.Int.{pos}
use go_grpc_http.Base.Action.{ok, err, Env, World, done}
use go_grpc_http.Base.Sql.{find_row}
use go_grpc_http.Nats.{Message}
use go_grpc_http.Order.Model.{OrderCreatedPayload}
use go_grpc_http.Payment.Repository.{Services, PaymentState}
use go_grpc_http.Grpc.{status, failed_precondition}
use go_grpc_http.Payment.Model.{Payment}
use go_grpc_http.Payment.Repository.{has_id, set_status}
use go_grpc_http.Payment.Server.{refund_payment}
use go_grpc_http.Payment.Books.{Entry, entries, paying, refunding, serve_all, serve_all_append_only}
use go_grpc_http.Payment.Refund.{refund_payment_once}
use go_grpc_http.Payment.Subscriber.{deliver}
use go_grpc_http.Payment.Subscriber.Paid.{deliver-completed_payment}

abbrev calm : Env
calm = record {
  outcome = λ n. done;
  now = λ n. n;
  uuid = λ n. "pay-1";
  serial = λ n. n;
  cut = λ n. none;
  scan = λ n. [];
}

abbrev created : OrderCreatedPayload
created = record {
  order_id = "o-1";
  user_id = "u-1";
  items = [];
  total_cents = pos 300;
  currency = "USD";
  created_at = 1000;
}

abbrev services : Services
services = record {
  env = calm;
  created = record { marshal = λ p. ok []; unmarshal = λ b. ok created };
  event = record {
    marshal = λ e. ok (1 ∷ []);
    unmarshal = λ b. err "unexpected end of JSON input";
  };
}

abbrev start : World PaymentState
start = record { calls = 0; state = record { payments = []; published = [] } }

abbrev message : Message
message = record { subject = "orders.created"; body = 1 ∷ [] }

deliver-completed_payment_example :
    (deliver services message start).state.payments
    ≡ record {
      id = services.env.uuid 1;
      order_id = created.order_id;
      amount_cents = created.total_cents;
      currency = "USD";
      status = "completed";
      method = "card";
      created_at = services.env.now 0;
      updated_at = services.env.now 3;
    }
      ∷ []
unfolding find_row
deliver-completed_payment_example =
    deliver-completed_payment services (λ n. refl) message created start refl refl refl

abbrev payment : Payment
payment = record {
  id = "pay-1";
  order_id = "o-1";
  amount_cents = pos 300;
  currency = "USD";
  status = "completed";
  method = "card";
  created_at = 0;
  updated_at = 0;
}

abbrev paid : World PaymentState
paid = record { calls = 0; state = record { payments = payment ∷ []; published = [] } }

refund_payment_once_example :
    ((refund_payment services "pay-1" paid).0
      ≡ ok (record { payment_id = "pay-1"; status = "refunded" }))
    × (find_row (has_id "pay-1") (refund_payment services "pay-1" paid).1.state.payments
        ≡ some (set_status 1 "refunded" payment))
    × ((refund_payment services "pay-1" (refund_payment services "pay-1" paid).1).0
        ≡ err (status failed_precondition "can only refund completed payments, current: refunded"))
unfolding find_row
refund_payment_once_example =
    refund_payment_once services (λ n. refl) "pay-1" payment paid refl refl refl

serve_all_append_only_example :
    (added : List Entry) × (entries
        (serve_all services (refunding "pay-1" ∷ paying message ∷ []) paid).state.payments
      ≡ ("pay-1", "o-1", pos 300, "USD") ∷ added)
serve_all_append_only_example =
    serve_all_append_only services (refunding "pay-1" ∷ paying message ∷ []) paid
