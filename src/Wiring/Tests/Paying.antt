-- ===== src/Wiring/Tests/Paying.antt =====
-- The payment service pays for the pending order.
use go_grpc_http.Base.{◌≡◌, refl, [], ◌∷◌}
use go_grpc_http.Base.Int.{pos}
use go_grpc_http.Base.Action.{ok, Env, World}
use go_grpc_http.Base.Sql.{find_row}
use go_grpc_http.Nats.{Message}
use go_grpc_http.Order.Services.{Services, OrderState}
use go_grpc_http.Order.Aggregate.{Order, load_from_events, apply}
use go_grpc_http.Order.EventStore.{history}
use go_grpc_http.Order.History.{IsOrderly}
use go_grpc_http.Order.History.Interleaving.{Reach-IsOrderly}
use go_grpc_http.Order.PaymentSubscriber
use go_grpc_http.Order.Samples.{Entries, calm, json, json-IsLawful, services, start}
use go_grpc_http.Order.Samples.Values.{created}
use go_grpc_http.Order.Tests.{creation_row, loaded_order, one_reached}
use go_grpc_http.Payment.Repository.{PaymentState}
use go_grpc_http.Payment.Subscriber.{deliver}
use go_grpc_http.Wiring.Payments.{payment_services, placed_order_is_paid}

abbrev later : Services Unit Entries
later = record services { env = record calm { now = λ n. 2000 } }

abbrev bank_env : Env
bank_env = record calm { now = λ n. 1500; uuid = λ n. "pay-1" }

abbrev bank : World PaymentState
bank = record { calls = 0; state = record { payments = []; published = [] } }

abbrev pending_world : World (OrderState Unit Entries)
pending_world = record start { state = record start.state { events = creation_row ∷ [] } }

pending-IsOrderly : IsOrderly json (creation_row ∷ [])
pending-IsOrderly = Reach-IsOrderly json json-IsLawful (creation_row ∷ []) one_reached

loading_pending : load_from_events json (history "o-1" (creation_row ∷ [])) ≡ ok loaded_order
unfolding load_from_events apply history
loading_pending = refl

reading_pending : history "o-1" (creation_row ∷ []) ≡ creation_row ∷ []
unfolding history
reading_pending = refl

placed_order_is_paid_example :
    (m : Message) × (o' : Order) × ((deliver
        (payment_services json bank_env)
        (record { subject = "orders.created"; body = 1 ∷ [] })
        bank).state
      ≡ record {
        payments =
            record {
              id = "pay-1";
              order_id = "o-1";
              amount_cents = pos 300;
              currency = "USD";
              status = "completed";
              method = "card";
              created_at = 1500;
              updated_at = 1500;
            }
            ∷ [];
        published = m ∷ [];
      })
    × (load_from_events json
          (history "o-1" (PaymentSubscriber.deliver later m pending_world).state.events)
        ≡ ok o')
    × (o'.status ≡ "paid")
unfolding find_row
placed_order_is_paid_example =
    placed_order_is_paid later json-IsLawful (λ n. refl) (λ n. refl) bank_env (λ n. refl) (1 ∷ [])
      created creation_row bank loaded_order pending_world refl refl reading_pending refl refl refl
      pending-IsOrderly loading_pending refl refl refl refl
