-- ===== src/Order/Tests/Settlement.antt =====
-- The sample order is pending, and its payment completes or fails.
use go_grpc_http.Base.{◌≡◌, refl, [], ◌∷◌}
use go_grpc_http.Base.Action.{ok, World}
use go_grpc_http.Order.Services.{Services, OrderState}
use go_grpc_http.Order.Aggregate.{Order, load_from_events, apply}
use go_grpc_http.Order.EventStore.{history}
use go_grpc_http.Order.History.{IsOrderly}
use go_grpc_http.Order.History.Interleaving.{Reach-IsOrderly}
use go_grpc_http.Order.PaymentSubscriber.{deliver}
use go_grpc_http.Order.PaymentSubscriber.Settles.{deliver-pays, deliver-cancels}
use go_grpc_http.Order.Samples.{Entries, calm, completed, json, json-IsLawful, services, start}
use go_grpc_http.Order.Tests.{creation_row, loaded_order, one_reached}

abbrev later : Services Unit Entries
later = record services { env = record calm { now = λ n. 2000 } }

abbrev pending_world : World (OrderState Unit Entries)
pending_world = record start { state = record start.state { events = creation_row ∷ [] } }

pending-IsOrderly : IsOrderly json (creation_row ∷ [])
pending-IsOrderly = Reach-IsOrderly json json-IsLawful (creation_row ∷ []) one_reached

loading_pending : load_from_events json (history "o-1" (creation_row ∷ [])) ≡ ok loaded_order
unfolding load_from_events apply history
loading_pending = refl

deliver-pays_example :
    (o' : Order) × (load_from_events json (
        history "o-1"
          (deliver later
            (record { subject = "payments.completed"; body = 1 ∷ [] })
            pending_world).state.events)
      ≡ ok o')
    × (o'.status ≡ "paid")
    × ((deliver later
          (record { subject = "payments.completed"; body = 1 ∷ [] })
          pending_world).state.published
        ≡ record { subject = "orders.paid"; body = 1 ∷ [] } ∷ [])
deliver-pays_example =
    deliver-pays later json-IsLawful (λ n. refl) (λ n. refl) (1 ∷ []) completed loaded_order
      pending_world refl pending-IsOrderly loading_pending refl refl refl refl

deliver-cancels_example :
    (o' : Order) × (load_from_events json (
        history "o-1"
          (deliver later
            (record { subject = "payments.failed"; body = 1 ∷ [] })
            pending_world).state.events)
      ≡ ok o')
    × (o'.status ≡ "cancelled")
    × ((deliver later
          (record { subject = "payments.failed"; body = 1 ∷ [] })
          pending_world).state.published
        ≡ record { subject = "orders.cancelled"; body = 1 ∷ [] } ∷ [])
deliver-cancels_example =
    deliver-cancels later json-IsLawful (λ n. refl) (λ n. refl) (1 ∷ []) completed loaded_order
      pending_world refl pending-IsOrderly loading_pending refl refl refl refl
