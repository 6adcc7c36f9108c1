-- ===== src/Order/Tests/Projection.antt =====
-- The sample order is placed and paid, and the projector is given both events.
use go_grpc_http.Base.{◌≡◌, refl, [], ◌∷◌, some, arith}
use go_grpc_http.Base.Int.{wrap64, ◌+ℤ◌, ◌*ℤ◌}
use go_grpc_http.Base.Action.{ok}
use go_grpc_http.Order.Model.{OrderView}
use go_grpc_http.Order.Services.{Services}
use go_grpc_http.Order.Aggregate.{load_from_events, total_from}
use go_grpc_http.Order.Aggregate.Replay.{committed, by_payment}
use go_grpc_http.Order.Publisher.{message_of}
use go_grpc_http.Order.ReadRepository.{get_by_id}
use go_grpc_http.Order.Projector.{deliver_all}
use go_grpc_http.Order.Projector.Visible.{IsDay}
use go_grpc_http.Order.Projector.Agreement.{Shows, projection_agrees}
use go_grpc_http.Order.Samples.{Entries, calm, json, json-IsLawful, redis-IsStore, services, start}
use go_grpc_http.Order.Samples.Values.{pens}
use go_grpc_http.Order.Tests.{
  creation, creation_row, creation_stored, payment, payment_row, payment_stored, placed_order,
  paid_order, placing, paying,
}

-- All calls are at noon.
abbrev at_noon : Services Unit Entries
at_noon = record services { env = record calm { now = λ n. 1000 } }

at_noon-IsDay : IsDay at_noon.env
at_noon-IsDay = record { ordered = λ n m h. omega arith; in_time = λ n m. omega arith }

projection_agrees_example :
    (v : OrderView) × ((get_by_id at_noon "o-1"
        (deliver_all at_noon (message_of creation ∷ message_of payment ∷ []) start)).0
      ≡ ok (some v))
    × (load_from_events json (creation_row ∷ payment_row ∷ []) ≡ ok (committed paid_order))
    × Shows v (committed paid_order)
unfolding total_from wrap64 ◌+ℤ◌ ◌*ℤ◌
projection_agrees_example =
    projection_agrees at_noon redis-IsStore json-IsLawful (λ n. refl) at_noon-IsDay 1000 "o-1" "u-1"
      (pens ∷ []) "USD" placed_order paid_order creation payment creation_row payment_row start
      placing refl creation_stored (by_payment 2000 "pay-1" paying) refl payment_stored refl refl
