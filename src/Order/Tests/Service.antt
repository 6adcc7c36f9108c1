-- ===== src/Order/Tests/Service.antt =====
-- A run of the order service on the sample order: it is placed, projected, paid and read.
use go_grpc_http.Base.{◌≡◌, refl, List, [], ◌∷◌, ltb, if◌then◌else◌, length}
use go_grpc_http.Base.Int.{pos, ◌+ℤ◌, ◌*ℤ◌, wrap64}
use go_grpc_http.Order.Query
use go_grpc_http.Order.Command
use go_grpc_http.Order.Aggregate.{load_from_events}
use go_grpc_http.Order.Aggregate
use go_grpc_http.Order.Server.{PlaceOrderRequest}
use go_grpc_http.Order.Services.{Services}
use go_grpc_http.Order.History.{IsOrderly}
use go_grpc_http.Order.History.Interleaving.{Reach, empty}
use go_grpc_http.Order.History.Service.{
  Request, placing, getting, paying, projecting, serve_all, serve_all-Reach, serve_all-IsOrderly,
}
use go_grpc_http.Order.Samples.{Entries, calm, json, json-IsLawful, services, start}

abbrev timed : Services Unit Entries
timed = record services { env = record calm { now = λ n. if ltb n 9 then 1000 else 2000 } }

abbrev two_pens : PlaceOrderRequest
two_pens = record {
  user_id = "u-1";
  items = record { product_id = "p-1"; quantity = pos 2 } ∷ [];
  currency = "USD";
}

abbrev requests : List Request
requests =
    placing two_pens
    ∷ projecting (record { subject = "orders.created"; body = 1 ∷ [] })
    ∷ paying (record { subject = "payments.completed"; body = 1 ∷ [] })
    ∷ getting "o-1"
    ∷ []

stored_two : length (serve_all timed requests start).state.events ≡ 2
unfolding serve_all Query.get_order Command.place_order Aggregate.place_order wrap64 ◌+ℤ◌ ◌*ℤ◌
    load_from_events Aggregate.mark_paid
stored_two = refl

serve_all-Reach_example : Reach json (serve_all timed requests start).state.events
serve_all-Reach_example = serve_all-Reach timed requests start empty

serve_all-IsOrderly_example : IsOrderly json (serve_all timed requests start).state.events
serve_all-IsOrderly_example = serve_all-IsOrderly timed json-IsLawful requests start refl
