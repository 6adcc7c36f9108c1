-- ===== src/Wiring/Orders.antt =====
-- cmd/order-service/main.go: the order service with the product service that it dials.
use go_grpc_http.Base.{ℕ, String, ◌≡◌, ◌⊎◌}
use mathlib.Core.Option
use go_grpc_http.Base.Int.{◌+ℤ◌}
use go_grpc_http.Base.Action.{ok, err, Env, World, done}
use go_grpc_http.Grpc.{Status}
use go_grpc_http.Order.Services.{Json, Redis, Services, OrderState}
use go_grpc_http.Order.Server.{PlaceOrderRequest, PlaceOrderResponse, place_order}
use go_grpc_http.Order.Reservations.Server.{requested, place_order_all_or_nothing}
use go_grpc_http.Product.Repository.{Table}
use go_grpc_http.Wiring.ProductClient.{product_client}
use go_grpc_http.Wiring.Stock.{IsKept, stock_at}
use go_grpc_http.Wiring.Ledger.{product_client-IsLedger}

module _ {R : Type 0} (json : Json) (redis : Redis R) (own theirs : Env)
    (text : Status → String) where
  -- The order service, and the product service as it sees it: each has its own environment.
  abbrev pub wired : Services (World Table) R
  wired = record { env = own; json = json; redis = redis; products = product_client theirs text }

  -- The order service and the product service together, while calls go through on both sides and
  -- over a products table whose ids are unique and not empty and whose stocks fit their column: a
  -- PlaceOrder request that is answered with success has taken from each product exactly the
  -- quantity that it asks for, and one that is answered with an error has left every stock as it
  -- was.
  pub wired-all_or_nothing :
      ((n : ℕ) → own.outcome n ≡ done)
      → ((n : ℕ) → theirs.outcome n ≡ done)
      → (req : PlaceOrderRequest) (w : World (OrderState (World Table) R)) (j : String)
      → IsKept w.state.products
      → ((reply : PlaceOrderResponse) × ((place_order wired req w).0 ≡ ok reply)
          × (stock_at j w.state.products
              ≡ Option.map
                  (λ s. s +ℤ requested j req.items)
                  (stock_at j (place_order wired req w).1.state.products)))
        ⊎ ((e : Status) × ((place_order wired req w).0 ≡ err e)
            × (stock_at j (place_order wired req w).1.state.products ≡ stock_at j w.state.products))
  wired-all_or_nothing up their_up req w j kept =
      place_order_all_or_nothing wired stock_at IsKept
        (product_client-IsLedger theirs text their_up) up req w j kept
