-- ===== src/Wiring/Tests.antt =====
-- An order of two pens from a shelf of five.
mod Paying
mod Cancelling
mod Session
use go_grpc_http.Base.{String, ◌≡◌, refl, [], ◌∷◌, some, arith, ◌⊎◌, inl, inr, Bool-cases}
use mathlib.Core.Option
use go_grpc_http.Base.Text.{◌==◌}
use go_grpc_http.Base.Int.{ℤ, pos, ◌+ℤ◌, ◌-ℤ◌, ◌*ℤ◌, wrap64, IsInt32}
use go_grpc_http.Base.Action.{ok, err, Env, World}
use go_grpc_http.Base.Sql.{find_row}
use go_grpc_http.Grpc.{Status}
use go_grpc_http.Order.Aggregate
use go_grpc_http.Order.Command
use go_grpc_http.Product.Server
use go_grpc_http.Order.Services.{OrderState}
use go_grpc_http.Order.Server.{PlaceOrderRequest, PlaceOrderResponse, place_order}
use go_grpc_http.Order.Reservations.{IsLedger}
use go_grpc_http.Order.Reservations.Server.{requested, place_order_all_or_nothing}
use go_grpc_http.Order.Samples.{Entries, calm, json, redis}
use go_grpc_http.Product.Model.{Product}
use go_grpc_http.Product.Repository.{Table}
use go_grpc_http.Wiring.ProductClient.{product_client}
use go_grpc_http.Wiring.Stock.{IsKept, stock_at}
use go_grpc_http.Wiring.Ledger.{product_client-IsLedger}
use go_grpc_http.Wiring.Orders.{wired, wired-all_or_nothing}

abbrev noon : Env
noon = record calm { now = λ n. 1000 }

abbrev pub message_of : Status → String
message_of s = s.message

abbrev pub pen : Product
pen = record {
  id = "p-1";
  name = "Pen";
  description = "";
  price_cents = pos 150;
  currency = "USD";
  stock_quantity = pos 5;
  sku = "pen";
  created_at = 0;
  updated_at = 0;
}

abbrev opening : World (OrderState (World Table) Entries)
opening = record {
  calls = 0;
  state = record {
    events = [];
    published = [];
    cache = [];
    products = record { calls = 0; state = pen ∷ [] };
  };
}

abbrev two_pens : PlaceOrderRequest
two_pens = record {
  user_id = "u-1";
  items = record { product_id = "p-1"; quantity = pos 2 } ∷ [];
  currency = "USD";
}

pens_stock : (id : String) (s : ℤ) → stock_at id opening.state.products ≡ some s → IsInt32 s
unfolding find_row
pens_stock id s h = elim (Bool-cases ("p-1" == id)) [
  | inl here ↦ let h' = rw here at h in ground (arith, h')
  | inr other ↦ let h' = rw other at h in absurd (ground (arith, h'))
]

opening-IsKept : IsKept opening.state.products
unfolding find_row
opening-IsKept = record { unique = (refl, tt); named = refl; fits = pens_stock }

-- three pens are left
pens_left :
    stock_at "p-1"
      (place_order (wired json redis noon calm message_of) two_pens opening).1.state.products
    ≡ some (pos 3)
unfolding place_order find_row Command.place_order Server.get_product Server.reserve_stock ◌-ℤ◌
    Aggregate.place_order wrap64 ◌+ℤ◌ ◌*ℤ◌
pens_left = refl

product_client-IsLedger_example : IsLedger (product_client calm message_of) stock_at IsKept
product_client-IsLedger_example = product_client-IsLedger calm message_of (λ n. refl)

place_order_all_or_nothing_example :
    ((reply : PlaceOrderResponse) × ((place_order
          (wired json redis noon calm message_of)
          two_pens
          opening).0
        ≡ ok reply)
      × (some (pos 5)
          ≡ Option.map
              (λ s. s +ℤ requested "p-1" two_pens.items)
              (stock_at "p-1"
                (place_order
                  (wired json redis noon calm message_of)
                  two_pens
                  opening).1.state.products)))
    ⊎ ((e : Status) × ((place_order (wired json redis noon calm message_of) two_pens opening).0
          ≡ err e)
        × (stock_at "p-1"
              (place_order
                (wired json redis noon calm message_of)
                two_pens
                opening).1.state.products
            ≡ some (pos 5)))
unfolding find_row
place_order_all_or_nothing_example =
    place_order_all_or_nothing (wired json redis noon calm message_of) stock_at IsKept
      (product_client-IsLedger calm message_of (λ n. refl)) (λ n. refl) two_pens opening "p-1"
      opening-IsKept

wired-all_or_nothing_example :
    ((reply : PlaceOrderResponse) × ((place_order
          (wired json redis noon calm message_of)
          two_pens
          opening).0
        ≡ ok reply)
      × (some (pos 5)
          ≡ Option.map
              (λ s. s +ℤ requested "p-1" two_pens.items)
              (stock_at "p-1"
                (place_order
                  (wired json redis noon calm message_of)
                  two_pens
                  opening).1.state.products)))
    ⊎ ((e : Status) × ((place_order (wired json redis noon calm message_of) two_pens opening).0
          ≡ err e)
        × (stock_at "p-1"
              (place_order
                (wired json redis noon calm message_of)
                two_pens
                opening).1.state.products
            ≡ some (pos 5)))
unfolding find_row
wired-all_or_nothing_example =
    wired-all_or_nothing json redis noon calm message_of (λ n. refl) (λ n. refl) two_pens opening
      "p-1" opening-IsKept
