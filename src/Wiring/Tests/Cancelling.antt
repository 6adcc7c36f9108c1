-- ===== src/Wiring/Tests/Cancelling.antt =====
-- The order of two pens is cancelled, and the shelf has five again.
use go_grpc_http.Base.{
  ℕ, String, ◌≡◌, refl, [], ◌∷◌, some, arith, inl, inr, eq_iff, Bool-cases, ◌≤◌,
}
use go_grpc_http.Base.Text.{◌==◌}
use go_grpc_http.Base.Int.{ℤ, pos, ◌+ℤ◌, IsInt32}
use go_grpc_http.Base.Action.{ok, World}
use go_grpc_http.Base.Sql.{find_row}
use go_grpc_http.Order.Services.{Services, OrderState}
use go_grpc_http.Order.Aggregate.{Order, load_from_events, apply, cancel}
use go_grpc_http.Order.EventStore.{history}
use go_grpc_http.Order.Command.{cancel_order}
use go_grpc_http.Order.History.{IsOrderly}
use go_grpc_http.Order.History.Interleaving.{Reach-IsOrderly}
use go_grpc_http.Order.Reservations.{Took, ordered}
use go_grpc_http.Order.Reservations.Cancel.{cancel_order-restores}
use go_grpc_http.Order.Samples.{Entries, calm, json, json-IsLawful, redis}
use go_grpc_http.Order.Samples.Values.{pens}
use go_grpc_http.Order.Tests.{creation_row, loaded_order, one_reached}
use go_grpc_http.Nats.{Message}
use go_grpc_http.Order.PaymentSubscriber
use go_grpc_http.Order.PaymentSubscriber.Stock.{deliver-products}
use go_grpc_http.Product.Repository.{Table}
use go_grpc_http.Wiring.Stock.{IsKept, stock_at}
use go_grpc_http.Wiring.Ledger.{product_client-IsLedger}
use go_grpc_http.Wiring.Orders.{wired}
use go_grpc_http.Wiring.Tests.{pen, message_of}

abbrev late : Services (World Table) Entries
late = wired json redis (record calm { now = λ n. 2000 }) calm message_of

abbrev shelf : ℕ → World Table
shelf n = record { calls = 0; state = record pen { stock_quantity = pos n } ∷ [] }

shelf_stock : (n : ℕ) → n ≤ 5 → (id : String) (s : ℤ) → stock_at id (shelf n) ≡ some s → IsInt32 s
unfolding find_row
shelf_stock n small id s h = elim (Bool-cases ("p-1" == id)) [
  | inl here ↦ let h' = rw here at h in ground (arith, h', small)
  | inr other ↦ let h' = rw other at h in absurd (ground (arith, h'))
]

shelf-IsKept : (n : ℕ) → n ≤ 5 → IsKept (shelf n)
unfolding find_row
shelf-IsKept n small = record { unique = (refl, tt); named = refl; fits = shelf_stock n small }

two_taken : Took stock_at (pens ∷ []) (shelf 5) (shelf 3)
unfolding find_row ordered ◌+ℤ◌
two_taken j = elim (Bool-cases (j == "p-1")) [
  | inl here ↦ let e : j ≡ "p-1" = (eq_iff j "p-1").0 here in rw e refl
  | inr other ↦ ground (arith, other, eq_iff j "p-1", eq_iff "p-1" j)
]

abbrev pending_world : World (OrderState (World Table) Entries)
pending_world = record {
  calls = 0;
  state = record { events = creation_row ∷ []; published = []; cache = []; products = shelf 3 };
}

pending-IsOrderly : IsOrderly json (creation_row ∷ [])
pending-IsOrderly = Reach-IsOrderly json json-IsLawful (creation_row ∷ []) one_reached

loading_pending : load_from_events json (history "o-1" (creation_row ∷ [])) ≡ ok loaded_order
unfolding load_from_events apply history
loading_pending = refl

cancel_order-restores_example :
    (o' : Order) × ((cancel_order late "o-1" "payment failed" pending_world).0 ≡ ok tt)
    × (load_from_events json
          (history "o-1" (cancel_order late "o-1" "payment failed" pending_world).1.state.events)
        ≡ ok o')
    × (o'.status ≡ "cancelled")
    × (stock_at "p-1" (cancel_order late "o-1" "payment failed" pending_world).1.state.products
        ≡ some (pos 5))
unfolding find_row
cancel_order-restores_example =
    cancel_order-restores late json-IsLawful stock_at IsKept
      (product_client-IsLedger calm message_of (λ n. refl)) (λ n. refl) (λ n. refl) "o-1"
      "payment failed" loaded_order (shelf 5) pending_world "p-1" pending-IsOrderly loading_pending
      refl refl refl refl (omega arith, tt) (shelf-IsKept 5 (omega arith))
      (shelf-IsKept 3 (omega arith)) two_taken

-- the failed payment of the pending order, as the order service gets it
abbrev failure : Message
failure = record { subject = "payments.failed"; body = 1 ∷ [] }

-- The failed payment cancels the order.
failing :
    load_from_events json
      (history "o-1" (PaymentSubscriber.deliver late failure pending_world).state.events)
    ≡ ok (record loaded_order { status = "cancelled"; version = 2 })
unfolding PaymentSubscriber.deliver load_from_events apply history cancel
failing = refl

deliver-products_example :
    (PaymentSubscriber.deliver late failure pending_world).state.products ≡ shelf 3
deliver-products_example = deliver-products late failure pending_world
