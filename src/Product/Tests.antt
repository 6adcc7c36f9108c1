-- ===== src/Product/Tests.antt =====
-- Runs of the product service on a table of two products.
use go_grpc_http.Base.{arith, ℕ, ◌*◌, String, ◌≡◌, refl, [], ◌∷◌, none, some}
use go_grpc_http.Base.Int.{ℤ, pos, ◌+ℤ◌, ◌-ℤ◌, ◌≤ℤ◌}
use go_grpc_http.Base.Action.{ok, Env, World, done}
use go_grpc_http.Base.Sql.{find_row, order_desc}
use go_grpc_http.Base.Sorting.{HasDistinct}
use go_grpc_http.Product.Model.{Product}
use go_grpc_http.Product.Repository.{Table, reserve_stock, release_stock}
use go_grpc_http.Product.Server
use go_grpc_http.Product.Stock.{reserve_stock_exact, release_stock_exact}
use go_grpc_http.Product.Stock.Rows.{stock_of}
use go_grpc_http.Product.Paging.{pages, pages_cover}
use go_grpc_http.Product.Oversell.{IsStocked, stock-IsStocked}

abbrev calm : Env
calm = record {
  outcome = λ n. done;
  now = λ n. n;
  uuid = λ n. "p-3";
  serial = λ n. n;
  cut = λ n. none;
  scan = λ n. [];
}

abbrev product : String → ℕ → Product
product id stock = record {
  id = id;
  name = "Pen";
  description = "";
  price_cents = pos 150;
  currency = "USD";
  stock_quantity = pos stock;
  sku = id;
  created_at = 0;
  updated_at = 0;
}

abbrev shelf : World Table
shelf = record { calls = 0; state = product "p-1" 5 ∷ product "p-2" 1 ∷ [] }

reserving : (reserve_stock calm "p-1" (pos 2) shelf).0 ≡ ok (pos 3)
unfolding reserve_stock ◌-ℤ◌
reserving = refl

reserve_stock_exact_example :
    (stock : ℤ) × (stock_of "p-1" shelf.state ≡ some stock)
    × (pos 2 ≤ℤ stock)
    × (pos 3 ≡ stock -ℤ pos 2)
    × (stock_of "p-2" (reserve_stock calm "p-1" (pos 2) shelf).1.state ≡ stock_of "p-2" shelf.state)
unfolding find_row
reserve_stock_exact_example =
    reserve_stock_exact calm "p-1" "p-2" (pos 2) shelf (pos 3) (refl, (refl, tt)) reserving

releasing : (release_stock calm "p-2" (pos 2) shelf).0 ≡ ok (pos 3)
unfolding release_stock ◌+ℤ◌
releasing = refl

release_stock_exact_example :
    (stock : ℤ) × (stock_of "p-2" shelf.state ≡ some stock)
    × (pos 3 ≡ stock +ℤ pos 2)
    × (stock_of "p-2" (release_stock calm "p-2" (pos 2) shelf).1.state ≡ some (pos 3))
release_stock_exact_example = release_stock_exact calm "p-2" "p-2" (pos 2) shelf (pos 3) releasing

shelf-IsStocked : IsStocked shelf.state
shelf-IsStocked = (omega arith, (omega arith, tt))

stock-IsStocked_example :
    IsStocked (Server.reserve_stock calm "p-1" (pos 2) shelf).1.state
    × IsStocked (Server.release_stock calm "p-1" (pos 2) shelf).1.state
stock-IsStocked_example = stock-IsStocked calm "p-1" (pos 2) shelf shelf-IsStocked

-- a shelf of three products of different times, and queries that meet its rows in other orders
abbrev aged : Table
aged =
    record (product "p-1" 5) { created_at = 10 }
    ∷ record (product "p-2" 1) { created_at = 30 }
    ∷ record (product "p-3" 2) { created_at = 20 }
    ∷ []

abbrev shuffling : Env
shuffling = record calm { scan = λ n. n ∷ 1 ∷ [] }

aged-HasDistinct : HasDistinct (λ (p : Product). p.created_at) aged
aged-HasDistinct = (
  ((λ e. absurd (omega (arith, e))), ((λ e. absurd (omega (arith, e))), tt)),
  (((λ e. absurd (omega (arith, e))), tt), (tt, tt)),
)

pages_cover_example :
    pages shuffling (λ n. refl) (λ n. refl) (λ k. k * 3) 2 2 aged
    ≡ record (product "p-2" 1) { created_at = 30 }
      ∷ record (product "p-3" 2) { created_at = 20 }
      ∷ record (product "p-1" 5) { created_at = 10 }
      ∷ []
unfolding order_desc
pages_cover_example =
    pages_cover shuffling (λ n. refl) (λ n. refl) (λ k. k * 3) 2 2 aged (omega arith) (omega arith)
      (omega arith) (omega arith) (omega arith) aged-HasDistinct
