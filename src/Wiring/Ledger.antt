-- ===== src/Wiring/Ledger.antt =====
-- The product service behind its client keeps the ledger that the order service relies on.
use go_grpc_http.Base.{
  ℕ, String, ◌≡◌, ◌≢◌, refl, true, arith, inl, inr, ◌⊎◌, Bool-cases, Option-cases,
}
use go_grpc_http.Base.Text.{◌==◌}
use go_grpc_http.Base.Int.{ℤ, ◌+ℤ◌, ◌-ℤ◌}
use go_grpc_http.Base.Action.{ok, Env, World, done, call}
use go_grpc_http.Base.Sql.{find_row}
use go_grpc_http.Grpc.{Status}
use go_grpc_http.Order.Services.{ProductClient}
use go_grpc_http.Order.Reservations.{IsLedger}
use go_grpc_http.Product.Repository.{Table, has_id}
use go_grpc_http.Product.Repository
use go_grpc_http.Product.Service
use go_grpc_http.Product.Server.{get_product}
use go_grpc_http.Wiring.ProductClient.{product_client}
use go_grpc_http.Wiring.Stock.{
  IsKept, stock_at, Sets, Leaves, IsKept-of_set, IsKept-of_same, reserve_stock-cases,
  release_stock-cases,
}

module _ (env : Env) (text : Status → String) (up : (n : ℕ) → env.outcome n ≡ done) where
  abbrev client : ProductClient (World Table)
  client = product_client env text

  get_product-state : (id : String) (w : World Table) → (get_product env id w).1.state ≡ w.state
  unfolding get_product Service.get_product Repository.get_by_id call
  get_product-state id w = elim (Bool-cases (id == "")) [
    | inl bad ↦ rw bad refl
    | inr good ↦ elim (Option-cases (find_row (has_id id) w.state)) [
      | inl missing ↦ rw (good, up w.calls, missing) refl
      | inr (p, found) ↦ rw (good, up w.calls, found) refl
    ]
  ]

  reserved_valid :
      (w : World Table) (id : String) (q : ℤ)
      → IsKept w
      → Sets env text up id (λ s. s -ℤ q) w (client.reserve_stock id q w)
        ⊎ Leaves env text up w (client.reserve_stock id q w)
      → IsKept (client.reserve_stock id q w).1
  reserved_valid w id q kept (inl (answer, s, found, small, unique, sets)) =
      IsKept-of_set id (s -ℤ q) s w (client.reserve_stock id q w).1 found small unique sets kept
  reserved_valid w id q kept (inr (refused, same)) =
      IsKept-of_same w (client.reserve_stock id q w).1 same kept

  -- A reservation that is not answered with success leaves every stock.
  not_reserved :
      (w : World Table) (id j : String) (q : ℤ)
      → IsKept w
      → (client.reserve_stock id q w).0 ≢ ok true
      → stock_at j (client.reserve_stock id q w).1 ≡ stock_at j w
  not_reserved w id j q kept refused = elim (reserve_stock-cases env text up id q w kept) [
    | inl done_so ↦ absurd (refused done_so.0)
    | inr (other, same) ↦ rw same refl
  ]

  -- The product service keeps the ledger that the order service relies on: over a table whose ids
  -- are unique and not empty and whose stocks fit their column, while the database answers.
  pub product_client-IsLedger : IsLedger client stock_at IsKept
  product_client-IsLedger = record {
    in_range = λ w id {s} kept h. kept.fits id s h;
    get_valid =
        λ w id kept. IsKept-of_same w (client.get_product id w).1 (get_product-state id w) kept;
    get_stock = λ w id j. rw (get_product-state id w) refl;
    reserve_valid = λ w id q positive kept.
        reserved_valid w id q kept (reserve_stock-cases env text up id q w kept);
    reserve_taken = λ w id q kept positive answer.
        elim (reserve_stock-cases env text up id q w kept) [
          | inl (answer', s, found, small, unique, sets) ↦ (s, found, sets)
          | inr (refused, same) ↦ absurd (refused answer)
        ];
    reserve_short = λ w id j q kept positive answer.
        not_reserved w id j q kept (λ e. absurd (ground (arith, answer, e)));
    reserve_failed = λ w id j q {e} kept positive answer.
        not_reserved w id j q kept (λ e'. absurd (ground (arith, answer, e')));
    release_valid = λ w id q positive kept.
        elim (release_stock-cases env text up id q w kept positive) [
          | inl (answer, s, found, small, unique, sets) ↦
              IsKept-of_set id (s +ℤ q) s w (client.release_stock id q w).1 found small unique sets
                kept
          | inr ((refused, same), wide) ↦ IsKept-of_same w (client.release_stock id q w).1 same kept
        ];
    release_back = λ w id j q {s} kept positive found small.
        elim (release_stock-cases env text up id q w kept positive) [
          | inl (answer, t, found', small', unique, sets) ↦
              let e : t ≡ s = ground (arith, found, found') in rw (← e) (sets j)
          | inr (refused, wide) ↦ absurd (ground (arith, wide s found, small))
        ];
    release_missing = λ w id j q kept positive missing.
        elim (release_stock-cases env text up id q w kept positive) [
          | inl (answer, t, found, small, unique, sets) ↦ absurd (ground (arith, found, missing))
          | inr ((refused, same), wide) ↦ rw same refl
        ];
  }
