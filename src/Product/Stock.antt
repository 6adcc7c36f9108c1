-- ===== src/Product/Stock.antt =====
-- The stock of the products: what a reservation and a release do to it.
pub mod Rows
use go_grpc_http.Base.{
  ◌+◌, String, ◌≡◌, ◌≢◌, refl, sym, ap, ◌∙◌, [], ◌∷◌, Bool, true, Option, none, some, arith, eq_iff,
  inl, inr, if◌then◌else◌, Bool-cases, Option-cases,
}
use mathlib.Core.Option
use mathlib.Core.Bool.{true≢false}
use go_grpc_http.Base.Text.{◌==◌}
use go_grpc_http.Base.Int.{ℤ, ◌+ℤ◌, ◌-ℤ◌, ◌≤ℤ◌, leb_ℤ, is_int32}
use go_grpc_http.Base.Action.{Result, ok, err, Env, World, Time, pure, call, wrapping, ◌>>=◌}
use go_grpc_http.Base.Keeps.{bind-ok, wrapping-ok, call-ok}
use go_grpc_http.Base.Sql.{find_row, update_rows}
use go_grpc_http.Product.Model.{Product}
use go_grpc_http.Product.Repository.{
  Table, Query, has_id, can_reserve, set_stock, update_stock_where, or_no_rows, commit,
  reserve_stock, release_stock,
}
use go_grpc_http.Product.Stock.Rows.{
  Changed, HasUniqueIds, by_id, commit-ok, find-can_reserve, find-id, other_stock, reserved_id,
  stock_of, update_stock_where-Changed,
}

module _ (env : Env) where
  abbrev change : (Product → Bool) → (ℤ → ℤ) → String → Time → Query (Option Product)
  change test f context now =
      wrapping context (call env (λ rows. commit rows (update_stock_where test f now rows)))

  change-ok :
      (test : Product → Bool) (f : ℤ → ℤ) (context : String) (now : Time) (w : World Table)
      (row : Product)
      → (change test f context now w).0 ≡ ok (some row)
      → Changed test f w.state row (change test f context now w).1.state
  change-ok test f context now w row h =
      let statement = λ (rows : Table). commit rows (update_stock_where test f now rows) in
      let (answered, left) =
        call-ok env statement w (wrapping-ok context (call env statement) w h) in
      rw left (
        update_stock_where-Changed test f now w.state (statement w.state).1 row
          (commit-ok w.state (update_stock_where test f now w.state) (some row) answered))

  abbrev answer_stock : String → Option Product → Query ℤ
  answer_stock message found = do row ← or_no_rows message found; pure row.stock_quantity

  -- A statement that answers a stock has changed the row of that stock.
  answered :
      (test : Product → Bool) (f : ℤ → ℤ) (context message : String) (now : Time) (w : World Table)
      (remaining : ℤ)
      → ((change test f context now >>= answer_stock message) w).0 ≡ ok remaining
      → (row : Product) × (row.stock_quantity ≡ remaining)
        × Changed test f w.state row
            ((change test f context now >>= answer_stock message) w).1.state
  answered test f context message now w remaining h =
      let (found, e, rest) = bind-ok (change test f context now) (answer_stock message) w h in
      found_row found e rest
    where
      found_row :
          (found : Option Product)
          → (change test f context now w).0 ≡ ok found
          → (change test f context now >>= answer_stock message) w
            ≡ answer_stock message found (change test f context now w).1
          → (row : Product) × (row.stock_quantity ≡ remaining)
            × Changed test f w.state row
                ((change test f context now >>= answer_stock message) w).1.state
      found_row none e rest = absurd (ground (arith, h, rest))
      found_row (some row) e rest =
          (row, ground (arith, h, rest), rw rest (change-ok test f context now w row e))

  -- With unique ids, a reservation that succeeds found the product with at least the quantity in
  -- stock, answers what is left, and takes exactly the quantity from that product's stock; every
  -- other product keeps its own.
  pub reserve_stock_exact :
      (id j : String) (q : ℤ) (w : World Table) (remaining : ℤ)
      → HasUniqueIds w.state
      → (reserve_stock env id q w).0 ≡ ok remaining
      → (stock : ℤ) × (stock_of id w.state ≡ some stock)
        × (q ≤ℤ stock)
        × (remaining ≡ stock -ℤ q)
        × (stock_of j (reserve_stock env id q w).1.state
            ≡ (if j == id then some remaining else stock_of j w.state))
  unfolding reserve_stock
  reserve_stock_exact id j q w remaining unique h =
      let w1 : World Table = record w { calls = w.calls + 1 } in
      let (row, same, c) =
        answered (can_reserve id q) (λ s. s -ℤ q) "reserve stock: " "insufficient stock"
          (env.now w.calls) w1 remaining h in
      let (found, enough, named) = find-can_reserve id q w.state c.before unique c.chosen in
      let own : stock_of id (reserve_stock env id q w).1.state ≡ some remaining =
        c.stock id
        ∙ rw (found, (eq_iff c.before.id id).1 named, enough) (ap some (sym c.amount ∙ same)) in
      (
        c.before.stock_quantity,
        rw found,
        ground (arith, enough),
        sym same ∙ c.amount,
        by_id id j remaining w.state (reserve_stock env id q w).1.state own (λ other.
            c.stock j
            ∙ other_stock id j (can_reserve id q) (λ s. s -ℤ q) w.state
                (λ r hit. reserved_id id q r hit) other),
      )

  -- A release that succeeds found the product, answers its new stock, and adds exactly
  -- the quantity to it; every other product keeps its own.
  pub release_stock_exact :
      (id j : String) (q : ℤ) (w : World Table) (remaining : ℤ)
      → (release_stock env id q w).0 ≡ ok remaining
      → (stock : ℤ) × (stock_of id w.state ≡ some stock)
        × (remaining ≡ stock +ℤ q)
        × (stock_of j (release_stock env id q w).1.state
            ≡ (if j == id then some remaining else stock_of j w.state))
  unfolding release_stock
  release_stock_exact id j q w remaining h =
      let w1 : World Table = record w { calls = w.calls + 1 } in
      let (row, same, c) =
        answered (has_id id) (λ s. s +ℤ q) "release stock: " "product not found" (env.now w.calls)
          w1 remaining h in
      let own : stock_of id (release_stock env id q w).1.state ≡ some remaining =
        c.stock id
        ∙ rw (c.chosen, (eq_iff c.before.id id).1 (find-id id w.state c.before c.chosen))
            (ap some (sym c.amount ∙ same)) in
      (
        c.before.stock_quantity,
        rw c.chosen,
        sym same ∙ c.amount,
        by_id id j remaining w.state (release_stock env id q w).1.state own (λ other.
            c.stock j
            ∙ other_stock id j (has_id id) (λ s. s +ℤ q) w.state (λ r hit. (eq_iff r.id id).0 hit)
                other),
      )
