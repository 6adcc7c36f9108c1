-- ===== src/Wiring/Statements.antt =====
-- internal/product/repository/postgres.go: ReserveStock and ReleaseStock while the database answers.
use go_grpc_http.Base.{
  ℕ, String, ◌≡◌, refl, [], ◌∷◌, Bool, true, false, none, some, inl, inr, ◌⊎◌, Bool-cases,
  Option-cases,
}
use go_grpc_http.Base.Text.{◌⧺◌}
use go_grpc_http.Base.Int.{ℤ, is_int32}
use go_grpc_http.Base.Action.{ok, err, Env, World, done, call, wrapping, pure, ◌>>=◌}
use go_grpc_http.Base.Sql.{find_row, update_rows, out_of_range}
use go_grpc_http.Product.Model.{Product}
use go_grpc_http.Product.Repository.{
  Table, Query, has_id, set_stock, update_stock_where, or_no_rows, commit,
}
use go_grpc_http.Product.Stock.Rows.{HasUniqueIds, find-update}

-- A change of stocks keeps the ids.
pub update-HasUniqueIds :
    (test : Product → Bool) (f : ℤ → ℤ) (now : ℕ) (rows : Table)
    → HasUniqueIds rows
    → HasUniqueIds (update_rows test (λ r. set_stock now (f r.stock_quantity) r) rows)
unfolding update_rows
update-HasUniqueIds test f now [] h = tt
update-HasUniqueIds test f now (p ∷ rows) h =
    let missing : find_row (has_id p.id)
          (update_rows test (λ r. set_stock now (f r.stock_quantity) r) rows)
        ≡ none =
      rw (find-update p.id test f now rows, h.0) refl in
    elim (Bool-cases (test p)) [
      | inl hit ↦ rw hit (missing, update-HasUniqueIds test f now rows h.1)
      | inr miss ↦ rw miss (missing, update-HasUniqueIds test f now rows h.1)
    ]

module _ (env : Env) (up : (n : ℕ) → env.outcome n ≡ done) where
  -- A statement on the stock of one row, and the answer that is read off it.
  abbrev pub change_stock : (Product → Bool) → (ℤ → ℤ) → String → String → ℕ → Query ℤ
  change_stock test f context message now = do
    found ← wrapping context (call env (λ rows. commit rows (update_stock_where test f now rows)))
    row ← or_no_rows message found
    pure row.stock_quantity

  -- The row that the statement changes, and what it leaves.
  abbrev pub Applied : (Product → Bool) → (ℤ → ℤ) → String → String → ℕ → World Table → Type 0
  Applied test f context message now w =
      (row : Product) × (find_row test w.state ≡ some row)
      × (is_int32 (f row.stock_quantity) ≡ true)
      × ((change_stock test f context message now w).0 ≡ ok (f row.stock_quantity))
      × ((change_stock test f context message now w).1.state
          ≡ update_rows test (λ r. set_stock now (f r.stock_quantity) r) w.state)

  -- No row, or a stock out of range: the table stays.
  abbrev pub Skipped : (Product → Bool) → (ℤ → ℤ) → String → String → ℕ → World Table → Type 0
  Skipped test f context message now w =
      ((find_row test w.state ≡ none)
        ⊎ ((row : Product) × (find_row test w.state ≡ some row)
            × (is_int32 (f row.stock_quantity) ≡ false)))
      × (e : String) × ((change_stock test f context message now w).0 ≡ err e)
      × ((change_stock test f context message now w).1.state ≡ w.state)

  pub change_stock-cases :
      (test : Product → Bool) (f : ℤ → ℤ) (context message : String) (now : ℕ) (w : World Table)
      → Applied test f context message now w ⊎ Skipped test f context message now w
  unfolding call update_stock_where
  change_stock-cases test f context message now w = elim (Option-cases (find_row test w.state)) [
    | inl missing ↦ inr (
      inl missing,
      message,
      rw (up w.calls, commit, missing) refl,
      rw (up w.calls, commit, missing) refl,
    )
    | inr (row, found) ↦ elim (Bool-cases (is_int32 (f row.stock_quantity))) [
      | inl fits ↦ inl (
        row,
        found,
        fits,
        rw (up w.calls, commit, found, fits) refl,
        rw (up w.calls, commit, found, fits) refl,
      )
      | inr wide ↦ inr (
        inr (row, found, wide),
        context ⧺ out_of_range,
        rw (up w.calls, commit, found, wide) refl,
        rw (up w.calls, commit, found, wide) refl,
      )
    ]
  ]
