-- ===== src/Product/Oversell.antt =====
-- internal/product/server.go: the handlers ReserveStock and ReleaseStock of the product service and
-- the sign of a stock.
use go_grpc_http.Base.{
  String, ◌≡◌, [], ◌∷◌, Bool, true, false, ◌||◌, Option, none, some, arith, inl, inr, All,
  Bool-cases, Option-cases,
}
use go_grpc_http.Base.Text.{◌==◌, contains}
use go_grpc_http.Base.Int.{ℤ, pos, ◌+ℤ◌, ◌-ℤ◌, ◌≤ℤ◌, leb_ℤ, is_int32, int_laws}
use go_grpc_http.Base.Action.{Result, ok, err, Env, World, Time}
use go_grpc_http.Base.Keeps.{
  Keeps, Keeps-pure, Keeps-fail, Keeps-draw, Keeps-wrapping, Keeps-call, Keeps-bind, Keeps-handle,
  Keeps-if,
}
use go_grpc_http.Base.Sql.{find_row, update_rows}
use go_grpc_http.Product.Model.{Product}
use go_grpc_http.Product.Repository.{
  Table, has_id, can_reserve, set_stock, update_stock_where, or_no_rows, commit,
}
use go_grpc_http.Product.Service
use go_grpc_http.Product.Server.{reserve_stock, release_stock, reserve_reply}

abbrev pub InStock : Product → Type 0
InStock p = pos 0 ≤ℤ p.stock_quantity

abbrev pub IsStocked : Table → Type 0
IsStocked rows = All InStock rows

update-IsStocked :
    (test : Product → Bool) (f : ℤ → ℤ) (now : Time) (rows : Table)
    → ((p : Product) → test p ≡ true → InStock p → pos 0 ≤ℤ f p.stock_quantity)
    → IsStocked rows
    → IsStocked (update_rows test (λ r. set_stock now (f r.stock_quantity) r) rows)
unfolding update_rows
update-IsStocked test f now [] step h = tt
update-IsStocked test f now (p ∷ rows) step h = elim (Bool-cases (test p)) [
  | inl hit ↦ (rw hit (step p hit h.0), update-IsStocked test f now rows step h.1)
  | inr miss ↦ (rw miss h.0, update-IsStocked test f now rows step h.1)
]

commit-IsStocked :
    (test : Product → Bool) (f : ℤ → ℤ) (now : Time) (rows : Table)
    → ((p : Product) → test p ≡ true → InStock p → pos 0 ≤ℤ f p.stock_quantity)
    → IsStocked rows
    → IsStocked (commit rows (update_stock_where test f now rows)).1
unfolding update_stock_where
commit-IsStocked test f now rows step h = elim (Option-cases (find_row test rows)) [
  | inl missing ↦ rw (missing, commit) h
  | inr (p, e) ↦ elim (Bool-cases (is_int32 (f p.stock_quantity))) [
    | inl fits ↦ rw (e, fits, commit) (update-IsStocked test f now rows step h)
    | inr wide ↦ rw (e, wide, commit) h
  ]
]

-- the test of the statement leaves room for the quantity
room_left : (id : String) (q : ℤ) (p : Product) → can_reserve id q p ≡ true → q ≤ℤ p.stock_quantity
room_left id q p h = ground arith

positive_of_test : (id : String) (q : ℤ) → (id == "" || leb_ℤ q (pos 0)) ≡ false → pos 0 ≤ℤ q
positive_of_test id q h = ground arith

module _ (env : Env) where
  answer-Keeps :
      (message : String) (found : Option Product) → Keeps IsStocked (or_no_rows message found)
  answer-Keeps message none = Keeps-fail message
  answer-Keeps message (some row) = Keeps-pure row

  reserve-Keeps :
      (id : String) (q : ℤ) → pos 0 ≤ℤ q → Keeps IsStocked (Service.reserve_stock env id q)
  unfolding Service.reserve_stock
  reserve-Keeps id q positive = Keeps-bind _ _ (Keeps-draw env.now) λ now.
      Keeps-bind _ _
        (Keeps-wrapping "reserve stock: " _ (
          Keeps-call env
            (λ rows. commit rows (update_stock_where (can_reserve id q) (λ s. s -ℤ q) now rows))
            (λ rows h.
              commit-IsStocked (can_reserve id q) (λ s. s -ℤ q) now rows
                (λ p hit stocked. omega (int_laws, room_left id q p hit)) h)))
        (λ found.
          Keeps-bind _ _ (answer-Keeps "insufficient stock" found)
            (λ row. Keeps-pure row.stock_quantity))

  release-Keeps :
      (id : String) (q : ℤ) → pos 0 ≤ℤ q → Keeps IsStocked (Service.release_stock env id q)
  unfolding Service.release_stock
  release-Keeps id q positive = Keeps-bind _ _ (Keeps-draw env.now) λ now.
      Keeps-bind _ _
        (Keeps-wrapping "release stock: " _ (
          Keeps-call env
            (λ rows. commit rows (update_stock_where (has_id id) (λ s. s +ℤ q) now rows))
            (λ rows h.
              commit-IsStocked (has_id id) (λ s. s +ℤ q) now rows (λ p hit stocked. omega int_laws)
                h)))
        (λ found.
          Keeps-bind _ _ (answer-Keeps "product not found" found)
            (λ row. Keeps-pure row.stock_quantity))

  reserve_reply-Keeps : (r : Result String ℤ) → Keeps IsStocked (reserve_reply env r)
  reserve_reply-Keeps (ok q) = record { at = λ w h. h }
  reserve_reply-Keeps (err e) =
      Keeps-if (contains e "insufficient") _ _ (Keeps-pure _) (Keeps-fail _)

  stock-Keeps :
      (id : String) (q : ℤ)
      → Keeps IsStocked (reserve_stock env id q) × Keeps IsStocked (release_stock env id q)
  unfolding reserve_stock release_stock
  stock-Keeps id q = elim (Bool-cases (id == "" || leb_ℤ q (pos 0))) [
    | inl bad ↦ (rw bad (Keeps-fail _), rw bad (Keeps-fail _))
    | inr good ↦ (
      rw good
          (Keeps-handle _ _ (reserve-Keeps id q (positive_of_test id q good)) reserve_reply-Keeps),
      rw good (record { at = λ w h. (release-Keeps id q (positive_of_test id q good)).at w h }),
    )
  ]

  -- From a table without negative stocks, neither ReserveStock nor ReleaseStock leaves one, whatever
  -- the request is and however the database call ends.
  pub stock-IsStocked :
      (id : String) (q : ℤ) (w : World Table)
      → IsStocked w.state
      → IsStocked (reserve_stock env id q w).1.state × IsStocked (release_stock env id q w).1.state
  stock-IsStocked id q w h = ((stock-Keeps id q).0.at w h, (stock-Keeps id q).1.at w h)
