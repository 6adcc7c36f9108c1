-- ===== src/Product/Stock/Rows.antt =====
-- internal/product/repository/postgres.go: the stocks of a table, and what one statement does to them.
use go_grpc_http.Base.{
  String, ◌≡◌, ◌≢◌, refl, sym, ◌∙◌, [], ◌∷◌, Bool, true, Option, none, some, arith, eq_iff, inl,
  inr, if◌then◌else◌, Bool-cases, Option-cases,
}
use mathlib.Core.Option
use mathlib.Core.Bool.{true≢false}
use go_grpc_http.Base.Text.{◌==◌}
use go_grpc_http.Base.Int.{ℤ, leb_ℤ, is_int32}
use go_grpc_http.Base.Action.{Result, ok, err, Time}
use go_grpc_http.Base.Sql.{find_row, update_rows}
use go_grpc_http.Product.Model.{Product}
use go_grpc_http.Product.Repository.{
  Table, has_id, can_reserve, set_stock, update_stock_where, commit,
}

abbrev pub stock_of : String → Table → Option ℤ
stock_of id rows = Option.map (λ (p : Product). p.stock_quantity) (find_row (has_id id) rows)

-- The primary key: no two rows have one id.
abbrev pub HasUniqueIds : Table → Type 0
HasUniqueIds [] = Unit
HasUniqueIds (p ∷ rows) = (find_row (has_id p.id) rows ≡ none) × HasUniqueIds rows

-- An update of the stock, seen through the ids.
pub find-update :
    (j : String) (test : Product → Bool) (f : ℤ → ℤ) (now : Time) (rows : Table)
    → find_row (has_id j) (update_rows test (λ r. set_stock now (f r.stock_quantity) r) rows)
      ≡ Option.map
          (λ r. if test r then set_stock now (f r.stock_quantity) r else r)
          (find_row (has_id j) rows)
unfolding find_row update_rows
find-update j test f now [] = refl
find-update j test f now (p ∷ rows) = ground (arith, find-update j test f now rows)

pub find-id :
    (id : String) (rows : Table) (p : Product) → find_row (has_id id) rows ≡ some p → p.id ≡ id
unfolding find_row
find-id id [] p h = cc
find-id id (x ∷ rows) p h = ground (arith, eq_iff x.id id, find-id id rows p)

-- A row that can be reserved is the row of the id, and has the stock.
pub find-can_reserve :
    (id : String) (q : ℤ) (rows : Table) (p : Product)
    → HasUniqueIds rows
    → find_row (can_reserve id q) rows ≡ some p
    → (find_row (has_id id) rows ≡ some p) × (leb_ℤ q p.stock_quantity ≡ true) × (p.id ≡ id)
unfolding find_row
find-can_reserve id q [] p u h = absurd (ground arith)
find-can_reserve id q (x ∷ rows) p u h = elim (Bool-cases (x.id == id)) [
  | inl here ↦ elim (Bool-cases (leb_ℤ q x.stock_quantity)) [
    | inl enough ↦
        let same : x ≡ p = ground (arith, here, enough) in
        rw (← same) (ground (arith, here), enough, (eq_iff x.id id).0 here)
    | inr short ↦
        let later = find-can_reserve id q rows p u.1 (ground (arith, here, short)) in
        let gone = rw ((eq_iff x.id id).0 here) at (u.0) in absurd (ground (arith, later.0, gone))
  ]
  | inr other ↦
      let later = find-can_reserve id q rows p u.1 (ground (arith, other)) in
      (ground (arith, other, later.0), later.1, later.2)
]

-- What an accepted statement has done: the row that it returns, and the stock of every id.
pub record Changed (test : Product → Bool) (f : ℤ → ℤ) (rows : Table) (row : Product)
    (rows' : Table) : Type 0 where
  pub before : Product
  pub chosen : find_row test rows ≡ some before
  pub amount : row.stock_quantity ≡ f before.stock_quantity
  pub in_range : is_int32 (f before.stock_quantity) ≡ true
  pub stock :
      (j : String)
      → stock_of j rows'
        ≡ Option.map
            (λ (r : Product). if test r then f r.stock_quantity else r.stock_quantity)
            (find_row (has_id j) rows)

-- A change that tests for an id leaves the stock of every other id.
pub other_stock :
    (id j : String) (test : Product → Bool) (f : ℤ → ℤ) (rows : Table)
    → ((r : Product) → test r ≡ true → r.id ≡ id)
    → j ≢ id
    → Option.map
        (λ (r : Product). if test r then f r.stock_quantity else r.stock_quantity)
        (find_row (has_id j) rows)
      ≡ stock_of j rows
other_stock id j test f rows named other = elim (Option-cases (find_row (has_id j) rows)) [
  | inl missing ↦ rw missing
  | inr (r, e) ↦ elim (Bool-cases (test r)) [
    | inl hit ↦ absurd (other (sym (find-id j rows r e) ∙ named r hit))
    | inr miss ↦ rw (e, miss)
  ]
]

pub reserved_id : (id : String) (q : ℤ) (r : Product) → can_reserve id q r ≡ true → r.id ≡ id
reserved_id id q r h = (eq_iff r.id id).0 (ground (arith, h))

pub stock-update :
    (j : String) (test : Product → Bool) (f : ℤ → ℤ) (now : Time) (rows : Table)
    → stock_of j (update_rows test (λ r. set_stock now (f r.stock_quantity) r) rows)
      ≡ Option.map
          (λ (r : Product). if test r then f r.stock_quantity else r.stock_quantity)
          (find_row (has_id j) rows)
stock-update j test f now rows = rw (find-update j test f now rows) (ground arith)

pub update_stock_where-Changed :
    (test : Product → Bool) (f : ℤ → ℤ) (now : Time) (rows rows' : Table) (row : Product)
    → update_stock_where test f now rows ≡ ok (some row, rows')
    → Changed test f rows row rows'
unfolding update_stock_where
update_stock_where-Changed test f now rows rows' row h = elim (Option-cases (find_row test rows)) [
  | inl missing ↦ absurd (ground (arith, missing))
  | inr (before, chosen) ↦ elim (Bool-cases (is_int32 (f before.stock_quantity))) [
    | inr wide ↦ absurd (ground (arith, chosen, wide))
    | inl fits ↦ record {
      before = before;
      chosen = chosen;
      amount = ground (arith, chosen, fits);
      in_range = fits;
      stock = λ j.
          let same : update_rows test (λ r. set_stock now (f r.stock_quantity) r) rows ≡ rows' =
            ground (arith, chosen, fits) in
          rw (← same) (stock-update j test f now rows);
    }
  ]
]

-- A change of one product's stock, as an equation for every id.
pub by_id :
    (id j : String) (remaining : ℤ) (rows rows' : Table)
    → stock_of id rows' ≡ some remaining
    → (j ≢ id → stock_of j rows' ≡ stock_of j rows)
    → stock_of j rows' ≡ (if j == id then some remaining else stock_of j rows)
by_id id j remaining rows rows' own others = elim (Bool-cases (j == id)) [
  | inl same ↦ rw (same, (eq_iff j id).0 same) own
  | inr other ↦ rw other (others (λ e. true≢false (sym ((eq_iff j id).1 e) ∙ other)))
]

pub commit-ok :
    {A : Type 0} (rows : Table) (r : Result String (A × Table)) (a : A)
    → (commit rows r).0 ≡ ok a
    → r ≡ ok (a, (commit rows r).1)
commit-ok rows (ok (b, rows')) a h = ground (arith, h)
commit-ok rows (err e) a h = absurd (ground (arith, h))
