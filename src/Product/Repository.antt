-- ===== src/Product/Repository.antt =====
-- internal/product/repository/postgres.go, over the products table of cmd/product-service/main.go
-- and migrations/product. The state is the table.
use go_grpc_http.Base.{
  ℕ, String, List, [], ◌∷◌, ◌++◌, Bool, true, false, not, ◌&&◌, ◌||◌, Option, none, some, length,
  leb, if◌then◌else◌,
}
use go_grpc_http.Base.Text.{◌==◌, fits}
use go_grpc_http.Base.Int.{
  ℤ, pos, negsuc, ◌+ℤ◌, ◌-ℤ◌, ◌*ℤ◌, leb_ℤ, ltb_ℤ, pos_part, wrap32, is_int32, int32_max,
}
use go_grpc_http.Base.Action.{
  Result, ok, err, Env, Time, Action, pure, fail, draw, reading, call, exec, wrapping, ◌>>=◌, ◌>>◌,
}
use go_grpc_http.Base.Sql.{
  take, drop, cut_rows, find_row, update_rows, scanned, order_desc, unique_violation,
  value_too_long, out_of_range,
}
use go_grpc_http.Product.Model.{Product}

abbrev pub Table : Type 0
Table = List Product

abbrev pub Query : Type 0 → Type 0
Query A = Action String Table A

abbrev pub has_id : String → Product → Bool
has_id id p = p.id == id

abbrev pub has_sku : String → Product → Bool
has_sku sku p = p.sku == sku

abbrev pub is_none : {A : Type 0} → Option A → Bool
is_none none = true
is_none (some a) = false

unfoldable pub insert_product : Product → Table → Result String Table
unfolding find_row
insert_product p rows =
    if not (fits 36 p.id && fits 255 p.name && fits 3 p.currency && fits 100 p.sku)
    then err value_too_long
    else if is_none (find_row (has_id p.id) rows) && is_none (find_row (has_sku p.sku) rows)
    then ok (rows ++ p ∷ [])
    else err unique_violation

-- the answer of a statement that may be refused, which then changes nothing
abbrev pub commit : {A : Type 0} → Table → Result String (A × Table) → Result String A × Table
commit rows (ok (a, rows')) = (ok a, rows')
commit rows (err e) = (err e, rows)

abbrev set_fields : Product → Product → Product
set_fields p row = record row {
  name = p.name;
  description = p.description;
  price_cents = p.price_cents;
  currency = p.currency;
  updated_at = p.updated_at;
}

abbrev pub set_stock : Time → ℤ → Product → Product
set_stock now quantity row = record row { stock_quantity = quantity; updated_at = now }

-- UPDATE products SET stock_quantity = … WHERE … RETURNING …: `none` is no row. A value out of the
-- range of INT refuses the statement.
unfoldable pub update_stock_where :
    (Product → Bool) → (ℤ → ℤ) → Time → Table → Result String (Option Product × Table)
unfolding find_row update_rows
update_stock_where test f now rows = elim (find_row test rows) [
  | none ↦ ok (none, rows)
  | some row ↦
      if is_int32 (f row.stock_quantity)
      then ok (
        some (set_stock now (f row.stock_quantity) row),
        update_rows test (λ r. set_stock now (f r.stock_quantity) r) rows,
      )
      else err out_of_range
]

abbrev pub or_no_rows : {A : Type 0} → String → Option A → Query A
or_no_rows message none = fail message
or_no_rows message (some a) = pure a

abbrev pub can_reserve : String → ℤ → Product → Bool
can_reserve id quantity p = p.id == id && leb_ℤ quantity p.stock_quantity

-- the clamps at the head of `List`
abbrev pub clamp_page : ℤ → ℤ
clamp_page page = if ltb_ℤ page (pos 1) then pos 1 else page

abbrev pub clamp_page_size : ℤ → ℤ
clamp_page_size size = if ltb_ℤ size (pos 1) || ltb_ℤ (pos 100) size then pos 20 else size

-- `offset := (page - 1) * pageSize`, on int32
unfoldable pub page_offset : ℤ → ℤ → ℤ
page_offset page size = wrap32 (wrap32 (page -ℤ pos 1) *ℤ size)

abbrev pub negative_offset : String
negative_offset = "ERROR: OFFSET must not be negative (SQLSTATE 2201X)"

-- SELECT … ORDER BY created_at DESC LIMIT size OFFSET offset
unfoldable pub page_of : ℤ → ℤ → Table → Result String Table
unfolding order_desc
page_of size (negsuc n) rows = err negative_offset
page_of size (pos offset) rows =
    ok (take (pos_part size) (drop offset (order_desc (λ p. p.created_at) rows)))

-- SELECT COUNT(*), scanned into an int32
abbrev pub count_rows : Table → Result String ℕ
count_rows rows = if leb (length rows) int32_max then ok (length rows) else err out_of_range

abbrev fits_fields : Product → Bool
fits_fields p = fits 255 p.name && fits 3 p.currency

-- UPDATE products SET …; a text that does not fit its column refuses the statement if a row matches
abbrev pub update_fields : Product → Table → Result String (Option Product) × Table
update_fields p rows = elim (find_row (has_id p.id) rows) [
  | none ↦ (ok none, rows)
  | some row ↦
      if fits_fields p
      then (ok (some row), update_rows (has_id p.id) (set_fields p) rows)
      else (err value_too_long, rows)
]

module _ (env : Env) where
  unfoldable pub create : Product → Query Unit
  unfolding insert_product call
  create p = wrapping "insert product: " (
      call env (λ rows.
        commit rows (elim (insert_product p rows) [ ok rows' ↦ ok (tt, rows') | err e ↦ err e ])))

  unfoldable pub get_by_id : String → Query (Option Product)
  unfolding find_row call
  get_by_id id = wrapping "get product: " (exec env (λ rows. (find_row (has_id id) rows, rows)))

  unfoldable pub list_products : ℤ → ℤ → Query (Table × ℕ)
  unfolding page_of page_offset call
  list_products page page_size = do
    let page' = clamp_page page
    let size = clamp_page_size page_size
    total ← wrapping "count products: " (call env (λ rows. (count_rows rows, rows)))
    drawn ← draw (reading env)
    products ←
        wrapping "list products: "
          (call env (λ rows. (page_of size (page_offset page' size) (scanned drawn.1 rows), rows)))
    pure (cut_rows drawn.0 products, total)

  unfoldable pub update : Product → Query Unit
  unfolding find_row update_rows call
  update p = do
    found ← wrapping "update product: " (call env (update_fields p))
    or_no_rows "product not found" found
    pure tt

  unfoldable pub update_stock : String → ℤ → Query Product
  unfolding update_stock_where call
  update_stock id quantity = do
    now ← draw env.now
    found ←
        wrapping "update stock: "
          (call env (λ rows. commit rows (update_stock_where (has_id id) (λ _. quantity) now rows)))
    or_no_rows "product not found" found

  unfoldable pub reserve_stock : String → ℤ → Query ℤ
  unfolding update_stock_where call
  reserve_stock id quantity = do
    now ← draw env.now
    found ← wrapping "reserve stock: " (
        call env λ rows.
          commit rows
            (update_stock_where (can_reserve id quantity) (λ stock. stock -ℤ quantity) now rows))
    row ← or_no_rows "insufficient stock" found
    pure row.stock_quantity

  unfoldable pub release_stock : String → ℤ → Query ℤ
  unfolding update_stock_where call
  release_stock id quantity = do
    now ← draw env.now
    found ← wrapping "release stock: " (
        call env λ rows.
          commit rows (update_stock_where (has_id id) (λ stock. stock +ℤ quantity) now rows))
    row ← or_no_rows "product not found" found
    pure row.stock_quantity
