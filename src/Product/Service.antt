-- ===== src/Product/Service.antt =====
-- internal/product/service/product_service.go
use go_grpc_http.Base.{ℕ, String}
use go_grpc_http.Base.Int.{ℤ}
use go_grpc_http.Base.Action.{Env, pure, draw, wrapping, ◌>>=◌, ◌>>◌}
use go_grpc_http.Product.Model.{Product}
use go_grpc_http.Product.Repository.{Table, Query, or_no_rows}
use go_grpc_http.Product.Repository

module _ (env : Env) where
  unfoldable pub create_product : String → String → ℤ → String → ℤ → String → Query Product
  unfolding Repository.create
  create_product name description price_cents currency stock_qty sku = do
    now ← draw env.now
    id ← draw env.uuid
    let product : Product = record {
      id = id;
      name = name;
      description = description;
      price_cents = price_cents;
      currency = currency;
      stock_quantity = stock_qty;
      sku = sku;
      created_at = now;
      updated_at = now;
    }
    wrapping "create product: " (Repository.create env product)
    pure product

  unfoldable pub get_product : String → Query Product
  unfolding Repository.get_by_id
  get_product id = do
    found ← wrapping "get product: " (Repository.get_by_id env id)
    or_no_rows "product not found" found

  unfoldable pub list_products : ℤ → ℤ → Query (Table × ℕ)
  unfolding Repository.list_products
  list_products page page_size =
      wrapping "list products: " (Repository.list_products env page page_size)

  unfoldable pub update_product : String → String → String → ℤ → String → Query Product
  unfolding Repository.get_by_id Repository.update
  update_product id name description price_cents currency = do
    found ← wrapping "get product: " (Repository.get_by_id env id)
    product ← or_no_rows "product not found" found
    now ← draw env.now
    let changed : Product = record product {
      name = name;
      description = description;
      price_cents = price_cents;
      currency = currency;
      updated_at = now;
    }
    wrapping "update product: " (Repository.update env changed)
    pure changed

  unfoldable pub update_inventory : String → ℤ → Query Product
  unfolding Repository.update_stock
  update_inventory id quantity =
      wrapping "update inventory: " (Repository.update_stock env id quantity)

  unfoldable pub reserve_stock : String → ℤ → Query ℤ
  unfolding Repository.reserve_stock
  reserve_stock id quantity = Repository.reserve_stock env id quantity

  unfoldable pub release_stock : String → ℤ → Query ℤ
  unfolding Repository.release_stock
  release_stock id quantity = Repository.release_stock env id quantity
