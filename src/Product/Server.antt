-- ===== src/Product/Server.antt =====
-- internal/product/server.go: the gRPC handlers.
use go_grpc_http.Base.{
  ℕ, String, List, map, Bool, true, false, Option, none, some, ◌||◌, if◌then◌else◌,
}
use go_grpc_http.Base.Text.{◌⧺◌, ◌==◌, contains}
use go_grpc_http.Base.Int.{ℤ, pos, leb_ℤ, ltb_ℤ}
use go_grpc_http.Base.Action.{Result, ok, err, Env, Time, Action, pure, fail, handle}
use go_grpc_http.Grpc.{invalid_argument, not_found, internal, Status, status, answer}
use go_grpc_http.Product.Model.{Product}
use go_grpc_http.Product.Repository.{Table}
use go_grpc_http.Product.Service

abbrev pub Reply : Type 0 → Type 0
Reply A = Action Status Table A

pub record CreateProductRequest : Type 0 where
  pub name : String
  pub description : String
  pub price_cents : ℤ
  pub currency : String
  pub stock_quantity : ℤ
  pub sku : String

pub record CreateProductResponse : Type 0 where
  pub product_id : String
  pub name : String
  pub price_cents : ℤ
  pub currency : String
  pub stock_quantity : ℤ
  pub sku : String
  pub created_at : Time

pub record GetProductResponse : Type 0 where
  pub product_id : String
  pub name : String
  pub description : String
  pub price_cents : ℤ
  pub currency : String
  pub stock_quantity : ℤ
  pub sku : String
  pub created_at : Time
  pub updated_at : Time

-- `Pagination` of a request; `none` is a nil message
pub record PaginationRequest : Type 0 where
  pub page : ℤ
  pub page_size : ℤ

pub record ListProductsResponse : Type 0 where
  pub products : List GetProductResponse
  pub total_count : ℕ
  pub page : ℤ
  pub page_size : ℤ

pub record UpdateProductRequest : Type 0 where
  pub product_id : String
  pub name : String
  pub description : String
  pub price_cents : ℤ
  pub currency : String

pub record UpdateProductResponse : Type 0 where
  pub product_id : String
  pub name : String
  pub price_cents : ℤ
  pub currency : String
  pub stock_quantity : ℤ
  pub updated_at : Time

pub record UpdateInventoryResponse : Type 0 where
  pub product_id : String
  pub stock_quantity : ℤ
  pub updated_at : Time

pub record StockResponse : Type 0 where
  pub success : Bool
  pub remaining_stock : ℤ

abbrev created_response : Product → CreateProductResponse
created_response p = record {
  product_id = p.id;
  name = p.name;
  price_cents = p.price_cents;
  currency = p.currency;
  stock_quantity = p.stock_quantity;
  sku = p.sku;
  created_at = p.created_at;
}

abbrev pub product_to_proto : Product → GetProductResponse
product_to_proto p = record {
  product_id = p.id;
  name = p.name;
  description = p.description;
  price_cents = p.price_cents;
  currency = p.currency;
  stock_quantity = p.stock_quantity;
  sku = p.sku;
  created_at = p.created_at;
  updated_at = p.updated_at;
}

abbrev updated_response : Product → UpdateProductResponse
updated_response p = record {
  product_id = p.id;
  name = p.name;
  price_cents = p.price_cents;
  currency = p.currency;
  stock_quantity = p.stock_quantity;
  updated_at = p.updated_at;
}

abbrev inventory_response : Product → UpdateInventoryResponse
inventory_response p = record {
  product_id = p.id;
  stock_quantity = p.stock_quantity;
  updated_at = p.updated_at;
}

unfoldable pub product_status : String → String → Status
unfolding contains
product_status context e =
    if contains e "not found"
    then status not_found "product not found"
    else status internal (context ⧺ e)

-- the page and the page size of a request, with their defaults
abbrev pub requested_page : Option PaginationRequest → ℤ
requested_page none = pos 1
requested_page (some p) = if ltb_ℤ (pos 0) p.page then p.page else pos 1

abbrev pub requested_size : Option PaginationRequest → ℤ
requested_size none = pos 20
requested_size (some p) = if ltb_ℤ (pos 0) p.page_size then p.page_size else pos 20

abbrev pub bad_stock_request : Status
bad_stock_request = status invalid_argument "product_id and positive quantity required"

module _ (env : Env) where
  unfoldable pub create_product : CreateProductRequest → Reply CreateProductResponse
  unfolding Service.create_product
  create_product req =
      if req.name == ""
      then fail (status invalid_argument "name is required")
      else if leb_ℤ req.price_cents (pos 0)
      then fail (status invalid_argument "price must be positive")
      else answer created_response (λ e. status internal ("create product: " ⧺ e))
          (Service.create_product env req.name req.description req.price_cents req.currency
            req.stock_quantity req.sku)

  unfoldable pub get_product : String → Reply GetProductResponse
  unfolding Service.get_product product_status
  get_product product_id =
      if product_id == ""
      then fail (status invalid_argument "product_id is required")
      else answer product_to_proto (product_status "get product: ")
          (Service.get_product env product_id)

  unfoldable pub list_products : Option PaginationRequest → Reply ListProductsResponse
  unfolding Service.list_products
  list_products pagination =
      let page = requested_page pagination in
      let size = requested_size pagination in
      answer
        (λ (found : Table × ℕ). record {
          products = map product_to_proto found.0;
          total_count = found.1;
          page = page;
          page_size = size;
        })
        (λ e. status internal ("list products: " ⧺ e)) (Service.list_products env page size)

  unfoldable pub update_product : UpdateProductRequest → Reply UpdateProductResponse
  unfolding Service.update_product product_status
  update_product req =
      if req.product_id == ""
      then fail (status invalid_argument "product_id is required")
      else answer updated_response (product_status "update product: ") (
          Service.update_product env req.product_id req.name req.description req.price_cents
            req.currency)

  unfoldable pub update_inventory : String → ℤ → Reply UpdateInventoryResponse
  unfolding Service.update_inventory product_status
  update_inventory product_id quantity =
      if product_id == ""
      then fail (status invalid_argument "product_id is required")
      else answer inventory_response (product_status "update inventory: ")
          (Service.update_inventory env product_id quantity)

  -- "insufficient" in the error is the answer `success = false`
  abbrev pub reserve_reply : Result String ℤ → Reply StockResponse
  reserve_reply (ok remaining) = pure (record { success = true; remaining_stock = remaining })
  reserve_reply (err e) =
      if contains e "insufficient"
      then pure (record { success = false; remaining_stock = pos 0 })
      else fail (status internal ("reserve stock: " ⧺ e))

  unfoldable pub reserve_stock : String → ℤ → Reply StockResponse
  unfolding Service.reserve_stock contains
  reserve_stock product_id quantity =
      if product_id == "" || leb_ℤ quantity (pos 0)
      then fail bad_stock_request
      else handle (Service.reserve_stock env product_id quantity) reserve_reply

  unfoldable pub release_stock : String → ℤ → Reply StockResponse
  unfolding Service.release_stock
  release_stock product_id quantity =
      if product_id == "" || leb_ℤ quantity (pos 0)
      then fail bad_stock_request
      else answer (λ remaining. record { success = true; remaining_stock = remaining })
          (λ e. status internal ("release stock: " ⧺ e))
          (Service.release_stock env product_id quantity)
