-- ===== src/Product/Model.antt =====
-- internal/product/model/product.go
use go_grpc_http.Base.{String}
use go_grpc_http.Base.Int.{ℤ}
use go_grpc_http.Base.Action.{Time}

pub record Product : Type 0 where
  pub id : String
  pub name : String
  pub description : String
  pub price_cents : ℤ
  pub currency : String
  pub stock_quantity : ℤ
  pub sku : String
  pub created_at : Time
  pub updated_at : Time
