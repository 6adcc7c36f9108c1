-- ===== src/Wiring/ProductClient.antt =====
-- cmd/order-service/main.go: `productv1.NewProductServiceClient(productConn)`, over the server that
-- cmd/product-service/main.go registers. The products of the order service are the state of that server.
use go_grpc_http.Base.{String}
use go_grpc_http.Base.Action.{Result, ok, err, Env, World}
use go_grpc_http.Grpc.{Status}
use go_grpc_http.Order.Services.{ProductClient}
use go_grpc_http.Product.Repository.{Table}
use go_grpc_http.Product.Server.{get_product, reserve_stock, release_stock}

-- What the generated client gives back for an answer of the server.
abbrev pub received :
    {A B : Type 0} → (Status → String) → (A → B) → Result Status A → Result String B
received text f (ok a) = ok (f a)
received text f (err e) = err (text e)

-- `text` is the `Error` method of the status errors that the generated client gives back.
abbrev pub product_client : Env → (Status → String) → ProductClient (World Table)
product_client env text = record {
  get_product = λ id w.
      let (r, w') = get_product env id w in
      (received text (λ resp. record { name = resp.name; price_cents = resp.price_cents }) r, w');
  reserve_stock = λ id q w.
      let (r, w') = reserve_stock env id q w in (received text (λ resp. resp.success) r, w');
  release_stock = λ id q w.
      let (r, w') = release_stock env id q w in (received text (λ resp. resp.success) r, w');
}
