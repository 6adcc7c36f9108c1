-- ===== src/Order/Command.antt =====
-- internal/order/command/handler.go: the write side.
use go_grpc_http.Base.{String, List, [], ◌∷◌, ◌++◌, Bool, true, false}
use go_grpc_http.Base.Text.{◌⧺◌}
use go_grpc_http.Base.Action.{
  Result, ok, err, pure, fail, lift, draw, call, wrapping, handle, ◌>>=◌, ◌>>◌,
}
use go_grpc_http.Order.Model.{OrderItem, StoredEvent}
use go_grpc_http.Order.Services.{ProductInfo, Services, Handler}
use go_grpc_http.Order.Aggregate.{Order, new_order}
use go_grpc_http.Order.Aggregate
use go_grpc_http.Order.EventStore.{append, load}
use go_grpc_http.Order.Publisher.{publish}

abbrev pub enrich : OrderItem → ProductInfo → OrderItem
enrich item product = record item { product_name = product.name; price_cents = product.price_cents }

module _ {P R : Type 0} (d : Services P R) where
  abbrev pub get_product : String → Handler P R ProductInfo
  get_product id =
      call d.env
        λ s. let (r, p) = d.products.get_product id s.products in (r, record s { products = p })

  abbrev pub reserve_stock : OrderItem → Handler P R Bool
  reserve_stock item = call d.env λ s.
      let (r, p) = d.products.reserve_stock item.product_id item.quantity s.products in
      (r, record s { products = p })

  abbrev pub release_stock : OrderItem → Handler P R Bool
  release_stock item = call d.env λ s.
      let (r, p) = d.products.release_stock item.product_id item.quantity s.products in
      (r, record s { products = p })

  -- The answers to the releases are ignored.
  unfoldable pub rollback_reservations : List OrderItem → Handler P R Unit
  unfolding call
  rollback_reservations [] = pure tt
  rollback_reservations (item ∷ items) =
      handle (release_stock item) λ _. rollback_reservations items

  -- `if err != nil { h.rollbackReservations(ctx, reserved); return nil, fmt.Errorf(…) }`
  abbrev pub rolled_back : {A : Type 0} → List OrderItem → String → Result String A → Handler P R A
  rolled_back reserved context (ok a) = pure a
  rolled_back reserved context (err e) = do rollback_reservations reserved; fail (context ⧺ e)

  unfoldable pub or_rollback :
      {A : Type 0} → List OrderItem → String → Handler P R A → Handler P R A
  unfolding rollback_reservations
  or_rollback reserved context m = handle m (rolled_back reserved context)

  abbrev pub require_stock : String → Bool → Handler P R Unit
  require_stock id true = pure tt
  require_stock id false = fail ("insufficient stock for product " ⧺ id)

  -- The loop of `PlaceOrder`. `reserved` and `enrichedItems` hold the same items, here `reserved`.
  unfoldable pub reserve_items : List OrderItem → List OrderItem → Handler P R (List OrderItem)
  unfolding or_rollback call
  reserve_items reserved [] = pure reserved
  reserve_items reserved (item ∷ items) = do
    product ←
        or_rollback reserved ("get product " ⧺ item.product_id ⧺ ": ") (get_product item.product_id)
    success ←
        or_rollback reserved ("reserve stock for " ⧺ item.product_id ⧺ ": ") (reserve_stock item)
    or_rollback reserved "" (require_stock item.product_id success)
    reserve_items (reserved ++ enrich item product ∷ []) items

  unfoldable pub place_order : String → List OrderItem → String → Handler P R Order
  unfolding reserve_items or_rollback append publish
  place_order user_id items currency = do
    enriched ← reserve_items [] items
    now ← draw d.env.now
    uuid ← draw d.env.uuid
    order ←
        or_rollback enriched "place order: "
          (lift (Aggregate.place_order d.json now uuid user_id enriched currency new_order))
    or_rollback enriched "persist events: " (append d order.changes)
    handle (publish d order.changes) λ _. pure order

  abbrev pub require_events : List StoredEvent → Handler P R Unit
  require_events [] = fail "order not found"
  require_events (e ∷ es) = pure tt

  unfoldable pub cancel_order : String → String → Handler P R Unit
  unfolding rollback_reservations load append publish
  cancel_order order_id reason = do
    events ← wrapping "load events: " (load d order_id)
    require_events events
    order ← wrapping "rebuild aggregate: " (lift (Aggregate.load_from_events d.json events))
    now ← draw d.env.now
    cancelled ← lift (Aggregate.cancel d.json now reason order)
    wrapping "persist events: " (append d cancelled.changes)
    rollback_reservations cancelled.items
    handle (publish d cancelled.changes) λ _. pure tt
