-- ===== src/Order/Server.antt =====
-- internal/order/server.go: the gRPC handlers, which check the request and map the errors.
use go_grpc_http.Base.{String, List, [], ◌∷◌, map, is_empty, ◌||◌, if◌then◌else◌}
use go_grpc_http.Base.Text.{◌⧺◌, ◌==◌, contains}
use go_grpc_http.Base.Int.{ℤ, pos, leb_ℤ}
use go_grpc_http.Base.Action.{Result, ok, err, Action, Time, pure, fail, lift, draw, ◌>>=◌}
use go_grpc_http.Grpc.{
  invalid_argument, not_found, failed_precondition, internal, Status, status, answer,
}
use go_grpc_http.Order.Model.{OrderItem, OrderView, status_cancelled}
use go_grpc_http.Order.Services.{Services, OrderState}
use go_grpc_http.Order.Aggregate.{Order}
use go_grpc_http.Order.Command
use go_grpc_http.Order.Query

pub record ItemRequest : Type 0 where
  pub product_id : String
  pub quantity : ℤ

pub record PlaceOrderRequest : Type 0 where
  pub user_id : String
  pub items : List ItemRequest
  pub currency : String

pub record PlaceOrderResponse : Type 0 where
  pub order_id : String
  pub status : String
  pub total_cents : ℤ
  pub created_at : Time

pub record CancelOrderRequest : Type 0 where
  pub order_id : String
  pub reason : String

pub record CancelOrderResponse : Type 0 where
  pub order_id : String
  pub status : String

pub record ItemResponse : Type 0 where
  pub product_id : String
  pub product_name : String
  pub quantity : ℤ
  pub price_cents : ℤ

pub record GetOrderResponse : Type 0 where
  pub order_id : String
  pub user_id : String
  pub items : List ItemResponse
  pub total_cents : ℤ
  pub currency : String
  pub status : String
  pub payment_id : String
  pub created_at : Time
  pub updated_at : Time

abbrev pub bad_item : Status
bad_item = status invalid_argument "each item needs product_id and positive quantity"

-- the loop that checks the items and copies them
unfoldable pub checked_items : List ItemRequest → Result Status (List OrderItem)
checked_items [] = ok []
checked_items (item ∷ items) =
    let rest = checked_items items in
    if item.product_id == "" || leb_ℤ item.quantity (pos 0) then err bad_item else elim rest [
      | ok copied ↦ ok (
          record {
            product_id = item.product_id;
            product_name = "";
            quantity = item.quantity;
            price_cents = pos 0;
          }
          ∷ copied)
      | err e ↦ err e
    ]

abbrev pub or_usd : String → String
or_usd currency = if currency == "" then "USD" else currency

unfoldable pub place_order_status : String → Status
unfolding contains
place_order_status e =
    if contains e "insufficient stock"
    then status failed_precondition e
    else status internal ("place order: " ⧺ e)

unfoldable pub cancel_order_status : String → Status
unfolding contains
cancel_order_status e =
    if contains e "not found"
    then status not_found "order not found"
    else if contains e "can only cancel"
    then status failed_precondition e
    else status internal ("cancel order: " ⧺ e)

unfoldable pub get_order_status : String → Status
unfolding contains
get_order_status e =
    if contains e "not found"
    then status not_found "order not found"
    else status internal ("get order: " ⧺ e)

abbrev pub item_to_proto : OrderItem → ItemResponse
item_to_proto item = record {
  product_id = item.product_id;
  product_name = item.product_name;
  quantity = item.quantity;
  price_cents = item.price_cents;
}

unfoldable pub view_to_proto : OrderView → GetOrderResponse
view_to_proto v = record {
  order_id = v.order_id;
  user_id = v.user_id;
  items = map item_to_proto v.items;
  total_cents = v.total_cents;
  currency = v.currency;
  status = v.status;
  payment_id = v.payment_id;
  created_at = v.created_at;
  updated_at = v.updated_at;
}

module _ {P R : Type 0} (d : Services P R) where
  abbrev Reply : Type 0 → Type 0
  Reply A = Action Status (OrderState P R) A

  unfoldable pub place_order : PlaceOrderRequest → Reply PlaceOrderResponse
  unfolding checked_items place_order_status
  place_order req =
      if req.user_id == "" || is_empty req.items
      then fail (status invalid_argument "user_id and items are required")
      else do
        items ← lift (checked_items req.items)
        order ←
            answer (λ (o : Order). o) place_order_status
              (Command.place_order d req.user_id items (or_usd req.currency))
        now ← draw d.env.now
        pure (record {
          order_id = order.id;
          status = order.status;
          total_cents = order.total_cents;
          created_at = now;
        })

  unfoldable pub cancel_order : CancelOrderRequest → Reply CancelOrderResponse
  unfolding cancel_order_status
  cancel_order req =
      if req.order_id == ""
      then fail (status invalid_argument "order_id is required")
      else answer (λ _. record { order_id = req.order_id; status = status_cancelled })
          cancel_order_status (Command.cancel_order d req.order_id req.reason)

  unfoldable pub get_order : String → Reply GetOrderResponse
  unfolding get_order_status view_to_proto
  get_order order_id =
      if order_id == ""
      then fail (status invalid_argument "order_id is required")
      else answer view_to_proto get_order_status (Query.get_order d order_id)

  unfoldable pub list_orders_by_user : String → Reply (List GetOrderResponse)
  unfolding view_to_proto
  list_orders_by_user user_id =
      if user_id == ""
      then fail (status invalid_argument "user_id is required")
      else answer (map view_to_proto) (λ e. status internal ("list orders: " ⧺ e))
          (Query.list_orders_by_user d user_id)
