-- ===== src/Order/Query.antt =====
-- internal/order/query/handler.go: the read side.
use go_grpc_http.Base.{String, List, Option, none, some}
use go_grpc_http.Base.Action.{pure, fail, wrapping, ◌>>=◌}
use go_grpc_http.Order.Model.{OrderView}
use go_grpc_http.Order.Services.{Services, Handler}
use go_grpc_http.Order.ReadRepository.{get_by_id, get_by_user_id}

module _ {P R : Type 0} (d : Services P R) where
  abbrev pub or_not_found : Option OrderView → Handler P R OrderView
  or_not_found none = fail "order not found"
  or_not_found (some view) = pure view

  unfoldable pub get_order : String → Handler P R OrderView
  unfolding get_by_id
  get_order order_id = do view ← wrapping "get order: " (get_by_id d order_id); or_not_found view

  unfoldable pub list_orders_by_user : String → Handler P R (List OrderView)
  unfolding get_by_user_id
  list_orders_by_user user_id = wrapping "list orders: " (get_by_user_id d user_id)
