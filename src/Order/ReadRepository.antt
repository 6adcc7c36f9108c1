-- ===== src/Order/ReadRepository.antt =====
-- internal/order/repository/redis_read.go: the read model in Redis.
use go_grpc_http.Base.{ℕ, ◌*◌, ◌/◌, ◌^◌, String, List, [], ◌∷◌, ◌++◌, Option, none, some}
use go_grpc_http.Base.Text.{◌⧺◌}
use go_grpc_http.Base.Action.{
  Result, ok, err, Time, Bytes, pure, lift, draw, call, exec, wrapping, handle, ◌>>=◌,
}
use go_grpc_http.Order.Model.{OrderView}
use go_grpc_http.Order.Services.{Services, Handler}

unfoldable pub order_key : String → String
order_key order_id = "order:" ⧺ order_id

unfoldable pub user_orders_key : String → String
user_orders_key user_id = "user_orders:" ⧺ user_id

-- 24*time.Hour, in nanoseconds
abbrev pub view_ttl : ℕ
view_ttl = 24 * 3600 * 10 ^ 9

-- CreatedAt.Unix()
abbrev pub unix : Time → ℕ
unix t = t / 10 ^ 9

-- The error of a pipeline is that of its first command that failed.
abbrev pub first_error : {A : Type 0} → Result String A → Result String A → Result String A
first_error (ok a) r = r
first_error (err e) r = err e

module _ {P R : Type 0} (d : Services P R) where
  unfoldable pub decode_view : Option Bytes → Handler P R (Option OrderView)
  decode_view none = pure none
  decode_view (some data_bytes) = do
    view ← wrapping "unmarshal: " (lift (d.json.view.unmarshal data_bytes))
    pure (some view)

  unfoldable pub get_by_id : String → Handler P R (Option OrderView)
  unfolding decode_view order_key call
  get_by_id order_id = do
    now ← draw d.env.now
    found ←
        wrapping "redis get: " (exec d.env (λ s. (d.redis.get now (order_key order_id) s.cache, s)))
    decode_view found

  abbrev pub append_view : Option OrderView → List OrderView → List OrderView
  append_view none views = views
  append_view (some view) views = views ++ view ∷ []

  -- the loop of `GetByUserID`
  unfoldable pub views_of : List String → List OrderView → Handler P R (List OrderView)
  unfolding get_by_id
  views_of [] views = pure views
  views_of (id ∷ ids) views = do view ← get_by_id id; views_of ids (append_view view views)

  unfoldable pub get_by_user_id : String → Handler P R (List OrderView)
  unfolding views_of user_orders_key call
  get_by_user_id user_id = do
    order_ids ←
        wrapping "redis zrevrange: "
          (exec d.env (λ s. (d.redis.zrevrange (user_orders_key user_id) s.cache, s)))
    views_of order_ids []

  abbrev pub set_view : Time → OrderView → Bytes → Handler P R Unit
  set_view now view data_bytes = exec d.env λ s. (
    tt,
    record s { cache = d.redis.set now (order_key view.order_id) data_bytes view_ttl s.cache },
  )

  abbrev pub index_view : OrderView → Handler P R Unit
  index_view view = exec d.env λ s. (
    tt,
    record s {
      cache =
          d.redis.zadd (user_orders_key view.user_id) (unix view.created_at) view.order_id s.cache;
    },
  )

  -- Both commands of the pipeline are sent, whatever becomes of the first.
  unfoldable pub save : OrderView → Handler P R Unit
  unfolding order_key user_orders_key call
  save view = do
    data_bytes ← wrapping "marshal: " (lift (d.json.view.marshal view))
    now ← draw d.env.now
    handle (set_view now view data_bytes) λ stored.
        handle (index_view view)
          λ indexed. wrapping "redis pipeline: " (lift (first_error stored indexed))
