-- ===== src/Order/Projector/Visible.antt =====
-- internal/order/repository/redis_read.go: a view that queries see from now on.
use go_grpc_http.Base.{ℕ, ◌≤◌, ◌<◌, ◌+◌, ◌≡◌, refl, some, ◌∙◌, arith}
use go_grpc_http.Base.Action.{Result, ok, err, Outcome, done, Env, World, Time, Bytes}
use go_grpc_http.Base.Action
use go_grpc_http.Order.Model.{
  OrderView, OrderCreatedPayload, OrderPaidPayload, OrderCancelledPayload,
}
use go_grpc_http.Order.Services.{Services, OrderState, IsStore, IsLawful}
use go_grpc_http.Order.ReadRepository.{
  get_by_id, save, decode_view, order_key, user_orders_key, view_ttl,
}
use go_grpc_http.Order.Projector.{
  view_of_created, paid_view, cancelled_view, deliver, handle_message, handle_order_created,
  handle_order_paid, handle_order_cancelled,
}
use go_grpc_http.Order.Projector.View.{IsUp, keys_differ}

-- The clock does not run backwards, and all calls are within the day that Redis keeps a view.
pub record IsDay (env : Env) : Type 0 where
  pub ordered : (n m : ℕ) → n ≤ m → env.now n ≤ env.now m
  pub in_time : (n m : ℕ) → env.now m < env.now n + view_ttl

module _ {P R : Type 0} (d : Services P R) where
  -- The view is stored, and is there for every later read.
  pub record IsVisible (v : OrderView) (w : World (OrderState P R)) : Type 0 where
    pub stored : Bytes
    pub decoded : d.json.view.unmarshal stored ≡ ok v
    pub found :
        (m : ℕ)
        → w.calls ≤ m
        → d.redis.get (d.env.now m) (order_key v.order_id) w.state.cache ≡ some stored

  module _ (store : IsStore d.redis) (law : IsLawful d.json) (up : IsUp d.env)
      (day : IsDay d.env) where
    -- `GetByID` answers a visible view.
    pub get_by_id-IsVisible :
        (v : OrderView) (w : World (OrderState P R))
        → IsVisible v w
        → get_by_id d v.order_id w ≡ (ok (some v), record w { calls = w.calls + 1 + 1 })
    unfolding get_by_id decode_view Action.call
    get_by_id-IsVisible v w visible =
        rw (up (w.calls + 1), visible.found w.calls (omega arith), visible.decoded) refl

    pub save-IsVisible :
        (v : OrderView) (w : World (OrderState P R)) {b : Bytes}
        → d.json.view.marshal v ≡ ok b
        → IsVisible v (save d v w).1
    unfolding save Action.call
    save-IsVisible v w {b} written = record {
      stored = b;
      decoded = law.view_law.round_trip v written;
      found = λ m later.
          let now = d.env.now w.calls in
          let key = order_key v.order_id in
          let later' : w.calls + 1 + 1 + 1 ≤ m =
            rw (written, up (w.calls + 1), up (w.calls + 1 + 1)) at later in
          rw (written, up (w.calls + 1), up (w.calls + 1 + 1))
            (store.get-zadd (d.env.now m) (user_orders_key v.user_id) key _ _
                (d.redis.set now key b view_ttl w.state.cache) (keys_differ v.order_id v.user_id)
              ∙ store.get-set_self now (d.env.now m) key b view_ttl w.state.cache
                  (day.ordered w.calls m (omega arith)) (day.in_time w.calls m));
    }

    pub deliver-created-IsVisible :
        (p : OrderCreatedPayload) (body : Bytes) (w : World (OrderState P R)) {b : Bytes}
        → d.json.created.unmarshal body ≡ ok p
        → d.json.view.marshal (view_of_created p) ≡ ok b
        → IsVisible
            (view_of_created p)
            (deliver d (record { subject = "orders.created"; body = body }) w)
    unfolding deliver handle_message handle_order_created
    deliver-created-IsVisible p body w decoded written =
        rw decoded (save-IsVisible (view_of_created p) w written)

    pub deliver-paid-IsVisible :
        (v : OrderView) (p : OrderPaidPayload) (body : Bytes) (w : World (OrderState P R))
        {b : Bytes}
        → IsVisible v w
        → d.json.paid.unmarshal body ≡ ok p
        → p.order_id ≡ v.order_id
        → d.json.view.marshal (paid_view p (d.env.now (w.calls + 1 + 1)) v) ≡ ok b
        → IsVisible
            (paid_view p (d.env.now (w.calls + 1 + 1)) v)
            (deliver d (record { subject = "orders.paid"; body = body }) w)
    unfolding deliver handle_message handle_order_paid
    deliver-paid-IsVisible v p body w visible decoded same written =
        rw (decoded, same, get_by_id-IsVisible v w visible)
          (save-IsVisible (paid_view p (d.env.now (w.calls + 1 + 1)) v)
            (record w { calls = w.calls + 1 + 1 + 1 }) written)

    pub deliver-cancelled-IsVisible :
        (v : OrderView) (p : OrderCancelledPayload) (body : Bytes) (w : World (OrderState P R))
        {b : Bytes}
        → IsVisible v w
        → d.json.cancelled.unmarshal body ≡ ok p
        → p.order_id ≡ v.order_id
        → d.json.view.marshal (cancelled_view (d.env.now (w.calls + 1 + 1)) v) ≡ ok b
        → IsVisible
            (cancelled_view (d.env.now (w.calls + 1 + 1)) v)
            (deliver d (record { subject = "orders.cancelled"; body = body }) w)
    unfolding deliver handle_message handle_order_cancelled
    deliver-cancelled-IsVisible v p body w visible decoded same written =
        rw (decoded, same, get_by_id-IsVisible v w visible)
          (save-IsVisible (cancelled_view (d.env.now (w.calls + 1 + 1)) v)
            (record w { calls = w.calls + 1 + 1 + 1 }) written)
