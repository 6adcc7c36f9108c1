-- ===== src/Order/Projector/View.antt =====
-- internal/order/event/projector.go and internal/order/repository/redis_read.go: what a query sees
-- after an event was projected.
use go_grpc_http.Base.{ℕ, ◌≤◌, ◌<◌, ◌+◌, ◌*◌, ◌≡◌, ◌≢◌, refl, String, some, sym, ap, ◌∙◌, eq_iff}
use Prim.Native.String.{slice}
use text.Mathlib.TextPositions.{slice-append_left}
use text.Mathlib.TextLemmas.{append_assoc}
use mathlib.Core.Bool.{false≢true}
use go_grpc_http.Base.Text.{◌⧺◌}
use go_grpc_http.Base.Action.{Result, ok, err, Outcome, done, Env, World, Time, Bytes}
use go_grpc_http.Base.Action
use go_grpc_http.Order.Model.{OrderView, OrderCreatedPayload}
use go_grpc_http.Order.Services.{Services, OrderState, IsStore, IsLawful}
use go_grpc_http.Order.ReadRepository.{
  get_by_id, save, decode_view, order_key, user_orders_key, view_ttl,
}
use go_grpc_http.Order.Projector.{view_of_created, deliver, handle_message, handle_order_created}

-- Every call goes through.
abbrev pub IsUp : Env → Type 0
IsUp env = (n : ℕ) → env.outcome n ≡ done

-- The keys of orders and of users differ.
pub keys_differ : (order_id user_id : String) → user_orders_key user_id ≢ order_key order_id
unfolding user_orders_key order_key
keys_differ order_id user_id e =
    let o : slice ("order:" ⧺ order_id) 0 6 ≡ "order:" = slice-append_left "order:" order_id in
    let u : slice ("user_o" ⧺ ("rders:" ⧺ user_id)) 0 6 ≡ "user_o" =
      slice-append_left "user_o" ("rders:" ⧺ user_id) in
    let joined : "user_orders:" ⧺ user_id ≡ "user_o" ⧺ ("rders:" ⧺ user_id) =
      append_assoc "user_o" "rders:" user_id in
    let same : "user_o" ≡ "order:" = sym u ∙ ap (λ k. slice k 0 6) (sym joined ∙ e) ∙ o in
    absurd (false≢true ((eq_iff "user_o" "order:").1 same))

-- `Save` and then `GetByID`, within the day that Redis keeps a view.
module _ {P R : Type 0} (d : Services P R) (store : IsStore d.redis) (law : IsLawful d.json)
    (up : IsUp d.env) where
  save-get :
      (view : OrderView) (w : World (OrderState P R)) {b : Bytes}
      → d.json.view.marshal view ≡ ok b
      → d.env.now w.calls ≤ d.env.now (w.calls + 1 + 1 + 1)
      → d.env.now (w.calls + 1 + 1 + 1) < d.env.now w.calls + view_ttl
      → ((save d view w).0 ≡ ok tt)
        × ((get_by_id d view.order_id (save d view w).1).0 ≡ ok (some view))
  unfolding save get_by_id decode_view Action.call
  save-get view w e before in_time = (
    rw (e, up (w.calls + 1), up (w.calls + 1 + 1)) refl,
    rw
        (
          e,
          up (w.calls + 1),
          up (w.calls + 1 + 1),
          up (w.calls + 1 + 1 + 1 + 1),
          store.get-zadd (d.env.now (w.calls + 1 + 1 + 1)) (user_orders_key view.user_id)
              (order_key view.order_id) _ _ _ (keys_differ view.order_id view.user_id),
          store.get-set_self (d.env.now w.calls) (d.env.now (w.calls + 1 + 1 + 1)) _ _ _ _ before
              in_time,
          law.view_law.round_trip view e,
        )
        refl,
  )

  -- While calls go through, a query for an order that comes directly after the delivery of its
  -- orders.created event, within 24 hours of it, answers the order's view: the fields of the event,
  -- the status "pending", no payment, and the event's time as both times. The payload decodes, and
  -- the view can be marshalled.
  pub deliver-created-visible :
      (p : OrderCreatedPayload) (body : Bytes) (w : World (OrderState P R)) {b : Bytes}
      → d.json.created.unmarshal body ≡ ok p
      → d.json.view.marshal (record {
        order_id = p.order_id;
        user_id = p.user_id;
        items = p.items;
        total_cents = p.total_cents;
        currency = p.currency;
        status = "pending";
        payment_id = "";
        created_at = p.created_at;
        updated_at = p.created_at;
      })
        ≡ ok b
      → d.env.now w.calls ≤ d.env.now (w.calls + 1 + 1 + 1)
      → d.env.now (w.calls + 1 + 1 + 1) < d.env.now w.calls + 24 * 3600 * 1000000000
      → (get_by_id d p.order_id
          (deliver d (record { subject = "orders.created"; body = body }) w)).0
        ≡ ok (
            some (record {
              order_id = p.order_id;
              user_id = p.user_id;
              items = p.items;
              total_cents = p.total_cents;
              currency = p.currency;
              status = "pending";
              payment_id = "";
              created_at = p.created_at;
              updated_at = p.created_at;
            }))
  unfolding deliver handle_message handle_order_created
  deliver-created-visible p body w decoded encoded before in_time =
      rw decoded (save-get (view_of_created p) w encoded before in_time).1
