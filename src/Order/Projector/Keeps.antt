-- ===== src/Order/Projector/Keeps.antt =====
-- internal/order/event/projector.go and the queries: only the read model changes.
use go_grpc_http.Base.{ℕ, String, List, [], ◌∷◌, Option, none, some}
use go_grpc_http.Base.Text.{◌⧺◌, ◌==◌}
use go_grpc_http.Base.Action.{Result, ok, err, wrapping}
use go_grpc_http.Base.Keeps.{
  Keeps, Keeps-pure, Keeps-fail, Keeps-draw, Keeps-lift, Keeps-if, Keeps-wrapping, Keeps-call,
  Keeps-bind, Keeps-handle,
}
use go_grpc_http.Nats.{Message}
use go_grpc_http.Order.Model.{OrderView}
use go_grpc_http.Order.Services.{Services, OrderState}
use go_grpc_http.Order.ReadRepository.{
  decode_view, get_by_id, get_by_user_id, views_of, append_view, save, first_error, order_key,
  user_orders_key, view_ttl, unix,
}
use go_grpc_http.Order.Projector.{
  require_view, view_of_created, paid_view, cancelled_view, handle_order_created, handle_order_paid,
  handle_order_cancelled, handle_message,
}
use go_grpc_http.Order.Query.{get_order, list_orders_by_user, or_not_found}

module _ {P R : Type 0} (d : Services P R) (Q : OrderState P R → Type 0) where
  decode_view-Keeps : (found : Option (List ℕ)) → Keeps Q (decode_view d found)
  unfolding decode_view
  decode_view-Keeps none = Keeps-pure none
  decode_view-Keeps (some b) =
      Keeps-bind _ _ (Keeps-wrapping "unmarshal: " _ (Keeps-lift (d.json.view.unmarshal b)))
        λ view. Keeps-pure (some view)

  pub get_by_id-Keeps : (order_id : String) → Keeps Q (get_by_id d order_id)
  unfolding get_by_id
  get_by_id-Keeps order_id = Keeps-bind _ _ (Keeps-draw d.env.now) λ now.
      Keeps-bind _ _
        (Keeps-wrapping "redis get: " _ (
          Keeps-call d.env (λ s. (ok (d.redis.get now (order_key order_id) s.cache), s))
            (λ s h. h)))
        decode_view-Keeps

  views_of-Keeps : (ids : List String) (views : List OrderView) → Keeps Q (views_of d ids views)
  unfolding views_of
  views_of-Keeps [] views = Keeps-pure views
  views_of-Keeps (id ∷ ids) views =
      Keeps-bind _ _ (get_by_id-Keeps id) λ view. views_of-Keeps ids (append_view d view views)

  get_by_user_id-Keeps : (user_id : String) → Keeps Q (get_by_user_id d user_id)
  unfolding get_by_user_id
  get_by_user_id-Keeps user_id =
      Keeps-bind _ _
        (Keeps-wrapping "redis zrevrange: " _ (
          Keeps-call d.env (λ s. (ok (d.redis.zrevrange (user_orders_key user_id) s.cache), s))
            (λ s h. h)))
        (λ ids. views_of-Keeps ids [])

  or_not_found-Keeps : (view : Option OrderView) → Keeps Q (or_not_found d view)
  or_not_found-Keeps none = Keeps-fail "order not found"
  or_not_found-Keeps (some view) = Keeps-pure view

  pub get_order-Keeps : (order_id : String) → Keeps Q (get_order d order_id)
  unfolding get_order
  get_order-Keeps order_id =
      Keeps-bind _ _ (Keeps-wrapping "get order: " _ (get_by_id-Keeps order_id)) or_not_found-Keeps

  pub list_orders_by_user-Keeps : (user_id : String) → Keeps Q (list_orders_by_user d user_id)
  unfolding list_orders_by_user
  list_orders_by_user-Keeps user_id =
      Keeps-wrapping "list orders: " _ (get_by_user_id-Keeps user_id)

  require_view-Keeps :
      (context : String) (r : Result String (Option OrderView)) → Keeps Q (require_view d context r)
  require_view-Keeps context (err e) = Keeps-fail (context ⧺ e)
  require_view-Keeps context (ok none) = Keeps-fail (context ⧺ "%!w(<nil>)")
  require_view-Keeps context (ok (some view)) = Keeps-pure view

  module _ (stable : (s : OrderState P R) (r : R) → Q s → Q (record s { cache = r })) where
    save-Keeps : (view : OrderView) → Keeps Q (save d view)
    unfolding save
    save-Keeps view =
        Keeps-bind _ _ (Keeps-wrapping "marshal: " _ (Keeps-lift (d.json.view.marshal view))) λ b.
          Keeps-bind _ _ (Keeps-draw d.env.now) λ now.
            Keeps-handle _ _
              (Keeps-call d.env
                (λ s. (
                  ok tt,
                  record s { cache = d.redis.set now (order_key view.order_id) b view_ttl s.cache },
                ))
                (λ s h. stable s (d.redis.set now (order_key view.order_id) b view_ttl s.cache) h))
              λ stored.
                Keeps-handle _ _
                  (Keeps-call d.env
                    (λ s. (
                      ok tt,
                      record s {
                        cache =
                            d.redis.zadd (user_orders_key view.user_id) (unix view.created_at)
                              view.order_id s.cache;
                      },
                    ))
                    (λ s h.
                      stable s
                        (d.redis.zadd (user_orders_key view.user_id) (unix view.created_at)
                          view.order_id s.cache)
                        h))
                  λ indexed.
                    Keeps-wrapping "redis pipeline: " _ (Keeps-lift (first_error stored indexed))

    -- What every handler of the projector does after it has decoded its event.
    saved-Keeps : (view : OrderView) → Keeps Q (wrapping "save view: " (save d view))
    saved-Keeps view = Keeps-wrapping "save view: " _ (save-Keeps view)

    handle_order_created-Keeps : (body : List ℕ) → Keeps Q (handle_order_created d body)
    unfolding handle_order_created
    handle_order_created-Keeps body =
        Keeps-bind _ _ (Keeps-wrapping "unmarshal: " _ (Keeps-lift (d.json.created.unmarshal body)))
          λ p. saved-Keeps (view_of_created p)

    handle_order_paid-Keeps : (body : List ℕ) → Keeps Q (handle_order_paid d body)
    unfolding handle_order_paid
    handle_order_paid-Keeps body =
        Keeps-bind _ _ (Keeps-wrapping "unmarshal: " _ (Keeps-lift (d.json.paid.unmarshal body)))
          λ p.
            Keeps-bind _ _
              (Keeps-handle _ _ (get_by_id-Keeps p.order_id)
                (require_view-Keeps "get view for paid event: "))
              λ view.
                Keeps-bind _ _ (Keeps-draw d.env.now) λ now. saved-Keeps (paid_view p now view)

    handle_order_cancelled-Keeps : (body : List ℕ) → Keeps Q (handle_order_cancelled d body)
    unfolding handle_order_cancelled
    handle_order_cancelled-Keeps body =
        Keeps-bind _ _
          (Keeps-wrapping "unmarshal: " _ (Keeps-lift (d.json.cancelled.unmarshal body)))
          λ p.
            Keeps-bind _ _
              (Keeps-handle _ _ (get_by_id-Keeps p.order_id)
                (require_view-Keeps "get view for cancelled event: "))
              λ view.
                Keeps-bind _ _ (Keeps-draw d.env.now) λ now. saved-Keeps (cancelled_view now view)

    pub handle_message-Keeps : (msg : Message) → Keeps Q (handle_message d msg)
    unfolding handle_message
    handle_message-Keeps msg =
        Keeps-if (msg.subject == "orders.created") _ _ (handle_order_created-Keeps msg.body) (
          Keeps-if (msg.subject == "orders.paid") _ _ (handle_order_paid-Keeps msg.body) (
            Keeps-if (msg.subject == "orders.cancelled") _ _ (handle_order_cancelled-Keeps msg.body)
              (Keeps-pure tt)))
