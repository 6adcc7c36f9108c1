-- ===== src/Order/History/Service.antt =====
-- The order service as a whole: any sequence of requests and of messages, whose calls end in any way.
use go_grpc_http.Base.{String, ◌≡◌, refl, sym, List, [], ◌∷◌, ◌||◌, inl, inr, Bool-cases, is_empty}
use mathlib.Core.Path.{subst}
use go_grpc_http.Base.Text.{◌==◌}
use go_grpc_http.Base.Action.{Result-cases, World}
use go_grpc_http.Nats.{Message}
use go_grpc_http.Order.Services.{IsLawful, Services, OrderState}
use go_grpc_http.Order.Server.{
  PlaceOrderRequest, CancelOrderRequest, checked_items, or_usd, place_order, cancel_order,
  get_order, list_orders_by_user,
}
use go_grpc_http.Order.Command
use go_grpc_http.Order.PaymentSubscriber
use go_grpc_http.Order.Projector
use go_grpc_http.Order.Projector.Keeps.{
  handle_message-Keeps, get_order-Keeps, list_orders_by_user-Keeps,
}
use go_grpc_http.Order.History.{IsOrderly}
use go_grpc_http.Order.History.Interleaving.{Reach, next, empty, Reach-IsOrderly}
use go_grpc_http.Order.History.Steps.{AtMostStep}
use go_grpc_http.Order.History.Handlers.{place_order-Moves, cancel_order-Moves}
use go_grpc_http.Order.History.Payments.{handle_payment_event-Moves}

-- What the order service answers: the methods of its two gRPC servers, once the interceptors have
-- let the call through, and its two subscriptions.
pub data Request : Type 0 where
  placing : PlaceOrderRequest → Request
  cancelling : CancelOrderRequest → Request
  getting listing : String → Request
  paying projecting : Message → Request

module _ {P R : Type 0} (d : Services P R) where
  unfoldable pub serve : Request → World (OrderState P R) → World (OrderState P R)
  unfolding place_order cancel_order get_order list_orders_by_user PaymentSubscriber.deliver
      Projector.deliver
  serve (placing req) w = (place_order d req w).1
  serve (cancelling req) w = (cancel_order d req w).1
  serve (getting order_id) w = (get_order d order_id w).1
  serve (listing user_id) w = (list_orders_by_user d user_id w).1
  serve (paying msg) w = PaymentSubscriber.deliver d msg w
  serve (projecting msg) w = Projector.deliver d msg w

  unfoldable pub serve_all : List Request → World (OrderState P R) → World (OrderState P R)
  unfolding serve
  serve_all [] w = w
  serve_all (req ∷ reqs) w = serve_all reqs (serve req w)

  place_order-step :
      (req : PlaceOrderRequest) (w : World (OrderState P R))
      → AtMostStep d.json w.state.events (place_order d req w).1.state.events
  unfolding place_order
  place_order-step req w = elim (Bool-cases (req.user_id == "" || is_empty req.items)) [
    | inl bad ↦ rw bad (inl refl)
    | inr good ↦ elim (Result-cases (checked_items req.items)) [
      | inr (e, h) ↦ rw (good, h) (inl refl)
      | inl (items, h) ↦
          let m = Command.place_order d req.user_id items (or_usd req.currency) in
          let step = (place_order-Moves d req.user_id items (or_usd req.currency)).at w in
          elim (Result-cases (m w).0) [
            | inr (e, h') ↦ rw (good, h, h') step
            | inl (o, h') ↦ rw (good, h, h') step
          ]
    ]
  ]

  cancel_order-step :
      (req : CancelOrderRequest) (w : World (OrderState P R))
      → AtMostStep d.json w.state.events (cancel_order d req w).1.state.events
  unfolding cancel_order
  cancel_order-step req w = elim (Bool-cases (req.order_id == "")) [
    | inl bad ↦ rw bad (inl refl)
    | inr good ↦ rw good ((cancel_order-Moves d req.order_id req.reason).at w)
  ]

  get_order-events :
      (order_id : String) (w : World (OrderState P R))
      → (get_order d order_id w).1.state.events ≡ w.state.events
  unfolding get_order
  get_order-events order_id w = elim (Bool-cases (order_id == "")) [
    | inl bad ↦ rw bad refl
    | inr good ↦ rw good ((get_order-Keeps d (λ s. s.events ≡ w.state.events) order_id).at w refl)
  ]

  list_orders_by_user-events :
      (user_id : String) (w : World (OrderState P R))
      → (list_orders_by_user d user_id w).1.state.events ≡ w.state.events
  unfolding list_orders_by_user
  list_orders_by_user-events user_id w = elim (Bool-cases (user_id == "")) [
    | inl bad ↦ rw bad refl
    | inr good ↦
        rw good ((list_orders_by_user-Keeps d (λ s. s.events ≡ w.state.events) user_id).at w refl)
  ]

  serve-AtMostStep :
      (req : Request) (w : World (OrderState P R))
      → AtMostStep d.json w.state.events (serve req w).state.events
  unfolding serve PaymentSubscriber.deliver Projector.deliver
  serve-AtMostStep (placing req) w = place_order-step req w
  serve-AtMostStep (cancelling req) w = cancel_order-step req w
  serve-AtMostStep (getting order_id) w = inl (get_order-events order_id w)
  serve-AtMostStep (listing user_id) w = inl (list_orders_by_user-events user_id w)
  serve-AtMostStep (paying msg) w = (handle_payment_event-Moves d msg).at w
  serve-AtMostStep (projecting msg) w =
      inl ((handle_message-Keeps d (λ s. s.events ≡ w.state.events) (λ s r h. h) msg).at w refl)

  -- The order service implements the steps of the history: from a table that can be reached, any
  -- sequence of requests and messages, whose calls of the database, NATS, Redis and the product
  -- service end in any way, leads to a table that can be reached.
  pub serve_all-Reach :
      (reqs : List Request) (w : World (OrderState P R))
      → Reach d.json w.state.events
      → Reach d.json (serve_all reqs w).state.events
  unfolding serve_all
  serve_all-Reach [] w h = h
  serve_all-Reach (req ∷ reqs) w h = elim (serve-AtMostStep req w) [
    | inl same ↦ serve_all-Reach reqs (serve req w) (subst (Reach d.json) (sym same) h)
    | inr step ↦ serve_all-Reach reqs (serve req w) (next h step)
  ]

  -- For lawful JSON codecs: a service that started with an empty event_store table has no order
  -- that is both paid and cancelled, or either of them twice, after any sequence of requests and
  -- messages whose calls end in any way.
  pub serve_all-IsOrderly :
      (law : IsLawful d.json) (reqs : List Request) (w : World (OrderState P R))
      → w.state.events ≡ []
      → IsOrderly d.json (serve_all reqs w).state.events
  serve_all-IsOrderly law reqs w fresh =
      Reach-IsOrderly d.json law (serve_all reqs w).state.events
        (serve_all-Reach reqs w (subst (Reach d.json) (sym fresh) empty))
