-- ===== src/Order/Projector.antt =====
-- internal/order/event/projector.go: the read model is built from the published events.
pub mod View
pub mod Keeps
pub mod Visible
pub mod Events
pub mod Agreement
pub mod Missing
use go_grpc_http.Base.{String, List, [], ◌∷◌, Option, none, some, if◌then◌else◌}
use go_grpc_http.Base.Text.{◌⧺◌, ◌==◌}
use go_grpc_http.Base.Action.{
  Result, ok, err, Time, Bytes, World, pure, lift, fail, draw, wrapping, handle, ◌>>=◌,
}
use go_grpc_http.Nats.{Message}
use go_grpc_http.Order.Model.{
  OrderView, OrderCreatedPayload, OrderPaidPayload, status_pending, status_paid, status_cancelled,
}
use go_grpc_http.Order.Services.{Services, OrderState, Handler}
use go_grpc_http.Order.ReadRepository.{get_by_id, save}

abbrev pub view_of_created : OrderCreatedPayload → OrderView
view_of_created p = record {
  order_id = p.order_id;
  user_id = p.user_id;
  items = p.items;
  total_cents = p.total_cents;
  currency = p.currency;
  status = status_pending;
  payment_id = "";
  created_at = p.created_at;
  updated_at = p.created_at;
}

abbrev pub paid_view : OrderPaidPayload → Time → OrderView → OrderView
paid_view p now view = record view {
  status = status_paid;
  payment_id = p.payment_id;
  updated_at = now;
}

abbrev pub cancelled_view : Time → OrderView → OrderView
cancelled_view now view = record view { status = status_cancelled; updated_at = now }

module _ {P R : Type 0} (d : Services P R) where
  -- `if err != nil || view == nil { return fmt.Errorf("…: %w", err) }`: a nil error prints as %!w(<nil>)
  abbrev pub require_view : String → Result String (Option OrderView) → Handler P R OrderView
  require_view context (err e) = fail (context ⧺ e)
  require_view context (ok none) = fail (context ⧺ "%!w(<nil>)")
  require_view context (ok (some view)) = pure view

  unfoldable pub handle_order_created : Bytes → Handler P R Unit
  unfolding save
  handle_order_created body = do
    payload ← wrapping "unmarshal: " (lift (d.json.created.unmarshal body))
    wrapping "save view: " (save d (view_of_created payload))

  unfoldable pub handle_order_paid : Bytes → Handler P R Unit
  unfolding get_by_id save
  handle_order_paid body = do
    payload ← wrapping "unmarshal: " (lift (d.json.paid.unmarshal body))
    view ← handle (get_by_id d payload.order_id) (require_view "get view for paid event: ")
    now ← draw d.env.now
    wrapping "save view: " (save d (paid_view payload now view))

  unfoldable pub handle_order_cancelled : Bytes → Handler P R Unit
  unfolding get_by_id save
  handle_order_cancelled body = do
    payload ← wrapping "unmarshal: " (lift (d.json.cancelled.unmarshal body))
    view ← handle (get_by_id d payload.order_id) (require_view "get view for cancelled event: ")
    now ← draw d.env.now
    wrapping "save view: " (save d (cancelled_view now view))

  unfoldable pub handle_message : Message → Handler P R Unit
  unfolding handle_order_created handle_order_paid handle_order_cancelled
  handle_message msg =
      if msg.subject == "orders.created"
      then handle_order_created msg.body
      else if msg.subject == "orders.paid"
      then handle_order_paid msg.body
      else if msg.subject == "orders.cancelled"
      then handle_order_cancelled msg.body
      else pure tt

  -- the callback of `Start`: an error is logged, and the message is acknowledged all the same
  unfoldable pub deliver : Message → World (OrderState P R) → World (OrderState P R)
  unfolding handle_message
  deliver msg w = (handle_message msg w).1

  unfoldable pub deliver_all : List Message → World (OrderState P R) → World (OrderState P R)
  unfolding deliver
  deliver_all [] w = w
  deliver_all (msg ∷ msgs) w = deliver_all msgs (deliver msg w)
