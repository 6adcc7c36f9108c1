-- ===== src/Order/Projector/Agreement.antt =====
-- internal/order/aggregate/order.go and internal/order/event/projector.go: the read model shows what
-- the write model replays.
use go_grpc_http.Base.{◌+◌, ◌≡◌, refl, String, List, [], ◌∷◌, Option, some, sym, ap}
use go_grpc_http.Base.Action.{Result, ok, World, Time, Bytes}
use go_grpc_http.Order.Model.{OrderItem, OrderView, StoredEvent}
use go_grpc_http.Order.Services.{Services, OrderState, Json, IsStore, IsLawful}
use go_grpc_http.Order.Aggregate.{Order, new_order, load_from_events, place_order}
use go_grpc_http.Order.Aggregate.Replay.{committed, Stores, Settles, by_cancel, by_payment}
use go_grpc_http.Order.Aggregate.Laws.{load-place_order, load-settle, created_payload}
use go_grpc_http.Order.Publisher.{message_of, nats_subject}
use go_grpc_http.Order.ReadRepository.{get_by_id}
use go_grpc_http.Order.Projector.{view_of_created, paid_view, cancelled_view, deliver, deliver_all}
use go_grpc_http.Order.Projector.View.{IsUp}
use go_grpc_http.Order.Projector.Visible.{
  IsDay, IsVisible, get_by_id-IsVisible, deliver-created-IsVisible, deliver-paid-IsVisible,
  deliver-cancelled-IsVisible,
}
use go_grpc_http.Order.Projector.Events.{placed_event, paid_event, cancelled_event}

-- A view and an aggregate tell the same of an order.
pub record Shows (v : OrderView) (o : Order) : Type 0 where
  pub order_id : v.order_id ≡ o.id
  pub user_id : v.user_id ≡ o.user_id
  pub items : v.items ≡ o.items
  pub total_cents : v.total_cents ≡ o.total_cents
  pub currency : v.currency ≡ o.currency
  pub status : v.status ≡ o.status

-- The view after a settlement that the projector handles at `now`.
abbrev pub settled_view :
    {json : Json} {o o' : Order} → Settles json o o' → Time → OrderView → OrderView
settled_view {o = o} (by_cancel t reason h) now v = cancelled_view now v
settled_view {o = o} (by_payment t id h) now v =
    paid_view (record { order_id = o.id; payment_id = id; paid_at = t }) now v

settled_view-order_id :
    {json : Json} {o o' : Order} (settled : Settles json o o') (now : Time) (v : OrderView)
    → (settled_view settled now v).order_id ≡ v.order_id
settled_view-order_id (by_cancel t reason h) now v = refl
settled_view-order_id (by_payment t id h) now v = refl

module _ {P R : Type 0} (d : Services P R) (store : IsStore d.redis) (law : IsLawful d.json)
    (up : IsUp d.env) (day : IsDay d.env) where
  -- One step of the agreement: the event of a settlement.
  deliver-settled-Shows :
      (o o' : Order) (e : StoredEvent) (v : OrderView) (w : World (OrderState P R)) {b : Bytes}
      → o.changes ≡ []
      → (settled : Settles d.json o o') → o'.changes ≡ e ∷ []
      → Shows v o
      → IsVisible d v w
      → d.json.view.marshal (settled_view settled (d.env.now (w.calls + 1 + 1)) v) ≡ ok b
      → IsVisible d
          (settled_view settled (d.env.now (w.calls + 1 + 1)) v)
          (deliver d (message_of e) w)
        × Shows (settled_view settled (d.env.now (w.calls + 1 + 1)) v) o'
  unfolding nats_subject
  deliver-settled-Shows o o' e v w fresh (by_cancel t reason h) changed shows visible written =
      let (says, is) = cancelled_event d.json law t reason o o' e fresh h changed in
      (
        rw says.is_type (
            deliver-cancelled-IsVisible d store law up day v _ e.payload w visible says.decoded
              (sym shows.order_id) written),
        rw is (record {
          order_id = shows.order_id;
          user_id = shows.user_id;
          items = shows.items;
          total_cents = shows.total_cents;
          currency = shows.currency;
          status = refl;
        }),
      )
  deliver-settled-Shows o o' e v w fresh (by_payment t id h) changed shows visible written =
      let (says, is) = paid_event d.json law t id o o' e fresh h changed in
      (
        rw says.is_type (
            deliver-paid-IsVisible d store law up day v _ e.payload w visible says.decoded
              (sym shows.order_id) written),
        rw is (record {
          order_id = shows.order_id;
          user_id = shows.user_id;
          items = shows.items;
          total_cents = shows.total_cents;
          currency = shows.currency;
          status = refl;
        }),
      )

  deliver-placed-Shows :
      (now : Time) (uuid user_id : String) (items : List OrderItem) (currency : String) (o : Order)
      (e row : StoredEvent) (w : World (OrderState P R)) {b : Bytes}
      → place_order d.json now uuid user_id items currency new_order ≡ ok o
      → o.changes ≡ e ∷ []
      → Stores d.json e row
      → d.json.view.marshal (view_of_created (created_payload now uuid user_id items currency))
        ≡ ok b
      → IsVisible d
          (view_of_created (created_payload now uuid user_id items currency))
          (deliver d (message_of e) w)
        × Shows (view_of_created (created_payload now uuid user_id items currency)) (committed o)
  unfolding nats_subject
  deliver-placed-Shows now uuid user_id items currency o e row w placed changed s written =
      let says = placed_event d.json law now uuid user_id items currency o e placed changed in
      let is =
        (load-place_order d.json law now uuid user_id items currency o e row placed changed s).2 in
      (
        rw says.is_type
            (deliver-created-IsVisible d store law up day _ e.payload w says.decoded written),
        rw is (record {
          order_id = refl;
          user_id = refl;
          items = refl;
          total_cents = refl;
          currency = refl;
          status = refl;
        }),
      )

  -- The read model agrees with the write model. For an order that was placed and then cancelled or
  -- paid, with lawful codecs and Redis, while calls go through and within one day, and if its two
  -- views can be marshalled: once the projector was given the two published events in their order,
  -- GetByID answers a view with the id, user, items, total, currency and status of the aggregate
  -- that the two stored rows replay to.
  pub projection_agrees :
      (now : Time) (uuid user_id : String) (items : List OrderItem) (currency : String)
      (o o' : Order) (e e' row row' : StoredEvent) (w : World (OrderState P R)) {b b' : Bytes}
      → place_order d.json now uuid user_id items currency new_order ≡ ok o
      → o.changes ≡ e ∷ []
      → Stores d.json e row
      → (settled : Settles d.json (committed o) o') → o'.changes ≡ e' ∷ []
      → Stores d.json e' row'
      → d.json.view.marshal (view_of_created (created_payload now uuid user_id items currency))
        ≡ ok b
      → d.json.view.marshal (
          settled_view settled
            (d.env.now ((deliver d (message_of e) w).calls + 1 + 1))
            (view_of_created (created_payload now uuid user_id items currency)))
        ≡ ok b'
      → (v : OrderView) × ((get_by_id d uuid
            (deliver_all d (message_of e ∷ message_of e' ∷ []) w)).0
          ≡ ok (some v))
        × (load_from_events d.json (row ∷ row' ∷ []) ≡ ok (committed o'))
        × Shows v (committed o')
  unfolding deliver_all
  projection_agrees now uuid user_id items currency o o' e e' row row' w placed changed s settled
        changed' s' written written' =
      let v = view_of_created (created_payload now uuid user_id items currency) in
      let w1 = deliver d (message_of e) w in
      let at = d.env.now (w1.calls + 1 + 1) in
      let (visible, shows) =
        deliver-placed-Shows now uuid user_id items currency o e row w placed changed s written in
      let (visible', shows') =
        deliver-settled-Shows (committed o) o' e' v w1 refl settled changed' shows visible
          written' in
      let loaded =
        (load-place_order d.json law now uuid user_id items currency o e row placed changed s).1 in
      let got = rw (settled_view-order_id settled at v) at (
        get_by_id-IsVisible d store law up day (settled_view settled at v)
          (deliver d (message_of e') w1) visible') in
      (
        settled_view settled at v,
        ap (λ (r : Result String (Option OrderView) × World (OrderState P R)). r.0) got,
        load-settle d.json law (row ∷ []) (committed o) o' e' row' loaded settled changed' s',
        record {
          order_id = shows'.order_id;
          user_id = shows'.user_id;
          items = shows'.items;
          total_cents = shows'.total_cents;
          currency = shows'.currency;
          status = shows'.status;
        },
      )
