-- ===== src/Order/Keeps.antt =====
-- internal/order: which parts of the state the pieces of the handlers leave alone.
use go_grpc_http.Base.{String, List, [], ◌∷◌, ◌++◌, Bool, true, false}
use go_grpc_http.Base.Text.{◌⧺◌}
use go_grpc_http.Base.Action.{Result, ok, err}
use go_grpc_http.Base.Keeps.{
  Keeps, Keeps-pure, Keeps-fail, Keeps-draw, Keeps-wrapping, Keeps-call, Keeps-bind, Keeps-handle,
}
use go_grpc_http.Base.Sql.{cut_rows}
use go_grpc_http.Nats.{Message}
use go_grpc_http.Order.Model.{OrderItem, StoredEvent}
use go_grpc_http.Order.Services.{Services, OrderState, Handler}
use go_grpc_http.Order.EventStore.{append, load, history}
use go_grpc_http.Order.EventStore.Append.{insert_all-Keeps}
use go_grpc_http.Order.Publisher.{publish, message_of, nats_subject}
use go_grpc_http.Order.Command.{
  get_product, reserve_stock, release_stock, rollback_reservations, rolled_back, or_rollback,
  require_stock, reserve_items, enrich,
}

module _ {P R : Type 0} (d : Services P R) (Q : OrderState P R → Type 0) where
  pub load-Keeps : (order_id : String) → Keeps Q (load d order_id)
  unfolding load
  load-Keeps order_id = Keeps-bind _ _ (Keeps-draw d.env.cut) λ n.
      Keeps-wrapping "query events: " _
        (Keeps-call d.env (λ s. (ok (cut_rows n (history order_id s.events)), s)) (λ s h. h))

  pub append-Keeps :
      (stable : (s : OrderState P R) (rows : List StoredEvent)
        → Q s
        → Q (record s { events = rows }))
      (events : List StoredEvent)
      → Keeps Q (append d events)
  unfolding append
  append-Keeps stable events =
      Keeps-bind _ _
        (Keeps-wrapping "begin tx: " _ (Keeps-call d.env (λ s. (ok s.events, s)) (λ s h. h)))
        λ rows. Keeps-bind _ _ (insert_all-Keeps d Q events rows) λ rows'.
          Keeps-call d.env (λ s. (ok tt, record s { events = rows' })) (λ s h. stable s rows' h)

  pub publish-Keeps :
      (stable : (s : OrderState P R) (sent : List Message)
        → Q s
        → Q (record s { published = sent }))
      (events : List StoredEvent)
      → Keeps Q (publish d events)
  unfolding publish
  publish-Keeps stable [] = Keeps-pure tt
  publish-Keeps stable (e ∷ events) =
      Keeps-bind _ _
        (Keeps-wrapping ("publish " ⧺ nats_subject e.event_type ⧺ ": ") _ (
          Keeps-call d.env (λ s. (ok tt, record s { published = s.published ++ message_of e ∷ [] }))
            (λ s h. stable s (s.published ++ message_of e ∷ []) h)))
        (λ _. publish-Keeps stable events)

  module _ (stable : (s : OrderState P R) (p : P) → Q s → Q (record s { products = p })) where
    get_product-Keeps : (id : String) → Keeps Q (get_product d id)
    get_product-Keeps id =
        Keeps-call d.env
          (λ s. let (r, p) = d.products.get_product id s.products in (r, record s { products = p }))
          (λ s h. stable s (d.products.get_product id s.products).1 h)

    reserve_stock-Keeps : (item : OrderItem) → Keeps Q (reserve_stock d item)
    reserve_stock-Keeps item =
        Keeps-call d.env
          (λ s.
            let (r, p) = d.products.reserve_stock item.product_id item.quantity s.products in
            (r, record s { products = p }))
          (λ s h. stable s (d.products.reserve_stock item.product_id item.quantity s.products).1 h)

    release_stock-Keeps : (item : OrderItem) → Keeps Q (release_stock d item)
    release_stock-Keeps item =
        Keeps-call d.env
          (λ s.
            let (r, p) = d.products.release_stock item.product_id item.quantity s.products in
            (r, record s { products = p }))
          (λ s h. stable s (d.products.release_stock item.product_id item.quantity s.products).1 h)

    pub rollback_reservations-Keeps :
        (items : List OrderItem) → Keeps Q (rollback_reservations d items)
    unfolding rollback_reservations
    rollback_reservations-Keeps [] = Keeps-pure tt
    rollback_reservations-Keeps (item ∷ items) =
        Keeps-handle _ _ (release_stock-Keeps item) λ _. rollback_reservations-Keeps items

    pub rolled_back-Keeps :
        {A : Type 0} (reserved : List OrderItem) (context : String) (r : Result String A)
        → Keeps Q (rolled_back d reserved context r)
    rolled_back-Keeps reserved context (ok a) = Keeps-pure a
    rolled_back-Keeps reserved context (err e) =
        Keeps-bind _ _ (rollback_reservations-Keeps reserved) λ _. Keeps-fail (context ⧺ e)

    pub or_rollback-Keeps :
        {A : Type 0} (reserved : List OrderItem) (context : String) (m : Handler P R A)
        → Keeps Q m
        → Keeps Q (or_rollback d reserved context m)
    unfolding or_rollback
    or_rollback-Keeps reserved context m k = Keeps-handle _ _ k (rolled_back-Keeps reserved context)

    require_stock-Keeps : (id : String) (success : Bool) → Keeps Q (require_stock d id success)
    require_stock-Keeps id true = Keeps-pure tt
    require_stock-Keeps id false = Keeps-fail ("insufficient stock for product " ⧺ id)

    pub reserve_items-Keeps :
        (reserved items : List OrderItem) → Keeps Q (reserve_items d reserved items)
    unfolding reserve_items
    reserve_items-Keeps reserved [] = Keeps-pure reserved
    reserve_items-Keeps reserved (item ∷ items) =
        Keeps-bind _ _ (or_rollback-Keeps reserved _ _ (get_product-Keeps item.product_id))
          λ product.
            Keeps-bind _ _ (or_rollback-Keeps reserved _ _ (reserve_stock-Keeps item)) λ success.
              Keeps-bind _ _
                (or_rollback-Keeps reserved _ _ (require_stock-Keeps item.product_id success))
                λ _. reserve_items-Keeps (reserved ++ enrich item product ∷ []) items
