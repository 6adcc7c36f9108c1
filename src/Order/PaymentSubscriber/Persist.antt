-- ===== src/Order/PaymentSubscriber/Persist.antt =====
-- internal/order/event/payment_subscriber.go and store.go: what is persisted while calls go through.
use go_grpc_http.Base.{ℕ, ◌+◌, String, ◌≡◌, refl, ◌∙◌, List, [], ◌∷◌, ◌++◌, true, false, arith}
use go_grpc_http.Base.Action.{ok, Bytes, World, call}
use go_grpc_http.Order.Model.{StoredEvent, status_pending}
use go_grpc_http.Order.Services.{Json, IsLawful, Services, OrderState}
use go_grpc_http.Order.Aggregate.{Order, load_from_events}
use go_grpc_http.Order.EventStore.{
  has_version, fits_columns, insert_event, insert_all, append, history,
}
use go_grpc_http.Order.EventStore.Rows.{rows_of, has_version-rows_of}
use go_grpc_http.Order.Publisher.{publish, message_of}
use go_grpc_http.Order.PaymentSubscriber.{persist}
use go_grpc_http.Order.Projector.View.{IsUp}
use go_grpc_http.Order.History.{IsOrderly, IsCreation, order_of_legal, open_of_legal}

-- The table after an insert that nothing refuses.
abbrev pub with_row : ℕ → Bytes → StoredEvent → List StoredEvent → List StoredEvent
with_row serial payload e rows = rows ++ record e { id = serial; payload = payload } ∷ []

insert_accepted :
    (json : Json) (serial : ℕ) (e : StoredEvent) (rows : List StoredEvent) {payload : Bytes}
    → fits_columns e ≡ true
    → has_version e.aggregate_id e.version rows ≡ false
    → json.jsonb e.payload ≡ ok payload
    → insert_event json serial e rows ≡ ok (with_row serial payload e rows)
unfolding insert_event
insert_accepted json serial e rows fits free kept = ground (arith, fits, free, kept)

-- An event is stored and published.
pub persist_stored :
    {P R : Type 0} (d : Services P R) (o : Order) (e : StoredEvent) (w : World (OrderState P R))
    {payload : Bytes}
    → IsUp d.env
    → o.changes ≡ e ∷ []
    → fits_columns e ≡ true
    → has_version e.aggregate_id e.version w.state.events ≡ false
    → d.json.jsonb e.payload ≡ ok payload
    → (persist d (ok o) w).1.state ≡ record w.state {
      events = with_row (d.env.serial (w.calls + 1)) payload e w.state.events;
      published = w.state.published ++ message_of e ∷ [];
    }
unfolding persist append insert_all publish call
persist_stored d o e w up changed fits free kept =
    let accepted =
      insert_accepted d.json (d.env.serial (w.calls + 1)) e w.state.events fits free kept in
    rw
      (
        changed,
        up w.calls,
        up (w.calls + 1 + 1),
        accepted,
        up (w.calls + 1 + 1 + 1),
        up (w.calls + 1 + 1 + 1 + 1),
      )
      refl

-- An append of one event that nothing refuses.
pub append_stored :
    {P R : Type 0} (d : Services P R) (e : StoredEvent) (w : World (OrderState P R))
    {payload : Bytes}
    → IsUp d.env
    → fits_columns e ≡ true
    → has_version e.aggregate_id e.version w.state.events ≡ false
    → d.json.jsonb e.payload ≡ ok payload
    → append d (e ∷ []) w ≡ (
      ok tt,
      record {
        calls = w.calls + 1 + 1 + 1 + 1;
        state = record w.state {
          events = with_row (d.env.serial (w.calls + 1)) payload e w.state.events;
        };
      },
    )
unfolding append insert_all call
append_stored d e w up fits free kept =
    let accepted =
      insert_accepted d.json (d.env.serial (w.calls + 1)) e w.state.events fits free kept in
    rw (up w.calls, up (w.calls + 1 + 1), accepted, up (w.calls + 1 + 1 + 1)) refl

module _ (json : Json) (law : IsLawful json) (id : String) (rows : List StoredEvent)
    (o : Order) where
  -- What a handler reads of an open order in an orderly table.
  pub record Open : Type 0 where
    pub creation : StoredEvent
    pub read : history id rows ≡ creation ∷ []
    pub alone : rows_of id rows ≡ creation ∷ []
    pub legal : IsCreation json id creation
    pub named : o.id ≡ id
    pub first : o.version ≡ 1
    pub free : has_version id 2 rows ≡ false
    pub loaded : load_from_events json (creation ∷ []) ≡ ok o

  pub Open-of_pending :
      IsOrderly json rows
      → load_from_events json (history id rows) ≡ ok o
      → o.status ≡ status_pending
      → Open
  unfolding history has_version
  Open-of_pending orderly loaded pending =
      let legal = orderly id in
      let loaded' = rw (order_of_legal json id (rows_of id rows) legal) at loaded in
      let (c, alone, created, named, first) =
        open_of_legal json id (rows_of id rows) o legal loaded' pending in
      record {
        creation = c;
        read = order_of_legal json id (rows_of id rows) legal ∙ alone;
        alone = alone;
        legal = created;
        named = named;
        first = first;
        free = has_version-rows_of id 2 rows ∙ rw alone (ground (arith, created.is_first));
        loaded = rw alone at loaded';
      }
