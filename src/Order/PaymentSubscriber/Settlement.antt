-- ===== src/Order/PaymentSubscriber/Settlement.antt =====
-- internal/order/event/payment_subscriber.go: a payment event settles the order that it names.
use go_grpc_http.Base.{ℕ, String, ◌≡◌, refl, sym, ap, ◌∙◌, List, [], ◌∷◌, ◌++◌}
use mathlib.Core.Path.{subst}
use go_grpc_http.Base.Action.{ok, Bytes}
use go_grpc_http.Order.Model.{StoredEvent}
use go_grpc_http.Order.Services.{Json, IsLawful}
use go_grpc_http.Order.Aggregate.{Order, load_from_events}
use go_grpc_http.Order.Aggregate.Replay.{
  committed, Stores, Settles, Recorded, Settles-Recorded, loaded_changes,
}
use go_grpc_http.Order.Aggregate.Laws.{load-settle, recorded_same}
use go_grpc_http.Order.EventStore.{history, order_by_version}
use go_grpc_http.Order.EventStore.Rows.{rows_of, Inserted}
use go_grpc_http.Order.History.{IsLegal, IsSettlement, order_of_legal}
use go_grpc_http.Order.History.Interleaving.{own_rows}
use go_grpc_http.Order.PaymentSubscriber.Persist.{Open, with_row}

module _ (json : Json) (law : IsLawful json) (id : String) (rows : List StoredEvent)
    (o : Order) where
  -- The settlement is the second row of its order, and replays to what the method left.
  pub load-with_row :
      (o' : Order) (e : StoredEvent) (serial : ℕ) {payload : Bytes}
      → Open json law id rows o
      → Settles json o o'
      → o'.changes ≡ e ∷ []
      → json.jsonb e.payload ≡ ok payload
      → load_from_events json (history id (with_row serial payload e rows)) ≡ ok (committed o')
  unfolding history
  load-with_row o' e serial {payload} opened settles changed kept =
      let row : StoredEvent = record e { id = serial; payload = payload } in
      let (e', r') = Settles-Recorded json o o' settles in
      let fresh = loaded_changes json (opened.creation ∷ []) o opened.loaded in
      let r =
        subst (Recorded json o o') (sym (recorded_same json o o' e e' fresh r'.applied changed))
          r' in
      let stores : Stores json e row = record {
        same_aggregate = refl;
        same_type = refl;
        same_version = refl;
        payload = kept;
      } in
      let named : e.aggregate_id ≡ id = r.of_order ∙ opened.named in
      let second : e.version ≡ 2 = r.next_version ∙ rw opened.first refl in
      let inserted : Inserted json e rows (with_row serial payload e rows) = record {
        row = row;
        stores = stores;
        behind = refl;
        free = rw (named, second) opened.free;
      } in
      let settlement : IsSettlement id row = record {
        of_order = named;
        is_second = second;
        is_settled = r.is_settlement;
      } in
      let rows' = with_row serial payload e rows in
      let own : rows_of id rows' ≡ opened.creation ∷ row ∷ [] =
        subst (λ j. rows_of j rows' ≡ rows_of j rows ++ row ∷ []) named
          (own_rows json e rows rows' inserted)
        ∙ ap (λ l. l ++ row ∷ []) opened.alone in
      let legal : IsLegal json id (opened.creation ∷ row ∷ []) = (opened.legal, settlement) in
      ap (λ l. load_from_events json (order_by_version l)) own
      ∙ ap (load_from_events json) (order_of_legal json id (opened.creation ∷ row ∷ []) legal)
      ∙ load-settle json law (opened.creation ∷ []) o o' e row opened.loaded settles changed stores
