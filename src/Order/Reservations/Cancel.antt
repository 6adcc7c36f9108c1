-- ===== src/Order/Reservations/Cancel.antt =====
-- internal/order/command/handler.go: what CancelOrder does to the history and to the stocks.
use go_grpc_http.Base.{ℕ, ◌+◌, String, ◌≡◌, refl, List, [], ◌∷◌, Option, true, false, none}
use go_grpc_http.Base.Text.{fits}
use go_grpc_http.Base.Int.{ℤ}
use go_grpc_http.Base.Action.{Result, ok, Bytes, World, done, call, pure, handle, wrapping, ◌>>◌}
use go_grpc_http.Order.Model.{StoredEvent, status_pending, status_cancelled, event_order_cancelled}
use go_grpc_http.Order.Services.{IsLawful, Services, OrderState, Handler}
use go_grpc_http.Order.Aggregate.{Order, order_event, load_from_events}
use go_grpc_http.Order.Aggregate.Replay.{by_cancel, committed, loaded_changes}
use go_grpc_http.Order.EventStore.{has_version, fits_columns, append, load, history}
use go_grpc_http.Order.Publisher.{publish}
use go_grpc_http.Order.Command.{rollback_reservations, cancel_order}
use go_grpc_http.Order.Keeps.{publish-Keeps, rollback_reservations-Keeps}
use go_grpc_http.Order.History.{IsOrderly}
use go_grpc_http.Order.PaymentSubscriber.Persist.{Open-of_pending, append_stored, with_row}
use go_grpc_http.Order.PaymentSubscriber.Settlement.{load-with_row}
use go_grpc_http.Order.PaymentSubscriber.Settles.{after, cancel_pending, fits_settlement}
use go_grpc_http.Order.Reservations.{IsLedger, ArePositive, Took}
use go_grpc_http.Order.Reservations.Rollback.{rollback_reservations-restores}
use go_grpc_http.Order.Reservations.Ends.{rollback_ok}

module _ {P R : Type 0} (d : Services P R) (json_law : IsLawful d.json)
    (stock : String → P → Option ℤ) (IsValid : P → Type 0) (law : IsLedger d.products stock IsValid)
    (up : (n : ℕ) → d.env.outcome n ≡ done) (whole : (n : ℕ) → d.env.cut n ≡ none) where
  -- the end of `CancelOrder`, once the aggregate has accepted
  abbrev finish_cancel : Order → Handler P R Unit
  finish_cancel cancelled = do
    wrapping "persist events: " (append d cancelled.changes)
    rollback_reservations d cancelled.items
    handle (publish d cancelled.changes) λ _. pure tt

  -- What it leaves: the rows, and a stock.
  record Cancelled (rows : List StoredEvent) (before : P) (j : String)
      (x : Result String Unit × World (OrderState P R)) : Type 0 where
    answer : x.0 ≡ ok tt
    stored : x.1.state.events ≡ rows
    restored : stock j x.1.state.products ≡ stock j before

  finish_cancel-Cancelled :
      (o : Order) (e : StoredEvent) (before : P) (w : World (OrderState P R)) (j : String)
      {payload : Bytes}
      → o.changes ≡ e ∷ []
      → fits_columns e ≡ true
      → has_version e.aggregate_id e.version w.state.events ≡ false
      → d.json.jsonb e.payload ≡ ok payload
      → ArePositive o.items
      → IsValid before
      → IsValid w.state.products
      → Took stock o.items before w.state.products
      → Cancelled
          (with_row (d.env.serial (w.calls + 1)) payload e w.state.events)
          before
          j
          (finish_cancel o w)
  finish_cancel-Cancelled o e before w j {payload} changed fits free kept positive valid valid'
        took =
      let rows = with_row (d.env.serial (w.calls + 1)) payload e w.state.events in
      let w4 : World (OrderState P R) = record {
        calls = w.calls + 1 + 1 + 1 + 1;
        state = record w.state { events = rows };
      } in
      let w5 = (rollback_reservations d o.items w4).1 in
      let given : stock j w5.state.products ≡ stock j before =
        rollback_reservations-restores d stock IsValid law up o.items before w4 j positive valid
          valid' took in
      let same : w5.state.events ≡ rows =
        (rollback_reservations-Keeps d (λ s. s.events ≡ rows) (λ s p h. h) o.items).at w4 refl in
      rw
        (
          changed,
          append_stored d e w up fits free kept,
          rollback_ok d stock IsValid law up o.items w4,
        )
        (record {
          answer = refl;
          stored = (publish-Keeps d (λ s. s.events ≡ rows) (λ s sent h. h) (e ∷ [])).at w5 same;
          restored =
              (publish-Keeps d (λ s. stock j s.products ≡ stock j before) (λ s sent h. h)
                  (e ∷ [])).at
                w5 given;
        })

  -- CancelOrder undoes PlaceOrder for the stocks. For an order that is pending in an orderly
  -- table, whose id fits its column and whose items, of positive quantities, were taken from the
  -- stocks of a valid earlier state, with lawful codecs and a product service that keeps its
  -- ledger and is in a valid state, while calls go through, queries return whole histories, and
  -- the event's payload can be marshalled and stored: CancelOrder succeeds, leaves a history that
  -- replays to an order with the status cancelled, and every stock as it was in the earlier state.
  pub cancel_order-restores :
      (order_id reason : String) (o : Order) (before : P) (w : World (OrderState P R)) (j : String)
      {b b' : Bytes}
      → IsOrderly d.json w.state.events
      → load_from_events d.json (history order_id w.state.events) ≡ ok o
      → o.status ≡ status_pending
      → fits 36 o.id ≡ true
      → d.json.cancelled.marshal
          (record { order_id = o.id; reason = reason; cancelled_at = d.env.now (w.calls + 1 + 1) })
        ≡ ok b
      → d.json.jsonb b ≡ ok b'
      → ArePositive o.items
      → IsValid before
      → IsValid w.state.products
      → Took stock o.items before w.state.products
      → (o' : Order) × ((cancel_order d order_id reason w).0 ≡ ok tt)
        × (load_from_events d.json
              (history order_id (cancel_order d order_id reason w).1.state.events)
            ≡ ok o')
        × (o'.status ≡ status_cancelled)
        × (stock j (cancel_order d order_id reason w).1.state.products ≡ stock j before)
  unfolding cancel_order load call
  cancel_order-restores order_id reason o before w j {b} {b'} orderly loaded pending narrow written
        kept positive valid valid' took =
      let now = d.env.now (w.calls + 1 + 1) in
      let opened =
        Open-of_pending d.json json_law order_id w.state.events o orderly loaded pending in
      let fresh = loaded_changes d.json (opened.creation ∷ []) o opened.loaded in
      let e = order_event o event_order_cancelled b now in
      let o' = after o status_cancelled e in
      let gone = cancel_pending d.json now reason o pending fresh written in
      let w3 : World (OrderState P R) = record w { calls = w.calls + 1 + 1 + 1 } in
      let left =
        finish_cancel-Cancelled o' e before w3 j refl
          (fits_settlement d json_law up whole o event_order_cancelled b now narrow refl
            opened.first)
          (rw (opened.named, opened.first) opened.free) kept positive valid valid' took in
      let ran : cancel_order d order_id reason w ≡ finish_cancel o' w3 =
        rw (up (w.calls + 1), whole w.calls, opened.read, opened.loaded, gone) refl in
      rw ran (
        committed o',
        left.answer,
        rw left.stored (
            load-with_row d.json json_law order_id w.state.events o o' e
              (d.env.serial (w3.calls + 1)) opened (by_cancel now reason gone) refl kept),
        refl,
        left.restored,
      )
