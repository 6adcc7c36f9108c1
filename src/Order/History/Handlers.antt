-- ===== src/Order/History/Handlers.antt =====
-- internal/order: PlaceOrder and CancelOrder as steps of the history.
use go_grpc_http.Base.{ℕ, ◌+◌, String, ◌≡◌, refl, ap, sym, ◌∙◌, List, [], ◌∷◌, arith, inl, inr}
use mathlib.Core.List.{append-nil}
use mathlib.Core.Path.{subst}
use go_grpc_http.Base.Text.{◌⧺◌}
use go_grpc_http.Base.Action.{
  Result, ok, err, Result-cases, Time, World, pure, fail, lift, draw, wrapping, handle, ◌>>=◌, ◌>>◌,
}
use go_grpc_http.Base.Keeps.{
  Keeps-pure, Keeps-lift, Keeps-draw, Keeps-handle, Keeps-wrapping, Keeps-bind, wrapping-ok,
  bind-ok,
}
use go_grpc_http.Base.Sql.{take}
use go_grpc_http.Order.Model.{OrderItem, StoredEvent}
use go_grpc_http.Order.Services.{Services, OrderState, Handler}
use go_grpc_http.Order.Aggregate.{Order, new_order, load_from_events}
use go_grpc_http.Order.Aggregate
use go_grpc_http.Order.Aggregate.Replay.{Settles, by_cancel}
use go_grpc_http.Order.EventStore.{append, load, history}
use go_grpc_http.Order.Publisher.{publish}
use go_grpc_http.Order.Command.{
  reserve_items, or_rollback, rolled_back, rollback_reservations, require_events,
}
use go_grpc_http.Order.Command
use go_grpc_http.Order.Keeps.{
  load-Keeps, publish-Keeps, reserve_items-Keeps, rolled_back-Keeps, or_rollback-Keeps,
  rollback_reservations-Keeps,
}
use go_grpc_http.Order.History.Interleaving.{placed, settled}
use go_grpc_http.Order.History.Steps.{
  AtMostStep, place_order_changes, settle_changes, load_reads, Moves, Leaves, Moves-after,
  Moves-before, Moves-then, Moves-first, step_first, append_step,
}

module _ {P R : Type 0} (d : Services P R) where
  pub published-Leaves :
      {A : Type 0} (events : List StoredEvent) (f : Result String Unit → Handler P R A)
      → ((r : Result String Unit) → Leaves d (f r))
      → Leaves d (handle (publish d events) f)
  published-Leaves events f k rows =
      Keeps-handle _ _ (publish-Keeps d _ (λ s sent h. h) events) (λ r. k r rows)

  -- The end of PlaceOrder, from the answer of the aggregate.
  abbrev pub place_rest : List OrderItem → Order → Handler P R Order
  place_rest enriched order = do
    or_rollback d enriched "persist events: " (append d order.changes)
    handle (publish d order.changes) λ _. pure order

  place_rest-Moves :
      (now : Time) (uuid user_id : String) (enriched : List OrderItem) (currency : String)
      (order : Order)
      → Aggregate.place_order d.json now uuid user_id enriched currency new_order ≡ ok order
      → Moves d (place_rest enriched order)
  unfolding or_rollback
  place_rest-Moves now uuid user_id enriched currency order h =
      let (e, one) = place_order_changes d.json now uuid user_id enriched currency order h in
      Moves-first d _ _
        (Moves-before d (append d order.changes) (rolled_back d enriched "persist events: ")
          (record {
            at = λ w. append_step d order.changes e w one λ serial rows accepted.
                placed now uuid user_id enriched currency order e serial h one accepted;
          })
          (λ r rows. rolled_back-Keeps d _ (λ s p k. k) enriched "persist events: " r))
        (λ _. published-Leaves order.changes _ (λ r rows. Keeps-pure order))

  -- A step that was not rolled back has succeeded.
  or_rollback_ok :
      {A : Type 0} (reserved : List OrderItem) (context : String) (r : Result String A)
      (w : World (OrderState P R)) {a : A}
      → (or_rollback d reserved context (lift r) w).0 ≡ ok a
      → r ≡ ok a
  unfolding or_rollback
  or_rollback_ok reserved context (ok b) w h = h
  or_rollback_ok reserved context (err e) w {a} h =
      let (unit, _, rest) =
        bind-ok (rollback_reservations d reserved) (λ _. fail (context ⧺ e)) w {b = a} h in
      absurd (ground (arith, rw rest at h))

  place_aggregate-Moves :
      (now : Time) (uuid user_id : String) (enriched : List OrderItem) (currency : String)
      → Moves d (do
        order ←
            or_rollback d enriched "place order: "
              (lift (Aggregate.place_order d.json now uuid user_id enriched currency new_order))
        place_rest enriched order)
  place_aggregate-Moves now uuid user_id enriched currency =
      let answer = Aggregate.place_order d.json now uuid user_id enriched currency new_order in
      let m = or_rollback d enriched "place order: " (lift answer) in
      Moves-after d m (place_rest enriched)
        (λ rows.
          or_rollback-Keeps d _ (λ s p k. k) enriched "place order: " (lift answer)
            (Keeps-lift answer))
        λ w order h same.
          subst (λ rows. AtMostStep d.json rows (place_rest enriched order (m w).1).1.state.events)
            same
            ((place_rest-Moves now uuid user_id enriched currency order
                (or_rollback_ok enriched "place order: " answer w h)).at
              (m w).1)

  pub place_order-Moves :
      (user_id : String) (items : List OrderItem) (currency : String)
      → Moves d (Command.place_order d user_id items currency)
  unfolding Command.place_order
  place_order-Moves user_id items currency =
      Moves-then d _ _ (λ rows. reserve_items-Keeps d _ (λ s p k. k) [] items)
        λ enriched.
          Moves-then d _ _ (λ rows. Keeps-draw d.env.now)
            λ now.
              Moves-then d _ _ (λ rows. Keeps-draw d.env.uuid)
                λ uuid. place_aggregate-Moves now uuid user_id enriched currency

  -- `Append` of what a loaded order recorded when it was paid or cancelled.
  pub settle_step :
      (order_id : String) (n : ℕ) (w : World (OrderState P R)) (o o' : Order)
      → load_from_events d.json (take n (history order_id w.state.events)) ≡ ok o
      → Settles d.json o o'
      → AtMostStep d.json w.state.events (append d o'.changes w).1.state.events
  settle_step order_id n w o o' loaded s =
      let (e, one) =
        settle_changes d.json (take n (history order_id w.state.events)) o o' loaded s in
      append_step d o'.changes e w one λ serial rows accepted.
        settled w.state.events [] order_id n o o' e serial (append-nil w.state.events) loaded s one
          accepted

  -- A handler that reads a history first, and then moves the table as long as it is the one it read.
  pub history-Moves :
      {A : Type 0} (order_id : String) (f : List StoredEvent → Handler P R A)
      → ((n : ℕ) (events : List StoredEvent) (w : World (OrderState P R))
          → events ≡ take n (history order_id w.state.events)
          → AtMostStep d.json w.state.events (f events w).1.state.events)
      → Moves d (do events ← wrapping "load events: " (load d order_id); f events)
  history-Moves order_id f rest =
      Moves-after d (wrapping "load events: " (load d order_id)) f
        (λ rows. Keeps-wrapping "load events: " _ (load-Keeps d _ order_id))
        λ w events h same.
          let w1 = (load d order_id w).1 in
          let (n, read) =
            load_reads d order_id w events (wrapping-ok "load events: " (load d order_id) w h) in
          subst (λ rows. AtMostStep d.json rows (f events w1).1.state.events) same
            (rest n events w1 (read ∙ ap (λ rows. take n (history order_id rows)) (sym same)))

  -- The releases and the publish that follow a cancellation.
  released-Leaves :
      (o : Order)
      → Leaves d (do rollback_reservations d o.items; handle (publish d o.changes) λ _. pure tt)
  released-Leaves o rows =
      Keeps-bind _ _ (rollback_reservations-Keeps d _ (λ s p k. k) o.items)
        λ _. published-Leaves o.changes _ (λ r rows'. Keeps-pure tt) rows

  -- What CancelOrder does with the history.
  abbrev cancel_rest : String → List StoredEvent → Handler P R Unit
  cancel_rest reason events = do
    require_events d events
    order ← wrapping "rebuild aggregate: " (lift (load_from_events d.json events))
    now ← draw d.env.now
    cancelled ← lift (Aggregate.cancel d.json now reason order)
    wrapping "persist events: " (append d cancelled.changes)
    rollback_reservations d cancelled.items
    handle (publish d cancelled.changes) λ _. pure tt

  cancel_rest-step :
      (order_id reason : String) (n : ℕ) (events : List StoredEvent) (w : World (OrderState P R))
      → events ≡ take n (history order_id w.state.events)
      → AtMostStep d.json w.state.events (cancel_rest reason events w).1.state.events
  cancel_rest-step order_id reason n [] w read = inl refl
  cancel_rest-step order_id reason n (row ∷ rows) w read =
      elim (Result-cases (load_from_events d.json (row ∷ rows))) [
        | inr (m, e) ↦ rw e (inl refl)
        | inl (o, e) ↦
            let now = d.env.now w.calls in
            let w1 : World (OrderState P R) = record w { calls = w.calls + 1 } in
            elim (Result-cases (Aggregate.cancel d.json now reason o)) [
              | inr (m, e') ↦ rw (e, e') (inl refl)
              | inl (o', e') ↦
                  let loaded = sym (ap (load_from_events d.json) read) ∙ e in
                  let step = settle_step order_id n w1 o o' loaded (by_cancel now reason e') in
                  rw (e, e')
                    (step_first d (wrapping "persist events: " (append d o'.changes)) _ w1 step
                      (λ _. released-Leaves o'))
            ]
      ]

  pub cancel_order-Moves :
      (order_id reason : String) → Moves d (Command.cancel_order d order_id reason)
  unfolding Command.cancel_order
  cancel_order-Moves order_id reason =
      history-Moves order_id (cancel_rest reason) (cancel_rest-step order_id reason)
