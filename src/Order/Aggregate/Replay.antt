-- ===== src/Order/Aggregate/Replay.antt =====
-- The aggregate and its events: replaying what a method recorded gives the aggregate that it left.
use go_grpc_http.Base.{
  ◌+◌, String, ◌≡◌, refl, List, [], ◌∷◌, ◌++◌, true, false, arith, eq_iff, ◌⊎◌, inl, inr, ◌∙◌,
  Bool-cases,
}
use mathlib.Core.Bool.{false≢true}
use go_grpc_http.Base.Text.{◌==◌}
use go_grpc_http.Base.Action.{ok, err, Result-cases, Time, Bytes}
use go_grpc_http.Order.Model.{
  StoredEvent, OrderCreatedPayload, status_pending, event_order_created, event_order_paid,
  event_order_cancelled,
}
use go_grpc_http.Order.Services.{Json, IsLawful}
use go_grpc_http.Order.Aggregate.{
  Order, new_order, order_event, apply, replay, load_from_events, cancel, mark_paid,
}

-- The aggregate once its changes are persisted.
abbrev pub committed : Order → Order
committed o = record o { changes = [] }

-- A row holds an event, with an id of its own and the JSONB text of the payload.
pub record Stores (json : Json) (e row : StoredEvent) : Type 0 where
  pub same_aggregate : row.aggregate_id ≡ e.aggregate_id
  pub same_type : row.event_type ≡ e.event_type
  pub same_version : row.version ≡ e.version
  pub payload : json.jsonb e.payload ≡ ok row.payload

pub replay-append :
    (json : Json) (o : Order) (xs ys : List StoredEvent) {o' : Order}
    → replay json o xs ≡ ok o'
    → replay json o (xs ++ ys) ≡ replay json o' ys
unfolding replay
replay-append json o [] ys h = cc
replay-append json o (x ∷ xs) ys h = elim (Result-cases (apply json x false o)) [
  | inl (p, e) ↦
      rw e (replay-append json (record p { version = x.version }) xs ys (ground (arith, e)))
  | inr (m, e) ↦ ground (arith, e)
]

-- The payload of an orders.created event was marshalled.
abbrev pub IsWritten : Json → StoredEvent → Type 0
IsWritten json e =
    (e.event_type == event_order_created) ≡ true
    → (p : OrderCreatedPayload) × (json.created.marshal p ≡ ok e.payload)

module _ (json : Json) (law : IsLawful json) where
  -- A row acts on an aggregate as the event does.
  apply-row :
      (e row : StoredEvent) (o : Order)
      → IsWritten json e
      → Stores json e row
      → apply json row false o ≡ apply json e false o
  unfolding apply
  apply-row e row o written s = elim (Bool-cases (e.event_type == event_order_created)) [
    | inl hit ↦
        let (p, m) = written hit in
        ground (arith, hit, law.created_law.round_trip p m, law.jsonb_keeps p m s.payload)
    | inr other ↦ ground (arith, other)
  ]

  -- To replay an event is to apply it as new, without recording it.
  apply_replayed :
      (e : StoredEvent) (o o' : Order)
      → o.changes ≡ []
      → apply json e true o ≡ ok o'
      → (apply json e false o ≡ ok (committed o'))
        × (o'.changes ≡ e ∷ [])
        × (o'.version ≡ e.version)
  unfolding apply
  apply_replayed e o o' fresh h = ground arith

-- A method that ends a pending order: a cancellation or a payment.
pub data Settles (json : Json) (o o' : Order) : Type 0 where
  by_cancel : (now : Time) (reason : String) → cancel json now reason o ≡ ok o' → Settles json o o'
  by_payment : (now : Time) (id : String) → mark_paid json now id o ≡ ok o' → Settles json o o'

-- What such a method has done: one event, of the next version, that was applied as new.
pub record Recorded (json : Json) (o o' : Order) (e : StoredEvent) : Type 0 where
  pub was_pending : o.status ≡ status_pending
  pub applied : apply json e true o ≡ ok o'
  pub of_order : e.aggregate_id ≡ o.id
  pub next_version : e.version ≡ o.version + 1
  pub is_settlement : (e.event_type ≡ event_order_paid) ⊎ (e.event_type ≡ event_order_cancelled)

apply_changes :
    (json : Json) (e : StoredEvent) (o : Order) {o' : Order}
    → apply json e false o ≡ ok o'
    → o'.changes ≡ o.changes
unfolding apply
apply_changes json e o h = ground arith

module _ (json : Json) (o o' : Order) (now : Time) where
  Recorded-cancel :
      (reason : String)
      → cancel json now reason o ≡ ok o'
      → ((payload : Bytes) × (json.cancelled.marshal
              (record { order_id = o.id; reason = reason; cancelled_at = now })
            ≡ ok payload))
        ⊎ ((m : String) × (json.cancelled.marshal
                (record { order_id = o.id; reason = reason; cancelled_at = now })
              ≡ err m))
      → (e : StoredEvent) × Recorded json o o' e
  unfolding cancel
  Recorded-cancel reason h (inl (payload, m)) = (
    order_event o event_order_cancelled payload now,
    record {
      was_pending = ground (arith, eq_iff o.status status_pending);
      applied = ground (arith);
      of_order = refl;
      next_version = refl;
      is_settlement = inr refl;
    },
  )
  Recorded-cancel reason h (inr (e, m)) = absurd (ground arith)

  Recorded-payment :
      (id : String)
      → mark_paid json now id o ≡ ok o'
      → ((payload : Bytes) × (json.paid.marshal
              (record { order_id = o.id; payment_id = id; paid_at = now })
            ≡ ok payload))
        ⊎ ((m : String) × (json.paid.marshal
                (record { order_id = o.id; payment_id = id; paid_at = now })
              ≡ err m))
      → (e : StoredEvent) × Recorded json o o' e
  unfolding mark_paid
  Recorded-payment id h (inl (payload, m)) = (
    order_event o event_order_paid payload now,
    record {
      was_pending = ground (arith, eq_iff o.status status_pending);
      applied = ground (arith);
      of_order = refl;
      next_version = refl;
      is_settlement = inl refl;
    },
  )
  Recorded-payment id h (inr (e, m)) = absurd (ground arith)

-- A settlement is no orders.created event.
pub Recorded-IsWritten :
    (json : Json) (o o' : Order) (e : StoredEvent) → Recorded json o o' e → IsWritten json e
Recorded-IsWritten json o o' e r hit = elim r.is_settlement [
  | inl paid ↦ absurd (false≢true (rw paid at hit))
  | inr gone ↦ absurd (false≢true (rw gone at hit))
]

pub Settles-Recorded :
    (json : Json) (o o' : Order) → Settles json o o' → (e : StoredEvent) × Recorded json o o' e
Settles-Recorded json o o' (by_cancel now reason h) = Recorded-cancel json o o' now reason h (
    Result-cases
      (json.cancelled.marshal (record { order_id = o.id; reason = reason; cancelled_at = now })))
Settles-Recorded json o o' (by_payment now id h) =
    Recorded-payment json o o' now id h (
      Result-cases (json.paid.marshal (record { order_id = o.id; payment_id = id; paid_at = now })))

-- The changes of the replayed aggregate stay as they were.
replay-changes :
    (json : Json) (o : Order) (xs : List StoredEvent) (o' : Order)
    → replay json o xs ≡ ok o'
    → o'.changes ≡ o.changes
unfolding replay
replay-changes json o [] o' h = cc
replay-changes json o (x ∷ xs) o' h = elim (Result-cases (apply json x false o)) [
  | inl (p, e) ↦
      replay-changes json (record p { version = x.version }) xs o' (ground (arith, e))
      ∙ apply_changes json x o e
  | inr (m, e) ↦ absurd (ground (arith, e))
]

module _ (json : Json) (law : IsLawful json) where
  replay_one :
      (o o' : Order) (e row : StoredEvent)
      → o.changes ≡ []
      → apply json e true o ≡ ok o'
      → IsWritten json e
      → Stores json e row
      → replay json o (row ∷ []) ≡ ok (committed o')
  unfolding replay
  replay_one o o' e row fresh h written s =
      let (replayed, _, v) = apply_replayed json law e o o' fresh h in
      rw (apply-row json law e row o written s, replayed) (ground (arith, s.same_version, v))

  -- Replaying a history and one more stored event gives what applying the event gave.
  pub load-append :
      (rows : List StoredEvent) (o o' : Order) (e row : StoredEvent)
      → load_from_events json rows ≡ ok o
      → apply json e true o ≡ ok o'
      → IsWritten json e
      → Stores json e row
      → load_from_events json (rows ++ row ∷ []) ≡ ok (committed o')
  unfolding load_from_events
  load-append rows o o' e row loaded h written s =
      replay-append json new_order rows (row ∷ []) loaded
      ∙ replay_one o o' e row (replay-changes json new_order rows o loaded) h written s

-- A loaded aggregate has no changes.
pub loaded_changes :
    (json : Json) (rows : List StoredEvent) (o : Order)
    → load_from_events json rows ≡ ok o
    → o.changes ≡ []
unfolding load_from_events
loaded_changes json rows o h = replay-changes json new_order rows o h
