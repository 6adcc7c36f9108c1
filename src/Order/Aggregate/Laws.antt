-- ===== src/Order/Aggregate/Laws.antt =====
-- What the aggregate's methods promise: the replay of their events, and the states of an order.
use mathlib.Core.Path.{subst}
use go_grpc_http.Base.{
  String, ◌≡◌, ◌≢◌, refl, sym, ◌∙◌, List, [], ◌∷◌, ◌++◌, true, arith, eq_iff, inl, inr,
}
use go_grpc_http.Base.Text.{◌⧺◌}
use go_grpc_http.Base.Int.{pos}
use go_grpc_http.Base.Action.{ok, err, Result-cases, Time}
use go_grpc_http.Order.Model.{
  OrderCreatedPayload, OrderItem, StoredEvent, status_pending, event_order_created,
}
use go_grpc_http.Order.Services.{Json, IsLawful}
use go_grpc_http.Order.Aggregate.{
  Order, new_order, order_event, apply, load_from_events, total_from, place_order, cancel,
  mark_paid,
}
use go_grpc_http.Order.Aggregate.Status.{
  pending-ne-paid, pending-ne-cancelled, status_of_paid, status_of_cancelled,
}
use go_grpc_http.Order.Aggregate.Replay.{
  committed, Stores, Settles, Recorded, Settles-Recorded, IsWritten, Recorded-IsWritten,
  load-append, loaded_changes,
}

pub Recorded-changes :
    (json : Json) (o o' : Order) (e : StoredEvent)
    → o.changes ≡ []
    → apply json e true o ≡ ok o'
    → o'.changes ≡ e ∷ []
unfolding apply
Recorded-changes json o o' e fresh h = ground arith

pub recorded_same :
    (json : Json) (o o' : Order) (e e' : StoredEvent)
    → o.changes ≡ []
    → apply json e' true o ≡ ok o'
    → o'.changes ≡ e ∷ []
    → e ≡ e'
recorded_same json o o' e e' fresh applied changed =
    ground (arith, Recorded-changes json o o' e' fresh applied)

-- For lawful JSON codecs: when an order that was loaded from its rows is cancelled or paid, the
-- one event that this records, stored as a row behind the others, makes the replay of the rows
-- give exactly the aggregate that the method left, its changes emptied.
pub load-settle :
    (json : Json) (law : IsLawful json) (rows : List StoredEvent) (o o' : Order)
    (e row : StoredEvent)
    → load_from_events json rows ≡ ok o
    → Settles json o o'
    → o'.changes ≡ e ∷ []
    → Stores json e row
    → load_from_events json (rows ++ row ∷ []) ≡ ok (committed o')
load-settle json law rows o o' e row loaded settled changed s =
    let (e', r) = Settles-Recorded json o o' settled in
    let same = recorded_same json o o' e e' (loaded_changes json rows o loaded) r.applied changed in
    load-append json law rows o o' e row loaded (rw same r.applied)
      (rw same (Recorded-IsWritten json o o' e' r)) s

-- the status of an order after a payment or a cancellation
settled_status :
    (json : Json) (o o' : Order) (e : StoredEvent)
    → Recorded json o o' e
    → o'.status ≢ status_pending
settled_status json o o' e r final = elim r.is_settlement [
  | inl paid ↦ pending-ne-paid (sym final ∙ status_of_paid json true o o' e r.applied paid)
  | inr gone ↦
      pending-ne-cancelled (sym final ∙ status_of_cancelled json true o o' e r.applied gone)
]

-- An order that was cancelled or paid is neither cancelled nor paid again, at any time and for
-- any reason or payment: both methods refuse, and name the status that the order has.
pub settled_refuses :
    (json : Json) (o o' : Order) (now : Time) (text : String)
    → Settles json o o'
    → (cancel json now text o'
        ≡ err ("can only cancel pending orders, current status: " ⧺ o'.status))
      × (mark_paid json now text o'
          ≡ err ("can only pay pending orders, current status: " ⧺ o'.status))
unfolding cancel mark_paid
settled_refuses json o o' now text settled =
    let (e, r) = Settles-Recorded json o o' settled in
    let final = settled_status json o o' e r in
    (
      ground (arith, final, eq_iff o'.status status_pending),
      ground (arith, final, eq_iff o'.status status_pending),
    )

-- the payload that `place_order` marshals
abbrev pub created_payload : Time → String → String → List OrderItem → String → OrderCreatedPayload
created_payload now uuid user_id items currency = record {
  order_id = uuid;
  user_id = user_id;
  items = items;
  total_cents = total_from (pos 0) items;
  currency = currency;
  created_at = now;
}

nothing_loaded : (json : Json) → load_from_events json [] ≡ ok new_order
unfolding load_from_events
nothing_loaded json = refl

-- An order is placed only with items. For lawful JSON codecs, replaying the one stored row of a
-- placed order gives the placed aggregate: its id, user, items, currency and total, the status
-- pending and the version 1.
pub load-place_order :
    (json : Json) (law : IsLawful json) (now : Time) (uuid user_id : String)
    (items : List OrderItem) (currency : String) (o : Order) (e row : StoredEvent)
    → place_order json now uuid user_id items currency new_order ≡ ok o
    → o.changes ≡ e ∷ []
    → Stores json e row
    → (items ≢ [])
      × (load_from_events json (row ∷ []) ≡ ok (committed o))
      × (committed o ≡ record {
        id = uuid;
        user_id = user_id;
        items = items;
        total_cents = total_from (pos 0) items;
        currency = currency;
        status = status_pending;
        version = 1;
        changes = [];
      })
unfolding place_order
load-place_order json law now uuid user_id [] currency o e row placed changed s =
    absurd (ground arith)
load-place_order json law now uuid user_id (i ∷ is) currency o e row placed changed s =
    let items : List OrderItem = i ∷ is in
    elim (Result-cases (
      json.created.marshal (record {
        order_id = uuid;
        user_id = user_id;
        items = items;
        total_cents = total_from (pos 0) items;
        currency = currency;
        created_at = now;
      }))) [
        | inl (payload, m) ↦
            let e' = order_event (record new_order { id = uuid }) event_order_created payload now in
            let decoded = law.created_law.round_trip _ m in
            let applied : apply json e' true new_order ≡ ok o = ground (arith, m, decoded) in
            let same : e ≡ e' = ground (arith, Recorded-changes json new_order o e' refl applied) in
            let written : IsWritten json e' = λ hit. (_, m) in
            (
              (λ none_left. ground (arith, none_left)),
              load-append json law [] new_order o e row (nothing_loaded json) (rw same applied)
                  (rw same written) s,
              ground (arith, m, decoded),
            )
        | inr (text, m) ↦ absurd (ground (arith, m))
      ]

-- The event of a placed order.
pub record IsPlacement (json : Json) (uuid : String) (e : StoredEvent) : Type 0 where
  pub of_order : e.aggregate_id ≡ uuid
  pub is_first : e.version ≡ 1
  pub is_created : e.event_type ≡ event_order_created
  pub payload : OrderCreatedPayload
  pub written : json.created.marshal payload ≡ ok e.payload
  pub decoded : json.created.unmarshal e.payload ≡ ok payload
  pub names_order : payload.order_id ≡ uuid

pub place_order-IsPlacement :
    (json : Json) (law : IsLawful json) (now : Time) (uuid user_id : String)
    (items : List OrderItem) (currency : String) (o : Order) (e : StoredEvent)
    → place_order json now uuid user_id items currency new_order ≡ ok o
    → o.changes ≡ e ∷ []
    → IsPlacement json uuid e
unfolding place_order
place_order-IsPlacement json law now uuid user_id [] currency o e placed changed =
    absurd (ground arith)
place_order-IsPlacement json law now uuid user_id (i ∷ is) currency o e placed changed =
    let created = created_payload now uuid user_id (i ∷ is) currency in
    elim (Result-cases (json.created.marshal created)) [
      | inl (payload, m) ↦
          let e' = order_event (record new_order { id = uuid }) event_order_created payload now in
          let decoded = law.created_law.round_trip created m in
          let applied : apply json e' true new_order ≡ ok o = ground (arith, m, decoded) in
          let same : e' ≡ e = ground (arith, Recorded-changes json new_order o e' refl applied) in
          let placement : IsPlacement json uuid e' = record {
            of_order = refl;
            is_first = refl;
            is_created = refl;
            payload = created;
            written = m;
            decoded = decoded;
            names_order = refl;
          } in
          subst (IsPlacement json uuid) same placement
      | inr (text, m) ↦ absurd (ground (arith, m))
    ]
