-- ===== src/Order/History.antt =====
-- The histories that an order can have in the event_store table.
pub mod Interleaving
pub mod Steps
pub mod Handlers
pub mod Payments
pub mod Service
use go_grpc_http.Base.{
  ℕ, zero, suc, String, ◌≡◌, ◌≢◌, refl, sym, ◌∙◌, ap, List, [], ◌∷◌, ◌++◌, Bool, true, false, arith,
  eq_iff, ◌⊎◌, inl, inr,
}
use go_grpc_http.Base.Text.{◌==◌}
use go_grpc_http.Base.Action.{Result, ok, err, Result-cases}
use go_grpc_http.Base.Sql.{take}
use go_grpc_http.Order.Model.{
  StoredEvent, OrderCreatedPayload, event_order_created, event_order_paid, event_order_cancelled,
  status_pending, status_paid, status_cancelled,
}
use go_grpc_http.Order.Services.{Json}
use go_grpc_http.Order.Aggregate.{Order, new_order, apply, replay, load_from_events}
use go_grpc_http.Order.Aggregate.Status.{
  pending-ne-paid, pending-ne-cancelled, status_of_paid, status_of_cancelled,
}
use go_grpc_http.Order.EventStore.{has_version, order_by_version, history}
use go_grpc_http.Order.EventStore.Rows.{rows_of}

-- The row that created the order: version 1, and a payload that decodes to the order's id.
pub record IsCreation (json : Json) (id : String) (row : StoredEvent) : Type 0 where
  pub of_order : row.aggregate_id ≡ id
  pub is_first : row.version ≡ 1
  pub is_created : row.event_type ≡ event_order_created
  pub payload : OrderCreatedPayload
  pub decoded : json.created.unmarshal row.payload ≡ ok payload
  pub names_order : payload.order_id ≡ id

-- The row that paid or cancelled it: version 2.
pub record IsSettlement (id : String) (row : StoredEvent) : Type 0 where
  pub of_order : row.aggregate_id ≡ id
  pub is_second : row.version ≡ 2
  pub is_settled : (row.event_type ≡ event_order_paid) ⊎ (row.event_type ≡ event_order_cancelled)

-- An order is absent, open, or settled once.
abbrev pub IsLegal : Json → String → List StoredEvent → Type 0
IsLegal json id [] = Unit
IsLegal json id (c ∷ []) = IsCreation json id c
IsLegal json id (c ∷ s ∷ []) = IsCreation json id c × IsSettlement id s
IsLegal json id _ = ⊥

-- Every order of the table has a legal history.
abbrev pub IsOrderly : Json → List StoredEvent → Type 0
IsOrderly json rows = (id : String) → IsLegal json id (rows_of id rows)

-- `load_from_events` of the start of a legal history, one event at a time.
load_creation :
    (json : Json) (id : String) (c : StoredEvent) (o : Order)
    → IsCreation json id c
    → load_from_events json (c ∷ []) ≡ ok o
    → (o.id ≡ id) × (o.version ≡ 1)
unfolding load_from_events apply
load_creation json id c o h loaded =
    let t = h.is_created in
    let d = h.decoded in
    ground (arith, eq_iff c.event_type event_order_created, h.names_order, h.is_first)

status_of_settlement :
    (json : Json) (id : String) (s : StoredEvent) (o o' : Order)
    → IsSettlement id s
    → apply json s false o ≡ ok o'
    → o'.status ≢ status_pending
status_of_settlement json id s o o' h applied final = elim h.is_settled [
  | inl paid ↦ pending-ne-paid (sym final ∙ status_of_paid json false o o' s applied paid)
  | inr gone ↦ pending-ne-cancelled (sym final ∙ status_of_cancelled json false o o' s applied gone)
]

load_settled :
    (json : Json) (id : String) (c s : StoredEvent) (o : Order)
    → IsSettlement id s
    → load_from_events json (c ∷ s ∷ []) ≡ ok o
    → o.status ≢ status_pending
unfolding load_from_events
load_settled json id c s o h loaded = elim (Result-cases (apply json c false new_order)) [
  | inr (m, e) ↦ absurd (ground (arith, e))
  | inl (p, e) ↦
      let p' = record p { version = c.version } in
      elim (Result-cases (apply json s false p')) [
        | inr (m, e') ↦ absurd (ground (arith, e, e'))
        | inl (q, e') ↦
            let same : o.status ≡ q.status = ground (arith, e, e') in
            rw same (status_of_settlement json id s p' q h e')
      ]
]

no_events : (json : Json) (o : Order) → load_from_events json [] ≡ ok o → o.status ≢ status_pending
unfolding load_from_events
no_events json o loaded pending = new_not_pending (ground (arith, loaded, pending))
  where
    new_not_pending : new_order.status ≡ status_pending → ⊥
    new_not_pending e = cc ((eq_iff new_order.status status_pending).1 e)

module _ (json : Json) (id : String) where
  pub IsLegal-prefix : (xs ys : List StoredEvent) → IsLegal json id (xs ++ ys) → IsLegal json id xs
  IsLegal-prefix [] ys h = tt
  IsLegal-prefix (c ∷ []) [] h = h
  IsLegal-prefix (c ∷ []) (s ∷ []) h = h.0
  IsLegal-prefix (c ∷ []) (s ∷ t ∷ ys) h = absurd h
  IsLegal-prefix (c ∷ s ∷ []) [] h = h
  IsLegal-prefix (c ∷ s ∷ []) (t ∷ ys) h = absurd h
  IsLegal-prefix (c ∷ s ∷ t ∷ xs) ys h = h

  -- A legal history is in the order of its versions.
  pub order_of_legal : (xs : List StoredEvent) → IsLegal json id xs → order_by_version xs ≡ xs
  unfolding order_by_version
  order_of_legal [] h = refl
  order_of_legal (c ∷ []) h = refl
  order_of_legal (c ∷ s ∷ []) h = ground (arith, h.0.is_first, h.1.is_second)
  order_of_legal (c ∷ s ∷ t ∷ xs) h = absurd h

  -- What `load_from_events` makes of the start of a legal history that it finds pending: the
  -- creation alone.
  pub pending_of_legal :
      (n : ℕ) (xs : List StoredEvent) (o : Order)
      → IsLegal json id xs
      → load_from_events json (take n xs) ≡ ok o
      → o.status ≡ status_pending
      → (c : StoredEvent) × (rest : List StoredEvent) × (xs ≡ c ∷ rest)
        × (o.id ≡ id)
        × (o.version ≡ 1)
  pending_of_legal zero [] o legal loaded pending = absurd (no_events json o loaded pending)
  pending_of_legal (suc n) [] o legal loaded pending = absurd (no_events json o loaded pending)
  pending_of_legal zero (c ∷ rest) o legal loaded pending = absurd (no_events json o loaded pending)
  pending_of_legal (suc n) (c ∷ []) o legal loaded pending =
      let (same, v) = load_creation json id c o legal loaded in (c, [], refl, same, v)
  pending_of_legal (suc zero) (c ∷ s ∷ []) o legal loaded pending =
      let (same, v) = load_creation json id c o legal.0 loaded in (c, s ∷ [], refl, same, v)
  pending_of_legal (suc (suc n)) (c ∷ s ∷ []) o legal loaded pending =
      absurd (load_settled json id c s o legal.1 loaded pending)
  pending_of_legal (suc n) (c ∷ s ∷ t ∷ xs) o legal loaded pending = absurd legal

  -- A legal history that loads as pending is the creation alone.
  pub open_of_legal :
      (xs : List StoredEvent) (o : Order)
      → IsLegal json id xs
      → load_from_events json xs ≡ ok o
      → o.status ≡ status_pending
      → (c : StoredEvent) × (xs ≡ c ∷ []) × IsCreation json id c × (o.id ≡ id) × (o.version ≡ 1)
  open_of_legal [] o legal loaded pending = absurd (no_events json o loaded pending)
  open_of_legal (c ∷ []) o legal loaded pending =
      let (same, v) = load_creation json id c o legal loaded in (c, refl, legal, same, v)
  open_of_legal (c ∷ s ∷ []) o legal loaded pending =
      absurd (load_settled json id c s o legal.1 loaded pending)
  open_of_legal (c ∷ s ∷ t ∷ xs) o legal loaded pending = absurd legal
