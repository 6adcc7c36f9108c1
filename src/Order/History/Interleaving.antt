-- ===== src/Order/History/Interleaving.antt =====
-- Any interleaving of the write side: handlers that act on what they have read of the event_store
-- table, at any later time.
use go_grpc_http.Base.{
  ℕ, ◌+◌, String, ◌≡◌, refl, sym, ◌∙◌, ap, List, [], ◌∷◌, ◌++◌, false, arith, eq_iff, ◌⊎◌, inl, inr,
  Bool-cases,
}
use mathlib.Core.Path.{subst}
use mathlib.Core.List.{append-nil}
use go_grpc_http.Base.Text.{◌==◌}
use go_grpc_http.Base.Action.{ok, Time}
use go_grpc_http.Base.Sql.{take, where_rows}
use go_grpc_http.Order.Model.{
  OrderItem, StoredEvent, status_pending, event_order_paid, event_order_cancelled,
}
use go_grpc_http.Order.Services.{Json, IsLawful}
use go_grpc_http.Order.Aggregate.{Order, new_order, load_from_events, place_order}
use go_grpc_http.Order.Aggregate.Laws.{IsPlacement, place_order-IsPlacement, recorded_same}
use go_grpc_http.Order.Aggregate.Replay.{Settles, Recorded, Settles-Recorded, loaded_changes}
use go_grpc_http.Order.EventStore.{has_version, insert_event, history}
use go_grpc_http.Order.EventStore.Rows.{
  rows_of, rows_of-append, rows_of_self, rows_of_other, has_version-rows_of, Inserted,
  insert_event-Inserted,
}
use go_grpc_http.Order.History.{
  IsCreation, IsSettlement, IsLegal, IsOrderly, IsLegal-prefix, order_of_legal, pending_of_legal,
}

-- One committed insert of one handler. A handler that settles an order may have read the table at
-- an earlier time, when it held the rows `seen`, and may have lost the end of its query.
pub data Step (json : Json) (rows rows' : List StoredEvent) : Type 0 where
  placed :
      (now : Time) (uuid user_id : String) (items : List OrderItem) (currency : String) (o : Order)
      (e : StoredEvent) (serial : ℕ)
      → place_order json now uuid user_id items currency new_order ≡ ok o
      → o.changes ≡ e ∷ []
      → insert_event json serial e rows ≡ ok rows'
      → Step json rows rows'
  settled :
      (seen later : List StoredEvent) (order_id : String) (n : ℕ) (o o' : Order) (e : StoredEvent)
      (serial : ℕ)
      → seen ++ later ≡ rows
      → load_from_events json (take n (history order_id seen)) ≡ ok o
      → Settles json o o'
      → o'.changes ≡ e ∷ []
      → insert_event json serial e rows ≡ ok rows'
      → Step json rows rows'

-- Any number of steps from the empty table.
pub data Reach (json : Json) : List StoredEvent → Type 0 where
  empty : Reach json []
  next : {rows rows' : List StoredEvent} → Reach json rows → Step json rows rows' → Reach json rows'

nothing-IsOrderly : (json : Json) → IsOrderly json []
unfolding where_rows
nothing-IsOrderly json id = tt

-- An insert leaves the rows of the other orders as they were.
other_rows :
    (json : Json) (e : StoredEvent) (rows rows' : List StoredEvent) (id : String)
    → Inserted json e rows rows'
    → (e.aggregate_id == id) ≡ false
    → rows_of id rows' ≡ rows_of id rows
other_rows json e rows rows' id i h =
    ap (rows_of id) i.behind
    ∙ rows_of-append id rows (i.row ∷ [])
    ∙ ap (λ l. rows_of id rows ++ l) (rows_of_other i.row id (rw i.stores.same_aggregate h))
    ∙ append-nil (rows_of id rows)

pub own_rows :
    (json : Json) (e : StoredEvent) (rows rows' : List StoredEvent) (i : Inserted json e rows rows')
    → rows_of e.aggregate_id rows' ≡ rows_of e.aggregate_id rows ++ i.row ∷ []
own_rows json e rows rows' i =
    ap (rows_of e.aggregate_id) i.behind
    ∙ rows_of-append e.aggregate_id rows (i.row ∷ [])
    ∙ ap (λ l. rows_of e.aggregate_id rows ++ l)
        (rows_of_self i.row e.aggregate_id i.stores.same_aggregate)

module _ (json : Json) (id : String) where
  -- Where the first version is free, the order has no rows.
  first_free : (xs : List StoredEvent) → IsLegal json id xs → has_version id 1 xs ≡ false → xs ≡ []
  unfolding has_version
  first_free [] h free = refl
  first_free (c ∷ []) h free =
      absurd (ground (arith, h.of_order, h.is_first, eq_iff c.aggregate_id id))
  first_free (c ∷ s ∷ []) h free =
      absurd (ground (arith, h.0.of_order, h.0.is_first, eq_iff c.aggregate_id id))
  first_free (c ∷ s ∷ t ∷ xs) h free = absurd h

  -- Where the second version is free, an order with rows has its creation alone.
  second_free :
      (c : StoredEvent) (rest : List StoredEvent)
      → IsLegal json id (c ∷ rest)
      → has_version id 2 (c ∷ rest) ≡ false
      → rest ≡ []
  unfolding has_version
  second_free c [] h free = refl
  second_free c (s ∷ []) h free =
      absurd (ground (arith, h.1.of_order, h.1.is_second, eq_iff s.aggregate_id id))
  second_free c (s ∷ t ∷ rest) h free = absurd h

module _ (json : Json) (law : IsLawful json) where
  free_of :
      (e : StoredEvent) (rows rows' : List StoredEvent) (v : ℕ)
      → Inserted json e rows rows'
      → e.version ≡ v
      → has_version e.aggregate_id v (rows_of e.aggregate_id rows) ≡ false
  free_of e rows rows' v i same =
      sym (has_version-rows_of e.aggregate_id v rows) ∙ rw same at (i.free)

  placed-IsLegal :
      (uuid : String) (e : StoredEvent) (rows rows' : List StoredEvent)
      → IsPlacement json uuid e
      → (i : Inserted json e rows rows') → IsLegal json e.aggregate_id (rows_of e.aggregate_id rows)
      → IsLegal json e.aggregate_id (rows_of e.aggregate_id rows')
  placed-IsLegal uuid e rows rows' p i legal =
      let none_before =
        first_free json e.aggregate_id (rows_of e.aggregate_id rows) legal
          (free_of e rows rows' 1 i p.is_first) in
      let creation : IsCreation json e.aggregate_id i.row = record {
        of_order = i.stores.same_aggregate;
        is_first = i.stores.same_version ∙ p.is_first;
        is_created = i.stores.same_type ∙ p.is_created;
        payload = p.payload;
        decoded = law.jsonb_keeps p.payload p.written i.stores.payload;
        names_order = p.names_order ∙ sym p.of_order;
      } in
      rw (own_rows json e rows rows' i, none_before) creation

  -- What a handler has read, at any earlier time, is the start of the order's history.
  read_pending :
      (seen later rows : List StoredEvent) (id : String) (n : ℕ) (o : Order)
      → seen ++ later ≡ rows
      → IsOrderly json rows
      → load_from_events json (take n (history id seen)) ≡ ok o
      → o.status ≡ status_pending
      → (c : StoredEvent) × (rest : List StoredEvent) × (rows_of id rows ≡ c ∷ rest)
        × (o.id ≡ id)
        × (o.version ≡ 1)
  unfolding history
  read_pending seen later rows id n o split legal loaded pending =
      let parts = ap (rows_of id) (sym split) ∙ rows_of-append id seen later in
      let legal_seen =
        IsLegal-prefix json id (rows_of id seen) (rows_of id later) (rw parts at (legal id)) in
      let ordered = order_of_legal json id (rows_of id seen) legal_seen in
      let (c, rest, starts, same, v) =
        pending_of_legal json id n (rows_of id seen) o legal_seen (rw ordered at loaded) pending in
      (c, rest ++ rows_of id later, parts ∙ ap (λ l. l ++ rows_of id later) starts, same, v)

  settled-IsLegal :
      (e c : StoredEvent) (rest rows rows' : List StoredEvent)
      → e.version ≡ 2
      → (e.event_type ≡ event_order_paid) ⊎ (e.event_type ≡ event_order_cancelled)
      → (i : Inserted json e rows rows') → rows_of e.aggregate_id rows ≡ c ∷ rest
      → IsLegal json e.aggregate_id (rows_of e.aggregate_id rows)
      → IsLegal json e.aggregate_id (rows_of e.aggregate_id rows')
  settled-IsLegal e c rest rows rows' v kind i starts legal =
      let alone =
        second_free json e.aggregate_id c rest (rw starts at legal)
          (rw starts at (free_of e rows rows' 2 i v)) in
      let before = starts ∙ ap (λ l. c ∷ l) alone in
      let settlement : IsSettlement e.aggregate_id i.row = record {
        of_order = i.stores.same_aggregate;
        is_second = i.stores.same_version ∙ v;
        is_settled = rw i.stores.same_type kind;
      } in
      rw (own_rows json e rows rows' i, before) (rw before at legal, settlement)

  -- An insert that keeps its own order legal keeps the table orderly.
  IsOrderly-of_own :
      (e : StoredEvent) (rows rows' : List StoredEvent) (i : Inserted json e rows rows')
      → IsOrderly json rows
      → IsLegal json e.aggregate_id (rows_of e.aggregate_id rows')
      → IsOrderly json rows'
  IsOrderly-of_own e rows rows' i orderly own id = elim (Bool-cases (e.aggregate_id == id)) [
    | inl same ↦
        subst (λ j. IsLegal json j (rows_of j rows')) ((eq_iff e.aggregate_id id).0 same) own
    | inr other ↦ rw (other_rows json e rows rows' id i other) (orderly id)
  ]

  -- Every committed insert keeps every order's history legal.
  pub Step-IsOrderly :
      (rows rows' : List StoredEvent)
      → Step json rows rows'
      → IsOrderly json rows
      → IsOrderly json rows'
  Step-IsOrderly rows rows' (placed now uuid user_id items currency o e serial h changed inserted)
        orderly =
      let i = insert_event-Inserted json serial e rows rows' inserted in
      let p = place_order-IsPlacement json law now uuid user_id items currency o e h changed in
      IsOrderly-of_own e rows rows' i orderly
        (placed-IsLegal uuid e rows rows' p i (orderly e.aggregate_id))
  Step-IsOrderly rows rows'
        (settled seen later order_id n o o' e serial split loaded settles changed inserted)
        orderly =
      let i = insert_event-Inserted json serial e rows rows' inserted in
      let (e', r') = Settles-Recorded json o o' settles in
      let fresh = loaded_changes json (take n (history order_id seen)) o loaded in
      let r =
        subst (Recorded json o o') (sym (recorded_same json o o' e e' fresh r'.applied changed))
          r' in
      let (c, rest, starts, same, v) =
        read_pending seen later rows order_id n o split orderly loaded r.was_pending in
      let id_of = r.of_order ∙ same in
      IsOrderly-of_own e rows rows' i orderly (
        settled-IsLegal e c rest rows rows' (r.next_version ∙ ap (λ k. k + 1) v) r.is_settlement i
          (ap (λ j. rows_of j rows) id_of ∙ starts) (orderly e.aggregate_id))

  -- For lawful JSON codecs: however the handlers interleave, and however old or truncated what they
  -- have read of the table is, every order's rows are none, its creation, or its creation and one
  -- payment or cancellation. So no order is ever both paid and cancelled, or either of them twice.
  pub Reach-IsOrderly : (rows : List StoredEvent) → Reach json rows → IsOrderly json rows
  Reach-IsOrderly _ empty = nothing-IsOrderly json
  Reach-IsOrderly _ (next {rows} {rows'} r step) =
      Step-IsOrderly rows rows' step (Reach-IsOrderly rows r)
