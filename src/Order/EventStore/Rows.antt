-- ===== src/Order/EventStore/Rows.antt =====
-- The rows of the event_store table: what an insert adds, and to which orders.
use go_grpc_http.Base.{
  ℕ, String, ◌≡◌, refl, List, [], ◌∷◌, ◌++◌, true, false, arith, eq_iff, Bool-cases, inl, inr,
  if◌then◌else◌,
}
use go_grpc_http.Base.Text.{◌==◌}
use go_grpc_http.Base.Action.{ok, err, Result-cases}
use go_grpc_http.Base.Sql.{where_rows, unique_violation}
use go_grpc_http.Order.Model.{StoredEvent}
use go_grpc_http.Order.Services.{Json}
use go_grpc_http.Order.Aggregate.Replay.{Stores}
use go_grpc_http.Order.EventStore.{has_version, fits_columns, refusal, insert_event}

-- the rows of one order, in the order of their insertion
abbrev pub rows_of : String → List StoredEvent → List StoredEvent
rows_of id = where_rows (λ e. e.aggregate_id == id)

abbrev one_of : String → StoredEvent → List StoredEvent
one_of id e = if e.aggregate_id == id then e ∷ [] else []

pub rows_of-append :
    (id : String) (xs ys : List StoredEvent)
    → rows_of id (xs ++ ys) ≡ rows_of id xs ++ rows_of id ys
unfolding where_rows
rows_of-append id [] ys = refl
rows_of-append id (x ∷ xs) ys = ground (arith, rows_of-append id xs ys)

pub rows_of_self :
    (e : StoredEvent) (id : String) → e.aggregate_id ≡ id → rows_of id (e ∷ []) ≡ e ∷ []
unfolding where_rows
rows_of_self e id h = ground (arith, eq_iff e.aggregate_id id)

pub rows_of_other :
    (e : StoredEvent) (id : String) → (e.aggregate_id == id) ≡ false → rows_of id (e ∷ []) ≡ []
unfolding where_rows
rows_of_other e id h = ground arith

-- The unique constraint concerns the rows of the event's own order.
pub has_version-rows_of :
    (id : String) (v : ℕ) (rows : List StoredEvent)
    → has_version id v rows ≡ has_version id v (rows_of id rows)
unfolding has_version where_rows
has_version-rows_of id v [] = refl
has_version-rows_of id v (x ∷ xs) = ground (arith, has_version-rows_of id v xs)

-- What an accepted insert has done: one new row behind the others, of a version that was free.
pub record Inserted (json : Json) (e : StoredEvent) (rows rows' : List StoredEvent) : Type 0 where
  pub row : StoredEvent
  pub stores : Stores json e row
  pub behind : rows' ≡ rows ++ row ∷ []
  pub free : has_version e.aggregate_id e.version rows ≡ false

pub insert_event-Inserted :
    (json : Json) (id : ℕ) (e : StoredEvent) (rows rows' : List StoredEvent)
    → insert_event json id e rows ≡ ok rows'
    → Inserted json e rows rows'
unfolding insert_event
insert_event-Inserted json id e rows rows' h = elim (Result-cases (json.jsonb e.payload)) [
  | inl (payload, p) ↦ record {
    row = record e { id = id; payload = payload };
    stores = record { same_aggregate = refl; same_type = refl; same_version = refl; payload = p };
    behind = ground (arith, p);
    free = ground (arith, p);
  }
  | inr (m, p) ↦ absurd (ground (arith, p))
]

-- A version that is taken refuses the insert.
pub insert_event_taken :
    (json : Json) (id : ℕ) (e : StoredEvent) (rows : List StoredEvent)
    → has_version e.aggregate_id e.version rows ≡ true
    → (m : String) × (insert_event json id e rows ≡ err m)
unfolding insert_event
insert_event_taken json id e rows h = elim (Bool-cases (fits_columns e)) [
  | inl fits ↦ (unique_violation, ground arith)
  | inr wide ↦ (refusal e, ground arith)
]
