-- ===== src/Order/EventStore.antt =====
-- internal/order/event/store.go, over the event_store table of cmd/order-service/main.go and
-- migrations/order: UNIQUE(aggregate_id, version).
pub mod Rows
pub mod Append
pub mod One
use go_grpc_http.Base.{
  ℕ, String, List, [], ◌∷◌, ◌++◌, Bool, false, not, ◌&&◌, ◌||◌, ◌=?◌, ltb, leb, if◌then◌else◌,
}
use go_grpc_http.Base.Text.{◌⧺◌, ◌==◌, fits, decimal}
use go_grpc_http.Base.Action.{Result, ok, err, pure, draw, call, exec, wrapping, ◌>>=◌}
use go_grpc_http.Base.Sql.{cut_rows, where_rows, unique_violation, value_too_long, out_of_range}
use go_grpc_http.Base.Int.{int32_max}
use go_grpc_http.Order.Model.{StoredEvent}
use go_grpc_http.Order.Services.{Json, Services, Handler}

-- the unique constraint's test
unfoldable pub has_version : String → ℕ → List StoredEvent → Bool
has_version aggregate_id version [] = false
has_version aggregate_id version (row ∷ rows) =
    (row.aggregate_id == aggregate_id && row.version =? version)
    || has_version aggregate_id version rows

abbrev fits_texts : StoredEvent → Bool
fits_texts e = fits 36 e.aggregate_id && fits 50 e.aggregate_type && fits 100 e.event_type

abbrev pub fits_columns : StoredEvent → Bool
fits_columns e = fits_texts e && leb e.version int32_max

abbrev pub refusal : StoredEvent → String
refusal e = if fits_texts e then out_of_range else value_too_long

-- INSERT INTO event_store: the row gets a serial id, and the JSONB column its own text.
unfoldable pub insert_event :
    Json → ℕ → StoredEvent → List StoredEvent → Result String (List StoredEvent)
unfolding has_version
insert_event json id e rows =
    if not (fits_columns e)
    then err (refusal e)
    else if has_version e.aggregate_id e.version rows
    then err unique_violation
    else elim (json.jsonb e.payload) [
      | ok payload ↦ ok (rows ++ record e { id = id; payload = payload } ∷ [])
      | err m ↦ err m
    ]

-- ORDER BY version ASC, an insertion sort
unfoldable pub insert_by_version : StoredEvent → List StoredEvent → List StoredEvent
insert_by_version e [] = e ∷ []
insert_by_version e (x ∷ xs) =
    let later = x ∷ insert_by_version e xs in if ltb x.version e.version then later else e ∷ x ∷ xs

unfoldable pub order_by_version : List StoredEvent → List StoredEvent
unfolding insert_by_version
order_by_version [] = []
order_by_version (e ∷ es) = insert_by_version e (order_by_version es)

-- the rows that `Load` asks for
unfoldable pub history : String → List StoredEvent → List StoredEvent
unfolding order_by_version where_rows
history aggregate_id rows = order_by_version (where_rows (λ e. e.aggregate_id == aggregate_id) rows)

module _ {P R : Type 0} (d : Services P R) where
  -- the loop of `Append`; `rows` is the table as the transaction sees it
  unfoldable pub insert_all : List StoredEvent → List StoredEvent → Handler P R (List StoredEvent)
  unfolding insert_event call
  insert_all [] rows = pure rows
  insert_all (e ∷ events) rows = do
    id ← draw d.env.serial
    rows' ←
        wrapping ("insert event (version " ⧺ decimal e.version ⧺ "): ")
          (call d.env (λ s. (insert_event d.json id e rows, s)))
    insert_all events rows'

  -- Nothing is visible before the commit; the deferred rollback drops `rows`.
  unfoldable pub append : List StoredEvent → Handler P R Unit
  unfolding insert_all call
  append events = do
    rows ← wrapping "begin tx: " (exec d.env (λ s. (s.events, s)))
    rows' ← insert_all events rows
    exec d.env (λ s. (tt, record s { events = rows' }))

  unfoldable pub load : String → Handler P R (List StoredEvent)
  unfolding history call
  load aggregate_id = do
    n ← draw d.env.cut
    wrapping "query events: " (exec d.env (λ s. (cut_rows n (history aggregate_id s.events), s)))
