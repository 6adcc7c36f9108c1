-- ===== src/Order/History/Steps.antt =====
-- The handlers of the order service as steps of its history: each takes the event_store table by
-- one step, or leaves it.
use go_grpc_http.Base.{
  ℕ, suc, ◌+◌, String, ◌≡◌, refl, ap, sym, ◌∙◌, List, [], ◌∷◌, true, Option, none, some, arith, inl,
  inr, ◌⊎◌,
}
use mathlib.Core.Path.{subst}
use go_grpc_http.Base.Action.{Result, ok, Result-cases, Time, World, call, handle, ◌>>=◌}
use go_grpc_http.Base.Keeps.{Keeps, bind-cases, wrapping-ok, call-ok}
use go_grpc_http.Base.Sql.{take, cut_rows}
use go_grpc_http.Order.Model.{OrderItem, StoredEvent, event_order_created}
use go_grpc_http.Order.Services.{Json, Services, OrderState, Handler}
use go_grpc_http.Order.Aggregate.{
  Order, new_order, order_event, place_order, load_from_events, apply,
}
use go_grpc_http.Order.Aggregate.Laws.{Recorded-changes, created_payload}
use go_grpc_http.Order.Aggregate.Replay.{Settles, Settles-Recorded, loaded_changes}
use go_grpc_http.Order.EventStore.{insert_event, append, load, history}
use go_grpc_http.Order.EventStore.One.{append_one}
use go_grpc_http.Order.History.Interleaving.{Step}

-- One step of the table, or none.
abbrev pub AtMostStep : Json → List StoredEvent → List StoredEvent → Type 0
AtMostStep json rows rows' = (rows' ≡ rows) ⊎ Step json rows rows'

-- A placed order has recorded one event.
pub place_order_changes :
    (json : Json) (now : Time) (uuid user_id : String) (items : List OrderItem) (currency : String)
    (o : Order)
    → place_order json now uuid user_id items currency new_order ≡ ok o
    → (e : StoredEvent) × (o.changes ≡ e ∷ [])
unfolding place_order apply
place_order_changes json now uuid user_id [] currency o h = absurd (ground (arith, h))
place_order_changes json now uuid user_id (i ∷ is) currency o h =
    let start = record new_order { id = uuid } in
    elim (Result-cases
      (json.created.marshal (created_payload now uuid user_id (i ∷ is) currency))) [
        | inl (payload, m) ↦
            let e = order_event start event_order_created payload now in
            let applied : apply json e true start ≡ ok o = ground (arith, m, h) in
            (e, Recorded-changes json start o e refl applied)
        | inr (text, m) ↦ absurd (ground (arith, m, h))
      ]

-- So has an order that was loaded and then cancelled or paid.
pub settle_changes :
    (json : Json) (rows : List StoredEvent) (o o' : Order)
    → load_from_events json rows ≡ ok o
    → Settles json o o'
    → (e : StoredEvent) × (o'.changes ≡ e ∷ [])
settle_changes json rows o o' loaded s =
    let (e, r) = Settles-Recorded json o o' s in
    (e, Recorded-changes json o o' e (loaded_changes json rows o loaded) r.applied)

take_all : (xs : List StoredEvent) → (n : ℕ) × (take n xs ≡ xs)
take_all [] = (0, refl)
take_all (x ∷ xs) = let (n, h) = take_all xs in (suc n, ap (λ l. x ∷ l) h)

cut-take : (n : Option ℕ) (xs : List StoredEvent) → (k : ℕ) × (cut_rows n xs ≡ take k xs)
cut-take none xs = let (k, h) = take_all xs in (k, sym h)
cut-take (some k) xs = (k, refl)

module _ {P R : Type 0} (d : Services P R) where
  -- `Load` answers the start of the order's history, and changes nothing.
  pub load_reads :
      (order_id : String) (w : World (OrderState P R)) (rows : List StoredEvent)
      → (load d order_id w).0 ≡ ok rows
      → (n : ℕ) × (rows ≡ take n (history order_id w.state.events))
  unfolding load
  load_reads order_id w rows h =
      let w1 : World (OrderState P R) = record w { calls = w.calls + 1 } in
      let f : OrderState P R → Result String (List StoredEvent) × OrderState P R =
        λ s. (ok (cut_rows (d.env.cut w.calls) (history order_id s.events)), s) in
      let (read, _) = call-ok d.env f w1 (wrapping-ok "query events: " (call d.env f) w1 h) in
      let (n, cut) = cut-take (d.env.cut w.calls) (history order_id w.state.events) in
      let same : cut_rows (d.env.cut w.calls) (history order_id w.state.events) ≡ rows =
        ground (arith, read) in
      (n, sym same ∙ cut)

  -- Actions that take the table by at most a step.
  pub record Moves {A : Type 0} (m : Handler P R A) : Type 0 where
    pub at : (w : World (OrderState P R)) → AtMostStep d.json w.state.events (m w).1.state.events

  -- Actions that leave the table.
  abbrev pub Leaves : {A : Type 0} → Handler P R A → Type 0
  Leaves m = (rows : List StoredEvent) → Keeps (λ (s : OrderState P R). s.events ≡ rows) m

  pub Leaves-Moves : {A : Type 0} (m : Handler P R A) → Leaves m → Moves m
  Leaves-Moves m k = record { at = λ w. inl ((k w.state.events).at w refl) }

  -- A step after what leaves the table; the rest is told what the first part answered.
  pub Moves-after :
      {A B : Type 0} (m : Handler P R A) (f : A → Handler P R B)
      → Leaves m
      → ((w : World (OrderState P R)) (a : A)
          → (m w).0 ≡ ok a
          → (m w).1.state.events ≡ w.state.events
          → AtMostStep d.json w.state.events (f a (m w).1).1.state.events)
      → Moves (m >>= f)
  Moves-after m f k rest = record {
    at = λ w.
        let same = (k w.state.events).at w refl in
        elim (bind-cases m f w) [
          | inl (e, h) ↦ rw h (inl same)
          | inr (a, e, h) ↦ rw h (rest w a e same)
        ];
  }

  -- A step before what leaves the table.
  pub Moves-before :
      {A B : Type 0} (m : Handler P R A) (f : Result String A → Handler P R B)
      → Moves m
      → ((r : Result String A) → Leaves (f r))
      → Moves (handle m f)
  Moves-before m f step k = record {
    at = λ w. elim (step.at w) [
      | inl same ↦ inl ((k (m w).0 w.state.events).at (m w).1 same)
      | inr moved ↦
          let same = (k (m w).0 (m w).1.state.events).at (m w).1 refl in rw same (inr moved)
    ];
  }

  pub Moves-then :
      {A B : Type 0} (m : Handler P R A) (f : A → Handler P R B)
      → Leaves m
      → ((a : A) → Moves (f a))
      → Moves (m >>= f)
  Moves-then m f k rest = Moves-after m f k λ w a e same.
      subst (λ rows. AtMostStep d.json rows (f a (m w).1).1.state.events) same ((rest a).at (m w).1)

  pub step_first :
      {A B : Type 0} (m : Handler P R A) (f : A → Handler P R B) (w : World (OrderState P R))
      → AtMostStep d.json w.state.events (m w).1.state.events
      → ((a : A) → Leaves (f a))
      → AtMostStep d.json w.state.events ((m >>= f) w).1.state.events
  step_first m f w step k = elim (bind-cases m f w) [
    | inl (e, h) ↦ rw h step
    | inr (a, e, h) ↦ let same = (k a (m w).1.state.events).at (m w).1 refl in rw (h, same) step
  ]

  pub Moves-first :
      {A B : Type 0} (m : Handler P R A) (f : A → Handler P R B)
      → Moves m
      → ((a : A) → Leaves (f a))
      → Moves (m >>= f)
  Moves-first m f step k = record { at = λ w. step_first m f w (step.at w) k }

  -- `Append` of one event that makes a step of every insert that is accepted.
  pub append_step :
      (events : List StoredEvent) (e : StoredEvent) (w : World (OrderState P R))
      → events ≡ e ∷ []
      → ((serial : ℕ) (rows : List StoredEvent)
          → insert_event d.json serial e w.state.events ≡ ok rows
          → Step d.json w.state.events rows)
      → AtMostStep d.json w.state.events (append d events w).1.state.events
  append_step events e w one make = rw one (elim (append_one d e w) [
    | inl same ↦ inl same
    | inr (serial, accepted) ↦ inr (make serial (append d (e ∷ []) w).1.state.events accepted)
  ])
