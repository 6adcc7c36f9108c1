-- ===== src/Order/EventStore/Append.antt =====
-- `Append` is atomic: the event_store table gets every event of the call, or none.
use go_grpc_http.Base.{
  ◌+◌, String, ◌≡◌, refl, ap, sym, ◌∙◌, List, [], ◌∷◌, ◌++◌, arith, inl, inr, ◌⊎◌,
}
use mathlib.Core.List.{append-nil, append_assoc}
use go_grpc_http.Base.Text.{◌⧺◌, decimal}
use go_grpc_http.Base.Keeps.{
  Keeps, Keeps-pure, Keeps-bind, Keeps-draw, Keeps-wrapping, Keeps-call, bind-cases, bind-ok,
  wrapping-ok, call-ok,
}
use go_grpc_http.Base.Action.{Result-cases, call, exec, wrapping, Result, ok, err, World, ◌>>=◌}
use go_grpc_http.Order.Model.{StoredEvent}
use go_grpc_http.Order.Services.{Json, Services, OrderState, Handler}
use go_grpc_http.Order.Aggregate.Replay.{Stores}
use go_grpc_http.Order.EventStore.{insert_event, insert_all, append}
use go_grpc_http.Order.EventStore.Rows.{Inserted, insert_event-Inserted}

-- Rows that hold the events of a list, one each and in their order.
abbrev pub StoresAll : Json → List StoredEvent → List StoredEvent → Type 0
StoresAll json [] [] = Unit
StoresAll json (e ∷ es) (r ∷ rs) = Stores json e r × StoresAll json es rs
StoresAll json _ _ = ⊥

module _ {P R : Type 0} (d : Services P R) where
  -- What a transaction sees behind the rows that it began with, if its inserts all went through.
  record Pending (events rows rows' : List StoredEvent) : Type 0 where
    added : List StoredEvent
    stores : StoresAll d.json events added
    behind : rows' ≡ rows ++ added

  -- The inserts of a transaction do not show in the state.
  pub insert_all-Keeps :
      (Q : OrderState P R → Type 0) (events rows : List StoredEvent)
      → Keeps Q (insert_all d events rows)
  unfolding insert_all
  insert_all-Keeps Q [] rows = Keeps-pure rows
  insert_all-Keeps Q (e ∷ es) rows = Keeps-bind _ _ (Keeps-draw d.env.serial) λ id.
      Keeps-bind _ _
        (Keeps-wrapping ("insert event (version " ⧺ decimal e.version ⧺ "): ") _
          (Keeps-call d.env (λ s. (insert_event d.json id e rows, s)) (λ s h. h)))
        (λ rows'. insert_all-Keeps Q es rows')

  Pending-nil : (rows : List StoredEvent) → Pending [] rows rows
  Pending-nil rows = record { added = []; stores = tt; behind = sym (append-nil rows) }

  Pending-cons :
      (e : StoredEvent) (es rows rows' rows'' : List StoredEvent)
      → Inserted d.json e rows rows'
      → Pending es rows' rows''
      → Pending (e ∷ es) rows rows''
  Pending-cons e es rows rows' rows'' i p = record {
    added = i.row ∷ p.added;
    stores = (i.stores, p.stores);
    behind = p.behind ∙ ap (λ l. l ++ p.added) i.behind ∙ append_assoc rows (i.row ∷ []) p.added;
  }

  insert_all-Pending :
      (events rows rows' : List StoredEvent) (w : World (OrderState P R))
      → (insert_all d events rows w).0 ≡ ok rows'
      → Pending events rows rows'
  unfolding insert_all
  insert_all-Pending [] rows rows' w h = let e : rows ≡ rows' = cc in rw (← e) (Pending-nil rows)
  insert_all-Pending (e ∷ es) rows rows' w h =
      let w1 : World (OrderState P R) = record w { calls = w.calls + 1 } in
      let insert =
        call d.env
          (λ (s : OrderState P R). (insert_event d.json (d.env.serial w.calls) e rows, s)) in
      let context = "insert event (version " ⧺ decimal e.version ⧺ "): " in
      let (mid, inserted, rest) = bind-ok (wrapping context insert) (insert_all d es) w1 h in
      let (accepted, _) = call-ok d.env _ w1 (wrapping-ok context insert w1 inserted) in
      Pending-cons e es rows mid rows'
        (insert_event-Inserted d.json (d.env.serial w.calls) e rows mid accepted)
        (insert_all-Pending es mid rows' (wrapping context insert w1).1 (rw rest at h))

  -- The table after a call that persisted its events, with nothing else changed.
  pub record Wrote (events : List StoredEvent) (s s' : OrderState P R) : Type 0 where
    pub added : List StoredEvent
    pub stores : StoresAll d.json events added
    pub state : s' ≡ record s { events = s.events ++ added }

  -- the three parts of `append`, from the state in which each runs
  pub begin_tx : Handler P R (List StoredEvent)
  begin_tx = wrapping "begin tx: " (exec d.env (λ s. (s.events, s)))

  pub commit_tx : List StoredEvent → Handler P R Unit
  commit_tx rows = exec d.env (λ s. (tt, record s { events = rows }))

  pub commit_cases :
      (rows : List StoredEvent) (w : World (OrderState P R))
      → ((commit_tx rows w).1.state ≡ w.state)
        ⊎ ((commit_tx rows w).1.state ≡ record w.state { events = rows })
  unfolding commit_tx call
  commit_cases rows w = ground arith

  pub begin_reads :
      (w : World (OrderState P R)) (rows : List StoredEvent)
      → (begin_tx w).0 ≡ ok rows
      → rows ≡ w.state.events
  unfolding begin_tx call
  begin_reads w rows h = ground arith

  pub begin-Keeps : (Q : OrderState P R → Type 0) → Keeps Q begin_tx
  unfolding begin_tx
  begin-Keeps Q = Keeps-wrapping "begin tx: " _ (Keeps-call d.env _ (λ s h. h))

  pub commit_ok :
      (rows : List StoredEvent) (w : World (OrderState P R))
      → (commit_tx rows w).0 ≡ ok tt
      → (commit_tx rows w).1.state ≡ record w.state { events = rows }
  unfolding commit_tx call
  commit_ok rows w h = ground arith

  -- What `Append` may end with, from the state `s`.
  abbrev IsAtomic :
      List StoredEvent → OrderState P R → Result String Unit × World (OrderState P R) → Type 0
  IsAtomic events s (r, w) =
      ((w.state ≡ s) ⊎ Wrote events s w.state) × (r ≡ ok tt → Wrote events s w.state)

  IsAtomic-err :
      (events : List StoredEvent) (s : OrderState P R) (e : String) (w : World (OrderState P R))
      → w.state ≡ s
      → IsAtomic events s (err e, w)
  IsAtomic-err events s e w h = (inl h, λ bad. absurd (ground arith))

  IsAtomic-commit :
      (events : List StoredEvent) (s : OrderState P R) (rows : List StoredEvent)
      (w : World (OrderState P R))
      → w.state ≡ s
      → Pending events s.events rows
      → IsAtomic events s (commit_tx rows w)
  IsAtomic-commit events s rows w same p =
      let wrote : record w.state { events = rows } ≡ record s { events = s.events ++ p.added } =
        ground (arith, p.behind) in
      let done_with = λ (h : (commit_tx rows w).1.state ≡ record w.state { events = rows }).
        let result : Wrote events s (commit_tx rows w).1.state = record {
          added = p.added;
          stores = p.stores;
          state = h ∙ wrote;
        } in
        result in
      (
        elim (commit_cases rows w) [ inl h ↦ inl (h ∙ same) | inr h ↦ inr (done_with h) ],
        λ h. done_with (commit_ok rows w h),
      )

  append_inserts :
      (events : List StoredEvent) (s : OrderState P R) (rows : List StoredEvent)
      (w : World (OrderState P R))
      → w.state ≡ s
      → rows ≡ s.events
      → IsAtomic events s ((insert_all d events rows >>= commit_tx) w)
  append_inserts events s rows w same began =
      let kept = (insert_all-Keeps (λ t. t ≡ s) events rows).at w same in
      elim (bind-cases (insert_all d events rows) commit_tx w) [
        | inl (e, h) ↦ rw h (IsAtomic-err events s e (insert_all d events rows w).1 kept)
        | inr (rows', inserted, h) ↦ rw h (
            IsAtomic-commit events s rows' (insert_all d events rows w).1 kept
              (rw began at (insert_all-Pending events rows rows' w inserted)))
      ]

  pub append_parts :
      (events : List StoredEvent) (w : World (OrderState P R))
      → append d events w ≡ (begin_tx >>= λ rows. insert_all d events rows >>= commit_tx) w
  unfolding append begin_tx commit_tx
  append_parts events w = refl

  -- What becomes of the state.
  append_kept :
      (events : List StoredEvent) (w : World (OrderState P R))
      → (((append d events w).1.state ≡ w.state) ⊎ Wrote events w.state (append d events w).1.state)
        × ((append d events w).0 ≡ ok tt → Wrote events w.state (append d events w).1.state)
  append_kept events w =
      let rest = λ (rows : List StoredEvent). insert_all d events rows >>= commit_tx in
      let kept = (begin-Keeps (λ t. t ≡ w.state)).at w refl in
      rw append_parts (elim (bind-cases begin_tx rest w) [
        | inl (e, h) ↦ rw h (IsAtomic-err events w.state e (begin_tx w).1 kept)
        | inr (rows, began, h) ↦
            rw h (append_inserts events w.state rows (begin_tx w).1 kept (begin_reads w rows began))
      ])

  -- However the call of `Append` ends, it is all or nothing: with success, it has put a row for each
  -- of its events behind the table, in their order, and changed nothing else; with an error, it has
  -- done so (the answer of the commit was lost), or it has left the state as it was.
  pub append_atomic :
      (events : List StoredEvent) (w : World (OrderState P R))
      → (((append d events w).0 ≡ ok tt) × Wrote events w.state (append d events w).1.state)
        ⊎ ((e : String) × ((append d events w).0 ≡ err e)
            × (((append d events w).1.state ≡ w.state)
                ⊎ Wrote events w.state (append d events w).1.state))
  append_atomic events w =
      let (kept, done_all) = append_kept events w in
      elim (Result-cases (append d events w).0) [
        | inl (unit, e) ↦ inl (e, done_all e)
        | inr (m, e) ↦ inr (m, e, kept)
      ]
