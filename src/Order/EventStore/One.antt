-- ===== src/Order/EventStore/One.antt =====
-- `Append` of one event: the table as it was, or one accepted insert.
use go_grpc_http.Base.{ℕ, ◌+◌, ◌≡◌, refl, ap, sym, ◌∙◌, List, [], ◌∷◌, arith, inl, inr, ◌⊎◌}
use go_grpc_http.Base.Text.{◌⧺◌, decimal}
use go_grpc_http.Base.Action.{ok, World, call, wrapping, ◌>>=◌}
use go_grpc_http.Base.Keeps.{bind-cases, bind-ok, wrapping-ok, call-ok}
use go_grpc_http.Order.Model.{StoredEvent}
use go_grpc_http.Order.Services.{Services, OrderState}
use go_grpc_http.Order.EventStore.{insert_event, insert_all, append}
use go_grpc_http.Order.EventStore.Append.{
  insert_all-Keeps, begin_tx, begin_reads, begin-Keeps, commit_tx, commit_cases, append_parts,
}

module _ {P R : Type 0} (d : Services P R) (e : StoredEvent) where
  insert_one :
      (rows rows' : List StoredEvent) (w : World (OrderState P R))
      → (insert_all d (e ∷ []) rows w).0 ≡ ok rows'
      → (serial : ℕ) × (insert_event d.json serial e rows ≡ ok rows')
  unfolding insert_all
  insert_one rows rows' w h =
      let w1 : World (OrderState P R) = record w { calls = w.calls + 1 } in
      let insert =
        call d.env
          (λ (s : OrderState P R). (insert_event d.json (d.env.serial w.calls) e rows, s)) in
      let context = "insert event (version " ⧺ decimal e.version ⧺ "): " in
      let (mid, inserted, rest) = bind-ok (wrapping context insert) (insert_all d []) w1 h in
      let (accepted, _) = call-ok d.env _ w1 (wrapping-ok context insert w1 inserted) in
      let same : mid ≡ rows' = ground (arith, rw rest at h) in
      (d.env.serial w.calls, accepted ∙ ap ok same)

  -- What one append does to the table, however its calls end.
  pub append_one :
      (w : World (OrderState P R))
      → ((append d (e ∷ []) w).1.state.events ≡ w.state.events)
        ⊎ ((serial : ℕ) × (insert_event d.json serial e w.state.events
              ≡ ok (append d (e ∷ []) w).1.state.events))
  append_one w =
      let rest = λ (rows : List StoredEvent). insert_all d (e ∷ []) rows >>= commit_tx d in
      let Q = λ (s : OrderState P R). s.events ≡ w.state.events in
      let begun = (begin-Keeps d Q).at w refl in
      rw append_parts (elim (bind-cases (begin_tx d) rest w) [
        | inl (m, h) ↦ rw h (inl begun)
        | inr (rows, began, h) ↦
            let w1 = (begin_tx d w).1 in
            let kept = (insert_all-Keeps d Q (e ∷ []) rows).at w1 begun in
            elim (bind-cases (insert_all d (e ∷ []) rows) (commit_tx d) w1) [
              | inl (m, h') ↦ rw (h, h') (inl kept)
              | inr (rows', inserted, h') ↦
                  let (serial, accepted) = insert_one rows rows' w1 inserted in
                  elim (commit_cases d rows' (insert_all d (e ∷ []) rows w1).1) [
                    | inl same ↦ rw (h, h', same) (inl kept)
                    | inr wrote ↦
                        rw (h, h', wrote)
                          (inr (
                            serial,
                            ap (insert_event d.json serial e) (sym (begin_reads d w rows began))
                                ∙ accepted,
                          ))
                  ]
            ]
      ])
