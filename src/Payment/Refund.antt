-- ===== src/Payment/Refund.antt =====
-- internal/payment/server.go: refunds.
use go_grpc_http.Base.{
  ℕ, ◌+◌, String, ◌≡◌, refl, List, [], ◌∷◌, false, some, arith, inl, inr, Bool-cases, eq_iff,
}
use go_grpc_http.Base.Text.{◌==◌}
use go_grpc_http.Base.Action.{ok, err, done, World, call}
use go_grpc_http.Base.Sql.{find_row, update_rows}
use go_grpc_http.Grpc.{status, failed_precondition}
use go_grpc_http.Payment.Model.{Payment, status_completed, status_refunded}
use go_grpc_http.Payment.Repository.{
  Services, PaymentState, has_id, set_status, get_by_id, update_status,
}
use go_grpc_http.Payment.Server.{refund_payment}

-- The updated row is found by its id.
find-set_status :
    (id text : String) (now : ℕ) (rows : List Payment) (p : Payment)
    → find_row (has_id id) rows ≡ some p
    → find_row (has_id id) (update_rows (has_id id) (set_status now text) rows)
      ≡ some (set_status now text p)
unfolding find_row update_rows
find-set_status id text now [] p h = absurd (ground (arith, h))
find-set_status id text now (x ∷ rows) p h = elim (Bool-cases (x.id == id)) [
  | inl hit ↦ let same : x ≡ p = ground (arith, h, hit) in rw (hit, hit, same) refl
  | inr miss ↦ rw (miss, miss) (find-set_status id text now rows p (rw miss at h))
]

module _ (d : Services) (up : (n : ℕ) → d.env.outcome n ≡ done) where
  refund_payment-found :
      (id : String) (p : Payment) (w : World PaymentState)
      → (id == "") ≡ false
      → find_row (has_id id) w.state.payments ≡ some p
      → p.status ≡ status_completed
      → refund_payment d id w ≡ (
        ok (record { payment_id = id; status = status_refunded }),
        record {
          calls = w.calls + 1 + 1 + 1;
          state = record w.state {
            payments =
                update_rows
                  (has_id id)
                  (set_status (d.env.now (w.calls + 1)) status_refunded)
                  w.state.payments;
          };
        },
      )
  unfolding refund_payment get_by_id update_status call
  refund_payment-found id p w named found complete =
      rw
        (
          named,
          up w.calls,
          found,
          (eq_iff p.status status_completed).1 complete,
          up (w.calls + 1 + 1),
          found,
        )
        refl

  refused_refund :
      (id : String) (calls : ℕ) (s : PaymentState) (p : Payment)
      → (id == "") ≡ false
      → find_row (has_id id) s.payments ≡ some p
      → p.status ≡ status_refunded
      → (refund_payment d id (record { calls = calls; state = s })).0
        ≡ err (status failed_precondition "can only refund completed payments, current: refunded")
  unfolding refund_payment get_by_id call
  refused_refund id calls s p named found gone = rw (named, up calls, found, gone) refl

  -- A completed payment is refunded, and only once, while the calls go through: the first call
  -- succeeds and leaves the payment refunded, a second one answers FailedPrecondition.
  pub refund_payment_once :
      (id : String) (p : Payment) (w : World PaymentState)
      → (id == "") ≡ false
      → find_row (has_id id) w.state.payments ≡ some p
      → p.status ≡ status_completed
      → ((refund_payment d id w).0 ≡ ok (record { payment_id = id; status = status_refunded }))
        × (find_row (has_id id) (refund_payment d id w).1.state.payments
            ≡ some (set_status (d.env.now (w.calls + 1)) status_refunded p))
        × ((refund_payment d id (refund_payment d id w).1).0
            ≡ err (
                status failed_precondition "can only refund completed payments, current: refunded"))
  refund_payment_once id p w named found complete =
      let ran = refund_payment-found id p w named found complete in
      let after =
        find-set_status id status_refunded (d.env.now (w.calls + 1)) w.state.payments p found in
      rw ran (refl, after, refused_refund id (w.calls + 1 + 1 + 1) _ _ named after refl)
