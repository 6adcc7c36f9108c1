-- ===== src/Order/Samples/Views.antt =====
-- A JSON codec that knows the two views of the sample order: test data.
use go_grpc_http.Base.{
  ◌≡◌, refl, ap, ◌∙◌, [], ◌∷◌, Bool, true, ◌&&◌, arith, eq_iff, ◌=?◌, if◌then◌else◌, Bool-cases,
  inl, inr,
}
use go_grpc_http.Base.Text.{◌==◌}
use go_grpc_http.Base.Action.{ok, err}
use go_grpc_http.Base.Codec.{Codec, IsFaithful}
use go_grpc_http.Order.Model.{OrderView}
use go_grpc_http.Order.Projector.{view_of_created}
use go_grpc_http.Order.Samples.Values.{created, are_pens, are_pens-eq, is_pos, is_pos-eq}

abbrev is_view : OrderView → Bool
is_view v =
    v.order_id == "o-1"
    && v.user_id == "u-1"
    && are_pens v.items
    && is_pos 300 v.total_cents
    && v.currency == "USD"
    && v.status == "pending"
    && v.payment_id == ""
    && v.created_at =? 1000
    && v.updated_at =? 1000

is_view-eq : (v : OrderView) → is_view v ≡ true → v ≡ view_of_created created
is_view-eq v h = ground (
  arith,
  h,
  eq_iff v.order_id "o-1",
  eq_iff v.user_id "u-1",
  are_pens-eq v.items,
  is_pos-eq 300 v.total_cents,
  eq_iff v.currency "USD",
  eq_iff v.status "pending",
  eq_iff v.payment_id "",
)

-- The view once the order is paid, at noon.
abbrev pub view_paid : OrderView
view_paid = record (view_of_created created) { status = "paid"; payment_id = "pay-1" }

abbrev is_view_paid : OrderView → Bool
is_view_paid v =
    v.status == "paid"
    && v.payment_id == "pay-1"
    && is_view (record v { status = "pending"; payment_id = "" })

is_view_paid-eq : (v : OrderView) → is_view_paid v ≡ true → v ≡ view_paid
is_view_paid-eq v h =
    let unpaid : OrderView = record v { status = "pending"; payment_id = "" } in
    let before : unpaid ≡ view_of_created created = is_view-eq unpaid (ground (arith, h)) in
    let status : v.status ≡ "paid" = (eq_iff v.status "paid").0 (ground (arith, h)) in
    let payment : v.payment_id ≡ "pay-1" = (eq_iff v.payment_id "pay-1").0 (ground (arith, h)) in
    ap (λ (u : OrderView). record u { status = v.status; payment_id = v.payment_id }) before
    ∙ rw (status, payment) refl

abbrev pub view_codec : Codec OrderView
view_codec = record {
  marshal = λ v.
      if is_view v
      then ok (1 ∷ [])
      else if is_view_paid v
      then ok (2 ∷ [])
      else err "json: unsupported value";
  unmarshal = λ b. elim b [
    | [] ↦ err "unexpected end of JSON input"
    | n ∷ ns ↦ if n =? 1 then ok (view_of_created created) else ok view_paid
  ];
}

pub view_codec-IsFaithful : IsFaithful view_codec
view_codec-IsFaithful = record {
  round_trip = λ v {b} written. elim (Bool-cases (is_view v)) [
    | inl hit ↦ ground (arith, hit, written, is_view-eq v hit)
    | inr other ↦ elim (Bool-cases (is_view_paid v)) [
      | inl hit ↦ ground (arith, other, hit, written, is_view_paid-eq v hit)
      | inr miss ↦ absurd (ground (arith, other, miss, written))
    ]
  ];
}
