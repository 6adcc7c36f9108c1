-- ===== src/Order/Reservations/Rollback.antt =====
-- internal/order/command/handler.go: rollbackReservations.
use go_grpc_http.Base.{
  ℕ, String, ◌≡◌, refl, sym, ap, ◌∙◌, List, [], ◌∷◌, Option, none, some, arith, inl, inr,
  Bool-cases, Option-cases, eq_iff, eq_refl,
}
use mathlib.Core.Option
use go_grpc_http.Base.Text.{◌==◌}
use go_grpc_http.Base.Int.{
  ℤ, pos, ◌+ℤ◌, ◌≤ℤ◌, ◌<ℤ◌, IsInt32, IsInt32_of_bounds, int_laws, +ℤ_assoc, +ℤ_zero_right,
}
use go_grpc_http.Base.Action.{done, World, call}
use go_grpc_http.Order.Model.{OrderItem}
use go_grpc_http.Order.Services.{ProductClient, Services, OrderState}
use go_grpc_http.Order.Command.{release_stock, rollback_reservations}
use go_grpc_http.Order.Reservations.{IsLedger, IsPositive, ArePositive, ordered, Took}

ordered_nonneg :
    (j : String) (items : List OrderItem) → ArePositive items → pos 0 ≤ℤ ordered j items
unfolding ordered
ordered_nonneg j [] h = omega arith
ordered_nonneg j (item ∷ items) (positive, h) = elim (Bool-cases (j == item.product_id)) [
  | inl same ↦ rw same (omega (int_laws, positive, ordered_nonneg j items h))
  | inr other ↦ rw other (ordered_nonneg j items h)
]

between :
    (s q r : ℤ) → pos 0 <ℤ q → pos 0 ≤ℤ r → IsInt32 s → IsInt32 (s +ℤ (q +ℤ r)) → IsInt32 (s +ℤ q)
between s q r positive rest low high =
    IsInt32_of_bounds (s +ℤ q) (omega (int_laws, low, high)) (omega (int_laws, low, high))

module _ {P : Type 0} (c : ProductClient P) (stock : String → P → Option ℤ) (IsValid : P → Type 0)
    (law : IsLedger c stock IsValid) where
  -- Giving back the first of the items that were taken leaves the others taken.
  release_first :
      (item : OrderItem) (items : List OrderItem) (before p : P)
      → IsPositive item
      → ArePositive items
      → IsValid before
      → IsValid p
      → Took stock (item ∷ items) before p
      → Took stock items before (c.release_stock item.product_id item.quantity p).1
  unfolding ordered
  release_first item items before p positive all valid valid' took j =
      let id = item.product_id in
      let q = item.quantity in
      elim (Option-cases (stock id p)) [
        | inl missing ↦
            let same = law.release_missing p id j q valid' positive missing in
            elim (Bool-cases (j == id)) [
              | inl hit ↦
                  let gone : stock j p ≡ none =
                    ap (λ k. stock k p) ((eq_iff j id).0 hit) ∙ missing in
                  rw (same, gone) (rw gone at (took j))
              | inr miss ↦ rw same (rw miss at (took j))
            ]
        | inr (s, there) ↦
            let whole : stock id before ≡ some (s +ℤ (q +ℤ ordered id items)) =
              rw (there, eq_refl id) at (took id) in
            let fits =
              between s q (ordered id items) positive (ordered_nonneg id items all)
                (law.in_range p id valid' there) (law.in_range before id valid whole) in
            let back = law.release_back p id j q valid' positive there fits in
            elim (Bool-cases (j == id)) [
              | inl hit ↦
                  let here : stock j p ≡ some s =
                    ap (λ k. stock k p) ((eq_iff j id).0 hit) ∙ there in
                  rw (back, hit)
                    ((rw (here, hit) at (took j)) ∙ ap some (sym (+ℤ_assoc s q (ordered j items))))
              | inr miss ↦ rw (back, miss) (rw miss at (took j))
            ]
      ]

pub with_nothing : (o : Option ℤ) → Option.map (λ s. s +ℤ pos 0) o ≡ o
with_nothing none = refl
with_nothing (some s) = ap some (+ℤ_zero_right s)

module _ {P R : Type 0} (d : Services P R) (stock : String → P → Option ℤ) (IsValid : P → Type 0)
    (law : IsLedger d.products stock IsValid) (up : (n : ℕ) → d.env.outcome n ≡ done) where
  released :
      (item : OrderItem) (w : World (OrderState P R))
      → (release_stock d item w).1.state.products
        ≡ (d.products.release_stock item.product_id item.quantity w.state.products).1
  unfolding call
  released item w = rw (up w.calls) refl

  -- Rolling back what was taken restores the stock of every product.
  pub rollback_reservations-restores :
      (items : List OrderItem) (before : P) (w : World (OrderState P R)) (j : String)
      → ArePositive items
      → IsValid before
      → IsValid w.state.products
      → Took stock items before w.state.products
      → stock j (rollback_reservations d items w).1.state.products ≡ stock j before
  unfolding rollback_reservations ordered
  rollback_reservations-restores [] before w j all valid valid' took =
      sym (took j ∙ with_nothing (stock j w.state.products))
  rollback_reservations-restores (item ∷ items) before w j (positive, all) valid valid' took =
      let w1 = (release_stock d item w).1 in
      let given = released item w in
      rollback_reservations-restores items before w1 j all valid
        (rw given
          (law.release_valid w.state.products item.product_id item.quantity positive valid'))
        (rw given (
          release_first d.products stock IsValid law item items before w.state.products positive all
            valid valid' took))
