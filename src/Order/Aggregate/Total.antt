-- ===== src/Order/Aggregate/Total.antt =====
-- internal/order/aggregate/order.go: the total of PlaceOrder.
use go_grpc_http.Base.{◌≡◌, refl, sym, ap, ◌∙◌, List, [], ◌∷◌}
use go_grpc_http.Base.Int.{
  ℤ, pos, ◌+ℤ◌, ◌*ℤ◌, wrap64, IsInt64, wrap64-+ℤ_left, wrap64-+ℤ_right, wrap64_of_IsInt64, +ℤ_assoc,
  +ℤ_zero_left, +ℤ_zero_right,
}
use go_grpc_http.Order.Model.{OrderItem}
use go_grpc_http.Order.Aggregate.{total_from}

-- The sum of price times quantity over the items, as an integer without bounds.
unfoldable pub exact_total : List OrderItem → ℤ
exact_total [] = pos 0
exact_total (item ∷ items) = item.price_cents *ℤ item.quantity +ℤ exact_total items

total_from-wrap64 :
    (a : ℤ) (items : List OrderItem) → total_from (wrap64 a) items ≡ wrap64 (a +ℤ exact_total items)
unfolding total_from exact_total
total_from-wrap64 a [] = ap wrap64 (sym (+ℤ_zero_right a))
total_from-wrap64 a (item ∷ items) =
    let price = item.price_cents *ℤ item.quantity in
    ap (λ t. total_from t items) (wrap64-+ℤ_left a (wrap64 price) ∙ wrap64-+ℤ_right a price)
    ∙ total_from-wrap64 (a +ℤ price) items
    ∙ ap wrap64 (+ℤ_assoc a price (exact_total items))

nothing_wraps : wrap64 (pos 0) ≡ pos 0
unfolding wrap64
nothing_wraps = refl

-- If the exact sum of price times quantity over the items fits an int64, the total that PlaceOrder
-- computes is that sum, even if products or partial sums on the way do not fit.
pub total_from-exact_total :
    (items : List OrderItem)
    → IsInt64 (exact_total items)
    → total_from (pos 0) items ≡ exact_total items
total_from-exact_total items fitting =
    ap (λ t. total_from t items) (sym nothing_wraps)
    ∙ total_from-wrap64 (pos 0) items
    ∙ ap wrap64 (+ℤ_zero_left (exact_total items))
    ∙ wrap64_of_IsInt64 (exact_total items) fitting
