-- ===== src/Order/Samples/Values.antt =====
-- The sample order's items and its creation: test data.
use go_grpc_http.Base.{ℕ, ◌≡◌, List, [], ◌∷◌, Bool, true, false, ◌&&◌, arith, eq_iff, ◌=?◌}
use go_grpc_http.Base.Text.{◌==◌}
use go_grpc_http.Base.Int.{ℤ, pos, negsuc}
use go_grpc_http.Order.Model.{OrderItem, OrderCreatedPayload}

abbrev pub is_pos : ℕ → ℤ → Bool
is_pos n (pos m) = m =? n
is_pos n (negsuc m) = false

pub is_pos-eq : (n : ℕ) (z : ℤ) → is_pos n z ≡ true → z ≡ pos n
is_pos-eq n (pos m) h = ground (arith, h)
is_pos-eq n (negsuc m) h = absurd (ground (arith, h))

abbrev pub pens : OrderItem
pens = record { product_id = "p-1"; product_name = "Pen"; quantity = pos 2; price_cents = pos 150 }

abbrev pub are_pens : List OrderItem → Bool
are_pens [] = false
are_pens (i ∷ []) =
    i.product_id == "p-1"
    && i.product_name == "Pen"
    && is_pos 2 i.quantity
    && is_pos 150 i.price_cents
are_pens (i ∷ j ∷ is) = false

pub are_pens-eq : (items : List OrderItem) → are_pens items ≡ true → items ≡ pens ∷ []
are_pens-eq [] h = absurd (ground (arith, h))
are_pens-eq (i ∷ []) h = ground (
  arith,
  h,
  eq_iff i.product_id "p-1",
  eq_iff i.product_name "Pen",
  is_pos-eq 2 i.quantity,
  is_pos-eq 150 i.price_cents,
)
are_pens-eq (i ∷ j ∷ is) h = absurd (ground (arith, h))

abbrev pub created : OrderCreatedPayload
created = record {
  order_id = "o-1";
  user_id = "u-1";
  items = pens ∷ [];
  total_cents = pos 300;
  currency = "USD";
  created_at = 1000;
}

abbrev pub is_created : OrderCreatedPayload → Bool
is_created p =
    p.order_id == "o-1"
    && p.user_id == "u-1"
    && are_pens p.items
    && is_pos 300 p.total_cents
    && p.currency == "USD"
    && p.created_at =? 1000

pub is_created-eq : (p : OrderCreatedPayload) → is_created p ≡ true → p ≡ created
is_created-eq p h = ground (
  arith,
  h,
  eq_iff p.order_id "o-1",
  eq_iff p.user_id "u-1",
  are_pens-eq p.items,
  is_pos-eq 300 p.total_cents,
  eq_iff p.currency "USD",
)
