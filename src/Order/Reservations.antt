-- ===== src/Order/Reservations.antt =====
-- The stock that PlaceOrder reserves, seen through the product service's client.
pub mod Rollback
pub mod Ends
pub mod Place
pub mod Server
pub mod Cancel
use go_grpc_http.Base.{
  ℕ, String, ◌≡◌, List, [], ◌∷◌, Bool, true, false, Option, none, some, All, if◌then◌else◌,
}
use mathlib.Core.Option
use go_grpc_http.Base.Text.{◌==◌}
use go_grpc_http.Base.Int.{ℤ, pos, ◌+ℤ◌, ◌-ℤ◌, ◌<ℤ◌, IsInt32}
use go_grpc_http.Base.Action.{Result, ok, err}
use go_grpc_http.Order.Model.{OrderItem}
use go_grpc_http.Order.Services.{ProductClient}

-- What the order service relies on in the product service, in terms of the stock of each product,
-- `none` where there is no such product: a reservation takes its quantity or nothing, a release
-- gives its quantity back where the result is a stock that the service can store.
pub record IsLedger {P : Type 0} (c : ProductClient P) (stock : String → P → Option ℤ)
    (IsValid : P → Type 0) : Type 0 where
  pub in_range : (p : P) (id : String) {s : ℤ} → IsValid p → stock id p ≡ some s → IsInt32 s
  pub get_valid : (p : P) (id : String) → IsValid p → IsValid (c.get_product id p).1
  pub get_stock : (p : P) (id j : String) → stock j (c.get_product id p).1 ≡ stock j p
  pub reserve_valid :
      (p : P) (id : String) (q : ℤ) → pos 0 <ℤ q → IsValid p → IsValid (c.reserve_stock id q p).1
  pub reserve_taken :
      (p : P) (id : String) (q : ℤ)
      → IsValid p
      → pos 0 <ℤ q
      → (c.reserve_stock id q p).0 ≡ ok true
      → (s : ℤ) × (stock id p ≡ some s)
        × ((j : String)
            → stock j (c.reserve_stock id q p).1 ≡ (if j == id then some (s -ℤ q) else stock j p))
  pub reserve_short :
      (p : P) (id j : String) (q : ℤ)
      → IsValid p
      → pos 0 <ℤ q
      → (c.reserve_stock id q p).0 ≡ ok false
      → stock j (c.reserve_stock id q p).1 ≡ stock j p
  pub reserve_failed :
      (p : P) (id j : String) (q : ℤ) {e : String}
      → IsValid p
      → pos 0 <ℤ q
      → (c.reserve_stock id q p).0 ≡ err e
      → stock j (c.reserve_stock id q p).1 ≡ stock j p
  pub release_valid :
      (p : P) (id : String) (q : ℤ) → pos 0 <ℤ q → IsValid p → IsValid (c.release_stock id q p).1
  pub release_back :
      (p : P) (id j : String) (q : ℤ) {s : ℤ}
      → IsValid p
      → pos 0 <ℤ q
      → stock id p ≡ some s
      → IsInt32 (s +ℤ q)
      → stock j (c.release_stock id q p).1 ≡ (if j == id then some (s +ℤ q) else stock j p)
  pub release_missing :
      (p : P) (id j : String) (q : ℤ)
      → IsValid p
      → pos 0 <ℤ q
      → stock id p ≡ none
      → stock j (c.release_stock id q p).1 ≡ stock j p

abbrev pub IsPositive : OrderItem → Type 0
IsPositive item = pos 0 <ℤ item.quantity

abbrev pub ArePositive : List OrderItem → Type 0
ArePositive items = All IsPositive items

-- the quantity of a product in a list of items
unfoldable pub ordered : String → List OrderItem → ℤ
ordered j [] = pos 0
ordered j (item ∷ items) =
    let rest = ordered j items in if j == item.product_id then item.quantity +ℤ rest else rest

-- What was in stock, if the items were given back.
abbrev pub with_items : String → List OrderItem → Option ℤ → Option ℤ
with_items j items = Option.map (λ s. s +ℤ ordered j items)

-- From `before` to `after`, exactly the items were taken.
abbrev pub Took : {P : Type 0} → (String → P → Option ℤ) → List OrderItem → P → P → Type 0
Took stock items before after = (j : String) → stock j before ≡ with_items j items (stock j after)
