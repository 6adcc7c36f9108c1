-- ===== src/Order/Reservations/Place.antt =====
-- internal/order/command/handler.go: what PlaceOrder does to the stocks.
use go_grpc_http.Base.{
  ℕ, ◌+◌, String, ◌≡◌, refl, sym, ◌∙◌, List, [], ◌∷◌, ◌++◌, Bool, true, false, Option, arith, inl,
  inr, Bool-cases,
}
use go_grpc_http.Base.Text.{◌⧺◌, ◌==◌}
use go_grpc_http.Base.Int.{ℤ, ◌+ℤ◌, +ℤ_zero_right, int_laws}
use go_grpc_http.Base.Action.{ok, done, World, call}
use go_grpc_http.Order.Model.{OrderItem}
use go_grpc_http.Order.Services.{ProductInfo, Services, OrderState}
use go_grpc_http.Order.Command.{
  enrich, get_product, reserve_stock, require_stock, reserve_items, or_rollback,
}
use go_grpc_http.Order.Reservations.{IsLedger, IsPositive, ArePositive, ordered}
use go_grpc_http.Order.Reservations.Ends.{
  Took-reserve, Ends, Holds, continue-Ends, or_rollback-Ends, ArePositive-append, ordered-append,
}

module _ {P R : Type 0} (d : Services P R) (stock : String → P → Option ℤ) (IsValid : P → Type 0)
    (law : IsLedger d.products stock IsValid) (up : (n : ℕ) → d.env.outcome n ≡ done) where
  abbrev Held : P → List OrderItem → P → Type 0
  Held before taken p = Holds d stock IsValid law up before taken p

  got :
      (id : String) (w : World (OrderState P R))
      → get_product d id w ≡ (
        (d.products.get_product id w.state.products).0,
        record {
          calls = w.calls + 1;
          state = record w.state { products = (d.products.get_product id w.state.products).1 };
        },
      )
  unfolding call
  got id w = rw (up w.calls) refl

  reserved :
      (item : OrderItem) (w : World (OrderState P R))
      → reserve_stock d item w ≡ (
        (d.products.reserve_stock item.product_id item.quantity w.state.products).0,
        record {
          calls = w.calls + 1;
          state = record w.state {
            products = (d.products.reserve_stock item.product_id item.quantity w.state.products).1;
          };
        },
      )
  unfolding call
  reserved item w = rw (up w.calls) refl

  -- The stocks are those of `p`: what was taken is still taken.
  Held-same :
      (before : P) (taken : List OrderItem) (p p' : P)
      → Held before taken p
      → ((j : String) → stock j p' ≡ stock j p)
      → IsValid p'
      → Held before taken p'
  Held-same before taken p p' (took, valid) same valid' = ((λ j. rw (same j) (took j)), valid')

  get-Ends :
      (id context : String) (taken : List OrderItem) (before : P) (w : World (OrderState P R))
      → IsValid before
      → ArePositive taken
      → Held before taken w.state.products
      → Ends d stock IsValid law up before
          (λ (product : ProductInfo) p. Held before taken p)
          (or_rollback d taken context (get_product d id) w)
  get-Ends id context taken before w valid all held =
      let p = w.state.products in
      let kept : Held before taken (get_product d id w).1.state.products = rw (got id w) (
        Held-same before taken p (d.products.get_product id p).1 held (law.get_stock p id)
          (law.get_valid p id held.1)) in
      or_rollback-Ends d stock IsValid law up before taken context (get_product d id) w _ valid all
        (λ product h. kept) (λ e h. kept)

  -- What holds after ReserveStock has answered.
  abbrev AfterReserve : P → List OrderItem → OrderItem → ProductInfo → Bool → P → Type 0
  AfterReserve before taken item product true p = Held before (taken ++ enrich item product ∷ []) p
  AfterReserve before taken item product false p = Held before taken p

  reserve_answer :
      (item : OrderItem) (product : ProductInfo) (taken : List OrderItem) (before p : P)
      (success : Bool)
      → IsPositive item
      → Held before taken p
      → (d.products.reserve_stock item.product_id item.quantity p).0 ≡ ok success
      → AfterReserve before taken item product success
          (d.products.reserve_stock item.product_id item.quantity p).1
  reserve_answer item product taken before p true positive (took, valid) h = (
    Took-reserve d stock IsValid law up item product taken before p positive valid took h,
    law.reserve_valid p item.product_id item.quantity positive valid,
  )
  reserve_answer item product taken before p false positive held h =
      Held-same before taken p (d.products.reserve_stock item.product_id item.quantity p).1 held
        (λ j. law.reserve_short p item.product_id j item.quantity held.1 positive h)
        (law.reserve_valid p item.product_id item.quantity positive held.1)

  reserve-Ends :
      (item : OrderItem) (product : ProductInfo) (context : String) (taken : List OrderItem)
      (before : P) (w : World (OrderState P R))
      → IsValid before
      → ArePositive taken
      → IsPositive item
      → Held before taken w.state.products
      → Ends d stock IsValid law up before
          (AfterReserve before taken item product)
          (or_rollback d taken context (reserve_stock d item) w)
  reserve-Ends item product context taken before w valid all positive held =
      let p = w.state.products in
      let p' = (d.products.reserve_stock item.product_id item.quantity p).1 in
      or_rollback-Ends d stock IsValid law up before taken context (reserve_stock d item) w _ valid
        all
        (λ success h. rw (reserved item w) (
          reserve_answer item product taken before p success positive held
            (rw (reserved item w) at h)))
        (λ e h. rw (reserved item w) (
          Held-same before taken p p' held
            (λ j.
              law.reserve_failed p item.product_id j item.quantity held.1 positive
                (rw (reserved item w) at h))
            (law.reserve_valid p item.product_id item.quantity positive held.1)))

  require-Ends :
      (item : OrderItem) (product : ProductInfo) (taken : List OrderItem) (before : P)
      (success : Bool) (w : World (OrderState P R))
      → IsValid before
      → ArePositive taken
      → AfterReserve before taken item product success w.state.products
      → Ends d stock IsValid law up before
          (λ (unit : Unit {0}) p. Held before (taken ++ enrich item product ∷ []) p)
          (or_rollback d taken "" (require_stock d item.product_id success) w)
  require-Ends item product taken before true w valid all held =
      or_rollback-Ends d stock IsValid law up before taken "" (require_stock d item.product_id true)
        w _ valid all (λ unit h. held) (λ e h. absurd (ground (arith, h)))
  require-Ends item product taken before false w valid all held =
      or_rollback-Ends d stock IsValid law up before taken ""
        (require_stock d item.product_id false) w _ valid all (λ unit h. absurd (ground (arith, h)))
        (λ e h. held)

  -- What holds when all items are reserved; `total` is what was asked for of each product.
  abbrev pub AllReserved : P → (String → ℤ) → List OrderItem → P → Type 0
  AllReserved before total taken p =
      Held before taken p × ArePositive taken × ((j : String) → ordered j taken ≡ total j)

  one_more :
      (item : OrderItem) (product : ProductInfo) (taken items : List OrderItem) (j : String)
      → ordered j (taken ++ enrich item product ∷ []) +ℤ ordered j items
        ≡ ordered j taken +ℤ ordered j (item ∷ items)
  unfolding ordered
  one_more item product taken items j =
      rw (ordered-append j taken (enrich item product ∷ []))
        (elim (Bool-cases (j == item.product_id)) [
          | inl same ↦ rw same (omega int_laws)
          | inr other ↦ rw other (omega int_laws)
        ])

  pub reserve_items-Ends :
      (taken items : List OrderItem) (before : P) (total : String → ℤ) (w : World (OrderState P R))
      → IsValid before
      → ArePositive taken
      → ArePositive items
      → ((j : String) → ordered j taken +ℤ ordered j items ≡ total j)
      → Held before taken w.state.products
      → Ends d stock IsValid law up before
          (AllReserved before total)
          (reserve_items d taken items w)
  unfolding reserve_items ordered
  reserve_items-Ends taken [] before total w valid all rest sums held =
      (held, all, λ j. sym (+ℤ_zero_right (ordered j taken)) ∙ sums j)
  reserve_items-Ends taken (item ∷ items) before total w valid all (positive, rest) sums held =
      let id = item.product_id in
      let Good = AllReserved before total in
      continue-Ends d stock IsValid law up before _ Good _ _ _
        (get-Ends id ("get product " ⧺ id ⧺ ": ") taken before w valid all held)
        λ product w1 held1.
          continue-Ends d stock IsValid law up before _ Good _ _ _
            (reserve-Ends item product ("reserve stock for " ⧺ id ⧺ ": ") taken before w1 valid all
              positive held1)
            λ success w2 after.
              continue-Ends d stock IsValid law up before _ Good _ _ _
                (require-Ends item product taken before success w2 valid all after)
                λ unit w3 held3.
                  reserve_items-Ends (taken ++ enrich item product ∷ []) items before total w3 valid
                    (ArePositive-append taken (enrich item product) all positive) rest
                    (λ j. one_more item product taken items j ∙ sums j) held3
