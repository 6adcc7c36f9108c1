-- ===== src/Order/Reservations/Ends.antt =====
-- internal/order/command/handler.go: how the parts of PlaceOrder end, as far as the stocks go.
use go_grpc_http.Base.{
  ℕ, String, ◌≡◌, refl, sym, ap, ◌∙◌, List, [], ◌∷◌, ◌++◌, true, Option, some, inl, inr, Bool-cases,
  eq_iff,
}
use mathlib.Core.Option
use go_grpc_http.Base.Text.{◌==◌}
use go_grpc_http.Base.Int.{ℤ, pos, ◌+ℤ◌, ◌-ℤ◌, int_laws, +ℤ_assoc, +ℤ_zero_right, +ℤ_zero_left}
use go_grpc_http.Base.Action.{Result, ok, err, Result-cases, done, World, continue}
use go_grpc_http.Order.Model.{OrderItem}
use go_grpc_http.Order.Services.{ProductInfo, Services, OrderState, Handler}
use go_grpc_http.Order.Command.{enrich, release_stock, rollback_reservations, or_rollback}
use go_grpc_http.Order.Reservations.{IsLedger, IsPositive, ArePositive, ordered, Took}
use go_grpc_http.Order.Reservations.Rollback.{rollback_reservations-restores}

pub ordered-append :
    (j : String) (xs ys : List OrderItem) → ordered j (xs ++ ys) ≡ ordered j xs +ℤ ordered j ys
unfolding ordered
ordered-append j [] ys = sym (+ℤ_zero_left (ordered j ys))
ordered-append j (x ∷ xs) ys = elim (Bool-cases (j == x.product_id)) [
  | inl same ↦ rw same (
      ap (λ r. x.quantity +ℤ r) (ordered-append j xs ys)
      ∙ sym (+ℤ_assoc x.quantity (ordered j xs) (ordered j ys)))
  | inr other ↦ rw other (ordered-append j xs ys)
]

taken_more : (s q t : ℤ) → s +ℤ t ≡ s -ℤ q +ℤ (t +ℤ (q +ℤ pos 0))
taken_more s q t = omega int_laws

pub ArePositive-append :
    (xs : List OrderItem) (y : OrderItem)
    → ArePositive xs
    → IsPositive y
    → ArePositive (xs ++ y ∷ [])
ArePositive-append [] y h positive = (positive, tt)
ArePositive-append (x ∷ xs) y (first, h) positive = (first, ArePositive-append xs y h positive)

module _ {P R : Type 0} (d : Services P R) (stock : String → P → Option ℤ) (IsValid : P → Type 0)
    (law : IsLedger d.products stock IsValid) (up : (n : ℕ) → d.env.outcome n ≡ done) where
  -- A reservation that was taken adds its item to the items that were taken.
  pub Took-reserve :
      (item : OrderItem) (product : ProductInfo) (taken : List OrderItem) (before p : P)
      → IsPositive item
      → IsValid p
      → Took stock taken before p
      → (d.products.reserve_stock item.product_id item.quantity p).0 ≡ ok true
      → Took stock
          (taken ++ enrich item product ∷ [])
          before
          (d.products.reserve_stock item.product_id item.quantity p).1
  unfolding ordered
  Took-reserve item product taken before p positive valid took h j =
      let id = item.product_id in
      let q = item.quantity in
      let (s, there, after) = law.reserve_taken p id q valid positive h in
      rw ordered-append (elim (Bool-cases (j == id)) [
        | inl hit ↦
            let here : stock j p ≡ some s = ap (λ k. stock k p) ((eq_iff j id).0 hit) ∙ there in
            rw (after j, hit) ((rw here at (took j)) ∙ ap some (taken_more s q (ordered j taken)))
        | inr miss ↦
            rw (after j, miss)
              ((took j)
                ∙ ap (λ k. Option.map (λ s. s +ℤ k) (stock j p))
                    (sym (+ℤ_zero_right (ordered j taken))))
      ])

  -- How a part of PlaceOrder ends that began when the product service's side was `before`: with an
  -- answer for which `Good` holds, or with an error and every stock as it was.
  abbrev pub Ends :
      {A : Type 0} → P → (A → P → Type 0) → Result String A × World (OrderState P R) → Type 0
  Ends before Good (ok a, w) = Good a w.state.products
  Ends before Good (err e, w) = (j : String) → stock j w.state.products ≡ stock j before

  -- The items were taken, and the products are as the service keeps them.
  abbrev pub Holds : P → List OrderItem → P → Type 0
  Holds before taken p = Took stock taken before p × IsValid p

  pub continue-Ends :
      {A B : Type 0} (before : P) (Good : A → P → Type 0) (Good' : B → P → Type 0)
      (f : A → Handler P R B) (r : Result String A) (w : World (OrderState P R))
      → Ends before Good (r, w)
      → ((a : A) (w' : World (OrderState P R))
          → Good a w'.state.products
          → Ends before Good' (f a w'))
      → Ends before Good' (continue r f w)
  continue-Ends before Good Good' f (ok a) w h rest = rest a w h
  continue-Ends before Good Good' f (err e) w h rest = h

  pub rollback_ok :
      (items : List OrderItem) (w : World (OrderState P R))
      → (rollback_reservations d items w).0 ≡ ok tt
  unfolding rollback_reservations
  rollback_ok [] w = refl
  rollback_ok (item ∷ items) w = rollback_ok items (release_stock d item w).1

  pub or_rollback-Ends :
      {A : Type 0} (before : P) (taken : List OrderItem) (context : String) (m : Handler P R A)
      (w : World (OrderState P R)) (Good : A → P → Type 0)
      → IsValid before
      → ArePositive taken
      → ((a : A) → (m w).0 ≡ ok a → Good a (m w).1.state.products)
      → ((e : String) → (m w).0 ≡ err e → Holds before taken (m w).1.state.products)
      → Ends before Good (or_rollback d taken context m w)
  unfolding or_rollback
  or_rollback-Ends before taken context m w Good valid all good bad = elim (Result-cases (m w).0) [
    | inl (a, h) ↦ rw h (good a h)
    | inr (e, h) ↦
        let (took, valid') = bad e h in
        rw (h, rollback_ok taken (m w).1)
          λ j.
            rollback_reservations-restores d stock IsValid law up taken before (m w).1 j all valid
              valid' took
  ]
