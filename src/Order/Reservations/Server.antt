-- ===== src/Order/Reservations/Server.antt =====
-- internal/order/server.go: what a PlaceOrder request does to the stocks.
use go_grpc_http.Base.{
  ℕ, ◌+◌, String, ◌≡◌, refl, sym, ap, ◌∙◌, List, [], ◌∷◌, false, Option, arith, inl, inr, ◌⊎◌,
  Bool-cases, if◌then◌else◌, is_empty, ◌||◌,
}
use mathlib.Core.Option
use go_grpc_http.Base.Text.{◌==◌}
use go_grpc_http.Base.Int.{ℤ, pos, ◌<ℤ◌, ◌+ℤ◌, +ℤ_zero_left, leb_ℤ}
use go_grpc_http.Base.Action.{Result, ok, err, Result-cases, done, World, lift, handle, pure}
use go_grpc_http.Grpc.{Status}
use go_grpc_http.Order.Model.{OrderItem}
use go_grpc_http.Order.Services.{Services, OrderState}
use go_grpc_http.Order.Aggregate.{Order, new_order}
use go_grpc_http.Order.Aggregate
use go_grpc_http.Order.EventStore.{append}
use go_grpc_http.Order.Publisher.{publish}
use go_grpc_http.Order.History.Handlers.{place_rest}
use go_grpc_http.Order.Keeps.{append-Keeps, publish-Keeps}
use go_grpc_http.Order.Command.{reserve_items, or_rollback}
use go_grpc_http.Order.Command
use go_grpc_http.Order.Server.{
  ItemRequest, PlaceOrderRequest, PlaceOrderResponse, checked_items, or_usd, place_order,
}
use go_grpc_http.Order.Reservations.{IsLedger, ArePositive, ordered, Took}
use go_grpc_http.Order.Reservations.Rollback.{with_nothing}
use go_grpc_http.Order.Reservations.Ends.{Ends, Holds, continue-Ends, or_rollback-Ends}
use go_grpc_http.Order.Reservations.Place.{AllReserved, reserve_items-Ends}

-- the quantity of a product in a request
unfoldable pub requested : String → List ItemRequest → ℤ
requested j [] = pos 0
requested j (item ∷ items) =
    let rest = requested j items in if j == item.product_id then item.quantity +ℤ rest else rest

positive_of_test :
    (item : ItemRequest)
    → (item.product_id == "" || leb_ℤ item.quantity (pos 0)) ≡ false
    → pos 0 <ℤ item.quantity
positive_of_test item h = ground (arith, h)

checked_items-ArePositive :
    (items : List ItemRequest) (copied : List OrderItem)
    → checked_items items ≡ ok copied
    → ArePositive copied × ((j : String) → ordered j copied ≡ requested j items)
unfolding checked_items ordered requested
checked_items-ArePositive [] copied h =
    let e : [] ≡ copied = ground (arith, h) in rw (← e) (tt, λ j. refl)
checked_items-ArePositive (item ∷ items) copied h =
    elim (Bool-cases (item.product_id == "" || leb_ℤ item.quantity (pos 0))) [
      | inl bad ↦ absurd (ground (arith, bad, h))
      | inr good ↦ elim (Result-cases (checked_items items)) [
        | inr (e, rest) ↦ absurd (ground (arith, good, rest, h))
        | inl (others, rest) ↦
            let (positive, sums) = checked_items-ArePositive items others rest in
            let first : OrderItem = record {
              product_id = item.product_id;
              product_name = "";
              quantity = item.quantity;
              price_cents = pos 0;
            } in
            let e : first ∷ others ≡ copied = ground (arith, good, rest, h) in
            rw (← e) ((positive_of_test item good, positive), λ j. rw (sums j) refl)
      ]
    ]

module _ {P R : Type 0} (d : Services P R) (stock : String → P → Option ℤ) (IsValid : P → Type 0)
    (law : IsLedger d.products stock IsValid) (up : (n : ℕ) → d.env.outcome n ≡ done) where
  -- What PlaceOrder took, from the state of the products before it.
  abbrev Placed : P → (String → ℤ) → Order → P → Type 0
  Placed before total order p =
      (j : String) → stock j before ≡ Option.map (λ s. s +ℤ total j) (stock j p)

  Placed-of_held :
      (before : P) (total : String → ℤ) (taken : List OrderItem) (order : Order) (p : P)
      → Took stock taken before p
      → ((j : String) → ordered j taken ≡ total j)
      → Placed before total order p
  Placed-of_held before total taken order p took sums j =
      took j ∙ ap (λ k. Option.map (λ s. s +ℤ k) (stock j p)) (sums j)

  -- From the answer of the aggregate on, the products stay as they are, or are rolled back.
  place_rest-Ends :
      (before : P) (total : String → ℤ) (taken : List OrderItem) (order : Order)
      (w : World (OrderState P R))
      → IsValid before
      → ArePositive taken
      → ((j : String) → ordered j taken ≡ total j)
      → Holds d stock IsValid law up before taken w.state.products
      → Ends d stock IsValid law up before (Placed before total) (place_rest d taken order w)
  place_rest-Ends before total taken order w valid all asked held =
      let Kept : OrderState P R → Type 0 =
        λ s. Holds d stock IsValid law up before taken s.products in
      let stored = (append-Keeps d Kept (λ s rows k. k) order.changes).at w held in
      continue-Ends d stock IsValid law up before
        (λ (unit : Unit {0}) p. Holds d stock IsValid law up before taken p) (Placed before total)
        (λ _. handle (publish d order.changes) λ _. pure order) _ _
        (or_rollback-Ends d stock IsValid law up before taken "persist events: "
          (append d order.changes) w _ valid all (λ unit h. stored) (λ e h. stored))
        λ unit w1 held1.
          let after = (publish-Keeps d Kept (λ s sent k. k) order.changes).at w1 held1 in
          Placed-of_held before total taken order (publish d order.changes w1).1.state.products
            after.0 asked

  command-Ends :
      (user_id : String) (items : List OrderItem) (currency : String) (w : World (OrderState P R))
      (total : String → ℤ)
      → IsValid w.state.products
      → ArePositive items
      → ((j : String) → ordered j items ≡ total j)
      → Ends d stock IsValid law up w.state.products
          (Placed w.state.products total)
          (Command.place_order d user_id items currency w)
  unfolding Command.place_order ordered
  command-Ends user_id items currency w total valid positive sums =
      let before = w.state.products in
      continue-Ends d stock IsValid law up before (AllReserved d stock IsValid law up before total)
        (Placed before total) _ _ _
        (reserve_items-Ends d stock IsValid law up [] items before total w valid tt positive
          (λ j. +ℤ_zero_left (ordered j items) ∙ sums j)
          ((λ j. sym (with_nothing (stock j before))), valid))
        λ taken w1 (held, all, asked).
          let w2 : World (OrderState P R) = record w1 { calls = w1.calls + 1 + 1 } in
          let answer =
            Aggregate.place_order d.json (d.env.now w1.calls) (d.env.uuid (w1.calls + 1)) user_id
              taken currency new_order in
          let m = or_rollback d taken "place order: " (lift answer) in
          continue-Ends d stock IsValid law up before
            (λ (o : Order) p. Holds d stock IsValid law up before taken p) (Placed before total)
            (place_rest d taken) (m w2).0 (m w2).1
            (or_rollback-Ends d stock IsValid law up before taken "place order: " (lift answer) w2 _
              valid all (λ order h. held) (λ e h. held))
            λ order w3 held3. place_rest-Ends before total taken order w3 valid all asked held3

  restored :
      (before : P) (total : String → ℤ) (x : Result String Order × World (OrderState P R))
      {e : String}
      → x.0 ≡ err e
      → Ends d stock IsValid law up before (Placed before total) x
      → (j : String) → stock j x.1.state.products ≡ stock j before
  restored before total (ok o, w) h ends j = absurd (ground (arith, h))
  restored before total (err e, w) h ends j = ends j

  taken_all :
      (before : P) (total : String → ℤ) (x : Result String Order × World (OrderState P R))
      {o : Order}
      → x.0 ≡ ok o
      → Ends d stock IsValid law up before (Placed before total) x
      → (j : String) → stock j before ≡ Option.map (λ s. s +ℤ total j) (stock j x.1.state.products)
  taken_all before total (ok o, w) h ends j = ends j
  taken_all before total (err e, w) h ends j = absurd (ground (arith, h))

  -- PlaceOrder is all or nothing for the stocks: while calls go through, with a product service
  -- that keeps its ledger and is in a valid state, a PlaceOrder request that is answered with
  -- success has taken from each product exactly the quantity that it asks for, and one that is
  -- answered with an error has left every stock as it was.
  pub place_order_all_or_nothing :
      (req : PlaceOrderRequest) (w : World (OrderState P R)) (j : String)
      → IsValid w.state.products
      → ((reply : PlaceOrderResponse) × ((place_order d req w).0 ≡ ok reply)
          × (stock j w.state.products
              ≡ Option.map
                  (λ s. s +ℤ requested j req.items)
                  (stock j (place_order d req w).1.state.products)))
        ⊎ ((e : Status) × ((place_order d req w).0 ≡ err e)
            × (stock j (place_order d req w).1.state.products ≡ stock j w.state.products))
  unfolding place_order
  place_order_all_or_nothing req w j valid =
      elim (Bool-cases (req.user_id == "" || is_empty req.items)) [
        | inl bad ↦ rw bad (inr (_, refl, refl))
        | inr good ↦ elim (Result-cases (checked_items req.items)) [
          | inr (e, h) ↦ rw (good, h) (inr (e, refl, refl))
          | inl (items, h) ↦
              let m = Command.place_order d req.user_id items (or_usd req.currency) in
              let (positive, sums) = checked_items-ArePositive req.items items h in
              let total = λ (k : String). requested k req.items in
              let ends =
                command-Ends req.user_id items (or_usd req.currency) w total valid positive sums in
              elim (Result-cases (m w).0) [
                | inr (e, h') ↦
                    rw (good, h, h')
                      (inr (_, refl, restored w.state.products total (m w) h' ends j))
                | inl (o, h') ↦
                    rw (good, h, h')
                      (inl (_, refl, taken_all w.state.products total (m w) h' ends j))
              ]
        ]
      ]
