-- ===== src/Wiring/Stock.antt =====
-- What a reservation and a release do to the stocks, through the client and while the database answers.
use go_grpc_http.Base.{
  ℕ, ◌+◌, String, ◌≡◌, ◌≢◌, refl, ◌∙◌, Bool, true, false, ◌||◌, Option, none, some, arith, eq_iff,
  inl, inr, ◌⊎◌, if◌then◌else◌, Bool-cases,
}
use go_grpc_http.Base.Text.{◌==◌, contains}
use go_grpc_http.Base.Int.{ℤ, pos, ◌+ℤ◌, ◌-ℤ◌, ◌<ℤ◌, leb_ℤ, is_int32, IsInt32}
use go_grpc_http.Base.Action.{Result, ok, Env, World, done}
use go_grpc_http.Base.Sql.{find_row, update_rows}
use go_grpc_http.Grpc.{Status}
use go_grpc_http.Order.Services.{ProductClient}
use go_grpc_http.Product.Model.{Product}
use go_grpc_http.Product.Repository.{Table, has_id, can_reserve, set_stock}
use go_grpc_http.Product.Repository
use go_grpc_http.Product.Service
use go_grpc_http.Product.Server.{reserve_stock, release_stock}
use go_grpc_http.Product.Stock.Rows.{
  HasUniqueIds, stock_of, by_id, stock-update, other_stock, reserved_id, find-can_reserve, find-id,
}
use go_grpc_http.Wiring.ProductClient.{product_client}
use go_grpc_http.Wiring.Statements.{update-HasUniqueIds, change_stock-cases}

abbrev pub stock_at : String → World Table → Option ℤ
stock_at id w = stock_of id w.state

-- The ids are unique and not empty, and the stocks fit their column.
pub record IsKept (w : World Table) : Type 0 where
  pub unique : HasUniqueIds w.state
  pub named : stock_at "" w ≡ none
  pub fits : (id : String) (s : ℤ) → stock_at id w ≡ some s → IsInt32 s

-- From `before` to `after`, the stock of one product became `s`.
abbrev pub SetsStock : String → ℤ → World Table → World Table → Type 0
SetsStock id s before after =
    (j : String) → stock_at j after ≡ (if j == id then some s else stock_at j before)

pub IsKept-of_set :
    (id : String) (s t : ℤ) (before after : World Table)
    → stock_at id before ≡ some t
    → IsInt32 s
    → HasUniqueIds after.state
    → SetsStock id s before after
    → IsKept before
    → IsKept after
IsKept-of_set id s t before after found small unique sets kept = record {
  unique = unique;
  named = elim (Bool-cases ("" == id)) [
    | inl same ↦
        let e : stock_at "" before ≡ some t = rw ((eq_iff "" id).0 same) found in
        absurd (ground (arith, e, kept.named))
    | inr other ↦ sets "" ∙ rw other kept.named
  ];
  fits = λ j u h. elim (Bool-cases (j == id)) [
    | inl same ↦ let e = rw (sets j, same) at h in ground (arith, e, small)
    | inr other ↦ kept.fits j u (let e = rw (sets j, other) at h in e)
  ];
}

pub IsKept-of_same :
    (before after : World Table) → after.state ≡ before.state → IsKept before → IsKept after
IsKept-of_same before after same kept = record {
  unique = rw same kept.unique;
  named = rw same kept.named;
  fits = λ j u h. kept.fits j u (rw same at h);
}

IsInt32_of_test : (z : ℤ) → is_int32 z ≡ true → IsInt32 z
IsInt32_of_test z h = ground arith

-- An update of the one row of an id, as an equation for the stock of every id.
set_of_update :
    (id : String) (test : Product → Bool) (f : ℤ → ℤ) (now : ℕ) (rows : Table) (row : Product)
    (j : String)
    → ((r : Product) → test r ≡ true → r.id ≡ id)
    → find_row (has_id id) rows ≡ some row
    → test row ≡ true
    → stock_of j (update_rows test (λ r. set_stock now (f r.stock_quantity) r) rows)
      ≡ (if j == id then some (f row.stock_quantity) else stock_of j rows)
set_of_update id test f now rows row j named found hit =
    by_id id j (f row.stock_quantity) rows
      (update_rows test (λ r. set_stock now (f r.stock_quantity) r) rows)
      (stock-update id test f now rows ∙ rw (found, hit) refl)
      λ other. stock-update j test f now rows ∙ other_stock id j test f rows named other

module _ (env : Env) (text : Status → String) (up : (n : ℕ) → env.outcome n ≡ done) where
  abbrev client : ProductClient (World Table)
  client = product_client env text

  -- A call that set the stock of one product.
  abbrev pub Sets : String → (ℤ → ℤ) → World Table → Result String Bool × World Table → Type 0
  Sets id f w x =
      (x.0 ≡ ok true)
      × (s : ℤ) × (stock_at id w ≡ some s)
      × (IsInt32 (f s))
      × (HasUniqueIds x.1.state)
      × SetsStock id (f s) w x.1

  -- A call that left the table.
  abbrev pub Leaves : World Table → Result String Bool × World Table → Type 0
  Leaves w x = (x.0 ≢ ok true) × (x.1.state ≡ w.state)

  pub reserve_stock-cases :
      (id : String) (q : ℤ) (w : World Table)
      → IsKept w
      → Sets id (λ s. s -ℤ q) w (client.reserve_stock id q w)
        ⊎ Leaves w (client.reserve_stock id q w)
  unfolding reserve_stock Service.reserve_stock Repository.reserve_stock
  reserve_stock-cases id q w kept = elim (Bool-cases (id == "" || leb_ℤ q (pos 0))) [
    | inl bad ↦ inr (rw bad (λ e. absurd (ground (arith, e))), rw bad refl)
    | inr good ↦
        let w1 : World Table = record w { calls = w.calls + 1 } in
        elim (change_stock-cases env up (can_reserve id q) (λ s. s -ℤ q) "reserve stock: "
          "insufficient stock" (env.now w.calls) w1) [
            | inl (row, found, fits, answer, left) ↦
                let (own, enough, named) = find-can_reserve id q w.state row kept.unique found in
                let hit : can_reserve id q row ≡ true =
                  ground (arith, enough, (eq_iff row.id id).1 named) in
                inl (
                  rw (good, answer) refl,
                  row.stock_quantity,
                  rw own refl,
                  IsInt32_of_test (row.stock_quantity -ℤ q) fits,
                  rw (good, answer, left)
                      (update-HasUniqueIds (can_reserve id q) (λ s. s -ℤ q) (env.now w.calls)
                        w.state kept.unique),
                  λ j.
                      rw (good, answer, left)
                        (set_of_update id (can_reserve id q) (λ s. s -ℤ q) (env.now w.calls) w.state
                          row j (λ r. reserved_id id q r) own hit),
                )
            | inr (missing, e, answer, left) ↦ elim (Bool-cases (contains e "insufficient")) [
              | inl short ↦ inr (
                rw (good, answer, short) (λ x. absurd (ground (arith, x))),
                rw (good, answer, short) left,
              )
              | inr failed ↦ inr (
                rw (good, answer, failed) (λ x. absurd (ground (arith, x))),
                rw (good, answer, failed) left,
              )
            ]
          ]
  ]

  pub release_stock-cases :
      (id : String) (q : ℤ) (w : World Table)
      → IsKept w
      → pos 0 <ℤ q
      → Sets id (λ s. s +ℤ q) w (client.release_stock id q w)
        ⊎ (Leaves w (client.release_stock id q w)
            × ((s : ℤ) → stock_at id w ≡ some s → is_int32 (s +ℤ q) ≡ false))
  unfolding release_stock Service.release_stock Repository.release_stock
  release_stock-cases id q w kept positive = elim (Bool-cases (id == "" || leb_ℤ q (pos 0))) [
    | inl bad ↦
        let empty : id ≡ "" = (eq_iff id "").0 (ground arith) in
        inr (
          (rw bad (λ e. absurd (ground (arith, e))), rw bad refl),
          λ s h. let h' = rw (empty, kept.named) at h in absurd (ground (arith, h')),
        )
    | inr good ↦
        let w1 : World Table = record w { calls = w.calls + 1 } in
        elim (change_stock-cases env up (has_id id) (λ s. s +ℤ q) "release stock: "
          "product not found" (env.now w.calls) w1) [
            | inl (row, found, fits, answer, left) ↦ inl (
              rw (good, answer) refl,
              row.stock_quantity,
              rw found refl,
              IsInt32_of_test (row.stock_quantity +ℤ q) fits,
              rw (good, left)
                  (update-HasUniqueIds (has_id id) (λ s. s +ℤ q) (env.now w.calls) w.state
                    kept.unique),
              λ j.
                  rw (good, left)
                    (set_of_update id (has_id id) (λ s. s +ℤ q) (env.now w.calls) w.state row j
                      (λ r hit. (eq_iff r.id id).0 hit) found
                      ((eq_iff row.id id).1 (find-id id w.state row found))),
            )
            | inr (inl missing, e, answer, left) ↦ inr (
              (rw (good, answer) (λ x. absurd (ground (arith, x))), rw (good, left) refl),
              λ s h. let h' = rw missing at h in absurd (ground (arith, h')),
            )
            | inr (inr (row, found, wide), e, answer, left) ↦ inr (
              (rw (good, answer) (λ x. absurd (ground (arith, x))), rw (good, left) refl),
              λ s h. let h' = rw found at h in ground (arith, h', wide),
            )
          ]
  ]
