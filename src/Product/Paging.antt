-- ===== src/Product/Paging.antt =====
-- internal/product/repository/postgres.go: the pages of List.
use go_grpc_http.Base.{
  ℕ, zero, suc, ◌+◌, ◌*◌, ◌≤◌, String, ◌≡◌, refl, sym, ap, ◌∙◌, [], ◌∷◌, ◌++◌, none, arith, length,
}
use go_grpc_http.Base.Int.{pos, ◌-ℤ◌, ◌*ℤ◌, wrap32_of_IsInt32, int32_max}
use go_grpc_http.Base.Action.{Result, ok, err, Env, World, done, call}
use go_grpc_http.Base.Sql.{take, drop, scanned, insert_desc, order_desc}
use go_grpc_http.Base.Sorting.{HasDistinct, order_desc-scanned}
use go_grpc_http.Product.Model.{Product}
use go_grpc_http.Product.Repository.{
  Table, page_offset, page_of, count_rows, clamp_page, clamp_page_size, list_products,
}

-- Taking in two steps.
take-+ : (a b : ℕ) (xs : Table) → take (a + b) xs ≡ take a xs ++ take b (drop a xs)
take-+ a b [] = refl
take-+ zero b (x ∷ xs) = let e : 0 + b ≡ b = omega arith in rw e refl
take-+ (suc a) b (x ∷ xs) =
    let e : suc a + b ≡ suc (a + b) = omega arith in rw e (ap (λ l. x ∷ l) (take-+ a b xs))

take_none : (xs : Table) → take 0 xs ≡ []
take_none [] = refl
take_none (x ∷ xs) = refl

take_all : (n : ℕ) (xs : Table) → length xs ≤ n → take n xs ≡ xs
take_all n [] h = refl
take_all zero (x ∷ xs) h = absurd (omega (arith, h))
take_all (suc n) (x ∷ xs) h = ap (λ l. x ∷ l) (take_all n xs (omega (arith, h)))

length-insert_desc :
    (key : Product → ℕ) (x : Product) (ys : Table) → length (insert_desc key x ys) ≡ suc (length ys)
unfolding insert_desc
length-insert_desc key x [] = refl
length-insert_desc key x (y ∷ ys) = ground (arith, length-insert_desc key x ys)

length-order_desc : (key : Product → ℕ) (xs : Table) → length (order_desc key xs) ≡ length xs
unfolding order_desc
length-order_desc key [] = refl
length-order_desc key (x ∷ xs) =
    length-insert_desc key x (order_desc key xs) ∙ ap suc (length-order_desc key xs)

minus_one : (k : ℕ) → pos (suc k) -ℤ pos 1 ≡ pos k
unfolding ◌-ℤ◌
minus_one k = ground arith

times_pos : (k s : ℕ) → pos k *ℤ pos s ≡ pos (k * s)
unfolding ◌*ℤ◌
times_pos k s = ground arith

page_offset_exact :
    (k s : ℕ) → k ≤ int32_max → k * s ≤ int32_max → page_offset (pos (suc k)) (pos s) ≡ pos (k * s)
unfolding page_offset
page_offset_exact k s small fits =
    rw (minus_one k, wrap32_of_IsInt32 (pos k) (small, omega arith), times_pos k s)
      (wrap32_of_IsInt32 (pos (k * s)) (fits, omega arith))

clamp_page-suc : (k : ℕ) → clamp_page (pos (suc k)) ≡ pos (suc k)
clamp_page-suc k = ground arith

clamp_page_size_small : (s : ℕ) → 1 ≤ s → s ≤ 100 → clamp_page_size (pos s) ≡ pos s
clamp_page_size_small s some_size small = ground arith

abbrev created_at : Product → ℕ
created_at p = p.created_at

-- the table as `List` sorts it
abbrev sorted : Table → Table
sorted = order_desc created_at

module _ (env : Env) (up : (n : ℕ) → env.outcome n ≡ done)
    (whole : (n : ℕ) → env.cut n ≡ none) where
  list_products_exact :
      (k s : ℕ) (w : World Table)
      → 1 ≤ s
      → s ≤ 100
      → k ≤ int32_max
      → k * s ≤ int32_max
      → length w.state ≤ int32_max
      → HasDistinct created_at w.state
      → (list_products env (pos (suc k)) (pos s) w).0
        ≡ ok (take s (drop (k * s) (sorted w.state)), length w.state)
  unfolding list_products page_of call
  list_products_exact k s w some_size small near fits few distinct =
      let counted : count_rows w.state ≡ ok (length w.state) = ground (arith, few) in
      let paged : page_of (pos s) (page_offset (pos (suc k)) (pos s))
            (scanned (env.scan (w.calls + 1)) w.state)
          ≡ ok (take s (drop (k * s) (sorted w.state))) =
        rw
          (
            page_offset_exact k s near fits,
            order_desc-scanned created_at (env.scan (w.calls + 1)) w.state distinct,
          )
          refl in
      rw
        (
          clamp_page-suc k,
          clamp_page_size_small s some_size small,
          up w.calls,
          counted,
          whole (w.calls + 1),
          up (w.calls + 1 + 1),
          paged,
        )
        refl

  -- the products of an answer
  abbrev answered : Result String (Table × ℕ) → Table
  answered (ok r) = r.0
  answered (err e) = []

  -- the answers to the requests of the pages 1, …, n, of the size s, one behind the other; the page
  -- k + 1 is asked for at the call `at k`
  unfoldable pub pages : (ℕ → ℕ) → ℕ → ℕ → Table → Table
  unfolding list_products
  pages at zero s rows = []
  pages at (suc n) s rows =
      pages at n s rows
      ++ answered
          (list_products env (pos (suc n)) (pos s) (record { calls = at n; state = rows })).0

  pages-take :
      (at : ℕ → ℕ) (n s : ℕ) (rows : Table)
      → 1 ≤ s
      → s ≤ 100
      → n ≤ int32_max
      → n * s ≤ int32_max
      → length rows ≤ int32_max
      → HasDistinct created_at rows
      → pages at n s rows ≡ take (n * s) (sorted rows)
  unfolding pages
  pages-take at zero s rows some_size small near fits few distinct =
      let e : 0 * s ≡ 0 = omega arith in rw e (sym (take_none (sorted rows)))
  pages-take at (suc n) s rows some_size small near fits few distinct =
      let more : suc n * s ≡ n * s + s = omega arith in
      let before =
        pages-take at n s rows some_size small (omega (arith, near)) (omega (arith, fits, more)) few
          distinct in
      rw
        (
          more,
          before,
          list_products_exact n s (record { calls = at n; state = rows }) some_size small
              (omega (arith, near)) (omega (arith, fits, more)) few distinct,
        )
        (sym (take-+ (n * s) s (sorted rows)))

  -- The pages cover a table whose products have pairwise different times of creation: while calls go
  -- through and queries return all their rows, the pages 1, …, n of a size from 1 to 100 that are
  -- enough for the table, each asked for at any time while the table stays as it is, hold, one behind
  -- the other, exactly the products by their time of creation, the latest first, each row in one
  -- page, whatever the order is in which each query meets the rows. The offsets, and the number of
  -- rows, are below 2^31.
  pub pages_cover :
      (at : ℕ → ℕ) (n s : ℕ) (rows : Table)
      → 1 ≤ s
      → s ≤ 100
      → n ≤ int32_max
      → n * s ≤ int32_max
      → length rows ≤ n * s
      → HasDistinct (λ p. p.created_at) rows
      → pages at n s rows ≡ order_desc (λ p. p.created_at) rows
  pages_cover at n s rows some_size small near fits enough distinct =
      pages-take at n s rows some_size small near fits (omega (arith, enough, fits)) distinct
      ∙ take_all (n * s) (sorted rows) (rw (length-order_desc created_at rows) enough)
