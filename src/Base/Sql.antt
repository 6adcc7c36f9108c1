-- ===== src/Base/Sql.antt =====
-- What the SQL of the repositories relies on in PostgreSQL: result rows, column widths, the texts
-- of refusals.
use Prim.Native.Nat.{ℕ, zero, suc}
use Prim.Native.String.{String}
use mathlib.Core.Option.{Option, none, some}
use mathlib.Core.List.{List, [], ◌∷◌}
use mathlib.Core.Bool.{Bool}
use go_grpc_http.Base.Tests.{ltb, if◌then◌else◌}

module _ {ℓ} {A : Type ℓ} where
  abbrev pub take : ℕ → List A → List A
  take n [] = []
  take zero (x ∷ xs) = []
  take (suc n) (x ∷ xs) = x ∷ take n xs

  -- The rows that a loop over `rows.Next` sees, when the connection may drop after some of them.
  abbrev pub cut_rows : Option ℕ → List A → List A
  cut_rows none rows = rows
  cut_rows (some n) rows = take n rows

  -- `WHERE` over the rows of a table
  unfoldable pub where_rows : (A → Bool) → List A → List A
  where_rows test [] = []
  where_rows test (row ∷ rows) =
      let rest = where_rows test rows in if test row then row ∷ rest else rest

  -- The first row that a query by key returns; `none` is pgx.ErrNoRows.
  unfoldable pub find_row : (A → Bool) → List A → Option A
  find_row test [] = none
  find_row test (row ∷ rows) = if test row then some row else find_row test rows

abbrev pub unique_violation : String
unique_violation = "ERROR: duplicate key value violates unique constraint (SQLSTATE 23505)"

abbrev pub value_too_long : String
value_too_long = "ERROR: value too long for type character varying (SQLSTATE 22001)"

abbrev pub out_of_range : String
out_of_range = "ERROR: integer out of range (SQLSTATE 22003)"

module _ {ℓ} {A : Type ℓ} where
  -- `UPDATE … SET … WHERE` over the rows of a table
  unfoldable pub update_rows : (A → Bool) → (A → A) → List A → List A
  update_rows test f [] = []
  update_rows test f (row ∷ rows) = (if test row then f row else row) ∷ update_rows test f rows

  abbrev pub drop : ℕ → List A → List A
  drop n [] = []
  drop zero (x ∷ xs) = x ∷ xs
  drop (suc n) (x ∷ xs) = drop n xs

  abbrev pub insert_at : ℕ → A → List A → List A
  insert_at n x [] = x ∷ []
  insert_at zero x (y ∷ ys) = x ∷ y ∷ ys
  insert_at (suc n) x (y ∷ ys) = y ∷ insert_at n x ys

  -- The rows in the order in which a scan meets them: each is put at its position among those behind
  -- it, so that every order of the rows is the order of some scan.
  abbrev pub scanned : List ℕ → List A → List A
  scanned [] xs = xs
  scanned (n ∷ ns) [] = []
  scanned (n ∷ ns) (x ∷ xs) = insert_at n x (scanned ns xs)

  -- `ORDER BY key DESC` of the rows that a scan gave, an insertion sort. Rows of one key keep the
  -- order of the scan.
  unfoldable pub insert_desc : (A → ℕ) → A → List A → List A
  insert_desc key x [] = x ∷ []
  insert_desc key x (y ∷ ys) =
      let later = y ∷ insert_desc key x ys in if ltb (key x) (key y) then later else x ∷ y ∷ ys

  unfoldable pub order_desc : (A → ℕ) → List A → List A
  unfolding insert_desc
  order_desc key [] = []
  order_desc key (x ∷ xs) = insert_desc key x (order_desc key xs)
