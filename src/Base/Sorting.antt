-- ===== src/Base/Sorting.antt =====
-- `ORDER BY` on a key that no two rows share gives one order, whatever the order of the scan is.
use go_grpc_http.Base.{ℕ, zero, suc, ◌≡◌, ◌≢◌, refl, sym, ap, ◌∙◌, List, [], ◌∷◌, arith}
use go_grpc_http.Base.Sql.{insert_at, scanned, insert_desc, order_desc}

module _ {A : Type 0} (key : A → ℕ) where
  abbrev DiffersFrom : A → List A → Type 0
  DiffersFrom x [] = Unit
  DiffersFrom x (y ∷ ys) = (key x ≢ key y) × DiffersFrom x ys

  -- No two rows have one key.
  abbrev pub HasDistinct : List A → Type 0
  HasDistinct [] = Unit
  HasDistinct (x ∷ xs) = DiffersFrom x xs × HasDistinct xs

  insert_desc_comm :
      (x y : A) (zs : List A)
      → key x ≢ key y
      → insert_desc key x (insert_desc key y zs) ≡ insert_desc key y (insert_desc key x zs)
  unfolding insert_desc
  insert_desc_comm x y [] ne = ground (arith, ne)
  insert_desc_comm x y (z ∷ zs) ne = ground (arith, ne, insert_desc_comm x y zs ne)

  order_desc-insert_at :
      (n : ℕ) (x : A) (ys : List A)
      → DiffersFrom x ys
      → order_desc key (insert_at n x ys) ≡ insert_desc key x (order_desc key ys)
  unfolding order_desc
  order_desc-insert_at n x [] ne = refl
  order_desc-insert_at zero x (y ∷ ys) ne = refl
  order_desc-insert_at (suc n) x (y ∷ ys) (ne, others) =
      ap (insert_desc key y) (order_desc-insert_at n x ys others)
      ∙ sym (insert_desc_comm x y (order_desc key ys) ne)

  insert_at-DiffersFrom :
      (n : ℕ) (x y : A) (zs : List A)
      → key x ≢ key y
      → DiffersFrom x zs
      → DiffersFrom x (insert_at n y zs)
  insert_at-DiffersFrom n x y [] ne others = (ne, tt)
  insert_at-DiffersFrom zero x y (z ∷ zs) ne others = (ne, others)
  insert_at-DiffersFrom (suc n) x y (z ∷ zs) ne (here, others) =
      (here, insert_at-DiffersFrom n x y zs ne others)

  scanned-DiffersFrom :
      (ns : List ℕ) (x : A) (ys : List A) → DiffersFrom x ys → DiffersFrom x (scanned ns ys)
  scanned-DiffersFrom [] x ys others = others
  scanned-DiffersFrom (n ∷ ns) x [] others = tt
  scanned-DiffersFrom (n ∷ ns) x (y ∷ ys) (ne, others) =
      insert_at-DiffersFrom n x y (scanned ns ys) ne (scanned-DiffersFrom ns x ys others)

  pub order_desc-scanned :
      (ns : List ℕ) (xs : List A)
      → HasDistinct xs
      → order_desc key (scanned ns xs) ≡ order_desc key xs
  unfolding order_desc
  order_desc-scanned [] xs distinct = refl
  order_desc-scanned (n ∷ ns) [] distinct = refl
  order_desc-scanned (n ∷ ns) (x ∷ xs) (ne, distinct) =
      order_desc-insert_at n x (scanned ns xs) (scanned-DiffersFrom ns x xs ne)
      ∙ ap (insert_desc key x) (order_desc-scanned ns xs distinct)
