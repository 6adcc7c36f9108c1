-- ===== src/User/Repository/Keys.antt =====
-- internal/user: the keys of the users table.
use go_grpc_http.Base.{◌≡◌, [], ◌∷◌, ◌++◌, Bool, false, none, arith}
use go_grpc_http.Base.Action.{ok}
use go_grpc_http.Base.Sql.{find_row}
use go_grpc_http.User.Model.{User}
use go_grpc_http.User.Repository.{Table, has_id, has_email, insert_user}

-- A row that no test finds does not pass it.
pub find_row-miss :
    (test : User → Bool) (x : User) (rows : Table)
    → find_row test (x ∷ rows) ≡ none
    → (test x ≡ false) × (find_row test rows ≡ none)
unfolding find_row
find_row-miss test x rows h = ground arith

-- An accepted row is new by its id and its email, and goes to the end.
pub insert_user-free :
    (u : User) (rows rows' : Table)
    → insert_user u rows ≡ ok rows'
    → (rows ++ u ∷ [] ≡ rows')
      × (find_row (has_id u.id) rows ≡ none)
      × (find_row (has_email u.email) rows ≡ none)
unfolding insert_user
insert_user-free u rows rows' e = ground arith
