-- ===== src/User/Repository.antt =====
-- internal/user/repository/postgres.go, over the users table of cmd/user-service/main.go and
-- migrations/user. The state is the table.
pub mod Keys
use go_grpc_http.Base.{
  String, List, [], ◌∷◌, ◌++◌, Bool, true, false, not, ◌&&◌, Option, none, some, if◌then◌else◌,
}
use go_grpc_http.Base.Text.{◌==◌, fits}
use go_grpc_http.Base.Action.{Result, ok, err, Env, Action, pure, fail, call, exec, wrapping, ◌>>=◌}
use go_grpc_http.Base.Sql.{find_row, update_rows, unique_violation, value_too_long}
use go_grpc_http.User.Model.{User}

abbrev pub Table : Type 0
Table = List User

abbrev pub Query : Type 0 → Type 0
Query A = Action String Table A

abbrev pub has_id : String → User → Bool
has_id id u = u.id == id

abbrev pub has_email : String → User → Bool
has_email email u = u.email == email

-- the unique index on auth_token leaves the empty one out
abbrev has_token : String → User → Bool
has_token token u = u.auth_token == token && not (token == "")

abbrev pub is_none : {A : Type 0} → Option A → Bool
is_none none = true
is_none (some a) = false

unfoldable pub insert_user : User → Table → Result String Table
unfolding find_row
insert_user u rows =
    if not (fits 36 u.id && fits 255 u.email && fits 100 u.first_name && fits 100 u.last_name)
    then err value_too_long
    else if is_none (find_row (has_id u.id) rows)
        && is_none (find_row (has_email u.email) rows)
        && is_none (find_row (has_token u.auth_token) rows)
    then ok (rows ++ u ∷ [])
    else err unique_violation

abbrev pub stored : Table → Result String Table → Result String Unit × Table
stored rows (ok rows') = (ok tt, rows')
stored rows (err e) = (err e, rows)

abbrev pub set_names : User → User → User
set_names u row = record row {
  first_name = u.first_name;
  last_name = u.last_name;
  updated_at = u.updated_at;
}

abbrev pub fits_names : User → Bool
fits_names u = fits 100 u.first_name && fits 100 u.last_name

-- UPDATE users SET …; a name that does not fit its column refuses the statement if a row matches
abbrev pub update_names : User → Table → Result String (Option User) × Table
update_names u rows = elim (find_row (has_id u.id) rows) [
  | none ↦ (ok none, rows)
  | some row ↦
      if fits_names u
      then (ok (some row), update_rows (has_id u.id) (set_names u) rows)
      else (err value_too_long, rows)
]

abbrev pub require_row : Option User → Query Unit
require_row none = fail "user not found"
require_row (some u) = pure tt

module _ (env : Env) where
  unfoldable pub create : User → Query Unit
  unfolding insert_user call
  create u = wrapping "insert user: " (call env (λ rows. stored rows (insert_user u rows)))

  unfoldable pub get_by_id : String → Query (Option User)
  unfolding find_row call
  get_by_id id = wrapping "get user by id: " (exec env (λ rows. (find_row (has_id id) rows, rows)))

  unfoldable pub get_by_email : String → Query (Option User)
  unfolding find_row call
  get_by_email email =
      wrapping "get user by email: " (exec env (λ rows. (find_row (has_email email) rows, rows)))

  unfoldable pub update : User → Query Unit
  unfolding find_row update_rows call
  update u = do found ← wrapping "update user: " (call env (update_names u)); require_row found
