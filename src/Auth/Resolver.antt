-- ===== src/Auth/Resolver.antt =====
-- pkg/auth/resolver_db.go and resolver_grpc.go: the secret of a user.
use go_grpc_http.Base.{String, List, Option, none, some, if◌then◌else◌}
use go_grpc_http.Base.Text.{◌⧺◌, ◌==◌}
use go_grpc_http.Base.Action.{Result, ok, err, Env, Action, pure, fail, call, exec, wrapping, ◌>>=◌}
use go_grpc_http.Base.Sql.{find_row}
use go_grpc_http.User.Model.{User}

-- `TokenResolver`: from a user id to the user's auth_token
abbrev pub TokenResolver : Type 0 → Type 0
TokenResolver S = String → Action String S String

abbrev or_user_not_found : {S : Type 0} → Result String (Option User) → Action String S String
or_user_not_found (ok none) = fail "user not found"
or_user_not_found (ok (some u)) = pure u.auth_token
or_user_not_found (err e) = fail ("query auth_token: " ⧺ e)

module _ {S : Type 0} (env : Env) where
  -- DBTokenResolver, over the users table that `users` reads from the state
  unfoldable pub resolve_in_db : (S → List User) → TokenResolver S
  unfolding find_row call
  resolve_in_db users user_id w =
      let (r, w') = exec env (λ s. (find_row (λ u. u.id == user_id) (users s), s)) w in
      or_user_not_found r w'

  abbrev or_no_token : String → Action String S String
  or_no_token token = if token == "" then fail "user has no auth token" else pure token

  -- GRPCTokenResolver: `get_auth_token` is the generated client's call of the user service
  unfoldable pub resolve_by_grpc : (String → S → Result String String × S) → TokenResolver S
  unfolding call
  resolve_by_grpc get_auth_token user_id = do
    token ← wrapping "get auth token from user-service: " (call env (get_auth_token user_id))
    or_no_token token
