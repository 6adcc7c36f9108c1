-- ===== src/User/Service.antt =====
-- internal/user/service/user_service.go. bcrypt (golang.org/x/crypto) is a parameter.
use go_grpc_http.Base.{ℕ, String, ◌≡◌, Bool, true, Option, none, some, if◌then◌else◌}
use go_grpc_http.Base.Action.{
  Result, ok, Env, Time, Bytes, pure, fail, lift, draw, call, exec, wrapping, ◌>>=◌, ◌>>◌,
}
use go_grpc_http.Base.Base64.{encode_base64}
use go_grpc_http.Auth.Jwt.{JwtManager, generate}
use go_grpc_http.User.Model.{User}
use go_grpc_http.User.Repository.{Query, get_by_id, get_by_email, create, update}

-- `generate_from_password n` draws its salt at the call of that number.
pub record Bcrypt : Type 0 where
  pub generate_from_password : ℕ → String → Result String String
  pub matches : String → String → Bool

-- A hash matches the password that it was made from.
pub record IsHash (b : Bcrypt) : Type 0 where
  pub matches_own :
      (n : ℕ) (password : String) {hash : String}
      → b.generate_from_password n password ≡ ok hash
      → b.matches hash password ≡ true

pub record Services : Type 0 where
  pub env : Env
  pub jwt : JwtManager
  pub bcrypt : Bcrypt
  pub random : ℕ → Bytes

abbrev pub or_user_not_found : Option User → Query User
or_user_not_found none = fail "user not found"
or_user_not_found (some u) = pure u

abbrev pub invalid_credentials : {A : Type 0} → Query A
invalid_credentials = fail "invalid credentials"

abbrev pub or_invalid : Option User → Query User
or_invalid none = invalid_credentials
or_invalid (some u) = pure u

abbrev pub require_unregistered : Option User → Query Unit
require_unregistered none = pure tt
require_unregistered (some u) = fail "email already registered"

-- the row of a registration
abbrev pub new_user : String → String → String → String → String → String → Time → User
new_user id email hash first_name last_name auth_token now = record {
  id = id;
  email = email;
  password_hash = hash;
  first_name = first_name;
  last_name = last_name;
  auth_token = auth_token;
  created_at = now;
  updated_at = now;
}

abbrev pub renamed : String → String → Time → User → User
renamed first_name last_name now user = record user {
  first_name = first_name;
  last_name = last_name;
  updated_at = now;
}

module _ (d : Services) where
  -- `rand.Read` of 32 bytes, which may fail
  unfoldable pub generate_auth_token : Query String
  unfolding call encode_base64
  generate_auth_token = do
    n ← draw (λ n. n)
    bytes ← exec d.env (λ rows. (d.random n, rows))
    pure (encode_base64 bytes)

  unfoldable pub register : String → String → String → String → Query User
  unfolding get_by_email generate_auth_token create
  register email password first_name last_name = do
    existing ← wrapping "check existing user: " (get_by_email d.env email)
    require_unregistered existing
    n ← draw (λ n. n)
    hash ← wrapping "hash password: " (lift (d.bcrypt.generate_from_password n password))
    auth_token ← wrapping "generate auth token: " generate_auth_token
    now ← draw d.env.now
    id ← draw d.env.uuid
    let user = new_user id email hash first_name last_name auth_token now
    wrapping "create user: " (create d.env user)
    pure user

  abbrev check_password : String → User → Query Unit
  check_password password u =
      if d.bcrypt.matches u.password_hash password then pure tt else invalid_credentials

  unfoldable pub login : String → String → Query (String × String × ℕ)
  unfolding get_by_email generate
  login email password = do
    found ← wrapping "get user: " (get_by_email d.env email)
    user ← or_invalid found
    check_password password user
    signed ← wrapping "generate token: " (generate d.jwt d.env user.id user.email user.auth_token)
    pure (signed.0, user.id, signed.1)

  unfoldable pub get_user : String → Query User
  unfolding get_by_id
  get_user id = do found ← wrapping "get user: " (get_by_id d.env id); or_user_not_found found

  unfoldable pub update_user : String → String → String → Query User
  unfolding get_by_id update
  update_user id first_name last_name = do
    found ← wrapping "get user: " (get_by_id d.env id)
    user ← or_user_not_found found
    now ← draw d.env.now
    let changed = renamed first_name last_name now user
    wrapping "update user: " (update d.env changed)
    pure changed
