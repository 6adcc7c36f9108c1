-- ===== src/User/Server.antt =====
-- internal/user/server.go: the gRPC handlers.
use go_grpc_http.Base.{ℕ, String, ◌||◌, if◌then◌else◌}
use go_grpc_http.Base.Text.{◌⧺◌, ◌==◌, contains}
use go_grpc_http.Base.Action.{Time, Action, fail}
use go_grpc_http.Grpc.{
  invalid_argument, not_found, already_exists, unauthenticated, internal, Status, status, answer,
}
use go_grpc_http.User.Model.{User}
use go_grpc_http.User.Repository.{Table}
use go_grpc_http.User.Service.{Services}
use go_grpc_http.User.Service

abbrev pub Reply : Type 0 → Type 0
Reply A = Action Status Table A

pub record RegisterRequest : Type 0 where
  pub email : String
  pub password : String
  pub first_name : String
  pub last_name : String

pub record RegisterResponse : Type 0 where
  pub user_id : String
  pub email : String
  pub auth_token : String
  pub created_at : Time

pub record LoginResponse : Type 0 where
  pub access_token : String
  pub user_id : String
  pub expires_at : ℕ

pub record GetUserResponse : Type 0 where
  pub user_id : String
  pub email : String
  pub first_name : String
  pub last_name : String
  pub created_at : Time
  pub updated_at : Time

pub record UpdateUserResponse : Type 0 where
  pub user_id : String
  pub email : String
  pub first_name : String
  pub last_name : String
  pub updated_at : Time

unfoldable pub register_status : String → Status
unfolding contains
register_status e =
    if contains e "already registered"
    then status already_exists e
    else status internal ("register: " ⧺ e)

unfoldable pub login_status : String → Status
unfolding contains
login_status e =
    if contains e "invalid credentials"
    then status unauthenticated "invalid credentials"
    else status internal ("login: " ⧺ e)

unfoldable pub user_status : String → String → Status
unfolding contains
user_status context e =
    if contains e "not found"
    then status not_found "user not found"
    else status internal (context ⧺ e)

abbrev missing_user_id : Status
missing_user_id = status invalid_argument "user_id is required"

module _ (d : Services) where
  unfoldable pub register : RegisterRequest → Reply RegisterResponse
  unfolding Service.register register_status
  register req =
      if req.email == "" || req.password == ""
      then fail (status invalid_argument "email and password are required")
      else answer
          (λ (u : User). record {
            user_id = u.id;
            email = u.email;
            auth_token = u.auth_token;
            created_at = u.created_at;
          })
          register_status (Service.register d req.email req.password req.first_name req.last_name)

  unfoldable pub login : String → String → Reply LoginResponse
  unfolding Service.login login_status
  login email password =
      if email == "" || password == ""
      then fail (status invalid_argument "email and password are required")
      else answer
          (λ (t : String × String × ℕ). record {
            access_token = t.0;
            user_id = t.1;
            expires_at = t.2;
          })
          login_status (Service.login d email password)

  unfoldable pub get_user : String → Reply GetUserResponse
  unfolding Service.get_user user_status
  get_user user_id =
      if user_id == ""
      then fail missing_user_id
      else answer
          (λ (u : User). record {
            user_id = u.id;
            email = u.email;
            first_name = u.first_name;
            last_name = u.last_name;
            created_at = u.created_at;
            updated_at = u.updated_at;
          })
          (user_status "get user: ") (Service.get_user d user_id)

  unfoldable pub get_auth_token : String → Reply String
  unfolding Service.get_user user_status
  get_auth_token user_id =
      if user_id == ""
      then fail missing_user_id
      else answer (λ (u : User). u.auth_token) (user_status "get user: ")
          (Service.get_user d user_id)

  unfoldable pub update_user : String → String → String → Reply UpdateUserResponse
  unfolding Service.update_user user_status
  update_user user_id first_name last_name =
      if user_id == ""
      then fail missing_user_id
      else answer
          (λ (u : User). record {
            user_id = u.id;
            email = u.email;
            first_name = u.first_name;
            last_name = u.last_name;
            updated_at = u.updated_at;
          })
          (user_status "update user: ") (Service.update_user d user_id first_name last_name)
