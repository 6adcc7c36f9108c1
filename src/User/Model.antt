-- ===== src/User/Model.antt =====
-- internal/user/model/user.go
use go_grpc_http.Base.{String}
use go_grpc_http.Base.Action.{Time}

pub record User : Type 0 where
  pub id : String
  pub email : String
  pub password_hash : String
  pub first_name : String
  pub last_name : String
  pub auth_token : String
  pub created_at : Time
  pub updated_at : Time
