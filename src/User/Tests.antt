-- ===== src/User/Tests.antt =====
-- The user service's handlers on sample requests.
use go_grpc_http.Base.{◌∷◌, ◌≡◌, refl, [], none}
use go_grpc_http.Base.Text.{◌==◌}
use go_grpc_http.Base.Action.{World, ok, err, Env, done}
use go_grpc_http.Base.Base64.{encode_base64}
use go_grpc_http.Grpc.{status, already_exists}
use go_grpc_http.User.Service.{Services}
use go_grpc_http.User.Model.{User}
use go_grpc_http.User.Repository.{Table, insert_user}
use go_grpc_http.User.Server.{RegisterRequest, register}
use go_grpc_http.User.Registration.{register_once}

abbrev calm : Env
calm = record {
  outcome = λ n. done;
  now = λ n. n;
  uuid = λ n. "u-1";
  serial = λ n. n;
  cut = λ n. none;
  scan = λ n. [];
}

abbrev services : Services
services = record {
  env = calm;
  jwt = record {
    library = record {
      sign_hs256 = λ c secret. ok "token";
      parse_unverified = λ token. err "malformed";
      parse_with_claims = λ now token key. err "malformed";
    };
    duration = 3600;
  };
  bcrypt = record {
    generate_from_password = λ n password. ok password;
    matches = λ hash password. hash == password;
  };
  random = λ n. 1 ∷ 2 ∷ 3 ∷ [];
}

abbrev request : RegisterRequest
request = record {
  email = "ann@example.com";
  password = "secret";
  first_name = "Ann";
  last_name = "Lee";
}

abbrev start : World Table
start = record { calls = 0; state = [] }

abbrev ann : User
ann = record {
  id = "u-1";
  email = "ann@example.com";
  password_hash = "secret";
  first_name = "Ann";
  last_name = "Lee";
  auth_token = "AQID";
  created_at = 4;
  updated_at = 4;
}

-- the table that the registration of the request leaves
abbrev once : Table
once = ann ∷ []

accepting : insert_user ann [] ≡ ok once
unfolding insert_user
accepting = refl

register_once_example :
    ((register services request start).0
      ≡ ok (record {
        user_id = "u-1";
        email = "ann@example.com";
        auth_token = "AQID";
        created_at = 4;
      }))
    × ((register services request start).1.state ≡ once)
    × ((register services request (register services request start).1).0
        ≡ err (status already_exists "email already registered"))
    × ((register services request (register services request start).1).1.state
        ≡ (register services request start).1.state)
unfolding encode_base64
register_once_example =
    register_once services (λ n. refl) request request "secret" start refl refl refl refl accepting
