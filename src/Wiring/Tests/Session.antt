-- ===== src/Wiring/Tests/Session.antt =====
-- Ann registers, logs in, and asks for her data.
use go_grpc_http.Base.{ℕ, ◌*◌, ◌^◌, ◌≡◌, refl, String, [], ◌∷◌, none, some, arith, eq_iff, true}
use go_grpc_http.Base.Text.{◌==◌, ◌⧺◌}
use go_grpc_http.Base.Action.{ok, World, Action}
use go_grpc_http.Grpc.{Status}
use go_grpc_http.Auth.Interceptor.{Context, unary_auth_interceptor, is_listed}
use go_grpc_http.Auth.Resolver.{resolve_in_db}
use go_grpc_http.Auth.Samples.{ann, library, library-IsSound}
use go_grpc_http.User.Model.{User}
use go_grpc_http.User.Repository.{Table}
use go_grpc_http.User.Service.{Services, IsHash, register, login}
use go_grpc_http.Wiring.Sessions.{login_token_accepted}
use go_grpc_http.Order.Samples.{calm}

abbrev services : Services
services = record {
  env = record calm { now = λ n. 0; uuid = λ n. "u-1" };
  jwt = record { library = library; duration = 100 * 10 ^ 9 };
  bcrypt = record {
    generate_from_password = λ n password. ok password;
    matches = λ hash password. hash == password;
  };
  random = λ n. 1 ∷ 2 ∷ 3 ∷ [];
}

bcrypt_own :
    (n : ℕ) (password hash : String)
    → services.bcrypt.generate_from_password n password ≡ ok hash
    → services.bcrypt.matches hash password ≡ true
bcrypt_own n password hash h = ground (arith, h, (eq_iff hash password).1)

bcrypt-IsHash : IsHash services.bcrypt
bcrypt-IsHash = record { matches_own = λ n password {hash} h. bcrypt_own n password hash h }

abbrev user : User
user = record {
  id = "u-1";
  email = "ann@example.com";
  password_hash = "secret";
  first_name = "Ann";
  last_name = "Lee";
  auth_token = "AQID";
  created_at = 0;
  updated_at = 0;
}

abbrev nobody : World Table
nobody = record { calls = 0; state = [] }

registering : (register services "ann@example.com" "secret" "Ann" "Lee" nobody).0 ≡ ok user
unfolding register
registering = refl

abbrev claims_of : Context → Action Status Table Context
claims_of ctx w = (ok ctx, w)

login_token_accepted_example :
    ((login services "ann@example.com" "secret" (record {
      calls = 20;
      state = (register services "ann@example.com" "secret" "Ann" "Lee" nobody).1.state;
    })).0
      ≡ ok ("AQID", "u-1", 100))
    × (unary_auth_interceptor services.env services.jwt
          (resolve_in_db services.env (λ (rows : Table). rows))
          "/user.v1.UserService/GetUser"
          claims_of
          (record { authorization = some (("Bearer " ⧺ "AQID") ∷ []); claims = none })
          (record {
            calls = 30;
            state = (register services "ann@example.com" "secret" "Ann" "Lee" nobody).1.state;
          })
        ≡ (
          ok (record { authorization = some (("Bearer " ⧺ "AQID") ∷ []); claims = some ann }),
          record {
            calls = 32;
            state = (register services "ann@example.com" "secret" "Ann" "Lee" nobody).1.state;
          },
        ))
unfolding is_listed
login_token_accepted_example =
    login_token_accepted services (λ n. refl) bcrypt-IsHash library-IsSound "ann@example.com"
      "secret" "Ann" "Lee" nobody user 20 30 "AQID" "/user.v1.UserService/GetUser" claims_of
      registering refl refl refl (omega arith)
