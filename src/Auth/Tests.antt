-- ===== src/Auth/Tests.antt =====
-- The authentication of sample calls, over a token library whose tokens are their secrets.
use go_grpc_http.Base.{
  ◌≡◌, ◌≢◌, refl, String, [], ◌∷◌, false, Option, none, some, arith, eq_iff, ◌⊎◌,
}
use mathlib.Core.Bool.{false≢true}
use go_grpc_http.Base.Text.{trim_prefix}
use go_grpc_http.Base.Action.{ok, err, Env, World, Action, done}
use go_grpc_http.Grpc.{unauthenticated, Status, status}
use go_grpc_http.Auth.Jwt.{Claims, JwtManager}
use go_grpc_http.Auth.Resolver.{TokenResolver}
use go_grpc_http.Auth.Interceptor.{
  Context, public_methods, is_listed, bearer_token, extract_and_verify_claims,
  unary_auth_interceptor,
}
use go_grpc_http.Auth.Samples.{ann, library, library-IsSound}
use go_grpc_http.Auth.Guard.{Authenticated, unary_auth_interceptor-guards}
use go_grpc_http.Auth.Revocation.{
  Signed, unary_auth_interceptor-revoked, unary_auth_interceptor-accepted,
}

abbrev calm : Env
calm = record {
  outcome = λ n. done;
  now = λ n. n;
  uuid = λ n. "";
  serial = λ n. n;
  cut = λ n. none;
  scan = λ n. [];
}

abbrev manager : JwtManager
manager = record { library = library; duration = 3600 }

-- The state is the secret that the user has now.
abbrev current : TokenResolver String
current user_id w = (ok w.state, w)

abbrev who : Context → Action Status String (Option Claims)
who ctx w = (ok ctx.claims, w)

abbrev call_of_ann : Context
call_of_ann = record { authorization = some ("Bearer secret-1" ∷ []); claims = none }

abbrev method : String
method = "/user.v1.UserService/GetUser"

abbrev before : World String
before = record { calls = 0; state = "secret-1" }

abbrev after_change : World String
after_change = record { calls = 0; state = "secret-2" }

Signed-call : Signed library ann "secret-1" call_of_ann
unfolding bearer_token trim_prefix
Signed-call = record {
  value = "Bearer secret-1";
  values = [];
  carried = refl;
  signed = refl;
  named = refl;
}

private_method : is_listed method public_methods ≡ false
unfolding is_listed
private_method = refl

unary_auth_interceptor-accepted_example :
    unary_auth_interceptor calm manager current method who call_of_ann before
    ≡ (ok (some ann), record before { calls = 1 })
unary_auth_interceptor-accepted_example =
    unary_auth_interceptor-accepted calm manager library-IsSound current method who call_of_ann
      before ann "secret-1" private_method Signed-call refl (omega arith)

secrets_differ : before.state ≢ after_change.state
secrets_differ e = absurd (false≢true ((eq_iff "secret-1" "secret-2").1 e))

unary_auth_interceptor-revoked_example :
    (message : String) × (unary_auth_interceptor calm manager current method who call_of_ann
        after_change
      ≡ (err (status unauthenticated message), record after_change { calls = 1 }))
unary_auth_interceptor-revoked_example =
    unary_auth_interceptor-revoked calm manager library-IsSound current method who call_of_ann
      after_change ann "secret-1" "secret-2" private_method Signed-call refl secrets_differ

unary_auth_interceptor-guards_example :
    ((message : String) × (unary_auth_interceptor calm manager current method who call_of_ann before
        ≡ (
          err (status unauthenticated message),
          (extract_and_verify_claims calm manager current call_of_ann before).1,
        )))
    ⊎ ((c : Claims) × Authenticated calm manager current call_of_ann before c
        × (unary_auth_interceptor calm manager current method who call_of_ann before
            ≡ who
                (record call_of_ann { claims = some c })
                (extract_and_verify_claims calm manager current call_of_ann before).1))
unary_auth_interceptor-guards_example =
    unary_auth_interceptor-guards calm manager current method who call_of_ann before private_method
