-- ===== src/Auth/Revocation.antt =====
-- pkg/auth/jwt.go and interceptor.go: a token is worth as much as the secret that it was signed with.
use go_grpc_http.Base.{◌<◌, ◌≡◌, ◌≢◌, refl, String, List, ◌∷◌, false, some, ◌+◌}
use go_grpc_http.Base.Text.{◌⧺◌, ◌==◌}
use go_grpc_http.Base.Action.{ok, err, Env, World, Action}
use go_grpc_http.Grpc.{unauthenticated, Status, status}
use go_grpc_http.Auth.Jwt.{
  Claims, JwtManager, JwtLibrary, IsSound, seconds, hmac_only, parse_unverified, validate,
}
use go_grpc_http.Auth.Resolver.{TokenResolver}
use go_grpc_http.Auth.Interceptor.{
  Context, public_methods, is_listed, bearer_token, extract_and_verify_claims,
  unary_auth_interceptor,
}

-- A call that carries a token signed with `secret` for the claims `c`.
pub record Signed (j : JwtLibrary) (c : Claims) (secret : String) (ctx : Context) : Type 0 where
  pub value : String
  pub values : List String
  pub carried : ctx.authorization ≡ some (value ∷ values)
  pub signed : j.sign_hs256 c secret ≡ ok (bearer_token value)
  pub named : (c.user_id == "") ≡ false

module _ {S A : Type 0} (env : Env) (m : JwtManager) (law : IsSound m.library)
    (resolver : TokenResolver S) where
  -- A token that was signed with another secret than the one that the resolver holds is refused,
  -- and the handler does not run.
  pub unary_auth_interceptor-revoked :
      (full_method : String) (handler : Context → Action Status S A) (ctx : Context) (w : World S)
      (c : Claims) (secret auth_token : String)
      → is_listed full_method public_methods ≡ false
      → Signed m.library c secret ctx
      → (resolver c.user_id w).0 ≡ ok auth_token
      → secret ≢ auth_token
      → (message : String) × (unary_auth_interceptor env m resolver full_method handler ctx w ≡ (
        err (status unauthenticated message),
        record (resolver c.user_id w).1 { calls = (resolver c.user_id w).1.calls + 1 },
      ))
  unfolding unary_auth_interceptor extract_and_verify_claims parse_unverified validate
  unary_auth_interceptor-revoked full_method handler ctx w c secret auth_token private s resolved
        other =
      let (message, refused) =
        law.refuses c secret auth_token (env.now (resolver c.user_id w).1.calls)
          (hmac_only auth_token) s.signed refl other in
      (
        "invalid token: " ⧺ ("parse token: " ⧺ message),
        rw (private, s.carried, law.read_back c secret s.signed, s.named, resolved, refused) refl,
      )

  -- For a private method and a sound token library: a bearer token whose claims name a user, that was
  -- signed with the secret that the resolver answers for that user, and that has not expired when
  -- it is validated, runs the handler once, with the claims that were signed in its context.
  pub unary_auth_interceptor-accepted :
      (full_method : String) (handler : Context → Action Status S A) (ctx : Context) (w : World S)
      (c : Claims) (secret : String)
      → is_listed full_method public_methods ≡ false
      → Signed m.library c secret ctx
      → (resolver c.user_id w).0 ≡ ok secret
      → seconds (env.now (resolver c.user_id w).1.calls) < c.expires_at
      → unary_auth_interceptor env m resolver full_method handler ctx w
        ≡ handler
            (record ctx { claims = some c })
            (record (resolver c.user_id w).1 { calls = (resolver c.user_id w).1.calls + 1 })
  unfolding unary_auth_interceptor extract_and_verify_claims parse_unverified validate
  unary_auth_interceptor-accepted full_method handler ctx w c secret private s resolved fresh =
      rw
        (
          private,
          s.carried,
          law.read_back c secret s.signed,
          s.named,
          resolved,
          law.accepts c secret (env.now (resolver c.user_id w).1.calls) (hmac_only secret) s.signed
              refl fresh,
        )
        refl
