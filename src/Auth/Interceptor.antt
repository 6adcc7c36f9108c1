-- ===== src/Auth/Interceptor.antt =====
-- pkg/auth/interceptor.go: who may call what.
use go_grpc_http.Base.{String, List, [], ◌∷◌, Bool, false, ◌||◌, Option, none, some, if◌then◌else◌}
use go_grpc_http.Base.Text.{◌⧺◌, ◌==◌, has_prefix, trim_prefix}
use go_grpc_http.Base.Action.{Env, Action, pure, fail, lift, draw, ◌>>=◌}
use go_grpc_http.Grpc.{unauthenticated, Status, status, answer}
use go_grpc_http.Auth.Jwt.{Claims, JwtManager, parse_unverified, validate}
use go_grpc_http.Auth.Resolver.{TokenResolver}

-- What the interceptor reads of a context: the values of the authorization header, if there is
-- incoming metadata, and the claims that it stores there.
pub record Context : Type 0 where
  pub authorization : Option (List String)
  pub claims : Option Claims

abbrev pub public_methods : List String
public_methods =
    "/grpc.health.v1.Health/Check" ∷ "/user.v1.UserService/Register" ∷ "/user.v1.UserService/Login"
    ∷ "/product.v1.ProductService/GetProduct" ∷ "/product.v1.ProductService/ListProducts"
    ∷ "/order.v1.OrderQueryService/GetOrder" ∷ "/order.v1.OrderQueryService/ListOrdersByUser"
    ∷ "/payment.v1.PaymentService/GetPayment" ∷ "/payment.v1.PaymentService/ListPaymentsByOrder"
    ∷ "/product.v1.ProductService/ReserveStock" ∷ "/product.v1.ProductService/ReleaseStock"
    ∷ "/user.v1.UserService/GetAuthToken" ∷ []

unfoldable pub is_listed : String → List String → Bool
is_listed method [] = false
is_listed method (m ∷ ms) = m == method || is_listed method ms

unfoldable pub bearer_token : String → String
unfolding trim_prefix
bearer_token value = if has_prefix value "Bearer " then trim_prefix value "Bearer " else value

-- `ClaimsFromContext`
abbrev pub claims_from_context : Context → Option Claims
claims_from_context ctx = ctx.claims

module _ {S : Type 0} where
  abbrev unauthorized : {A : Type 0} → String → Action Status S A
  unauthorized message = fail (status unauthenticated message)

  abbrev header_value : Option (List String) → Action Status S String
  header_value none = unauthorized "missing metadata"
  header_value (some []) = unauthorized "missing authorization header"
  header_value (some (value ∷ values)) = pure value

  abbrev require_user_id : Claims → Action Status S String
  require_user_id c =
      if c.user_id == "" then unauthorized "token missing user_id claim" else pure c.user_id

  -- a failed step is answered with its context and `codes.Unauthenticated`
  abbrev denied : {A : Type 0} → String → Action String S A → Action Status S A
  denied context m = answer (λ a. a) (λ e. status unauthenticated (context ⧺ e)) m

  module _ (env : Env) (manager : JwtManager) (resolver : TokenResolver S) where
    unfoldable pub extract_and_verify_claims : Context → Action Status S Claims
    unfolding bearer_token parse_unverified validate
    extract_and_verify_claims ctx = do
      value ← header_value ctx.authorization
      let token = bearer_token value
      unverified ← denied "malformed token: " (lift (parse_unverified manager token))
      user_id ← require_user_id unverified
      auth_token ← denied "resolve auth token: " (resolver user_id)
      now ← draw env.now
      denied "invalid token: " (lift (validate manager now token auth_token))

    unfoldable pub unary_auth_interceptor :
        {A : Type 0} → String → (Context → Action Status S A) → Context → Action Status S A
    unfolding extract_and_verify_claims is_listed
    unary_auth_interceptor full_method handler ctx =
        if is_listed full_method public_methods then handler ctx else do
          claims ← extract_and_verify_claims ctx
          handler (record ctx { claims = some claims })
