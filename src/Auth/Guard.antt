-- ===== src/Auth/Guard.antt =====
-- pkg/auth/interceptor.go: what UnaryAuthInterceptor lets through.
use go_grpc_http.Base.{
  ◌≡◌, refl, String, List, [], ◌∷◌, false, Option, none, some, inl, inr, Bool-cases, ◌⊎◌,
}
use go_grpc_http.Base.Text.{◌⧺◌, ◌==◌}
use go_grpc_http.Base.Action.{ok, err, Result-cases, Env, World, Action, Time}
use go_grpc_http.Grpc.{unauthenticated, Status, status}
use go_grpc_http.Auth.Jwt.{Claims, JwtManager, parse_unverified, validate}
use go_grpc_http.Auth.Resolver.{TokenResolver}
use go_grpc_http.Auth.Interceptor.{
  Context, public_methods, is_listed, bearer_token, extract_and_verify_claims,
  unary_auth_interceptor,
}

module _ {S : Type 0} (env : Env) (m : JwtManager) (resolver : TokenResolver S) where
  -- Where the claims of a call come from: its first authorization header, the secret that the
  -- resolver holds for the user whom the token names, and the validation with that secret.
  pub record Authenticated (ctx : Context) (w : World S) (c : Claims) : Type 0 where
    pub value : String
    pub values : List String
    pub unverified : Claims
    pub auth_token : String
    pub now : Time
    pub carried : ctx.authorization ≡ some (value ∷ values)
    pub parsed : parse_unverified m (bearer_token value) ≡ ok unverified
    pub named : (unverified.user_id == "") ≡ false
    pub resolved : (resolver unverified.user_id w).0 ≡ ok auth_token
    pub validated : validate m now (bearer_token value) auth_token ≡ ok c

  -- How an extraction ends.
  abbrev Extracted : Context → World S → Type 0
  Extracted ctx w =
      ((c : Claims) × ((extract_and_verify_claims env m resolver ctx w).0 ≡ ok c)
        × Authenticated ctx w c)
      ⊎ ((message : String) × ((extract_and_verify_claims env m resolver ctx w).0
            ≡ err (status unauthenticated message)))

  extract-ends :
      (ctx : Context) (w : World S) (header : Option (List String))
      → ctx.authorization ≡ header
      → Extracted ctx w
  unfolding extract_and_verify_claims
  extract-ends ctx w none e = inr ("missing metadata", rw e refl)
  extract-ends ctx w (some []) e = inr ("missing authorization header", rw e refl)
  extract-ends ctx w (some (value ∷ values)) e =
      elim (Result-cases (parse_unverified m (bearer_token value))) [
        | inr (message, bad) ↦ inr ("malformed token: " ⧺ message, rw (e, bad) refl)
        | inl (c, parsed) ↦ elim (Bool-cases (c.user_id == "")) [
          | inl empty ↦ inr ("token missing user_id claim", rw (e, parsed, empty) refl)
          | inr named ↦ elim (Result-cases (resolver c.user_id w).0) [
            | inr (message, bad) ↦
                inr ("resolve auth token: " ⧺ message, rw (e, parsed, named, bad) refl)
            | inl (auth_token, resolved) ↦
                let now = env.now (resolver c.user_id w).1.calls in
                elim (Result-cases (validate m now (bearer_token value) auth_token)) [
                  | inr (message, bad) ↦
                      inr ("invalid token: " ⧺ message, rw (e, parsed, named, resolved, bad) refl)
                  | inl (valid, validated) ↦ inl (
                    valid,
                    rw (e, parsed, named, resolved, validated) refl,
                    record {
                      value = value;
                      values = values;
                      unverified = c;
                      auth_token = auth_token;
                      now = now;
                      carried = e;
                      parsed = parsed;
                      named = named;
                      resolved = resolved;
                      validated = validated;
                    },
                  )
                ]
          ]
        ]
      ]

  module _ {A : Type 0} where
    -- A method that is not public answers Unauthenticated and does not run its handler, or its
    -- handler runs with claims that were validated with the secret that the resolver holds now.
    pub unary_auth_interceptor-guards :
        (full_method : String) (handler : Context → Action Status S A) (ctx : Context) (w : World S)
        → is_listed full_method public_methods ≡ false
        → ((message : String) × (unary_auth_interceptor env m resolver full_method handler ctx w ≡ (
          err (status unauthenticated message),
          (extract_and_verify_claims env m resolver ctx w).1,
        )))
          ⊎ ((c : Claims) × Authenticated ctx w c
              × (unary_auth_interceptor env m resolver full_method handler ctx w
                  ≡ handler
                      (record ctx { claims = some c })
                      (extract_and_verify_claims env m resolver ctx w).1))
    unfolding unary_auth_interceptor
    unary_auth_interceptor-guards full_method handler ctx w private =
        elim (extract-ends ctx w ctx.authorization refl) [
          | inl (c, e, authentic) ↦ inr (c, authentic, rw (private, e) refl)
          | inr (message, e) ↦ inl (message, rw (private, e) refl)
        ]
