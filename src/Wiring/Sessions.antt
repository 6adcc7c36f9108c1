-- ===== src/Wiring/Sessions.antt =====
-- cmd/user-service/main.go and the services behind the interceptor: the token of a login is accepted.
use go_grpc_http.Base.{ℕ, ◌+◌, ◌<◌, String, ◌≡◌, refl, sym, ap, ◌∙◌, [], ◌∷◌, none, some, false}
use go_grpc_http.Base.Text.{◌⧺◌, ◌==◌}
use text.Mathlib.TextPositions.{starts_with-append, slice-append_right, len-append}
use go_grpc_http.Base.Action.{ok, World, done, call, Action}
use go_grpc_http.Grpc.{Status}
use go_grpc_http.Auth.Jwt.{IsSound, claims_for, seconds}
use go_grpc_http.Auth.Resolver.{resolve_in_db}
use go_grpc_http.Auth.Interceptor.{
  Context, public_methods, is_listed, bearer_token, unary_auth_interceptor,
}
use go_grpc_http.Auth.Revocation.{Signed, unary_auth_interceptor-accepted}
use go_grpc_http.User.Model.{User}
use go_grpc_http.User.Repository.{Table}
use go_grpc_http.User.Service.{Services, IsHash, register, login}
use go_grpc_http.User.Login.{Registered, register-Registered, register-login}

bearer_token-append : (t : String) → bearer_token ("Bearer " ⧺ t) ≡ t
unfolding bearer_token
bearer_token-append t = rw starts_with-append (rw len-append (slice-append_right "Bearer " t))

module _ (d : Services) (up : (n : ℕ) → d.env.outcome n ≡ done) where
  -- What a client sends with a token.
  abbrev with_token : String → Context
  with_token token = record { authorization = some (("Bearer " ⧺ token) ∷ []); claims = none }

  resolve-Registered :
      (email password : String) (rows : Table) (u : User) (k : ℕ)
      → Registered d email password rows u
      → resolve_in_db d.env (λ (rows : Table). rows) u.id (record { calls = k; state = rows })
        ≡ (ok u.auth_token, record { calls = k + 1; state = rows })
  unfolding resolve_in_db call
  resolve-Registered email password rows u k r = rw (up k, r.by_id) refl

  -- From registration to an authenticated call. While calls go through, with a sound token library
  -- that signs the claims, and a password hash: a user who registered, with an id that is not
  -- empty, logs in with the same email and password, and the token of that login, sent as a bearer
  -- token to a private method of the user service before it expires, runs the handler with the
  -- user's id and email in its claims.
  pub login_token_accepted :
      (hash : IsHash d.bcrypt) (sound : IsSound d.jwt.library)
      (email password first_name last_name : String) (w : World Table) (u : User) (calls k : ℕ)
      (token : String) {A : Type 0} (full_method : String)
      (handler : Context → Action Status Table A)
      → (register d email password first_name last_name w).0 ≡ ok u
      → d.jwt.library.sign_hs256
          (claims_for d.jwt u.id u.email (d.env.now (calls + 1)) (d.env.now (calls + 1 + 1)))
          u.auth_token
        ≡ ok token
      → (u.id == "") ≡ false
      → is_listed full_method public_methods ≡ false
      → seconds (d.env.now (k + 1)) < seconds (d.env.now (calls + 1) + d.jwt.duration)
      → ((login d email password (record {
        calls = calls;
        state = (register d email password first_name last_name w).1.state;
      })).0
          ≡ ok (token, u.id, seconds (d.env.now (calls + 1) + d.jwt.duration)))
        × (unary_auth_interceptor d.env d.jwt
              (resolve_in_db d.env (λ (rows : Table). rows))
              full_method
              handler
              (with_token token)
              (record {
                calls = k;
                state = (register d email password first_name last_name w).1.state;
              })
            ≡ handler
                (record (with_token token) {
                  claims = some (
                      claims_for d.jwt u.id u.email
                        (d.env.now (calls + 1))
                        (d.env.now (calls + 1 + 1)));
                })
                (record {
                  calls = k + 1 + 1;
                  state = (register d email password first_name last_name w).1.state;
                }))
  login_token_accepted hash sound email password first_name last_name w u calls k token full_method
        handler h signed named private fresh =
      let rows = (register d email password first_name last_name w).1.state in
      let c = claims_for d.jwt u.id u.email (d.env.now (calls + 1)) (d.env.now (calls + 1 + 1)) in
      let resolver = resolve_in_db d.env (λ (rows : Table). rows) in
      let wk : World Table = record { calls = k; state = rows } in
      let resolved =
        resolve-Registered email password rows u k
          (register-Registered d up email password first_name last_name w u h) in
      let carried : Signed d.jwt.library c u.auth_token (with_token token) = record {
        value = "Bearer " ⧺ token;
        values = [];
        carried = refl;
        signed = signed ∙ ap ok (sym (bearer_token-append token));
        named = named;
      } in
      let resolves : (resolver c.user_id wk).0 ≡ ok u.auth_token = ap (λ r. r.0) resolved in
      let accepted =
        unary_auth_interceptor-accepted d.env d.jwt sound resolver full_method handler
          (with_token token) wk c u.auth_token private carried resolves (rw resolved fresh) in
      (
        register-login d up hash email password first_name last_name w u calls token h signed,
        accepted ∙ rw resolved refl,
      )
