-- ===== src/Auth/Jwt.antt =====
-- pkg/auth/jwt.go. The token library (github.com/golang-jwt/jwt/v5) is a parameter.
use go_grpc_http.Base.{ℕ, ◌+◌, ◌/◌, ◌^◌, ◌<◌, ◌≡◌, ◌≢◌, String, Bool, true, false, if◌then◌else◌}
use go_grpc_http.Base.Text.{◌⧺◌}
use go_grpc_http.Base.Action.{
  Result, ok, err, Env, Time, Action, pure, lift, draw, wrap_error, wrapping, ◌>>=◌,
}

-- Times in the registered claims are seconds (jwt.NumericDate).
pub record Claims : Type 0 where
  pub user_id : String
  pub email : String
  pub expires_at : ℕ
  pub issued_at : ℕ

-- What `jwt.ParseWithClaims` returns: the claims, and `token.Valid`.
pub record Token : Type 0 where
  pub claims : Claims
  pub valid : Bool

-- `parse_with_claims now token key`: `key` is the key function of the caller, which is told whether
-- the token's method is an HMAC one, and the "alg" of its header.
pub record JwtLibrary : Type 0 where
  pub sign_hs256 : Claims → String → Result String String
  pub parse_unverified : String → Result String Claims
  pub parse_with_claims :
      Time → String → (Bool → String → Result String String) → Result String Token

abbrev pub seconds : Time → ℕ
seconds t = t / 10 ^ 9

-- The documented behaviour: a signed token is read back with its key while it has not expired; a
-- token is refused with every other secret than the one that signed it. The second is more than a MAC
-- gives, which may collide and takes a key and the key with zero bytes behind it for one.
pub record IsSound (j : JwtLibrary) : Type 0 where
  pub read_back :
      (c : Claims) (secret : String) {t : String}
      → j.sign_hs256 c secret ≡ ok t
      → j.parse_unverified t ≡ ok c
  pub accepts :
      (c : Claims) (secret : String) (now : Time) (key : Bool → String → Result String String)
      {t : String}
      → j.sign_hs256 c secret ≡ ok t
      → key true "HS256" ≡ ok secret
      → seconds now < c.expires_at
      → j.parse_with_claims now t key ≡ ok (record { claims = c; valid = true })
  pub refuses :
      (c : Claims) (secret other : String) (now : Time) (key : Bool → String → Result String String)
      {t : String}
      → j.sign_hs256 c secret ≡ ok t
      → key true "HS256" ≡ ok other
      → secret ≢ other
      → (m : String) × (j.parse_with_claims now t key ≡ err m)

-- the key function of `Validate`
abbrev pub hmac_only : String → Bool → String → Result String String
hmac_only auth_token true alg = ok auth_token
hmac_only auth_token false alg = err ("unexpected signing method: " ⧺ alg)

abbrev require_valid : Token → Result String Claims
require_valid token = if token.valid then ok token.claims else err "invalid token claims"

pub record JwtManager : Type 0 where
  pub library : JwtLibrary
  pub duration : Time

abbrev then_valid : Result String Token → Result String Claims
then_valid (ok token) = require_valid token
then_valid (err e) = err e

module _ (m : JwtManager) where
  -- the claims that `Generate` signs
  abbrev pub claims_for : String → String → Time → Time → Claims
  claims_for user_id email start issued = record {
    user_id = user_id;
    email = email;
    expires_at = seconds (start + m.duration);
    issued_at = seconds issued;
  }

  unfoldable pub generate :
      {S : Type 0} → Env → String → String → String → Action String S (String × ℕ)
  generate env user_id email auth_token = do
    start ← draw env.now
    issued ← draw env.now
    token ←
        wrapping "sign token: "
          (lift (m.library.sign_hs256 (claims_for user_id email start issued) auth_token))
    pure (token, seconds (start + m.duration))

  unfoldable pub parse_unverified : String → Result String Claims
  parse_unverified token = wrap_error "parse unverified: " (m.library.parse_unverified token)

  unfoldable pub validate : Time → String → String → Result String Claims
  validate now token auth_token =
      then_valid
        (wrap_error "parse token: " (m.library.parse_with_claims now token (hmac_only auth_token)))
