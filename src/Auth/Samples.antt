-- ===== src/Auth/Samples.antt =====
-- A token library that signs the claims of one user, and whose tokens are their secrets: test data.
use go_grpc_http.Base.{
  ℕ, ◌<◌, ◌≡◌, ◌≢◌, refl, String, Bool, true, ◌&&◌, arith, eq_iff, ◌=?◌, ltb, if◌then◌else◌,
  eq_refl,
}
use go_grpc_http.Base.Text.{◌==◌}
use go_grpc_http.Base.Action.{Result, ok, err}
use go_grpc_http.Auth.Jwt.{Claims, Token, JwtLibrary, IsSound, seconds}

abbrev pub ann : Claims
ann = record { user_id = "u-1"; email = "ann@example.com"; expires_at = 100; issued_at = 0 }

abbrev is_ann : Claims → Bool
is_ann c =
    c.user_id == "u-1" && c.email == "ann@example.com" && c.expires_at =? 100 && c.issued_at =? 0

is_ann-eq : (c : Claims) → is_ann c ≡ true → c ≡ ann
is_ann-eq c h = ground (arith, h, eq_iff c.user_id "u-1", eq_iff c.email "ann@example.com")

abbrev checked : ℕ → String → Result String String → Result String Token
checked now token (err e) = err e
checked now token (ok secret) =
    if token == secret
    then (if ltb now 100
        then ok (record { claims = ann; valid = true })
        else err "token is expired")
    else err "signature is invalid"

abbrev pub library : JwtLibrary
library = record {
  sign_hs256 = λ c secret. if is_ann c then ok secret else err "unsupported claims";
  parse_unverified = λ token. ok ann;
  parse_with_claims = λ now token key. checked (seconds now) token (key true "HS256");
}

signed_secret :
    (c : Claims) (secret t : String) → library.sign_hs256 c secret ≡ ok t → (c ≡ ann) × (secret ≡ t)
signed_secret c secret t h = ground (arith, h, is_ann-eq c)

ann_expires : (c : Claims) → c ≡ ann → c.expires_at ≡ 100
ann_expires c h = rw h refl

checked_own :
    (now : ℕ) (secret : String)
    → now < 100
    → checked now secret (ok secret) ≡ ok (record { claims = ann; valid = true })
checked_own now secret fresh = rw (eq_refl secret) (ground (arith, fresh))

checked_other :
    (now : ℕ) (secret other : String)
    → secret ≢ other
    → checked now secret (ok other) ≡ err "signature is invalid"
checked_other now secret other differ = ground (arith, differ, eq_iff secret other)

pub library-IsSound : IsSound library
library-IsSound = record {
  read_back = λ c secret {t} h. ground (arith, signed_secret c secret t h);
  accepts = λ c secret now key {t} h k fresh.
      let (is, same) = signed_secret c secret t h in
      rw (k, ← same, is) (checked_own (seconds now) secret (rw is at fresh));
  refuses = λ c secret other now key {t} h k differ.
      let (is, same) = signed_secret c secret t h in
      ("signature is invalid", rw (k, ← same) (checked_other (seconds now) secret other differ));
}
