-- ===== src/User/Login.antt =====
-- internal/user/service/user_service.go: a registered user can log in.
use go_grpc_http.Base.{
  Bool, true, ℕ, ◌+◌, String, ◌≡◌, refl, [], ◌∷◌, ◌++◌, none, some, arith, inl, inr, Option-cases,
  eq_refl, sym, ◌∙◌, ap,
}
use mathlib.Core.Path.{subst}
use go_grpc_http.Base.Action.{ok, Result-cases, World, done, call}
use go_grpc_http.Base.Base64.{encode_base64}
use go_grpc_http.Base.Sql.{find_row}
use go_grpc_http.Auth.Jwt.{claims_for, seconds, generate}
use go_grpc_http.User.Model.{User}
use go_grpc_http.User.Repository.{Table, has_id, has_email, insert_user, get_by_email, create}
use go_grpc_http.User.Repository.Keys.{find_row-miss, insert_user-free}
use go_grpc_http.User.Service.{Services, IsHash, new_user, generate_auth_token, register, login}

-- A new row is the one that its keys find.
pub find-new :
    (test : User → Bool) (u : User) (rows : Table)
    → test u ≡ true
    → find_row test rows ≡ none
    → find_row test (rows ++ u ∷ []) ≡ some u
unfolding find_row
find-new test u [] own h = rw own refl
find-new test u (x ∷ rows) own h =
    let (miss, rest) = find_row-miss test x rows h in rw miss (find-new test u rows own rest)

-- What a registration leaves for a login.
pub record Registered (d : Services) (email password : String) (rows : Table) (u : User)
    : Type 0 where
  pub n : ℕ
  pub found : find_row (has_email email) rows ≡ some u
  pub by_id : find_row (has_id u.id) rows ≡ some u
  pub hashed : d.bcrypt.generate_from_password n password ≡ ok u.password_hash

module _ (d : Services) (up : (n : ℕ) → d.env.outcome n ≡ done) where
  pub register-Registered :
      (email password first_name last_name : String) (w : World Table) (u : User)
      → (register d email password first_name last_name w).0 ≡ ok u
      → Registered d email password (register d email password first_name last_name w).1.state u
  unfolding register get_by_email create generate_auth_token call
  register-Registered email password first_name last_name w u h =
      elim (Option-cases (find_row (has_email email) w.state)) [
        | inr (other, taken) ↦ absurd (ground (arith, rw (up w.calls, taken) at h))
        | inl free ↦ elim (Result-cases (d.bcrypt.generate_from_password (w.calls + 1) password)) [
          | inr (m, e) ↦ absurd (ground (arith, rw (up w.calls, free, e) at h))
          | inl (hash, e) ↦
              let user =
                new_user (d.env.uuid (w.calls + 1 + 1 + 1 + 1 + 1)) email hash first_name last_name
                  (encode_base64 (d.random (w.calls + 1 + 1)))
                  (d.env.now (w.calls + 1 + 1 + 1 + 1)) in
              elim (Result-cases (insert_user user w.state)) [
                | inr (m, e') ↦ absurd (
                    ground (
                      arith,
                      rw
                          (
                            up w.calls,
                            free,
                            e,
                            up (w.calls + 1 + 1 + 1),
                            up (w.calls + 1 + 1 + 1 + 1 + 1 + 1),
                            e',
                          )
                          at h,
                    ))
                | inl (rows, e') ↦
                    let ran : register d email password first_name last_name w ≡ (
                      ok user,
                      record { calls = w.calls + 1 + 1 + 1 + 1 + 1 + 1 + 1; state = rows },
                    ) =
                      rw
                        (
                          up w.calls,
                          free,
                          e,
                          up (w.calls + 1 + 1 + 1),
                          up (w.calls + 1 + 1 + 1 + 1 + 1 + 1),
                          e',
                        )
                        refl in
                    let same : user ≡ u = ground (arith, sym (ap (λ x. x.0) ran) ∙ h) in
                    let (at_end, id_free, email_free) = insert_user-free user w.state rows e' in
                    let there : find_row (has_email email) rows ≡ some user =
                      ap (find_row (has_email email)) (sym at_end)
                      ∙ find-new (has_email email) user w.state (eq_refl email) free in
                    let by_id : find_row (has_id user.id) rows ≡ some user =
                      ap (find_row (has_id user.id)) (sym at_end)
                      ∙ find-new (has_id user.id) user w.state (eq_refl user.id) id_free in
                    let made : Registered d email password rows user = record {
                      n = w.calls + 1;
                      found = there;
                      by_id = by_id;
                      hashed = e;
                    } in
                    rw ran (subst (Registered d email password rows) same made)
              ]
        ]
      ]

  -- A user who registered logs in with the same email and password, at any later call that finds
  -- the table as the registration left it, if calls go through and the token library signs: the
  -- answer is the token that is signed with the user's secret for the user's id and email, the id,
  -- and the token's expiry.
  pub register-login :
      (law : IsHash d.bcrypt) (email password first_name last_name : String) (w : World Table)
      (u : User) (calls : ℕ) (token : String)
      → (register d email password first_name last_name w).0 ≡ ok u
      → d.jwt.library.sign_hs256
          (claims_for d.jwt u.id u.email (d.env.now (calls + 1)) (d.env.now (calls + 1 + 1)))
          u.auth_token
        ≡ ok token
      → (login d email password (record {
        calls = calls;
        state = (register d email password first_name last_name w).1.state;
      })).0
        ≡ ok (token, u.id, seconds (d.env.now (calls + 1) + d.jwt.duration))
  unfolding login get_by_email generate call
  register-login law email password first_name last_name w u calls token h signed =
      let r = register-Registered email password first_name last_name w u h in
      rw (up calls, r.found, law.matches_own r.n password r.hashed, signed) refl
