-- ===== src/User/Registration.antt =====
-- internal/user/server.go and service/user_service.go: an email is registered once.
use go_grpc_http.Base.{
  ℕ, ◌+◌, String, ◌≡◌, refl, [], ◌∷◌, ◌++◌, false, ◌||◌, none, some, eq_refl, ap, sym, ◌∙◌,
}
use go_grpc_http.Base.Text.{◌==◌}
use go_grpc_http.Base.Action.{ok, err, World, done, call}
use go_grpc_http.Base.Base64.{encode_base64}
use go_grpc_http.Base.Sql.{find_row}
use go_grpc_http.Grpc.{status, already_exists}
use go_grpc_http.User.Model.{User}
use go_grpc_http.User.Repository.{Table, has_email, insert_user, get_by_email, create}
use go_grpc_http.User.Service.{Services, generate_auth_token}
use go_grpc_http.User.Service
use go_grpc_http.User.Repository.Keys.{insert_user-free}
use go_grpc_http.User.Login.{find-new}
use go_grpc_http.User.Server.{RegisterRequest, register, register_status}

module _ (d : Services) (up : (n : ℕ) → d.env.outcome n ≡ done) where
  -- the user that a registration makes, at the call `n`
  abbrev user_at : RegisterRequest → String → ℕ → User
  user_at req hash n = record {
    id = d.env.uuid (n + 1 + 1 + 1 + 1 + 1);
    email = req.email;
    password_hash = hash;
    first_name = req.first_name;
    last_name = req.last_name;
    auth_token = encode_base64 (d.random (n + 1 + 1));
    created_at = d.env.now (n + 1 + 1 + 1 + 1);
    updated_at = d.env.now (n + 1 + 1 + 1 + 1);
  }

  register_new :
      (req : RegisterRequest) (hash : String) (w : World Table)
      → (req.email == "" || req.password == "") ≡ false
      → d.bcrypt.generate_from_password (w.calls + 1) req.password ≡ ok hash
      → find_row (has_email req.email) w.state ≡ none
      → insert_user (user_at req hash w.calls) w.state
        ≡ ok (w.state ++ user_at req hash w.calls ∷ [])
      → register d req w ≡ (
        ok (record {
          user_id = d.env.uuid (w.calls + 1 + 1 + 1 + 1 + 1);
          email = req.email;
          auth_token = encode_base64 (d.random (w.calls + 1 + 1));
          created_at = d.env.now (w.calls + 1 + 1 + 1 + 1);
        }),
        record {
          calls = w.calls + 1 + 1 + 1 + 1 + 1 + 1 + 1;
          state = w.state ++ user_at req hash w.calls ∷ [];
        },
      )
  unfolding register Service.register get_by_email generate_auth_token create call
  register_new req hash w given hashed free accepted =
      rw
        (
          given,
          up w.calls,
          free,
          hashed,
          up (w.calls + 1 + 1 + 1),
          up (w.calls + 1 + 1 + 1 + 1 + 1 + 1),
          accepted,
        )
        refl

  register_taken :
      (req : RegisterRequest) (w : World Table) (u : User)
      → (req.email == "" || req.password == "") ≡ false
      → find_row (has_email req.email) w.state ≡ some u
      → register d req w ≡ (
        err (status already_exists "email already registered"),
        record { calls = w.calls + 1; state = w.state },
      )
  unfolding register Service.register register_status get_by_email call
  register_taken req w u given taken = rw (given, up w.calls, taken) refl

  -- An email is registered once. While calls go through, bcrypt hashes the password and the table
  -- accepts the row: Register answers the new user's id, email, token and time, and leaves one row
  -- behind the others, with a new id, the request's email and names, the hash, the bytes of the
  -- random source in base64, and the time. A second Register with that email, both with an email
  -- and a password, answers AlreadyExists and leaves the table.
  pub register_once :
      (req again : RegisterRequest) (hash : String) (w : World Table) {rows : Table}
      → (req.email == "" || req.password == "") ≡ false
      → (again.email == "" || again.password == "") ≡ false
      → again.email ≡ req.email
      → d.bcrypt.generate_from_password (w.calls + 1) req.password ≡ ok hash
      → insert_user (user_at req hash w.calls) w.state ≡ ok rows
      → ((register d req w).0
          ≡ ok (record {
            user_id = d.env.uuid (w.calls + 1 + 1 + 1 + 1 + 1);
            email = req.email;
            auth_token = encode_base64 (d.random (w.calls + 1 + 1));
            created_at = d.env.now (w.calls + 1 + 1 + 1 + 1);
          }))
        × ((register d req w).1.state
            ≡ w.state
              ++ record {
                id = d.env.uuid (w.calls + 1 + 1 + 1 + 1 + 1);
                email = req.email;
                password_hash = hash;
                first_name = req.first_name;
                last_name = req.last_name;
                auth_token = encode_base64 (d.random (w.calls + 1 + 1));
                created_at = d.env.now (w.calls + 1 + 1 + 1 + 1);
                updated_at = d.env.now (w.calls + 1 + 1 + 1 + 1);
              }
                ∷ [])
        × ((register d again (register d req w).1).0
            ≡ err (status already_exists "email already registered"))
        × ((register d again (register d req w).1).1.state ≡ (register d req w).1.state)
  register_once req again hash w given given_again same hashed accepted =
      let user = user_at req hash w.calls in
      let (at_end, id_free, email_free) = insert_user-free user w.state _ accepted in
      let ran = register_new req hash w given hashed email_free (accepted ∙ ap ok (sym at_end)) in
      let there : find_row (has_email again.email) (w.state ++ user ∷ []) ≡ some user =
        rw same (find-new (has_email req.email) user w.state (eq_refl req.email) email_free) in
      let refused = register_taken again (register d req w).1 user given_again (rw ran there) in
      (
        ap (λ r. r.0) ran,
        ap (λ r. r.1.state) ran,
        ap (λ r. r.0) refused,
        ap (λ r. r.1.state) refused,
      )
