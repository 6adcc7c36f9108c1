-- ===== src/Grpc.antt =====
-- google.golang.org/grpc codes and status, and pkg/errors/errors.go.
use go_grpc_http.Base.{String, Option, none, some, ◌||◌, if◌then◌else◌}
use go_grpc_http.Base.Text.{contains}
use go_grpc_http.Base.Action.{Result, ok, err, Action}

pub data Code : Type 0 where
  invalid_argument not_found already_exists failed_precondition : Code
  unauthenticated unavailable internal : Code

pub record Status : Type 0 where
  pub code : Code
  pub message : String

abbrev pub status : Code → String → Status
status code message = record { code = code; message = message }

-- errors.ToGRPCError; `none` is a nil error
unfoldable pub to_grpc_error : Option String → Option Status
unfolding contains
to_grpc_error none = none
to_grpc_error (some msg) =
    if contains msg "not found"
    then some (status not_found msg)
    else if contains msg "already registered" || contains msg "already exists"
    then some (status already_exists msg)
    else if contains msg "invalid credentials"
    then some (status unauthenticated msg)
    else if contains msg "insufficient" || contains msg "can only"
    then some (status failed_precondition msg)
    else some (status internal msg)

-- A handler's answer: the response of a result, or the status of its error.
abbrev pub reply : {A B : Type 0} → (A → B) → (String → Status) → Result String A → Result Status B
reply f g (ok a) = ok (f a)
reply f g (err e) = err (g e)

abbrev pub answer :
    {S A B : Type 0} → (A → B) → (String → Status) → Action String S A → Action Status S B
answer f g m w = let (r, w') = m w in (reply f g r, w')
