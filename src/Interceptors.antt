-- ===== src/Interceptors.antt =====
-- pkg/interceptors, pkg/health/health.go, and the order in which the services chain them
-- (grpc.ChainUnaryInterceptor in cmd/*-service/main.go).
use go_grpc_http.Base.{String, List, [], ◌∷◌, ◌++◌, Option, none, some}
use go_grpc_http.Base.Text.{◌⧺◌}
use go_grpc_http.Base.Action.{Result, ok, err, World}
use go_grpc_http.Grpc.{Code, internal, unavailable, Status, status}

-- How a handler ends: it returns, or it panics and leaves the state that it has reached.
pub data Ending (A : Type 0) : Type 0 where
  returned : Result Status A → Ending A
  panicked : String → Ending A

abbrev pub Unary : Type 0 → Type 0 → Type 0
Unary S A = World S → Ending A × World S

abbrev pub recovered : {A : Type 0} → Ending A → Result Status A
recovered (returned r) = r
recovered (panicked reason) = err (status internal "internal error")

-- RecoveryInterceptor: the deferred function turns a panic into a status
unfoldable pub recovery_interceptor : {S A : Type 0} → Unary S A → Unary S A
recovery_interceptor handler w = let (e, w') = handler w in (returned (recovered e), w')

-- The code that LoggingInterceptor logs: none is OK.
abbrev pub code_of : {A : Type 0} → Result Status A → Option Code
code_of (ok a) = none
code_of (err s) = some s.code

-- A state with the lines that were logged: the method and the code of each call that returned.
pub record Logged (S : Type 0) : Type 0 where
  pub inner : World S
  pub lines : List (String × Option Code)

abbrev log_line :
    {S A : Type 0} → String → List (String × Option Code) → Ending A × World S → Ending A × Logged S
log_line method lines (returned r, w) =
    (returned r, record { inner = w; lines = lines ++ (method, code_of r) ∷ [] })
log_line method lines (panicked reason, w) = (panicked reason, record { inner = w; lines = lines })

-- LoggingInterceptor; a panic passes through it before anything is logged
unfoldable pub logging_interceptor :
    {S A : Type 0} → String → Unary S A → Logged S → Ending A × Logged S
logging_interceptor method handler l = log_line method l.lines (handler l.inner)

pub data Serving : Type 0 where
  serving not_serving : Serving

-- Server.Check: the first checker that fails makes the service unavailable. A checker's answer is
-- `none` for a nil error.
unfoldable pub check : List (Option String) → Serving × Option Status
check [] = (serving, none)
check (none ∷ checkers) = check checkers
check (some e ∷ checkers) = (not_serving, some (status unavailable ("unhealthy: " ⧺ e)))
