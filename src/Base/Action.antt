-- ===== src/Base/Action.antt =====
-- Go's `(value, error)` results, and code that talks to systems outside the repository.
--
-- An outside system (a database, a broker, a clock) is a part of the state, and every call of it
-- is numbered. The environment says how each call ends: `done`; `refused`, an error before the
-- call has an effect; `lost`, an error although the call had its effect (a timeout after a commit).
use Prim.Native.Nat.{ℕ, ◌+◌}
use Prim.Native.String.{String}
use mathlib.Core.Path.{◌≡◌, refl}
use mathlib.Core.Logic.{◌⊎◌, inl, inr}
use mathlib.Core.Option.{Option}
use mathlib.Core.List.{List}
use go_grpc_http.Base.Text.{◌⧺◌}

-- `err` carries a non-nil error: its text, or a gRPC status.
pub data Result {ℓ} (E A : Type ℓ) : Type ℓ where
  ok : A → Result E A
  err : E → Result E A

pub Result-cases {ℓ} :
    {E A : Type ℓ} (r : Result E A) → ((a : A) × (r ≡ ok a)) ⊎ ((e : E) × (r ≡ err e))
Result-cases (ok a) = inl (a, refl)
Result-cases (err e) = inr (e, refl)

-- fmt.Errorf("context: %w", err)
abbrev pub wrap_error : {A : Type 0} → String → Result String A → Result String A
wrap_error context (ok a) = ok a
wrap_error context (err e) = err (context ⧺ e)

abbrev pub Time : Type 0
Time = ℕ

abbrev pub Bytes : Type 0
Bytes = List ℕ

pub data Outcome : Type 0 where
  done : Outcome
  refused lost : String → Outcome

-- How the numbered calls end, and what the clock, the uuid generator and the database's row
-- counter give at each. `scan` is the order in which a query meets the rows of its table (`scanned`
-- of Base/Sql.antt), which decides between rows of one sort key. `cut` is the number of rows after which the connection of a query drops:
-- `rows.Next` then answers false, and the code does not ask `rows.Err`.
pub record Env : Type 0 where
  pub outcome : ℕ → Outcome
  pub now : ℕ → Time
  pub uuid : ℕ → String
  pub serial : ℕ → ℕ
  pub cut : ℕ → Option ℕ
  pub scan : ℕ → List ℕ

-- What the environment gives for the rows of a query.
abbrev pub reading : Env → ℕ → Option ℕ × List ℕ
reading env n = (env.cut n, env.scan n)

pub record World (S : Type 0) : Type 0 where
  pub calls : ℕ
  pub state : S

abbrev pub Action : Type 0 → Type 0 → Type 0 → Type 0
Action E S A = World S → Result E A × World S

module _ {E S A : Type 0} where
  abbrev pub pure : A → Action E S A
  pure a w = (ok a, w)

  abbrev pub fail : E → Action E S A
  fail e w = (err e, w)

  abbrev pub lift : Result E A → Action E S A
  lift r w = (r, w)

  -- A read of the environment; it cannot fail.
  abbrev pub draw : (ℕ → A) → Action E S A
  draw f w = (ok (f w.calls), record w { calls = w.calls + 1 })

module _ {E S A B : Type 0} where
  abbrev pub continue : Result E A → (A → Action E S B) → Action E S B
  continue (ok a) f w = f a w
  continue (err e) f w = (err e, w)

  infixl 10 ◌>>=◌ ◌>>◌
  abbrev pub ◌>>=◌ : Action E S A → (A → Action E S B) → Action E S B
  ◌>>=◌ m f w = let (r, w') = m w in continue r f w'

  abbrev pub ◌>>◌ : Action E S A → Action E S B → Action E S B
  m >> k = m >>= λ _. k

module _ {E F S A B : Type 0} where
  -- `if err != nil { … }`: the code goes on with the error in hand.
  abbrev pub handle : Action E S A → (Result E A → Action F S B) → Action F S B
  handle m f w = let (r, w') = m w in f r w'

module _ {S A : Type 0} where
  abbrev pub wrapping : String → Action String S A → Action String S A
  wrapping context m w = let (r, w') = m w in (wrap_error context r, w')

  abbrev pub finish : Outcome → (S → Result String A × S) → Action String S A
  finish done f w = let (r, s) = f w.state in (r, record w { state = s })
  finish (refused e) f w = (err e, w)
  finish (lost e) f w = (err e, record w { state = (f w.state).1 })

  -- One call of an outside system; `f` is what the call does and answers when it goes through.
  unfoldable pub call : Env → (S → Result String A × S) → Action String S A
  call env f w = finish (env.outcome w.calls) f (record w { calls = w.calls + 1 })

  -- A statement that changes or reads `S` and cannot itself be refused.
  abbrev pub exec : Env → (S → A × S) → Action String S A
  exec env f = call env (λ s. let (a, s') = f s in (ok a, s'))
